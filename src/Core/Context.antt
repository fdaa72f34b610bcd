-- ===== src/Core/Context.antt =====
-- Context gathering of src/worktree_review/core/context.py: the globs, what cannot be reviewed, the
-- items and their coverage.
-- `fnmatch`, the UTF-8 codec, git's answers and the files of the Review Worktree are parameters. A
-- byte is its number.
pub mod Gather
pub mod Loops
pub mod Complete
pub mod Scope
use Prim.Native.Char.{code}
use Prim.Native.String
use worktree_review.Base.{
  ℕ, String, Bool, true, false, not, ◌&&◌, ◌||◌, Option, none, some, is_some, List, [], ◌∷◌, ◌++◌,
  length, any, map, filter_by, ltb, contains, ◌==◌, nat_eq, string_eq, if◌then◌else◌,
}
use worktree_review.Base.Exec.{Result, ok, err}
use worktree_review.Core.Evidence.{
  ContextClass, mandatory, optional, excluded, unreviewable, ContextItem, context_class_eq,
}
use worktree_review.Core.Evidence.Text.{
  forward_slashes, without_dots, starts_with_slash, split_slashes, has_prefix, take, decimal,
}
use worktree_review.Core.Findings.{
  EvidenceSource, review_worktree, target_tree, merge_diff, ChangeKind, added, modified, deleted,
  ContextPolicy, change_kind_eq,
}
use worktree_review.Core.Report.{CoverageRecord}

abbrev pub Bytes : Type 0
Bytes = List ℕ

-- What gathering asks of git, the file system and the standard library.
pub record Host : Type 0 where
  pub fnmatch : String → String → Bool
  pub decode : Bytes → Option String
  pub encode : String → Bytes
  pub is_repository : Bool
  pub is_worktree : Bool
  pub commit_tree_oid : String → Result String String
  pub diff_name_status : String → String → Result String (List (String × String))
  pub git_blob_bytes : String → String → Option Bytes
  pub run_git_diff : String → String → List String → Result String String
  pub worktree_paths : List String
  pub read_bytes : String → Option Bytes

-- `text.lstrip("/")`
unfoldable pub without_leading_slashes : String → String
without_leading_slashes String.[] = ""
without_leading_slashes (String.◌∷◌ c text) =
    let rest = without_leading_slashes text in if code c == 47 then rest else String.◌∷◌ c text

-- `text.rstrip("/")`
unfoldable pub without_trailing_slashes : String → String
without_trailing_slashes String.[] = ""
without_trailing_slashes (String.◌∷◌ c text) =
    let rest = without_trailing_slashes text in
    if code c == 47 && rest == "" then "" else String.◌∷◌ c rest

-- `_normalize_relative_path`
unfoldable pub normalize_relative_path : String → String
unfolding without_leading_slashes
normalize_relative_path path = without_leading_slashes (without_dots (forward_slashes path))

-- `parts[-1]` of `first` and the rest.
abbrev pub last_part : String → List String → String
last_part first [] = first
last_part first (part ∷ parts) = last_part part parts

-- `text.rsplit("/", 1)[-1]`
unfoldable pub basename : String → String
basename path = last_part "" (split_slashes path)

-- `pattern[3:]` where `pattern.startswith("**/")`
unfoldable pub after_any_folder : String → Option String
after_any_folder (String.◌∷◌ a (String.◌∷◌ b (String.◌∷◌ c text))) =
    if code a == 42 && code b == 42 && code c == 47 then some text else none
after_any_folder text = none

unfoldable pub has_slash : String → Bool
has_slash String.[] = false
has_slash (String.◌∷◌ c text) = code c == 47 || has_slash text

-- `_change_kind`
unfoldable pub change_kind_of : String → ChangeKind
change_kind_of status = if status == "A" then added else if status == "D" then deleted else modified

-- `MERGE_CANDIDATE_DIFF_PATH`
abbrev pub merge_candidate_diff_path : String
merge_candidate_diff_path = "merge-candidate.diff"

abbrev pub item_of :
    String
    → ContextClass
    → EvidenceSource
    → String
    → Option ChangeKind
    → Option String
    → Option String
    → ContextItem
item_of path context_class source snapshot kind body reason = record {
  path = path;
  context_class = context_class;
  source = source;
  snapshot_identity = some snapshot;
  change_kind = kind;
  body = body;
  omission_reason = reason;
}

-- How an unreviewable item is disclosed.
unfoldable pub disclosed : ContextItem → String
disclosed item = elim item.omission_reason [
  | none ↦ item.path
  | some reason ↦
      if reason == ""
      then item.path
      else String.◌++◌ item.path (String.◌++◌ " (" (String.◌++◌ reason ")"))
]

abbrev pub no_texts : List String → Bool
no_texts [] = true
no_texts (text ∷ texts) = false

abbrev pub is_unreviewable : ContextItem → Bool
is_unreviewable item = item.context_class == unreviewable

-- `_coverage_from_items`
unfoldable pub coverage_from_items : List ContextItem → List String → List String → CoverageRecord
unfolding disclosed
coverage_from_items items mandatory_missing optional_missing =
    let unreviewable_paths = map disclosed (filter_by is_unreviewable items) in
    record {
      required_coverage_complete = no_texts mandatory_missing && no_texts unreviewable_paths;
      mandatory_missing = mandatory_missing;
      optional_missing = optional_missing;
      excluded =
          map (λ (item : ContextItem). item.path)
            (filter_by (λ (item : ContextItem). item.context_class == excluded) items);
      unreviewable = unreviewable_paths;
      reviewed =
          map (λ (item : ContextItem). item.path)
            (filter_by
              (λ (item : ContextItem).
                (item.context_class == mandatory || item.context_class == optional)
                && is_some item.body)
              items);
    }

module _ (host : Host) where
  unfoldable pub path_matches_glob : String → String → Bool
  unfolding normalize_relative_path basename
  path_matches_glob path pattern =
      let normalized = normalize_relative_path path in
      host.fnmatch normalized pattern
      || host.fnmatch (basename normalized) pattern
      || elim (after_any_folder pattern) [ none ↦ false | some rest ↦ host.fnmatch normalized rest ]
      || not (has_slash (without_trailing_slashes pattern))
        && host.fnmatch normalized (String.◌++◌ "**/" pattern)

  unfoldable pub path_matches_any_glob : String → List String → Bool
  path_matches_any_glob path patterns = any (path_matches_glob path) patterns

  -- `unreviewable_reason` with the text, where there is no reason.
  unfoldable pub review_text : Bytes → ℕ → Result String String
  review_text bytes max_file_bytes =
      if ltb max_file_bytes (length bytes)
      then err (
          String.◌++◌ "exceeds max_file_bytes (" (
            String.◌++◌ (decimal (length bytes))
              (String.◌++◌ " > " (String.◌++◌ (decimal max_file_bytes) ")"))))
      else if contains (take 8192 bytes) 0
      then err "binary (NUL byte)"
      else elim (host.decode bytes) [
        | none ↦ err "not valid UTF-8"
        | some text ↦
            if has_prefix "version https://git-lfs.github.com/spec/v1" text
            then err "git-lfs pointer"
            else ok text
      ]

  unfoldable pub unreviewable_reason : Bytes → ℕ → Option String
  unfolding review_text
  unreviewable_reason bytes max_file_bytes = elim (review_text bytes max_file_bytes) [
    | ok text ↦ none
    | err reason ↦ some reason
  ]

  -- `_item_from_bytes`
  unfoldable pub item_from_bytes :
      String
      → Option Bytes
      → ContextClass
      → EvidenceSource
      → String
      → Option ChangeKind
      → ℕ
      → String
      → ContextItem
  unfolding review_text
  item_from_bytes path none context_class source snapshot kind max_file_bytes missing =
      item_of path (if context_class == mandatory then unreviewable else context_class) source
        snapshot kind none (some missing)
  item_from_bytes path (some bytes) context_class source snapshot kind max_file_bytes missing =
      elim (review_text bytes max_file_bytes) [
        | err reason ↦ item_of path unreviewable source snapshot kind none (some reason)
        | ok text ↦ item_of path context_class source snapshot kind (some text) none
      ]
