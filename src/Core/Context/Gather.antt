-- ===== src/Core/Context/Gather.antt =====
-- The changes, the two loops over globs and `gather_context` of
-- src/worktree_review/core/context.py.
use Prim.Native.String
use worktree_review.Base.{
  String, Bool, not, Option, none, some, List, [], ◌∷◌, ◌++◌, map, filter_by, contains, ◌==◌,
  string_eq, if◌then◌else◌,
}
use worktree_review.Base.Exec.{Result, ok, err}
use worktree_review.Core.Context.{
  Host, item_of, item_from_bytes, coverage_from_items, path_matches_glob, path_matches_any_glob,
  change_kind_of, merge_candidate_diff_path, review_text, is_unreviewable, no_texts,
}
use worktree_review.Core.Evidence.{
  ContextClass, mandatory, optional, excluded, unreviewable, ContextItem, context_class_eq,
}
use worktree_review.Core.Findings.{
  review_worktree, target_tree, merge_diff, deleted, ContextPolicy, change_kind_eq,
}
use worktree_review.Core.Identity.{MergeCandidateIdentity}
use worktree_review.Core.Report.{CoverageRecord}

pub record GatheredContext : Type 0 where
  pub coverage : CoverageRecord
  pub items : List ContextItem

-- The variables of the two loops over globs.
pub record Progress : Type 0 where
  pub classified : List String
  pub items : List ContextItem
  pub missing : List String

module _ (host : Host) (policy : ContextPolicy) (candidate : MergeCandidateIdentity) where
  unfoldable pub is_excluded : String → Bool
  is_excluded path = path_matches_any_glob host path policy.excluded_globs

  -- The item of a change, as the first loop makes it.
  unfoldable pub change_item : String → String × String → ContextItem
  unfolding is_excluded
  change_item tree (status, path) =
      let kind = change_kind_of status in
      if is_excluded path
      then item_of path excluded review_worktree candidate.merge_tree_oid (some kind) none
          (some "excluded by Review Policy")
      else if kind == deleted
      then item_from_bytes host path (host.git_blob_bytes candidate.target_head_oid path) mandatory
          target_tree tree (some kind) policy.max_file_bytes
          "deleted path could not be read from the target head"
      else item_from_bytes host path (host.read_bytes path) mandatory review_worktree
          candidate.merge_tree_oid (some kind) policy.max_file_bytes
          "changed path is missing from the Review Worktree"

  -- `in_scope_diff_paths`
  unfoldable pub in_scope_paths : List (String × String) → List String
  unfolding is_excluded
  in_scope_paths [] = []
  in_scope_paths ((status, path) ∷ changes) =
      let rest = in_scope_paths changes in if is_excluded path then rest else path ∷ rest

  abbrev pub diff_item : ContextClass → String → Option String → Option String → ContextItem
  diff_item context_class tree body reason =
      item_of merge_candidate_diff_path context_class merge_diff
        (String.◌++◌ tree (String.◌++◌ ".." candidate.merge_tree_oid)) none body reason

  -- `_unified_diff`
  unfoldable pub unified_diff : String → List String → Result String ContextItem
  unified_diff tree [] = ok (diff_item mandatory tree (some "") none)
  unified_diff tree (path ∷ paths) =
      elim (host.run_git_diff tree candidate.merge_tree_oid (path ∷ paths)) [
        | err detail ↦ err (String.◌++◌ "git diff for merge-candidate context failed: " detail)
        | ok stdout ↦ elim (review_text host (host.encode stdout) policy.max_file_bytes) [
          | err reason ↦ ok (diff_item unreviewable tree none (some reason))
          | ok text ↦ ok (diff_item mandatory tree (some stdout) none)
        ]
      ]

  -- What a path adds in the loop over mandatory globs.
  unfoldable pub mandatory_item : String → ContextItem
  mandatory_item path =
      item_from_bytes host path (host.read_bytes path) mandatory review_worktree
        candidate.merge_tree_oid none policy.max_file_bytes "mandatory path could not be read"

  unfoldable pub add_mandatory : String → Progress → Progress
  unfolding mandatory_item
  add_mandatory path at = record at {
    classified = path ∷ at.classified;
    items = at.items ++ mandatory_item path ∷ [];
  }

  unfoldable pub optional_item : String → ContextItem
  optional_item path =
      item_from_bytes host path (host.read_bytes path) optional review_worktree
        candidate.merge_tree_oid none policy.max_file_bytes "optional path could not be read"

  -- What a path adds in the loop over optional globs: a path that cannot be reviewed is missing.
  unfoldable pub add_optional : String → Progress → Progress
  unfolding optional_item
  add_optional path at =
      let item = optional_item path in
      if is_unreviewable item
      then record at {
        classified = path ∷ at.classified;
        items = at.items ++ record item { context_class = optional; body = none } ∷ [];
        missing = at.missing ++ path ∷ [];
      }
      else record at { classified = path ∷ at.classified; items = at.items ++ item ∷ [] }

  abbrev pub glob_matches : String → List String
  glob_matches pattern = filter_by (λ path. path_matches_glob host path pattern) host.worktree_paths

  module _ (add : String → Progress → Progress) where
    -- `for path in matches`
    unfoldable pub gather_matches : List String → Progress → Progress
    unfolding is_excluded
    gather_matches [] at = at
    gather_matches (path ∷ paths) at =
        gather_matches paths
          (if contains at.classified path then at else if is_excluded path then at else add path at)

    -- `for pattern in globs`
    unfoldable pub gather_globs : List String → Progress → Progress
    unfolding gather_matches
    gather_globs [] at = at
    gather_globs (pattern ∷ patterns) at = gather_globs patterns (
        if no_texts (glob_matches pattern)
        then record at { missing = at.missing ++ pattern ∷ [] }
        else gather_matches (glob_matches pattern) at)

  -- The items of the changes, then the mandatory and the optional ones.
  unfoldable pub after_changes : String → List (String × String) → Progress
  unfolding change_item
  after_changes tree changes = record {
    classified = map (λ (change : String × String). change.1) changes;
    items = map (change_item tree) changes;
    missing = [];
  }

  unfoldable pub after_mandatory : String → List (String × String) → Progress
  unfolding after_changes gather_globs add_mandatory
  after_mandatory tree changes =
      gather_globs add_mandatory policy.mandatory_globs (after_changes tree changes)

  unfoldable pub after_optional : String → List (String × String) → Progress
  unfolding after_mandatory gather_globs add_optional
  after_optional tree changes =
      gather_globs add_optional policy.optional_globs
        (record (after_mandatory tree changes) { missing = [] })

  unfoldable pub gathered : String → List (String × String) → ContextItem → GatheredContext
  unfolding after_optional after_mandatory
  gathered tree changes diff =
      let items = diff ∷ (after_optional tree changes).items in
      record {
        coverage =
            coverage_from_items items (after_mandatory tree changes).missing
              (after_optional tree changes).missing;
        items = items;
      }

  -- `gather_context`. An error is a `ContextGatherError`.
  unfoldable pub gather_context : Result String GatheredContext
  unfolding in_scope_paths unified_diff gathered
  gather_context =
      if not host.is_repository
      then err "source repository does not exist"
      else if not host.is_worktree
      then err "Review Worktree does not exist"
      else elim (host.commit_tree_oid candidate.target_head_oid) [
        | err detail ↦ err (String.◌++◌ "cannot list merge-candidate changes: " detail)
        | ok tree ↦ elim (host.diff_name_status tree candidate.merge_tree_oid) [
          | err detail ↦ err (String.◌++◌ "cannot list merge-candidate changes: " detail)
          | ok changes ↦ elim (unified_diff tree (in_scope_paths changes)) [
            | err detail ↦ err detail
            | ok diff ↦ ok (gathered tree changes diff)
          ]
        ]
      ]
