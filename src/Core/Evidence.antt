-- ===== src/Core/Evidence.antt =====
-- The verifier of src/worktree_review/core/findings.py: grounding of evidence spans, the derived
-- evidence band, canonical fingerprints and conservative deduplication.
-- The SHA-256 digest, the text of a Review Worktree path and `model_dump_json` are parameters.
pub mod Text
pub mod Grounding
pub mod Capped
pub mod Verify
use Prim.Native.String
use worktree_review.Base.{
  Eq, ℕ, String, Bool, true, false, not, ◌&&◌, ◌||◌, Option, none, some, List, [], ◌∷◌, ◌++◌, all,
  filter_by, max_by, ltb, leb, ◌==◌, nat_eq, string_eq, option_eq, if◌then◌else◌,
}
use worktree_review.Base.Dict.{Dict, get, put}
use worktree_review.Core.Evidence.Text.{
  normalize_evidence_path, quoted_text_matches, text_leb, texts_leb, decimal,
}
use worktree_review.Core.Findings.{
  Severity, EvidenceBand, insufficient, supported, EvidenceSource, review_worktree, target_tree,
  merge_diff, metadata, ChangeKind, added, modified, deleted, EvidenceSpan, Finding, band_rank,
  severity_rank, severity_eq, evidence_source_eq, change_kind_eq,
}

-- `_EvidenceRecord`
pub record EvidenceRecord : Type 0 where
  pub source : EvidenceSource
  pub snapshot_identity : String
  pub path : String
  pub change_kind : Option ChangeKind
  pub source_text : String

-- `ContextClass` of src/worktree_review/core/context.py
pub data ContextClass : Type 0 where
  mandatory optional excluded unreviewable : ContextClass

ContextClass-discrete : Discrete ContextClass
ContextClass-discrete = hlevel

instance unfoldable pub context_class_eq : Eq ContextClass
unfolding ContextClass-discrete
context_class_eq = record { dec = ContextClass-discrete }

-- `ContextItem` of src/worktree_review/core/context.py, but for `untrusted`, which is never false.
pub record ContextItem : Type 0 where
  pub path : String
  pub context_class : ContextClass
  pub source : EvidenceSource
  pub snapshot_identity : Option String
  pub change_kind : Option ChangeKind
  pub body : Option String
  pub omission_reason : Option String

-- The Review Worktree: `read_text` is `_read_review_worktree_text` at its root, whose answers the
-- cache keeps for a run.
pub record ReviewWorktree : Type 0 where
  pub merge_tree_oid : String
  pub read_text : String → Option String

-- `sha256(...).hexdigest()` of the UTF-8 text, and `Finding.model_dump_json`.
pub record Digests : Type 0 where
  pub sha256_hex : String → String
  pub dump_json : Finding → String

-- `EvidenceSource.value`
pub source_value : EvidenceSource → String
source_value review_worktree = "review-worktree"
source_value target_tree = "target-tree"
source_value merge_diff = "merge-diff"
source_value metadata = "metadata"

-- `change_kind.value if change_kind else ""`
pub kind_value : Option ChangeKind → String
kind_value none = ""
kind_value (some added) = "added"
kind_value (some modified) = "modified"
kind_value (some deleted) = "deleted"

-- `_evidence_record_sort_key`
unfoldable pub sort_key : EvidenceRecord → List String
unfolding source_value kind_value
sort_key r =
    source_value r.source
    ∷ r.snapshot_identity
    ∷ r.path
    ∷ kind_value r.change_kind
    ∷ r.source_text
    ∷ []

-- `sorted(items, key=key)`, where `precedes` compares the keys: an insertion sort is as stable.
unfoldable pub insert_sorted : {A : Type 0} → (A → A → Bool) → A → List A → List A
insert_sorted precedes a [] = a ∷ []
insert_sorted precedes a (b ∷ rest) =
    let later = insert_sorted precedes a rest in if precedes a b then a ∷ b ∷ rest else b ∷ later

unfoldable pub sorted : {A : Type 0} → (A → A → Bool) → List A → List A
sorted precedes [] = []
sorted precedes (a ∷ rest) = insert_sorted precedes a (sorted precedes rest)

unfoldable pub sort_records : List EvidenceRecord → List EvidenceRecord
sort_records = sorted (λ r q. texts_leb (sort_key r) (sort_key q))

-- The record of one context item, if the item is trustworthy grounding material.
unfoldable pub item_record :
    ContextItem → Option String → Option String → Option String → Option EvidenceRecord
item_record item (some path) (some snapshot) (some body) =
    if snapshot == ""
    then none
    else some (record {
      source = item.source;
      snapshot_identity = snapshot;
      path = path;
      change_kind = item.change_kind;
      source_text = body;
    })
item_record item _ _ _ = none

-- The loop of `_gathered_evidence_records`.
unfoldable pub collect_records : List ContextItem → List EvidenceRecord
collect_records [] = []
collect_records (item ∷ rest) =
    let records = collect_records rest in
    elim (item_record item (normalize_evidence_path item.path) item.snapshot_identity item.body) [
      | none ↦ records
      | some r ↦ r ∷ records
    ]

-- `_gathered_evidence_records`
unfoldable pub gathered_evidence_records : Option (List ContextItem) → List EvidenceRecord
unfolding collect_records sort_records
gathered_evidence_records none = []
gathered_evidence_records (some items) = sort_records (collect_records items)

-- `span.snapshot_identity or None`
abbrev pub nonempty : Option String → Option String
nonempty none = none
nonempty (some text) = if text == "" then none else some text

abbrev pub is_review_worktree : EvidenceSource → Bool
is_review_worktree review_worktree = true
is_review_worktree _ = false

-- The snapshot that a span asks for.
unfoldable pub requested_snapshot : EvidenceSpan → Option ReviewWorktree → Option String
requested_snapshot span worktree = elim (nonempty span.snapshot_identity) [
  | some snapshot ↦ some snapshot
  | none ↦ elim span.source [
    | review_worktree ↦ elim worktree [ none ↦ none | some w ↦ some w.merge_tree_oid ]
    | _ ↦ none
  ]
]

-- The record of the path in the Review Worktree.
unfoldable pub worktree_records :
    EvidenceSpan → String → String → Option ReviewWorktree → List EvidenceRecord
worktree_records span path snapshot none = []
worktree_records span path snapshot (some w) =
    if is_review_worktree span.source && snapshot == w.merge_tree_oid
    then elim (w.read_text path) [
      | none ↦ []
      | some text ↦
          record {
            source = review_worktree;
            snapshot_identity = w.merge_tree_oid;
            path = path;
            change_kind = none;
            source_text = text;
          }
          ∷ []
    ]
    else []

unfoldable pub matches_span : EvidenceSpan → String → String → EvidenceRecord → Bool
matches_span span path snapshot r =
    r.source == span.source && r.snapshot_identity == snapshot && r.path == path

-- `_records_for_span`, given the normalized path and the requested snapshot.
unfoldable pub records_at :
    EvidenceSpan
    → Option ReviewWorktree
    → List EvidenceRecord
    → Option String
    → Option String
    → List EvidenceRecord
records_at span worktree gathered (some path) (some snapshot) = sort_records (
    filter_by (matches_span span path snapshot) gathered
    ++ worktree_records span path snapshot worktree)
records_at span worktree gathered _ _ = []

unfoldable pub records_for_span :
    EvidenceSpan → Option ReviewWorktree → List EvidenceRecord → List EvidenceRecord
unfolding records_at
records_for_span span worktree gathered =
    records_at span worktree gathered (normalize_evidence_path span.path)
      (requested_snapshot span worktree)

-- What the loop of `_grounded_record_for_span` returns a record for.
unfoldable pub grounds : EvidenceSpan → EvidenceRecord → Bool
grounds span r =
    elim span.change_kind [ none ↦ true | some kind ↦ r.change_kind == some kind ]
    && quoted_text_matches r.source_text span.start_line span.end_line span.quoted_text

unfoldable pub first_grounding : EvidenceSpan → List EvidenceRecord → Option EvidenceRecord
first_grounding span [] = none
first_grounding span (r ∷ rest) =
    let later = first_grounding span rest in if grounds span r then some r else later

-- `_grounded_record_for_span`
unfoldable pub grounded_record :
    EvidenceSpan → Option ReviewWorktree → List EvidenceRecord → Option EvidenceRecord
unfolding first_grounding
grounded_record span worktree gathered =
    first_grounding span (records_for_span span worktree gathered)

-- `_canonical_span`
unfoldable pub canonical_span : EvidenceSpan → EvidenceRecord → EvidenceSpan
canonical_span span r = record span {
  path = r.path;
  source = r.source;
  snapshot_identity = some r.snapshot_identity;
  change_kind = r.change_kind;
}
