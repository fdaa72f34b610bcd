-- ===== src/Core/Evidence/Capped.antt =====
-- How strong the evidence of a finding can get in src/worktree_review/core/findings.py.
use worktree_review.Base.{
  String, Bool, true, ◌&&◌, Option, none, some, List, [], ◌∷◌, ◌++◌, map, all, max_by, leb, nat_eq,
  string_eq, option_eq, ◌≡◌, ◌∙◌, refl, arith,
}
use worktree_review.Base.Dict.{Dict, get, put}
use worktree_review.Core.Evidence.{
  EvidenceRecord, ContextItem, ReviewWorktree, Digests, sorted, insert_sorted,
  gathered_evidence_records,
}
use worktree_review.Core.Evidence.Text.{text_leb}
use worktree_review.Core.Evidence.Verify.{
  verify_finding, merge_duplicate_findings, joined, by_fingerprint, merge_groups,
  verify_and_deduplicate,
}
use worktree_review.Core.Findings.{EvidenceBand, supported, Finding, band_rank, change_kind_eq}

-- At most supported.
abbrev is_capped : Finding → Bool
is_capped f = leb (band_rank f.evidence_band) 1

abbrev group_capped : Finding × List Finding → Bool
group_capped (first, rest) = is_capped first && all is_capped rest

abbrev entry_capped : String × (Finding × List Finding) → Bool
entry_capped (key, group) = group_capped group

all-append :
    {A : Type 0} (test : A → Bool) (xs ys : List A)
    → all test (xs ++ ys) ≡ (all test xs && all test ys)
all-append test [] ys = refl
all-append test (x ∷ xs) ys = ground (arith, all-append test xs ys)

get-capped :
    (grouped : Dict String (Finding × List Finding)) (key : String) (group : Finding × List Finding)
    → all entry_capped grouped ≡ true
    → get grouped key ≡ some group
    → group_capped group ≡ true
unfolding get
get-capped [] key group h p = cc
get-capped ((k, g) ∷ rest) key group h p = ground (arith, get-capped rest key group)

put-capped :
    (grouped : Dict String (Finding × List Finding)) (key : String) (group : Finding × List Finding)
    → all entry_capped grouped ≡ true
    → group_capped group ≡ true
    → all entry_capped (put grouped key group) ≡ true
unfolding put
put-capped [] key group h p = ground arith
put-capped ((k, g) ∷ rest) key group h p = ground (arith, put-capped rest key group)

insert-all :
    {A : Type 0} (test : A → Bool) (precedes : A → A → Bool) (a : A) (xs : List A)
    → all test (insert_sorted precedes a xs) ≡ (test a && all test xs)
unfolding insert_sorted
insert-all test precedes a [] = refl
insert-all test precedes a (x ∷ xs) = ground (arith, insert-all test precedes a xs)

sorted-all :
    {A : Type 0} (test : A → Bool) (precedes : A → A → Bool) (xs : List A)
    → all test (sorted precedes xs) ≡ all test xs
unfolding sorted
sorted-all test precedes [] = refl
sorted-all test precedes (x ∷ xs) =
    ground (arith, insert-all test precedes x (sorted precedes xs), sorted-all test precedes xs)

-- The largest band of capped findings is capped.
max-capped :
    (band : EvidenceBand) (fs : List Finding)
    → leb (band_rank band) 1 ≡ true
    → all is_capped fs ≡ true
    → leb (band_rank (max_by band_rank band (map (λ (f : Finding). f.evidence_band) fs))) 1 ≡ true
unfolding max_by
max-capped band [] h p = h
max-capped band (f ∷ rest) h p =
    ground (arith, max-capped f.evidence_band rest, max-capped band rest h)

module _ (digests : Digests) (worktree : Option ReviewWorktree)
    (gathered : List EvidenceRecord) where
  verify-capped : (f : Finding) → is_capped (verify_finding digests worktree gathered f) ≡ true
  unfolding verify_finding
  verify-capped f = ground arith

  by_fingerprint-capped :
      (fs : List Finding) (grouped : Dict String (Finding × List Finding))
      → all entry_capped grouped ≡ true
      → all entry_capped (by_fingerprint digests worktree gathered fs grouped) ≡ true
  unfolding by_fingerprint
  by_fingerprint-capped [] grouped h = h
  by_fingerprint-capped (f ∷ rest) grouped h = by_fingerprint-capped rest _ (
      put-capped grouped key (joined (get grouped key) checked) h
        (joined-capped (get grouped key) refl))
    where
      checked : Finding
      checked = verify_finding digests worktree gathered f

      key : String
      key = checked.fingerprint

      joined-capped :
          (group : Option (Finding × List Finding))
          → get grouped key ≡ group
          → group_capped (joined group checked) ≡ true
      joined-capped none e = ground (arith, verify-capped f)
      joined-capped (some (first, others)) e = ground (
        arith,
        verify-capped f,
        get-capped grouped key (first, others) h e,
        all-append is_capped others (checked ∷ []),
      )

  merge-capped :
      (groups : List (String × (Finding × List Finding)))
      → all entry_capped groups ≡ true
      → all is_capped (merge_groups digests groups) ≡ true
  unfolding merge_groups merge_duplicate_findings
  merge-capped [] h = refl
  merge-capped ((key, (first, rest)) ∷ groups) h =
      ground (arith, max-capped first.evidence_band rest, merge-capped groups)

-- No finding leaves the verifier with more than supported evidence.
pub evidence_is_capped :
    (digests : Digests) (findings : List Finding) (worktree : Option ReviewWorktree)
    (context : Option (List ContextItem))
    → all
        (λ f. leb (band_rank f.evidence_band) (band_rank supported))
        (verify_and_deduplicate digests findings worktree context)
      ≡ true
unfolding verify_and_deduplicate
evidence_is_capped digests findings worktree context =
    let gathered = gathered_evidence_records context in
    let groups = by_fingerprint digests worktree gathered findings [] in
    merge-capped digests worktree gathered (sorted (λ a b. text_leb a.0 b.0) groups) (
      sorted-all entry_capped (λ a b. text_leb a.0 b.0) groups
      ∙ by_fingerprint-capped digests worktree gathered findings [] refl)
