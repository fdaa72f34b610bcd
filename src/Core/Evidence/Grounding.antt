-- ===== src/Core/Evidence/Grounding.antt =====
-- Evidence bands, provenance and duplicates in src/worktree_review/core/findings.py.
use worktree_review.Base.{
  ℕ, ◌≤◌, String, Bool, true, false, ◌&&◌, inl, inr, Option, none, some, is_some, ◌||◌, ◌==◌, ◌++◌,
  ◌∙◌, filter_by, Option-cases, List, [], ◌∷◌, map, all, any, max_by, ltb, leb, Bool-cases, nat_eq,
  string_eq, option_eq, if◌then◌else◌, ◌≡◌, refl, sym, arith,
}
use worktree_review.Base.Dict.{Dict}
use worktree_review.Core.Evidence.{
  EvidenceRecord, ContextItem, ReviewWorktree, Digests, gathered_evidence_records, grounds,
  first_grounding, records_for_span, grounded_record, records_at, worktree_records, matches_span,
  sort_records, sorted, insert_sorted, requested_snapshot,
}
use worktree_review.Core.Evidence.Verify.{
  is_grounded, has_spans, canonical_fingerprint, verify_finding, merge_duplicate_findings,
  by_fingerprint, verify_and_deduplicate,
}
use worktree_review.Core.Findings.{
  EvidenceBand, insufficient, supported, EvidenceSpan, Finding, band_rank, severity_rank,
  change_kind_eq, evidence_source_eq, review_worktree,
}
use worktree_review.Core.Evidence.Text.{normalize_evidence_path}

-- A finding with another provider band and fingerprint.
abbrev pub declared : (Finding → String) → (Finding → EvidenceBand) → Finding → Finding
declared fingerprint band f = record f { fingerprint = fingerprint f; evidence_band = band f }

module _ (digests : Digests) (worktree : Option ReviewWorktree)
    (gathered : List EvidenceRecord) where
  by_fingerprint-declared :
      (fingerprint : Finding → String) (band : Finding → EvidenceBand) (fs : List Finding)
      (grouped : Dict String (Finding × List Finding))
      → by_fingerprint digests worktree gathered (map (declared fingerprint band) fs) grouped
        ≡ by_fingerprint digests worktree gathered fs grouped
  unfolding by_fingerprint verify_finding canonical_fingerprint
  by_fingerprint-declared fingerprint band [] grouped = refl
  by_fingerprint-declared fingerprint band (f ∷ rest) grouped =
      by_fingerprint-declared fingerprint band rest _

  first_grounding-grounds :
      (span : EvidenceSpan) (records : List EvidenceRecord) (r : EvidenceRecord)
      → first_grounding span records ≡ some r
      → grounds span r ≡ true
  unfolding first_grounding
  first_grounding-grounds span [] r h = cc
  first_grounding-grounds span (q ∷ rest) r h = ground (arith, first_grounding-grounds span rest r)

-- The bands and the fingerprints that the provider declares do not change the verified findings.
pub declarations_are_ignored :
    (digests : Digests) (fingerprint : Finding → String) (band : Finding → EvidenceBand)
    (findings : List Finding) (worktree : Option ReviewWorktree)
    (context : Option (List ContextItem))
    → verify_and_deduplicate digests (map (declared fingerprint band) findings) worktree context
      ≡ verify_and_deduplicate digests findings worktree context
unfolding verify_and_deduplicate
declarations_are_ignored digests fingerprint band findings worktree context = rw (
    by_fingerprint-declared digests worktree (gathered_evidence_records context) fingerprint band
      findings [])

first_grounding-any :
    (span : EvidenceSpan) (records : List EvidenceRecord)
    → is_some (first_grounding span records) ≡ any (grounds span) records
unfolding first_grounding
first_grounding-any span [] = refl
first_grounding-any span (r ∷ rest) = ground (arith, first_grounding-any span rest)

all-same : {A : Type 0} (p q : A → Bool) (xs : List A) → ((x : A) → p x ≡ q x) → all p xs ≡ all q xs
all-same p q [] h = refl
all-same p q (x ∷ xs) h = ground (arith, h x, all-same p q xs h)

any-append :
    {A : Type 0} (test : A → Bool) (xs ys : List A)
    → any test (xs ++ ys) ≡ (any test xs || any test ys)
any-append test [] ys = refl
any-append test (x ∷ xs) ys = ground (arith, any-append test xs ys)

any-same : {A : Type 0} (p q : A → Bool) (xs : List A) → ((x : A) → p x ≡ q x) → any p xs ≡ any q xs
any-same p q [] h = refl
any-same p q (x ∷ xs) h = ground (arith, h x, any-same p q xs h)

any-false : {A : Type 0} (p : A → Bool) (xs : List A) → ((x : A) → p x ≡ false) → any p xs ≡ false
any-false p [] h = refl
any-false p (x ∷ xs) h = ground (arith, h x, any-false p xs h)

or-same : {a b c d : Bool} → a ≡ b → c ≡ d → (a || c) ≡ (b || d)
or-same p q = ground (arith, p, q)

any-filter :
    {A : Type 0} (test keep : A → Bool) (xs : List A)
    → any test (filter_by keep xs) ≡ any (λ x. keep x && test x) xs
unfolding filter_by
any-filter test keep [] = refl
any-filter test keep (x ∷ xs) = ground (arith, any-filter test keep xs)

any-insert :
    {A : Type 0} (precedes : A → A → Bool) (test : A → Bool) (a : A) (xs : List A)
    → any test (insert_sorted precedes a xs) ≡ (test a || any test xs)
unfolding insert_sorted
any-insert precedes test a [] = refl
any-insert precedes test a (x ∷ xs) = ground (arith, any-insert precedes test a xs)

any-sorted :
    {A : Type 0} (precedes : A → A → Bool) (test : A → Bool) (xs : List A)
    → any test (sorted precedes xs) ≡ any test xs
unfolding sorted
any-sorted precedes test [] = refl
any-sorted precedes test (x ∷ xs) =
    ground (arith, any-insert precedes test x (sorted precedes xs), any-sorted precedes test xs)

module _ (worktree : Option ReviewWorktree) (gathered : List EvidenceRecord) where
  -- The record is of the source of the span, the snapshot it asks for, and its path, and the span
  -- quotes it.
  abbrev pub quotes : EvidenceSpan → Option String → Option String → EvidenceRecord → Bool
  quotes span path snapshot r =
      r.source == span.source
      && some r.snapshot_identity == snapshot
      && some r.path == path
      && grounds span r

  -- What the Review Worktree has at a path.
  abbrev pub read_at : Option String → Option ReviewWorktree → List EvidenceRecord
  read_at none w = []
  read_at (some path) none = []
  read_at (some path) (some w) = elim (w.read_text path) [
    | none ↦ []
    | some text ↦
        record {
          source = review_worktree;
          snapshot_identity = w.merge_tree_oid;
          path = path;
          change_kind = none;
          source_text = text;
        }
        ∷ []
  ]

  -- The span quotes a record that was gathered, or the Review Worktree at its path.
  abbrev pub is_quoted : EvidenceSpan → Bool
  is_quoted span =
      let path = normalize_evidence_path span.path in
      any (quotes span path (requested_snapshot span worktree)) (gathered ++ read_at path worktree)

  worktree_records-quoted :
      (span : EvidenceSpan) (path snapshot : String) (w : Option ReviewWorktree)
      → any (grounds span) (worktree_records span path snapshot w)
        ≡ any (quotes span (some path) (some snapshot)) (read_at (some path) w)
  unfolding worktree_records
  worktree_records-quoted span path snapshot none = refl
  worktree_records-quoted span path snapshot (some w) = elim (Option-cases (w.read_text path)) [
    | inl n ↦ ground (arith, n)
    | inr (text, t) ↦ ground (
      arith,
      t,
      evidence_source_eq.dec review_worktree span.source,
      string_eq.dec path path,
      string_eq.dec snapshot w.merge_tree_oid,
      string_eq.dec w.merge_tree_oid snapshot,
    )
  ]

  records_at-quoted :
      (span : EvidenceSpan) (path snapshot : Option String)
      → any (grounds span) (records_at span worktree gathered path snapshot)
        ≡ any (quotes span path snapshot) (gathered ++ read_at path worktree)
  unfolding records_at sort_records matches_span
  records_at-quoted span none snapshot = ground (
    arith,
    any-append (quotes span none snapshot) gathered [],
    any-false (quotes span none snapshot) gathered (λ r. ground arith),
  )
  records_at-quoted span (some path) none = ground (
    arith,
    any-false (quotes span (some path) none) (gathered ++ read_at (some path) worktree)
        (λ r. ground arith),
  )
  records_at-quoted span (some path) (some snapshot) =
      let kept = filter_by (matches_span span path snapshot) gathered in
      let read = worktree_records span path snapshot worktree in
      any-sorted _ (grounds span) (kept ++ read)
      ∙ any-append (grounds span) kept read
      ∙ or-same
          (any-filter (grounds span) (matches_span span path snapshot) gathered
            ∙ any-same _ (quotes span (some path) (some snapshot)) gathered (λ r. ground arith))
          (worktree_records-quoted span path snapshot worktree)
      ∙ sym (
          any-append (quotes span (some path) (some snapshot)) gathered
            (read_at (some path) worktree))

pub band_is_grounding :
    (digests : Digests) (worktree : Option ReviewWorktree) (gathered : List EvidenceRecord)
    (finding : Finding)
    → (verify_finding digests worktree gathered finding).evidence_band ≡ (
        if has_spans finding.evidence_spans
          && all (is_quoted worktree gathered) finding.evidence_spans
        then supported
        else insufficient)
unfolding verify_finding grounded_record records_for_span
band_is_grounding digests worktree gathered finding = ground (
  arith,
  all-same (is_grounded digests worktree gathered) (is_quoted worktree gathered)
      finding.evidence_spans
      (λ span.
        first_grounding-any span (records_for_span span worktree gathered)
        ∙ records_at-quoted worktree gathered span (normalize_evidence_path span.path)
            (requested_snapshot span worktree)),
)

-- What bounds the largest of some keys bounds each.
max_by-bound :
    {A : Type 0} (key : A → ℕ) (best : A) (xs : List A) (m : ℕ)
    → key (max_by key best xs) ≤ m
    → (key best ≤ m) × (all (λ x. leb (key x) m) xs ≡ true)
unfolding max_by
max_by-bound key best [] m h = (h, refl)
max_by-bound key best (x ∷ xs) m h = elim (Bool-cases (ltb (key best) (key x))) [
  | inl e ↦ ground (arith, e, max_by-bound key x xs m (rw e at h))
  | inr e ↦ ground (arith, e, max_by-bound key best xs m (rw e at h))
]

all-map :
    {A B : Type 0} (test : B → Bool) (f : A → B) (xs : List A)
    → all test (map f xs) ≡ all (λ x. test (f x)) xs
all-map test f [] = refl
all-map test f (x ∷ xs) = ground (arith, all-map test f xs)

-- A merged finding is at least as severe and as well supported as every duplicate, and is bypassed
-- only if every duplicate is.
pub merge_is_conservative :
    (digests : Digests) (first : Finding) (rest : List Finding)
    → (all
          (λ f.
            leb
              (severity_rank f.severity)
              (severity_rank (merge_duplicate_findings digests first rest).severity))
          (first ∷ rest)
        ≡ true)
      × (all
            (λ f.
              leb
                (band_rank f.evidence_band)
                (band_rank (merge_duplicate_findings digests first rest).evidence_band))
            (first ∷ rest)
          ≡ true)
      × ((merge_duplicate_findings digests first rest).bypass_applied
          ≡ all (λ f. f.bypass_applied) (first ∷ rest))
unfolding merge_duplicate_findings
merge_is_conservative digests first rest =
    (severest _ (ground arith), strongest _ (ground arith), refl)
  where
    severest :
        (m : ℕ)
        → severity_rank
            (max_by severity_rank first.severity (map (λ (f : Finding). f.severity) rest))
          ≤ m
        → all (λ (f : Finding). leb (severity_rank f.severity) m) (first ∷ rest) ≡ true
    severest m h = ground (
      arith,
      max_by-bound severity_rank first.severity (map (λ (f : Finding). f.severity) rest) m h,
      all-map (λ s. leb (severity_rank s) m) (λ (f : Finding). f.severity) rest,
    )

    strongest :
        (m : ℕ)
        → band_rank
            (max_by band_rank first.evidence_band (map (λ (f : Finding). f.evidence_band) rest))
          ≤ m
        → all (λ (f : Finding). leb (band_rank f.evidence_band) m) (first ∷ rest) ≡ true
    strongest m h = ground (
      arith,
      max_by-bound band_rank first.evidence_band (map (λ (f : Finding). f.evidence_band) rest) m h,
      all-map (λ b. leb (band_rank b) m) (λ (f : Finding). f.evidence_band) rest,
    )
