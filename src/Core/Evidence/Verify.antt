-- ===== src/Core/Evidence/Verify.antt =====
-- Fingerprints, the verification of one finding, the merge of duplicates and
-- `verify_and_deduplicate` of src/worktree_review/core/findings.py.
use Prim.Native.String
use worktree_review.Base.{
  ℕ, String, Bool, true, false, not, ◌&&◌, ◌||◌, Option, none, some, is_some, List, [], ◌∷◌, ◌++◌,
  map, all, max_by, ltb, ◌==◌, nat_eq, string_eq, if◌then◌else◌,
}
use worktree_review.Base.Dict.{Dict, get, put}
use worktree_review.Core.Evidence.{
  EvidenceRecord, ContextItem, ReviewWorktree, Digests, sorted, gathered_evidence_records,
  grounded_record, canonical_span,
}
use worktree_review.Core.Evidence.Text.{normalize_evidence_path, text_leb, decimal}
use worktree_review.Core.Findings.{
  insufficient, supported, EvidenceSpan, Finding, band_rank, severity_rank,
}

-- The NUL character between the parts of a fingerprint.
abbrev pub separator : String
separator = String.◌∷◌ Prim.Native.Char.nul String.[]

-- `fingerprint_finding`
unfoldable pub fingerprint_finding : Digests → String → ℕ → ℕ → String → String → String
fingerprint_finding digests path start_line end_line category problem = digests.sha256_hex (
    String.◌++◌ path (
      String.◌++◌ separator (
        String.◌++◌ (decimal start_line) (
          String.◌++◌ separator (
            String.◌++◌ (decimal end_line)
              (String.◌++◌ separator (String.◌++◌ category (String.◌++◌ separator problem))))))))

-- `_fingerprint_span_key`
unfoldable pub span_key : EvidenceSpan → Option (String × ℕ × ℕ)
span_key span = elim (normalize_evidence_path span.path) [
  | none ↦ none
  | some path ↦
      if ltb span.end_line span.start_line
      then none
      else some (path, span.start_line, span.end_line)
]

unfoldable pub span_keys : List EvidenceSpan → List (String × ℕ × ℕ)
unfolding span_key
span_keys [] = []
span_keys (span ∷ rest) =
    let keys = span_keys rest in elim (span_key span) [ none ↦ keys | some key ↦ key ∷ keys ]

-- `a < b` of two keys
unfoldable pub key_ltb : String × ℕ × ℕ → String × ℕ × ℕ → Bool
key_ltb (p, a, b) (q, c, d) = if p == q then ltb a c || a == c && ltb b d else text_leb p q

-- `min(keys)` of `best` and the rest: the first of the least, by a strict order.
unfoldable pub least {ℓ} : {A : Type ℓ} → (A → A → Bool) → A → List A → A
least below best [] = best
least below best (x ∷ rest) = least below (if below x best then x else best) rest

-- `min(span_keys, default=(_NO_EVIDENCE_PATH, 0, 0))`
unfoldable pub least_key : List (String × ℕ × ℕ) → String × ℕ × ℕ
unfolding least key_ltb
least_key [] = ("<worktree-review:no-evidence>", 0, 0)
least_key (key ∷ rest) = least key_ltb key rest

abbrev pub or_empty : Option String → String
or_empty none = ""
or_empty (some text) = text

-- `_canonical_fingerprint`
unfoldable pub canonical_fingerprint : Digests → Finding → String
unfolding fingerprint_finding span_keys least_key
canonical_fingerprint digests finding =
    let (path, start_line, end_line) = least_key (span_keys finding.evidence_spans) in
    fingerprint_finding digests path start_line end_line (or_empty finding.dimension_id)
      finding.problem_statement

abbrev pub has_spans : List EvidenceSpan → Bool
has_spans [] = false
has_spans (span ∷ rest) = true

-- `findings_by_fingerprint.setdefault(fingerprint, []).append(finding)`
abbrev pub joined : Option (Finding × List Finding) → Finding → Finding × List Finding
joined none finding = (finding, [])
joined (some (first, rest)) finding = (first, rest ++ finding ∷ [])

module _ (digests : Digests) where
  -- The key of a representative: the strongest band, then the gravest severity, then the text.
  unfoldable pub represents_before : Finding → Finding → Bool
  represents_before a b =
      if band_rank a.evidence_band == band_rank b.evidence_band
      then if severity_rank a.severity == severity_rank b.severity
        then not (text_leb (digests.dump_json b) (digests.dump_json a))
        else ltb (severity_rank b.severity) (severity_rank a.severity)
      else ltb (band_rank b.evidence_band) (band_rank a.evidence_band)

  -- `_merge_duplicate_findings` of a first finding and the others.
  unfoldable pub merge_duplicate_findings : Finding → List Finding → Finding
  unfolding least represents_before
  merge_duplicate_findings first rest = record (least represents_before first rest) {
    evidence_band =
        max_by band_rank first.evidence_band (map (λ (f : Finding). f.evidence_band) rest);
    severity = max_by severity_rank first.severity (map (λ (f : Finding). f.severity) rest);
    bypass_applied = all (λ (f : Finding). f.bypass_applied) (first ∷ rest);
  }

  -- The entries in the order of their fingerprints, each merged.
  unfoldable pub merge_groups : List (String × (Finding × List Finding)) → List Finding
  unfolding merge_duplicate_findings
  merge_groups [] = []
  merge_groups ((fingerprint, (first, rest)) ∷ groups) =
      merge_duplicate_findings first rest ∷ merge_groups groups

module _ (digests : Digests) (worktree : Option ReviewWorktree)
    (gathered : List EvidenceRecord) where
  abbrev pub is_grounded : EvidenceSpan → Bool
  is_grounded span = is_some (grounded_record span worktree gathered)

  -- A span with the provenance that the verifier observed, or as it was.
  unfoldable pub grounded_span : EvidenceSpan → EvidenceSpan
  grounded_span span = elim (grounded_record span worktree gathered) [
    | none ↦ span
    | some r ↦ canonical_span span r
  ]

  -- `_verify_finding`
  unfoldable pub verify_finding : Finding → Finding
  unfolding canonical_fingerprint
  verify_finding finding = record finding {
    fingerprint = canonical_fingerprint digests finding;
    evidence_band =
        if has_spans finding.evidence_spans && all is_grounded finding.evidence_spans
        then supported
        else insufficient;
    evidence_spans = map grounded_span finding.evidence_spans;
  }

  unfoldable pub by_fingerprint :
      List Finding → Dict String (Finding × List Finding) → Dict String (Finding × List Finding)
  by_fingerprint [] grouped = grouped
  by_fingerprint (finding ∷ rest) grouped =
      let checked = verify_finding finding in
      by_fingerprint rest
        (put grouped checked.fingerprint (joined (get grouped checked.fingerprint) checked))

-- `verify_and_deduplicate`
unfoldable pub verify_and_deduplicate :
    Digests → List Finding → Option ReviewWorktree → Option (List ContextItem) → List Finding
unfolding by_fingerprint merge_groups
verify_and_deduplicate digests findings worktree context =
    let gathered = gathered_evidence_records context in
    merge_groups digests
      (sorted (λ a b. text_leb a.0 b.0) (by_fingerprint digests worktree gathered findings []))
