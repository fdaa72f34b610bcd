-- ===== src/Core/Gate.antt =====
-- The gate evaluator of src/worktree_review/core/gate.py.
pub mod Verdict
pub mod Complete
use worktree_review.Base.{
  ℕ, String, Bool, true, false, not, ◌&&◌, ◌||◌, Option, none, some, List, [], ◌∷◌, ◌++◌, length,
  all, filter_by, contains, leb, ◌==◌, nat_eq, string_eq, if◌then◌else◌,
}
use worktree_review.Base.Dict.{Dict, get, put, values}
use worktree_review.Core.Findings.{
  EvidenceBand, insufficient, supported, verified, Finding, ReviewPolicy, band_rank, severity_eq,
}
use worktree_review.Core.Report.{
  GateState, passed, passed_with_bypass, blocked, error, StageStatus, completed, failed,
  not_started, stage_status_eq, DimensionOutcome, CoverageRecord,
}

pub record GateEvaluationInput : Type 0 where
  pub dimension_outcomes : List DimensionOutcome
  pub coverage : CoverageRecord
  pub findings : List Finding
  pub review_policy : ReviewPolicy

unfoldable pub finding_blocks_under_policy : Finding → ReviewPolicy → Bool
finding_blocks_under_policy finding policy = elim finding.evidence_band [
  | insufficient ↦ false
  | band ↦
      if not (contains policy.blocking_severities finding.severity)
      then false
      else leb (band_rank policy.minimum_blocking_evidence_band) (band_rank band)
]

abbrev pub recorded : Option (List DimensionOutcome) → List DimensionOutcome
recorded none = []
recorded (some outcomes) = outcomes

-- `outcomes_by_dimension`, on what the loop has so far.
unfoldable pub by_dimension :
    List DimensionOutcome
    → Dict String (List DimensionOutcome)
    → Dict String (List DimensionOutcome)
by_dimension [] grouped = grouped
by_dimension (outcome ∷ rest) grouped =
    by_dimension rest (
      put grouped outcome.dimension_id
        (recorded (get grouped outcome.dimension_id) ++ outcome ∷ []))

-- Each dimension has one outcome.
unfoldable pub one_each : Dict String (List DimensionOutcome) → Bool
one_each grouped = all (λ outcomes. length outcomes == 1) (values grouped)

unfoldable pub is_completed : Dict String (List DimensionOutcome) → String → Bool
is_completed grouped dimension_id = elim (get grouped dimension_id) [
  | none ↦ false
  | some [] ↦ false
  | some (outcome ∷ rest) ↦ outcome.status == completed
]

abbrev pub is_empty {ℓ} : {A : Type ℓ} → List A → Bool
is_empty [] = true
is_empty (x ∷ xs) = false

-- The gate once the review is complete.
unfoldable pub gate_of_findings : List Finding → ReviewPolicy → GateState
gate_of_findings findings policy =
    let blocking = filter_by (λ finding. finding_blocks_under_policy finding policy) findings in
    let unresolved = filter_by (λ finding. not finding.bypass_applied) blocking in
    if not (is_empty unresolved)
    then blocked
    else if not (is_empty blocking)
    then passed_with_bypass
    else passed

unfoldable pub evaluate_gate : GateEvaluationInput → GateState
unfolding by_dimension one_each
evaluate_gate input =
    let required = input.review_policy.required_dimensions in
    let grouped = by_dimension input.dimension_outcomes [] in
    if is_empty required
    then error
    else if not (one_each grouped)
    then error
    else if not (all (is_completed grouped) required)
    then error
    else if not input.coverage.required_coverage_complete
    then error
    else gate_of_findings input.findings input.review_policy
