-- ===== src/Platform/Bypass.antt =====
-- The data and the checks of one finding bypass in src/worktree_review/platform/github/bypass.py.
-- The secret scrubber, the GitHub store, the authorizer, the frozen policy and the digest of a risk
-- snapshot are parameters; a rejection keeps its code and not its text.
pub mod Reason
pub mod Request
pub mod Granted
pub mod Refused
mod Examples
use worktree_review.Base.{
  ℕ, String, Bool, true, false, not, ◌&&◌, Option, none, some, is_some, List, [], ◌∷◌, map, all,
  any, ◌==◌, string_eq, if◌then◌else◌,
}
use worktree_review.Base.Exec.{Result}
use worktree_review.Core.Evidence.{source_value, kind_value}
use worktree_review.Core.Findings.{
  Severity, critical, major, minor, suggestion, EvidenceBand, insufficient, supported, verified,
  ChangeKind, EvidenceSpan, Finding, ReviewPolicy,
}
use worktree_review.Core.Identity.{PolicyVersionIdentity, ReviewRequestKey}
use worktree_review.Core.Pipeline.{ReviewReport}
use worktree_review.Core.Report.{
  blocked, StageName, derive_identity, construct_merge, gather_context, run_dimensions,
  verify_dedup, check_completeness, evaluate_gate, completed, StageOutcome, gate_state_eq,
  stage_name_eq, stage_status_eq,
}
use worktree_review.Server.Json.{
  Json, null, num, str, arr, obj, Items, nil, cons, Fields, end, field, opt_str,
}
use worktree_review.Server.State.{Locator, Error}

pub record BypassRequest : Type 0 where
  pub attempt_id : String
  pub finding_fingerprint : String
  pub actor_id : Option ℕ
  pub actor_login : String
  pub reason : String

-- `BypassRejectionError` with its code, `BypassAuthorizationError`,
-- `BypassAuthorizationUnavailableError`, `BypassStorageUnavailableError`, and what the store raises
-- for the event of a denial.
pub data BypassError : Type 0 where
  rejected : String → BypassError
  not_authorized : BypassError
  role_unavailable : BypassError
  storage_unavailable : BypassError
  store_error : Error → BypassError

-- What the coordinator reads of an `AttemptExecutionSnapshot`.
pub record Snapshot : Type 0 where
  pub change_request : Locator
  pub request_key : ReviewRequestKey
  pub review_policy_sha256 : String

-- What the coordinator asks outside of this repository's store: the error of the authorizer is any
-- exception, that of the policy is the code of a `FrozenReviewPolicyError`.
pub record BypassHost : Type 0 where
  pub scrub_secret_content : String → String
  pub get_execution_snapshot : String → Option Snapshot
  pub may_bypass : Locator → String → Result String Bool
  pub get_check_run_id : String → Option ℕ
  pub is_published : String → Bool
  pub get_review_result : String → Option ReviewReport
  pub resolve_frozen_review_policy : Snapshot → PolicyVersionIdentity → Result String ReviewPolicy
  pub risk_digest : Fields → String

-- `Severity.value`
unfoldable pub severity_value : Severity → String
severity_value critical = "critical"
severity_value major = "major"
severity_value minor = "minor"
severity_value suggestion = "suggestion"

-- `EvidenceBand.value`
unfoldable pub band_value : EvidenceBand → String
band_value insufficient = "insufficient"
band_value supported = "supported"
band_value verified = "verified"

unfoldable pub span_snapshot : EvidenceSpan → Json
span_snapshot span = obj (
    field "path" (str span.path) (
      field "start_line" (num span.start_line) (
        field "end_line" (num span.end_line) (
          field "source" (str (source_value span.source)) (
            field "snapshot_identity" (opt_str span.snapshot_identity) (
              field "change_kind"
                (elim span.change_kind [ none ↦ null | some kind ↦ str (kind_value (some kind)) ])
                end))))))

unfoldable pub span_snapshots : List EvidenceSpan → Items
unfolding span_snapshot
span_snapshots [] = nil
span_snapshots (span ∷ spans) = cons (span_snapshot span) (span_snapshots spans)

-- `risk_snapshot_for_finding`
unfoldable pub risk_snapshot_for_finding : Finding → Fields
unfolding severity_value band_value span_snapshots
risk_snapshot_for_finding finding = field "severity" (str (severity_value finding.severity)) (
    field "evidence_band" (str (band_value finding.evidence_band)) (
      field "dimension_id" (opt_str finding.dimension_id) (
        field "problem_statement" (str finding.problem_statement) (
          field "expected_impact" (str finding.expected_impact)
            (field "evidence_spans" (arr (span_snapshots finding.evidence_spans)) end)))))

-- `_COMPLETE_REVIEW_STAGES`
abbrev pub complete_review_stages : List StageName
complete_review_stages =
    derive_identity ∷ construct_merge ∷ gather_context ∷ run_dimensions ∷ verify_dedup
    ∷ check_completeness ∷ evaluate_gate ∷ []

-- The stage is among the completed ones of the report.
abbrev pub has_completed : List StageOutcome → StageName → Bool
has_completed outcomes stage =
    any (λ (o : StageOutcome). o.stage == stage && o.status == completed) outcomes

unfoldable pub report_is_complete_blocked : ReviewReport → Bool
report_is_complete_blocked report =
    report.gate_state == blocked
    && is_some report.review_identity
    && all (has_completed report.execution.outcomes) complete_review_stages
    && elim report.coverage [ none ↦ false | some coverage ↦ coverage.required_coverage_complete ]
