-- ===== src/Core/Pipeline.antt =====
-- The data of the review pipeline: src/worktree_review/core/pipeline.py, with the report of
-- src/worktree_review/core/report.py.
-- Building the merge candidate, the Review Worktree and the provider are parameters, as is the
-- callback of the call plan; an exception is a `WorktreeReviewError` or another one. Progress events
-- carry no clock.
pub mod Run
pub mod Stages
pub mod Sound
pub mod Stopped
pub mod Reports
pub mod Typed
pub mod Promise
pub mod Worktree
pub mod Reads
mod Examples
use worktree_review.Base.{ℕ, String, Bool, Option, List, [], ◌∷◌, ◌++◌}
use worktree_review.Base.Exec.{Result, ok, Exec}
use worktree_review.Core.Budget.{UsageRecord, ComputePolicy}
use worktree_review.Core.Context.{Host}
use worktree_review.Core.Dimensions.{Provider}
use worktree_review.Core.Evidence.{ReviewWorktree, Digests}
use worktree_review.Core.Findings.{Finding, ReviewPolicy}
use worktree_review.Core.Identity.{
  PolicyVersionIdentity, ReviewRequestKey, ResolvedCommitPair, MergeCandidateIdentity,
  ReviewIdentity,
}
pub use worktree_review.Core.Failure.{Failure, review_error, other_error}
use worktree_review.Core.Report.{
  GateState, StageName, ExecutionRecord, DimensionOutcome, CoverageRecord,
}

pub record ReviewRequest : Type 0 where
  pub resolved : ResolvedCommitPair
  pub review_policy : ReviewPolicy
  pub review_policy_version : PolicyVersionIdentity
  pub compute_policy : ComputePolicy
  pub compute_policy_version : PolicyVersionIdentity
  pub surface : String

pub record ComputePolicyDisclosure : Type 0 where
  pub provider : String
  pub model : String
  pub data_destination : String
  pub known_retention : String
  pub provider_configuration_fingerprint : Option String

pub record ReviewCallPlan : Type 0 where
  pub call_count : ℕ
  pub estimated_input_tokens : Option ℕ
  pub max_output_tokens_per_call : ℕ

pub record ReviewReport : Type 0 where
  pub gate_state : GateState
  pub attempt_id : String
  pub request_key : ReviewRequestKey
  pub resolved : ResolvedCommitPair
  pub merge_tree_oid : Option String
  pub review_identity : Option ReviewIdentity
  pub review_policy_version : PolicyVersionIdentity
  pub compute_policy_version : PolicyVersionIdentity
  pub compute_policy_disclosure : ComputePolicyDisclosure
  pub execution : ExecutionRecord
  pub findings : List Finding
  pub draft_findings : List Finding
  pub coverage : Option CoverageRecord
  pub dimension_outcomes : List DimensionOutcome
  pub usage : List UsageRecord
  pub call_plan : Option ReviewCallPlan
  pub summary : String
  pub error_detail : Option String

-- The `status` of a `ReviewProgressEvent`
pub data ProgressStatus : Type 0 where
  started completed failed : ProgressStatus

-- What a run does outside of its report: progress events of stages, and the life of the Review
-- Worktree.
pub data Event : Type 0 where
  notified : StageName → ProgressStatus → Event
  materialized cleaned : Event

abbrev pub Run : Type 0 → Type 0
Run A = Exec (List Event) Failure A

-- An effect, after those before.
abbrev pub emit : Event → Run Unit
emit event log = (ok tt, log ++ event ∷ [])

abbrev pub notify : StageName → ProgressStatus → Run Unit
notify stage status = emit (notified stage status)

-- The work of the stages that is done elsewhere.
pub record Services : Type 0 where
  pub construct_merge_candidate : ResolvedCommitPair → Result Failure MergeCandidateIdentity
  pub materialize_review_worktree : MergeCandidateIdentity → String → Result Failure ReviewWorktree
  pub cleanup_review_worktree : ReviewWorktree → Result {0, 0} Failure Unit
  pub host : ReviewWorktree → Host
  pub provider : Option Provider
  pub build_provider : ComputePolicy → Result Failure Provider
  pub on_call_plan_ready : ReviewCallPlan → Result {0, 0} Failure Unit
  pub digests : Digests
