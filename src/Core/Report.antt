-- ===== src/Core/Report.antt =====
-- src/worktree_review/core/report.py: gate states, stages and their outcomes.
use worktree_review.Base.{Eq, String, Bool, Option, List, [], ◌∷◌, ◌++◌}

pub data GateState : Type 0 where
  awaiting_review in_progress passed passed_with_bypass blocked error : GateState

GateState-discrete : Discrete GateState
GateState-discrete = hlevel

instance unfoldable pub gate_state_eq : Eq GateState
unfolding GateState-discrete
gate_state_eq = record { dec = GateState-discrete }

-- `GateState.value`
unfoldable pub gate_value : GateState → String
gate_value awaiting_review = "Awaiting review"
gate_value in_progress = "In progress"
gate_value passed = "Passed"
gate_value passed_with_bypass = "Passed with bypass"
gate_value blocked = "Blocked"
gate_value error = "Error"

pub data StageName : Type 0 where
  derive_identity construct_merge prepare_review_worktree gather_context run_dimensions : StageName
  verify_dedup check_completeness evaluate_gate publish : StageName

pub data StageStatus : Type 0 where
  completed failed not_started : StageStatus

StageName-discrete : Discrete StageName
StageName-discrete = hlevel

instance unfoldable pub stage_name_eq : Eq StageName
unfolding StageName-discrete
stage_name_eq = record { dec = StageName-discrete }

-- `PIPELINE_STAGE_ORDER`
abbrev pub pipeline_stage_order : List StageName
pipeline_stage_order =
    derive_identity ∷ construct_merge ∷ prepare_review_worktree ∷ gather_context ∷ run_dimensions
    ∷ verify_dedup ∷ check_completeness ∷ evaluate_gate ∷ publish ∷ []

StageStatus-discrete : Discrete StageStatus
StageStatus-discrete = hlevel

instance unfoldable pub stage_status_eq : Eq StageStatus
unfolding StageStatus-discrete
stage_status_eq = record { dec = StageStatus-discrete }

pub record StageOutcome : Type 0 where
  pub stage : StageName
  pub status : StageStatus
  pub detail : Option String

pub record ExecutionRecord : Type 0 where
  pub outcomes : List StageOutcome

unfoldable pub with_outcome : ExecutionRecord → StageOutcome → ExecutionRecord
with_outcome execution outcome = record { outcomes = execution.outcomes ++ outcome ∷ [] }

pub record DimensionOutcome : Type 0 where
  pub dimension_id : String
  pub status : StageStatus
  pub detail : Option String

pub record CoverageRecord : Type 0 where
  pub required_coverage_complete : Bool
  pub mandatory_missing : List String
  pub optional_missing : List String
  pub excluded : List String
  pub unreviewable : List String
  pub reviewed : List String
