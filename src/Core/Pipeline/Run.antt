-- ===== src/Core/Pipeline/Run.antt =====
-- The end of every review in src/worktree_review/core/pipeline.py: `_fill_unrecorded_stages` and
-- `_complete_report`.
use Prim.Native.String
use worktree_review.Base.{
  String, Bool, true, false, not, ◌&&◌, ◌||◌, Option, none, some, List, [], ◌∷◌, ◌++◌, map, all,
  any, ◌==◌, string_eq, if◌then◌else◌,
}
use worktree_review.Base.Exec.{pure, ◌>>◌}
use worktree_review.Core.Budget.{UsageRecord}
use worktree_review.Core.Evidence.{nonempty}
use worktree_review.Core.Findings.{Finding}
use worktree_review.Core.Gate.{GateEvaluationInput, is_empty}
use worktree_review.Core.Gate as Gate
use worktree_review.Core.Identity.{ReviewRequestKey, ReviewIdentity}
use worktree_review.Core.Pipeline.{
  ReviewRequest, ReviewCallPlan, ReviewReport, ProgressStatus, Run, notify,
}
use worktree_review.Core.Report.{
  GateState, error, StageName, check_completeness, evaluate_gate, publish, StageStatus, completed,
  not_started, StageOutcome, ExecutionRecord, DimensionOutcome, CoverageRecord, with_outcome,
  gate_state_eq, stage_name_eq, stage_status_eq, pipeline_stage_order,
}

-- `_POST_FAILURE_STAGES`
abbrev pub is_post_failure : StageName → Bool
is_post_failure check_completeness = true
is_post_failure evaluate_gate = true
is_post_failure publish = true
is_post_failure _ = false

abbrev pub is_recorded : List StageOutcome → StageName → Bool
is_recorded outcomes stage = any (λ (o : StageOutcome). o.stage == stage) outcomes

-- The loop of `_fill_unrecorded_stages`, with the outcomes that were recorded before it.
unfoldable pub fill_stages :
    List StageName → List StageOutcome → String → ExecutionRecord → ExecutionRecord
unfolding with_outcome
fill_stages [] before reason execution = execution
fill_stages (stage ∷ rest) before reason execution =
    if is_recorded before stage || is_post_failure stage
    then fill_stages rest before reason execution
    else fill_stages rest before reason (
        with_outcome execution
          (record { stage = stage; status = not_started; detail = some reason }))

-- `_fill_unrecorded_stages`
unfoldable pub fill_unrecorded_stages : ExecutionRecord → String → ExecutionRecord
unfolding fill_stages
fill_unrecorded_stages execution reason =
    fill_stages pipeline_stage_order execution.outcomes reason execution

-- `", ".join(parts)` and `"; ".join(parts)`
unfoldable pub join_texts : String → List String → String
join_texts between [] = ""
join_texts between (part ∷ []) = part
join_texts between (part ∷ next ∷ rest) =
    String.◌++◌ part (String.◌++◌ between (join_texts between (next ∷ rest)))

-- One of the parts of `_coverage_error_detail`.
unfoldable pub coverage_part : String → List String → List String
unfolding join_texts
coverage_part label [] = []
coverage_part label (path ∷ paths) = String.◌++◌ label (join_texts ", " (path ∷ paths)) ∷ []

unfoldable pub coverage_error_detail : CoverageRecord → String
unfolding coverage_part join_texts
coverage_error_detail coverage =
    let detail = join_texts "; " (
      coverage_part "mandatory context missing: " coverage.mandatory_missing
      ++ coverage_part "unreviewable in-scope content: " coverage.unreviewable) in
    if detail == "" then "required coverage is incomplete" else detail

-- What `_complete_report` is called with by keyword.
pub record Completion : Type 0 where
  pub attempt_id : String
  pub request_key : ReviewRequestKey
  pub merge_tree_oid : Option String
  pub review_identity : Option ReviewIdentity
  pub summary : String
  pub error_detail : Option String
  pub coverage : Option CoverageRecord
  pub findings : List Finding
  pub draft_findings : List Finding
  pub dimension_outcomes : Option (List DimensionOutcome)
  pub usage : List UsageRecord
  pub call_plan : Option ReviewCallPlan
  pub allow_passing_gate : Bool

unfoldable pub resolved_coverage : Option CoverageRecord → CoverageRecord
resolved_coverage (some coverage) = coverage
resolved_coverage none = record {
  required_coverage_complete = false;
  mandatory_missing = [];
  optional_missing = [];
  excluded = [];
  unreviewable = [];
  reviewed = [];
}

-- `dimension_outcomes or ...`: an empty tuple counts as none.
unfoldable pub resolved_outcomes :
    Option (List DimensionOutcome) → List String → List DimensionOutcome
resolved_outcomes (some (outcome ∷ rest)) required = outcome ∷ rest
resolved_outcomes _ required =
    map
      (λ dimension_id. record { dimension_id = dimension_id; status = not_started; detail = none })
      required

abbrev pub all_completed : List DimensionOutcome → Bool
all_completed outcomes = all (λ (o : DimensionOutcome). o.status == completed) outcomes

-- The gate state and the error detail: unverified findings neither block nor pass.
unfoldable pub settled_gate : Bool → GateState → Option String → GateState × Option String
settled_gate allow_passing_gate gate_state error_detail =
    if not allow_passing_gate && not (gate_state == error)
    then (
      error,
      elim (nonempty error_detail) [
        | none ↦
            some "review cannot produce a standing decision until finding verification completes"
        | some detail ↦ some detail
      ],
    )
    else (gate_state, error_detail)

abbrev pub outcome_of : StageName → StageStatus → Option String → StageOutcome
outcome_of stage status detail = record { stage = stage; status = status; detail = detail }

-- The stages that every report records last.
unfoldable pub closed : ExecutionRecord → Bool → ExecutionRecord
unfolding with_outcome
closed execution complete =
    with_outcome
      (with_outcome
        (with_outcome execution (
          outcome_of check_completeness completed (
            if complete
            then some "required coverage and dimensions completed"
            else some "required dimensions and coverage did not complete")))
        (outcome_of evaluate_gate completed none))
      (outcome_of publish completed none)

abbrev pub announced : StageName → Run Unit
announced stage = notify stage ProgressStatus.started >> notify stage ProgressStatus.completed

-- The report that `_complete_report` returns.
unfoldable pub report_of : ReviewRequest → ExecutionRecord → Completion → ReviewReport
unfolding settled_gate resolved_coverage resolved_outcomes closed
report_of request execution c =
    let coverage = resolved_coverage c.coverage in
    let outcomes =
      resolved_outcomes c.dimension_outcomes request.review_policy.required_dimensions in
    let (gate_state, error_detail) =
      settled_gate c.allow_passing_gate
        (Gate.evaluate_gate (record {
          dimension_outcomes = outcomes;
          coverage = coverage;
          findings = c.findings;
          review_policy = request.review_policy;
        }))
        c.error_detail in
    record {
      gate_state = gate_state;
      attempt_id = c.attempt_id;
      request_key = c.request_key;
      resolved = request.resolved;
      merge_tree_oid = c.merge_tree_oid;
      review_identity = c.review_identity;
      review_policy_version = request.review_policy_version;
      compute_policy_version = request.compute_policy_version;
      compute_policy_disclosure = record {
        provider = request.compute_policy.provider;
        model = request.compute_policy.model;
        data_destination = request.compute_policy.data_destination;
        known_retention = request.compute_policy.known_retention;
        provider_configuration_fingerprint =
            request.compute_policy.provider_configuration_fingerprint;
      };
      execution = closed execution (
          coverage.required_coverage_complete && not (is_empty outcomes) && all_completed outcomes);
      findings = c.findings;
      draft_findings = c.draft_findings;
      coverage = some coverage;
      dimension_outcomes = outcomes;
      usage = c.usage;
      call_plan = c.call_plan;
      summary = c.summary;
      error_detail = error_detail;
    }

-- `_complete_report`
unfoldable pub complete_report : ReviewRequest → ExecutionRecord → Completion → Run ReviewReport
unfolding report_of
complete_report request execution c =
    announced check_completeness
    >> announced evaluate_gate
    >> announced publish
    >> pure (report_of request execution c)
