-- ===== src/Core/Pipeline/Stages.antt =====
-- The nine stages in their order: `run_review_pipeline` of src/worktree_review/core/pipeline.py. Each
-- `after_` function is what follows the answer of a stage, with its `except` clause.
use Prim.Native.String
use worktree_review.Base.{
  String, Bool, true, false, Option, none, some, List, [], ◌∷◌, ◌++◌, map, length, ◌==◌, string_eq,
  if◌then◌else◌,
}
use worktree_review.Base.Exec.{Result, ok, err, raise, ◌>>◌}
use worktree_review.Core.Budget.{UsageRecord, refuse, preflight_budget, refuse_preflight}
use worktree_review.Core.Context.Gather as Gather
use worktree_review.Core.Context.Gather.{GatheredContext}
use worktree_review.Core.Dimensions.{Provider, DimensionRunResult, run_required_dimensions}
use worktree_review.Core.Dimensions.Estimate.{estimate_all_dimension_calls}
use worktree_review.Core.Evidence.{ReviewWorktree}
use worktree_review.Core.Evidence.Text.{decimal}
use worktree_review.Core.Evidence.Verify.{verify_and_deduplicate}
use worktree_review.Core.Findings.{Finding}
use worktree_review.Core.Identity.{MergeCandidateIdentity, ReviewRequestKey}
use worktree_review.Core.Pipeline.{
  ReviewRequest, ReviewCallPlan, ReviewReport, Failure, review_error, other_error, ProgressStatus,
  materialized, cleaned, Run, emit, notify, Services,
}
use worktree_review.Core.Pipeline.Run.{
  Completion, complete_report, fill_unrecorded_stages, coverage_error_detail, all_completed,
  outcome_of,
}
use worktree_review.Core.Report.{
  StageName, derive_identity, construct_merge, prepare_review_worktree, gather_context,
  run_dimensions, verify_dedup, completed, failed, ExecutionRecord, DimensionOutcome, with_outcome,
}

-- What the `try` of the dimensions has when it ends.
pub record DimensionStage : Type 0 where
  pub estimated : Option UsageRecord
  pub call_plan : Option ReviewCallPlan
  pub runs : Result Failure (List DimensionRunResult)

unfoldable pub measured_usage : List DimensionRunResult → List UsageRecord
measured_usage [] = []
measured_usage (run ∷ runs) =
    let rest = measured_usage runs in elim run.usage [ none ↦ rest | some usage ↦ usage ∷ rest ]

-- The records of `(estimated, *(run.usage for run in dimension_runs))` that are not None.
unfoldable pub usage_records : Option UsageRecord → List DimensionRunResult → List UsageRecord
unfolding measured_usage
usage_records none runs = measured_usage runs
usage_records (some usage) runs = usage ∷ measured_usage runs

unfoldable pub draft_findings_of : List DimensionRunResult → List Finding
draft_findings_of [] = []
draft_findings_of (run ∷ runs) = run.findings ++ draft_findings_of runs

abbrev pub outcomes_of_runs : List DimensionRunResult → List DimensionOutcome
outcomes_of_runs runs = map (λ (run : DimensionRunResult). run.outcome) runs

abbrev pub counted : List Finding → String
counted findings =
    String.◌++◌ "validated and deduplicated " (String.◌++◌ (decimal (length findings)) " findings")

module _ (services : Services) (request : ReviewRequest) (attempt_id : String) where
  abbrev pub request_key : ReviewRequestKey
  request_key = record {
    source_repository = request.resolved.source_repository;
    target_ref = request.resolved.target_ref;
    target_head_oid = request.resolved.target_head_oid;
    proposed_head_oid = request.resolved.proposed_head_oid;
    review_policy_version = request.review_policy_version;
  }

  -- The arguments of a report before there is a candidate.
  abbrev pub initial : String → Option String → Completion
  initial summary detail = record {
    attempt_id = attempt_id;
    request_key = request_key;
    merge_tree_oid = none;
    review_identity = none;
    summary = summary;
    error_detail = detail;
    coverage = none;
    findings = [];
    draft_findings = [];
    dimension_outcomes = none;
    usage = [];
    call_plan = none;
    allow_passing_gate = false;
  }

  -- And once there is one.
  abbrev pub identified : MergeCandidateIdentity → String → Option String → Completion
  identified candidate summary detail = record (initial summary detail) {
    merge_tree_oid = some candidate.merge_tree_oid;
    review_identity =
        some
          (record { candidate = candidate; review_policy_version = request.review_policy_version });
  }

  -- A stage that failed with a `WorktreeReviewError`: the stages after it do not start.
  unfoldable pub short_circuit :
      StageName → String → String → ExecutionRecord → Completion → Run ReviewReport
  unfolding with_outcome fill_unrecorded_stages
  short_circuit stage detail reason execution completion =
      notify stage ProgressStatus.failed
      >> complete_report request
          (fill_unrecorded_stages (with_outcome execution (outcome_of stage failed (some detail)))
            reason)
          completion

  -- The arguments where the coverage is incomplete, where the dimensions or the verification raised,
  -- and at the end.
  abbrev pub uncovered_completion : MergeCandidateIdentity → GatheredContext → Completion
  uncovered_completion candidate gathered =
      record (identified candidate
        "Review did not complete: required context coverage is incomplete."
        (some (coverage_error_detail gathered.coverage))) { coverage = some gathered.coverage }

  abbrev pub unrun_completion :
      MergeCandidateIdentity → GatheredContext → DimensionStage → String → Completion
  unrun_completion candidate gathered stage detail =
      record (identified candidate "Review did not complete: required review dimensions failed."
        (some detail)) {
          coverage = some gathered.coverage;
          usage = elim stage.estimated [ none ↦ [] | some usage ↦ usage ∷ [] ];
          call_plan = stage.call_plan;
        }

  abbrev pub unverified_completion :
      MergeCandidateIdentity
      → GatheredContext
      → DimensionStage
      → List DimensionRunResult
      → String
      → Completion
  unverified_completion candidate gathered stage runs detail =
      record (identified candidate "Review did not complete: finding verification failed."
        (some detail)) {
          coverage = some gathered.coverage;
          draft_findings = draft_findings_of runs;
          dimension_outcomes = some (outcomes_of_runs runs);
          usage = usage_records stage.estimated runs;
          call_plan = stage.call_plan;
        }

  abbrev pub reviewed_completion :
      MergeCandidateIdentity
      → GatheredContext
      → DimensionStage
      → List DimensionRunResult
      → List Finding
      → Completion
  reviewed_completion candidate gathered stage runs findings =
      let complete = all_completed (outcomes_of_runs runs) in
      record (identified candidate
        (if complete
          then "Review completed."
          else "Review did not complete: a required dimension failed.")
        (if complete then none else some "one or more required dimensions did not complete")) {
          coverage = some gathered.coverage;
          findings = findings;
          dimension_outcomes = some (outcomes_of_runs runs);
          usage = usage_records stage.estimated runs;
          call_plan = stage.call_plan;
          allow_passing_gate = true;
        }

  unfoldable pub after_verify :
      MergeCandidateIdentity
      → GatheredContext
      → DimensionStage
      → List DimensionRunResult
      → Result Failure (List Finding)
      → ExecutionRecord
      → Run ReviewReport
  unfolding draft_findings_of usage_records with_outcome
  after_verify candidate gathered stage runs (err (other_error detail)) execution =
      raise (other_error detail)
  after_verify candidate gathered stage runs (err (review_error detail)) execution =
      short_circuit verify_dedup detail "short-circuited after verify-dedup failure" execution
        (unverified_completion candidate gathered stage runs detail)
  after_verify candidate gathered stage runs (ok findings) execution =
      notify verify_dedup ProgressStatus.completed
      >> complete_report request
          (with_outcome execution (outcome_of verify_dedup completed (some (counted findings))))
          (reviewed_completion candidate gathered stage runs findings)

  -- `verify_and_deduplicate` as the stage calls it.
  unfoldable pub verified_findings :
      ReviewWorktree → GatheredContext → List DimensionRunResult → Result Failure (List Finding)
  unfolding draft_findings_of
  verified_findings worktree gathered runs = ok (
      verify_and_deduplicate services.digests (draft_findings_of runs) (some worktree)
        (some gathered.items))

  unfoldable pub after_dimensions :
      MergeCandidateIdentity
      → ReviewWorktree
      → GatheredContext
      → DimensionStage
      → Result Failure (List DimensionRunResult)
      → ExecutionRecord
      → Run ReviewReport
  unfolding verified_findings with_outcome
  after_dimensions candidate worktree gathered stage (err (other_error detail)) execution =
      raise (other_error detail)
  after_dimensions candidate worktree gathered stage (err (review_error detail)) execution =
      short_circuit run_dimensions detail "short-circuited after run-dimensions failure" execution
        (unrun_completion candidate gathered stage detail)
  after_dimensions candidate worktree gathered stage (ok runs) execution =
      let complete = all_completed (outcomes_of_runs runs) in
      notify run_dimensions (if complete then ProgressStatus.completed else ProgressStatus.failed)
      >> notify verify_dedup ProgressStatus.started
      >> after_verify candidate gathered stage runs (verified_findings worktree gathered runs) (
          with_outcome execution (
            if complete
            then outcome_of run_dimensions completed none
            else outcome_of run_dimensions failed
                (some "one or more required dimensions did not complete")))

  abbrev pub estimate : Provider → Result Failure UsageRecord
  estimate provider =
      estimate_all_dimension_calls request.review_policy.required_dimensions provider
        request.compute_policy

  abbrev pub planned : UsageRecord → ReviewCallPlan
  planned estimated = record {
    call_count = length request.review_policy.required_dimensions;
    estimated_input_tokens = estimated.input_tokens;
    max_output_tokens_per_call = request.compute_policy.max_output_tokens_per_call;
  }

  -- The plan, the pre-flight budget and the runs, with the provider.
  unfoldable pub dimension_stage : ReviewWorktree → Result Failure Provider → DimensionStage
  unfolding refuse_preflight
  dimension_stage worktree (err failure) = record {
    estimated = none;
    call_plan = none;
    runs = err failure;
  }
  dimension_stage worktree (ok provider) = elim (estimate provider) [
    | err failure ↦ record { estimated = none; call_plan = none; runs = err failure }
    | ok estimated ↦ record {
      estimated = some estimated;
      call_plan = some (planned estimated);
      runs = elim (preflight_budget request.compute_policy estimated) [
        | refuse ↦ err (review_error (refuse_preflight estimated))
        | _ ↦ elim (services.on_call_plan_ready (planned estimated)) [
          | err failure ↦ err failure
          | ok told ↦
              run_required_dimensions services.digests provider request.compute_policy
                worktree.merge_tree_oid request.review_policy.required_dimensions
        ]
      ];
    }
  ]

  abbrev pub selected_provider : Result Failure Provider
  selected_provider = elim services.provider [
    | some provider ↦ ok provider
    | none ↦ services.build_provider request.compute_policy
  ]

  -- `gather_context`, whose error is a `ContextGatherError`.
  unfoldable pub gather_stage :
      ReviewWorktree → MergeCandidateIdentity → Result Failure GatheredContext
  gather_stage worktree candidate =
      elim (Gather.gather_context (services.host worktree) request.review_policy.context
        candidate) [ ok gathered ↦ ok gathered | err detail ↦ err (review_error detail) ]

  -- Whether the required coverage is complete decides.
  unfoldable pub after_coverage :
      MergeCandidateIdentity
      → ReviewWorktree
      → GatheredContext
      → Bool
      → ExecutionRecord
      → Run ReviewReport
  unfolding dimension_stage fill_unrecorded_stages
  after_coverage candidate worktree gathered true execution =
      let stage = dimension_stage worktree selected_provider in
      notify run_dimensions ProgressStatus.started
      >> after_dimensions candidate worktree gathered stage stage.runs execution
  after_coverage candidate worktree gathered false execution =
      complete_report request
        (fill_unrecorded_stages execution "short-circuited: required coverage is incomplete")
        (uncovered_completion candidate gathered)

  unfoldable pub after_gather :
      MergeCandidateIdentity
      → ReviewWorktree
      → Result Failure GatheredContext
      → ExecutionRecord
      → Run ReviewReport
  unfolding with_outcome
  after_gather candidate worktree (err (other_error detail)) execution = raise (other_error detail)
  after_gather candidate worktree (err (review_error detail)) execution =
      short_circuit gather_context detail "short-circuited after gather-context failure" execution
        (identified candidate "Review did not complete: context gathering failed." (some detail))
  after_gather candidate worktree (ok gathered) execution =
      notify gather_context ProgressStatus.completed
      >> after_coverage candidate worktree gathered gathered.coverage.required_coverage_complete
          (with_outcome execution (outcome_of gather_context completed none))

  -- `finally`: an error of the removal takes the place of the result.
  unfoldable pub removed :
      Result {0, 0} Failure Unit → Result Failure ReviewReport → Run ReviewReport
  removed (ok done) result log = (result, log ++ cleaned ∷ [])
  removed (err failure) result log = (err failure, log)

  unfoldable pub after_prepare :
      MergeCandidateIdentity → Result Failure ReviewWorktree → ExecutionRecord → Run ReviewReport
  unfolding gather_stage with_outcome removed
  after_prepare candidate (err (other_error detail)) execution log = raise (other_error detail) log
  after_prepare candidate (err (review_error detail)) execution log =
      short_circuit prepare_review_worktree detail
        "short-circuited after prepare-review-worktree failure" execution
        (identified candidate "Review did not complete: Review Worktree preparation failed."
          (some detail))
        log
  after_prepare candidate (ok worktree) execution log =
      let (result, log') =
        (emit materialized
            >> notify prepare_review_worktree ProgressStatus.completed
            >> notify gather_context ProgressStatus.started
            >> after_gather candidate worktree (gather_stage worktree candidate)
                (with_outcome execution (outcome_of prepare_review_worktree completed none)))
          log in
      removed (services.cleanup_review_worktree worktree) result log'

  abbrev pub owner_note : String
  owner_note = if request.surface == "cli" then "invoking user" else "unprivileged runtime user"

  unfoldable pub after_construct :
      Result Failure MergeCandidateIdentity → ExecutionRecord → Run ReviewReport
  unfolding with_outcome
  after_construct (err (other_error detail)) execution = raise (other_error detail)
  after_construct (err (review_error detail)) execution =
      short_circuit construct_merge detail "short-circuited after construct-merge failure" execution
        (initial "Review did not complete: merge-candidate construction failed." (some detail))
  after_construct (ok candidate) execution =
      notify construct_merge ProgressStatus.completed
      >> notify prepare_review_worktree ProgressStatus.started
      >> after_prepare candidate (services.materialize_review_worktree candidate owner_note)
          (with_outcome execution (outcome_of construct_merge completed none))

  -- `run_review_pipeline`
  unfoldable pub run_review_pipeline : Run ReviewReport
  unfolding with_outcome
  run_review_pipeline =
      if attempt_id == ""
      then raise (other_error "attempt_id must be allocated before the pipeline starts")
      else notify derive_identity ProgressStatus.started
        >> notify derive_identity ProgressStatus.completed
        >> notify construct_merge ProgressStatus.started
        >> after_construct (services.construct_merge_candidate request.resolved) (record {
          outcomes =
              outcome_of derive_identity completed (some (String.◌++◌ "attempt " attempt_id)) ∷ [];
        })
