-- ===== src/Core/Pipeline/Promise.antt =====
-- What the callers of `run_review_pipeline` in src/worktree_review/core/pipeline.py rely on.
use worktree_review.Base.{
  String, Bool, true, false, List, [], ◌∷◌, ◌++◌, map, ◌==◌, string_eq, if◌then◌else◌, ◌≡◌, ◌≢◌,
  refl, subst, arith,
}
use worktree_review.Base.Exec.{Result, ok, err}
use worktree_review.Core.Context.Gather.{GatheredContext}
use worktree_review.Core.Dimensions.{Provider, DimensionRunResult}
use worktree_review.Core.Evidence.{ReviewWorktree}
use worktree_review.Core.Findings.{Finding}
use worktree_review.Core.Gate as Gate
use worktree_review.Core.Identity.{MergeCandidateIdentity}
use worktree_review.Core.Pipeline.{
  ReviewRequest, ReviewReport, ReviewCallPlan, Failure, review_error, other_error, ProgressStatus,
  Event, notified, materialized, Services,
}
use worktree_review.Core.Pipeline.Reports.{run-Sound}
use worktree_review.Core.Pipeline.Run.{all_completed, complete_report}
use worktree_review.Core.Pipeline.Sound.{Sound, endings, told, stages_completed, disclosed_input}
use worktree_review.Core.Pipeline.Stages.{
  outcomes_of_runs, DimensionStage, after_construct, after_prepare, after_gather, after_coverage,
  after_dimensions, after_verify, short_circuit, removed, run_review_pipeline, verified_findings,
  dimension_stage, estimate, planned, selected_provider, gather_stage, owner_note,
}
use worktree_review.Core.Pipeline.Typed.{
  is_typed, estimate_all-is_typed, run_required_dimensions-is_typed,
}
use worktree_review.Core.Budget.{UsageRecord}
use worktree_review.Core.Report.{
  error, run_dimensions, verify_dedup, gather_context, prepare_review_worktree, construct_merge,
  derive_identity, StageOutcome, ExecutionRecord, pipeline_stage_order,
}

-- A report that a run returns records the nine stages once each, in the order of the pipeline, and
-- the progress events tell how each stage that was started ended, in that order.
pub report_records_every_stage :
    (services : Services) (request : ReviewRequest) (attempt_id : String) (report : ReviewReport)
    (log : List Event)
    → run_review_pipeline services request attempt_id [] ≡ (ok report, log)
    → (map (λ (o : StageOutcome). o.stage) report.execution.outcomes ≡ pipeline_stage_order)
      × (endings log ≡ told report.execution.outcomes)
unfolding Sound
report_records_every_stage services request attempt_id report log e =
    let (stages, tells, full, gate) =
      subst (Sound request) e (run-Sound services request attempt_id) in
    (stages, tells)

-- Unless the gate of a report is Error, every stage that it records completed, and the gate is that
-- of the evaluator on the outcomes, coverage and findings that the report discloses.
pub gate_needs_every_stage :
    (services : Services) (request : ReviewRequest) (attempt_id : String) (report : ReviewReport)
    (log : List Event)
    → run_review_pipeline services request attempt_id [] ≡ (ok report, log)
    → report.gate_state ≢ error
    → (stages_completed report.execution.outcomes ≡ true)
      × (report.gate_state ≡ Gate.evaluate_gate (disclosed_input request report))
unfolding Sound
gate_needs_every_stage services request attempt_id report log e n =
    let (stages, tells, full, gate) =
      subst (Sound request) e (run-Sound services request attempt_id) in
    (full n, gate n)

unfoldable Reports : Result Failure ReviewReport × List Event → Type 0
Reports (r, log) = (report : ReviewReport) × (r ≡ ok report)

module _ (services : Services) (request : ReviewRequest) (attempt_id : String) where
  after_verify-Reports :
      (candidate : MergeCandidateIdentity) (gathered : GatheredContext) (stage : DimensionStage)
      (runs : List DimensionRunResult) (findings : Result Failure (List Finding))
      (execution : ExecutionRecord) (log : List Event)
      → is_typed findings ≡ true
      → Reports (
          after_verify services request attempt_id candidate gathered stage runs findings execution
            log)
  unfolding Reports after_verify short_circuit complete_report
  after_verify-Reports candidate gathered stage runs (ok findings) execution log t = (_, refl)
  after_verify-Reports candidate gathered stage runs (err (review_error detail)) execution log t =
      (_, refl)
  after_verify-Reports candidate gathered stage runs (err (other_error detail)) execution log t =
      ground (arith, t)

  after_dimensions-Reports :
      (candidate : MergeCandidateIdentity) (worktree : ReviewWorktree) (gathered : GatheredContext)
      (stage : DimensionStage) (runs : Result Failure (List DimensionRunResult))
      (execution : ExecutionRecord) (log : List Event)
      → is_typed runs ≡ true
      → Reports (
          after_dimensions services request attempt_id candidate worktree gathered stage runs
            execution log)
  unfolding Reports after_dimensions verified_findings short_circuit complete_report
  after_dimensions-Reports candidate worktree gathered stage (ok runs) execution log t =
      after_verify-Reports candidate gathered stage runs
        (verified_findings services request attempt_id worktree gathered runs) _
        ((log
            ++ notified run_dimensions (
                if all_completed (outcomes_of_runs runs)
                then ProgressStatus.completed
                else ProgressStatus.failed)
              ∷ [])
          ++ notified verify_dedup ProgressStatus.started ∷ [])
        refl
  after_dimensions-Reports candidate worktree gathered stage (err (review_error detail)) execution
        log t =
      (_, refl)
  after_dimensions-Reports candidate worktree gathered stage (err (other_error detail)) execution
        log t =
      ground (arith, t)

  -- Every estimate of the provider raises at most a `WorktreeReviewError`.
  abbrev Estimates : Result Failure Provider → Type 0
  Estimates provider =
      (p : Provider) (d : String) → provider ≡ ok p → is_typed (p.estimate_input_tokens d) ≡ true

  dimension_stage-is_typed :
      (worktree : ReviewWorktree) (provider : Result Failure Provider)
      → is_typed provider ≡ true
      → Estimates provider
      → ((plan : ReviewCallPlan) → is_typed (services.on_call_plan_ready plan) ≡ true)
      → is_typed (dimension_stage services request attempt_id worktree provider).runs ≡ true
  unfolding dimension_stage
  dimension_stage-is_typed worktree (err failure) t s p = t
  dimension_stage-is_typed worktree (ok provider) t s p =
      from (estimate services request attempt_id provider) refl
    where
      from :
          (a : Result Failure UsageRecord)
          → estimate services request attempt_id provider ≡ a
          → is_typed (dimension_stage services request attempt_id worktree (ok provider)).runs
            ≡ true
      from (err failure) a = ground (
        arith,
        a,
        estimate_all-is_typed request.review_policy.required_dimensions provider
            request.compute_policy (λ d. s provider d refl),
      )
      from (ok estimated) a = ground (
        arith,
        a,
        p (planned services request attempt_id estimated),
        run_required_dimensions-is_typed services.digests provider request.compute_policy
            worktree.merge_tree_oid request.review_policy.required_dimensions
            (λ d. s provider d refl),
      )

  after_coverage-Reports :
      (candidate : MergeCandidateIdentity) (worktree : ReviewWorktree) (gathered : GatheredContext)
      (complete : Bool) (execution : ExecutionRecord) (log : List Event)
      → is_typed (selected_provider services request attempt_id) ≡ true
      → ((plan : ReviewCallPlan) → is_typed (services.on_call_plan_ready plan) ≡ true)
      → Estimates (selected_provider services request attempt_id)
      → Reports (
          after_coverage services request attempt_id candidate worktree gathered complete execution
            log)
  unfolding Reports after_coverage complete_report
  after_coverage-Reports candidate worktree gathered true execution log t p q =
      let stage =
        dimension_stage services request attempt_id worktree
          (selected_provider services request attempt_id) in
      after_dimensions-Reports candidate worktree gathered stage stage.runs execution _
        (dimension_stage-is_typed worktree (selected_provider services request attempt_id) t q p)
  after_coverage-Reports candidate worktree gathered false execution log t p q = (_, refl)

  gather_stage-is_typed :
      (worktree : ReviewWorktree) (candidate : MergeCandidateIdentity)
      → is_typed (gather_stage services request attempt_id worktree candidate) ≡ true
  unfolding gather_stage
  gather_stage-is_typed worktree candidate = ground arith

  after_gather-Reports :
      (candidate : MergeCandidateIdentity) (worktree : ReviewWorktree)
      (gathered : Result Failure GatheredContext) (execution : ExecutionRecord) (log : List Event)
      → is_typed (selected_provider services request attempt_id) ≡ true
      → ((plan : ReviewCallPlan) → is_typed (services.on_call_plan_ready plan) ≡ true)
      → Estimates (selected_provider services request attempt_id)
      → is_typed gathered ≡ true
      → Reports (after_gather services request attempt_id candidate worktree gathered execution log)
  unfolding Reports after_gather short_circuit complete_report
  after_gather-Reports candidate worktree (ok gathered) execution log t p q g =
      after_coverage-Reports candidate worktree gathered
        gathered.coverage.required_coverage_complete _
        (log ++ notified gather_context ProgressStatus.completed ∷ []) t p q
  after_gather-Reports candidate worktree (err (review_error detail)) execution log t p q g =
      (_, refl)
  after_gather-Reports candidate worktree (err (other_error detail)) execution log t p q g =
      ground (arith, g)

  removed-Reports :
      (cleanup : Result {0, 0} Failure Unit) (result : Result Failure ReviewReport)
      (log : List Event)
      → cleanup ≡ ok tt
      → Reports (result, log)
      → Reports (removed services request attempt_id cleanup result log)
  unfolding Reports removed
  removed-Reports cleanup result log c h = rw (c) h

  after_prepare-Reports :
      (candidate : MergeCandidateIdentity) (worktree : Result Failure ReviewWorktree)
      (execution : ExecutionRecord) (log : List Event)
      → is_typed (selected_provider services request attempt_id) ≡ true
      → ((plan : ReviewCallPlan) → is_typed (services.on_call_plan_ready plan) ≡ true)
      → Estimates (selected_provider services request attempt_id)
      → ((w : ReviewWorktree) → services.cleanup_review_worktree w ≡ ok tt)
      → is_typed worktree ≡ true
      → Reports (after_prepare services request attempt_id candidate worktree execution log)
  unfolding Reports after_prepare short_circuit complete_report
  after_prepare-Reports candidate (ok worktree) execution log t p q c w =
      removed-Reports (services.cleanup_review_worktree worktree) _ _ (c worktree) (
        after_gather-Reports candidate worktree
          (gather_stage services request attempt_id worktree candidate) _
          (((log ++ materialized ∷ [])
              ++ notified prepare_review_worktree ProgressStatus.completed ∷ [])
            ++ notified gather_context ProgressStatus.started ∷ [])
          t p q (gather_stage-is_typed worktree candidate))
  after_prepare-Reports candidate (err (review_error detail)) execution log t p q c w = (_, refl)
  after_prepare-Reports candidate (err (other_error detail)) execution log t p q c w =
      ground (arith, w)

  after_construct-Reports :
      (candidate : Result Failure MergeCandidateIdentity) (execution : ExecutionRecord)
      (log : List Event)
      → is_typed (selected_provider services request attempt_id) ≡ true
      → ((plan : ReviewCallPlan) → is_typed (services.on_call_plan_ready plan) ≡ true)
      → Estimates (selected_provider services request attempt_id)
      → ((w : ReviewWorktree) → services.cleanup_review_worktree w ≡ ok tt)
      → ((c : MergeCandidateIdentity) (owner : String)
          → is_typed (services.materialize_review_worktree c owner) ≡ true)
      → is_typed candidate ≡ true
      → Reports (after_construct services request attempt_id candidate execution log)
  unfolding Reports after_construct short_circuit complete_report
  after_construct-Reports (ok candidate) execution log t p q c m k =
      after_prepare-Reports candidate
        (services.materialize_review_worktree candidate (owner_note services request attempt_id)) _
        ((log ++ notified construct_merge ProgressStatus.completed ∷ [])
          ++ notified prepare_review_worktree ProgressStatus.started ∷ [])
        t p q c (m candidate (owner_note services request attempt_id))
  after_construct-Reports (err (review_error detail)) execution log t p q c m k = (_, refl)
  after_construct-Reports (err (other_error detail)) execution log t p q c m k = ground (arith, k)

pub review_always_reports :
    (services : Services) (request : ReviewRequest) (attempt_id : String)
    → (attempt_id == "") ≡ false
    → is_typed (services.construct_merge_candidate request.resolved) ≡ true
    → ((candidate : MergeCandidateIdentity) (owner : String)
        → is_typed (services.materialize_review_worktree candidate owner) ≡ true)
    → is_typed (selected_provider services request attempt_id) ≡ true
    → ((plan : ReviewCallPlan) → is_typed (services.on_call_plan_ready plan) ≡ true)
    → ((worktree : ReviewWorktree) → services.cleanup_review_worktree worktree ≡ ok tt)
    → ((provider : Provider) (d : String)
        → selected_provider services request attempt_id ≡ ok provider
        → is_typed (provider.estimate_input_tokens d) ≡ true)
    → (report : ReviewReport) × ((run_review_pipeline services request attempt_id []).0 ≡ ok report)
unfolding Reports run_review_pipeline
review_always_reports services request attempt_id e k m t p c q = rw (e) (
    after_construct-Reports services request attempt_id
      (services.construct_merge_candidate request.resolved) _
      (notified derive_identity ProgressStatus.started
        ∷ notified derive_identity ProgressStatus.completed
        ∷ notified construct_merge ProgressStatus.started
        ∷ [])
      t p q c m k)
