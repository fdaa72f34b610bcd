-- ===== src/Core/Pipeline/Worktree.antt =====
-- The life of the Review Worktree in `run_review_pipeline` of src/worktree_review/core/pipeline.py.
use worktree_review.Base.{
  String, Bool, true, false, some, List, [], ◌∷◌, ◌++◌, ◌==◌, string_eq, Bool-cases, ◌⊎◌, inl, inr,
  ◌≡◌, refl, ◌∙◌, ap,
}
use worktree_review.Base.Exec.{Result, ok, err}
use worktree_review.Core.Context.Gather.{GatheredContext}
use worktree_review.Core.Dimensions.{DimensionRunResult}
use worktree_review.Core.Evidence.{ReviewWorktree}
use worktree_review.Core.Findings.{Finding}
use worktree_review.Core.Identity.{MergeCandidateIdentity}
use worktree_review.Core.Pipeline.{
  ReviewRequest, ReviewReport, Failure, review_error, other_error, ProgressStatus, Event, notified,
  materialized, cleaned, Services,
}
use worktree_review.Core.Pipeline.Run.{Completion, complete_report}
use worktree_review.Core.Pipeline.Sound.{append_nil, complete_report-log, last_events}
use worktree_review.Core.Pipeline.Stages.{
  unverified_completion, unrun_completion, identified, initial, DimensionStage, after_construct,
  after_prepare, after_gather, after_coverage, after_dimensions, after_verify, short_circuit,
  removed, run_review_pipeline, verified_findings, dimension_stage, selected_provider, gather_stage,
  owner_note,
}
use worktree_review.Core.Report.{
  StageName, ExecutionRecord, verify_dedup, run_dimensions, gather_context, prepare_review_worktree,
  construct_merge,
}

-- The events of the Review Worktree, in order.
abbrev pub worktree_events : List Event → List Event
worktree_events [] = []
worktree_events (notified stage status ∷ log) = worktree_events log
worktree_events (materialized ∷ log) = materialized ∷ worktree_events log
worktree_events (cleaned ∷ log) = cleaned ∷ worktree_events log

worktree_events-append :
    (log more : List Event)
    → worktree_events (log ++ more) ≡ worktree_events log ++ worktree_events more
worktree_events-append [] more = refl
worktree_events-append (notified stage status ∷ log) more = worktree_events-append log more
worktree_events-append (materialized ∷ log) more =
    ap (λ rest. materialized ∷ rest) (worktree_events-append log more)
worktree_events-append (cleaned ∷ log) more =
    ap (λ rest. cleaned ∷ rest) (worktree_events-append log more)

worktree_events-notified :
    (log : List Event) (stage : StageName) (status : ProgressStatus)
    → worktree_events (log ++ notified stage status ∷ []) ≡ worktree_events log
worktree_events-notified log stage status =
    worktree_events-append log (notified stage status ∷ []) ∙ append_nil (worktree_events log)

-- No Review Worktree, or one that is removed after it was prepared.
abbrev pub RemovedOrNone : List Event → Type 0
RemovedOrNone log = (worktree_events log ≡ []) ⊎ (worktree_events log ≡ materialized ∷ cleaned ∷ [])

-- The events after a run leave the Review Worktree alone.
unfoldable Leaves : List Event → Result Failure ReviewReport × List Event → Type 0
Leaves log (r, log') = worktree_events log' ≡ worktree_events log

complete_report-Leaves :
    (request : ReviewRequest) (execution : ExecutionRecord) (c : Completion) (log : List Event)
    → Leaves log (complete_report request execution c log)
unfolding Leaves
complete_report-Leaves request execution c log =
    ap worktree_events (complete_report-log request execution c log)
    ∙ worktree_events-append log last_events
    ∙ append_nil (worktree_events log)

after_notified :
    (log : List Event) (stage : StageName) (status : ProgressStatus)
    (end : Result Failure ReviewReport × List Event)
    → Leaves (log ++ notified stage status ∷ []) end
    → Leaves log end
unfolding Leaves
after_notified log stage status end h = h ∙ worktree_events-notified log stage status

raised-Leaves : (failure : Failure) (log : List Event) → Leaves log (err failure, log)
unfolding Leaves
raised-Leaves failure log = refl

none-events :
    (log : List Event) (end : Result Failure ReviewReport × List Event)
    → worktree_events log ≡ []
    → Leaves log end
    → worktree_events end.1 ≡ []
unfolding Leaves
none-events log end h leaves = leaves ∙ h

prepared-events :
    (log : List Event) (end : Result Failure ReviewReport × List Event)
    → worktree_events log ≡ []
    → Leaves (log ++ materialized ∷ []) end
    → worktree_events end.1 ≡ materialized ∷ []
unfolding Leaves
prepared-events log end h leaves =
    leaves
    ∙ worktree_events-append log (materialized ∷ [])
    ∙ ap (λ events. events ++ materialized ∷ []) h

module _ (services : Services) (request : ReviewRequest) (attempt_id : String) where
  short_circuit-Leaves :
      (stage : StageName) (detail reason : String) (execution : ExecutionRecord) (c : Completion)
      (log : List Event)
      → Leaves log (short_circuit services request attempt_id stage detail reason execution c log)
  unfolding short_circuit
  short_circuit-Leaves stage detail reason execution c log =
      after_notified log stage ProgressStatus.failed _ (complete_report-Leaves request _ _ _)

  after_verify-Leaves :
      (candidate : MergeCandidateIdentity) (gathered : GatheredContext) (stage : DimensionStage)
      (runs : List DimensionRunResult) (findings : Result Failure (List Finding))
      (execution : ExecutionRecord) (log : List Event)
      → Leaves log (
          after_verify services request attempt_id candidate gathered stage runs findings execution
            log)
  unfolding after_verify
  after_verify-Leaves candidate gathered stage runs (ok findings) execution log =
      after_notified log verify_dedup ProgressStatus.completed _
        (complete_report-Leaves request _ _ _)
  after_verify-Leaves candidate gathered stage runs (err (review_error detail)) execution log =
      short_circuit-Leaves verify_dedup detail "short-circuited after verify-dedup failure"
        execution
        (unverified_completion services request attempt_id candidate gathered stage runs detail) log
  after_verify-Leaves candidate gathered stage runs (err (other_error detail)) execution log =
      raised-Leaves _ log

  after_dimensions-Leaves :
      (candidate : MergeCandidateIdentity) (worktree : ReviewWorktree) (gathered : GatheredContext)
      (stage : DimensionStage) (runs : Result Failure (List DimensionRunResult))
      (execution : ExecutionRecord) (log : List Event)
      → Leaves log (
          after_dimensions services request attempt_id candidate worktree gathered stage runs
            execution log)
  unfolding after_dimensions
  after_dimensions-Leaves candidate worktree gathered stage (ok runs) execution log =
      after_notified log run_dimensions _ _ (
        after_notified _ verify_dedup ProgressStatus.started _ (
          after_verify-Leaves candidate gathered stage runs
            (verified_findings services request attempt_id worktree gathered runs) _ _))
  after_dimensions-Leaves candidate worktree gathered stage (err (review_error detail)) execution
        log =
      short_circuit-Leaves run_dimensions detail "short-circuited after run-dimensions failure"
        execution (unrun_completion services request attempt_id candidate gathered stage detail) log
  after_dimensions-Leaves candidate worktree gathered stage (err (other_error detail)) execution
        log =
      raised-Leaves _ log

  after_coverage-Leaves :
      (candidate : MergeCandidateIdentity) (worktree : ReviewWorktree) (gathered : GatheredContext)
      (complete : Bool) (execution : ExecutionRecord) (log : List Event)
      → Leaves log (
          after_coverage services request attempt_id candidate worktree gathered complete execution
            log)
  unfolding after_coverage
  after_coverage-Leaves candidate worktree gathered true execution log =
      let stage =
        dimension_stage services request attempt_id worktree
          (selected_provider services request attempt_id) in
      after_notified log run_dimensions ProgressStatus.started _
        (after_dimensions-Leaves candidate worktree gathered stage stage.runs execution _)
  after_coverage-Leaves candidate worktree gathered false execution log =
      complete_report-Leaves request _ _ log

  after_gather-Leaves :
      (candidate : MergeCandidateIdentity) (worktree : ReviewWorktree)
      (gathered : Result Failure GatheredContext) (execution : ExecutionRecord) (log : List Event)
      → Leaves log
          (after_gather services request attempt_id candidate worktree gathered execution log)
  unfolding after_gather
  after_gather-Leaves candidate worktree (ok gathered) execution log =
      after_notified log gather_context ProgressStatus.completed _ (
        after_coverage-Leaves candidate worktree gathered
          gathered.coverage.required_coverage_complete _ _)
  after_gather-Leaves candidate worktree (err (review_error detail)) execution log =
      short_circuit-Leaves gather_context detail "short-circuited after gather-context failure"
        execution
        (identified services request attempt_id candidate
          "Review did not complete: context gathering failed." (some detail))
        log
  after_gather-Leaves candidate worktree (err (other_error detail)) execution log =
      raised-Leaves _ log

  removed-events :
      (cleanup : Result {0, 0} Failure Unit) (result : Result Failure ReviewReport)
      (log : List Event)
      → cleanup ≡ ok tt
      → worktree_events log ≡ materialized ∷ []
      → worktree_events (removed services request attempt_id cleanup result log).1
        ≡ materialized ∷ cleaned ∷ []
  unfolding removed
  removed-events cleanup result log c h =
      rw (c) (worktree_events-append log (cleaned ∷ []) ∙ ap (λ events. events ++ cleaned ∷ []) h)

  -- A run with a Review Worktree removes it at the end.
  after_prepare-events :
      (candidate : MergeCandidateIdentity) (worktree : Result Failure ReviewWorktree)
      (execution : ExecutionRecord) (log : List Event)
      → ((w : ReviewWorktree) → services.cleanup_review_worktree w ≡ ok tt)
      → worktree_events log ≡ []
      → RemovedOrNone (after_prepare services request attempt_id candidate worktree execution log).1
  unfolding after_prepare
  after_prepare-events candidate (err (other_error detail)) execution log c h = inl h
  after_prepare-events candidate (err (review_error detail)) execution log c h = inl (
      none-events log _ h (
        short_circuit-Leaves prepare_review_worktree detail
          "short-circuited after prepare-review-worktree failure" execution
          (identified services request attempt_id candidate
            "Review did not complete: Review Worktree preparation failed." (some detail))
          log))
  after_prepare-events candidate (ok worktree) execution log c h = inr (
      removed-events (services.cleanup_review_worktree worktree) _ _ (c worktree) (
        prepared-events log _ h (
          after_notified (log ++ materialized ∷ []) prepare_review_worktree ProgressStatus.completed
            _
            (after_notified
              ((log ++ materialized ∷ [])
                ++ notified prepare_review_worktree ProgressStatus.completed ∷ [])
              gather_context ProgressStatus.started _
              (after_gather-Leaves candidate worktree
                (gather_stage services request attempt_id worktree candidate) _ _)))))

  after_construct-events :
      (candidate : Result Failure MergeCandidateIdentity) (execution : ExecutionRecord)
      (log : List Event)
      → ((w : ReviewWorktree) → services.cleanup_review_worktree w ≡ ok tt)
      → worktree_events log ≡ []
      → RemovedOrNone (after_construct services request attempt_id candidate execution log).1
  unfolding after_construct
  after_construct-events (err (other_error detail)) execution log c h = inl h
  after_construct-events (err (review_error detail)) execution log c h = inl (
      none-events log _ h (
        short_circuit-Leaves construct_merge detail "short-circuited after construct-merge failure"
          execution
          (initial services request attempt_id
            "Review did not complete: merge-candidate construction failed." (some detail))
          log))
  after_construct-events (ok candidate) execution log c h =
      after_prepare-events candidate
        (services.materialize_review_worktree candidate (owner_note services request attempt_id)) _
        _ c
        (worktree_events-notified (log ++ notified construct_merge ProgressStatus.completed ∷ [])
            prepare_review_worktree ProgressStatus.started
          ∙ worktree_events-notified log construct_merge ProgressStatus.completed
          ∙ h)

-- If a Review Worktree can always be removed, then a run, whether it returns a report or raises,
-- either prepares no Review Worktree or prepares one and then removes it.
pub review_worktree_is_removed :
    (services : Services) (request : ReviewRequest) (attempt_id : String)
    → ((worktree : ReviewWorktree) → services.cleanup_review_worktree worktree ≡ ok tt)
    → RemovedOrNone (run_review_pipeline services request attempt_id []).1
unfolding run_review_pipeline
review_worktree_is_removed services request attempt_id c = elim (Bool-cases (attempt_id == "")) [
  | inl e ↦ rw (e) (inl refl)
  | inr e ↦ rw (e) (
      after_construct-events services request attempt_id
        (services.construct_merge_candidate request.resolved) _ _ c refl)
]
