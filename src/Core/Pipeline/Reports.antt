-- ===== src/Core/Pipeline/Reports.antt =====
-- The reports of `run_review_pipeline` in src/worktree_review/core/pipeline.py, stage by stage.
use worktree_review.Base.{
  String, Bool, true, false, Option, some, List, [], ◌∷◌, ◌++◌, map, ◌==◌, string_eq, Bool-cases,
  inl, inr, ◌≡◌, ◌≢◌, refl, ◌∙◌, arith,
}
use worktree_review.Base.Exec.{Result, ok, err}
use worktree_review.Core.Context.Gather.{GatheredContext}
use worktree_review.Core.Dimensions.{Provider, DimensionRunResult}
use worktree_review.Core.Dimensions.Limits.{one_result_each}
use worktree_review.Core.Evidence.{ReviewWorktree}
use worktree_review.Core.Findings.{Finding}
use worktree_review.Core.Gate as Gate
use worktree_review.Core.Gate.{GateEvaluationInput}
use worktree_review.Core.Identity.{MergeCandidateIdentity}
use worktree_review.Core.Pipeline.{
  ReviewRequest, ReviewReport, Failure, review_error, other_error, ProgressStatus, Event, notified,
  cleaned, Services,
}
use worktree_review.Core.Pipeline.Run.{
  complete_report, fill_unrecorded_stages, fill_stages, settled_gate, all_completed, outcome_of,
  report_of, resolved_coverage, resolved_outcomes,
}
use worktree_review.Core.Pipeline.Stages.{
  uncovered_completion, unverified_completion, reviewed_completion, counted, DimensionStage,
  after_construct, after_prepare, after_gather, after_coverage, after_dimensions, after_verify,
  removed, run_review_pipeline, outcomes_of_runs, verified_findings, dimension_stage,
  selected_provider, gather_stage, owner_note,
}
use worktree_review.Core.Report.{
  error, gather_context, verify_dedup, completed, StageOutcome, ExecutionRecord, gate_state_eq,
  stage_name_eq, stage_status_eq, with_outcome,
}
use worktree_review.Core.Gate.Complete.{dimension_ids, incomplete_is_error}
use worktree_review.Core.Pipeline.Sound.{
  Sound, endings, told, stages_completed, first_stages, complete-Sound, complete-refused,
  endings-append, append_nil,
}
use worktree_review.Core.Pipeline.Stopped.{
  execution1, execution2, execution3, execution4, execution5, log1, log2, log3, log4, log5,
  short_circuit-Sound, after_construct_error-Sound, after_prepare_error-Sound,
  after_gather_error-Sound, after_dimensions_error-Sound,
}

module _ (services : Services) (request : ReviewRequest) (attempt_id : String) where
  abbrev Required : List DimensionRunResult → Type 0
  Required runs =
      map (λ (run : DimensionRunResult). run.outcome.dimension_id) runs
      ≡ request.review_policy.required_dimensions

  outcome_ids :
      (runs : List DimensionRunResult)
      → dimension_ids (outcomes_of_runs runs)
        ≡ map (λ (run : DimensionRunResult). run.outcome.dimension_id) runs
  outcome_ids [] = refl
  outcome_ids (run ∷ runs) = rw (outcome_ids runs)

  -- The evaluator's input of the last report.
  abbrev last_input : GatheredContext → List DimensionRunResult → List Finding → GateEvaluationInput
  last_input gathered runs findings = record {
    dimension_outcomes =
        resolved_outcomes (some (outcomes_of_runs runs)) request.review_policy.required_dimensions;
    coverage = gathered.coverage;
    findings = findings;
    review_policy = request.review_policy;
  }

  runs_complete :
      (gathered : GatheredContext) (runs : List DimensionRunResult) (findings : List Finding)
      → Required runs
      → Gate.evaluate_gate (last_input gathered runs findings) ≢ error
      → all_completed (outcomes_of_runs runs) ≡ true
  unfolding resolved_outcomes
  runs_complete gathered [] findings ids n = refl
  runs_complete gathered (run ∷ runs) findings ids n =
      incomplete_is_error (last_input gathered (run ∷ runs) findings)
        (outcome_ids (run ∷ runs) ∙ ids) n

  reviewed_completion-Sound :
      (candidate : MergeCandidateIdentity) (gathered : GatheredContext) (stage : DimensionStage)
      (runs : List DimensionRunResult) (findings : List Finding) (execution : ExecutionRecord)
      (log : List Event)
      → map (λ (o : StageOutcome). o.stage) execution.outcomes ≡ first_stages
      → endings log ≡ told execution.outcomes
      → (all_completed (outcomes_of_runs runs) ≡ true → stages_completed execution.outcomes ≡ true)
      → Required runs
      → Sound request (
          complete_report request execution
            (reviewed_completion services request attempt_id candidate gathered stage runs findings)
            log)
  unfolding report_of resolved_coverage settled_gate
  reviewed_completion-Sound candidate gathered stage runs findings execution log stages tells full
        ids =
      complete-Sound request execution
        (reviewed_completion services request attempt_id candidate gathered stage runs findings) log
        stages tells (λ n. full (runs_complete gathered runs findings ids n))

  after_verify-Sound :
      (candidate : MergeCandidateIdentity) (gathered : GatheredContext) (stage : DimensionStage)
      (runs : List DimensionRunResult) (findings : Result Failure (List Finding))
      (d : Option String) (complete : Bool)
      → all_completed (outcomes_of_runs runs) ≡ complete
      → Required runs
      → Sound request (
          after_verify services request attempt_id candidate gathered stage runs findings
            (execution5 d complete)
            (log5 complete))
  unfolding after_verify fill_unrecorded_stages fill_stages with_outcome stage_name_eq
      stage_status_eq Sound
  after_verify-Sound candidate gathered stage runs (err (other_error detail)) d complete a ids = tt
  after_verify-Sound candidate gathered stage runs (err (review_error detail)) d true a ids =
      short_circuit-Sound services request attempt_id verify_dedup detail
        "short-circuited after verify-dedup failure" (execution5 d true)
        (unverified_completion services request attempt_id candidate gathered stage runs detail)
        (log5 true) refl refl refl
  after_verify-Sound candidate gathered stage runs (err (review_error detail)) d false a ids =
      short_circuit-Sound services request attempt_id verify_dedup detail
        "short-circuited after verify-dedup failure" (execution5 d false)
        (unverified_completion services request attempt_id candidate gathered stage runs detail)
        (log5 false) refl refl refl
  after_verify-Sound candidate gathered stage runs (ok findings) d true a ids =
      reviewed_completion-Sound candidate gathered stage runs findings
        (with_outcome (execution5 d true)
          (outcome_of verify_dedup completed (some (counted findings))))
        (log5 true ++ notified verify_dedup ProgressStatus.completed ∷ []) refl refl (λ c. refl) ids
  after_verify-Sound candidate gathered stage runs (ok findings) d false a ids =
      reviewed_completion-Sound candidate gathered stage runs findings
        (with_outcome (execution5 d false)
          (outcome_of verify_dedup completed (some (counted findings))))
        (log5 false ++ notified verify_dedup ProgressStatus.completed ∷ []) refl refl
        (λ c. ground (arith, a, c)) ids

  after_dimensions-Sound :
      (candidate : MergeCandidateIdentity) (worktree : ReviewWorktree) (gathered : GatheredContext)
      (stage : DimensionStage) (runs : Result Failure (List DimensionRunResult)) (d : Option String)
      → ((done : List DimensionRunResult) → runs ≡ ok done → Required done)
      → Sound request (
          after_dimensions services request attempt_id candidate worktree gathered stage runs
            (execution4 d)
            log4)
  unfolding after_dimensions with_outcome Sound
  after_dimensions-Sound candidate worktree gathered stage (err (other_error detail)) d ids = tt
  after_dimensions-Sound candidate worktree gathered stage (err (review_error detail)) d ids =
      after_dimensions_error-Sound services request attempt_id candidate worktree gathered stage
        detail d
  after_dimensions-Sound candidate worktree gathered stage (ok runs) d ids =
      elim (Bool-cases (all_completed (outcomes_of_runs runs))) [
        | inl c ↦ rw (c) (
            after_verify-Sound candidate gathered stage runs
              (verified_findings services request attempt_id worktree gathered runs) d true c
              (ids runs refl))
        | inr c ↦ rw (c) (
            after_verify-Sound candidate gathered stage runs
              (verified_findings services request attempt_id worktree gathered runs) d false c
              (ids runs refl))
      ]

  dimension_stage-Required :
      (worktree : ReviewWorktree) (provider : Result Failure Provider)
      (done : List DimensionRunResult)
      → (dimension_stage services request attempt_id worktree provider).runs ≡ ok done
      → Required done
  unfolding dimension_stage
  dimension_stage-Required worktree (err failure) done e = ground arith
  dimension_stage-Required worktree (ok provider) done e = ground (
    arith,
    e,
    one_result_each services.digests provider request.compute_policy worktree.merge_tree_oid
        request.review_policy.required_dimensions done,
  )

  after_coverage-Sound :
      (candidate : MergeCandidateIdentity) (worktree : ReviewWorktree) (gathered : GatheredContext)
      (complete : Bool) (d : Option String)
      → Sound request (
          after_coverage services request attempt_id candidate worktree gathered complete
            (execution4 d)
            (log3 ++ notified gather_context ProgressStatus.completed ∷ []))
  unfolding after_coverage fill_unrecorded_stages fill_stages with_outcome stage_name_eq
  after_coverage-Sound candidate worktree gathered true d =
      let stage =
        dimension_stage services request attempt_id worktree
          (selected_provider services request attempt_id) in
      after_dimensions-Sound candidate worktree gathered stage stage.runs d
        (dimension_stage-Required worktree (selected_provider services request attempt_id))
  after_coverage-Sound candidate worktree gathered false d =
      complete-refused request
        (fill_unrecorded_stages (execution4 d) "short-circuited: required coverage is incomplete")
        (uncovered_completion services request attempt_id candidate gathered)
        (log3 ++ notified gather_context ProgressStatus.completed ∷ []) refl refl refl

  after_gather-Sound :
      (candidate : MergeCandidateIdentity) (worktree : ReviewWorktree)
      (gathered : Result Failure GatheredContext) (d : Option String)
      → Sound request
          (after_gather services request attempt_id candidate worktree gathered (execution3 d) log3)
  unfolding after_gather with_outcome Sound
  after_gather-Sound candidate worktree (err (other_error detail)) d = tt
  after_gather-Sound candidate worktree (err (review_error detail)) d =
      after_gather_error-Sound services request attempt_id candidate worktree detail d
  after_gather-Sound candidate worktree (ok gathered) d =
      after_coverage-Sound candidate worktree gathered gathered.coverage.required_coverage_complete
        d

  removed-Sound :
      (cleanup : Result {0, 0} Failure Unit) (result : Result Failure ReviewReport)
      (log : List Event)
      → Sound request (result, log)
      → Sound request (removed services request attempt_id cleanup result log)
  unfolding removed Sound
  removed-Sound (err failure) result log h = tt
  removed-Sound (ok done) (err failure) log h = tt
  removed-Sound (ok done) (ok report) log (stages, tells, full, gate) =
      (stages, endings-append log (cleaned ∷ []) ∙ append_nil (endings log) ∙ tells, full, gate)

  after_prepare-Sound :
      (candidate : MergeCandidateIdentity) (worktree : Result Failure ReviewWorktree)
      (d : Option String)
      → Sound request
          (after_prepare services request attempt_id candidate worktree (execution2 d) log2)
  unfolding after_prepare with_outcome Sound
  after_prepare-Sound candidate (err (other_error detail)) d = tt
  after_prepare-Sound candidate (err (review_error detail)) d =
      after_prepare_error-Sound services request attempt_id candidate detail d
  after_prepare-Sound candidate (ok worktree) d =
      removed-Sound (services.cleanup_review_worktree worktree) _ _ (
        after_gather-Sound candidate worktree
          (gather_stage services request attempt_id worktree candidate) d)

  after_construct-Sound :
      (candidate : Result Failure MergeCandidateIdentity) (d : Option String)
      → Sound request (after_construct services request attempt_id candidate (execution1 d) log1)
  unfolding after_construct with_outcome Sound
  after_construct-Sound (err (other_error detail)) d = tt
  after_construct-Sound (err (review_error detail)) d =
      after_construct_error-Sound services request attempt_id detail d
  after_construct-Sound (ok candidate) d =
      after_prepare-Sound candidate
        (services.materialize_review_worktree candidate (owner_note services request attempt_id)) d

  pub run-Sound : Sound request (run_review_pipeline services request attempt_id [])
  unfolding run_review_pipeline Sound
  run-Sound = elim (Bool-cases (attempt_id == "")) [
    | inl e ↦ rw (e) tt
    | inr e ↦ rw (e) (after_construct-Sound (services.construct_merge_candidate request.resolved) _)
  ]
