-- ===== src/Core/Pipeline/Stopped.antt =====
-- The records and events up to each stage of `run_review_pipeline` in
-- src/worktree_review/core/pipeline.py, and the reports of the stages that raise.
use worktree_review.Base.{
  String, Bool, false, Option, none, some, List, [], ◌∷◌, ◌++◌, map, string_eq, if◌then◌else◌, ◌≡◌,
  refl,
}
use worktree_review.Base.Exec.{err}
use worktree_review.Core.Context.Gather.{GatheredContext}
use worktree_review.Core.Evidence.{ReviewWorktree}
use worktree_review.Core.Identity.{MergeCandidateIdentity}
use worktree_review.Core.Pipeline.{
  ReviewRequest, review_error, ProgressStatus, Event, notified, materialized, Services,
}
use worktree_review.Core.Pipeline.Run.{Completion, fill_unrecorded_stages, fill_stages, outcome_of}
use worktree_review.Core.Pipeline.Stages.{
  unrun_completion, DimensionStage, after_construct, after_prepare, after_gather, after_dimensions,
  short_circuit, initial, identified,
}
use worktree_review.Core.Report.{
  StageName, derive_identity, construct_merge, prepare_review_worktree, gather_context,
  run_dimensions, verify_dedup, completed, failed, StageOutcome, ExecutionRecord, gate_state_eq,
  stage_name_eq, stage_status_eq, with_outcome,
}
use worktree_review.Core.Pipeline.Sound.{Sound, endings, told, first_stages, complete-refused}

-- The records and the events up to a stage.
abbrev pub execution1 : Option String → ExecutionRecord
execution1 d = record { outcomes = outcome_of derive_identity completed d ∷ [] }

abbrev pub execution2 : Option String → ExecutionRecord
execution2 d = record {
  outcomes =
      outcome_of derive_identity completed d ∷ outcome_of construct_merge completed none ∷ [];
}

abbrev pub execution3 : Option String → ExecutionRecord
execution3 d = record {
  outcomes = (execution2 d).outcomes ++ outcome_of prepare_review_worktree completed none ∷ [];
}

abbrev pub execution4 : Option String → ExecutionRecord
execution4 d = record {
  outcomes = (execution3 d).outcomes ++ outcome_of gather_context completed none ∷ [];
}

abbrev pub execution5 : Option String → Bool → ExecutionRecord
execution5 d complete = record {
  outcomes =
      (execution4 d).outcomes
      ++ (if complete
          then outcome_of run_dimensions completed none
          else outcome_of run_dimensions failed
              (some "one or more required dimensions did not complete"))
        ∷ [];
}

abbrev pub log1 : List Event
log1 =
    notified derive_identity ProgressStatus.started
    ∷ notified derive_identity ProgressStatus.completed
    ∷ notified construct_merge ProgressStatus.started
    ∷ []

abbrev pub log2 : List Event
log2 =
    log1
    ++ notified construct_merge ProgressStatus.completed
      ∷ notified prepare_review_worktree ProgressStatus.started
      ∷ []

abbrev pub log3 : List Event
log3 =
    log2
    ++ materialized
      ∷ notified prepare_review_worktree ProgressStatus.completed
      ∷ notified gather_context ProgressStatus.started
      ∷ []

abbrev pub log4 : List Event
log4 =
    log3
    ++ notified gather_context ProgressStatus.completed
      ∷ notified run_dimensions ProgressStatus.started
      ∷ []

abbrev pub log5 : Bool → List Event
log5 complete =
    log4
    ++ notified run_dimensions
        (if complete then ProgressStatus.completed else ProgressStatus.failed)
      ∷ notified verify_dedup ProgressStatus.started
      ∷ []

module _ (services : Services) (request : ReviewRequest) (attempt_id : String) where
  pub short_circuit-Sound :
      (stage : StageName) (detail reason : String) (execution : ExecutionRecord) (c : Completion)
      (log : List Event)
      → map
          (λ (o : StageOutcome). o.stage)
          (fill_unrecorded_stages
            (with_outcome execution (outcome_of stage failed (some detail)))
            reason).outcomes
        ≡ first_stages
      → endings (log ++ notified stage ProgressStatus.failed ∷ [])
        ≡ told
            (fill_unrecorded_stages
              (with_outcome execution (outcome_of stage failed (some detail)))
              reason).outcomes
      → c.allow_passing_gate ≡ false
      → Sound request
          (short_circuit services request attempt_id stage detail reason execution c log)
  unfolding short_circuit
  short_circuit-Sound stage detail reason execution c log stages tells refused =
      complete-refused request
        (fill_unrecorded_stages (with_outcome execution (outcome_of stage failed (some detail)))
          reason)
        c (log ++ notified stage ProgressStatus.failed ∷ []) stages tells refused

  pub after_construct_error-Sound :
      (detail : String) (d : Option String)
      → Sound request (
          after_construct services request attempt_id
            (err (review_error detail))
            (execution1 d)
            log1)
  unfolding after_construct fill_unrecorded_stages fill_stages with_outcome stage_name_eq
  after_construct_error-Sound detail d =
      short_circuit-Sound construct_merge detail "short-circuited after construct-merge failure"
        (execution1 d)
        (initial services request attempt_id
          "Review did not complete: merge-candidate construction failed." (some detail))
        log1 refl refl refl

  pub after_prepare_error-Sound :
      (candidate : MergeCandidateIdentity) (detail : String) (d : Option String)
      → Sound request (
          after_prepare services request attempt_id candidate
            (err (review_error detail))
            (execution2 d)
            log2)
  unfolding after_prepare fill_unrecorded_stages fill_stages with_outcome stage_name_eq
  after_prepare_error-Sound candidate detail d =
      short_circuit-Sound prepare_review_worktree detail
        "short-circuited after prepare-review-worktree failure" (execution2 d)
        (identified services request attempt_id candidate
          "Review did not complete: Review Worktree preparation failed." (some detail))
        log2 refl refl refl

  pub after_gather_error-Sound :
      (candidate : MergeCandidateIdentity) (worktree : ReviewWorktree) (detail : String)
      (d : Option String)
      → Sound request (
          after_gather services request attempt_id candidate worktree
            (err (review_error detail))
            (execution3 d)
            log3)
  unfolding after_gather fill_unrecorded_stages fill_stages with_outcome stage_name_eq
  after_gather_error-Sound candidate worktree detail d =
      short_circuit-Sound gather_context detail "short-circuited after gather-context failure"
        (execution3 d)
        (identified services request attempt_id candidate
          "Review did not complete: context gathering failed." (some detail))
        log3 refl refl refl

  pub after_dimensions_error-Sound :
      (candidate : MergeCandidateIdentity) (worktree : ReviewWorktree) (gathered : GatheredContext)
      (stage : DimensionStage) (detail : String) (d : Option String)
      → Sound request (
          after_dimensions services request attempt_id candidate worktree gathered stage
            (err (review_error detail))
            (execution4 d)
            log4)
  unfolding after_dimensions fill_unrecorded_stages fill_stages with_outcome stage_name_eq
  after_dimensions_error-Sound candidate worktree gathered stage detail d =
      short_circuit-Sound run_dimensions detail "short-circuited after run-dimensions failure"
        (execution4 d)
        (unrun_completion services request attempt_id candidate gathered stage detail) log4 refl
        refl refl
  -- The runs are those of the required dimensions.
