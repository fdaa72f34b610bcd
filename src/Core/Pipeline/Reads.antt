-- ===== src/Core/Pipeline/Reads.antt =====
-- What a review has read when its gate is not Error: `run_review_pipeline` over `gather_context`, of
-- src/worktree_review/core/pipeline.py and src/worktree_review/core/context.py.
use worktree_review.Base.{
  String, Bool, true, false, none, some, List, [], ◌∷◌, ◌++◌, map, any, contains, ◌||◌, ◌==◌,
  string_eq, Bool-cases, ◌⊎◌, inl, inr, ◌≡◌, ◌≢◌, refl, ap, subst, arith,
}
use worktree_review.Base.Exec.{Result, ok, err}
use worktree_review.Core.Context.Complete.{
  has_read, is_mandatory, complete_coverage_reads_everything,
}
use worktree_review.Core.Context.Gather as Gather
use worktree_review.Core.Context.Gather.{GatheredContext, is_excluded}
use worktree_review.Core.Evidence.{ReviewWorktree}
use worktree_review.Core.Identity.{MergeCandidateIdentity}
use worktree_review.Core.Pipeline.{
  ReviewRequest, ReviewReport, Failure, review_error, other_error, ProgressStatus, Event, notified,
  materialized, Services,
}
use worktree_review.Core.Pipeline.Run.{Completion, complete_report, outcome_of}
use worktree_review.Core.Pipeline.Sound.{report_of-refused}
use worktree_review.Core.Pipeline.Stages.{
  after_construct, after_prepare, after_gather, after_coverage, short_circuit, removed, identified,
  initial, run_review_pipeline, gather_stage, owner_note,
}
use worktree_review.Core.Report.{
  error, StageName, ExecutionRecord, gather_context, prepare_review_worktree, construct_merge,
  completed, with_outcome,
}

-- A result that is no report, or a report whose gate is Error.
unfoldable Refused : Result Failure ReviewReport × List Event → Type 0
Refused (r, log) = (report : ReviewReport) → r ≡ ok report → report.gate_state ≡ error

abbrev report_or : ReviewReport → Result Failure ReviewReport → ReviewReport
report_or default (ok report) = report
report_or default (err failure) = default

complete_report-Refused :
    (request : ReviewRequest) (execution : ExecutionRecord) (c : Completion) (log : List Event)
    → c.allow_passing_gate ≡ false
    → Refused (complete_report request execution c log)
unfolding Refused complete_report
complete_report-Refused request execution c log a report e =
    subst (λ (r : ReviewReport). r.gate_state ≡ error) (ap (report_or report) e)
      (report_of-refused request execution c a)

raised-Refused : (failure : Failure) (log : List Event) → Refused (err failure, log)
unfolding Refused
raised-Refused failure log report e = ground arith

-- What a review with another gate has done: it built a candidate, prepared a Review Worktree and
-- gathered the context with complete required coverage.
abbrev pub HasGathered : Services → ReviewRequest → String → Type 0
HasGathered services request attempt_id =
    (candidate : MergeCandidateIdentity) × (worktree : ReviewWorktree)
    × (gathered : GatheredContext) × (services.construct_merge_candidate request.resolved
        ≡ ok candidate)
    × (services.materialize_review_worktree candidate (owner_note services request attempt_id)
        ≡ ok worktree)
    × (Gather.gather_context (services.host worktree) request.review_policy.context candidate
        ≡ ok gathered)
    × (gathered.coverage.required_coverage_complete ≡ true)

module _ (services : Services) (request : ReviewRequest) (attempt_id : String) where
  short_circuit-Refused :
      (stage : StageName) (detail reason : String) (execution : ExecutionRecord) (c : Completion)
      (log : List Event)
      → c.allow_passing_gate ≡ false
      → Refused (short_circuit services request attempt_id stage detail reason execution c log)
  unfolding short_circuit
  short_circuit-Refused stage detail reason execution c log a =
      complete_report-Refused request _ c _ a

  after_coverage-covered :
      (candidate : MergeCandidateIdentity) (worktree : ReviewWorktree) (gathered : GatheredContext)
      (complete : Bool) (execution : ExecutionRecord) (log : List Event)
      → Refused (
          after_coverage services request attempt_id candidate worktree gathered complete execution
            log)
        ⊎ (complete ≡ true)
  unfolding after_coverage
  after_coverage-covered candidate worktree gathered true execution log = inr refl
  after_coverage-covered candidate worktree gathered false execution log =
      inl (complete_report-Refused request _ _ log refl)

  after_gather-gathered :
      (candidate : MergeCandidateIdentity) (worktree : ReviewWorktree)
      (answer : Result Failure GatheredContext) (execution : ExecutionRecord) (log : List Event)
      → Refused (after_gather services request attempt_id candidate worktree answer execution log)
        ⊎ ((gathered : GatheredContext) × (answer ≡ ok gathered)
            × (gathered.coverage.required_coverage_complete ≡ true))
  unfolding after_gather
  after_gather-gathered candidate worktree (err (other_error detail)) execution log =
      inl (raised-Refused (other_error detail) log)
  after_gather-gathered candidate worktree (err (review_error detail)) execution log = inl (
      short_circuit-Refused gather_context detail "short-circuited after gather-context failure"
        execution
        (identified services request attempt_id candidate
          "Review did not complete: context gathering failed." (some detail))
        log refl)
  after_gather-gathered candidate worktree (ok gathered) execution log =
      elim (after_coverage-covered candidate worktree gathered
        gathered.coverage.required_coverage_complete
        (with_outcome execution (outcome_of gather_context completed none))
        (log ++ notified gather_context ProgressStatus.completed ∷ [])) [
          | inl refused ↦ inl refused
          | inr covered ↦ inr (gathered, refl, covered)
        ]

  removed-Refused :
      (cleanup : Result {0, 0} Failure Unit) (result : Result Failure ReviewReport)
      (log : List Event)
      → Refused (result, log)
      → Refused (removed services request attempt_id cleanup result log)
  unfolding Refused removed
  removed-Refused (ok done) result log h report e = h report e
  removed-Refused (err failure) result log h report e = ground arith

  gather_stage-ok :
      (worktree : ReviewWorktree) (candidate : MergeCandidateIdentity) (gathered : GatheredContext)
      → gather_stage services request attempt_id worktree candidate ≡ ok gathered
      → Gather.gather_context (services.host worktree) request.review_policy.context candidate
        ≡ ok gathered
  unfolding gather_stage
  gather_stage-ok worktree candidate gathered e = ground (arith, e)

  after_prepare-gathered :
      (candidate : MergeCandidateIdentity) (answer : Result Failure ReviewWorktree)
      (execution : ExecutionRecord) (log : List Event)
      → services.construct_merge_candidate request.resolved ≡ ok candidate
      → services.materialize_review_worktree candidate (owner_note services request attempt_id)
        ≡ answer
      → Refused (after_prepare services request attempt_id candidate answer execution log)
        ⊎ HasGathered services request attempt_id
  unfolding after_prepare
  after_prepare-gathered candidate (err (other_error detail)) execution log built prepared =
      inl (raised-Refused (other_error detail) log)
  after_prepare-gathered candidate (err (review_error detail)) execution log built prepared = inl (
      short_circuit-Refused prepare_review_worktree detail
        "short-circuited after prepare-review-worktree failure" execution
        (identified services request attempt_id candidate
          "Review did not complete: Review Worktree preparation failed." (some detail))
        log refl)
  after_prepare-gathered candidate (ok worktree) execution log built prepared =
      elim (after_gather-gathered candidate worktree
        (gather_stage services request attempt_id worktree candidate)
        (with_outcome execution (outcome_of prepare_review_worktree completed none))
        (((log ++ materialized ∷ [])
            ++ notified prepare_review_worktree ProgressStatus.completed ∷ [])
          ++ notified gather_context ProgressStatus.started ∷ [])) [
            | inl refused ↦
                inl (removed-Refused (services.cleanup_review_worktree worktree) _ _ refused)
            | inr (gathered, answered, covered) ↦ inr (
              candidate,
              worktree,
              gathered,
              built,
              prepared,
              gather_stage-ok worktree candidate gathered answered,
              covered,
            )
          ]

  after_construct-gathered :
      (answer : Result Failure MergeCandidateIdentity) (execution : ExecutionRecord)
      (log : List Event)
      → services.construct_merge_candidate request.resolved ≡ answer
      → Refused (after_construct services request attempt_id answer execution log)
        ⊎ HasGathered services request attempt_id
  unfolding after_construct
  after_construct-gathered (err (other_error detail)) execution log built =
      inl (raised-Refused (other_error detail) log)
  after_construct-gathered (err (review_error detail)) execution log built = inl (
      short_circuit-Refused construct_merge detail "short-circuited after construct-merge failure"
        execution
        (initial services request attempt_id
          "Review did not complete: merge-candidate construction failed." (some detail))
        log refl)
  after_construct-gathered (ok candidate) execution log built =
      after_prepare-gathered candidate
        (services.materialize_review_worktree candidate (owner_note services request attempt_id)) _
        _ built refl

  run-gathered :
      Refused (run_review_pipeline services request attempt_id [])
      ⊎ HasGathered services request attempt_id
  unfolding run_review_pipeline
  run-gathered = elim (Bool-cases (attempt_id == "")) [
    | inl e ↦ rw (e) (inl (raised-Refused _ []))
    | inr e ↦
        rw (e)
          (after_construct-gathered (services.construct_merge_candidate request.resolved) _ _ refl)
  ]

pub decided_review_has_read_everything :
    (services : Services) (request : ReviewRequest) (attempt_id : String) (report : ReviewReport)
    (log : List Event)
    → run_review_pipeline services request attempt_id [] ≡ (ok report, log)
    → report.gate_state ≢ error
    → (candidate : MergeCandidateIdentity) × (worktree : ReviewWorktree)
      × (gathered : GatheredContext) × (services.construct_merge_candidate request.resolved
          ≡ ok candidate)
      × (services.materialize_review_worktree candidate (owner_note services request attempt_id)
          ≡ ok worktree)
      × (Gather.gather_context (services.host worktree) request.review_policy.context candidate
          ≡ ok gathered)
      × ((tree : String) (changes : List (String × String)) (path : String)
          → (services.host worktree).commit_tree_oid candidate.target_head_oid ≡ ok tree
          → (services.host worktree).diff_name_status tree candidate.merge_tree_oid ≡ ok changes
          → is_excluded (services.host worktree) request.review_policy.context candidate path
            ≡ false
          → (contains (map (λ (change : String × String). change.1) changes) path
              || is_mandatory (services.host worktree) request.review_policy.context candidate path)
            ≡ true
          → any (has_read (services.host worktree) candidate path) gathered.items ≡ true)
unfolding Refused
decided_review_has_read_everything services request attempt_id report log e n =
    elim (run-gathered services request attempt_id) [
      | inl refused ↦ elim (n (refused report (ap (λ end. end.0) e))) [ ]
      | inr (candidate, worktree, gathered, built, prepared, answered, covered) ↦ (
        candidate,
        worktree,
        gathered,
        built,
        prepared,
        answered,
        λ tree changes path t d x c.
            complete_coverage_reads_everything (services.host worktree)
              request.review_policy.context candidate tree changes gathered t d answered covered
              path x c,
      )
    ]
