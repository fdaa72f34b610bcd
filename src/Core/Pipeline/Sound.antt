-- ===== src/Core/Pipeline/Sound.antt =====
-- What every report of src/worktree_review/core/pipeline.py records.
use worktree_review.Base.{
  String, Bool, true, false, ◌&&◌, Option, none, some, List, [], ◌∷◌, ◌++◌, map, all, ◌==◌,
  string_eq, if◌then◌else◌, ◌≡◌, ◌≢◌, refl, ◌∙◌, ap, arith,
}
use worktree_review.Base.Exec.{Result, ok, err}
use worktree_review.Core.Gate as Gate
use worktree_review.Core.Gate.{GateEvaluationInput}
use worktree_review.Core.Pipeline.{
  ReviewRequest, ReviewReport, Failure, ProgressStatus, Event, notified, materialized, cleaned,
}
use worktree_review.Core.Pipeline.Run.{
  Completion, complete_report, settled_gate, outcome_of, report_of, closed, resolved_coverage,
}
use worktree_review.Core.Report.{
  GateState, error, StageName, derive_identity, construct_merge, prepare_review_worktree,
  gather_context, run_dimensions, verify_dedup, check_completeness, evaluate_gate, publish,
  StageStatus, completed, failed, not_started, StageOutcome, ExecutionRecord, pipeline_stage_order,
  gate_state_eq, stage_name_eq, stage_status_eq, with_outcome,
}

-- The events that end a stage, in order.
abbrev pub endings : List Event → List (StageName × ProgressStatus)
endings [] = []
endings (notified stage ProgressStatus.started ∷ log) = endings log
endings (notified stage ProgressStatus.completed ∷ log) =
    (stage, ProgressStatus.completed) ∷ endings log
endings (notified stage ProgressStatus.failed ∷ log) = (stage, ProgressStatus.failed) ∷ endings log
endings (materialized ∷ log) = endings log
endings (cleaned ∷ log) = endings log

-- What an outcome has to tell: a stage that did not start tells nothing.
abbrev pub told_first :
    StageName → StageStatus → List (StageName × ProgressStatus) → List (StageName × ProgressStatus)
told_first stage completed rest = (stage, ProgressStatus.completed) ∷ rest
told_first stage failed rest = (stage, ProgressStatus.failed) ∷ rest
told_first stage not_started rest = rest

abbrev pub told : List StageOutcome → List (StageName × ProgressStatus)
told [] = []
told (outcome ∷ rest) = told_first outcome.stage outcome.status (told rest)

abbrev pub stages_completed : List StageOutcome → Bool
stages_completed outcomes = all (λ (o : StageOutcome). o.status == completed) outcomes

-- The evaluator's input, from what the report discloses.
abbrev pub disclosed_input : ReviewRequest → ReviewReport → GateEvaluationInput
disclosed_input request report = record {
  dimension_outcomes = report.dimension_outcomes;
  coverage = resolved_coverage report.coverage;
  findings = report.findings;
  review_policy = request.review_policy;
}

abbrev pub SoundReport : ReviewRequest → ReviewReport → List Event → Type 0
SoundReport request report log =
    (map (λ (o : StageOutcome). o.stage) report.execution.outcomes ≡ pipeline_stage_order)
    × (endings log ≡ told report.execution.outcomes)
    × (report.gate_state ≢ error → stages_completed report.execution.outcomes ≡ true)
    × (report.gate_state ≢ error
        → report.gate_state ≡ Gate.evaluate_gate (disclosed_input request report))

unfoldable pub Sound : ReviewRequest → Result Failure ReviewReport × List Event → Type 0
Sound request (ok report, log) = SoundReport request report log
Sound request (err failure, log) = Unit

pub settled_gate-error :
    (gate : GateState) (detail : Option String) → (settled_gate false gate detail).0 ≡ error
unfolding settled_gate
settled_gate-error gate detail = ground arith

pub endings-append : (log more : List Event) → endings (log ++ more) ≡ endings log ++ endings more
endings-append [] more = refl
endings-append (notified stage ProgressStatus.started ∷ log) more = endings-append log more
endings-append (notified stage ProgressStatus.completed ∷ log) more =
    ap (λ rest. (stage, ProgressStatus.completed) ∷ rest) (endings-append log more)
endings-append (notified stage ProgressStatus.failed ∷ log) more =
    ap (λ rest. (stage, ProgressStatus.failed) ∷ rest) (endings-append log more)
endings-append (materialized ∷ log) more = endings-append log more
endings-append (cleaned ∷ log) more = endings-append log more

told_first-append :
    (stage : StageName) (status : StageStatus) (rest more : List (StageName × ProgressStatus))
    → told_first stage status (rest ++ more) ≡ told_first stage status rest ++ more
told_first-append stage completed rest more = refl
told_first-append stage failed rest more = refl
told_first-append stage not_started rest more = refl

told-append : (xs ys : List StageOutcome) → told (xs ++ ys) ≡ told xs ++ told ys
told-append [] ys = refl
told-append (x ∷ xs) ys =
    rw (told-append xs ys) (told_first-append x.stage x.status (told xs) (told ys))

stages-append :
    (xs ys : List StageOutcome)
    → map (λ (o : StageOutcome). o.stage) (xs ++ ys)
      ≡ map (λ (o : StageOutcome). o.stage) xs ++ map (λ (o : StageOutcome). o.stage) ys
stages-append [] ys = refl
stages-append (x ∷ xs) ys = rw (stages-append xs ys)

pub completed-append :
    (xs ys : List StageOutcome)
    → stages_completed (xs ++ ys) ≡ (stages_completed xs && stages_completed ys)
completed-append [] ys = refl
completed-append (x ∷ xs) ys = ground (arith, completed-append xs ys)

settled_gate-unless_error :
    (allow : Bool) (gate : GateState) (detail : Option String)
    → (settled_gate allow gate detail).0 ≢ error
    → (settled_gate allow gate detail).0 ≡ gate
unfolding settled_gate
settled_gate-unless_error allow gate detail n = ground arith

-- A report whose findings are not verified is an Error.
pub report_of-refused :
    (request : ReviewRequest) (execution : ExecutionRecord) (c : Completion)
    → c.allow_passing_gate ≡ false
    → (report_of request execution c).gate_state ≡ error
unfolding report_of
report_of-refused request execution c e = rw (e) (settled_gate-error _ c.error_detail)

-- The stages before the last three.
abbrev pub first_stages : List StageName
first_stages =
    derive_identity ∷ construct_merge ∷ prepare_review_worktree ∷ gather_context ∷ run_dimensions
    ∷ verify_dedup ∷ []

pub append_nil : {A : Type 0} (xs : List A) → xs ++ [] ≡ xs
append_nil [] = refl
append_nil (x ∷ xs) = rw (append_nil xs)

snoc : {A : Type 0} (xs ys : List A) (a : A) → (xs ++ a ∷ []) ++ ys ≡ xs ++ a ∷ ys
snoc [] ys a = refl
snoc (x ∷ xs) ys a = rw (snoc xs ys a)

last_outcomes : Bool → List StageOutcome
last_outcomes complete =
    outcome_of check_completeness completed (
      if complete
      then some "required coverage and dimensions completed"
      else some "required dimensions and coverage did not complete")
    ∷ outcome_of evaluate_gate completed none
    ∷ outcome_of publish completed none
    ∷ []

closed-outcomes :
    (execution : ExecutionRecord) (complete : Bool)
    → (closed execution complete).outcomes ≡ execution.outcomes ++ last_outcomes complete
unfolding closed with_outcome last_outcomes
closed-outcomes execution complete = snoc _ _ _ ∙ snoc _ _ _

abbrev pub last_events : List Event
last_events =
    notified check_completeness ProgressStatus.started
    ∷ notified check_completeness ProgressStatus.completed
    ∷ notified evaluate_gate ProgressStatus.started
    ∷ notified evaluate_gate ProgressStatus.completed
    ∷ notified publish ProgressStatus.started
    ∷ notified publish ProgressStatus.completed
    ∷ []

pub complete_report-log :
    (request : ReviewRequest) (execution : ExecutionRecord) (c : Completion) (log : List Event)
    → (complete_report request execution c log).1 ≡ log ++ last_events
unfolding complete_report
complete_report-log request execution c log =
    snoc _ _ _ ∙ snoc _ _ _ ∙ snoc _ _ _ ∙ snoc _ _ _ ∙ snoc _ _ _

pub complete-Sound :
    (request : ReviewRequest) (execution : ExecutionRecord) (c : Completion) (log : List Event)
    → map (λ (o : StageOutcome). o.stage) execution.outcomes ≡ first_stages
    → endings log ≡ told execution.outcomes
    → ((report_of request execution c).gate_state ≢ error
        → stages_completed execution.outcomes ≡ true)
    → Sound request (complete_report request execution c log)
unfolding Sound complete_report report_of last_outcomes stage_status_eq
complete-Sound request execution c log stages tells full = (
  rw (closed-outcomes, stages-append, stages) refl,
  rw
      (
        complete_report-log request execution c log,
        closed-outcomes,
        endings-append,
        told-append,
        tells,
      )
      refl,
  λ n. rw (closed-outcomes, completed-append, full n) refl,
  settled_gate-unless_error c.allow_passing_gate _ c.error_detail,
)

pub complete-refused :
    (request : ReviewRequest) (execution : ExecutionRecord) (c : Completion) (log : List Event)
    → map (λ (o : StageOutcome). o.stage) execution.outcomes ≡ first_stages
    → endings log ≡ told execution.outcomes
    → c.allow_passing_gate ≡ false
    → Sound request (complete_report request execution c log)
complete-refused request execution c log stages tells refused =
    complete-Sound request execution c log stages tells
      (λ n. elim (n (report_of-refused request execution c refused)) [ ])
