-- ===== src/Server/State/Jobs.antt =====
-- The durable jobs of src/worktree_review/server/state.py: `claim_attempt_job`,
-- `mark_job_retryable`, `finalize_attempt_job` and the queries.
pub mod Claims
use mathlib.Core.Option.{get_or}
use worktree_review.Base.{
  ℕ, ◌+◌, String, Bool, true, false, not, ◌||◌, Option, none, some, List, [], ◌∷◌, map, filter_by,
  ltb, ◌==◌, string_eq, if◌then◌else◌,
}
use worktree_review.Base.Dict.{Dict, get, put, values}
use worktree_review.Base.Exec.{Exec, ok, err, ◌>>=◌, ◌>>◌}
use worktree_review.Server.Json.{num, str, end, field}
use worktree_review.Server.State.{
  Locator, AttemptStatus, JobStatus, AttemptLease, Attempt, Job, Store, Error, conflict,
  missing_key, unknown_attempt, not_terminal, Env, locator_eq, job_status_eq, ticked, now,
}
use worktree_review.Server.State.Audit.{record_audit_event}

-- `status in (COMPLETED, FAILED, SUPERSEDED)`
abbrev pub is_terminal : JobStatus → Bool
is_terminal JobStatus.completed = true
is_terminal JobStatus.failed = true
is_terminal JobStatus.superseded = true
is_terminal _ = false

-- `JobStatus.value`
unfoldable pub job_value : JobStatus → String
job_value JobStatus.queued = "queued"
job_value JobStatus.running = "running"
job_value JobStatus.superseded = "superseded"
job_value JobStatus.completed = "completed"
job_value JobStatus.retryable = "retryable"
job_value JobStatus.failed = "failed"

-- `(clock - job.updated_at).total_seconds() > lease_seconds`
abbrev pub is_stale : Job → ℕ → ℕ → Bool
is_stale job at lease_seconds = ltb (job.updated_at + lease_seconds) at

abbrev pub set_job : String → Job → Store → Store
set_job attempt_id job s = record s { jobs = put s.jobs attempt_id job }

abbrev pub set_attempt : String → Attempt → Store → Store
set_attempt attempt_id attempt s = record s { attempts = put s.attempts attempt_id attempt }

-- `_locator_for_attempt_locked`
unfoldable pub locator_for_attempt : String → Exec Store Error Locator
locator_for_attempt attempt_id s = elim (get s.attempts attempt_id) [
  | none ↦ (err (conflict unknown_attempt), s)
  | some attempt ↦ (ok attempt.change_request, s)
]

-- `claim_attempt_job` for a queued job. A job whose Attempt lost its authority is superseded.
unfoldable pub claim_queued : String → Attempt → Job → Bool → Exec Store Error (Option AttemptLease)
claim_queued attempt_id attempt job lease_recovered s =
    elim (get s.change_requests attempt.change_request) [
      | none ↦ (err missing_key, s)
      | some c ↦
          if not (c.authoritative_attempt_id == attempt_id)
          then (
            ok none,
            set_attempt attempt_id (record attempt { status = AttemptStatus.superseded })
                (set_job attempt_id
                  (record job { status = JobStatus.superseded; updated_at = now s }) (ticked s)),
          )
          else (
            ok (
                some (record {
                  attempt_id = attempt.attempt_id;
                  change_request = attempt.change_request;
                  request_key = attempt.request_key;
                  prior_authoritative_attempt_id = none;
                  delivery_replayed = false;
                  lease_recovered = lease_recovered;
                })),
            set_attempt attempt_id (record attempt { status = AttemptStatus.running })
                (set_job attempt_id (record job { status = JobStatus.running; updated_at = now s })
                  (ticked s)),
          )
    ]

module _ (env : Env) where
  unfoldable pub job_event : String → Locator → Job → Exec Store Error Unit
  job_event event_type change_request job =
      record_audit_event env event_type change_request (some job.attempt_id)
        (field "retry_count" (num job.retry_count) end) none none

  -- A worker died: the job is reclaimed once its lease has expired.
  unfoldable pub claim_running : String → Attempt → Job → Exec Store Error (Option AttemptLease)
  unfolding job_event
  claim_running attempt_id attempt job s =
      let again = record job { retry_count = job.retry_count + 1; status = JobStatus.queued } in
      if not (is_stale job (now s) s.lease_seconds)
      then (ok none, ticked s)
      else (do
        job_event "job_lease_recovered" attempt.change_request again
        claim_queued attempt_id attempt again true)
          (set_job attempt_id again (ticked s))

  unfoldable pub claim_rows :
      String → Option Attempt → Option Job → Exec Store Error (Option AttemptLease)
  claim_rows attempt_id (some attempt) (some job) s = elim job.status [
    | JobStatus.running ↦ claim_running attempt_id attempt job s
    | JobStatus.queued ↦ claim_queued attempt_id attempt job false s
    | _ ↦ (ok none, s)
  ]
  claim_rows attempt_id (some attempt) none s = (ok none, s)
  claim_rows attempt_id none job s = (ok none, s)

  unfoldable pub claim_attempt_job : String → Exec Store Error (Option AttemptLease)
  unfolding claim_rows
  claim_attempt_job attempt_id s =
      claim_rows attempt_id (get s.attempts attempt_id) (get s.jobs attempt_id) s

  unfoldable pub mark_running_retryable : String → String → Job → Exec Store Error Unit
  mark_running_retryable attempt_id error job s =
      (do
        change_request ← locator_for_attempt attempt_id
        record_audit_event env "job_retryable" change_request (some attempt_id)
            (field "retry_count" (num (job.retry_count + 1))
              (field "error" (str (env.scrub_job_error error)) end))
            none none)
        (set_job attempt_id
          (record job {
            status = JobStatus.retryable;
            retry_count = job.retry_count + 1;
            last_error = some (env.scrub_job_error error);
            updated_at = now s;
          })
          (ticked s))

  unfoldable pub mark_job_retryable : String → String → Exec Store Error Unit
  mark_job_retryable attempt_id error s = elim (get s.jobs attempt_id) [
    | none ↦ (ok tt, s)
    | some job ↦ elim job.status [
      | JobStatus.running ↦ mark_running_retryable attempt_id error job s
      | _ ↦ (ok tt, s)
    ]
  ]

  unfoldable pub finalize_open_job : String → JobStatus → String → Job → Exec Store Error Unit
  finalize_open_job attempt_id status reason job s =
      (do
        change_request ← locator_for_attempt attempt_id
        record_audit_event env "job_finalized" change_request (some attempt_id)
            (field "status" (str (job_value status))
              (field "reason" (str (env.scrub_job_error reason)) end))
            none none)
        (set_job attempt_id
          (record job {
            status = status;
            last_error = some (env.scrub_job_error reason);
            updated_at = now s;
          })
          (ticked s))

  unfoldable pub finalize_attempt_job : String → JobStatus → String → Exec Store Error Unit
  unfolding finalize_open_job
  finalize_attempt_job attempt_id status reason s =
      if not (status == JobStatus.completed || status == JobStatus.failed)
      then (err (conflict not_terminal), s)
      else elim (get s.jobs attempt_id) [
        | none ↦ (ok tt, s)
        | some job ↦
            if is_terminal job.status
            then (ok tt, s)
            else finalize_open_job attempt_id status reason job s
      ]

unfoldable pub job_status : Store → String → Option JobStatus
job_status s attempt_id = elim (get s.jobs attempt_id) [ none ↦ none | some job ↦ some job.status ]

unfoldable pub job_last_error : Store → String → Option String
job_last_error s attempt_id = elim (get s.jobs attempt_id) [
  | none ↦ none
  | some job ↦ job.last_error
]

unfoldable pub job_ids_with_status : Store → JobStatus → List String
job_ids_with_status s status =
    map (λ job. job.attempt_id) (filter_by (λ job. job.status == status) (values s.jobs))

-- The loop of `job_status_counts`.
unfoldable pub count_statuses : List Job → Dict String ℕ → Dict String ℕ
count_statuses [] counts = counts
count_statuses (job ∷ rest) counts =
    count_statuses rest
      (put counts (job_value job.status) (get_or (get counts (job_value job.status)) 0 + 1))

unfoldable pub job_status_counts : Store → Dict String ℕ
unfolding count_statuses
job_status_counts s = count_statuses (values s.jobs) []
