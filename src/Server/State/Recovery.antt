-- ===== src/Server/State/Recovery.antt =====
-- `recover_interrupted_jobs` of src/worktree_review/server/state.py.
pub mod Retries
use worktree_review.Base.{
  ℕ, ◌+◌, String, Bool, true, false, not, [], ◌∷◌, ◌++◌, none, some, leb, string_eq, if◌then◌else◌,
}
use worktree_review.Base.Dict.{Dict}
use worktree_review.Base.Exec.{Exec, ok, ◌>>=◌, ◌>>◌}
use worktree_review.Server.Json.{num, str, opt_str, end, field}
use worktree_review.Server.State.{JobStatus, Job, JobRecoveryReport, Store, Error, Env, ticked, now}
use worktree_review.Server.State.Audit.{record_audit_event}
use worktree_review.Server.State.Jobs.{is_stale, set_job, locator_for_attempt, job_event}

module _ (env : Env) where
  -- A terminal failure, with the payload that its cause has.
  unfoldable pub fail_job : Job → Bool → Exec Store Error Unit
  fail_job job lease_expired = (do
    change_request ← locator_for_attempt job.attempt_id
    record_audit_event env "job_failed" change_request (some job.attempt_id)
        (field "retry_count" (num job.retry_count) (
          if lease_expired
          then field "reason" (str "lease expired without recovery") end
          else field "last_error" (opt_str job.last_error) end))
        none none)

  -- One round of the loop of `recover_interrupted_jobs`, with the report so far.
  unfoldable pub recover_retryable :
      ℕ → ℕ → String → Job → JobRecoveryReport → Exec Store Error JobRecoveryReport
  recover_retryable max_attempts at key job report s =
      if leb max_attempts job.retry_count
      then (do
        fail_job (record job { status = JobStatus.failed; updated_at = at }) false
        λ t. (ok (record report { exhausted = report.exhausted ++ job.attempt_id ∷ [] }), t))
          (set_job key (record job { status = JobStatus.failed; updated_at = at }) s)
      else (
        ok (record report { requeued = report.requeued ++ job.attempt_id ∷ [] }),
        set_job key (record job { status = JobStatus.queued; updated_at = at }) s,
      )

  unfoldable pub recover_running :
      ℕ → ℕ → ℕ → String → Job → JobRecoveryReport → Exec Store Error JobRecoveryReport
  recover_running max_attempts lease_seconds at key job report s =
      let again = record job { retry_count = job.retry_count + 1; updated_at = at } in
      if not (is_stale job at lease_seconds)
      then (ok report, s)
      else if leb max_attempts again.retry_count
      then (do
        fail_job (record again { status = JobStatus.failed }) true
        λ t. (ok (record report { exhausted = report.exhausted ++ job.attempt_id ∷ [] }), t))
          (set_job key (record again { status = JobStatus.failed }) s)
      else (do
        change_request ← locator_for_attempt job.attempt_id
        job_event env "job_lease_recovered" change_request again
        λ t. (
          ok (record report { lease_recovered = report.lease_recovered ++ job.attempt_id ∷ [] }),
          t,
        ))
          (set_job key (record again { status = JobStatus.queued }) s)

  unfoldable pub recover_one :
      ℕ → ℕ → ℕ → String → Job → JobRecoveryReport → Exec Store Error JobRecoveryReport
  recover_one max_attempts lease_seconds at key job report s = elim job.status [
    | JobStatus.retryable ↦ recover_retryable max_attempts at key job report s
    | JobStatus.running ↦ recover_running max_attempts lease_seconds at key job report s
    | _ ↦ (ok report, s)
  ]

  unfoldable pub recover_loop :
      ℕ → ℕ → ℕ → Dict String Job → JobRecoveryReport → Exec Store Error JobRecoveryReport
  recover_loop max_attempts lease_seconds at [] report s = (ok report, s)
  recover_loop max_attempts lease_seconds at ((key, job) ∷ rest) report s =
      (do
        report' ← recover_one max_attempts lease_seconds at key job report
        recover_loop max_attempts lease_seconds at rest report')
        s

  unfoldable pub recover_interrupted_jobs : ℕ → ℕ → Exec Store Error JobRecoveryReport
  recover_interrupted_jobs max_attempts lease_seconds s =
      recover_loop max_attempts lease_seconds (now s) s.jobs
        (record { requeued = []; lease_recovered = []; exhausted = [] }) (ticked s)
