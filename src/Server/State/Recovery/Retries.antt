-- ===== src/Server/State/Recovery/Retries.antt =====
-- What `recover_interrupted_jobs` of src/worktree_review/server/state.py leaves behind.
use worktree_review.Base.{
  ℕ, ◌+◌, String, Option, none, some, [], ◌∷◌, leb, ◌==◌, string_eq, if◌then◌else◌, ◌≡◌, ◌≢◌, refl,
  ◌∙◌, arith,
}
use worktree_review.Base.Dict.{Dict, get, get-put, NodupKeys}
use worktree_review.Base.Exec.{Result, ok, err, continue}
use worktree_review.Server.State.{
  JobStatus, Job, JobRecoveryReport, Store, Error, Env, locator_eq, ticked, now,
}
use worktree_review.Server.State.Audit.{record_audit_event}
use worktree_review.Server.State.Jobs.{locator_for_attempt, job_event, is_stale}
use worktree_review.Server.State.Jobs.Claims.{status_of_job}
use worktree_review.Server.State.Recovery.{
  fail_job, recover_retryable, recover_running, recover_one, recover_loop, recover_interrupted_jobs,
}

-- What a recovery at a time makes of a job.
abbrev pub recovered_job : ℕ → ℕ → ℕ → Job → Job
recovered_job limit lease at j = elim j.status [
  | JobStatus.retryable ↦ record j {
    status = if leb limit j.retry_count then JobStatus.failed else JobStatus.queued;
    updated_at = at;
  }
  | JobStatus.running ↦ if leb at (j.updated_at + lease) then j else record j {
    status = if leb limit (j.retry_count + 1) then JobStatus.failed else JobStatus.queued;
    retry_count = j.retry_count + 1;
    updated_at = at;
  }
  | _ ↦ j
]

abbrev pub recovered_row : ℕ → ℕ → ℕ → Option Job → Option Job
recovered_row limit lease at none = none
recovered_row limit lease at (some j) = some (recovered_job limit lease at j)

-- The entries that the loop has yet to visit are as the store has them.
abbrev Unvisited : Dict String Job → Store → Type 0
Unvisited entries s = (id : String) (j : Job) → get entries id ≡ some j → get s.jobs id ≡ some j

module _ (env : Env) (limit lease at : ℕ) where
  one-get :
      (key id : String) (j : Job) (report : JobRecoveryReport) (s : Store)
      → get s.jobs key ≡ some j
      → get (recover_one env limit lease at key j report s).1.jobs id
        ≡ (if key == id then some (recovered_job limit lease at j) else get s.jobs id)
  unfolding recover_one recover_retryable recover_running fail_job job_event locator_for_attempt
      record_audit_event is_stale
  one-get key id j report s p = ground (
    arith,
    p,
    string_eq.dec key id,
    get-put s.jobs key id (record j { status = JobStatus.failed; updated_at = at }),
    get-put s.jobs key id (record j { status = JobStatus.queued; updated_at = at }),
    get-put s.jobs key id
        (record j { status = JobStatus.failed; retry_count = j.retry_count + 1; updated_at = at }),
    get-put s.jobs key id
        (record j { status = JobStatus.queued; retry_count = j.retry_count + 1; updated_at = at }),
  )

  -- What the loop makes of a key: the recovered job where it has an entry.
  abbrev looped : Option Job → Option Job → Option Job
  looped none before = before
  looped (some j) before = some (recovered_job limit lease at j)

  loop-get :
      (entries : Dict String Job) (report final : JobRecoveryReport) (s : Store)
      → NodupKeys entries
      → Unvisited entries s
      → (recover_loop env limit lease at entries report s).0 ≡ ok final
      → (id : String)
      → get (recover_loop env limit lease at entries report s).1.jobs id
        ≡ looped (get entries id) (get s.jobs id)
  unfolding recover_loop get
  loop-get [] report final s once same h id = refl
  loop-get ((key, j) ∷ rest) report final s once same h id =
      go (recover_one env limit lease at key j report s).0
        (λ report' p. loop-get rest report' final next once.1 later p id) h
    where
      here : get s.jobs key ≡ some j
      here = same key j (ground arith)

      next : Store
      next = (recover_one env limit lease at key j report s).1

      later : Unvisited rest next
      later i k p =
          ground (arith, once.0, p, same i k, one-get key i j report s here, string_eq.dec key i)

      go :
          (r : Result Error JobRecoveryReport)
          → ((report' : JobRecoveryReport)
              → (recover_loop env limit lease at rest report' next).0 ≡ ok final
              → get (recover_loop env limit lease at rest report' next).1.jobs id
                ≡ looped (get rest id) (get next.jobs id))
          → (continue r (recover_loop env limit lease at rest) next).0 ≡ ok final
          → get (continue r (recover_loop env limit lease at rest) next).1.jobs id
            ≡ looped (if key == id then some j else get rest id) (get s.jobs id)
      go (ok report') follow p =
          ground
            (arith, once.0, follow report' p, one-get key id j report s here, string_eq.dec key id)
      go (err e) follow p = cc

  looped-same : (row : Option Job) → looped row row ≡ recovered_row limit lease at row
  looped-same none = refl
  looped-same (some j) = refl

not_retryable :
    (limit lease at : ℕ) (row : Option Job)
    → status_of_job (recovered_row limit lease at row) ≢ some JobStatus.retryable
not_retryable limit lease at none h = ground (arith, h)
not_retryable limit lease at (some j) h = ground (arith, h)

-- A recovery that returns its report leaves every job as follows: a retryable one has failed if its
-- retries are used up, else it is queued; a running one whose lease has expired counts one retry
-- more and has then failed or is queued likewise; every other job is as it was. So no job is
-- retryable. No key stands twice in the jobs, as in every Python dictionary.
pub recovery_leaves_no_retryable :
    (env : Env) (max_attempts lease_seconds : ℕ) (s : Store) (report : JobRecoveryReport)
    (id : String)
    → NodupKeys s.jobs
    → (recover_interrupted_jobs env max_attempts lease_seconds s).0 ≡ ok report
    → let t = (recover_interrupted_jobs env max_attempts lease_seconds s).1 in
      (get t.jobs id ≡ recovered_row max_attempts lease_seconds (now s) (get s.jobs id))
      × (status_of_job (get t.jobs id) ≢ some JobStatus.retryable)
unfolding recover_interrupted_jobs
recovery_leaves_no_retryable env max_attempts lease_seconds s report id once h =
    let exact =
      loop-get env max_attempts lease_seconds (now s) s.jobs _ report (ticked s) once (λ id j p. p)
        h id
      ∙ looped-same env max_attempts lease_seconds (now s) (get s.jobs id) in
    (exact, rw (exact) (not_retryable max_attempts lease_seconds (now s) (get s.jobs id)))
