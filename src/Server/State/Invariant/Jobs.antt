-- ===== src/Server/State/Invariant/Jobs.antt =====
-- The methods of durable jobs in src/worktree_review/server/state.py and the invariants.
use worktree_review.Base.{
  ◌+◌, String, Bool, true, false, not, Option, none, some, ◌≡◌, refl, inl, inr, arith, Bool-cases,
  Option-cases, ◌==◌, ◌||◌, string_eq,
}
use worktree_review.Base.Dict.{get, put, get-put, get-put_self, put-NodupKeys}
use worktree_review.Base.Exec.{bind-keeps}
use worktree_review.Server.State.{
  Locator, job_status_eq, AttemptStatus, JobStatus, Attempt, Job, ChangeRequest, Store, Env,
  locator_eq, ticked, now,
}
use worktree_review.Server.State.Attempts.{authority}
use worktree_review.Server.State.Invariant.{IsConsistent, is_live, is_decided}
use worktree_review.Server.State.Invariant.Frame.{
  locator_keeps, audit-IsConsistent, attempts-audit, jobs-audit,
}
use worktree_review.Server.State.Invariant.Rows.{with_rows-IsConsistent, set_job-IsConsistent}
use worktree_review.Server.State.Jobs.{
  is_terminal, is_stale, set_job, set_attempt, locator_for_attempt, claim_queued, job_event,
  claim_running, claim_rows, claim_attempt_job, mark_running_retryable, mark_job_retryable,
  finalize_open_job, finalize_attempt_job,
}

module _ (s : Store) (v : IsConsistent s) (id : String) (a : Attempt) (j : Job)
    (found : get s.attempts id ≡ some a) (job : get s.jobs id ≡ some j)
    (going : is_terminal j.status ≡ false) where
  -- While a job goes on, its Attempt does not stand.
  stands_not :
      (status : AttemptStatus) (cr : Locator) (c : ChangeRequest)
      → get s.change_requests cr ≡ some c
      → c.standing_attempt_id ≡ some id
      → status ≡ AttemptStatus.published
  stands_not status cr c p q =
      ground (arith, v.standing_published cr c id p q, v.decided_job id a j found job)

  -- The rows of the Attempt and its job, the job not ended.
  rows-IsConsistent :
      (status : AttemptStatus) (j' : Job)
      → j'.attempt_id ≡ j.attempt_id
      → is_decided status ≡ false
      → (is_live status ≡ true → authority (get s.change_requests a.change_request) ≡ some id)
      → IsConsistent (set_attempt id (record a { status = status }) (set_job id j' s))
  rows-IsConsistent status j' same undecided authoritative =
      with_rows-IsConsistent s v id a j' status found (ground (arith, v.job_id id j job))
        (put s.jobs id j') (put-NodupKeys s.jobs id j' v.distinct_jobs)
        (λ x. get-put s.jobs id x j') (λ d. cc) authoritative (stands_not status)

  pub claim_queued-IsConsistent :
      (recovered : Bool) → IsConsistent (claim_queued id a j recovered s).1
  unfolding claim_queued
  claim_queued-IsConsistent recovered =
      elim (Option-cases (get s.change_requests a.change_request)) [
        | inl e ↦ rw (e, claim_queued) v
        | inr (c, e) ↦ elim (Bool-cases (not (c.authoritative_attempt_id == id))) [
          | inl lost ↦
              rw (e, claim_queued)
                (rw lost (rows-IsConsistent AttemptStatus.superseded _ refl refl (λ l. cc)))
          | inr kept ↦
              rw (e, claim_queued)
                (rw kept (rows-IsConsistent AttemptStatus.running _ refl refl (λ l. ground arith)))
        ]
      ]

  -- A new state of the job that leaves its Attempt alone.
  pub job-IsConsistent : (j' : Job) → j'.attempt_id ≡ j.attempt_id → IsConsistent (set_job id j' s)
  job-IsConsistent j' same =
      set_job-IsConsistent s v id j' (ground (arith, v.job_id id j job)) (v.job_attempt id j job)
        (λ b p d. ground (arith, v.decided_job id b j p job))

module _ (env : Env) (s : Store) (v : IsConsistent s) (id : String) (a : Attempt) (j : Job)
    (found : get s.attempts id ≡ some a) (job : get s.jobs id ≡ some j)
    (going : is_terminal j.status ≡ false) where
  abbrev again : Job
  again = record j { retry_count = j.retry_count + 1; status = JobStatus.queued }

  abbrev reset : Store
  reset = set_job id again (ticked s)

  abbrev recovered : Store
  recovered = (job_event env "job_lease_recovered" a.change_request again reset).1

  recovered-IsConsistent : IsConsistent recovered
  unfolding job_event
  recovered-IsConsistent =
      audit-IsConsistent env _ _ _ _ _ _ reset
        (job-IsConsistent s v id a j found job going again refl)

  found-recovered : get recovered.attempts id ≡ some a
  unfolding job_event
  found-recovered = rw attempts-audit found

  job-recovered : get recovered.jobs id ≡ some again
  unfolding job_event
  job-recovered = rw jobs-audit (get-put_self s.jobs id again)

  claim_running-IsConsistent : IsConsistent (claim_running env id a j s).1
  unfolding claim_running
  claim_running-IsConsistent = elim (Bool-cases (not (is_stale j (now s) s.lease_seconds))) [
    | inl e ↦ rw e v
    | inr e ↦ rw e (
        bind-keeps IsConsistent (job_event env "job_lease_recovered" a.change_request again)
          (λ _. claim_queued id a again true) reset recovered-IsConsistent
          (λ _.
            claim_queued-IsConsistent recovered recovered-IsConsistent id a again found-recovered
              job-recovered refl true))
  ]

  mark_running-IsConsistent :
      (error : String) → IsConsistent (mark_running_retryable env id error j s).1
  unfolding mark_running_retryable
  mark_running-IsConsistent error =
      bind-keeps IsConsistent (locator_for_attempt id) _ _
        (rw locator_keeps (job-IsConsistent s v id a j found job going _ refl))
        (λ cr.
          audit-IsConsistent env _ _ _ _ _ _ _
            (rw locator_keeps (job-IsConsistent s v id a j found job going _ refl)))

  finalize_open-IsConsistent :
      (status : JobStatus) (reason : String)
      → IsConsistent (finalize_open_job env id status reason j s).1
  unfolding finalize_open_job
  finalize_open-IsConsistent status reason =
      bind-keeps IsConsistent (locator_for_attempt id) _ _
        (rw locator_keeps (job-IsConsistent s v id a j found job going _ refl))
        (λ cr.
          audit-IsConsistent env _ _ _ _ _ _ _
            (rw locator_keeps (job-IsConsistent s v id a j found job going _ refl)))

-- The Attempt of a job is there.
pub attempt_of :
    (s : Store) (v : IsConsistent s) (id : String) (j : Job)
    → get s.jobs id ≡ some j
    → (a : Attempt) × (get s.attempts id ≡ some a)
attempt_of s v id j q = ground (arith, v.job_attempt id j q)

module _ (env : Env) (s : Store) (v : IsConsistent s) (id : String) where
  claim_rows-IsConsistent :
      (oa : Option Attempt) (oj : Option Job)
      → get s.attempts id ≡ oa
      → get s.jobs id ≡ oj
      → IsConsistent (claim_rows env id oa oj s).1
  unfolding claim_rows
  claim_rows-IsConsistent none oj p q = v
  claim_rows-IsConsistent (some a) none p q = v
  claim_rows-IsConsistent (some a) (some j) p q = by_status j.status refl
    where
      by_status :
          (x : JobStatus) → j.status ≡ x → IsConsistent (claim_rows env id (some a) (some j) s).1
      by_status JobStatus.running e =
          rw (e, claim_rows) (claim_running-IsConsistent env s v id a j p q (rw e))
      by_status JobStatus.queued e =
          rw (e, claim_rows) (claim_queued-IsConsistent s v id a j p q (rw e) false)
      by_status x e = rw (e, claim_rows) v

  pub claim_attempt_job-IsConsistent : IsConsistent (claim_attempt_job env id s).1
  unfolding claim_attempt_job
  claim_attempt_job-IsConsistent = claim_rows-IsConsistent _ _ refl refl

  pub mark_job_retryable-IsConsistent :
      (error : String) → IsConsistent (mark_job_retryable env id error s).1
  unfolding mark_job_retryable
  mark_job_retryable-IsConsistent error = elim (Option-cases (get s.jobs id)) [
    | inl e ↦ rw (e, mark_job_retryable) v
    | inr (j, e) ↦ by_status j e j.status refl
  ]
    where
      by_status :
          (j : Job)
          → get s.jobs id ≡ some j
          → (x : JobStatus) → j.status ≡ x
          → IsConsistent (mark_job_retryable env id error s).1
      by_status j e JobStatus.running x =
          let (a, p) = attempt_of s v id j e in
          rw (e, mark_job_retryable)
            (rw (x, mark_job_retryable) (mark_running-IsConsistent env s v id a j p e (rw x) error))
      by_status j e y x = rw (e, mark_job_retryable) (rw (x, mark_job_retryable) v)

  pub finalize_attempt_job-IsConsistent :
      (status : JobStatus) (reason : String)
      → IsConsistent (finalize_attempt_job env id status reason s).1
  unfolding finalize_attempt_job
  finalize_attempt_job-IsConsistent status reason =
      elim (Bool-cases (not (status == JobStatus.completed || status == JobStatus.failed))) [
        | inl e ↦ rw e v
        | inr e ↦ rw e (elim (Option-cases (get s.jobs id)) [
          | inl p ↦ rw (p, finalize_attempt_job) v
          | inr (j, p) ↦
              rw (p, finalize_attempt_job)
                (elim (Bool-cases (is_terminal j.status)) [
                  | inl x ↦ rw x v
                  | inr x ↦ rw x (
                      let (a, q) = attempt_of s v id j p in
                      finalize_open-IsConsistent env s v id a j q p x status reason)
                ])
        ])
      ]
