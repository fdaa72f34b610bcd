-- ===== src/Server/State/Jobs/Claims.antt =====
-- Who may work on a durable job of src/worktree_review/server/state.py.
use worktree_review.Base.{
  ◌+◌, ◌≤◌, String, Bool, true, false, inl, inr, Option, none, some, Bool-cases, Option-cases,
  string_eq, option_eq, ◌≡◌, refl, arith,
}
use worktree_review.Base.Dict.{get, get-put_self}
use worktree_review.Base.Exec.{Result, ok, err, continue}
use worktree_review.Server.State.{
  JobStatus, AttemptLease, Attempt, Job, Store, Error, Env, locator_eq, job_status_eq, ticked, now,
}
use worktree_review.Server.State.Attempts.{authority}
use worktree_review.Server.State.Invariant.Frame.{change_requests-audit}
use worktree_review.Server.State.Jobs.{
  is_terminal, is_stale, claim_queued, job_event, claim_running, claim_rows, claim_attempt_job,
  mark_job_retryable, finalize_attempt_job,
}

abbrev pub status_of_job : Option Job → Option JobStatus
status_of_job none = none
status_of_job (some j) = some j.status

-- What a lease of `a` says, and the job's status after the claim.
abbrev pub Claimed : String → Store → Attempt → AttemptLease → Store → Type 0
Claimed id s a lease t =
    (authority (get s.change_requests a.change_request) ≡ some id)
    × (lease.change_request ≡ a.change_request)
    × (lease.request_key ≡ a.request_key)
    × (status_of_job (get t.jobs id) ≡ some JobStatus.running)

module _ (env : Env) (id : String) (s : Store) where
  queued_claim :
      (a : Attempt) (j : Job) (recovered : Bool) (t : Store) (lease : AttemptLease)
      → t.change_requests ≡ s.change_requests
      → (claim_queued id a j recovered t).0 ≡ ok (some lease)
      → Claimed id s a lease (claim_queued id a j recovered t).1
  unfolding claim_queued
  queued_claim a j recovered t lease same h = (
    ground (arith, h, same),
    ground (arith, h),
    ground (arith, h),
    ground (
      arith,
      h,
      get-put_self t.jobs id (record j { status = JobStatus.running; updated_at = now t }),
    ),
  )

  after_event :
      (a : Attempt) (j : Job) (r : Result Error Unit) (t : Store) (lease : AttemptLease)
      → t.change_requests ≡ s.change_requests
      → (continue r (λ _. claim_queued id a j true) t).0 ≡ ok (some lease)
      → Claimed id s a lease (continue r (λ _. claim_queued id a j true) t).1
  after_event a j (ok tt) t lease same h = queued_claim a j true t lease same h
  after_event a j (err e) t lease same h = cc

  running_claim :
      (a : Attempt) (j : Job) (lease : AttemptLease)
      → (claim_running env id a j s).0 ≡ ok (some lease)
      → Claimed id s a lease (claim_running env id a j s).1
  unfolding claim_running job_event
  running_claim a j lease h = elim (Bool-cases (is_stale j (now s) s.lease_seconds)) [
    | inr e ↦ cc (rw (e, claim_running) at h)
    | inl e ↦
        rw (e, claim_running)
          (after_event a _ _ _ lease (change_requests-audit env _ _ _ _ _ _ _)
            (rw (e, claim_running) at h))
  ]

  rows_claim :
      (a : Attempt) (j : Job) (lease : AttemptLease)
      → (claim_rows env id (some a) (some j) s).0 ≡ ok (some lease)
      → Claimed id s a lease (claim_rows env id (some a) (some j) s).1
  unfolding claim_rows
  rows_claim a j lease h =
      elim j.status
          as (λ x. j.status ≡ x → Claimed id s a lease (claim_rows env id (some a) (some j) s).1) [
            | JobStatus.queued ↦ λ e.
                rw (e, claim_rows) (queued_claim a j false s lease refl (rw (e, claim_rows) at h))
            | JobStatus.running ↦
                λ e. rw (e, claim_rows) (running_claim a j lease (rw (e, claim_rows) at h))
            | JobStatus.superseded ↦ λ e. cc (rw (e, claim_rows) at h)
            | JobStatus.completed ↦ λ e. cc (rw (e, claim_rows) at h)
            | JobStatus.retryable ↦ λ e. cc (rw (e, claim_rows) at h)
            | JobStatus.failed ↦ λ e. cc (rw (e, claim_rows) at h)
          ]
        refl

  -- A claim that returns a lease is of the authoritative Attempt of its change request, for its own
  -- request key, and leaves its job running.
  pub claim_needs_authority :
      (a : Attempt) (lease : AttemptLease)
      → get s.attempts id ≡ some a
      → (claim_attempt_job env id s).0 ≡ ok (some lease)
      → Claimed id s a lease (claim_attempt_job env id s).1
  unfolding claim_attempt_job claim_rows
  claim_needs_authority a lease found h = elim (Option-cases (get s.jobs id)) [
    | inl n ↦ cc (rw (found, n, claim_rows) at h)
    | inr (j, q) ↦ rw (found, q) (rows_claim a j lease (rw (found, q) at h))
  ]

  running-claimed :
      (a : Attempt) (j : Job)
      → get s.attempts id ≡ some a
      → get s.jobs id ≡ some j
      → j.status ≡ JobStatus.running
      → now s ≤ j.updated_at + s.lease_seconds
      → claim_attempt_job env id s ≡ (ok none, ticked s)
  unfolding claim_attempt_job claim_rows claim_running
  running-claimed a j found job running fresh =
      rw (found, job, running, claim_rows) (ground (arith, fresh))

  -- A job that has ended is not claimed, retried or ended again: the three methods leave the store
  -- as it is.
  pub ended_job_is_final :
      (j : Job) (error reason : String) (status : JobStatus)
      → get s.jobs id ≡ some j
      → is_terminal j.status ≡ true
      → (claim_attempt_job env id s ≡ (ok none, s))
        × (mark_job_retryable env id error s ≡ (ok tt, s))
        × ((finalize_attempt_job env id status reason s).1 ≡ s)
  unfolding claim_attempt_job claim_rows mark_job_retryable finalize_attempt_job
  ended_job_is_final j error reason status job ended =
      (ground (arith, job, ended), ground (arith, job, ended), ground (arith, job, ended))

pub running_is_exclusive :
    (env : Env) (id : String) (s later : Store) (a b : Attempt) (j : Job) (lease : AttemptLease)
    → get s.attempts id ≡ some a
    → (claim_attempt_job env id s).0 ≡ ok (some lease)
    → get (claim_attempt_job env id s).1.jobs id ≡ some j
    → get later.attempts id ≡ some b
    → get later.jobs id ≡ some j
    → now later ≤ j.updated_at + later.lease_seconds
    → claim_attempt_job env id later ≡ (ok none, ticked later)
running_is_exclusive env id s later a b j lease found h left other same fresh =
    let claimed = claim_needs_authority env id s a lease found h in
    running-claimed env id later b j other same (ground (arith, claimed, left)) fresh
