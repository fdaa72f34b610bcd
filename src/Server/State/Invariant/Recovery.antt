-- ===== src/Server/State/Invariant/Recovery.antt =====
-- `recover_interrupted_jobs` of src/worktree_review/server/state.py and the invariants. The loop goes
-- over the jobs that were there when it began.
use worktree_review.Base.{
  ℕ, ◌+◌, String, Bool, true, false, not, inl, inr, none, some, [], ◌∷◌, ◌≡◌, refl, Bool-cases, leb,
  string_eq,
}
use worktree_review.Base.Dict.{Dict, NodupKeys, Within, get, Within-put, Within-self}
use worktree_review.Base.Exec.{Exec, ok, ◌>>=◌, bind-keeps}
use worktree_review.Server.State.{
  JobStatus, Job, JobRecoveryReport, Store, Error, Env, Locator, ticked, now,
}
use worktree_review.Server.State.Invariant.{IsConsistent}
use worktree_review.Server.State.Invariant.Frame.{locator_keeps, audit-IsConsistent, jobs-audit}
use worktree_review.Server.State.Invariant.Jobs.{attempt_of, job-IsConsistent}
use worktree_review.Server.State.Jobs.{
  is_terminal, is_stale, set_job, locator_for_attempt, job_event,
}
use worktree_review.Server.State.Recovery.{
  fail_job, recover_retryable, recover_running, recover_one, recover_loop, recover_interrupted_jobs,
}

module _ (env : Env) where
  -- The events of a round touch no table.
  fail_job-IsConsistent :
      (job : Job) (expired : Bool) (t : Store)
      → IsConsistent t
      → IsConsistent (fail_job env job expired t).1
  unfolding fail_job
  fail_job-IsConsistent job expired t v =
      bind-keeps IsConsistent (locator_for_attempt job.attempt_id) _ t (rw locator_keeps v)
        (λ cr. audit-IsConsistent env _ _ _ _ _ _ _ (rw locator_keeps v))

  jobs-fail_job :
      (job : Job) (expired : Bool) (t : Store) → (fail_job env job expired t).1.jobs ≡ t.jobs
  unfolding fail_job
  jobs-fail_job job expired t =
      bind-keeps (λ u. u.jobs ≡ t.jobs) (locator_for_attempt job.attempt_id) _ t (rw locator_keeps)
        (λ cr. rw (jobs-audit, locator_keeps))

-- A round: the tables are consistent afterwards, and no other job has changed.
record Round (key : String) (s t : Store) : Type 0 where
  consistent : IsConsistent t
  others : (r : Dict String Job) → get r key ≡ none → Within r s.jobs → Within r t.jobs

module _ (env : Env) (key : String) (s : Store) where
  -- Events after a round touch no table.
  fail_job-Round :
      (j : Job) (expired : Bool) (t : Store)
      → Round key s t
      → Round key s (fail_job env j expired t).1
  fail_job-Round j expired t w = record {
    consistent = fail_job-IsConsistent env j expired t w.consistent;
    others = λ r n h. rw jobs-fail_job (w.others r n h);
  }

  locator-Round :
      (id : String) (t : Store) → Round key s t → Round key s (locator_for_attempt id t).1
  locator-Round id t w = rw locator_keeps w

  job_event-Round :
      (event_type : String) (cr : Locator) (j : Job) (t : Store)
      → Round key s t
      → Round key s (job_event env event_type cr j t).1
  unfolding job_event
  job_event-Round event_type cr j t w = record {
    consistent = audit-IsConsistent env _ _ _ _ _ _ t w.consistent;
    others = λ r n h. rw jobs-audit (w.others r n h);
  }

  -- An action that ends in a plain result, after a round.
  pure-Round :
      {A B : Type 0} (m : Exec Store Error A) (b : B) (t : Store)
      → Round key s (m t).1
      → Round key s ((m >>= λ _ u. (ok b, u)) t).1
  pure-Round m b t w = bind-keeps (Round key s) m (λ _ u. (ok b, u)) t w (λ _. w)

module _ (env : Env) (s : Store) (v : IsConsistent s) (key : String) (job : Job)
    (present : get s.jobs key ≡ some job) (going : is_terminal job.status ≡ false) where
  set_job-Round : (j : Job) → j.attempt_id ≡ job.attempt_id → Round key s (set_job key j s)
  set_job-Round j same =
      let (a, found) = attempt_of s v key job present in
      record {
        consistent = job-IsConsistent s v key a job found present going j same;
        others = λ r n w. Within-put r s.jobs key j n w;
      }

  fail-Round :
      {B : Type 0} (j : Job) (expired : Bool) (b : B)
      → j.attempt_id ≡ job.attempt_id
      → Round key s ((fail_job env j expired >>= λ _ u. (ok b, u)) (set_job key j s)).1
  fail-Round j expired b same =
      pure-Round env key s (fail_job env j expired) b (set_job key j s)
        (fail_job-Round env key s j expired (set_job key j s) (set_job-Round j same))

  recover_retryable-Round :
      (limit at : ℕ) (report : JobRecoveryReport)
      → Round key s (recover_retryable env limit at key job report s).1
  unfolding recover_retryable
  recover_retryable-Round limit at report = elim (Bool-cases (leb limit job.retry_count)) [
    | inl e ↦ rw e (fail-Round _ false _ refl)
    | inr e ↦ rw e (set_job-Round _ refl)
  ]

  requeue-Round :
      {B : Type 0} (j again : Job) (b : B)
      → j.attempt_id ≡ job.attempt_id
      → Round key s
          ((locator_for_attempt job.attempt_id >>= λ cr.
              job_event env "job_lease_recovered" cr again >>= λ _ u. (ok b, u))
            (set_job key j s)).1
  requeue-Round j again b same =
      bind-keeps (Round key s) (locator_for_attempt job.attempt_id)
        (λ cr. job_event env "job_lease_recovered" cr again >>= λ _ u. (ok b, u)) (set_job key j s)
        (locator-Round env key s job.attempt_id (set_job key j s) (set_job-Round j same))
        (λ cr.
          pure-Round env key s (job_event env "job_lease_recovered" cr again) b
            (locator_for_attempt job.attempt_id (set_job key j s)).1
            (job_event-Round env key s _ cr again _
              (locator-Round env key s job.attempt_id (set_job key j s) (set_job-Round j same))))

  recover_running-Round :
      (limit lease at : ℕ) (report : JobRecoveryReport)
      → Round key s (recover_running env limit lease at key job report s).1
  unfolding recover_running
  recover_running-Round limit lease at report = elim (Bool-cases (not (is_stale job at lease))) [
    | inl e ↦ rw e (record { consistent = v; others = λ r n w. w })
    | inr e ↦ rw e (elim (Bool-cases (leb limit (job.retry_count + 1))) [
      | inl f ↦ rw f (fail-Round _ true _ refl)
      | inr f ↦ rw f (requeue-Round _ _ _ refl)
    ])
  ]

module _ (env : Env) (limit lease at : ℕ) where
  recover_one-Round :
      (s : Store) (v : IsConsistent s) (key : String) (job : Job) (report : JobRecoveryReport)
      → get s.jobs key ≡ some job
      → Round key s (recover_one env limit lease at key job report s).1
  unfolding recover_one
  recover_one-Round s v key job report present = by_status job.status refl
    where
      by_status :
          (x : JobStatus)
          → job.status ≡ x
          → Round key s (recover_one env limit lease at key job report s).1
      by_status JobStatus.retryable e =
          rw (e, recover_one)
            (recover_retryable-Round env s v key job present (rw e) limit at report)
      by_status JobStatus.running e =
          rw (e, recover_one)
            (recover_running-Round env s v key job present (rw e) limit lease at report)
      by_status x e = rw (e, recover_one) (record { consistent = v; others = λ r n w. w })

  recover_loop-IsConsistent :
      (entries : Dict String Job) (report : JobRecoveryReport) (s : Store)
      → IsConsistent s
      → NodupKeys entries
      → Within entries s.jobs
      → IsConsistent (recover_loop env limit lease at entries report s).1
  unfolding recover_loop
  recover_loop-IsConsistent [] report s v n w = v
  recover_loop-IsConsistent ((key, job) ∷ rest) report s v (fresh, n) (present, w) =
      bind-keeps IsConsistent (recover_one env limit lease at key job report)
        (recover_loop env limit lease at rest) s round.consistent
        (λ report'.
          recover_loop-IsConsistent rest report' _ round.consistent n (round.others rest fresh w))
    where
      round : Round key s (recover_one env limit lease at key job report s).1
      round = recover_one-Round s v key job report present

pub recover_interrupted_jobs-IsConsistent :
    (env : Env) (limit lease : ℕ) (s : Store)
    → IsConsistent s
    → IsConsistent (recover_interrupted_jobs env limit lease s).1
unfolding recover_interrupted_jobs
recover_interrupted_jobs-IsConsistent env limit lease s v =
    recover_loop-IsConsistent env limit lease (now s) s.jobs _ (ticked s) v v.distinct_jobs
      (Within-self s.jobs v.distinct_jobs)
