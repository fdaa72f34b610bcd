-- ===== src/Server/State/Invariant/Decisions.antt =====
-- The job methods of src/worktree_review/server/state.py beside the change requests and bypasses.
use worktree_review.Base.{ℕ, String, Bool, Option, [], ◌∷◌, ◌≡◌, ◌∙◌, refl, arith, string_eq}
use worktree_review.Base.Dict.{Dict}
use worktree_review.Base.Exec.{bind-keeps}
use worktree_review.Server.Json.{Fields}
use worktree_review.Server.State.{
  Attempt, Job, JobStatus, JobRecoveryReport, Store, Env, Locator, locator_eq, job_status_eq,
  ticked, now,
}
use worktree_review.Server.State.Audit.{record_audit_event}
use worktree_review.Server.State.Jobs.{
  locator_for_attempt, claim_queued, job_event, claim_running, claim_rows, claim_attempt_job,
  mark_running_retryable, mark_job_retryable, finalize_open_job, finalize_attempt_job,
}
use worktree_review.Server.State.Recovery.{
  fail_job, recover_retryable, recover_running, recover_one, recover_loop, recover_interrupted_jobs,
}
use worktree_review.Server.State.Invariant.{BypassesStand}

-- Two stores with the same decisions and bypasses.
pub record SameDecisions (s t : Store) : Type 0 where
  pub change_requests : t.change_requests ≡ s.change_requests
  pub bypasses : t.bypasses ≡ s.bypasses

pub same-BypassesStand : (s t : Store) → SameDecisions s t → BypassesStand s → BypassesStand t
same-BypassesStand s t e w = rw (e.change_requests, e.bypasses) w

module _ (env : Env) where
  pub audit-SameDecisions :
      (event_type : String) (cr : Locator) (id : Option String) (payload : Fields)
      (actor_id : Option ℕ) (actor_login : Option String) (s : Store)
      → SameDecisions s (record_audit_event env event_type cr id payload actor_id actor_login s).1
  unfolding record_audit_event
  audit-SameDecisions event_type cr id payload actor_id actor_login s = record {
    change_requests = ground arith;
    bypasses = ground arith;
  }

  claim_queued-SameDecisions :
      (id : String) (a : Attempt) (j : Job) (recovered : Bool) (s : Store)
      → SameDecisions s (claim_queued id a j recovered s).1
  unfolding claim_queued
  claim_queued-SameDecisions id a j recovered s = record {
    change_requests = ground arith;
    bypasses = ground arith;
  }

  pub claim_attempt_job-SameDecisions :
      (id : String) (s : Store) → SameDecisions s (claim_attempt_job env id s).1
  unfolding claim_attempt_job claim_rows claim_running job_event claim_queued record_audit_event
  claim_attempt_job-SameDecisions id s = record {
    change_requests = ground arith;
    bypasses = ground arith;
  }

  pub mark_job_retryable-SameDecisions :
      (id error : String) (s : Store) → SameDecisions s (mark_job_retryable env id error s).1
  unfolding mark_job_retryable mark_running_retryable locator_for_attempt record_audit_event
  mark_job_retryable-SameDecisions id error s = record {
    change_requests = ground arith;
    bypasses = ground arith;
  }

  pub finalize_attempt_job-SameDecisions :
      (id : String) (status : JobStatus) (reason : String) (s : Store)
      → SameDecisions s (finalize_attempt_job env id status reason s).1
  unfolding finalize_attempt_job finalize_open_job locator_for_attempt record_audit_event
  finalize_attempt_job-SameDecisions id status reason s = record {
    change_requests = ground arith;
    bypasses = ground arith;
  }

  recover_one-SameDecisions :
      (limit lease at : ℕ) (key : String) (j : Job) (report : JobRecoveryReport) (s : Store)
      → SameDecisions s (recover_one env limit lease at key j report s).1
  unfolding recover_one recover_retryable recover_running fail_job job_event locator_for_attempt
      record_audit_event
  recover_one-SameDecisions limit lease at key j report s = record {
    change_requests = ground arith;
    bypasses = ground arith;
  }

  recover_loop-SameDecisions :
      (limit lease at : ℕ) (entries : Dict String Job) (report : JobRecoveryReport) (s t : Store)
      → SameDecisions s t
      → SameDecisions s (recover_loop env limit lease at entries report t).1
  unfolding recover_loop
  recover_loop-SameDecisions limit lease at [] report s t h = h
  recover_loop-SameDecisions limit lease at ((key, j) ∷ rest) report s t h =
      bind-keeps (SameDecisions s) (recover_one env limit lease at key j report)
        (recover_loop env limit lease at rest) t next
        (λ report'. recover_loop-SameDecisions limit lease at rest report' s _ next)
    where
      next : SameDecisions s (recover_one env limit lease at key j report t).1
      next = record {
        change_requests =
            (recover_one-SameDecisions limit lease at key j report t).change_requests
            ∙ h.change_requests;
        bypasses = (recover_one-SameDecisions limit lease at key j report t).bypasses ∙ h.bypasses;
      }

  pub recover_interrupted_jobs-SameDecisions :
      (limit lease : ℕ) (s : Store) → SameDecisions s (recover_interrupted_jobs env limit lease s).1
  unfolding recover_interrupted_jobs
  recover_interrupted_jobs-SameDecisions limit lease s =
      recover_loop-SameDecisions limit lease (now s) s.jobs _ s (ticked s)
        (record { change_requests = refl; bypasses = refl })
