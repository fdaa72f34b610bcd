-- ===== src/Server/State/Later.antt =====
-- One call of a method of `InMemoryAuthoritativeAttemptStore` in src/worktree_review/server/state.py,
-- whatever it returns or raises, and the stores that calls lead to from a given one.
pub mod Withdrawals
pub mod Deliveries
use worktree_review.Base.{ℕ, String, Option}
use worktree_review.Core.Identity.{ReviewRequestKey, ReviewIdentity}
use worktree_review.Core.Report.{GateState}
use worktree_review.Server.Json.{Fields}
use worktree_review.Server.State.{Locator, JobStatus, CheckSyncStatus, Store, Env}
use worktree_review.Server.State.Audit.{append_audit_event}
use worktree_review.Server.State.Attempts.{start_authoritative_attempt, record_review_identity}
use worktree_review.Server.State.Jobs.{claim_attempt_job, mark_job_retryable, finalize_attempt_job}
use worktree_review.Server.State.Recovery.{recover_interrupted_jobs}
use worktree_review.Server.State.Publish.{publish_if_authoritative}
use worktree_review.Server.State.Standing.{
  invalidate_standing_decision, invalidate_standing_for_target,
}
use worktree_review.Server.State.Bypass.{BypassCall, apply_finding_bypass}
use worktree_review.Server.State.CheckSync.{claim_standing_check_sync, mark_standing_check_sync}

pub data Step (env : Env) (s : Store) : Store → Type 0 where
  start :
      (uuid : String) (wall_now : ℕ) (cr : Locator) (key : ReviewRequestKey)
      (expected delivery_id : Option String)
      → Step env s (start_authoritative_attempt env uuid wall_now cr key expected delivery_id s).1
  identify :
      (id : String) (identity : ReviewIdentity)
      → Step env s (record_review_identity id identity s).1
  claim : (id : String) → Step env s (claim_attempt_job env id s).1
  mark_retryable : (id error : String) → Step env s (mark_job_retryable env id error s).1
  finalize :
      (id : String) (status : JobStatus) (reason : String)
      → Step env s (finalize_attempt_job env id status reason s).1
  recover :
      (max_attempts lease_seconds : ℕ)
      → Step env s (recover_interrupted_jobs env max_attempts lease_seconds s).1
  publish :
      (id : String) (key : ReviewRequestKey) (identity : Option ReviewIdentity) (gate : GateState)
      → Step env s (publish_if_authoritative env id key identity gate s).1
  withdraw :
      (cr : Locator) (reason : String) → Step env s (invalidate_standing_decision env cr reason s).1
  retarget :
      (repository target_ref reason : String)
      → Step env s (invalidate_standing_for_target env repository target_ref reason s).1
  bypass : (call : BypassCall) → Step env s (apply_finding_bypass env call s).1
  audit :
      (event_type : String) (cr : Locator) (id : Option String) (payload : Fields)
      (actor_id : Option ℕ) (actor_login : Option String)
      → Step env s (append_audit_event env event_type cr id payload actor_id actor_login s).1
  claim_sync : (at lease_seconds : ℕ) → Step env s (claim_standing_check_sync at lease_seconds s).1
  mark_sync :
      (intent_id : ℕ) (status : CheckSyncStatus) (error : Option String) (next_retry_at : Option ℕ)
      → Step env s (mark_standing_check_sync intent_id status error next_retry_at s)

pub data Later (env : Env) (s : Store) : Store → Type 0 where
  here : Later env s s
  next : {t u : Store} → Later env s t → Step env t u → Later env s u
