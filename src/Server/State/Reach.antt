-- ===== src/Server/State/Reach.antt =====
-- The stores that the methods of `InMemoryAuthoritativeAttemptStore` in
-- src/worktree_review/server/state.py reach, one constructor for each method that writes. A UUID is
-- new. A start of an Attempt or a withdrawal of a decision whose audit event is refused stops halfway
-- and keeps what it has written; the stores after such a call are left out. The other calls may return
-- or raise. The rounds of `invalidate_standing_for_target` are withdrawals, so that where other calls
-- run between two rounds the run has a constructor for each.
use worktree_review.Base.{
  ℕ, String, Option, none, some, is_some, List, [], ◌∷◌, true, inl, inr, Option-cases, ◌≡◌,
  string_eq, nat_eq, pair_eq, arith,
}
use worktree_review.Base.Dict.{get}
use worktree_review.Core.Identity.{ReviewRequestKey, ReviewIdentity}
use worktree_review.Core.Report.{GateState}
use worktree_review.Server.Json.{Fields}
use worktree_review.Server.State.{
  Locator, AttemptStatus, JobStatus, CheckSyncStatus, CheckIntent, BypassRecord, Attempt, Job,
  ChangeRequest, Store, Env, locator_eq, new_store,
}
use worktree_review.Server.State.Audit.{append_audit_event}
use worktree_review.Server.State.Attempts.{
  authority, start_authoritative_attempt, record_review_identity,
}
use worktree_review.Server.State.Jobs.{
  is_terminal, claim_attempt_job, mark_job_retryable, finalize_attempt_job,
}
use worktree_review.Server.State.Recovery.{recover_interrupted_jobs}
use worktree_review.Server.State.Publish.{publish_if_authoritative}
use worktree_review.Server.State.Standing.{
  is_active, invalidate_standing_decision, invalidate_standing_for_target,
}
use worktree_review.Server.State.Bypass.{BypassCall, apply_finding_bypass}
use worktree_review.Server.State.CheckSync.{
  claim_first, claim_standing_check_sync, mark_standing_check_sync,
}
use worktree_review.Server.State.Invariant.{is_live, standing_of, Kept}
use worktree_review.Server.State.Invariant.Frame.{audit-IsConsistent, audit-BypassesStand}
use worktree_review.Server.State.Invariant.Standing.{Accepted}
use worktree_review.Server.State.Invariant.Start.{
  start_authoritative_attempt-Kept, record_review_identity-Kept,
}
use worktree_review.Server.State.Invariant.Jobs.{
  claim_attempt_job-IsConsistent, mark_job_retryable-IsConsistent,
  finalize_attempt_job-IsConsistent,
}
use worktree_review.Server.State.Invariant.Recovery.{recover_interrupted_jobs-IsConsistent}
use worktree_review.Server.State.Invariant.Publish.{publish_if_authoritative-Kept}
use worktree_review.Server.State.Invariant.Withdraw.{
  invalidate_standing_decision-Kept, invalidate_standing_for_target-Kept,
}
use worktree_review.Server.State.Invariant.Bypass.{apply_finding_bypass-Kept}
use worktree_review.Server.State.Invariant.Decisions.{
  same-BypassesStand, claim_attempt_job-SameDecisions, mark_job_retryable-SameDecisions,
  finalize_attempt_job-SameDecisions, recover_interrupted_jobs-SameDecisions,
}

pub data Reach (env : Env) : Store → Type 0 where
  created : (clock : ℕ → ℕ) (lease_seconds : ℕ) → Reach env (new_store clock lease_seconds)
  started :
      {s : Store} (uuid : String) (wall_now : ℕ) (cr : Locator) (key : ReviewRequestKey)
      (expected delivery_id : Option String)
      → get s.attempts uuid ≡ none
      → Accepted (start_authoritative_attempt env uuid wall_now cr key expected delivery_id s).0
      → Reach env s
      → Reach env (start_authoritative_attempt env uuid wall_now cr key expected delivery_id s).1
  identified :
      {s : Store} (id : String) (identity : ReviewIdentity)
      → Reach env s
      → Reach env (record_review_identity id identity s).1
  claimed : {s : Store} (id : String) → Reach env s → Reach env (claim_attempt_job env id s).1
  retried :
      {s : Store} (id error : String)
      → Reach env s
      → Reach env (mark_job_retryable env id error s).1
  finalized :
      {s : Store} (id : String) (status : JobStatus) (reason : String)
      → Reach env s
      → Reach env (finalize_attempt_job env id status reason s).1
  recovered :
      {s : Store} (max_attempts lease_seconds : ℕ)
      → Reach env s
      → Reach env (recover_interrupted_jobs env max_attempts lease_seconds s).1
  published :
      {s : Store} (id : String) (key : ReviewRequestKey) (identity : Option ReviewIdentity)
      (gate : GateState)
      → Reach env s
      → Reach env (publish_if_authoritative env id key identity gate s).1
  withdrawn :
      {s : Store} (cr : Locator) (reason : String)
      → Accepted (invalidate_standing_decision env cr reason s).0
      → Reach env s
      → Reach env (invalidate_standing_decision env cr reason s).1
  retargeted :
      {s : Store} (repository target_ref reason : String)
      → Accepted (invalidate_standing_for_target env repository target_ref reason s).0
      → Reach env s
      → Reach env (invalidate_standing_for_target env repository target_ref reason s).1
  bypassed :
      {s : Store} (call : BypassCall) → Reach env s → Reach env (apply_finding_bypass env call s).1
  audited :
      {s : Store} (event_type : String) (cr : Locator) (id : Option String) (payload : Fields)
      (actor_id : Option ℕ) (actor_login : Option String)
      → Reach env s
      → Reach env (append_audit_event env event_type cr id payload actor_id actor_login s).1
  sync_claimed :
      {s : Store} (at lease_seconds : ℕ)
      → Reach env s
      → Reach env (claim_standing_check_sync at lease_seconds s).1
  sync_marked :
      {s : Store} (intent_id : ℕ) (status : CheckSyncStatus) (error : Option String)
      (next_retry_at : Option ℕ)
      → Reach env s
      → Reach env (mark_standing_check_sync intent_id status error next_retry_at s)

new_store-Kept : (clock : ℕ → ℕ) (lease_seconds : ℕ) → Kept (new_store clock lease_seconds)
unfolding get
new_store-Kept clock lease_seconds = (
  record {
    authority_locator = λ cr c p. cc;
    authority_key = λ cr c p. cc;
    standing_authority = λ cr c id p q. cc;
    standing_published = λ cr c id p q. cc;
    standing_gate = λ cr c p. cc;
    live_authority = λ id a p q. cc;
    has_row = λ id a p. cc;
    has_job = λ id a p. cc;
    own_id = λ id a p. cc;
    job_attempt = λ id j p. cc;
    job_id = λ id j p. cc;
    decided_job = λ id a j p q r. cc;
    distinct_jobs = tt;
  },
  record { active_standing = λ key r p a. cc; own_keys = tt },
)

claim_first-Kept :
    (at lease_seconds : ℕ) (intents : List CheckIntent) (s : Store)
    → Kept s
    → Kept (claim_first at lease_seconds intents s).1
unfolding claim_first
claim_first-Kept at lease_seconds [] s k = k
claim_first-Kept at lease_seconds (intent ∷ rest) s k = k

claim_standing_check_sync-Kept :
    (at lease_seconds : ℕ) (s : Store)
    → Kept s
    → Kept (claim_standing_check_sync at lease_seconds s).1
unfolding claim_standing_check_sync
claim_standing_check_sync-Kept at lease_seconds s k = claim_first-Kept at lease_seconds _ s k

mark_standing_check_sync-Kept :
    (intent_id : ℕ) (status : CheckSyncStatus) (error : Option String) (next_retry_at : Option ℕ)
    (s : Store)
    → Kept s
    → Kept (mark_standing_check_sync intent_id status error next_retry_at s)
unfolding mark_standing_check_sync
mark_standing_check_sync-Kept intent_id status error next_retry_at s k =
    elim (Option-cases (get s.standing_check_intents intent_id)) [
      | inl e ↦ rw (e, mark_standing_check_sync) k
      | inr (i, e) ↦ rw (e, mark_standing_check_sync) k
    ]

-- Every such store keeps the invariants: one authority, one standing decision at most.
pub reach-Kept : (env : Env) (s : Store) → Reach env s → Kept s
unfolding append_audit_event
reach-Kept env _ (created clock lease_seconds) = new_store-Kept clock lease_seconds
reach-Kept env _ (started {s} uuid wall_now cr key expected delivery_id fresh h r) =
    start_authoritative_attempt-Kept env uuid wall_now cr key expected delivery_id s fresh h
      (reach-Kept env s r)
reach-Kept env _ (identified {s} id identity r) =
    record_review_identity-Kept id identity s (reach-Kept env s r)
reach-Kept env _ (claimed {s} id r) =
    let k = reach-Kept env s r in
    (
      claim_attempt_job-IsConsistent env s k.0 id,
      same-BypassesStand s _ (claim_attempt_job-SameDecisions env id s) k.1,
    )
reach-Kept env _ (retried {s} id error r) =
    let k = reach-Kept env s r in
    (
      mark_job_retryable-IsConsistent env s k.0 id error,
      same-BypassesStand s _ (mark_job_retryable-SameDecisions env id error s) k.1,
    )
reach-Kept env _ (finalized {s} id status reason r) =
    let k = reach-Kept env s r in
    (
      finalize_attempt_job-IsConsistent env s k.0 id status reason,
      same-BypassesStand s _ (finalize_attempt_job-SameDecisions env id status reason s) k.1,
    )
reach-Kept env _ (recovered {s} limit lease r) =
    let k = reach-Kept env s r in
    (
      recover_interrupted_jobs-IsConsistent env limit lease s k.0,
      same-BypassesStand s _ (recover_interrupted_jobs-SameDecisions env limit lease s) k.1,
    )
reach-Kept env _ (published {s} id key identity gate r) =
    let k = reach-Kept env s r in publish_if_authoritative-Kept env s id key identity gate k.0 k.1
reach-Kept env _ (withdrawn {s} cr reason h r) =
    let k = reach-Kept env s r in invalidate_standing_decision-Kept env cr reason s h k.0 k.1
reach-Kept env _ (retargeted {s} repository target_ref reason h r) =
    invalidate_standing_for_target-Kept env repository target_ref reason s h (reach-Kept env s r)
reach-Kept env _ (bypassed {s} call r) = apply_finding_bypass-Kept env call s (reach-Kept env s r)
reach-Kept env _ (audited {s} event_type cr id payload actor_id actor_login r) =
    let k = reach-Kept env s r in
    (
      audit-IsConsistent env event_type cr id payload actor_id actor_login s k.0,
      audit-BypassesStand env event_type cr id payload actor_id actor_login s k.1,
    )
reach-Kept env _ (sync_claimed {s} at lease_seconds r) =
    claim_standing_check_sync-Kept at lease_seconds s (reach-Kept env s r)
reach-Kept env _ (sync_marked {s} intent_id status error next_retry_at r) =
    mark_standing_check_sync-Kept intent_id status error next_retry_at s (reach-Kept env s r)

module _ (env : Env) (s : Store) (r : Reach env s) where
  -- In a store that the methods reach, where no start of an Attempt and no withdrawal of a decision was
  -- refused an audit event, two Attempts of one change request that are queued,
  -- running or published are the same Attempt, and it is the authoritative one.
  pub single_live_attempt :
      (i j : String) (a b : Attempt)
      → get s.attempts i ≡ some a
      → get s.attempts j ≡ some b
      → a.change_request ≡ b.change_request
      → is_live a.status ≡ true
      → is_live b.status ≡ true
      → (i ≡ j) × (authority (get s.change_requests a.change_request) ≡ some i)
  single_live_attempt i j a b p q same x y =
      let v = (reach-Kept env s r).0 in
      ground (arith, v.live_authority i a p x, v.live_authority j b q y, same)

  -- In a store that the methods reach, where no start of an Attempt and no withdrawal of a decision was
  -- refused an audit event, the standing decision of a change request has a
  -- gate state and is of its authoritative Attempt, which is published, for this change request and
  -- request key, and whose job has ended.
  pub standing_is_published :
      (cr : Locator) (c : ChangeRequest) (id : String) (a : Attempt) (j : Job)
      → get s.change_requests cr ≡ some c
      → c.standing_attempt_id ≡ some id
      → get s.attempts id ≡ some a
      → get s.jobs id ≡ some j
      → (c.authoritative_attempt_id ≡ id)
        × (a.status ≡ AttemptStatus.published)
        × (a.change_request ≡ cr)
        × (a.request_key ≡ c.request_key)
        × (is_some c.standing_gate_state ≡ true)
        × (is_terminal j.status ≡ true)
  standing_is_published cr c id a j p q f g =
      let v = (reach-Kept env s r).0 in
      ground (
        arith,
        v.standing_authority cr c id p q,
        v.standing_published cr c id p q,
        v.authority_locator cr c p,
        v.authority_key cr c p,
        v.standing_gate cr c p,
        v.decided_job id a j f g,
      )

  -- In a store that the methods reach, where no start of an Attempt and no withdrawal of a decision was
  -- refused an audit event, an active bypass is of the Attempt whose decision
  -- stands on the bypass's change request.
  pub active_bypass_stands :
      (key : String × String) (b : BypassRecord)
      → get s.bypasses key ≡ some b
      → is_active b.status ≡ true
      → standing_of (get s.change_requests b.change_request) ≡ some b.attempt_id
  active_bypass_stands key b p a = (reach-Kept env s r).1.active_standing key b p a
