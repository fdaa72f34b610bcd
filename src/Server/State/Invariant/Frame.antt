-- ===== src/Server/State/Invariant/Frame.antt =====
-- What does not touch the tables of src/worktree_review/server/state.py: the clock, the audit log, the
-- check intents.
use worktree_review.Base.{ℕ, String, Option, ◌≡◌, arith}
use worktree_review.Base.Exec.{ok, ◌>>=◌, bind-keeps}
use worktree_review.Server.Json.{Fields}
use worktree_review.Server.State.{Locator, Store, Env}
use worktree_review.Server.State.Audit.{record_audit_event}
use worktree_review.Server.State.Jobs.{locator_for_attempt}
use worktree_review.Server.State.Invariant.{IsConsistent, BypassesStand}

module _ (env : Env) (event_type : String) (cr : Locator) (id : Option String) (payload : Fields)
    (actor_id : Option ℕ) (actor_login : Option String) (s : Store) where
  abbrev audited : Store
  audited = (record_audit_event env event_type cr id payload actor_id actor_login s).1

  pub attempts-audit : audited.attempts ≡ s.attempts
  unfolding record_audit_event
  attempts-audit = ground arith

  pub jobs-audit : audited.jobs ≡ s.jobs
  unfolding record_audit_event
  jobs-audit = ground arith

  pub change_requests-audit : audited.change_requests ≡ s.change_requests
  unfolding record_audit_event
  change_requests-audit = ground arith

  pub bypasses-audit : audited.bypasses ≡ s.bypasses
  unfolding record_audit_event
  bypasses-audit = ground arith

  pub deliveries-audit : audited.delivery_attempts ≡ s.delivery_attempts
  unfolding record_audit_event
  deliveries-audit = ground arith

  pub audit-IsConsistent : IsConsistent s → IsConsistent audited
  audit-IsConsistent v = rw (attempts-audit, jobs-audit, change_requests-audit) v

  pub audit-BypassesStand : BypassesStand s → BypassesStand audited
  audit-BypassesStand v = rw (bypasses-audit, change_requests-audit) v

  -- The event, and then a plain result.
  module _ {B : Type 0} (b : B) where
    abbrev concluded : Store
    concluded =
        ((record_audit_event env event_type cr id payload actor_id actor_login >>= λ _ t. (ok b, t))
          s).1

    pub concluded-IsConsistent : IsConsistent s → IsConsistent concluded
    concluded-IsConsistent v =
        bind-keeps IsConsistent
          (record_audit_event env event_type cr id payload actor_id actor_login) (λ _ t. (ok b, t))
          s (audit-IsConsistent v) (λ _. audit-IsConsistent v)

    pub concluded-BypassesStand : BypassesStand s → BypassesStand concluded
    concluded-BypassesStand v =
        bind-keeps BypassesStand
          (record_audit_event env event_type cr id payload actor_id actor_login) (λ _ t. (ok b, t))
          s (audit-BypassesStand v) (λ _. audit-BypassesStand v)

pub locator_keeps : (id : String) (t : Store) → (locator_for_attempt id t).1 ≡ t
unfolding locator_for_attempt
locator_keeps id t = ground arith
