-- ===== src/Server/State/Later/Deliveries.antt =====
-- The deliveries that the store of src/worktree_review/server/state.py remembers.
use worktree_review.Base.{
  ℕ, List, String, Option, none, some, [], ◌∷◌, inl, inr, Bool-cases, Option-cases, ◌==◌, nat_eq,
  string_eq, pair_eq, ◌≡◌, refl, arith,
}
use worktree_review.Base.Dict.{Dict, get, get-put}
use worktree_review.Server.Json.{opt_str, end, field}
use worktree_review.Base.Exec.{Exec, Result, ok, err, continue, ◌>>=◌}
use worktree_review.Core.Identity.{ReviewRequestKey, ReviewIdentity}
use worktree_review.Core.Report.{GateState}
use worktree_review.Server.State.{
  JobStatus, CheckSyncStatus, AttemptLease, ChangeRequest, CheckIntent, Locator, Store, Env, Error,
  locator_eq, ticked, now,
}
use worktree_review.Server.State.Audit.{record_audit_event, append_audit_event}
use worktree_review.Server.State.Attempts.{
  authority, moved, supersede_prior, remember_delivery, new_rows, new_lease, start_new,
  start_authoritative_attempt, record_review_identity,
}
use worktree_review.Server.State.Bypass.{
  BypassCall, apply_finding_bypass, bypass_on, bypass_standing, replay_bypass, grant_bypass,
  settle_bypass, audit_transition, sync_bypass,
}
use worktree_review.Server.State.CheckSync.{
  claim_first, claim_standing_check_sync, mark_standing_check_sync,
}
use worktree_review.Server.State.Jobs.{
  claim_attempt_job, claim_rows, claim_running, claim_queued, job_event, locator_for_attempt,
  mark_job_retryable, mark_running_retryable, finalize_attempt_job, finalize_open_job,
}
use worktree_review.Server.State.Later.{
  Step, start, identify, claim, mark_retryable, finalize, recover, publish, withdraw, retarget,
  bypass, audit, claim_sync, mark_sync, Later, here, next,
}
use worktree_review.Server.State.Publish.{
  complete_job, publish_again, publish_superseded, publish_standing, publish_by_status,
  publish_if_authoritative,
}
use worktree_review.Server.State.Recovery.{recover_interrupted_jobs}
use worktree_review.Server.State.Standing.{
  invalidate_standing_for_target, ref_aliases, supersede_check_intents, enqueue_check_intent,
}
use worktree_review.Server.State.Later.Withdrawals.{
  SameDeliveries, audit-SameDeliveries, recover_loop-SameDeliveries, withdraw-SameDeliveries,
  targets-SameDeliveries, supersede_prior-SameDeliveries,
}

-- What was remembered before is remembered.
abbrev pub Remembers : Store → Store → Type 0
Remembers s t =
    (k : ℕ × String) (lease : AttemptLease)
    → get s.delivery_attempts k ≡ some lease
    → get t.delivery_attempts k ≡ some lease

module _ (env : Env) where
  module _ (uuid : String) (wall_now : ℕ) (cr : Locator) (key : ReviewRequestKey)
      (expected : Option String) (s : Store) where
    current : Option ChangeRequest
    current = get s.change_requests cr

    -- What follows the supersession of the prior Attempt.
    abbrev tail : Option String → Exec Store Error AttemptLease
    tail delivery_id t =
        (record_audit_event env "attempt_authoritative" cr (some uuid)
              (field "prior_attempt_id" (opt_str (authority (get s.change_requests cr)))
                (field "delivery_id" (opt_str delivery_id) end))
              none none
            >>= λ _ u. (ok (new_lease uuid cr key (authority (get s.change_requests cr))), u))
          (remember_delivery delivery_id
            (new_lease uuid cr key (authority (get s.change_requests cr)))
            (new_rows uuid wall_now cr key (get s.change_requests cr) t))

    abbrev OwnDelivery : Option String → Store → Type 0
    OwnDelivery none t = Unit
    OwnDelivery (some d) t = get t.delivery_attempts (cr.installation_id, d) ≡ none

    tail-Remembers :
        (delivery_id : Option String) (t : Store)
        → OwnDelivery delivery_id t
        → Remembers t (tail delivery_id t).1
    unfolding remember_delivery new_rows new_lease record_audit_event
    tail-Remembers none t fresh k lease p = ground (arith, p)
    tail-Remembers (some d) t fresh k lease p = ground (
      arith,
      p,
      fresh,
      pair_eq.dec (cr.installation_id, d) k,
      get-put t.delivery_attempts (cr.installation_id, d) k
          (new_lease uuid cr key (authority (get s.change_requests cr))),
    )

    then-Remembers :
        (delivery_id : Option String) (r : Result Error Unit) (t : Store)
        → OwnDelivery delivery_id t
        → Remembers t (continue r (λ _. tail delivery_id) t).1
    then-Remembers delivery_id (ok tt) t fresh k lease p =
        tail-Remembers delivery_id t fresh k lease p
    then-Remembers delivery_id (err e) t fresh k lease p = p

    -- A new start remembers its own delivery, and keeps the others.
    start_new-Remembers :
        (delivery_id : Option String)
        → OwnDelivery delivery_id s
        → Remembers s (start_new env uuid wall_now cr key expected delivery_id s).1
    unfolding start_new
    start_new-Remembers delivery_id fresh k lease p =
        elim (Bool-cases (moved expected (authority (get s.change_requests cr)))) [
          | inl e ↦ rw (e, start_new) p
          | inr e ↦
              let prior = authority (get s.change_requests cr) in
              let same = supersede_prior-SameDeliveries env cr prior s in
              rw (e, start_new)
                (then-Remembers delivery_id (supersede_prior env cr prior s).0
                  (supersede_prior env cr prior s).1 (moves delivery_id _ same fresh) k lease
                  (rw (same) p))
        ]
      where
        moves :
            (delivery_id : Option String) (t : Store)
            → SameDeliveries s t
            → OwnDelivery delivery_id s
            → OwnDelivery delivery_id t
        moves none t same fresh = tt
        moves (some d) t same fresh = rw (same) fresh

    start-Remembers :
        (delivery_id : Option String)
        → Remembers s
            (start_authoritative_attempt env uuid wall_now cr key expected delivery_id s).1
    unfolding start_authoritative_attempt
    start-Remembers none k lease h = start_new-Remembers none tt k lease h
    start-Remembers (some d) k lease h = elim (Bool-cases (d == "")) [
      | inl e ↦ rw (e, start_authoritative_attempt) h
      | inr e ↦ elim (Option-cases (get s.delivery_attempts (cr.installation_id, d))) [
        | inr (old, p) ↦ rw (e, p, start_authoritative_attempt) h
        | inl p ↦ rw (e, p, start_authoritative_attempt) (start_new-Remembers (some d) p k lease h)
      ]
    ]

  claim-SameDeliveries : (id : String) (s : Store) → SameDeliveries s (claim_attempt_job env id s).1
  unfolding claim_attempt_job claim_rows claim_running job_event claim_queued record_audit_event
  claim-SameDeliveries id s = ground arith

  mark-SameDeliveries :
      (id error : String) (s : Store) → SameDeliveries s (mark_job_retryable env id error s).1
  unfolding mark_job_retryable mark_running_retryable locator_for_attempt record_audit_event
  mark-SameDeliveries id error s = ground arith

  finalize-SameDeliveries :
      (id : String) (status : JobStatus) (reason : String) (s : Store)
      → SameDeliveries s (finalize_attempt_job env id status reason s).1
  unfolding finalize_attempt_job finalize_open_job locator_for_attempt record_audit_event
  finalize-SameDeliveries id status reason s = ground arith

  publish-SameDeliveries :
      (id : String) (key : ReviewRequestKey) (identity : Option ReviewIdentity) (gate : GateState)
      (s : Store)
      → SameDeliveries s (publish_if_authoritative env id key identity gate s).1
  unfolding publish_if_authoritative publish_by_status publish_again publish_superseded
      publish_standing complete_job record_audit_event
  publish-SameDeliveries id key identity gate s = ground arith

  bypass-SameDeliveries :
      (call : BypassCall) (s : Store) → SameDeliveries s (apply_finding_bypass env call s).1
  unfolding apply_finding_bypass bypass_on bypass_standing replay_bypass grant_bypass settle_bypass
      audit_transition sync_bypass enqueue_check_intent supersede_check_intents record_audit_event
  bypass-SameDeliveries call s = ground arith

identify-SameDeliveries :
    (id : String) (identity : ReviewIdentity) (s : Store)
    → SameDeliveries s (record_review_identity id identity s).1
unfolding record_review_identity
identify-SameDeliveries id identity s = ground arith

claim_first-SameDeliveries :
    (at lease : ℕ) (intents : List CheckIntent) (s : Store)
    → SameDeliveries s (claim_first at lease intents s).1
unfolding claim_first
claim_first-SameDeliveries at lease [] s = refl
claim_first-SameDeliveries at lease (intent ∷ rest) s = refl

mark_sync-SameDeliveries :
    (id : ℕ) (status : CheckSyncStatus) (error : Option String) (retry : Option ℕ) (s : Store)
    → SameDeliveries s (mark_standing_check_sync id status error retry s)
unfolding mark_standing_check_sync
mark_sync-SameDeliveries id status error retry s = ground arith

same-Remembers :
    (s : Store) (later : Dict (ℕ × String) AttemptLease)
    → later ≡ s.delivery_attempts
    → (k : ℕ × String) (lease : AttemptLease) → get s.delivery_attempts k ≡ some lease
    → get later k ≡ some lease
same-Remembers s later same k lease p = rw (same) p

-- No method forgets a delivery.
Step-Remembers : (env : Env) (s t : Store) → Step env s t → Remembers s t
unfolding recover_interrupted_jobs invalidate_standing_for_target append_audit_event
    claim_standing_check_sync
Step-Remembers env s _ (start uuid wall cr key expected delivery) =
    start-Remembers env uuid wall cr key expected s delivery
Step-Remembers env s _ (identify id identity) =
    same-Remembers s _ (identify-SameDeliveries id identity s)
Step-Remembers env s _ (claim id) = same-Remembers s _ (claim-SameDeliveries env id s)
Step-Remembers env s _ (mark_retryable id error) =
    same-Remembers s _ (mark-SameDeliveries env id error s)
Step-Remembers env s _ (finalize id status reason) =
    same-Remembers s _ (finalize-SameDeliveries env id status reason s)
Step-Remembers env s _ (recover limit lease) =
    same-Remembers s _
      (recover_loop-SameDeliveries env limit lease (now s) s.jobs _ s (ticked s) refl)
Step-Remembers env s _ (publish id key identity gate) =
    same-Remembers s _ (publish-SameDeliveries env id key identity gate s)
Step-Remembers env s _ (withdraw cr reason) =
    same-Remembers s _ (withdraw-SameDeliveries env cr reason s s refl)
Step-Remembers env s _ (retarget repository target_ref reason) = same-Remembers s _ (
    targets-SameDeliveries env repository (ref_aliases target_ref) reason s.change_requests 0 s s
      refl)
Step-Remembers env s _ (bypass call) = same-Remembers s _ (bypass-SameDeliveries env call s)
Step-Remembers env s _ (audit event_type cr id payload actor_id login) =
    same-Remembers s _ (audit-SameDeliveries env event_type cr id payload actor_id login s)
Step-Remembers env s _ (claim_sync at lease) =
    same-Remembers s _ (claim_first-SameDeliveries at lease _ s)
Step-Remembers env s _ (mark_sync id status error retry) =
    same-Remembers s _ (mark_sync-SameDeliveries id status error retry s)

-- No sequence of calls forgets a delivery.
pub Later-Remembers : (env : Env) (s t : Store) → Later env s t → Remembers s t
Later-Remembers env s _ here k lease p = p
Later-Remembers env s _ (next {t} {u} before step) k lease p =
    Step-Remembers env t u step k lease (Later-Remembers env s t before k lease p)
