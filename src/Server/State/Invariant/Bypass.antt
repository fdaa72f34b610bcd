-- ===== src/Server/State/Invariant/Bypass.antt =====
-- `apply_finding_bypass` of src/worktree_review/server/state.py and the invariants.
use worktree_review.Base.{
  ℕ, ◌+◌, String, true, inl, inr, Option, some, is_some, List, length, ◌≡◌, refl, arith, Bool-cases,
  Option-cases, ◌==◌, nat_eq, string_eq, option_eq, pair_eq,
}
use worktree_review.Base.Dict.{get, put, get-put}
use worktree_review.Base.Exec.{Exec, bind-keeps}
use worktree_review.Core.Identity.{review_identity_eq}
use worktree_review.Core.Report.{blocked, gate_state_eq}
use worktree_review.Server.Json.{Fields, str, end, field}
use worktree_review.Server.State.{
  Attempt, BypassRecord, ChangeRequest, Store, Error, Env, locator_eq, ticked,
}
use worktree_review.Server.State.Audit.{record_audit_event}
use worktree_review.Server.State.Bypass.{
  BypassCall, active_bypass_fingerprints, remaining, is_empty, gate_after, set_change_request,
  new_bypass, is_valid_call, replay_bypass, audit_transition, check_payload, sync_bypass,
  settle_bypass, grant_bypass, bypass_standing, bypass_on, apply_finding_bypass,
}
use worktree_review.Server.State.Standing.{enqueue_check_intent}
use worktree_review.Server.State.Invariant.{put-OwnKeys, ActiveStand, Kept}
use worktree_review.Server.State.Invariant.SameRow.{Holds, set_change_request-Holds}
use worktree_review.Server.State.Invariant.Frame.{
  audit-IsConsistent, audit-BypassesStand, change_requests-audit, concluded-IsConsistent,
  concluded-BypassesStand,
}

module _ (env : Env) (call : BypassCall) where
  audit_transition-Holds :
      (c : ChangeRequest) (left : List String) (s : Store)
      → Holds call.change_request c s
      → Holds call.change_request c (audit_transition env call left s).1
  unfolding audit_transition
  audit_transition-Holds c left s h = elim (Bool-cases (is_empty left)) [
    | inr e ↦ rw (e, audit_transition) h
    | inl e ↦
        rw (e, audit_transition)
          (
            (
              audit-IsConsistent env _ _ _ _ _ _ s h.0.0,
              audit-BypassesStand env _ _ _ _ _ _ s h.0.1,
            ),
            rw change_requests-audit h.1,
          )
  ]

  enqueue-Kept :
      (id : String) (revision : ℕ) (check_run_id : Option ℕ) (payload : Fields) (s : Store)
      → Kept s
      → Kept (enqueue_check_intent id revision check_run_id payload s).1
  unfolding enqueue_check_intent
  enqueue-Kept id revision check_run_id payload s k = k

  abbrev revised : ChangeRequest → ChangeRequest
  revised c = record c { standing_revision = c.standing_revision + 1 }

  sync_bypass-Kept :
      (c : ChangeRequest) (bypass : BypassRecord) (active left : List String) (s : Store)
      → Holds call.change_request c s
      → Kept (sync_bypass env call c bypass active left s).1
  unfolding sync_bypass
  sync_bypass-Kept c bypass active left s h =
      let row =
        set_change_request-Holds call.change_request c (revised c)
          (record { authority = refl; key = refl; standing = refl; gate = refl }) s h in
      let k =
        enqueue-Kept call.attempt_id (c.standing_revision + 1) call.check_run_id
          (check_payload c.standing_gate_state (length active) (length left))
          (set_change_request call.change_request (revised c) s) row.0 in
      (
        concluded-IsConsistent env _ _ _ _ _ _ _ _ k.0,
        concluded-BypassesStand env _ _ _ _ _ _ _ _ k.1,
      )

  settle_bypass-Kept :
      (c : ChangeRequest) (bypass : BypassRecord) (s : Store)
      → is_some c.standing_gate_state ≡ true
      → Holds call.change_request c s
      → Kept (settle_bypass env call c bypass s).1
  unfolding settle_bypass
  settle_bypass-Kept c bypass s g h =
      let active = active_bypass_fingerprints call.attempt_id s in
      let left = remaining call.blocking_fingerprints active in
      let settled : ChangeRequest = record c {
        standing_gate_state = gate_after left c.standing_gate_state;
      } in
      let row =
        set_change_request-Holds call.change_request c settled
          (record { authority = refl; key = refl; standing = refl; gate = ground (arith, g) }) s
          h in
      let next =
        audit_transition-Holds settled left (set_change_request call.change_request settled s)
          row in
      bind-keeps Kept (audit_transition env call left)
        (λ _. sync_bypass env call settled bypass active left)
        (set_change_request call.change_request settled s) next.0
        (λ _. sync_bypass-Kept settled bypass active left _ next)

  -- The new bypass is on the standing decision.
  granted-BypassesStand :
      (c : ChangeRequest) (s : Store)
      → Holds call.change_request c s
      → c.standing_attempt_id ≡ some call.attempt_id
      → ActiveStand s.change_requests
          (put s.bypasses (call.attempt_id, call.finding_fingerprint) (new_bypass call s))
  unfolding new_bypass
  granted-BypassesStand c s h e = record {
    active_standing = λ key r p a. ground (
      arith,
      h.1,
      h.0.1.active_standing key r,
      get-put s.bypasses (call.attempt_id, call.finding_fingerprint) key (new_bypass call s),
    );
    own_keys =
        put-OwnKeys s.bypasses (call.attempt_id, call.finding_fingerprint) (new_bypass call s) refl
          h.0.1.own_keys;
  }

  abbrev authorized : Exec Store Error Unit
  authorized =
      record_audit_event env "bypass_authorized" call.change_request (some call.attempt_id)
        (field "finding_fingerprint" (str call.finding_fingerprint)
          (field "reason" (str call.reason) (field "risk_digest" (str call.risk_digest) end)))
        call.actor_id (some call.actor_login)

  authorized-Holds :
      (c : ChangeRequest) (s : Store)
      → Holds call.change_request c s
      → Holds call.change_request c (authorized s).1
  authorized-Holds c s h = (
    (audit-IsConsistent env _ _ _ _ _ _ s h.0.0, audit-BypassesStand env _ _ _ _ _ _ s h.0.1),
    rw change_requests-audit h.1,
  )

  -- The store with the new bypass.
  abbrev granted : Store → Store
  granted s = record (ticked s) {
    next_bypass_id = s.next_bypass_id + 1;
    bypasses = put s.bypasses (call.attempt_id, call.finding_fingerprint) (new_bypass call s);
  }

  grant_bypass-Kept :
      (c : ChangeRequest) (s : Store)
      → is_some c.standing_gate_state ≡ true
      → c.standing_attempt_id ≡ some call.attempt_id
      → Holds call.change_request c s
      → Kept (grant_bypass env call c s).1
  unfolding grant_bypass
  grant_bypass-Kept c s g e h = elim (Bool-cases (is_valid_call call)) [
    | inr n ↦ rw (n, grant_bypass) h.0
    | inl n ↦
        let start : Holds call.change_request c (granted s) =
          ((h.0.0, granted-BypassesStand c s h e), h.1) in
        let next = authorized-Holds c (granted s) start in
        rw (n, grant_bypass)
          (bind-keeps Kept authorized (λ _. settle_bypass env call c (new_bypass call s))
            (granted s) next.0
            (λ _. settle_bypass-Kept c (new_bypass call s) (authorized (granted s)).1 g next))
  ]

  replay_bypass-keeps :
      (c : ChangeRequest) (r : BypassRecord) (s : Store) → (replay_bypass call c r s).1 ≡ s
  unfolding replay_bypass
  replay_bypass-keeps c r s = ground arith

  bypass_standing-Kept :
      (c : ChangeRequest) (s : Store)
      → c.standing_attempt_id ≡ some call.attempt_id
      → Holds call.change_request c s
      → Kept (bypass_standing env call c s).1
  unfolding bypass_standing
  bypass_standing-Kept c s e h =
      elim (Option-cases (get s.bypasses (call.attempt_id, call.finding_fingerprint))) [
        | inr (r, p) ↦ rw (p, bypass_standing, replay_bypass-keeps) h.0
        | inl n ↦ elim (Bool-cases (c.standing_gate_state == some blocked)) [
          | inr b ↦ rw (n, b, bypass_standing) h.0
          | inl b ↦ rw (n, b, bypass_standing) (grant_bypass-Kept c s (ground arith) e h)
        ]
      ]

  bypass_on-Kept :
      (a : Attempt) (c : ChangeRequest) (s : Store)
      → Holds call.change_request c s
      → Kept (bypass_on env call a c s).1
  unfolding bypass_on
  bypass_on-Kept a c s h = elim (Bool-cases (c.authoritative_attempt_id == call.attempt_id)) [
    | inr n ↦ rw (n, bypass_on) h.0
    | inl p ↦ elim (Bool-cases (c.standing_attempt_id == some call.attempt_id)) [
      | inr n ↦ rw (p, n, bypass_on) h.0
      | inl q ↦ elim (Bool-cases (a.review_identity == some call.review_identity)) [
        | inr n ↦ rw (p, q, n, bypass_on) h.0
        | inl r ↦ rw (p, q, r, bypass_on) (bypass_standing-Kept c s (ground arith) h)
      ]
    ]
  ]

  -- `apply_finding_bypass`, whatever it returns.
  pub apply_finding_bypass-Kept : (s : Store) → Kept s → Kept (apply_finding_bypass env call s).1
  unfolding apply_finding_bypass
  apply_finding_bypass-Kept s k = elim (Option-cases (get s.attempts call.attempt_id)) [
    | inl n ↦ rw (n, apply_finding_bypass) k
    | inr (a, p) ↦ elim (Bool-cases (a.change_request == call.change_request)) [
      | inr n ↦ rw (p, n, apply_finding_bypass) k
      | inl q ↦ elim (Option-cases (get s.change_requests a.change_request)) [
        | inl n ↦ rw (p, q, n, apply_finding_bypass) k
        | inr (c, r) ↦ rw (p, q, r, apply_finding_bypass) (bypass_on-Kept a c s (k, ground arith))
      ]
    ]
  ]
