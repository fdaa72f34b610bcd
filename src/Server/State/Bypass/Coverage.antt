-- ===== src/Server/State/Bypass/Coverage.antt =====
-- What a bypass changes, or leaves when it is refused, in src/worktree_review/server/state.py.
use worktree_review.Base.{
  ◌+◌, String, true, false, ◌&&◌, inl, inr, none, some, List, [], ◌∷◌, map, filter_by, all,
  contains, Bool-cases, Option-cases, ◌==◌, string_eq, option_eq, pair_eq, nat_eq, if◌then◌else◌,
  ◌≡◌, refl, arith,
}
use worktree_review.Base.Dict.{Dict, get, put, values, get-put_self}
use worktree_review.Base.Exec.{Exec, Result, ok, err, continue}
use worktree_review.Core.Identity.{review_identity_eq}
use worktree_review.Core.Report.{blocked, passed_with_bypass, gate_state_eq}
use worktree_review.Server.Json.{Fields, str, end, field}
use worktree_review.Server.State.{
  Attempt, BypassApplyResult, BypassRecord, ChangeRequest, Conflict, Store, Error, conflict,
  unsafe_payload, Env, locator_eq, ticked,
}
use worktree_review.Server.State.Audit.{record_audit_event}
use worktree_review.Server.State.Standing.{is_active, enqueue_check_intent}
use worktree_review.Server.State.Invariant.Frame.{bypasses-audit}
use worktree_review.Server.State.Bypass.{
  BypassCall, active_bypass_fingerprints, remaining, is_empty, gate_after, new_bypass,
  is_valid_call, replay_bypass, audit_transition, sync_bypass, settle_bypass, grant_bypass,
  bypass_standing, bypass_on, apply_finding_bypass,
}

is_empty-remaining :
    (blocking active : List String)
    → is_empty (remaining blocking active) ≡ all (λ f. contains active f) blocking
unfolding remaining filter_by
is_empty-remaining [] active = refl
is_empty-remaining (f ∷ rest) active = ground (arith, is_empty-remaining rest active)

-- The fingerprints of the active bypasses of an Attempt.
abbrev active_in : String → Dict (String × String) BypassRecord → List String
active_in id d =
    map (λ r. r.finding_fingerprint)
      (filter_by (λ r. r.attempt_id == id && is_active r.status) (values d))

put-active :
    (d : Dict (String × String) BypassRecord) (key : String × String) (r : BypassRecord)
    → is_active r.status ≡ true
    → contains (active_in r.attempt_id (put d key r)) r.finding_fingerprint ≡ true
unfolding put filter_by
put-active [] key r h = ground arith
put-active ((k, q) ∷ d) key r h = ground (arith, h, put-active d key r h)

module _ (env : Env) (call : BypassCall) where
  -- What a granted bypass reports, from the row it stands on and the active fingerprints.
  abbrev pub Granted : ChangeRequest → List String → BypassApplyResult → Type 0
  Granted c active r =
      (r.active_bypass_fingerprints ≡ active)
      × (r.standing_revision ≡ c.standing_revision + 1)
      × (r.standing_gate_state ≡ (
          if all (λ f. contains active f) call.blocking_fingerprints
          then some passed_with_bypass
          else c.standing_gate_state))

  settled :
      (c : ChangeRequest) (b : BypassRecord) (s : Store) (r : BypassApplyResult)
      → (settle_bypass env call c b s).0 ≡ ok r
      → Granted c (active_bypass_fingerprints call.attempt_id s) r
  unfolding settle_bypass audit_transition sync_bypass enqueue_check_intent record_audit_event
  settled c b s r h =
      let left =
        is_empty-remaining call.blocking_fingerprints
          (active_bypass_fingerprints call.attempt_id s) in
      (ground (arith, h, left), ground (arith, h, left), ground (arith, h, left))

  -- The row that the change request has after a bypass with this result.
  abbrev pub Stored : ChangeRequest → BypassApplyResult → Store → Type 0
  Stored c r t =
      get t.change_requests call.change_request
      ≡ some (record c {
        standing_gate_state = r.standing_gate_state;
        standing_revision = r.standing_revision;
      })

  settled-Stored :
      (c : ChangeRequest) (b : BypassRecord) (s : Store) (r : BypassApplyResult)
      → (settle_bypass env call c b s).0 ≡ ok r
      → Stored c r (settle_bypass env call c b s).1
  unfolding settle_bypass audit_transition sync_bypass enqueue_check_intent record_audit_event
  settled-Stored c b s r h =
      let left =
        remaining call.blocking_fingerprints (active_bypass_fingerprints call.attempt_id s) in
      let gated = record c { standing_gate_state = gate_after left c.standing_gate_state } in
      ground (
        arith,
        h,
        get-put_self (put s.change_requests call.change_request gated) call.change_request
            (record gated { standing_revision = c.standing_revision + 1 }),
      )

  settle-bypasses :
      (c : ChangeRequest) (b : BypassRecord) (s : Store)
      → (settle_bypass env call c b s).1.bypasses ≡ s.bypasses
  unfolding settle_bypass audit_transition sync_bypass enqueue_check_intent record_audit_event
  settle-bypasses c b s = ground arith

  abbrev authorized : Exec Store Error Unit
  authorized =
      record_audit_event env "bypass_authorized" call.change_request (some call.attempt_id)
        (field "finding_fingerprint" (str call.finding_fingerprint)
          (field "reason" (str call.reason) (field "risk_digest" (str call.risk_digest) end)))
        call.actor_id (some call.actor_login)

  -- A granted bypass, in the store after it.
  abbrev pub Covered : ChangeRequest → BypassApplyResult → Store → Type 0
  Covered c r t =
      (contains (active_bypass_fingerprints call.attempt_id t) call.finding_fingerprint ≡ true)
      × Granted c (active_bypass_fingerprints call.attempt_id t) r
      × Stored c r t

  continue-Covered :
      (c : ChangeRequest) (s u : Store) (o : Result Error Unit) (r : BypassApplyResult)
      → u.bypasses ≡ put s.bypasses (call.attempt_id, call.finding_fingerprint) (new_bypass call s)
      → (continue o (λ _. settle_bypass env call c (new_bypass call s)) u).0 ≡ ok r
      → Covered c r (continue o (λ _. settle_bypass env call c (new_bypass call s)) u).1
  unfolding active_bypass_fingerprints new_bypass
  continue-Covered c s u (ok tt) r same h =
      let b = new_bypass call s in
      rw settle-bypasses (
        rw same (put-active s.bypasses (call.attempt_id, call.finding_fingerprint) b refl),
        settled c b u r h,
        settled-Stored c b u r h,
      )
  continue-Covered c s u (err e) r same h = cc

  grant-Covered :
      (c : ChangeRequest) (s : Store) (r : BypassApplyResult)
      → (grant_bypass env call c s).0 ≡ ok r
      → Covered c r (grant_bypass env call c s).1
  unfolding grant_bypass
  grant-Covered c s r h = elim (Bool-cases (is_valid_call call)) [
    | inr n ↦ cc (rw (n, grant_bypass) at h)
    | inl n ↦
        rw (n, grant_bypass)
          (continue-Covered c s _ _ r (bypasses-audit env _ _ _ _ _ _ _)
            (rw (n, grant_bypass) at h))
  ]

  reaches :
      (s : Store) (a : Attempt) (c : ChangeRequest) (r : BypassApplyResult)
      → get s.attempts call.attempt_id ≡ some a
      → get s.change_requests a.change_request ≡ some c
      → (apply_finding_bypass env call s).0 ≡ ok r
      → apply_finding_bypass env call s ≡ bypass_standing env call c s
  unfolding apply_finding_bypass bypass_on
  reaches s a c r found row h = ground (arith, found, row, h)

  standing-Covered :
      (c : ChangeRequest) (s : Store) (r : BypassApplyResult)
      → (bypass_standing env call c s).0 ≡ ok r
      → r.replayed ≡ false
      → (c.standing_gate_state ≡ some blocked) × Covered c r (bypass_standing env call c s).1
  unfolding bypass_standing replay_bypass
  standing-Covered c s r h new =
      elim (Option-cases (get s.bypasses (call.attempt_id, call.finding_fingerprint))) [
        | inr (old, p) ↦ ground (arith, h, new, p)
        | inl p ↦ elim (Bool-cases (c.standing_gate_state == some blocked)) [
          | inr n ↦ cc (rw (p, n, bypass_standing) at h)
          | inl q ↦
              rw (p, q, bypass_standing)
                (ground arith, grant-Covered c s r (rw (p, q, bypass_standing) at h))
        ]
      ]

  -- A bypass that is granted, not replayed, stands on a blocked decision. Its fingerprint is active
  -- afterwards, the revision is the next one, and the gate is Passed with bypass exactly when every
  -- blocking fingerprint has an active bypass, else Blocked as before. The row of the change request
  -- in the store has this gate and revision afterwards, and is else as it was.
  pub bypass_decides_gate :
      (s : Store) (a : Attempt) (c : ChangeRequest) (r : BypassApplyResult)
      → get s.attempts call.attempt_id ≡ some a
      → get s.change_requests a.change_request ≡ some c
      → (apply_finding_bypass env call s).0 ≡ ok r
      → r.replayed ≡ false
      → (c.standing_gate_state ≡ some blocked) × Covered c r (apply_finding_bypass env call s).1
  bypass_decides_gate s a c r found row h new =
      let e = reaches s a c r found row h in rw e (standing-Covered c s r (rw e at h) new)

  -- A bypass that is refused with a conflict leaves the store as it was.
  pub conflict_writes_nothing :
      (s : Store) (e : Conflict)
      → (apply_finding_bypass env call s).0 ≡ err (conflict e)
      → (apply_finding_bypass env call s).1 ≡ s
  unfolding apply_finding_bypass bypass_on bypass_standing replay_bypass grant_bypass settle_bypass
      audit_transition sync_bypass enqueue_check_intent record_audit_event
  conflict_writes_nothing s e h = ground (arith, h)

module _ (env : Env) (call : BypassCall) (s : Store) (a : Attempt) (c : ChangeRequest)
    (found : get s.attempts call.attempt_id ≡ some a) (own : a.change_request ≡ call.change_request)
    (row : get s.change_requests a.change_request ≡ some c)
    (authoritative : c.authoritative_attempt_id ≡ call.attempt_id)
    (standing : c.standing_attempt_id ≡ some call.attempt_id)
    (same : a.review_identity ≡ some call.review_identity)
    (gate : c.standing_gate_state ≡ some blocked) (valid : is_valid_call call ≡ true)
    (first : get s.bypasses (call.attempt_id, call.finding_fingerprint) ≡ none) where
  -- The payload of the event that authorizes the bypass.
  abbrev authorization : Fields
  authorization =
      field "finding_fingerprint" (str call.finding_fingerprint)
        (field "reason" (str call.reason) (field "risk_digest" (str call.risk_digest) end))

  grants : apply_finding_bypass env call s ≡ grant_bypass env call c s
  unfolding apply_finding_bypass bypass_on bypass_standing
  grants = ground (arith, found, own, row, authoritative, standing, same, gate, first)

  abbrev with_bypass : Store
  with_bypass = record (ticked s) {
    next_bypass_id = s.next_bypass_id + 1;
    bypasses = put s.bypasses (call.attempt_id, call.finding_fingerprint) (new_bypass call s);
  }

  refused :
      env.safe_payload authorization ≡ false
      → grant_bypass env call c s ≡ (err unsafe_payload, with_bypass)
  unfolding grant_bypass record_audit_event
  refused unsafe = rw (valid, unsafe, grant_bypass)

  -- A bypass that may be granted, whose audit payload is refused, raises the refusal, but stays
  -- active, while its change request keeps its gate and its revision.
  pub refused_event_leaves_bypass :
      env.safe_payload authorization ≡ false
      → ((apply_finding_bypass env call s).0 ≡ err unsafe_payload)
        × (contains
              (active_bypass_fingerprints call.attempt_id (apply_finding_bypass env call s).1)
              call.finding_fingerprint
            ≡ true)
        × ((apply_finding_bypass env call s).1.change_requests ≡ s.change_requests)
  unfolding active_bypass_fingerprints new_bypass
  refused_event_leaves_bypass unsafe =
      rw (grants, refused unsafe)
        (
          refl,
          put-active s.bypasses (call.attempt_id, call.finding_fingerprint) (new_bypass call s)
              refl,
          refl,
        )
