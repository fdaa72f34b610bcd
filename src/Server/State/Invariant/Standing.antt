-- ===== src/Server/State/Invariant/Standing.antt =====
-- The loss of a standing decision: `_invalidate_bypasses_locked` of
-- src/worktree_review/server/state.py.
use worktree_review.Base.{
  ℕ, String, true, false, inl, inr, Option, some, [], ◌∷◌, ◌≡◌, ◌≢◌, refl, ap, ◌∙◌, arith,
  Bool-cases, string_eq, option_eq, pair_eq,
}
use worktree_review.Base.Dict.{Dict, get, put, get-put}
use worktree_review.Base.Exec.{Exec, Result, ok, err, continue, ◌>>=◌, bind-keeps}
use worktree_review.Server.Json.{Fields, str, end, field}
use worktree_review.Server.State.{
  BypassStatus, BypassRecord, Store, Error, unsafe_payload, invalid_record, Env, Locator,
  locator_eq, ticked, now,
}
use worktree_review.Server.State.Audit.{record_audit_event}
use worktree_review.Server.State.Standing.{
  is_active, expires, invalidate_one, invalidate_loop, invalidate_bypasses,
}
use worktree_review.Server.State.Invariant.{OwnKeys, put-OwnKeys}
use worktree_review.Server.State.Invariant.Frame.{
  deliveries-audit, attempts-audit, jobs-audit, change_requests-audit, bypasses-audit,
}

-- Two stores that differ at most in the bypasses, the log, the clock and the check intents.
pub record SameTables (s t : Store) : Type 0 where
  pub change_requests : t.change_requests ≡ s.change_requests
  pub attempts : t.attempts ≡ s.attempts
  pub jobs : t.jobs ≡ s.jobs
  pub deliveries : t.delivery_attempts ≡ s.delivery_attempts

-- The bypasses after some entries were visited: what is still active was so before, and is not one
-- of the visited entries that expire.
record Visited (cr : Locator) (entries before after : Dict (String × String) BypassRecord)
    : Type 0 where
  was :
      (key : String × String) (r : BypassRecord)
      → get after key ≡ some r
      → is_active r.status ≡ true
      → get before key ≡ some r
  spared :
      (key : String × String) (r : BypassRecord)
      → get after key ≡ some r
      → is_active r.status ≡ true
      → get entries key ≡ some r
      → expires cr r ≡ false

-- No audit event was refused.
abbrev pub Accepted {ℓ} : {A : Type ℓ} → Result Error A → Type 0
Accepted (err unsafe_payload) = ⊥
Accepted (err invalid_record) = ⊥
Accepted _ = Unit

-- An action whose only failures are refused audit events.
abbrev pub OnlyAudits : Exec Store Error Unit → Type 0
OnlyAudits m = (s : Store) → Accepted (m s).0 → (m s).0 ≡ ok tt

-- An accepted sequence runs both of its parts.
pub bind-runs_at :
    {A : Type 0} (m : Exec Store Error Unit) (f : Unit → Exec Store Error A) (s : Store)
    → (Accepted (m s).0 → (m s).0 ≡ ok tt)
    → Accepted ((m >>= f) s).0
    → ((m s).0 ≡ ok tt) × Accepted (f tt (m s).1).0 × ((m >>= f) s ≡ f tt (m s).1)
bind-runs_at {A} m f s only h = go (m s).0 only h
  where
    go :
        (r : Result Error Unit)
        → (Accepted r → r ≡ ok tt)
        → Accepted (continue r f (m s).1).0
        → (r ≡ ok tt) × Accepted (f tt (m s).1).0 × (continue r f (m s).1 ≡ f tt (m s).1)
    go (ok tt) o h = (refl, h, refl)
    go (err e) o h = absurd (cc (o h))

pub bind-runs :
    {A : Type 0} (m : Exec Store Error Unit) (f : Unit → Exec Store Error A) (s : Store)
    → OnlyAudits m
    → Accepted ((m >>= f) s).0
    → ((m s).0 ≡ ok tt) × Accepted (f tt (m s).1).0 × ((m >>= f) s ≡ f tt (m s).1)
bind-runs m f s only h = bind-runs_at m f s (only s) h

module _ (env : Env) (event_type : String) (cr : Locator) (id : Option String) (payload : Fields)
    (actor_id : Option ℕ) (actor_login : Option String) where
  pub audit-OnlyAudits :
      OnlyAudits (record_audit_event env event_type cr id payload actor_id actor_login)
  unfolding record_audit_event
  audit-OnlyAudits s h = ground arith

  pub audit-SameTables :
      (s t : Store)
      → SameTables s t
      → SameTables s (record_audit_event env event_type cr id payload actor_id actor_login t).1
  audit-SameTables s t e = record {
    change_requests = rw change_requests-audit e.change_requests;
    attempts = rw attempts-audit e.attempts;
    jobs = rw jobs-audit e.jobs;
    deliveries = rw deliveries-audit e.deliveries;
  }

module _ (env : Env) (cr : Locator) (reason : String) where
  abbrev invalidated : BypassRecord → ℕ → BypassRecord
  invalidated r at = record r {
    status = BypassStatus.invalidated;
    invalidation_reason = some reason;
    invalidated_at = some at;
  }

  abbrev marked : String × String → BypassRecord → Store → Store
  marked key r s = record (ticked s) { bypasses = put s.bypasses key (invalidated r (now s)) }

  abbrev event : BypassRecord → Exec Store Error Unit
  event r =
      record_audit_event env "bypass_invalidated" cr (some r.attempt_id)
        (field "finding_fingerprint" (str r.finding_fingerprint) (field "reason" (str reason) end))
        r.actor_id (some r.actor_login)

  one-spared :
      (key : String × String) (r : BypassRecord) (s : Store)
      → expires cr r ≡ false
      → invalidate_one env cr reason key r s ≡ (ok tt, s)
  unfolding invalidate_one
  one-spared key r s e = rw e

  one-marked :
      (key : String × String) (r : BypassRecord) (s : Store)
      → expires cr r ≡ true
      → invalidate_one env cr reason key r s ≡ event r (marked key r s)
  unfolding invalidate_one
  one-marked key r s e = rw e

  one-OnlyAudits :
      (key : String × String) (r : BypassRecord) → OnlyAudits (invalidate_one env cr reason key r)
  one-OnlyAudits key r s h = elim (Bool-cases (expires cr r)) [
    | inl e ↦
        rw (one-marked key r s e)
          (audit-OnlyAudits env _ _ _ _ _ _ (marked key r s) (rw (one-marked key r s e) at h))
    | inr e ↦ rw (one-spared key r s e)
  ]

  loop-OnlyAudits :
      (entries : Dict (String × String) BypassRecord)
      → OnlyAudits (invalidate_loop env cr reason entries)
  unfolding invalidate_loop
  loop-OnlyAudits [] s h = refl
  loop-OnlyAudits ((key, r) ∷ rest) s h =
      let (first, h', e) =
        bind-runs (invalidate_one env cr reason key r) (λ _. invalidate_loop env cr reason rest) s
          (one-OnlyAudits key r) h in
      ap (λ (x : Result Error Unit × Store). x.0) e ∙ loop-OnlyAudits rest _ h'

  one-SameTables :
      (key : String × String) (r : BypassRecord) (s t : Store)
      → SameTables s t
      → SameTables s (invalidate_one env cr reason key r t).1
  one-SameTables key r s t h = elim (Bool-cases (expires cr r)) [
    | inl e ↦ rw (one-marked key r t e) (
        audit-SameTables env _ _ _ _ _ _ s (marked key r t) (record {
          change_requests = h.change_requests;
          attempts = h.attempts;
          jobs = h.jobs;
          deliveries = h.deliveries;
        }))
    | inr e ↦ rw (one-spared key r t e) h
  ]

  -- Whatever happens, the other tables stay.
  loop-SameTables :
      (entries : Dict (String × String) BypassRecord) (s t : Store)
      → SameTables s t
      → SameTables s (invalidate_loop env cr reason entries t).1
  unfolding invalidate_loop
  loop-SameTables [] s t h = h
  loop-SameTables ((key, r) ∷ rest) s t h =
      bind-keeps (SameTables s) (invalidate_one env cr reason key r)
        (λ _. invalidate_loop env cr reason rest) t (one-SameTables key r s t h)
        (λ _. loop-SameTables rest s _ (one-SameTables key r s t h))

  one-Visited :
      (key : String × String) (r : BypassRecord) (s : Store)
      → Visited cr ((key, r) ∷ []) s.bypasses (invalidate_one env cr reason key r s).1.bypasses
  unfolding get
  one-Visited key r s = elim (Bool-cases (expires cr r)) [
    | inl e ↦ rw (one-marked key r s e) (
        rw bypasses-audit (record {
          was = λ k q p h. ground (arith, get-put s.bypasses key k (invalidated r (now s)));
          spared = λ k q p h x. ground (arith, get-put s.bypasses key k (invalidated r (now s)));
        }))
    | inr e ↦
        rw (one-spared key r s e)
          (record { was = λ k q p h. p; spared = λ k q p h x. ground arith })
  ]

  one-OwnKeys :
      (key : String × String) (r : BypassRecord) (s : Store)
      → key ≡ (r.attempt_id, r.finding_fingerprint)
      → OwnKeys s.bypasses
      → OwnKeys (invalidate_one env cr reason key r s).1.bypasses
  one-OwnKeys key r s own h = elim (Bool-cases (expires cr r)) [
    | inl e ↦
        rw (one-marked key r s e)
          (rw bypasses-audit (put-OwnKeys s.bypasses key (invalidated r (now s)) own h))
    | inr e ↦ rw (one-spared key r s e) h
  ]

  loop-OwnKeys :
      (entries : Dict (String × String) BypassRecord) (s : Store)
      → OwnKeys entries
      → OwnKeys s.bypasses
      → OwnKeys (invalidate_loop env cr reason entries s).1.bypasses
  unfolding invalidate_loop
  loop-OwnKeys [] s o h = h
  loop-OwnKeys ((key, r) ∷ rest) s o h =
      bind-keeps (λ t. OwnKeys t.bypasses) (invalidate_one env cr reason key r)
        (λ _. invalidate_loop env cr reason rest) s (one-OwnKeys key r s o.0 h)
        (λ _. loop-OwnKeys rest _ o.1 (one-OwnKeys key r s o.0 h))

  -- After the loop nothing that it visited expires any more.
  loop-Visited :
      (entries : Dict (String × String) BypassRecord) (s : Store)
      → Accepted (invalidate_loop env cr reason entries s).0
      → Visited cr entries s.bypasses (invalidate_loop env cr reason entries s).1.bypasses
  unfolding invalidate_loop get
  loop-Visited [] s h = record { was = λ k q p a. p; spared = λ k q p a x. cc }
  loop-Visited ((key, r) ∷ rest) s h =
      let (first, h', e) =
        bind-runs (invalidate_one env cr reason key r) (λ _. invalidate_loop env cr reason rest) s
          (one-OnlyAudits key r) h in
      let one = one-Visited key r s in
      let more = loop-Visited rest (invalidate_one env cr reason key r s).1 h' in
      rw e (record {
        was = λ k q p a. one.was k q (more.was k q p a) a;
        spared =
            λ k q p a x. ground (arith, one.spared k q (more.was k q p a) a, more.spared k q p a);
      })

  -- `_invalidate_bypasses_locked` leaves no active bypass on the change request.
  pub invalidate_bypasses-spared :
      (s : Store)
      → Accepted (invalidate_bypasses env cr reason s).0
      → (key : String × String) (r : BypassRecord)
      → get (invalidate_bypasses env cr reason s).1.bypasses key ≡ some r
      → is_active r.status ≡ true
      → (get s.bypasses key ≡ some r) × (r.change_request ≢ cr)
  unfolding invalidate_bypasses
  invalidate_bypasses-spared s h key r p a =
      let w = loop-Visited s.bypasses s h in
      let before = w.was key r p a in (before, λ same. ground (arith, w.spared key r p a before))

  pub invalidate_bypasses-SameTables :
      (s : Store) → SameTables s (invalidate_bypasses env cr reason s).1
  unfolding invalidate_bypasses
  invalidate_bypasses-SameTables s =
      loop-SameTables s.bypasses s s
        (record { change_requests = refl; attempts = refl; jobs = refl; deliveries = refl })

  pub invalidate_bypasses-OwnKeys :
      (s : Store) → OwnKeys s.bypasses → OwnKeys (invalidate_bypasses env cr reason s).1.bypasses
  unfolding invalidate_bypasses
  invalidate_bypasses-OwnKeys s h = loop-OwnKeys s.bypasses s h h

  pub invalidate_bypasses-OnlyAudits : OnlyAudits (invalidate_bypasses env cr reason)
  unfolding invalidate_bypasses
  invalidate_bypasses-OnlyAudits s = loop-OnlyAudits s.bypasses s
