-- ===== src/Server/State/Attempts/Delivery.antt =====
-- Redelivered webhooks: `start_authoritative_attempt` of src/worktree_review/server/state.py.
use worktree_review.Base.{
  ℕ, String, false, inl, inr, Option, none, some, Bool-cases, Option-cases, ◌==◌, nat_eq, string_eq,
  pair_eq, option_eq, ◌≡◌, refl, arith,
}
use worktree_review.Base.Dict.{get, get-put_self}
use worktree_review.Base.Exec.{Exec, Result, ok, err, continue, ◌>>=◌}
use worktree_review.Core.Identity.{ReviewRequestKey}
use worktree_review.Server.Json.{opt_str, end, field}
use worktree_review.Server.State.{AttemptLease, Store, Error, Env, Locator, locator_eq}
use worktree_review.Server.State.Audit.{record_audit_event}
use worktree_review.Server.State.Later.{Later}
use worktree_review.Server.State.Later.Deliveries.{Later-Remembers}
use worktree_review.Server.State.Attempts.{
  authority, moved, replayed, new_lease, new_rows, remember_delivery, supersede_prior, start_new,
  start_authoritative_attempt, get_delivery_attempt,
}

module _ (env : Env) (uuid : String) (wall_now : ℕ) (cr : Locator) (key : ReviewRequestKey)
    (expected : Option String) (d : String) where
  abbrev lease_of : Store → AttemptLease
  lease_of s = new_lease uuid cr key (authority (get s.change_requests cr))

  -- What follows the supersession of the prior Attempt.
  abbrev tail : Store → Exec Store Error AttemptLease
  tail s t =
      (record_audit_event env "attempt_authoritative" cr (some uuid)
            (field "prior_attempt_id" (opt_str (authority (get s.change_requests cr)))
              (field "delivery_id" (opt_str (some d)) end))
            none none
          >>= λ _ u. (ok (lease_of s), u))
        (remember_delivery (some d) (lease_of s)
          (new_rows uuid wall_now cr key (get s.change_requests cr) t))

  tail-remembers :
      (s t : Store) (lease : AttemptLease)
      → (tail s t).0 ≡ ok lease
      → get (tail s t).1.delivery_attempts (cr.installation_id, d) ≡ some lease
  unfolding remember_delivery new_rows record_audit_event new_lease
  tail-remembers s t lease h =
      ground (arith, h, get-put_self t.delivery_attempts (cr.installation_id, d) (lease_of s))

  then-remembers :
      (s t : Store) (r : Result Error Unit) (lease : AttemptLease)
      → (continue r (λ _. tail s) t).0 ≡ ok lease
      → get (continue r (λ _. tail s) t).1.delivery_attempts (cr.installation_id, d) ≡ some lease
  then-remembers s t (ok tt) lease h = tail-remembers s t lease h
  then-remembers s t (err e) lease h = cc

  new-remembers :
      (s : Store) (lease : AttemptLease)
      → (start_new env uuid wall_now cr key expected (some d) s).0 ≡ ok lease
      → get
          (start_new env uuid wall_now cr key expected (some d) s).1.delivery_attempts
          (cr.installation_id, d)
        ≡ some lease
  unfolding start_new
  new-remembers s lease h =
      elim (Bool-cases (moved expected (authority (get s.change_requests cr)))) [
        | inl e ↦ cc (rw (e, start_new) at h)
        | inr e ↦
            rw (e, start_new)
              (then-remembers s (supersede_prior env cr (authority (get s.change_requests cr)) s).1
                (supersede_prior env cr (authority (get s.change_requests cr)) s).0 lease
                (rw (e, start_new) at h))
      ]

  remembered :
      (s : Store) (lease : AttemptLease)
      → (start_authoritative_attempt env uuid wall_now cr key expected (some d) s).0 ≡ ok lease
      → (lease' : AttemptLease) × ((d == "") ≡ false)
        × (get
              (start_authoritative_attempt env uuid wall_now cr key expected
                (some d)
                s).1.delivery_attempts
              (cr.installation_id, d)
            ≡ some lease')
        × (replayed lease' ≡ replayed lease)
  unfolding start_authoritative_attempt
  remembered s lease h = elim (Bool-cases (d == "")) [
    | inl e ↦ cc (rw (e, start_authoritative_attempt) at h)
    | inr e ↦ elim (Option-cases (get s.delivery_attempts (cr.installation_id, d))) [
      | inr (old, p) ↦ (
        old,
        e,
        rw (e, p, start_authoritative_attempt) p,
        ground (arith, rw (e, p, start_authoritative_attempt) at h),
      )
      | inl p ↦ (
        lease,
        e,
        rw (e, p, start_authoritative_attempt)
            (new-remembers s lease (rw (e, p, start_authoritative_attempt) at h)),
        refl,
      )
    ]
  ]

  again :
      (t : Store) (lease' lease : AttemptLease) (uuid' : String) (wall' : ℕ) (cr' : Locator)
      (key' : ReviewRequestKey) (expected' : Option String)
      → cr'.installation_id ≡ cr.installation_id
      → (d == "") ≡ false
      → get t.delivery_attempts (cr.installation_id, d) ≡ some lease'
      → replayed lease' ≡ replayed lease
      → start_authoritative_attempt env uuid' wall' cr' key' expected' (some d) t
        ≡ (ok (replayed lease), t)
  unfolding start_authoritative_attempt
  again t lease' lease uuid' wall' cr' key' expected' same e p q =
      rw (e, same, p, q, start_authoritative_attempt)

  -- A delivery that has started an Attempt is answered with the same lease, marked as replayed, by
  -- every later call for the same installation, whatever calls of the store's methods came in between
  -- and whatever identifier, key and expectation the call brings; it writes nothing.
  pub redelivery_starts_nothing :
      (s u : Store) (lease : AttemptLease)
      → (start_authoritative_attempt env uuid wall_now cr key expected (some d) s).0 ≡ ok lease
      → Later env (start_authoritative_attempt env uuid wall_now cr key expected (some d) s).1 u
      → (uuid' : String) (wall' : ℕ) (cr' : Locator) (key' : ReviewRequestKey)
        (expected' : Option String)
      → cr'.installation_id ≡ cr.installation_id
      → (start_authoritative_attempt env uuid' wall' cr' key' expected' (some d) u
          ≡ (ok (replayed lease), u))
        × (get_delivery_attempt cr.installation_id d u ≡ (ok (some (replayed lease)), u))
  unfolding get_delivery_attempt
  redelivery_starts_nothing s u lease h between uuid' wall' cr' key' expected' same =
      let (lease', e, p, q) = remembered s lease h in
      let kept =
        Later-Remembers env
          (start_authoritative_attempt env uuid wall_now cr key expected (some d) s).1 u between
          (cr.installation_id, d) lease' p in
      (again u lease' lease uuid' wall' cr' key' expected' same e kept q, rw (e, kept, q))
