-- ===== src/Server/State/Invariant/Start.antt =====
-- `start_authoritative_attempt` and `record_review_identity` of src/worktree_review/server/state.py
-- and the invariants.
use worktree_review.Base.{
  ℕ, String, false, inl, inr, Option, none, some, ◌≡◌, arith, Bool-cases, Option-cases, ◌==◌,
  nat_eq, string_eq, option_eq, pair_eq, if◌then◌else◌,
}
use worktree_review.Base.Dict.{get, put, get-put}
use worktree_review.Base.Exec.{Exec, ok, ◌>>=◌}
use worktree_review.Core.Identity.{ReviewRequestKey, ReviewIdentity}
use worktree_review.Server.Json.{opt_str, end, field}
use worktree_review.Server.State.{
  AttemptLease, Attempt, ChangeRequest, Store, Error, Env, Locator, locator_eq,
}
use worktree_review.Server.State.Audit.{record_audit_event}
use worktree_review.Server.State.Attempts.{
  authority, next_revision, moved, identity_matches_key, differs, remember_delivery, new_rows,
  new_lease, supersede_prior, start_new, start_authoritative_attempt, record_review_identity,
}
use worktree_review.Server.State.Invariant.{TablesFit, IsConsistent, BypassesStand, Kept}
use worktree_review.Server.State.Invariant.Frame.{concluded-IsConsistent, concluded-BypassesStand}
use worktree_review.Server.State.Invariant.Standing.{Accepted, bind-runs_at}
use worktree_review.Server.State.Invariant.Attempts.{Superseded, new_rows-TablesFit}
use worktree_review.Server.State.Invariant.Prior.{
  supersede_prior-Superseded, supersede_prior-OnlyAudits,
}

module _ (env : Env) (uuid : String) (wall_now : ℕ) (cr : Locator) (key : ReviewRequestKey)
    (expected delivery_id : Option String) (s : Store) (fresh : get s.attempts uuid ≡ none)
    (k : Kept s) where
  abbrev current : Option ChangeRequest
  current = get s.change_requests cr

  abbrev row : ChangeRequest
  row = record {
    change_request = cr;
    request_key = key;
    authoritative_attempt_id = uuid;
    standing_attempt_id = none;
    standing_gate_state = none;
    standing_revision = next_revision current;
  }

  row_after :
      (t : Store) (x : Locator)
      → get (put t.change_requests cr row) x
        ≡ (if cr == x then some row else get t.change_requests x)
  row_after t x = get-put t.change_requests cr x row

  new_rows-ActiveStand :
      (t : Store)
      → Superseded s t cr (authority current)
      → BypassesStand (new_rows uuid wall_now cr key current t)
  unfolding new_rows
  new_rows-ActiveStand t e = record {
    active_standing = λ id r p a. ground (
      arith,
      e.active id r p a,
      k.1.active_standing id r,
      row_after t r.change_request,
      e.change_requests,
    );
    own_keys = e.own_keys k.1.own_keys;
  }

  remember-Kept :
      (id : Option String) (lease : AttemptLease) (t : Store)
      → Kept t
      → Kept (remember_delivery id lease t)
  unfolding remember_delivery
  remember-Kept none lease t h = h
  remember-Kept (some id) lease t h = h

  abbrev lease : AttemptLease
  lease = new_lease uuid cr key (authority current)

  abbrev event : Exec Store Error Unit
  event =
      record_audit_event env "attempt_authoritative" cr (some uuid)
        (field "prior_attempt_id" (opt_str (authority current))
          (field "delivery_id" (opt_str delivery_id) end))
        none none

  -- The rows, the delivery and the event, once the prior Attempt is out of the way.
  abbrev settle : Exec Store Error AttemptLease
  settle t =
      (event >>= λ _ u. (ok lease, u))
        (remember_delivery delivery_id lease (new_rows uuid wall_now cr key current t))

  settle-Kept : (t : Store) → Superseded s t cr (authority current) → Kept (settle t).1
  settle-Kept t e =
      let h =
        remember-Kept delivery_id lease (new_rows uuid wall_now cr key current t)
          (new_rows-TablesFit s t cr key uuid wall_now fresh k.0 k.1 e, new_rows-ActiveStand t e) in
      (
        concluded-IsConsistent env _ _ _ _ _ _ _ lease h.0,
        concluded-BypassesStand env _ _ _ _ _ _ _ lease h.1,
      )

  proceeds :
      moved expected (authority current) ≡ false
      → start_new env uuid wall_now cr key expected delivery_id s
        ≡ (supersede_prior env cr (authority current) >>= λ _. settle) s
  unfolding start_new
  proceeds e = rw (e, start_new)

  -- A new Attempt, past the earlier deliveries.
  start_new-Kept :
      Accepted (start_new env uuid wall_now cr key expected delivery_id s).0
      → Kept (start_new env uuid wall_now cr key expected delivery_id s).1
  unfolding start_new
  start_new-Kept h = elim (Bool-cases (moved expected (authority current))) [
    | inl e ↦ rw (e, start_new) k
    | inr e ↦
        let (first, h', q) =
          bind-runs_at (supersede_prior env cr (authority current)) (λ _. settle) s
            (supersede_prior-OnlyAudits env cr s k.0) (rw (proceeds e) at h) in
        rw (proceeds e, q)
          (settle-Kept (supersede_prior env cr (authority current) s).1
            (supersede_prior-Superseded env cr s k.0 k.1 (rw first tt)))
  ]

-- `start_authoritative_attempt` under an identifier that no Attempt has.
pub start_authoritative_attempt-Kept :
    (env : Env) (uuid : String) (wall_now : ℕ) (cr : Locator) (key : ReviewRequestKey)
    (expected delivery_id : Option String) (s : Store)
    → get s.attempts uuid ≡ none
    → Accepted (start_authoritative_attempt env uuid wall_now cr key expected delivery_id s).0
    → Kept s
    → Kept (start_authoritative_attempt env uuid wall_now cr key expected delivery_id s).1
unfolding start_authoritative_attempt
start_authoritative_attempt-Kept env uuid wall_now cr key expected none s fresh h k =
    start_new-Kept env uuid wall_now cr key expected none s fresh k h
start_authoritative_attempt-Kept env uuid wall_now cr key expected (some id) s fresh h k =
    elim (Bool-cases (id == "")) [
      | inl e ↦ rw (e, start_authoritative_attempt) k
      | inr e ↦ elim (Option-cases (get s.delivery_attempts (cr.installation_id, id))) [
        | inr (lease, p) ↦ rw (e, p, start_authoritative_attempt) k
        | inl p ↦
            rw (e, p, start_authoritative_attempt)
              (start_new-Kept env uuid wall_now cr key expected (some id) s fresh k
                (rw (e, p, start_authoritative_attempt) at h))
      ]
    ]

module _ (s : Store) (v : IsConsistent s) (id : String) (a : Attempt) (identity : ReviewIdentity)
    (found : get s.attempts id ≡ some a) where
  identified_after :
      (x : String)
      → get (put s.attempts id (record a { review_identity = some identity })) x ≡ (
          if id == x then some (record a { review_identity = some identity }) else get s.attempts x)
  identified_after x = get-put s.attempts id x (record a { review_identity = some identity })

  identified-TablesFit :
      TablesFit s.change_requests
        (put s.attempts id (record a { review_identity = some identity }))
        s.jobs
  identified-TablesFit = record {
    authority_locator = λ cr c p.
        ground (arith, v.authority_locator cr c p, identified_after c.authoritative_attempt_id);
    authority_key = λ cr c p.
        ground (arith, v.authority_key cr c p, identified_after c.authoritative_attempt_id);
    standing_authority = v.standing_authority;
    standing_published =
        λ cr c x p q. ground (arith, v.standing_published cr c x p q, identified_after x);
    standing_gate = v.standing_gate;
    live_authority = λ x b p q.
        ground (arith, v.live_authority x b, v.live_authority id a found, identified_after x);
    has_row = λ x b p. ground (arith, v.has_row x b, v.has_row id a found, identified_after x);
    has_job = λ x b p. ground (arith, v.has_job x b, v.has_job id a found, identified_after x);
    own_id = λ x b p. ground (arith, v.own_id x b, v.own_id id a, identified_after x);
    job_attempt = λ x j p. ground (arith, v.job_attempt x j, identified_after x);
    job_id = v.job_id;
    decided_job = λ x b j p q r.
        ground (arith, v.decided_job x b j, v.decided_job id a j found, identified_after x);
    distinct_jobs = v.distinct_jobs;
  }

-- `record_review_identity`.
pub record_review_identity-Kept :
    (id : String) (identity : ReviewIdentity) (s : Store)
    → Kept s
    → Kept (record_review_identity id identity s).1
unfolding record_review_identity
record_review_identity-Kept id identity s k = elim (Option-cases (get s.attempts id)) [
  | inl e ↦ rw (e, record_review_identity) k
  | inr (a, e) ↦ elim (Bool-cases (identity_matches_key identity a.request_key)) [
    | inr m ↦ rw (e, m, record_review_identity) k
    | inl m ↦ elim (Bool-cases (differs a.review_identity identity)) [
      | inl d ↦ rw (e, m, d, record_review_identity) k
      | inr d ↦
          rw (e, m, d, record_review_identity) (identified-TablesFit s k.0 id a identity e, k.1)
    ]
  ]
]
