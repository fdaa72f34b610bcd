-- ===== src/Server/State/Invariant/Prior.antt =====
-- What `start_authoritative_attempt` does to the Attempt that loses its authority.
use worktree_review.Base.{
  String, inl, inr, none, some, ◌≡◌, refl, arith, Option-cases, ◌==◌, nat_eq, string_eq, option_eq,
  pair_eq, if◌then◌else◌,
}
use worktree_review.Base.Dict.{NodupKeys, get, get-put, put-NodupKeys}
use worktree_review.Base.Exec.{Exec, ok, ◌>>◌}
use worktree_review.Server.State.{
  AttemptStatus, JobStatus, Attempt, Store, Error, Env, Locator, locator_eq,
}
use worktree_review.Server.State.Attempts.{
  authority, supersede_queued_job, supersede_rows, supersede_prior,
}
use worktree_review.Server.State.Standing.{supersede_check_intents, invalidate_bypasses}
use worktree_review.Server.State.Invariant.{IsConsistent, BypassesStand}
use worktree_review.Server.State.Invariant.Standing.{
  Accepted, bind-runs, invalidate_bypasses-spared, invalidate_bypasses-SameTables,
  invalidate_bypasses-OwnKeys, invalidate_bypasses-OnlyAudits,
}
use worktree_review.Server.State.Invariant.Attempts.{Superseded, dequeued}

module _ (prior : String) (a : Attempt) (s : Store) where
  rows-attempts :
      (id : String)
      → get (supersede_rows prior a s).attempts id ≡ (
          if prior == id
          then some (record a { status = AttemptStatus.superseded })
          else get s.attempts id)
  unfolding supersede_rows supersede_queued_job
  rows-attempts id = elim (Option-cases (get s.jobs prior)) [
    | inl n ↦ rw n (get-put s.attempts prior id (record a { status = AttemptStatus.superseded }))
    | inr (j, q) ↦
        ground (arith, get-put s.attempts prior id (record a { status = AttemptStatus.superseded }))
  ]

  rows-jobs :
      (id : String)
      → get (supersede_rows prior a s).jobs id
        ≡ (if prior == id then dequeued (get s.jobs id) else get s.jobs id)
  unfolding supersede_rows supersede_queued_job
  rows-jobs id = elim (Option-cases (get s.jobs prior)) [
    | inl n ↦ ground arith
    | inr (j, q) ↦
        ground (arith, get-put s.jobs prior id (record j { status = JobStatus.superseded }))
  ]

  rows-distinct : NodupKeys s.jobs → NodupKeys (supersede_rows prior a s).jobs
  unfolding supersede_rows supersede_queued_job
  rows-distinct h = elim (Option-cases (get s.jobs prior)) [
    | inl n ↦ rw n h
    | inr (j, q) ↦
        ground (arith, put-NodupKeys s.jobs prior (record j { status = JobStatus.superseded }) h)
  ]

  rows-change_requests : (supersede_rows prior a s).change_requests ≡ s.change_requests
  unfolding supersede_rows supersede_queued_job
  rows-change_requests = ground arith

  rows-bypasses : (supersede_rows prior a s).bypasses ≡ s.bypasses
  unfolding supersede_rows supersede_queued_job
  rows-bypasses = ground arith

abbrev reason : String
reason = "new authoritative Attempt superseded the standing decision"

module _ (env : Env) (cr : Locator) (s : Store) where
  -- The sequence after the prior Attempt was found.
  abbrev rest : String → Attempt → Exec Store Error Unit
  rest prior a t =
      (do invalidate_bypasses env cr reason; λ u. (ok tt, supersede_check_intents prior u))
        (supersede_rows prior a t)

  prior-found :
      (prior : String) (a : Attempt)
      → get s.attempts prior ≡ some a
      → supersede_prior env cr (some prior) s ≡ rest prior a s
  unfolding supersede_prior
  prior-found prior a e = rw (e, supersede_prior)

  none-found : supersede_prior env cr none s ≡ (ok tt, s)
  unfolding supersede_prior
  none-found = refl

module _ (env : Env) (cr : Locator) (s : Store) (v : IsConsistent s) (w : BypassesStand s) where
  nothing-Superseded : get s.change_requests cr ≡ none → Superseded s s cr none
  nothing-Superseded n = record {
    change_requests = refl;
    attempts = λ id. ground arith;
    jobs = λ id. ground arith;
    distinct = λ h. h;
    active = λ key r p a. (p, λ same. ground (arith, w.active_standing key r p a));
    own_keys = λ h. h;
  }

  rest-Superseded :
      (prior : String) (a : Attempt)
      → get s.attempts prior ≡ some a
      → Accepted (rest env cr s prior a s).0
      → Superseded s (rest env cr s prior a s).1 cr (some prior)
  unfolding supersede_check_intents
  rest-Superseded prior a found h =
      let start = supersede_rows prior a s in
      let same = invalidate_bypasses-SameTables env cr reason start in
      let (first, h', e) =
        bind-runs (invalidate_bypasses env cr reason)
          (λ _ u. (ok tt, supersede_check_intents prior u)) start
          (invalidate_bypasses-OnlyAudits env cr reason) h in
      rw e (record {
        change_requests = rw (same.change_requests, rows-change_requests prior a s);
        attempts = λ id. rw same.attempts (ground (arith, rows-attempts prior a s id));
        jobs = λ id. rw same.jobs (ground (arith, rows-jobs prior a s id));
        distinct = λ d. rw same.jobs (rows-distinct prior a s d);
        active = λ key r p x.
            rw (rows-bypasses prior a s) at
              (invalidate_bypasses-spared env cr reason start (rw first tt) key r p x);
        own_keys =
            λ o. invalidate_bypasses-OwnKeys env cr reason start (rw (rows-bypasses prior a s) o);
      })

  -- An accepted supersession of the prior Attempt supersedes its rows and the bypasses.
  pub supersede_prior-Superseded :
      Accepted (supersede_prior env cr (authority (get s.change_requests cr)) s).0
      → Superseded s
          (supersede_prior env cr (authority (get s.change_requests cr)) s).1
          cr
          (authority (get s.change_requests cr))
  supersede_prior-Superseded h = elim (Option-cases (get s.change_requests cr)) [
    | inl n ↦ rw (n, none-found env cr s) (nothing-Superseded n)
    | inr (c, p) ↦ elim (Option-cases (get s.attempts c.authoritative_attempt_id)) [
      | inl n ↦ ground (arith, v.authority_locator cr c p)
      | inr (a, q) ↦
          rw (p, prior-found env cr s c.authoritative_attempt_id a q)
            (rest-Superseded c.authoritative_attempt_id a q
              (rw (p, prior-found env cr s c.authoritative_attempt_id a q) at h))
    ]
  ]

-- Nothing else goes wrong.
pub supersede_prior-OnlyAudits :
    (env : Env) (cr : Locator) (s : Store)
    → IsConsistent s
    → Accepted (supersede_prior env cr (authority (get s.change_requests cr)) s).0
    → (supersede_prior env cr (authority (get s.change_requests cr)) s).0 ≡ ok tt
supersede_prior-OnlyAudits env cr s v h = elim (Option-cases (get s.change_requests cr)) [
  | inl n ↦ rw (n, none-found env cr s)
  | inr (c, p) ↦ elim (Option-cases (get s.attempts c.authoritative_attempt_id)) [
    | inl n ↦ ground (arith, v.authority_locator cr c p)
    | inr (a, q) ↦ rw p (found c.authoritative_attempt_id a q (rw p at h))
  ]
]
  where
    found :
        (prior : String) (a : Attempt)
        → get s.attempts prior ≡ some a
        → Accepted (supersede_prior env cr (some prior) s).0
        → (supersede_prior env cr (some prior) s).0 ≡ ok tt
    found prior a q g =
        let e = prior-found env cr s prior a q in
        let (first, h', x) =
          bind-runs (invalidate_bypasses env cr reason)
            (λ _ u. (ok tt, supersede_check_intents prior u)) (supersede_rows prior a s)
            (invalidate_bypasses-OnlyAudits env cr reason) (rw e at g) in
        rw (e, x)
