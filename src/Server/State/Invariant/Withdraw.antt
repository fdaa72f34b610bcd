-- ===== src/Server/State/Invariant/Withdraw.antt =====
-- `invalidate_standing_decision` and `invalidate_standing_for_target` of
-- src/worktree_review/server/state.py and the invariants.
use worktree_review.Base.{
  ℕ, ◌+◌, String, true, inl, inr, ◌&&◌, Option, none, some, List, [], ◌∷◌, ◌≡◌, ◌≢◌, ap, ◌∙◌, arith,
  Bool-cases, Option-cases, contains, ◌==◌, string_eq, option_eq, pair_eq, if◌then◌else◌,
}
use worktree_review.Base.Dict.{Dict, get, put, get-put}
use worktree_review.Base.Exec.{Result}
use worktree_review.Server.State.{
  BypassRecord, ChangeRequest, Store, Error, Env, Locator, locator_eq,
}
use worktree_review.Server.State.Standing.{
  is_active, supersede_check_intents, invalidate_bypasses, supersede_if_standing,
  after_invalidation, invalidate_row, invalidate_standing_decision, invalidate_targets,
  invalidate_standing_for_target, ref_aliases,
}
use worktree_review.Server.State.Invariant.{
  standing_of, TablesFit, IsConsistent, BypassesStand, Kept,
}
use worktree_review.Server.State.Invariant.Frame.{audit-IsConsistent, audit-BypassesStand}
use worktree_review.Server.State.Invariant.Standing.{
  Accepted, OnlyAudits, bind-runs, audit-OnlyAudits, invalidate_bypasses-spared,
  invalidate_bypasses-SameTables, invalidate_bypasses-OwnKeys, invalidate_bypasses-OnlyAudits,
}

-- The row after its decision was withdrawn.
abbrev withdrawn : ChangeRequest → ChangeRequest
withdrawn c = record c {
  standing_attempt_id = none;
  standing_gate_state = none;
  standing_revision = c.standing_revision + 1;
}

module _ (env : Env) (cr : Locator) (reason : String) (s : Store) (c : ChangeRequest)
    (row : get s.change_requests cr ≡ some c) where
  abbrev rows : Dict Locator ChangeRequest
  rows = put s.change_requests cr (withdrawn c)

  rows_after :
      (x : Locator) → get rows x ≡ (if cr == x then some (withdrawn c) else get s.change_requests x)
  rows_after x = get-put s.change_requests cr x (withdrawn c)

  withdrawn-TablesFit : IsConsistent s → TablesFit rows s.attempts s.jobs
  withdrawn-TablesFit v = record {
    authority_locator = λ x d p.
        ground (arith, rows_after x, v.authority_locator x d, v.authority_locator cr c row);
    authority_key =
        λ x d p. ground (arith, rows_after x, v.authority_key x d, v.authority_key cr c row);
    standing_authority = λ x d id p q. ground (arith, rows_after x, v.standing_authority x d id);
    standing_published = λ x d id p q. ground (arith, rows_after x, v.standing_published x d id);
    standing_gate = λ x d p. ground (arith, rows_after x, v.standing_gate x d);
    live_authority =
        λ id a p q. ground (arith, rows_after a.change_request, v.live_authority id a p q);
    has_row = λ id a p. ground (arith, rows_after a.change_request, v.has_row id a);
    has_job = v.has_job;
    own_id = v.own_id;
    job_attempt = v.job_attempt;
    job_id = v.job_id;
    decided_job = v.decided_job;
    distinct_jobs = v.distinct_jobs;
  }

  abbrev start : Store
  start = record s { change_requests = rows }

  abbrev cleared : Store
  cleared = (invalidate_bypasses env cr reason start).1

  cleared-Kept :
      Accepted (invalidate_bypasses env cr reason start).0
      → IsConsistent s
      → BypassesStand s
      → Kept cleared
  cleared-Kept h v w =
      let same = invalidate_bypasses-SameTables env cr reason start in
      (
        rw (same.change_requests, same.attempts, same.jobs) (withdrawn-TablesFit v),
        rw same.change_requests (record {
          active_standing = λ key r p a.
              stands key r a (invalidate_bypasses-spared env cr reason start h key r p a);
          own_keys = invalidate_bypasses-OwnKeys env cr reason start w.own_keys;
        }),
      )
    where
      stands :
          (key : String × String) (r : BypassRecord)
          → is_active r.status ≡ true
          → (get s.bypasses key ≡ some r) × (r.change_request ≢ cr)
          → standing_of (get rows r.change_request) ≡ some r.attempt_id
      stands key r a (p, other) =
          ground (arith, w.active_standing key r p a, rows_after r.change_request)

  supersede-Kept : (id : Option String) (t : Store) → Kept t → Kept (supersede_if_standing id t)
  unfolding supersede_if_standing supersede_check_intents
  supersede-Kept none t k = k
  supersede-Kept (some id) t k = k

  invalidate_row-Kept :
      Accepted (invalidate_row env cr reason c s).0
      → IsConsistent s
      → BypassesStand s
      → Kept (invalidate_row env cr reason c s).1
  unfolding invalidate_row
  invalidate_row-Kept h v w =
      let (first, h', e) =
        bind-runs (invalidate_bypasses env cr reason)
          (λ _. after_invalidation env cr reason c.standing_attempt_id) start
          (invalidate_bypasses-OnlyAudits env cr reason) h in
      let k = supersede-Kept c.standing_attempt_id cleared (cleared-Kept (rw first tt) v w) in
      rw e (audit-IsConsistent env _ _ _ _ _ _ _ k.0, audit-BypassesStand env _ _ _ _ _ _ _ k.1)

-- A withdrawn decision leaves consistent tables and no active bypass without a standing decision.
pub invalidate_standing_decision-Kept :
    (env : Env) (cr : Locator) (reason : String) (s : Store)
    → Accepted (invalidate_standing_decision env cr reason s).0
    → IsConsistent s
    → BypassesStand s
    → Kept (invalidate_standing_decision env cr reason s).1
unfolding invalidate_standing_decision
invalidate_standing_decision-Kept env cr reason s h v w =
    elim (Option-cases (get s.change_requests cr)) [
      | inl e ↦ rw (e, invalidate_standing_decision) (v, w)
      | inr (c, e) ↦
          rw (e, invalidate_standing_decision)
            (invalidate_row-Kept env cr reason s c e (rw (e, invalidate_standing_decision) at h) v
              w)
    ]

row-OnlyAudits :
    (env : Env) (cr : Locator) (reason : String) (c : ChangeRequest)
    → OnlyAudits (invalidate_row env cr reason c)
unfolding invalidate_row
row-OnlyAudits env cr reason c s h =
    let (first, h', e) =
      bind-runs (invalidate_bypasses env cr reason)
        (λ _. after_invalidation env cr reason c.standing_attempt_id)
        (record s { change_requests = put s.change_requests cr (withdrawn c) })
        (invalidate_bypasses-OnlyAudits env cr reason) h in
    ap (λ (x : Result Error Unit × Store). x.0) e ∙ audit-OnlyAudits env _ _ _ _ _ _ _ h'

decision-OnlyAudits :
    (env : Env) (cr : Locator) (reason : String)
    → OnlyAudits (invalidate_standing_decision env cr reason)
unfolding invalidate_standing_decision
decision-OnlyAudits env cr reason s h = elim (Option-cases (get s.change_requests cr)) [
  | inl e ↦ rw (e, invalidate_standing_decision)
  | inr (c, e) ↦
      rw (e, invalidate_standing_decision)
        (row-OnlyAudits env cr reason c s (rw (e, invalidate_standing_decision) at h))
]

-- Over any list of change requests.
invalidate_targets-Kept :
    (env : Env) (repository : String) (aliases : List String) (reason : String)
    (entries : Dict Locator ChangeRequest) (count : ℕ) (s : Store)
    → Accepted (invalidate_targets env repository aliases reason entries count s).0
    → Kept s
    → Kept (invalidate_targets env repository aliases reason entries count s).1
unfolding invalidate_targets
invalidate_targets-Kept env repository aliases reason [] count s h k = k
invalidate_targets-Kept env repository aliases reason ((locator, c) ∷ rest) count s h k =
    elim (Bool-cases
      (locator.repository == repository && contains aliases c.request_key.target_ref)) [
        | inr e ↦
            rw (e, invalidate_targets)
              (invalidate_targets-Kept env repository aliases reason rest count s
                (rw (e, invalidate_targets) at h) k)
        | inl e ↦
            let (first, h', q) =
              bind-runs (invalidate_standing_decision env locator reason)
                (λ _. invalidate_targets env repository aliases reason rest (count + 1)) s
                (decision-OnlyAudits env locator reason) (rw (e, invalidate_targets) at h) in
            rw (e, invalidate_targets)
              (rw q (
                invalidate_targets-Kept env repository aliases reason rest (count + 1)
                  (invalidate_standing_decision env locator reason s).1 h'
                  (invalidate_standing_decision-Kept env locator reason s (rw first tt) k.0 k.1)))
      ]

pub invalidate_standing_for_target-Kept :
    (env : Env) (repository target_ref reason : String) (s : Store)
    → Accepted (invalidate_standing_for_target env repository target_ref reason s).0
    → Kept s
    → Kept (invalidate_standing_for_target env repository target_ref reason s).1
unfolding invalidate_standing_for_target
invalidate_standing_for_target-Kept env repository target_ref reason s h k =
    invalidate_targets-Kept env repository (ref_aliases target_ref) reason s.change_requests 0 s h k
