-- ===== src/Server/State/Invariant/Publish.antt =====
-- `publish_if_authoritative` of src/worktree_review/server/state.py and the invariants.
use worktree_review.Base.{
  ℕ, ◌+◌, String, Bool, true, false, inl, inr, Option, none, some, ◌≡◌, ◌≢◌, refl, arith,
  Bool-cases, Option-cases, ◌==◌, string_eq, option_eq, pair_eq, if◌then◌else◌,
}
use worktree_review.Base.Dict.{get, put, get-put, put-NodupKeys, NodupKeys}
use worktree_review.Core.Identity.{ReviewRequestKey, ReviewIdentity}
use worktree_review.Core.Report.{GateState, gate_value}
use worktree_review.Server.State.{
  AttemptStatus, JobStatus, Attempt, Job, ChangeRequest, Store, Env, Locator, locator_eq, now,
}
use worktree_review.Server.Json.{Fields, str, end, field}
use worktree_review.Server.State.Jobs.{is_terminal, set_attempt}
use worktree_review.Server.State.Publish.{
  inputs_match, complete_job, publish_again, publish_superseded, publish_standing,
  publish_by_status, publish_if_authoritative, superseded_result, published_result,
}
use worktree_review.Server.State.Invariant.{
  Kept, TablesFit, ActiveStand, IsConsistent, BypassesStand,
}
use worktree_review.Server.State.Invariant.Frame.{concluded-IsConsistent, concluded-BypassesStand}
use worktree_review.Server.State.Invariant.Rows.{with_rows-IsConsistent, standing-IsConsistent}

-- The job that `complete_job` leaves.
abbrev completed : Job → ℕ → Job
completed j at =
    if is_terminal j.status then j else record j { status = JobStatus.completed; updated_at = at }

-- The row of a change request whose decision `id` has just published.
abbrev pub standing_row : String → GateState → ChangeRequest → ChangeRequest
standing_row id gate c = record c {
  standing_attempt_id = some id;
  standing_gate_state = some gate;
  standing_revision = c.standing_revision + 1;
}

module _ (id : String) (t : Store) where
  pub attempts-complete_job : (complete_job id t).attempts ≡ t.attempts
  unfolding complete_job
  attempts-complete_job = ground arith

  pub change_requests-complete_job : (complete_job id t).change_requests ≡ t.change_requests
  unfolding complete_job
  change_requests-complete_job = ground arith

  pub bypasses-complete_job : (complete_job id t).bypasses ≡ t.bypasses
  unfolding complete_job
  bypasses-complete_job = ground arith

  pub jobs-complete_job :
      (j : Job)
      → get t.jobs id ≡ some j
      → (x : String)
      → get (complete_job id t).jobs x
        ≡ (if id == x then some (completed j (now t)) else get t.jobs x)
  unfolding complete_job
  jobs-complete_job j p x =
      ground
        (arith, get-put t.jobs id x (record j { status = JobStatus.completed; updated_at = now t }))

  distinct-complete_job : NodupKeys t.jobs → NodupKeys (complete_job id t).jobs
  unfolding complete_job
  distinct-complete_job n = elim (Option-cases (get t.jobs id)) [
    | inl e ↦ rw (e, complete_job) n
    | inr (j, e) ↦
        rw (e, complete_job)
          (elim (Bool-cases (is_terminal j.status)) [
            | inl f ↦ rw f n
            | inr f ↦ rw f (put-NodupKeys t.jobs id _ n)
          ])
  ]

module _ (env : Env) (s : Store) (v : IsConsistent s) (id : String) (a : Attempt)
    (c : ChangeRequest) (found : get s.attempts id ≡ some a)
    (row : get s.change_requests a.change_request ≡ some c) where
  -- The store with the Attempt decided and its job completed.
  abbrev decided : AttemptStatus → Store
  decided status = complete_job id (set_attempt id (record a { status = status }) s)

  job_there : (j : Job) × (get s.jobs id ≡ some j)
  job_there = ground (arith, v.has_job id a found)

  superseded-IsConsistent :
      ((x : ChangeRequest) (cr : Locator)
        → get s.change_requests cr ≡ some x
        → x.standing_attempt_id ≡ some id
        → ⊥)
      → IsConsistent (decided AttemptStatus.audit_only)
  superseded-IsConsistent never =
      let (j, p) = job_there in
      let t = set_attempt id (record a { status = AttemptStatus.audit_only }) s in
      rw (attempts-complete_job, change_requests-complete_job)
        (with_rows-IsConsistent s v id a (completed j (now s)) AttemptStatus.audit_only found
          (ground (arith, v.job_id id j p)) (complete_job id t).jobs
          (distinct-complete_job id t v.distinct_jobs) (jobs-complete_job id t j p)
          (λ d. ground arith) (λ l. cc) (λ cr x q r. absurd (never x cr q r)))

  published-IsConsistent :
      (gate : GateState)
      → c.authoritative_attempt_id ≡ id
      → c.request_key ≡ a.request_key
      → TablesFit
          (put s.change_requests a.change_request (standing_row id gate c))
          (put s.attempts id (record a { status = AttemptStatus.published }))
          (decided AttemptStatus.published).jobs
  published-IsConsistent gate authority key =
      let (j, p) = job_there in
      let t = set_attempt id (record a { status = AttemptStatus.published }) s in
      standing-IsConsistent s v id a (completed j (now s)) AttemptStatus.published found
        (ground (arith, v.job_id id j p)) (complete_job id t).jobs
        (distinct-complete_job id t v.distinct_jobs) (jobs-complete_job id t j p)
        (λ d. ground arith) c (standing_row id gate c) row authority key refl refl authority refl

  never_stands :
      a.status ≢ AttemptStatus.published
      → (x : ChangeRequest) (cr : Locator) → get s.change_requests cr ≡ some x
      → x.standing_attempt_id ≡ some id
      → ⊥
  never_stands h x cr p q = ground (arith, v.standing_published cr x id p q)

  abbrev superseded_payload : Fields
  superseded_payload = field "detail" (str "Attempt was superseded before publication") end

  publish_superseded-IsConsistent :
      a.status ≢ AttemptStatus.published → IsConsistent (publish_superseded env id a s).1
  unfolding publish_superseded
  publish_superseded-IsConsistent h =
      concluded-IsConsistent env "attempt_publish_superseded" a.change_request (some id)
        superseded_payload none none (decided AttemptStatus.audit_only) (superseded_result id)
        (superseded-IsConsistent (never_stands h))

  publish_superseded-BypassesStand :
      BypassesStand s → BypassesStand (publish_superseded env id a s).1
  unfolding publish_superseded
  publish_superseded-BypassesStand w =
      concluded-BypassesStand env "attempt_publish_superseded" a.change_request (some id)
        superseded_payload none none (decided AttemptStatus.audit_only) (superseded_result id)
        (rw (change_requests-complete_job, bypasses-complete_job) w)

  abbrev stood : GateState → Store
  stood gate =
      let t = decided AttemptStatus.published in
      record t { change_requests = put t.change_requests a.change_request (standing_row id gate c) }

  publish_standing-IsConsistent :
      (gate : GateState)
      → c.authoritative_attempt_id ≡ id
      → c.request_key ≡ a.request_key
      → IsConsistent (publish_standing env id gate a c s).1
  unfolding publish_standing
  publish_standing-IsConsistent gate authority key =
      concluded-IsConsistent env "standing_decision_published" a.change_request (some id)
        (field "gate_state" (str (gate_value gate)) end) none none (stood gate)
        (published_result id gate "authoritative gate decision published")
        (rw (attempts-complete_job, change_requests-complete_job)
          (published-IsConsistent gate authority key))

  -- No bypass was active, since nothing stood.
  stood-ActiveStand :
      (gate : GateState)
      → c.authoritative_attempt_id ≡ id
      → a.status ≢ AttemptStatus.published
      → BypassesStand s
      → ActiveStand (put s.change_requests a.change_request (standing_row id gate c)) s.bypasses
  stood-ActiveStand gate authority h w = record {
    active_standing = λ key r p q. ground (
      arith,
      w.active_standing key r p q,
      v.standing_authority a.change_request c r.attempt_id row,
      never_stands h c a.change_request row,
      get-put s.change_requests a.change_request r.change_request (standing_row id gate c),
    );
    own_keys = w.own_keys;
  }

  publish_standing-BypassesStand :
      (gate : GateState)
      → c.authoritative_attempt_id ≡ id
      → a.status ≢ AttemptStatus.published
      → BypassesStand s
      → BypassesStand (publish_standing env id gate a c s).1
  unfolding publish_standing
  publish_standing-BypassesStand gate authority h w =
      concluded-BypassesStand env "standing_decision_published" a.change_request (some id)
        (field "gate_state" (str (gate_value gate)) end) none none (stood gate)
        (published_result id gate "authoritative gate decision published")
        (rw (bypasses-complete_job, change_requests-complete_job)
          (stood-ActiveStand gate authority h w))

  publish_again-keeps :
      (gate : GateState) (matches : Bool) → (publish_again id gate matches c s).1 ≡ s
  unfolding publish_again
  publish_again-keeps gate matches = ground arith

  publish_by_status-Kept :
      (gate : GateState) (matches : Bool)
      → (matches ≡ true → c.authoritative_attempt_id ≡ id)
      → (matches ≡ true → c.request_key ≡ a.request_key)
      → BypassesStand s
      → (x : AttemptStatus) → a.status ≡ x
      → Kept (publish_by_status env id gate matches a c s).1
  unfolding publish_by_status
  publish_by_status-Kept gate matches authority key w AttemptStatus.published e =
      rw (e, publish_by_status) (rw publish_again-keeps (v, w))
  publish_by_status-Kept gate true authority key w AttemptStatus.running e =
      rw (e, publish_by_status)
        (
          publish_standing-IsConsistent gate (authority refl) (key refl),
          publish_standing-BypassesStand gate (authority refl) (λ p. ground arith) w,
        )
  publish_by_status-Kept gate false authority key w AttemptStatus.running e =
      rw (e, publish_by_status)
        (publish_superseded-IsConsistent (λ p. ground arith), publish_superseded-BypassesStand w)
  publish_by_status-Kept gate true authority key w x e = rw (e, publish_by_status) (v, w)
  publish_by_status-Kept gate false authority key w AttemptStatus.audit_only e =
      rw (e, publish_by_status) (v, w)
  publish_by_status-Kept gate false authority key w x e =
      rw (e, publish_by_status)
        (publish_superseded-IsConsistent (λ p. ground arith), publish_superseded-BypassesStand w)

-- What matching publication inputs say.
pub inputs_match-authority :
    (id : String) (key : ReviewRequestKey) (identity : Option ReviewIdentity) (a : Attempt)
    (c : ChangeRequest)
    → inputs_match id key identity a c ≡ true
    → c.authoritative_attempt_id ≡ id
unfolding inputs_match
inputs_match-authority id key identity a c h = ground arith

pub inputs_match-key :
    (id : String) (key : ReviewRequestKey) (identity : Option ReviewIdentity) (a : Attempt)
    (c : ChangeRequest)
    → inputs_match id key identity a c ≡ true
    → c.request_key ≡ a.request_key
unfolding inputs_match
inputs_match-key id key identity a c h = ground arith

pub publish_if_authoritative-Kept :
    (env : Env) (s : Store) (id : String) (key : ReviewRequestKey)
    (identity : Option ReviewIdentity) (gate : GateState)
    → IsConsistent s
    → BypassesStand s
    → Kept (publish_if_authoritative env id key identity gate s).1
unfolding publish_if_authoritative
publish_if_authoritative-Kept env s id key identity gate v w =
    elim (Option-cases (get s.attempts id)) [
      | inl e ↦ rw (e, publish_if_authoritative) (v, w)
      | inr (a, e) ↦
          rw (e, publish_if_authoritative)
            (elim (Option-cases (get s.change_requests a.change_request)) [
              | inl f ↦ rw (f, publish_if_authoritative) (v, w)
              | inr (c, f) ↦
                  rw (f, publish_if_authoritative)
                    (publish_by_status-Kept env s v id a c e f gate
                      (inputs_match id key identity a c)
                      (inputs_match-authority id key identity a c)
                      (inputs_match-key id key identity a c) w a.status refl)
            ])
    ]
