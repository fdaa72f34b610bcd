-- ===== src/Server/State/Invariant/Attempts.antt =====
-- The rows that `start_authoritative_attempt` of src/worktree_review/server/state.py writes.
use worktree_review.Base.{
  ℕ, String, true, inl, inr, sym, ◌∙◌, Option, none, some, is_some, ◌≡◌, ◌≢◌, arith, Option-cases,
  ◌==◌, nat_eq, string_eq, option_eq, pair_eq, if◌then◌else◌,
}
use worktree_review.Base.Dict.{NodupKeys, get, put, get-put, put-NodupKeys}
use worktree_review.Core.Identity.{ReviewRequestKey}
use worktree_review.Server.State.{
  AttemptStatus, JobStatus, Attempt, Job, BypassRecord, ChangeRequest, Store, Locator, locator_eq,
}
use worktree_review.Server.State.Attempts.{authority, next_revision, new_rows}
use worktree_review.Server.State.Jobs.{is_terminal}
use worktree_review.Server.State.Standing.{is_active}
use worktree_review.Server.State.Invariant.{
  is_decided, status_of, OwnKeys, IsConsistent, BypassesStand,
}

abbrev pub superseded : Option Attempt → Option Attempt
superseded none = none
superseded (some a) = some (record a { status = AttemptStatus.superseded })

abbrev pub superseded_if_queued : JobStatus → JobStatus
superseded_if_queued JobStatus.queued = JobStatus.superseded
superseded_if_queued x = x

abbrev pub dequeued : Option Job → Option Job
dequeued none = none
dequeued (some j) = some (record j { status = superseded_if_queued j.status })

-- The tables that the new rows are written over: those of `s`, but the prior Attempt and its
-- queued job are superseded, and the bypasses of the change request are not active.
pub record Superseded (s t : Store) (cr : Locator) (prior : Option String) : Type 0 where
  pub change_requests : t.change_requests ≡ s.change_requests
  pub attempts :
      (id : String)
      → get t.attempts id
        ≡ (if prior == some id then superseded (get s.attempts id) else get s.attempts id)
  pub jobs :
      (id : String)
      → get t.jobs id ≡ (if prior == some id then dequeued (get s.jobs id) else get s.jobs id)
  pub distinct : NodupKeys s.jobs → NodupKeys t.jobs
  pub active :
      (key : String × String) (r : BypassRecord)
      → get t.bypasses key ≡ some r
      → is_active r.status ≡ true
      → (get s.bypasses key ≡ some r) × (r.change_request ≢ cr)
  pub own_keys : OwnKeys s.bypasses → OwnKeys t.bypasses

module _ (s t : Store) (cr : Locator) (key : ReviewRequestKey) (uuid : String) (wall_now : ℕ)
    (fresh : get s.attempts uuid ≡ none) (v : IsConsistent s) (w : BypassesStand s)
    (e : Superseded s t cr (authority (get s.change_requests cr))) where
  abbrev after : Store
  after = new_rows uuid wall_now cr key (get s.change_requests cr) t

  abbrev row : ChangeRequest
  row = record {
    change_request = cr;
    request_key = key;
    authoritative_attempt_id = uuid;
    standing_attempt_id = none;
    standing_gate_state = none;
    standing_revision = next_revision (get s.change_requests cr);
  }

  abbrev attempt : Attempt
  attempt = record {
    attempt_id = uuid;
    change_request = cr;
    request_key = key;
    status = AttemptStatus.queued;
    review_identity = none;
  }

  abbrev job : Job
  job = record {
    attempt_id = uuid;
    status = JobStatus.queued;
    retry_count = 0;
    updated_at = wall_now;
    last_error = none;
  }

  rows_after :
      (x : Locator)
      → get (put t.change_requests cr row) x
        ≡ (if cr == x then some row else get s.change_requests x)
  rows_after x = get-put t.change_requests cr x row ∙ rw e.change_requests

  attempts_after :
      (x : String)
      → get (put t.attempts uuid attempt) x ≡ (if uuid == x then some attempt else get t.attempts x)
  attempts_after x = get-put t.attempts uuid x attempt

  jobs_after :
      (x : String) → get (put t.jobs uuid job) x ≡ (if uuid == x then some job else get t.jobs x)
  jobs_after x = get-put t.jobs uuid x job

  has_both : (id : String) → is_some (get s.attempts id) ≡ is_some (get s.jobs id)
  has_both id = elim (Option-cases (get s.attempts id)) [
    | inr (a, p) ↦ rw p (sym (v.has_job id a p))
    | inl p ↦ elim (Option-cases (get s.jobs id)) [
      | inl q ↦ rw (p, q)
      | inr (j, q) ↦ ground (arith, v.job_attempt id j q)
    ]
  ]

  prior_row :
      (id : String) (a : Attempt)
      → get (put t.attempts uuid attempt) id ≡ some a
      → is_some (get (put t.change_requests cr row) a.change_request) ≡ true
  prior_row id a p = elim (Option-cases (get s.attempts id)) [
    | inl n ↦ ground (arith, attempts_after id, e.attempts id, rows_after a.change_request)
    | inr (b, q) ↦
        ground
          (arith, attempts_after id, e.attempts id, rows_after a.change_request, v.has_row id b q)
  ]

  own :
      (id : String) (a : Attempt)
      → get (put t.attempts uuid attempt) id ≡ some a
      → a.attempt_id ≡ id
  own id a p = elim (Option-cases (get s.attempts id)) [
    | inl n ↦ ground (arith, attempts_after id, e.attempts id)
    | inr (b, q) ↦ ground (arith, attempts_after id, e.attempts id, v.own_id id b q)
  ]

  own_job : (id : String) (j : Job) → get (put t.jobs uuid job) id ≡ some j → j.attempt_id ≡ id
  own_job id j p = elim (Option-cases (get s.jobs id)) [
    | inl n ↦ ground (arith, jobs_after id, e.jobs id)
    | inr (k, q) ↦ ground (arith, jobs_after id, e.jobs id, v.job_id id k q)
  ]

  decided :
      (id : String) (a : Attempt) (j : Job)
      → get (put t.attempts uuid attempt) id ≡ some a
      → get (put t.jobs uuid job) id ≡ some j
      → is_decided a.status ≡ true
      → is_terminal j.status ≡ true
  decided id a j p q d =
      ground
        (arith, attempts_after id, jobs_after id, e.attempts id, e.jobs id, v.decided_job id a j)

  published :
      (x : Locator) (d : ChangeRequest) (id : String)
      → get (put t.change_requests cr row) x ≡ some d
      → d.standing_attempt_id ≡ some id
      → status_of (get (put t.attempts uuid attempt) id) ≡ some AttemptStatus.published
  published x d id p q = elim (Option-cases (get s.change_requests cr)) [
    | inl n ↦ ground (
      arith,
      rows_after x,
      attempts_after id,
      e.attempts id,
      v.standing_published x d id,
      v.standing_authority x d id,
    )
    | inr (c, r) ↦ ground (
      arith,
      rows_after x,
      attempts_after id,
      e.attempts id,
      v.standing_published x d id,
      v.standing_authority x d id,
      v.authority_locator x d,
      v.authority_locator cr c r,
    )
  ]

  pub new_rows-TablesFit : IsConsistent after
  unfolding new_rows
  new_rows-TablesFit = record {
    authority_locator = λ x d p. ground (
      arith,
      rows_after x,
      attempts_after d.authoritative_attempt_id,
      e.attempts d.authoritative_attempt_id,
      v.authority_locator x d,
    );
    authority_key = λ x d p. ground (
      arith,
      rows_after x,
      attempts_after d.authoritative_attempt_id,
      e.attempts d.authoritative_attempt_id,
      v.authority_locator x d,
      v.authority_key x d,
    );
    standing_authority = λ x d id p q. ground (arith, rows_after x, v.standing_authority x d id);
    standing_published = published;
    standing_gate = λ x d p. ground (arith, rows_after x, v.standing_gate x d);
    live_authority = λ id a p q. ground (
      arith,
      attempts_after id,
      e.attempts id,
      rows_after a.change_request,
      v.live_authority id a,
    );
    has_row = prior_row;
    has_job = λ id a p.
        ground (arith, attempts_after id, jobs_after id, e.attempts id, e.jobs id, has_both id);
    own_id = λ id a p. own id a p;
    job_attempt = λ id j p.
        ground (arith, attempts_after id, jobs_after id, e.attempts id, e.jobs id, has_both id);
    job_id = own_job;
    decided_job = decided;
    distinct_jobs = put-NodupKeys t.jobs uuid job (e.distinct v.distinct_jobs);
  }
