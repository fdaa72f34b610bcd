-- ===== src/Server/State/Invariant/Rows.antt =====
-- Writes of one Attempt with its job, in the tables of src/worktree_review/server/state.py.
use worktree_review.Base.{String, true, some, is_some, ◌≡◌, arith, ◌==◌, string_eq, if◌then◌else◌}
use worktree_review.Base.Dict.{Dict, NodupKeys, get, put, get-put, put-NodupKeys}
use worktree_review.Server.State.{
  Locator, AttemptStatus, Attempt, Job, ChangeRequest, Store, locator_eq,
}
use worktree_review.Server.State.Attempts.{authority}
use worktree_review.Server.State.Invariant.{TablesFit, IsConsistent, is_live, is_decided}
use worktree_review.Server.State.Jobs.{is_terminal, set_job}

-- A new status of one Attempt and a new state of its job.
module _ (s : Store) (v : IsConsistent s) (id : String) (a : Attempt) (j : Job)
    (status : AttemptStatus) (found : get s.attempts id ≡ some a) (same : j.attempt_id ≡ id)
    (jobs : Dict String Job) (distinct : NodupKeys jobs)
    (jobs_after : (x : String) → get jobs x ≡ (if id == x then some j else get s.jobs x))
    (finished : is_decided status ≡ true → is_terminal j.status ≡ true) where
  abbrev attempts : Dict String Attempt
  attempts = put s.attempts id (record a { status = status })

  attempts_after :
      (x : String)
      → get attempts x ≡ (if id == x then some (record a { status = status }) else get s.attempts x)
  attempts_after x = get-put s.attempts id x (record a { status = status })

  pub with_rows-IsConsistent :
      (is_live status ≡ true → authority (get s.change_requests a.change_request) ≡ some id)
      → ((cr : Locator) (c : ChangeRequest)
          → get s.change_requests cr ≡ some c
          → c.standing_attempt_id ≡ some id
          → status ≡ AttemptStatus.published)
      → TablesFit s.change_requests attempts jobs
  with_rows-IsConsistent authoritative stands = record {
    authority_locator = λ cr c p.
        ground (arith, v.authority_locator cr c p, attempts_after c.authoritative_attempt_id);
    authority_key =
        λ cr c p. ground (arith, v.authority_key cr c p, attempts_after c.authoritative_attempt_id);
    standing_authority = v.standing_authority;
    standing_published = λ cr c x p q.
        ground (arith, v.standing_published cr c x p q, stands cr c p, attempts_after x);
    standing_gate = v.standing_gate;
    live_authority = λ x b p q. ground (arith, v.live_authority x b, attempts_after x);
    has_row = λ x b p. ground (arith, v.has_row x b, v.has_row id a found, attempts_after x);
    has_job = λ x b p. ground (arith, v.has_job x b, attempts_after x, jobs_after x);
    own_id = λ x b p. ground (arith, v.own_id x b, v.own_id id a, attempts_after x);
    job_attempt = λ x b p. ground (arith, v.job_attempt x b, attempts_after x, jobs_after x);
    job_id = λ x b p. ground (arith, v.job_id x b, jobs_after x);
    decided_job =
        λ x b k p q r. ground (arith, v.decided_job x b k, attempts_after x, jobs_after x);
    distinct_jobs = distinct;
  }

  -- The Attempt's decision becomes the standing one.
  module _ (c c' : ChangeRequest) (row : get s.change_requests a.change_request ≡ some c)
      (authority' : c'.authoritative_attempt_id ≡ id) (key : c'.request_key ≡ a.request_key)
      (standing : c'.standing_attempt_id ≡ some id) (gate : is_some c'.standing_gate_state ≡ true)
      (was : c.authoritative_attempt_id ≡ id) (published : status ≡ AttemptStatus.published) where
    rows_after :
        (cr : Locator)
        → get (put s.change_requests a.change_request c') cr
          ≡ (if a.change_request == cr then some c' else get s.change_requests cr)
    rows_after cr = get-put s.change_requests a.change_request cr c'

    pub standing-IsConsistent : TablesFit (put s.change_requests a.change_request c') attempts jobs
    standing-IsConsistent = record {
      authority_locator = λ cr d p. ground (
        arith,
        rows_after cr,
        v.authority_locator cr d,
        attempts_after d.authoritative_attempt_id,
      );
      authority_key = λ cr d p. ground (
        arith,
        rows_after cr,
        v.authority_key cr d,
        v.authority_locator cr d,
        attempts_after d.authoritative_attempt_id,
      );
      standing_authority = λ cr d x p q. ground (arith, rows_after cr, v.standing_authority cr d x);
      standing_published = λ cr d x p q.
          ground (arith, rows_after cr, v.standing_published cr d x, attempts_after x);
      standing_gate = λ cr d p. ground (arith, rows_after cr, v.standing_gate cr d);
      live_authority = λ x b p q.
          ground (arith, v.live_authority x b, attempts_after x, rows_after b.change_request);
      has_row =
          λ x b p. ground (arith, v.has_row x b, attempts_after x, rows_after b.change_request);
      has_job = λ x b p. ground (arith, v.has_job x b, attempts_after x, jobs_after x);
      own_id = λ x b p. ground (arith, v.own_id x b, v.own_id id a, attempts_after x);
      job_attempt = λ x b p. ground (arith, v.job_attempt x b, attempts_after x, jobs_after x);
      job_id = λ x b p. ground (arith, v.job_id x b, jobs_after x);
      decided_job =
          λ x b k p q r. ground (arith, v.decided_job x b k, attempts_after x, jobs_after x);
      distinct_jobs = distinct;
    }

-- Writing a job alone: its Attempt may have been decided only if the job has ended.
module _ (s : Store) (v : IsConsistent s) (id : String) (j : Job) (same : j.attempt_id ≡ id)
    (attempt : is_some (get s.attempts id) ≡ true)
    (finished : (a : Attempt)
      → get s.attempts id ≡ some a
      → is_decided a.status ≡ true
      → is_terminal j.status ≡ true) where
  pub set_job-IsConsistent : IsConsistent (set_job id j s)
  set_job-IsConsistent = record {
    authority_locator = v.authority_locator;
    authority_key = v.authority_key;
    standing_authority = v.standing_authority;
    standing_published = v.standing_published;
    standing_gate = v.standing_gate;
    live_authority = v.live_authority;
    has_row = v.has_row;
    has_job = λ x b p. ground (arith, v.has_job x b, get-put s.jobs id x j);
    own_id = v.own_id;
    job_attempt = λ x b p. ground (arith, v.job_attempt x b, get-put s.jobs id x j);
    job_id = λ x b p. ground (arith, v.job_id x b, get-put s.jobs id x j);
    decided_job =
        λ x b k p q r. ground (arith, v.decided_job x b k p, finished b, get-put s.jobs id x j);
    distinct_jobs = put-NodupKeys s.jobs id j v.distinct_jobs;
  }
