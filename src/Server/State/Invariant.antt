-- ===== src/Server/State/Invariant.antt =====
-- What holds of the store of src/worktree_review/server/state.py between two methods.
pub mod Rows
pub mod Frame
pub mod Jobs
pub mod Recovery
pub mod Publish
pub mod Standing
pub mod Attempts
pub mod Prior
pub mod Start
pub mod Bypass
pub mod SameRow
pub mod Withdraw
pub mod Decisions
use worktree_review.Base.{
  ℕ, String, Bool, true, false, Option, none, some, is_some, List, [], ◌∷◌, ◌≡◌, arith, nat_eq,
  string_eq, pair_eq,
}
use worktree_review.Base.Dict.{Dict, NodupKeys, get, put}
use worktree_review.Core.Identity.{ReviewRequestKey}
use worktree_review.Core.Report.{GateState}
use worktree_review.Server.State.{
  Locator, AttemptStatus, AttemptLease, BypassRecord, Attempt, Job, ChangeRequest, Store,
  locator_eq,
}
use worktree_review.Server.State.Attempts.{authority}
use worktree_review.Server.State.Jobs.{is_terminal}
use worktree_review.Server.State.Standing.{is_active}

-- An Attempt that may still be reviewed, or whose decision may stand.
abbrev pub is_live : AttemptStatus → Bool
is_live AttemptStatus.queued = true
is_live AttemptStatus.running = true
is_live AttemptStatus.published = true
is_live _ = false

-- An Attempt that went through stage 9.
abbrev pub is_decided : AttemptStatus → Bool
is_decided AttemptStatus.published = true
is_decided AttemptStatus.audit_only = true
is_decided _ = false

abbrev pub status_of : Option Attempt → Option AttemptStatus
status_of none = none
status_of (some a) = some a.status

abbrev pub locator_of : Option Attempt → Option Locator
locator_of none = none
locator_of (some a) = some a.change_request

abbrev pub key_of : Option Attempt → Option ReviewRequestKey
key_of none = none
key_of (some a) = some a.request_key

abbrev pub standing_of : Option ChangeRequest → Option String
standing_of none = none
standing_of (some c) = c.standing_attempt_id

-- The tables of change requests, Attempts and jobs fit together.
pub record TablesFit (change_requests : Dict Locator ChangeRequest) (attempts : Dict String Attempt)
    (jobs : Dict String Job) : Type 0 where
  pub authority_locator :
      (cr : Locator) (c : ChangeRequest)
      → get change_requests cr ≡ some c
      → locator_of (get attempts c.authoritative_attempt_id) ≡ some cr
  pub authority_key :
      (cr : Locator) (c : ChangeRequest)
      → get change_requests cr ≡ some c
      → key_of (get attempts c.authoritative_attempt_id) ≡ some c.request_key
  pub standing_authority :
      (cr : Locator) (c : ChangeRequest) (id : String)
      → get change_requests cr ≡ some c
      → c.standing_attempt_id ≡ some id
      → c.authoritative_attempt_id ≡ id
  pub standing_published :
      (cr : Locator) (c : ChangeRequest) (id : String)
      → get change_requests cr ≡ some c
      → c.standing_attempt_id ≡ some id
      → status_of (get attempts id) ≡ some AttemptStatus.published
  pub standing_gate :
      (cr : Locator) (c : ChangeRequest)
      → get change_requests cr ≡ some c
      → is_some c.standing_attempt_id ≡ is_some c.standing_gate_state
  pub live_authority :
      (id : String) (a : Attempt)
      → get attempts id ≡ some a
      → is_live a.status ≡ true
      → authority (get change_requests a.change_request) ≡ some id
  pub has_row :
      (id : String) (a : Attempt)
      → get attempts id ≡ some a
      → is_some (get change_requests a.change_request) ≡ true
  pub has_job :
      (id : String) (a : Attempt) → get attempts id ≡ some a → is_some (get jobs id) ≡ true
  pub own_id : (id : String) (a : Attempt) → get attempts id ≡ some a → a.attempt_id ≡ id
  pub job_attempt :
      (id : String) (j : Job) → get jobs id ≡ some j → is_some (get attempts id) ≡ true
  pub job_id : (id : String) (j : Job) → get jobs id ≡ some j → j.attempt_id ≡ id
  pub decided_job :
      (id : String) (a : Attempt) (j : Job)
      → get attempts id ≡ some a
      → get jobs id ≡ some j
      → is_decided a.status ≡ true
      → is_terminal j.status ≡ true
  pub distinct_jobs : NodupKeys jobs

abbrev pub IsConsistent : Store → Type 0
IsConsistent s = TablesFit s.change_requests s.attempts s.jobs

-- Every bypass stands under its Attempt and its fingerprint.
abbrev pub OwnKeys : Dict (String × String) BypassRecord → Type 0
OwnKeys [] = Unit
OwnKeys ((key, r) ∷ d) = (key ≡ (r.attempt_id, r.finding_fingerprint)) × OwnKeys d

pub put-OwnKeys :
    (d : Dict (String × String) BypassRecord) (key : String × String) (r : BypassRecord)
    → key ≡ (r.attempt_id, r.finding_fingerprint)
    → OwnKeys d
    → OwnKeys (put d key r)
unfolding put
put-OwnKeys [] key r e h = (e, tt)
put-OwnKeys ((k, q) ∷ d) key r e h = ground (arith, put-OwnKeys d key r e h.1)

-- A bypass is active only on the Attempt whose decision stands.
pub record ActiveStand (change_requests : Dict Locator ChangeRequest)
    (bypasses : Dict (String × String) BypassRecord) : Type 0 where
  pub active_standing :
      (key : String × String) (r : BypassRecord)
      → get bypasses key ≡ some r
      → is_active r.status ≡ true
      → standing_of (get change_requests r.change_request) ≡ some r.attempt_id
  pub own_keys : OwnKeys bypasses

abbrev pub BypassesStand : Store → Type 0
BypassesStand s = ActiveStand s.change_requests s.bypasses

-- The invariant of the store.
abbrev pub Kept : Store → Type 0
Kept s = IsConsistent s × BypassesStand s
