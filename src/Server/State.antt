-- ===== src/Server/State.antt =====
-- The data of src/worktree_review/server/state.py: locators, statuses, leases, bypass records,
-- check intents, and the store `InMemoryAuthoritativeAttemptStore` with its private rows.
-- `Store` holds the fields of `__init__`; `clock_reads` counts the calls of the injected clock,
-- whose n-th reading is `clock n`. The lock is not modelled: each method holds it from its first
-- access of the state to its last, so a method is one step. Times are natural numbers.
pub mod Audit
pub mod Standing
pub mod Attempts
pub mod Jobs
pub mod Recovery
pub mod Publish
pub mod Bypass
pub mod CheckSync
pub mod Invariant
pub mod Reach
pub mod Later
pub mod Scenario
mod Examples
use worktree_review.Base.{ℕ, ◌+◌, String, Bool, Option, none, List, [], Eq, string_eq, nat_eq}
use worktree_review.Base.Dict.{Dict}
use worktree_review.Core.Identity.{ReviewRequestKey, ReviewIdentity}
use worktree_review.Core.Report.{GateState}
use worktree_review.Server.Json.{Fields}

-- `GitHubChangeRequestLocator`
pub record Locator : Type 0 where
  pub installation_id : ℕ
  pub repository : String
  pub pull_request_number : ℕ

pub data AttemptStatus : Type 0 where
  queued running superseded published audit_only : AttemptStatus

pub data JobStatus : Type 0 where
  queued running superseded completed retryable failed : JobStatus

pub data BypassStatus : Type 0 where
  active invalidated : BypassStatus

pub data CheckSyncStatus : Type 0 where
  queued in_progress published failed superseded not_applicable : CheckSyncStatus

pub data PublishDisposition : Type 0 where
  published superseded : PublishDisposition

pub record AttemptLease : Type 0 where
  pub attempt_id : String
  pub change_request : Locator
  pub request_key : ReviewRequestKey
  pub prior_authoritative_attempt_id : Option String
  pub delivery_replayed : Bool
  pub lease_recovered : Bool

pub record PublishResult : Type 0 where
  pub disposition : PublishDisposition
  pub attempt_id : String
  pub gate_state : Option GateState
  pub detail : String

-- `AuthoritativeChangeRequestState`
pub record ChangeRequestState : Type 0 where
  pub change_request : Locator
  pub request_key : Option ReviewRequestKey
  pub authoritative_attempt_id : Option String
  pub standing_attempt_id : Option String
  pub standing_gate_state : Option GateState
  pub standing_revision : ℕ

pub record JobRecoveryReport : Type 0 where
  pub requeued : List String
  pub lease_recovered : List String
  pub exhausted : List String

pub record BypassRecord : Type 0 where
  pub bypass_id : ℕ
  pub change_request : Locator
  pub attempt_id : String
  pub finding_fingerprint : String
  pub actor_id : Option ℕ
  pub actor_login : String
  pub reason : String
  pub review_identity : ReviewIdentity
  pub review_policy_sha256 : String
  pub risk_snapshot : Fields
  pub risk_digest : String
  pub status : BypassStatus
  pub invalidation_reason : Option String
  pub created_at : ℕ
  pub invalidated_at : Option ℕ

pub record BypassApplyResult : Type 0 where
  pub bypass : BypassRecord
  pub standing_gate_state : Option GateState
  pub standing_revision : ℕ
  pub active_bypass_fingerprints : List String
  pub remaining_blocking_count : ℕ
  pub check_sync_status : CheckSyncStatus
  pub gate_transitioned : Bool
  pub replayed : Bool

-- `StandingCheckSyncIntent`
pub record CheckIntent : Type 0 where
  pub intent_id : ℕ
  pub attempt_id : String
  pub standing_revision : ℕ
  pub check_run_id : Option ℕ
  pub intent : String
  pub status : CheckSyncStatus
  pub attempt_count : ℕ
  pub next_retry_at : Option ℕ
  pub last_error : Option String
  pub lease_expires_at : Option ℕ
  pub payload : Fields
  pub created_at : ℕ
  pub updated_at : ℕ

-- `AuditEvent` of src/worktree_review/server/audit.py
pub record AuditEvent : Type 0 where
  pub event_id : ℕ
  pub event_type : String
  pub occurred_at : ℕ
  pub installation_id : ℕ
  pub repository : String
  pub pull_request_number : ℕ
  pub attempt_id : Option String
  pub actor_id : Option ℕ
  pub actor_login : Option String
  pub payload : Fields

-- `_MutableAttempt`
pub record Attempt : Type 0 where
  pub attempt_id : String
  pub change_request : Locator
  pub request_key : ReviewRequestKey
  pub status : AttemptStatus
  pub review_identity : Option ReviewIdentity

-- `_MutableJob`
pub record Job : Type 0 where
  pub attempt_id : String
  pub status : JobStatus
  pub retry_count : ℕ
  pub updated_at : ℕ
  pub last_error : Option String

-- `_MutableChangeRequest`
pub record ChangeRequest : Type 0 where
  pub change_request : Locator
  pub request_key : ReviewRequestKey
  pub authoritative_attempt_id : String
  pub standing_attempt_id : Option String
  pub standing_gate_state : Option GateState
  pub standing_revision : ℕ

pub record Store : Type 0 where
  pub clock : ℕ → ℕ
  pub clock_reads : ℕ
  pub lease_seconds : ℕ
  pub change_requests : Dict Locator ChangeRequest
  pub attempts : Dict String Attempt
  pub jobs : Dict String Job
  pub delivery_attempts : Dict (ℕ × String) AttemptLease
  pub audit_events : List AuditEvent
  pub next_audit_event_id : ℕ
  pub bypasses : Dict (String × String) BypassRecord
  pub next_bypass_id : ℕ
  pub standing_check_intents : Dict ℕ CheckIntent
  pub next_check_intent_id : ℕ

-- `InMemoryAuthoritativeAttemptStore()`
abbrev pub new_store : (ℕ → ℕ) → ℕ → Store
new_store clock lease_seconds = record {
  clock = clock;
  clock_reads = 0;
  lease_seconds = lease_seconds;
  change_requests = [];
  attempts = [];
  jobs = [];
  delivery_attempts = [];
  audit_events = [];
  next_audit_event_id = 1;
  bypasses = [];
  next_bypass_id = 1;
  standing_check_intents = [];
  next_check_intent_id = 1;
}

-- Why a `StateConflictError` is raised: one constructor for each message.
pub data Conflict : Type 0 where
  empty_delivery_id : Conflict
  retry_target_moved : Conflict
  unknown_attempt : Conflict
  identity_mismatch : Conflict
  identity_immutable : Conflict
  no_longer_standing : Conflict
  no_standing_gate : Conflict
  other_gate : Conflict
  not_running : Conflict
  not_terminal : Conflict
  no_change_request : Conflict
  not_current_standing : Conflict
  identity_changed : Conflict
  other_bypass : Conflict
  not_blocked : Conflict

-- What a method raises: `StateConflictError`, the `ValueError` of `assert_safe_audit_payload`,
-- a pydantic `ValidationError`, and a `KeyError`.
pub data Error : Type 0 where
  conflict : Conflict → Error
  unsafe_payload : Error
  invalid_record : Error
  missing_key : Error

-- `assert_safe_audit_payload` (does it accept?) and `_scrub_job_error`.
pub record Env : Type 0 where
  pub safe_payload : Fields → Bool
  pub scrub_job_error : String → String

Locator-discrete : Discrete Locator
unfolding string_eq nat_eq
Locator-discrete = hlevel (string_eq.dec, nat_eq.dec)

instance unfoldable pub locator_eq : Eq Locator
unfolding Locator-discrete
locator_eq = record { dec = Locator-discrete }

JobStatus-discrete : Discrete JobStatus
JobStatus-discrete = hlevel

instance unfoldable pub job_status_eq : Eq JobStatus
unfolding JobStatus-discrete
job_status_eq = record { dec = JobStatus-discrete }

-- One reading of `self._clock()`: the store after it.
abbrev pub ticked : Store → Store
ticked s = record s { clock_reads = s.clock_reads + 1 }

abbrev pub now : Store → ℕ
now s = s.clock s.clock_reads
