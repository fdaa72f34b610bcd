-- ===== src/Server/State/Scenario.antt =====
-- The constants of one change request: its Attempts, its bypass, its check intent, and the stores
-- that the methods reach one after the other.
use worktree_review.Base.{
  String, true, false, none, some, [], ◌∷◌, string_eq, nat_eq, pair_eq, option_eq,
}
use worktree_review.Core.Identity.{
  PolicyVersionIdentity, ReviewRequestKey, ReviewIdentity, policy_version_eq, request_key_eq,
  review_identity_eq,
}
use worktree_review.Core.Report.{blocked, passed_with_bypass, gate_state_eq}
use worktree_review.Server.Json.{num, str, end, field}
use worktree_review.Server.State.{
  Locator, AttemptStatus, JobStatus, BypassStatus, CheckSyncStatus, PublishResult,
  PublishDisposition, Attempt, Job, ChangeRequest, CheckIntent, AttemptLease, BypassRecord,
  BypassApplyResult, Store, Env, locator_eq, job_status_eq, new_store,
}
use worktree_review.Server.State.Attempts.{start_authoritative_attempt, record_review_identity}
use worktree_review.Server.State.Jobs.{claim_attempt_job, mark_job_retryable}
use worktree_review.Server.State.Publish.{publish_if_authoritative}
use worktree_review.Server.State.Bypass.{BypassCall, apply_finding_bypass}

abbrev pub env : Env
env = record { safe_payload = λ p. true; scrub_job_error = λ e. e }

abbrev pub a1 : String
a1 = "a1"

abbrev pub a2 : String
a2 = "a2"

abbrev pub cr : Locator
cr = record { installation_id = 1; repository = "o/r"; pull_request_number = 7 }

abbrev pub policy : PolicyVersionIdentity
policy = record { semver = "1.0.0"; sha256 = "f0" }

abbrev pub key : ReviewRequestKey
key = record {
  source_repository = "o/r";
  target_ref = "main";
  target_head_oid = "t1";
  proposed_head_oid = "p1";
  review_policy_version = policy;
}

abbrev pub identity : ReviewIdentity
identity = record {
  candidate = record {
    source_repository = "o/r";
    target_ref = "main";
    target_head_oid = "t1";
    proposed_head_oid = "p1";
    merge_tree_oid = "m1";
  };
  review_policy_version = policy;
}

abbrev pub s0 : Store
s0 = new_store (λ n. n) 60

abbrev pub s1 : Store
s1 = (start_authoritative_attempt env "a1" 0 cr key none (some "d1") s0).1

abbrev pub s2 : Store
s2 = (claim_attempt_job env "a1" s1).1

abbrev pub s3 : Store
s3 = (record_review_identity "a1" identity s2).1

abbrev pub s4 : Store
s4 = (publish_if_authoritative env "a1" key (some identity) blocked s3).1

abbrev pub row : ChangeRequest
row = record {
  change_request = cr;
  request_key = key;
  authoritative_attempt_id = "a1";
  standing_attempt_id = some "a1";
  standing_gate_state = some blocked;
  standing_revision = 1;
}

abbrev pub attempt : Attempt
attempt = record {
  attempt_id = "a1";
  change_request = cr;
  request_key = key;
  status = AttemptStatus.published;
  review_identity = some identity;
}

abbrev pub done : Job
done = record {
  attempt_id = "a1";
  status = JobStatus.completed;
  retry_count = 0;
  updated_at = 2;
  last_error = none;
}

abbrev pub call : BypassCall
call = record {
  change_request = cr;
  attempt_id = "a1";
  finding_fingerprint = "f1";
  actor_id = some 5;
  actor_login = "maintainer";
  reason = "accepted risk";
  review_identity = identity;
  review_policy_sha256 = "f0";
  blocking_fingerprints = "f1" ∷ [];
  risk_snapshot = end;
  risk_digest = "r1";
  check_run_id = some 9;
}

abbrev pub s5 : Store
s5 = (apply_finding_bypass env call s4).1

abbrev pub bypass : BypassRecord
bypass = record {
  bypass_id = 1;
  change_request = cr;
  attempt_id = "a1";
  finding_fingerprint = "f1";
  actor_id = some 5;
  actor_login = "maintainer";
  reason = "accepted risk";
  review_identity = identity;
  review_policy_sha256 = "f0";
  risk_snapshot = end;
  risk_digest = "r1";
  status = BypassStatus.active;
  invalidation_reason = none;
  created_at = 4;
  invalidated_at = none;
}

abbrev pub granted : BypassApplyResult
granted = record {
  bypass = bypass;
  standing_gate_state = some passed_with_bypass;
  standing_revision = 2;
  active_bypass_fingerprints = "f1" ∷ [];
  remaining_blocking_count = 0;
  check_sync_status = CheckSyncStatus.queued;
  gate_transitioned = true;
  replayed = false;
}

abbrev pub first_lease : AttemptLease
first_lease = record {
  attempt_id = "a1";
  change_request = cr;
  request_key = key;
  prior_authoritative_attempt_id = none;
  delivery_replayed = false;
  lease_recovered = false;
}

abbrev pub waiting : Attempt
waiting = record attempt { status = AttemptStatus.queued; review_identity = none }

abbrev pub working : Attempt
working = record attempt { status = AttemptStatus.running; review_identity = none }

abbrev pub busy : Job
busy = record done { status = JobStatus.running; updated_at = 1 }

-- A worker reports an error, and the service restarts.
abbrev pub s2r : Store
s2r = (mark_job_retryable env "a1" "timeout" s2).1

abbrev pub requeued_job : Job
requeued_job = record {
  attempt_id = "a1";
  status = JobStatus.queued;
  retry_count = 1;
  updated_at = 4;
  last_error = some "timeout";
}

-- A second Attempt takes the authority while the first is running.
abbrev pub s3b : Store
s3b = (start_authoritative_attempt env "a2" 0 cr key none none s2).1

abbrev pub lost : Attempt
lost = record working { status = AttemptStatus.superseded }

abbrev pub second_row : ChangeRequest
second_row = record row {
  authoritative_attempt_id = "a2";
  standing_attempt_id = none;
  standing_gate_state = none;
}

abbrev pub ready : Attempt
ready = record attempt { status = AttemptStatus.running }

abbrev pub first_row : ChangeRequest
first_row = record row {
  standing_attempt_id = none;
  standing_gate_state = none;
  standing_revision = 0;
}

abbrev pub decision : PublishResult
decision = record {
  disposition = PublishDisposition.published;
  attempt_id = "a1";
  gate_state = some blocked;
  detail = "authoritative gate decision published";
}

abbrev pub refusing : Env
refusing = record { safe_payload = λ p. false; scrub_job_error = λ e. e }

abbrev pub sync : CheckIntent
sync = record {
  intent_id = 1;
  attempt_id = "a1";
  standing_revision = 2;
  check_run_id = some 9;
  intent = "standing_check_sync";
  status = CheckSyncStatus.in_progress;
  attempt_count = 1;
  next_retry_at = none;
  last_error = none;
  lease_expires_at = some 40;
  payload =
      field "standing_gate_state" (str "Passed with bypass")
        (field "accepted_count" (num 1) (field "remaining_blocking_count" (num 0) end));
  created_at = 8;
  updated_at = 10;
}
