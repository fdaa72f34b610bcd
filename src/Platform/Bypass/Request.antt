-- ===== src/Platform/Bypass/Request.antt =====
-- `GitHubBypassCoordinator.request_bypass` of src/worktree_review/platform/github/bypass.py, over
-- the store.
use worktree_review.Base.{
  String, Bool, true, false, not, ◌&&◌, ◌||◌, Option, none, some, is_some, List, [], ◌∷◌, map,
  filter_by, contains, ◌==◌, string_eq, option_eq, if◌then◌else◌,
}
use worktree_review.Base.Exec.{Exec, Result, ok, err}
use worktree_review.Core.Findings.{Finding, ReviewPolicy}
use worktree_review.Core.Gate.{finding_blocks_under_policy}
use worktree_review.Core.Identity.{ReviewIdentity, request_key_eq}
use worktree_review.Core.Pipeline.{ReviewReport}
use worktree_review.Core.Report.{blocked, error, gate_state_eq}
use worktree_review.Platform.Bypass.{
  BypassRequest, BypassError, rejected, not_authorized, role_unavailable, storage_unavailable,
  store_error, Snapshot, BypassHost, risk_snapshot_for_finding, report_is_complete_blocked,
}
use worktree_review.Platform.Bypass.Reason.{validate_bypass_reason}
use worktree_review.Server.Json.{str, end, field}
use worktree_review.Server.State.{
  BypassRecord, BypassApplyResult, ChangeRequestState, Store, Error, conflict, Env,
}
use worktree_review.Server.State.Audit.{append_audit_event}
use worktree_review.Server.State.Bypass.{BypassCall, apply_finding_bypass, list_bypasses}
use worktree_review.Server.State.Standing.{get_change_request_state}

-- `next((finding for finding in findings if finding.fingerprint == fingerprint), None)`
unfoldable pub find_finding : String → List Finding → Option Finding
find_finding fingerprint [] = none
find_finding fingerprint (finding ∷ findings) =
    let later = find_finding fingerprint findings in
    if finding.fingerprint == fingerprint then some finding else later

-- Whether `list_bypasses` has a record of the finding.
unfoldable pub has_prior : String → List BypassRecord → Bool
has_prior fingerprint [] = false
has_prior fingerprint (r ∷ records) =
    r.finding_fingerprint == fingerprint || has_prior fingerprint records

abbrev pub blocking_of : List Finding → ReviewPolicy → List String
blocking_of findings policy =
    map (λ (f : Finding). f.fingerprint)
      (filter_by (λ f. finding_blocks_under_policy f policy) findings)

-- The code of the rejection by the current state, if any.
unfoldable pub standing_refusal :
    BypassHost → BypassRequest → ChangeRequestState → Bool → Option String
standing_refusal host request current prior =
    if not (
      current.authoritative_attempt_id == some request.attempt_id
      && current.standing_attempt_id == some request.attempt_id)
    then some "bypass_not_standing"
    else if current.standing_gate_state == some error
    then some "bypass_gate_error"
    else if not
        (is_some (host.get_check_run_id request.attempt_id) && host.is_published request.attempt_id)
    then some "bypass_not_standing"
    else if not prior && not (current.standing_gate_state == some blocked)
    then some "bypass_not_blocking"
    else none

-- `_load_terminal_report`
unfoldable pub load_terminal_report : BypassHost → String → Result String ReviewReport
load_terminal_report host attempt_id = elim (host.get_review_result attempt_id) [
  | none ↦ err "bypass_not_standing"
  | some report ↦ if report.gate_state == error then err "bypass_gate_error" else ok report
]

module _ (host : BypassHost) (request : BypassRequest) (reason : String) (snapshot : Snapshot) where
  abbrev pub call_of : ReviewReport → ReviewIdentity → ReviewPolicy → Finding → BypassCall
  call_of report identity policy finding = record {
    change_request = snapshot.change_request;
    attempt_id = request.attempt_id;
    finding_fingerprint = request.finding_fingerprint;
    actor_id = request.actor_id;
    actor_login = request.actor_login;
    reason = reason;
    review_identity = identity;
    review_policy_sha256 = snapshot.review_policy_sha256;
    blocking_fingerprints = blocking_of report.findings policy;
    risk_snapshot = risk_snapshot_for_finding finding;
    risk_digest = host.risk_digest (risk_snapshot_for_finding finding);
    check_run_id = host.get_check_run_id request.attempt_id;
  }

  -- The finding of the report, under the frozen policy.
  unfoldable pub checked_finding :
      ReviewReport → ReviewIdentity → ReviewPolicy → Result String BypassCall
  checked_finding report identity policy =
      if not (report.request_key == snapshot.request_key)
      then err "bypass_not_standing"
      else elim (find_finding request.finding_fingerprint report.findings) [
        | none ↦ err "finding_not_found"
        | some finding ↦
            if not (contains (blocking_of report.findings policy) finding.fingerprint)
            then err "bypass_not_blocking"
            else ok (call_of report identity policy finding)
      ]

  -- The report that the Attempt ended with.
  unfoldable pub checked_report : ReviewReport → Result String BypassCall
  checked_report report =
      if not (report_is_complete_blocked report)
      then err "bypass_gate_error"
      else elim report.review_identity [
        | none ↦ err "bypass_gate_error"
        | some identity ↦
            elim (host.resolve_frozen_review_policy snapshot report.review_policy_version) [
              | err refusal ↦ err refusal
              | ok policy ↦ checked_finding report identity policy
            ]
      ]

  -- All checks before the transaction; none of them writes.
  unfoldable pub checked_call : Store → Result String BypassCall
  checked_call s =
      elim (standing_refusal host request (get_change_request_state s snapshot.change_request)
        (has_prior request.finding_fingerprint (list_bypasses request.attempt_id s))) [
          | some refusal ↦ err refusal
          | none ↦ elim (load_terminal_report host request.attempt_id) [
            | err refusal ↦ err refusal
            | ok report ↦ checked_report report
          ]
        ]

-- The two `except` clauses of the transaction.
unfoldable pub applied : Result Error BypassApplyResult → Result BypassError BypassApplyResult
applied (ok result) = ok result
applied (err (conflict c)) = err (rejected "bypass_conflict")
applied (err _) = err storage_unavailable

abbrev pub raised : Result {0, 0} Error Unit → Result BypassError BypassApplyResult
raised (ok done) = err not_authorized
raised (err e) = err (store_error e)

module _ (env : Env) (host : BypassHost) (request : BypassRequest) where
  unfoldable pub apply_call : Result String BypassCall → Exec Store BypassError BypassApplyResult
  unfolding applied
  apply_call (err refusal) s = (err (rejected refusal), s)
  apply_call (ok call) s = let (r, t) = apply_finding_bypass env call s in (applied r, t)

  -- The answer of the authorizer decides.
  unfoldable pub with_authority :
      String → Snapshot → Result String Bool → Exec Store BypassError BypassApplyResult
  with_authority reason snapshot (err failure) s = (err role_unavailable, s)
  with_authority reason snapshot (ok false) s =
      let (r, t) =
        append_audit_event env "bypass_denied" snapshot.change_request (some request.attempt_id)
          (field "finding_fingerprint" (str request.finding_fingerprint)
            (field "reason" (str reason) end))
          request.actor_id (some request.actor_login) s in
      (raised r, t)
  with_authority reason snapshot (ok true) s =
      apply_call (checked_call host request reason snapshot s) s

  unfoldable pub with_snapshot : String → Option Snapshot → Exec Store BypassError BypassApplyResult
  with_snapshot reason none s = (err (rejected "attempt_not_found"), s)
  with_snapshot reason (some snapshot) s =
      with_authority reason snapshot (host.may_bypass snapshot.change_request request.actor_login) s

  unfoldable pub with_reason : Result String String → Exec Store BypassError BypassApplyResult
  with_reason (err refusal) s = (err (rejected refusal), s)
  with_reason (ok reason) s =
      with_snapshot reason (host.get_execution_snapshot request.attempt_id) s

  -- `request_bypass`
  unfoldable pub request_bypass : Exec Store BypassError BypassApplyResult
  request_bypass s = with_reason (validate_bypass_reason host.scrub_secret_content request.reason) s
