-- ===== src/Platform/Bypass/Granted.antt =====
-- What a bypass request of src/worktree_review/platform/github/bypass.py was checked for.
use worktree_review.Base.{
  String, Bool, true, false, Option, none, some, contains, string_eq, option_eq, Option-cases, inl,
  inr, ◌≡◌, ◌≢◌, refl, arith,
}
use worktree_review.Base.Exec.{Result, ok, err}
use worktree_review.Core.Findings.{Finding, ReviewPolicy}
use worktree_review.Core.Identity.{ReviewIdentity, request_key_eq}
use worktree_review.Core.Pipeline.{ReviewReport}
use worktree_review.Core.Report.{gate_state_eq}
use worktree_review.Platform.Bypass.{
  BypassRequest, Snapshot, BypassHost, report_is_complete_blocked,
}
use worktree_review.Platform.Bypass.Reason.{validate_bypass_reason}
use worktree_review.Platform.Bypass.Request.{
  find_finding, has_prior, blocking_of, standing_refusal, load_terminal_report, checked_finding,
  checked_report, checked_call, raised, apply_call, with_authority, with_snapshot, with_reason,
  request_bypass,
}
use worktree_review.Server.State.{BypassApplyResult, ChangeRequestState, Store, Error, Env}
use worktree_review.Server.State.Bypass.{BypassCall, list_bypasses}
use worktree_review.Server.State.Standing.{get_change_request_state}

module _ (host : BypassHost) (request : BypassRequest) (reason : String) (snapshot : Snapshot) where
  -- The finding is one of the report, and blocks under the policy.
  abbrev pub BlocksIn : ReviewReport → ReviewPolicy → Type 0
  BlocksIn report policy =
      (finding : Finding) × (find_finding request.finding_fingerprint report.findings
        ≡ some finding)
      × (contains (blocking_of report.findings policy) finding.fingerprint ≡ true)

  checked_finding-BlocksIn :
      (report : ReviewReport) (identity : ReviewIdentity) (policy : ReviewPolicy)
      (call : BypassCall)
      → checked_finding host request reason snapshot report identity policy ≡ ok call
      → BlocksIn report policy
  unfolding checked_finding
  checked_finding-BlocksIn report identity policy call h =
      elim (Option-cases (find_finding request.finding_fingerprint report.findings)) [
        | inl n ↦ ground (arith, h, n)
        | inr (finding, e) ↦ (finding, e, ground (arith, h, e))
      ]

  -- The report is complete and Blocked, and the policy is the frozen one.
  abbrev pub ReportedIn : ReviewReport → Type 0
  ReportedIn report =
      (policy : ReviewPolicy) × (host.get_review_result request.attempt_id ≡ some report)
      × (report_is_complete_blocked report ≡ true)
      × (host.resolve_frozen_review_policy snapshot report.review_policy_version ≡ ok policy)
      × BlocksIn report policy

  checked_report-ReportedIn :
      (report : ReviewReport) (call : BypassCall)
      → host.get_review_result request.attempt_id ≡ some report
      → checked_report host request reason snapshot report ≡ ok call
      → ReportedIn report
  unfolding checked_report
  checked_report-ReportedIn report call got h = elim (Option-cases report.review_identity) [
    | inl n ↦ ground (arith, h, n)
    | inr (identity, e) ↦
        by_policy identity e
          (host.resolve_frozen_review_policy snapshot report.review_policy_version) refl
  ]
    where
      by_policy :
          (identity : ReviewIdentity)
          → report.review_identity ≡ some identity
          → (answer : Result String ReviewPolicy)
          → host.resolve_frozen_review_policy snapshot report.review_policy_version ≡ answer
          → ReportedIn report
      by_policy identity e (err refusal) a = ground (arith, h, e, a)
      by_policy identity e (ok policy) a = (
        policy,
        got,
        ground (arith, h),
        a,
        checked_finding-BlocksIn report identity policy call (ground (arith, h, e, a)),
      )

  -- The Attempt is the authoritative and the standing one, and all the rest.
  abbrev pub CheckedIn : Store → Type 0
  CheckedIn s =
      (report : ReviewReport) × ((get_change_request_state s
          snapshot.change_request).authoritative_attempt_id
        ≡ some request.attempt_id)
      × ((get_change_request_state s snapshot.change_request).standing_attempt_id
          ≡ some request.attempt_id)
      × ReportedIn report

  standing_refusal-stands :
      (current : ChangeRequestState) (prior : Bool)
      → standing_refusal host request current prior ≡ none
      → (current.authoritative_attempt_id ≡ some request.attempt_id)
        × (current.standing_attempt_id ≡ some request.attempt_id)
  unfolding standing_refusal
  standing_refusal-stands current prior h = (ground (arith, h), ground (arith, h))

  load_terminal_report-ok :
      (report : ReviewReport)
      → load_terminal_report host request.attempt_id ≡ ok report
      → host.get_review_result request.attempt_id ≡ some report
  unfolding load_terminal_report
  load_terminal_report-ok report h = ground (arith, h)

  checked_call-CheckedIn :
      (s : Store) (call : BypassCall)
      → checked_call host request reason snapshot s ≡ ok call
      → CheckedIn s
  unfolding checked_call
  checked_call-CheckedIn s call h =
      elim (Option-cases (standing_refusal host request current prior)) [
        | inr (refusal, e) ↦ ground (arith, h, e)
        | inl n ↦ by_report n (load_terminal_report host request.attempt_id) refl
      ]
    where
      current : ChangeRequestState
      current = get_change_request_state s snapshot.change_request

      prior : Bool
      prior = has_prior request.finding_fingerprint (list_bypasses request.attempt_id s)

      by_report :
          standing_refusal host request current prior ≡ none
          → (answer : Result String ReviewReport)
          → load_terminal_report host request.attempt_id ≡ answer
          → CheckedIn s
      by_report n (err refusal) a = ground (arith, h, n, a)
      by_report n (ok report) a =
          let (authoritative, standing) = standing_refusal-stands current prior n in
          (
            report,
            authoritative,
            standing,
            checked_report-ReportedIn report call (load_terminal_report-ok report a)
                (ground (arith, h, n, a)),
          )

raised-ne_ok : (r : Result {0, 0} Error Unit) (result : BypassApplyResult) → raised r ≢ ok result
raised-ne_ok (ok done) result e = ground (arith, e)
raised-ne_ok (err failure) result e = ground (arith, e)

module _ (env : Env) (host : BypassHost) (request : BypassRequest) where
  -- The actor may bypass, and every check passed.
  abbrev pub GrantedIn : Store → Type 0
  GrantedIn s =
      (reason : String) × (snapshot : Snapshot) × (validate_bypass_reason host.scrub_secret_content
          request.reason
        ≡ ok reason)
      × (host.get_execution_snapshot request.attempt_id ≡ some snapshot)
      × (host.may_bypass snapshot.change_request request.actor_login ≡ ok true)
      × CheckedIn host request reason snapshot s

  apply_call-ok :
      (answer : Result String BypassCall) (s : Store) (result : BypassApplyResult)
      → (apply_call env host request answer s).0 ≡ ok result
      → (call : BypassCall) × (answer ≡ ok call)
  unfolding apply_call
  apply_call-ok (err refusal) s result h = ground (arith, h)
  apply_call-ok (ok call) s result h = (call, refl)

  with_authority-ok :
      (reason : String) (snapshot : Snapshot) (answer : Result String Bool) (s : Store)
      (result : BypassApplyResult)
      → (with_authority env host request reason snapshot answer s).0 ≡ ok result
      → (answer ≡ ok true) × CheckedIn host request reason snapshot s
  unfolding with_authority
  with_authority-ok reason snapshot (err failure) s result h = ground (arith, h)
  with_authority-ok reason snapshot (ok false) s result h = elim (raised-ne_ok _ result h) [ ]
  with_authority-ok reason snapshot (ok true) s result h =
      let (call, e) = apply_call-ok (checked_call host request reason snapshot s) s result h in
      (refl, checked_call-CheckedIn host request reason snapshot s call e)

  with_snapshot-ok :
      (reason : String) (answer : Option Snapshot) (s : Store) (result : BypassApplyResult)
      → (with_snapshot env host request reason answer s).0 ≡ ok result
      → (snapshot : Snapshot) × (answer ≡ some snapshot)
        × (host.may_bypass snapshot.change_request request.actor_login ≡ ok true)
        × CheckedIn host request reason snapshot s
  unfolding with_snapshot
  with_snapshot-ok reason none s result h = ground (arith, h)
  with_snapshot-ok reason (some snapshot) s result h =
      let (authorized, passed) =
        with_authority-ok reason snapshot
          (host.may_bypass snapshot.change_request request.actor_login) s result h in
      (snapshot, refl, authorized, passed)

  with_reason-ok :
      (answer : Result String String) (s : Store) (result : BypassApplyResult)
      → (with_reason env host request answer s).0 ≡ ok result
      → (reason : String) × (snapshot : Snapshot) × (answer ≡ ok reason)
        × (host.get_execution_snapshot request.attempt_id ≡ some snapshot)
        × (host.may_bypass snapshot.change_request request.actor_login ≡ ok true)
        × CheckedIn host request reason snapshot s
  unfolding with_reason
  with_reason-ok (err refusal) s result h = ground (arith, h)
  with_reason-ok (ok reason) s result h =
      let (snapshot, found, authorized, passed) =
        with_snapshot-ok reason (host.get_execution_snapshot request.attempt_id) s result h in
      (reason, snapshot, refl, found, authorized, passed)

-- A bypass request that succeeds had a valid reason and an authorized actor, named the Attempt that is
-- both authoritative and standing in the store, whose report is a complete Blocked review, and named
-- a finding of that report which blocks under the frozen policy.
pub granted_bypass_passed_every_check :
    (env : Env) (host : BypassHost) (request : BypassRequest) (s : Store)
    (result : BypassApplyResult)
    → (request_bypass env host request s).0 ≡ ok result
    → GrantedIn env host request s
unfolding request_bypass
granted_bypass_passed_every_check env host request s result h =
    with_reason-ok env host request
      (validate_bypass_reason host.scrub_secret_content request.reason) s result h
