-- ===== src/Platform/Bypass/Examples.antt =====
-- A maintainer accepts the finding of a Blocked review; another actor may not.
use worktree_review.Base.{
  true, false, none, some, List, [], ◌∷◌, ◌≡◌, ◌≢◌, refl, arith, string_eq, ◌==◌, filter_by, nat_eq,
  pair_eq, option_eq, option_dec, min_by, max_by,
}
use worktree_review.Base.Exec.{ok, err}
use worktree_review.Core.Findings.{
  critical, major, supported, ReviewPolicy, Finding, review_worktree, EvidenceSpan, severity_eq,
}
use worktree_review.Core.Identity.{
  committed_ref, policy_version_eq, request_key_eq, review_identity_eq,
}
use worktree_review.Core.Pipeline.{ReviewReport}
use worktree_review.Core.Report.{
  blocked, completed, StageName, StageOutcome, gate_state_eq, gate_value, stage_name_eq,
  stage_status_eq,
}
use worktree_review.Platform.Bypass.{
  BypassRequest, BypassHost, not_authorized, storage_unavailable, complete_review_stages,
  report_is_complete_blocked, risk_snapshot_for_finding, span_snapshots, span_snapshot,
  severity_value, band_value,
}
use worktree_review.Platform.Bypass.Granted.{GrantedIn, granted_bypass_passed_every_check}
use worktree_review.Platform.Bypass.Refused.{SameTables, refused_bypass_changes_nothing}
use worktree_review.Platform.Bypass.Request.{
  request_bypass, with_reason, with_snapshot, with_authority, apply_call, applied, checked_call,
  standing_refusal, load_terminal_report, checked_report, checked_finding, find_finding, has_prior,
}
use worktree_review.Server.State.{BypassApplyResult, locator_eq, job_status_eq}
use worktree_review.Server.State.Scenario.{env, cr, key, identity, policy, s4}
use worktree_review.Base.Dict.{get, put, map_values}
use worktree_review.Server.State.Attempts.{
  start_authoritative_attempt, start_new, supersede_prior, supersede_rows, supersede_queued_job,
  remember_delivery, new_rows, new_lease, get_delivery_attempt, record_review_identity,
  identity_matches_key,
}
use worktree_review.Server.State.Standing.{
  invalidate_bypasses, invalidate_loop, supersede_check_intents, enqueue_check_intent,
  get_change_request_state,
}
use worktree_review.Server.State.Audit.{append_audit_event, record_audit_event}
use worktree_review.Server.State.Jobs.{
  claim_attempt_job, claim_rows, claim_queued, mark_job_retryable, mark_running_retryable,
  locator_for_attempt,
}
use worktree_review.Server.State.Recovery.{
  recover_interrupted_jobs, recover_loop, recover_one, recover_retryable,
}
use worktree_review.Server.State.Publish.{
  publish_if_authoritative, publish_by_status, publish_standing, complete_job, inputs_match,
  identity_matches,
}
use worktree_review.Server.State.Bypass.{
  apply_finding_bypass, bypass_on, bypass_standing, grant_bypass, is_valid_call, settle_bypass,
  audit_transition, sync_bypass, active_bypass_fingerprints, remaining, new_bypass, check_payload,
  list_bypasses,
}
use worktree_review.Server.State.CheckSync.{
  claim_standing_check_sync, claim_first, claim_intent, deliverable, newest_revisions,
  raise_revisions, revisions, is_candidate,
}
use worktree_review.Platform.Bypass.Reason.{
  validate_bypass_reason, char_count, utf8_count, strip_start, strip_end,
}
use worktree_review.Core.Evidence.Text.{
  occurs, split_lines, normalize_line_endings, line_endings, take, has_prefix,
}
use worktree_review.Core.Gate.{finding_blocks_under_policy}

abbrev span : EvidenceSpan
span = record {
  path = "a.py";
  start_line = 2;
  end_line = 2;
  quoted_text = "y";
  context_class = "workspace";
  source = review_worktree;
  snapshot_identity = none;
  change_kind = none;
}

abbrev finding : Finding
finding = record {
  fingerprint = "f1";
  severity = major;
  evidence_band = supported;
  problem_statement = "wrong";
  expected_impact = "breaks";
  evidence_spans = span ∷ [];
  repair_guidance = none;
  bypass_applied = false;
  dimension_id = some "security";
}

abbrev review_policy : ReviewPolicy
review_policy = record {
  version = "1";
  required_dimensions = "security" ∷ [];
  blocking_severities = critical ∷ major ∷ [];
  minimum_blocking_evidence_band = supported;
  context = record {
    max_file_bytes = 100;
    excluded_globs = [];
    mandatory_globs = [];
    optional_globs = [];
  };
}

abbrev done_stages : List StageName → List StageOutcome
done_stages [] = []
done_stages (stage ∷ stages) =
    record { stage = stage; status = completed; detail = none } ∷ done_stages stages

abbrev report : ReviewReport
report = record {
  gate_state = blocked;
  attempt_id = "a1";
  request_key = key;
  resolved = record {
    source_repository = "o/r";
    target_ref = "main";
    target_head_oid = "t1";
    proposed_ref = "topic";
    proposed_head_oid = "p1";
    proposed_source = committed_ref;
  };
  merge_tree_oid = some "m1";
  review_identity = some identity;
  review_policy_version = policy;
  compute_policy_version = policy;
  compute_policy_disclosure = record {
    provider = "anthropic";
    model = "m";
    data_destination = "cloud";
    known_retention = "none";
    provider_configuration_fingerprint = none;
  };
  execution = record { outcomes = done_stages complete_review_stages };
  findings = finding ∷ [];
  draft_findings = [];
  coverage = some (record {
    required_coverage_complete = true;
    mandatory_missing = [];
    optional_missing = [];
    excluded = [];
    unreviewable = [];
    reviewed = "a.py" ∷ [];
  });
  dimension_outcomes = record { dimension_id = "security"; status = completed; detail = none } ∷ [];
  usage = [];
  call_plan = none;
  summary = "one finding";
  error_detail = none;
}

abbrev host : BypassHost
host = record {
  scrub_secret_content = λ text. text;
  get_execution_snapshot = λ attempt_id.
      some (record { change_request = cr; request_key = key; review_policy_sha256 = "f0" });
  may_bypass = λ change_request login. ok (login == "maintainer");
  get_check_run_id = λ attempt_id. some 9;
  is_published = λ attempt_id. true;
  get_review_result = λ attempt_id. some report;
  resolve_frozen_review_policy = λ snapshot version. ok review_policy;
  risk_digest = λ risk. "r1";
}

abbrev request : BypassRequest
request = record {
  attempt_id = "a1";
  finding_fingerprint = "f1";
  actor_id = some 5;
  actor_login = "maintainer";
  reason = " accepted risk ";
}

abbrev visitor : BypassRequest
visitor = record request { actor_login = "visitor" }

granted_run : (result : BypassApplyResult) × ((request_bypass env host request s4).0 ≡ ok result)
unfolding request_bypass with_reason with_snapshot with_authority apply_call applied checked_call
    standing_refusal load_terminal_report checked_report checked_finding find_finding has_prior
    validate_bypass_reason char_count utf8_count strip_start strip_end occurs split_lines
    normalize_line_endings line_endings take has_prefix get_change_request_state list_bypasses
    report_is_complete_blocked risk_snapshot_for_finding span_snapshots span_snapshot severity_value
    band_value finding_blocks_under_policy severity_eq stage_name_eq stage_status_eq get put
    map_values filter_by start_authoritative_attempt start_new supersede_prior supersede_rows
    supersede_queued_job invalidate_bypasses invalidate_loop supersede_check_intents
    remember_delivery new_rows new_lease record_audit_event get_delivery_attempt claim_attempt_job
    claim_rows claim_queued mark_job_retryable mark_running_retryable locator_for_attempt
    recover_interrupted_jobs recover_loop recover_one recover_retryable record_review_identity
    identity_matches_key publish_if_authoritative publish_by_status publish_standing complete_job
    inputs_match identity_matches apply_finding_bypass bypass_on bypass_standing grant_bypass
    is_valid_call settle_bypass audit_transition sync_bypass enqueue_check_intent
    active_bypass_fingerprints remaining new_bypass check_payload string_eq nat_eq pair_eq option_eq
    option_dec locator_eq job_status_eq gate_state_eq policy_version_eq request_key_eq
    review_identity_eq gate_value claim_standing_check_sync claim_first claim_intent deliverable
    newest_revisions raise_revisions revisions is_candidate min_by max_by
granted_run = (_, refl)

granted_bypass_passed_every_check_example : GrantedIn env host request s4
granted_bypass_passed_every_check_example =
    granted_bypass_passed_every_check env host request s4 granted_run.0 granted_run.1

visitor_refused : (request_bypass env host visitor s4).0 ≡ err not_authorized
unfolding request_bypass with_reason validate_bypass_reason string_eq nat_eq occurs split_lines
    normalize_line_endings with_snapshot with_authority append_audit_event record_audit_event
visitor_refused = refl

not_storage : not_authorized ≢ storage_unavailable
not_storage = ground arith

refused_bypass_changes_nothing_example : SameTables s4 (request_bypass env host visitor s4).1
refused_bypass_changes_nothing_example =
    refused_bypass_changes_nothing env host visitor s4 not_authorized visitor_refused not_storage
