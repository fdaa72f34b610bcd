-- ===== src/Application/Examples.antt =====
-- A Blocked review of a pull request, as a maintainer sees it.
use worktree_review.Application.{
  RunStatus, Authority, PublicationStatus, BypassState, github_source, SurfaceProjection,
  ReviewRunView, project_gate_state, view_gate_state_eq, authority_eq,
}
use worktree_review.Application.Mapping.{map_review_run}
use worktree_review.Application.Offers.{Offers, shown_actions_can_be_taken}
use worktree_review.Base.{true, false, none, some, [], ◌≡◌, ◌≢◌, refl}
use worktree_review.Core.Pipeline.{ReviewReport}
use worktree_review.Core.Identity.{committed_ref}
use worktree_review.Core.Report.{GateState}
use worktree_review.Server.State.Scenario.{key, identity, policy}

abbrev report : ReviewReport
report = record {
  gate_state = GateState.blocked;
  attempt_id = "a1";
  request_key = key;
  resolved = record {
    source_repository = "o/r";
    target_ref = "main";
    target_head_oid = "t1";
    proposed_ref = "topic";
    proposed_head_oid = "p1";
    proposed_source = committed_ref;
  };
  merge_tree_oid = some "m1";
  review_identity = some identity;
  review_policy_version = policy;
  compute_policy_version = policy;
  compute_policy_disclosure = record {
    provider = "anthropic";
    model = "m";
    data_destination = "cloud";
    known_retention = "none";
    provider_configuration_fingerprint = none;
  };
  execution = record { outcomes = [] };
  findings = [];
  draft_findings = [];
  coverage = none;
  dimension_outcomes = [];
  usage = [];
  call_plan = none;
  summary = "one finding";
  error_detail = none;
}

abbrev surface : SurfaceProjection
surface = record {
  source = github_source (record {
    repository_full_name = "o/r";
    pull_request_number = 7;
    pull_request_title = "Topic";
    author_login = "author";
    proposed_branch = "topic";
    target_branch = "main";
    commit_sha = "p1";
    check_url = some "https://github.com/o/r/runs/9";
  });
  run_status = RunStatus.completed;
  authority = Authority.authoritative;
  publication_status = PublicationStatus.published;
  bypass_state = BypassState.none;
  session_insight_connected = false;
  github_actor_authenticated = true;
  bypass_preconditions_met = true;
}

shown_run : (view : ReviewRunView) × (map_review_run report surface ≡ some view)
unfolding map_review_run project_gate_state view_gate_state_eq authority_eq
shown_run = (_, refl)

shown_actions_can_be_taken_example :
    (surface.authority ≡ Authority.local_non_authoritative
      → report.gate_state ≢ GateState.passed_with_bypass)
    × Offers report.gate_state surface shown_run.0.available_actions
shown_actions_can_be_taken_example =
    shown_actions_can_be_taken report surface shown_run.0 shown_run.1
