-- ===== src/Application/Mapping.antt =====
-- src/worktree_review/application/mapping.py.
use worktree_review.Application.{
  ViewGateState, Authority, PublicationStatus, project_gate_state, ReviewActionCapabilityView,
  AvailableReviewActionsView, LocalKind, LocalReviewSourceView, GitHubPullRequestSourceView,
  local_source, github_source, SurfaceProjection, ReviewRunView, view_gate_state_eq, authority_eq,
  publication_status_eq,
}
use worktree_review.Base.{
  String, Bool, true, false, ◌&&◌, ◌||◌, Option, none, some, is_some, ◌==◌, if◌then◌else◌,
}
use worktree_review.Core.Identity.{committed_ref, current_worktree_snapshot}
use worktree_review.Core.Pipeline.{ReviewReport}

-- `local_source_from_report`
unfoldable pub local_source_from_report : ReviewReport → LocalReviewSourceView
local_source_from_report report =
    let (kind, worktree_label) =
      elim report.resolved.proposed_source as (λ proposed. LocalKind × Option {0} String) [
        | current_worktree_snapshot ↦ (LocalKind.local_worktree, some "WORKTREE")
        | committed_ref ↦ (LocalKind.local_committed_ref, none)
      ] in
    record {
      kind = kind;
      repository_display_name = report.resolved.source_repository;
      worktree_label = worktree_label;
      target_ref = some report.resolved.target_ref;
      proposed_ref = some report.resolved.proposed_ref;
      snapshot_sha = some report.resolved.proposed_head_oid;
    }

-- The gate states of `terminal`.
unfoldable pub is_final : ViewGateState → Bool
is_final gate =
    gate == ViewGateState.passed
    || gate == ViewGateState.passed_with_bypass
    || gate == ViewGateState.blocked
    || gate == ViewGateState.error

-- What no local review offers.
abbrev pub hidden : String → ReviewActionCapabilityView
hidden reason = record { visible = false; enabled = false; disabled_reason = some reason }

abbrev pub shown : Bool → Option String → ReviewActionCapabilityView
shown enabled reason = record { visible = true; enabled = enabled; disabled_reason = reason }

-- A reason where the action is not enabled.
abbrev pub unless : Bool → String → Option String
unless enabled reason = if enabled then none else some reason

module _ (gate : ViewGateState) (surface : SurfaceProjection) where
  abbrev pub session_insight : ReviewActionCapabilityView
  session_insight =
      shown surface.session_insight_connected
        (unless surface.session_insight_connected "Session Insight is not connected.")

  unfoldable pub local_actions : AvailableReviewActionsView
  unfolding is_final
  local_actions = record {
    retry = shown (is_final gate) (
        unless (is_final gate)
          "Retry is available after the current attempt reaches a terminal gate.");
    bypass = hidden "Bypass is not available for local one-shot results.";
    open_check = hidden "GitHub Checks do not apply to local reviews.";
    open_session_insight = session_insight;
  }

  unfoldable pub github_actions : GitHubPullRequestSourceView → AvailableReviewActionsView
  unfolding is_final
  github_actions source =
      let bypass_enabled =
        gate == ViewGateState.blocked
        && surface.authority == Authority.authoritative
        && surface.github_actor_authenticated
        && surface.bypass_preconditions_met in
      let retry_enabled =
        is_final gate
        && surface.authority == Authority.authoritative
        && surface.github_actor_authenticated in
      record {
        retry = shown retry_enabled (
            unless retry_enabled
              "GitHub Retry requires an authenticated actor and an authoritative attempt.");
        bypass = shown bypass_enabled (
            unless bypass_enabled
              "Bypass requires an authorized write-class GitHub actor, a published standing Blocked review with a Check, and a trusted frozen Review Policy.");
        open_check =
            shown
              (is_some source.check_url
                && surface.publication_status == PublicationStatus.published)
              (unless (is_some source.check_url)
                "GitHub Checks are not connected for this attempt.");
        open_session_insight = session_insight;
      }

  -- `project_available_actions`
  unfoldable pub project_available_actions : AvailableReviewActionsView
  unfolding local_actions github_actions
  project_available_actions = elim surface.source [
    | local_source source ↦ local_actions
    | github_source source ↦ github_actions source
  ]

-- `map_review_run`; nothing where it raises `ValueError`.
unfoldable pub map_review_run : ReviewReport → SurfaceProjection → Option ReviewRunView
unfolding project_available_actions
map_review_run report surface =
    let gate = project_gate_state report.gate_state in
    if surface.authority == Authority.local_non_authoritative
      && gate == ViewGateState.passed_with_bypass
    then none
    else some (record {
      attempt_id = report.attempt_id;
      run_status = surface.run_status;
      gate_state = gate;
      authority = surface.authority;
      publication_status = surface.publication_status;
      bypass_state = surface.bypass_state;
      source = surface.source;
      summary = report.summary;
      error_detail = report.error_detail;
      available_actions = project_available_actions gate surface;
    })
