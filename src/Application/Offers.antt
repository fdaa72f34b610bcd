-- ===== src/Application/Offers.antt =====
-- The actions that `map_review_run` of src/worktree_review/application/mapping.py offers.
use worktree_review.Application.{
  ViewGateState, Authority, PublicationStatus, project_gate_state, ReviewActionCapabilityView,
  AvailableReviewActionsView, ReviewSourceView, local_source, github_source, SurfaceProjection,
  ReviewRunView, view_gate_state_eq, authority_eq, publication_status_eq,
}
use worktree_review.Application.Mapping.{
  is_final, local_actions, github_actions, project_available_actions, map_review_run,
}
use worktree_review.Base.{
  String, Bool, true, false, not, ◌&&◌, none, some, is_some, ◌==◌, if◌then◌else◌, ◌≡◌, ◌≢◌, refl,
  arith,
}
use worktree_review.Core.Pipeline.{ReviewReport}
use worktree_review.Core.Report.{GateState, gate_state_eq}

-- The action is enabled, or a reason says why it is not.
abbrev pub Explained : ReviewActionCapabilityView → Type 0
Explained action = action.enabled ≡ not (is_some action.disabled_reason)

-- The source is a pull request with a Check that is not published.
abbrev pub has_unpublished_check : SurfaceProjection → Bool
has_unpublished_check surface = elim surface.source [
  | local_source source ↦ false
  | github_source source ↦
      is_some source.check_url && not (surface.publication_status == PublicationStatus.published)
]

abbrev pub is_github : ReviewSourceView → Bool
is_github (local_source source) = false
is_github (github_source source) = true

-- What the surface knows where a bypass is offered.
abbrev pub BypassableIn : GateState → SurfaceProjection → Type 0
BypassableIn gate surface =
    (gate ≡ GateState.blocked)
    × (surface.authority ≡ Authority.authoritative)
    × (surface.github_actor_authenticated ≡ true)
    × (surface.bypass_preconditions_met ≡ true)
    × (is_github surface.source ≡ true)

abbrev pub Offers : GateState → SurfaceProjection → AvailableReviewActionsView → Type 0
Offers gate surface actions =
    (actions.bypass.enabled ≡ true → BypassableIn gate surface)
    × (actions.retry.enabled ≡ true → is_final (project_gate_state gate) ≡ true)
    × Explained actions.retry
    × Explained actions.bypass
    × Explained actions.open_session_insight
    × (has_unpublished_check surface ≡ false → Explained actions.open_check)

not_passed-blocked :
    (gate : GateState)
    → (project_gate_state gate == ViewGateState.blocked) ≡ true
    → gate ≡ GateState.blocked
unfolding project_gate_state
not_passed-blocked gate h = ground (arith, h)

explained_by : (b : Bool) (reason : String) → b ≡ not (is_some (if b then none else some reason))
explained_by true reason = refl
explained_by false reason = refl

offers :
    (gate : GateState) (surface : SurfaceProjection) (source : ReviewSourceView)
    → surface.source ≡ source
    → Offers gate surface (project_available_actions (project_gate_state gate) surface)
unfolding project_available_actions local_actions github_actions is_final
offers gate surface (local_source source) e =
    rw (e)
      (ground (arith), ground (arith), explained_by _ _, refl, explained_by _ _, ground (arith))
offers gate surface (github_source source) e = rw (e) (
  λ h. (
    not_passed-blocked gate (ground (arith, h)),
    ground (arith, h),
    ground (arith, h),
    ground (arith, h),
    refl,
  ),
  λ h. ground (arith, h),
  explained_by _ _,
  explained_by _ _,
  explained_by _ _,
  λ h. ground (arith, h),
)

shown_view :
    (report : ReviewReport) (surface : SurfaceProjection) (view : ReviewRunView)
    → map_review_run report surface ≡ some view
    → (view.available_actions
        ≡ project_available_actions (project_gate_state report.gate_state) surface)
      × (surface.authority ≡ Authority.local_non_authoritative
          → report.gate_state ≢ GateState.passed_with_bypass)
unfolding map_review_run project_gate_state
shown_view report surface view h = (ground (arith, h), λ a p. ground (arith, h, a, p))

-- Where the view of a report is shown, a local review is not Passed with bypass. A bypass is offered
-- only for a Blocked review of a pull request that is authoritative, to an authenticated actor, with
-- the preconditions met; a retry only for a gate state that is final. Retry, bypass and session
-- insight are enabled or say why not, and so does opening the Check unless the pull request has a
-- Check that is not published.
pub shown_actions_can_be_taken :
    (report : ReviewReport) (surface : SurfaceProjection) (view : ReviewRunView)
    → map_review_run report surface ≡ some view
    → (surface.authority ≡ Authority.local_non_authoritative
        → report.gate_state ≢ GateState.passed_with_bypass)
      × Offers report.gate_state surface view.available_actions
shown_actions_can_be_taken report surface view h =
    let (actions, not_local) = shown_view report surface view h in
    (not_local, rw (actions) (offers report.gate_state surface surface.source refl))
