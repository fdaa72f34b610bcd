-- ===== src/Application.antt =====
-- What the surfaces show of a review: src/worktree_review/application/lifecycle.py and views.py.
pub mod Mapping
pub mod Offers
mod Examples
use worktree_review.Base.{ℕ, String, Bool, Option, Eq}
use worktree_review.Core.Report.{GateState}

pub data RunStatus : Type 0 where
  queued preparing running completed failed interrupted : RunStatus

pub data ViewGateState : Type 0 where
  awaiting_review in_progress passed passed_with_bypass blocked error : ViewGateState

pub data Authority : Type 0 where
  local_non_authoritative authoritative superseded audit_only : Authority

pub data PublicationStatus : Type 0 where
  not_applicable queued in_progress published failed superseded : PublicationStatus

pub data BypassState : Type 0 where
  none active invalidated : BypassState

ViewGateState-discrete : Discrete ViewGateState
ViewGateState-discrete = hlevel

instance unfoldable pub view_gate_state_eq : Eq ViewGateState
unfolding ViewGateState-discrete
view_gate_state_eq = record { dec = ViewGateState-discrete }

Authority-discrete : Discrete Authority
Authority-discrete = hlevel

instance unfoldable pub authority_eq : Eq Authority
unfolding Authority-discrete
authority_eq = record { dec = Authority-discrete }

PublicationStatus-discrete : Discrete PublicationStatus
PublicationStatus-discrete = hlevel

instance unfoldable pub publication_status_eq : Eq PublicationStatus
unfolding PublicationStatus-discrete
publication_status_eq = record { dec = PublicationStatus-discrete }

-- `project_gate_state`, by the table `CORE_GATE_TO_VIEW`.
unfoldable pub project_gate_state : GateState → ViewGateState
project_gate_state GateState.awaiting_review = ViewGateState.awaiting_review
project_gate_state GateState.in_progress = ViewGateState.in_progress
project_gate_state GateState.passed = ViewGateState.passed
project_gate_state GateState.passed_with_bypass = ViewGateState.passed_with_bypass
project_gate_state GateState.blocked = ViewGateState.blocked
project_gate_state GateState.error = ViewGateState.error

pub record ReviewActionCapabilityView : Type 0 where
  pub visible : Bool
  pub enabled : Bool
  pub disabled_reason : Option String

pub record AvailableReviewActionsView : Type 0 where
  pub retry : ReviewActionCapabilityView
  pub bypass : ReviewActionCapabilityView
  pub open_check : ReviewActionCapabilityView
  pub open_session_insight : ReviewActionCapabilityView

-- The `kind` of a local source.
pub data LocalKind : Type 0 where
  local_worktree local_recent_commits local_committed_ref : LocalKind

pub record LocalReviewSourceView : Type 0 where
  pub kind : LocalKind
  pub repository_display_name : String
  pub worktree_label : Option String
  pub target_ref : Option String
  pub proposed_ref : Option String
  pub snapshot_sha : Option String

pub record GitHubPullRequestSourceView : Type 0 where
  pub repository_full_name : String
  pub pull_request_number : ℕ
  pub pull_request_title : String
  pub author_login : String
  pub proposed_branch : String
  pub target_branch : String
  pub commit_sha : String
  pub check_url : Option String

-- The union of the two, told apart by `kind`.
pub data ReviewSourceView : Type 0 where
  local_source : LocalReviewSourceView → ReviewSourceView
  github_source : GitHubPullRequestSourceView → ReviewSourceView

pub record SurfaceProjection : Type 0 where
  pub source : ReviewSourceView
  pub run_status : RunStatus
  pub authority : Authority
  pub publication_status : PublicationStatus
  pub bypass_state : BypassState
  pub session_insight_connected : Bool
  pub github_actor_authenticated : Bool
  pub bypass_preconditions_met : Bool

pub record ReviewRunView : Type 0 where
  pub attempt_id : String
  pub run_status : RunStatus
  pub gate_state : ViewGateState
  pub authority : Authority
  pub publication_status : PublicationStatus
  pub bypass_state : BypassState
  pub source : ReviewSourceView
  pub summary : String
  pub error_detail : Option String
  pub available_actions : AvailableReviewActionsView
