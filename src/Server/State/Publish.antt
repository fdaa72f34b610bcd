-- ===== src/Server/State/Publish.antt =====
-- `publish_if_authoritative` of src/worktree_review/server/state.py: the compare-and-set of stage 9.
pub mod Decision
use worktree_review.Base.{
  ◌+◌, String, Bool, not, ◌&&◌, ◌||◌, Option, none, some, ◌==◌, string_eq, option_eq, if◌then◌else◌,
}
use worktree_review.Base.Dict.{get, put}
use worktree_review.Base.Exec.{Exec, ok, err, ◌>>◌}
use worktree_review.Core.Identity.{
  ReviewRequestKey, ReviewIdentity, request_key_eq, review_identity_eq,
}
use worktree_review.Core.Report.{GateState, gate_state_eq, gate_value}
use worktree_review.Server.Json.{str, end, field}
use worktree_review.Server.State.{
  AttemptStatus, JobStatus, PublishDisposition, PublishResult, Attempt, ChangeRequest, Store, Error,
  conflict, missing_key, unknown_attempt, no_longer_standing, no_standing_gate, other_gate,
  not_running, Env, locator_eq, ticked, now,
}
use worktree_review.Server.State.Attempts.{identity_matches_key}
use worktree_review.Server.State.Audit.{record_audit_event}
use worktree_review.Server.State.Jobs.{is_terminal, set_job, set_attempt}

-- `identity_matches`, with its second conjunct where an identity is given.
unfoldable pub identity_matches : Option ReviewIdentity → Attempt → ReviewRequestKey → Bool
identity_matches none attempt key = none == attempt.review_identity
identity_matches (some identity) attempt key =
    some identity == attempt.review_identity && identity_matches_key identity key

-- `publication_inputs_match`
unfoldable pub inputs_match :
    String → ReviewRequestKey → Option ReviewIdentity → Attempt → ChangeRequest → Bool
unfolding identity_matches
inputs_match attempt_id key identity attempt c =
    c.authoritative_attempt_id == attempt_id
    && (c.request_key == key && attempt.request_key == key)
    && identity_matches identity attempt key

-- `if job is not None and job.status in (QUEUED, RUNNING, RETRYABLE): ...`
unfoldable pub complete_job : String → Store → Store
complete_job attempt_id s = elim (get s.jobs attempt_id) [
  | none ↦ s
  | some job ↦
      if is_terminal job.status
      then s
      else set_job attempt_id (record job { status = JobStatus.completed; updated_at = now s })
          (ticked s)
]

abbrev pub superseded_result : String → PublishResult
superseded_result attempt_id = record {
  disposition = PublishDisposition.superseded;
  attempt_id = attempt_id;
  gate_state = none;
  detail = "Attempt was superseded before publication";
}

abbrev pub published_result : String → GateState → String → PublishResult
published_result attempt_id gate detail = record {
  disposition = PublishDisposition.published;
  attempt_id = attempt_id;
  gate_state = some gate;
  detail = detail;
}

-- The Attempt was published before: the same call again, or a conflict.
unfoldable pub publish_again :
    String → GateState → Bool → ChangeRequest → Exec Store Error PublishResult
publish_again attempt_id gate matches c s =
    if not matches || not (c.standing_attempt_id == some attempt_id)
    then (err (conflict no_longer_standing), s)
    else elim c.standing_gate_state [
      | none ↦ (err (conflict no_standing_gate), s)
      | some published ↦ if not (published == gate) then (err (conflict other_gate), s) else (
        ok (
            published_result attempt_id published
              "authoritative gate decision was already published"),
        s,
      )
    ]

module _ (env : Env) where
  unfoldable pub publish_superseded : String → Attempt → Exec Store Error PublishResult
  publish_superseded attempt_id attempt s =
      (do
        record_audit_event env "attempt_publish_superseded" attempt.change_request (some attempt_id)
            (field "detail" (str "Attempt was superseded before publication") end) none none
        λ t. (ok (superseded_result attempt_id), t))
        (complete_job attempt_id
          (set_attempt attempt_id (record attempt { status = AttemptStatus.audit_only }) s))

  unfoldable pub publish_standing :
      String → GateState → Attempt → ChangeRequest → Exec Store Error PublishResult
  publish_standing attempt_id gate attempt c s =
      let t =
        complete_job attempt_id
          (set_attempt attempt_id (record attempt { status = AttemptStatus.published }) s) in
      (do
        record_audit_event env "standing_decision_published" attempt.change_request
            (some attempt_id) (field "gate_state" (str (gate_value gate)) end) none none
        λ u. (ok (published_result attempt_id gate "authoritative gate decision published"), u))
        (record t {
          change_requests = put t.change_requests attempt.change_request (record c {
            standing_attempt_id = some attempt_id;
            standing_gate_state = some gate;
            standing_revision = c.standing_revision + 1;
          });
        })

  -- The branches on the Attempt's status, given whether the publication inputs match.
  unfoldable pub publish_by_status :
      String → GateState → Bool → Attempt → ChangeRequest → Exec Store Error PublishResult
  publish_by_status attempt_id gate matches attempt c s = elim attempt.status [
    | AttemptStatus.published ↦ publish_again attempt_id gate matches c s
    | AttemptStatus.running ↦
        if matches
        then publish_standing attempt_id gate attempt c s
        else publish_superseded attempt_id attempt s
    | AttemptStatus.audit_only ↦
        if matches then (err (conflict not_running), s) else (ok (superseded_result attempt_id), s)
    | _ ↦
        if matches then (err (conflict not_running), s) else publish_superseded attempt_id attempt s
  ]

  unfoldable pub publish_if_authoritative :
      String → ReviewRequestKey → Option ReviewIdentity → GateState → Exec Store Error PublishResult
  publish_if_authoritative attempt_id key identity gate s = elim (get s.attempts attempt_id) [
    | none ↦ (err (conflict unknown_attempt), s)
    | some attempt ↦ elim (get s.change_requests attempt.change_request) [
      | none ↦ (err missing_key, s)
      | some c ↦
          publish_by_status attempt_id gate (inputs_match attempt_id key identity attempt c) attempt
            c s
    ]
  ]
