-- ===== src/Server/State/Publish/Decision.antt =====
-- The outcome of `publish_if_authoritative` of src/worktree_review/server/state.py.
use worktree_review.Base.{
  ◌+◌, String, Bool, true, Option, none, some, string_eq, option_eq, ◌≡◌, ◌≢◌, arith,
}
use worktree_review.Base.Dict.{get, get-put_self}
use worktree_review.Base.Exec.{Result, ok}
use worktree_review.Core.Identity.{
  ReviewRequestKey, ReviewIdentity, request_key_eq, review_identity_eq,
}
use worktree_review.Core.Report.{GateState, gate_state_eq}
use worktree_review.Server.State.{
  Attempt, ChangeRequest, PublishDisposition, PublishResult, Store, Error, Env, locator_eq,
}
use worktree_review.Server.State.Audit.{record_audit_event}
use worktree_review.Server.State.Publish.{
  inputs_match, complete_job, publish_again, publish_superseded, publish_standing,
  publish_by_status, publish_if_authoritative,
}

-- The authority of a row, its standing Attempt and gate.
abbrev pub decision_of : Option ChangeRequest → Option (String × Option String × Option GateState)
decision_of none = none
decision_of (some c) =
    some (c.authoritative_attempt_id, c.standing_attempt_id, c.standing_gate_state)

inputs_match-row :
    (id : String) (key : ReviewRequestKey) (identity : Option ReviewIdentity) (a : Attempt)
    (c : ChangeRequest)
    → inputs_match id key identity a c ≡ true
    → (c.authoritative_attempt_id ≡ id) × (c.request_key ≡ key)
unfolding inputs_match
inputs_match-row id key identity a c h = (ground (arith, h), ground (arith, h))

module _ (env : Env) (s : Store) (id : String) (gate : GateState) (matches : Bool) (a : Attempt)
    (c : ChangeRequest) (row : get s.change_requests a.change_request ≡ some c) where
  abbrev outcome : Result Error PublishResult × Store
  outcome = publish_by_status env id gate matches a c s

  abbrev decided : ChangeRequest
  decided = record c {
    standing_attempt_id = some id;
    standing_gate_state = some gate;
    standing_revision = c.standing_revision + 1;
  }

  published_by :
      (r : PublishResult)
      → outcome.0 ≡ ok r
      → r.disposition ≡ PublishDisposition.published
      → (matches ≡ true)
        × (r.gate_state ≡ some gate)
        × (decision_of (get outcome.1.change_requests a.change_request)
            ≡ some (c.authoritative_attempt_id, some id, some gate))
  unfolding publish_by_status publish_again publish_superseded publish_standing complete_job
      record_audit_event
  published_by r p d = (
    ground (arith, p, d),
    ground (arith, p, d),
    ground (arith, p, d, row, get-put_self s.change_requests a.change_request decided),
  )

module _ (env : Env) (s : Store) (id : String) (key : ReviewRequestKey)
    (identity : Option ReviewIdentity) (gate : GateState) (a : Attempt) (c : ChangeRequest)
    (found : get s.attempts id ≡ some a)
    (row : get s.change_requests a.change_request ≡ some c) where
  abbrev after : Result Error PublishResult × Store
  after = publish_if_authoritative env id key identity gate s

  by_status : after ≡ publish_by_status env id gate (inputs_match id key identity a c) a c s
  unfolding publish_if_authoritative
  by_status = rw (found, row, publish_if_authoritative)

  -- An Attempt that is not authoritative any more leaves every change request and every bypass as
  -- it was, and is never reported as published.
  pub lost_attempt_never_stands :
      c.authoritative_attempt_id ≢ id
      → (after.1.change_requests ≡ s.change_requests)
        × (after.1.bypasses ≡ s.bypasses)
        × ((r : PublishResult) → after.0 ≡ ok r → r.disposition ≡ PublishDisposition.superseded)
  unfolding publish_by_status publish_again publish_superseded complete_job record_audit_event
      inputs_match
  lost_attempt_never_stands lost =
      let e = by_status in
      (ground (arith, e, lost), ground (arith, e, lost), λ r p. ground (arith, e, lost, p))

  -- When the Attempt is reported as published, it was authoritative for the given request key, and
  -- the decision that stands afterwards is its own, with the given gate state.
  pub published_stands :
      (r : PublishResult)
      → after.0 ≡ ok r
      → r.disposition ≡ PublishDisposition.published
      → (c.authoritative_attempt_id ≡ id)
        × (c.request_key ≡ key)
        × (r.gate_state ≡ some gate)
        × (decision_of (get after.1.change_requests a.change_request)
            ≡ some (id, some id, some gate))
  published_stands r p d =
      let q =
        published_by env s id gate (inputs_match id key identity a c) a c row r (rw by_status at p)
          d in
      let m = inputs_match-row id key identity a c q.0 in
      (m.0, m.1, q.1, rw by_status (ground (arith, m, q.2)))
