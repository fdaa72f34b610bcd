-- ===== src/Platform/Retry.antt =====
-- `GitHubRetryCoordinator.request_retry` of src/worktree_review/platform/github/retry.py, over the
-- store. The authorizer, the resolver and the two callbacks are parameters, as are the new
-- identifier and the wall clock that the store would take.
pub mod Authority
use worktree_review.Base.{
  ℕ, String, Bool, true, false, not, Option, none, some, ◌==◌, string_eq, option_eq, if◌then◌else◌,
}
use worktree_review.Base.Exec.{Exec, Result, ok, err, continue, ◌>>=◌, ◌>>◌}
use worktree_review.Core.Identity.{ReviewRequestKey}
use worktree_review.Server.Json.{Json, Fields, str, opt_str, obj, end, field}
use worktree_review.Server.State.{AttemptLease, ChangeRequestState, Store, Error, Env, Locator}
use worktree_review.Server.State.Attempts.{get_delivery_attempt, start_authoritative_attempt}
use worktree_review.Server.State.Audit.{append_audit_event}
use worktree_review.Server.State.Standing.{get_change_request_state}

pub record RetryRequest : Type 0 where
  pub change_request : Locator
  pub actor : String
  pub reason : String
  pub prior_attempt_id : Option String
  pub delivery_id : Option String

pub record RetryAccepted : Type 0 where
  pub lease : AttemptLease
  pub actor : String
  pub reason : String
  pub replayed : Bool

-- `RetryAuthorizationError`, the two `StateConflictError`s of the coordinator, what the store
-- raises, and what the enqueuer raised.
pub data RetryError : Type 0 where
  not_authorized : RetryError
  no_current_attempt : RetryError
  no_longer_authoritative : RetryError
  store_error : Error → RetryError
  enqueue_failed : RetryError

-- The enqueuer gives the `safe_error_payload` of its exception where it raises.
pub record Coordinator : Type 0 where
  pub may_retry : Locator → String → Bool
  pub resolve_current_request : Locator → ReviewRequestKey
  pub enqueue_attempt : Option {0} (AttemptLease → Result Fields Unit)
  pub prepare_queued_attempt : Option {0} (AttemptLease → Exec Store RetryError Unit)

abbrev pub lifted : {A : Type 0} → Result Error A → Result RetryError A
lifted (ok a) = ok a
lifted (err e) = err (store_error e)

abbrev pub in_store : {A : Type 0} → Exec Store Error A → Exec Store RetryError A
in_store m s = let (r, t) = m s in (lifted r, t)

abbrev pub accepted : RetryRequest → Bool → AttemptLease → RetryAccepted
accepted request replayed lease = record {
  lease = lease;
  actor = request.actor;
  reason = request.reason;
  replayed = replayed;
}

-- `request_key.model_dump(mode="json")`
unfoldable pub request_key_json : ReviewRequestKey → Json
request_key_json key = obj (
    field "source_repository" (str key.source_repository) (
      field "target_ref" (str key.target_ref) (
        field "target_head_oid" (str key.target_head_oid) (
          field "proposed_head_oid" (str key.proposed_head_oid) (
            field "review_policy_version"
              (obj (
                field "semver" (str key.review_policy_version.semver)
                  (field "sha256" (str key.review_policy_version.sha256) end)))
              end)))))

-- `retry_request.prior_attempt_id or current_state.authoritative_attempt_id`
abbrev pub or_else : Option String → Option String → Option String
or_else none b = b
or_else (some a) b = some a

module _ (env : Env) (coordinator : Coordinator) (uuid : String) (wall_now : ℕ) where
  abbrev pub audit : RetryRequest → String → Option String → Fields → Exec Store RetryError Unit
  audit request event_type attempt_id payload = in_store (
      append_audit_event env event_type request.change_request attempt_id payload none
        (some request.actor))

  unfoldable pub prepare : AttemptLease → Exec Store RetryError Unit
  prepare lease s = elim coordinator.prepare_queued_attempt [
    | none ↦ (ok tt, s)
    | some callback ↦ callback lease s
  ]

  unfoldable pub enqueue : RetryRequest → AttemptLease → Exec Store RetryError Unit
  enqueue request lease s = elim coordinator.enqueue_attempt [
    | none ↦ (ok tt, s)
    | some callback ↦ elim (callback lease) [
      | ok done ↦ (ok tt, s)
      | err payload ↦
          (do
            audit request "retry_enqueue_failed" (some lease.attempt_id) payload
            λ t. (err enqueue_failed, t))
            s
    ]
  ]

  -- Once the new Attempt has started.
  unfoldable pub announce :
      RetryRequest → String → AttemptLease → Exec Store RetryError RetryAccepted
  unfolding prepare enqueue
  announce request prior lease s =
      if lease.delivery_replayed
      then (ok (accepted request true lease), s)
      else (do
        audit request "retry_authorized" (some lease.attempt_id) (
            field "reason" (str request.reason) (
              field "prior_attempt_id" (str prior) (
                field "delivery_id" (opt_str request.delivery_id) (
                  field "request_key"
                    (request_key_json (coordinator.resolve_current_request request.change_request))
                    end))))
        prepare lease
        enqueue request lease
        λ t. (ok (accepted request false lease), t))
          s

  unfoldable pub start_retry : RetryRequest → String → Exec Store RetryError RetryAccepted
  unfolding announce
  start_retry request prior =
      in_store (
        start_authoritative_attempt env uuid wall_now request.change_request
          (coordinator.resolve_current_request request.change_request) (some prior)
          request.delivery_id)
      >>= announce request prior

  unfoldable pub retry_from :
      RetryRequest → ChangeRequestState → Exec Store RetryError RetryAccepted
  unfolding start_retry
  retry_from request current s =
      elim (or_else request.prior_attempt_id current.authoritative_attempt_id) [
        | none ↦ (err no_current_attempt, s)
        | some prior ↦
            if not (current.authoritative_attempt_id == some prior)
            then (err no_longer_authoritative, s)
            else start_retry request prior s
      ]

  -- Past the earlier deliveries.
  unfoldable pub authorize_retry : RetryRequest → Exec Store RetryError RetryAccepted
  unfolding retry_from
  authorize_retry request s =
      if not (coordinator.may_retry request.change_request request.actor)
      then (do
        audit request "retry_denied" request.prior_attempt_id
            (field "reason" (str request.reason) end)
        λ t. (err not_authorized, t))
          s
      else retry_from request (get_change_request_state s request.change_request) s

  unfoldable pub answer_delivery :
      RetryRequest → Option AttemptLease → Exec Store RetryError RetryAccepted
  unfolding authorize_retry
  answer_delivery request none s = authorize_retry request s
  answer_delivery request (some lease) s = (ok (accepted request true lease), s)

  unfoldable pub deliver_retry : RetryRequest → Option String → Exec Store RetryError RetryAccepted
  unfolding answer_delivery
  deliver_retry request none = authorize_retry request
  deliver_retry request (some id) =
      in_store (get_delivery_attempt request.change_request.installation_id id)
      >>= answer_delivery request

  unfoldable pub request_retry : RetryRequest → Exec Store RetryError RetryAccepted
  unfolding deliver_retry
  request_retry request = deliver_retry request request.delivery_id
