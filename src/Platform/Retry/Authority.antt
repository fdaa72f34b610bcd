-- ===== src/Platform/Retry/Authority.antt =====
-- Retries that src/worktree_review/platform/github/retry.py does not grant.
use worktree_review.Base.{ℕ, String, true, false, some, string_eq, option_eq, ◌≡◌, ◌≢◌, arith}
use worktree_review.Base.Exec.{Result, ok}
use worktree_review.Base.Dict.{get}
use worktree_review.Server.State.{Store, Env, locator_eq}
use worktree_review.Server.State.Audit.{append_audit_event, record_audit_event}
use worktree_review.Server.State.Attempts.{authority, get_delivery_attempt}
use worktree_review.Server.State.Standing.{change_request_state, get_change_request_state}
use worktree_review.Platform.Retry.{
  RetryRequest, RetryAccepted, RetryError, Coordinator, retry_from, authorize_retry,
  answer_delivery, deliver_retry, request_retry,
}

module _ (env : Env) (coordinator : Coordinator) (uuid : String) (wall_now : ℕ)
    (request : RetryRequest) (s : Store) where
  abbrev after : Result RetryError RetryAccepted × Store
  after = request_retry env coordinator uuid wall_now request s

  -- A retry of an actor who is not authorized starts nothing: apart from the answer to a delivery
  -- that was seen before, it fails, and change requests, Attempts, jobs and bypasses stay.
  pub denied_retry_starts_nothing :
      coordinator.may_retry request.change_request request.actor ≡ false
      → (after.1.change_requests ≡ s.change_requests)
        × (after.1.attempts ≡ s.attempts)
        × (after.1.jobs ≡ s.jobs)
        × (after.1.bypasses ≡ s.bypasses)
        × ((r : RetryAccepted) → after.0 ≡ ok r → r.replayed ≡ true)
  unfolding request_retry deliver_retry answer_delivery authorize_retry get_delivery_attempt
      append_audit_event record_audit_event
  denied_retry_starts_nothing d = (
    ground (arith, d),
    ground (arith, d),
    ground (arith, d),
    ground (arith, d),
    λ r p. ground (arith, d, p),
  )

  -- A retry that targets an Attempt which is not the authoritative one changes no change request,
  -- no Attempt, no job and no bypass.
  pub stale_retry_starts_nothing :
      (prior : String)
      → request.prior_attempt_id ≡ some prior
      → authority (get s.change_requests request.change_request) ≢ some prior
      → (after.1.change_requests ≡ s.change_requests)
        × (after.1.attempts ≡ s.attempts)
        × (after.1.jobs ≡ s.jobs)
        × (after.1.bypasses ≡ s.bypasses)
  unfolding request_retry deliver_retry answer_delivery authorize_retry retry_from
      get_change_request_state change_request_state get_delivery_attempt append_audit_event
      record_audit_event
  stale_retry_starts_nothing prior p n =
      (ground (arith, p, n), ground (arith, p, n), ground (arith, p, n), ground (arith, p, n))
