-- ===== src/Platform/Examples.antt =====
-- Two retries that start nothing.
use worktree_review.Base.{Bool, true, false, none, some, ◌≡◌, ◌≢◌, refl, string_eq, nat_eq}
use worktree_review.Base.Dict.{get}
use worktree_review.Base.Exec.{Result, ok}
use worktree_review.Core.Identity.{ReviewRequestKey}
use worktree_review.Server.State.{Locator, Store, Env, locator_eq, new_store}
use worktree_review.Server.State.Attempts.{authority}
use worktree_review.Platform.Retry.{
  RetryRequest, RetryAccepted, RetryError, Coordinator, request_retry,
}
use worktree_review.Platform.Retry.Authority.{
  denied_retry_starts_nothing, stale_retry_starts_nothing,
}

abbrev env : Env
env = record { safe_payload = λ p. true; scrub_job_error = λ e. e }

abbrev cr : Locator
cr = record { installation_id = 1; repository = "o/r"; pull_request_number = 7 }

abbrev key : ReviewRequestKey
key = record {
  source_repository = "o/r";
  target_ref = "main";
  target_head_oid = "t1";
  proposed_head_oid = "p1";
  review_policy_version = record { semver = "1"; sha256 = "f0" };
}

abbrev coordinator : Bool → Coordinator
coordinator allowed = record {
  may_retry = λ c a. allowed;
  resolve_current_request = λ c. key;
  enqueue_attempt = none;
  prepare_queued_attempt = none;
}

abbrev store : Store
store = new_store (λ n. n) 60

abbrev request : RetryRequest
request = record {
  change_request = cr;
  actor = "visitor";
  reason = "again";
  prior_attempt_id = some "a1";
  delivery_id = some "d1";
}

abbrev denied : Result RetryError RetryAccepted × Store
denied = request_retry env (coordinator false) "a2" 0 request store

denied_retry_starts_nothing_example :
    (denied.1.change_requests ≡ store.change_requests)
    × (denied.1.attempts ≡ store.attempts)
    × (denied.1.jobs ≡ store.jobs)
    × (denied.1.bypasses ≡ store.bypasses)
    × ((r : RetryAccepted) → denied.0 ≡ ok r → r.replayed ≡ true)
denied_retry_starts_nothing_example =
    denied_retry_starts_nothing env (coordinator false) "a2" 0 request store refl

no-authority : authority (get store.change_requests cr) ≢ some "a1"
unfolding get
no-authority h = cc

abbrev stale : Result RetryError RetryAccepted × Store
stale = request_retry env (coordinator true) "a2" 0 request store

stale_retry_starts_nothing_example :
    (stale.1.change_requests ≡ store.change_requests)
    × (stale.1.attempts ≡ store.attempts)
    × (stale.1.jobs ≡ store.jobs)
    × (stale.1.bypasses ≡ store.bypasses)
stale_retry_starts_nothing_example =
    stale_retry_starts_nothing env (coordinator true) "a2" 0 request store "a1" refl no-authority
