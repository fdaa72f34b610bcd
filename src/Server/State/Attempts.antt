-- ===== src/Server/State/Attempts.antt =====
-- `start_authoritative_attempt`, `get_delivery_attempt` and `record_review_identity` of
-- src/worktree_review/server/state.py. What `uuid4()` returns and the `datetime.now(UTC)` of a new
-- job row are arguments.
pub mod Delivery
use worktree_review.Base.{
  ℕ, ◌+◌, String, Bool, true, false, not, ◌&&◌, Option, none, some, ◌==◌, nat_eq, string_eq,
  option_eq, pair_eq, if◌then◌else◌,
}
use worktree_review.Base.Dict.{get, put}
use worktree_review.Base.Exec.{Exec, ok, err, ◌>>◌}
use worktree_review.Core.Identity.{
  ReviewRequestKey, ReviewIdentity, policy_version_eq, review_identity_eq,
}
use worktree_review.Server.Json.{opt_str, end, field}
use worktree_review.Server.State.{
  Locator, AttemptStatus, JobStatus, AttemptLease, Attempt, Job, ChangeRequest, Store, Error,
  conflict, missing_key, empty_delivery_id, retry_target_moved, unknown_attempt, identity_mismatch,
  identity_immutable, Env, locator_eq,
}
use worktree_review.Server.State.Audit.{record_audit_event}
use worktree_review.Server.State.Standing.{invalidate_bypasses, supersede_check_intents}

-- `attempt_lease.model_copy(update={"delivery_replayed": True})`
abbrev pub replayed : AttemptLease → AttemptLease
replayed lease = record lease { delivery_replayed = true }

-- An empty delivery ID is refused by `_delivery_key`.
unfoldable pub get_delivery_attempt : ℕ → String → Exec Store Error (Option AttemptLease)
get_delivery_attempt installation_id delivery_id s =
    if delivery_id == "" then (err (conflict empty_delivery_id), s) else (
      ok (elim (get s.delivery_attempts (installation_id, delivery_id)) [
        | none ↦ none
        | some lease ↦ some (replayed lease)
      ]),
      s,
    )

-- `_review_identity_matches_request_key`
unfoldable pub identity_matches_key : ReviewIdentity → ReviewRequestKey → Bool
identity_matches_key identity key =
    candidate.source_repository == key.source_repository
    && candidate.target_ref == key.target_ref
    && candidate.target_head_oid == key.target_head_oid
    && candidate.proposed_head_oid == key.proposed_head_oid
    && identity.review_policy_version == key.review_policy_version
  where
    open identity use {candidate}

-- `if prior_job is not None and prior_job.status is JobStatus.QUEUED: ...`
unfoldable pub supersede_queued_job : String → Option Job → Store → Store
supersede_queued_job attempt_id none s = s
supersede_queued_job attempt_id (some job) s = elim job.status [
  | JobStatus.queued ↦ record s {
    jobs = put s.jobs attempt_id (record job { status = JobStatus.superseded });
  }
  | _ ↦ s
]

unfoldable pub supersede_rows : String → Attempt → Store → Store
unfolding supersede_queued_job
supersede_rows attempt_id attempt s =
    supersede_queued_job attempt_id (get s.jobs attempt_id) (record s {
      attempts = put s.attempts attempt_id (record attempt { status = AttemptStatus.superseded });
    })

-- `if delivery_key is not None: self._delivery_attempts[delivery_key] = attempt_lease`
unfoldable pub remember_delivery : Option String → AttemptLease → Store → Store
remember_delivery none lease s = s
remember_delivery (some delivery_id) lease s = record s {
  delivery_attempts =
      put s.delivery_attempts (lease.change_request.installation_id, delivery_id) lease;
}

-- Losing the prior standing decision is itself a revision.
abbrev pub next_revision : Option ChangeRequest → ℕ
next_revision none = 0
next_revision (some c) = c.standing_revision + 1

abbrev pub authority : Option ChangeRequest → Option String
authority none = none
authority (some c) = some c.authoritative_attempt_id

-- `expected is not None and prior != expected`
abbrev pub moved : Option String → Option String → Bool
moved none prior = false
moved (some expected) prior = not (prior == some expected)

-- The rows of the new Attempt: its change request, itself, its job.
unfoldable pub new_rows :
    String → ℕ → Locator → ReviewRequestKey → Option ChangeRequest → Store → Store
new_rows uuid wall_now change_request request_key current s = record s {
  change_requests = put s.change_requests change_request (record {
    change_request = change_request;
    request_key = request_key;
    authoritative_attempt_id = uuid;
    standing_attempt_id = none;
    standing_gate_state = none;
    standing_revision = next_revision current;
  });
  attempts = put s.attempts uuid (record {
    attempt_id = uuid;
    change_request = change_request;
    request_key = request_key;
    status = AttemptStatus.queued;
    review_identity = none;
  });
  jobs = put s.jobs uuid (record {
    attempt_id = uuid;
    status = JobStatus.queued;
    retry_count = 0;
    updated_at = wall_now;
    last_error = none;
  });
}

unfoldable pub new_lease : String → Locator → ReviewRequestKey → Option String → AttemptLease
new_lease uuid change_request request_key prior = record {
  attempt_id = uuid;
  change_request = change_request;
  request_key = request_key;
  prior_authoritative_attempt_id = prior;
  delivery_replayed = false;
  lease_recovered = false;
}

module _ (env : Env) where
  -- What happens to the Attempt that loses its authority.
  unfoldable pub supersede_prior : Locator → Option String → Exec Store Error Unit
  supersede_prior change_request none s = (ok tt, s)
  supersede_prior change_request (some prior) s = elim (get s.attempts prior) [
    | none ↦ (err missing_key, s)
    | some attempt ↦
        (do
          invalidate_bypasses env change_request
              "new authoritative Attempt superseded the standing decision"
          λ t. (ok tt, supersede_check_intents prior t))
          (supersede_rows prior attempt s)
  ]

  -- `start_authoritative_attempt` once no earlier delivery answers it.
  unfoldable pub start_new :
      String
      → ℕ
      → Locator
      → ReviewRequestKey
      → Option String
      → Option String
      → Exec Store Error AttemptLease
  unfolding new_lease
  start_new uuid wall_now change_request request_key expected delivery_id s =
      let current = get s.change_requests change_request in
      let lease = new_lease uuid change_request request_key (authority current) in
      if moved expected (authority current)
      then (err (conflict retry_target_moved), s)
      else (do
        supersede_prior change_request (authority current)
        λ t.
            record_audit_event env "attempt_authoritative" change_request (some uuid)
              (field "prior_attempt_id" (opt_str (authority current))
                (field "delivery_id" (opt_str delivery_id) end))
              none none
              (remember_delivery delivery_id lease
                (new_rows uuid wall_now change_request request_key current t))
        λ t. (ok lease, t))
          s

  unfoldable pub start_authoritative_attempt :
      String
      → ℕ
      → Locator
      → ReviewRequestKey
      → Option String
      → Option String
      → Exec Store Error AttemptLease
  start_authoritative_attempt uuid wall_now change_request request_key expected none s =
      start_new uuid wall_now change_request request_key expected none s
  start_authoritative_attempt uuid wall_now change_request request_key expected (some delivery_id)
        s =
      if delivery_id == ""
      then (err (conflict empty_delivery_id), s)
      else elim (get s.delivery_attempts (change_request.installation_id, delivery_id)) [
        | some lease ↦ (ok (replayed lease), s)
        | none ↦ start_new uuid wall_now change_request request_key expected (some delivery_id) s
      ]

-- `identity is not None and identity != other`
abbrev pub differs : Option ReviewIdentity → ReviewIdentity → Bool
differs none identity = false
differs (some old) identity = not (old == identity)

unfoldable pub record_review_identity : String → ReviewIdentity → Exec Store Error Unit
record_review_identity attempt_id identity s = elim (get s.attempts attempt_id) [
  | none ↦ (err (conflict unknown_attempt), s)
  | some attempt ↦
      if not (identity_matches_key identity attempt.request_key)
      then (err (conflict identity_mismatch), s)
      else if differs attempt.review_identity identity
      then (err (conflict identity_immutable), s)
      else (
        ok tt,
        record s {
          attempts = put s.attempts attempt_id (record attempt { review_identity = some identity });
        },
      )
]
