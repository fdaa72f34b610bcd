-- ===== src/Server/State/CheckSync.antt =====
-- The standing Check synchronisation of src/worktree_review/server/state.py:
-- `claim_standing_check_sync`, `mark_standing_check_sync`, `list_pending_standing_check_syncs`,
-- `latest_standing_check_sync` and `_latest_check_sync_status_locked`.
pub mod Newest
use mathlib.Core.Option.{get_or}
use worktree_review.Base.{
  ℕ, ◌+◌, String, Bool, true, false, Option, none, some, List, [], ◌∷◌, filter_by, max_by, min_by,
  ltb, leb, ◌==◌, nat_eq, string_eq, option_eq, if◌then◌else◌,
}
use worktree_review.Base.Dict.{Dict, get, put, values}
use worktree_review.Server.State.{CheckSyncStatus, CheckIntent, Store, ticked, now}
use worktree_review.Server.State.Standing.{is_pending}

-- `at is None or at <= now`
abbrev pub is_due : Option ℕ → ℕ → Bool
is_due none at = true
is_due (some due) at = leb due at

-- `lease is not None and lease <= now`
abbrev pub has_expired : Option ℕ → ℕ → Bool
has_expired none at = false
has_expired (some lease) at = leb lease at

-- `claimable or expired_lease`
unfoldable pub is_candidate : ℕ → CheckIntent → Bool
is_candidate at intent = elim intent.status [
  | CheckSyncStatus.queued ↦ is_due intent.next_retry_at at
  | CheckSyncStatus.in_progress ↦ has_expired intent.lease_expires_at at
  | _ ↦ false
]

-- `{intent.attempt_id: intent.standing_revision for intent in candidates}`
unfoldable pub revisions : List CheckIntent → Dict String ℕ → Dict String ℕ
revisions [] newest = newest
revisions (intent ∷ rest) newest =
    revisions rest (put newest intent.attempt_id intent.standing_revision)

-- `max(newest, revision)`
abbrev pub max_ℕ : ℕ → ℕ → ℕ
max_ℕ a b = if ltb a b then b else a

-- The loop that raises each entry to the newest pending revision.
unfoldable pub raise_revisions : List CheckIntent → Dict String ℕ → Dict String ℕ
raise_revisions [] newest = newest
raise_revisions (intent ∷ rest) newest = raise_revisions rest (
    if is_pending intent.status
    then put newest intent.attempt_id
        (max_ℕ (get_or (get newest intent.attempt_id) 0) intent.standing_revision)
    else newest)

unfoldable pub newest_revisions : ℕ → List CheckIntent → Dict String ℕ
unfolding revisions raise_revisions
newest_revisions at intents =
    raise_revisions intents (revisions (filter_by (is_candidate at) intents) [])

-- The candidates of the newest revision. Each candidate has an entry in the dictionary.
unfoldable pub deliverable : ℕ → List CheckIntent → List CheckIntent
unfolding newest_revisions
deliverable at intents =
    filter_by
      (λ intent.
        get (newest_revisions at intents) intent.attempt_id == some intent.standing_revision)
      (filter_by (is_candidate at) intents)

unfoldable pub claim_intent : ℕ → ℕ → CheckIntent → CheckIntent
claim_intent at lease_seconds intent = record intent {
  status = CheckSyncStatus.in_progress;
  attempt_count = intent.attempt_count + 1;
  lease_expires_at = some (at + lease_seconds);
  updated_at = at;
}

unfoldable pub claim_first : ℕ → ℕ → List CheckIntent → Store → Option CheckIntent × Store
unfolding claim_intent
claim_first at lease_seconds [] s = (none, s)
claim_first at lease_seconds (intent ∷ rest) s =
    let chosen = min_by (λ (i : CheckIntent). i.intent_id) intent rest in
    let claimed = claim_intent at lease_seconds chosen in
    (
      some claimed,
      record s { standing_check_intents = put s.standing_check_intents chosen.intent_id claimed },
    )

unfoldable pub claim_standing_check_sync : ℕ → ℕ → Store → Option CheckIntent × Store
claim_standing_check_sync at lease_seconds s =
    claim_first at lease_seconds (deliverable at (values s.standing_check_intents)) s

unfoldable pub mark_standing_check_sync :
    ℕ → CheckSyncStatus → Option String → Option ℕ → Store → Store
mark_standing_check_sync intent_id status last_error next_retry_at s =
    elim (get s.standing_check_intents intent_id) [
      | none ↦ s
      | some intent ↦ record (ticked s) {
        standing_check_intents = put s.standing_check_intents intent_id (record intent {
          status = status;
          last_error = last_error;
          next_retry_at = next_retry_at;
          lease_expires_at = none;
          updated_at = now s;
        });
      }
    ]

unfoldable pub list_pending_standing_check_syncs : ℕ → Store → List CheckIntent
list_pending_standing_check_syncs at s =
    filter_by (is_candidate at) (values s.standing_check_intents)

abbrev pub latest : List CheckIntent → Option CheckIntent
latest [] = none
latest (intent ∷ rest) = some (max_by (λ (i : CheckIntent). i.standing_revision) intent rest)

unfoldable pub latest_standing_check_sync : String → Store → Option CheckIntent
latest_standing_check_sync attempt_id s =
    latest (filter_by (λ intent. intent.attempt_id == attempt_id) (values s.standing_check_intents))

-- `_latest_check_sync_status_locked`
unfoldable pub latest_check_sync_status : String → Store → CheckSyncStatus
unfolding latest_standing_check_sync
latest_check_sync_status attempt_id s = elim (latest_standing_check_sync attempt_id s) [
  | none ↦ CheckSyncStatus.not_applicable
  | some intent ↦ intent.status
]
