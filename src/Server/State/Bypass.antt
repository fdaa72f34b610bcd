-- ===== src/Server/State/Bypass.antt =====
-- `apply_finding_bypass`, `_active_bypass_fingerprints` and `list_bypasses` of
-- src/worktree_review/server/state.py.
pub mod Coverage
use worktree_review.Base.{
  ℕ, ◌+◌, String, Bool, true, false, not, ◌&&◌, ◌||◌, Option, none, some, List, [], ◌∷◌, map,
  length, filter_by, contains, leb, ◌==◌, nat_eq, string_eq, option_eq, pair_eq, if◌then◌else◌,
}
use worktree_review.Base.Dict.{get, put, values}
use worktree_review.Base.Exec.{Exec, ok, err, ◌>>◌}
use worktree_review.Core.Identity.{ReviewIdentity, review_identity_eq}
use worktree_review.Core.Report.{GateState, blocked, passed_with_bypass, gate_state_eq, gate_value}
use worktree_review.Server.Json.{Fields, null, num, str, end, field}
use worktree_review.Server.State.{
  Locator, BypassStatus, CheckSyncStatus, BypassRecord, BypassApplyResult, Attempt, ChangeRequest,
  Store, Error, conflict, invalid_record, unknown_attempt, no_change_request, not_current_standing,
  identity_changed, other_bypass, not_blocked, Env, locator_eq, ticked, now,
}
use worktree_review.Server.State.Audit.{record_audit_event, positive_or_absent}
use worktree_review.Server.State.CheckSync.{latest_check_sync_status}
use worktree_review.Server.State.Standing.{is_active, enqueue_check_intent}

-- The arguments of `apply_finding_bypass`.
pub record BypassCall : Type 0 where
  pub change_request : Locator
  pub attempt_id : String
  pub finding_fingerprint : String
  pub actor_id : Option ℕ
  pub actor_login : String
  pub reason : String
  pub review_identity : ReviewIdentity
  pub review_policy_sha256 : String
  pub blocking_fingerprints : List String
  pub risk_snapshot : Fields
  pub risk_digest : String
  pub check_run_id : Option ℕ

-- `CheckSyncStatus.value`
pub check_sync_value : CheckSyncStatus → String
check_sync_value CheckSyncStatus.queued = "queued"
check_sync_value CheckSyncStatus.in_progress = "in_progress"
check_sync_value CheckSyncStatus.published = "published"
check_sync_value CheckSyncStatus.failed = "failed"
check_sync_value CheckSyncStatus.superseded = "superseded"
check_sync_value CheckSyncStatus.not_applicable = "not_applicable"

unfoldable pub active_bypass_fingerprints : String → Store → List String
active_bypass_fingerprints attempt_id s =
    map (λ r. r.finding_fingerprint)
      (filter_by (λ r. r.attempt_id == attempt_id && is_active r.status) (values s.bypasses))

-- The blocking fingerprints that no active bypass covers.
unfoldable pub remaining : List String → List String → List String
remaining blocking active = filter_by (λ fingerprint. not (contains active fingerprint)) blocking

unfoldable pub new_bypass : BypassCall → Store → BypassRecord
new_bypass call s = record {
  bypass_id = s.next_bypass_id;
  change_request = call.change_request;
  attempt_id = call.attempt_id;
  finding_fingerprint = call.finding_fingerprint;
  actor_id = call.actor_id;
  actor_login = call.actor_login;
  reason = call.reason;
  review_identity = call.review_identity;
  review_policy_sha256 = call.review_policy_sha256;
  risk_snapshot = call.risk_snapshot;
  risk_digest = call.risk_digest;
  status = BypassStatus.active;
  invalidation_reason = none;
  created_at = now s;
  invalidated_at = none;
}

-- The constraints of `BypassRecord` on what the caller gives.
unfoldable pub is_valid_call : BypassCall → Bool
is_valid_call call =
    not (call.attempt_id == "")
    && not (call.finding_fingerprint == "")
    && positive_or_absent call.actor_id
    && not (call.actor_login == "")
    && not (call.reason == "")
    && not (call.review_policy_sha256 == "")
    && not (call.risk_digest == "")

-- The same actor asks for the same bypass again.
unfoldable pub replay_bypass :
    BypassCall → ChangeRequest → BypassRecord → Exec Store Error BypassApplyResult
replay_bypass call c existing s =
    let active = active_bypass_fingerprints call.attempt_id s in
    if is_active existing.status
      && existing.actor_id == call.actor_id
      && existing.actor_login == call.actor_login
      && existing.reason == call.reason
    then (
      ok (record {
        bypass = existing;
        standing_gate_state = c.standing_gate_state;
        standing_revision = c.standing_revision;
        active_bypass_fingerprints = active;
        remaining_blocking_count = length (remaining call.blocking_fingerprints active);
        check_sync_status = latest_check_sync_status call.attempt_id s;
        gate_transitioned = false;
        replayed = true;
      }),
      s,
    )
    else (err (conflict other_bypass), s)

unfoldable pub check_payload : Option GateState → ℕ → ℕ → Fields
check_payload gate accepted left =
    field "standing_gate_state" (elim gate [ none ↦ null | some g ↦ str (gate_value g) ])
      (field "accepted_count" (num accepted) (field "remaining_blocking_count" (num left) end))

abbrev pub is_empty : List String → Bool
is_empty [] = true
is_empty (x ∷ xs) = false

abbrev pub gate_after : List String → Option GateState → Option GateState
gate_after left gate = if is_empty left then some passed_with_bypass else gate

abbrev pub set_change_request : Locator → ChangeRequest → Store → Store
set_change_request locator c s = record s { change_requests = put s.change_requests locator c }

module _ (env : Env) where
  -- `if not remaining: ...`: the row was already written by the caller's `set_change_request`.
  unfoldable pub audit_transition : BypassCall → List String → Exec Store Error Unit
  audit_transition call left s =
      if is_empty left
      then record_audit_event env "gate_transition" call.change_request (some call.attempt_id)
          (field "from" (str (gate_value blocked)) (
            field "to" (str (gate_value passed_with_bypass))
              (field "cause" (str "finding_bypass") end)))
          call.actor_id (some call.actor_login) s
      else (ok tt, s)

  -- The new revision, its check intent and its audit event.
  unfoldable pub sync_bypass :
      BypassCall
      → ChangeRequest
      → BypassRecord
      → List String
      → List String
      → Exec Store Error BypassApplyResult
  sync_bypass call c bypass active left s =
      let revised = record c { standing_revision = c.standing_revision + 1 } in
      let (sync_status, t) =
        enqueue_check_intent call.attempt_id revised.standing_revision call.check_run_id
          (check_payload c.standing_gate_state (length active) (length left))
          (set_change_request call.change_request revised s) in
      (do
        record_audit_event env "check_sync_queued" call.change_request (some call.attempt_id)
            (field "standing_revision" (num revised.standing_revision)
              (field "check_sync_status" (str (check_sync_value sync_status)) end))
            none none
        λ u. (
          ok (record {
            bypass = bypass;
            standing_gate_state = c.standing_gate_state;
            standing_revision = revised.standing_revision;
            active_bypass_fingerprints = active;
            remaining_blocking_count = length left;
            check_sync_status = sync_status;
            gate_transitioned = is_empty left;
            replayed = false;
          }),
          u,
        ))
        t

  unfoldable pub settle_bypass :
      BypassCall → ChangeRequest → BypassRecord → Exec Store Error BypassApplyResult
  settle_bypass call c bypass s =
      let active = active_bypass_fingerprints call.attempt_id s in
      let left = remaining call.blocking_fingerprints active in
      let settled = record c { standing_gate_state = gate_after left c.standing_gate_state } in
      (do audit_transition call left; sync_bypass call settled bypass active left)
        (set_change_request call.change_request settled s)

  unfoldable pub grant_bypass : BypassCall → ChangeRequest → Exec Store Error BypassApplyResult
  grant_bypass call c s =
      if not (is_valid_call call)
      then (err invalid_record, ticked s)
      else (do
        record_audit_event env "bypass_authorized" call.change_request (some call.attempt_id)
            (field "finding_fingerprint" (str call.finding_fingerprint)
              (field "reason" (str call.reason) (field "risk_digest" (str call.risk_digest) end)))
            call.actor_id (some call.actor_login)
        settle_bypass call c (new_bypass call s))
          (record (ticked s) {
            next_bypass_id = s.next_bypass_id + 1;
            bypasses =
                put s.bypasses (call.attempt_id, call.finding_fingerprint) (new_bypass call s);
          })

  unfoldable pub bypass_standing : BypassCall → ChangeRequest → Exec Store Error BypassApplyResult
  bypass_standing call c s = elim (get s.bypasses (call.attempt_id, call.finding_fingerprint)) [
    | some existing ↦ replay_bypass call c existing s
    | none ↦
        if not (c.standing_gate_state == some blocked)
        then (err (conflict not_blocked), s)
        else grant_bypass call c s
  ]

  unfoldable pub bypass_on :
      BypassCall → Attempt → ChangeRequest → Exec Store Error BypassApplyResult
  bypass_on call attempt c s =
      if not (c.authoritative_attempt_id == call.attempt_id)
        || not (c.standing_attempt_id == some call.attempt_id)
      then (err (conflict not_current_standing), s)
      else if not (attempt.review_identity == some call.review_identity)
      then (err (conflict identity_changed), s)
      else bypass_standing call c s

  unfoldable pub apply_finding_bypass : BypassCall → Exec Store Error BypassApplyResult
  apply_finding_bypass call s = elim (get s.attempts call.attempt_id) [
    | none ↦ (err (conflict unknown_attempt), s)
    | some attempt ↦
        if not (attempt.change_request == call.change_request)
        then (err (conflict unknown_attempt), s)
        else elim (get s.change_requests attempt.change_request) [
          | none ↦ (err (conflict no_change_request), s)
          | some c ↦ bypass_on call attempt c s
        ]
  ]

-- `sorted(records, key=lambda record: record.bypass_id)`: an insertion sort is as stable.
unfoldable pub insert_by_id : BypassRecord → List BypassRecord → List BypassRecord
insert_by_id r [] = r ∷ []
insert_by_id r (q ∷ rest) =
    let later = insert_by_id r rest in
    if leb r.bypass_id q.bypass_id then r ∷ q ∷ rest else q ∷ later

unfoldable pub sort_by_id : List BypassRecord → List BypassRecord
sort_by_id [] = []
sort_by_id (r ∷ rest) = insert_by_id r (sort_by_id rest)

unfoldable pub list_bypasses : String → Store → List BypassRecord
unfolding sort_by_id
list_bypasses attempt_id s =
    sort_by_id (filter_by (λ r. r.attempt_id == attempt_id) (values s.bypasses))
