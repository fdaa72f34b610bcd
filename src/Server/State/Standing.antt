-- ===== src/Server/State/Standing.antt =====
-- The standing decision of a change request: `_invalidate_bypasses_locked`,
-- `_supersede_standing_check_intents_locked`, `_enqueue_standing_check_intent_locked`,
-- `invalidate_standing_decision`, `invalidate_standing_for_target` and
-- `get_change_request_state` of src/worktree_review/server/state.py.
use Prim.Native.Char.{code}
use Prim.Native.String
use worktree_review.Base.{
  ℕ, ◌+◌, String, Bool, true, false, not, ◌&&◌, Option, none, some, List, [], ◌∷◌, is_some,
  contains, ◌==◌, nat_eq, string_eq, pair_eq, if◌then◌else◌,
}
use worktree_review.Base.Dict.{Dict, get, put, map_values}
use worktree_review.Base.Exec.{Exec, ok, ◌>>◌}
use worktree_review.Server.Json.{Fields, str, end, field}
use worktree_review.Server.State.{
  Locator, BypassStatus, CheckSyncStatus, BypassRecord, CheckIntent, ChangeRequest,
  ChangeRequestState, Store, Error, Env, locator_eq, ticked, now,
}
use worktree_review.Server.State.Audit.{record_audit_event}

abbrev pub is_active : BypassStatus → Bool
is_active BypassStatus.active = true
is_active BypassStatus.invalidated = false

-- `status in (QUEUED, IN_PROGRESS)`
abbrev pub is_pending : CheckSyncStatus → Bool
is_pending CheckSyncStatus.queued = true
is_pending CheckSyncStatus.in_progress = true
is_pending _ = false

-- The bypasses that the loop of `_invalidate_bypasses_locked` does not skip.
abbrev pub expires : Locator → BypassRecord → Bool
expires cr r = r.change_request == cr && is_active r.status

abbrev pub supersede_intent : String → ℕ → CheckIntent → CheckIntent
supersede_intent attempt_id at intent =
    if intent.attempt_id == attempt_id && is_pending intent.status
    then record intent { status = CheckSyncStatus.superseded; updated_at = at }
    else intent

unfoldable pub supersede_check_intents : String → Store → Store
supersede_check_intents attempt_id s = record (ticked s) {
  standing_check_intents =
      map_values (supersede_intent attempt_id (now s)) s.standing_check_intents;
}

-- Returns the status of the new intent.
unfoldable pub enqueue_check_intent :
    String → ℕ → Option ℕ → Fields → Store → CheckSyncStatus × Store
unfolding supersede_check_intents
enqueue_check_intent attempt_id standing_revision check_run_id payload s0 =
    let s = supersede_check_intents attempt_id s0 in
    let status =
      if is_some check_run_id then CheckSyncStatus.queued else CheckSyncStatus.not_applicable in
    (
      status,
      record (ticked s) {
        standing_check_intents = put s.standing_check_intents s.next_check_intent_id (record {
          intent_id = s.next_check_intent_id;
          attempt_id = attempt_id;
          standing_revision = standing_revision;
          check_run_id = check_run_id;
          intent = "standing_check_sync";
          status = status;
          attempt_count = 0;
          next_retry_at = none;
          last_error = none;
          lease_expires_at = none;
          payload = payload;
          created_at = now s;
          updated_at = now s;
        });
        next_check_intent_id = s.next_check_intent_id + 1;
      },
    )

-- `if prior_standing is not None: ...`
unfoldable pub supersede_if_standing : Option String → Store → Store
supersede_if_standing none s = s
supersede_if_standing (some attempt_id) s = supersede_check_intents attempt_id s

-- `ref.startswith("refs/heads/")`, and then what follows the prefix.
pub strip_prefix : String → String → Option String
strip_prefix String.[] text = some text
strip_prefix (String.◌∷◌ p prefix) String.[] = none
strip_prefix (String.◌∷◌ p prefix) (String.◌∷◌ c text) =
    if code p == code c then strip_prefix prefix text else none

pub ref_aliases : String → List String
unfolding strip_prefix
ref_aliases target_ref =
    target_ref
    ∷ String.◌++◌ "refs/heads/" target_ref
    ∷ elim (strip_prefix "refs/heads/" target_ref) [ none ↦ [] | some name ↦ name ∷ [] ]

module _ (env : Env) where
  unfoldable pub invalidate_one :
      Locator → String → String × String → BypassRecord → Exec Store Error Unit
  invalidate_one change_request reason key r s =
      if not (expires change_request r)
      then (ok tt, s)
      else record_audit_event env "bypass_invalidated" change_request (some r.attempt_id)
          (field "finding_fingerprint" (str r.finding_fingerprint)
            (field "reason" (str reason) end))
          r.actor_id (some r.actor_login)
          (record (ticked s) {
            bypasses = put s.bypasses key (record r {
              status = BypassStatus.invalidated;
              invalidation_reason = some reason;
              invalidated_at = some (now s);
            });
          })

  -- The loop over `list(self._bypasses.items())`.
  unfoldable pub invalidate_loop :
      Locator → String → Dict (String × String) BypassRecord → Exec Store Error Unit
  invalidate_loop change_request reason [] s = (ok tt, s)
  invalidate_loop change_request reason ((key, r) ∷ rest) s =
      (do invalidate_one change_request reason key r; invalidate_loop change_request reason rest) s

  unfoldable pub invalidate_bypasses : Locator → String → Exec Store Error Unit
  invalidate_bypasses change_request reason s = invalidate_loop change_request reason s.bypasses s

  unfoldable pub after_invalidation : Locator → String → Option String → Exec Store Error Unit
  after_invalidation change_request reason prior_standing s =
      record_audit_event env "standing_decision_invalidated" change_request prior_standing
        (field "reason" (str reason) end) none none (supersede_if_standing prior_standing s)

  unfoldable pub invalidate_row : Locator → String → ChangeRequest → Exec Store Error Unit
  unfolding after_invalidation
  invalidate_row change_request reason c s =
      (do
        invalidate_bypasses change_request reason
        after_invalidation change_request reason c.standing_attempt_id)
        (record s {
          change_requests = put s.change_requests change_request (record c {
            standing_attempt_id = none;
            standing_gate_state = none;
            standing_revision = c.standing_revision + 1;
          });
        })

  unfoldable pub invalidate_standing_decision : Locator → String → Exec Store Error Unit
  invalidate_standing_decision change_request reason s =
      elim (get s.change_requests change_request) [
        | none ↦ (ok tt, s)
        | some c ↦ invalidate_row change_request reason c s
      ]

  -- The loop over `list(self._change_requests.items())`, where no other call runs between two rounds:
  -- the source takes the lock for each round anew.
  unfoldable pub invalidate_targets :
      String → List String → String → Dict Locator ChangeRequest → ℕ → Exec Store Error ℕ
  invalidate_targets repository aliases reason [] count s = (ok count, s)
  invalidate_targets repository aliases reason ((locator, c) ∷ rest) count s =
      elim (locator.repository == repository && contains aliases c.request_key.target_ref) [
        | false ↦ invalidate_targets repository aliases reason rest count s
        | true ↦
            (do
              invalidate_standing_decision locator reason
              invalidate_targets repository aliases reason rest (count + 1))
              s
      ]

  unfoldable pub invalidate_standing_for_target : String → String → String → Exec Store Error ℕ
  unfolding invalidate_targets ref_aliases
  invalidate_standing_for_target repository target_ref reason s =
      invalidate_targets repository (ref_aliases target_ref) reason s.change_requests 0 s

unfoldable pub change_request_state : Locator → Option ChangeRequest → ChangeRequestState
change_request_state change_request none = record {
  change_request = change_request;
  request_key = none;
  authoritative_attempt_id = none;
  standing_attempt_id = none;
  standing_gate_state = none;
  standing_revision = 0;
}
change_request_state change_request (some c) = record {
  change_request = change_request;
  request_key = some c.request_key;
  authoritative_attempt_id = some c.authoritative_attempt_id;
  standing_attempt_id = c.standing_attempt_id;
  standing_gate_state = c.standing_gate_state;
  standing_revision = c.standing_revision;
}

unfoldable pub get_change_request_state : Store → Locator → ChangeRequestState
unfolding change_request_state
get_change_request_state s change_request =
    change_request_state change_request (get s.change_requests change_request)
