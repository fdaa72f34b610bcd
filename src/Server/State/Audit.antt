-- ===== src/Server/State/Audit.antt =====
-- `_record_audit_event_locked` and `append_audit_event` of
-- src/worktree_review/server/state.py.
pub mod Cursor
pub mod Queries
pub mod Order
pub mod Pages
pub mod Screen
mod Examples
use worktree_review.Base.{
  ℕ, ◌+◌, String, Bool, true, not, ◌||◌, Option, none, some, [], ◌∷◌, ◌++◌, ltb, ◌==◌, string_eq,
  if◌then◌else◌,
}
use worktree_review.Base.Exec.{Exec, ok, err}
use worktree_review.Server.Json.{Fields}
use worktree_review.Server.State.{
  Locator, Store, Error, unsafe_payload, invalid_record, Env, ticked, now,
}

-- `Field(gt=0)` on an optional integer
abbrev pub positive_or_absent : Option ℕ → Bool
positive_or_absent none = true
positive_or_absent (some n) = ltb 0 n

module _ (env : Env) where
  -- The payload check comes before the construction of the event, which reads the clock and
  -- validates its fields.
  unfoldable pub record_audit_event :
      String → Locator → Option String → Fields → Option ℕ → Option String → Exec Store Error Unit
  record_audit_event event_type change_request attempt_id payload actor_id actor_login s =
      if not (env.safe_payload payload)
      then (err unsafe_payload, s)
      else if event_type == "" || not (positive_or_absent actor_id)
      then (err invalid_record, ticked s)
      else (
        ok tt,
        record s {
          clock_reads = s.clock_reads + 1;
          audit_events =
              s.audit_events
              ++ (record {
                event_id = s.next_audit_event_id;
                event_type = event_type;
                occurred_at = now s;
                installation_id = change_request.installation_id;
                repository = change_request.repository;
                pull_request_number = change_request.pull_request_number;
                attempt_id = attempt_id;
                actor_id = actor_id;
                actor_login = actor_login;
                payload = payload;
              }
                  ∷ []);
          next_audit_event_id = s.next_audit_event_id + 1;
        },
      )

  unfoldable pub append_audit_event :
      String → Locator → Option String → Fields → Option ℕ → Option String → Exec Store Error Unit
  unfolding record_audit_event
  append_audit_event = record_audit_event
