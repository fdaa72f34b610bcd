-- ===== src/Server/State/Audit/Examples.antt =====
-- A short audit log read page by page, and a payload that the screen reads.
use worktree_review.Base.{
  ℕ, ◌<◌, String, not, ◌&&◌, none, some, [], ◌∷◌, all, ltb, string_eq, ◌≡◌, refl, arith,
}
use worktree_review.Base.Exec.{ok}
use worktree_review.Core.Evidence.Text.{decimal}
use worktree_review.Server.Json.{str, num, obj, arr, cons, nil, Fields, end, field}
use worktree_review.Server.State.{AuditEvent, Store, new_store}
use worktree_review.Server.State.Audit.Cursor.{parse_audit_cursor, parse_audit_cursor-decimal}
use worktree_review.Server.State.Audit.Order.{asked_events}
use worktree_review.Server.State.Audit.Pages.{read_pages, pages_give_every_event}
use worktree_review.Server.State.Audit.Queries.{AuditQuery}
use worktree_review.Server.State.Audit.Screen.{
  Screen, is_forbidden, is_secret, field_keys, field_texts, is_accepted, max_audit_payload_bytes,
  assert_safe_audit_payload, screen_reads_every_depth,
}

abbrev event : ℕ → String → AuditEvent
event id kind = record {
  event_id = id;
  event_type = kind;
  occurred_at = id;
  installation_id = 7;
  repository = "r";
  pull_request_number = 3;
  attempt_id = none;
  actor_id = none;
  actor_login = none;
  payload = end;
}

abbrev store : Store
store = record (new_store (λ n. n) 60) {
  audit_events =
      event 1 "job_failed"
      ∷ event 2 "job_requeued"
      ∷ event 3 "job_failed"
      ∷ event 4 "job_failed"
      ∷ [];
}

abbrev query : AuditQuery
query = record {
  limit = 1;
  event_type = some "job_failed";
  attempt_id = none;
  repository = none;
  pull_request_number = none;
  installation_ids = none;
}

pages_give_every_event_example :
    read_pages 5 query none store ≡ ok (asked_events query store.audit_events)
pages_give_every_event_example = pages_give_every_event query store refl

two-positive : 0 < 2
two-positive = omega arith

parse_audit_cursor-decimal_example : parse_audit_cursor (some (decimal 2)) ≡ ok (some 2)
parse_audit_cursor-decimal_example = parse_audit_cursor-decimal 2 two-positive

abbrev screen : Screen
screen = record {
  lower = λ key. key;
  scrub_secret_content = λ text. text;
  encoded_bytes = λ payload. 10;
}

abbrev payload : Fields
payload =
    field "reason" (str "stale")
      (field "nested" (arr (cons (obj (field "token" (num 1) end)) nil)) end)

screen_reads_every_depth_example : is_accepted (assert_safe_audit_payload screen payload) ≡ (
    all (λ key. not (is_forbidden screen key)) (field_keys payload)
    && all (λ text. not (is_secret screen text)) (field_texts payload)
    && not (ltb max_audit_payload_bytes (screen.encoded_bytes payload)))
screen_reads_every_depth_example = screen_reads_every_depth screen payload
