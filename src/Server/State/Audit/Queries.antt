-- ===== src/Server/State/Audit/Queries.antt =====
-- The audit queries of src/worktree_review/server/state.py: `list_audit_events` and
-- `audit_installations_for_repository`.
use worktree_review.Base.{
  ℕ, String, Bool, true, ◌&&◌, Option, none, some, List, [], ◌∷◌, map, length, filter_by, contains,
  ltb, leb, ◌==◌, nat_eq, string_eq, option_eq, if◌then◌else◌,
}
use worktree_review.Base.Exec.{Result, ok, err}
use worktree_review.Core.Evidence.{sorted}
use worktree_review.Core.Evidence.Text.{decimal, take}
use worktree_review.Server.State.{AuditEvent, Store}
use worktree_review.Server.State.Audit.Cursor.{parse_audit_cursor, clamp_audit_page_size}

pub record AuditEventPage : Type 0 where
  pub events : List AuditEvent
  pub next_cursor : Option String

-- The arguments of `list_audit_events` but for the cursor.
pub record AuditQuery : Type 0 where
  pub limit : ℕ
  pub event_type : Option String
  pub attempt_id : Option String
  pub repository : Option String
  pub pull_request_number : Option ℕ
  pub installation_ids : Option (List ℕ)

-- `expected is None or actual == expected`
abbrev pub agrees {ℓ} : {A : Type ℓ} → (A → Bool) → Option A → Bool
agrees test none = true
agrees test (some expected) = test expected

-- What the query asks of an event, whatever the cursor.
unfoldable pub is_asked : AuditQuery → AuditEvent → Bool
is_asked query event =
    agrees (λ t. event.event_type == t) query.event_type
    && agrees (λ a. event.attempt_id == some a) query.attempt_id
    && agrees (λ r. event.repository == r) query.repository
    && agrees (λ n. event.pull_request_number == n) query.pull_request_number
    && agrees (λ ids. contains ids event.installation_id) query.installation_ids

abbrev pub is_before : Option ℕ → AuditEvent → Bool
is_before cursor event = agrees (λ c. ltb event.event_id c) cursor

-- `matching`, the newest first.
unfoldable pub matching_events : AuditQuery → Option ℕ → List AuditEvent → List AuditEvent
unfolding is_asked
matching_events query cursor events =
    sorted (λ a b. leb b.event_id a.event_id)
      (filter_by (λ event. is_before cursor event && is_asked query event) events)

-- `page[-1]` of the first event and the rest.
abbrev pub last_event : AuditEvent → List AuditEvent → AuditEvent
last_event event [] = event
last_event event (next ∷ rest) = last_event next rest

-- `str(page[-1].event_id) if len(matching) > page_size and page else None`
unfoldable pub cursor_after : ℕ → List AuditEvent → List AuditEvent → Option String
cursor_after page_size matching [] = none
cursor_after page_size matching (event ∷ rest) =
    if ltb page_size (length matching)
    then some (decimal (last_event event rest).event_id)
    else none

unfoldable pub page_of : ℕ → List AuditEvent → AuditEventPage
unfolding cursor_after
page_of page_size matching = record {
  events = take page_size matching;
  next_cursor = cursor_after page_size matching (take page_size matching);
}

unfoldable pub list_audit_events : AuditQuery → Option String → Store → Result String AuditEventPage
unfolding matching_events page_of
list_audit_events query cursor s = elim (parse_audit_cursor cursor) [
  | err detail ↦ err detail
  | ok cursor_id ↦
      ok (
        page_of (clamp_audit_page_size query.limit)
          (matching_events query cursor_id s.audit_events))
]

-- `dict.fromkeys(values)`: the first of each value, in order.
unfoldable pub each_once : List ℕ → List ℕ → List ℕ
each_once before [] = []
each_once before (n ∷ rest) =
    let new = each_once (n ∷ before) rest in
    let old = each_once before rest in if contains before n then old else n ∷ new

unfoldable pub audit_installations_for_repository : String → Store → List ℕ
unfolding each_once
audit_installations_for_repository repository s = each_once [] (
    map (λ (event : AuditEvent). event.installation_id)
      (filter_by (λ (event : AuditEvent). event.repository == repository) s.audit_events))
