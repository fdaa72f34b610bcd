-- ===== src/Server/State/Audit/Pages.antt =====
-- Reading the audit log page by page, with the cursors that `list_audit_events` of
-- src/worktree_review/server/state.py gives.
use worktree_review.Base.{
  ℕ, zero, suc, ◌≤◌, ◌<◌, String, Bool, true, Option, none, some, List, [], ◌∷◌, ◌++◌, length,
  length-append, filter_by, ltb, Bool-cases, inl, inr, ◌≡◌, refl, ◌∙◌, sym, ap, arith,
}
use worktree_review.Base.Exec.{Result, ok, err}
use worktree_review.Core.Evidence.Text.{decimal, take, drop}
use worktree_review.Server.State.{AuditEvent, Store}
use worktree_review.Server.State.Audit.Cursor.{
  parse_audit_cursor, parse_audit_cursor-decimal, clamp_audit_page_size,
}
use worktree_review.Server.State.Audit.Order.{
  ascending, newest_first, falls, newest-falls, top_of, below-top, matching-asked, filter-both,
  asked_events, filter-ascending,
}
use worktree_review.Server.State.Audit.Queries.{
  AuditQuery, AuditEventPage, is_asked, is_before, matching_events, last_event, cursor_after,
  page_of, list_audit_events,
}

-- The events of the pages, from a cursor on, for at most `n` pages: what a client does that follows
-- the cursors.
abbrev with_events :
    List AuditEvent → Result String (List AuditEvent) → Result String (List AuditEvent)
with_events events (ok more) = ok (events ++ more)
with_events events (err detail) = err detail

abbrev after_page :
    Result String AuditEventPage
    → (String → Result String (List AuditEvent))
    → Result String (List AuditEvent)
after_page (err detail) more = err detail
after_page (ok page) more = elim page.next_cursor [
  | none ↦ ok page.events
  | some next ↦ with_events page.events (more next)
]

unfoldable pub read_pages : ℕ → AuditQuery → Option String → Store → Result String (List AuditEvent)
read_pages zero query cursor s = ok []
read_pages (suc n) query cursor s =
    after_page (list_audit_events query cursor s) (λ next. read_pages n query (some next) s)

-- Cutting off a page with a cursor is dropping its events.
last-below :
    (y : AuditEvent) (ys : List AuditEvent) (top j : ℕ)
    → falls top (y ∷ ys) ≡ true
    → ltb (last_event y (take j ys)).event_id top ≡ true
unfolding take
last-below y ys top zero h = ground (arith, h)
last-below y [] top (suc j) h = ground (arith, h)
last-below y (z ∷ ys) top (suc j) h =
    ground (arith, h, last-below z ys y.event_id j (ground (arith, h)))

last-positive :
    (y : AuditEvent) (ys : List AuditEvent) (top j : ℕ)
    → falls top (y ∷ ys) ≡ true
    → ltb 0 (last_event y (take j ys)).event_id ≡ true
unfolding take
last-positive y ys top zero h = ground (arith, h)
last-positive y [] top (suc j) h = ground (arith, h)
last-positive y (z ∷ ys) top (suc j) h = last-positive z ys y.event_id j (ground (arith, h))

before-all :
    (ys : List AuditEvent) (top bound : ℕ)
    → falls top ys ≡ true
    → top ≤ bound
    → filter_by (is_before (some bound)) ys ≡ ys
unfolding filter_by
before-all [] top bound h b = refl
before-all (y ∷ ys) top bound h b =
    ground (arith, h, b, before-all ys y.event_id bound (ground (arith, h)))

before-last :
    (y : AuditEvent) (ys : List AuditEvent) (top j : ℕ)
    → falls top (y ∷ ys) ≡ true
    → filter_by (is_before (some (last_event y (take j ys)).event_id)) (y ∷ ys) ≡ drop j ys
unfolding filter_by take drop
before-last y ys top zero h = ground (arith, h, before-all ys y.event_id y.event_id)
before-last y [] top (suc j) h = ground (arith, h)
before-last y (z ∷ ys) top (suc j) h = ground (
  arith,
  h,
  last-below z ys y.event_id j (ground (arith, h)),
  before-last z ys y.event_id j (ground (arith, h)),
)

take-drop : (j : ℕ) (ys : List AuditEvent) → take j ys ++ drop j ys ≡ ys
unfolding take drop
take-drop zero ys = refl
take-drop (suc j) [] = refl
take-drop (suc j) (y ∷ ys) = rw (take-drop j ys)

drop-length : (j : ℕ) (ys : List AuditEvent) → length (drop j ys) ≤ length ys
unfolding drop
drop-length zero ys = omega arith
drop-length (suc j) [] = omega arith
drop-length (suc j) (y ∷ ys) = omega (arith, drop-length j ys)

drop-short : (j : ℕ) (ys : List AuditEvent) → length ys ≤ j → take j ys ≡ ys
unfolding take
drop-short zero [] h = refl
drop-short zero (y ∷ ys) h = ground (arith, h)
drop-short (suc j) [] h = refl
drop-short (suc j) (y ∷ ys) h = ground (arith, h, drop-short j ys)

drop-falls :
    (y : AuditEvent) (ys : List AuditEvent) (top j : ℕ)
    → falls top (y ∷ ys) ≡ true
    → falls (last_event y (take j ys)).event_id (drop j ys) ≡ true
unfolding take drop
drop-falls y ys top zero h = ground (arith, h)
drop-falls y [] top (suc j) h = refl
drop-falls y (z ∷ ys) top (suc j) h = drop-falls z ys y.event_id j (ground (arith, h))

before-none : (events : List AuditEvent) → filter_by (is_before none) events ≡ events
unfolding filter_by
before-none [] = refl
before-none (e ∷ events) = ground (arith, before-none events)

newest-length : (events : List AuditEvent) → length (newest_first events) ≡ length events
newest-length [] = refl
newest-length (e ∷ events) =
    ground (arith, newest-length events, length-append (newest_first events) (e ∷ []))

filter-length :
    (test : AuditEvent → Bool) (events : List AuditEvent)
    → length (filter_by test events) ≤ length events
unfolding filter_by
filter-length test [] = omega arith
filter-length test (e ∷ events) = ground (arith, filter-length test events)

-- A page holds at least one event.
page_size-suc : (limit : ℕ) → (j : ℕ) × (clamp_audit_page_size limit ≡ suc j)
unfolding clamp_audit_page_size
page_size-suc zero = (0, refl)
page_size-suc (suc limit) = elim (Bool-cases (ltb 200 (suc limit))) [
  | inl h ↦ (199, ground (arith, h))
  | inr h ↦ (limit, ground (arith, h))
]

list_audit_events-page :
    (query : AuditQuery) (cursor : Option String) (c : Option ℕ) (s : Store)
    (matching : List AuditEvent) (j : ℕ)
    → parse_audit_cursor cursor ≡ ok c
    → matching_events query c s.audit_events ≡ matching
    → clamp_audit_page_size query.limit ≡ suc j
    → list_audit_events query cursor s ≡ ok (page_of (suc j) matching)
unfolding list_audit_events
list_audit_events-page query cursor c s matching j p m k = rw (list_audit_events, p, m, k) refl

-- What is before the cursor of a page is what is left after it.
cut-matching :
    (query : AuditQuery) (c : Option ℕ) (s : Store) (matching : List AuditEvent) (top id : ℕ)
    → ascending 0 s.audit_events ≡ true
    → matching_events query c s.audit_events ≡ matching
    → ((event : AuditEvent) → ltb event.event_id top ≡ true → is_before c event ≡ true)
    → ltb id top ≡ true
    → matching_events query (some id) s.audit_events ≡ filter_by (is_before (some id)) matching
cut-matching query c s matching top id order m under small =
    matching-asked query (some id) s.audit_events order
    ∙ filter-both (is_before (some id)) (is_before c) (is_before (some id))
        (asked_events query s.audit_events) (λ event. ground (arith, under event, small))
    ∙ ap (filter_by (is_before (some id))) (sym (matching-asked query c s.audit_events order) ∙ m)

read_pages-rest :
    (n : ℕ) (query : AuditQuery) (cursor : Option String) (c : Option ℕ) (s : Store)
    (matching : List AuditEvent) (top : ℕ)
    → ascending 0 s.audit_events ≡ true
    → parse_audit_cursor cursor ≡ ok c
    → matching_events query c s.audit_events ≡ matching
    → falls top matching ≡ true
    → ((event : AuditEvent) → ltb event.event_id top ≡ true → is_before c event ≡ true)
    → length matching < n
    → read_pages n query cursor s ≡ ok matching
unfolding read_pages page_of cursor_after take
read_pages-rest zero query cursor c s matching top order p m f under h = ground (arith, h)
read_pages-rest (suc n) query cursor c s [] top order p m f under h =
    let (j, k) = page_size-suc query.limit in
    ap (λ r. after_page r (λ next. read_pages n query (some next) s))
      (list_audit_events-page query cursor c s [] j p m k)
read_pages-rest (suc n) query cursor c s (y ∷ ys) top order p m f under h =
    let (j, k) = page_size-suc query.limit in
    let last = last_event y (take j ys) in
    let more : String → Result String (List AuditEvent) =
      λ next. read_pages n query (some next) s in
    ap (λ r. after_page r more) (list_audit_events-page query cursor c s (y ∷ ys) j p m k)
    ∙ elim (Bool-cases (ltb (suc j) (length (y ∷ ys)))) [
      | inr short ↦
          rw (short) (
            ap (λ (rest : List AuditEvent). ok (y ∷ rest))
              (drop-short j ys (ground (arith, short))))
      | inl long ↦ rw (long) (
          ap (with_events (y ∷ take j ys)) (
            read_pages-rest n query (some (decimal last.event_id)) (some last.event_id) s
              (drop j ys) last.event_id order
              (parse_audit_cursor-decimal last.event_id
                (ground (arith, last-positive y ys top j f)))
              (cut-matching query c s (y ∷ ys) top last.event_id order m under
                  (last-below y ys top j f)
                ∙ before-last y ys top j f)
              (drop-falls y ys top j f) (λ event e. e) (ground (arith, h, drop-length j ys)))
          ∙ ap (λ (rest : List AuditEvent). ok (y ∷ rest)) (take-drop j ys))
    ]

-- Where the identifiers of the log rise from 1 on, a client that asks for a page, and then for the
-- page after each cursor until there is none, gets every event that its query asks, once each and the
-- newest first; it needs at most one page more than the log has events.
pub pages_give_every_event :
    (query : AuditQuery) (s : Store)
    → ascending 0 s.audit_events ≡ true
    → read_pages (suc (length s.audit_events)) query none s ≡ ok (asked_events query s.audit_events)
unfolding parse_audit_cursor
pages_give_every_event query s order =
    read_pages-rest (suc (length s.audit_events)) query none none s
      (asked_events query s.audit_events) (top_of (filter_by (is_asked query) s.audit_events)) order
      refl
      (matching-asked query none s.audit_events order
        ∙ before-none (asked_events query s.audit_events))
      (newest-falls 0 (top_of (filter_by (is_asked query) s.audit_events))
        (filter_by (is_asked query) s.audit_events)
        (filter-ascending (is_asked query) 0 s.audit_events order)
        (below-top (top_of (filter_by (is_asked query) s.audit_events))
          (filter_by (is_asked query) s.audit_events) (ground arith)))
      (λ event e. refl)
      (ground (
        arith,
        newest-length (filter_by (is_asked query) s.audit_events),
        filter-length (is_asked query) s.audit_events,
      ))
