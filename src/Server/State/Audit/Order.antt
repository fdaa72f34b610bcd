-- ===== src/Server/State/Audit/Order.antt =====
-- The order of the events that `list_audit_events` of src/worktree_review/server/state.py sorts.
use worktree_review.Base.{
  ℕ, ◌+◌, ◌≤◌, Bool, true, ◌&&◌, Option, List, [], ◌∷◌, ◌++◌, all, filter_by, ltb, leb, ◌≡◌, refl,
  ◌∙◌, sym, ap, arith,
}
use worktree_review.Core.Evidence.{sorted, insert_sorted}
use worktree_review.Server.State.{AuditEvent}
use worktree_review.Server.State.Audit.Queries.{AuditQuery, is_asked, is_before, matching_events}

-- The identifiers rise from above the bound, as those of the log do.
abbrev pub ascending : ℕ → List AuditEvent → Bool
ascending bound [] = true
ascending bound (event ∷ events) = ltb bound event.event_id && ascending event.event_id events

-- The events in the opposite order.
abbrev pub newest_first : List AuditEvent → List AuditEvent
newest_first [] = []
newest_first (event ∷ events) = newest_first events ++ event ∷ []

-- The identifiers fall from below the bound, and are positive.
abbrev pub falls : ℕ → List AuditEvent → Bool
falls top [] = true
falls top (event ∷ events) =
    ltb 0 event.event_id && ltb event.event_id top && falls event.event_id events

all-append :
    (test : AuditEvent → Bool) (xs ys : List AuditEvent)
    → all test (xs ++ ys) ≡ (all test xs && all test ys)
all-append test [] ys = refl
all-append test (x ∷ xs) ys = ground (arith, all-append test xs ys)

ascending-weak :
    (low bound : ℕ) (events : List AuditEvent)
    → ltb low bound ≡ true
    → ascending bound events ≡ true
    → ascending low events ≡ true
ascending-weak low bound [] l h = refl
ascending-weak low bound (e ∷ events) l h = ground (arith, l, h)

ascending-above :
    (bound : ℕ) (events : List AuditEvent)
    → ascending bound events ≡ true
    → all (λ (event : AuditEvent). ltb bound event.event_id) (newest_first events) ≡ true
ascending-above bound [] h = refl
ascending-above bound (e ∷ events) h = ground (
  arith,
  all-append (λ (event : AuditEvent). ltb bound event.event_id) (newest_first events) (e ∷ []),
  ascending-above bound events
      (ascending-weak bound e.event_id events (ground (arith, h)) (ground (arith, h))),
)

abbrev is_newer : AuditEvent → AuditEvent → Bool
is_newer a b = leb b.event_id a.event_id

insert-last :
    (e : AuditEvent) (events : List AuditEvent)
    → all (λ (event : AuditEvent). ltb e.event_id event.event_id) events ≡ true
    → insert_sorted is_newer e events ≡ events ++ e ∷ []
unfolding insert_sorted
insert-last e [] h = refl
insert-last e (x ∷ events) h = ground (arith, h, insert-last e events)

sorted-newest :
    (bound : ℕ) (events : List AuditEvent)
    → ascending bound events ≡ true
    → sorted is_newer events ≡ newest_first events
unfolding sorted
sorted-newest bound [] h = refl
sorted-newest bound (e ∷ events) h =
    ap (insert_sorted is_newer e) (sorted-newest e.event_id events (ground (arith, h)))
    ∙ insert-last e (newest_first events) (ascending-above e.event_id events (ground (arith, h)))

filter-append :
    (test : AuditEvent → Bool) (xs ys : List AuditEvent)
    → filter_by test (xs ++ ys) ≡ filter_by test xs ++ filter_by test ys
unfolding filter_by
filter-append test [] ys = refl
filter-append test (x ∷ xs) ys = ground (arith, filter-append test xs ys)

append_nil : (xs : List AuditEvent) → xs ++ [] ≡ xs
append_nil [] = refl
append_nil (x ∷ xs) = rw (append_nil xs)

filter-newest :
    (test : AuditEvent → Bool) (events : List AuditEvent)
    → filter_by test (newest_first events) ≡ newest_first (filter_by test events)
unfolding filter_by
filter-newest test [] = refl
filter-newest test (e ∷ events) = ground (
  arith,
  filter-append test (newest_first events) (e ∷ []),
  filter-newest test events,
  append_nil (newest_first (filter_by test events)),
)

-- One filter after another.
pub filter-both :
    (first second both : AuditEvent → Bool) (events : List AuditEvent)
    → ((event : AuditEvent) → both event ≡ (first event && second event))
    → filter_by both events ≡ filter_by first (filter_by second events)
unfolding filter_by
filter-both first second both [] same = refl
filter-both first second both (e ∷ events) same =
    ground (arith, same e, filter-both first second both events same)

pub filter-ascending :
    (test : AuditEvent → Bool) (bound : ℕ) (events : List AuditEvent)
    → ascending bound events ≡ true
    → ascending bound (filter_by test events) ≡ true
unfolding filter_by
filter-ascending test bound [] h = refl
filter-ascending test bound (e ∷ events) h = ground (
  arith,
  h,
  filter-ascending test e.event_id events (ground (arith, h)),
  ascending-weak bound e.event_id (filter_by test events),
)

falls-append :
    (top : ℕ) (events : List AuditEvent) (e : AuditEvent)
    → falls top events ≡ true
    → all (λ (event : AuditEvent). ltb e.event_id event.event_id) events ≡ true
    → ltb 0 e.event_id ≡ true
    → ltb e.event_id top ≡ true
    → falls top (events ++ e ∷ []) ≡ true
falls-append top [] e f a p t = ground (arith, p, t)
falls-append top (x ∷ events) e f a p t = ground (arith, f, a, p, falls-append x.event_id events e)

-- All below the bound.
abbrev pub below : ℕ → List AuditEvent → Bool
below top events = all (λ (event : AuditEvent). ltb event.event_id top) events

pub newest-falls :
    (bound top : ℕ) (events : List AuditEvent)
    → ascending bound events ≡ true
    → below top events ≡ true
    → falls top (newest_first events) ≡ true
newest-falls bound top [] h b = refl
newest-falls bound top (e ∷ events) h b =
    falls-append top (newest_first events) e
      (newest-falls e.event_id top events (ground (arith, h)) (ground (arith, b)))
      (ascending-above e.event_id events (ground (arith, h))) (ground (arith, h))
      (ground (arith, b))

-- A bound above all of them.
pub top_of : List AuditEvent → ℕ
top_of [] = 1
top_of (e ∷ events) = e.event_id + top_of events + 1

pub below-top : (top : ℕ) (events : List AuditEvent) → top_of events ≤ top → below top events ≡ true
unfolding top_of
below-top top [] h = refl
below-top top (e ∷ events) h = ground (arith, h, below-top top events)

matching-falls :
    (query : AuditQuery) (cursor : Option ℕ) (events : List AuditEvent)
    → ascending 0 events ≡ true
    → matching_events query cursor events
      ≡ newest_first (filter_by (λ event. is_before cursor event && is_asked query event) events)
unfolding matching_events
matching-falls query cursor events h =
    sorted-newest 0 (filter_by (λ event. is_before cursor event && is_asked query event) events)
      (filter-ascending (λ event. is_before cursor event && is_asked query event) 0 events h)

-- All that the query asks, the newest first.
abbrev pub asked_events : AuditQuery → List AuditEvent → List AuditEvent
asked_events query events = newest_first (filter_by (is_asked query) events)

pub matching-asked :
    (query : AuditQuery) (cursor : Option ℕ) (events : List AuditEvent)
    → ascending 0 events ≡ true
    → matching_events query cursor events ≡ filter_by (is_before cursor) (asked_events query events)
matching-asked query cursor events h =
    matching-falls query cursor events h
    ∙ ap newest_first (
        filter-both (is_before cursor) (is_asked query)
          (λ event. is_before cursor event && is_asked query event) events (λ event. refl))
    ∙ sym (filter-newest (is_before cursor) (filter_by (is_asked query) events))
