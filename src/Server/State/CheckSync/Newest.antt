-- ===== src/Server/State/CheckSync/Newest.antt =====
-- Which intent `claim_standing_check_sync` of src/worktree_review/server/state.py hands out.
use mathlib.Core.Option.{get_or}
use worktree_review.Base.{
  ℕ, ◌≤◌, String, Bool, true, not, ◌&&◌, ◌||◌, inl, inr, some, List, [], ◌∷◌, all, filter_by,
  min_by, ltb, leb, Bool-cases, ◌==◌, nat_eq, string_eq, option_eq, ◌≡◌, ◌∙◌, refl, arith,
}
use worktree_review.Base.Dict.{Dict, get, put, get-put, get-put_self, values}
use worktree_review.Server.State.{CheckIntent, Store}
use worktree_review.Server.State.Standing.{is_pending}
use worktree_review.Server.State.CheckSync.{
  is_candidate, revisions, max_ℕ, raise_revisions, newest_revisions, deliverable, claim_intent,
  claim_first, claim_standing_check_sync,
}

-- What the dictionary has for an Attempt, or 0.
abbrev revision_in : Dict String ℕ → String → ℕ
revision_in d id = get_or (get d id) 0

raise_grows :
    (xs : List CheckIntent) (d : Dict String ℕ) (id : String)
    → revision_in d id ≤ revision_in (raise_revisions xs d) id
unfolding raise_revisions
raise_grows [] d id = ground arith
raise_grows (x ∷ xs) d id = elim (Bool-cases (is_pending x.status)) [
  | inr e ↦ rw (e, raise_revisions) (raise_grows xs d id)
  | inl e ↦
      rw (e, raise_revisions)
        (ground (
          arith,
          raise_grows xs
              (put d x.attempt_id (max_ℕ (revision_in d x.attempt_id) x.standing_revision)) id,
          get-put d x.attempt_id id (max_ℕ (revision_in d x.attempt_id) x.standing_revision),
        ))
]

-- No pending intent of the Attempt is newer.
abbrev pub not_newer : String → ℕ → CheckIntent → Bool
not_newer id revision k =
    not (k.attempt_id == id && is_pending k.status) || leb k.standing_revision revision

raise_bounds :
    (xs : List CheckIntent) (d : Dict String ℕ) (id : String) (m : ℕ)
    → revision_in (raise_revisions xs d) id ≤ m
    → all (not_newer id m) xs ≡ true
unfolding raise_revisions
raise_bounds [] d id m h = refl
raise_bounds (x ∷ xs) d id m h = elim (Bool-cases (is_pending x.status)) [
  | inr e ↦ ground (arith, e, raise_bounds xs d id m (rw (e, raise_revisions) at h))
  | inl e ↦
      let d' = put d x.attempt_id (max_ℕ (revision_in d x.attempt_id) x.standing_revision) in
      ground (
        arith,
        e,
        raise_bounds xs d' id m (rw (e, raise_revisions) at h),
        raise_grows xs d' id,
        rw (e, raise_revisions) at h,
        get-put d x.attempt_id id (max_ℕ (revision_in d x.attempt_id) x.standing_revision),
      )
]

filter-all : {A : Type 0} (p : A → Bool) (xs : List A) → all p (filter_by p xs) ≡ true
unfolding filter_by
filter-all p [] = refl
filter-all p (x ∷ xs) = ground (arith, filter-all p xs)

filter-keeps :
    {A : Type 0} (p q : A → Bool) (xs : List A) → all p xs ≡ true → all p (filter_by q xs) ≡ true
unfolding filter_by
filter-keeps p q [] h = refl
filter-keeps p q (x ∷ xs) h = ground (arith, h, filter-keeps p q xs)

min_by-all :
    {A : Type 0} (p : A → Bool) (key : A → ℕ) (best : A) (xs : List A)
    → p best ≡ true
    → all p xs ≡ true
    → p (min_by key best xs) ≡ true
unfolding min_by
min_by-all p key best [] b h = b
min_by-all p key best (x ∷ xs) b h = elim (Bool-cases (ltb (key x) (key best))) [
  | inl e ↦ rw (e, min_by) (min_by-all p key x xs (ground (arith, h)) (ground (arith, h)))
  | inr e ↦ rw (e, min_by) (min_by-all p key best xs b (ground (arith, h)))
]

-- What an intent that is handed out was.
abbrev is_newest : ℕ → List CheckIntent → CheckIntent → Bool
is_newest at intents i =
    is_candidate at i && all (not_newer i.attempt_id i.standing_revision) intents

all-imp :
    {A : Type 0} (p q r : A → Bool) (xs : List A)
    → ((x : A) → p x ≡ true → q x ≡ true → r x ≡ true)
    → all p xs ≡ true
    → all q xs ≡ true
    → all r xs ≡ true
all-imp p q r [] f h k = refl
all-imp p q r (x ∷ xs) f h k = ground (arith, h, k, f x, all-imp p q r xs f)

deliverable-newest :
    (at : ℕ) (intents : List CheckIntent)
    → all (is_newest at intents) (deliverable at intents) ≡ true
unfolding deliverable newest_revisions
deliverable-newest at intents =
    all-imp (is_candidate at)
      (λ i. get (newest_revisions at intents) i.attempt_id == some i.standing_revision)
      (is_newest at intents) (deliverable at intents)
      (λ i c e. ground (
        arith,
        c,
        raise_bounds intents (revisions (filter_by (is_candidate at) intents) []) i.attempt_id
            i.standing_revision (ground (arith, e)),
      ))
      (filter-keeps (is_candidate at) _ (filter_by (is_candidate at) intents)
        (filter-all (is_candidate at) intents))
      (filter-all _ (filter_by (is_candidate at) intents))

first-newest :
    (at lease_seconds : ℕ) (s : Store) (intents xs : List CheckIntent) (i : CheckIntent)
    → all (is_newest at intents) xs ≡ true
    → (claim_first at lease_seconds xs s).0 ≡ some i
    → (j : CheckIntent) × (i ≡ claim_intent at lease_seconds j)
      × (is_candidate at j ≡ true)
      × (all (not_newer j.attempt_id j.standing_revision) intents ≡ true)
      × (get (claim_first at lease_seconds xs s).1.standing_check_intents j.intent_id ≡ some i)
unfolding claim_first
first-newest at lease_seconds s intents [] i n h = cc
first-newest at lease_seconds s intents (x ∷ rest) i n h =
    let j = min_by (λ (k : CheckIntent). k.intent_id) x rest in
    let q =
      min_by-all (is_newest at intents) (λ (k : CheckIntent). k.intent_id) x rest
        (ground (arith, n)) (ground (arith, n)) in
    (
      j,
      ground (arith, h),
      ground (arith, q),
      ground (arith, q),
      get-put_self s.standing_check_intents j.intent_id (claim_intent at lease_seconds j) ∙ h,
    )

-- An intent that is handed out was a candidate: queued and due, or in progress with an expired
-- lease. No pending intent of its Attempt has a newer revision, it is in progress now, and its
-- lease ends the given time later.
pub claimed_intent_is_newest :
    (at lease_seconds : ℕ) (s : Store) (i : CheckIntent)
    → (claim_standing_check_sync at lease_seconds s).0 ≡ some i
    → (j : CheckIntent) × (i ≡ claim_intent at lease_seconds j)
      × (is_candidate at j ≡ true)
      × (all (not_newer j.attempt_id j.standing_revision) (values s.standing_check_intents) ≡ true)
      × (get (claim_standing_check_sync at lease_seconds s).1.standing_check_intents j.intent_id
          ≡ some i)
unfolding claim_standing_check_sync
claimed_intent_is_newest at lease_seconds s i h =
    first-newest at lease_seconds s (values s.standing_check_intents)
      (deliverable at (values s.standing_check_intents)) i
      (deliverable-newest at (values s.standing_check_intents)) h
