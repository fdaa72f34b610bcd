-- ===== src/Core/Dimensions/Limits.antt =====
-- The loop over the required dimensions of src/worktree_review/core/dimension.py, as a whole.
use worktree_review.Base.{
  ℕ, ◌+◌, ◌≤◌, String, false, inl, inr, Option, none, some, List, [], ◌∷◌, map, Option-cases, ◌≡◌,
  refl, subst, arith,
}
use worktree_review.Base.Exec.{Result, ok, err}
use worktree_review.Core.Budget.{UsageRecord, ComputePolicy}
use worktree_review.Core.Failure.{Failure}
use worktree_review.Core.Evidence.{Digests}
use worktree_review.Core.Report.{stage_status_eq}
use worktree_review.Core.Dimensions.{
  Provider, DimensionRunResult, run_one_dimension, next_estimate, stop_before, not_run,
  measured_cost, appended, stop_after, run_loop, run_required_dimensions,
}

-- What the results cost together.
abbrev pub total_measured : List DimensionRunResult → ℕ
total_measured [] = 0
total_measured (r ∷ rest) = measured_cost r.usage + total_measured rest

-- What holds of the results, where no estimate raised.
abbrev pub Holds :
    (List DimensionRunResult → Type 0) → Result Failure (List DimensionRunResult) → Type 0
Holds P (ok results) = P results
Holds P (err failure) = Unit

appended-Holds :
    (P Q : List DimensionRunResult → Type 0) (result : DimensionRunResult)
    (r : Result Failure (List DimensionRunResult))
    → ((results : List DimensionRunResult) → P results → Q (result ∷ results))
    → Holds P r
    → Holds Q (appended result r)
appended-Holds P Q result (ok results) step h = step results h
appended-Holds P Q result (err failure) step h = tt

Holds-ok :
    (P : List DimensionRunResult → Type 0) (r : Result Failure (List DimensionRunResult))
    (results : List DimensionRunResult)
    → r ≡ ok results
    → Holds P r
    → P results
Holds-ok P r results e h = subst (Holds P) e h

module _ (digests : Digests) (provider : Provider) (policy : ComputePolicy)
    (merge_tree_oid : String) where
  abbrev one : String → DimensionRunResult
  one = run_one_dimension digests provider policy merge_tree_oid

  abbrev loop : List String → ℕ → Option String → Result Failure (List DimensionRunResult)
  loop = run_loop digests provider policy merge_tree_oid

  one-dimension_id : (d : String) → (one d).outcome.dimension_id ≡ d
  unfolding run_one_dimension
  one-dimension_id d = ground arith

  abbrev estimate : String → Result Failure UsageRecord
  estimate = next_estimate digests provider policy merge_tree_oid

  abbrev refusal : ℕ → UsageRecord → Option String
  refusal spent e = stop_before digests provider policy merge_tree_oid spent e.cost_usd

  abbrev spent_with : ℕ → String → ℕ
  spent_with spent d = spent + measured_cost (one d).usage

  abbrev stop_with : ℕ → String → Option String
  stop_with spent d =
      stop_after digests provider policy merge_tree_oid (spent_with spent d) (one d).usage

  -- What holds of one more result, with those that the loop may give after it, holds of the loop.
  loop-Holds :
      (Q : List DimensionRunResult → Type 0) (d : String) (rest : List String) (spent : ℕ)
      → ((e : UsageRecord) (reason : String)
          → estimate d ≡ ok e
          → refusal spent e ≡ some reason
          → Holds Q (appended (not_run d reason) (loop rest spent (some reason))))
      → ((e : UsageRecord)
          → estimate d ≡ ok e
          → refusal spent e ≡ none
          → Holds Q (appended (one d) (loop rest (spent_with spent d) (stop_with spent d))))
      → Holds Q (loop (d ∷ rest) spent none)
  unfolding run_loop
  loop-Holds Q d rest spent stops runs = from (estimate d) refl
    where
      from :
          (a : Result Failure UsageRecord) → estimate d ≡ a → Holds Q (loop (d ∷ rest) spent none)
      from (err failure) a = rw (a, run_loop) tt
      from (ok e) a = elim (Option-cases (refusal spent e)) [
        | inl n ↦ rw (a, n, run_loop) (runs e a n)
        | inr (reason, r) ↦ rw (a, r, run_loop) (stops e reason a r)
      ]

  abbrev Ids : List String → List DimensionRunResult → Type 0
  Ids required results = map (λ (r : DimensionRunResult). r.outcome.dimension_id) results ≡ required

  loop-Ids :
      (required : List String) (spent : ℕ) (reason : Option String)
      → Holds (Ids required) (loop required spent reason)
  unfolding run_loop
  loop-Ids [] spent reason = refl
  loop-Ids (d ∷ rest) spent (some reason) =
      appended-Holds (Ids rest) (Ids (d ∷ rest)) (not_run d reason) (loop rest spent (some reason))
        (λ results h. ground (arith, h)) (loop-Ids rest spent (some reason))
  loop-Ids (d ∷ rest) spent none =
      loop-Holds (Ids (d ∷ rest)) d rest spent
        (λ e reason a r.
          appended-Holds (Ids rest) (Ids (d ∷ rest)) (not_run d reason)
            (loop rest spent (some reason)) (λ results h. ground (arith, h))
            (loop-Ids rest spent (some reason)))
        (λ e a r.
          appended-Holds (Ids rest) (Ids (d ∷ rest)) (one d)
            (loop rest (spent_with spent d) (stop_with spent d))
            (λ results h. ground (arith, h, one-dimension_id d))
            (loop-Ids rest (spent_with spent d) (stop_with spent d)))

  abbrev Free : List DimensionRunResult → Type 0
  Free results = total_measured results ≡ 0

  -- Nothing is spent while a reason to stop is set.
  stopped-Free :
      (required : List String) (spent : ℕ) (reason : String)
      → Holds Free (loop required spent (some reason))
  unfolding run_loop
  stopped-Free [] spent reason = refl
  stopped-Free (d ∷ rest) spent reason =
      appended-Holds Free Free (not_run d reason) (loop rest spent (some reason))
        (λ results h. ground (arith, h)) (stopped-Free rest spent reason)

  -- No call costs more than its estimate.
  abbrev pub IsFair : Type 0
  IsFair =
      (d : String) (e : UsageRecord) (cost : ℕ)
      → estimate d ≡ ok e
      → e.cost_usd ≡ some cost
      → measured_cost (one d).usage ≤ cost

  module _ (budget : ℕ) (limit : policy.max_budget_usd ≡ some budget)
      (strict : policy.allow_start_under_uncertain_price ≡ false) (fair : IsFair) where
    -- What may run fits the budget.
    may_run :
        (d : String) (spent : ℕ) (e : UsageRecord)
        → estimate d ≡ ok e
        → refusal spent e ≡ none
        → spent_with spent d ≤ budget
    unfolding stop_before
    may_run d spent e a r = elim (Option-cases e.cost_usd) [
      | inl n ↦ ground (arith, limit, strict, r, n)
      | inr (cost, p) ↦ ground (arith, limit, fair d e cost a p, r, p)
    ]

    abbrev InBudget : ℕ → List DimensionRunResult → Type 0
    InBudget spent results = spent + total_measured results ≤ budget

    after-InBudget :
        (rest : List String) (spent : ℕ) (reason : Option String)
        → spent ≤ budget
        → Holds (InBudget spent) (loop rest spent none)
        → Holds (InBudget spent) (loop rest spent reason)
    after-InBudget rest spent none le h = h
    after-InBudget rest spent (some reason) le h =
        weaken (loop rest spent (some reason)) (stopped-Free rest spent reason)
      where
        weaken :
            (r : Result Failure (List DimensionRunResult)) → Holds Free r → Holds (InBudget spent) r
        weaken (ok results) f = ground (arith, f, le)
        weaken (err failure) f = tt

    loop-InBudget :
        (required : List String) (spent : ℕ)
        → spent ≤ budget
        → Holds (InBudget spent) (loop required spent none)
    unfolding run_loop
    loop-InBudget [] spent le = ground (arith, le)
    loop-InBudget (d ∷ rest) spent le =
        loop-Holds (InBudget spent) d rest spent
          (λ e reason a r.
            appended-Holds Free (InBudget spent) (not_run d reason) (loop rest spent (some reason))
              (λ results h. ground (arith, h, le)) (stopped-Free rest spent reason))
          (λ e a r.
            let fits = may_run d spent e a r in
            appended-Holds (InBudget (spent_with spent d)) (InBudget spent) (one d)
              (loop rest (spent_with spent d) (stop_with spent d)) (λ results h. omega (arith, h))
              (after-InBudget rest (spent_with spent d) (stop_with spent d) fits
                (loop-InBudget rest (spent_with spent d) fits)))

-- Where no estimate raises, every required dimension gets exactly one result, in the order of the
-- policy.
pub one_result_each :
    (digests : Digests) (provider : Provider) (policy : ComputePolicy) (merge_tree_oid : String)
    (required : List String) (results : List DimensionRunResult)
    → run_required_dimensions digests provider policy merge_tree_oid required ≡ ok results
    → map (λ (r : DimensionRunResult). r.outcome.dimension_id) results ≡ required
unfolding run_required_dimensions
one_result_each digests provider policy merge_tree_oid required results h =
    Holds-ok (Ids digests provider policy merge_tree_oid required) _ results h
      (loop-Ids digests provider policy merge_tree_oid required 0 none)

-- With a budget, no start under an uncertain price, and a provider whose calls cost at most their
-- estimates, the measured costs of all dimensions together stay within the budget. No estimate raises,
-- since the loop returns its results.
pub budget_is_kept :
    (digests : Digests) (provider : Provider) (policy : ComputePolicy) (merge_tree_oid : String)
    (required : List String) (budget : ℕ) (results : List DimensionRunResult)
    → policy.max_budget_usd ≡ some budget
    → policy.allow_start_under_uncertain_price ≡ false
    → ((d : String) (e : UsageRecord) (cost : ℕ)
        → next_estimate digests provider policy merge_tree_oid d ≡ ok e
        → e.cost_usd ≡ some cost
        → measured_cost (run_one_dimension digests provider policy merge_tree_oid d).usage ≤ cost)
    → run_required_dimensions digests provider policy merge_tree_oid required ≡ ok results
    → total_measured results ≤ budget
unfolding run_required_dimensions
budget_is_kept digests provider policy merge_tree_oid required budget results limit strict fair h =
    omega (
      arith,
      Holds-ok (InBudget digests provider policy merge_tree_oid budget limit strict fair 0) _
          results h
          (loop-InBudget digests provider policy merge_tree_oid budget limit strict fair required 0
            (omega arith)),
    )
