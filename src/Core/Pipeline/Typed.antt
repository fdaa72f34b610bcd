-- ===== src/Core/Pipeline/Typed.antt =====
-- What the estimates of a provider raise, in src/worktree_review/core/dimension.py.
use worktree_review.Base.{
  ℕ, String, Bool, true, false, Option, none, some, List, [], ◌∷◌, Option-cases, inl, inr, ◌≡◌,
  refl, arith,
}
use worktree_review.Base.Exec.{Result, ok, err}
use worktree_review.Core.Budget.{UsageRecord, ComputePolicy}
use worktree_review.Core.Dimensions.{
  Provider, DimensionRunResult, appended, next_estimate, stop_before, run_loop,
  run_required_dimensions,
}
use worktree_review.Core.Dimensions.Estimate.{input_estimates, estimate_all_dimension_calls}
use worktree_review.Core.Evidence.{Digests}
use worktree_review.Core.Failure.{Failure, review_error, other_error}

-- The result is none of an exception other than a `WorktreeReviewError`.
abbrev pub is_typed : {A : Type 0} → Result Failure A → Bool
is_typed (ok a) = true
is_typed (err (review_error detail)) = true
is_typed (err (other_error detail)) = false

input_estimates-is_typed :
    (required : List String) (provider : Provider)
    → ((d : String) → is_typed (provider.estimate_input_tokens d) ≡ true)
    → is_typed (input_estimates required provider) ≡ true
unfolding input_estimates
input_estimates-is_typed [] provider t = refl
input_estimates-is_typed (d ∷ rest) provider t =
    ground (arith, t d, input_estimates-is_typed rest provider t)

pub estimate_all-is_typed :
    (required : List String) (provider : Provider) (policy : ComputePolicy)
    → ((d : String) → is_typed (provider.estimate_input_tokens d) ≡ true)
    → is_typed (estimate_all_dimension_calls required provider policy) ≡ true
unfolding estimate_all_dimension_calls
estimate_all-is_typed [] provider policy t = refl
estimate_all-is_typed (d ∷ rest) provider policy t =
    ground (arith, input_estimates-is_typed (d ∷ rest) provider t)

module _ (digests : Digests) (provider : Provider) (policy : ComputePolicy)
    (merge_tree_oid : String)
    (t : (d : String) → is_typed (provider.estimate_input_tokens d) ≡ true) where
  appended-is_typed :
      (result : DimensionRunResult) (r : Result Failure (List DimensionRunResult))
      → is_typed r ≡ true
      → is_typed (appended result r) ≡ true
  appended-is_typed result (ok results) h = refl
  appended-is_typed result (err failure) h = h

  run_loop-is_typed :
      (required : List String) (spent : ℕ) (reason : Option String)
      → is_typed (run_loop digests provider policy merge_tree_oid required spent reason) ≡ true
  unfolding run_loop next_estimate
  run_loop-is_typed [] spent reason = refl
  run_loop-is_typed (d ∷ rest) spent (some reason) =
      appended-is_typed _ _ (run_loop-is_typed rest spent (some reason))
  run_loop-is_typed (d ∷ rest) spent none =
      from (next_estimate digests provider policy merge_tree_oid d) refl
        (λ spent reason. run_loop-is_typed rest spent reason)
    where
      from :
          (a : Result Failure UsageRecord)
          → next_estimate digests provider policy merge_tree_oid d ≡ a
          → ((spent : ℕ) (reason : Option String)
              → is_typed (run_loop digests provider policy merge_tree_oid rest spent reason) ≡ true)
          → is_typed (run_loop digests provider policy merge_tree_oid (d ∷ rest) spent none) ≡ true
      from (err failure) a follow = rw (a, run_loop) (ground (arith, a, t d))
      from (ok e) a follow =
          elim (Option-cases
            (stop_before digests provider policy merge_tree_oid spent e.cost_usd)) [
              | inl n ↦ rw (a, n, run_loop) (appended-is_typed _ _ (follow _ _))
              | inr (reason, r) ↦ rw (a, r, run_loop) (appended-is_typed _ _ (follow _ _))
            ]

pub run_required_dimensions-is_typed :
    (digests : Digests) (provider : Provider) (policy : ComputePolicy) (merge_tree_oid : String)
    (required : List String)
    → ((d : String) → is_typed (provider.estimate_input_tokens d) ≡ true)
    → is_typed (run_required_dimensions digests provider policy merge_tree_oid required) ≡ true
unfolding run_required_dimensions
run_required_dimensions-is_typed digests provider policy merge_tree_oid required t =
    run_loop-is_typed digests provider policy merge_tree_oid t required 0 none
