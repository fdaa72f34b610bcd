-- ===== src/Core/Dimensions/Estimate.antt =====
-- The estimate of all dimensions before a review, of src/worktree_review/core/dimension.py.
use worktree_review.Base.{ℕ, ◌+◌, ◌*◌, String, Option, none, some, List, [], ◌∷◌, length, map}
use worktree_review.Core.Budget.{estimated, UsageRecord, ComputePolicy, apply_usage_price}
use worktree_review.Base.Exec.{Result, ok, err}
use worktree_review.Core.Failure.{Failure}
use worktree_review.Core.Dimensions.{Provider}

-- The sum, if every part is known.
unfoldable pub sum_known : List (Option ℕ) → Option ℕ
sum_known [] = some 0
sum_known (none ∷ parts) = none
sum_known (some n ∷ parts) = elim (sum_known parts) [ none ↦ none | some m ↦ some (n + m) ]

unfoldable pub combined : Provider → Option ℕ → ℕ → String → UsageRecord
combined provider input_tokens output_tokens note = record {
  kind = estimated;
  input_tokens = input_tokens;
  output_tokens = some output_tokens;
  cost_usd = none;
  provider = provider.provider_name;
  model = provider.model;
  note = some note;
}

-- The input estimates of the dimensions, or what one of them raises.
unfoldable pub input_estimates : List String → Provider → Result Failure (List UsageRecord)
input_estimates [] provider = ok []
input_estimates (d ∷ rest) provider =
    let later = input_estimates rest provider in
    elim (provider.estimate_input_tokens d) [
      | err failure ↦ err failure
      | ok part ↦ elim later [ err failure ↦ err failure | ok parts ↦ ok (part ∷ parts) ]
    ]

-- `estimate_all_dimension_calls`
unfoldable pub estimate_all_dimension_calls :
    List String → Provider → ComputePolicy → Result Failure UsageRecord
unfolding sum_known combined input_estimates
estimate_all_dimension_calls [] provider policy =
    ok (apply_usage_price (combined provider (some 0) 0 "no required dimensions") policy)
estimate_all_dimension_calls (d ∷ rest) provider policy =
    elim (input_estimates (d ∷ rest) provider) [
      | err failure ↦ err failure
      | ok parts ↦ ok (
          apply_usage_price
            (combined provider (sum_known (map (λ (part : UsageRecord). part.input_tokens) parts))
              (length (d ∷ rest) * policy.max_output_tokens_per_call)
              "sum of per-dimension structured-call estimates")
            policy)
    ]
