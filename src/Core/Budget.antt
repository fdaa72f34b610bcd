-- ===== src/Core/Budget.antt =====
-- Usage, its price and the pre-flight budget of src/worktree_review/core/provider.py, with the part
-- of `ComputePolicy` in src/worktree_review/core/policy.py that they read.
-- Money is a natural number of some least unit. Prices are per million tokens, so an amount counts
-- millionths of the unit that the prices count; the rounding of `Decimal` does not arise.
use worktree_review.Base.{ℕ, ◌+◌, ◌*◌, String, Bool, Option, none, some, ltb, if◌then◌else◌}

pub data UsageKind : Type 0 where
  measured declared estimated : UsageKind

pub record UsageRecord : Type 0 where
  pub kind : UsageKind
  pub input_tokens : Option ℕ
  pub output_tokens : Option ℕ
  pub cost_usd : Option ℕ
  pub provider : String
  pub model : String
  pub note : Option String

pub record ComputePolicy : Type 0 where
  pub provider : String
  pub model : String
  pub max_output_tokens_per_call : ℕ
  pub max_budget_usd : Option ℕ
  pub allow_start_under_uncertain_price : Bool
  pub input_usd_per_million_tokens : Option ℕ
  pub output_usd_per_million_tokens : Option ℕ
  pub provider_configuration_fingerprint : Option String
  pub data_destination : String
  pub known_retention : String

pub data BudgetDecision : Type 0 where
  start refuse stop_further_dimensions : BudgetDecision

-- What the tokens of one kind cost, if there are any: nothing known is `some none`.
abbrev pub token_cost : Option ℕ → Option ℕ → Option (Option ℕ)
token_cost none price = none
token_cost (some tokens) none = some none
token_cost (some tokens) (some price) = some (some (tokens * price))

-- The sum of the two; no tokens at all are not priced.
abbrev pub total_cost : Option (Option ℕ) → Option (Option ℕ) → Option ℕ
total_cost none none = none
total_cost none (some b) = b
total_cost (some none) b = none
total_cost (some (some a)) none = some a
total_cost (some (some a)) (some none) = none
total_cost (some (some a)) (some (some b)) = some (a + b)

unfoldable pub apply_usage_price : UsageRecord → ComputePolicy → UsageRecord
apply_usage_price usage policy = record usage {
  cost_usd =
      total_cost (token_cost usage.input_tokens policy.input_usd_per_million_tokens)
        (token_cost usage.output_tokens policy.output_usd_per_million_tokens);
}

unfoldable pub preflight_budget : ComputePolicy → UsageRecord → BudgetDecision
preflight_budget policy usage = elim policy.max_budget_usd [
  | none ↦ start
  | some budget ↦ elim usage.cost_usd [
    | none ↦ if policy.allow_start_under_uncertain_price then start else refuse
    | some cost ↦ if ltb budget cost then refuse else start
  ]
]

-- Two branches of the message of `refuse_preflight`; the amounts are not printed.
unfoldable pub refuse_preflight : UsageRecord → String
refuse_preflight usage = elim usage.cost_usd [
  | none ↦
      "pre-flight price/usage is uncertain and Compute Policy allow_start_under_uncertain_price is false"
  | some cost ↦ "pre-flight estimated cost exceeds max_budget_usd"
]
