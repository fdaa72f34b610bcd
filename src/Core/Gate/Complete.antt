-- ===== src/Core/Gate/Complete.antt =====
-- Reviews with one outcome for each required dimension, in src/worktree_review/core/gate.py.
use worktree_review.Base.{
  String, Bool, true, false, List, [], ◌∷◌, map, all, filter_by, contains, ◌==◌, string_eq,
  Bool-cases, inl, inr, ◌≡◌, ◌≢◌, refl, subst, arith,
}
use worktree_review.Core.Gate.{GateEvaluationInput, evaluate_gate}
use worktree_review.Core.Gate.Verdict.{CompletedOnce, outcomes_of, not_error_is_complete}
use worktree_review.Core.Report.{error, completed, DimensionOutcome, stage_status_eq}

abbrev pub dimension_ids : List DimensionOutcome → List String
dimension_ids outcomes = map (λ (o : DimensionOutcome). o.dimension_id) outcomes

abbrev single_completed : List DimensionOutcome → Bool
single_completed (o ∷ []) = o.status == completed
single_completed _ = false

outcomes_of-present :
    (outcomes : List DimensionOutcome) (d : String)
    → contains (dimension_ids outcomes) d ≡ true
    → outcomes_of d outcomes ≢ []
unfolding filter_by
outcomes_of-present [] d c e = ground arith
outcomes_of-present (o ∷ rest) d c e = ground (arith, outcomes_of-present rest d, c, e)

-- Where every dimension has one outcome, which is completed, every outcome is completed.
all_single :
    (outcomes : List DimensionOutcome)
    → ((d : String)
        → contains (dimension_ids outcomes) d ≡ true
        → single_completed (outcomes_of d outcomes) ≡ true)
    → all (λ (o : DimensionOutcome). o.status == completed) outcomes ≡ true
unfolding filter_by
all_single [] h = refl
all_single (o ∷ rest) h = ground (
  arith,
  first (outcomes_of o.dimension_id rest) (ground (arith, h o.dimension_id)),
  all_single rest (λ d c. elim (Bool-cases (o.dimension_id == d)) [
    | inl e ↦ ground (arith, h d, c, e, twice d c)
    | inr e ↦ ground (arith, h d, c, e)
  ]),
)
  where
    first :
        (others : List DimensionOutcome)
        → single_completed (o ∷ others) ≡ true
        → (o.status == completed) ≡ true
    first [] s = s
    first (p ∷ others) s = ground (arith, s)

    twice :
        (d : String)
        → contains (dimension_ids rest) d ≡ true
        → single_completed (o ∷ outcomes_of d rest) ≡ false
    twice d c = several (outcomes_of d rest) (outcomes_of-present rest d c)
      where
        several :
            (others : List DimensionOutcome) → others ≢ [] → single_completed (o ∷ others) ≡ false
        several [] n = elim (n refl) [ ]
        several (p ∷ others) n = refl

-- Where every outcome is that of a required dimension, the gate is an Error unless all completed.
pub incomplete_is_error :
    (input : GateEvaluationInput)
    → dimension_ids input.dimension_outcomes ≡ input.review_policy.required_dimensions
    → evaluate_gate input ≢ error
    → all (λ (o : DimensionOutcome). o.status == completed) input.dimension_outcomes ≡ true
unfolding stage_status_eq
incomplete_is_error input ids n =
    let (some_required, covered_all, once) = not_error_is_complete input n in
    all_single input.dimension_outcomes
      (λ d c. single d (once d (subst (λ (names : List String). contains names d ≡ true) ids c)))
  where
    single :
        (d : String)
        → CompletedOnce d input.dimension_outcomes
        → single_completed (outcomes_of d input.dimension_outcomes) ≡ true
    single d (o, alone, done) = rw (alone, done) refl
