-- ===== src/Core/Gate/Verdict.antt =====
-- What the gate evaluator of src/worktree_review/core/gate.py decides.
use worktree_review.Base.{
  String, Bool, true, false, not, ◌&&◌, Option, none, some, List, [], ◌∷◌, ◌++◌, length, all, any,
  filter_by, contains, ◌==◌, nat_eq, string_eq, if◌then◌else◌, ◌≡◌, ◌≢◌, ◌∙◌, refl, arith,
}
use worktree_review.Base.Dict.{Dict, get, put, get-put, get-nil}
use worktree_review.Core.Findings.{insufficient, Finding, ReviewPolicy, severity_eq}
use worktree_review.Core.Report.{
  passed, passed_with_bypass, blocked, error, completed, stage_status_eq, DimensionOutcome,
}
use worktree_review.Core.Gate.{
  GateEvaluationInput, finding_blocks_under_policy, recorded, by_dimension, one_each, is_completed,
  is_empty, gate_of_findings, evaluate_gate,
}

-- The outcomes that were recorded for a dimension.
abbrev pub outcomes_of : String → List DimensionOutcome → List DimensionOutcome
outcomes_of d outcomes = filter_by (λ o. o.dimension_id == d) outcomes

append_nil : {A : Type 0} (xs : List A) → xs ++ [] ≡ xs
append_nil [] = refl
append_nil (x ∷ xs) = rw (append_nil xs)

append_assoc : {A : Type 0} (xs ys zs : List A) → (xs ++ ys) ++ zs ≡ xs ++ (ys ++ zs)
append_assoc [] ys zs = refl
append_assoc (x ∷ xs) ys zs = rw (append_assoc xs ys zs)

by_dimension-get :
    (outcomes : List DimensionOutcome) (grouped : Dict String (List DimensionOutcome)) (d : String)
    → recorded (get (by_dimension outcomes grouped) d)
      ≡ recorded (get grouped d) ++ outcomes_of d outcomes
unfolding by_dimension filter_by
by_dimension-get [] grouped d = rw (append_nil (recorded (get grouped d)))
by_dimension-get (o ∷ rest) grouped d =
    by_dimension-get rest
      (put grouped o.dimension_id (recorded (get grouped o.dimension_id) ++ o ∷ [])) d
    ∙ ground (
      arith,
      get-put grouped o.dimension_id d (recorded (get grouped o.dimension_id) ++ o ∷ []),
      append_assoc (recorded (get grouped o.dimension_id)) (o ∷ []) (outcomes_of d rest),
    )

all-get :
    (grouped : Dict String (List DimensionOutcome)) (d : String) (outcomes : List DimensionOutcome)
    → one_each grouped ≡ true
    → get grouped d ≡ some outcomes
    → length outcomes ≡ 1
unfolding one_each get
all-get [] d outcomes h p = cc
all-get ((k, v) ∷ rest) d outcomes h p = ground (arith, all-get rest d outcomes)

all-contains :
    (test : String → Bool) (xs : List String) (x : String)
    → all test xs ≡ true
    → contains xs x ≡ true
    → test x ≡ true
all-contains test [] x h c = cc
all-contains test (y ∷ ys) x h c = ground (arith, all-contains test ys x)

-- The tests that the evaluator makes before it looks at the findings.
abbrev is_complete : GateEvaluationInput → Bool
is_complete input =
    let grouped = by_dimension input.dimension_outcomes [] in
    not (is_empty input.review_policy.required_dimensions)
    && one_each grouped
    && all (is_completed grouped) input.review_policy.required_dimensions
    && input.coverage.required_coverage_complete

gate_of_findings-ne_error :
    (findings : List Finding) (policy : ReviewPolicy) → gate_of_findings findings policy ≢ error
unfolding gate_of_findings
gate_of_findings-ne_error findings policy h = ground arith

not_error-is_complete :
    (input : GateEvaluationInput) → evaluate_gate input ≢ error → is_complete input ≡ true
unfolding evaluate_gate
not_error-is_complete input h = ground arith

is_complete-gate :
    (input : GateEvaluationInput)
    → is_complete input ≡ true
    → evaluate_gate input ≡ gate_of_findings input.findings input.review_policy
unfolding evaluate_gate
is_complete-gate input h = ground arith

is_empty-filter :
    {A : Type 0} (test : A → Bool) (xs : List A) → is_empty (filter_by test xs) ≡ not (any test xs)
unfolding filter_by
is_empty-filter test [] = refl
is_empty-filter test (x ∷ xs) = ground (arith, is_empty-filter test xs)

filter-filter :
    {A : Type 0} (p q : A → Bool) (xs : List A)
    → filter_by q (filter_by p xs) ≡ filter_by (λ x. p x && q x) xs
unfolding filter_by
filter-filter p q [] = refl
filter-filter p q (x ∷ xs) = ground (arith, filter-filter p q xs)

-- One outcome of the dimension, and it is completed.
abbrev pub CompletedOnce : String → List DimensionOutcome → Type 0
CompletedOnce d outcomes =
    (o : DimensionOutcome) × (outcomes_of d outcomes ≡ o ∷ []) × (o.status ≡ completed)

completed_once :
    (outcomes : List DimensionOutcome) (d : String)
    → one_each (by_dimension outcomes []) ≡ true
    → is_completed (by_dimension outcomes []) d ≡ true
    → CompletedOnce d outcomes
unfolding is_completed
completed_once outcomes d one c = single (get (by_dimension outcomes []) d) refl
  where
    single :
        (r : Option (List DimensionOutcome))
        → get (by_dimension outcomes []) d ≡ r
        → CompletedOnce d outcomes
    single none e = ground arith
    single (some []) e = ground arith
    single (some (o ∷ [])) e = (
      o,
      ground (arith, by_dimension-get outcomes [] d, get-nil {V = List DimensionOutcome} d),
      ground arith,
    )
    single (some (o ∷ p ∷ rest)) e =
        ground (arith, all-get (by_dimension outcomes []) d (o ∷ p ∷ rest) one e)

-- Unless the gate is Error, the policy requires some dimension, every required dimension has exactly
-- one recorded outcome, which is completed, and the required coverage is complete.
pub not_error_is_complete :
    (input : GateEvaluationInput)
    → evaluate_gate input ≢ error
    → (input.review_policy.required_dimensions ≢ [])
      × (input.coverage.required_coverage_complete ≡ true)
      × ((d : String)
          → contains input.review_policy.required_dimensions d ≡ true
          → CompletedOnce d input.dimension_outcomes)
not_error_is_complete input h =
    let c = not_error-is_complete input h in
    (
      λ e. ground (arith, c, e),
      ground (arith, c),
      λ d m. completed_once input.dimension_outcomes d (ground (arith, c)) (
          all-contains (is_completed (by_dimension input.dimension_outcomes []))
            input.review_policy.required_dimensions d (ground (arith, c)) m),
    )

abbrev pub is_unresolved : ReviewPolicy → Finding → Bool
is_unresolved policy finding =
    finding_blocks_under_policy finding policy && not finding.bypass_applied

-- Unless the gate is Error, it is Blocked when some finding blocks under the policy without a
-- bypass, else Passed with bypass when some finding blocks, else Passed.
pub gate_verdict :
    (input : GateEvaluationInput)
    → evaluate_gate input ≢ error
    → evaluate_gate input ≡ (
        if any (is_unresolved input.review_policy) input.findings
        then blocked
        else if any (λ f. finding_blocks_under_policy f input.review_policy) input.findings
        then passed_with_bypass
        else passed)
unfolding gate_of_findings
gate_verdict input h =
    is_complete-gate input (not_error-is_complete input h)
    ∙ ground (
      arith,
      filter-filter (λ f. finding_blocks_under_policy f input.review_policy)
          (λ f. not f.bypass_applied) input.findings,
      is_empty-filter (is_unresolved input.review_policy) input.findings,
      is_empty-filter (λ f. finding_blocks_under_policy f input.review_policy) input.findings,
    )

-- What a policy can enforce on.
abbrev pub is_sufficient : Finding → Bool
is_sufficient finding = elim finding.evidence_band [ insufficient ↦ false | _ ↦ true ]

blocking-sufficient :
    (policy : ReviewPolicy) (findings : List Finding)
    → filter_by (λ f. finding_blocks_under_policy f policy) (filter_by is_sufficient findings)
      ≡ filter_by (λ f. finding_blocks_under_policy f policy) findings
unfolding filter_by finding_blocks_under_policy
blocking-sufficient policy [] = refl
blocking-sufficient policy (f ∷ rest) = ground (arith, blocking-sufficient policy rest)

-- Findings with insufficient evidence never change the gate, whatever the policy says.
pub insufficient_never_decides :
    (input : GateEvaluationInput)
    → evaluate_gate (record input { findings = filter_by is_sufficient input.findings })
      ≡ evaluate_gate input
unfolding evaluate_gate gate_of_findings
insufficient_never_decides input =
    ground (arith, blocking-sufficient input.review_policy input.findings)
