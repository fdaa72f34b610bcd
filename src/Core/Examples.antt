-- ===== src/Core/Examples.antt =====
-- Small reviews that the gate, the verifier and the budgeted loop decide.
use worktree_review.Base.{
  ℕ, ◌≤◌, String, true, false, ◌&&◌, none, some, List, [], ◌∷◌, map, all, any, contains, filter_by,
  option_eq, leb, ◌≡◌, ◌≢◌, refl, arith, string_eq, nat_eq, if◌then◌else◌,
}
use worktree_review.Base.Dict.{get, put}
use worktree_review.Core.Findings.{
  critical, major, minor, insufficient, supported, verified, review_worktree, EvidenceSpan, Finding,
  ReviewPolicy, severity_eq, band_rank, severity_rank,
}
use worktree_review.Core.Report.{
  passed, passed_with_bypass, blocked, error, completed, DimensionOutcome, stage_status_eq,
}
use worktree_review.Core.Gate.{
  GateEvaluationInput, finding_blocks_under_policy, by_dimension, one_each, is_completed,
  gate_of_findings, evaluate_gate,
}
use worktree_review.Core.Gate.Verdict.{
  CompletedOnce, is_unresolved, is_sufficient, gate_verdict, not_error_is_complete,
  insufficient_never_decides,
}
use worktree_review.Core.Evidence.{Digests, ReviewWorktree}
use worktree_review.Core.Evidence.Verify.{
  has_spans, verify_finding, merge_duplicate_findings, verify_and_deduplicate,
}
use worktree_review.Core.Evidence.Capped.{evidence_is_capped}
use worktree_review.Core.Evidence.Grounding.{
  is_quoted, declared, declarations_are_ignored, band_is_grounding, merge_is_conservative,
}
use worktree_review.Core.Evidence.Text.{
  forward_slashes, without_dots, split_slashes, starts_with_slash, is_unsafe_part,
  normalize_evidence_path,
}
use worktree_review.Core.Evidence.Text.Paths.{normalized_is_safe}
use worktree_review.Core.Budget.{measured, estimated, UsageRecord, ComputePolicy, apply_usage_price}
use worktree_review.Base.Exec.{ok}
use worktree_review.Core.Dimensions.{
  DimensionRunResult, Provider, replied, findings_from_drafts, next_estimate, measured_cost,
  run_one_dimension, run_required_dimensions,
}
use worktree_review.Core.Dimensions.Limits.{total_measured, one_result_each, budget_is_kept}

abbrev span : EvidenceSpan
span = record {
  path = "./a.py";
  start_line = 2;
  end_line = 2;
  quoted_text = "y";
  context_class = "workspace";
  source = review_worktree;
  snapshot_identity = none;
  change_kind = none;
}

abbrev finding : Finding
finding = record {
  fingerprint = "f1";
  severity = major;
  evidence_band = supported;
  problem_statement = "wrong";
  expected_impact = "breaks";
  evidence_spans = span ∷ [];
  repair_guidance = none;
  bypass_applied = false;
  dimension_id = some "security";
}

abbrev policy : ReviewPolicy
policy = record {
  version = "1";
  required_dimensions = "security" ∷ [];
  blocking_severities = critical ∷ major ∷ [];
  minimum_blocking_evidence_band = supported;
  context = record {
    max_file_bytes = 100;
    excluded_globs = [];
    mandatory_globs = [];
    optional_globs = [];
  };
}

abbrev outcome : DimensionOutcome
outcome = record { dimension_id = "security"; status = completed; detail = none }

abbrev input : GateEvaluationInput
input = record {
  dimension_outcomes = outcome ∷ [];
  coverage = record {
    required_coverage_complete = true;
    mandatory_missing = [];
    optional_missing = [];
    excluded = [];
    unreviewable = [];
    reviewed = "a.py" ∷ [];
  };
  findings = finding ∷ [];
  review_policy = policy;
}

input-blocked : evaluate_gate input ≡ blocked
unfolding evaluate_gate by_dimension one_each is_completed gate_of_findings
    finding_blocks_under_policy filter_by get put string_eq nat_eq stage_status_eq severity_eq
input-blocked = refl

input-ne_error : evaluate_gate input ≢ error
input-ne_error h = ground (arith, input-blocked, h)

gate_verdict_example : evaluate_gate input ≡ (
    if any (is_unresolved policy) (finding ∷ [])
    then blocked
    else if any (λ f. finding_blocks_under_policy f policy) (finding ∷ [])
    then passed_with_bypass
    else passed)
gate_verdict_example = gate_verdict input input-ne_error

not_error_is_complete_example :
    (policy.required_dimensions ≢ [])
    × (true ≡ true)
    × ((d : String) → contains policy.required_dimensions d ≡ true → CompletedOnce d (outcome ∷ []))
not_error_is_complete_example = not_error_is_complete input input-ne_error

insufficient_never_decides_example :
    evaluate_gate (record input { findings = filter_by is_sufficient (finding ∷ []) })
    ≡ evaluate_gate input
insufficient_never_decides_example = insufficient_never_decides input

abbrev digests : Digests
digests = record { sha256_hex = λ t. t; dump_json = λ f. f.problem_statement }

abbrev worktree : ReviewWorktree
worktree = record { merge_tree_oid = "m1"; read_text = λ p. some "x\ny\n" }

evidence_is_capped_example :
    all
      (λ f. leb (band_rank f.evidence_band) (band_rank supported))
      (verify_and_deduplicate digests (finding ∷ []) (some worktree) none)
    ≡ true
evidence_is_capped_example = evidence_is_capped digests (finding ∷ []) (some worktree) none

declarations_are_ignored_example :
    verify_and_deduplicate digests
      (map (declared (λ f. "forged") (λ f. verified)) (finding ∷ []))
      (some worktree)
      none
    ≡ verify_and_deduplicate digests (finding ∷ []) (some worktree) none
declarations_are_ignored_example =
    declarations_are_ignored digests (λ f. "forged") (λ f. verified) (finding ∷ []) (some worktree)
      none

band_is_grounding_example : (verify_finding digests (some worktree) [] finding).evidence_band ≡ (
    if has_spans (span ∷ []) && all (is_quoted (some worktree) []) (span ∷ [])
    then supported
    else insufficient)
band_is_grounding_example = band_is_grounding digests (some worktree) [] finding

abbrev minor_finding : Finding
minor_finding = record finding { severity = minor; bypass_applied = true }

abbrev merged : Finding
merged = merge_duplicate_findings digests minor_finding (finding ∷ [])

merge_is_conservative_example :
    (all
        (λ f. leb (severity_rank f.severity) (severity_rank merged.severity))
        (minor_finding ∷ finding ∷ [])
      ≡ true)
    × (all
          (λ f. leb (band_rank f.evidence_band) (band_rank merged.evidence_band))
          (minor_finding ∷ finding ∷ [])
        ≡ true)
    × (merged.bypass_applied ≡ false)
merge_is_conservative_example = merge_is_conservative digests minor_finding (finding ∷ [])

abbrev long_path : String
long_path = "./././src\\a.py"

abbrev short_path : String
short_path = "src/a.py"

path-normalized : normalize_evidence_path long_path ≡ some short_path
unfolding normalize_evidence_path forward_slashes without_dots split_slashes string_eq nat_eq
path-normalized = refl

normalized_is_safe_example :
    (starts_with_slash short_path ≡ false)
    × (any is_unsafe_part (split_slashes short_path) ≡ false)
    × (normalize_evidence_path short_path ≡ some short_path)
normalized_is_safe_example = normalized_is_safe long_path short_path path-normalized

abbrev usage : UsageRecord
usage = record {
  kind = measured;
  input_tokens = some 10;
  output_tokens = some 2;
  cost_usd = none;
  provider = "anthropic";
  model = "scripted";
  note = none;
}

abbrev provider : Provider
provider = record {
  provider_name = "anthropic";
  model = "scripted";
  estimate_input_tokens =
      λ d. ok (record usage { kind = estimated; input_tokens = some 20; output_tokens = none });
  complete_structured = λ d. replied [] usage;
}

abbrev compute : ComputePolicy
compute = record {
  provider = "anthropic";
  model = "m";
  provider_configuration_fingerprint = none;
  data_destination = "cloud";
  known_retention = "none";
  max_output_tokens_per_call = 5;
  max_budget_usd = some 120;
  allow_start_under_uncertain_price = false;
  input_usd_per_million_tokens = some 3;
  output_usd_per_million_tokens = some 6;
}

calls-fair :
    (d : String) (e : UsageRecord) (cost : ℕ)
    → next_estimate digests provider compute "m1" d ≡ ok e
    → e.cost_usd ≡ some cost
    → measured_cost (run_one_dimension digests provider compute "m1" d).usage ≤ cost
unfolding next_estimate run_one_dimension findings_from_drafts apply_usage_price
calls-fair d e cost h p = ground (arith, h, p)

abbrev dimensions : List String
dimensions = "security" ∷ "correctness" ∷ "tests" ∷ []

dimension_runs :
    (results : List DimensionRunResult) × (run_required_dimensions digests provider compute "m1"
        dimensions
      ≡ ok results)
unfolding run_required_dimensions next_estimate findings_from_drafts apply_usage_price
dimension_runs = (_, refl)

budget_is_kept_example : total_measured dimension_runs.0 ≤ 120
budget_is_kept_example =
    budget_is_kept digests provider compute "m1" dimensions 120 dimension_runs.0 refl refl
      calls-fair dimension_runs.1

one_result_each_example :
    map (λ (r : DimensionRunResult). r.outcome.dimension_id) dimension_runs.0 ≡ dimensions
one_result_each_example =
    one_result_each digests provider compute "m1" dimensions dimension_runs.0 dimension_runs.1
