-- ===== src/Core/Pipeline/Examples.antt =====
-- A small review that the pipeline runs to its end.
use worktree_review.Base.{
  String, Bool, true, false, none, some, List, [], ◌∷◌, string_eq, ◌==◌, ◌||◌, filter_by, map, any,
  all, contains, nat_eq, option_eq, ◌≡◌, ◌≢◌, refl, subst, arith,
}
use worktree_review.Base.Exec.{Result, ok, err}
use worktree_review.Core.Pipeline.Typed.{is_typed}
use worktree_review.Base.Dict.{get, put}
use worktree_review.Core.Budget.{measured, UsageRecord, apply_usage_price, preflight_budget}
use worktree_review.Core.Context.{
  after_any_folder, has_slash, without_trailing_slashes, review_text, change_kind_of, Host,
  coverage_from_items, path_matches_any_glob, path_matches_glob, item_from_bytes,
}
use worktree_review.Core.Context.Complete.{
  has_read, is_mandatory, complete_coverage_reads_everything,
}
use worktree_review.Core.Context.Gather.{gather_context, GatheredContext, gathered, is_excluded}
use worktree_review.Core.Context.Scope.{
  distinct, item_paths, after_diff, is_withheld, DiffOf, scoped, gathers_each_path_once,
  excluded_paths_are_withheld,
}
use worktree_review.Core.Dimensions.{
  Provider, replied, next_estimate, findings_from_drafts, run_required_dimensions,
}
use worktree_review.Core.Dimensions.Estimate.{estimate_all_dimension_calls}
use worktree_review.Core.Evidence.{sorted, ReviewWorktree, ContextItem, mandatory, context_class_eq}
use worktree_review.Core.Evidence.Text.{
  without_dots, forward_slashes, split_slashes, take, has_prefix,
}
use worktree_review.Core.Evidence.Verify.{verify_and_deduplicate}
use worktree_review.Core.Findings.{
  critical, major, supported, merge_diff, ReviewPolicy, change_kind_eq, severity_eq,
}
use worktree_review.Core.Gate.{evaluate_gate, is_completed, gate_of_findings}
use worktree_review.Core.Identity.{PolicyVersionIdentity, committed_ref, MergeCandidateIdentity}
use worktree_review.Core.Pipeline.{ReviewRequest, ReviewReport, Failure, Services, Event}
use worktree_review.Core.Pipeline.Promise.{
  report_records_every_stage, gate_needs_every_stage, review_always_reports,
}
use worktree_review.Core.Pipeline.Run.{complete_report}
use worktree_review.Core.Pipeline.Reads.{decided_review_has_read_everything}
use worktree_review.Core.Pipeline.Stages.{
  run_review_pipeline, after_construct, after_prepare, after_gather, after_coverage,
  after_dimensions, after_verify, gather_stage, owner_note, selected_provider,
}
use worktree_review.Core.Pipeline.Worktree.{RemovedOrNone, review_worktree_is_removed}
use worktree_review.Core.Pipeline.Sound.{endings, told, stages_completed, disclosed_input}
use worktree_review.Core.Report.{
  error, passed, StageOutcome, pipeline_stage_order, stage_status_eq, gate_state_eq,
}

abbrev host : Host
host = record {
  fnmatch = λ path pattern. path == pattern;
  decode = λ bytes. some "x = 1";
  encode = λ text. 120 ∷ [];
  is_repository = true;
  is_worktree = true;
  commit_tree_oid = λ commit. ok "t1";
  diff_name_status = λ from to. ok (("M", "a.py") ∷ ("M", "secret.pem") ∷ []);
  git_blob_bytes = λ commit path. none;
  run_git_diff = λ from to paths. ok "+x = 1";
  worktree_paths = "README" ∷ "a.py" ∷ "secret.pem" ∷ [];
  read_bytes = λ path. some (120 ∷ []);
}

abbrev version : PolicyVersionIdentity
version = record { semver = "1.0.0"; sha256 = "ab" }

abbrev policy : ReviewPolicy
policy = record {
  version = "1";
  required_dimensions = "security" ∷ [];
  blocking_severities = critical ∷ major ∷ [];
  minimum_blocking_evidence_band = supported;
  context = record {
    max_file_bytes = 100;
    excluded_globs = "secret.pem" ∷ [];
    mandatory_globs = "README" ∷ [];
    optional_globs = "AGENTS.md" ∷ [];
  };
}

abbrev candidate : MergeCandidateIdentity
candidate = record {
  source_repository = "r";
  target_ref = "main";
  target_head_oid = "c1";
  proposed_head_oid = "c2";
  merge_tree_oid = "m1";
}

abbrev diff : ContextItem
diff = record {
  path = "merge-candidate.diff";
  context_class = mandatory;
  source = merge_diff;
  snapshot_identity = some "t1..m1";
  change_kind = none;
  body = some "+x = 1";
  omission_reason = none;
}

abbrev changes : List (String × String)
changes = ("M", "a.py") ∷ ("M", "secret.pem") ∷ []

abbrev context : GatheredContext
context = gathered host policy.context candidate "t1" changes diff

gathers : gather_context host policy.context candidate ≡ ok context
unfolding gather_context path_matches_any_glob path_matches_glob string_eq without_dots
    forward_slashes nat_eq split_slashes after_any_folder has_slash without_trailing_slashes
    review_text take has_prefix
gathers = refl

covers : context.coverage.required_coverage_complete ≡ true
unfolding gathered path_matches_any_glob path_matches_glob string_eq without_dots forward_slashes
    nat_eq split_slashes after_any_folder has_slash without_trailing_slashes review_text take
    has_prefix coverage_from_items filter_by context_class_eq change_kind_eq change_kind_of
    item_from_bytes
covers = refl

a_py-included : is_excluded host policy.context candidate "a.py" ≡ false
unfolding is_excluded path_matches_any_glob path_matches_glob string_eq without_dots forward_slashes
    nat_eq split_slashes after_any_folder has_slash without_trailing_slashes review_text take
    has_prefix
a_py-included = refl

a_py-changed :
    (contains (map (λ (change : String × String). change.1) changes) "a.py"
      || is_mandatory host policy.context candidate "a.py")
    ≡ true
unfolding path_matches_any_glob path_matches_glob string_eq without_dots forward_slashes nat_eq
    split_slashes after_any_folder has_slash without_trailing_slashes review_text take has_prefix
a_py-changed = refl

changes-distinct : distinct (map (λ (change : String × String). change.1) changes) ≡ true
unfolding string_eq
changes-distinct = refl

complete_coverage_reads_everything_example :
    any (has_read host candidate "a.py") context.items ≡ true
complete_coverage_reads_everything_example =
    complete_coverage_reads_everything host policy.context candidate "t1" changes context refl refl
      gathers covers "a.py" a_py-included a_py-changed

gathers_each_path_once_example : distinct (item_paths (after_diff context.items)) ≡ true
gathers_each_path_once_example =
    gathers_each_path_once host policy.context candidate "t1" changes context refl refl gathers
      changes-distinct

excluded_paths_are_withheld_example :
    (all (is_withheld host policy.context candidate) (after_diff context.items) ≡ true)
    × ((diff : ContextItem) × (context.items ≡ diff ∷ after_diff context.items)
        × DiffOf host policy.context candidate "t1"
            (scoped host policy.context candidate
              (map (λ (change : String × String). change.1) changes))
            diff)
excluded_paths_are_withheld_example =
    excluded_paths_are_withheld host policy.context candidate "t1" changes context refl refl gathers

abbrev usage : UsageRecord
usage = record {
  kind = measured;
  input_tokens = some 1;
  output_tokens = some 1;
  cost_usd = none;
  provider = "anthropic";
  model = "m";
  note = none;
}

abbrev provider : Provider
provider = record {
  provider_name = "anthropic";
  model = "m";
  estimate_input_tokens = λ d. ok usage;
  complete_structured = λ d. replied [] usage;
}

abbrev attempt_id : String
attempt_id = "a1"

abbrev request : ReviewRequest
request = record {
  resolved = record {
    source_repository = "r";
    target_ref = "main";
    target_head_oid = "c1";
    proposed_ref = "topic";
    proposed_head_oid = "c2";
    proposed_source = committed_ref;
  };
  review_policy = policy;
  review_policy_version = version;
  compute_policy = record {
    provider = "anthropic";
    model = "m";
    provider_configuration_fingerprint = none;
    data_destination = "cloud";
    known_retention = "none";
    max_output_tokens_per_call = 5;
    max_budget_usd = some 120;
    allow_start_under_uncertain_price = false;
    input_usd_per_million_tokens = some 3;
    output_usd_per_million_tokens = some 6;
  };
  compute_policy_version = version;
  surface = "cli";
}

abbrev services : Services
services = record {
  construct_merge_candidate = λ resolved. ok candidate;
  materialize_review_worktree =
      λ candidate owner. ok (record { merge_tree_oid = "m1"; read_text = λ path. some "x = 1" });
  cleanup_review_worktree = λ worktree. ok tt;
  host = λ worktree. host;
  provider = some provider;
  build_provider = λ policy. err (Failure.review_error "no provider");
  on_call_plan_ready = λ plan. ok tt;
  digests = record { sha256_hex = λ text. text; dump_json = λ f. f.problem_statement };
}

review_worktree_is_removed_example :
    RemovedOrNone (run_review_pipeline services request attempt_id []).1
review_worktree_is_removed_example =
    review_worktree_is_removed services request attempt_id (λ worktree. refl)

a1-allocated : (attempt_id == "") ≡ false
unfolding string_eq
a1-allocated = refl

provider-is_typed :
    (p : Provider) (d : String)
    → selected_provider services request attempt_id ≡ ok p
    → is_typed (p.estimate_input_tokens d) ≡ true
provider-is_typed p d e = subst (λ (r : Result Failure Provider). estimates r d ≡ true) e refl
  where
    estimates : Result Failure Provider → String → Bool
    estimates (ok p) d = is_typed (p.estimate_input_tokens d)
    estimates (err failure) d = true

review_always_reports_example :
    (report : ReviewReport) × ((run_review_pipeline services request attempt_id []).0 ≡ ok report)
review_always_reports_example =
    review_always_reports services request attempt_id a1-allocated refl (λ c owner. refl) refl
      (λ plan. refl) (λ worktree. refl) provider-is_typed

-- What the run returns: a report that passes.
finished :
    (report : ReviewReport) × (log : List Event) × (run_review_pipeline services request attempt_id
        []
      ≡ (ok report, log))
    × (report.gate_state ≡ passed)
unfolding run_review_pipeline after_construct after_prepare after_gather after_coverage
    after_dimensions after_verify gather_stage complete_report gather_context path_matches_any_glob
    path_matches_glob string_eq without_dots forward_slashes nat_eq split_slashes after_any_folder
    has_slash without_trailing_slashes review_text take has_prefix coverage_from_items filter_by
    context_class_eq change_kind_eq change_kind_of item_from_bytes preflight_budget
    estimate_all_dimension_calls apply_usage_price evaluate_gate run_required_dimensions
    next_estimate put get is_completed findings_from_drafts stage_status_eq gate_state_eq
    gate_of_findings verify_and_deduplicate sorted
finished = (_, _, refl, refl)

abbrev report : ReviewReport
report = finished.0

abbrev log : List Event
log = finished.1

decided : report.gate_state ≢ error
decided e = ground (arith, finished.3, e)

report_records_every_stage_example :
    (map (λ (o : StageOutcome). o.stage) report.execution.outcomes ≡ pipeline_stage_order)
    × (endings log ≡ told report.execution.outcomes)
report_records_every_stage_example =
    report_records_every_stage services request attempt_id report log finished.2

gate_needs_every_stage_example :
    (stages_completed report.execution.outcomes ≡ true)
    × (report.gate_state ≡ evaluate_gate (disclosed_input request report))
gate_needs_every_stage_example =
    gate_needs_every_stage services request attempt_id report log finished.2 decided

decided_review_has_read_everything_example :
    (candidate : MergeCandidateIdentity) × (worktree : ReviewWorktree)
    × (gathered : GatheredContext) × (services.construct_merge_candidate request.resolved
        ≡ ok candidate)
    × (services.materialize_review_worktree candidate (owner_note services request attempt_id)
        ≡ ok worktree)
    × (gather_context (services.host worktree) policy.context candidate ≡ ok gathered)
    × ((tree : String) (changes : List (String × String)) (path : String)
        → (services.host worktree).commit_tree_oid candidate.target_head_oid ≡ ok tree
        → (services.host worktree).diff_name_status tree candidate.merge_tree_oid ≡ ok changes
        → is_excluded (services.host worktree) policy.context candidate path ≡ false
        → (contains (map (λ (change : String × String). change.1) changes) path
            || is_mandatory (services.host worktree) policy.context candidate path)
          ≡ true
        → any (has_read (services.host worktree) candidate path) gathered.items ≡ true)
decided_review_has_read_everything_example =
    decided_review_has_read_everything services request attempt_id report log finished.2 decided
