-- ===== src/Core/Dimensions.antt =====
-- The budgeted loop over the required dimensions of src/worktree_review/core/dimension.py.
-- What the provider answers for a dimension and its estimate of the input are parameters, as is the
-- digest of a fingerprint; a reason to stop does not print its amounts; the progress callback, which cannot change the review, is left out.
pub mod Limits
pub mod Estimate
use Prim.Native.String
use worktree_review.Base.{
  ℕ, ◌+◌, String, Bool, true, false, Option, none, some, is_some, List, [], ◌∷◌, ltb, leb,
  if◌then◌else◌,
}
use worktree_review.Base.Exec.{Result, ok, err}
use worktree_review.Core.Budget.{
  UsageKind, estimated, UsageRecord, ComputePolicy, apply_usage_price,
}
use worktree_review.Core.Failure.{Failure}
use worktree_review.Core.Evidence.{Digests, is_review_worktree, nonempty}
use worktree_review.Core.Evidence.Verify.{fingerprint_finding}
use worktree_review.Core.Findings.{
  Severity, EvidenceBand, EvidenceSource, ChangeKind, EvidenceSpan, Finding,
}
use worktree_review.Core.Report.{StageStatus, completed, failed, not_started, DimensionOutcome}

-- `DimensionFindingDraft`
pub record FindingDraft : Type 0 where
  pub severity : Severity
  pub evidence_band : EvidenceBand
  pub problem_statement : String
  pub expected_impact : String
  pub path : String
  pub start_line : ℕ
  pub end_line : ℕ
  pub quoted_text : String
  pub source : EvidenceSource
  pub snapshot_identity : Option String
  pub change_kind : Option ChangeKind
  pub repair_guidance : Option String

-- What `complete_structured` and the validation of its payload give: drafts with their usage, a
-- `ProviderError` before or after the usage is known, or another exception.
pub data ProviderReply : Type 0 where
  replied : List FindingDraft → UsageRecord → ProviderReply
  bad_payload : String → UsageRecord → ProviderReply
  provider_error : String → Option UsageRecord → ProviderReply
  other_error : String → ProviderReply

pub record DimensionRunResult : Type 0 where
  pub outcome : DimensionOutcome
  pub findings : List Finding
  pub usage : Option UsageRecord

pub record Provider : Type 0 where
  pub provider_name : String
  pub model : String
  pub estimate_input_tokens : String → Result Failure UsageRecord
  pub complete_structured : String → ProviderReply

-- The snapshot of a draft: that of the Review Worktree where the draft names none.
unfoldable pub draft_snapshot : FindingDraft → Option String → Option String
draft_snapshot draft default =
    if is_review_worktree draft.source
    then elim (nonempty draft.snapshot_identity) [
      | some snapshot ↦ draft.snapshot_identity
      | none ↦ elim default [ none ↦ draft.snapshot_identity | some snapshot ↦ some snapshot ]
    ]
    else draft.snapshot_identity

abbrev pub measured_cost : Option UsageRecord → ℕ
measured_cost none = 0
measured_cost (some usage) = elim usage.cost_usd [ none ↦ 0 | some cost ↦ cost ]

abbrev pub is_measured : Option UsageRecord → Bool
is_measured none = false
is_measured (some usage) = is_some usage.cost_usd

abbrev pub failure : String → String → Option UsageRecord → DimensionRunResult
failure dimension_id detail usage = record {
  outcome = record { dimension_id = dimension_id; status = failed; detail = some detail };
  findings = [];
  usage = usage;
}

abbrev pub priced : ComputePolicy → Option UsageRecord → Option UsageRecord
priced policy none = none
priced policy (some usage) = some (apply_usage_price usage policy)

abbrev pub not_run : String → String → DimensionRunResult
not_run dimension_id reason = record {
  outcome = record { dimension_id = dimension_id; status = not_started; detail = some reason };
  findings = [];
  usage = none;
}

-- The results with one before them, unless an estimate of the others raises.
abbrev pub appended :
    DimensionRunResult
    → Result Failure (List DimensionRunResult)
    → Result Failure (List DimensionRunResult)
appended result (ok results) = ok (result ∷ results)
appended result (err failure) = err failure

module _ (digests : Digests) where
  unfoldable pub draft_finding : String → Option String → FindingDraft → Finding
  unfolding draft_snapshot
  draft_finding dimension_id default draft = record {
    fingerprint =
        fingerprint_finding digests draft.path draft.start_line draft.end_line dimension_id
          draft.problem_statement;
    severity = draft.severity;
    evidence_band = draft.evidence_band;
    problem_statement = draft.problem_statement;
    expected_impact = draft.expected_impact;
    evidence_spans =
        record {
          path = draft.path;
          start_line = draft.start_line;
          end_line = draft.end_line;
          quoted_text = draft.quoted_text;
          context_class = "workspace";
          source = draft.source;
          snapshot_identity = draft_snapshot draft default;
          change_kind = draft.change_kind;
        }
        ∷ [];
    repair_guidance = draft.repair_guidance;
    bypass_applied = false;
    dimension_id = some dimension_id;
  }

  -- The loop of `findings_from_payload`.
  unfoldable pub findings_from_drafts :
      String → Option String → List FindingDraft → Result String (List Finding)
  unfolding draft_finding
  findings_from_drafts dimension_id default [] = ok []
  findings_from_drafts dimension_id default (draft ∷ rest) =
      let later = findings_from_drafts dimension_id default rest in
      if ltb draft.end_line draft.start_line
      then err (
          String.◌++◌ "dimension "
            (String.◌++◌ dimension_id (String.◌++◌ " returned inverted line range on " draft.path)))
      else elim later [
        | ok findings ↦ ok (draft_finding dimension_id default draft ∷ findings)
        | err detail ↦ err detail
      ]

  module _ (provider : Provider) (policy : ComputePolicy) (merge_tree_oid : String) where
    -- `_run_one_dimension`
    unfoldable pub run_one_dimension : String → DimensionRunResult
    run_one_dimension dimension_id = elim (provider.complete_structured dimension_id) [
      | provider_error detail usage ↦ failure dimension_id detail (priced policy usage)
      | other_error detail ↦ failure dimension_id detail none
      | bad_payload detail usage ↦ failure dimension_id detail (priced policy (some usage))
      | replied drafts usage ↦
          elim (findings_from_drafts dimension_id (some merge_tree_oid) drafts) [
            | err detail ↦ failure dimension_id detail (priced policy (some usage))
            | ok findings ↦ record {
              outcome = record { dimension_id = dimension_id; status = completed; detail = none };
              findings = findings;
              usage = priced policy (some usage);
            }
          ]
    ]

    -- `estimate_one_dimension_call`, priced. Its note is that of the input estimate alone.
    unfoldable pub next_estimate : String → Result Failure UsageRecord
    next_estimate dimension_id = elim (provider.estimate_input_tokens dimension_id) [
      | err failure ↦ err failure
      | ok input ↦ ok (
          apply_usage_price
            (record {
              kind = estimated;
              input_tokens = input.input_tokens;
              output_tokens = some policy.max_output_tokens_per_call;
              cost_usd = none;
              provider = provider.provider_name;
              model = provider.model;
              note = input.note;
            })
            policy)
    ]

    -- Why the next dimension may not start.
    unfoldable pub stop_before : ℕ → Option ℕ → Option String
    stop_before spent cost = elim policy.max_budget_usd [
      | none ↦ none
      | some budget ↦ elim cost [
        | none ↦
            if policy.allow_start_under_uncertain_price
            then none
            else some "in-flight price/usage is uncertain; remaining dimensions not started"
        | some next ↦
            if ltb budget (spent + next)
            then some "remaining budget cannot cover the estimate"
            else none
      ]
    ]

    -- Why no dimension after this one may start.
    unfoldable pub stop_after : ℕ → Option UsageRecord → Option String
    stop_after spent usage = elim policy.max_budget_usd [
      | none ↦ none
      | some budget ↦
          if is_measured usage
          then if leb budget spent
            then some "per-review budget exhausted after measured usage"
            else none
          else none
    ]

    -- The loop of `run_required_dimensions`, with what was spent and the reason to stop. What an
    -- estimate raises is raised again.
    unfoldable pub run_loop :
        List String → ℕ → Option String → Result Failure (List DimensionRunResult)
    unfolding run_one_dimension stop_before stop_after
    run_loop [] spent reason = ok []
    run_loop (d ∷ rest) spent (some reason) =
        appended (not_run d reason) (run_loop rest spent (some reason))
    run_loop (d ∷ rest) spent none =
        let result = run_one_dimension d in
        let spent' = spent + measured_cost result.usage in
        elim (next_estimate d) [
          | err failure ↦ err failure
          | ok estimate ↦ elim (stop_before spent estimate.cost_usd) [
            | some reason ↦ appended (not_run d reason) (run_loop rest spent (some reason))
            | none ↦ appended result (run_loop rest spent' (stop_after spent' result.usage))
          ]
        ]

    -- `run_required_dimensions`
    unfoldable pub run_required_dimensions : List String → Result Failure (List DimensionRunResult)
    unfolding run_loop
    run_required_dimensions required = run_loop required 0 none
