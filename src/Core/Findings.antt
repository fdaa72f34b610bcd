-- ===== src/Core/Findings.antt =====
-- The data of src/worktree_review/core/findings.py: severities, evidence bands with their ranks,
-- spans and findings; and the part of `ReviewPolicy` in src/worktree_review/core/policy.py that the
-- gate and the context read.
use worktree_review.Base.{ℕ, String, Bool, Option, List, Eq}

pub data Severity : Type 0 where
  critical major minor suggestion : Severity

pub data EvidenceBand : Type 0 where
  insufficient supported verified : EvidenceBand

pub data EvidenceSource : Type 0 where
  review_worktree target_tree merge_diff metadata : EvidenceSource

pub data ChangeKind : Type 0 where
  added modified deleted : ChangeKind

Severity-discrete : Discrete Severity
Severity-discrete = hlevel

instance unfoldable pub severity_eq : Eq Severity
unfolding Severity-discrete
severity_eq = record { dec = Severity-discrete }

EvidenceSource-discrete : Discrete EvidenceSource
EvidenceSource-discrete = hlevel

instance unfoldable pub evidence_source_eq : Eq EvidenceSource
unfolding EvidenceSource-discrete
evidence_source_eq = record { dec = EvidenceSource-discrete }

ChangeKind-discrete : Discrete ChangeKind
ChangeKind-discrete = hlevel

instance unfoldable pub change_kind_eq : Eq ChangeKind
unfolding ChangeKind-discrete
change_kind_eq = record { dec = ChangeKind-discrete }

-- `EVIDENCE_BAND_RANK`
abbrev pub band_rank : EvidenceBand → ℕ
band_rank insufficient = 0
band_rank supported = 1
band_rank verified = 2

-- `_SEVERITY_RANK`
abbrev pub severity_rank : Severity → ℕ
severity_rank suggestion = 0
severity_rank minor = 1
severity_rank major = 2
severity_rank critical = 3

pub record EvidenceSpan : Type 0 where
  pub path : String
  pub start_line : ℕ
  pub end_line : ℕ
  pub quoted_text : String
  pub context_class : String
  pub source : EvidenceSource
  pub snapshot_identity : Option String
  pub change_kind : Option ChangeKind

pub record Finding : Type 0 where
  pub fingerprint : String
  pub severity : Severity
  pub evidence_band : EvidenceBand
  pub problem_statement : String
  pub expected_impact : String
  pub evidence_spans : List EvidenceSpan
  pub repair_guidance : Option String
  pub bypass_applied : Bool
  pub dimension_id : Option String

-- `ContextPolicy` of src/worktree_review/core/policy.py
pub record ContextPolicy : Type 0 where
  pub max_file_bytes : ℕ
  pub excluded_globs : List String
  pub mandatory_globs : List String
  pub optional_globs : List String

-- `ReviewPolicy`
pub record ReviewPolicy : Type 0 where
  pub version : String
  pub required_dimensions : List String
  pub blocking_severities : List Severity
  pub minimum_blocking_evidence_band : EvidenceBand
  pub context : ContextPolicy
