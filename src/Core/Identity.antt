-- ===== src/Core/Identity.antt =====
-- src/worktree_review/core/identity.py: what a review is about. Texts are only compared.
use worktree_review.Base.{String, Eq, string_eq}

pub data ProposedSource : Type 0 where
  committed_ref current_worktree_snapshot : ProposedSource

pub record PolicyVersionIdentity : Type 0 where
  pub semver : String
  pub sha256 : String

pub record ReviewRequestKey : Type 0 where
  pub source_repository : String
  pub target_ref : String
  pub target_head_oid : String
  pub proposed_head_oid : String
  pub review_policy_version : PolicyVersionIdentity

pub record ResolvedCommitPair : Type 0 where
  pub source_repository : String
  pub target_ref : String
  pub target_head_oid : String
  pub proposed_ref : String
  pub proposed_head_oid : String
  pub proposed_source : ProposedSource

pub record MergeCandidateIdentity : Type 0 where
  pub source_repository : String
  pub target_ref : String
  pub target_head_oid : String
  pub proposed_head_oid : String
  pub merge_tree_oid : String

pub record ReviewIdentity : Type 0 where
  pub candidate : MergeCandidateIdentity
  pub review_policy_version : PolicyVersionIdentity

abbrev String-discrete : Discrete String
String-discrete = string_eq.dec

PolicyVersionIdentity-discrete : Discrete PolicyVersionIdentity
unfolding string_eq
PolicyVersionIdentity-discrete = hlevel String-discrete

ReviewRequestKey-discrete : Discrete ReviewRequestKey
unfolding PolicyVersionIdentity-discrete
ReviewRequestKey-discrete = hlevel (String-discrete, PolicyVersionIdentity-discrete)

MergeCandidateIdentity-discrete : Discrete MergeCandidateIdentity
unfolding string_eq
MergeCandidateIdentity-discrete = hlevel String-discrete

ReviewIdentity-discrete : Discrete ReviewIdentity
unfolding PolicyVersionIdentity-discrete MergeCandidateIdentity-discrete
ReviewIdentity-discrete = hlevel (MergeCandidateIdentity-discrete, PolicyVersionIdentity-discrete)

instance unfoldable pub policy_version_eq : Eq PolicyVersionIdentity
unfolding PolicyVersionIdentity-discrete
policy_version_eq = record { dec = PolicyVersionIdentity-discrete }

instance unfoldable pub request_key_eq : Eq ReviewRequestKey
unfolding ReviewRequestKey-discrete
request_key_eq = record { dec = ReviewRequestKey-discrete }

instance unfoldable pub review_identity_eq : Eq ReviewIdentity
unfolding ReviewIdentity-discrete
review_identity_eq = record { dec = ReviewIdentity-discrete }
