-- ===== src/Core/Context/Loops.antt =====
-- What the loops of `gather_context` in src/worktree_review/core/context.py keep.
use worktree_review.Base.{
  String, false, List, [], ◌∷◌, contains, string_eq, option_eq, Bool-cases, inl, inr, ◌≡◌, refl,
  arith,
}
use worktree_review.Base.Exec.{Result, ok, err}
use worktree_review.Core.Context.{Host, no_texts}
use worktree_review.Core.Context.Gather.{
  Progress, GatheredContext, is_excluded, gather_matches, glob_matches, gather_globs, gathered,
  gather_context, unified_diff, in_scope_paths,
}
use worktree_review.Core.Evidence.{ContextItem, context_class_eq}
use worktree_review.Core.Findings.{ContextPolicy, change_kind_eq}
use worktree_review.Core.Identity.{MergeCandidateIdentity}

module _ (host : Host) (policy : ContextPolicy) (candidate : MergeCandidateIdentity) where
  -- What each added path keeps, the loops keep.
  pub gather_matches-keeps {ℓ} :
      (P : Progress → Type ℓ) (add : String → Progress → Progress) (paths : List String)
      (at : Progress)
      → ((path : String) (at : Progress)
          → contains at.classified path ≡ false
          → is_excluded host policy candidate path ≡ false
          → P at
          → P (add path at))
      → P at
      → P (gather_matches host policy candidate add paths at)
  unfolding gather_matches
  gather_matches-keeps P add [] at step h = h
  gather_matches-keeps P add (path ∷ paths) at step h =
      elim (Bool-cases (contains at.classified path)) [
        | inl c ↦ rw (c) (gather_matches-keeps P add paths at step h)
        | inr c ↦ elim (Bool-cases (is_excluded host policy candidate path)) [
          | inl e ↦ rw (c, e) (gather_matches-keeps P add paths at step h)
          | inr e ↦
              rw (c, e) (gather_matches-keeps P add paths (add path at) step (step path at c e h))
        ]
      ]

  pub gather_globs-keeps {ℓ} :
      (P : Progress → Type ℓ) (add : String → Progress → Progress) (patterns : List String)
      (at : Progress)
      → ((path : String) (at : Progress)
          → contains at.classified path ≡ false
          → is_excluded host policy candidate path ≡ false
          → P at
          → P (add path at))
      → ((missing : List String) (at : Progress) → P at → P (record at { missing = missing }))
      → P at
      → P (gather_globs host policy candidate add patterns at)
  unfolding gather_globs
  gather_globs-keeps P add [] at step miss h = h
  gather_globs-keeps P add (pattern ∷ patterns) at step miss h =
      elim (Bool-cases (no_texts (glob_matches host policy candidate pattern))) [
        | inl n ↦ rw (n) (gather_globs-keeps P add patterns _ step miss (miss _ at h))
        | inr n ↦ rw (n) (
            gather_globs-keeps P add patterns _ step miss
              (gather_matches-keeps P add (glob_matches host policy candidate pattern) at step h))
      ]

-- The result of `gather_context`.
pub gather_context-ok :
    (host : Host) (policy : ContextPolicy) (candidate : MergeCandidateIdentity) (tree : String)
    (changes : List (String × String)) (g : GatheredContext)
    → host.commit_tree_oid candidate.target_head_oid ≡ ok tree
    → host.diff_name_status tree candidate.merge_tree_oid ≡ ok changes
    → gather_context host policy candidate ≡ ok g
    → (diff : ContextItem) × (unified_diff host policy candidate tree
          (in_scope_paths host policy candidate changes)
        ≡ ok diff)
      × (gathered host policy candidate tree changes diff ≡ g)
unfolding gather_context
gather_context-ok host policy candidate tree changes g t d h =
    from (unified_diff host policy candidate tree (in_scope_paths host policy candidate changes))
      refl
  where
    from :
        (r : Result String ContextItem)
        → unified_diff host policy candidate tree (in_scope_paths host policy candidate changes) ≡ r
        → (diff : ContextItem) × (unified_diff host policy candidate tree
              (in_scope_paths host policy candidate changes)
            ≡ ok diff)
          × (gathered host policy candidate tree changes diff ≡ g)
    from (err detail) u = ground (arith, t, d, h, u)
    from (ok diff) u = (diff, u, ground (arith, t, d, h, u))
