-- ===== src/Core/Context/Scope.antt =====
-- The items of src/worktree_review/core/context.py: no path twice, and nothing of excluded paths.
use worktree_review.Base.{
  ℕ, String, Bool, true, false, not, ◌&&◌, ◌||◌, Option, none, some, is_some, List, [], ◌∷◌, ◌++◌,
  map, all, contains, ◌==◌, string_eq, Bool-cases, filter_by, ◌⊎◌, inl, inr, ◌≡◌, refl, subst,
  arith,
}
use worktree_review.Base.Exec.{Result, ok, err}
use worktree_review.Core.Context.{
  Host, Bytes, item_from_bytes, change_kind_of, is_unreviewable, review_text,
}
use worktree_review.Core.Context.Loops.{gather_globs-keeps, gather_context-ok}
use worktree_review.Core.Context.Gather.{
  Progress, GatheredContext, is_excluded, change_item, mandatory_item, add_mandatory, optional_item,
  add_optional, after_changes, after_mandatory, after_optional, gathered, gather_context,
  in_scope_paths, unified_diff,
}
use worktree_review.Core.Evidence.{ContextClass, optional, ContextItem, context_class_eq}
use worktree_review.Core.Findings.{EvidenceSource, ChangeKind, ContextPolicy, change_kind_eq}
use worktree_review.Core.Identity.{MergeCandidateIdentity}

abbrev pub distinct : List String → Bool
distinct [] = true
distinct (path ∷ paths) = not (contains paths path) && distinct paths

abbrev pub item_paths : List ContextItem → List String
item_paths items = map (λ (item : ContextItem). item.path) items

-- The items after the diff, which comes first.
abbrev pub after_diff : List ContextItem → List ContextItem
after_diff [] = []
after_diff (diff ∷ items) = items

paths-append :
    (items : List ContextItem) (item : ContextItem) (q : String)
    → contains (item_paths (items ++ item ∷ [])) q
      ≡ (item.path == q || contains (item_paths items) q)
paths-append [] item q = ground arith
paths-append (i ∷ items) item q = ground (arith, paths-append items item q)

distinct-append :
    (items : List ContextItem) (item : ContextItem)
    → distinct (item_paths items) ≡ true
    → contains (item_paths items) item.path ≡ false
    → distinct (item_paths (items ++ item ∷ [])) ≡ true
distinct-append [] item d c = ground arith
distinct-append (i ∷ items) item d c = ground (
  arith,
  string_eq.dec i.path item.path,
  string_eq.dec item.path i.path,
  paths-append items item i.path,
  distinct-append items item,
)

all-append :
    (test : ContextItem → Bool) (items : List ContextItem) (item : ContextItem)
    → all test items ≡ true
    → test item ≡ true
    → all test (items ++ item ∷ []) ≡ true
all-append test [] item a t = ground arith
all-append test (i ∷ items) item a t = ground (arith, all-append test items item)

item_from_bytes-path :
    (host : Host) (path : String) (bytes : Option Bytes) (context_class : ContextClass)
    (source : EvidenceSource) (snapshot : String) (kind : Option ChangeKind) (size : ℕ)
    (missing : String)
    → (item_from_bytes host path bytes context_class source snapshot kind size missing).path ≡ path
unfolding item_from_bytes
item_from_bytes-path host path none context_class source snapshot kind size missing = refl
item_from_bytes-path host path (some bytes) context_class source snapshot kind size missing =
    ground arith

module _ (host : Host) (policy : ContextPolicy) (candidate : MergeCandidateIdentity) where
  -- The classified paths are those of the items, each once.
  abbrev Tracks : Progress → Type 0
  Tracks at =
      ((q : String) → contains at.classified q ≡ contains (item_paths at.items) q)
      × (distinct (item_paths at.items) ≡ true)

  Tracks-append :
      (at : Progress) (path : String) (item : ContextItem) (missing : List String)
      → contains at.classified path ≡ false
      → item.path ≡ path
      → Tracks at
      → Tracks (record {
        classified = path ∷ at.classified;
        items = at.items ++ item ∷ [];
        missing = missing;
      })
  Tracks-append at path item missing c p (same, once) = (
    λ q. ground (arith, same q, p, paths-append at.items item q),
    distinct-append at.items item once (ground (arith, same path, p, c)),
  )

  change_item-path :
      (tree : String) (change : String × String)
      → (change_item host policy candidate tree change).path ≡ change.1
  unfolding change_item
  change_item-path tree (status, path) =
      elim (Bool-cases (is_excluded host policy candidate path)) [
        | inl e ↦ rw (e) refl
        | inr e ↦ elim (Bool-cases (change_kind_of status == ChangeKind.deleted)) [
          | inl k ↦ rw (e, k) (item_from_bytes-path host path _ _ _ _ _ _ _)
          | inr k ↦ rw (e, k) (item_from_bytes-path host path _ _ _ _ _ _ _)
        ]
      ]

  change_items-paths :
      (tree : String) (changes : List (String × String))
      → item_paths (map (change_item host policy candidate tree) changes)
        ≡ map (λ (change : String × String). change.1) changes
  change_items-paths tree [] = refl
  change_items-paths tree (change ∷ changes) =
      rw (change_item-path tree change, change_items-paths tree changes) refl

  add_mandatory-Tracks :
      (path : String) (at : Progress)
      → contains at.classified path ≡ false
      → Tracks at
      → Tracks (add_mandatory host policy candidate path at)
  unfolding add_mandatory mandatory_item
  add_mandatory-Tracks path at c h =
      Tracks-append at path (mandatory_item host policy candidate path) at.missing c
        (item_from_bytes-path host path _ _ _ _ _ _ _) h

  add_optional-Tracks :
      (path : String) (at : Progress)
      → contains at.classified path ≡ false
      → Tracks at
      → Tracks (add_optional host policy candidate path at)
  unfolding add_optional optional_item
  add_optional-Tracks path at c h =
      elim (Bool-cases (is_unreviewable (optional_item host policy candidate path))) [
        | inl u ↦ rw (u) (
            Tracks-append at path _ (at.missing ++ path ∷ []) c
              (item_from_bytes-path host path _ _ _ _ _ _ _) h)
        | inr u ↦
            rw (u) (
              Tracks-append at path _ at.missing c (item_from_bytes-path host path _ _ _ _ _ _ _) h)
      ]

  after_optional-Tracks :
      (tree : String) (changes : List (String × String))
      → distinct (map (λ (change : String × String). change.1) changes) ≡ true
      → Tracks (after_optional host policy candidate tree changes)
  unfolding after_optional after_mandatory after_changes
  after_optional-Tracks tree changes d =
      gather_globs-keeps host policy candidate Tracks (add_optional host policy candidate)
        policy.optional_globs _ (λ p at n x h. add_optional-Tracks p at n h) (λ m at h. h)
        (gather_globs-keeps host policy candidate Tracks (add_mandatory host policy candidate)
          policy.mandatory_globs _ (λ p at n x h. add_mandatory-Tracks p at n h) (λ m at h. h)
          (λ q. rw (change_items-paths tree changes) refl, rw (change_items-paths tree changes) d))

  -- The paths that the policy does not exclude.
  abbrev pub scoped : List String → List String
  scoped paths = filter_by (λ path. not (is_excluded host policy candidate path)) paths

  -- Nothing of an excluded path.
  abbrev pub is_withheld : ContextItem → Bool
  is_withheld item = not (is_excluded host policy candidate item.path && is_some item.body)

  read-withheld :
      (path : String) (item : ContextItem)
      → is_excluded host policy candidate path ≡ false
      → item.path ≡ path
      → is_withheld item ≡ true
  read-withheld path item e p = rw (p, e) refl

  change_items-withheld :
      (tree : String) (changes : List (String × String))
      → all is_withheld (map (change_item host policy candidate tree) changes) ≡ true
  unfolding change_item
  change_items-withheld tree [] = refl
  change_items-withheld tree ((status, path) ∷ changes) =
      elim (Bool-cases (is_excluded host policy candidate path)) [
        | inl e ↦ rw (e) (ground (arith, change_items-withheld tree changes))
        | inr e ↦
            rw
              (read-withheld path (change_item host policy candidate tree (status, path)) e
                (change_item-path tree (status, path)))
              (change_items-withheld tree changes)
      ]

  add_mandatory-withheld :
      (path : String) (at : Progress)
      → is_excluded host policy candidate path ≡ false
      → all is_withheld at.items ≡ true
      → all is_withheld (add_mandatory host policy candidate path at).items ≡ true
  unfolding add_mandatory mandatory_item
  add_mandatory-withheld path at e h = all-append is_withheld at.items _ h (
      read-withheld path (mandatory_item host policy candidate path) e
        (item_from_bytes-path host path _ _ _ _ _ _ _))

  add_optional-withheld :
      (path : String) (at : Progress)
      → is_excluded host policy candidate path ≡ false
      → all is_withheld at.items ≡ true
      → all is_withheld (add_optional host policy candidate path at).items ≡ true
  unfolding add_optional optional_item
  add_optional-withheld path at e h =
      elim (Bool-cases (is_unreviewable (optional_item host policy candidate path))) [
        | inl u ↦ rw (u) (
            all-append is_withheld at.items _ h (
              read-withheld path
                (record (optional_item host policy candidate path) {
                  context_class = optional;
                  body = none;
                })
                e (item_from_bytes-path host path _ _ _ _ _ _ _)))
        | inr u ↦ rw (u) (
            all-append is_withheld at.items _ h (
              read-withheld path (optional_item host policy candidate path) e
                (item_from_bytes-path host path _ _ _ _ _ _ _)))
      ]

  after_optional-withheld :
      (tree : String) (changes : List (String × String))
      → all is_withheld (after_optional host policy candidate tree changes).items ≡ true
  unfolding after_optional after_mandatory after_changes
  after_optional-withheld tree changes =
      gather_globs-keeps host policy candidate (λ at. all is_withheld at.items ≡ true)
        (add_optional host policy candidate) policy.optional_globs _
        (λ p at n x h. add_optional-withheld p at x h) (λ m at h. h)
        (gather_globs-keeps host policy candidate (λ at. all is_withheld at.items ≡ true)
          (add_mandatory host policy candidate) policy.mandatory_globs _
          (λ p at n x h. add_mandatory-withheld p at x h) (λ m at h. h)
          (change_items-withheld tree changes))

  in_scope_paths-filter :
      (changes : List (String × String))
      → in_scope_paths host policy candidate changes
        ≡ scoped (map (λ (c : String × String). c.1) changes)
  unfolding in_scope_paths filter_by
  in_scope_paths-filter [] = refl
  in_scope_paths-filter ((status, path) ∷ changes) = ground (arith, in_scope_paths-filter changes)

  -- The item has what git answers for exactly these paths, or has no text.
  abbrev pub DiffOf : String → List String → ContextItem → Type 0
  DiffOf tree [] diff = diff.body ≡ some ""
  DiffOf tree (path ∷ paths) diff =
      (stdout : String) × (host.run_git_diff tree candidate.merge_tree_oid (path ∷ paths)
        ≡ ok stdout)
      × ((diff.body ≡ none) ⊎ (diff.body ≡ some stdout))

  unified_diff-of :
      (tree : String) (paths : List String) (diff : ContextItem)
      → unified_diff host policy candidate tree paths ≡ ok diff
      → DiffOf tree paths diff
  unfolding unified_diff
  unified_diff-of tree [] diff u = ground (arith, u)
  unified_diff-of tree (path ∷ paths) diff u =
      from (host.run_git_diff tree candidate.merge_tree_oid (path ∷ paths)) refl
    where
      from :
          (answer : Result String String)
          → host.run_git_diff tree candidate.merge_tree_oid (path ∷ paths) ≡ answer
          → DiffOf tree (path ∷ paths) diff
      from (err detail) a = ground (arith, u, a)
      from (ok stdout) a =
          read stdout a (review_text host (host.encode stdout) policy.max_file_bytes) refl
        where
          read :
              (stdout : String)
              → host.run_git_diff tree candidate.merge_tree_oid (path ∷ paths) ≡ ok stdout
              → (text : Result String String)
              → review_text host (host.encode stdout) policy.max_file_bytes ≡ text
              → DiffOf tree (path ∷ paths) diff
          read stdout a (err reason) t = (stdout, a, inl (ground (arith, u, a, t)))
          read stdout a (ok text) t = (stdout, a, inr (ground (arith, u, a, t)))

-- If git names every changed path once, then no two items that `gather_context` answers after the
-- diff are about one path.
pub gathers_each_path_once :
    (host : Host) (policy : ContextPolicy) (candidate : MergeCandidateIdentity) (tree : String)
    (changes : List (String × String)) (g : GatheredContext)
    → host.commit_tree_oid candidate.target_head_oid ≡ ok tree
    → host.diff_name_status tree candidate.merge_tree_oid ≡ ok changes
    → gather_context host policy candidate ≡ ok g
    → distinct (map (λ (change : String × String). change.1) changes) ≡ true
    → distinct (item_paths (after_diff g.items)) ≡ true
unfolding gathered
gathers_each_path_once host policy candidate tree changes g t d h once =
    let (diff, u, p) = gather_context-ok host policy candidate tree changes g t d h in
    subst (λ (g : GatheredContext). distinct (item_paths (after_diff g.items)) ≡ true) p
      (after_optional-Tracks host policy candidate tree changes once).1

-- No item that `gather_context` answers after the diff has the text of a path that the policy
-- excludes. The first item is the diff: git is asked for the changed paths that are not excluded and
-- for no other, and the item has that answer or no text; where no such path changed it is empty.
pub excluded_paths_are_withheld :
    (host : Host) (policy : ContextPolicy) (candidate : MergeCandidateIdentity) (tree : String)
    (changes : List (String × String)) (g : GatheredContext)
    → host.commit_tree_oid candidate.target_head_oid ≡ ok tree
    → host.diff_name_status tree candidate.merge_tree_oid ≡ ok changes
    → gather_context host policy candidate ≡ ok g
    → (all (is_withheld host policy candidate) (after_diff g.items) ≡ true)
      × ((diff : ContextItem) × (g.items ≡ diff ∷ after_diff g.items)
          × DiffOf host policy candidate tree
              (scoped host policy candidate (map (λ (change : String × String). change.1) changes))
              diff)
unfolding gathered
excluded_paths_are_withheld host policy candidate tree changes g t d h =
    let (diff, u, p) = gather_context-ok host policy candidate tree changes g t d h in
    (
      subst
          (λ (g : GatheredContext).
            all (is_withheld host policy candidate) (after_diff g.items) ≡ true)
          p (after_optional-withheld host policy candidate tree changes),
      (
        diff,
        subst (λ (g : GatheredContext). g.items ≡ diff ∷ after_diff g.items) p refl,
        subst (λ paths. DiffOf host policy candidate tree paths diff)
            (in_scope_paths-filter host policy candidate changes)
            (unified_diff-of host policy candidate tree
              (in_scope_paths host policy candidate changes) diff u),
      ),
    )
