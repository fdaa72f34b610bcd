-- ===== src/Core/Context/Complete.antt =====
-- What a complete required coverage says in src/worktree_review/core/context.py.
use worktree_review.Base.{
  ℕ, String, Bool, true, false, ◌&&◌, ◌||◌, Option, none, some, is_some, List, [], ◌∷◌, ◌++◌, map,
  any, filter_by, contains, ◌==◌, string_eq, option_eq, Bool-cases, inl, inr, ◌≡◌, refl, arith,
}
use worktree_review.Base.Exec.{Result, ok, err}
use worktree_review.Core.Context.{
  Host, Bytes, item_from_bytes, coverage_from_items, path_matches_glob, change_kind_of,
  is_unreviewable, no_texts, disclosed, review_text,
}
use worktree_review.Core.Context.Gather.{
  Progress, GatheredContext, is_excluded, change_item, mandatory_item, add_mandatory, optional_item,
  add_optional, gather_matches, glob_matches, gather_globs, after_changes, after_mandatory,
  after_optional, gathered, gather_context,
}
use worktree_review.Core.Evidence.{mandatory, ContextItem, context_class_eq}
use worktree_review.Core.Findings.{
  EvidenceSource, review_worktree, target_tree, ChangeKind, ContextPolicy, change_kind_eq,
}
use worktree_review.Core.Identity.{MergeCandidateIdentity}
use worktree_review.Core.Context.Loops.{gather_matches-keeps, gather_globs-keeps, gather_context-ok}

-- The bytes that an item of the path is to show: of the target head for the target tree, else of the
-- Review Worktree.
abbrev pub bytes_at : Host → MergeCandidateIdentity → EvidenceSource → String → Option Bytes
bytes_at host candidate target_tree path = host.git_blob_bytes candidate.target_head_oid path
bytes_at host candidate _ path = host.read_bytes path

abbrev pub decoded : Host → Option Bytes → Option String
decoded host none = none
decoded host (some bytes) = host.decode bytes

-- The item is about the path and its body is the text of the file.
abbrev pub has_read : Host → MergeCandidateIdentity → String → ContextItem → Bool
has_read host candidate path item =
    item.path == path
    && is_some item.body
    && item.body == decoded host (bytes_at host candidate item.source path)

-- The item is about the path, and has its text or says that it cannot be reviewed.
abbrev settles : Host → MergeCandidateIdentity → String → ContextItem → Bool
settles host candidate path item =
    item.path == path && is_unreviewable item || has_read host candidate path item

any-append :
    {A : Type 0} (test : A → Bool) (xs ys : List A)
    → any test (xs ++ ys) ≡ (any test xs || any test ys)
any-append test [] ys = refl
any-append test (x ∷ xs) ys = ground (arith, any-append test xs ys)

review_text-decodes :
    (host : Host) (bytes : Bytes) (size : ℕ) (text : String)
    → review_text host bytes size ≡ ok text
    → host.decode bytes ≡ some text
unfolding review_text
review_text-decodes host bytes size text h = ground (arith, h)

item_from_bytes-settles :
    (host : Host) (candidate : MergeCandidateIdentity) (path : String) (bytes : Option Bytes)
    (source : EvidenceSource) (snapshot : String) (kind : Option ChangeKind) (size : ℕ)
    (missing : String)
    → bytes_at host candidate source path ≡ bytes
    → settles host candidate path
        (item_from_bytes host path bytes mandatory source snapshot kind size missing)
      ≡ true
unfolding item_from_bytes
item_from_bytes-settles host candidate path none source snapshot kind size missing at = ground arith
item_from_bytes-settles host candidate path (some bytes) source snapshot kind size missing at =
    from (review_text host bytes size) refl
  where
    from :
        (answer : Result String String)
        → review_text host bytes size ≡ answer
        → settles host candidate path
            (item_from_bytes host path (some bytes) mandatory source snapshot kind size missing)
          ≡ true
    from (err reason) a = ground (arith, a)
    from (ok text) a =
        ground (arith, a, at, review_text-decodes host bytes size text a, string_eq.dec path path)

any-kept :
    {A : Type 0} (test : A → Bool) (xs ys : List A)
    → any test xs ≡ true
    → any test (xs ++ ys) ≡ true
any-kept test xs ys h = ground (arith, any-append test xs ys, h)

-- Where every item can be reviewed, what is settled was read.
settled-read :
    (host : Host) (candidate : MergeCandidateIdentity) (items : List ContextItem) (path : String)
    → no_texts (map disclosed (filter_by is_unreviewable items)) ≡ true
    → any (settles host candidate path) items ≡ true
    → any (has_read host candidate path) items ≡ true
unfolding filter_by
settled-read host candidate [] path n h = h
settled-read host candidate (item ∷ items) path n h =
    ground (arith, settled-read host candidate items path)

module _ (host : Host) (policy : ContextPolicy) (candidate : MergeCandidateIdentity) where
  -- Every classified path in scope has an item that settles it.
  abbrev Settled : Progress → Type 0
  Settled at =
      (path : String)
      → contains at.classified path ≡ true
      → is_excluded host policy candidate path ≡ false
      → any (settles host candidate path) at.items ≡ true

  change_item-settles :
      (tree status path : String)
      → is_excluded host policy candidate path ≡ false
      → settles host candidate path (change_item host policy candidate tree (status, path)) ≡ true
  unfolding change_item
  change_item-settles tree status path e =
      elim (Bool-cases (change_kind_of status == ChangeKind.deleted)) [
        | inl k ↦
            rw (e, k)
              (item_from_bytes-settles host candidate path _ target_tree tree
                (some (change_kind_of status)) policy.max_file_bytes
                "deleted path could not be read from the target head" refl)
        | inr k ↦
            rw (e, k)
              (item_from_bytes-settles host candidate path _ review_worktree
                candidate.merge_tree_oid (some (change_kind_of status)) policy.max_file_bytes
                "changed path is missing from the Review Worktree" refl)
      ]

  after_changes-Settled :
      (tree : String) (changes : List (String × String))
      → Settled (after_changes host policy candidate tree changes)
  unfolding after_changes
  after_changes-Settled tree [] path c e = ground arith
  after_changes-Settled tree ((status, p) ∷ changes) path c e = ground (
    arith,
    string_eq.dec p path,
    change_item-settles tree status p,
    after_changes-Settled tree changes path,
  )

  add_mandatory-Settled :
      (p : String) (at : Progress) → Settled at → Settled (add_mandatory host policy candidate p at)
  unfolding add_mandatory mandatory_item
  add_mandatory-Settled p at h path c e = ground (
    arith,
    any-append (settles host candidate path) at.items (mandatory_item host policy candidate p ∷ []),
    item_from_bytes-settles host candidate p (host.read_bytes p) review_worktree
        candidate.merge_tree_oid none policy.max_file_bytes "mandatory path could not be read" refl,
    h path,
  )

  -- The loops forget no classified path.
  gather_matches-classified :
      (add : String → Progress → Progress) (paths : List String) (at : Progress) (p : String)
      → ((path : String) (at : Progress) → (add path at).classified ≡ path ∷ at.classified)
      → contains at.classified p ≡ true
      → contains (gather_matches host policy candidate add paths at).classified p ≡ true
  gather_matches-classified add paths at p adds c =
      gather_matches-keeps host policy candidate (λ at. contains at.classified p ≡ true) add paths
        at (λ path at n e h. ground (arith, adds path at, h)) c

  gather_globs-classified :
      (add : String → Progress → Progress) (patterns : List String) (at : Progress) (p : String)
      → ((path : String) (at : Progress) → (add path at).classified ≡ path ∷ at.classified)
      → contains at.classified p ≡ true
      → contains (gather_globs host policy candidate add patterns at).classified p ≡ true
  gather_globs-classified add patterns at p adds c =
      gather_globs-keeps host policy candidate (λ at. contains at.classified p ≡ true) add patterns
        at (λ path at n e h. ground (arith, adds path at, h)) (λ m at h. h) c

  -- Every path in scope that the loop walks over is classified.
  gather_matches-classifies :
      (add : String → Progress → Progress) (paths : List String) (at : Progress) (p : String)
      → ((path : String) (at : Progress) → (add path at).classified ≡ path ∷ at.classified)
      → is_excluded host policy candidate p ≡ false
      → contains paths p ≡ true
      → contains (gather_matches host policy candidate add paths at).classified p ≡ true
  unfolding gather_matches
  gather_matches-classifies add (path ∷ paths) at p adds e c = ground (
    arith,
    adds path at,
    string_eq.dec path p,
    gather_matches-classified add paths at p adds,
    gather_matches-classified add paths (add path at) p adds,
    gather_matches-classifies add paths at p adds e,
    gather_matches-classifies add paths (add path at) p adds e,
  )
  gather_matches-classifies add [] at p adds e c = ground arith

  contains-filter :
      (test : String → Bool) (paths : List String) (p : String)
      → contains paths p ≡ true
      → test p ≡ true
      → contains (filter_by test paths) p ≡ true
  unfolding filter_by
  contains-filter test [] p c t = c
  contains-filter test (path ∷ paths) p c t =
      ground (arith, string_eq.dec path p, contains-filter test paths p)

  gather_globs-classifies :
      (add : String → Progress → Progress) (patterns : List String) (at : Progress) (p : String)
      → ((path : String) (at : Progress) → (add path at).classified ≡ path ∷ at.classified)
      → is_excluded host policy candidate p ≡ false
      → contains host.worktree_paths p ≡ true
      → any (path_matches_glob host p) patterns ≡ true
      → contains (gather_globs host policy candidate add patterns at).classified p ≡ true
  unfolding gather_globs
  gather_globs-classifies add [] at p adds e c m = ground arith
  gather_globs-classifies add (pattern ∷ patterns) at p adds e c m =
      elim (Bool-cases (path_matches_glob host p pattern)) [
        | inl f ↦
            let inside =
              contains-filter (λ path. path_matches_glob host path pattern) host.worktree_paths p c
                f in
            gather_globs-classified add patterns _ p adds (
              ground (
                arith,
                inside,
                gather_matches-classifies add (glob_matches host policy candidate pattern) at p adds
                    e inside,
              ))
        | inr f ↦ gather_globs-classifies add patterns _ p adds e c (ground (arith, m, f))
      ]

  add_optional-any :
      (test : ContextItem → Bool) (path : String) (at : Progress)
      → any test at.items ≡ true
      → any test (add_optional host policy candidate path at).items ≡ true
  unfolding add_optional
  add_optional-any test path at h =
      elim (Bool-cases (is_unreviewable (optional_item host policy candidate path))) [
        | inl u ↦ rw (u) (any-kept test at.items _ h)
        | inr u ↦ rw (u) (any-kept test at.items _ h)
      ]

  after_optional-settles :
      (tree : String) (changes : List (String × String)) (path : String)
      → contains (after_mandatory host policy candidate tree changes).classified path ≡ true
      → is_excluded host policy candidate path ≡ false
      → any (settles host candidate path) (after_optional host policy candidate tree changes).items
        ≡ true
  unfolding after_optional after_mandatory
  after_optional-settles tree changes path c e =
      gather_globs-keeps host policy candidate
        (λ at. any (settles host candidate path) at.items ≡ true)
        (add_optional host policy candidate) policy.optional_globs _
        (λ p at n x h. add_optional-any (settles host candidate path) p at h) (λ m at h. h)
        (gather_globs-keeps host policy candidate Settled (add_mandatory host policy candidate)
          policy.mandatory_globs _ (λ p at n x h. add_mandatory-Settled p at h) (λ m at h. h)
          (after_changes-Settled tree changes) path c e)

  abbrev pub is_mandatory : String → Bool
  is_mandatory path =
      contains host.worktree_paths path && any (path_matches_glob host path) policy.mandatory_globs

  after_mandatory-classifies :
      (tree : String) (changes : List (String × String)) (path : String)
      → is_excluded host policy candidate path ≡ false
      → (contains (map (λ (change : String × String). change.1) changes) path || is_mandatory path)
        ≡ true
      → contains (after_mandatory host policy candidate tree changes).classified path ≡ true
  unfolding after_mandatory after_changes add_mandatory
  after_mandatory-classifies tree changes path e c = ground (
    arith,
    gather_globs-classified (add_mandatory host policy candidate) policy.mandatory_globs
        (after_changes host policy candidate tree changes) path (λ p at. refl),
    gather_globs-classifies (add_mandatory host policy candidate) policy.mandatory_globs
        (after_changes host policy candidate tree changes) path (λ p at. refl) e,
  )

-- If `gather_context` answers with complete required coverage, then every path that is not excluded
-- and that the merge candidate changes, or that a mandatory glob matches in the Review Worktree, has
-- an item whose body is its text: the decoded bytes of the Review Worktree, or of the target head where
-- the item is of the target tree.
pub complete_coverage_reads_everything :
    (host : Host) (policy : ContextPolicy) (candidate : MergeCandidateIdentity) (tree : String)
    (changes : List (String × String)) (g : GatheredContext)
    → host.commit_tree_oid candidate.target_head_oid ≡ ok tree
    → host.diff_name_status tree candidate.merge_tree_oid ≡ ok changes
    → gather_context host policy candidate ≡ ok g
    → g.coverage.required_coverage_complete ≡ true
    → (path : String) → is_excluded host policy candidate path ≡ false
    → (contains (map (λ (change : String × String). change.1) changes) path
        || is_mandatory host policy candidate path)
      ≡ true
    → any (has_read host candidate path) g.items ≡ true
unfolding gathered coverage_from_items
complete_coverage_reads_everything host policy candidate tree changes g t d h full path e c =
    let (diff, u, p) = gather_context-ok host policy candidate tree changes g t d h in
    let items = diff ∷ (after_optional host policy candidate tree changes).items in
    let settled =
      after_optional-settles host policy candidate tree changes path
        (after_mandatory-classifies host policy candidate tree changes path e c) e in
    ground (
      arith,
      p,
      full,
      settled-read host candidate items path (ground (arith, p, full)) (ground (arith, settled)),
    )
