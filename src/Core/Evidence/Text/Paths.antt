-- ===== src/Core/Evidence/Text/Paths.antt =====
-- The paths that `_normalize_evidence_path` of src/worktree_review/core/findings.py accepts.
use Prim.Native.Char.{Char, code}
use worktree_review.Base.{
  String, false, ◌&&◌, inl, inr, some, any, Bool-cases, ◌==◌, nat_eq, string_eq, ◌≡◌, ap, refl,
  arith,
}
use worktree_review.Core.Evidence.Text.{
  forward_slashes, without_dots, split_slashes, starts_with_slash, is_unsafe_part,
  normalize_evidence_path,
}

forward_slashes-twice :
    (text : String) → forward_slashes (forward_slashes text) ≡ forward_slashes text
unfolding forward_slashes nat_eq
forward_slashes-twice String.[] = refl
forward_slashes-twice (String.◌∷◌ c text) = elim (Bool-cases (code c == 92)) [
  | inl e ↦ rw (e, forward_slashes-twice text)
  | inr e ↦ rw e (rw e (rw (forward_slashes-twice text)))
]

tail : String → String
tail String.[] = String.[]
tail (String.◌∷◌ c text) = text

tail-forward_slashes :
    (c : Char) (text : String)
    → forward_slashes (String.◌∷◌ c text) ≡ String.◌∷◌ c text
    → forward_slashes text ≡ text
unfolding forward_slashes tail
tail-forward_slashes c text h = elim (Bool-cases (code c == 92)) [
  | inl e ↦ ap tail (rw e at h)
  | inr e ↦ ap tail (rw e at h)
]

-- Only forward slashes are left after the dots are gone.
without_dots-forward :
    (text : String)
    → forward_slashes text ≡ text
    → forward_slashes (without_dots text) ≡ without_dots text
unfolding without_dots forward_slashes
without_dots-forward String.[] h = h
without_dots-forward (String.◌∷◌ c String.[]) h = h
without_dots-forward (String.◌∷◌ c (String.◌∷◌ d text)) h =
    elim (Bool-cases (code c == 46 && code d == 47)) [
      | inl e ↦ rw e (
          without_dots-forward text
            (tail-forward_slashes d text (tail-forward_slashes c (String.◌∷◌ d text) h)))
      | inr e ↦ rw e h
    ]

without_dots-twice : (text : String) → without_dots (without_dots text) ≡ without_dots text
unfolding without_dots
without_dots-twice String.[] = refl
without_dots-twice (String.◌∷◌ c String.[]) = refl
without_dots-twice (String.◌∷◌ c (String.◌∷◌ d text)) =
    elim (Bool-cases (code c == 46 && code d == 47)) [
      | inl e ↦ rw e (without_dots-twice text)
      | inr e ↦ rw e (rw e)
    ]

-- A normalized path does not start with a slash, has no part that is empty, `.` or `..`, and is
-- normalized to itself.
pub normalized_is_safe :
    (path normalized : String)
    → normalize_evidence_path path ≡ some normalized
    → (starts_with_slash normalized ≡ false)
      × (any is_unsafe_part (split_slashes normalized) ≡ false)
      × (normalize_evidence_path normalized ≡ some normalized)
unfolding normalize_evidence_path
normalized_is_safe path normalized h = ground (
  arith,
  without_dots-twice (forward_slashes path),
  without_dots-forward (forward_slashes path) (forward_slashes-twice path),
)
