-- ===== src/Core/Evidence/Text.antt =====
-- The texts of src/worktree_review/core/findings.py: repository paths, line endings, line ranges
-- and quotes. Python's `str.replace`, `split`, `splitlines`, `join`, `in`, `<=` and the decimal
-- numbers of an f-string are written out.
pub mod Paths
use Prim.Native.Char.{Char, code}
use Prim.Native.String
use worktree_review.Base.{
  ℕ, zero, suc, ◌+◌, ◌-◌, String, Bool, true, false, not, ◌&&◌, ◌||◌, Option, none, some, List, [],
  ◌∷◌, length, any, ltb, ◌==◌, nat_eq, string_eq, if◌then◌else◌,
}

-- `text.replace("\\", "/")`
unfoldable pub forward_slashes : String → String
forward_slashes String.[] = String.[]
forward_slashes (String.◌∷◌ c text) =
    let rest = forward_slashes text in
    if code c == 92 then String.◌∷◌ "/" rest else String.◌∷◌ c rest

-- `while normalized.startswith("./"): normalized = normalized[2:]`
unfoldable pub without_dots : String → String
without_dots (String.◌∷◌ c (String.◌∷◌ d text)) =
    let rest = without_dots text in
    if code c == 46 && code d == 47 then rest else String.◌∷◌ c (String.◌∷◌ d text)
without_dots text = text

-- A character in front of the first part.
abbrev pub extend : Char → List String → List String
extend c [] = String.◌∷◌ c String.[] ∷ []
extend c (part ∷ parts) = String.◌∷◌ c part ∷ parts

-- `text.split("/")`
unfoldable pub split_slashes : String → List String
split_slashes String.[] = "" ∷ []
split_slashes (String.◌∷◌ c text) =
    let parts = split_slashes text in if code c == 47 then "" ∷ parts else extend c parts

abbrev pub starts_with_slash : String → Bool
starts_with_slash String.[] = false
starts_with_slash (String.◌∷◌ c text) = code c == 47

abbrev pub is_unsafe_part : String → Bool
is_unsafe_part part = part == "" || part == "." || part == ".."

-- `_normalize_evidence_path`
unfoldable pub normalize_evidence_path : String → Option String
normalize_evidence_path path =
    let normalized = without_dots (forward_slashes path) in
    if normalized == "" || starts_with_slash normalized
    then none
    else if any is_unsafe_part (split_slashes normalized)
    then none
    else some normalized

-- `_normalize_line_endings` in one pass, given whether the character before was a carriage return.
unfoldable pub line_endings : Bool → String → String
line_endings after_return String.[] = String.[]
line_endings after_return (String.◌∷◌ c text) =
    let rest = line_endings false text in
    let returned = line_endings true text in
    if code c == 13
    then String.◌∷◌ "\n" returned
    else if code c == 10 && after_return
    then rest
    else String.◌∷◌ c rest

unfoldable pub normalize_line_endings : String → String
unfolding line_endings
normalize_line_endings text = line_endings false text

-- The line boundaries of `str.splitlines`, but for the carriage return, which is gone by then.
abbrev pub is_line_break : Char → Bool
is_line_break c =
    let n = code c in
    n == 10
    || n == 11
    || n == 12
    || n == 28
    || n == 29
    || n == 30
    || n == 133
    || n == 8232
    || n == 8233

unfoldable pub split_lines : String → List String
split_lines String.[] = []
split_lines (String.◌∷◌ c text) =
    let rest = split_lines text in if is_line_break c then "" ∷ rest else extend c rest

-- `"\n".join(parts)`
unfoldable pub join_lines : List String → String
join_lines [] = ""
join_lines (part ∷ []) = part
join_lines (part ∷ next ∷ rest) = String.◌++◌ part (String.◌++◌ "\n" (join_lines (next ∷ rest)))

-- `items[n:]` and `items[:n]`
unfoldable pub drop {ℓ} : {A : Type ℓ} → ℕ → List A → List A
drop zero xs = xs
drop (suc n) [] = []
drop (suc n) (x ∷ xs) = drop n xs

unfoldable pub take {ℓ} : {A : Type ℓ} → ℕ → List A → List A
take zero xs = []
take (suc n) [] = []
take (suc n) (x ∷ xs) = x ∷ take n xs

-- `_line_range_text`
unfoldable pub line_range_text : String → ℕ → ℕ → Option String
line_range_text text start_line end_line =
    let lines = split_lines (normalize_line_endings text) in
    if ltb start_line 1 || ltb end_line start_line
    then none
    else if ltb (length lines) end_line
    then none
    else some (join_lines (take (end_line - (start_line - 1)) (drop (start_line - 1) lines)))

-- `text.startswith(prefix)`
unfoldable pub has_prefix : String → String → Bool
has_prefix String.[] text = true
has_prefix (String.◌∷◌ p prefix) String.[] = false
has_prefix (String.◌∷◌ p prefix) (String.◌∷◌ c text) = code p == code c && has_prefix prefix text

-- `part in text`
unfoldable pub occurs : String → String → Bool
unfolding has_prefix
occurs part String.[] = has_prefix part ""
occurs part (String.◌∷◌ c text) = has_prefix part (String.◌∷◌ c text) || occurs part text

-- `text[:-1]` where `text.endswith("\n")`
unfoldable pub without_newline : String → Option String
without_newline String.[] = none
without_newline (String.◌∷◌ c String.[]) = if code c == 10 then some "" else none
without_newline (String.◌∷◌ c (String.◌∷◌ d text)) = elim (without_newline (String.◌∷◌ d text)) [
  | none ↦ none
  | some rest ↦ some (String.◌∷◌ c rest)
]

-- `_quoted_text_matches`
unfoldable pub quoted_text_matches : String → ℕ → ℕ → String → Bool
quoted_text_matches text start_line end_line quote =
    elim (line_range_text text start_line end_line) [
      | none ↦ false
      | some range ↦
          let quoted = normalize_line_endings quote in
          if quoted == ""
          then false
          else if occurs quoted range
          then true
          else elim (without_newline quoted) [
            | none ↦ false
            | some stripped ↦ occurs stripped range
          ]
    ]

-- `a <= b` of two texts and of two tuples of texts.
unfoldable pub text_leb : String → String → Bool
text_leb String.[] b = true
text_leb (String.◌∷◌ c a) String.[] = false
text_leb (String.◌∷◌ c a) (String.◌∷◌ d b) =
    ltb (code c) (code d) || code c == code d && text_leb a b

unfoldable pub texts_leb : List String → List String → Bool
texts_leb [] ys = true
texts_leb (x ∷ xs) [] = false
texts_leb (x ∷ xs) (y ∷ ys) = let rest = texts_leb xs ys in if x == y then rest else text_leb x y

-- A number in decimal, lowest digit first, and as text.
unfoldable pub next_digits : List ℕ → List ℕ
next_digits [] = 1 ∷ []
next_digits (d ∷ digits) =
    let carried = next_digits digits in if d == 9 then 0 ∷ carried else (d + 1) ∷ digits

unfoldable pub digits_of : ℕ → List ℕ
unfolding next_digits
digits_of zero = 0 ∷ []
digits_of (suc n) = next_digits (digits_of n)

unfoldable pub digit_text : ℕ → String
digit_text d =
    if d == 0
    then "0"
    else if d == 1
    then "1"
    else if d == 2
    then "2"
    else if d == 3
    then "3"
    else if d == 4
    then "4"
    else if d == 5
    then "5"
    else if d == 6
    then "6"
    else if d == 7
    then "7"
    else if d == 8
    then "8"
    else "9"

unfoldable pub digits_text : List ℕ → String → String
digits_text [] text = text
digits_text (d ∷ digits) text = digits_text digits (String.◌++◌ (digit_text d) text)

unfoldable pub decimal : ℕ → String
unfolding digits_of digits_text digit_text
decimal n = digits_text (digits_of n) ""
