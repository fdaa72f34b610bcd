-- ===== src/Server/State/Audit/Cursor.antt =====
-- `parse_audit_cursor` and `clamp_audit_page_size` of src/worktree_review/server/audit.py, with
-- Python's `int` of a text. Digits of other scripts and the limit of 4,300 digits are left out.
use Prim.Native.Char.{Char, code}
use Prim.Native.String
use text.Mathlib.TextLemmas.{cons-append, nil-append}
use worktree_review.Base.{
  ℕ, zero, suc, ◌+◌, ◌*◌, ◌-◌, ◌<◌, String, Bool, true, false, ◌&&◌, ◌||◌, Option, none, some, List,
  [], ◌∷◌, all, ltb, leb, ◌==◌, nat_eq, if◌then◌else◌, ◌≡◌, refl, ◌∙◌, ap, arith,
}
use worktree_review.Base.Exec.{Result, ok, err}
use worktree_review.Core.Evidence.Text.{decimal, digits_of, digits_text, digit_text, next_digits}

-- `MAX_AUDIT_EVENTS_PER_PAGE`
abbrev pub max_audit_events_per_page : ℕ
max_audit_events_per_page = 200

-- `max(1, min(limit, MAX_AUDIT_EVENTS_PER_PAGE))`. A limit below zero counts as zero.
unfoldable pub clamp_audit_page_size : ℕ → ℕ
clamp_audit_page_size limit =
    let least = if ltb max_audit_events_per_page limit then max_audit_events_per_page else limit in
    if ltb least 1 then 1 else least

abbrev pub is_digit : Char → Bool
is_digit c = leb 48 (code c) && leb (code c) 57

-- `str.isspace` of a character
abbrev pub is_space : Char → Bool
is_space c =
    let n = code c in
    leb 9 n && leb n 13
    || leb 28 n && leb n 32
    || n == 133
    || n == 160
    || n == 5760
    || leb 8192 n && leb n 8202
    || n == 8232
    || n == 8233
    || n == 8239
    || n == 8287
    || n == 12288

unfoldable pub only_spaces : String → Bool
only_spaces String.[] = true
only_spaces (String.◌∷◌ c text) = is_space c && only_spaces text

-- The digits, with single underscores between them, and spaces at the end.
unfoldable pub read_digits : ℕ → Bool → String → Option ℕ
unfolding only_spaces
read_digits n after_digit String.[] = if after_digit then some n else none
read_digits n after_digit (String.◌∷◌ c text) =
    let more = read_digits (n * 10 + (code c - 48)) true text in
    let skipped = read_digits n false text in
    if is_digit c
    then more
    else if after_digit && code c == 95
    then skipped
    else if after_digit && is_space c && only_spaces text
    then some n
    else none

-- After the sign: whether the number is negative, and its size.
unfoldable pub read_signed : String → Option (Bool × ℕ)
unfolding read_digits
read_signed String.[] = none
read_signed (String.◌∷◌ c text) =
    let after_sign = read_digits 0 false text in
    let unsigned = read_digits 0 false (String.◌∷◌ c text) in
    elim (if code c == 43 || code c == 45 then after_sign else unsigned) [
      | none ↦ none
      | some n ↦ some (code c == 45, n)
    ]

-- `int(text)`
unfoldable pub read_int : String → Option (Bool × ℕ)
unfolding read_signed
read_int String.[] = none
read_int (String.◌∷◌ c text) =
    let rest = read_int text in if is_space c then rest else read_signed (String.◌∷◌ c text)

-- `parse_audit_cursor`. The error is "invalid audit event cursor".
unfoldable pub parse_audit_cursor : Option String → Result String (Option ℕ)
unfolding read_int
parse_audit_cursor none = ok none
parse_audit_cursor (some cursor) = elim (read_int cursor) [
  | none ↦ err "invalid audit event cursor"
  | some (negative, cursor_id) ↦
      if negative || ltb cursor_id 1 then err "invalid audit event cursor" else ok (some cursor_id)
]

-- The number of digits, the lowest first.
value : List ℕ → ℕ
value [] = 0
value (d ∷ digits) = d + 10 * value digits

are_digits : List ℕ → Bool
are_digits digits = all (λ d. leb d 9) digits

next_digits-value : (digits : List ℕ) → value (next_digits digits) ≡ value digits + 1
unfolding next_digits value
next_digits-value [] = refl
next_digits-value (d ∷ digits) = ground (arith, next_digits-value digits)

digits_of-value : (n : ℕ) → value (digits_of n) ≡ n
unfolding digits_of value
digits_of-value zero = refl
digits_of-value (suc n) = ground (arith, next_digits-value (digits_of n), digits_of-value n)

next_digits-digits :
    (digits : List ℕ) → are_digits digits ≡ true → are_digits (next_digits digits) ≡ true
unfolding next_digits are_digits
next_digits-digits [] h = refl
next_digits-digits (d ∷ digits) h = ground (arith, next_digits-digits digits)

digits_of-digits : (n : ℕ) → are_digits (digits_of n) ≡ true
unfolding digits_of are_digits
digits_of-digits zero = refl
digits_of-digits (suc n) = next_digits-digits (digits_of n) (digits_of-digits n)

-- Some digit was printed.
printed : List ℕ → Bool
printed [] = false
printed (d ∷ digits) = true

unsigned : Option ℕ → Option (Bool × ℕ)
unsigned none = none
unsigned (some n) = some (false, n)

front : (c : Char) (text : String) → String.◌++◌ (String.◌∷◌ c String.[]) text ≡ String.◌∷◌ c text
front c text = cons-append c String.[] text ∙ ap (λ rest. String.◌∷◌ c rest) (nil-append text)

-- The character of a digit stands in front of what follows.
digit_front :
    (d : ℕ) (text : String)
    → leb d 9 ≡ true
    → (c : Char) × (String.◌++◌ (digit_text d) text ≡ String.◌∷◌ c text) × (code c ≡ 48 + d)
unfolding digit_text nat_eq
digit_front zero text h = ("0", front "0" text, refl)
digit_front (suc zero) text h = ("1", front "1" text, refl)
digit_front (suc (suc zero)) text h = ("2", front "2" text, refl)
digit_front (suc (suc (suc zero))) text h = ("3", front "3" text, refl)
digit_front (suc (suc (suc (suc zero)))) text h = ("4", front "4" text, refl)
digit_front (suc (suc (suc (suc (suc zero))))) text h = ("5", front "5" text, refl)
digit_front (suc (suc (suc (suc (suc (suc zero)))))) text h = ("6", front "6" text, refl)
digit_front (suc (suc (suc (suc (suc (suc (suc zero))))))) text h = ("7", front "7" text, refl)
digit_front (suc (suc (suc (suc (suc (suc (suc (suc zero)))))))) text h =
    ("8", front "8" text, refl)
digit_front (suc (suc (suc (suc (suc (suc (suc (suc (suc zero))))))))) text h =
    ("9", front "9" text, refl)
digit_front (suc (suc (suc (suc (suc (suc (suc (suc (suc (suc d)))))))))) text h = ground (arith, h)

-- A digit read after others.
read_digit :
    (d n : ℕ) (after : Bool) (text : String)
    → leb d 9 ≡ true
    → read_digits n after (String.◌++◌ (digit_text d) text) ≡ read_digits (n * 10 + d) true text
unfolding read_digits
read_digit d n after text h = let (c, e, k) = digit_front d text h in rw (e) (ground (arith, h, k))

-- Reading what was printed, from the highest digit on.
read_printed :
    (digits : List ℕ) (text : String)
    → are_digits digits ≡ true
    → read_digits 0 false (digits_text digits text)
      ≡ read_digits (value digits) (printed digits) text
unfolding digits_text are_digits value printed
read_printed [] text h = refl
read_printed (d ∷ digits) text h =
    read_printed digits (String.◌++◌ (digit_text d) text) (ground (arith, h))
    ∙ read_digit d (value digits) (printed digits) text (ground (arith, h))
    ∙ ap (λ n. read_digits n true text) (omega arith)

-- The first character of a number is no space and no sign.
read_int-digits :
    (d : ℕ) (text : String)
    → leb d 9 ≡ true
    → read_int (String.◌++◌ (digit_text d) text)
      ≡ unsigned (read_digits 0 false (String.◌++◌ (digit_text d) text))
unfolding read_int read_signed unsigned
read_int-digits d text h = let (c, e, k) = digit_front d text h in rw (e) (ground (arith, h, k))

read_int-printed :
    (digits : List ℕ) (text : String)
    → are_digits digits ≡ true
    → read_int text ≡ unsigned (read_digits 0 false text)
    → read_int (digits_text digits text) ≡ unsigned (read_digits 0 false (digits_text digits text))
unfolding digits_text are_digits
read_int-printed [] text h front = front
read_int-printed (d ∷ digits) text h front =
    read_int-printed digits (String.◌++◌ (digit_text d) text) (ground (arith, h))
      (read_int-digits d text (ground (arith, h)))

read_int-number :
    (digits : List ℕ)
    → are_digits digits ≡ true
    → printed digits ≡ true
    → read_int (digits_text digits "") ≡ some (false, value digits)
unfolding digits_text are_digits printed read_digits unsigned
read_int-number [] h p = ground (arith, p)
read_int-number (d ∷ digits) h p =
    read_int-printed digits (String.◌++◌ (digit_text d) "") (ground (arith, h))
      (read_int-digits d "" (ground (arith, h)))
    ∙ ap unsigned (read_printed (d ∷ digits) "" h)

next_digits-printed : (digits : List ℕ) → printed (next_digits digits) ≡ true
unfolding next_digits printed
next_digits-printed [] = refl
next_digits-printed (d ∷ digits) = ground arith

digits_of-printed : (n : ℕ) → printed (digits_of n) ≡ true
unfolding digits_of printed
digits_of-printed zero = refl
digits_of-printed (suc n) = next_digits-printed (digits_of n)

-- The cursor that a page prints for a positive event identifier is read back as that identifier.
pub parse_audit_cursor-decimal :
    (event_id : ℕ)
    → 0 < event_id
    → parse_audit_cursor (some (decimal event_id)) ≡ ok (some event_id)
unfolding parse_audit_cursor decimal
parse_audit_cursor-decimal n h = ground (
  arith,
  h,
  digits_of-value n,
  read_int-number (digits_of n) (digits_of-digits n) (digits_of-printed n),
)
