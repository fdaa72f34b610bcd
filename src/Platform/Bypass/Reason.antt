-- ===== src/Platform/Bypass/Reason.antt =====
-- `validate_bypass_reason` of src/worktree_review/platform/github/bypass.py.
use Prim.Native.Char.{code}
use worktree_review.Base.{ℕ, ◌+◌, suc, String, not, any, ltb, ◌==◌, string_eq, if◌then◌else◌}
use worktree_review.Base.Exec.{Result, ok, err}
use worktree_review.Core.Evidence.Text.{normalize_line_endings, split_lines, occurs}
use worktree_review.Server.State.Audit.Cursor.{is_space}

abbrev pub max_reason_chars : ℕ
max_reason_chars = 2000

abbrev pub max_reason_utf8_bytes : ℕ
max_reason_utf8_bytes = 8192

abbrev pub max_reason_line_chars : ℕ
max_reason_line_chars = 500

-- `len(text)` and `len(text.encode("utf-8"))`
unfoldable pub char_count : String → ℕ
char_count String.[] = 0
char_count (String.◌∷◌ c text) = suc (char_count text)

unfoldable pub utf8_count : String → ℕ
utf8_count String.[] = 0
utf8_count (String.◌∷◌ c text) =
    (if ltb (code c) 128
      then 1
      else if ltb (code c) 2048
      then 2
      else if ltb (code c) 65536
      then 3
      else 4)
    + utf8_count text

-- `text.strip()`
unfoldable pub strip_start : String → String
strip_start String.[] = ""
strip_start (String.◌∷◌ c text) =
    let rest = strip_start text in if is_space c then rest else String.◌∷◌ c text

unfoldable pub strip_end : String → String
strip_end String.[] = ""
strip_end (String.◌∷◌ c text) =
    let rest = strip_end text in
    if is_space c then (if rest == "" then "" else String.◌∷◌ c rest) else String.◌∷◌ c rest

-- The error is the code of a `BypassRejectionError`.
unfoldable pub validate_bypass_reason : (String → String) → String → Result String String
unfolding char_count utf8_count strip_start strip_end
validate_bypass_reason scrub reason =
    let stripped = strip_end (strip_start reason) in
    if stripped == ""
    then err "bypass_reason_invalid"
    else if ltb max_reason_chars (char_count stripped)
    then err "bypass_reason_invalid"
    else if ltb max_reason_utf8_bytes (utf8_count stripped)
    then err "bypass_reason_invalid"
    else if occurs "```" stripped
    then err "bypass_reason_invalid"
    else if any (λ line. ltb max_reason_line_chars (char_count line))
        (split_lines (normalize_line_endings stripped))
    then err "bypass_reason_invalid"
    else if not (scrub stripped == stripped)
    then err "bypass_reason_invalid"
    else ok stripped
