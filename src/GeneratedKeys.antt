-- ===== src/GeneratedKeys.antt =====
-- generatedkeys.go: whether a statement is an INSERT behind its leading blanks and comments, and the
-- query that an INSERT is wrapped in. Text is ASCII.
pub mod Comments
pub mod Noise
use i.Prelude.{
  ℕ, zero, suc, ◌+◌, Bytes, List, [], ◌∷◌, ◌++◌, Bool, true, false, not, ◌&&◌, ◌||◌, ◌==◌, Option,
  none, some, length, take, drop, ltb, get_elem?, if◌then◌else◌,
}
use i.Errors.{Error, Result, ok, err, not_an_insert}
use i.Text.{codes, bytes_eq, has_prefix, to_upper, trim_left, trim_right}
use i.Wire.Walk.{Turn, next, done}

-- What stands behind the first newline.
unfoldable pub after_newline : Bytes → Option Bytes
after_newline [] = none
after_newline (c ∷ s) = elim (c == b'\n') [ true ↦ some s | false ↦ after_newline s ]

-- What stands behind the first `*/`.
unfoldable pub after_end : Bytes → Option Bytes
after_end [] = none
after_end (c ∷ s) = elim (c == b'*' && has_prefix s (b'/' ∷ [])) [
  | true ↦ some (drop 1 s)
  | false ↦ after_end s
]

-- A comment that does not end takes the rest of the text.
abbrev pub behind : Option Bytes → Turn Bytes Bytes
behind none = done []
behind (some s) = next s

-- The switch on text without leading blanks.
unfoldable pub noise_round : Bytes → Turn Bytes Bytes
noise_round s =
    if has_prefix s (b'-' ∷ b'-' ∷ [])
    then behind (after_newline s)
    else if has_prefix s (b'/' ∷ b'*' ∷ [])
    then behind (after_end (drop 2 s))
    else done s

-- Every comment takes characters, so that a text needs no more rounds than it has bytes, and one.
unfoldable pub skip_noise : (fuel : ℕ) → Bytes → Bytes
skip_noise zero s = s
skip_noise (suc fuel) s = elim (noise_round (trim_left s)) [
  | done rest ↦ rest
  | next rest ↦ skip_noise fuel rest
]

unfoldable pub skip_leading_sql_noise : Bytes → Bytes
skip_leading_sql_noise query = skip_noise (suc (length query)) query

abbrev pub is_sql_delimiter : ℕ → Bool
is_sql_delimiter b =
    b == b' ' || b == b'\t' || b == b'\r' || b == b'\n' || b == b'(' || b == b'/' || b == b'-'

abbrev pub ends_word : Bytes → Bool
ends_word [] = true
ends_word (b ∷ s) = is_sql_delimiter b

abbrev pub begins_insert : Bytes → Bool
begins_insert text =
    not (ltb (length text) 6)
    && bytes_eq (to_upper (take 6 text)) (codes "INSERT")
    && ends_word (drop 6 text)

unfoldable pub is_insert_statement : Bytes → Bool
is_insert_statement query = begins_insert (skip_leading_sql_noise query)

-- `strings.TrimSuffix(body, ";")`.
unfoldable pub trim_semicolon : Bytes → Bytes
trim_semicolon [] = []
trim_semicolon (c ∷ []) = if c == b';' then [] else c ∷ []
trim_semicolon (c ∷ d ∷ s) = c ∷ trim_semicolon (d ∷ s)

unfoldable pub wrap_insert_for_generated_keys : Bytes → Result Bytes
wrap_insert_for_generated_keys query =
    if not (is_insert_statement query)
    then err not_an_insert
    else (let body = trim_right (trim_semicolon (trim_right (trim_left query))) in
        ok (codes "SELECT *SQLGENCOLUMNS FROM NEW TABLE(\n" ++ (body ++ codes "\n)")))
