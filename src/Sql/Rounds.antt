-- ===== src/Sql/Rounds.antt =====
-- The rounds of the scan: how many there are, and how they look ahead.
use i.Prelude.{
  ℕ, zero, suc, ◌≤◌, ◌≡◌, refl, ap, Bytes, [], ◌∷◌, Bool, true, false, ◌==◌, length, arith,
  if◌then◌else◌,
}
use i.Sql.{
  ScanState, normal, single_quoted, double_quoted, line_comment, block_comment, is_name_start_char,
  is_name_continue_char, split_name, text, named, Round, pair_round, colon_round, Kind,
  single_quote, double_quote, dash, slash, question, colon, other, kind, normal_round, scan_round,
  add_token, scan_tokens,
}

pub length-split_name : (s : Bytes) → length (split_name s).1 ≤ length s
unfolding split_name
length-split_name [] = omega arith
length-split_name (c ∷ s) = either (is_name_continue_char c) (length-split_name s)
  where
    either :
        (t : Bool)
        → length (split_name s).1 ≤ length s
        → length
            (if◌then◌else◌ {A = Bytes × Bytes} t
              (c ∷ (split_name s).0, (split_name s).1)
              ([], c ∷ s)).1
          ≤ suc (length s)
    either true h = omega (arith, h)
    either false h = omega arith

-- A round leaves at most the text behind its first character.
abbrev Leaves : Bytes → Round → Type 0
Leaves s round = length round.1.1 ≤ length s

pair-Leaves :
    (second : ℕ) (inside outside : ScanState) (c : ℕ) (s : Bytes)
    → Leaves s (pair_round second inside outside c s)
pair-Leaves second inside outside c [] = omega arith
pair-Leaves second inside outside c (d ∷ s) = either (d == second)
  where
    either :
        (t : Bool)
        → Leaves
            (d ∷ s)
            (if t then (text (c ∷ d ∷ []), (inside, s)) else (text (c ∷ []), (outside, d ∷ s)))
    either true = omega arith
    either false = omega arith

colon-Leaves : (c : ℕ) (s : Bytes) → Leaves s (colon_round c s)
colon-Leaves c [] = omega arith
colon-Leaves c (d ∷ s) = either (d == b':') (is_name_start_char d)
  where
    either :
        (doubled name : Bool)
        → Leaves (d ∷ s) (
            if doubled
            then (text (c ∷ d ∷ []), (normal, s))
            else if name
            then (named (d ∷ (split_name s).0), (normal, (split_name s).1))
            else (text (c ∷ []), (normal, d ∷ s)))
    either true name = omega arith
    either false true = omega (arith, length-split_name s)
    either false false = omega arith

normal-Leaves : (k : Kind) (c : ℕ) (s : Bytes) → Leaves s (normal_round k c s)
normal-Leaves single_quote c s = omega arith
normal-Leaves double_quote c s = omega arith
normal-Leaves dash c s = pair-Leaves b'-' line_comment normal c s
normal-Leaves slash c s = pair-Leaves b'*' block_comment normal c s
normal-Leaves question c s = omega arith
normal-Leaves colon c s = colon-Leaves c s
normal-Leaves other c s = omega arith

-- A pair, or one character where the test fails.
tested-Leaves :
    (t : Bool) (second : ℕ) (inside outside state : ScanState) (c : ℕ) (s : Bytes)
    → Leaves s (if t then pair_round second inside outside c s else (text (c ∷ []), (state, s)))
tested-Leaves true second inside outside state c s = pair-Leaves second inside outside c s
tested-Leaves false second inside outside state c s = omega arith

pub scan_round-Leaves : (state : ScanState) (c : ℕ) (s : Bytes) → Leaves s (scan_round state c s)
unfolding scan_round
scan_round-Leaves normal c s = normal-Leaves (kind c) c s
scan_round-Leaves single_quoted c s =
    tested-Leaves (c == b'\'') b'\'' single_quoted normal single_quoted c s
scan_round-Leaves double_quoted c s =
    tested-Leaves (c == b'"') b'"' double_quoted normal double_quoted c s
scan_round-Leaves line_comment c s = omega arith
scan_round-Leaves block_comment c s =
    tested-Leaves (c == b'*') b'/' normal block_comment block_comment c s

-- Fuel for every byte is enough, and more changes nothing.
pub scan_tokens-fuel :
    (fuel more : ℕ) (state : ScanState) (s : Bytes)
    → length s ≤ fuel
    → length s ≤ more
    → scan_tokens fuel state s ≡ scan_tokens more state s
unfolding scan_tokens
scan_tokens-fuel fuel more state [] h k = refl
scan_tokens-fuel zero more state (c ∷ s) h k = absurd (omega (arith, h))
scan_tokens-fuel (suc fuel) zero state (c ∷ s) h k = absurd (omega (arith, k))
scan_tokens-fuel (suc fuel) (suc more) state (c ∷ s) h k =
    let leaves : Leaves s (scan_round state c s) = scan_round-Leaves state c s in
    ap (add_token (scan_round state c s).0) (
      scan_tokens-fuel fuel more (scan_round state c s).1.0 (scan_round state c s).1.1
        (omega (arith, leaves, h)) (omega (arith, leaves, k)))
