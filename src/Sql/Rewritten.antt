-- ===== src/Sql/Rewritten.antt =====
-- The rewritten text scans like the query: its tokens are those of the query, with a marker for each
-- name.
use i.Prelude.{
  ℕ, ◌≡◌, refl, ap, ◌∙◌, Bytes, [], ◌∷◌, Bool, true, false, ◌==◌, Option, none, some, if◌then◌else◌,
}
use i.Sql.{
  ScanState, normal, single_quoted, double_quoted, line_comment, block_comment, is_name_start_char,
  split_name, Token, text, mark, named, Round, pair_round, colon_round, Kind, single_quote,
  double_quote, dash, slash, question, colon, other, kind, normal_round, scan_round, piece,
}

-- A name becomes a marker.
abbrev pub anonymous : Token → Token
anonymous (text t) = text t
anonymous mark = mark
anonymous (named name) = mark

-- The same first character, or a marker in its place.
pub data Alike : Bytes → Bytes → Type 0 where
  at_end : Alike [] []
  same : {c : ℕ} {s t : Bytes} → Alike (c ∷ s) (c ∷ t)
  replaced : {c : ℕ} {s t : Bytes} → Alike (c ∷ s) (b'?' ∷ t)

abbrev pub first_round : ScanState → Bytes → Option Round
first_round state [] = none
first_round state (c ∷ s) = some (scan_round state c s)

-- What the round wrote scans to the same token and state, where what follows looks alike.
abbrev pub Rescans : ScanState → ℕ → Bytes → Round → Type 0
Rescans state c s (token, (state', rest)) =
    ((t : Bytes) → Alike (c ∷ s) (piece token t))
    × ((out : Bytes)
        → Alike rest out
        → first_round state (piece token out) ≡ some (anonymous token, (state', out)))

-- The scan of a pair looks at one character more, which is no marker. `enters` is what the state makes
-- of the first character.
pair-Rescans :
    (state : ScanState) (second : ℕ) (inside outside : ScanState) (c : ℕ) (s : Bytes)
    → (b'?' == second) ≡ false
    → ((u : Bytes) → scan_round state c u ≡ pair_round second inside outside c u)
    → Rescans state c s (pair_round second inside outside c s)
pair-Rescans state second inside outside c [] h enters = (λ t. same, λ out a. at_end_only out a)
  where
    at_end_only :
        (out : Bytes)
        → Alike [] out
        → some (scan_round state c out) ≡ some (text (c ∷ []), (outside, out))
    at_end_only _ at_end = ap some (enters [])
pair-Rescans state second inside outside c (d ∷ s) h enters = either (d == second) refl
  where
    alone :
        (out : Bytes)
        → (d == second) ≡ false
        → Alike (d ∷ s) out
        → pair_round second inside outside c out ≡ (text (c ∷ []), (outside, out))
    alone _ e same = rw (e) refl
    alone _ e replaced = rw (h) refl

    either :
        (t : Bool)
        → (d == second) ≡ t
        → Rescans state c
            (d ∷ s)
            (if t then (text (c ∷ d ∷ []), (inside, s)) else (text (c ∷ []), (outside, d ∷ s)))
    either true e = (λ t. same, λ out a. ap some (enters (d ∷ out)) ∙ (rw (e) refl))
    either false e = (λ t. same, λ out a. ap some (enters out ∙ alone out e a))

-- One character that is taken whatever follows.
plain-Rescans :
    (state : ScanState) (c : ℕ) (s : Bytes) (state' : ScanState)
    → ((u : Bytes) → scan_round state c u ≡ (text (c ∷ []), (state', u)))
    → Rescans state c s (text (c ∷ []), (state', s))
plain-Rescans state c s state' enters = (λ t. same, λ out a. ap some (enters out))

colon-Rescans :
    (c : ℕ) (s : Bytes)
    → ((u : Bytes) → scan_round normal c u ≡ colon_round c u)
    → Rescans normal c s (colon_round c s)
colon-Rescans c [] enters = (λ t. same, λ out a. at_end_only out a)
  where
    at_end_only :
        (out : Bytes)
        → Alike [] out
        → some (scan_round normal c out) ≡ some (text (c ∷ []), (normal, out))
    at_end_only _ at_end = ap some (enters [])
colon-Rescans c (d ∷ s) enters = either (d == b':') refl (is_name_start_char d) refl
  where
    alone :
        (out : Bytes)
        → (d == b':') ≡ false
        → is_name_start_char d ≡ false
        → Alike (d ∷ s) out
        → colon_round c out ≡ (text (c ∷ []), (normal, out))
    alone _ e f same = rw (e, f) refl
    alone _ e f replaced = refl

    either :
        (doubled : Bool)
        → (d == b':') ≡ doubled
        → (name : Bool) → is_name_start_char d ≡ name
        → Rescans normal c (d ∷ s) (
            if doubled
            then (text (c ∷ d ∷ []), (normal, s))
            else if name
            then (named (d ∷ (split_name s).0), (normal, (split_name s).1))
            else (text (c ∷ []), (normal, d ∷ s)))
    either true e name f = (λ t. same, λ out a. ap some (enters (d ∷ out)) ∙ (rw (e) refl))
    either false e true f = (λ t. replaced, λ out a. unfold scan_round in refl)
    either false e false f = (λ t. same, λ out a. ap some (enters out ∙ alone out e f a))

normal-Rescans :
    (k : Kind) (c : ℕ) (s : Bytes) → kind c ≡ k → Rescans normal c s (normal_round k c s)
unfolding scan_round
normal-Rescans single_quote c s e = plain-Rescans normal c s single_quoted (λ u. rw (e) refl)
normal-Rescans double_quote c s e = plain-Rescans normal c s double_quoted (λ u. rw (e) refl)
normal-Rescans dash c s e = pair-Rescans normal b'-' line_comment normal c s refl (λ u. rw (e) refl)
normal-Rescans slash c s e =
    pair-Rescans normal b'*' block_comment normal c s refl (λ u. rw (e) refl)
normal-Rescans question c s e = (λ t. replaced, λ out a. refl)
normal-Rescans colon c s e = colon-Rescans c s (λ u. rw (e) refl)
normal-Rescans other c s e = plain-Rescans normal c s normal (λ u. rw (e) refl)

-- A state whose pairs begin with one character.
tested-Rescans :
    (state : ScanState) (first second : ℕ) (inside outside : ScanState) (c : ℕ) (s : Bytes)
    → (b'?' == second) ≡ false
    → ((u : Bytes)
        → scan_round state c u ≡ (
            if c == first
            then pair_round second inside outside c u
            else (text (c ∷ []), (state, u))))
    → Rescans state c s
        (if c == first then pair_round second inside outside c s else (text (c ∷ []), (state, s)))
tested-Rescans state first second inside outside c s h enters = either (c == first) refl
  where
    either :
        (t : Bool)
        → (c == first) ≡ t
        → Rescans state c s
            (if t then pair_round second inside outside c s else (text (c ∷ []), (state, s)))
    either true e = pair-Rescans state second inside outside c s h (λ u. enters u ∙ (rw (e) refl))
    either false e = plain-Rescans state c s state (λ u. enters u ∙ (rw (e) refl))

pub scan_round-Rescans :
    (state : ScanState) (c : ℕ) (s : Bytes) → Rescans state c s (scan_round state c s)
unfolding scan_round
scan_round-Rescans normal c s = normal-Rescans (kind c) c s refl
scan_round-Rescans single_quoted c s =
    tested-Rescans single_quoted b'\'' b'\'' single_quoted normal c s refl (λ u. refl)
scan_round-Rescans double_quoted c s =
    tested-Rescans double_quoted b'"' b'"' double_quoted normal c s refl (λ u. refl)
scan_round-Rescans line_comment c s =
    plain-Rescans line_comment c s (if c == b'\n' then normal else line_comment) (λ u. refl)
scan_round-Rescans block_comment c s =
    tested-Rescans block_comment b'*' b'/' normal block_comment c s refl (λ u. refl)
