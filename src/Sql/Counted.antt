-- ===== src/Sql/Counted.antt =====
-- Counting the placeholders of a rewritten query, and rewriting it again.
use i.Prelude.{
  ℕ, zero, suc, ◌≤◌, ◌≡◌, refl, ap, ◌∙◌, subst, Bytes, List, [], ◌∷◌, map, Bool, true, false, some,
  length, arith, if◌then◌else◌,
}
use mathlib.Core.Option.{some-injective}
use i.Errors.{Result, ok, err, unterminated_sql}
use i.Sql.{
  ScanState, normal, Token, text, mark, named, Round, scan_round, add_token, scan_tokens, scan_sql,
  rewritten, param_names, count_tokens, count_sql_placeholders, rewrite_named_params,
  rewrite_tokens, terminated, unterminated, has_colon,
}
use i.Sql.Rounds.{scan_round-Leaves}
use i.Sql.Rewritten.{anonymous, Alike, at_end, first_round, scan_round-Rescans}

abbrev anonymous_all : List Token × ScanState → List Token × ScanState
anonymous_all (tokens, state) = (map anonymous tokens, state)

rewritten-Alike :
    (fuel : ℕ) (state : ScanState) (s : Bytes)
    → length s ≤ fuel
    → Alike s (rewritten (scan_tokens fuel state s).0)
unfolding scan_tokens
rewritten-Alike fuel state [] h = at_end
rewritten-Alike zero state (c ∷ s) h = absurd (omega (arith, h))
rewritten-Alike (suc fuel) state (c ∷ s) h = (scan_round-Rescans state c s).0 _

-- The first round of a text whose other rounds are known.
scan_first :
    (more : ℕ) (state : ScanState) (u : Bytes) (token : Token) (state' : ScanState) (out : Bytes)
    (rest : List Token × ScanState)
    → first_round state u ≡ some (token, (state', out))
    → length u ≤ more
    → ((m : ℕ) → length out ≤ m → scan_tokens m state' out ≡ rest)
    → scan_tokens more state u ≡ add_token token rest
unfolding scan_tokens
scan_first more state [] token state' out rest e h known = ground arith
scan_first zero state (c ∷ u) token state' out rest e h known = absurd (omega (arith, h))
scan_first (suc more) state (c ∷ u) token state' out rest e h known =
    let round : scan_round state c u ≡ (token, (state', out)) = some-injective _ _ e in
    let leaves : length out ≤ length u =
      subst (λ r. length r.1.1 ≤ length u) round (scan_round-Leaves state c u) in
    ap (λ r. add_token r.0 (scan_tokens more r.1.0 r.1.1)) round
    ∙ ap (add_token token) (known more (omega (arith, leaves, h)))

-- Scanning what was written for the tokens of a text gives them again, with a marker for each name.
pub scan_tokens-rewritten :
    (fuel more : ℕ) (state : ScanState) (s : Bytes)
    → length s ≤ fuel
    → length (rewritten (scan_tokens fuel state s).0) ≤ more
    → scan_tokens more state (rewritten (scan_tokens fuel state s).0)
      ≡ anonymous_all (scan_tokens fuel state s)
unfolding scan_tokens
scan_tokens-rewritten fuel more state [] h k = refl
scan_tokens-rewritten zero more state (c ∷ s) h k = absurd (omega (arith, h))
scan_tokens-rewritten (suc fuel) more state (c ∷ s) h k =
    let round : Round = scan_round state c s in
    let leaves : length round.1.1 ≤ length s = scan_round-Leaves state c s in
    let less : length round.1.1 ≤ fuel = omega (arith, leaves, h) in
    scan_first more state _ (anonymous round.0) round.1.0 _ _
      ((scan_round-Rescans state c s).1 _ (rewritten-Alike fuel round.1.0 round.1.1 less)) k
      (λ m hm. scan_tokens-rewritten fuel m round.1.0 round.1.1 less hm)

count_tokens-anonymous :
    (tokens : List Token) → count_tokens (map anonymous tokens) ≡ count_tokens tokens
count_tokens-anonymous [] = refl
count_tokens-anonymous (text t ∷ tokens) = count_tokens-anonymous tokens
count_tokens-anonymous (mark ∷ tokens) = ap suc (count_tokens-anonymous tokens)
count_tokens-anonymous (named name ∷ tokens) = ap suc (count_tokens-anonymous tokens)

param_names-anonymous : (tokens : List Token) → param_names (map anonymous tokens) ≡ []
param_names-anonymous [] = refl
param_names-anonymous (text t ∷ tokens) = param_names-anonymous tokens
param_names-anonymous (mark ∷ tokens) = param_names-anonymous tokens
param_names-anonymous (named name ∷ tokens) = param_names-anonymous tokens

scan_sql-rewritten :
    (query : Bytes) → scan_sql (rewritten (scan_sql query).0) ≡ anonymous_all (scan_sql query)
unfolding scan_sql
scan_sql-rewritten query =
    scan_tokens-rewritten (length query) _ normal query (omega arith) (omega arith)

count-rewritten :
    (query : Bytes)
    → count_sql_placeholders (rewritten (scan_sql query).0) ≡ count_sql_placeholders query
unfolding count_sql_placeholders
count-rewritten query =
    let counted : List Token × ScanState → Result ℕ = λ p. terminated p.1 (count_tokens p.0) in
    ap counted (scan_sql-rewritten query)
    ∙ ap (λ n. terminated (scan_sql query).1 n) (count_tokens-anonymous (scan_sql query).0)

rewrite-rewritten :
    (query : Bytes)
    → unterminated (scan_sql query).1 ≡ false
    → rewrite_named_params (rewritten (scan_sql query).0) ≡ ok (rewritten (scan_sql query).0, [])
unfolding rewrite_named_params
rewrite-rewritten query h = either (has_colon again)
  where
    again : Bytes
    again = rewritten (scan_sql query).0

    once : List Token × ScanState → Result (Bytes × List Bytes)
    once p = terminated p.1 (rewrite_tokens again p.0 (param_names p.0))

    scanned : once (scan_sql again) ≡ ok (again, [])
    scanned =
        ap once (scan_sql-rewritten query) ∙ (rw (param_names-anonymous (scan_sql query).0, h) refl)

    either : (t : Bool) → (if t then once (scan_sql again) else ok (again, [])) ≡ ok (again, [])
    either true = scanned
    either false = refl

-- A rewritten query has the placeholders of the query, and no names.
abbrev pub Keeps : Bytes → Result (Bytes × List Bytes) → Type 0
Keeps query (err e) = Unit {0}
Keeps query (ok (r, names)) =
    (count_sql_placeholders r ≡ count_sql_placeholders query)
    × (rewrite_named_params r ≡ ok (r, []))

rewrite-Keeps : (query : Bytes) → Keeps query (rewrite_named_params query)
unfolding rewrite_named_params
rewrite-Keeps query = either (has_colon query) refl
  where
    by_names :
        (names : List Bytes)
        → param_names (scan_sql query).0 ≡ names
        → has_colon query ≡ true
        → unterminated (scan_sql query).1 ≡ false
        → Keeps query (ok (rewrite_tokens query (scan_sql query).0 names))
    by_names [] e colon closed = (refl, rw (colon, closed, e) refl)
    by_names (name ∷ names) e colon closed = (count-rewritten query, rewrite-rewritten query closed)

    by_state :
        (t : Bool)
        → unterminated (scan_sql query).1 ≡ t
        → has_colon query ≡ true
        → Keeps query (
            if t
            then err unterminated_sql
            else ok (rewrite_tokens query (scan_sql query).0 (param_names (scan_sql query).0)))
    by_state true e colon = tt
    by_state false e colon = by_names (param_names (scan_sql query).0) refl colon e

    either :
        (t : Bool)
        → has_colon query ≡ t
        → Keeps query (
            if t
            then terminated
                (scan_sql query).1
                (rewrite_tokens query (scan_sql query).0 (param_names (scan_sql query).0))
            else ok (query, []))
    either true e = by_state (unterminated (scan_sql query).1) refl e
    either false e = (refl, rw (e) refl)

-- Where rewriteNamedParams answers a text, countSQLPlaceholders answers the same on it as on the
-- query, a count or the error for an open literal or comment; and rewriting that text again leaves
-- it as it is and finds no names.
pub rewrite_named_params-count :
    (query r : Bytes) (names : List Bytes)
    → rewrite_named_params query ≡ ok (r, names)
    → (count_sql_placeholders r ≡ count_sql_placeholders query)
      × (rewrite_named_params r ≡ ok (r, []))
rewrite_named_params-count query r names e = subst (Keeps query) e (rewrite-Keeps query)
