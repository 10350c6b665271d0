-- ===== src/Sql.antt =====
-- The scans of SQL text in stmt.go: expandSQLQuery, countSQLPlaceholders and rewriteNamedParams. Their
-- loops have the same switch on state and character and differ in what they do with a placeholder,
-- so the switch is one function, whose answer is what a round consumes.
pub mod Rounds
pub mod Rewritten
pub mod Counted
use i.Prelude.{
  ℕ, zero, suc, ◌+◌, Bytes, List, [], ◌∷◌, ◌++◌, Bool, true, false, not, ◌&&◌, ◌||◌, ◌==◌, leb, ltb,
  Option, none, some, length, get_elem?, if◌then◌else◌,
}
use i.Errors.{
  Error, Result, ok, err, ◌>>=◌, unterminated_sql, parameter_count_mismatch,
  named_parameter_not_provided,
}

pub data ScanState : Type 0 where
  normal : ScanState
  single_quoted double_quoted : ScanState
  line_comment block_comment : ScanState

abbrev is_letter : ℕ → Bool
is_letter c = (leb b'a' c && leb c b'z') || (leb b'A' c && leb c b'Z')

abbrev pub is_name_start_char : ℕ → Bool
is_name_start_char c = is_letter c || c == b'_'

abbrev pub is_name_continue_char : ℕ → Bool
is_name_continue_char c = is_letter c || (leb b'0' c && leb c b'9') || c == b'_'

-- `for j < len(query) && isNameContinueChar(query[j]) { j++ }`: what it runs over, and the rest.
unfoldable pub split_name : Bytes → Bytes × Bytes
split_name [] = ([], [])
split_name (c ∷ s) =
    let run = split_name s in if is_name_continue_char c then (c ∷ run.0, run.1) else ([], c ∷ s)

-- What a round consumes: text, a placeholder `?`, or `:name`.
pub data Token : Type 0 where
  text : Bytes → Token
  mark : Token
  named : Bytes → Token

-- The token, the state behind it and what is left.
abbrev pub Round : Type 0
Round = Token × (ScanState × Bytes)

-- A pair of characters that changes the state, or the first of them alone.
abbrev pub pair_round : (second : ℕ) (inside outside : ScanState) → ℕ → Bytes → Round
pair_round second inside outside c [] = (text (c ∷ []), (outside, []))
pair_round second inside outside c (d ∷ s) =
    if d == second then (text (c ∷ d ∷ []), (inside, s)) else (text (c ∷ []), (outside, d ∷ s))

-- What follows a colon.
abbrev pub colon_round : ℕ → Bytes → Round
colon_round c [] = (text (c ∷ []), (normal, []))
colon_round c (d ∷ s) =
    if d == b':'
    then (text (c ∷ d ∷ []), (normal, s))
    else if is_name_start_char d
    then (let run = split_name s in (named (d ∷ run.0), (normal, run.1)))
    else (text (c ∷ []), (normal, d ∷ s))

-- The cases of the switch on the character outside quotes and comments.
pub data Kind : Type 0 where
  single_quote double_quote dash slash question colon other : Kind

abbrev pub kind : ℕ → Kind
kind c =
    if c == b'\''
    then single_quote
    else if c == b'"'
    then double_quote
    else if c == b'-'
    then dash
    else if c == b'/'
    then slash
    else if c == b'?'
    then question
    else if c == b':'
    then colon
    else other

abbrev pub normal_round : Kind → ℕ → Bytes → Round
normal_round single_quote c s = (text (c ∷ []), (single_quoted, s))
normal_round double_quote c s = (text (c ∷ []), (double_quoted, s))
normal_round dash c s = pair_round b'-' line_comment normal c s
normal_round slash c s = pair_round b'*' block_comment normal c s
normal_round question c s = (mark, (normal, s))
normal_round colon c s = colon_round c s
normal_round other c s = (text (c ∷ []), (normal, s))

-- Inside quotes a doubled quote is text.
abbrev pub quoted_round : (quote : ℕ) → ScanState → ℕ → Bytes → Round
quoted_round quote state c s =
    if c == quote then pair_round quote state normal c s else (text (c ∷ []), (state, s))

unfoldable pub scan_round : ScanState → ℕ → Bytes → Round
scan_round normal c s = normal_round (kind c) c s
scan_round single_quoted c s = quoted_round b'\'' single_quoted c s
scan_round double_quoted c s = quoted_round b'"' double_quoted c s
scan_round line_comment c s = (text (c ∷ []), (if c == b'\n' then normal else line_comment, s))
scan_round block_comment c s =
    if c == b'*'
    then pair_round b'/' normal block_comment c s
    else (text (c ∷ []), (block_comment, s))

abbrev pub add_token : Token → List Token × ScanState → List Token × ScanState
add_token token (tokens, state) = (token ∷ tokens, state)

-- The loop: what its rounds consume, and the state at the end. A text has no more rounds than bytes.
unfoldable pub scan_tokens : (fuel : ℕ) → ScanState → Bytes → List Token × ScanState
scan_tokens fuel state [] = ([], state)
scan_tokens zero state (c ∷ s) = ([], state)
scan_tokens (suc fuel) state (c ∷ s) =
    let (token, (state', rest)) = scan_round state c s in
    add_token token (scan_tokens fuel state' rest)

unfoldable pub scan_sql : Bytes → List Token × ScanState
scan_sql query = scan_tokens (length query) normal query

abbrev pub unterminated : ScanState → Bool
unterminated normal = false
unterminated single_quoted = true
unterminated double_quoted = true
unterminated line_comment = false
unterminated block_comment = true

abbrev pub terminated {ℓ} : {A : Type ℓ} → ScanState → A → Result A
terminated state a = if unterminated state then err unterminated_sql else ok a

abbrev pub count_tokens : List Token → ℕ
count_tokens [] = 0
count_tokens (text t ∷ tokens) = count_tokens tokens
count_tokens (mark ∷ tokens) = suc (count_tokens tokens)
count_tokens (named name ∷ tokens) = suc (count_tokens tokens)

unfoldable pub count_sql_placeholders : Bytes → Result ℕ
count_sql_placeholders query =
    let (tokens, state) = scan_sql query in terminated state (count_tokens tokens)

-- What is written for a token: a name becomes a marker.
abbrev pub piece : Token → Bytes → Bytes
piece (text t) s = t ++ s
piece mark s = b'?' ∷ s
piece (named name) s = b'?' ∷ s

abbrev pub rewritten : List Token → Bytes
rewritten [] = []
rewritten (token ∷ tokens) = piece token (rewritten tokens)

abbrev pub param_names : List Token → List Bytes
param_names [] = []
param_names (text t ∷ tokens) = param_names tokens
param_names (mark ∷ tokens) = param_names tokens
param_names (named name ∷ tokens) = name ∷ param_names tokens

abbrev pub has_colon : Bytes → Bool
has_colon [] = false
has_colon (c ∷ s) = c == b':' || has_colon s

-- The query itself where it names no parameter.
abbrev pub rewrite_tokens : Bytes → List Token → List Bytes → Bytes × List Bytes
rewrite_tokens query tokens [] = (query, [])
rewrite_tokens query tokens (name ∷ names) = (rewritten tokens, name ∷ names)

unfoldable pub rewrite_named_params : Bytes → Result (Bytes × List Bytes)
rewrite_named_params query =
    if has_colon query
    then (let (tokens, state) = scan_sql query in
        terminated state (rewrite_tokens query tokens (param_names tokens)))
    else ok (query, [])
