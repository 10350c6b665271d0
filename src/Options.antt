-- ===== src/Options.antt =====
-- Options of a connection string that have a number or a name (dsn.go): parseEnumeratedOption and the options
-- that are read with it.
pub mod Ranges
use i.Prelude.{
  ℕ, zero, suc, ◌+◌, ◌-◌, ◌*◌, ◌^◌, Bytes, List, [], ◌∷◌, Bool, true, false, not, ◌&&◌, ◌||◌, ◌==◌,
  ltb, leb, Option, none, some, ℤ, pos, negsuc, if◌then◌else◌,
}
use i.Errors.{Error, Result, ok, err, empty_option, option_out_of_range, unknown_option}
use i.Text.{codes, is_empty, trim_space, to_lower, bytes_eq}

-- A decimal number behind the digits that are read already, none where a byte is no digit.
abbrev digits : ℕ → Bytes → Option ℕ
digits n [] = some n
digits n (c ∷ s) =
    let later = digits (n * 10 + (c - b'0')) s in if leb b'0' c && leb c b'9' then later else none

abbrev unsigned : Bytes → Option ℕ
unsigned [] = none
unsigned (c ∷ s) = digits 0 (c ∷ s)

abbrev negated : Option ℕ → Option ℤ
negated none = none
negated (some zero) = some (pos 0)
negated (some (suc n)) = if ltb n (2 ^ 63) then some (negsuc n) else none

abbrev not_negated : Option ℕ → Option ℤ
not_negated none = none
not_negated (some n) = if ltb n (2 ^ 63) then some (pos n) else none

-- `strconv.Atoi`, on 64 bits.
unfoldable pub atoi : Bytes → Option ℤ
atoi [] = none
atoi (c ∷ s) =
    if c == b'-'
    then negated (unsigned s)
    else if c == b'+'
    then not_negated (unsigned s)
    else not_negated (unsigned (c ∷ s))

-- A literal map, as the list of its entries.
unfoldable pub lookup : Bytes → List (Bytes × ℕ) → Option ℕ
lookup key [] = none
lookup key ((name, n) ∷ names) =
    let later = lookup key names in if bytes_eq key name then some n else later

unfoldable pub normalize_option_key : Bytes → Bytes
normalize_option_key [] = []
normalize_option_key (c ∷ s) =
    let later = normalize_option_key s in
    if c == b' ' || c == b'_' || c == b'-' then later else c ∷ later

-- A number, for a least number that is not negative.
abbrev pub within_limits : (least most : ℕ) → ℤ → Result ℕ
within_limits least most (pos n) =
    if ltb n least || ltb most n then err option_out_of_range else ok n
within_limits least most (negsuc n) = err option_out_of_range

abbrev pub or_name : Option ℕ → Result ℕ → Result ℕ
or_name none other = other
or_name (some n) other = ok n

abbrev pub number_or_name : (least most : ℕ) → List (Bytes × ℕ) → Bytes → Option ℤ → Result ℕ
number_or_name least most mappings trimmed (some v) = within_limits least most v
number_or_name least most mappings trimmed none =
    or_name (lookup trimmed mappings)
      (or_name (lookup (normalize_option_key trimmed) mappings) (err unknown_option))

unfoldable pub parse_enumerated_option : Bytes → (least most : ℕ) → List (Bytes × ℕ) → Result ℕ
parse_enumerated_option value least most mappings =
    let trimmed = trim_space (to_lower value) in
    if is_empty trimmed
    then err empty_option
    else number_or_name least most mappings trimmed (atoi trimmed)

abbrev pub date_formats : List (Bytes × ℕ)
date_formats =
    (codes "julian", 0)
    ∷ (codes "mdy", 1)
    ∷ (codes "dmy", 2)
    ∷ (codes "ymd", 3)
    ∷ (codes "usa", 4)
    ∷ (codes "iso", 5)
    ∷ (codes "eur", 6)
    ∷ (codes "jis", 7)
    ∷ []

unfoldable pub parse_date_format_option : Bytes → Result ℕ
parse_date_format_option value = parse_enumerated_option value 0 7 date_formats

abbrev pub time_formats : List (Bytes × ℕ)
time_formats =
    (codes "hms", 0)
    ∷ (codes "usa", 1)
    ∷ (codes "iso", 2)
    ∷ (codes "eur", 3)
    ∷ (codes "jis", 4)
    ∷ []

unfoldable pub parse_time_format_option : Bytes → Result ℕ
parse_time_format_option value = parse_enumerated_option value 0 4 time_formats

abbrev pub date_separators : List (Bytes × ℕ)
date_separators =
    (codes "/", 0)
    ∷ (codes "slash", 0)
    ∷ (codes "-", 1)
    ∷ (codes "dash", 1)
    ∷ (codes ".", 2)
    ∷ (codes "dot", 2)
    ∷ (codes "period", 2)
    ∷ (codes ",", 3)
    ∷ (codes "comma", 3)
    ∷ (codes "space", 4)
    ∷ []

unfoldable pub parse_date_separator_option : Bytes → Result ℕ
parse_date_separator_option value = parse_enumerated_option value 0 4 date_separators

abbrev pub time_separators : List (Bytes × ℕ)
time_separators =
    (codes ":", 0)
    ∷ (codes "colon", 0)
    ∷ (codes ".", 1)
    ∷ (codes "dot", 1)
    ∷ (codes "period", 1)
    ∷ (codes ",", 2)
    ∷ (codes "comma", 2)
    ∷ (codes "space", 3)
    ∷ []

unfoldable pub parse_time_separator_option : Bytes → Result ℕ
parse_time_separator_option value = parse_enumerated_option value 0 3 time_separators

abbrev pub decimal_separators : List (Bytes × ℕ)
decimal_separators =
    (codes ".", 0)
    ∷ (codes "dot", 0)
    ∷ (codes "period", 0)
    ∷ (codes ",", 1)
    ∷ (codes "comma", 1)
    ∷ []

unfoldable pub parse_decimal_separator_option : Bytes → Result ℕ
parse_decimal_separator_option value = parse_enumerated_option value 0 1 decimal_separators

abbrev pub commitment_controls : List (Bytes × ℕ)
commitment_controls =
    (codes "none", 0)
    ∷ (codes "cs", 1)
    ∷ (codes "cursorstability", 1)
    ∷ (codes "chg", 2)
    ∷ (codes "changedpage", 2)
    ∷ (codes "all", 3)
    ∷ (codes "rr", 4)
    ∷ (codes "repeatableread", 4)
    ∷ []

unfoldable pub parse_commitment_control_option : Bytes → Result ℕ
parse_commitment_control_option value = parse_enumerated_option value 0 4 commitment_controls
