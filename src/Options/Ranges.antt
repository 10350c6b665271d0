-- ===== src/Options/Ranges.antt =====
-- The numbers that parseEnumeratedOption answers.
use mathlib.Core.List.{Memᴰ}
use i.Prelude.{
  ℕ, ◌≤◌, ◌≡◌, refl, ap, ◌∙◌, Bytes, List, [], ◌∷◌, Bool, true, false, ◌&&◌, ◌||◌, not, ltb,
  ltb_false→le, ◌⊎◌, inl, inr, Option, none, some, ℤ, pos, negsuc, All, if◌then◌else◌, arith,
}
use i.Errors.{Result, ok, err, empty_option, unknown_option, option_out_of_range}
use i.Text.{is_empty, trim_space, to_lower, to_upper, lower, upper, bytes_eq, bytes_eq_same}
use i.Options.{
  date_formats, time_formats, date_separators, time_separators, decimal_separators,
  commitment_controls, atoi, lookup, normalize_option_key, within_limits, or_name, number_or_name,
  parse_enumerated_option, parse_date_format_option, parse_time_format_option,
  parse_date_separator_option, parse_time_separator_option, parse_decimal_separator_option,
  parse_commitment_control_option,
}

-- What a text means: a number by its digits, or the number of a name of the table, as it stands or without
-- its blanks, underscores and dashes.
abbrev pub Means : Bytes → List (Bytes × ℕ) → ℕ → Type 0
Means text names n =
    (atoi text ≡ some (pos n)) ⊎ (Memᴰ (text, n) names ⊎ Memᴰ (normalize_option_key text, n) names)

-- An error, or a number that the text means and that is at most a bound.
abbrev pub Within : ℕ → List (Bytes × ℕ) → Bytes → Result ℕ → Type 0
Within most names text (ok n) = (n ≤ most) × Means text names n
Within most names text (err e) = Unit {0}

abbrev Named : ℕ → List (Bytes × ℕ) → Bytes → Option ℕ → Type 0
Named most names key none = Unit {0}
Named most names key (some n) = (n ≤ most) × Memᴰ (key, n) names

Named-tail :
    (most : ℕ) (entry : Bytes × ℕ) (names : List (Bytes × ℕ)) (key : Bytes) (o : Option ℕ)
    → Named most names key o
    → Named most (entry ∷ names) key o
Named-tail most entry names key none h = tt
Named-tail most entry names key (some n) h = (h.0, Memᴰ.tail h.1)

lookup-Named :
    (most : ℕ) (key : Bytes) (names : List (Bytes × ℕ))
    → All (λ p. p.1 ≤ most) names
    → Named most names key (lookup key names)
unfolding lookup
lookup-Named most key [] h = tt
lookup-Named most key ((name, n) ∷ names) (small, later) =
    either (bytes_eq key name) refl (lookup-Named most key names later)
  where
    either :
        (b : Bool)
        → bytes_eq key name ≡ b
        → Named most names key (lookup key names)
        → Named most ((name, n) ∷ names) key (if b then some n else lookup key names)
    either true e rest = (small, Memᴰ.head (ap (λ k. (k, n)) (bytes_eq_same key name e)))
    either false e rest = Named-tail most (name, n) names key (lookup key names) rest

-- The two lookups, of the text and of its key.
or_name-Within :
    (most : ℕ) (names : List (Bytes × ℕ)) (text : Bytes) (found keyed : Option ℕ)
    → Named most names text found
    → Named most names (normalize_option_key text) keyed
    → Within most names text (or_name found (or_name keyed (err unknown_option)))
or_name-Within most names text (some n) keyed h k = (h.0, inr (inl h.1))
or_name-Within most names text none (some n) h k = (k.0, inr (inr k.1))
or_name-Within most names text none none h k = tt

within_limits-Within :
    (least most : ℕ) (names : List (Bytes × ℕ)) (text : Bytes) (v : ℤ)
    → atoi text ≡ some v
    → Within most names text (within_limits least most v)
within_limits-Within least most names text (pos n) e = either (ltb n least) (ltb most n) refl
  where
    either :
        (low high : Bool)
        → ltb most n ≡ high
        → Within most names text (if low || high then err option_out_of_range else ok n)
    either true high h = tt
    either false true h = tt
    either false false h = (ltb_false→le _ _ h, inl e)
within_limits-Within least most names text (negsuc n) e = tt

-- A table whose numbers pass the test.
abbrev small : ℕ → List (Bytes × ℕ) → Bool
small most [] = true
small most ((name, n) ∷ names) = not (ltb most n) && small most names

small-All :
    (most : ℕ) (names : List (Bytes × ℕ)) → small most names ≡ true → All (λ p. p.1 ≤ most) names
small-All most [] e = tt
small-All most ((name, n) ∷ names) e = (
  ltb_false→le _ _ (passed (ltb most n) (small most names) e),
  small-All most names (passed_on (ltb most n) (small most names) e),
)
  where
    passed : (a b : Bool) → (not a && b) ≡ true → a ≡ false
    passed a b e = ground arith

    passed_on : (a b : Bool) → (not a && b) ≡ true → b ≡ true
    passed_on a b e = ground arith

-- What the options read: the text in lower case and without the blanks around it.
abbrev pub option_text : Bytes → Bytes
option_text value = trim_space (to_lower value)

parse_enumerated_option-Within :
    (value : Bytes) (least most : ℕ) (names : List (Bytes × ℕ))
    → All (λ p. p.1 ≤ most) names
    → Within most names (option_text value) (parse_enumerated_option value least most names)
unfolding parse_enumerated_option
parse_enumerated_option-Within value least most names h = either (is_empty text) (atoi text) refl
  where
    text : Bytes
    text = option_text value

    parsed :
        (v : Option ℤ)
        → atoi text ≡ v
        → Within most names text (number_or_name least most names text v)
    parsed (some v) e = within_limits-Within least most names text v e
    parsed none e =
        or_name-Within most names text (lookup text names)
          (lookup (normalize_option_key text) names) (lookup-Named most text names h)
          (lookup-Named most (normalize_option_key text) names h)

    either :
        (b : Bool) (v : Option ℤ)
        → atoi text ≡ v
        → Within most names text
            (if b then err empty_option else number_or_name least most names text v)
    either true v e = tt
    either false v e = parsed v e

-- An option that is accepted has the number that its text means, in lower case and without the blanks around
-- it: the number that its digits spell, or the number of the table's entry for the text or for the text
-- without blanks, underscores and dashes. It is a number that the server's attribute has: at most 7 for the
-- date format, 4 for the time format, the date separator and the commitment control, 3 for the time separator
-- and 1 for the decimal separator. A text without such a number is an error.
pub parse_option-Within :
    (value : Bytes)
    → Within 7 date_formats (option_text value) (parse_date_format_option value)
      × (Within 4 time_formats (option_text value) (parse_time_format_option value)
          × (Within 4 date_separators (option_text value) (parse_date_separator_option value)
              × (Within 3 time_separators (option_text value) (parse_time_separator_option value)
                  × (Within 1 decimal_separators
                        (option_text value)
                        (parse_decimal_separator_option value)
                      × Within 4 commitment_controls
                          (option_text value)
                          (parse_commitment_control_option value)))))
unfolding parse_date_format_option parse_time_format_option parse_date_separator_option
    parse_time_separator_option parse_decimal_separator_option parse_commitment_control_option
parse_option-Within value = (
  by_table 7 date_formats refl,
  (
    by_table 4 time_formats refl,
    (
      by_table 4 date_separators refl,
      (
        by_table 3 time_separators refl,
        (by_table 1 decimal_separators refl, by_table 4 commitment_controls refl),
      ),
    ),
  ),
)
  where
    by_table :
        (most : ℕ) (names : List (Bytes × ℕ))
        → small most names ≡ true
        → Within most names (option_text value) (parse_enumerated_option value 0 most names)
    by_table most names e =
        parse_enumerated_option-Within value 0 most names (small-All most names e)

lower-upper : (c : ℕ) → lower (upper c) ≡ lower c
lower-upper c = ground arith

to_lower-to_upper : (s : Bytes) → to_lower (to_upper s) ≡ to_lower s
unfolding to_lower to_upper
to_lower-to_upper [] = refl
to_lower-to_upper (c ∷ s) =
    ap (λ d. d ∷ to_lower (to_upper s)) (lower-upper c)
    ∙ ap (λ t. lower c ∷ t) (to_lower-to_upper s)

-- The case of an option's letters does not matter.
pub parse_enumerated_option-to_upper :
    (value : Bytes) (least most : ℕ) (names : List (Bytes × ℕ))
    → parse_enumerated_option (to_upper value) least most names
      ≡ parse_enumerated_option value least most names
unfolding parse_enumerated_option
parse_enumerated_option-to_upper value least most names = rw (to_lower-to_upper value)
