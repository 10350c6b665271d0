-- ===== src/Dates/Texts.antt =====
-- A date is read back from its text.
use i.Prelude.{
  ap, ℕ, ◌+◌, ◌/◌, ◌%◌, ◌≤◌, ◌<◌, ◌≡◌, ◌≢◌, refl, Bytes, [], arith, ◌==◌, not, eq→==, false,
}
use i.Errors.{ok}
use i.Text.{trim_space, is_space}
use i.Dates.Trimmed.{trim_space-dark, is_space-digit, all_zeros-separated, date_sep-nonzero}
use i.DateTime.{num, two_digits, four_digits}
use i.DateTime.Fields.{digits_at-two_digits, digits_at-four_digits}
use i.Dates.{
  Calendar, DateStyle, julian, mdy, dmy, ymd, usa, iso, eur, DateSettings, date_style, date_sep,
  date_text, date_fields, expand_two_digit_year, year_at, all_zeros, format_date, checked_date,
  parse_style_date, parse_date,
}

-- The years that the style can show: the window of two-digit years, or four digits.
abbrev pub CanShow : DateStyle → ℕ → Type 0
CanShow mdy year = (1940 ≤ year) × (year < 2040)
CanShow dmy year = (1940 ≤ year) × (year < 2040)
CanShow ymd year = (1940 ≤ year) × (year < 2040)
CanShow _ year = year < 10000

expand_two_digit_year-window :
    (year : ℕ) → 1940 ≤ year → year < 2040 → expand_two_digit_year (year % 100) ≡ year
unfolding expand_two_digit_year
expand_two_digit_year-window year p q = ground arith

module _ {Time : Type 0} (calendar : Calendar Time) where
  -- The fields of a date are read from its text.
  date_fields-date_text :
      (style : DateStyle) (sep year month day year_day : ℕ)
      → style ≢ julian
      → CanShow style year
      → month < 100
      → day < 100
      → date_fields style (date_text calendar style sep year month day year_day)
        ≡ ok (year, (month, day))
  unfolding date_fields num year_at
  date_fields-date_text julian sep year month day year_day n y p q = absurd (n refl)
  date_fields-date_text usa sep year month day year_day n y p q =
      rw
        (
          digits_at-two_digits 0 month p,
          digits_at-two_digits 3 day q,
          digits_at-four_digits 6 year y,
        )
        refl
  date_fields-date_text eur sep year month day year_day n y p q =
      rw
        (
          digits_at-two_digits 0 day q,
          digits_at-two_digits 3 month p,
          digits_at-four_digits 6 year y,
        )
        refl
  date_fields-date_text iso sep year month day year_day n y p q =
      rw
        (
          digits_at-four_digits 0 year y,
          digits_at-two_digits 5 month p,
          digits_at-two_digits 8 day q,
        )
        refl
  date_fields-date_text mdy sep year month day year_day n y p q =
      rw
        (
          digits_at-two_digits 0 month p,
          digits_at-two_digits 3 day q,
          digits_at-two_digits 6 (year % 100) (omega arith),
          expand_two_digit_year-window year y.0 y.1,
        )
        refl
  date_fields-date_text dmy sep year month day year_day n y p q =
      rw
        (
          digits_at-two_digits 0 day q,
          digits_at-two_digits 3 month p,
          digits_at-two_digits 6 (year % 100) (omega arith),
          expand_two_digit_year-window year y.0 y.1,
        )
        refl
  date_fields-date_text ymd sep year month day year_day n y p q =
      rw
        (
          digits_at-two_digits 0 (year % 100) (omega arith),
          digits_at-two_digits 3 month p,
          digits_at-two_digits 6 day q,
          expand_two_digit_year-window year y.0 y.1,
        )
        refl

  checked_date-date :
      (t : Time)
      → calendar.date (calendar.year t) (calendar.month t) (calendar.day t) ≡ t
      → checked_date calendar (calendar.year t) (calendar.month t) (calendar.day t) ≡ ok t
  checked_date-date t e =
      rw
        (
          e,
          eq→== (calendar.year t) (calendar.year t) refl,
          eq→== (calendar.month t) (calendar.month t) refl,
          eq→== (calendar.day t) (calendar.day t) refl,
        )
        refl

  is_space-first : (v : ℕ) → v < 100 → is_space (b'0' + v / 10) ≡ false
  is_space-first v p = is_space-digit (v / 10) (omega arith)

  is_space-last : (v : ℕ) → is_space (b'0' + v % 10) ≡ false
  is_space-last v = is_space-digit (v % 10) (omega arith)

  trim_space-date_text :
      (style : DateStyle) (sep year month day year_day : ℕ)
      → style ≢ julian
      → CanShow style year
      → month < 100
      → day < 100
      → trim_space (date_text calendar style sep year month day year_day)
        ≡ date_text calendar style sep year month day year_day
  trim_space-date_text julian sep year month day year_day n y p q = absurd (n refl)
  trim_space-date_text usa sep year month day year_day n y p q =
      trim_space-dark _ _ (is_space-first month p) (ap not (is_space-last year))
  trim_space-date_text eur sep year month day year_day n y p q =
      trim_space-dark _ _ (is_space-first day q) (ap not (is_space-last year))
  trim_space-date_text iso sep year month day year_day n y p q =
      trim_space-dark _ _ (is_space-digit (year / 1000) (omega arith)) (ap not (is_space-last day))
  trim_space-date_text mdy sep year month day year_day n y p q =
      trim_space-dark _ _ (is_space-first month p) (ap not (is_space-last (year % 100)))
  trim_space-date_text dmy sep year month day year_day n y p q =
      trim_space-dark _ _ (is_space-first day q) (ap not (is_space-last (year % 100)))
  trim_space-date_text ymd sep year month day year_day n y p q =
      trim_space-dark _ _ (is_space-first (year % 100) (omega arith)) (ap not (is_space-last day))

  all_zeros-date_text :
      (style : DateStyle) (sep year month day year_day : ℕ)
      → (sep == b'0') ≡ false
      → all_zeros (date_text calendar style sep year month day year_day) ≡ false
  all_zeros-date_text julian sep year month day year_day e =
      all_zeros-separated (two_digits (year % 100) []) sep _ e
  all_zeros-date_text usa sep year month day year_day e =
      all_zeros-separated (two_digits month []) b'/' _ refl
  all_zeros-date_text eur sep year month day year_day e =
      all_zeros-separated (two_digits day []) b'.' _ refl
  all_zeros-date_text iso sep year month day year_day e =
      all_zeros-separated (four_digits year []) b'-' _ refl
  all_zeros-date_text mdy sep year month day year_day e =
      all_zeros-separated (two_digits month []) sep _ e
  all_zeros-date_text dmy sep year month day year_day e =
      all_zeros-separated (two_digits day []) sep _ e
  all_zeros-date_text ymd sep year month day year_day e =
      all_zeros-separated (two_digits (year % 100) []) sep _ e

  parse_style_date-fields :
      (style : DateStyle) (s : Bytes) (t : Time)
      → style ≢ julian
      → date_fields style s ≡ ok (calendar.year t, (calendar.month t, calendar.day t))
      → checked_date calendar (calendar.year t) (calendar.month t) (calendar.day t) ≡ ok t
      → parse_style_date calendar style s ≡ ok t
  parse_style_date-fields julian s t n e c = absurd (n refl)
  parse_style_date-fields usa s t n e c = rw e c
  parse_style_date-fields eur s t n e c = rw e c
  parse_style_date-fields iso s t n e c = rw e c
  parse_style_date-fields mdy s t n e c = rw e c
  parse_style_date-fields dmy s t n e c = rw e c
  parse_style_date-fields ymd s t n e c = rw e c

  -- A date that the calendar makes again from its year, month and day is read back from its text in every format but
  -- the Julian one, with every separator, where the format can show its year.
  pub parse_date-format_date :
      (t : Time) (cfg : DateSettings)
      → calendar.date (calendar.year t) (calendar.month t) (calendar.day t) ≡ t
      → date_style cfg ≢ julian
      → CanShow (date_style cfg) (calendar.year t)
      → calendar.month t < 100
      → calendar.day t < 100
      → parse_date calendar (format_date calendar t cfg) cfg ≡ ok t
  unfolding parse_date format_date
  parse_date-format_date t cfg e n y p q =
      rw
        (
          trim_space-date_text (date_style cfg) (date_sep cfg) (calendar.year t) (calendar.month t)
              (calendar.day t) (calendar.year_day t) n y p q,
          all_zeros-date_text (date_style cfg) (date_sep cfg) (calendar.year t) (calendar.month t)
              (calendar.day t) (calendar.year_day t) (date_sep-nonzero cfg),
        )
        (parse_style_date-fields (date_style cfg) _ t n
          (date_fields-date_text (date_style cfg) (date_sep cfg) (calendar.year t)
            (calendar.month t) (calendar.day t) (calendar.year_day t) n y p q)
          (checked_date-date t e))
