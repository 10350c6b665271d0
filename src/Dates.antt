-- ===== src/Dates.antt =====
-- datetime_format.go: the text of DATE values in the connection's format. The calendar is Go's time
-- package, a parameter.
pub mod Trimmed
pub mod Texts
use i.Prelude.{
  ℕ, zero, suc, ◌+◌, ◌-◌, ◌/◌, ◌%◌, Bytes, [], ◌∷◌, ◌++◌, ℤ, is_pos, Bool, true, false, ◌&&◌, ◌||◌,
  ◌==◌, not, length, ltb, leb, if◌then◌else◌,
}
use i.Errors.{Result, ok, err, ◌>>=◌, ◌>>◌, fail_if, invalid_date, invalid_julian_date}
use i.Text.{trim_space}
use i.DateTime.{num, two_digits, four_digits}

-- `time.Date` at midnight UTC, the fields of a time, and `time.Unix(0, 0).UTC()`.
pub record Calendar (Time : Type 0) : Type 0 where
  pub date : ℕ → ℕ → ℕ → Time
  pub year : Time → ℕ
  pub month : Time → ℕ
  pub day : Time → ℕ
  pub year_day : Time → ℕ
  pub epoch : Time

pub data DateStyle : Type 0 where
  julian mdy dmy ymd usa iso eur : DateStyle

-- The fields of dateTimeSettings that DATE values use.
pub record DateSettings : Type 0 where
  pub date_format : ℤ
  pub date_separator : ℤ

-- The cases of the switches on the date format; JIS and what is out of range are ISO.
abbrev pub date_style : DateSettings → DateStyle
date_style cfg =
    if is_pos 0 cfg.date_format
    then julian
    else if is_pos 1 cfg.date_format
    then mdy
    else if is_pos 2 cfg.date_format
    then dmy
    else if is_pos 3 cfg.date_format
    then ymd
    else if is_pos 4 cfg.date_format
    then usa
    else if is_pos 6 cfg.date_format
    then eur
    else iso

-- `dateSeparatorText`, and its first entry out of range. Every separator is one byte.
abbrev pub date_sep : DateSettings → ℕ
date_sep cfg =
    if is_pos 1 cfg.date_separator
    then b'-'
    else if is_pos 2 cfg.date_separator
    then b'.'
    else if is_pos 3 cfg.date_separator
    then b','
    else if is_pos 4 cfg.date_separator
    then b' '
    else b'/'

-- `%03d` of a number below 1000.
abbrev pub three_digits : ℕ → Bytes → Bytes
three_digits v rest = (b'0' + v / 100) ∷ (b'0' + v / 10 % 10) ∷ (b'0' + v % 10) ∷ rest

unfoldable pub expand_two_digit_year : ℕ → ℕ
expand_two_digit_year yy = if leb yy 39 then 2000 + yy else 1900 + yy

unfoldable pub year_at : Bytes → ℕ → ℕ → Result ℕ
year_at s start total =
    if leb total 8 then (do yy ← num s start 2; ok (expand_two_digit_year yy)) else num s start 4

-- `strings.Trim(s, "0") == ""`.
unfoldable pub all_zeros : Bytes → Bool
all_zeros [] = true
all_zeros (c ∷ s) = c == b'0' && all_zeros s

-- Year, month and day, read in the order of the source, so that the first error is the same one.
unfoldable pub date_fields : DateStyle → Bytes → Result (ℕ × (ℕ × ℕ))
date_fields usa s = do month ← num s 0 2; day ← num s 3 2; year ← num s 6 4; ok (year, (month, day))
date_fields eur s = do day ← num s 0 2; month ← num s 3 2; year ← num s 6 4; ok (year, (month, day))
date_fields mdy s = do
  month ← num s 0 2
  day ← num s 3 2
  year ← year_at s 6 (length s)
  ok (year, (month, day))
date_fields dmy s = do
  day ← num s 0 2
  month ← num s 3 2
  year ← year_at s 6 (length s)
  ok (year, (month, day))
date_fields ymd s =
    if leb (length s) 8
    then (do
      yy ← num s 0 2
      month ← num s 3 2
      day ← num s 6 2
      ok (expand_two_digit_year yy, (month, day)))
    else (do year ← num s 0 4; month ← num s 5 2; day ← num s 8 2; ok (year, (month, day)))
date_fields _ s = do year ← num s 0 4; month ← num s 5 2; day ← num s 8 2; ok (year, (month, day))

unfoldable pub julian_fields : Bytes → Result (ℕ × ℕ)
julian_fields s =
    if leb (length s) 6
    then (do yy ← num s 0 2; day ← num s 3 3; ok (expand_two_digit_year yy, day))
    else (do year ← num s 0 4; day ← num s 5 3; ok (year, day))

module _ {Time : Type 0} (calendar : Calendar Time) where
  abbrev pub date_text : DateStyle → ℕ → ℕ → ℕ → ℕ → ℕ → Bytes
  date_text usa sep year month day year_day =
      two_digits month (b'/' ∷ two_digits day (b'/' ∷ four_digits year []))
  date_text eur sep year month day year_day =
      two_digits day (b'.' ∷ two_digits month (b'.' ∷ four_digits year []))
  date_text julian sep year month day year_day =
      two_digits (year % 100) (sep ∷ three_digits year_day [])
  date_text mdy sep year month day year_day =
      two_digits month (sep ∷ two_digits day (sep ∷ two_digits (year % 100) []))
  date_text dmy sep year month day year_day =
      two_digits day (sep ∷ two_digits month (sep ∷ two_digits (year % 100) []))
  date_text ymd sep year month day year_day =
      two_digits (year % 100) (sep ∷ two_digits month (sep ∷ two_digits day []))
  date_text iso sep year month day year_day =
      four_digits year (b'-' ∷ two_digits month (b'-' ∷ two_digits day []))

  unfoldable pub format_date : Time → DateSettings → Bytes
  format_date t cfg =
      date_text (date_style cfg) (date_sep cfg) (calendar.year t) (calendar.month t)
        (calendar.day t) (calendar.year_day t)

  abbrev pub checked_date : ℕ → ℕ → ℕ → Result Time
  checked_date year month day =
      let t = calendar.date year month day in
      if not (calendar.year t == year)
        || not (calendar.month t == month)
        || not (calendar.day t == day)
      then err invalid_date
      else ok t

  abbrev pub checked_julian : ℕ → ℕ → Result Time
  checked_julian year day =
      let t = calendar.date year 1 day in
      if ltb day 1 || not (calendar.year t == year) || not (calendar.year_day t == day)
      then err invalid_julian_date
      else ok t

  abbrev pub parse_style_date : DateStyle → Bytes → Result Time
  parse_style_date julian s = do fields ← julian_fields s; checked_julian fields.0 fields.1
  parse_style_date style s = do
    fields ← date_fields style s
    checked_date fields.0 fields.1.0 fields.1.1

  abbrev pub parse_trimmed : DateStyle → Bytes → Result Time
  parse_trimmed style s = if all_zeros s then ok calendar.epoch else parse_style_date style s

  unfoldable pub parse_date : Bytes → DateSettings → Result Time
  parse_date s cfg = parse_trimmed (date_style cfg) (trim_space s)
