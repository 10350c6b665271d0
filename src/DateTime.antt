-- ===== src/DateTime.antt =====
-- datetime_format.go: the text of TIME values in the connection's format, and the reader of fixed
-- fields. A time of day is its clock reading, which is all that the package takes of a `time.Time`.
pub mod Fields
pub mod Clocks
use Prim.Native.Nat.{bit_or}
use i.Prelude.{
  ℕ, zero, suc, ◌+◌, ◌-◌, ◌*◌, ◌/◌, ◌%◌, Bytes, [], ◌∷◌, ◌++◌, ℤ, pos, negsuc, is_pos, Bool, true,
  false, ◌&&◌, ◌||◌, ◌==◌, length, take, drop, ltb, if◌then◌else◌,
}
use i.Errors.{
  Result, ok, err, ◌>>=◌, ◌>>◌, fail_if, field_out_of_range, unexpected_character, invalid_time,
  hour_out_of_range, expected_am_or_pm, time_out_of_range,
}

pub record Clock : Type 0 where
  pub hour : ℕ
  pub minute : ℕ
  pub second : ℕ

-- The fields of dateTimeSettings that TIME values use.
pub record Settings : Type 0 where
  pub time_format : ℤ
  pub time_separator : ℤ

-- The cases of the switches on the time format.
pub data TimeStyle : Type 0 where
  hms usa iso eur jis : TimeStyle

abbrev pub time_style : Settings → TimeStyle
time_style cfg =
    if is_pos 1 cfg.time_format
    then usa
    else if is_pos 2 cfg.time_format
    then iso
    else if is_pos 3 cfg.time_format
    then eur
    else if is_pos 4 cfg.time_format
    then jis
    else hms

-- `timeSeparatorText`, and its first entry out of range. Every separator is one byte.
abbrev pub time_sep : Settings → ℕ
time_sep cfg =
    if is_pos 1 cfg.time_separator
    then b'.'
    else if is_pos 2 cfg.time_separator
    then b','
    else if is_pos 3 cfg.time_separator
    then b' '
    else b':'

-- `%02d` of a number below 100, in front of what follows.
abbrev pub two_digits : ℕ → Bytes → Bytes
two_digits v rest = (b'0' + v / 10) ∷ (b'0' + v % 10) ∷ rest

-- `%04d` of a number below 10000.
abbrev pub four_digits : ℕ → Bytes → Bytes
four_digits v rest =
    (b'0' + v / 1000) ∷ (b'0' + v / 100 % 10) ∷ (b'0' + v / 10 % 10) ∷ (b'0' + v % 10) ∷ rest

-- The hour and the marker of the USA format.
abbrev pub twelve_hour : ℕ → ℕ × ℕ
twelve_hour hour =
    if ltb 12 hour
    then (hour - 12, b'P')
    else if hour == 12
    then (hour, b'P')
    else if hour == 0
    then (12, b'A')
    else (hour, b'A')

abbrev pub separated : ℕ → Clock → Bytes
separated sep t = two_digits t.hour (sep ∷ two_digits t.minute (sep ∷ two_digits t.second []))

abbrev pub format_style : TimeStyle → ℕ → Clock → Bytes
format_style usa sep t =
    let shown = twelve_hour t.hour in
    two_digits shown.0 (b':' ∷ two_digits t.minute (b' ' ∷ shown.1 ∷ b'M' ∷ []))
format_style iso sep t = separated b'.' t
format_style eur sep t = separated b'.' t
format_style jis sep t = separated b':' t
format_style hms sep t = separated sep t

unfoldable pub format_time : Clock → Settings → Bytes
format_time t cfg = format_style (time_style cfg) (time_sep cfg) t

-- The loop of `num` from offset `i` on.
abbrev pub digits_at : ℕ → ℕ → Bytes → Result ℕ
digits_at i v [] = ok v
digits_at i v (c ∷ s) =
    let rest = digits_at (i + 1) (v * 10 + (c - b'0')) s in
    if ltb c b'0' || ltb b'9' c then err (unexpected_character c i) else rest

-- A fieldReader keeps its first error and answers 0 from there on, so that its fields are a chain.
unfoldable pub num : Bytes → ℕ → ℕ → Result ℕ
num s start n =
    if ltb (length s) (start + n)
    then err (field_out_of_range start)
    else digits_at start 0 (take n (drop start s))

-- The byte `s[6]`, which is there in text of 7 bytes.
abbrev pub marker_of : Bytes → ℕ
marker_of (a ∷ b ∷ c ∷ d ∷ e ∷ f ∷ m ∷ s) = bit_or m 0x20
marker_of s = 0

abbrev pub marked_hour : ℕ → ℕ → Result ℕ
marked_hour hour marker =
    if marker == b'a'
    then ok (if hour == 12 then 0 else hour)
    else if marker == b'p'
    then ok (if hour == 12 then hour else hour + 12)
    else err expected_am_or_pm

abbrev pub in_range : ℕ → ℕ → ℕ → Result Clock
in_range hour minute second =
    if ltb 23 hour || ltb 59 minute || ltb 59 second
    then err time_out_of_range
    else ok record { hour = hour; minute = minute; second = second }

unfoldable pub parse_usa : Bytes → Result Clock
parse_usa s = do
  fail_if (ltb (length s) 7) invalid_time
  hour ← num s 0 2
  minute ← num s 3 2
  fail_if (ltb 12 hour) hour_out_of_range
  marked ← marked_hour hour (marker_of s)
  in_range marked minute 0

unfoldable pub parse_separated : Bytes → Result Clock
parse_separated s = do
  hour ← num s 0 2
  minute ← num s 3 2
  second ← num s 6 2
  in_range (if hour == 24 && minute == 0 && second == 0 then 0 else hour) minute second

abbrev pub parse_style : TimeStyle → Bytes → Result Clock
parse_style usa s = parse_usa s
parse_style iso s = parse_separated s
parse_style eur s = parse_separated s
parse_style jis s = parse_separated s
parse_style hms s = parse_separated s

unfoldable pub parse_time_fields : Bytes → Settings → Result Clock
parse_time_fields s cfg = parse_style (time_style cfg) s
