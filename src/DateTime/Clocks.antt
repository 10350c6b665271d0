-- ===== src/DateTime/Clocks.antt =====
-- A time of day is read back from its text.
use Prim.Native.Nat.{bit_or}
use i.Prelude.{
  subst, length, ltb_false→le, le→ltb_false, ℕ, ◌-◌, ◌<◌, ◌≡◌, refl, Bytes, arith, ltb, ◌||◌, ◌==◌,
  Bool, true, false, if◌then◌else◌,
}
use i.Errors.{
  Result, ok, err, ◌>>=◌, ◌>>◌, fail_if, invalid_time, hour_out_of_range, time_out_of_range,
}
use i.DateTime.{
  in_range, marker_of, Clock, Settings, TimeStyle, hms, usa, iso, eur, jis, num, separated,
  twelve_hour, time_style, time_sep, marked_hour, format_style, parse_style, format_time,
  parse_time_fields, parse_usa, parse_separated,
}
use i.DateTime.Fields.{digits_at-two_digits}

-- A reading of a clock.
pub record IsClock (t : Clock) : Type 0 where
  pub hour : t.hour < 24
  pub minute : t.minute < 60
  pub second : t.second < 60

parse_separated-separated :
    (sep : ℕ) (t : Clock) → IsClock t → parse_separated (separated sep t) ≡ ok t
unfolding parse_separated num
parse_separated-separated sep t h =
    rw
      (
        digits_at-two_digits 0 t.hour (omega (arith, h.hour)),
        digits_at-two_digits 3 t.minute (omega (arith, h.minute)),
        digits_at-two_digits 6 t.second (omega (arith, h.second)),
      )
      (ground (arith, h.hour, h.minute, h.second))

-- What the format shows of a time: the USA format has no seconds.
abbrev pub shown_by : TimeStyle → Clock → Clock
shown_by usa t = record { hour = t.hour; minute = t.minute; second = 0 }
shown_by iso t = t
shown_by eur t = t
shown_by jis t = t
shown_by hms t = t

twelve_hour-bounded : (hour : ℕ) → hour < 24 → (twelve_hour hour).0 < 13
twelve_hour-bounded hour p = ground arith

-- The hour of the USA format and its marker are the hour.
marked_hour-twelve_hour :
    (hour : ℕ)
    → hour < 24
    → marked_hour (twelve_hour hour).0 (bit_or (twelve_hour hour).1 0x20) ≡ ok hour
marked_hour-twelve_hour hour p = either (ltb 12 hour) (hour == 12) (hour == 0) refl refl refl
  where
    shown : Bool → Bool → Bool → ℕ × ℕ
    shown a b c =
        if a
        then (hour - 12, b'P')
        else if b
        then (hour, b'P')
        else if c
        then (12, b'A')
        else (hour, b'A')

    either :
        (a b c : Bool)
        → ltb 12 hour ≡ a
        → (hour == 12) ≡ b
        → (hour == 0) ≡ c
        → marked_hour (shown a b c).0 (bit_or (shown a b c).1 0x20) ≡ ok hour
    either true b c e f g = ground (arith, e, p)
    either false true c e f g = ground (arith, f)
    either false false true e f g = ground (arith, g)
    either false false false e f g = ground (arith, f)

parse_usa-usa :
    (sep : ℕ) (t : Clock) → IsClock t → parse_usa (format_style usa sep t) ≡ ok (shown_by usa t)
unfolding parse_usa num
parse_usa-usa sep t h =
    rw
      (
        digits_at-two_digits 0 (twelve_hour t.hour).0
            (omega (arith, twelve_hour-bounded t.hour h.hour)),
        digits_at-two_digits 3 t.minute (omega (arith, h.minute)),
        le→ltb_false 12 (twelve_hour t.hour).0 (omega (arith, twelve_hour-bounded t.hour h.hour)),
        marked_hour-twelve_hour t.hour h.hour,
      )
      (ground (arith, h.hour, h.minute))

-- Every time of day is read back from its text, in every format and with every separator; the USA format
-- gives it back without its seconds.
pub parse_time_fields-format_time :
    (t : Clock) (cfg : Settings)
    → IsClock t
    → parse_time_fields (format_time t cfg) cfg ≡ ok (shown_by (time_style cfg) t)
unfolding parse_time_fields format_time
parse_time_fields-format_time t cfg h = either (time_style cfg) (time_sep cfg)
  where
    either :
        (style : TimeStyle) (sep : ℕ)
        → parse_style style (format_style style sep t) ≡ ok (shown_by style t)
    either usa sep = parse_usa-usa sep t h
    either iso sep = parse_separated-separated b'.' t h
    either eur sep = parse_separated-separated b'.' t h
    either jis sep = parse_separated-separated b':' t h
    either hms sep = parse_separated-separated sep t h

-- What is said of the clock that a reader returns.
abbrev Reads : Result Clock → Type 0
Reads (ok t) = IsClock t
Reads (err e) = Unit

>>=-Reads :
    {A : Type 0} (r : Result A) (f : A → Result Clock) → ((a : A) → Reads (f a)) → Reads (r >>= f)
>>=-Reads (ok a) f h = h a
>>=-Reads (err e) f h = tt

in_range-Reads : (hour minute second : ℕ) → Reads (in_range hour minute second)
in_range-Reads hour minute second =
    either (ltb 23 hour) (ltb 59 minute) (ltb 59 second) refl refl refl
  where
    either :
        (a b c : Bool)
        → ltb 23 hour ≡ a
        → ltb 59 minute ≡ b
        → ltb 59 second ≡ c
        → Reads (
            if a || b || c
            then err time_out_of_range
            else ok record { hour = hour; minute = minute; second = second })
    either true b c e f g = tt
    either false true c e f g = tt
    either false false true e f g = tt
    either false false false e f g = record {
      hour = omega (arith, ltb_false→le 23 hour e);
      minute = omega (arith, ltb_false→le 59 minute f);
      second = omega (arith, ltb_false→le 59 second g);
    }

parse_separated-Reads : (s : Bytes) → Reads (parse_separated s)
unfolding parse_separated
parse_separated-Reads s = >>=-Reads (num s 0 2) _ λ hour.
    >>=-Reads (num s 3 2) _
      λ minute. >>=-Reads (num s 6 2) _ λ second. in_range-Reads _ minute second

parse_usa-Reads : (s : Bytes) → Reads (parse_usa s)
unfolding parse_usa
parse_usa-Reads s = either (ltb (length s) 7)
  where
    either :
        (t : Bool)
        → Reads (do
          fail_if t invalid_time
          hour ← num s 0 2
          minute ← num s 3 2
          fail_if (ltb 12 hour) hour_out_of_range
          marked ← marked_hour hour (marker_of s)
          in_range marked minute 0)
    either true = tt
    either false =
        >>=-Reads (num s 0 2) _
          λ hour. >>=-Reads (num s 3 2) _ λ minute. late hour minute (ltb 12 hour)
      where
        late :
            (hour minute : ℕ) (t : Bool)
            → Reads (do
              fail_if t hour_out_of_range
              marked ← marked_hour hour (marker_of s)
              in_range marked minute 0)
        late hour minute true = tt
        late hour minute false =
            >>=-Reads (marked_hour hour (marker_of s)) _ λ marked. in_range-Reads marked minute 0

-- Whatever the text and the format, a time that is read is a reading of a clock.
pub parse_time_fields-IsClock :
    (s : Bytes) (cfg : Settings) {t : Clock} → parse_time_fields s cfg ≡ ok t → IsClock t
unfolding parse_time_fields
parse_time_fields-IsClock s cfg {t} e = subst Reads e (either (time_style cfg))
  where
    either : (style : TimeStyle) → Reads (parse_style style s)
    either usa = parse_usa-Reads s
    either iso = parse_separated-Reads s
    either eur = parse_separated-Reads s
    either jis = parse_separated-Reads s
    either hms = parse_separated-Reads s
