-- ===== src/Tests/DatesTests.antt =====
-- A date in the YMD format, in a calendar whose times are their year, month and day.
use i.Prelude.{ℕ, ◌+◌, ◌*◌, ◌≡◌, refl, pos, arith}
use i.Errors.{ok}
use i.Text.{codes}
use i.Dates.{Calendar, DateSettings, format_date, parse_date}
use i.Dates.Texts.{parse_date-format_date}

abbrev Day : Type 0
Day = ℕ × (ℕ × ℕ)

abbrev calendar : Calendar Day
calendar = record {
  date = λ y m d. (y, (m, d));
  year = λ t. t.0;
  month = λ t. t.1.0;
  day = λ t. t.1.1;
  year_day = λ t. t.1.0 * 31 + t.1.1;
  epoch = (1970, (1, 1));
}

abbrev in_ymd : DateSettings
in_ymd = record { date_format = pos 3; date_separator = pos 2 }

printed : format_date calendar (1987, (6, 5)) in_ymd ≡ codes "87.06.05"
unfolding format_date
printed = refl

parse_date-format_date_example :
    parse_date calendar (format_date calendar (1987, (6, 5)) in_ymd) in_ymd ≡ ok (1987, (6, 5))
parse_date-format_date_example =
    parse_date-format_date calendar (1987, (6, 5)) in_ymd refl (λ e. cc) (omega arith, omega arith)
      (omega arith) (omega arith)
