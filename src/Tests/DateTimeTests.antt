-- ===== src/Tests/DateTimeTests.antt =====
-- Times of day in the HMS and USA formats.
use i.Prelude.{◌≡◌, refl, pos, arith}
use i.Errors.{ok}
use i.Text.{codes}
use i.DateTime.{Clock, Settings, time_style, num, parse_usa, format_time, parse_time_fields}
use i.DateTime.Clocks.{IsClock, shown_by, parse_time_fields-format_time, parse_time_fields-IsClock}

abbrev in_usa : Settings
in_usa = record { time_format = pos 1; time_separator = pos 0 }

abbrev after_midnight : Clock
after_midnight = record { hour = 0; minute = 5; second = 9 }

after_midnight-IsClock : IsClock after_midnight
after_midnight-IsClock = record { hour = omega arith; minute = omega arith; second = omega arith }

printed : format_time after_midnight in_usa ≡ codes "12:05 AM"
unfolding format_time
printed = refl

parsed :
    parse_time_fields (codes "12:05 am") in_usa ≡ ok (shown_by (time_style in_usa) after_midnight)
unfolding parse_time_fields parse_usa num
parsed = refl

parse_time_fields-format_time_example :
    parse_time_fields (format_time after_midnight in_usa) in_usa
    ≡ ok (shown_by (time_style in_usa) after_midnight)
parse_time_fields-format_time_example =
    parse_time_fields-format_time after_midnight in_usa after_midnight-IsClock

parse_time_fields-IsClock_example : IsClock (shown_by (time_style in_usa) after_midnight)
parse_time_fields-IsClock_example = parse_time_fields-IsClock (codes "12:05 am") in_usa parsed
