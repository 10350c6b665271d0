-- ===== src/Tests/OptionsTests.antt =====
-- Options with numbers, names and other texts.
use i.Prelude.{All, ◌≡◌, refl}
use i.Errors.{ok, err, option_out_of_range, unknown_option}
use i.Text.{codes, trim_space, trim_left, trim_right, to_lower, to_upper}
use i.Options.{
  atoi, lookup, normalize_option_key, parse_enumerated_option, parse_date_format_option,
  parse_time_format_option, parse_date_separator_option, parse_time_separator_option,
  parse_decimal_separator_option, parse_commitment_control_option, commitment_controls,
  date_formats, time_formats, date_separators, time_separators, decimal_separators,
}
use i.Options.Ranges.{Within, parse_option-Within, parse_enumerated_option-to_upper}

by_a_name : parse_commitment_control_option (codes " Cursor_Stability ") ≡ ok 1
unfolding parse_commitment_control_option parse_enumerated_option trim_space trim_left trim_right
    to_lower atoi lookup normalize_option_key
by_a_name = refl

by_a_number : parse_date_format_option (codes "+7") ≡ ok 7
unfolding parse_date_format_option parse_enumerated_option trim_space trim_left trim_right to_lower
    atoi lookup normalize_option_key
by_a_number = refl

too_large : parse_date_format_option (codes "8") ≡ err option_out_of_range
unfolding parse_date_format_option parse_enumerated_option trim_space trim_left trim_right to_lower
    atoi lookup normalize_option_key
too_large = refl

no_option : parse_time_separator_option (codes "2^31") ≡ err unknown_option
unfolding parse_time_separator_option parse_enumerated_option trim_space trim_left trim_right
    to_lower atoi lookup normalize_option_key
no_option = refl

-- Every name of a table is read as its number.
date_formats_read : All (λ p. parse_date_format_option p.0 ≡ ok p.1) date_formats
unfolding parse_date_format_option parse_enumerated_option trim_space trim_left trim_right to_lower
    atoi lookup normalize_option_key
date_formats_read = (refl, (refl, (refl, (refl, (refl, (refl, (refl, (refl, tt))))))))

time_formats_read : All (λ p. parse_time_format_option p.0 ≡ ok p.1) time_formats
unfolding parse_time_format_option parse_enumerated_option trim_space trim_left trim_right to_lower
    atoi lookup normalize_option_key
time_formats_read = (refl, (refl, (refl, (refl, (refl, tt)))))

date_separators_read : All (λ p. parse_date_separator_option p.0 ≡ ok p.1) date_separators
unfolding parse_date_separator_option parse_enumerated_option trim_space trim_left trim_right
    to_lower atoi lookup normalize_option_key
date_separators_read =
    (refl, (refl, (refl, (refl, (refl, (refl, (refl, (refl, (refl, (refl, tt))))))))))

time_separators_read : All (λ p. parse_time_separator_option p.0 ≡ ok p.1) time_separators
unfolding parse_time_separator_option parse_enumerated_option trim_space trim_left trim_right
    to_lower atoi lookup normalize_option_key
time_separators_read = (refl, (refl, (refl, (refl, (refl, (refl, (refl, (refl, tt))))))))

decimal_separators_read : All (λ p. parse_decimal_separator_option p.0 ≡ ok p.1) decimal_separators
unfolding parse_decimal_separator_option parse_enumerated_option trim_space trim_left trim_right
    to_lower atoi lookup normalize_option_key
decimal_separators_read = (refl, (refl, (refl, (refl, (refl, tt)))))

commitment_controls_read :
    All (λ p. parse_commitment_control_option p.0 ≡ ok p.1) commitment_controls
unfolding parse_commitment_control_option parse_enumerated_option trim_space trim_left trim_right
    to_lower atoi lookup normalize_option_key
commitment_controls_read = (refl, (refl, (refl, (refl, (refl, (refl, (refl, (refl, tt))))))))

parse_option-Within_example :
    Within 7 date_formats (codes "iso") (parse_date_format_option (codes " ISO"))
    × (Within 4 time_formats (codes "iso") (parse_time_format_option (codes " ISO"))
        × (Within 4 date_separators (codes "iso") (parse_date_separator_option (codes " ISO"))
            × (Within 3 time_separators (codes "iso") (parse_time_separator_option (codes " ISO"))
                × (Within 1 decimal_separators
                      (codes "iso")
                      (parse_decimal_separator_option (codes " ISO"))
                    × Within 4 commitment_controls
                        (codes "iso")
                        (parse_commitment_control_option (codes " ISO"))))))
unfolding trim_space trim_left trim_right to_lower
parse_option-Within_example = parse_option-Within (codes " ISO")

parse_enumerated_option-to_upper_example :
    parse_enumerated_option (to_upper (codes "rr")) 0 4 commitment_controls
    ≡ parse_enumerated_option (codes "rr") 0 4 commitment_controls
parse_enumerated_option-to_upper_example =
    parse_enumerated_option-to_upper (codes "rr") 0 4 commitment_controls
