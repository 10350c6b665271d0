-- ===== src/Tests/GeneratedKeysTests.antt =====
-- INSERT statements behind comments.
use i.Prelude.{◌≡◌, refl, List, [], ◌∷◌, ◌++◌, true, none}
use i.Errors.{ok}
use i.Text.{codes, has_prefix, to_upper, trim_left, trim_right}
use i.GeneratedKeys.{
  is_insert_statement, skip_leading_sql_noise, skip_noise, noise_round, after_newline, after_end,
  trim_semicolon, wrap_insert_for_generated_keys,
}
use i.GeneratedKeys.Noise.{is_insert_statement-print}
use i.GeneratedKeys.Comments.{Noise, blank, line, block, print_all}

abbrev noise : List Noise
noise = blank b' ' ∷ line (codes "keys") ∷ block (codes "a * b") ∷ []

keys_has_no_newline : after_newline (codes "keys") ≡ none
unfolding after_newline
keys_has_no_newline = refl

product_has_no_end : after_end (codes "a * b") ≡ none
unfolding after_end has_prefix
product_has_no_end = refl

is_insert_statement-print_example :
    is_insert_statement (print_all noise ++ codes "insert into t values (1)")
    ≡ is_insert_statement (codes "insert into t values (1)")
is_insert_statement-print_example =
    is_insert_statement-print noise (codes "insert into t values (1)")
      (refl, (keys_has_no_newline, (product_has_no_end, tt)))

lower_case : is_insert_statement (codes "insert into t values (1)") ≡ true
unfolding is_insert_statement skip_leading_sql_noise skip_noise noise_round trim_left has_prefix
    to_upper
lower_case = refl

wrapped :
    wrap_insert_for_generated_keys (codes " INSERT INTO t VALUES (1); ")
    ≡ ok (codes "SELECT *SQLGENCOLUMNS FROM NEW TABLE(\nINSERT INTO t VALUES (1)\n)")
unfolding wrap_insert_for_generated_keys is_insert_statement skip_leading_sql_noise skip_noise
    noise_round trim_left has_prefix to_upper trim_right trim_semicolon
wrapped = refl
