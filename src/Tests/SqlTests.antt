-- ===== src/Tests/SqlTests.antt =====
-- Queries with names, quotes and comments.
use i.Prelude.{◌≡◌, refl, Bytes, [], ◌∷◌}
use i.Errors.{ok, err, unterminated_sql}
use i.Text.{codes}
use i.Sql.{
  count_sql_placeholders, rewrite_named_params, scan_sql, scan_tokens, scan_round, split_name,
}
use i.Sql.Counted.{rewrite_named_params-count}

abbrev query : Bytes
query = codes "SELECT ':x' FROM t WHERE a = :id AND b::int > ? -- :no"

abbrev rewritten_query : Bytes
rewritten_query = codes "SELECT ':x' FROM t WHERE a = ? AND b::int > ? -- :no"

rewrites : rewrite_named_params query ≡ ok (rewritten_query, codes "id" ∷ [])
unfolding rewrite_named_params scan_sql scan_tokens scan_round split_name
rewrites = refl

rewrite_named_params-count_example :
    (count_sql_placeholders rewritten_query ≡ count_sql_placeholders query)
    × (rewrite_named_params rewritten_query ≡ ok (rewritten_query, []))
rewrite_named_params-count_example =
    rewrite_named_params-count query rewritten_query (codes "id" ∷ []) rewrites

two_placeholders : count_sql_placeholders query ≡ ok 2
unfolding count_sql_placeholders scan_sql scan_tokens scan_round split_name
two_placeholders = refl

open_literal : count_sql_placeholders (codes "SELECT 'a") ≡ err unterminated_sql
unfolding count_sql_placeholders scan_sql scan_tokens scan_round split_name
open_literal = refl
