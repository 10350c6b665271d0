-- ===== src/Tests/StatementTests.antt =====
-- A statement with one named parameter on a connection that answers every query with rows.
use i.Prelude.{ℕ, suc, ◌+◌, ◌≡◌, refl, Bytes, List, [], ◌∷◌, Bool, true, false, some, arith, ◌≤◌}
use i.Errors.{ok, named_parameter_missing, named_parameter_missing}
use i.Text.{codes}
use i.Arguments.{order_args, by_name, NamedValue, reorder_named_args}
use i.Request.Statements.{select}
use i.Statement.{Stmt, Connection, query, release, close_waits}
use i.Statement.Balance.{query-active, held}
use i.Statement.Lifecycle.{
  Life, life, Steps, stays, goes, ends_close, ends, close-quiet, close-can-end, close-stuck,
  query-Steps,
}

-- Its state counts the calls that reached it. A Format is a number, and so are values, rows and outcomes.
abbrev conn : Connection ℕ ℕ ℕ ℕ ℕ
conn = record {
  is_valid = λ w. true;
  return_generated_keys = false;
  is_insert_statement = λ q. false;
  exec_insert_with_generated_key = λ q args w. (ok 1, suc w);
  exec_prepared = λ h t f args w. (ok 2, suc w);
  exec_context = λ q w. (ok 3, suc w);
  query_call_rows = λ h n w. (ok 4, suc w);
  query_prepared = λ h n w. (ok 5, suc w);
  query_prepared_with_args = λ h n f args w. (ok 6, suc w);
  close_prepared_statement = λ n h w. (ok tt, suc w);
  is_query_rows = λ rows. true;
  mark_stored_proc = λ rows. rows;
}

abbrev by_id : Bool → ℕ → Stmt ℕ
by_id closed active = record {
  query = codes "SELECT * FROM T WHERE ID = ?";
  statement_name = codes "STMT00000001";
  statement_handle = 1;
  statement_type = select;
  parameter_marker_format = some 1;
  param_names = codes "ID" ∷ [];
  closed = closed;
  active = active;
}

abbrev arg : Bytes → NamedValue ℕ
arg name = record { name = name; ordinal = 1; value = 7 }

abbrev ordered : List (NamedValue ℕ)
ordered = arg [] ∷ []

reorders : reorder_named_args (codes "ID" ∷ []) (arg (codes "ID") ∷ []) ≡ ok ordered
unfolding reorder_named_args order_args by_name
reorders = refl

query-active_example :
    (query conn (by_id false 0) (arg (codes "ID") ∷ []) 0).stmt.active
    ≡ 0 + held (query conn (by_id false 0) (arg (codes "ID") ∷ []) 0).answer
query-active_example = query-active conn (by_id false 0) (arg (codes "ID") ∷ []) ordered 0 reorders

query-Steps_example : Steps ℕ (life ℕ (by_id false 0) 0 0 0 0) (
    life ℕ
      (query conn (by_id false 0) (arg (codes "ID") ∷ []) 0).stmt
      0
      (held (query conn (by_id false 0) (arg (codes "ID") ∷ []) 0).answer + 0)
      0
      0)
query-Steps_example =
    query-Steps ℕ conn (by_id false 0) (arg (codes "ID") ∷ []) ordered 0 0 0 0 0 reorders

waits : close_waits (by_id true 0) ≡ false
unfolding close_waits
waits = refl

abbrev waiting : Life ℕ
waiting = life ℕ (by_id true 0) 0 0 0 1

close-quiet_example : (waiting.running ≡ 0) × ((waiting.open_rows ≡ 0) × (waiting.lost ≡ 0))
close-quiet_example =
    close-quiet ℕ {a = waiting} {b = life ℕ (by_id true 0) 0 0 0 0} (ends_close waits) refl
      (omega arith)

-- Two calls run and rows are open while Close waits.
close-can-end_example :
    (s' : Stmt ℕ) × (Steps ℕ (life ℕ (by_id true 3) 2 1 0 1) (life ℕ s' 0 0 0 0))
close-can-end_example = close-can-end ℕ (by_id true 3) 2 1 0 refl

-- A call is lost, Close waits, and the other call ends.
lost_run : Steps ℕ (life ℕ (by_id true 2) 1 0 1 1) (life ℕ (by_id true 1) 0 0 1 1)
unfolding release
lost_run = goes ends stays

close-stuck_example : 1 ≤ 1
close-stuck_example = close-stuck ℕ refl (omega arith) lost_run
