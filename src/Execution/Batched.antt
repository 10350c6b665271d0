-- ===== src/Execution/Batched.antt =====
-- execBlock and the batch operations above it (batch.go).
use i.Prelude.{
  ℕ, suc, ◌+◌, Bytes, List, [], ◌∷◌, Bool, true, false, Option, none, some, length, if◌then◌else◌,
}
use i.Errors.{
  Error, Result, ok, err, Ran, and_then, cannot_execute_query, statement_returned_result_sets,
  batch_row, batch_column, out_not_supported,
}
use i.Text.{codes}
use i.Request.Statements.{StatementType}
use i.Sqlca.{SqlcaInfo}
use i.Replies as Replies
use i.Replies.{Conn}
use i.Parameters.{ParameterMarkerFormat}
use i.Batches.{Row, exec_blocks, build_block_execute_request}
use i.Batches.Blockable.{batch_blockable}
use i.Execution.{
  Session, Calls, is_more_than_none, not_negative, is_select, on_conn, not_failed, warned,
  parse_sqlca, as_it_is, change_descriptor, then_deleted, with_descriptor, exec_prepared,
}

-- What batchNamedRows makes of the values: `is_out` tells an sql.Out, and `check` stands for
-- CheckNamedValue at a column.
module _ {Value Arg : Type 0} (is_out : Value → Bool) (check : ℕ → Value → Result Arg) where
  abbrev pub column_error : ℕ → ℕ → Result Arg → Result Arg
  column_error r column (err e) = err (batch_column r column e)
  column_error r column (ok a) = ok a

  unfoldable pub batch_named_row : (r column : ℕ) → List Value → Result (List Arg)
  batch_named_row r column [] = ok []
  batch_named_row r column (v ∷ vs) =
      if is_out v
      then err (out_not_supported r)
      else prepend (column_error r column (check column v)) (batch_named_row r (suc column) vs)
    where
      prepend : Result Arg → Result (List Arg) → Result (List Arg)
      prepend (err e) rest = err e
      prepend (ok a) (err e) = err e
      prepend (ok a) (ok rest) = ok (a ∷ rest)

  unfoldable pub batch_named_rows : (r : ℕ) → List (List Value) → Result (List (List Arg))
  batch_named_rows r [] = ok []
  batch_named_rows r (row ∷ rows) =
      prepend (batch_named_row r 1 row) (batch_named_rows (suc r) rows)
    where
      prepend : Result (List Arg) → Result (List (List Arg)) → Result (List (List Arg))
      prepend (err e) rest = err e
      prepend (ok a) (err e) = err e
      prepend (ok a) (ok rest) = ok (a ∷ rest)

-- What was counted, and the error that ended the batch.
abbrev pub Counted : Type 0 → Type 0
Counted N = (ℕ × Option Error) × Session N

module _ {N Arg Column Format : Type 0} (calls : Calls N Arg Column Format) where
  abbrev pub block_count : SqlcaInfo → Result ℕ
  block_count info =
      if is_more_than_none info.result_sets_count
      then err statement_returned_result_sets
      else ok (not_negative info.update_count)

  -- execBlock from the request that executes on.
  unfoldable pub execute_block :
      (statement_handle descriptor_handle : ℕ)
      → StatementType
      → Option ParameterMarkerFormat
      → List Row
      → Conn N
      → Ran (Conn N) ℕ
  execute_block statement_handle descriptor_handle statement_type format rows c =
      and_then
        (
          build_block_execute_request calls.net.codec statement_handle descriptor_handle
              statement_type format rows (calls.spec_for_execute statement_handle c),
          c,
        )
        (λ request c.
          and_then
            (Replies.on_network calls.net (calls.net.do_statement_request request statement_handle)
              c)
            (λ reply c.
              and_then
                (Replies.check_reply calls.net statement_handle (codes "block execute") reply.0
                  reply.1 c)
                (λ checked c.
                  and_then (parse_sqlca calls reply.1, c)
                    (λ info c.
                      and_then (not_failed calls statement_handle info (warned calls info c))
                        (λ info c. (block_count info, c))))))

  abbrev pub first_row : List Row → Row
  first_row [] = []
  first_row (row ∷ rows) = row

  -- execBlock: the descriptor has the shape of the first row.
  unfoldable pub exec_block :
      ℕ → StatementType → Option ParameterMarkerFormat → List Row → Session N → Result ℕ × Session N
  exec_block statement_handle statement_type format rows s =
      with_descriptor calls
        (λ descriptor_handle s. then_deleted calls statement_handle descriptor_handle (
          and_then
            (on_conn calls
              (change_descriptor calls (as_it_is calls) statement_handle descriptor_handle format
                (first_row rows))
              s)
            (λ changed s.
              on_conn calls
                (execute_block statement_handle descriptor_handle statement_type format rows) s)))
        s

  -- The rows are all bound before the first block is sent.
  unfoldable pub bind_rows : Option ParameterMarkerFormat → ℕ → List (List Arg) → Result (List Row)
  bind_rows format r [] = ok []
  bind_rows format r (args ∷ rows) =
      prepend (calls.bind format args) (bind_rows format (suc r) rows)
    where
      prepend : Result Row → Result (List Row) → Result (List Row)
      prepend (err e) rest = err (batch_row r e)
      prepend (ok row) (err e) = err e
      prepend (ok row) (ok rest) = ok (row ∷ rest)

  abbrev pub exec_bound_rows :
      ℕ → StatementType → Option ParameterMarkerFormat → Result (List Row) → Session N → Counted N
  exec_bound_rows statement_handle statement_type format (err e) s = ((0, some e), s)
  exec_bound_rows statement_handle statement_type format (ok bound) s =
      exec_blocks (exec_block statement_handle statement_type format) (length bound) 0 bound s

  unfoldable pub exec_batch_blocks :
      ℕ → StatementType → Option ParameterMarkerFormat → List (List Arg) → Session N → Counted N
  exec_batch_blocks statement_handle statement_type format rows s =
      exec_bound_rows statement_handle statement_type format (bind_rows format 0 rows) s

  -- The loop over the rows, `r` the index of the first of them.
  unfoldable pub exec_batch_row_by_row :
      ℕ
      → StatementType
      → Option ParameterMarkerFormat
      → (r total : ℕ) → List (List Arg)
      → Session N
      → Counted N
  exec_batch_row_by_row statement_handle statement_type format r total [] s = ((total, none), s)
  exec_batch_row_by_row statement_handle statement_type format r total (args ∷ rows) s =
      let (answer, s') = exec_prepared calls statement_handle statement_type format args s in
      elim answer [
        | err e ↦ ((total, some (batch_row r e)), s')
        | ok result ↦
            exec_batch_row_by_row statement_handle statement_type format (suc r)
              (total + result.rows_affected) rows s'
      ]

  -- execBatchPrepared behind the named rows.
  abbrev pub exec_named_rows :
      (blocked : Bool)
      → ℕ
      → StatementType
      → Option ParameterMarkerFormat
      → Result (List (List Arg))
      → Session N
      → Counted N
  exec_named_rows blocked statement_handle statement_type format (err e) s = ((0, some e), s)
  exec_named_rows true statement_handle statement_type format (ok rows) s =
      exec_batch_blocks statement_handle statement_type format rows s
  exec_named_rows false statement_handle statement_type format (ok rows) s =
      exec_batch_row_by_row statement_handle statement_type format 0 0 rows s

  unfoldable pub exec_batch_prepared :
      {Value : Type 0}
      → (is_out : Value → Bool) → (check : ℕ → Value → Result Arg) → (use_block_update : Bool)
      → (server_version : ℕ) → Bytes
      → ℕ
      → StatementType
      → Option ParameterMarkerFormat
      → List (List Value)
      → Session N
      → Counted N
  exec_batch_prepared is_out check use_block_update server_version query statement_handle
        statement_type format rows s =
      if is_select calls statement_type
      then ((0, some cannot_execute_query), s)
      else exec_named_rows (batch_blockable use_block_update server_version query format)
          statement_handle statement_type format (batch_named_rows is_out check 0 rows) s
