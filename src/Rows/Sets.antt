-- ===== src/Rows/Sets.antt =====
-- NextResultSet of queryRows: the results of a CALL come one after the other on the same rows.
use i.Prelude.{
  ℕ, ◌+◌, List, [], ◌∷◌, true, false, not, ◌&&◌, ◌==◌, Option, none, some, if◌then◌else◌, length,
}
use i.Errors.{Error, ok, err, eof, bad_conn, Ran}
use i.Text.{is_empty, trim_space}
use i.Rows.{Connection, QueryRows, ResultSetMeta, Done, close, has_next_result_set}

module _ {S Column Format Value Warning : Type 0}
    (conn : Connection S Column Format Value Warning) where
  abbrev sum_column_lengths : List Column → ℕ
  sum_column_lengths [] = 0
  sum_column_lengths (c ∷ cs) = conn.column_length c + sum_column_lengths cs

  -- `meta` or an empty one, with the length of a row filled in.
  abbrev pub measured : Option (ResultSetMeta Column Format) → ResultSetMeta Column Format
  measured none = record { columns = []; row_size = 0; format = conn.zero_format }
  measured (some meta) =
      if meta.row_size == 0
      then record meta { row_size = sum_column_lengths meta.columns }
      else meta

  -- No further result set: the rows close.
  abbrev pub set_ended : Done S Column Format (Unit {0}) → Done S Column Format (Unit {0})
  set_ended (err e, s) = (err e, s)
  set_ended (ok done, s) = (err eof, s)

  -- The cursor of the current result set is closed without a reply.
  abbrev pub leave_set : QueryRows Column Format → S → Ran S (Unit {0})
  leave_set r w =
      if not r.server_closed && not (is_empty (trim_space r.cursor_name))
      then conn.close_result_set_cursor_no_reply r.statement_handle r.cursor_name 0xF2 w
      else (ok tt, w)

  -- A failure behind which the rows only count as closed.
  abbrev pub abandon : Error → QueryRows Column Format → S → Done S Column Format (Unit {0})
  abandon e r w = (err e, (record r { closed = true }, w))

  abbrev pub opened_set :
      QueryRows Column Format
      → Ran S (Option (ResultSetMeta Column Format) × Option Warning)
      → Done S Column Format (Unit {0})
  opened_set r (err e, w) = abandon e r w
  opened_set r (ok (meta, warning), w) =
      let meta' = measured meta in
      let r' = record r {
        server_closed = false;
        end_of_data = false;
        meta = some meta';
        block = none;
        row_index = 0;
        current_result_set_done = length meta'.columns == 0;
        result_set_index = r.result_set_index + 1;
      } in
      (ok tt, (r', conn.record_warning warning w))

  abbrev pub enter_set :
      QueryRows Column Format → Ran S (Unit {0}) → Done S Column Format (Unit {0})
  enter_set r (err e, w) = abandon e r w
  enter_set r (ok left, w) =
      opened_set r (conn.open_and_describe r.statement_handle r.statement_name r.cursor_name w)

  unfoldable pub next_result_set : QueryRows Column Format → S → Done S Column Format (Unit {0})
  next_result_set r w =
      if r.closed
      then (err eof, (r, w))
      else if not (has_next_result_set r)
      then set_ended (close conn r w)
      else if not r.connected
      then abandon bad_conn r w
      else enter_set r (leave_set r w)
