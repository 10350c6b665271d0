-- ===== src/Rows/Reading.antt =====
-- Next of queryRows: a loop whose body delivers a row, ends the result set, or fetches the next block.
use i.Prelude.{
  ℕ, zero, suc, ◌+◌, List, true, not, ◌&&◌, ◌||◌, ◌==◌, pos, ◌+ℤ◌, Option, none, some,
  if◌then◌else◌, ltb, leb, length,
}
use i.Errors.{ok, err, eof, column_count_mismatch, Ran}
use i.Blocks.{FetchBlock, decode_row}
use i.Rows.{Connection, QueryRows, ResultSetMeta, Done, is_last, closed_after}
use i.Wire.Walk.{Turn, next, done}

-- The values of a row.
abbrev pub Values : Type 0 → Type 0
Values Value = List (Option Value)

-- Behind the last row of a block there is no block.
abbrev pub advance :
    {Column Format : Type 0} → FetchBlock → QueryRows Column Format → QueryRows Column Format
advance b r =
    let over = leb b.row_count (r.row_index + 1) in
    record r {
      row_index = if over then 0 else r.row_index + 1;
      current_row = r.current_row +ℤ pos 1;
      block = if over then none else r.block;
    }

-- A fetched block, with what its reply said of the cursor.
abbrev pub received :
    {Column Format : Type 0} → FetchBlock → QueryRows Column Format → QueryRows Column Format
received b r = record r {
  server_closed = r.server_closed || (b.cursor_closed && not r.scrollable);
  end_of_data = r.end_of_data || b.end_of_data;
}

module _ {S Column Format Value Warning : Type 0}
    (conn : Connection S Column Format Value Warning) where
  abbrev pub Delivered : Type 0
  Delivered = Done S Column Format (Values Value)

  abbrev pub State : Type 0
  State = QueryRows Column Format × S

  -- The end of a result set: the rows close behind the last one.
  unfoldable pub end_set : QueryRows Column Format → S → Delivered
  end_set r w =
      let r' = record r { current_result_set_done = true } in
      if is_last r.result_set_count r.result_set_index
      then (err eof, closed_after conn r' w)
      else (err eof, (r', w))

  abbrev pub deliver : FetchBlock → QueryRows Column Format → Ran S (Values Value) → Delivered
  deliver b r (err e, w) = (err e, closed_after conn r w)
  deliver b r (ok values, w) = (ok values, (advance b r, w))

  abbrev pub take_block : QueryRows Column Format → Ran S FetchBlock → Turn State Delivered
  take_block r (err e, w) = done (err e, closed_after conn r w)
  take_block r (ok b, w) =
      let r' = received b r in
      if b.row_count == 0
      then done (end_set (record r' { block = none; row_index = 0 }) w)
      else next (record r' { block = some b; row_index = 0 }, w)

  -- From the fetch on.
  unfoldable pub fetch_more : QueryRows Column Format → S → Turn State Delivered
  fetch_more r w =
      if not r.server_closed && not r.end_of_data
      then take_block r
          (conn.fetch_rows r.statement_handle r.cursor_name r.fetch_buffer_size 0 (pos 0) w)
      else done (end_set (record r { block = none; row_index = 0 }) w)

  abbrev pub round_on :
      ResultSetMeta Column Format
      → QueryRows Column Format
      → S
      → Option FetchBlock
      → Turn State Delivered
  round_on meta r w none = fetch_more r w
  round_on meta r w (some b) =
      if ltb r.row_index b.row_count
      then done (
          deliver b r
            (decode_row (conn.decode meta r.stored_proc_result) meta.columns b r.row_index w))
      else if b.row_count == 0
      then done (end_set r w)
      else fetch_more r w

  unfoldable pub next_round :
      ResultSetMeta Column Format → QueryRows Column Format → S → Turn State Delivered
  next_round meta r w = round_on meta r w r.block

  -- The loop, none where `fuel` rounds are not enough.
  unfoldable pub next_loop : (fuel : ℕ) → ResultSetMeta Column Format → State → Option Delivered
  next_loop zero meta s = none
  next_loop (suc fuel) meta (r, w) = elim (next_round meta r w) [
    | done answer ↦ some answer
    | next s ↦ next_loop fuel meta s
  ]

  -- Next with a slice of `width` values to fill, behind the guards on `closed`, `meta` and `conn`.
  abbrev pub next_guarded :
      (fuel width : ℕ)
      → QueryRows Column Format
      → S
      → ResultSetMeta Column Format
      → Option Delivered
  next_guarded fuel width r w meta =
      if not (width == length meta.columns)
      then some (err (column_count_mismatch width (length meta.columns)), (r, w))
      else if r.current_result_set_done
      then some (err eof, (r, w))
      else if length meta.columns == 0
      then some (end_set r w)
      else next_loop fuel meta (r, w)

  abbrev pub next_open :
      (fuel width : ℕ)
      → QueryRows Column Format
      → S
      → Option (ResultSetMeta Column Format)
      → Option Delivered
  next_open fuel width r w none = some (err eof, (r, w))
  next_open fuel width r w (some meta) =
      if r.connected then next_guarded fuel width r w meta else some (err eof, (r, w))

  unfoldable pub next_row : (fuel width : ℕ) → QueryRows Column Format → S → Option Delivered
  next_row fuel width r w =
      if r.closed then some (err eof, (r, w)) else next_open fuel width r w r.meta
