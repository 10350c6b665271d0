-- ===== src/Rows/Rounds.antt =====
-- The loop of Next ends in its second round at the latest.
use i.Prelude.{
  ℕ, suc, ◌≡◌, refl, Bool, true, false, not, ◌&&◌, ◌==◌, pos, Option, none, some, if◌then◌else◌,
  ltb, length, arith,
}
use i.Errors.{ok, err, eof, column_count_mismatch, Ran}
use i.Blocks.{FetchBlock, decode_row}
use i.Rows.{Connection, QueryRows, ResultSetMeta}
use i.Rows.Reading.{
  Delivered, State, received, take_block, fetch_more, end_set, deliver, round_on, next_round,
  next_loop, next_guarded, next_open, next_row,
}
use i.Wire.Walk.{Turn, next, done}

module _ {S Column Format Value Warning : Type 0}
    (conn : Connection S Column Format Value Warning) where
  abbrev Answers : ResultSetMeta Column Format → State conn → Type 0
  Answers meta (r, w) = (answer : Delivered conn) × (next_round conn meta r w ≡ done answer)

  -- What a round leaves for the next one is answered there.
  abbrev Settles : ResultSetMeta Column Format → Turn (State conn) (Delivered conn) → Type 0
  Settles meta (done answer) = Unit {0}
  Settles meta (next s) = Answers meta s

  block-Answers :
      (meta : ResultSetMeta Column Format) (b : FetchBlock) (r : QueryRows Column Format) (w : S)
      → (b.row_count == 0) ≡ false
      → Answers meta (record r { block = some b; row_index = 0 }, w)
  unfolding next_round
  block-Answers meta b r w h =
      let first : ltb 0 b.row_count ≡ true = ground (arith, h) in
      let r' : QueryRows Column Format = record r { block = some b; row_index = 0 } in
      (
        deliver conn b r' (decode_row (conn.decode meta r.stored_proc_result) meta.columns b 0 w),
        rw (first) refl,
      )

  take_block-Settles :
      (meta : ResultSetMeta Column Format) (r : QueryRows Column Format) (run : Ran S FetchBlock)
      → Settles meta (take_block conn r run)
  take_block-Settles meta r (err e, w) = tt
  take_block-Settles meta r (ok b, w) = either (b.row_count == 0) refl
    where
      either :
          (t : Bool)
          → (b.row_count == 0) ≡ t
          → Settles meta (
              if t
              then done (end_set conn (record (received b r) { block = none; row_index = 0 }) w)
              else next (record (received b r) { block = some b; row_index = 0 }, w))
      either true h = tt
      either false h = block-Answers meta b (received b r) w h

  fetch_more-Settles :
      (meta : ResultSetMeta Column Format) (r : QueryRows Column Format) (w : S)
      → Settles meta (fetch_more conn r w)
  unfolding fetch_more
  fetch_more-Settles meta r w = either (not r.server_closed && not r.end_of_data)
    where
      either :
          (t : Bool)
          → Settles meta (
              if t
              then take_block conn r
                  (conn.fetch_rows r.statement_handle r.cursor_name r.fetch_buffer_size 0 (pos 0) w)
              else done (end_set conn (record r { block = none; row_index = 0 }) w))
      either true =
          take_block-Settles meta r
            (conn.fetch_rows r.statement_handle r.cursor_name r.fetch_buffer_size 0 (pos 0) w)
      either false = tt

  next_round-Settles :
      (meta : ResultSetMeta Column Format) (r : QueryRows Column Format) (w : S)
      → Settles meta (next_round conn meta r w)
  unfolding next_round
  next_round-Settles meta r w = with_block r.block
    where
      late :
          (b : FetchBlock) (t : Bool)
          → Settles meta (if t then done (end_set conn r w) else fetch_more conn r w)
      late b true = tt
      late b false = fetch_more-Settles meta r w

      early :
          (b : FetchBlock) (t : Bool)
          → Settles meta (
              if t
              then done (
                  deliver conn b r (
                    decode_row
                      (conn.decode meta r.stored_proc_result)
                      meta.columns
                      b
                      r.row_index
                      w))
              else if b.row_count == 0
              then done (end_set conn r w)
              else fetch_more conn r w)
      early b true = tt
      early b false = late b (b.row_count == 0)

      with_block : (block : Option FetchBlock) → Settles meta (round_on conn meta r w block)
      with_block none = fetch_more-Settles meta r w
      with_block (some b) = early b (ltb r.row_index b.row_count)

  abbrev Loops : ResultSetMeta Column Format → State conn → Type 0
  Loops meta s =
      (answer : Delivered conn) × ((fuel : ℕ)
        → next_loop conn (suc (suc fuel)) meta s ≡ some answer)

  loop-Settles :
      (meta : ResultSetMeta Column Format) (r : QueryRows Column Format) (w : S)
      (turn : Turn (State conn) (Delivered conn))
      → next_round conn meta r w ≡ turn
      → Settles meta turn
      → Loops meta (r, w)
  unfolding next_loop
  loop-Settles meta r w (done answer) e settled = (answer, λ fuel. rw (e, next_loop) refl)
  loop-Settles meta r w (next (r', w')) e (answer, f) = (answer, λ fuel. rw (e, next_loop, f) refl)

  next_loop-Loops :
      (meta : ResultSetMeta Column Format) (r : QueryRows Column Format) (w : S) → Loops meta (r, w)
  next_loop-Loops meta r w =
      loop-Settles meta r w (next_round conn meta r w) refl (next_round-Settles meta r w)

  abbrev pub Returns : ((fuel : ℕ) → Option (Delivered conn)) → Type 0
  Returns run = (answer : Delivered conn) × ((fuel : ℕ) → run (suc (suc fuel)) ≡ some answer)

  at_once : (answer : Delivered conn) → Returns (λ fuel. some answer)
  at_once answer = (answer, λ fuel. refl)

  guarded-Returns :
      (width : ℕ) (r : QueryRows Column Format) (w : S) (meta : ResultSetMeta Column Format)
      → Returns (λ fuel. next_guarded conn fuel width r w meta)
  guarded-Returns width r w meta =
      either (not (width == length meta.columns)) r.current_result_set_done
        (length meta.columns == 0)
    where
      either :
          (wide ended empty : Bool)
          → Returns (λ fuel.
            if wide
            then some (err (column_count_mismatch width (length meta.columns)), (r, w))
            else if ended
            then some (err eof, (r, w))
            else if empty
            then some (end_set conn r w)
            else next_loop conn fuel meta (r, w))
      either true ended empty =
          at_once (err (column_count_mismatch width (length meta.columns)), (r, w))
      either false true empty = at_once (err eof, (r, w))
      either false false true = at_once (end_set conn r w)
      either false false false = next_loop-Loops meta r w

  open-Returns :
      (width : ℕ) (r : QueryRows Column Format) (w : S)
      (meta : Option (ResultSetMeta Column Format))
      → Returns (λ fuel. next_open conn fuel width r w meta)
  open-Returns width r w none = at_once (err eof, (r, w))
  open-Returns width r w (some meta) = either r.connected
    where
      either :
          (t : Bool)
          → Returns
              (λ fuel. if t then next_guarded conn fuel width r w meta else some (err eof, (r, w)))
      either true = guarded-Returns width r w meta
      either false = at_once (err eof, (r, w))

  -- Next ends: on any rows and any connection, the loop needs two rounds at most, since a block that
  -- was just fetched either ends the result set or holds the row to deliver, and more rounds change
  -- nothing of what Next answers and leaves.
  pub next_row-Returns :
      (width : ℕ) (r : QueryRows Column Format) (w : S)
      → (answer : Delivered conn) × ((fuel : ℕ)
          → next_row conn (suc (suc fuel)) width r w ≡ some answer)
  unfolding next_row
  next_row-Returns width r w = either r.closed
    where
      either :
          (t : Bool)
          → Returns
              (λ fuel. if t then some (err eof, (r, w)) else next_open conn fuel width r w r.meta)
      either true = at_once (err eof, (r, w))
      either false = open-Returns width r w r.meta
