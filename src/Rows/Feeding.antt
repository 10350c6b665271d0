-- ===== src/Rows/Feeding.antt =====
-- The calls of Next that fetch, and the last one.
use i.Prelude.{
  ℕ, suc, ◌+◌, ◌-◌, ◌<◌, ◌≡◌, refl, sym, ap, ◌∙◌, List, [], ◌++◌, Bool, true, false, not, ◌&&◌,
  ◌||◌, ◌==◌, Option, none, some, if◌then◌else◌, length, arith,
}
use i.Errors.{ok, err, eof}
use i.Blocks.{FetchBlock}
use i.Rows.{Connection, QueryRows, ResultSetMeta, close, closed_after, is_last}
use i.Rows.Reading.{Values, Delivered, State, received, take_block, end_set, next_loop, next_row}
use i.Rows.Delivery.{
  prepend, drain, rows_from, Decodes, live-next_row, loop_done, loop_next, deliver_row, drain_row,
  drain_stop,
}
use i.Rows.Drained.{
  further, further-sum, IsReading, Key, key, fetch_at, still_open, drain_delivered, block-Passes,
  round_fetch, round_stop, take_rows, take_nothing,
}

pub both_false : (x y : Bool) → (x || y) ≡ false → (x ≡ false) × (y ≡ false)
both_false false false h = (refl, refl)
both_false false true h = (refl, h)
both_false true y h = ground arith

pub either_stops : (x y : Bool) → (x || y) ≡ true → (not x && not y) ≡ false
either_stops true y h = refl
either_stops false true h = refl
either_stops false false h = ground arith

module _ {S Column Format Value Warning : Type 0} (conn : Connection S Column Format Value Warning)
    (meta : ResultSetMeta Column Format) (value : FetchBlock → ℕ → Values Value)
    (some_columns : (length meta.columns == 0) ≡ false) where
  abbrev pub IsOpen : QueryRows Column Format → Type 0
  IsOpen r = IsReading conn meta value some_columns r

  abbrev pub sent : QueryRows Column Format → Key conn meta value some_columns
  sent r = key conn meta value some_columns r

  -- What Next answers at the end, now and from then on.
  abbrev Stops : Delivered conn → Type 0
  Stops answer =
      (s : State conn) × ((answer ≡ (err eof, s))
        × (next_row conn 2 (length meta.columns) s.0 s.1 ≡ some (err eof, s)))

  closed-Stops :
      (r : QueryRows Column Format) (w : S)
      → r.closed ≡ false
      → (s : State conn) × ((closed_after conn r w ≡ s)
          × (next_row conn 2 (length meta.columns) s.0 s.1 ≡ some (err eof, s)))
  unfolding close next_row
  closed-Stops r w opened = (closed_after conn r w, (refl, rw (after) refl))
    where
      after : (closed_after conn r w).0.closed ≡ true
      after = rw (opened) refl

  end_set-Stops : (r : QueryRows Column Format) (w : S) → IsOpen r → Stops (end_set conn r w)
  unfolding end_set next_row
  end_set-Stops r w (opened, known, connected, going) =
      either (is_last r.result_set_count r.result_set_index)
    where
      r' : QueryRows Column Format
      r' = record r { current_result_set_done = true }

      either :
          (t : Bool) → Stops (if t then (err eof, closed_after conn r' w) else (err eof, (r', w)))
      either true =
          let (s, (e, f)) = closed-Stops r' w opened in
          let answer : State conn → Delivered conn = λ s. (err eof, s) in (s, (ap answer e, f))
      either false =
          let same : (length meta.columns == length meta.columns) ≡ true = ground arith in
          ((r', w), (refl, rw (opened, known, connected, same) refl))

  abbrev width : ℕ
  width = length meta.columns

  -- Reading ends with these rows, and Next answers end of file from then on.
  abbrev pub Reads : ℕ → State conn → List (Values Value) → Type 0
  Reads calls s rows =
      (s' : State conn) × ((drain conn calls width s ≡ some (rows, (eof, s')))
        × (next_row conn 2 width s'.0 s'.1 ≡ some (err eof, s')))

  -- A call of Next whose loop ends with the end of the set.
  stop-Reads :
      (calls : ℕ) (r : QueryRows Column Format) (w : S) {answer : Delivered conn}
      → IsOpen r
      → next_loop conn 2 meta (r, w) ≡ some answer
      → Stops answer
      → Reads (suc calls) (r, w) []
  stop-Reads calls r w {answer} live loop (s, (e, f)) =
      let whole : Delivered conn → Option (Delivered conn) = λ d. some d in
      (
        s,
        (
          drain_stop conn meta value calls r w
              (live-next_row conn meta value 2 r w live some_columns ∙ loop ∙ ap whole e),
          f,
        ),
      )

  -- No fetch is sent any more.
  pub ended-Reads :
      (calls : ℕ) (r : QueryRows Column Format) (w : S)
      → IsOpen r
      → r.block ≡ none
      → still_open conn meta value some_columns (sent r) ≡ false
      → Reads (suc calls) (r, w) []
  ended-Reads calls r w live empty over =
      let r' : QueryRows Column Format = record r { block = none; row_index = 0 } in
      stop-Reads calls r w live
        (loop_done conn meta value 1 r w (round_stop conn meta value some_columns r w empty over))
        (end_set-Stops r' w live)

  -- The fetch brings no rows.
  pub nothing-Reads :
      (calls : ℕ) (r : QueryRows Column Format) (w w' : S) (b : FetchBlock)
      → IsOpen r
      → r.block ≡ none
      → still_open conn meta value some_columns (sent r) ≡ true
      → fetch_at conn meta value some_columns (sent r) w ≡ (ok b, w')
      → b.row_count ≡ 0
      → Reads (suc calls) (r, w) []
  nothing-Reads calls r w w' b live empty going fetched void =
      let r' : QueryRows Column Format = record (received b r) { block = none; row_index = 0 } in
      stop-Reads calls r w live
        (loop_done conn meta value 1 r w (
          round_fetch conn meta value some_columns r w empty going
          ∙ ap (take_block conn r) fetched
          ∙ take_nothing conn meta value some_columns r w' b void))
        (end_set-Stops r' w' live)

  -- The fetch brings rows: the call that fetches delivers the first of them.
  drain_fetched :
      (calls : ℕ) (r : QueryRows Column Format) (w w' : S) (b : FetchBlock)
      → IsOpen r
      → r.block ≡ none
      → still_open conn meta value some_columns (sent r) ≡ true
      → fetch_at conn meta value some_columns (sent r) w ≡ (ok b, w')
      → 0 < b.row_count
      → Decodes conn meta value r.stored_proc_result b
      → drain conn (suc calls) width (r, w)
        ≡ drain conn (suc calls) width (record (received b r) { block = some b; row_index = 0 }, w')
  drain_fetched calls r w w' b live empty going fetched filled decodes =
      let r' : QueryRows Column Format = record (received b r) { block = some b; row_index = 0 } in
      drain_row conn meta value calls r w (
        live-next_row conn meta value 2 r w live some_columns
        ∙ loop_next conn meta value 1 r w (
            round_fetch conn meta value some_columns r w empty going
            ∙ ap (take_block conn r) fetched
            ∙ take_rows conn meta value some_columns r w' b filled)
        ∙ deliver_row conn meta value 0 r' w' b refl filled decodes)
      ∙ sym (drain_delivered conn meta value some_columns calls r' w' b live refl filled decodes)

  -- The rows of a fetched block, and what is read behind them.
  pub fetched-Reads :
      (calls : ℕ) (r : QueryRows Column Format) (w w' : S) (b : FetchBlock)
      (rows : List (Values Value))
      → IsOpen r
      → r.block ≡ none
      → still_open conn meta value some_columns (sent r) ≡ true
      → fetch_at conn meta value some_columns (sent r) w ≡ (ok b, w')
      → 0 < b.row_count
      → Decodes conn meta value r.stored_proc_result b
      → ((r' : QueryRows Column Format)
          → IsOpen r'
          → r'.block ≡ none
          → sent r' ≡ sent (received b r)
          → Reads (suc calls) (r', w') rows)
      → Reads (suc (b.row_count + calls)) (r, w) (rows_from conn meta value b 0 b.row_count ++ rows)
  fetched-Reads calls r w w' b rows live empty going fetched filled decodes behind =
      let count : ℕ = b.row_count - 1 in
      let all : suc count ≡ b.row_count = omega (arith, filled) in
      let r1 : QueryRows Column Format = record (received b r) { block = some b; row_index = 0 } in
      let (r2, (live2, (empty2, (same2, passed)))) =
        block-Passes conn meta value some_columns count r1 b live refl (omega (arith, all))
          decodes in
      let (s, (read, after)) = behind r2 live2 empty2 same2 in
      let calls_of : further (suc count) (suc calls) ≡ suc (b.row_count + calls) =
        further-sum (suc count) (suc calls) ∙ omega (arith, all) in
      (
        s,
        (
          ap (λ n. drain conn n width (r, w)) (sym calls_of)
              ∙ drain_fetched (further count (suc calls)) r w w' b live empty going fetched filled
                  decodes
              ∙ passed (suc calls) w'
              ∙ ap (prepend conn (rows_from conn meta value b 0 (suc count))) read
              ∙ ap (λ n. some (rows_from conn meta value b 0 n ++ rows, (eof, s))) all,
          after,
        ),
      )
