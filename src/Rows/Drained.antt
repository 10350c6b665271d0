-- ===== src/Rows/Drained.antt =====
-- The rounds of Next, and reading a block from one of its rows to its last.
use i.Prelude.{
  ℕ, zero, suc, ◌+◌, ◌<◌, ◌≡◌, refl, sym, ap, ◌∙◌, Bytes, List, [], ◌∷◌, ◌++◌, Bool, true, false,
  not, ◌&&◌, ◌==◌, pos, ◌+ℤ◌, Option, none, some, leb, length, arith, append_assoc,
}
use i.Errors.{ok, Ran}
use i.Blocks.{FetchBlock}
use i.Rows.{Connection, QueryRows, ResultSetMeta}
use i.Rows.Reading.{
  Values, advance, received, take_block, fetch_more, end_set, round_on, next_round,
}
use i.Rows.Delivery.{
  Drained, prepend, drain, rows_from, Decodes, IsLive, live-next_row, deliver_row, drain_row,
}
use i.Wire.Walk.{next, done}

-- k calls more than n.
abbrev pub further : ℕ → ℕ → ℕ
further zero n = n
further (suc k) n = suc (further k n)

pub further-sum : (k n : ℕ) → further k n ≡ k + n
further-sum zero n = omega arith
further-sum (suc k) n = omega (arith, further-sum k n)

module _ {S Column Format Value Warning : Type 0} (conn : Connection S Column Format Value Warning)
    (meta : ResultSetMeta Column Format) (value : FetchBlock → ℕ → Values Value)
    (some_columns : (length meta.columns == 0) ≡ false) where
  prepend-prepend :
      (xs ys : List (Values Value)) (rest : Option (Drained conn))
      → prepend conn xs (prepend conn ys rest) ≡ prepend conn (xs ++ ys) rest
  prepend-prepend xs ys none = refl
  prepend-prepend xs ys (some (later, stop)) =
      let whole : List (Values Value) → Option (Drained conn) = λ rows. some (rows, stop) in
      ap whole (sym (append_assoc xs ys later))

  abbrev pub IsReading : QueryRows Column Format → Type 0
  IsReading r = IsLive conn meta value r

  -- What a fetch is sent for, and whether one is still sent.
  abbrev pub Key : Type 0
  Key = ℕ × Bytes × ℕ × Bool × Bool × Bool × Bool

  abbrev pub key : QueryRows Column Format → Key
  key r = (
    r.statement_handle, r.cursor_name, r.fetch_buffer_size, r.scrollable, r.stored_proc_result,
    r.server_closed, r.end_of_data,
  )

  -- The rows are read in `count` calls, and reading goes on without a block.
  abbrev pub Passes : QueryRows Column Format → ℕ → List (Values Value) → Type 0
  Passes r count rows =
      (r' : QueryRows Column Format) × (IsReading r'
        × ((r'.block ≡ none)
            × ((key r' ≡ key r)
                × ((calls : ℕ) (w : S)
                    → drain conn (further count calls) (length meta.columns) (r, w)
                      ≡ prepend conn rows (drain conn calls (length meta.columns) (r', w))))))

  pub drain_delivered :
      (calls : ℕ) (r : QueryRows Column Format) (w : S) (b : FetchBlock)
      → IsReading r
      → r.block ≡ some b
      → r.row_index < b.row_count
      → Decodes conn meta value r.stored_proc_result b
      → drain conn (suc calls) (length meta.columns) (r, w)
        ≡ prepend conn
            (value b r.row_index ∷ [])
            (drain conn calls (length meta.columns) (advance b r, w))
  drain_delivered calls r w b live here inside decodes = drain_row conn meta value calls r w (
      live-next_row conn meta value 2 r w live some_columns
      ∙ deliver_row conn meta value 1 r w b here inside decodes)

  advance_inside :
      (b : FetchBlock) (r : QueryRows Column Format)
      → leb b.row_count (r.row_index + 1) ≡ false
      → advance b r ≡ record r {
        row_index = r.row_index + 1;
        current_row = r.current_row +ℤ pos 1;
        block = r.block;
      }
  advance_inside b r h = rw (h) refl

  advance_over :
      (b : FetchBlock) (r : QueryRows Column Format)
      → leb b.row_count (r.row_index + 1) ≡ true
      → advance b r ≡ record r { row_index = 0; current_row = r.current_row +ℤ pos 1; block = none }
  advance_over b r h = rw (h) refl

  pub block-Passes :
      (count : ℕ) (r : QueryRows Column Format) (b : FetchBlock)
      → IsReading r
      → r.block ≡ some b
      → r.row_index + suc count ≡ b.row_count
      → Decodes conn meta value r.stored_proc_result b
      → Passes r (suc count) (rows_from conn meta value b r.row_index (suc count))
  block-Passes zero r b live here size decodes =
      let r' : QueryRows Column Format = record r {
        row_index = 0;
        current_row = r.current_row +ℤ pos 1;
        block = none;
      } in
      (
        r',
        (
          live,
          (
            refl,
            (
              refl,
              λ calls w.
                  drain_delivered calls r w b live here (omega (arith, size)) decodes
                  ∙ ap
                      (λ s.
                        prepend conn (value b r.row_index ∷ [])
                          (drain conn calls (length meta.columns) (s, w)))
                      (advance_over b r (ground (arith, size))),
            ),
          ),
        ),
      )
  block-Passes (suc count) r b live here size decodes =
      let r' : QueryRows Column Format = record r {
        row_index = r.row_index + 1;
        current_row = r.current_row +ℤ pos 1;
        block = r.block;
      } in
      let first : List (Values Value) = value b r.row_index ∷ [] in
      let (r'', (going, (empty, (same, later)))) =
        block-Passes count r' b live here (omega (arith, size)) decodes in
      (
        r'',
        (
          going,
          (
            empty,
            (
              same,
              λ calls w.
                  drain_delivered (further (suc count) calls) r w b live here (omega (arith, size))
                    decodes
                  ∙ ap
                      (λ s.
                        prepend conn first
                          (drain conn (further (suc count) calls) (length meta.columns) (s, w)))
                      (advance_inside b r (ground (arith, size)))
                  ∙ ap (prepend conn first) (later calls w)
                  ∙ prepend-prepend first
                      (rows_from conn meta value b (r.row_index + 1) (suc count)) _,
            ),
          ),
        ),
      )

  -- The fetch that Next sends.
  abbrev pub fetch_at : Key → S → Ran S FetchBlock
  fetch_at (handle, cursor, size, scrollable, stored_proc, server_closed, end_of_data) w =
      conn.fetch_rows handle cursor size 0 (pos 0) w

  abbrev pub still_open : Key → Bool
  still_open (handle, cursor, size, scrollable, stored_proc, server_closed, end_of_data) =
      not server_closed && not end_of_data

  pub round_fetch :
      (r : QueryRows Column Format) (w : S)
      → r.block ≡ none
      → still_open (key r) ≡ true
      → next_round conn meta r w ≡ take_block conn r (fetch_at (key r) w)
  unfolding next_round fetch_more
  round_fetch r w empty going = ap (round_on conn meta r w) empty ∙ (rw (fetch_more, going) refl)

  pub round_stop :
      (r : QueryRows Column Format) (w : S)
      → r.block ≡ none
      → still_open (key r) ≡ false
      → next_round conn meta r w ≡ done (end_set conn (record r { block = none; row_index = 0 }) w)
  unfolding next_round fetch_more
  round_stop r w empty going = ap (round_on conn meta r w) empty ∙ (rw (fetch_more, going) refl)

  pub take_rows :
      (r : QueryRows Column Format) (w : S) (b : FetchBlock)
      → 0 < b.row_count
      → take_block conn r (ok b, w)
        ≡ next (record (received b r) { block = some b; row_index = 0 }, w)
  take_rows r w b h =
      let filled : (b.row_count == 0) ≡ false = ground (arith, h) in rw (take_block, filled) refl

  pub take_nothing :
      (r : QueryRows Column Format) (w : S) (b : FetchBlock)
      → b.row_count ≡ 0
      → take_block conn r (ok b, w)
        ≡ done (end_set conn (record (received b r) { block = none; row_index = 0 }) w)
  take_nothing r w b h =
      let void : (b.row_count == 0) ≡ true = ground (arith, h) in rw (take_block, void) refl
