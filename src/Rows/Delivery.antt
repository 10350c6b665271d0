-- ===== src/Rows/Delivery.antt =====
-- What a client reads that calls Next until it fails: the rows of the blocks that the server sends.
use i.Prelude.{
  ℕ, zero, suc, ◌+◌, ◌<◌, ◌≡◌, refl, ap, ◌∙◌, Bytes, List, [], ◌∷◌, ◌++◌, Bool, true, false, not,
  ◌&&◌, ◌||◌, ◌==◌, pos, Option, none, some, length, arith, lt→ltb,
}
use i.Errors.{Error, ok, err}
use i.Blocks.{FetchBlock, decode_row}
use i.Rows.{Connection, QueryRows, ResultSetMeta}
use i.Rows.Reading.{Values, Delivered, State, advance, round_on, next_round, next_loop, next_row}
use i.Wire.Walk.{next, done}

module _ {S Column Format Value Warning : Type 0}
    (conn : Connection S Column Format Value Warning) where
  -- What was read, the error that ended it, and what is left behind.
  abbrev pub Drained : Type 0
  Drained = List (Values Value) × (Error × State conn)

  abbrev pub prepend : List (Values Value) → Option Drained → Option Drained
  prepend rows none = none
  prepend rows (some (later, stop)) = some (rows ++ later, stop)

  -- `for rows.Next(dest) == nil`, of at most `calls` calls.
  unfoldable pub drain : (calls width : ℕ) → State conn → Option Drained
  drain zero width s = none
  drain (suc calls) width (r, w) = elim (next_row conn 2 width r w) [
    | none ↦ none
    | some (err e, s) ↦ some ([], (e, s))
    | some (ok values, s) ↦ prepend (values ∷ []) (drain calls width s)
  ]

  module _ (meta : ResultSetMeta Column Format) (value : FetchBlock → ℕ → Values Value) where
    -- The rows of a block from one on.
    abbrev pub rows_from : FetchBlock → (first count : ℕ) → List (Values Value)
    rows_from b first zero = []
    rows_from b first (suc count) = value b first ∷ rows_from b (first + 1) count

    abbrev pub rows_of : List FetchBlock → List (Values Value)
    rows_of [] = []
    rows_of (b ∷ bs) = rows_from b 0 b.row_count ++ rows_of bs

    abbrev pub count_rows : List FetchBlock → ℕ
    count_rows [] = 0
    count_rows (b ∷ bs) = b.row_count + count_rows bs

    -- Every row of the block is decoded, and the connection stays as it is.
    abbrev pub Decodes : Bool → FetchBlock → Type 0
    Decodes stored_proc b =
        (row : ℕ) (w : S)
        → row < b.row_count
        → decode_row (conn.decode meta stored_proc) meta.columns b row w ≡ (ok (value b row), w)

    -- Whether the reply says that no block follows.
    abbrev pub ends : (scrollable : Bool) → FetchBlock → Bool
    ends scrollable b = (b.cursor_closed && not scrollable) || b.end_of_data

    -- The blocks that the server sends for one fetch after the other.
    pub data Feed (handle : ℕ) (cursor : Bytes) (size : ℕ) (scrollable stored_proc : Bool)
        : S → List FetchBlock → Type 0 where
      nothing :
          {w w' : S} {b : FetchBlock}
          → conn.fetch_rows handle cursor size 0 (pos 0) w ≡ (ok b, w')
          → b.row_count ≡ 0
          → Feed handle cursor size scrollable stored_proc w []
      last :
          {w w' : S} {b : FetchBlock}
          → conn.fetch_rows handle cursor size 0 (pos 0) w ≡ (ok b, w')
          → 0 < b.row_count
          → Decodes stored_proc b
          → ends scrollable b ≡ true
          → Feed handle cursor size scrollable stored_proc w (b ∷ [])
      more :
          {w w' : S} {b : FetchBlock} {bs : List FetchBlock}
          → conn.fetch_rows handle cursor size 0 (pos 0) w ≡ (ok b, w')
          → 0 < b.row_count
          → Decodes stored_proc b
          → ends scrollable b ≡ false
          → Feed handle cursor size scrollable stored_proc w' bs
          → Feed handle cursor size scrollable stored_proc w (b ∷ bs)

    -- Rows of a result set that is being read.
    abbrev pub IsLive : QueryRows Column Format → Type 0
    IsLive r =
        (r.closed ≡ false)
        × (r.meta ≡ some meta)
        × (r.connected ≡ true)
        × (r.current_result_set_done ≡ false)

    pub live-next_row :
        (fuel : ℕ) (r : QueryRows Column Format) (w : S)
        → IsLive r
        → (length meta.columns == 0) ≡ false
        → next_row conn fuel (length meta.columns) r w ≡ next_loop conn fuel meta (r, w)
    unfolding next_row
    live-next_row fuel r w (opened, known, connected, going) some_columns =
        let same : (length meta.columns == length meta.columns) ≡ true = ground arith in
        rw (opened, known, connected, same, going, some_columns) refl

    pub loop_done :
        (fuel : ℕ) (r : QueryRows Column Format) (w : S) {answer : Delivered conn}
        → next_round conn meta r w ≡ done answer
        → next_loop conn (suc fuel) meta (r, w) ≡ some answer
    unfolding next_loop
    loop_done fuel r w e = rw (e, next_loop) refl

    pub loop_next :
        (fuel : ℕ) (r : QueryRows Column Format) (w : S) {s : State conn}
        → next_round conn meta r w ≡ next s
        → next_loop conn (suc fuel) meta (r, w) ≡ next_loop conn fuel meta s
    unfolding next_loop
    loop_next fuel r w e = rw (e, next_loop) refl

    pub row_round :
        (r : QueryRows Column Format) (w : S) (b : FetchBlock)
        → r.row_index < b.row_count
        → Decodes r.stored_proc_result b
        → round_on conn meta r w (some b) ≡ done (ok (value b r.row_index), (advance b r, w))
    row_round r w b inside decodes =
        rw (round_on, lt→ltb r.row_index b.row_count inside, decodes r.row_index w inside) refl

    pub deliver_row :
        (fuel : ℕ) (r : QueryRows Column Format) (w : S) (b : FetchBlock)
        → r.block ≡ some b
        → r.row_index < b.row_count
        → Decodes r.stored_proc_result b
        → next_loop conn (suc fuel) meta (r, w) ≡ some (ok (value b r.row_index), (advance b r, w))
    unfolding next_round
    deliver_row fuel r w b here inside decodes =
        loop_done fuel r w (ap (round_on conn meta r w) here ∙ row_round r w b inside decodes)

    pub drain_row :
        (calls : ℕ) (r : QueryRows Column Format) (w : S) {values : Values Value} {s : State conn}
        → next_row conn 2 (length meta.columns) r w ≡ some (ok values, s)
        → drain (suc calls) (length meta.columns) (r, w)
          ≡ prepend (values ∷ []) (drain calls (length meta.columns) s)
    unfolding drain
    drain_row calls r w e = rw (e, drain) refl

    pub drain_stop :
        (calls : ℕ) (r : QueryRows Column Format) (w : S) {e : Error} {s : State conn}
        → next_row conn 2 (length meta.columns) r w ≡ some (err e, s)
        → drain (suc calls) (length meta.columns) (r, w) ≡ some ([], (e, s))
    unfolding drain
    drain_stop calls r w e = rw (e, drain) refl
