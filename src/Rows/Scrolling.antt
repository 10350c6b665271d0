-- ===== src/Rows/Scrolling.antt =====
-- scroll of queryRows and the moves that stand on it.
use i.Prelude.{ℕ, zero, suc, not, ◌==◌, ℤ, pos, negsuc, ◌+ℤ◌, some, if◌then◌else◌}
use i.Errors.{ok, err, eof, unsupported_scrollable_cursor, absolute_row_must_be_positive, Ran}
use i.Blocks.{FetchBlock}
use i.Rows.{Connection, QueryRows, Done, closed_after}

-- The constants fetchFirst to fetchDirect.
abbrev pub fetch_first : ℕ
fetch_first = 2

abbrev pub fetch_last : ℕ
fetch_last = 3

abbrev pub fetch_before_first : ℕ
fetch_before_first = 4

abbrev pub fetch_after_last : ℕ
fetch_after_last = 5

abbrev pub fetch_current : ℕ
fetch_current = 6

abbrev pub fetch_relative : ℕ
fetch_relative = 7

abbrev pub fetch_direct : ℕ
fetch_direct = 8

-- The switch that sets currentRow. The last and the current row leave it as it is.
abbrev pub moved : (option : ℕ) → (relative current : ℤ) → ℤ
moved option relative current =
    if option == fetch_before_first
    then pos 0
    else if option == fetch_after_last
    then pos 0
    else if option == fetch_first
    then pos 0
    else if option == fetch_direct
    then relative +ℤ negsuc 0
    else if option == fetch_relative
    then current +ℤ relative
    else current

module _ {S Column Format Value Warning : Type 0}
    (conn : Connection S Column Format Value Warning) where
  abbrev pub Moved : Type 0
  Moved = QueryRows Column Format → S → Done S Column Format (Unit {0})

  abbrev scrolled :
      (option : ℕ) (relative : ℤ)
      → QueryRows Column Format
      → Ran S FetchBlock
      → Done S Column Format (Unit {0})
  scrolled option relative r (err e, w) = (err e, closed_after conn r w)
  scrolled option relative r (ok b, w) =
      let r' = record r {
        block = some b;
        row_index = 0;
        current_row = moved option relative r.current_row;
        current_result_set_done = b.row_count == 0;
      } in
      (ok tt, (r', w))

  unfoldable pub scroll : (option : ℕ) → (relative : ℤ) → Moved
  scroll option relative r w =
      if r.closed
      then (err eof, (r, w))
      else if not r.scrollable
      then (err unsupported_scrollable_cursor, (r, w))
      else scrolled option relative r
          (conn.fetch_rows r.statement_handle r.cursor_name r.fetch_buffer_size option relative w)

  abbrev pub first : Moved
  first r w = scroll fetch_first (pos 0) r w

  abbrev pub last : Moved
  last r w = scroll fetch_last (pos 0) r w

  abbrev pub before_first : Moved
  before_first r w = scroll fetch_before_first (pos 0) r w

  abbrev pub after_last : Moved
  after_last r w = scroll fetch_after_last (pos 0) r w

  abbrev pub current : Moved
  current r w = scroll fetch_current (pos 0) r w

  unfoldable pub absolute : ℤ → Moved
  absolute (pos zero) r w = (err absolute_row_must_be_positive, (r, w))
  absolute (negsuc n) r w = (err absolute_row_must_be_positive, (r, w))
  absolute (pos (suc n)) r w = scroll fetch_direct (pos (suc n)) r w

  abbrev pub relative : ℤ → Moved
  relative rows r w = scroll fetch_relative rows r w
