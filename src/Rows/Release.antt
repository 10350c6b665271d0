-- ===== src/Rows/Release.antt =====
-- What Close leaves, and what a NextResultSet that fails leaves.
use i.Prelude.{
  ℕ, zero, suc, ◌≡◌, refl, subst, Bool, true, false, not, ◌&&◌, ℤ, pos, negsuc, Option, some,
  if◌then◌else◌,
}
use i.Errors.{Error, Result, ok, err, eof, bad_conn, absolute_row_must_be_positive, Ran}
use i.Rows.{
  Connection, QueryRows, ResultSetMeta, Done, close, close_open, row, has_next_result_set, is_last,
}
use i.Rows.Reading.{next_row}
use i.Rows.Scrolling.{scroll, absolute}
use i.Rows.Sets.{next_result_set, leave_set, abandon, opened_set, enter_set}

module _ {S Column Format Value Warning : Type 0}
    (conn : Connection S Column Format Value Warning) where
  -- What Absolute answers on closed rows: only a positive row is looked for.
  abbrev pub refusal : ℤ → Error
  refusal (pos zero) = absolute_row_must_be_positive
  refusal (pos (suc n)) = eof
  refusal (negsuc n) = absolute_row_must_be_positive

  -- Rows on which Next, every scrolling move and NextResultSet fail, Close does nothing, and nothing touches
  -- the rows or the connection.
  abbrev pub IsInert : QueryRows Column Format → Type 0
  IsInert r =
      (w : S)
      → ((fuel width : ℕ) → next_row conn fuel width r w ≡ some (err eof, (r, w)))
        × (((option : ℕ) (relative : ℤ) → scroll conn option relative r w ≡ (err eof, (r, w)))
            × (((rows : ℤ) → absolute conn rows r w ≡ (err (refusal rows), (r, w)))
                × ((next_result_set conn r w ≡ (err eof, (r, w)))
                    × ((close conn r w ≡ (ok tt, (r, w)))
                        × ((row r ≡ pos 0) × (has_next_result_set r ≡ false))))))

  closed-absolute :
      (rows : ℤ) (r : QueryRows Column Format) (w : S)
      → r.closed ≡ true
      → absolute conn rows r w ≡ (err (refusal rows), (r, w))
  unfolding absolute scroll
  closed-absolute (pos zero) r w h = refl
  closed-absolute (pos (suc n)) r w h = rw (h) refl
  closed-absolute (negsuc n) r w h = refl

  closed-IsInert : (r : QueryRows Column Format) → r.closed ≡ true → IsInert r
  unfolding next_row scroll next_result_set close row has_next_result_set
  closed-IsInert r h w = (
    (λ fuel width. rw (h) refl),
    (
      (λ option relative. rw (h) refl),
      (
        (λ rows. closed-absolute rows r w h),
        (rw (h) refl, (rw (h) refl, (rw (h) refl, rw (h) refl))),
      ),
    ),
  )

  -- Whatever happened before, after Close the rows are closed: Next, NextResultSet and the moves that scroll
  -- answer end of file, and so does Absolute of a positive row; of any other row it answers that the row must
  -- be positive. Row is 0, no result set follows, another Close does nothing, and none of them touches the
  -- rows or the connection again.
  pub close-IsInert : (r : QueryRows Column Format) (w : S) → IsInert (close conn r w).1.0
  unfolding close
  close-IsInert r w = either r.closed refl
    where
      either :
          (t : Bool)
          → r.closed ≡ t
          → IsInert
              (if◌then◌else◌ {A = Result (Unit {0}) × (QueryRows Column Format × S)} t
                (ok tt, (r, w))
                (close_open conn r w)).1.0
      either true h = closed-IsInert r h
      either false h = closed-IsInert (close_open conn r w).1.0 refl

  -- An answer that is an error leaves rows that are inert, with the callback as it was.
  abbrev Strands : Bool → Done S Column Format (Unit {0}) → Type 0
  Strands pending (ok done, (r, w)) = Unit {0}
  Strands pending (err e, (r, w)) = IsInert r × (r.has_release ≡ pending)

  abandon-Strands :
      (e : Error) (r : QueryRows Column Format) (w : S) → Strands r.has_release (abandon conn e r w)
  abandon-Strands e r w = (closed-IsInert (record r { closed = true }) refl, refl)

  opened_set-Strands :
      (r : QueryRows Column Format)
      (run : Ran S (Option (ResultSetMeta Column Format) × Option Warning))
      → Strands r.has_release (opened_set conn r run)
  opened_set-Strands r (err e, w) = abandon-Strands e r w
  opened_set-Strands r (ok (meta, warning), w) = tt

  enter_set-Strands :
      (r : QueryRows Column Format) (run : Ran S (Unit {0}))
      → Strands r.has_release (enter_set conn r run)
  enter_set-Strands r (err e, w) = abandon-Strands e r w
  enter_set-Strands r (ok left, w) = opened_set-Strands r _

  -- On rows that are open and have a further result set, a NextResultSet that fails, in whatever step, strands
  -- the callback that gives the statement back: it is pending as before, but the rows are inert from then on,
  -- so that no later call, Close included, reaches it or the connection.
  pub next_result_set-strands :
      (r : QueryRows Column Format) (w : S) {e : Error} {r' : QueryRows Column Format} {w' : S}
      → has_next_result_set r ≡ true
      → next_result_set conn r w ≡ (err e, (r', w'))
      → IsInert r' × (r'.has_release ≡ r.has_release)
  unfolding next_result_set has_next_result_set
  next_result_set-strands r w follows fails =
      subst (Strands r.has_release) fails
        (either r.closed (is_last r.result_set_count r.result_set_index) r.connected follows _)
    where
      either :
          (closed last connected : Bool)
          → (not closed && not last) ≡ true
          → (ends : Done S Column Format (Unit {0}))
          → Strands r.has_release (
              if closed
              then (err eof, (r, w))
              else if not (not closed && not last)
              then ends
              else if not connected
              then abandon conn bad_conn r w
              else enter_set conn r (leave_set conn r w))
      either true last connected h ends = cc
      either false true connected h ends = cc
      either false false false h ends = abandon-Strands bad_conn r w
      either false false true h ends = enter_set-Strands r (leave_set conn r w)
