-- ===== src/Rows/Complete.antt =====
-- Reading to the end: every row of every block that is sent, in order, and then end of file.
use i.Prelude.{
  ℕ, suc, ◌≡◌, sym, ap, ◌∙◌, Bytes, List, [], Bool, true, false, not, ◌&&◌, ◌||◌, ◌==◌, pos, none,
  some, length, subst,
}
use i.Errors.{err, eof}
use i.Blocks.{FetchBlock}
use i.Rows.{Connection, QueryRows, ResultSetMeta}
use i.Rows.Reading.{Values, State, next_row}
use i.Rows.Delivery.{drain, rows_of, count_rows, Decodes, ends, Feed, nothing, last, more, IsLive}
use i.Rows.Drained.{Key, fetch_at, still_open}
use i.Rows.Feeding.{
  IsOpen, sent, Reads, both_false, either_stops, ended-Reads, nothing-Reads, fetched-Reads,
}

module _ {S Column Format Value Warning : Type 0} (conn : Connection S Column Format Value Warning)
    (meta : ResultSetMeta Column Format) (value : FetchBlock → ℕ → Values Value)
    (some_columns : (length meta.columns == 0) ≡ false) where
  -- What the reply to a fetch makes of the key.
  abbrev after_reply :
      FetchBlock → Key conn meta value some_columns → Key conn meta value some_columns
  after_reply b (handle, cursor, size, scrollable, stored_proc, server_closed, end_of_data) = (
    handle,
    cursor,
    size,
    scrollable,
    stored_proc,
    server_closed || (b.cursor_closed && not scrollable),
    end_of_data || b.end_of_data,
  )

  abbrev fresh : ℕ → Bytes → ℕ → Bool → Bool → Key conn meta value some_columns
  fresh handle cursor size scrollable stored_proc =
      (handle, cursor, size, scrollable, stored_proc, false, false)

  fresh_stays :
      (handle : ℕ) (cursor : Bytes) (size : ℕ) (scrollable stored_proc : Bool) (b : FetchBlock)
      → ends conn meta value scrollable b ≡ false
      → after_reply b (fresh handle cursor size scrollable stored_proc)
        ≡ fresh handle cursor size scrollable stored_proc
  fresh_stays handle cursor size scrollable stored_proc b h =
      let (x, y) = both_false (b.cursor_closed && not scrollable) b.end_of_data h in
      let with_flags : Bool → Bool → Key conn meta value some_columns =
        λ x y. (handle, cursor, size, scrollable, stored_proc, x, y) in
      ap (λ x. with_flags x b.end_of_data) x ∙ ap (λ y. with_flags false y) y

  abbrev open_of : Key conn meta value some_columns → Bool
  open_of k = still_open conn meta value some_columns k

  abbrev proc_of : Key conn meta value some_columns → Bool
  proc_of (handle, cursor, size, scrollable, stored_proc, server_closed, end_of_data) = stored_proc

  opens :
      {handle : ℕ} {cursor : Bytes} {size : ℕ} {scrollable stored_proc : Bool}
      (r : QueryRows Column Format)
      → sent conn meta value some_columns r ≡ fresh handle cursor size scrollable stored_proc
      → open_of (sent conn meta value some_columns r) ≡ true
  opens r k = ap open_of k

  fetches :
      {handle : ℕ} {cursor : Bytes} {size : ℕ} {scrollable stored_proc : Bool}
      (r : QueryRows Column Format) (w : S)
      → sent conn meta value some_columns r ≡ fresh handle cursor size scrollable stored_proc
      → fetch_at conn meta value some_columns (sent conn meta value some_columns r) w
        ≡ conn.fetch_rows handle cursor size 0 (pos 0) w
  fetches r w k = ap (λ k. fetch_at conn meta value some_columns k w) k

  reads :
      {handle : ℕ} {cursor : Bytes} {size : ℕ} {scrollable stored_proc : Bool}
      (r : QueryRows Column Format) (b : FetchBlock)
      → sent conn meta value some_columns r ≡ fresh handle cursor size scrollable stored_proc
      → Decodes conn meta value stored_proc b
      → Decodes conn meta value r.stored_proc_result b
  reads r b k decodes = subst (λ k. Decodes conn meta value (proc_of k) b) (sym k) decodes

  feed-Reads :
      (handle : ℕ) (cursor : Bytes) (size : ℕ) (scrollable stored_proc : Bool)
      (r : QueryRows Column Format) (w : S) (bs : List FetchBlock)
      → IsOpen conn meta value some_columns r
      → r.block ≡ none
      → sent conn meta value some_columns r ≡ fresh handle cursor size scrollable stored_proc
      → Feed conn meta value handle cursor size scrollable stored_proc w bs
      → Reads conn meta value some_columns
          (suc (count_rows conn meta value bs))
          (r, w)
          (rows_of conn meta value bs)
  feed-Reads handle cursor size scrollable stored_proc r _ _ live empty k
        (nothing {w} {w'} {b} fetched void) =
      nothing-Reads conn meta value some_columns 0 r w w' b live empty (opens r k)
        (fetches r w k ∙ fetched) void
  feed-Reads handle cursor size scrollable stored_proc r _ _ live empty k
        (last {w} {w'} {b} fetched filled decodes over) =
      fetched-Reads conn meta value some_columns 0 r w w' b [] live empty (opens r k)
        (fetches r w k ∙ fetched) filled (reads r b k decodes)
        (λ r' live' empty' same. ended-Reads conn meta value some_columns 0 r' w' live' empty' (
          ap open_of (same ∙ ap (after_reply b) k)
          ∙ either_stops (b.cursor_closed && not scrollable) b.end_of_data over))
  feed-Reads handle cursor size scrollable stored_proc r _ _ live empty k
        (more {w} {w'} {b} {bs} fetched filled decodes stays feed) =
      fetched-Reads conn meta value some_columns (count_rows conn meta value bs) r w w' b
        (rows_of conn meta value bs) live empty (opens r k) (fetches r w k ∙ fetched) filled
        (reads r b k decodes)
        (λ r' live' empty' same.
          feed-Reads handle cursor size scrollable stored_proc r' w' bs live' empty'
            (same
              ∙ ap (after_reply b) k
              ∙ fresh_stays handle cursor size scrollable stored_proc b stays)
            feed)

  -- The rows of a result set with columns are open, unread and on their connection, and the server
  -- answers their fetches with a feed of blocks, of which each decodes to its values and leaves the
  -- connection as it is. Then calling Next until it fails takes one call more than there are rows,
  -- delivers all rows of all blocks in order, ends with end of file, and from then on Next answers
  -- end of file.
  pub drain-Feed :
      (r : QueryRows Column Format) (w : S) (bs : List FetchBlock)
      → IsLive conn meta value r
      → r.block ≡ none
      → r.server_closed ≡ false
      → r.end_of_data ≡ false
      → Feed conn meta value r.statement_handle r.cursor_name r.fetch_buffer_size r.scrollable
          r.stored_proc_result w bs
      → (s : State conn) × ((drain conn
              (suc (count_rows conn meta value bs))
              (length meta.columns)
              (r, w)
            ≡ some (rows_of conn meta value bs, (eof, s)))
          × (next_row conn 2 (length meta.columns) s.0 s.1 ≡ some (err eof, s)))
  drain-Feed r w bs live empty a b feed =
      let flags : Bool → Bool → Key conn meta value some_columns = λ a b. (
        r.statement_handle, r.cursor_name, r.fetch_buffer_size, r.scrollable, r.stored_proc_result,
        a, b,
      ) in
      feed-Reads r.statement_handle r.cursor_name r.fetch_buffer_size r.scrollable
        r.stored_proc_result r w bs live empty
        (ap (λ a. flags a r.end_of_data) a ∙ ap (λ b. flags false b) b) feed
