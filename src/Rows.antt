-- ===== src/Rows.antt =====
-- queryRows of sql.go: the rows of an open cursor. Its operations work on the record and on the
-- connection behind it, an interface here, whose state is S. `nil` receivers are not modelled.
pub mod Reading
pub mod Scrolling
pub mod Sets
pub mod Rounds
pub mod Release
pub mod Delivery
pub mod Drained
pub mod Feeding
pub mod Complete
use i.Prelude.{
  ℕ, zero, suc, ◌+◌, Bytes, List, [], ◌∷◌, Bool, true, false, not, ◌&&◌, ◌||◌, ℤ, pos, negsuc,
  Option, none, some, if◌then◌else◌, ltb,
}
use i.Errors.{Result, ok, err, Ran}
use i.Text.{is_empty, trim_space}
use i.Blocks.{FetchBlock}

-- resultSetMeta: the columns, the length of a row, and the rest of it, which says how dates are written.
pub record ResultSetMeta (Column Format : Type 0) : Type 0 where
  pub columns : List Column
  pub row_size : ℕ
  pub format : Format

-- What the rows call on their connection. `decode` reads the value of a column in a row; `decoded` as
-- a result of CALL is its second argument. `run_release` is the callback `releaseStmt`.
pub record Connection (S Column Format Value Warning : Type 0) : Type 0 where
  pub fetch_rows : ℕ → Bytes → ℕ → (option : ℕ) → (relative : ℤ) → S → Ran S FetchBlock
  pub decode : ResultSetMeta Column Format → Bool → Column → Bytes → S → Ran S Value
  pub close_cursor : Bytes → (reuse : ℕ) → S → Ran S (Unit {0})
  pub close_result_set_cursor_no_reply : ℕ → Bytes → (reuse : ℕ) → S → Ran S (Unit {0})
  pub close_prepared_statement : Bytes → ℕ → S → Ran S (Unit {0})
  pub open_and_describe :
      ℕ → Bytes → Bytes → S → Ran S (Option (ResultSetMeta Column Format) × Option Warning)
  pub record_warning : Option Warning → S → S
  pub release_default_cursor : ℕ → S → S
  pub run_release : S → S
  pub column_length : Column → ℕ
  pub zero_format : Format

pub record QueryRows (Column Format : Type 0) : Type 0 where
  pub connected : Bool
  pub meta : Option (ResultSetMeta Column Format)
  pub statement_handle : ℕ
  pub statement_name : Bytes
  pub cursor_name : Bytes
  pub default_cursor : Bool
  pub fetch_buffer_size : ℕ
  pub result_set_count : ℤ
  pub result_set_index : ℕ
  pub block : Option FetchBlock
  pub row_index : ℕ
  pub current_row : ℤ
  pub current_result_set_done : Bool
  pub stored_proc_result : Bool
  pub scrollable : Bool
  pub own_statement : Bool
  pub has_release : Bool
  pub closed : Bool
  pub server_closed : Bool
  pub end_of_data : Bool

-- The answer of an operation on the rows, the rows and the connection behind it.
abbrev pub Done : (S Column Format A : Type 0) → Type 0
Done S Column Format A = Result A × (QueryRows Column Format × S)

-- `resultSetCount <= 0 || resultSetIndex >= resultSetCount`: this is the last result set.
abbrev pub is_last : ℤ → ℕ → Bool
is_last (negsuc n) index = true
is_last (pos n) index = not (ltb index n)

module _ {S Column Format Value Warning : Type 0}
    (conn : Connection S Column Format Value Warning) where
  -- The switch over how the cursor ended.
  unfoldable pub end_cursor : QueryRows Column Format → S → Ran S (Unit {0})
  end_cursor r w =
      if r.server_closed
      then (ok tt, w)
      else if r.end_of_data && not (is_empty (trim_space r.cursor_name))
      then conn.close_result_set_cursor_no_reply r.statement_handle r.cursor_name 0xF1 w
      else conn.close_cursor r.cursor_name 0xF1 w

  -- The rows' own statement, whose error is ignored.
  abbrev pub end_statement : QueryRows Column Format → S → S
  end_statement r w =
      if r.own_statement && not (is_empty (trim_space r.statement_name))
      then (conn.close_prepared_statement r.statement_name r.statement_handle w).1
      else w

  abbrev pub end_release : QueryRows Column Format → S → S
  end_release r w = if r.has_release then conn.run_release w else w

  -- Deferred.
  abbrev pub end_default_cursor : QueryRows Column Format → S → S
  end_default_cursor r w =
      if r.default_cursor then conn.release_default_cursor r.statement_handle w else w

  -- What Close does to the connection.
  unfoldable pub let_go : QueryRows Column Format → S → Ran S (Unit {0})
  let_go r w =
      if r.connected
      then (let run = end_cursor r w in
          (run.0, end_default_cursor r (end_release r (end_statement r run.1))))
      else (ok tt, end_release r w)

  abbrev pub close_open : QueryRows Column Format → S → Done S Column Format (Unit {0})
  close_open r w =
      let run = let_go r w in (run.0, (record r { closed = true; has_release = false }, run.1))

  unfoldable pub close : QueryRows Column Format → S → Done S Column Format (Unit {0})
  close r w = if r.closed then (ok tt, (r, w)) else close_open r w

  -- `_ = r.Close()`.
  abbrev pub closed_after : QueryRows Column Format → S → QueryRows Column Format × S
  closed_after r w = (close r w).1

unfoldable pub row : {Column Format : Type 0} → QueryRows Column Format → ℤ
row r = if r.closed then pos 0 else r.current_row

unfoldable pub has_next_result_set : {Column Format : Type 0} → QueryRows Column Format → Bool
has_next_result_set r = not r.closed && not (is_last r.result_set_count r.result_set_index)
