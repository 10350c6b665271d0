-- ===== src/Statement.antt =====
-- stmt.go: a prepared statement. The fields that never change describe it; `closed` and `active` are
-- what Close, acquire and release share under the mutex. What a statement needs of its connection is
-- an interface.
pub mod Balance
pub mod Lifecycle
use i.Prelude.{
  ℕ, zero, suc, ◌+◌, ◌-◌, Bytes, List, [], ◌∷◌, Bool, true, false, not, ◌&&◌, ◌||◌, Option, none,
  some, if◌then◌else◌, ltb,
}
use i.Errors.{Result, ok, err, connection_closed, bad_conn, prepared_statement_binding_unsupported}
use i.Text.{is_empty}
use i.Request.Statements.{StatementType, unknown, insert_update_delete, select, call}
use i.Arguments.{NamedValue, reorder_named_args, has_no_elements}

pub record Stmt (Format : Type 0) : Type 0 where
  pub query : Bytes
  pub statement_name : Bytes
  pub statement_handle : ℕ
  pub statement_type : StatementType
  pub parameter_marker_format : Option Format
  pub param_names : List Bytes
  pub closed : Bool
  pub active : ℕ

-- What the statement calls on its connection, whose state is `S`. `is_query_rows` is the type
-- assertion `rows.(*queryRows)`, `mark_stored_proc` the assignment behind it.
pub record Connection (S Format Value Rows Outcome : Type 0) : Type 0 where
  pub is_valid : S → Bool
  pub return_generated_keys : Bool
  pub is_insert_statement : Bytes → Bool
  pub exec_insert_with_generated_key : Bytes → List (NamedValue Value) → S → Result Outcome × S
  pub exec_prepared : ℕ → StatementType → Format → List (NamedValue Value) → S → Result Outcome × S
  pub exec_context : Bytes → S → Result Outcome × S
  pub query_call_rows : ℕ → Bytes → S → Result Rows × S
  pub query_prepared : ℕ → Bytes → S → Result Rows × S
  pub query_prepared_with_args : ℕ → Bytes → Format → List (NamedValue Value) → S → Result Rows × S
  pub close_prepared_statement : Bytes → ℕ → S → Result (Unit {0}) × S
  pub is_query_rows : Rows → Bool
  pub mark_stored_proc : Rows → Rows

abbrev pub with_lock : {Format : Type 0} → Bool → ℕ → Stmt Format → Stmt Format
with_lock closed active s = record {
  query = s.query;
  statement_name = s.statement_name;
  statement_handle = s.statement_handle;
  statement_type = s.statement_type;
  parameter_marker_format = s.parameter_marker_format;
  param_names = s.param_names;
  closed = closed;
  active = active;
}

-- `active++` behind the guard.
unfoldable pub acquire : {Format : Type 0} → Stmt Format → Result (Stmt Format)
acquire s = if s.closed then err connection_closed else ok (with_lock s.closed (s.active + 1) s)

-- `if s.active > 0 { s.active-- }`.
unfoldable pub release : {Format : Type 0} → Stmt Format → Stmt Format
release s = with_lock s.closed (s.active - 1) s

-- Close up to its wait: nothing to do on a closed statement.
unfoldable pub start_close : {Format : Type 0} → Stmt Format → Option (Stmt Format)
start_close s = if s.closed then none else some (with_lock true s.active s)

-- `for s.active > 0 { s.cond.Wait() }`.
unfoldable pub close_waits : {Format : Type 0} → Stmt Format → Bool
close_waits s = ltb 0 s.active

-- The answer of a call, the statement and the connection behind it.
pub record Run (Format S A : Type 0) : Type 0 where
  pub answer : Result A
  pub stmt : Stmt Format
  pub world : S

abbrev pub ran : {Format S A : Type 0} → Result A → Stmt Format → S → Run Format S A
ran answer stmt world = record { answer = answer; stmt = stmt; world = world }

-- What QueryContext hands to its caller: rows, and whether they hold the statement until they close.
pub record Opened (Rows : Type 0) : Type 0 where
  pub rows : Rows
  pub holds : Bool

module _ {S Format Value Rows Outcome : Type 0}
    (conn : Connection S Format Value Rows Outcome) where
  -- ExecContext between acquire and the deferred release.
  unfoldable pub exec_acquired : Stmt Format → List (NamedValue Value) → S → Result Outcome × S
  exec_acquired s args w =
      if not (conn.is_valid w)
      then (err bad_conn, w)
      else if conn.return_generated_keys
          && has_no_elements s.param_names
          && conn.is_insert_statement s.query
      then conn.exec_insert_with_generated_key s.query args w
      else exec_bound s.parameter_marker_format
    where
      unbound : Result Outcome × S
      unbound =
          if has_no_elements args
          then conn.exec_context s.query w
          else (err prepared_statement_binding_unsupported, w)

      bound : Format → Result (List (NamedValue Value)) → Result Outcome × S
      bound format (err e) = (err e, w)
      bound format (ok ordered) =
          conn.exec_prepared s.statement_handle s.statement_type format ordered w

      exec_bound : Option Format → Result Outcome × S
      exec_bound none = unbound
      exec_bound (some format) =
          if is_empty s.statement_name
          then unbound
          else bound format (reorder_named_args s.param_names args)

  abbrev exec_guarded :
      Stmt Format → List (NamedValue Value) → S → Result (Stmt Format) → Run Format S Outcome
  exec_guarded s args w (err e) = ran (err e) s w
  exec_guarded s args w (ok s') = let run = exec_acquired s' args w in ran run.0 (release s') run.1

  unfoldable pub exec : Stmt Format → List (NamedValue Value) → S → Run Format S Outcome
  exec s args w = exec_guarded s args w (acquire s)

  -- The two tails of QueryContext behind the answer of the connection.
  abbrev pub mark : StatementType → Rows → Rows
  mark call rows = conn.mark_stored_proc rows
  mark _ rows = rows

  abbrev pub opened : Stmt Format → Result Rows × S → Run Format S (Opened Rows)
  opened s (err e, w) = ran (err e) (release s) w
  opened s (ok rows, w) =
      let marked = mark s.statement_type rows in
      if conn.is_query_rows marked
      then ran (ok record { rows = marked; holds = true }) s w
      else ran (ok record { rows = marked; holds = false }) (release s) w

  abbrev pub query_unbound : Stmt Format → S → Result Rows × S
  query_unbound s w = elim s.statement_type [
    | call ↦ conn.query_call_rows s.statement_handle s.statement_name w
    | unknown ↦ conn.query_prepared s.statement_handle s.statement_name w
    | insert_update_delete ↦ conn.query_prepared s.statement_handle s.statement_name w
    | select ↦ conn.query_prepared s.statement_handle s.statement_name w
  ]

  -- The branch with arguments. A name that is missing returns at once, without a release.
  abbrev pub query_ordered :
      Stmt Format → Format → Result (List (NamedValue Value)) → S → Run Format S (Opened Rows)
  query_ordered s format (err e) w = ran (err e) s w
  query_ordered s format (ok ordered) w =
      opened s (conn.query_prepared_with_args s.statement_handle s.statement_name format ordered w)

  abbrev pub query_bound :
      Stmt Format → List (NamedValue Value) → S → Option Format → Run Format S (Opened Rows)
  query_bound s args w none = ran (err prepared_statement_binding_unsupported) (release s) w
  query_bound s args w (some format) =
      if not (is_empty s.statement_name) && not (has_no_elements args)
      then query_ordered s format (reorder_named_args s.param_names args) w
      else ran (err prepared_statement_binding_unsupported) (release s) w

  -- QueryContext behind a successful acquire.
  unfoldable pub query_acquired :
      Stmt Format → List (NamedValue Value) → S → Run Format S (Opened Rows)
  query_acquired s args w =
      if not (conn.is_valid w)
      then ran (err bad_conn) (release s) w
      else if not (is_empty s.statement_name) && has_no_elements args
      then opened s (query_unbound s w)
      else query_bound s args w s.parameter_marker_format

  abbrev query_guarded :
      Stmt Format → List (NamedValue Value) → S → Result (Stmt Format) → Run Format S (Opened Rows)
  query_guarded s args w (err e) = ran (err e) s w
  query_guarded s args w (ok s') = query_acquired s' args w

  unfoldable pub query : Stmt Format → List (NamedValue Value) → S → Run Format S (Opened Rows)
  query s args w = query_guarded s args w (acquire s)

  -- Close behind its wait, which ends where no call is active.
  unfoldable pub close_waited : Stmt Format → S → Result (Unit {0}) × S
  close_waited s w =
      if is_empty s.statement_name || not (conn.is_valid w)
      then (ok tt, w)
      else conn.close_prepared_statement s.statement_name s.statement_handle w
