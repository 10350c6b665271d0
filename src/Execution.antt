-- ===== src/Execution.antt =====
-- The execution of a prepared statement with bound values (sql.go): execPrepared and queryPreparedWithArgs
-- with the descriptor that describes the values, openAndDescribe, the rows of a statement, and execBlock
-- and the batch operations of batch.go above them.
pub mod Queries
pub mod Cursors
pub mod Batched
pub mod Counted
use i.Prelude.{
  ℕ, Bytes, List, [], ◌∷◌, Bool, true, false, not, ◌&&◌, ◌==◌, ℤ, pos, negsuc, is_negative, is_pos,
  Option, none, some, length, if◌then◌else◌,
}
use i.Errors.{
  Error, Result, ok, err, Ran, and_then, sql_error, cannot_execute_query, no_result_set,
  statement_returned_result_sets, bad_conn,
}
use i.Text.{codes, is_empty, trim_space}
use i.Wire.{ReplyEnvelope, has_error}
use i.Request.Attributes.{PackageSpec}
use i.Request.Statements.{StatementType, unknown, insert_update_delete, select, call}
use i.Names.{Names, next_descriptor_handle, open_cursor_name, release_open_cursor_name}
use i.Sqlca.{
  SqlWarning, SqlcaInfo, WarningText, delete_descriptor_failed, delete_descriptor_answered,
  parse_sqlca_from_payload,
}
use i.Replies.{Conn, Network, record_warning}
use i.Replies as Replies
use i.Rows.{ResultSetMeta, QueryRows}
use i.Parameters.{
  ParameterMarkerFormat, ParameterBinding, LobWriteRequest, collect_lob_write_requests,
}
use i.Parameters.Requests.{
  build_change_descriptor_request, build_delete_descriptor_request, build_execute_prepared_request,
  build_open_describe_prepared_request, build_write_lob_data_request,
}

-- A connection with the names that it hands out.
pub record Session (N : Type 0) : Type 0 where
  pub conn : Conn N
  pub names : Names

-- What an execution calls beside the network. `bind` is buildParameterBindingsWithBidi,
-- `sync_query_timeout_rpb` and `spec_for_execute` stand for the clientinfo.go and package.go
-- functions of these names, `describe` for parseDescribePayload with bidiColumnName, `assign` for
-- assignCallOutputParameters. `cancel_statement` asks the host to stop a statement where the error is the
-- context's, and `close_interrupted_cursor` closes a cursor there.
pub record Calls (N Arg Column Format : Type 0) : Type 0 where
  pub net : Network N
  pub bind : Option ParameterMarkerFormat → List Arg → Result (List ParameterBinding)
  pub sync_query_timeout_rpb : ℕ → Conn N → Ran (Conn N) (Unit {0})
  pub spec_for_execute : ℕ → Conn N → Option PackageSpec
  pub describe : Bytes → Result (ResultSetMeta Column Format)
  pub assign : Bytes → List ParameterBinding → Conn N → Ran (Conn N) (Unit {0})
  pub cancel_statement : Error → ℕ → Conn N → Conn N
  pub cancel_dead_statement : Error → ℕ → Conn N → Conn N
  pub close_interrupted_cursor : Bytes → Error → Conn N → Conn N
  pub sum_column_lengths : List Column → ℕ
  pub scrollable_cursors : Bool
  pub hold_cursors : Bool
  pub fetch_buffer_bytes : ℕ

-- execResult: the rows affected and the generated key, if there is one.
pub record ExecResult : Type 0 where
  pub rows_affected : ℕ
  pub last_insert_id : Option ℤ

abbrev pub not_negative : ℤ → ℕ
not_negative (pos n) = n
not_negative (negsuc n) = 0

abbrev pub exec_result : SqlcaInfo → ExecResult
exec_result info = record {
  rows_affected = not_negative info.update_count;
  last_insert_id = info.generated_key;
}

abbrev pub warnings_of : Option SqlWarning → List SqlWarning
warnings_of none = []
warnings_of (some w) = w ∷ []

-- `count > 0`.
abbrev pub is_more_than_none : ℤ → Bool
is_more_than_none (pos n) = not (n == 0)
is_more_than_none (negsuc n) = false

-- recordDeleteDescriptorFailure after the request that deletes a descriptor.
abbrev pub deleted : {N : Type 0} → Ran (Conn N) (ReplyEnvelope × Bytes) → Conn N
deleted (err e, c) =
    record_warning (record { code = pos 0; state = []; message = delete_descriptor_failed e } ∷ [])
      c
deleted (ok (e, payload), c) =
    if has_error e
    then record_warning
        (record {
          code = e.rc_code;
          state = [];
          message = delete_descriptor_answered e.rc_class e.rc_code;
        }
          ∷ [])
        c
    else c

module _ {N Arg Column Format : Type 0} (calls : Calls N Arg Column Format) where
  -- A call on the connection, the names as they were.
  abbrev pub on_conn : {A : Type 0} → (Conn N → Ran (Conn N) A) → Session N → Ran (Session N) A
  on_conn work s = let run = work s.conn in (run.0, record s { conn = run.1 })

  -- A negative SQLCODE is an error.
  abbrev pub not_failed : ℕ → SqlcaInfo → Conn N → Ran (Conn N) SqlcaInfo
  not_failed statement_handle info c =
      if is_negative info.sql_code
      then (let failed = Replies.new_sql_error calls.net statement_handle info c in
          (err (sql_error failed.0), failed.1))
      else (ok info, c)

  abbrev pub warned : SqlcaInfo → Conn N → Conn N
  warned info c = record_warning (warnings_of info.warning) c

  abbrev pub parse_sqlca : Bytes → Result SqlcaInfo
  parse_sqlca payload = parse_sqlca_from_payload calls.net.decode calls.net.parse_int payload

  -- A request that failed, by what is then done on the connection.
  abbrev pub or_failed : {A : Type 0} → (Error → Conn N → Conn N) → Ran (Conn N) A → Ran (Conn N) A
  or_failed failed (err e, c) = (err e, failed e c)
  or_failed failed (ok a, c) = (ok a, c)

  abbrev pub as_it_is : Error → Conn N → Conn N
  as_it_is e c = c

  -- The request that changes a descriptor, up to its warning.
  unfoldable pub change_descriptor :
      (Error → Conn N → Conn N)
      → (statement_handle descriptor_handle : ℕ) → Option ParameterMarkerFormat
      → List ParameterBinding
      → Conn N
      → Ran (Conn N) (Unit {0})
  change_descriptor failed statement_handle descriptor_handle format bindings c =
      and_then
        (or_failed failed (
          Replies.on_network calls.net
            (calls.net.do_request
              (build_change_descriptor_request statement_handle descriptor_handle format bindings))
            c))
        (λ reply c.
          and_then
            (Replies.check_reply calls.net statement_handle (codes "change descriptor") reply.0
              reply.1 c)
            (λ checked c.
              and_then (parse_sqlca reply.1, c)
                (λ info c.
                  and_then (not_failed statement_handle info c)
                    (λ info c. (ok tt, warned info c)))))

  -- writeLOBData.
  unfoldable pub write_lob_data : LobWriteRequest → Conn N → Ran (Conn N) (Unit {0})
  write_lob_data write c =
      and_then
        (Replies.on_network calls.net (calls.net.do_request (build_write_lob_data_request write)) c)
        (λ reply c. Replies.check_reply calls.net 0 (codes "write LOB data") reply.0 reply.1 c)

  abbrev pub write_each : List LobWriteRequest → Conn N → Ran (Conn N) (Unit {0})
  write_each [] c = (ok tt, c)
  write_each (write ∷ writes) c = and_then (write_lob_data write c) (λ done c. write_each writes c)

  -- writeLOBDataRequests.
  unfoldable pub write_lob_data_requests : List ParameterBinding → Conn N → Ran (Conn N) (Unit {0})
  write_lob_data_requests bindings c = write_each (collect_lob_write_requests bindings) c

  -- Deferred: the descriptor is deleted whatever came out.
  abbrev pub delete_descriptor : (statement_handle descriptor_handle : ℕ) → Conn N → Conn N
  delete_descriptor statement_handle descriptor_handle c = deleted (
      Replies.on_network calls.net
        (calls.net.do_request (build_delete_descriptor_request statement_handle descriptor_handle))
        c)

  abbrev pub then_deleted :
      {A : Type 0}
      → (statement_handle descriptor_handle : ℕ) → Ran (Session N) A
      → Ran (Session N) A
  then_deleted statement_handle descriptor_handle (answer, s) =
      (answer, record s { conn = delete_descriptor statement_handle descriptor_handle s.conn })

  -- `c.nextDescriptorHandle()`.
  abbrev pub with_descriptor :
      {A : Type 0} → (ℕ → Session N → Ran (Session N) A) → Session N → Ran (Session N) A
  with_descriptor body s =
      let (handle, names) = next_descriptor_handle s.names in
      body handle (record s { names = names })

  abbrev pub result_of :
      ℕ
      → StatementType
      → Bytes
      → List ParameterBinding
      → SqlcaInfo
      → Conn N
      → Ran (Conn N) ExecResult
  result_of statement_handle statement_type payload bindings info c =
      and_then (assigned statement_type) (λ done c. (
        if is_more_than_none info.result_sets_count
            then err statement_returned_result_sets
            else ok (exec_result info),
        c,
      ))
    where
      assigned : StatementType → Ran (Conn N) (Unit {0})
      assigned call = calls.assign payload bindings c
      assigned unknown = (ok tt, c)
      assigned insert_update_delete = (ok tt, c)
      assigned select = (ok tt, c)

  -- execPrepared from the request that executes on.
  unfoldable pub execute :
      (statement_handle descriptor_handle : ℕ)
      → StatementType
      → Option ParameterMarkerFormat
      → List ParameterBinding
      → Conn N
      → Ran (Conn N) ExecResult
  execute statement_handle descriptor_handle statement_type format bindings c =
      let request =
        build_execute_prepared_request calls.net.codec statement_handle descriptor_handle
          statement_type format bindings (calls.spec_for_execute statement_handle c) in
      and_then
        (Replies.on_network calls.net (calls.net.do_statement_request request statement_handle) c)
        (λ reply c.
          and_then
            (Replies.check_reply calls.net statement_handle (codes "execute") reply.0 reply.1 c)
            (λ checked c.
              and_then (parse_sqlca reply.1, c)
                (λ info c.
                  and_then (not_failed statement_handle info (warned info c))
                    (result_of statement_handle statement_type reply.1 bindings))))

  -- execPrepared behind the bindings: values need a descriptor, which is deleted at the end.
  abbrev pub exec_bound :
      ℕ
      → StatementType
      → Option ParameterMarkerFormat
      → List ParameterBinding
      → Session N
      → Ran (Session N) ExecResult
  exec_bound statement_handle statement_type format [] s =
      on_conn (execute statement_handle 0 statement_type format []) s
  exec_bound statement_handle statement_type format (v ∷ vs) s =
      with_descriptor
        (λ descriptor_handle s. then_deleted statement_handle descriptor_handle (
          and_then
            (on_conn (change_descriptor as_it_is statement_handle descriptor_handle format (v ∷ vs))
              s)
            (λ changed s. and_then (on_conn (write_lob_data_requests (v ∷ vs)) s) (λ written s.
              on_conn (execute statement_handle descriptor_handle statement_type format (v ∷ vs))
                s))))
        s

  abbrev pub is_select : StatementType → Bool
  is_select select = true
  is_select call = false
  is_select unknown = false
  is_select insert_update_delete = false

  unfoldable pub exec_prepared :
      ℕ
      → StatementType
      → Option ParameterMarkerFormat
      → List Arg
      → Session N
      → Ran (Session N) ExecResult
  exec_prepared statement_handle statement_type format args s =
      if is_select statement_type
      then (err cannot_execute_query, s)
      else and_then (calls.bind format args, s)
          (λ bindings s.
            and_then (on_conn (calls.sync_query_timeout_rpb statement_handle) s)
              (λ synced s. exec_bound statement_handle statement_type format bindings s))
