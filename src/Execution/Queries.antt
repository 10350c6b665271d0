-- ===== src/Execution/Queries.antt =====
-- openAndDescribe, the rows that an opened statement answers with, and the queries with and without
-- bound values.
use i.Prelude.{
  ℕ, Bytes, List, [], ◌∷◌, Bool, true, false, ◌&&◌, ◌==◌, ℤ, pos, is_pos, Option, none, some,
  if◌then◌else◌,
}
use i.Errors.{Error, ok, err, Ran, and_then, no_result_set, bad_conn}
use i.Text.{codes, is_empty, trim_space}
use i.Names.{Names, open_cursor_name, release_open_cursor_name}
use i.Sqlca.{SqlcaInfo}
use i.Replies.{Conn, Network, record_warning}
use i.Replies as Replies
use i.Rows.{ResultSetMeta, QueryRows}
use i.Parameters.{ParameterMarkerFormat, ParameterBinding}
use i.Parameters.Requests.{build_open_describe_prepared_request}
use i.Execution.{
  Session, Calls, is_more_than_none, warned, not_failed, on_conn, parse_sqlca, or_failed,
  change_descriptor, write_lob_data_requests, then_deleted, with_descriptor,
}

abbrev pub has_none : {A : Type 0} → List A → Bool
has_none [] = true
has_none (x ∷ xs) = false

-- `resultSetCount := 1; if sqlca.ResultSetsCount > 0 { … }`.
abbrev pub result_set_count_of : SqlcaInfo → ℤ
result_set_count_of info =
    if is_more_than_none info.result_sets_count then info.result_sets_count else pos 1

-- There is neither a column nor a further result set.
abbrev pub is_no_result_set :
    {Column Format : Type 0} → ResultSetMeta Column Format → SqlcaInfo → Bool
is_no_result_set meta info = has_none meta.columns && is_pos 1 (result_set_count_of info)

module _ {N Arg Column Format : Type 0} (calls : Calls N Arg Column Format) where
  unfoldable pub open_and_describe :
      ℕ
      → (statement_name cursor_name : Bytes) → (descriptor_handle : ℕ)
      → Option ParameterMarkerFormat
      → List ParameterBinding
      → Conn N
      → Ran (Conn N) (ResultSetMeta Column Format × SqlcaInfo)
  open_and_describe statement_handle statement_name cursor_name descriptor_handle format bindings
        c =
      and_then (calls.sync_query_timeout_rpb statement_handle c) (λ synced c.
        and_then
          (
            build_open_describe_prepared_request calls.net.codec statement_handle descriptor_handle
                statement_name cursor_name format bindings calls.scrollable_cursors
                calls.hold_cursors (calls.spec_for_execute statement_handle c),
            c,
          )
          (λ request c.
            and_then
              (or_failed calls (λ e c. calls.cancel_dead_statement e statement_handle c)
                (Replies.on_network calls.net
                  (calls.net.do_statement_request request statement_handle) c))
              (λ reply c.
                and_then
                  (Replies.check_reply calls.net statement_handle (codes "open") reply.0 reply.1 c)
                  (λ checked c.
                    and_then (parse_sqlca calls reply.1, c)
                      (λ info c. and_then (not_failed calls statement_handle info c) (λ info c.
                        and_then (calls.describe reply.1, c) (λ meta c. (ok (meta, info), c))))))))

  -- The rows of an open cursor: `&queryRows{…}`, with the row size set where it was left out.
  abbrev pub rows_of :
      ℕ
      → (statement_name cursor_name : Bytes) → (default_cursor : Bool) → ResultSetMeta Column Format
      → SqlcaInfo
      → QueryRows Column Format
  rows_of statement_handle statement_name cursor_name default_cursor meta info = record {
    connected = true;
    meta = some record {
      columns = meta.columns;
      row_size =
          if meta.row_size == 0 then calls.sum_column_lengths meta.columns else meta.row_size;
      format = meta.format;
    };
    statement_handle = statement_handle;
    statement_name = statement_name;
    cursor_name = cursor_name;
    default_cursor = default_cursor;
    fetch_buffer_size = calls.fetch_buffer_bytes;
    result_set_count = result_set_count_of info;
    result_set_index = 1;
    block = none;
    row_index = 0;
    current_row = pos 0;
    current_result_set_done = has_none meta.columns;
    stored_proc_result = false;
    scrollable = calls.scrollable_cursors;
    own_statement = false;
    has_release = false;
    closed = false;
    server_closed = false;
    end_of_data = false;
  }

  -- An open that failed: the cursor is closed where the context ended, and its name is released.
  abbrev pub open_failed :
      ℕ → Bytes → Bool → Error → Names → Conn N → Ran (Session N) (QueryRows Column Format)
  open_failed statement_handle cursor_name default_cursor e names c = (
    err e,
    record {
      conn = calls.close_interrupted_cursor cursor_name e c;
      names = release_open_cursor_name statement_handle default_cursor names;
    },
  )

  -- queryRowsForStatement and queryRowsForStatementWithBindings differ in what they do with the cursor's name
  -- where there is no result set, `unanswered`.
  abbrev pub rows_opened :
      (unanswered : ℕ → Bool → Names → Names)
      → ℕ
      → (statement_name cursor_name : Bytes) → (default_cursor : Bool) → Names
      → Ran (Conn N) (ResultSetMeta Column Format × SqlcaInfo)
      → Ran (Session N) (QueryRows Column Format)
  rows_opened unanswered statement_handle statement_name cursor_name default_cursor names
        (err e, c) =
      open_failed statement_handle cursor_name default_cursor e names c
  rows_opened unanswered statement_handle statement_name cursor_name default_cursor names
        (ok (meta, info), c) =
      if is_no_result_set meta info
      then (
        err no_result_set,
        record {
          conn = warned calls info c;
          names = unanswered statement_handle default_cursor names;
        },
      )
      else (
        ok (rows_of statement_handle statement_name cursor_name default_cursor meta info),
        record { conn = warned calls info c; names = names },
      )

  unfoldable pub query_rows_for_statement :
      ℕ → Bytes → Session N → Ran (Session N) (QueryRows Column Format)
  query_rows_for_statement statement_handle statement_name s =
      let ((cursor_name, default_cursor), names) = open_cursor_name statement_handle s.names in
      rows_opened release_open_cursor_name statement_handle statement_name cursor_name
        default_cursor names
        (open_and_describe statement_handle statement_name cursor_name 0 none [] s.conn)

  abbrev pub kept : ℕ → Bool → Names → Names
  kept statement_handle default_cursor names = names

  unfoldable pub query_rows_for_statement_with_bindings :
      ℕ
      → Bytes
      → (descriptor_handle : ℕ) → Option ParameterMarkerFormat
      → List ParameterBinding
      → Session N
      → Ran (Session N) (QueryRows Column Format)
  query_rows_for_statement_with_bindings statement_handle statement_name descriptor_handle format
        bindings s =
      let ((cursor_name, default_cursor), names) = open_cursor_name statement_handle s.names in
      rows_opened kept statement_handle statement_name cursor_name default_cursor names (
        open_and_describe statement_handle statement_name cursor_name descriptor_handle format
          bindings s.conn)

  -- `ClearWarnings`.
  abbrev pub clear_warnings : Session N → Session N
  clear_warnings s = record s { conn = record s.conn { warnings = [] } }

  unfoldable pub query_prepared : ℕ → Bytes → Session N → Ran (Session N) (QueryRows Column Format)
  query_prepared statement_handle statement_name s =
      if is_empty (trim_space statement_name)
      then (err bad_conn, s)
      else query_rows_for_statement statement_handle statement_name (clear_warnings s)

  abbrev pub query_bindings :
      ℕ
      → Bytes
      → Option ParameterMarkerFormat
      → List ParameterBinding
      → Session N
      → Ran (Session N) (QueryRows Column Format)
  query_bindings statement_handle statement_name format [] s =
      query_prepared statement_handle statement_name s
  query_bindings statement_handle statement_name format (v ∷ vs) s =
      with_descriptor calls
        (λ descriptor_handle s. then_deleted calls statement_handle descriptor_handle (
          and_then
            (on_conn calls
              (change_descriptor calls (λ e c. calls.cancel_statement e statement_handle c)
                statement_handle descriptor_handle format (v ∷ vs))
              s)
            (λ changed s.
              and_then (on_conn calls (write_lob_data_requests calls (v ∷ vs)) s) (λ written s.
                query_rows_for_statement_with_bindings statement_handle statement_name
                  descriptor_handle format (v ∷ vs) s))))
        s

  unfoldable pub query_prepared_with_args :
      ℕ
      → Bytes
      → Option ParameterMarkerFormat
      → List Arg
      → Session N
      → Ran (Session N) (QueryRows Column Format)
  query_prepared_with_args statement_handle statement_name format args s =
      if is_empty (trim_space statement_name)
      then (err bad_conn, s)
      else and_then (calls.bind format args, s)
          (λ bindings s. query_bindings statement_handle statement_name format bindings s)
