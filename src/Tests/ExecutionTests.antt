-- ===== src/Tests/ExecutionTests.antt =====
-- Queries whose open fails, and whose open finds no result set.
use i.Prelude.{◌≡◌, refl, [], ◌∷◌, false, pos, none}
use i.Errors.{ok, err, eof, no_result_set}
use i.Text.{codes}
use i.Names.{open_cursor_name}
use i.Replies.{Network, check_reply, record_warning, clone_sql_warning_chain, is_end_of_data_reply}
use i.Wire.Walk.{scan}
use i.Sqlca.{no_sqlca, parse_sqlca_from_payload}
use i.Request.Attributes.{append_name_attribute}
use i.Request.Statements.{cursor_name_for_statement}
use i.Parameters.Requests.{build_open_describe_prepared_request}
use i.Execution.{Session, Calls}
use i.Execution.Queries.{
  open_and_describe, query_rows_for_statement, query_rows_for_statement_with_bindings,
}
use i.Execution.Cursors.{
  query_rows_for_statement-releases, query_rows_for_statement_with_bindings-strands,
}
use i.Tests.RepliesTests.{network, idle, last_reply}
use i.Tests.ParametersTests.{bound_row, original_format}

-- A host that answers every statement, in silence or not at all.
abbrev silent : Network (Unit {0})
silent = record network {
  do_statement_request =
      λ request handle n. (ok (record (last_reply (pos 0)) { rc_class = 0 }, []), n);
}

abbrev calls_on : Network (Unit {0}) → Calls (Unit {0}) (Unit {0}) (Unit {0}) (Unit {0})
calls_on net = record {
  net = net;
  bind = λ format args. ok [];
  sync_query_timeout_rpb = λ handle c. (ok tt, c);
  spec_for_execute = λ handle c. none;
  describe = λ payload. ok (record { columns = []; row_size = 0; format = tt });
  assign = λ payload bindings c. (ok tt, c);
  cancel_statement = λ e handle c. c;
  cancel_dead_statement = λ e handle c. c;
  close_interrupted_cursor = λ name e c. c;
  sum_column_lengths = λ columns. 0;
  scrollable_cursors = false;
  hold_cursors = false;
  fetch_buffer_bytes = 262144;
}

abbrev mute : Network (Unit {0})
mute = record network { do_statement_request = λ request handle n. (err eof, n) }

abbrev fresh : Session (Unit {0})
fresh = record {
  conn = idle;
  names = record {
    used_statement_handles = 3 ∷ [];
    descriptor_seq = 0;
    default_cursor_busy = [];
    cursor_seq = 0;
  };
}

fails : (query_rows_for_statement (calls_on mute) 3 (codes "STMT") fresh).0 ≡ err eof
unfolding query_rows_for_statement open_and_describe open_cursor_name
    build_open_describe_prepared_request append_name_attribute cursor_name_for_statement
fails = refl

query_rows_for_statement-releases_example :
    (query_rows_for_statement (calls_on mute) 3 (codes "STMT") fresh).1.names.default_cursor_busy
    ≡ []
query_rows_for_statement-releases_example =
    query_rows_for_statement-releases (calls_on mute) 3 (codes "STMT") fresh eof fails

opens :
    open_and_describe
      (calls_on silent)
      3
      (codes "STMT")
      (cursor_name_for_statement 3)
      1
      original_format
      (bound_row 5)
      idle
    ≡ (ok (record { columns = []; row_size = 0; format = tt }, no_sqlca), idle)
unfolding open_and_describe build_open_describe_prepared_request append_name_attribute
    cursor_name_for_statement check_reply is_end_of_data_reply parse_sqlca_from_payload
    record_warning clone_sql_warning_chain scan
opens = refl

query_rows_for_statement_with_bindings-strands_example :
    let run =
      query_rows_for_statement_with_bindings
        (calls_on silent)
        3
        (codes "STMT")
        1
        original_format
        (bound_row 5)
        fresh in
    (run.0 ≡ err no_result_set)
    × (run.1.names.default_cursor_busy ≡ 3 ∷ [])
    × ((open_cursor_name 3 run.1.names).0.1 ≡ false)
query_rows_for_statement_with_bindings-strands_example =
    query_rows_for_statement_with_bindings-strands (calls_on silent) 3 (codes "STMT") 1
      original_format (bound_row 5) fresh refl opens refl
