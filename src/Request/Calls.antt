-- ===== src/Request/Calls.antt =====
-- The calls of the build functions as data, with the function code and the statement of each.
use i.Prelude.{ℕ, Bytes, Option, ℤ, Bool, List}
use i.Errors.{Result, ok}
use i.Request.Attributes.{Codec, PackageSpec}
use i.Request.Statements.{StatementType}
use i.Request.Build
use i.Parameters.{ParameterMarkerFormat, ParameterBinding, LobWriteRequest}
use i.Parameters.Requests as Requests
use i.Batches.{Row, build_block_execute_request}

-- A call of a build function.
pub data Call : Type 0 where
  create_rpb : ℕ → Bytes → Option PackageSpec → Call
  prepare_and_describe : ℕ → Bytes → Bytes → Option PackageSpec → ℕ → Call
  open_and_describe : Bytes → Bytes → Call
  fetch : ℕ → Bytes → ℕ → ℕ → ℤ → Call
  close_cursor : Bytes → ℕ → Call
  close_result_set_cursor : ℕ → Bytes → ℕ → Call
  execute_immediate : Bytes → StatementType → Option PackageSpec → ℕ → Call
  execute_call_no_params : ℕ → Option PackageSpec → Call
  create_package : Bytes → Bytes → Call
  delete_rpb : ℕ → Call
  test_connection commit rollback : Call
  auto_commit_level : Bool → ℕ → Call
  change_rpb_query_timeout : ℕ → ℤ → Call
  send_results_set : ℕ → ℕ → Call
  retrieve_lob_data : ℕ → ℕ → Call
  free_lob : ℕ → Call
  set_descriptor : ℕ → ℕ → Option ParameterMarkerFormat → List ParameterBinding → Call
  remove_descriptor : ℕ → ℕ → Call
  execute_values :
      ℕ
      → ℕ
      → StatementType
      → Option ParameterMarkerFormat
      → List ParameterBinding
      → Option PackageSpec
      → Call
  open_values :
      ℕ
      → ℕ
      → Bytes
      → Bytes
      → Option ParameterMarkerFormat
      → List ParameterBinding
      → Bool
      → Bool
      → Option PackageSpec
      → Call
  write_lob : LobWriteRequest → Call
  execute_rows :
      ℕ → ℕ → StatementType → Option ParameterMarkerFormat → List Row → Option PackageSpec → Call

unfoldable pub build : Codec → Call → Result Bytes
build codec (create_rpb h n pkg) = Build.build_create_rpb_request codec h n pkg
build codec (prepare_and_describe h n q pkg c) =
    Build.build_prepare_and_describe_request_ccsid codec h n q pkg c
build codec (open_and_describe n c) = Build.build_open_and_describe_request codec n c
build codec (fetch h c size option relative) =
    Build.build_fetch_request_for_statement codec h c size option relative
build codec (close_cursor c reuse) = Build.build_close_cursor_request codec c reuse
build codec (close_result_set_cursor h c reuse) =
    Build.build_close_result_set_cursor_request codec h c reuse
build codec (execute_immediate q t pkg c) =
    Build.build_execute_immediate_request_ccsid codec q t pkg c
build codec (execute_call_no_params h pkg) =
    ok (Build.build_execute_call_no_params_request codec h pkg)
build codec (create_package n l) = Build.build_create_package_request codec n l
build codec (delete_rpb h) = ok (Build.build_delete_rpb_request h)
build codec test_connection = ok Build.build_test_connection_request
build codec commit = ok Build.build_commit_request
build codec rollback = ok Build.build_rollback_request
build codec (auto_commit_level enabled level) =
    ok (Build.build_auto_commit_request_level enabled level)
build codec (change_rpb_query_timeout h seconds) =
    ok (Build.build_change_rpb_query_timeout_request h seconds)
build codec (send_results_set h bitmap) = ok (Build.build_send_results_set_request h bitmap)
build codec (retrieve_lob_data l size) = ok (Build.build_retrieve_lob_data_request l size)
build codec (free_lob l) = ok (Build.build_free_lob_request l)
build codec (set_descriptor h d format bs) =
    ok (Requests.build_change_descriptor_request h d format bs)
build codec (remove_descriptor h d) = ok (Requests.build_delete_descriptor_request h d)
build codec (execute_values h d t format bs pkg) =
    ok (Requests.build_execute_prepared_request codec h d t format bs pkg)
build codec (open_values h d n c format bs scrollable hold pkg) =
    Requests.build_open_describe_prepared_request codec h d n c format bs scrollable hold pkg
build codec (write_lob write) = ok (Requests.build_write_lob_data_request write)
build codec (execute_rows h d t format rows pkg) =
    build_block_execute_request codec h d t format rows pkg

-- The function code of the protocol for each call, and the statement that its template names.
abbrev pub function_of : Call → ℕ
function_of (create_rpb _ _ _) = 0x1D00
function_of (prepare_and_describe _ _ _ _ _) = 0x1803
function_of (open_and_describe _ _) = 0x1804
function_of (fetch _ _ _ _ _) = 0x180B
function_of (close_cursor _ _) = 0x180A
function_of (close_result_set_cursor _ _ _) = 0x180A
function_of (execute_immediate _ _ _ _) = 0x1806
function_of (execute_call_no_params _ _) = 0x1805
function_of (create_package _ _) = 0x180F
function_of (delete_rpb _) = 0x1D02
function_of test_connection = 0x0000
function_of commit = 0x1807
function_of rollback = 0x1808
function_of (auto_commit_level _ _) = 0x1F80
function_of (change_rpb_query_timeout _ _) = 0x1D03
function_of (send_results_set _ _) = 0x1F00
function_of (retrieve_lob_data _ _) = 0x1816
function_of (free_lob _) = 0x1819
function_of (set_descriptor _ _ _ _) = 0x1E00
function_of (remove_descriptor _ _) = 0x1E01
function_of (execute_values _ _ _ _ _ _) = 0x1805
function_of (open_values _ _ _ _ _ _ _ _ _) = 0x1804
function_of (write_lob _) = 0x1817
function_of (execute_rows _ _ _ _ _ _) = 0x1805

abbrev pub handle_of : Call → ℕ
handle_of (create_rpb h _ _) = h
handle_of (prepare_and_describe h _ _ _ _) = h
handle_of (fetch h _ _ _ _) = h
handle_of (close_result_set_cursor h _ _) = h
handle_of (execute_call_no_params h _) = h
handle_of (delete_rpb h) = h
handle_of (change_rpb_query_timeout h _) = h
handle_of (send_results_set h _) = h
handle_of (set_descriptor h _ _ _) = h
handle_of (remove_descriptor h _) = h
handle_of (execute_values h _ _ _ _ _) = h
handle_of (open_values h _ _ _ _ _ _ _ _) = h
handle_of (execute_rows h _ _ _ _ _) = h
handle_of _ = 0

-- The descriptor of parameter markers, which a call without values leaves at 0.
abbrev pub descriptor_of : Call → ℕ
descriptor_of (set_descriptor _ d _ _) = d
descriptor_of (remove_descriptor _ d) = d
descriptor_of (execute_values _ d _ _ _ _) = d
descriptor_of (open_values _ d _ _ _ _ _ _ _) = d
descriptor_of (execute_rows _ d _ _ _ _) = d
descriptor_of _ = 0
