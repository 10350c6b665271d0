-- ===== src/Request/Build.antt =====
-- The build functions: each is a body of attributes behind the header and the request template.
use Prim.Native.Nat.{bit_or}
use i.Prelude.{ℕ, ◌-◌, Bytes, ℤ, Option, none, some, length, take, Bool, ◌||◌, ◌==◌, if◌then◌else◌}
use i.Errors.{Result, ok, ◌>>=◌, encoded}
use i.Request.Attributes.{
  Codec, to_uint32, append_name_attribute, append_short_int_attribute,
  append_extended_sql_text_attribute, PackageSpec, Body, no_body, byte_attribute, short_attribute,
  int_attribute, attribute, append_prepare_attributes, append_execute_attributes,
  append_library_attributes,
}
use i.Request.Statements.{
  StatementType, unknown, insert_update_delete, select, call, classify_sql_statement,
  cursor_name_for_statement, finish_request, ors_send_reply_immediately, ors_data_format,
  ors_result_data, ors_sqlca, ors_parameter_marker_format, ors_reply_rle_compressed,
  ors_extended_column_descriptors, ors_return_result_set_attributes,
}

module _ (codec : Codec) where
  unfoldable pub build_create_rpb_request : ℕ → Bytes → Option PackageSpec → Result Bytes
  build_create_rpb_request statement_handle statement_name pkg = do
    name_attr ← encoded (append_name_attribute codec 0x3806 statement_name)
    cursor_attr ←
        encoded (append_name_attribute codec 0x380B (cursor_name_for_statement statement_handle))
    ok (
        finish_request 0x1D00 0 statement_handle 0 (
          append_library_attributes codec pkg
            (attribute cursor_attr (attribute name_attr no_body))))

  -- The statement type and the open attributes of a query or call.
  abbrev pub prepare_type : StatementType → Body → Body
  prepare_type select b = byte_attribute 0x3809 0x80 (short_attribute 0x3812 2 b)
  prepare_type call b = byte_attribute 0x3809 0x80 (short_attribute 0x3812 3 b)
  prepare_type unknown b = b
  prepare_type insert_update_delete b = b

  abbrev pub prepare_bitmap : StatementType → ℕ
  prepare_bitmap call =
      bit_or (bit_or (bit_or ors_send_reply_immediately ors_data_format) ors_sqlca)
        ors_parameter_marker_format
  prepare_bitmap _ =
      bit_or
        (bit_or (bit_or (bit_or ors_send_reply_immediately ors_data_format) ors_sqlca)
          ors_parameter_marker_format)
        ors_extended_column_descriptors

  unfoldable pub build_prepare_and_describe_request_ccsid :
      ℕ → Bytes → Bytes → Option PackageSpec → ℕ → Result Bytes
  build_prepare_and_describe_request_ccsid statement_handle statement_name query pkg text_ccsid = do
    let statement_type = classify_sql_statement query
    name_attr ← encoded (append_name_attribute codec 0x3806 statement_name)
    let body =
        append_prepare_attributes codec pkg
          (prepare_type statement_type (attribute name_attr no_body))
    text_attr ← encoded (append_extended_sql_text_attribute codec query text_ccsid)
    ok (
        finish_request 0x1803 (prepare_bitmap statement_type) statement_handle 0
          (attribute text_attr body))

  unfoldable pub build_open_and_describe_request : Bytes → Bytes → Result Bytes
  build_open_and_describe_request statement_name cursor_name = do
    name_attr ← encoded (append_name_attribute codec 0x3806 statement_name)
    cursor_attr ← encoded (append_name_attribute codec 0x380B cursor_name)
    let named = attribute cursor_attr (attribute name_attr no_body)
    let body =
        short_attribute 0x380D 0 (
          byte_attribute 0x380A 0xD5
            (byte_attribute 0x3833 0xE8 (byte_attribute 0x3809 0x80 named)))
    let bitmap =
        bit_or
          (bit_or (bit_or (bit_or ors_send_reply_immediately ors_data_format) ors_sqlca)
            ors_return_result_set_attributes)
          ors_extended_column_descriptors
    ok (finish_request 0x1804 bitmap 0 0 body)

  -- `body = body[:len(body)-8]` takes the short scroll option back before the long one is written.
  unfoldable pub scroll_option : ℕ → ℤ → Body → Body
  scroll_option option relative b =
      let short = short_attribute 0x380E option b in
      if option == 7 || option == 8
      then record {
        bytes =
            append_short_int_attribute (take (length short.bytes - 8) short.bytes) 0x380E option
              (to_uint32 relative);
        parms = short.parms;
      }
      else short

  unfoldable pub build_fetch_request_for_statement : ℕ → Bytes → ℕ → ℕ → ℤ → Result Bytes
  build_fetch_request_for_statement statement_handle cursor_name fetch_buffer_size option relative =
      do
        cursor_attr ← encoded (append_name_attribute codec 0x380B cursor_name)
        let scrolled = scroll_option option relative (attribute cursor_attr no_body)
        let body = int_attribute 0x3834 fetch_buffer_size (byte_attribute 0x3833 0xE8 scrolled)
        ok (
            finish_request 0x180B (bit_or ors_send_reply_immediately ors_result_data)
              statement_handle 0 body)

  unfoldable pub build_close_cursor_request : Bytes → ℕ → Result Bytes
  build_close_cursor_request cursor_name reuse_indicator = do
    cursor_attr ← encoded (append_name_attribute codec 0x380B cursor_name)
    ok (
        finish_request 0x180A ors_send_reply_immediately 0 0
          (byte_attribute 0x3810 reuse_indicator (attribute cursor_attr no_body)))

  unfoldable pub build_close_result_set_cursor_request : ℕ → Bytes → ℕ → Result Bytes
  build_close_result_set_cursor_request statement_handle cursor_name reuse_indicator = do
    cursor_attr ← encoded (append_name_attribute codec 0x380B cursor_name)
    ok (
        finish_request 0x180A ors_reply_rle_compressed statement_handle 0
          (byte_attribute 0x3810 reuse_indicator (attribute cursor_attr no_body)))

  -- The type and open attributes of a CALL, and its prepare option where there is no package.
  abbrev pub immediate_type : StatementType → Option PackageSpec → Body → Body
  immediate_type call none b =
      byte_attribute 0x3808 0 (byte_attribute 0x3809 0x80 (short_attribute 0x3812 3 b))
  immediate_type call (some s) b = byte_attribute 0x3809 0x80 (short_attribute 0x3812 3 b)
  immediate_type _ pkg b = b

  unfoldable pub build_execute_immediate_request_ccsid :
      Bytes → StatementType → Option PackageSpec → ℕ → Result Bytes
  build_execute_immediate_request_ccsid query statement_type pkg text_ccsid = do
    let body = append_prepare_attributes codec pkg (immediate_type statement_type pkg no_body)
    text_attr ← encoded (append_extended_sql_text_attribute codec query text_ccsid)
    ok (
        finish_request 0x1806 (bit_or ors_send_reply_immediately ors_sqlca) 0 0
          (attribute text_attr body))

  -- The one attribute that the parameter count starts from is the statement type.
  unfoldable pub build_execute_call_no_params_request : ℕ → Option PackageSpec → Bytes
  build_execute_call_no_params_request statement_handle pkg =
      finish_request 0x1805
        (bit_or (bit_or ors_send_reply_immediately ors_sqlca) ors_return_result_set_attributes)
        statement_handle 0 (append_execute_attributes codec pkg (short_attribute 0x3812 3 no_body))

  unfoldable pub build_create_package_request : Bytes → Bytes → Result Bytes
  build_create_package_request name library = do
    name_attr ← encoded (append_name_attribute codec 0x3804 name)
    library_attr ← encoded (append_name_attribute codec 0x3801 library)
    ok (
        finish_request 0x180F ors_send_reply_immediately 0 0
          (attribute library_attr (attribute name_attr no_body)))

unfoldable pub build_delete_rpb_request : ℕ → Bytes
build_delete_rpb_request statement_handle =
    finish_request 0x1D02 (bit_or ors_send_reply_immediately ors_reply_rle_compressed)
      statement_handle 0 no_body

unfoldable pub build_test_connection_request : Bytes
build_test_connection_request = finish_request 0x0000 ors_send_reply_immediately 0 0 no_body

unfoldable pub build_commit_request : Bytes
build_commit_request = finish_request 0x1807 ors_send_reply_immediately 0 0 no_body

unfoldable pub build_rollback_request : Bytes
build_rollback_request = finish_request 0x1808 ors_send_reply_immediately 0 0 no_body

abbrev pub auto_commit_indicator : Bool → ℕ
auto_commit_indicator enabled = if enabled then 0xE8 else 0xD5

unfoldable pub build_auto_commit_request_level : Bool → ℕ → Bytes
build_auto_commit_request_level enabled level =
    finish_request 0x1F80 (bit_or ors_send_reply_immediately 0x01000000) 0 0
      (short_attribute 0x380E level (byte_attribute 0x3824 (auto_commit_indicator enabled) no_body))

unfoldable pub build_change_rpb_query_timeout_request : ℕ → ℤ → Bytes
build_change_rpb_query_timeout_request statement_handle seconds =
    finish_request 0x1D03 0 statement_handle 0 (int_attribute 0x3817 (to_uint32 seconds) no_body)

unfoldable pub build_send_results_set_request : ℕ → ℕ → Bytes
build_send_results_set_request rpb_handle bitmap = finish_request 0x1F00 bitmap rpb_handle 0 no_body

unfoldable pub build_retrieve_lob_data_request : ℕ → ℕ → Bytes
build_retrieve_lob_data_request locator_handle requested_size =
    finish_request 0x1816 (bit_or ors_send_reply_immediately ors_result_data) 0 0 (
      byte_attribute 0x3821 0xF1 (
        byte_attribute 0x381B 0xF0 (
          int_attribute 0x381A 0
            (int_attribute 0x3819 requested_size (int_attribute 0x3818 locator_handle no_body)))))

unfoldable pub build_free_lob_request : ℕ → Bytes
build_free_lob_request locator_handle =
    finish_request 0x1819 ors_send_reply_immediately 0 0
      (int_attribute 0x3818 locator_handle no_body)
