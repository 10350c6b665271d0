-- ===== src/Parameters/Requests.antt =====
-- The requests that carry values: descriptors, executions, opens and LOB data (sql.go).
use Prim.Native.Nat.{bit_or}
use i.Prelude.{
  ℕ, ◌+◌, ◌%◌, ◌^◌, Bytes, List, [], ◌∷◌, Bool, true, false, ◌==◌, Option, if◌then◌else◌,
}
use i.Errors.{Result, ok, ◌>>=◌, encoded}
use i.Wire.{append_llcp}
use i.Request.Attributes.{
  Codec, PackageSpec, Body, no_body, byte_attribute, short_attribute, int_attribute, attribute,
  append_name_attribute, append_execute_attributes,
}
use i.Request.Statements.{
  StatementType, type_code, call, finish_request, ors_send_reply_immediately, ors_data_format,
  ors_result_data, ors_sqlca, ors_return_result_set_attributes,
}
use i.Parameters.{ParameterMarkerFormat, ParameterBinding, LobWriteRequest, has_output_bindings}
use i.Parameters.Payload.{
  build_parameter_marker_format_payload, build_parameter_marker_data_payload,
}

-- The code point that a request has for a format.
abbrev pub request_format_code_point : ℕ → ℕ
request_format_code_point code_point =
    if code_point == 0x3808
    then 0x3801
    else if code_point == 0x380D
    then 0x381E
    else if code_point == 0x3813
    then 0x381E
    else code_point

-- `AppendLLCP(body, codePoint, payload)` for one more item.
abbrev pub item_attribute : ℕ → Bytes → Body → Body
item_attribute code_point payload b = record {
  bytes = append_llcp b.bytes code_point payload;
  parms = b.parms + 1;
}

unfoldable pub build_change_descriptor_request :
    (statement_handle descriptor_handle : ℕ)
    → Option ParameterMarkerFormat
    → List ParameterBinding
    → Bytes
build_change_descriptor_request statement_handle descriptor_handle format bindings =
    let (payload, code_point) = build_parameter_marker_format_payload format bindings in
    finish_request 0x1E00 (bit_or ors_send_reply_immediately ors_sqlca) statement_handle
      descriptor_handle (item_attribute (request_format_code_point code_point) payload no_body)

unfoldable pub build_delete_descriptor_request : (statement_handle descriptor_handle : ℕ) → Bytes
build_delete_descriptor_request statement_handle descriptor_handle =
    finish_request 0x1E01 (bit_or ors_send_reply_immediately ors_sqlca) statement_handle
      descriptor_handle no_body

-- The bitmap of an execution: results come with a CALL that has output parameters.
abbrev pub execute_bitmap : StatementType → List ParameterBinding → ℕ
execute_bitmap call bindings =
    if has_output_bindings bindings
    then bit_or (bit_or ors_send_reply_immediately ors_sqlca) ors_result_data
    else bit_or ors_send_reply_immediately ors_sqlca
execute_bitmap _ bindings = bit_or ors_send_reply_immediately ors_sqlca

module _ (codec : Codec) where
  unfoldable pub build_execute_prepared_request :
      (statement_handle descriptor_handle : ℕ)
      → StatementType
      → Option ParameterMarkerFormat
      → List ParameterBinding
      → Option PackageSpec
      → Bytes
  build_execute_prepared_request statement_handle descriptor_handle statement_type format bindings
        pkg =
      let (payload, code_point) = build_parameter_marker_data_payload format bindings in
      finish_request 0x1805 (execute_bitmap statement_type bindings) statement_handle
        descriptor_handle
        (append_execute_attributes codec pkg (
          item_attribute code_point payload
            (short_attribute 0x3812 (type_code statement_type) no_body)))

  abbrev pub hold_attributes : Bool → Body → Body
  hold_attributes true b = byte_attribute 0x3830 0xE8 (byte_attribute 0x380F 0xE8 b)
  hold_attributes false b = b

  abbrev pub data_item : Option ParameterMarkerFormat → List ParameterBinding → Body → Body
  data_item format [] b = b
  data_item format (v ∷ vs) b =
      let (payload, code_point) = build_parameter_marker_data_payload format (v ∷ vs) in
      item_attribute code_point payload b

  unfoldable pub build_open_describe_prepared_request :
      (statement_handle descriptor_handle : ℕ)
      → (statement_name cursor_name : Bytes) → Option ParameterMarkerFormat
      → List ParameterBinding
      → (scrollable hold : Bool) → Option PackageSpec
      → Result Bytes
  build_open_describe_prepared_request statement_handle descriptor_handle statement_name cursor_name
        format bindings scrollable hold pkg =
      do
        name_attr ← encoded (append_name_attribute codec 0x3806 statement_name)
        cursor_attr ← encoded (append_name_attribute codec 0x380B cursor_name)
        let named =
            append_execute_attributes codec pkg
              (attribute cursor_attr (attribute name_attr no_body))
        let opened =
            byte_attribute 0x380A 0xD5
              (byte_attribute 0x3833 0xE8 (byte_attribute 0x3809 0x80 named))
        let scrolled = short_attribute 0x380D (if scrollable then 2 else 0) opened
        let bitmap =
            bit_or (bit_or (bit_or ors_send_reply_immediately ors_data_format) ors_sqlca)
              ors_return_result_set_attributes
        ok (
            finish_request 0x1804 bitmap statement_handle descriptor_handle
              (data_item format bindings (hold_attributes hold scrolled)))

unfoldable pub build_write_lob_data_request : LobWriteRequest → Bytes
build_write_lob_data_request write =
    let located = int_attribute 0x3818 write.locator_handle no_body in
    let sized = int_attribute 0x3819 (write.requested_size % 2 ^ 32) located in
    let whole = byte_attribute 0x381B 0xF0 (int_attribute 0x381A 0 sized) in
    finish_request 0x1817 (bit_or ors_send_reply_immediately ors_result_data) 0 0
      (item_attribute 0x381D write.content whole)
