-- ===== src/Request/Carried.antt =====
-- The requests that carry values, descriptors or LOB data are framed.
use Prim.Native.Nat.{bit_or}
use i.Prelude.{
  ℕ, ◌^◌, ◌<◌, refl, Bytes, List, [], ◌∷◌, ◌++◌, Bool, true, false, ltb, Option, arith, length,
  if◌then◌else◌,
}
use i.Errors.{Result, ok, err, ◌>>=◌, ◌>>◌, fail_if, block_has_too_many_columns}
use i.Wire.{append_llcp}
use i.Request.Attributes.{
  Codec, PackageSpec, Body, no_body, attribute, append_short_attribute, append_execute_attributes,
}
use i.Request.Statements.{
  StatementType, type_code, finish_request, ors_send_reply_immediately, ors_sqlca,
}
use i.Request.Framing.{
  IsBody, no_body-IsBody, attribute-IsBody, byte_attribute-IsBody, short_attribute-IsBody,
  int_attribute-IsBody, append_execute_attributes-IsBody,
}
use i.Request.Framed.{FramedFor, Ensures, finish_request-Framed, named}
use i.Parameters.{ParameterMarkerFormat, ParameterBinding, LobWriteRequest, sum_binding_lengths}
use i.Parameters.Payload.{
  parameter_marker_payload_layout, build_parameter_marker_format_payload,
  build_parameter_marker_data_payload,
}
use i.Parameters.Requests.{
  request_format_code_point, item_attribute, hold_attributes, data_item,
  build_change_descriptor_request, build_delete_descriptor_request, build_execute_prepared_request,
  build_open_describe_prepared_request, build_write_lob_data_request,
}
use i.Batches.{
  Row, block_payload, check_shapes, different_row, build_block_parameter_marker_data,
  build_block_execute_request,
}

item_attribute-IsBody :
    (c : ℕ) (payload : Bytes) {b : Body}
    → c < 2 ^ 16
    → IsBody b
    → IsBody (item_attribute c payload b)
unfolding append_llcp
item_attribute-IsBody c payload small h =
    attribute-IsBody c payload (append_llcp [] c payload) small refl h

format_point :
    (format : Option ParameterMarkerFormat) (bs : List ParameterBinding)
    → request_format_code_point (build_parameter_marker_format_payload format bs).1 < 2 ^ 16
unfolding build_parameter_marker_format_payload
format_point format bs = either (parameter_marker_payload_layout format bs) _ _
  where
    either :
        (t : Bool) (x y : Bytes)
        → request_format_code_point (if◌then◌else◌ {A = Bytes × ℕ} t (x, 0x380D) (y, 0x3808)).1
          < 2 ^ 16
    either true x y = omega arith
    either false x y = omega arith

data_point :
    (format : Option ParameterMarkerFormat) (bs : List ParameterBinding)
    → (build_parameter_marker_data_payload format bs).1 < 2 ^ 16
unfolding build_parameter_marker_data_payload
data_point format bs = either (parameter_marker_payload_layout format bs) _ _
  where
    either :
        (t : Bool) (x y : Bytes)
        → (if◌then◌else◌ {A = Bytes × ℕ} t (x, 0x381F) (y, 0x3811)).1 < 2 ^ 16
    either true x y = omega arith
    either false x y = omega arith

-- A payload under a code point of two bytes, or an error.
abbrev Pointed : Result (Bytes × ℕ) → Type 0
Pointed (ok (payload, code_point)) = code_point < 2 ^ 16
Pointed (err e) = Unit {0}

block_payload-Pointed :
    (t : Bool) (rows : List Row) (columns size : ℕ) → (block_payload t rows columns size).1 < 2 ^ 16
block_payload-Pointed true rows columns size = omega arith
block_payload-Pointed false rows columns size = omega arith

block_data-Pointed :
    (format : Option ParameterMarkerFormat) (rows : List Row)
    → Pointed (build_block_parameter_marker_data format rows)
unfolding build_block_parameter_marker_data
block_data-Pointed format [] = tt
block_data-Pointed format (first ∷ rows) =
    either (check_shapes (different_row first 0 (first ∷ rows))) (ltb 0xFFFF (length first))
  where
    either :
        (shaped : Result (Unit {0})) (wide : Bool)
        → Pointed (
            shaped
            >> (fail_if wide block_has_too_many_columns
                >> ok (
                    block_payload
                      (parameter_marker_payload_layout format first)
                      (first ∷ rows)
                      (length first)
                      (sum_binding_lengths first))))
    either (err e) wide = tt
    either (ok done) true = tt
    either (ok done) false = block_payload-Pointed _ (first ∷ rows) _ _

pub change_descriptor-Framed :
    (h d : ℕ) (format : Option ParameterMarkerFormat) (bs : List ParameterBinding)
    → FramedFor 0x1E00 h d (build_change_descriptor_request h d format bs)
unfolding build_change_descriptor_request
change_descriptor-Framed h d format bs =
    finish_request-Framed 0x1E00 _ h d
      (item_attribute-IsBody _ _ (format_point format bs) no_body-IsBody)

pub delete_descriptor-Framed :
    (h d : ℕ) → FramedFor 0x1E01 h d (build_delete_descriptor_request h d)
unfolding build_delete_descriptor_request
delete_descriptor-Framed h d = finish_request-Framed 0x1E01 _ h d no_body-IsBody

pub write_lob_data-Framed :
    (write : LobWriteRequest) → FramedFor 0x1817 0 0 (build_write_lob_data_request write)
unfolding build_write_lob_data_request
write_lob_data-Framed write = finish_request-Framed 0x1817 _ 0 0 (
    item_attribute-IsBody 0x381D write.content (omega arith) (
      byte_attribute-IsBody
        (int_attribute-IsBody
          (int_attribute-IsBody
            (int_attribute-IsBody no_body-IsBody 0x3818 write.locator_handle (omega arith)) 0x3819 _
            (omega arith))
          0x381A 0 (omega arith))
        0x381B 0xF0 (omega arith)))

module _ (codec : Codec) where
  pub execute_prepared-Framed :
      (h d : ℕ) (t : StatementType) (format : Option ParameterMarkerFormat)
      (bs : List ParameterBinding) (pkg : Option PackageSpec)
      → FramedFor 0x1805 h d (build_execute_prepared_request codec h d t format bs pkg)
  unfolding build_execute_prepared_request
  execute_prepared-Framed h d t format bs pkg = finish_request-Framed 0x1805 _ h d (
      append_execute_attributes-IsBody codec pkg (
        item_attribute-IsBody _ _ (data_point format bs)
          (short_attribute-IsBody no_body-IsBody 0x3812 (type_code t) (omega arith))))

  data_item-IsBody :
      (format : Option ParameterMarkerFormat) (bs : List ParameterBinding) {b : Body}
      → IsBody b
      → IsBody (data_item codec format bs b)
  data_item-IsBody format [] h = h
  data_item-IsBody format (v ∷ vs) h = item_attribute-IsBody _ _ (data_point format (v ∷ vs)) h

  hold_attributes-IsBody :
      (hold : Bool) {b : Body} → IsBody b → IsBody (hold_attributes codec hold b)
  hold_attributes-IsBody true h =
      byte_attribute-IsBody (byte_attribute-IsBody h 0x380F 0xE8 (omega arith)) 0x3830 0xE8
        (omega arith)
  hold_attributes-IsBody false h = h

  pub open_describe_prepared-Ensures :
      (h d : ℕ) (n c : Bytes) (format : Option ParameterMarkerFormat) (bs : List ParameterBinding)
      (scrollable hold : Bool) (pkg : Option PackageSpec)
      → Ensures 0x1804 h d
          (build_open_describe_prepared_request codec h d n c format bs scrollable hold pkg)
  unfolding build_open_describe_prepared_request
  open_describe_prepared-Ensures h d n c format bs scrollable hold pkg =
      named codec 0x1804 h d 0x3806 n no_body _ (omega arith) no_body-IsBody λ attr first.
        named codec 0x1804 h d 0x380B c (attribute attr no_body) _ (omega arith) first
          λ attr' second. finish_request-Framed 0x1804 _ h d (
            data_item-IsBody format bs (
              hold_attributes-IsBody hold (
                short_attribute-IsBody
                  (byte_attribute-IsBody
                    (byte_attribute-IsBody
                      (byte_attribute-IsBody (append_execute_attributes-IsBody codec pkg second)
                        0x3809 0x80 (omega arith))
                      0x3833 0xE8 (omega arith))
                    0x380A 0xD5 (omega arith))
                  0x380D _ (omega arith))))

  abbrev block_request :
      (h d : ℕ) → StatementType → Bytes → (code_point : ℕ) → Option PackageSpec → Bytes
  block_request h d t payload code_point pkg =
      finish_request 0x1805 (bit_or ors_send_reply_immediately ors_sqlca) h d (
        append_execute_attributes codec pkg record {
          bytes =
              append_llcp
                (append_short_attribute [] 0x3812 (type_code t)
                  ++ append_llcp [] code_point payload)
                0x3814 (0 ∷ 0 ∷ []);
          parms = 3;
        })

  block_request-Framed :
      (h d : ℕ) (t : StatementType) (payload : Bytes) (code_point : ℕ) (pkg : Option PackageSpec)
      → code_point < 2 ^ 16
      → FramedFor 0x1805 h d (block_request h d t payload code_point pkg)
  unfolding append_llcp
  block_request-Framed h d t payload code_point pkg small = finish_request-Framed 0x1805 _ h d (
      append_execute_attributes-IsBody codec pkg (
        item_attribute-IsBody 0x3814 (0 ∷ 0 ∷ []) (omega arith) (
          attribute-IsBody code_point payload (append_llcp [] code_point payload) small refl
            (short_attribute-IsBody no_body-IsBody 0x3812 (type_code t) (omega arith)))))

  pub block_execute-Ensures :
      (h d : ℕ) (t : StatementType) (format : Option ParameterMarkerFormat) (rows : List Row)
      (pkg : Option PackageSpec)
      → Ensures 0x1805 h d (build_block_execute_request codec h d t format rows pkg)
  unfolding build_block_execute_request
  block_execute-Ensures h d t format rows pkg =
      either (build_block_parameter_marker_data format rows) (block_data-Pointed format rows)
    where
      either :
          (made : Result (Bytes × ℕ))
          → Pointed made
          → Ensures 0x1805 h d (made >>= λ p. ok (block_request h d t p.0 p.1 pkg))
      either (err e) small = tt
      either (ok (payload, code_point)) small =
          block_request-Framed h d t payload code_point pkg small
