-- ===== src/Batches.antt =====
-- Batches (batch.go): the tests that let a statement be sent in blocks of rows, the cut of the bound rows
-- into blocks, and the payload and the request of a block.
pub mod Partition
pub mod Carried
pub mod Blockable
use Prim.Native.Nat.{bit_or}
use i.Prelude.{
  ℕ, zero, suc, ◌+◌, ◌*◌, ◌%◌, ◌^◌, Bytes, List, [], ◌∷◌, ◌++◌, Bool, true, false, not, ◌&&◌, ◌||◌,
  ◌==◌, ltb, Option, none, some, length, take, drop, if◌then◌else◌,
}
use i.Errors.{
  Error, Result, ok, err, ◌>>=◌, ◌>>◌, fail_if, block_has_no_rows, block_row_has_different_shape,
  block_has_too_many_columns,
}
use i.Binary.{put_u16, put_u32}
use i.Wire.{append_llcp}
use i.Request.Attributes.{
  Codec, PackageSpec, Body, append_short_attribute, append_execute_attributes,
}
use i.Request.Statements.{
  StatementType, type_code, finish_request, ors_send_reply_immediately, ors_sqlca,
}
use i.Parameters.{ParameterMarkerFormat, ParameterBinding, sum_binding_lengths}
use i.Parameters.Payload.{parameter_marker_payload_layout, put_nulls, put_values}

abbrev pub max_block_rows : ℕ
max_block_rows = 32000

abbrev pub max_block_bytes : ℕ
max_block_bytes = 2 ^ 20

abbrev pub Row : Type 0
Row = List ParameterBinding

-- sameBindingShape: as many columns, and raw values of the same lengths.
unfoldable pub same_binding_shape : Row → Row → Bool
same_binding_shape [] [] = true
same_binding_shape [] (b ∷ bs) = false
same_binding_shape (a ∷ as') [] = false
same_binding_shape (a ∷ as') (b ∷ bs) = (length a.raw == length b.raw) && same_binding_shape as' bs

-- The loop of blockEnd over the rows behind the first, with the number `size` of rows taken so far,
-- which is `end - start`.
unfoldable pub block_size : (first : Row) (size : ℕ) → List Row → ℕ
block_size first size [] = size
block_size first size (row ∷ rows) =
    let longer = block_size first (suc size) rows in
    if not (ltb size max_block_rows)
    then size
    else if not (same_binding_shape first row)
    then size
    else if ltb max_block_bytes ((size + 1) * sum_binding_lengths first)
    then size
    else longer

-- The block that starts at the first row, and the rows behind it.
abbrev pub first_block : Row → List Row → List Row × List Row
first_block first rows =
    let size = block_size first 1 rows in (take size (first ∷ rows), drop size (first ∷ rows))

-- `for start := 0; start < len(bound);` of execBatchBlocks: `exec` is execBlock. What was counted so far
-- comes with the error of a block. A round takes a row at least, so that as many rounds as rows
-- are enough.
module _ {S : Type 0} (exec : List Row → S → Result ℕ × S) where
  unfoldable pub exec_blocks : (rounds total : ℕ) → List Row → S → (ℕ × Option Error) × S
  exec_blocks rounds total [] w = ((total, none), w)
  exec_blocks zero total (first ∷ rows) w = ((total, none), w)
  exec_blocks (suc rounds) total (first ∷ rows) w =
      let (block, rest) = first_block first rows in
      let (answer, w') = exec block w in
      elim answer [ err e ↦ ((total, some e), w') | ok n ↦ exec_blocks rounds (total + n) rest w' ]

-- The first row that has another shape than the first one.
abbrev pub different_row : Row → ℕ → List Row → Option ℕ
different_row first r [] = none
different_row first r (row ∷ rows) =
    let later = different_row first (suc r) rows in
    if same_binding_shape first row then later else some r

abbrev pub check_shapes : Option ℕ → Result (Unit {0})
check_shapes none = ok tt
check_shapes (some r) = err (block_row_has_different_shape r)

abbrev pub put_all_nulls : List Row → Bytes
put_all_nulls [] = []
put_all_nulls (row ∷ rows) = put_nulls row ++ put_all_nulls rows

abbrev pub put_all_values : List Row → Bytes
put_all_values [] = []
put_all_values (row ∷ rows) = put_values row ++ put_all_values rows

-- buildBlockParameterMarkerData.
abbrev pub block_payload : Bool → (rows : List Row) (columns row_size : ℕ) → Bytes × ℕ
block_payload true rows columns row_size = (
  put_u32 1
      ++ (put_u32 (length rows)
          ++ (put_u16 columns
              ++ (put_u16 2
                  ++ (put_u32 0
                      ++ (put_u32 row_size ++ (put_all_nulls rows ++ put_all_values rows)))))),
  0x381F,
)
block_payload false rows columns row_size = (
  put_u32 1
      ++ (put_u32 (length rows)
          ++ (put_u16 columns
              ++ (put_u16 2 ++ (put_u16 row_size ++ (put_all_nulls rows ++ put_all_values rows))))),
  0x3811,
)

unfoldable pub build_block_parameter_marker_data :
    Option ParameterMarkerFormat → List Row → Result (Bytes × ℕ)
build_block_parameter_marker_data format [] = err block_has_no_rows
build_block_parameter_marker_data format (first ∷ rows) =
    check_shapes (different_row first 0 (first ∷ rows))
    >> (fail_if (ltb 0xFFFF (length first)) block_has_too_many_columns
        >> ok (
            block_payload (parameter_marker_payload_layout format first) (first ∷ rows)
              (length first) (sum_binding_lengths first)))

-- buildBlockExecuteRequest.
unfoldable pub build_block_execute_request :
    Codec
    → (statement_handle descriptor_handle : ℕ) → StatementType
    → Option ParameterMarkerFormat
    → List Row
    → Option PackageSpec
    → Result Bytes
build_block_execute_request codec statement_handle descriptor_handle statement_type format rows
      pkg =
    do
      (payload, code_point) ← build_block_parameter_marker_data format rows
      let body =
          append_llcp
            (append_short_attribute [] 0x3812 (type_code statement_type)
              ++ append_llcp [] code_point payload)
            0x3814 (0 ∷ 0 ∷ [])
      ok (
          finish_request 0x1805 (bit_or ors_send_reply_immediately ors_sqlca) statement_handle
            descriptor_handle
            (append_execute_attributes codec pkg (record { bytes = body; parms = 3 })))
