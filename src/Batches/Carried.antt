-- ===== src/Batches/Carried.antt =====
-- The payload of a block of rows, read by the reader of result data: both have one layout.
use i.Prelude.{
  subst, ℕ, suc, ◌*◌, ◌^◌, ◌<◌, ◌≤◌, ◌≡◌, refl, sym, ap, ◌∙◌, Bytes, List, [], ◌∷◌, ◌++◌, Bool,
  true, false, Option, none, length, length-append, append-nil, All, arith, le→ltb_false,
  if◌then◌else◌, ◌⊎◌, inl, inr,
}
use i.Errors.{Result, ok}
use i.Binary.{put_u16, put_u32}
use i.Blocks.{FetchBlock, parse_result_data_payload, parse_original_result_data_payload}
use i.Blocks.Layout.{
  put_indicators, put_rows, IsTable, block_of, parse_result_data_payload-put_result_data,
  parse_original_result_data_payload-put_original_result_data,
}
use i.Parameters.{ParameterMarkerFormat, sum_binding_lengths}
use i.Parameters.Payload.{
  parameter_marker_payload_layout, put_null, put_nulls, put_values,
  build_parameter_marker_data_payload,
}
use i.Parameters.Described.{original_layout-sum}
use i.Batches.{
  Row, same_binding_shape, different_row, put_all_nulls, put_all_values, block_payload,
  build_block_parameter_marker_data, max_block_bytes,
}
use i.Batches.Partition.{Fits, IsBlock}

-- Which values of a row are null.
abbrev pub nulls : Row → List Bool
nulls [] = []
nulls (b ∷ bs) = b.is_null ∷ nulls bs

abbrev pub all_nulls : List Row → List (List Bool)
all_nulls [] = []
all_nulls (row ∷ rows) = nulls row ∷ all_nulls rows

put_nulls-indicators : (row : Row) → put_nulls row ≡ put_indicators (nulls row)
put_nulls-indicators [] = refl
put_nulls-indicators (b ∷ bs) = either b.is_null (put_nulls-indicators bs)
  where
    either :
        (t : Bool)
        → put_nulls bs ≡ put_indicators (nulls bs)
        → put_null t ++ put_nulls bs ≡ put_indicators (t ∷ nulls bs)
    either true e = ap (λ d. put_u16 0xFFFF ++ d) e
    either false e = ap (λ d. put_u16 0 ++ d) e

put_all_nulls-rows : (rows : List Row) → put_all_nulls rows ≡ put_rows (all_nulls rows)
put_all_nulls-rows [] = refl
put_all_nulls-rows (row ∷ rows) = λ i. put_nulls-indicators row i ++ put_all_nulls-rows rows i

length-nulls : (row : Row) → length (nulls row) ≡ length row
length-nulls [] = refl
length-nulls (b ∷ bs) = ap suc (length-nulls bs)

length-all_nulls : (rows : List Row) → length (all_nulls rows) ≡ length rows
length-all_nulls [] = refl
length-all_nulls (row ∷ rows) = ap suc (length-all_nulls rows)

length-put_values : (row : Row) → length (put_values row) ≡ sum_binding_lengths row
unfolding put_values sum_binding_lengths
length-put_values [] = refl
length-put_values (b ∷ bs) =
    omega (arith, length-append {0} b.raw (put_values bs), length-put_values bs)

-- Rows of one shape have as many columns and as many bytes.
pub same_binding_shape-sizes :
    (xs ys : Row)
    → same_binding_shape xs ys ≡ true
    → (length xs ≡ length ys) × (sum_binding_lengths xs ≡ sum_binding_lengths ys)
unfolding same_binding_shape sum_binding_lengths
same_binding_shape-sizes [] [] h = (refl, refl)
same_binding_shape-sizes [] (y ∷ ys) h = cc
same_binding_shape-sizes (x ∷ xs) [] h = cc
same_binding_shape-sizes (x ∷ xs) (y ∷ ys) h = ground (arith, same_binding_shape-sizes xs ys)

same_binding_shape_self : (xs : Row) → same_binding_shape xs xs ≡ true
unfolding same_binding_shape
same_binding_shape_self [] = refl
same_binding_shape_self (x ∷ xs) = ground (arith, same_binding_shape_self xs)

module _ (first : Row) where
  table : (rows : List Row) → All (Fits first) rows → IsTable (length first) (all_nulls rows)
  table [] h = tt
  table (row ∷ rows) (h, hs) =
      (length-nulls row ∙ sym (same_binding_shape-sizes first row h).0, table rows hs)

  bytes_of_rows :
      (rows : List Row)
      → All (Fits first) rows
      → length (put_all_values rows) ≡ length rows * sum_binding_lengths first
  bytes_of_rows [] h = omega arith
  bytes_of_rows (row ∷ rows) (h, hs) =
      let one = length-put_values row in
      let same = (same_binding_shape-sizes first row h).1 in
      let later = bytes_of_rows rows hs in
      grind (arith, length-append {0} (put_values row) (put_all_values rows))

  no_different :
      (at : ℕ) (rows : List Row) → All (Fits first) rows → different_row first at rows ≡ none
  no_different at [] h = refl
  no_different at (row ∷ rows) (h, hs) = rw (h, no_different (suc at) rows hs) refl

-- The reader of result data for a layout, and the code point of the layout.
abbrev pub read_in : Bool → Bytes → Result FetchBlock
read_in true = parse_result_data_payload
read_in false = parse_original_result_data_payload

abbrev pub code_point_in : Bool → ℕ
code_point_in true = 0x381F
code_point_in false = 0x3811

-- A payload of one row, and of any number of rows, behind its header.
abbrev carried : Bool → (rows columns row_size : ℕ) → Bytes → Bytes × ℕ
carried true rows columns row_size tail = (
  put_u32 1
      ++ (put_u32 rows
          ++ (put_u16 columns ++ (put_u16 2 ++ (put_u32 0 ++ (put_u32 row_size ++ tail))))),
  0x381F,
)
carried false rows columns row_size tail = (
  put_u32 1 ++ (put_u32 rows ++ (put_u16 columns ++ (put_u16 2 ++ (put_u16 row_size ++ tail)))),
  0x3811,
)

-- A block of one row, of fewer than 2 ^ 16 columns, has the payload that the row has outside a batch.
pub build_block-build_row :
    (format : Option ParameterMarkerFormat) (row : Row)
    → length row < 2 ^ 16
    → build_block_parameter_marker_data format (row ∷ [])
      ≡ ok (build_parameter_marker_data_payload format row)
unfolding build_block_parameter_marker_data build_parameter_marker_data_payload
build_block-build_row format row few =
    rw (same_binding_shape_self row, le→ltb_false 0xFFFF (length row) (omega arith))
      (ap ok (either (parameter_marker_payload_layout format row)))
  where
    tail : (put_nulls row ++ []) ++ (put_values row ++ []) ≡ put_nulls row ++ put_values row
    tail = λ i. append-nil (put_nulls row) i ++ append-nil (put_values row) i

    either :
        (t : Bool)
        → block_payload t (row ∷ []) (length row) (sum_binding_lengths row) ≡ (
            if t
            then carried true 1
                (length row)
                (sum_binding_lengths row)
                (put_nulls row ++ put_values row)
            else carried false 1
                (length row)
                (sum_binding_lengths row)
                (put_nulls row ++ put_values row))
    either true = ap (carried true 1 (length row) (sum_binding_lengths row)) tail
    either false = ap (carried false 1 (length row) (sum_binding_lengths row)) tail

module _ (format : Option ParameterMarkerFormat) (first : Row) (others : List Row)
    (is_block : IsBlock first others) where
  -- The bytes of a block have a count that 63 bits hold.
  block_fits :
      sum_binding_lengths first < 2 ^ 32 → suc (length others) * sum_binding_lengths first < 2 ^ 63
  block_fits small = either others is_block.bytes
    where
      either :
          (rows : List Row)
          → (rows ≡ []) ⊎ (suc (length rows) * sum_binding_lengths first ≤ max_block_bytes)
          → suc (length rows) * sum_binding_lengths first < 2 ^ 63
      either rows (inl e) =
          subst (λ (rs : List Row). suc (length rs) * sum_binding_lengths first < 2 ^ 63) (sym e)
            (omega (arith, small))
      either rows (inr h) = omega (arith, h)

  -- A block's payload is made, and the reader of result data takes it apart again: as many rows and
  -- columns, which values are null, and the raw values row by row. The rows are a block of the cut,
  -- with fewer than 2 ^ 16 columns and less than 2 ^ 32 bytes to a row.
  pub build_block-read :
      length first < 2 ^ 16
      → sum_binding_lengths first < 2 ^ 32
      → (payload : Bytes) × (build_block_parameter_marker_data format (first ∷ others)
          ≡ ok (payload, code_point_in (parameter_marker_payload_layout format first)))
        × (read_in (parameter_marker_payload_layout format first) payload
            ≡ ok (
                block_of
                  (length first)
                  (sum_binding_lengths first)
                  (all_nulls (first ∷ others))
                  (put_all_values (first ∷ others))))
  unfolding build_block_parameter_marker_data
  build_block-read few small = (
    (block_payload layout (first ∷ others) (length first) (sum_binding_lengths first)).0,
    rw
        (
          same_binding_shape_self first,
          no_different first 1 others is_block.shapes,
          le→ltb_false 0xFFFF (length first) (omega arith),
        )
        (made layout),
    read layout refl,
  )
    where
      rows : List Row
      rows = first ∷ others

      shapes : All (Fits first) rows
      shapes = (same_binding_shape_self first, is_block.shapes)

      is_table : IsTable (length first) (all_nulls rows)
      is_table = table first rows shapes

      counted : length (all_nulls rows) < 2 ^ 32
      counted = omega (arith, length-all_nulls rows, is_block.rows)

      sized : length (put_all_values rows) ≡ length (all_nulls rows) * sum_binding_lengths first
      sized =
          bytes_of_rows first rows shapes
          ∙ ap (λ n. n * sum_binding_lengths first) (sym (length-all_nulls rows))

      fits_block : length (all_nulls rows) * sum_binding_lengths first < 2 ^ 63
      fits_block =
          subst (λ n. n * sum_binding_lengths first < 2 ^ 63) (sym (length-all_nulls rows))
            (block_fits small)

      written :
          (t : Bool)
          → block_payload t rows (length first) (sum_binding_lengths first)
            ≡ carried t
                (length (all_nulls rows))
                (length first)
                (sum_binding_lengths first)
                (put_rows (all_nulls rows) ++ (put_all_values rows ++ []))
      written true = λ i.
          carried true (sym (length-all_nulls rows) i) (length first) (sum_binding_lengths first)
            (put_all_nulls-rows rows i ++ sym (append-nil (put_all_values rows)) i)
      written false = λ i.
          carried false (sym (length-all_nulls rows) i) (length first) (sum_binding_lengths first)
            (put_all_nulls-rows rows i ++ sym (append-nil (put_all_values rows)) i)

      layout : Bool
      layout = parameter_marker_payload_layout format first

      made :
          (t : Bool)
          → ok (block_payload t (first ∷ others) (length first) (sum_binding_lengths first))
            ≡ ok (
              (block_payload t (first ∷ others) (length first) (sum_binding_lengths first)).0,
              code_point_in t,
            )
      made true = refl
      made false = refl

      read :
          (t : Bool)
          → parameter_marker_payload_layout format first ≡ t
          → read_in t
              (block_payload t (first ∷ others) (length first) (sum_binding_lengths first)).0
            ≡ ok (
                block_of
                  (length first)
                  (sum_binding_lengths first)
                  (all_nulls (first ∷ others))
                  (put_all_values (first ∷ others)))
      read true e =
          ap parse_result_data_payload (λ i. (written true i).0)
          ∙ parse_result_data_payload-put_result_data 1 0 (length first) (sum_binding_lengths first)
              (all_nulls rows) (put_all_values rows) [] (omega arith, omega arith)
              (counted, few, small) is_table sized (fits_block)
      read false e =
          ap parse_original_result_data_payload (λ i. (written false i).0)
          ∙ parse_original_result_data_payload-put_original_result_data 1 (length first)
              (sum_binding_lengths first) (all_nulls rows) (put_all_values rows) [] (omega arith)
              (counted, few, original_layout-sum format first e) is_table sized
