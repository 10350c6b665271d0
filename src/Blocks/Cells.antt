-- ===== src/Blocks/Cells.antt =====
-- The rows that decodeCurrentRow cuts out of a block: the flags and the bytes of row i are those the
-- server wrote for it.
use i.Blocks.{
  FetchBlock, null_at, decode_column, decode_columns, decode_row, parse_result_data_payload,
}
use i.Blocks.Layout.{concat, Fits, block_of}
use i.Prelude.{
  ℕ, ◌+◌, ◌^◌, ◌<◌, ◌≤◌, ◌≡◌, refl, sym, ap, ◌∙◌, Bytes, List, [], ◌∷◌, ◌++◌, Bool, Option, some,
  length, arith, append_assoc, length-append, le→ltb_false, get_elem-append,
}
use i.Errors.{Result, ok, err, Ran, and_then}
use i.Blocks.Table.{
  Row, flags_of, bytes_of, AreRows, flags_of-append, bytes_of-append, length-flags_of,
  length-bytes_of, slice-middle, AreRows-before, AreRows-middle, put_rows_data, parse-put_rows_data,
}

module _ {S Column Value : Type 0} (decode : Column → Bytes → S → Ran S Value) where
  -- A row of its own: each column with its flag.
  unfoldable pub decode_cells : List Column → List Bool → Bytes → S → Ran S (List (Option Value))
  decode_cells [] flags row w = (ok [], w)
  decode_cells (c ∷ cs) [] row w = (ok [], w)
  decode_cells (c ∷ cs) (is_null ∷ flags) row w =
      and_then (decode_column decode c row is_null w)
        (λ value w. and_then (decode_cells cs flags row w) (λ values w. (ok (value ∷ values), w)))

  -- The columns behind one that was decoded.
  rest_behind :
      (these those : S → Ran S (List (Option Value))) (run : Ran S (Option Value))
      → ((w : S) → these w ≡ those w)
      → and_then run (λ value w. and_then (these w) (λ values w. (ok (value ∷ values), w)))
        ≡ and_then run (λ value w. and_then (those w) (λ values w. (ok (value ∷ values), w)))
  rest_behind these those (err e, w) same = refl
  rest_behind these those (ok value, w) same =
      let add : Ran S (List (Option Value)) → Ran S (List (Option Value)) =
        λ run. and_then run (λ values w. (ok (value ∷ values), w)) in
      ap add (same w)

  decode_columns-cells :
      (columns : List Column) (before flags after : List Bool) (row : Bytes)
      → length flags ≡ length columns
      → (w : S)
      → decode_columns decode columns (length before) (some (before ++ (flags ++ after))) row w
        ≡ decode_cells columns flags row w
  unfolding decode_columns decode_cells
  decode_columns-cells [] before flags after row e w = refl
  decode_columns-cells (c ∷ cs) before [] after row e w = absurd (omega (arith, e))
  decode_columns-cells (c ∷ cs) before (b ∷ flags) after row e w =
      ap start found
      ∙ rest_behind _ _ (decode_column decode c row b w) (λ w.
        shift w ∙ decode_columns-cells cs (before ++ (b ∷ [])) flags after row (omega (arith, e)) w)
    where
      flagged : Option (List Bool)
      flagged = some (before ++ (b ∷ (flags ++ after)))

      start : Result Bool → Ran S (List (Option Value))
      start flag =
          and_then (flag, w)
            (λ b w. and_then (decode_column decode c row b w) (λ value w.
              and_then (decode_columns decode cs (length before + 1) flagged row w)
                (λ values w. (ok (value ∷ values), w))))

      found : null_at (length before) flagged ≡ ok b
      found = rw (get_elem-append before b (flags ++ after), null_at) refl

      shift :
          (w : S)
          → decode_columns decode cs (length before + 1) flagged row w
            ≡ decode_columns decode cs
                (length (before ++ (b ∷ [])))
                (some ((before ++ (b ∷ [])) ++ (flags ++ after)))
                row
                w
      shift w =
          rw (append_assoc before (b ∷ []) (flags ++ after), length-append {0} before (b ∷ [])) refl

  -- A row in the middle of a block is decoded from its own flags and its own bytes.
  decode_row-middle :
      (columns : List Column) (row_size : ℕ) (before after : List Row) (flags : List Bool)
      (row : Bytes)
      → AreRows (length columns) row_size before
      → (length flags ≡ length columns) × (length row ≡ row_size)
      → (w : S)
      → decode_row decode columns
          (block_of
            (length columns)
            row_size
            (flags_of (before ++ (flags, row) ∷ after))
            (bytes_of (before ++ (flags, row) ∷ after)))
          (length before)
          w
        ≡ decode_cells columns flags row w
  unfolding decode_row
  decode_row-middle columns row_size before after flags row a (b, c) w =
      rw
        (
          flags_of-append before ((flags, row) ∷ after),
          bytes_of-append before ((flags, row) ∷ after),
          sym (length-bytes_of (length columns) row_size before a),
          sym (length-flags_of (length columns) row_size before a),
          sym c,
          le→ltb_false (length (bytes_of before ++ (row ++ bytes_of after)))
              (length (bytes_of before) + length row) fits,
          slice-middle (bytes_of before) row (bytes_of after),
        )
        (decode_columns-cells columns (concat (flags_of before)) flags (concat (flags_of after)) row
          b w)
    where
      fits :
          length (bytes_of before) + length row
          ≤ length (bytes_of before ++ (row ++ bytes_of after))
      fits = omega (
        arith,
        length-append {0} (bytes_of before) (row ++ bytes_of after),
        length-append {0} row (bytes_of after),
      )

  -- A server writes rows with a null flag for each column and row_size bytes each, in the layout of
  -- 0x380E and followed by any bytes; token, reserved word, row count, column count and row size fit
  -- their fields, and row_size times the row count is below 2^63. Then parseResultDataPayload reads a
  -- block, and decodeCurrentRow at the index of any row decodes that row's columns from its own
  -- flags and its own bytes.
  pub parse_result_data_payload-decode_row :
      (columns : List Column) (token reserved row_size : ℕ) (before after : List Row)
      (flags : List Bool) (row tail : Bytes)
      → (token < 2 ^ 32) × (reserved < 2 ^ 32)
      → (length (before ++ (flags, row) ∷ after) < 2 ^ 32)
        × (length columns < 2 ^ 16)
        × (row_size < 2 ^ 32)
      → AreRows (length columns) row_size (before ++ (flags, row) ∷ after)
      → Fits (length (before ++ (flags, row) ∷ after)) row_size
      → (w : S)
      → and_then
          (
            parse_result_data_payload (
                put_rows_data token reserved
                  (length columns)
                  row_size
                  (before ++ (flags, row) ∷ after)
                  tail),
            w,
          )
          (λ block w. decode_row decode columns block (length before) w)
        ≡ decode_cells columns flags row w
  parse_result_data_payload-decode_row columns token reserved row_size before after flags row tail
        words fields a f w =
      ap decoded (
        parse-put_rows_data token reserved (length columns) row_size
          (before ++ (flags, row) ∷ after) tail words fields a f)
      ∙ decode_row-middle columns row_size before after flags row
          (AreRows-before (length columns) row_size before _ a)
          (AreRows-middle (length columns) row_size before (flags, row) after a) w
    where
      decoded : Result FetchBlock → Ran S (List (Option Value))
      decoded parsed =
          and_then (parsed, w) (λ block w. decode_row decode columns block (length before) w)
