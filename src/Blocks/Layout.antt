-- ===== src/Blocks/Layout.antt =====
-- What the server writes for a block of result data, and that parse_result_data_payload reads it back.
use i.Blocks.{
  FetchBlock, is_null, make_length, read_row_nulls, read_nulls, parse_result_data_block,
  parse_original_result_data_payload, parse_result_data_payload,
}
use i.Prelude.{
  ℕ, ◌*◌, ◌%◌, ◌^◌, ◌<◌, ◌≤◌, ◌≡◌, refl, sym, ◌∙◌, Bytes, List, [], ◌∷◌, ◌++◌, Bool, true, false,
  some, length, arith, append_assoc, lt→ltb,
}
use native.Mathlib.Nat.{mul-le-mul_left}
use i.Errors.{ok}
use i.Binary.{put_u16, put_u32}
use i.Reader.{read_bytes, read_bytes-append, read_u16-then, read_u32-then}

-- The indicator of a column.
abbrev pub put_indicator : Bool → Bytes
put_indicator true = put_u16 0xFFFF
put_indicator false = put_u16 0

abbrev pub put_indicators : List Bool → Bytes
put_indicators [] = []
put_indicators (b ∷ bs) = put_indicator b ++ put_indicators bs

abbrev pub put_rows : List (List Bool) → Bytes
put_rows [] = []
put_rows (row ∷ rows) = put_indicators row ++ put_rows rows

abbrev pub concat : List (List Bool) → List Bool
concat [] = []
concat (row ∷ rows) = row ++ concat rows

-- Every row has a flag for each column.
abbrev pub IsTable : ℕ → List (List Bool) → Type 0
IsTable columns [] = Unit {0}
IsTable columns (row ∷ rows) = (length row ≡ columns) × IsTable columns rows

read_indicator :
    (b : Bool) (r : Bytes) → read_bytes 2 (put_indicator b ++ r) ≡ ok (put_indicator b, r)
read_indicator true r = read_bytes-append (put_u16 0xFFFF) r
read_indicator false r = read_bytes-append (put_u16 0) r

is_null_indicator : (b : Bool) → is_null 2 (put_indicator b) ≡ b
is_null_indicator true = refl
is_null_indicator false = refl

pub read_row_nulls-put_indicators :
    (row : List Bool) (r : Bytes)
    → read_row_nulls (length row) 2 (put_indicators row ++ r) ≡ ok (row, r)
unfolding read_row_nulls
read_row_nulls-put_indicators [] r = refl
read_row_nulls-put_indicators (b ∷ row) r = rw (
  append_assoc (put_indicator b) (put_indicators row) r,
  read_indicator b (put_indicators row ++ r),
  read_row_nulls-put_indicators row r,
  is_null_indicator b,
)

pub read_nulls-put_rows :
    (columns : ℕ) (rows : List (List Bool)) (r : Bytes)
    → IsTable columns rows
    → read_nulls (length rows) columns 2 (put_rows rows ++ r) ≡ ok (concat rows, r)
unfolding read_nulls
read_nulls-put_rows columns [] r t = refl
read_nulls-put_rows columns (row ∷ rows) r (t, ts) = rw (
  append_assoc (put_indicators row) (put_rows rows) r,
  sym t,
  read_row_nulls-put_indicators row (put_rows rows ++ r),
  t,
  read_nulls-put_rows columns rows r ts,
)

-- The block that a table of null flags and the bytes of its rows make.
abbrev pub block_of : (columns row_size : ℕ) → List (List Bool) → Bytes → FetchBlock
block_of columns row_size rows bytes = record {
  row_count = length rows;
  column_count = columns;
  indicator_size = 2;
  row_size = row_size;
  nulls = some (concat rows);
  bytes = bytes;
  cursor_closed = false;
  end_of_data = false;
}

abbrev pub put_block : List (List Bool) → Bytes → Bytes → Bytes
put_block rows bytes tail = put_rows rows ++ (bytes ++ tail)

-- A table that a 64-bit int can count.
abbrev pub Fits : ℕ → ℕ → Type 0
Fits a b = a * b < 2 ^ 63

-- Counts of four and of two bytes have a product that an int holds.
fit_columns : (a b : ℕ) → a < 2 ^ 32 → b < 2 ^ 16 → Fits a b
fit_columns a b h k =
    let wide : a * b ≤ a * 2 ^ 16 = mul-le-mul_left a (omega (arith, k)) in omega (arith, wide, h)

make_length_ok : (a b : ℕ) → Fits a b → make_length a b ≡ ok (a * b)
unfolding make_length
make_length_ok a b h =
    let small : a * b % 2 ^ 64 ≡ a * b = omega (arith, h) in rw (small, lt→ltb (a * b) (2 ^ 63) h)

pub parse_result_data_block-put_block :
    (columns row_size : ℕ) (rows : List (List Bool)) (bytes tail : Bytes)
    → IsTable columns rows
    → length bytes ≡ length rows * row_size
    → Fits (length rows) columns
    → Fits (length rows) row_size
    → parse_result_data_block (length rows) columns 2 row_size (put_block rows bytes tail)
      ≡ ok (block_of columns row_size rows bytes)
unfolding parse_result_data_block
parse_result_data_block-put_block columns row_size rows bytes tail t e f g = rw (
  make_length_ok (length rows) columns f,
  make_length_ok (length rows) row_size g,
  read_nulls-put_rows columns rows (bytes ++ tail) t,
  sym e,
  read_bytes-append bytes tail,
)

-- The payload of an item 0x380E.
abbrev pub put_result_data :
    (token reserved columns row_size : ℕ) → List (List Bool) → Bytes → Bytes → Bytes
put_result_data token reserved columns row_size rows bytes tail =
    put_u32 token
    ++ (put_u32 (length rows)
        ++ (put_u16 columns
            ++ (put_u16 2
                ++ (put_u32 reserved ++ (put_u32 row_size ++ put_block rows bytes tail)))))

-- The payload of an item 0x3806.
abbrev pub put_original_result_data :
    (token columns row_size : ℕ) → List (List Bool) → Bytes → Bytes → Bytes
put_original_result_data token columns row_size rows bytes tail =
    put_u32 token
    ++ (put_u32 (length rows)
        ++ (put_u16 columns ++ (put_u16 2 ++ (put_u16 row_size ++ put_block rows bytes tail))))

-- Where the flags of every row are as many as the columns, the bytes as many as the rows need, and all of
-- them in the range of their fields, the layout 0x380E is read back.
pub parse_result_data_payload-put_result_data :
    (token reserved columns row_size : ℕ) (rows : List (List Bool)) (bytes tail : Bytes)
    → (token < 2 ^ 32) × (reserved < 2 ^ 32)
    → (length rows < 2 ^ 32) × (columns < 2 ^ 16) × (row_size < 2 ^ 32)
    → IsTable columns rows
    → length bytes ≡ length rows * row_size
    → Fits (length rows) row_size
    → parse_result_data_payload (put_result_data token reserved columns row_size rows bytes tail)
      ≡ ok (block_of columns row_size rows bytes)
unfolding parse_result_data_payload
parse_result_data_payload-put_result_data token reserved columns row_size rows bytes tail (a, b)
      (c, d, g) t e f =
    read_u32-then token _ _ a
    ∙ read_u32-then (length rows) _ _ c
    ∙ read_u16-then columns _ _ d
    ∙ read_u16-then 2 _ _ (omega arith)
    ∙ read_u32-then reserved _ _ b
    ∙ read_u32-then row_size _ _ g
    ∙ parse_result_data_block-put_block columns row_size rows bytes tail t e
        (fit_columns (length rows) columns c d) f

-- The layout 0x3806, whose row size has two bytes, is read back likewise.
pub parse_original_result_data_payload-put_original_result_data :
    (token columns row_size : ℕ) (rows : List (List Bool)) (bytes tail : Bytes)
    → token < 2 ^ 32
    → (length rows < 2 ^ 32) × (columns < 2 ^ 16) × (row_size < 2 ^ 16)
    → IsTable columns rows
    → length bytes ≡ length rows * row_size
    → parse_original_result_data_payload
        (put_original_result_data token columns row_size rows bytes tail)
      ≡ ok (block_of columns row_size rows bytes)
unfolding parse_original_result_data_payload
parse_original_result_data_payload-put_original_result_data token columns row_size rows bytes tail a
      (c, d, g) t e =
    read_u32-then token _ _ a
    ∙ read_u32-then (length rows) _ _ c
    ∙ read_u16-then columns _ _ d
    ∙ read_u16-then 2 _ _ (omega arith)
    ∙ read_u16-then row_size _ _ g
    ∙ parse_result_data_block-put_block columns row_size rows bytes tail t e
        (fit_columns (length rows) columns c d) (fit_columns (length rows) row_size c g)
