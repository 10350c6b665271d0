-- ===== src/Blocks/Table.antt =====
-- A table of rows, each with its null flags and its bytes, and the block that it makes.
use i.Blocks.{parse_result_data_payload}
use i.Blocks.Layout.{
  concat, IsTable, Fits, block_of, put_result_data, parse_result_data_payload-put_result_data,
}
use i.Prelude.{
  ℕ, suc, ◌+◌, ◌-◌, ◌*◌, ◌^◌, ◌<◌, ◌≡◌, refl, sym, ap, ◌∙◌, Bytes, List, [], ◌∷◌, ◌++◌, Bool,
  length, arith, append_assoc, length-append, take-append, drop-append,
}
use i.Errors.{ok}
use i.Binary.{slice, slice_ok}

-- A row: a null flag for each column, and its bytes.
abbrev pub Row : Type 0
Row = List Bool × Bytes

abbrev pub flags_of : List Row → List (List Bool)
flags_of [] = []
flags_of ((flags, bytes) ∷ rows) = flags ∷ flags_of rows

abbrev pub bytes_of : List Row → Bytes
bytes_of [] = []
bytes_of ((flags, bytes) ∷ rows) = bytes ++ bytes_of rows

abbrev pub AreRows : (columns row_size : ℕ) → List Row → Type 0
AreRows columns row_size [] = Unit {0}
AreRows columns row_size ((flags, bytes) ∷ rows) =
    ((length flags ≡ columns) × (length bytes ≡ row_size)) × AreRows columns row_size rows

pub flags_of-append :
    (xs ys : List Row) → concat (flags_of (xs ++ ys)) ≡ concat (flags_of xs) ++ concat (flags_of ys)
flags_of-append [] ys = refl
flags_of-append ((flags, bytes) ∷ xs) ys =
    ap (flags ++◌) (flags_of-append xs ys)
    ∙ sym (append_assoc flags (concat (flags_of xs)) (concat (flags_of ys)))

pub bytes_of-append : (xs ys : List Row) → bytes_of (xs ++ ys) ≡ bytes_of xs ++ bytes_of ys
bytes_of-append [] ys = refl
bytes_of-append ((flags, bytes) ∷ xs) ys =
    ap (bytes ++◌) (bytes_of-append xs ys) ∙ sym (append_assoc bytes (bytes_of xs) (bytes_of ys))

pub length-flags_of :
    (columns row_size : ℕ) (xs : List Row)
    → AreRows columns row_size xs
    → length (concat (flags_of xs)) ≡ length xs * columns
length-flags_of columns row_size [] a = omega arith
length-flags_of columns row_size ((flags, bytes) ∷ xs) ((e, f), a) = omega (
  arith,
  e,
  length-append {0} flags (concat (flags_of xs)),
  length-flags_of columns row_size xs a,
)

pub length-bytes_of :
    (columns row_size : ℕ) (xs : List Row)
    → AreRows columns row_size xs
    → length (bytes_of xs) ≡ length xs * row_size
length-bytes_of columns row_size [] a = omega arith
length-bytes_of columns row_size ((flags, bytes) ∷ xs) ((e, f), a) =
    omega (arith, f, length-append {0} bytes (bytes_of xs), length-bytes_of columns row_size xs a)

-- What stands between two parts of a list.
pub slice-middle :
    (before row after : Bytes)
    → slice (length before) (length before + length row) (before ++ (row ++ after)) ≡ ok row
slice-middle before row after =
    slice_ok (length before) (length before + length row) (before ++ (row ++ after)) (omega arith)
      (omega (arith, length-append {0} before (row ++ after), length-append {0} row after))
    ∙ (rw (cut, drop-append before (row ++ after), take-append row after) refl)
  where
    cut : length before + length row - length before ≡ length row
    cut = omega arith

pub length-flags_list : (xs : List Row) → length (flags_of xs) ≡ length xs
length-flags_list [] = refl
length-flags_list (x ∷ xs) = ap suc (length-flags_list xs)

pub flags_of-IsTable :
    (columns row_size : ℕ) (xs : List Row)
    → AreRows columns row_size xs
    → IsTable columns (flags_of xs)
flags_of-IsTable columns row_size [] a = tt
flags_of-IsTable columns row_size (x ∷ xs) ((e, f), a) = (e, flags_of-IsTable columns row_size xs a)

pub AreRows-before :
    (columns row_size : ℕ) (before after : List Row)
    → AreRows columns row_size (before ++ after)
    → AreRows columns row_size before
AreRows-before columns row_size [] after a = tt
AreRows-before columns row_size (x ∷ before) after (h, a) =
    (h, AreRows-before columns row_size before after a)

pub AreRows-middle :
    (columns row_size : ℕ) (before : List Row) (row : Row) (after : List Row)
    → AreRows columns row_size (before ++ row ∷ after)
    → (length row.0 ≡ columns) × (length row.1 ≡ row_size)
AreRows-middle columns row_size [] row after (h, a) = h
AreRows-middle columns row_size (x ∷ before) row after (h, a) =
    AreRows-middle columns row_size before row after a

abbrev pub put_rows_data : (token reserved columns row_size : ℕ) → List Row → Bytes → Bytes
put_rows_data token reserved columns row_size rows tail =
    put_result_data token reserved columns row_size (flags_of rows) (bytes_of rows) tail

pub parse-put_rows_data :
    (token reserved columns row_size : ℕ) (rows : List Row) (tail : Bytes)
    → (token < 2 ^ 32) × (reserved < 2 ^ 32)
    → (length rows < 2 ^ 32) × (columns < 2 ^ 16) × (row_size < 2 ^ 32)
    → AreRows columns row_size rows
    → Fits (length rows) row_size
    → parse_result_data_payload (put_rows_data token reserved columns row_size rows tail)
      ≡ ok (block_of columns row_size (flags_of rows) (bytes_of rows))
parse-put_rows_data token reserved columns row_size rows tail words (n, c, r) a f =
    let count : length (flags_of rows) ≡ length rows = length-flags_list rows in
    parse_result_data_payload-put_result_data token reserved columns row_size (flags_of rows)
      (bytes_of rows) tail words (omega (arith, count, n), c, r)
      (flags_of-IsTable columns row_size rows a)
      (length-bytes_of columns row_size rows a ∙ ap (◌* row_size) (sym count)) (rw (count) f)
