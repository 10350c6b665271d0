-- ===== src/Blocks.antt =====
-- The result data of a fetch (sql.go): parseFetchPayload, its two block layouts, and the row that
-- decodeCurrentRow cuts out of a block.
pub mod Layout
pub mod Table
pub mod Cells
use i.Prelude.{
  ℕ, zero, suc, ◌+◌, ◌*◌, ◌%◌, ◌^◌, Bytes, List, [], ◌∷◌, ◌++◌, Bool, true, false, ◌&&◌, ◌||◌, ◌==◌,
  Option, none, some, length, get_elem?, take, drop, replicate, ltb, leb, if◌then◌else◌,
}
use i.Errors.{Error, Result, ok, err, ◌>>=◌, ◌>>◌, panic, row_offset_out_of_range, Ran, and_then}
use i.Binary.{be, slice}
use i.Reader.{read_bytes, read_u16, read_u32}
use i.Wire.Walk.{Turn, next, done, scan}

pub record FetchBlock : Type 0 where
  pub row_count : ℕ
  pub column_count : ℕ
  pub indicator_size : ℕ
  pub row_size : ℕ
  pub nulls : Option (List Bool)
  pub bytes : Bytes
  pub cursor_closed : Bool
  pub end_of_data : Bool

-- The length of `make([]T, a*b)` on 64-bit ints: one that comes out negative panics. How much memory
-- there is to make it from is not modelled.
unfoldable pub make_length : ℕ → ℕ → Result ℕ
make_length a b = let n = a * b % 2 ^ 64 in if ltb n (2 ^ 63) then ok n else err panic

-- Whether an indicator of two bytes or more says that its column is null.
abbrev pub is_null : ℕ → Bytes → Bool
is_null indicator_size indicator = leb 2 indicator_size && be (take 2 indicator) == 0xFFFF

-- The loop over the columns of a row.
unfoldable pub read_row_nulls : (columns indicator_size : ℕ) → Bytes → Result (List Bool × Bytes)
read_row_nulls zero indicator_size r = ok ([], r)
read_row_nulls (suc columns) indicator_size r = do
  (indicator, r) ← read_bytes indicator_size r
  (nulls, r) ← read_row_nulls columns indicator_size r
  ok (is_null indicator_size indicator ∷ nulls, r)

-- The loop over the rows.
unfoldable pub read_nulls : (rows columns indicator_size : ℕ) → Bytes → Result (List Bool × Bytes)
read_nulls zero columns indicator_size r = ok ([], r)
read_nulls (suc rows) columns indicator_size r = do
  (first, r) ← read_row_nulls columns indicator_size r
  (nulls, r) ← read_nulls rows columns indicator_size r
  ok (first ++ nulls, r)

-- Without indicators no column is null, and nothing is read.
abbrev pub read_indicators : (rows columns indicator_size : ℕ) → Bytes → Result (List Bool × Bytes)
read_indicators rows columns indicator_size r =
    if indicator_size == 0
    then ok (replicate (rows * columns) false, r)
    else read_nulls rows columns indicator_size r

unfoldable pub parse_result_data_block :
    (row_count column_count indicator_size row_size : ℕ) → Bytes → Result FetchBlock
parse_result_data_block row_count column_count indicator_size row_size r = do
  flags ← make_length row_count column_count
  size ← make_length row_count row_size
  (nulls, r) ← read_indicators row_count column_count indicator_size r
  (bytes, r) ← read_bytes size r
  ok record {
    row_count = row_count;
    column_count = column_count;
    indicator_size = indicator_size;
    row_size = row_size;
    nulls = some nulls;
    bytes = bytes;
    cursor_closed = false;
    end_of_data = false;
  }

unfoldable pub parse_original_result_data_payload : Bytes → Result FetchBlock
parse_original_result_data_payload payload = do
  (token, r) ← read_u32 payload
  (row_count, r) ← read_u32 r
  (column_count, r) ← read_u16 r
  (indicator_size, r) ← read_u16 r
  (row_size, r) ← read_u16 r
  parse_result_data_block row_count column_count indicator_size row_size r

unfoldable pub parse_result_data_payload : Bytes → Result FetchBlock
parse_result_data_payload payload = do
  (token, r) ← read_u32 payload
  (row_count, r) ← read_u32 r
  (column_count, r) ← read_u16 r
  (indicator_size, r) ← read_u16 r
  (reserved, r) ← read_u32 r
  (row_size, r) ← read_u32 r
  parse_result_data_block row_count column_count indicator_size row_size r

-- `&fetchBlock{}`.
abbrev pub no_block : FetchBlock
no_block = record {
  row_count = 0;
  column_count = 0;
  indicator_size = 0;
  row_size = 0;
  nulls = none;
  bytes = [];
  cursor_closed = false;
  end_of_data = false;
}

abbrev pub fetch_round : ℕ → Bytes → Unit {0} → Turn (Unit {0}) (Result FetchBlock)
fetch_round code_point payload s =
    if code_point == 0x380E
    then done (parse_result_data_payload payload)
    else if code_point == 0x3806
    then done (parse_original_result_data_payload payload)
    else next s

unfoldable pub parse_fetch_payload : Bytes → Result FetchBlock
parse_fetch_payload payload = scan 1 (λ e. err e) (λ s. ok no_block) fetch_round payload tt

-- `Nulls != nil && Nulls[index]`, which panics out of range.
abbrev pub null_at : ℕ → Option (List Bool) → Result Bool
null_at index none = ok false
null_at index (some nulls) = elim (get_elem? nulls index) [ none ↦ err panic | some b ↦ ok b ]

-- decodeCurrentRow on a block: `decode` is decodeColumnValueWithBidi, then resolveLobLocatorValue,
-- which works on the connection, whose state is S.
module _ {S Column Value : Type 0} (decode : Column → Bytes → S → Ran S Value) where
  abbrev pub decode_column : Column → Bytes → Bool → S → Ran S (Option Value)
  decode_column column row true w = (ok none, w)
  decode_column column row false w = and_then (decode column row w) (λ v w. (ok (some v), w))

  -- The columns from `index` on, with the flag of each at its place in the row's flags.
  unfoldable pub decode_columns :
      List Column → ℕ → Option (List Bool) → Bytes → S → Ran S (List (Option Value))
  decode_columns [] index nulls row w = (ok [], w)
  decode_columns (c ∷ cs) index nulls row w =
      and_then (null_at index nulls, w)
        (λ is_null w. and_then (decode_column c row is_null w) (λ value w.
          and_then (decode_columns cs (index + 1) nulls row w)
            (λ values w. (ok (value ∷ values), w))))

  unfoldable pub decode_row : List Column → FetchBlock → ℕ → S → Ran S (List (Option Value))
  decode_row columns block row_index w =
      let offset = row_index * block.row_size in
      if ltb (length block.bytes) (offset + block.row_size)
      then (err row_offset_out_of_range, w)
      else and_then (slice offset (offset + block.row_size) block.bytes, w)
          (λ row w. decode_columns columns (row_index * length columns) block.nulls row w)
