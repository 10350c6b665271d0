-- ===== src/Describe/Format.antt =====
-- parseSuperExtendedDataFormat, and parseDescribePayload above both parsers.
use i.Prelude.{ℕ, zero, suc, ◌+◌, ◌-◌, Bytes, List, [], ◌∷◌, true, false, ◌==◌, ltb, if◌then◌else◌}
use i.Errors.{Result, ok, err, ◌>>=◌, invalid_variable_field_length}
use i.Reader.{read_bytes, read_u8, read_u16, read_u32, skip}
use i.Wire.Walk.{Turn, next, done, scan}
use i.Describe.{ColumnMeta, DescribedSet, ensure_columns, has_bit, sum_widths}
use i.Describe.Columns.{parse_extended_column_descriptors}

-- The loop over the fixed parts of the fields, with the length of what is variable in each.
unfoldable pub read_fixed : List ColumnMeta → Bytes → Result (List (ColumnMeta × ℕ) × Bytes)
read_fixed [] r = ok ([], r)
read_fixed (c ∷ cs) r = do
  (size, r) ← read_u16 r
  (field_type, r) ← read_u16 r
  (field_length, r) ← read_u32 r
  (scale, r) ← read_u16 r
  (precision, r) ← read_u16 r
  (ccsid, r) ← read_u16 r
  (join_ref, r) ← read_u8 r
  (reserved, r) ← read_u16 r
  (reserved, r) ← read_u32 r
  (bitmap, r) ← read_u8 r
  (reserved, r) ← read_u32 r
  (lob_max_size, r) ← read_u32 r
  (reserved, r) ← read_u16 r
  (reserved, r) ← read_u32 r
  (variable, r) ← read_u32 r
  (reserved, r) ← read_u32 r
  (reserved, r) ← read_u32 r
  (rest, r) ← read_fixed cs r
  ok (
    (
      record c {
        sql_type = field_type;
        width = field_length;
        scale = scale;
        precision = precision;
        ccsid = ccsid;
        lob_max_size = lob_max_size;
        is_named = has_bit 7 bitmap;
      },
      variable,
    )
        ∷ rest,
    r,
  )

-- The loop that sets the offsets.
unfoldable pub place : ℕ → List (ColumnMeta × ℕ) → List (ColumnMeta × ℕ)
place offset [] = []
place offset ((c, n) ∷ cs) = (record c { offset = offset }, n) ∷ place (offset + c.width) cs

abbrev pub columns_of : List (ColumnMeta × ℕ) → List ColumnMeta
columns_of [] = []
columns_of ((c, n) ∷ cs) = c ∷ columns_of cs

abbrev pub with_name : (code_point ccsid : ℕ) → Bytes → ColumnMeta → ColumnMeta
with_name code_point ccsid name c =
    if code_point == 0x3840
    then record c { name = name; name_ccsid = ccsid }
    else if code_point == 0x3841
    then record c { udt_name = name }
    else c

module _ (decode : Bytes → ℕ → Result Bytes) where
  -- A round of the loop over the variable fields: its length, the column, and what is left.
  abbrev pub read_variable : ColumnMeta → Bytes → Result (ℕ × ColumnMeta × Bytes)
  read_variable c r = do
    (size, r) ← read_u32 r
    (code_point, r) ← read_u16 r
    (ccsid, r) ← read_u16 r
    (bytes, r) ←
        (if ltb size 8 then err (invalid_variable_field_length size) else read_bytes (size - 8) r)
    name ← decode bytes ccsid
    ok (size, with_name code_point ccsid name c, r)

  -- `for remaining > 0`. A field takes eight bytes at least, so that as many rounds as bytes are
  -- enough.
  unfoldable pub read_variables :
      (rounds remaining : ℕ) → ColumnMeta → Bytes → Result (ColumnMeta × Bytes)
  read_variables rounds zero c r = ok (c, r)
  read_variables zero (suc remaining) c r = ok (c, r)
  read_variables (suc rounds) (suc remaining) c r =
      if ltb (suc remaining) 8
      then (skip (suc remaining) r >>= λ r'. ok (c, r'))
      else (read_variable c r >>= λ p. read_variables rounds (suc remaining - p.0) p.1 p.2)

  -- The loop over the variable parts.
  unfoldable pub read_names : List (ColumnMeta × ℕ) → Bytes → Result (List ColumnMeta × Bytes)
  read_names [] r = ok ([], r)
  read_names ((c, n) ∷ cs) r = do
    (c, r) ← read_variables n n c r
    (cs, r) ← read_names cs r
    ok (c ∷ cs, r)

  unfoldable pub parse_super_extended_data_format : Bytes → DescribedSet → Result DescribedSet
  parse_super_extended_data_format payload meta = do
    (token, r) ← read_u32 payload
    (count, r) ← read_u32 r
    (date_format, r) ← read_u8 r
    (time_format, r) ← read_u8 r
    (date_separator, r) ← read_u8 r
    (time_separator, r) ← read_u8 r
    (record_size, r) ← read_u32 r
    columns ← ensure_columns count meta.columns
    (fixed, r) ← read_fixed columns r
    (named, r) ← read_names (place 0 fixed) r
    ok record {
      columns = named;
      row_size = if record_size == 0 then sum_widths (columns_of fixed) else record_size;
      date_format = date_format;
      time_format = time_format;
      date_separator = date_separator;
      time_separator = time_separator;
      has_data_format = true;
    }

  abbrev pub go_on : Result DescribedSet → Turn DescribedSet (Result DescribedSet)
  go_on (err e) = done (err e)
  go_on (ok meta) = next meta

  abbrev pub describe_round : ℕ → Bytes → DescribedSet → Turn DescribedSet (Result DescribedSet)
  describe_round code_point payload meta =
      if code_point == 0x3811
      then go_on (parse_extended_column_descriptors decode payload meta)
      else if code_point == 0x3812
      then go_on (parse_super_extended_data_format payload meta)
      else next meta

  abbrev pub with_row_size : DescribedSet → DescribedSet
  with_row_size meta =
      if meta.row_size == 0 then record meta { row_size = sum_widths meta.columns } else meta

  abbrev pub no_set : DescribedSet
  no_set = record {
    columns = [];
    row_size = 0;
    date_format = 0;
    time_format = 0;
    date_separator = 0;
    time_separator = 0;
    has_data_format = false;
  }

  unfoldable pub parse_describe_payload : Bytes → Result DescribedSet
  parse_describe_payload payload =
      scan 1 (λ e. err e) (λ meta. ok (with_row_size meta)) describe_round payload no_set
