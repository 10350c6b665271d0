-- ===== src/Tests/DescribeTests.antt =====
-- A data format of two columns with names.
use i.Prelude.{true, ◌<◌, ◌^◌, List, ℕ, ◌≡◌, refl, Bytes, [], ◌∷◌, ◌++◌, replicate, arith}
use i.Errors.{Result, ok, err}
use i.Text.{codes}
use i.Binary.{put_u16, put_u32, uint16_at, uint32_at}
use i.Reader.{read_bytes, read_u8, read_u16, read_u32, skip}
use i.Wire.Walk.{scan}
use i.Wire.{append_llcp, parse_llcp}
use i.Describe.{ColumnMeta, DescribedSet, no_column, ensure_columns, sum_widths, database_type_name}
use i.Describe.Format.{
  read_fixed, place, read_variables, read_names, parse_super_extended_data_format,
  parse_describe_payload, no_set,
}
use i.Describe.Tiled.{Tiled}
use i.Describe.Placed.{parse_describe_payload-Tiled}
use i.Describe.Written.{
  ServerColumn, Fits, Format, put_format, parse_super_extended_data_format-put_format,
}

abbrev as_it_is : Bytes → ℕ → Result Bytes
as_it_is text ccsid = ok text

-- The fixed part of a column with a name of one byte.
abbrev fixed : (field_type field_length : ℕ) → Bytes
fixed field_type field_length =
    put_u16 48
    ++ (put_u16 field_type
        ++ (put_u32 field_length
            ++ (replicate 6 0
                ++ (replicate 12 0 ++ (replicate 10 0 ++ (put_u32 9 ++ replicate 8 0))))))

abbrev name_of : ℕ → Bytes
name_of c = put_u32 9 ++ (put_u16 0x3840 ++ (put_u16 37 ++ (c ∷ [])))

abbrev payload : Bytes
payload =
    put_u32 1
    ++ (put_u32 2
        ++ (replicate 8 0 ++ (fixed 496 4 ++ (fixed 452 10 ++ (name_of b'A' ++ name_of b'B')))))

abbrev columns_read : Result DescribedSet → Bytes
columns_read (ok m) = names m.columns
  where
    names : List ColumnMeta → Bytes
    names [] = []
    names (c ∷ cs) = c.offset ∷ (c.name ++ names cs)
columns_read (err e) = 99 ∷ []

described :
    columns_read (parse_super_extended_data_format as_it_is payload (no_set as_it_is))
    ≡ 0 ∷ b'A' ∷ 4 ∷ b'B' ∷ []
unfolding parse_super_extended_data_format read_fixed read_names read_variables place ensure_columns
    read_bytes read_u8 read_u16 read_u32 skip sum_widths
described = refl

abbrev first_column : ColumnMeta
first_column = record no_column { name = codes "A"; name_ccsid = 37; sql_type = 496; width = 4 }

abbrev second_column : ColumnMeta
second_column = record no_column {
  name = codes "B";
  name_ccsid = 37;
  sql_type = 452;
  width = 10;
  offset = 4;
}

abbrev described_set : DescribedSet
described_set = record {
  columns = first_column ∷ second_column ∷ [];
  row_size = 14;
  date_format = 0;
  time_format = 0;
  date_separator = 0;
  time_separator = 0;
  has_data_format = true;
}

answered : parse_describe_payload as_it_is (append_llcp [] 0x3812 payload) ≡ ok described_set
unfolding parse_describe_payload parse_super_extended_data_format read_fixed read_names
    read_variables place ensure_columns read_bytes read_u8 read_u16 read_u32 skip sum_widths scan
    append_llcp parse_llcp uint32_at uint16_at
answered = refl

parse_describe_payload-Tiled_example : Tiled 0 (first_column ∷ second_column ∷ [])
parse_describe_payload-Tiled_example =
    parse_describe_payload-Tiled as_it_is (append_llcp [] 0x3812 payload) answered

abbrev server_column : (column_type size : ℕ) → Bytes → ServerColumn
server_column column_type size name = record {
  column_type = column_type;
  size = size;
  scale = 0;
  precision = 0;
  ccsid = 0;
  bitmap = 0;
  lob_size = 0;
  raw_name = name;
  name_ccsid = 37;
  text = name;
}

abbrev server_columns : List ServerColumn
server_columns = server_column 496 4 (codes "A") ∷ server_column 452 10 (codes "B") ∷ []

abbrev server_format : Format
server_format = record {
  token = 1;
  record_size = 0;
  date_format = 0;
  time_format = 0;
  date_separator = 0;
  time_separator = 0;
}

server_column-Fits :
    (column_type size c : ℕ)
    → column_type < 2 ^ 16
    → size < 2 ^ 32
    → Fits as_it_is (server_column column_type size (c ∷ []))
server_column-Fits column_type size c typed sized = record {
  column_type = typed;
  size = sized;
  scale = omega arith;
  precision = omega arith;
  ccsid = omega arith;
  lob_size = omega arith;
  name_ccsid = omega arith;
  short = omega arith;
  decodes = refl;
}

parse_super_extended_data_format-put_format_example :
    parse_super_extended_data_format as_it_is
      (put_format server_format server_columns)
      (no_set as_it_is)
    ≡ ok described_set
parse_super_extended_data_format-put_format_example =
    parse_super_extended_data_format-put_format as_it_is server_format server_columns (omega arith)
      (omega arith) (omega arith)
      (
        server_column-Fits 496 4 b'A' (omega arith) (omega arith),
        (server_column-Fits 452 10 b'B' (omega arith) (omega arith), tt),
      )

type_name : database_type_name second_column ≡ codes "CHAR"
unfolding database_type_name
type_name = refl
