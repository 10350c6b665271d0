-- ===== src/Describe.antt =====
-- The description of a result set (sql.go): parseDescribePayload over the extended column descriptors and
-- the super extended data format, and what columnMeta says of a column.
pub mod Columns
pub mod Format
pub mod Tiled
pub mod Placed
pub mod Enough
pub mod Written
use i.Prelude.{
  ℕ, zero, suc, ◌+◌, ◌-◌, ◌*◌, ◌/◌, ◌%◌, ◌^◌, Bytes, List, [], ◌∷◌, Bool, true, false, not, ◌&&◌,
  ◌||◌, ◌==◌, ltb, length, if◌then◌else◌,
}
use i.Errors.{Error, Result, ok, err, ◌>>=◌, column_count_mismatch}
use i.Text.{codes, is_empty, trim_space}

-- columnMeta.
pub record ColumnMeta : Type 0 where
  pub name : Bytes
  pub name_ccsid : ℕ
  pub label : Bytes
  pub base_column_name : Bytes
  pub base_table_name : Bytes
  pub base_schema_name : Bytes
  pub sql_from_table : Bytes
  pub sql_from_schema : Bytes
  pub udt_name : Bytes
  pub sql_type : ℕ
  pub width : ℕ
  pub scale : ℕ
  pub precision : ℕ
  pub ccsid : ℕ
  pub offset : ℕ
  pub lob_max_size : ℕ
  pub updateable : ℕ
  pub searchable : ℕ
  pub is_identity : Bool
  pub is_always_generated : Bool
  pub is_part_of_any_index : Bool
  pub is_lone_unique_index : Bool
  pub is_part_of_unique_index : Bool
  pub is_expression : Bool
  pub is_primary_key : Bool
  pub is_named : Bool
  pub is_row_id : Bool
  pub is_row_change_timestamp : Bool

-- `columnMeta{}`.
abbrev pub no_column : ColumnMeta
no_column = record {
  name = [];
  name_ccsid = 0;
  label = [];
  base_column_name = [];
  base_table_name = [];
  base_schema_name = [];
  sql_from_table = [];
  sql_from_schema = [];
  udt_name = [];
  sql_type = 0;
  width = 0;
  scale = 0;
  precision = 0;
  ccsid = 0;
  offset = 0;
  lob_max_size = 0;
  updateable = 0;
  searchable = 0;
  is_identity = false;
  is_always_generated = false;
  is_part_of_any_index = false;
  is_lone_unique_index = false;
  is_part_of_unique_index = false;
  is_expression = false;
  is_primary_key = false;
  is_named = false;
  is_row_id = false;
  is_row_change_timestamp = false;
}

-- resultSetMeta.
pub record DescribedSet : Type 0 where
  pub columns : List ColumnMeta
  pub row_size : ℕ
  pub date_format : ℕ
  pub time_format : ℕ
  pub date_separator : ℕ
  pub time_separator : ℕ
  pub has_data_format : Bool

abbrev pub no_columns : ℕ → List ColumnMeta
no_columns zero = []
no_columns (suc n) = no_column ∷ no_columns n

-- ensureColumns of a count that is not negative: the columns that there are from then on.
unfoldable pub ensure_columns : ℕ → List ColumnMeta → Result (List ColumnMeta)
ensure_columns count [] = ok (no_columns count)
ensure_columns count (c ∷ cs) =
    if length (c ∷ cs) == count
    then ok (c ∷ cs)
    else err (column_count_mismatch count (length (c ∷ cs)))

-- `v & 2 ^ k != 0`.
abbrev pub has_bit : ℕ → ℕ → Bool
has_bit k v = v / 2 ^ k % 2 == 1

-- db2Type: text of CCSID 65535 is binary.
unfoldable pub db2_type : ColumnMeta → ℕ
db2_type c =
    let typ = c.sql_type / 2 * 2 in
    if not (c.ccsid == 65535)
    then typ
    else if typ == 452
    then 912
    else if typ == 448 || typ == 456
    then 908
    else typ

-- The low bit of the type.
unfoldable pub nullable : ColumnMeta → Bool
nullable c = has_bit 0 c.sql_type

-- displayName: the label, the name or the name of the base column, the first that is not blank.
unfoldable pub display_name : ColumnMeta → Bytes
display_name c =
    if not (is_empty (trim_space c.label))
    then trim_space c.label
    else if not (is_empty (trim_space c.name))
    then trim_space c.name
    else trim_space c.base_column_name

-- sumColumnLengths.
unfoldable pub sum_widths : List ColumnMeta → ℕ
sum_widths [] = 0
sum_widths (c ∷ cs) = c.width + sum_widths cs

-- The name that a table has for a number.
abbrev pub named : List (ℕ × Bytes) → ℕ → Bytes
named [] n = codes "UNKNOWN"
named ((k, name) ∷ names) n = let later = named names n in if n == k then name else later

-- The cases of databaseTypeName but that of a floating point column.
abbrev pub type_names : List (ℕ × Bytes)
type_names =
    (384, codes "DATE")
    ∷ (388, codes "TIME")
    ∷ (392, codes "TIMESTAMP")
    ∷ (396, codes "DATALINK")
    ∷ (404, codes "BLOB")
    ∷ (408, codes "CLOB")
    ∷ (412, codes "DBCLOB")
    ∷ (448, codes "VARCHAR")
    ∷ (452, codes "CHAR")
    ∷ (456, codes "LONGVARCHAR")
    ∷ (464, codes "VARGRAPHIC")
    ∷ (468, codes "GRAPHIC")
    ∷ (472, codes "LONGVARGRAPHIC")
    ∷ (484, codes "DECIMAL")
    ∷ (488, codes "NUMERIC")
    ∷ (492, codes "BIGINT")
    ∷ (496, codes "INTEGER")
    ∷ (500, codes "SMALLINT")
    ∷ (904, codes "ROWID")
    ∷ (908, codes "VARBINARY")
    ∷ (912, codes "BINARY")
    ∷ (960, codes "BLOB LOCATOR")
    ∷ (964, codes "CLOB LOCATOR")
    ∷ (968, codes "DBCLOB LOCATOR")
    ∷ (988, codes "SQLXML")
    ∷ (2452, codes "XML")
    ∷ (996, codes "DECFLOAT")
    ∷ (2436, codes "BOOLEAN")
    ∷ []

unfoldable pub database_type_name : ColumnMeta → Bytes
unfolding db2_type
database_type_name c =
    if db2_type c == 480
    then if c.width == 4 then codes "REAL" else codes "DOUBLE"
    else named type_names (db2_type c)
