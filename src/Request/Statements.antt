-- ===== src/Request/Statements.antt =====
-- What the build functions share: the ORS bits, the classification of a statement, the default
-- cursor name, and the header and template in front of a body.
use i.Prelude.{
  ℕ, zero, suc, ◌+◌, ◌%◌, ◌^◌, Bytes, [], ◌∷◌, ◌++◌, length, true, false, ◌||◌, ◌==◌, if◌then◌else◌,
}
use i.Text.{codes, trim_space, to_upper, has_prefix, hex}
use i.Wire.{build_header}
use i.Request.Attributes.{append_request_template, Body}

abbrev pub database_server_id : ℕ
database_server_id = 0xE004

-- The ORS bitmap bits.
abbrev pub ors_send_reply_immediately : ℕ
ors_send_reply_immediately = 0x80000000

abbrev pub ors_data_format : ℕ
ors_data_format = 0x08000000

abbrev pub ors_result_data : ℕ
ors_result_data = 0x04000000

abbrev pub ors_sqlca : ℕ
ors_sqlca = 0x02000000

abbrev pub ors_parameter_marker_format : ℕ
ors_parameter_marker_format = 0x00800000

abbrev pub ors_reply_rle_compressed : ℕ
ors_reply_rle_compressed = 0x00040000

abbrev pub ors_extended_column_descriptors : ℕ
ors_extended_column_descriptors = 0x00020000

abbrev pub ors_return_result_set_attributes : ℕ
ors_return_result_set_attributes = 0x00008000

-- The statement types of `classifySQLStatement`.
pub data StatementType : Type 0 where
  unknown insert_update_delete select call : StatementType

abbrev pub type_code : StatementType → ℕ
type_code unknown = 0
type_code insert_update_delete = 1
type_code select = 2
type_code call = 3

-- `for len(text) > 0 && text[0] == '(' { text = TrimSpace(text[1:]) }`, with a round for each byte.
unfoldable pub open_parentheses : ℕ → Bytes → Bytes
open_parentheses zero text = text
open_parentheses (suc fuel) [] = []
open_parentheses (suc fuel) (c ∷ text) = elim (c == b'(') [
  | true ↦ open_parentheses fuel (trim_space text)
  | false ↦ c ∷ text
]

unfoldable pub classify_sql_statement : Bytes → StatementType
unfolding open_parentheses trim_space to_upper has_prefix
classify_sql_statement sql =
    let upper_sql = to_upper (trim_space sql) in
    let text = open_parentheses (length upper_sql) upper_sql in
    if has_prefix text (codes "SELECT")
      || has_prefix text (codes "VALUES")
      || has_prefix text (codes "WITH")
    then select
    else if has_prefix text (codes "INSERT")
        || has_prefix text (codes "UPDATE")
        || has_prefix text (codes "DELETE")
        || has_prefix text (codes "MERGE")
    then insert_update_delete
    else if has_prefix text (codes "CALL")
    then call
    else unknown

-- `cursorNameForStatement`.
unfoldable pub cursor_name_for_statement : ℕ → Bytes
cursor_name_for_statement statement_handle = codes "CRSR" ++ hex 8 statement_handle

-- `buildHeader(uint32(40+len(body)), …)`, the template and the body.
unfoldable pub finish_request : ℕ → ℕ → ℕ → ℕ → Body → Bytes
finish_request function bitmap rpb_handle pm_handle body =
    append_request_template
      (build_header ((40 + length body.bytes) % 2 ^ 32) 0 database_server_id 20 function) bitmap
      rpb_handle pm_handle body.parms
    ++ body.bytes
