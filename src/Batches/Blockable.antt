-- ===== src/Batches/Blockable.antt =====
-- Which statements and values may be sent in blocks.
use i.Prelude.{
  ℕ, ◌*◌, ◌/◌, Bytes, List, [], ◌∷◌, Bool, true, false, not, ◌&&◌, ◌||◌, ◌==◌, leb, ℤ, pos, negsuc,
  Option, none, some, length, drop, if◌then◌else◌,
}
use i.Text.{codes, to_upper, trim_space, has_prefix}
use i.GeneratedKeys.{is_insert_statement}
use i.Parameters.{ParameterMarkerField, ParameterMarkerFormat, to_uint16}

-- What stands behind the first occurrence of a word: `upper[m+len("VALUES"):]` for `m >= 0`.
unfoldable pub after_first : Bytes → Bytes → Option Bytes
after_first word [] = if has_prefix [] word then some [] else none
after_first word (c ∷ s) =
    let later = after_first word s in
    if has_prefix (c ∷ s) word then some (drop (length word) (c ∷ s)) else later

-- What stands before the last occurrence of a byte, if it occurs.
unfoldable pub before_last : ℕ → Bytes → Option Bytes
before_last b [] = none
before_last b (c ∷ s) = elim (before_last b s) [
  | some t ↦ some (c ∷ t)
  | none ↦ if c == b then some [] else none
]

abbrev pub or_whole : Bytes → Option Bytes → Bytes
or_whole s none = s
or_whole s (some t) = t

-- The bytes between the tokens of `strings.FieldsFunc`.
abbrev pub is_marker_byte : ℕ → Bool
is_marker_byte c =
    c == b','
    || c == b' '
    || c == b'?'
    || c == b'('
    || c == b')'
    || c == b'\n'
    || c == b'\r'
    || c == b'\t'

-- `len(tokens) == 0`.
abbrev pub has_no_tokens : Bytes → Bool
has_no_tokens [] = true
has_no_tokens (c ∷ s) = is_marker_byte c && has_no_tokens s

abbrev pub only_markers : Option Bytes → Bool
only_markers none = false
only_markers (some values) = has_no_tokens (or_whole values (before_last b')' values))

unfoldable pub is_blockable_statement : Bytes → Bool
is_blockable_statement text =
    let upper = to_upper (trim_space text) in
    if has_prefix upper (codes "UPDATE") || has_prefix upper (codes "DELETE")
    then true
    else if has_prefix upper (codes "INSERT")
    then only_markers (after_first (codes "VALUES") upper)
    else false

-- `field.SQLType & 0xFFFE`: the low bit says only whether the value may be null.
abbrev pub base_type : ℤ → ℕ
base_type sql_type = to_uint16 sql_type / 2 * 2

-- parameterFieldDB2Type: text of CCSID 65535 is binary.
unfoldable pub parameter_field_db2_type : ParameterMarkerField → ℕ
parameter_field_db2_type field =
    let typ = base_type field.sql_type in
    if not (field.ccsid == 65535)
    then typ
    else if typ == 452
    then 912
    else if typ == 448 || typ == 456
    then 908
    else typ

-- isLOBParameterField.
unfoldable pub is_lob_parameter_field : ParameterMarkerField → Bool
unfolding parameter_field_db2_type
is_lob_parameter_field field =
    let typ = parameter_field_db2_type field in typ == 404 || typ == 408 || typ == 412 || typ == 988

-- `field.LOBLocator > 0`.
abbrev pub has_locator : ℤ → Bool
has_locator (pos n) = not (n == 0)
has_locator (negsuc n) = false

abbrev pub has_no_lobs : List ParameterMarkerField → Bool
has_no_lobs [] = true
has_no_lobs (f ∷ fs) = not (is_lob_parameter_field f || has_locator f.lob_locator) && has_no_lobs fs

abbrev pub fields_of : Option ParameterMarkerFormat → List ParameterMarkerField
fields_of none = []
fields_of (some f) = f.fields

-- serverVRMAtLeast, of a version that is 0 where it is unknown.
unfoldable pub server_vrm_at_least : (server_version least : ℕ) → Bool
server_vrm_at_least server_version least = not (server_version == 0) && leb least server_version

-- batchBlockable, with the options `use block update` and the version of the server.
unfoldable pub batch_blockable :
    (use_block_update : Bool) → (server_version : ℕ) → Bytes → Option ParameterMarkerFormat → Bool
batch_blockable use_block_update server_version query format =
    if not use_block_update || has_none (fields_of format)
    then false
    else if not (is_blockable_statement query)
    then false
    else if not (is_insert_statement query) && not (server_vrm_at_least server_version 0x070100)
    then false
    else has_no_lobs (fields_of format)
  where
    has_none : List ParameterMarkerField → Bool
    has_none [] = true
    has_none (f ∷ fs) = false
