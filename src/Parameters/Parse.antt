-- ===== src/Parameters/Parse.antt =====
-- The readers of a parameter marker format, in the three layouts that a server sends.
use i.Prelude.{
  ℕ, zero, suc, ◌+◌, ◌*◌, Bytes, List, [], ◌∷◌, ◌&&◌, ◌==◌, ltb, leb, Option, none, some, pos,
  negsuc, length, get_elem?, if◌then◌else◌,
}
use i.Errors.{Result, ok, err, ◌>>=◌, panic, parameter_format_too_short}
use i.Binary.{uint16_at, uint32_at, slice}
use i.Text.{trim_space}
use i.Wire.Walk.{Turn, next, done, scan}
use i.Parameters.{ParameterMarkerField, ParameterMarkerFormat, signed16}

-- `payload[at]`.
unfoldable pub byte_at : ℕ → Bytes → Result ℕ
byte_at at d = elim (get_elem? d at) [ none ↦ err panic | some b ↦ ok b ]

-- The loop over the records, which stand `stride` bytes apart.
unfoldable pub read_fields :
    (ℕ → Result ParameterMarkerField) → (stride base count : ℕ) → Result (List ParameterMarkerField)
read_fields read stride base zero = ok []
read_fields read stride base (suc count) = do
  field ← read base
  fields ← read_fields read stride (base + stride) count
  ok (field ∷ fields)

abbrev pub format_of : ℕ → List ParameterMarkerField → Option ParameterMarkerFormat
format_of record_size fields =
    some record { code_point = 0; record_size = record_size; fields = fields }

-- `format.codePoint = …`, if there is a format.
abbrev pub with_code_point : ℕ → Option ParameterMarkerFormat → Option ParameterMarkerFormat
with_code_point code_point none = none
with_code_point code_point (some f) =
    some record { code_point = code_point; record_size = f.record_size; fields = f.fields }

abbrev pub with_point :
    ℕ → Result (Option ParameterMarkerFormat) → Result (Option ParameterMarkerFormat)
with_point code_point (err e) = err e
with_point code_point (ok f) = ok (with_code_point code_point f)

-- The records behind a header of `header` bytes, which has to be there in full.
abbrev pub read_records :
    (ℕ → Result ParameterMarkerField)
    → (header stride count record_size : ℕ) → Bytes
    → Result (Option ParameterMarkerFormat)
read_records read header stride count record_size payload =
    if count == 0
    then ok (format_of record_size [])
    else if ltb (length payload) (header + count * stride)
    then err (parameter_format_too_short (length payload))
    else read_fields read stride header count >>= λ fields. ok (format_of record_size fields)

-- The fixed fields of an extended and of a super extended record, with the name that `named` reads.
abbrev pub wide_field : (ℕ → Result Bytes) → Bytes → ℕ → Result ParameterMarkerField
wide_field named payload base = do
  sql_type ← uint16_at (base + 2) payload
  width ← uint32_at (base + 4) payload
  scale ← uint16_at (base + 8) payload
  precision ← uint16_at (base + 10) payload
  ccsid ← uint16_at (base + 12) payload
  parameter_type ← byte_at (base + 14) payload
  lob_locator ← uint32_at (base + 17) payload
  lob_max_size ← uint32_at (base + 26) payload
  name ← named base
  ok record {
    name = name;
    sql_type = signed16 sql_type;
    width = pos width;
    scale = signed16 scale;
    precision = signed16 precision;
    ccsid = ccsid;
    parameter_type = parameter_type;
    lob_locator = pos lob_locator;
    lob_max_size = pos lob_max_size;
  }

-- `decode` is decodeTextByCCSID, with an option for its error.
module _ (decode : Bytes → ℕ → Option Bytes) where
  abbrev pub trimmed : Option Bytes → Bytes
  trimmed none = []
  trimmed (some name) = trim_space name

  -- The name of a marker, if it lies within the payload and can be decoded.
  unfoldable pub field_name : (at name_length name_ccsid : ℕ) → Bytes → Result Bytes
  field_name at name_length name_ccsid payload =
      if ltb 0 name_length && leb (at + name_length) (length payload)
      then slice at (at + name_length) payload >>= (λ s. ok (trimmed (decode s name_ccsid)))
      else ok []

  unfoldable pub original_field : Bytes → ℕ → Result ParameterMarkerField
  original_field payload base = do
    sql_type ← uint16_at (base + 2) payload
    width ← uint16_at (base + 4) payload
    scale ← uint16_at (base + 6) payload
    precision ← uint16_at (base + 8) payload
    ccsid ← uint16_at (base + 10) payload
    parameter_type ← byte_at (base + 12) payload
    name_length ← uint16_at (base + 28) payload
    name_ccsid ← uint16_at (base + 30) payload
    name ← field_name (base + 32) name_length name_ccsid payload
    ok record {
      name = name;
      sql_type = signed16 sql_type;
      width = signed16 width;
      scale = signed16 scale;
      precision = signed16 precision;
      ccsid = ccsid;
      parameter_type = parameter_type;
      lob_locator = negsuc 0;
      lob_max_size = negsuc 0;
    }

  unfoldable pub parse_original_parameter_marker_format :
      Bytes → Result (Option ParameterMarkerFormat)
  parse_original_parameter_marker_format payload =
      if length payload == 0
      then ok none
      else if ltb (length payload) 8
      then err (parameter_format_too_short (length payload))
      else do
        count ← uint16_at 4 payload
        record_size ← uint16_at 6 payload
        read_records (original_field payload) 8 54 count record_size payload

  abbrev pub extended_name : Bytes → ℕ → Result Bytes
  extended_name payload base = do
    name_length ← uint16_at (base + 30) payload
    name_ccsid ← uint16_at (base + 32) payload
    field_name (base + 34) name_length name_ccsid payload

  unfoldable pub extended_field : Bytes → ℕ → Result ParameterMarkerField
  extended_field payload base = wide_field (extended_name payload) payload base

  unfoldable pub parse_extended_parameter_marker_format :
      Bytes → Result (Option ParameterMarkerFormat)
  parse_extended_parameter_marker_format payload =
      if length payload == 0
      then ok none
      else if ltb (length payload) 16
      then err (parameter_format_too_short (length payload))
      else do
        count ← uint32_at 4 payload
        record_size ← uint32_at 12 payload
        read_records (extended_field payload) 16 64 count record_size payload

unfoldable pub super_extended_field : Bytes → ℕ → Result ParameterMarkerField
super_extended_field payload base = wide_field (λ base. ok []) payload base

unfoldable pub parse_super_extended_parameter_marker_format :
    Bytes → Result (Option ParameterMarkerFormat)
parse_super_extended_parameter_marker_format payload =
    if length payload == 0
    then ok none
    else if ltb (length payload) 16
    then err (parameter_format_too_short (length payload))
    else do
      count ← uint32_at 4 payload
      record_size ← uint32_at 12 payload
      read_records (super_extended_field payload) 16 48 count record_size payload

module _ (decode : Bytes → ℕ → Option Bytes) where
  abbrev pub format_round :
      ℕ → Bytes → Unit {0} → Turn (Unit {0}) (Result (Option ParameterMarkerFormat))
  format_round code_point payload s =
      if code_point == 0x3808
      then done (with_point 0x3808 (parse_original_parameter_marker_format decode payload))
      else if code_point == 0x380D
      then done (with_point 0x380D (parse_extended_parameter_marker_format decode payload))
      else if code_point == 0x3813
      then done (with_point 0x3813 (parse_super_extended_parameter_marker_format payload))
      else next s

  unfoldable pub parse_parameter_marker_format_from_payload :
      Bytes → Result (Option ParameterMarkerFormat)
  parse_parameter_marker_format_from_payload payload =
      scan 1 (λ e. err e) (λ s. ok none) format_round payload tt
