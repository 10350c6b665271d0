-- ===== src/Parameters.antt =====
-- Parameter markers (sql.go): the format of the markers of a prepared statement, the values bound to
-- them, and the payloads that describe and carry the values.
pub mod Parse
pub mod Payload
pub mod Formats
pub mod Described
pub mod Total
pub mod Requests
use i.Prelude.{
  ℕ, ◌+◌, ◌-◌, ◌%◌, ◌^◌, ◌==◌, ltb, if◌then◌else◌, Bytes, List, [], ◌∷◌, Bool, true, false, ◌||◌,
  Option, none, some, ℤ, pos, negsuc, length, get_elem?,
}

-- Go's `int16(w)` on a uint16 `w`, and `uint16(v)` on an int.
abbrev pub signed16 : ℕ → ℤ
signed16 bits = if ltb bits (2 ^ 15) then pos bits else negsuc (2 ^ 16 - 1 - bits)

abbrev pub to_uint16 : ℤ → ℕ
to_uint16 (pos n) = n % 2 ^ 16
to_uint16 (negsuc n) = 2 ^ 16 - 1 - n % 2 ^ 16

-- parameterMarkerField without the bidi settings that a binding adds. A locator of -1 is none.
pub record ParameterMarkerField : Type 0 where
  pub name : Bytes
  pub sql_type : ℤ
  pub width : ℤ
  pub scale : ℤ
  pub precision : ℤ
  pub ccsid : ℕ
  pub parameter_type : ℕ
  pub lob_locator : ℤ
  pub lob_max_size : ℤ

pub record ParameterMarkerFormat : Type 0 where
  pub code_point : ℕ
  pub record_size : ℕ
  pub fields : List ParameterMarkerField

pub record LobWriteRequest : Type 0 where
  pub locator_handle : ℕ
  pub requested_size : ℕ
  pub content : Bytes

-- parameterBinding. Of `outDest` only whether it is set.
pub record ParameterBinding : Type 0 where
  pub field : ParameterMarkerField
  pub raw : Bytes
  pub is_null : Bool
  pub has_out_dest : Bool
  pub lob_write : Option LobWriteRequest

unfoldable pub parameter_count : Option ParameterMarkerFormat → ℕ
parameter_count none = 0
parameter_count (some f) = length f.fields

-- `format.field(index)` of an index that is not negative.
unfoldable pub field_at : Option ParameterMarkerFormat → ℕ → Option ParameterMarkerField
field_at none index = none
field_at (some f) index = get_elem? f.fields index

unfoldable pub uses_original_format : Option ParameterMarkerFormat → Bool
uses_original_format none = false
uses_original_format (some f) = f.code_point == 0x3808

unfoldable pub uses_extended_format : Option ParameterMarkerFormat → Bool
uses_extended_format none = false
uses_extended_format (some f) = f.code_point == 0x380D || f.code_point == 0x3813

-- The length of the raw values of a row.
unfoldable pub sum_binding_lengths : List ParameterBinding → ℕ
sum_binding_lengths [] = 0
sum_binding_lengths (b ∷ bs) = length b.raw + sum_binding_lengths bs

-- hasOutputBindings.
unfoldable pub has_output_bindings : List ParameterBinding → Bool
has_output_bindings [] = false
has_output_bindings (b ∷ bs) = b.has_out_dest || has_output_bindings bs

-- collectLOBWriteRequests.
unfoldable pub collect_lob_write_requests : List ParameterBinding → List LobWriteRequest
collect_lob_write_requests [] = []
collect_lob_write_requests (b ∷ bs) = elim b.lob_write [
  | none ↦ collect_lob_write_requests bs
  | some write ↦ write ∷ collect_lob_write_requests bs
]
