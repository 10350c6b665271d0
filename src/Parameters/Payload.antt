-- ===== src/Parameters/Payload.antt =====
-- The payloads that describe the bound values of a statement and carry them.
use i.Prelude.{
  ℕ, ◌+◌, ◌%◌, Bytes, List, [], ◌∷◌, ◌++◌, Bool, true, false, ltb, not, Option, length, replicate,
  if◌then◌else◌,
}
use i.Binary.{put_u16, put_u32}
use i.Request.Attributes.{to_uint32}
use i.Parameters.{
  ParameterMarkerField, ParameterMarkerFormat, ParameterBinding, to_uint16, uses_original_format,
  sum_binding_lengths,
}

-- The loop over the raw lengths with the total so far: whether a length or the total needs more than
-- two bytes.
unfoldable pub exceeds_words : ℕ → List ParameterBinding → Bool
exceeds_words total [] = false
exceeds_words total (b ∷ bs) =
    let rest = exceeds_words (total + length b.raw) bs in
    if ltb 0xFFFF (length b.raw)
    then true
    else if ltb 0xFFFF (total + length b.raw)
    then true
    else rest

-- parameterMarkerPayloadLayout: whether the extended layout is used.
unfoldable pub parameter_marker_payload_layout :
    Option ParameterMarkerFormat → List ParameterBinding → Bool
parameter_marker_payload_layout format bindings =
    if not (uses_original_format format)
    then true
    else if ltb 0xFFFF (length bindings)
    then true
    else exceeds_words 0 bindings

-- Bytes of a buffer that nothing is written to.
abbrev pub zeros : ℕ → Bytes
zeros n = replicate n 0

-- The fields of a record in the extended layout: 64 bytes.
abbrev pub put_extended_record : ParameterMarkerField → ℕ → Bytes → Bytes
put_extended_record f raw_length rest =
    put_u16 64
    ++ (put_u16 (to_uint16 f.sql_type)
        ++ (put_u32 raw_length
            ++ (put_u16 (to_uint16 f.scale)
                ++ (put_u16 (to_uint16 f.precision)
                    ++ (put_u16 f.ccsid
                        ++ (((f.parameter_type % 256) ∷ zeros 2)
                            ++ (put_u32 (to_uint32 f.lob_locator)
                                ++ (zeros 5
                                    ++ (put_u32 (to_uint32 f.lob_max_size)
                                        ++ (zeros 34 ++ rest))))))))))

-- A record in the original layout: 54 bytes.
abbrev pub put_original_record : ParameterMarkerField → ℕ → Bytes → Bytes
put_original_record f raw_length rest =
    put_u16 54
    ++ (put_u16 (to_uint16 f.sql_type)
        ++ (put_u16 raw_length
            ++ (put_u16 (to_uint16 f.scale)
                ++ (put_u16 (to_uint16 f.precision)
                    ++ (put_u16 f.ccsid ++ (((f.parameter_type % 256) ∷ zeros 41) ++ rest))))))

-- The loop over the bindings.
abbrev pub put_records : (ParameterMarkerField → ℕ → Bytes → Bytes) → List ParameterBinding → Bytes
put_records put [] = []
put_records put (b ∷ bs) = put b.field (length b.raw) (put_records put bs)

-- buildParameterMarkerFormatPayload, with the code point of its layout.
unfoldable pub build_parameter_marker_format_payload :
    Option ParameterMarkerFormat → List ParameterBinding → Bytes × ℕ
build_parameter_marker_format_payload format bindings =
    if parameter_marker_payload_layout format bindings
    then (
      put_u32 1
          ++ (put_u32 (length bindings)
              ++ (zeros 4
                  ++ (put_u32 (sum_binding_lengths bindings)
                      ++ put_records put_extended_record bindings))),
      0x380D,
    )
    else (
      put_u32 1
          ++ (put_u16 (length bindings)
              ++ (put_u16 (sum_binding_lengths bindings)
                  ++ put_records put_original_record bindings)),
      0x3808,
    )

-- The indicator of a value: 0xFFFF where it is null.
abbrev pub put_null : Bool → Bytes
put_null true = put_u16 0xFFFF
put_null false = put_u16 0

abbrev pub put_nulls : List ParameterBinding → Bytes
put_nulls [] = []
put_nulls (b ∷ bs) = put_null b.is_null ++ put_nulls bs

-- The raw values one behind the other.
unfoldable pub put_values : List ParameterBinding → Bytes
put_values [] = []
put_values (b ∷ bs) = b.raw ++ put_values bs

-- buildParameterMarkerDataPayload: one row.
unfoldable pub build_parameter_marker_data_payload :
    Option ParameterMarkerFormat → List ParameterBinding → Bytes × ℕ
build_parameter_marker_data_payload format bindings =
    if parameter_marker_payload_layout format bindings
    then (
      put_u32 1
          ++ (put_u32 1
              ++ (put_u16 (length bindings)
                  ++ (put_u16 2
                      ++ (put_u32 0
                          ++ (put_u32 (sum_binding_lengths bindings)
                              ++ (put_nulls bindings ++ put_values bindings)))))),
      0x381F,
    )
    else (
      put_u32 1
          ++ (put_u32 1
              ++ (put_u16 (length bindings)
                  ++ (put_u16 2
                      ++ (put_u16 (sum_binding_lengths bindings)
                          ++ (put_nulls bindings ++ put_values bindings))))),
      0x3811,
    )
