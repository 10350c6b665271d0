-- ===== src/Parameters/Described.antt =====
-- The item that describes the bound values, read by the reader of a server's items.
use i.Prelude.{
  ℕ, zero, suc, ◌+◌, ◌*◌, ◌^◌, ◌<◌, ◌≤◌, ◌≡◌, refl, sym, ap, ◌∙◌, Bytes, List, [], ◌∷◌, ◌++◌, Bool,
  true, false, Option, some, none, length, take, drop, arith, if◌then◌else◌, All, append-nil,
}
use i.Errors.{Result, ok, err}
use i.Binary.{
  put_u16, put_u32, uint16_at, uint32_at, be, uint16_at_ok, uint32_at_ok, be-put_u16, be-put_u32,
}
use i.Wire.{append_llcp}
use i.Wire.Walk.{Item, IsItem, encode, scan, visit, scan-encode}
use i.Parameters.{
  ParameterMarkerField, ParameterMarkerFormat, ParameterBinding, sum_binding_lengths,
}
use i.Parameters.Parse.{
  read_fields, original_field, extended_field, format_of, with_point, format_round,
  parse_original_parameter_marker_format, parse_extended_parameter_marker_format,
  parse_parameter_marker_format_from_payload,
}
use i.Parameters.Payload.{
  exceeds_words, parameter_marker_payload_layout, put_records, put_extended_record,
  put_original_record, build_parameter_marker_format_payload,
}
use i.Parameters.Formats.{
  Fits, extended_description, original_description, extended_field_behind, original_field_behind,
  drop-add,
}

-- The descriptions of the fields of bound values.
abbrev pub described :
    (ParameterMarkerField → ℕ → ParameterMarkerField)
    → List ParameterBinding
    → List ParameterMarkerField
described describe [] = []
described describe (b ∷ bs) = describe b.field (length b.raw) ∷ described describe bs

abbrev pub FieldFits : ParameterBinding → Type 0
FieldFits b = Fits b.field

-- Every value is no longer than all of them.
sum_head :
    (b : ParameterBinding) (bs : List ParameterBinding)
    → sum_binding_lengths (b ∷ bs) ≡ length b.raw + sum_binding_lengths bs
unfolding sum_binding_lengths
sum_head b bs = refl

-- Where no length and no total exceeds two bytes, the sum does not.
pub exceeds_words-sum :
    (total : ℕ) (bs : List ParameterBinding)
    → total < 2 ^ 16
    → exceeds_words total bs ≡ false
    → total + sum_binding_lengths bs < 2 ^ 16
unfolding exceeds_words sum_binding_lengths
exceeds_words-sum total [] h e = omega arith
exceeds_words-sum total (b ∷ bs) h e = ground (arith, exceeds_words-sum (total + length b.raw) bs)

-- The original layout is chosen only where two bytes hold the sum.
pub original_layout-sum :
    (format : Option ParameterMarkerFormat) (bs : List ParameterBinding)
    → parameter_marker_payload_layout format bs ≡ false
    → sum_binding_lengths bs < 2 ^ 16
unfolding parameter_marker_payload_layout
original_layout-sum format bs e = ground (arith, exceeds_words-sum 0 bs)

-- The loop over records that `read` reads where `put` wrote them.
module _ (read : ℕ → Result ParameterMarkerField) (d : Bytes)
    (put : ParameterMarkerField → ℕ → Bytes → Bytes)
    (describe : ParameterMarkerField → ℕ → ParameterMarkerField) (stride limit : ℕ)
    (skips : (f : ParameterMarkerField) (n : ℕ) (rest : Bytes) → drop stride (put f n rest) ≡ rest)
    (reads : (f : ParameterMarkerField) (n base : ℕ) (rest : Bytes)
      → Fits f
      → n < limit
      → drop base d ≡ put f n rest
      → read base ≡ ok (describe f n)) where
  read_fields-put_records :
      (base : ℕ) (bs : List ParameterBinding)
      → All FieldFits bs
      → sum_binding_lengths bs < limit
      → drop base d ≡ put_records put bs
      → read_fields read stride base (length bs) ≡ ok (described describe bs)
  unfolding read_fields
  read_fields-put_records base [] fits small h = refl
  read_fields-put_records base (b ∷ bs) (fit, fits) small h =
      let total = sum_head b bs in
      let first =
        reads b.field (length b.raw) base (put_records put bs) fit (omega (arith, total, small))
          h in
      let later =
        read_fields-put_records (base + stride) bs fits (omega (arith, total, small))
          (drop-add base stride d ∙ ap (drop stride) h ∙ skips b.field (length b.raw) _) in
      rw (first, later) refl

module _ (put : ParameterMarkerField → ℕ → Bytes → Bytes) (stride : ℕ)
    (size : (f : ParameterMarkerField) (n : ℕ) (rest : Bytes)
      → length (put f n rest) ≡ stride + length rest) where
  length-put_records :
      (bs : List ParameterBinding) → length (put_records put bs) ≡ length bs * stride
  length-put_records [] = omega arith
  length-put_records (b ∷ bs) =
      grind (arith, size b.field (length b.raw) (put_records put bs), length-put_records bs)

module _ (decode : Bytes → ℕ → Option Bytes) (bs : List ParameterBinding)
    (fits : All FieldFits bs) where
  abbrev extended_payload : Bytes
  extended_payload =
      put_u32 1
      ++ (put_u32 (length bs)
          ++ (0
              ∷ 0
              ∷ 0
              ∷ 0
              ∷ (put_u32 (sum_binding_lengths bs) ++ put_records put_extended_record bs)))

  abbrev original_payload : Bytes
  original_payload =
      put_u32 1
      ++ (put_u16 (length bs)
          ++ (put_u16 (sum_binding_lengths bs) ++ put_records put_original_record bs))

  extended_size : length extended_payload ≡ 16 + length bs * 64
  extended_size =
      omega (arith, length-put_records put_extended_record 64 (λ f n rest. omega arith) bs)

  original_size : length original_payload ≡ 8 + length bs * 54
  original_size =
      omega (arith, length-put_records put_original_record 54 (λ f n rest. omega arith) bs)

  -- The reader on a payload whose header and records are there in full.
  parse_extended_of :
      (d : Bytes) (count size : ℕ) (fields : List ParameterMarkerField)
      → 16 + count * 64 ≤ length d
      → uint32_at 4 d ≡ ok count
      → uint32_at 12 d ≡ ok size
      → read_fields (extended_field decode d) 64 16 count ≡ ok fields
      → parse_extended_parameter_marker_format decode d ≡ ok (format_of size fields)
  unfolding parse_extended_parameter_marker_format read_fields
  parse_extended_of d zero size fields whole c s r = ground arith
  parse_extended_of d (suc n) size fields whole c s r = ground arith

  parse_original_of :
      (d : Bytes) (count size : ℕ) (fields : List ParameterMarkerField)
      → 8 + count * 54 ≤ length d
      → uint16_at 4 d ≡ ok count
      → uint16_at 6 d ≡ ok size
      → read_fields (original_field decode d) 54 8 count ≡ ok fields
      → parse_original_parameter_marker_format decode d ≡ ok (format_of size fields)
  unfolding parse_original_parameter_marker_format read_fields
  parse_original_of d zero size fields whole c s r = ground arith
  parse_original_of d (suc n) size fields whole c s r = ground arith

  parse_extended :
      length bs < 2 ^ 16
      → sum_binding_lengths bs < 2 ^ 32
      → parse_extended_parameter_marker_format decode extended_payload
        ≡ ok (format_of (sum_binding_lengths bs) (described extended_description bs))
  parse_extended few small =
      parse_extended_of extended_payload (length bs) (sum_binding_lengths bs) _
        (omega (arith, extended_size))
        (read_u32_at 4 (length bs) (omega arith) (be-put_u32 _ (omega arith)))
        (read_u32_at 12 (sum_binding_lengths bs) (omega arith) (be-put_u32 _ small))
        (read_fields-put_records (extended_field decode extended_payload) extended_payload
          put_extended_record extended_description 64 (2 ^ 32) (λ f n rest. refl)
          (λ f n base rest fit under h.
            extended_field_behind decode f fit n base extended_payload rest under h)
          16 bs fits small refl)
    where
      read_u32_at :
          (at v : ℕ)
          → at + 4 ≤ length extended_payload
          → be (take 4 (drop at extended_payload)) ≡ v
          → uint32_at at extended_payload ≡ ok v
      read_u32_at at v h e = uint32_at_ok at extended_payload h ∙ ap ok e

  parse_original :
      length bs < 2 ^ 16
      → sum_binding_lengths bs < 2 ^ 16
      → parse_original_parameter_marker_format decode original_payload
        ≡ ok (format_of (sum_binding_lengths bs) (described original_description bs))
  parse_original few small =
      parse_original_of original_payload (length bs) (sum_binding_lengths bs) _
        (omega (arith, original_size))
        (read_u16_at 4 (length bs) (omega arith) (be-put_u16 _ (omega arith)))
        (read_u16_at 6 (sum_binding_lengths bs) (omega arith) (be-put_u16 _ small))
        (read_fields-put_records (original_field decode original_payload) original_payload
          put_original_record original_description 54 (2 ^ 16) (λ f n rest. refl)
          (λ f n base rest fit under h.
            original_field_behind decode f fit n base original_payload rest under h)
          8 bs fits small refl)
    where
      read_u16_at :
          (at v : ℕ)
          → at + 2 ≤ length original_payload
          → be (take 2 (drop at original_payload)) ≡ v
          → uint16_at at original_payload ≡ ok v
      read_u16_at at v h e = uint16_at_ok at original_payload h ∙ ap ok e

  -- The payload and the format that is read back, by the layout.
  abbrev payload_in : Bool → Bytes × ℕ
  payload_in extended = if extended then (extended_payload, 0x380D) else (original_payload, 0x3808)

  abbrev pub format_in : Bool → Option ParameterMarkerFormat
  format_in true = some record {
    code_point = 0x380D;
    record_size = sum_binding_lengths bs;
    fields = described extended_description bs;
  }
  format_in false = some record {
    code_point = 0x3808;
    record_size = sum_binding_lengths bs;
    fields = described original_description bs;
  }

  -- A format that the driver describes bound values with is read back, whatever items follow, with the code
  -- point of the layout that was chosen and the sum of the lengths. Each field that is read has the type,
  -- scale, precision, CCSID and kind of the value's field, and no name. In the extended layout its length is
  -- the length of the value, and its LOB locator and size are the unsigned words that the field's are written
  -- as, so that -1 becomes 2 ^ 32 - 1. In the original layout its length is the length of the value as a
  -- signed number of two bytes, so that 40000 becomes -25536, and its LOB locator and size are -1. The fields
  -- fit their records, there are fewer than 2 ^ 16 values, and their lengths add up to less than 2 ^ 32.
  pub parse-build :
      (format : Option ParameterMarkerFormat) (after : List Item)
      → length bs < 2 ^ 16
      → sum_binding_lengths bs < 2 ^ 32
      → All IsItem after
      → parse_parameter_marker_format_from_payload decode (
          append_llcp []
            (build_parameter_marker_format_payload format bs).1
            (build_parameter_marker_format_payload format bs).0
          ++ encode after)
        ≡ ok (format_in (parameter_marker_payload_layout format bs))
  unfolding parse_parameter_marker_format_from_payload build_parameter_marker_format_payload
  parse-build format after few small items = either (parameter_marker_payload_layout format bs) refl
    where
      scanned :
          (code_point : ℕ) (payload : Bytes)
          → IsItem (code_point, payload)
          → scan 1
              (λ e. err e)
              (λ s. ok none)
              (format_round decode)
              (append_llcp [] code_point payload ++ encode after)
              tt
            ≡ visit 1
                (λ e. err e)
                (λ s. ok none)
                (format_round decode)
                ((code_point, payload) ∷ after)
                tt
      scanned code_point payload h =
          ap (λ d. scan 1 (λ e. err e) (λ s. ok none) (format_round decode) d tt)
            (sym (append-nil (append_llcp [] code_point payload ++ encode after)))
          ∙ scan-encode 1 (λ e. err e) (λ s. ok none) (format_round decode)
              ((code_point, payload) ∷ after) [] tt (omega arith) (omega arith) (omega arith)
              (h, items)

      either :
          (t : Bool)
          → parameter_marker_payload_layout format bs ≡ t
          → scan 1
              (λ e. err e)
              (λ s. ok none)
              (format_round decode)
              (append_llcp [] (payload_in t).1 (payload_in t).0 ++ encode after)
              tt
            ≡ ok (format_in t)
      either true e =
          scanned 0x380D extended_payload (omega arith, omega (arith, extended_size))
          ∙ ap (with_point 0x380D) (parse_extended few small)
      either false e =
          scanned 0x3808 original_payload (omega arith, omega (arith, original_size))
          ∙ ap (with_point 0x3808) (parse_original few (original_layout-sum format bs e))
