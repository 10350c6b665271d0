-- ===== src/Decimal/Zoned.antt =====
-- Zoned decimals: a zoned field reads back as the digits that were written.
use i.Prelude.{
  ℕ, suc, ◌+◌, ◌-◌, ◌*◌, ◌%◌, ◌≤◌, ◌<◌, ◌≡◌, refl, ap, ◌∙◌, ◌⊎◌, Bytes, [], ◌∷◌, ◌++◌, Bool, true,
  false, All, length, arith, append_assoc, le→ltb_false, if◌then◌else◌,
}
use i.Errors.{ok}
use Prim.Native.Nat.{bit_or}
use i.Decimal.{
  high_nibble, low_nibble, digit_value, zoned_digits, zone_bytes, zoned_size, fit_digits,
  decimal_text, zone_decimal_digits, decode_zoned_decimal_string,
}
use i.Decimal.Fit.{fit_digits-fit_digits, fit_digits_pads, length-fit_digits, All-fit_digits}
use i.Decimal.Nibbles.{
  IsDigit, join_nibbles, high_nibble_lem, low_nibble_lem, digit_back, digit_value_lem,
}
use i.Decimal.Packed.{plain_text}

-- A byte with zone `z` over a digit.
zone_high : (z d : ℕ) → z < 16 → IsDigit d → high_nibble (bit_or (z * 16 % 256) (digit_value d)) ≡ z
zone_high z d p h =
    rw
      (
        digit_value_lem d h,
        join_nibbles z (d - b'0') p (omega arith),
        high_nibble_lem (z * 16 + (d - b'0')) (omega arith),
      )
      (omega arith)

zone_low :
    (z d : ℕ) → z < 16 → IsDigit d → low_nibble (bit_or (z * 16 % 256) (digit_value d)) ≡ d - b'0'
zone_low z d p h =
    rw
      (
        digit_value_lem d h,
        join_nibbles z (d - b'0') p (omega arith),
        low_nibble_lem (z * 16 + (d - b'0')) (omega arith),
      )
      (omega arith)

-- The zone of the last byte.
abbrev zone : Bool → ℕ
zone negative = if negative then 0x0D else 0x0F

record Run (negative : Bool) (digits acc : Bytes) : Type 0 where
  field : Bytes
  size : length field ≡ length digits
  writes : zone_bytes negative digits ≡ ok field
  reads : zoned_digits field acc ≡ ok (acc ++ digits, zone negative)

zoned_digits_more :
    (d : ℕ) (field acc : Bytes)
    → IsDigit d
    → 0 < length field
    → zoned_digits (bit_or 0xF0 (digit_value d) ∷ field) acc ≡ zoned_digits field (acc ++ (d ∷ []))
unfolding zoned_digits
zoned_digits_more d [] acc h ne = absurd (omega arith)
zoned_digits_more d (c ∷ field) acc h ne =
    rw (zone_low 15 d (omega arith) h, le→ltb_false 9 (d - b'0') (omega arith), digit_back d h)

zoned_digits_last :
    (z d : ℕ) (acc : Bytes)
    → IsDigit d
    → 10 ≤ z
    → z < 16
    → zoned_digits (bit_or (z * 16 % 256) (digit_value d) ∷ []) acc ≡ ok (acc ++ (d ∷ []), z)
unfolding zoned_digits
zoned_digits_last z d acc h p q = rw (
  zone_low z d q h,
  zone_high z d q h,
  le→ltb_false 9 (d - b'0') (omega arith),
  le→ltb_false z 10 p,
  digit_back d h,
)

zone_bytes_more :
    (negative : Bool) (d e : ℕ) (digits : Bytes) {field : Bytes}
    → zone_bytes negative (e ∷ digits) ≡ ok field
    → zone_bytes negative (d ∷ e ∷ digits) ≡ ok (bit_or 0xF0 (digit_value d) ∷ field)
unfolding zone_bytes
zone_bytes_more true d e digits h = rw h
zone_bytes_more false d e digits h = rw h

zone-Run :
    (negative : Bool) (d : ℕ) (digits acc : Bytes)
    → IsDigit d
    → All IsDigit digits
    → Run negative (d ∷ digits) acc
unfolding zone_bytes
zone-Run true d [] acc h hs = record {
  field = bit_or 0xD0 (digit_value d) ∷ [];
  size = refl;
  writes = refl;
  reads = zoned_digits_last 13 d acc h (omega arith) (omega arith);
}
zone-Run false d [] acc h hs = record {
  field = bit_or 0xF0 (digit_value d) ∷ [];
  size = refl;
  writes = refl;
  reads = zoned_digits_last 15 d acc h (omega arith) (omega arith);
}
zone-Run negative d (c ∷ digits) acc h (hc, hs) =
    let run = zone-Run negative c digits (acc ++ (d ∷ [])) hc hs in
    record {
      field = bit_or 0xF0 (digit_value d) ∷ run.field;
      size = ap suc run.size;
      writes = zone_bytes_more negative d c digits run.writes;
      reads =
          zoned_digits_more d run.field acc h (omega (arith, run.size))
          ∙ run.reads
          ∙ rw append_assoc;
    }

-- The bytes that the field needs hold the precision.
abbrev pub FitsZoned : ℕ → ℕ → Type 0
FitsZoned field_length precision = (field_length ≡ 0) ⊎ (precision ≤ field_length)

zoned_room :
    (field_length precision : ℕ) (digits : Bytes)
    → FitsZoned field_length precision
    → 0 < length digits
    → length digits ≤ precision
    → (0 < zoned_size field_length precision digits)
      × (precision ≤ zoned_size field_length precision digits)
unfolding zoned_size
zoned_room field_length precision digits h p q = ground arith

zoned_text :
    (negative : Bool) (precision size scale : ℕ) (digits : Bytes)
    → length digits ≤ precision
    → precision ≤ size
    → decimal_text (zone negative) precision scale (fit_digits size digits)
      ≡ plain_text negative precision scale digits
unfolding decimal_text
zoned_text true precision size scale digits p q =
    rw (fit_digits-fit_digits precision size digits p q, fit_digits_pads precision digits p)
zoned_text false precision size scale digits p q =
    rw (fit_digits-fit_digits precision size digits p q, fit_digits_pads precision digits p)

decode_reads :
    (field : Bytes) (precision scale : ℕ) {digits : Bytes} {sign : ℕ}
    → 0 < length field
    → zoned_digits field [] ≡ ok (digits, sign)
    → decode_zoned_decimal_string field precision scale
      ≡ ok (decimal_text sign precision scale digits)
unfolding decode_zoned_decimal_string
decode_reads [] precision scale ne e = absurd (omega arith)
decode_reads (b ∷ field) precision scale ne e = rw e

nonempty-Run :
    (negative : Bool) (fitted : Bytes)
    → 0 < length fitted
    → All IsDigit fitted
    → Run negative fitted []
nonempty-Run negative [] ne h = absurd (omega arith)
nonempty-Run negative (d ∷ ds) ne (h, hs) = zone-Run negative d ds [] h hs

-- Zoning one digit or more, no more than the precision, into a field that is large enough never fails,
-- fills the field, and the field reads back as the digits with their sign, padded to the precision.
pub decode-zone :
    (digits : Bytes) (negative : Bool) (field_length precision scale : ℕ)
    → All IsDigit digits
    → 0 < length digits
    → length digits ≤ precision
    → FitsZoned field_length precision
    → (field : Bytes) × (zone_decimal_digits digits negative field_length precision ≡ ok field)
      × (length field ≡ zoned_size field_length precision digits)
      × (decode_zoned_decimal_string field precision scale
          ≡ ok (plain_text negative precision scale digits))
decode-zone [] negative field_length precision scale h ne p fits = absurd (omega arith)
decode-zone (d ∷ ds) negative field_length precision scale h ne p fits = (
  run.field,
  unfold zone_decimal_digits in run.writes,
  run.size ∙ length-fit_digits size (d ∷ ds),
  decode_reads run.field precision scale
        (omega (arith, run.size, length-fit_digits size (d ∷ ds), room)) run.reads
      ∙ ap ok (zoned_text negative precision size scale (d ∷ ds) p room.1),
)
  where
    size : ℕ
    size = zoned_size field_length precision (d ∷ ds)

    room : (0 < size) × (precision ≤ size)
    room = zoned_room field_length precision (d ∷ ds) fits ne p

    run : Run negative (fit_digits size (d ∷ ds)) []
    run =
        nonempty-Run negative (fit_digits size (d ∷ ds))
          (omega (arith, length-fit_digits size (d ∷ ds), room)) (All-fit_digits size (d ∷ ds) h)
