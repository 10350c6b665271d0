-- ===== src/Tests/DecimalTests.antt =====
-- Packed and zoned decimals at concrete fields.
use i.Prelude.{◌≡◌, refl, Bytes, [], ◌∷◌, true, length, arith, pos, inl, inr}
use i.Errors.{ok}
use i.Decimal.{
  packed_size, zoned_size, pack_decimal_digits, zone_decimal_digits, decode_packed_decimal_string,
  decode_zoned_decimal_string,
}
use i.Decimal.Packed.{plain_text, decode-pack}
use i.Decimal.Zoned.{decode-zone}

abbrev digits : Bytes
digits = b'1' ∷ b'2' ∷ b'3' ∷ b'4' ∷ b'5' ∷ []

decode-pack_example :
    (field : Bytes) × (pack_decimal_digits digits true 0 7 ≡ ok field)
    × (length field ≡ packed_size 0 7 digits)
    × (decode_packed_decimal_string field (pos 7) 2 ≡ ok (plain_text true 7 2 digits))
decode-pack_example =
    decode-pack digits true 0 7 2 (omega arith) (omega arith) (omega arith) (inl refl)

decode-zone_example :
    (field : Bytes) × (zone_decimal_digits digits true 8 7 ≡ ok field)
    × (length field ≡ zoned_size 8 7 digits)
    × (decode_zoned_decimal_string field 7 2 ≡ ok (plain_text true 7 2 digits))
decode-zone_example =
    decode-zone digits true 8 7 2 (omega arith) (omega arith) (omega arith) (inr (omega arith))
