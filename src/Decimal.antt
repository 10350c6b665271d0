-- ===== src/Decimal.antt =====
-- Packed and zoned decimals of sql.go: decodePackedDecimalString, decodeZonedDecimalString,
-- packDecimalDigits and zoneDecimalDigits. Text is a list of bytes. The precision and scale of a
-- field come from unsigned words; only the packed decoder tests for a negative precision.
pub mod Nibbles
mod Fit
pub mod Packed
pub mod Zoned
use Prim.Native.Nat.{bit_and, bit_or}
use i.Prelude.{
  ℕ, zero, suc, ◌+◌, ◌-◌, ◌*◌, ◌/◌, ◌%◌, Bytes, [], ◌∷◌, ◌++◌, ℤ, pos, negsuc, Bool, true, false,
  ◌||◌, ◌==◌, Option, none, some, length, get_elem?, take, drop, replicate, ltb, leb, if◌then◌else◌,
}
use i.Errors.{
  Result, ok, err, ◌>>=◌, ◌>>◌, fail_if, panic, invalid_packed_precision, invalid_packed_digit,
  invalid_packed_sign, invalid_zoned_digit, invalid_zoned_sign,
}

-- `(b >> 4) & 0x0F` and `b & 0x0F`.
unfoldable pub high_nibble : ℕ → ℕ
high_nibble b = bit_and (b / 16) 0x0F

unfoldable pub low_nibble : ℕ → ℕ
low_nibble b = bit_and b 0x0F

-- `digitNibble`.
unfoldable pub digit_nibble : ℕ → ℕ
digit_nibble n = if ltb 9 n then b'0' else b'0' + n

-- The last `size` digits, or zeros in front up to `size` digits.
unfoldable pub fit_digits : ℕ → Bytes → Bytes
fit_digits size digits =
    if ltb size (length digits)
    then drop (length digits - size) digits
    else if ltb (length digits) size
    then replicate (size - length digits) b'0' ++ digits
    else digits

-- The decimal point before the last `scale` digits, behind one digit at least.
unfoldable pub place_point : ℕ → Bytes → Bytes
place_point scale digits =
    if ltb 0 scale
    then (let padded =
          (if leb (length digits) scale
            then replicate (scale - length digits + 1) b'0' ++ digits
            else digits) in
        let point = length padded - scale in take point padded ++ (b'.' ∷ drop point padded))
    else digits

abbrev pub is_minus : ℕ → Bool
is_minus sign = sign == 0x0B || sign == 0x0D

-- The text of digits with a sign nibble.
unfoldable pub decimal_text : ℕ → ℕ → ℕ → Bytes → Bytes
decimal_text sign precision scale digits =
    let text = place_point scale (fit_digits precision digits) in
    if is_minus sign then b'-' ∷ text else text

-- The loop over the bytes of a packed decimal: its digits, and the sign of the last byte.
unfoldable pub packed_digits : Bytes → Bytes → Result (Bytes × ℕ)
packed_digits [] digits = ok (digits, 0x0C)
packed_digits (b ∷ []) digits = do
  fail_if (ltb 9 (high_nibble b)) (invalid_packed_digit (high_nibble b))
  fail_if (ltb (low_nibble b) 10) (invalid_packed_sign (low_nibble b))
  ok (digits ++ (digit_nibble (high_nibble b) ∷ []), low_nibble b)
packed_digits (b ∷ c ∷ bs) digits = do
  fail_if (ltb 9 (high_nibble b)) (invalid_packed_digit (high_nibble b))
  fail_if (ltb 9 (low_nibble b)) (invalid_packed_digit (low_nibble b))
  packed_digits (c ∷ bs)
      (digits ++ (digit_nibble (high_nibble b) ∷ digit_nibble (low_nibble b) ∷ []))

unfoldable pub decode_packed_decimal_string : Bytes → ℤ → ℕ → Result Bytes
decode_packed_decimal_string [] precision scale = ok (b'0' ∷ [])
decode_packed_decimal_string (b ∷ bs) (negsuc n) scale = err invalid_packed_precision
decode_packed_decimal_string (b ∷ bs) (pos precision) scale = do
  (digits, sign) ← packed_digits (b ∷ bs) []
  ok (decimal_text sign precision scale digits)

-- The loop over the bytes of a zoned decimal.
unfoldable pub zoned_digits : Bytes → Bytes → Result (Bytes × ℕ)
zoned_digits [] digits = ok (digits, 0x0C)
zoned_digits (b ∷ []) digits = do
  fail_if (ltb 9 (low_nibble b)) (invalid_zoned_digit (low_nibble b))
  fail_if (ltb (high_nibble b) 10) (invalid_zoned_sign (high_nibble b))
  ok (digits ++ ((b'0' + low_nibble b) ∷ []), high_nibble b)
zoned_digits (b ∷ c ∷ bs) digits = do
  fail_if (ltb 9 (low_nibble b)) (invalid_zoned_digit (low_nibble b))
  zoned_digits (c ∷ bs) (digits ++ ((b'0' + low_nibble b) ∷ []))

unfoldable pub decode_zoned_decimal_string : Bytes → ℕ → ℕ → Result Bytes
decode_zoned_decimal_string [] precision scale = ok (b'0' ∷ [])
decode_zoned_decimal_string (b ∷ bs) precision scale = do
  (digits, sign) ← zoned_digits (b ∷ bs) []
  ok (decimal_text sign precision scale digits)

-- `d - '0'` on bytes.
abbrev pub digit_value : ℕ → ℕ
digit_value d = (d + 256 - b'0') % 256

-- `(h - '0') << 4 | low` on bytes.
unfoldable pub packed_byte : ℕ → ℕ → ℕ
packed_byte h low = bit_or (digit_value h * 16 % 256) low

-- `digits[i]`.
abbrev pub digit_at : ℕ → Bytes → Result ℕ
digit_at i digits = elim (get_elem? digits i) [ none ↦ err panic | some d ↦ ok d ]

-- `buf[i] = digits[i*2]<<4 | digits[i*2+1]` for the first `n` bytes.
unfoldable pub pack_pairs : ℕ → Bytes → Result Bytes
pack_pairs zero digits = ok []
pack_pairs (suc n) (h ∷ l ∷ digits) = do
  rest ← pack_pairs n digits
  ok (packed_byte h (digit_value l) ∷ rest)
pack_pairs (suc n) _ = err panic

-- The bytes of a packed field: its length, else what the precision needs, else what the digits need.
unfoldable pub packed_size : ℕ → ℕ → Bytes → ℕ
packed_size field_length precision digits =
    if ltb 0 field_length
    then field_length
    else if ltb 0 ((precision + 2) / 2)
    then (precision + 2) / 2
    else (length digits + 2) / 2

abbrev pub or_zero : Bytes → Bytes
or_zero [] = b'0' ∷ []
or_zero (d ∷ ds) = d ∷ ds

unfoldable pub pack_decimal_digits : Bytes → Bool → ℕ → ℕ → Result Bytes
pack_decimal_digits given negative field_length precision = do
  let digits = or_zero given
  let size = packed_size field_length precision digits
  let slots = (if ltb (size * 2 - 1) 1 then 1 else size * 2 - 1)
  let fitted = fit_digits slots digits
  pairs ← pack_pairs (size - 1) fitted
  last ← digit_at (length fitted - 1) fitted
  ok (pairs ++ (packed_byte last (if negative then 0x0D else 0x0C) ∷ []))

-- The bytes of a zoned field, with the sign in the last byte.
unfoldable pub zone_bytes : Bool → Bytes → Result Bytes
zone_bytes true [] = err panic
zone_bytes false [] = ok []
zone_bytes negative (d ∷ []) = ok (bit_or (if negative then 0xD0 else 0xF0) (digit_value d) ∷ [])
zone_bytes negative (d ∷ e ∷ digits) = do
  rest ← zone_bytes negative (e ∷ digits)
  ok (bit_or 0xF0 (digit_value d) ∷ rest)

unfoldable pub zoned_size : ℕ → ℕ → Bytes → ℕ
zoned_size field_length precision digits =
    if ltb 0 field_length
    then field_length
    else if ltb 0 precision
    then precision
    else length digits

unfoldable pub zone_decimal_digits : Bytes → Bool → ℕ → ℕ → Result Bytes
zone_decimal_digits given negative field_length precision =
    let digits = or_zero given in
    zone_bytes negative (fit_digits (zoned_size field_length precision digits) digits)
