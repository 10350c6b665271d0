-- ===== src/Decimal/Packed.antt =====
-- Packed decimals: a packed field reads back as the digits that were packed.
use i.Prelude.{
  ℕ, zero, suc, ◌+◌, ◌-◌, ◌*◌, ◌≤◌, ◌<◌, ◌≡◌, ◌⊎◌, replicate, refl, ap, ◌∙◌, Bytes, [], ◌∷◌, ◌++◌,
  Bool, true, false, All, length, arith, append_assoc, le→ltb_false, length-append, if◌then◌else◌,
  pos,
}
use i.Errors.{ok}
use i.Decimal.{
  digit_nibble, packed_size, place_point, fit_digits, decimal_text, pack_decimal_digits,
  decode_packed_decimal_string, digit_nibble, packed_byte, digit_value, digit_at, packed_digits,
  pack_pairs,
}
use i.Decimal.Fit.{fit_digits-fit_digits, fit_digits_pads, length-fit_digits, All-fit_digits}
use i.Decimal.Nibbles.{IsDigit, packed_byte_high, packed_byte_low, digit_back, digit_value_lem}

-- A byte before the last one gives two digits.
packed_digits_more :
    (h l b : ℕ) (bs acc : Bytes)
    → IsDigit h
    → IsDigit l
    → packed_digits (packed_byte h (digit_value l) ∷ (bs ++ (b ∷ []))) acc
      ≡ packed_digits (bs ++ (b ∷ [])) (acc ++ (h ∷ l ∷ []))
unfolding packed_digits digit_nibble
packed_digits_more h l b [] acc hh hl = rw (
  packed_byte_high h (digit_value l) hh (omega arith),
  packed_byte_low h (digit_value l) hh (omega arith),
  le→ltb_false 9 (h - b'0') (omega arith),
  digit_value_lem l hl,
  le→ltb_false 9 (l - b'0') (omega arith),
  digit_back h hh,
  digit_back l hl,
)
packed_digits_more h l b (c ∷ bs) acc hh hl = rw (
  packed_byte_high h (digit_value l) hh (omega arith),
  packed_byte_low h (digit_value l) hh (omega arith),
  le→ltb_false 9 (h - b'0') (omega arith),
  digit_value_lem l hl,
  le→ltb_false 9 (l - b'0') (omega arith),
  digit_back h hh,
  digit_back l hl,
)

packed_digits_last :
    (d sign : ℕ) (acc : Bytes)
    → IsDigit d
    → 10 ≤ sign
    → sign < 16
    → packed_digits (packed_byte d sign ∷ []) acc ≡ ok (acc ++ (d ∷ []), sign)
unfolding packed_digits digit_nibble
packed_digits_last d sign acc h p q = rw (
  packed_byte_high d sign h q,
  packed_byte_low d sign h q,
  le→ltb_false 9 (d - b'0') (omega arith),
  le→ltb_false sign 10 p,
  digit_back d h,
)

-- Packing `2 * n + 1` digits and reading them back.
record Run (n sign : ℕ) (digits acc : Bytes) : Type 0 where
  pairs : Bytes
  last : ℕ
  size : length pairs ≡ n
  packs : pack_pairs n digits ≡ ok pairs
  ends : digit_at (length digits - 1) digits ≡ ok last
  reads : packed_digits (pairs ++ (packed_byte last sign ∷ [])) acc ≡ ok (acc ++ digits, sign)

pack-Run :
    (n sign : ℕ) (digits acc : Bytes)
    → All IsDigit digits
    → length digits ≡ 2 * n + 1
    → 10 ≤ sign
    → sign < 16
    → Run n sign digits acc
unfolding pack_pairs
pack-Run zero sign [] acc h e p q = absurd (omega arith)
pack-Run zero sign (d ∷ []) acc (h, _) e p q = record {
  pairs = [];
  last = d;
  size = refl;
  packs = refl;
  ends = refl;
  reads = packed_digits_last d sign acc h p q;
}
pack-Run zero sign (d ∷ c ∷ digits) acc h e p q = absurd (omega arith)
pack-Run (suc n) sign [] acc h e p q = absurd (omega arith)
pack-Run (suc n) sign (d ∷ []) acc h e p q = absurd (omega arith)
pack-Run (suc n) sign (d ∷ c ∷ digits) acc (hd, hds) e p q =
    let run = pack-Run n sign digits (acc ++ (d ∷ c ∷ [])) hds.1 (omega arith) p q in
    let before : suc (suc (length digits)) - 1 ≡ suc (suc (length digits - 1)) = omega arith in
    record {
      pairs = packed_byte d (digit_value c) ∷ run.pairs;
      last = run.last;
      size = ap suc run.size;
      packs = rw run.packs;
      ends = rw before run.ends;
      reads =
          packed_digits_more d c (packed_byte run.last sign) run.pairs acc hd hds.0
          ∙ run.reads
          ∙ rw append_assoc;
    }

-- The bytes that the field needs hold the precision.
abbrev pub FitsPacked : ℕ → ℕ → Type 0
FitsPacked field_length precision = (field_length ≡ 0) ⊎ (precision + 1 ≤ field_length * 2)

packed_room :
    (field_length precision : ℕ) (digits : Bytes)
    → FitsPacked field_length precision
    → (0 < packed_size field_length precision digits)
      × (precision ≤ packed_size field_length precision digits * 2 - 1)
unfolding packed_size
packed_room field_length precision digits h = ground arith

-- The text that stands for digits in a field of the given precision and scale.
abbrev pub plain_text : Bool → ℕ → ℕ → Bytes → Bytes
plain_text negative precision scale digits =
    let text = place_point scale (replicate (precision - length digits) b'0' ++ digits) in
    if negative then b'-' ∷ text else text

decimal_text_sign :
    (negative : Bool) (precision slots scale : ℕ) (digits : Bytes)
    → length digits ≤ precision
    → precision ≤ slots
    → decimal_text (if negative then 0x0D else 0x0C) precision scale (fit_digits slots digits)
      ≡ plain_text negative precision scale digits
unfolding decimal_text
decimal_text_sign true precision slots scale digits p q =
    rw (fit_digits-fit_digits precision slots digits p q, fit_digits_pads precision digits p)
decimal_text_sign false precision slots scale digits p q =
    rw (fit_digits-fit_digits precision slots digits p q, fit_digits_pads precision digits p)

decode_reads :
    (bs : Bytes) (b precision scale : ℕ) {digits : Bytes} {sign : ℕ}
    → packed_digits (bs ++ (b ∷ [])) [] ≡ ok (digits, sign)
    → decode_packed_decimal_string (bs ++ (b ∷ [])) (pos precision) scale
      ≡ ok (decimal_text sign precision scale digits)
unfolding decode_packed_decimal_string
decode_reads [] b precision scale e = rw e
decode_reads (c ∷ bs) b precision scale e = rw e

-- Packing one digit or more, no more than the precision, into a field that is large enough never fails,
-- fills the field, and the field reads back as the digits with their sign, padded to the precision.
pub decode-pack :
    (digits : Bytes) (negative : Bool) (field_length precision scale : ℕ)
    → All IsDigit digits
    → 0 < length digits
    → length digits ≤ precision
    → FitsPacked field_length precision
    → (field : Bytes) × (pack_decimal_digits digits negative field_length precision ≡ ok field)
      × (length field ≡ packed_size field_length precision digits)
      × (decode_packed_decimal_string field (pos precision) scale
          ≡ ok (plain_text negative precision scale digits))
decode-pack [] negative field_length precision scale h ne p fits = absurd (omega arith)
decode-pack (d ∷ ds) negative field_length precision scale h ne p fits = (
  run.pairs ++ (packed_byte run.last sign ∷ []),
  unfold pack_decimal_digits in
      rw (le→ltb_false (size * 2 - 1) 1 (omega (arith, room)), run.packs, run.ends),
  omega (arith, length-append {A = ℕ} run.pairs (packed_byte run.last sign ∷ []), run.size, room),
  decode_reads run.pairs (packed_byte run.last sign) precision scale run.reads
      ∙ ap ok (decimal_text_sign negative precision (size * 2 - 1) scale (d ∷ ds) p room.1),
)
  where
    size : ℕ
    size = packed_size field_length precision (d ∷ ds)

    sign : ℕ
    sign = if negative then 0x0D else 0x0C

    room : (0 < size) × (precision ≤ size * 2 - 1)
    room = packed_room field_length precision (d ∷ ds) fits

    fitted : Bytes
    fitted = fit_digits (size * 2 - 1) (d ∷ ds)

    run : Run (size - 1) sign fitted []
    run =
        pack-Run (size - 1) sign fitted [] (All-fit_digits (size * 2 - 1) (d ∷ ds) h)
          (omega (arith, length-fit_digits (size * 2 - 1) (d ∷ ds), room)) (ground arith)
          (ground arith)
