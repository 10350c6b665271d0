-- ===== src/Decimal/Nibbles.antt =====
-- Nibbles as arithmetic: tables over the byte, checked by evaluation.
use Prim.Native.Nat.{bit_or}
use i.Prelude.{
  ℕ, zero, suc, ◌+◌, ◌-◌, ◌*◌, ◌/◌, ◌%◌, ◌≤◌, ◌<◌, ◌≡◌, refl, Bool, true, ◌&&◌, ◌==◌, arith,
}
use i.Decimal.{high_nibble, low_nibble, packed_byte, digit_value}

-- Whether two functions agree on the numbers below a bound.
agree : (f g : ℕ → ℕ) → ℕ → Bool
agree f g zero = true
agree f g (suc bound) = agree f g bound && (f bound == g bound)

agree-at : (f g : ℕ → ℕ) (bound : ℕ) → agree f g bound ≡ true → (b : ℕ) → b < bound → f b ≡ g b
unfolding agree
agree-at f g zero table b p = absurd (omega arith)
agree-at f g (suc bound) table b p = ground (arith, agree-at f g bound _ b)

abbrev pub IsDigit : ℕ → Type 0
IsDigit d = (b'0' ≤ d) × (d ≤ b'9')

-- The nibbles put together are the byte.
join_table : agree (λ b. bit_or (b / 16 * 16 % 256) (b % 16)) (λ b. b) 256 ≡ true
unfolding agree
join_table = refl

high_table : agree high_nibble (λ b. b / 16) 256 ≡ true
unfolding agree high_nibble
high_table = refl

low_table : agree low_nibble (λ b. b % 16) 256 ≡ true
unfolding agree low_nibble
low_table = refl

pub high_nibble_lem : (x : ℕ) → x < 256 → high_nibble x ≡ x / 16
high_nibble_lem x h = agree-at _ _ 256 high_table x h

pub low_nibble_lem : (x : ℕ) → x < 256 → low_nibble x ≡ x % 16
low_nibble_lem x h = agree-at _ _ 256 low_table x h

pub join_nibbles : (h l : ℕ) → h < 16 → l < 16 → bit_or (h * 16 % 256) l ≡ h * 16 + l
join_nibbles h l p q =
    let high : (h * 16 + l) / 16 ≡ h = omega arith in
    let low : (h * 16 + l) % 16 ≡ l = omega arith in
    rw (high, low) at (agree-at _ _ 256 join_table (h * 16 + l) (omega arith))

pub packed_byte_lem : (h l : ℕ) → IsDigit h → l < 16 → packed_byte h l ≡ (h - b'0') * 16 + l
unfolding packed_byte
packed_byte_lem h l p q =
    let value : (h + 256 - b'0') % 256 ≡ h - b'0' = omega arith in
    rw value (join_nibbles (h - b'0') l (omega arith) q)

-- Both nibbles of a packed byte.
pub packed_byte_high : (h l : ℕ) → IsDigit h → l < 16 → high_nibble (packed_byte h l) ≡ h - b'0'
packed_byte_high h l p q =
    rw (packed_byte_lem h l p q, high_nibble_lem ((h - b'0') * 16 + l) (omega arith)) (omega arith)

pub packed_byte_low : (h l : ℕ) → IsDigit h → l < 16 → low_nibble (packed_byte h l) ≡ l
packed_byte_low h l p q =
    rw (packed_byte_lem h l p q, low_nibble_lem ((h - b'0') * 16 + l) (omega arith)) (omega arith)

pub digit_back : (d : ℕ) → IsDigit d → b'0' + (d - b'0') ≡ d
digit_back d h = omega arith

pub digit_value_lem : (d : ℕ) → IsDigit d → digit_value d ≡ d - b'0'
digit_value_lem d h = omega arith
