-- ===== src/DateTime/Fields.antt =====
-- The fixed fields of a text.
use i.Prelude.{ℕ, ◌<◌, ◌≡◌, [], arith}
use i.Errors.{ok}
use i.DateTime.{digits_at, two_digits, four_digits}

-- Two printed digits are read back.
pub digits_at-two_digits : (i v : ℕ) → v < 100 → digits_at i 0 (two_digits v []) ≡ ok v
digits_at-two_digits i v p = ground arith

pub digits_at-four_digits : (i v : ℕ) → v < 10000 → digits_at i 0 (four_digits v []) ≡ ok v
digits_at-four_digits i v p = ground arith
