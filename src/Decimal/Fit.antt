-- ===== src/Decimal/Fit.antt =====
-- Fitting digits to a size: what is kept, and that a longer field keeps the digits.
use i.Prelude.{
  ℕ, ◌-◌, ◌≤◌, ◌≡◌, Bytes, ◌++◌, All, All-append, All-drop, length, drop, replicate, ltb,
  length-append, length-drop, length-replicate, drop-replicate, All-replicate, le→ltb_false, ltb→lt,
  ltb_false→le, ap, ◌∙◌, Bool-cases, inl, inr, arith,
}
use i.Decimal.{fit_digits}
use i.Decimal.Nibbles.{IsDigit}

pub fit_digits_pads :
    (size : ℕ) (digits : Bytes)
    → length digits ≤ size
    → fit_digits size digits ≡ replicate (size - length digits) b'0' ++ digits
unfolding fit_digits
fit_digits_pads size digits h = elim (Bool-cases (ltb (length digits) size)) [
  | inl short ↦ rw (le→ltb_false size (length digits) h, short)
  | inr same ↦
      let none_left : size - length digits ≡ 0 = ground arith in
      rw (le→ltb_false size (length digits) h, same, none_left)
]

pub fit_digits_cuts :
    (size : ℕ) (digits : Bytes)
    → size ≤ length digits
    → fit_digits size digits ≡ drop (length digits - size) digits
unfolding fit_digits
fit_digits_cuts size digits h = elim (Bool-cases (ltb size (length digits))) [
  | inl long ↦ rw long
  | inr same ↦
      let none_left : length digits - size ≡ 0 = ground arith in
      rw (same, le→ltb_false (length digits) size h, none_left)
]

pub length-fit_digits : (size : ℕ) (digits : Bytes) → length (fit_digits size digits) ≡ size
length-fit_digits size digits = elim (Bool-cases (ltb size (length digits))) [
  | inl long ↦
      rw (fit_digits_cuts size digits (ground arith))
        (omega (arith, length-drop (length digits - size) digits, ltb→lt _ _ long))
  | inr short ↦ rw (fit_digits_pads size digits (ground arith)) (
      omega (
        arith,
        length-append {A = ℕ} (replicate (size - length digits) b'0') digits,
        length-replicate {A = ℕ} (size - length digits) b'0',
        ltb_false→le size (length digits) short,
      ))
]

pub All-fit_digits :
    (size : ℕ) (digits : Bytes) → All IsDigit digits → All IsDigit (fit_digits size digits)
All-fit_digits size digits h = elim (Bool-cases (ltb size (length digits))) [
  | inl long ↦ rw (fit_digits_cuts size digits (ground arith)) (All-drop IsDigit _ digits h)
  | inr short ↦
      rw (fit_digits_pads size digits (ground arith)) (All-append IsDigit _ digits (All-zeros _) h)
]
  where
    All-zeros : (n : ℕ) → All IsDigit (replicate n b'0')
    All-zeros n = All-replicate IsDigit n b'0' (omega arith)

-- A field with room for the precision gives back the digits at the precision.
pub fit_digits-fit_digits :
    (precision slots : ℕ) (digits : Bytes)
    → length digits ≤ precision
    → precision ≤ slots
    → fit_digits precision (fit_digits slots digits) ≡ fit_digits precision digits
fit_digits-fit_digits precision slots digits p q =
    fit_digits_cuts precision (fit_digits slots digits) (omega (arith, size))
    ∙ rw
        (
          size,
          fit_digits_pads slots digits (omega arith),
          drop-replicate (slots - precision) (slots - length digits) b'0' digits (omega arith),
          fit_digits_pads precision digits p,
        )
        (ap (λ n. replicate n b'0' ++ digits) (omega arith))
  where
    size : length (fit_digits slots digits) ≡ slots
    size = length-fit_digits slots digits
