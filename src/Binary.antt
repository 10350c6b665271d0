-- ===== src/Binary.antt =====
-- Go's encoding/binary over byte slices: big-endian words, and slices that panic out of range.
use i.Prelude.{
  ℕ, ◌+◌, ◌-◌, ◌*◌, ◌/◌, ◌%◌, ◌^◌, ◌≤◌, ◌<◌, ◌≡◌, Bytes, IsByte, [], ◌∷◌, length, take-all,
  length-drop, ap, ◌∙◌, take, drop, All, arith, leb, ◌&&◌, if◌then◌else◌,
}
use i.Errors.{Result, ok, err, panic, ◌>>=◌}

-- The number that bytes spell, the first one highest.
abbrev pub be_from : ℕ → Bytes → ℕ
be_from acc [] = acc
be_from acc (b ∷ bs) = be_from (acc * 256 + b) bs

abbrev pub be : Bytes → ℕ
be = be_from 0

abbrev pub put_u16 : ℕ → Bytes
put_u16 v = (v / 2 ^ 8 % 256) ∷ (v % 256) ∷ []

abbrev pub put_u32 : ℕ → Bytes
put_u32 v = (v / 2 ^ 24 % 256) ∷ (v / 2 ^ 16 % 256) ∷ (v / 2 ^ 8 % 256) ∷ (v % 256) ∷ []

-- `data[lo:hi]`.
unfoldable pub slice : ℕ → ℕ → Bytes → Result Bytes
slice lo hi d =
    if leb lo hi && leb hi (length d) then ok (take (hi - lo) (drop lo d)) else err panic

-- `binary.BigEndian.Uint16(data[at:at+2])`, and the same for Uint32.
unfoldable pub uint16_at : ℕ → Bytes → Result ℕ
unfolding slice
uint16_at at d = do s ← slice at (at + 2) d; ok (be s)

unfoldable pub uint32_at : ℕ → Bytes → Result ℕ
unfolding slice
uint32_at at d = do s ← slice at (at + 4) d; ok (be s)

pub slice_ok :
    (lo hi : ℕ) (d : Bytes)
    → lo ≤ hi
    → hi ≤ length d
    → slice lo hi d ≡ ok (take (hi - lo) (drop lo d))
unfolding slice
slice_ok lo hi d p q = ground arith

pub slice_to_end : (lo : ℕ) (d : Bytes) → lo ≤ length d → slice lo (length d) d ≡ ok (drop lo d)
slice_to_end lo d h =
    slice_ok lo (length d) d h (omega arith)
    ∙ ap ok (take-all _ (drop lo d) (omega (arith, length-drop lo d)))

pub uint16_at_ok :
    (at : ℕ) (d : Bytes) → at + 2 ≤ length d → uint16_at at d ≡ ok (be (take 2 (drop at d)))
unfolding uint16_at
uint16_at_ok at d h =
    let e : at + 2 - at ≡ 2 = omega arith in rw (slice_ok at (at + 2) d (omega arith) h, e)

pub uint32_at_ok :
    (at : ℕ) (d : Bytes) → at + 4 ≤ length d → uint32_at at d ≡ ok (be (take 4 (drop at d)))
unfolding uint32_at
uint32_at_ok at d h =
    let e : at + 4 - at ≡ 4 = omega arith in rw (slice_ok at (at + 4) d (omega arith) h, e)

pub be-put_u16 : (v : ℕ) → v < 2 ^ 16 → be (put_u16 v) ≡ v
be-put_u16 v h = omega arith

pub be-put_u32 : (v : ℕ) → v < 2 ^ 32 → be (put_u32 v) ≡ v
be-put_u32 v h = omega arith

-- Two or four bytes are the print of the word that they spell.
pub put_u16-be : (a b : ℕ) → IsByte a → IsByte b → put_u16 (be (a ∷ b ∷ [])) ≡ a ∷ b ∷ []
put_u16-be a b ha hb = grind arith

pub put_u32-be :
    (a b c d : ℕ)
    → IsByte a
    → IsByte b
    → IsByte c
    → IsByte d
    → put_u32 (be (a ∷ b ∷ c ∷ d ∷ [])) ≡ a ∷ b ∷ c ∷ d ∷ []
put_u32-be a b c d ha hb hc hd = grind arith

pub put_u16-IsByte : (v : ℕ) → All IsByte (put_u16 v)
put_u16-IsByte v = omega arith

pub put_u32-IsByte : (v : ℕ) → All IsByte (put_u32 v)
put_u32-IsByte v = omega arith
