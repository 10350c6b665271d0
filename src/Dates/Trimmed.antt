-- ===== src/Dates/Trimmed.antt =====
-- Text that starts and ends with a byte that is no space, and that is not all zeros, is read as it is.
use i.Prelude.{
  ℕ, ◌+◌, ◌<◌, ◌≡◌, refl, ap, ◌∙◌, Bytes, [], ◌∷◌, ◌++◌, arith, ◌&&◌, ◌==◌, not, Bool, true, false,
  if◌then◌else◌, is_pos,
}
use i.Text.{trim_space, trim_left, trim_right, is_space}
use i.Dates.{all_zeros, DateSettings, date_sep}

abbrev pub dark_end : Bytes → Bool
dark_end [] = false
dark_end (c ∷ []) = not (is_space c)
dark_end (c ∷ d ∷ s) = dark_end (d ∷ s)

trim_right-dark : (s : Bytes) → dark_end s ≡ true → trim_right s ≡ s
unfolding trim_right
trim_right-dark [] h = refl
trim_right-dark (c ∷ []) h = either (is_space c) h
  where
    either : (t : Bool) → not t ≡ true → (if t then [] else c ∷ []) ≡ c ∷ []
    either true e = cc
    either false e = refl
trim_right-dark (c ∷ d ∷ s) h = rw (trim_right-dark (d ∷ s) h) refl

trim_left-dark : (c : ℕ) (s : Bytes) → is_space c ≡ false → trim_left (c ∷ s) ≡ c ∷ s
unfolding trim_left
trim_left-dark c s h = either (is_space c) h
  where
    either : (t : Bool) → t ≡ false → elim t [ true ↦ trim_left s | false ↦ c ∷ s ] ≡ c ∷ s
    either true e = cc
    either false e = refl

pub trim_space-dark :
    (c : ℕ) (s : Bytes) → is_space c ≡ false → dark_end (c ∷ s) ≡ true → trim_space (c ∷ s) ≡ c ∷ s
unfolding trim_space
trim_space-dark c s h e = ap trim_right (trim_left-dark c s h) ∙ trim_right-dark (c ∷ s) e

pub is_space-digit : (d : ℕ) → d < 10 → is_space (b'0' + d) ≡ false
is_space-digit d p = ground arith

pub all_zeros-separated :
    (s : Bytes) (sep : ℕ) (rest : Bytes)
    → (sep == b'0') ≡ false
    → all_zeros (s ++ sep ∷ rest) ≡ false
unfolding all_zeros
all_zeros-separated [] sep rest h = rw h refl
all_zeros-separated (c ∷ s) sep rest h = rw (all_zeros-separated s sep rest h) (either (c == b'0'))
  where
    either : (t : Bool) → (t && false) ≡ false
    either true = refl
    either false = refl

pub date_sep-nonzero : (cfg : DateSettings) → (date_sep cfg == b'0') ≡ false
date_sep-nonzero cfg =
    either (is_pos 1 cfg.date_separator) (is_pos 2 cfg.date_separator) (is_pos 3 cfg.date_separator)
      (is_pos 4 cfg.date_separator)
  where
    either :
        (a b c d : Bool)
        → ((if a then b'-' else if b then b'.' else if c then b',' else if d then b' ' else b'/')
            == b'0')
          ≡ false
    either true b c d = refl
    either false true c d = refl
    either false false true d = refl
    either false false false true = refl
    either false false false false = refl
