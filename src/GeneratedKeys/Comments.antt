-- ===== src/GeneratedKeys/Comments.antt =====
-- Where a comment ends, and that what stands behind it is shorter.
use i.Prelude.{
  ℕ, suc, ◌≤◌, ◌<◌, ◌≡◌, refl, Bytes, List, [], ◌∷◌, ◌++◌, length-drop, Bool, true, false, ◌&&◌,
  ◌==◌, Option, none, some, length, drop, arith,
}
use i.Text.{has_prefix, is_space, trim_left}
use i.GeneratedKeys.{after_newline, after_end}

-- A blank, a line comment, or a block comment.
pub data Noise : Type 0 where
  blank : ℕ → Noise
  line : Bytes → Noise
  block : Bytes → Noise

abbrev pub print : Noise → Bytes
print (blank c) = c ∷ []
print (line t) = b'-' ∷ b'-' ∷ (t ++ (b'\n' ∷ []))
print (block t) = b'/' ∷ b'*' ∷ (t ++ (b'*' ∷ b'/' ∷ []))

abbrev pub print_all : List Noise → Bytes
print_all [] = []
print_all (x ∷ noise) = print x ++ print_all noise

-- A line comment has no newline in it, and a block comment no end.
abbrev pub IsNoise : Noise → Type 0
IsNoise (blank c) = is_space c ≡ true
IsNoise (line t) = after_newline t ≡ none
IsNoise (block t) = after_end t ≡ none

pub length-trim_left : (s : Bytes) → length (trim_left s) ≤ length s
unfolding trim_left
length-trim_left [] = omega arith
length-trim_left (c ∷ s) = either (is_space c) (length-trim_left s)
  where
    either :
        (t : Bool)
        → length (trim_left s) ≤ length s
        → length (elim t [ true ↦ trim_left s | false ↦ c ∷ s ]) ≤ suc (length s)
    either true h = omega (arith, h)
    either false h = omega arith

-- What is left behind a comment is shorter.
abbrev pub Shorter : Bytes → Option Bytes → Type 0
Shorter s none = Unit {0}
Shorter s (some t) = length t < length s

pub Shorter-later : (c : ℕ) (s : Bytes) (o : Option Bytes) → Shorter s o → Shorter (c ∷ s) o
Shorter-later c s none h = tt
Shorter-later c s (some t) h = omega (arith, h)

pub after_newline-Shorter : (s : Bytes) → Shorter s (after_newline s)
unfolding after_newline
after_newline-Shorter [] = tt
after_newline-Shorter (c ∷ s) =
    either (c == b'\n') (Shorter-later c s (after_newline s) (after_newline-Shorter s))
  where
    either :
        (t : Bool)
        → Shorter (c ∷ s) (after_newline s)
        → Shorter (c ∷ s) (elim t [ true ↦ some s | false ↦ after_newline s ])
    either true h = omega arith
    either false h = h

pub after_newline-append :
    (t s : Bytes) → after_newline t ≡ none → after_newline (t ++ (b'\n' ∷ s)) ≡ some s
unfolding after_newline
after_newline-append [] s h = refl
after_newline-append (c ∷ t) s h = either (c == b'\n') h (after_newline-append t s)
  where
    either :
        (u : Bool)
        → (elim u [ true ↦ some t | false ↦ after_newline t ]) ≡ none
        → (after_newline t ≡ none → after_newline (t ++ (b'\n' ∷ s)) ≡ some s)
        → (elim u [ true ↦ some (t ++ (b'\n' ∷ s)) | false ↦ after_newline (t ++ (b'\n' ∷ s)) ])
          ≡ some s
    either true h later = ground arith
    either false h later = later h

pub after_end-Shorter : (s : Bytes) → Shorter s (after_end s)
unfolding after_end
after_end-Shorter [] = tt
after_end-Shorter (c ∷ s) =
    either (c == b'*' && has_prefix s (b'/' ∷ []))
      (Shorter-later c s (after_end s) (after_end-Shorter s))
  where
    either :
        (t : Bool)
        → Shorter (c ∷ s) (after_end s)
        → Shorter (c ∷ s) (elim t [ true ↦ some (drop 1 s) | false ↦ after_end s ])
    either true h = omega (arith, length-drop {0} 1 s)
    either false h = h

pub slash-append :
    (t s : Bytes) → has_prefix (t ++ (b'*' ∷ s)) (b'/' ∷ []) ≡ has_prefix t (b'/' ∷ [])
unfolding has_prefix
slash-append [] s = refl
slash-append (d ∷ t) s = refl

pub after_end-append :
    (t s : Bytes) → after_end t ≡ none → after_end (t ++ (b'*' ∷ b'/' ∷ s)) ≡ some s
unfolding after_end
after_end-append [] s h = unfold has_prefix in refl
after_end-append (c ∷ t) s h =
    rw (slash-append t (b'/' ∷ s), after_end)
      (either (c == b'*' && has_prefix t (b'/' ∷ [])) h (after_end-append t s))
  where
    either :
        (u : Bool)
        → (elim u [ true ↦ some (drop 1 t) | false ↦ after_end t ]) ≡ none
        → (after_end t ≡ none → after_end (t ++ (b'*' ∷ b'/' ∷ s)) ≡ some s)
        → (elim u [
          | true ↦ some (drop 1 (t ++ (b'*' ∷ b'/' ∷ s)))
          | false ↦ after_end (t ++ (b'*' ∷ b'/' ∷ s))
        ])
          ≡ some s
    either true h later = ground arith
    either false h later = later h
