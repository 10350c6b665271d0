-- ===== src/GeneratedKeys/Noise.antt =====
-- Blanks and comments in front of a statement do not change whether it is an INSERT.
use i.Prelude.{
  ℕ, zero, suc, ◌<◌, ◌≡◌, refl, sym, ap, ◌∙◌, Bytes, List, [], ◌∷◌, ◌++◌, append_assoc,
  length-append, length-drop, All, Bool, true, false, Option, none, some, length, drop, arith,
  if◌then◌else◌,
}
use i.Text.{has_prefix, is_space, trim_left}
use i.Wire.Walk.{Turn, next, done}
use i.GeneratedKeys.{
  after_newline, after_end, behind, noise_round, skip_noise, skip_leading_sql_noise,
  is_insert_statement, begins_insert,
}
use i.GeneratedKeys.Comments.{
  Noise, blank, line, block, print, print_all, IsNoise, length-trim_left, Shorter,
  after_newline-Shorter, after_newline-append, after_end-Shorter, after_end-append,
}

-- What a round leaves is shorter than its text.
abbrev Less : Bytes → Turn Bytes Bytes → Type 0
Less s (done r) = Unit {0}
Less s (next r) = length r < length s

behind-Less : (s : Bytes) (o : Option Bytes) → Shorter s o → Less s (behind o)
behind-Less s none h = tt
behind-Less s (some t) h = h

drop-Shorter : (n : ℕ) (s : Bytes) (o : Option Bytes) → Shorter (drop n s) o → Shorter s o
drop-Shorter n s none h = tt
drop-Shorter n s (some t) h = omega (arith, h, length-drop {0} n s)

noise_round-Less : (s : Bytes) → Less s (noise_round s)
unfolding noise_round
noise_round-Less s = either (has_prefix s (b'-' ∷ b'-' ∷ [])) (has_prefix s (b'/' ∷ b'*' ∷ []))
  where
    either :
        (t u : Bool)
        → Less s (
            if t
            then behind (after_newline s)
            else if u
            then behind (after_end (drop 2 s))
            else done s)
    either true u = behind-Less s (after_newline s) (after_newline-Shorter s)
    either false true =
        behind-Less s (after_end (drop 2 s))
          (drop-Shorter 2 s (after_end (drop 2 s)) (after_end-Shorter (drop 2 s)))
    either false false = tt

-- Fuel for every byte and one round more is enough.
skip_noise-fuel :
    (n m : ℕ) (s : Bytes) → length s < n → length s < m → skip_noise n s ≡ skip_noise m s
unfolding skip_noise
skip_noise-fuel zero m s h k = absurd (omega (arith, h))
skip_noise-fuel (suc n) zero s h k = absurd (omega (arith, k))
skip_noise-fuel (suc n) (suc m) s h k =
    either (noise_round (trim_left s)) (noise_round-Less (trim_left s)) (λ r less.
      skip_noise-fuel n m r (omega (arith, less, h, length-trim_left s))
        (omega (arith, less, k, length-trim_left s)))
  where
    either :
        (t : Turn Bytes Bytes)
        → Less (trim_left s) t
        → ((r : Bytes) → length r < length (trim_left s) → skip_noise n r ≡ skip_noise m r)
        → ◌≡◌ {A = Bytes}
            (elim t [ done r ↦ r | next r ↦ skip_noise n r ])
            (elim t [ done r ↦ r | next r ↦ skip_noise m r ])
    either (done r) less later = refl
    either (next r) less later = later r less

abbrev taken : ℕ → Turn Bytes Bytes → Bytes
taken n (done r) = r
taken n (next r) = skip_noise n r

skip_round : (n : ℕ) (s : Bytes) → skip_noise (suc n) s ≡ taken n (noise_round (trim_left s))
unfolding skip_noise
skip_round n s = either (noise_round (trim_left s))
  where
    either :
        (t : Turn Bytes Bytes)
        → ◌≡◌ {A = Bytes} (elim t [ done r ↦ r | next r ↦ skip_noise n r ]) (taken n t)
    either (done r) = refl
    either (next r) = refl

trim_left-blank : (c : ℕ) (s : Bytes) → is_space c ≡ true → trim_left (c ∷ s) ≡ trim_left s
unfolding trim_left
trim_left-blank c s h = either (is_space c) h
  where
    either : (t : Bool) → t ≡ true → (elim t [ true ↦ trim_left s | false ↦ c ∷ s ]) ≡ trim_left s
    either true e = refl
    either false e = ground arith

line_round : (s : Bytes) → noise_round (trim_left (b'-' ∷ b'-' ∷ s)) ≡ behind (after_newline s)
unfolding noise_round trim_left has_prefix after_newline
line_round s = refl

block_round : (s : Bytes) → noise_round (trim_left (b'/' ∷ b'*' ∷ s)) ≡ behind (after_end s)
unfolding noise_round trim_left has_prefix
block_round s = refl

-- Rounds on a text that begins with noise.
skip_noise-print :
    (n m : ℕ) (x : Noise) (s : Bytes)
    → IsNoise x
    → length (print x ++ s) < n
    → length s < m
    → skip_noise n (print x ++ s) ≡ skip_noise m s
skip_noise-print zero m x s h k l = absurd (omega (arith, k))
skip_noise-print (suc n) m (blank c) s h k l =
    skip_round n (c ∷ s)
    ∙ ap (λ t. taken n (noise_round t)) (trim_left-blank c s h)
    ∙ sym (skip_round n s)
    ∙ skip_noise-fuel (suc n) m s (omega (arith, k)) l
skip_noise-print (suc n) m (line t) s h k l =
    skip_round n (print (line t) ++ s)
    ∙ ap (taken n) (
        line_round ((t ++ (b'\n' ∷ [])) ++ s)
        ∙ ap (λ u. behind (after_newline u)) (append_assoc t (b'\n' ∷ []) s)
        ∙ ap behind (after_newline-append t s h))
    ∙ skip_noise-fuel n m s (omega (arith, k, length-append {0} (t ++ (b'\n' ∷ [])) s)) l
skip_noise-print (suc n) m (block t) s h k l =
    skip_round n (print (block t) ++ s)
    ∙ ap (taken n) (
        block_round ((t ++ (b'*' ∷ b'/' ∷ [])) ++ s)
        ∙ ap (λ u. behind (after_end u)) (append_assoc t (b'*' ∷ b'/' ∷ []) s)
        ∙ ap behind (after_end-append t s h))
    ∙ skip_noise-fuel n m s (omega (arith, k, length-append {0} (t ++ (b'*' ∷ b'/' ∷ [])) s)) l

-- A text that begins with blanks and comments is an INSERT exactly where what follows them is one.
pub is_insert_statement-print :
    (noise : List Noise) (query : Bytes)
    → All IsNoise noise
    → is_insert_statement (print_all noise ++ query) ≡ is_insert_statement query
unfolding is_insert_statement skip_leading_sql_noise
is_insert_statement-print [] query h = refl
is_insert_statement-print (x ∷ noise) query (h, hs) =
    let rest : Bytes = print_all noise ++ query in
    ap (λ s. is_insert_statement s) (append_assoc (print x) (print_all noise) query)
    ∙ ap begins_insert (
        skip_noise-print (suc (length (print x ++ rest))) (suc (length rest)) x rest h (omega arith)
          (omega arith))
    ∙ is_insert_statement-print noise query hs
