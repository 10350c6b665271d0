-- ===== src/Text.antt =====
-- Go's strings and fmt on ASCII text, which is a list of bytes: trimming, upper case, prefixes and
-- the hexadecimal and decimal prints that the driver makes.
use Prim.Native.Char.{code}
use Prim.Native.String.{String}
use i.Prelude.{
  ℕ, zero, suc, ◌+◌, ◌-◌, ◌/◌, ◌%◌, Bytes, [], ◌∷◌, ◌++◌, Bool, true, false, ◌&&◌, ◌||◌, ◌==◌, ltb,
  leb, if◌then◌else◌, ◌≡◌, refl, ap, ◌∙◌, ==_iff, arith,
}

-- The bytes of a literal.
abbrev pub codes : String → Bytes
codes String.[] = []
codes (String.◌∷◌ c s) = code c ∷ codes s

-- `unicode.IsSpace` on ASCII.
abbrev pub is_space : ℕ → Bool
is_space c = (leb b'\t' c && leb c b'\r') || c == b' '

unfoldable pub trim_left : Bytes → Bytes
trim_left [] = []
trim_left (c ∷ s) = elim (is_space c) [ true ↦ trim_left s | false ↦ c ∷ s ]

-- A character in front of trimmed text.
abbrev pub keep_before : ℕ → Bytes → Bytes
keep_before c [] = if is_space c then [] else c ∷ []
keep_before c (d ∷ t) = c ∷ d ∷ t

unfoldable pub trim_right : Bytes → Bytes
trim_right [] = []
trim_right (c ∷ s) = keep_before c (trim_right s)

-- `strings.TrimSpace`.
unfoldable pub trim_space : Bytes → Bytes
unfolding trim_left trim_right
trim_space s = trim_right (trim_left s)

-- `strings.ToUpper`.
abbrev pub upper : ℕ → ℕ
upper c = if leb b'a' c && leb c b'z' then c - 32 else c

unfoldable pub to_upper : Bytes → Bytes
to_upper [] = []
to_upper (c ∷ s) = upper c ∷ to_upper s

-- `strings.ToLower`.
abbrev pub lower : ℕ → ℕ
lower c = if leb b'A' c && leb c b'Z' then c + 32 else c

unfoldable pub to_lower : Bytes → Bytes
to_lower [] = []
to_lower (c ∷ s) = lower c ∷ to_lower s

-- `strings.HasPrefix`.
unfoldable pub has_prefix : Bytes → Bytes → Bool
has_prefix s [] = true
has_prefix [] (c ∷ p) = false
has_prefix (d ∷ s) (c ∷ p) = d == c && has_prefix s p

abbrev pub is_empty : Bytes → Bool
is_empty [] = true
is_empty (c ∷ s) = false

abbrev pub hex_digit : ℕ → ℕ
hex_digit n = if ltb n 10 then b'0' + n else b'A' + (n - 10)

-- `%0nX` of a number below 16 ^ n.
unfoldable pub hex : ℕ → ℕ → Bytes
hex zero v = []
hex (suc n) v = hex n (v / 16) ++ (hex_digit (v % 16) ∷ [])

-- `==` on strings.
abbrev pub bytes_eq : Bytes → Bytes → Bool
bytes_eq [] [] = true
bytes_eq [] (d ∷ t) = false
bytes_eq (c ∷ s) [] = false
bytes_eq (c ∷ s) (d ∷ t) = c == d && bytes_eq s t

pub bytes_eq_same : (s t : Bytes) → bytes_eq s t ≡ true → s ≡ t
bytes_eq_same [] [] h = refl
bytes_eq_same [] (d ∷ t) h = ground arith
bytes_eq_same (c ∷ s) [] h = ground arith
bytes_eq_same (c ∷ s) (d ∷ t) h = either (c == d) refl h (bytes_eq_same s t)
  where
    either :
        (b : Bool)
        → (c == d) ≡ b
        → (b && bytes_eq s t) ≡ true
        → (bytes_eq s t ≡ true → s ≡ t)
        → c ∷ s ≡ d ∷ t
    either true e k same = ap (◌∷ s) ((==_iff c d).0 e) ∙ ap (d ∷◌) (same k)
    either false e k same = ground arith
