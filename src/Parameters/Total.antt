-- ===== src/Parameters/Total.antt =====
-- The readers of a parameter marker format index no payload out of range.
use i.Prelude.{
  leb→le, ltb_false→le, ℕ, zero, suc, ◌+◌, ◌*◌, ◌<◌, ◌≤◌, ◌≡◌, ◌≢◌, refl, Bytes, [], ◌∷◌, Bool,
  true, false, Option, none, length, arith, ltb, leb, ◌==◌, ◌&&◌, if◌then◌else◌, inl, inr,
}
use i.Errors.{Result, ok, err, ◌>>=◌, panic, parameter_format_too_short}
use i.Binary.{slice, slice_ok, uint16_at, uint32_at, uint16_at_ok, uint32_at_ok}
use i.Wire.{parse_llcp}
use i.Wire.Items.{parse_llcp_total}
use i.Wire.Walk.{scan-holds}
use i.Parameters.{ParameterMarkerField, ParameterMarkerFormat}
use i.Parameters.Parse.{
  byte_at, read_fields, field_name, original_field, extended_field, super_extended_field,
  wide_field, extended_name, trimmed, format_of, read_records, format_round, with_point,
  parse_original_parameter_marker_format, parse_extended_parameter_marker_format,
  parse_super_extended_parameter_marker_format, parse_parameter_marker_format_from_payload,
}

-- A call that returns no error.
abbrev Answers : {A : Type 0} → Result A → Type 0
Answers {A} r = (a : A) × (r ≡ ok a)

-- A call that answers goes on with its value.
then-Answers :
    {A B : Type 0} (m : Result A) (f : A → Result B)
    → Answers m
    → ((a : A) → Answers (f a))
    → Answers (m >>= f)
then-Answers (ok a) f h k = k a
then-Answers (err e) f (a, h) k = cc

u16-Answers : (at : ℕ) (d : Bytes) → at + 2 ≤ length d → Answers (uint16_at at d)
u16-Answers at d h = (_, uint16_at_ok at d h)

u32-Answers : (at : ℕ) (d : Bytes) → at + 4 ≤ length d → Answers (uint32_at at d)
u32-Answers at d h = (_, uint32_at_ok at d h)

byte-Answers : (at : ℕ) (d : Bytes) → at < length d → Answers (byte_at at d)
unfolding byte_at
byte-Answers at [] h = absurd (omega arith)
byte-Answers zero (b ∷ d) h = (b, refl)
byte-Answers (suc at) (b ∷ d) h = byte-Answers at d (omega arith)

module _ (decode : Bytes → ℕ → Option Bytes) where
  field_name-Answers : (at n ccsid : ℕ) (d : Bytes) → Answers (field_name decode at n ccsid d)
  unfolding field_name
  field_name-Answers at n ccsid d = either (ltb 0 n) (leb (at + n) (length d)) refl
    where
      either :
          (t u : Bool)
          → leb (at + n) (length d) ≡ u
          → Answers (
              if t && u
              then slice at (at + n) d >>= (λ s. ok (trimmed decode (decode s ccsid)))
              else ok [])
      either false u e = ([], refl)
      either true false e = ([], refl)
      either true true e =
          then-Answers (slice at (at + n) d) _
            (_, slice_ok at (at + n) d (omega arith) (leb→le _ _ e)) (λ s. (_, refl))

  original_field-Answers :
      (d : Bytes) (base : ℕ) → base + 54 ≤ length d → Answers (original_field decode d base)
  unfolding original_field
  original_field-Answers d base h = then-Answers _ _ (u16-Answers (base + 2) d (omega arith)) (λ t.
      then-Answers _ _ (u16-Answers (base + 4) d (omega arith)) (λ w.
        then-Answers _ _ (u16-Answers (base + 6) d (omega arith)) (λ s.
          then-Answers _ _ (u16-Answers (base + 8) d (omega arith)) (λ p.
            then-Answers _ _ (u16-Answers (base + 10) d (omega arith)) (λ c.
              then-Answers _ _ (byte-Answers (base + 12) d (omega arith)) (λ m.
                then-Answers _ _ (u16-Answers (base + 28) d (omega arith)) (λ n.
                  then-Answers _ _ (u16-Answers (base + 30) d (omega arith)) (λ k.
                    then-Answers _ _ (field_name-Answers (base + 32) n k d)
                      (λ name. (_, refl))))))))))

-- The loop over records, where each that lies within the payload is read.
module _ (read : ℕ → Result ParameterMarkerField) (d : Bytes) (stride : ℕ)
    (reads : (base : ℕ) → base + stride ≤ length d → Answers (read base)) where
  read_fields-Answers :
      (base count : ℕ)
      → base + count * stride ≤ length d
      → Answers (read_fields read stride base count)
  unfolding read_fields
  read_fields-Answers base zero h = ([], refl)
  read_fields-Answers base (suc count) h =
      then-Answers (read base) _ (reads base (grind arith)) (λ f.
        then-Answers (read_fields read stride (base + stride) count) _
          (read_fields-Answers (base + stride) count (grind arith)) (λ fs. (f ∷ fs, refl)))

  read_records_safe :
      (header count size : ℕ) → read_records read header stride count size d ≢ err panic
  read_records_safe header count size =
      either (count == 0) (ltb (length d) (header + count * stride)) refl
    where
      either :
          (t u : Bool)
          → ltb (length d) (header + count * stride) ≡ u
          → (if t
              then ok (format_of size [])
              else if u
              then err (parameter_format_too_short (length d))
              else read_fields read stride header count >>= λ fields. ok (format_of size fields))
            ≢ err panic
      either true u e h = ground arith
      either false true e h = ground arith
      either false false e h =
          let (fs, reads_all) = read_fields-Answers header count (ltb_false→le _ _ e) in
          cc (rw reads_all at h)

wide_field-Answers :
    (named : ℕ → Result Bytes) (d : Bytes) (base : ℕ)
    → base + 48 ≤ length d
    → Answers (named base)
    → Answers (wide_field named d base)
wide_field-Answers named d base h k =
    then-Answers _ _ (u16-Answers (base + 2) d (omega arith)) (λ t.
      then-Answers _ _ (u32-Answers (base + 4) d (omega arith)) (λ w.
        then-Answers _ _ (u16-Answers (base + 8) d (omega arith)) (λ s.
          then-Answers _ _ (u16-Answers (base + 10) d (omega arith)) (λ p.
            then-Answers _ _ (u16-Answers (base + 12) d (omega arith)) (λ c.
              then-Answers _ _ (byte-Answers (base + 14) d (omega arith)) (λ m.
                then-Answers _ _ (u32-Answers (base + 17) d (omega arith)) (λ l.
                  then-Answers _ _ (u32-Answers (base + 26) d (omega arith))
                    (λ x. then-Answers _ _ k (λ name. (_, refl))))))))))

extended_field-Answers :
    (decode : Bytes → ℕ → Option Bytes) (d : Bytes) (base : ℕ)
    → base + 64 ≤ length d
    → Answers (extended_field decode d base)
unfolding extended_field
extended_field-Answers decode d base h =
    wide_field-Answers (extended_name decode d) d base (omega arith) (
      then-Answers _ _ (u16-Answers (base + 30) d (omega arith)) (λ n.
        then-Answers _ _ (u16-Answers (base + 32) d (omega arith))
          (λ c. field_name-Answers decode (base + 34) n c d)))

super_extended_field-Answers :
    (d : Bytes) (base : ℕ) → base + 48 ≤ length d → Answers (super_extended_field d base)
unfolding super_extended_field
super_extended_field-Answers d base h = wide_field-Answers (λ at. ok []) d base h ([], refl)

-- A reader with a header of two tests and two words.
header_safe :
    {A : Type 0} (d : Bytes) (header : ℕ) (first second : Result ℕ) (go : ℕ → ℕ → Result (Option A))
    → (header ≤ length d → Answers first × Answers second)
    → ((n m : ℕ) → go n m ≢ err panic)
    → (if length d == 0
        then ok none
        else if ltb (length d) header
        then err (parameter_format_too_short (length d))
        else first >>= λ n. second >>= λ m. go n m)
      ≢ err panic
header_safe d header first second go words safe =
    either (length d == 0) (ltb (length d) header) refl
  where
    either :
        (t u : Bool)
        → ltb (length d) header ≡ u
        → (if t
            then ok none
            else if u
            then err (parameter_format_too_short (length d))
            else first >>= λ n. second >>= λ m. go n m)
          ≢ err panic
    either true u e h = ground arith
    either false true e h = ground arith
    either false false e h =
        let ((n, one), (m, two)) = words (ltb_false→le _ _ e) in safe n m (rw (one, two) at h)

module _ (decode : Bytes → ℕ → Option Bytes) where
  original_safe : (d : Bytes) → parse_original_parameter_marker_format decode d ≢ err panic
  unfolding parse_original_parameter_marker_format
  original_safe d =
      header_safe d 8 _ _ _ (λ h. (u16-Answers 4 d (omega arith), u16-Answers 6 d (omega arith)))
        (λ n m.
          read_records_safe (original_field decode d) d 54
            (λ base k. original_field-Answers decode d base k) 8 n m)

  extended_safe : (d : Bytes) → parse_extended_parameter_marker_format decode d ≢ err panic
  unfolding parse_extended_parameter_marker_format
  extended_safe d =
      header_safe d 16 _ _ _ (λ h. (u32-Answers 4 d (omega arith), u32-Answers 12 d (omega arith)))
        (λ n m.
          read_records_safe (extended_field decode d) d 64
            (λ base k. extended_field-Answers decode d base k) 16 n m)

super_extended_safe : (d : Bytes) → parse_super_extended_parameter_marker_format d ≢ err panic
unfolding parse_super_extended_parameter_marker_format
super_extended_safe d =
    header_safe d 16 _ _ _ (λ h. (u32-Answers 4 d (omega arith), u32-Answers 12 d (omega arith)))
      (λ n m.
        read_records_safe (super_extended_field d) d 48
          (λ base k. super_extended_field-Answers d base k) 16 n m)

with_point_safe :
    (c : ℕ) (r : Result (Option ParameterMarkerFormat)) → r ≢ err panic → with_point c r ≢ err panic
with_point_safe c (err e) h k = h (ground arith)
with_point_safe c (ok f) h k = ground arith

parse_llcp_safe : (d : Bytes) → parse_llcp d ≢ err panic
parse_llcp_safe d h = elim (parse_llcp_total d) [
  | inl (_, fails) ↦ ground arith
  | inr (inl (_, _, fails)) ↦ ground arith
  | inr (inr (inl (_, _, fails))) ↦ ground arith
  | inr (inr (inr (_, _, reads))) ↦ ground arith
]

module _ (decode : Bytes → ℕ → Option Bytes) where
  -- No payload of any length and content makes the readers index out of its range, in none of the three
  -- layouts and whatever the counts, lengths and offsets in it say.
  pub parse_parameter_marker_format_from_payload-ne-panic :
      (d : Bytes) → parse_parameter_marker_format_from_payload decode d ≢ err panic
  unfolding parse_parameter_marker_format_from_payload
  parse_parameter_marker_format_from_payload-ne-panic d =
      scan-holds 1 (λ e. err e) (λ s. ok none) (format_round decode) (λ s. Unit {0})
        (λ r. r ≢ err panic) (λ d e h k. ground (arith, parse_llcp_safe d))
        (λ s inv h. ground arith) (λ c p s s' inv e. tt)
        (λ c p s r inv h k. ground (
          arith,
          with_point_safe 0x3808 _ (original_safe decode p),
          with_point_safe 0x380D _ (extended_safe decode p),
          with_point_safe 0x3813 _ (super_extended_safe p),
        ))
        d tt tt
