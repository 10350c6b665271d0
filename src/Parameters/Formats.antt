-- ===== src/Parameters/Formats.antt =====
-- A format payload that the driver writes, read back by the readers of a server's format.
use i.Prelude.{
  ℕ, zero, suc, ◌+◌, ◌-◌, ◌%◌, ◌^◌, ◌<◌, ◌≤◌, ◌≡◌, refl, sym, ap, ◌∙◌, Bytes, [], ◌∷◌, ℤ, pos,
  negsuc, Option, some, length, take, drop, length-drop, get_elem?, arith,
}
use i.Errors.{Result, ok, ◌>>=◌}
use i.Binary.{be, uint16_at, uint32_at, uint16_at_ok, uint32_at_ok, be-put_u16, be-put_u32}
use i.Request.Attributes.{to_uint32}
use i.Parameters.{ParameterMarkerField, signed16, to_uint16}
use i.Parameters.Parse.{byte_at, field_name, original_field, extended_field, extended_name}
use i.Parameters.Payload.{put_extended_record, put_original_record}

-- An int that two bytes hold.
abbrev pub IsInt16 : ℤ → Type 0
IsInt16 (pos n) = n < 2 ^ 15
IsInt16 (negsuc n) = n < 2 ^ 15

signed16-to_uint16 : (v : ℤ) → IsInt16 v → signed16 (to_uint16 v) ≡ v
signed16-to_uint16 (pos n) h = ground arith
signed16-to_uint16 (negsuc n) h = ground arith

to_uint16_bound : (v : ℤ) → to_uint16 v < 2 ^ 16
to_uint16_bound (pos n) = omega arith
to_uint16_bound (negsuc n) = omega arith

to_uint32_bound : (v : ℤ) → to_uint32 v < 2 ^ 32
to_uint32_bound (pos n) = omega arith
to_uint32_bound (negsuc n) = omega arith

-- A field whose numbers fit the widths of a record.
pub record Fits (f : ParameterMarkerField) : Type 0 where
  pub sql_type : IsInt16 f.sql_type
  pub scale : IsInt16 f.scale
  pub precision : IsInt16 f.precision
  pub ccsid : f.ccsid < 2 ^ 16
  pub parameter_type : f.parameter_type < 256

pub drop-add : (m n : ℕ) (d : Bytes) → drop (m + n) d ≡ drop n (drop m d)
drop-add zero n d = let e : zero + n ≡ n = omega arith in ap (λ k. drop k d) e
drop-add (suc m) zero [] = let e : suc m + zero ≡ suc m = omega arith in ap (λ k. drop k []) e
drop-add (suc m) (suc n) [] =
    let e : suc m + suc n ≡ suc (m + suc n) = omega arith in ap (λ k. drop k []) e
drop-add (suc m) zero (b ∷ d) =
    let e : suc m + zero ≡ suc m = omega arith in ap (λ k. drop k (b ∷ d)) e
drop-add (suc m) (suc n) (b ∷ d) =
    let e : suc m + suc n ≡ suc (m + suc n) = omega arith in
    ap (λ k. drop k (b ∷ d)) e ∙ drop-add m (suc n) d

get_elem-drop : (m n : ℕ) (d : Bytes) → get_elem? d (m + n) ≡ get_elem? (drop m d) n
get_elem-drop zero n d = let e : zero + n ≡ n = omega arith in ap (get_elem? d) e
get_elem-drop (suc m) n [] = refl
get_elem-drop (suc m) n (b ∷ d) =
    let e : suc m + n ≡ suc (m + n) = omega arith in ap (get_elem? (b ∷ d)) e ∙ get_elem-drop m n d

-- What follows a word that stands `k` bytes into what lies behind `base`.
module _ {A : Type 0} (base : ℕ) (d r : Bytes) (behind_base : drop base d ≡ r) where
  pub u16_then :
      (k v : ℕ) (next : ℕ → Result A)
      → k + 2 ≤ length r
      → be (take 2 (drop k r)) ≡ v
      → (uint16_at (base + k) d >>= next) ≡ next v
  u16_then k v next fits spells =
      let size : length r ≡ length d - base = ap length (sym behind_base) ∙ length-drop base d in
      rw
        (
          uint16_at_ok (base + k) d (omega (arith, size, fits)),
          drop-add base k d,
          behind_base,
          spells,
        )
        refl

  pub u32_then :
      (k v : ℕ) (next : ℕ → Result A)
      → k + 4 ≤ length r
      → be (take 4 (drop k r)) ≡ v
      → (uint32_at (base + k) d >>= next) ≡ next v
  u32_then k v next fits spells =
      let size : length r ≡ length d - base = ap length (sym behind_base) ∙ length-drop base d in
      rw
        (
          uint32_at_ok (base + k) d (omega (arith, size, fits)),
          drop-add base k d,
          behind_base,
          spells,
        )
        refl

  byte_then :
      (k v : ℕ) (next : ℕ → Result A)
      → get_elem? r k ≡ some v
      → (byte_at (base + k) d >>= next) ≡ next v
  unfolding byte_at
  byte_then k v next found =
      let there : get_elem? d (base + k) ≡ some v =
        get_elem-drop base k d ∙ ap (λ s. get_elem? s k) behind_base ∙ found in
      rw (byte_at, there) refl

-- What is read for a field whose value has `raw_length` bytes. A locator of -1 becomes the word that it is
-- written as.
abbrev pub extended_description : ParameterMarkerField → ℕ → ParameterMarkerField
extended_description f raw_length = record {
  name = [];
  sql_type = f.sql_type;
  width = pos raw_length;
  scale = f.scale;
  precision = f.precision;
  ccsid = f.ccsid;
  parameter_type = f.parameter_type;
  lob_locator = pos (to_uint32 f.lob_locator);
  lob_max_size = pos (to_uint32 f.lob_max_size);
}

abbrev pub original_description : ParameterMarkerField → ℕ → ParameterMarkerField
original_description f raw_length = record {
  name = [];
  sql_type = f.sql_type;
  width = signed16 raw_length;
  scale = f.scale;
  precision = f.precision;
  ccsid = f.ccsid;
  parameter_type = f.parameter_type;
  lob_locator = negsuc 0;
  lob_max_size = negsuc 0;
}

module _ (decode : Bytes → ℕ → Option Bytes) (f : ParameterMarkerField) (fits : Fits f) where
  no_name : (at ccsid : ℕ) (d : Bytes) → field_name decode at 0 ccsid d ≡ ok []
  unfolding field_name
  no_name at ccsid d = refl

  type_back : signed16 (to_uint16 f.sql_type) ≡ f.sql_type
  type_back = signed16-to_uint16 f.sql_type fits.sql_type

  scale_back : signed16 (to_uint16 f.scale) ≡ f.scale
  scale_back = signed16-to_uint16 f.scale fits.scale

  precision_back : signed16 (to_uint16 f.precision) ≡ f.precision
  precision_back = signed16-to_uint16 f.precision fits.precision

  parameter_type_back : f.parameter_type % 256 ≡ f.parameter_type
  parameter_type_back = let h = fits.parameter_type in omega (arith, h)

  extended_name_behind :
      (n base : ℕ) (d rest : Bytes)
      → drop base d ≡ put_extended_record f n rest
      → extended_name decode d base ≡ ok []
  extended_name_behind n base d rest h =
      u16_then base d _ h 30 0 _ (omega arith) refl
      ∙ u16_then base d _ h 32 0 _ (omega arith) refl
      ∙ no_name (base + 34) 0 d

  pub extended_field_behind :
      (n base : ℕ) (d rest : Bytes)
      → n < 2 ^ 32
      → drop base d ≡ put_extended_record f n rest
      → extended_field decode d base ≡ ok (extended_description f n)
  unfolding extended_field
  extended_field_behind n base d rest small h =
      u16_then base d _ h 2 _ _ (omega arith) (be-put_u16 _ (to_uint16_bound f.sql_type))
      ∙ u32_then base d _ h 4 _ _ (omega arith) (be-put_u32 n small)
      ∙ u16_then base d _ h 8 _ _ (omega arith) (be-put_u16 _ (to_uint16_bound f.scale))
      ∙ u16_then base d _ h 10 _ _ (omega arith) (be-put_u16 _ (to_uint16_bound f.precision))
      ∙ u16_then base d _ h 12 _ _ (omega arith) (be-put_u16 f.ccsid fits.ccsid)
      ∙ byte_then base d _ h 14 _ _ refl
      ∙ u32_then base d _ h 17 _ _ (omega arith) (be-put_u32 _ (to_uint32_bound f.lob_locator))
      ∙ u32_then base d _ h 26 _ _ (omega arith) (be-put_u32 _ (to_uint32_bound f.lob_max_size))
      ∙ ap (λ read. read >>= name_only) (extended_name_behind n base d rest h)
      ∙ (λ i. ok record {
        name = [];
        sql_type = type_back i;
        width = pos n;
        scale = scale_back i;
        precision = precision_back i;
        ccsid = f.ccsid;
        parameter_type = parameter_type_back i;
        lob_locator = pos (to_uint32 f.lob_locator);
        lob_max_size = pos (to_uint32 f.lob_max_size);
      })
    where
      name_only : Bytes → Result ParameterMarkerField
      name_only name = ok record {
        name = name;
        sql_type = signed16 (to_uint16 f.sql_type);
        width = pos n;
        scale = signed16 (to_uint16 f.scale);
        precision = signed16 (to_uint16 f.precision);
        ccsid = f.ccsid;
        parameter_type = f.parameter_type % 256;
        lob_locator = pos (to_uint32 f.lob_locator);
        lob_max_size = pos (to_uint32 f.lob_max_size);
      }

  pub original_field_behind :
      (n base : ℕ) (d rest : Bytes)
      → n < 2 ^ 16
      → drop base d ≡ put_original_record f n rest
      → original_field decode d base ≡ ok (original_description f n)
  unfolding original_field
  original_field_behind n base d rest small h =
      u16_then base d _ h 2 _ _ (omega arith) (be-put_u16 _ (to_uint16_bound f.sql_type))
      ∙ u16_then base d _ h 4 _ _ (omega arith) (be-put_u16 n small)
      ∙ u16_then base d _ h 6 _ _ (omega arith) (be-put_u16 _ (to_uint16_bound f.scale))
      ∙ u16_then base d _ h 8 _ _ (omega arith) (be-put_u16 _ (to_uint16_bound f.precision))
      ∙ u16_then base d _ h 10 _ _ (omega arith) (be-put_u16 f.ccsid fits.ccsid)
      ∙ byte_then base d _ h 12 _ _ refl
      ∙ u16_then base d _ h 28 0 _ (omega arith) refl
      ∙ u16_then base d _ h 30 0 _ (omega arith) refl
      ∙ ap (λ read. read >>= name_only) (no_name (base + 32) 0 d)
      ∙ (λ i. ok record {
        name = [];
        sql_type = type_back i;
        width = signed16 n;
        scale = scale_back i;
        precision = precision_back i;
        ccsid = f.ccsid;
        parameter_type = parameter_type_back i;
        lob_locator = negsuc 0;
        lob_max_size = negsuc 0;
      })
    where
      name_only : Bytes → Result ParameterMarkerField
      name_only name = ok record {
        name = name;
        sql_type = signed16 (to_uint16 f.sql_type);
        width = signed16 n;
        scale = signed16 (to_uint16 f.scale);
        precision = signed16 (to_uint16 f.precision);
        ccsid = f.ccsid;
        parameter_type = f.parameter_type % 256;
        lob_locator = negsuc 0;
        lob_max_size = negsuc 0;
      }
