-- ===== src/Request/Framing.antt =====
-- Every attribute is one LLCP item, so that a body is a list of items and its count is right.
use i.Prelude.{
  ℕ, ◌+◌, ◌%◌, ◌^◌, ◌<◌, ◌≡◌, refl, sym, ap, ◌∙◌, Bytes, List, [], ◌∷◌, ◌++◌, Option, none, some,
  Bool, true, false, All, All-append, length, length-append, append_assoc, append-nil, arith,
  Option-cases, inl, inr,
}
use i.Binary.{put_u16, put_u32}
use i.Wire.{append_llcp}
use i.Wire.Walk.{Item, encode}
use i.Request.Attributes.{
  Codec, append_name_attribute, append_byte_attribute, append_short_attribute, append_int_attribute,
  append_raw_attribute, append_extended_sql_text_attribute, PackageSpec, Body, no_body,
  byte_attribute, short_attribute, int_attribute, raw_attribute, attribute, name_if_encoded,
  append_prepare_attributes, append_execute_attributes, append_library_attributes,
}

abbrev pub HasPoint : Item → Type 0
HasPoint (code_point, payload) = code_point < 2 ^ 16

-- A body is a sequence of items, as many as it counts.
pub record IsBody (b : Body) : Type 0 where
  pub items : List Item
  pub spells : b.bytes ≡ encode items
  pub counts : b.parms ≡ length items
  pub points : All HasPoint items

encode-append : (xs ys : List Item) → encode (xs ++ ys) ≡ encode xs ++ encode ys
encode-append [] ys = refl
encode-append ((c, p) ∷ xs) ys =
    ap (λ d. append_llcp [] c p ++ d) (encode-append xs ys)
    ∙ sym (append_assoc (append_llcp [] c p) (encode xs) (encode ys))

pub no_body-IsBody : IsBody no_body
no_body-IsBody = record { items = []; spells = refl; counts = refl; points = tt }

-- One more item at the end.
pub attribute-IsBody :
    (c : ℕ) (payload attr : Bytes) {b : Body}
    → c < 2 ^ 16
    → attr ≡ append_llcp [] c payload
    → IsBody b
    → IsBody (attribute attr b)
attribute-IsBody c payload attr {b} p e h = record {
  items = h.items ++ ((c, payload) ∷ []);
  spells =
      (λ i. h.spells i ++ e i)
      ∙ ap (λ d. encode h.items ++ d) (sym (append-nil (append_llcp [] c payload)))
      ∙ sym (encode-append h.items ((c, payload) ∷ []));
  counts = omega (arith, h.counts, length-append {0} h.items ((c, payload) ∷ []));
  points = All-append HasPoint h.items ((c, payload) ∷ []) h.points (p, tt);
}

put_u32-mod : (v : ℕ) → put_u32 (v % 2 ^ 32) ≡ put_u32 v
put_u32-mod v = grind arith

byte_llcp : (c v : ℕ) → put_u32 7 ++ (put_u16 c ++ (v ∷ [])) ≡ append_llcp [] c (v ∷ [])
unfolding append_llcp
byte_llcp c v = refl

short_llcp : (c v : ℕ) → put_u32 8 ++ (put_u16 c ++ put_u16 v) ≡ append_llcp [] c (put_u16 v)
unfolding append_llcp
short_llcp c v = refl

int_llcp : (c v : ℕ) → put_u32 10 ++ (put_u16 c ++ put_u32 v) ≡ append_llcp [] c (put_u32 v)
unfolding append_llcp
int_llcp c v = refl

-- A prefix that counts what follows it is the length of an item.
sized_llcp :
    (n c : ℕ) (payload : Bytes)
    → n ≡ length payload + 6
    → put_u32 n ++ (put_u16 c ++ payload) ≡ append_llcp [] c payload
unfolding append_llcp
sized_llcp n c payload e =
    ap (λ k. put_u32 k ++ (put_u16 c ++ payload)) e
    ∙ ap (λ d. d ++ (put_u16 c ++ payload)) (sym (put_u32-mod (length payload + 6)))

module _ {b : Body} (h : IsBody b) where
  pub byte_attribute-IsBody : (c v : ℕ) → c < 2 ^ 16 → IsBody (byte_attribute c v b)
  unfolding append_byte_attribute
  byte_attribute-IsBody c v p = attribute-IsBody c _ _ p (byte_llcp c v) h

  pub short_attribute-IsBody : (c v : ℕ) → c < 2 ^ 16 → IsBody (short_attribute c v b)
  unfolding append_short_attribute
  short_attribute-IsBody c v p = attribute-IsBody c _ _ p (short_llcp c v) h

  pub int_attribute-IsBody : (c v : ℕ) → c < 2 ^ 16 → IsBody (int_attribute c v b)
  unfolding append_int_attribute
  int_attribute-IsBody c v p = attribute-IsBody c _ _ p (int_llcp c v) h

  raw_attribute-IsBody : (c : ℕ) (v : Bytes) → c < 2 ^ 16 → IsBody (raw_attribute c v b)
  unfolding append_raw_attribute
  raw_attribute-IsBody c v p =
      attribute-IsBody c v _ p (sized_llcp (6 + length v) c v (omega arith)) h

  pub name_attribute-IsBody :
      (codec : Codec) (c : ℕ) (name : Bytes) {attr : Bytes}
      → c < 2 ^ 16
      → append_name_attribute codec c name ≡ some attr
      → IsBody (attribute attr b)
  unfolding append_name_attribute
  name_attribute-IsBody codec c name {attr} p e = elim (Option-cases (codec.encode_ebcdic37 name)) [
    | inl fails ↦ cc (rw (fails, append_name_attribute) at e)
    | inr (enc, encodes) ↦
        let payload : Bytes = put_u16 37 ++ (put_u16 (length enc) ++ enc) in
        let written : put_u32 (10 + length enc) ++ (put_u16 c ++ payload) ≡ attr =
          cc (rw (encodes, append_name_attribute) at e) in
        attribute-IsBody c payload attr p
          (sym written ∙ sized_llcp (10 + length enc) c payload (omega arith)) h
  ]

  pub text_attribute-IsBody :
      (codec : Codec) (query : Bytes) (ccsid : ℕ) {attr : Bytes}
      → append_extended_sql_text_attribute codec query ccsid ≡ some attr
      → IsBody (attribute attr b)
  unfolding append_extended_sql_text_attribute
  text_attribute-IsBody codec query ccsid {attr} e =
      elim (Option-cases (codec.encode_text query ccsid)) [
        | inl fails ↦ cc (rw (fails, append_extended_sql_text_attribute) at e)
        | inr (enc, encodes) ↦
            let payload : Bytes = put_u16 ccsid ++ (put_u32 (length enc) ++ enc) in
            let written : put_u32 (12 + length enc) ++ (put_u16 0x3831 ++ payload) ≡ attr =
              cc (rw (encodes, append_extended_sql_text_attribute) at e) in
            attribute-IsBody 0x3831 payload attr (omega arith)
              (sym written ∙ sized_llcp (12 + length enc) 0x3831 payload (omega arith)) h
      ]

name_if_encoded-IsBody :
    (codec : Codec) (c : ℕ) (name : Bytes) {b : Body}
    → c < 2 ^ 16
    → IsBody b
    → IsBody (name_if_encoded (append_name_attribute codec c name) b)
name_if_encoded-IsBody codec c name {b} p h = either (append_name_attribute codec c name) refl
  where
    either :
        (o : Option Bytes) → append_name_attribute codec c name ≡ o → IsBody (name_if_encoded o b)
    either none e = h
    either (some attr) e = name_attribute-IsBody h codec c name p e

module _ (codec : Codec) where
  pub append_prepare_attributes-IsBody :
      (pkg : Option PackageSpec) {b : Body}
      → IsBody b
      → IsBody (append_prepare_attributes codec pkg b)
  unfolding append_prepare_attributes
  append_prepare_attributes-IsBody none h = h
  append_prepare_attributes-IsBody (some s) {b} h = packaged s.packaged
    where
      packaged :
          (t : Bool)
          → IsBody (elim t [
            | true ↦
                name_if_encoded
                  (append_name_attribute codec 0x3804 s.name)
                  (byte_attribute 0x3808 1 b)
            | false ↦ raw_attribute 0x3804 [] (byte_attribute 0x3808 0 b)
          ])
      packaged true =
          name_if_encoded-IsBody codec 0x3804 s.name (omega arith)
            (byte_attribute-IsBody h 0x3808 1 (omega arith))
      packaged false =
          raw_attribute-IsBody (byte_attribute-IsBody h 0x3808 0 (omega arith)) 0x3804 []
            (omega arith)

  pub append_execute_attributes-IsBody :
      (pkg : Option PackageSpec) {b : Body}
      → IsBody b
      → IsBody (append_execute_attributes codec pkg b)
  unfolding append_execute_attributes
  append_execute_attributes-IsBody none h = h
  append_execute_attributes-IsBody (some s) {b} h = packaged s.packaged
    where
      packaged :
          (t : Bool)
          → IsBody (elim t [
            | true ↦ name_if_encoded (append_name_attribute codec 0x3804 s.name) b
            | false ↦ b
          ])
      packaged true = name_if_encoded-IsBody codec 0x3804 s.name (omega arith) h
      packaged false = h

  pub append_library_attributes-IsBody :
      (pkg : Option PackageSpec) {b : Body}
      → IsBody b
      → IsBody (append_library_attributes codec pkg b)
  unfolding append_library_attributes
  append_library_attributes-IsBody none h = h
  append_library_attributes-IsBody (some s) h =
      name_if_encoded-IsBody codec 0x3801 s.library (omega arith) h
