-- ===== src/Describe/Tiled.antt =====
-- Where the columns of a described set stand in a row.
use i.Prelude.{
  ℕ, zero, suc, ◌+◌, ◌-◌, ◌≡◌, refl, sym, ap, ◌∙◌, Bytes, List, [], ◌∷◌, Bool, true, false, ◌==◌,
  ltb, length, if◌then◌else◌, arith, subst,
}
use i.Errors.{Result, ok, err, ◌>>=◌, invalid_column_offset, column_count_mismatch}
use i.Reader.{read_u8, read_u16, read_u32, skip}
use i.Describe.{ColumnMeta, DescribedSet, no_columns, ensure_columns}
use i.Describe.Columns.{
  Section, with_text, read_sections, read_section, read_descriptor, read_text_ccsid, read_rest,
  read_texts, parse_extended_column_descriptors,
}
use i.Describe.Format.{with_name}

-- The offset and the width of a column.
abbrev pub spot : ColumnMeta → ℕ × ℕ
spot c = (c.offset, c.width)

-- Every column begins where the one before it ends.
abbrev pub Tiled : ℕ → List ColumnMeta → Type 0
Tiled offset [] = Unit {0}
Tiled offset (c ∷ cs) = (c.offset ≡ offset) × Tiled (offset + c.width) cs

-- Columns with the same places.
abbrev pub Alike : List ColumnMeta → List ColumnMeta → Type 0
Alike [] [] = Unit {0}
Alike [] (d ∷ ds) = ⊥
Alike (c ∷ cs) [] = ⊥
Alike (c ∷ cs) (d ∷ ds) = (spot c ≡ spot d) × Alike cs ds

pub Tiled-Alike : (o : ℕ) (cs ds : List ColumnMeta) → Alike cs ds → Tiled o ds → Tiled o cs
Tiled-Alike o [] [] h t = tt
Tiled-Alike o [] (d ∷ ds) h t = elim h [ ]
Tiled-Alike o (c ∷ cs) [] h t = elim h [ ]
Tiled-Alike o (c ∷ cs) (d ∷ ds) (same, h) (at, t) =
    let width : d.width ≡ c.width = ap (λ p. p.1) (sym same) in
    (
      ap (λ p. p.0) same ∙ at,
      Tiled-Alike (o + c.width) cs ds h (subst (λ n. Tiled (o + n) ds) width t),
    )

-- What holds of the answer of a call, if there is one.
abbrev pub Yields : {A : Type 0} → (A → Type 0) → Result A → Type 0
Yields P (ok a) = P a
Yields P (err e) = Unit {0}

pub then-Yields :
    {A B : Type 0} (P : A → Type 0) (Q : B → Type 0) (m : Result A) (f : A → Result B)
    → Yields P m
    → ((a : A) → P a → Yields Q (f a))
    → Yields Q (m >>= f)
then-Yields P Q (ok a) f h k = k a h
then-Yields P Q (err e) f h k = tt

pub after-Yields :
    {A B : Type 0} (Q : B → Type 0) (m : Result A) (f : A → Result B)
    → ((a : A) → Yields Q (f a))
    → Yields Q (m >>= f)
after-Yields Q (ok a) f k = k a
after-Yields Q (err e) f k = tt

spot-with_text : (p : ℕ) (t : Bytes) (c : ColumnMeta) → spot (with_text p t c) ≡ spot c
spot-with_text p t c = ground arith

pub spot-with_name : (p k : ℕ) (t : Bytes) (c : ColumnMeta) → spot (with_name p k t c) ≡ spot c
spot-with_name p k t c = ground arith

-- The same columns, the second list in sections or with lengths beside them.
abbrev AlikeSections : List Section → List ColumnMeta → Type 0
AlikeSections [] [] = Unit {0}
AlikeSections [] (d ∷ ds) = ⊥
AlikeSections (s ∷ ss) [] = ⊥
AlikeSections (s ∷ ss) (d ∷ ds) = (spot s.column ≡ spot d) × AlikeSections ss ds

read_sections-Alike :
    (cs : List ColumnMeta) (r : Bytes) → Yields (λ p. AlikeSections p.0 cs) (read_sections cs r)
unfolding read_sections
read_sections-Alike [] r = tt
read_sections-Alike (c ∷ cs) r = after-Yields _ (read_u8 r) _ (λ u.
    after-Yields _ (read_u8 u.1) _ (λ s. after-Yields _ (read_u16 s.1) _ (λ b.
      after-Yields _ (read_u32 b.1) _ (λ o. after-Yields _ (read_u32 o.1) _ (λ n.
        after-Yields _ (skip 4 n.1) _ (λ r'.
          then-Yields (λ p. AlikeSections p.0 cs) _
            (if ltb o.0 6 then err (invalid_column_offset o.0) else read_sections cs r') _
            (checked (ltb o.0 6) o.0 (read_sections cs r') (read_sections-Alike cs r'))
            (λ p h. (refl, h))))))))
  where
    checked :
        (t : Bool) (n : ℕ) (later : Result (List Section × Bytes))
        → Yields (λ p. AlikeSections p.0 cs) later
        → Yields (λ p. AlikeSections p.0 cs) (if t then err (invalid_column_offset n) else later)
    checked true n later h = tt
    checked false n later h = h

module _ (decode : Bytes → ℕ → Result Bytes) where
  read_descriptor-Alike :
      (c : ColumnMeta) (r : Bytes) → Yields (λ p. spot p.0 ≡ spot c) (read_descriptor decode c r)
  read_descriptor-Alike c r = after-Yields _ (read_u32 r) _ (λ n.
      after-Yields _ (read_u16 n.1) _ (λ p. after-Yields _ (read_text_ccsid decode p.0 p.1) _ (λ k.
        after-Yields _ (read_rest n.0 k.0.1 k.1) _
          (λ b. after-Yields _ (decode b.0 k.0.0) _ (λ t. spot-with_text p.0 t c)))))

  read_section-Alike :
      (rounds left : ℕ) (c : ColumnMeta) (r : Bytes)
      → Yields (λ p. spot p.0 ≡ spot c) (read_section decode rounds left c r)
  unfolding read_section
  read_section-Alike rounds zero c r = refl
  read_section-Alike zero (suc left) c r = refl
  read_section-Alike (suc rounds) (suc left) c r =
      either (ltb (suc left) 6) (λ c' r'. read_section-Alike rounds _ c' r')
    where
      either :
          (t : Bool)
          → ((c' : ColumnMeta) (r' : Bytes)
              → Yields
                  (λ p. spot p.0 ≡ spot c')
                  (read_section decode rounds (suc left - (length r - length r')) c' r'))
          → Yields
              (λ p. spot p.0 ≡ spot c)
              (if t
                then (skip (suc left) r >>= λ r'. ok (c, r'))
                else (read_descriptor decode c r >>= λ p.
                    read_section decode rounds (suc left - (length r - length p.1)) p.0 p.1))
      either true again = after-Yields _ (skip (suc left) r) _ (λ r'. refl)
      either false again =
          then-Yields (λ p. spot p.0 ≡ spot c) _ (read_descriptor decode c r) _
            (read_descriptor-Alike c r)
            (λ p same.
              subst
                (λ (s : ℕ × ℕ).
                  Yields {A = ColumnMeta × Bytes} (λ q. spot q.0 ≡ s)
                    (read_section decode rounds (suc left - (length r - length p.1)) p.0 p.1))
                same (again p.0 p.1))

  read_texts-Alike :
      (n : ℕ) (ss : List Section) (ds : List ColumnMeta) (r : Bytes)
      → AlikeSections ss ds
      → Yields (λ p. Alike p.0 ds) (read_texts decode n ss r)
  unfolding read_texts
  read_texts-Alike n [] [] r h = tt
  read_texts-Alike n [] (d ∷ ds) r h = elim h [ ]
  read_texts-Alike n (s ∷ ss) [] r h = elim h [ ]
  read_texts-Alike n (s ∷ ss) (d ∷ ds) r (same, h) =
      after-Yields _
        (if ltb (n - length r) s.start then skip (s.start - (n - length r)) r else ok r) _
        (λ r.
          then-Yields (λ p. spot p.0 ≡ spot s.column) _
            (read_section decode s.size s.size s.column r) _
            (read_section-Alike s.size s.size s.column r)
            (λ p alike.
              then-Yields (λ q. Alike q.0 ds) _ (read_texts decode n ss p.1) _
                (read_texts-Alike n ss ds p.1 h) (λ q rest. (alike ∙ same, rest))))

pub ensured-Tiled :
    (n : ℕ) (cs : List ColumnMeta) → Tiled 0 cs → Yields (Tiled 0) (ensure_columns n cs)
unfolding ensure_columns
ensured-Tiled n [] t = blank n
  where
    blank : (n : ℕ) → Tiled 0 (no_columns n)
    blank zero = tt
    blank (suc n) = (refl, blank n)
ensured-Tiled n (c ∷ cs) t = either (length (c ∷ cs) == n)
  where
    either :
        (b : Bool)
        → Yields
            (Tiled 0)
            (if b then ok (c ∷ cs) else err (column_count_mismatch n (length (c ∷ cs))))
    either true = t
    either false = tt

module _ (decode : Bytes → ℕ → Result Bytes) where
  pub parse_extended-Tiled :
      (payload : Bytes) (meta : DescribedSet)
      → Tiled 0 meta.columns
      → Yields (λ m. Tiled 0 m.columns) (parse_extended_column_descriptors decode payload meta)
  unfolding parse_extended_column_descriptors
  parse_extended-Tiled payload meta t = after-Yields _ (read_u32 payload) _ (λ n.
      then-Yields (Tiled 0) _ (ensure_columns n.0 meta.columns) _ (ensured-Tiled n.0 meta.columns t)
        (λ cs tiled. after-Yields _ (skip 6 n.1) _ (λ r.
          then-Yields (λ p. AlikeSections p.0 cs) _ (read_sections cs r) _
            (read_sections-Alike cs r)
            (λ p alike.
              then-Yields (λ q. Alike q.0 cs) _ (read_texts decode (length payload) p.0 p.1) _
                (read_texts-Alike decode (length payload) p.0 cs p.1 alike)
                (λ q same. Tiled-Alike 0 q.0 cs same tiled)))))
