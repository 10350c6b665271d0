-- ===== src/Describe/Enough.antt =====
-- The loops over the descriptors of a section and over the variable fields of a column end by their own
-- tests: as many rounds as bytes are enough.
use i.Prelude.{
  ℕ, zero, suc, ◌+◌, ◌-◌, ◌≡◌, ◌≤◌, refl, ap, Bytes, Bool, true, false, ◌==◌, ltb, ltb_false→le,
  length, length-drop, take, drop, if◌then◌else◌, arith,
}
use i.Errors.{Result, ok, err, ◌>>=◌, eof, invalid_variable_field_length}
use i.Binary.{be}
use i.Reader.{read_bytes, read_u16, read_u32, skip}
use i.Describe.{ColumnMeta}
use i.Describe.Columns.{read_section, read_descriptor, read_text_ccsid, read_rest}
use i.Describe.Format.{read_variables, read_variable}
use i.Describe.Tiled.{Yields, then-Yields, after-Yields}

-- Two continuations that agree on what a call may answer.
then-agree :
    {A B : Type 0} (P : A → Type 0) (m : Result A) (f g : A → Result B)
    → Yields P m
    → ((a : A) → P a → f a ≡ g a)
    → (m >>= f) ≡ (m >>= g)
then-agree P (ok a) f g h k = k a h
then-agree P (err e) f g h k = refl

-- What is left after a read is no longer than before it, and shorter by a word of four bytes.
abbrev Left : ℕ → Bytes → Type 0
Left n r = length r ≤ n

read_u32-Left : (r : Bytes) → Yields (λ (p : ℕ × Bytes). length p.1 + 4 ≤ length r) (read_u32 r)
unfolding read_u32
read_u32-Left r = either (ltb (length r) 4) refl
  where
    either :
        (t : Bool)
        → ltb (length r) 4 ≡ t
        → Yields
            (λ (p : ℕ × Bytes). length p.1 + 4 ≤ length r)
            (if t then err eof else ok (be (take 4 r), drop 4 r))
    either true e = tt
    either false e = let h = ltb_false→le _ _ e in omega (arith, length-drop {0} 4 r)

read_u16-Left : (n : ℕ) (r : Bytes) → Left n r → Yields (λ (p : ℕ × Bytes). Left n p.1) (read_u16 r)
unfolding read_u16
read_u16-Left n r h = either (ltb (length r) 2)
  where
    either :
        (t : Bool)
        → Yields
            (λ (p : ℕ × Bytes). Left n p.1)
            (if t then err eof else ok (be (take 2 r), drop 2 r))
    either true = tt
    either false = omega (arith, length-drop {0} 2 r)

read_bytes-Left :
    (n k : ℕ) (r : Bytes) → Left n r → Yields (λ (p : Bytes × Bytes). Left n p.1) (read_bytes k r)
unfolding read_bytes
read_bytes-Left n k r h = either (ltb (length r) k)
  where
    either :
        (t : Bool)
        → Yields
            (λ (p : Bytes × Bytes). Left n p.1)
            (if t then err eof else ok (take k r, drop k r))
    either true = tt
    either false = omega (arith, length-drop {0} k r)

module _ (decode : Bytes → ℕ → Result Bytes) where
  read_text_ccsid-Left :
      (n point : ℕ) (r : Bytes)
      → Left n r
      → Yields (λ (p : (ℕ × ℕ) × Bytes). Left n p.1) (read_text_ccsid decode point r)
  read_text_ccsid-Left n point r h = either (point == 0x3902)
    where
      either :
          (t : Bool)
          → Yields
              (λ (p : (ℕ × ℕ) × Bytes). Left n p.1)
              (if t
                then (read_u16 r >>= λ p. ok ((if p.0 == 65535 then 37 else p.0, 8), p.1))
                else ok ((37, 6), r))
      either true = then-Yields (λ p. Left n p.1) _ (read_u16 r) _ (read_u16-Left n r h) (λ p k. k)
      either false = h

  read_rest-Left :
      (n total taken : ℕ) (r : Bytes)
      → Left n r
      → Yields (λ (p : Bytes × Bytes). Left n p.1) (read_rest total taken r)
  read_rest-Left n total taken r h = either (ltb total taken)
    where
      either :
          (t : Bool)
          → Yields
              (λ (p : Bytes × Bytes). Left n p.1)
              (if t then err eof else read_bytes (total - taken) r)
      either true = tt
      either false = read_bytes-Left n (total - taken) r h

  read_descriptor-shrinks :
      (c : ColumnMeta) (r : Bytes)
      → Yields (λ (p : ColumnMeta × Bytes). length p.1 + 4 ≤ length r) (read_descriptor decode c r)
  read_descriptor-shrinks c r =
      then-Yields (λ p. length p.1 + 4 ≤ length r) _ (read_u32 r) _ (read_u32-Left r)
        (λ n h.
          then-Yields (λ p. Left (length n.1) p.1) _ (read_u16 n.1) _
            (read_u16-Left (length n.1) n.1 (omega arith))
            (λ p hp.
              then-Yields (λ p. Left (length n.1) p.1) _ (read_text_ccsid decode p.0 p.1) _
                (read_text_ccsid-Left (length n.1) p.0 p.1 hp)
                (λ k hk.
                  then-Yields (λ p. Left (length n.1) p.1) _ (read_rest n.0 k.0.1 k.1) _
                    (read_rest-Left (length n.1) n.0 k.0.1 k.1 hk)
                    (λ b hb. after-Yields _ (decode b.0 k.0.0) _ (λ t. omega (arith, h, hb))))))

  -- The loop over the descriptors of a section: with as many rounds as the section has bytes, more rounds
  -- change nothing.
  pub read_section_enough :
      (f g left : ℕ) (c : ColumnMeta) (r : Bytes)
      → left ≤ f
      → left ≤ g
      → read_section decode f left c r ≡ read_section decode g left c r
  unfolding read_section
  read_section_enough f g zero c r hf hg = refl
  read_section_enough zero g (suc left) c r hf hg = absurd (omega arith)
  read_section_enough (suc f) zero (suc left) c r hf hg = absurd (omega arith)
  read_section_enough (suc f) (suc g) (suc left) c r hf hg =
      ap (λ run. if ltb (suc left) 6 then (skip (suc left) r >>= λ r'. ok (c, r')) else run)
        (then-agree (λ p. length p.1 + 4 ≤ length r) (read_descriptor decode c r)
          (λ p. read_section decode f (suc left - (length r - length p.1)) p.0 p.1)
          (λ p. read_section decode g (suc left - (length r - length p.1)) p.0 p.1)
          (read_descriptor-shrinks c r)
          (λ p h.
            read_section_enough f g (suc left - (length r - length p.1)) p.0 p.1 (omega (arith, h))
              (omega (arith, h))))

  read_variable-long :
      (c : ColumnMeta) (r : Bytes)
      → Yields (λ (p : ℕ × ColumnMeta × Bytes). 8 ≤ p.0) (read_variable decode c r)
  read_variable-long c r = after-Yields _ (read_u32 r) _ (λ n. after-Yields _ (read_u16 n.1) _ (λ p.
      after-Yields _ (read_u16 p.1) _ (λ k.
        then-Yields (λ (b : Bytes × Bytes). 8 ≤ n.0) _
          (if ltb n.0 8 then err (invalid_variable_field_length n.0) else read_bytes (n.0 - 8) k.1)
          _ (either n.0 k.1 (ltb n.0 8) refl) (λ b h. after-Yields _ (decode b.0 k.0) _ (λ t. h)))))
    where
      either :
          (n : ℕ) (r : Bytes) (t : Bool)
          → ltb n 8 ≡ t
          → Yields
              (λ (b : Bytes × Bytes). 8 ≤ n)
              (if t then err (invalid_variable_field_length n) else read_bytes (n - 8) r)
      either n r true e = tt
      either n r false e = whatever (read_bytes (n - 8) r)
        where
          whatever : (m : Result (Bytes × Bytes)) → Yields (λ (b : Bytes × Bytes). 8 ≤ n) m
          whatever (ok b) = ltb_false→le _ _ e
          whatever (err x) = tt

  -- The loop over the variable fields of a column: with as many rounds as they have bytes, more rounds change
  -- nothing.
  pub read_variables_enough :
      (f g left : ℕ) (c : ColumnMeta) (r : Bytes)
      → left ≤ f
      → left ≤ g
      → read_variables decode f left c r ≡ read_variables decode g left c r
  unfolding read_variables
  read_variables_enough f g zero c r hf hg = refl
  read_variables_enough zero g (suc left) c r hf hg = absurd (omega arith)
  read_variables_enough (suc f) zero (suc left) c r hf hg = absurd (omega arith)
  read_variables_enough (suc f) (suc g) (suc left) c r hf hg =
      ap (λ run. if ltb (suc left) 8 then (skip (suc left) r >>= λ r'. ok (c, r')) else run)
        (then-agree (λ p. 8 ≤ p.0) (read_variable decode c r)
          (λ p. read_variables decode f (suc left - p.0) p.1 p.2)
          (λ p. read_variables decode g (suc left - p.0) p.1 p.2) (read_variable-long c r)
          (λ p h.
            read_variables_enough f g (suc left - p.0) p.1 p.2 (omega (arith, h))
              (omega (arith, h))))
