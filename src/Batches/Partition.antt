-- ===== src/Batches/Partition.antt =====
-- The cut of the bound rows into blocks, and the loop that sends one block after the other.
use i.Prelude.{
  ℕ, zero, suc, ◌+◌, ◌*◌, ◌<◌, ◌≤◌, ◌≡◌, refl, sym, ap, ◌∙◌, List, [], ◌∷◌, ◌++◌, Bool, true, false,
  ltb, Option, none, some, length, length-append, take-append, drop-append, All, arith, ◌⊎◌, inl,
  inr, subst, ltb→lt, ltb_false→le,
}
use i.Errors.{Error, Result, ok, err}
use i.Parameters.{sum_binding_lengths}
use i.Batches.{
  Row, max_block_rows, max_block_bytes, same_binding_shape, block_size, first_block, exec_blocks,
}

-- A row that a block with this first row may hold.
abbrev pub Fits : Row → Row → Type 0
Fits first row = same_binding_shape first row ≡ true

-- A block: a first row and others of its shape, no more rows than the limit, and no more bytes than the
-- limit unless the first row stands alone.
pub record IsBlock (first : Row) (others : List Row) : Type 0 where
  pub shapes : All (Fits first) others
  pub rows : suc (length others) ≤ max_block_rows
  pub bytes : (others ≡ []) ⊎ (suc (length others) * sum_binding_lengths first ≤ max_block_bytes)

-- Why a block of `size` rows ends before the rows that are left.
abbrev pub Ends : Row → ℕ → List Row → Type 0
Ends first size [] = Unit
Ends first size (row ∷ rows) =
    (max_block_rows ≤ size)
    ⊎ (same_binding_shape first row ≡ false)
    ⊎ (max_block_bytes < (size + 1) * sum_binding_lengths first)

-- Rows cut into blocks, in their order, each as long as it can be.
pub data Cut : List Row → List (List Row) → Type 0 where
  nothing : Cut [] []
  block :
      {first : Row} {others rest : List Row} {blocks : List (List Row)}
      → IsBlock first others
      → Ends first (suc (length others)) rest
      → Cut rest blocks
      → Cut (first ∷ (others ++ rest)) ((first ∷ others) ∷ blocks)

-- The blocks one after the other, until one fails.
module _ {S : Type 0} (exec : List Row → S → Result ℕ × S) where
  abbrev pub send : ℕ → List (List Row) → S → (ℕ × Option Error) × S
  send total [] w = ((total, none), w)
  send total (b ∷ blocks) w =
      let (answer, w') = exec b w in
      elim answer [ err e ↦ ((total, some e), w') | ok n ↦ send (total + n) blocks w' ]

-- What block_size takes of the rows behind the first.
record Taken (first : Row) (size : ℕ) (rows : List Row) : Type 0 where
  taken : List Row
  rest : List Row
  parts : rows ≡ taken ++ rest
  counts : block_size first size rows ≡ size + length taken
  shapes : All (Fits first) taken
  within : size + length taken ≤ max_block_rows
  bytes : (taken ≡ []) ⊎ ((size + length taken) * sum_binding_lengths first ≤ max_block_bytes)
  ends : Ends first (size + length taken) rest

module _ (first : Row) where
  stays :
      (size : ℕ) (rows : List Row)
      → size ≤ max_block_rows
      → block_size first size rows ≡ size
      → Ends first size rows
      → Taken first size rows
  stays size rows h e stop =
      let n : size ≡ size + 0 = omega arith in
      record {
        taken = [];
        rest = rows;
        parts = refl;
        counts = e ∙ n;
        shapes = tt;
        within = omega arith;
        bytes = inl refl;
        ends = subst (λ k. Ends first k rows) n stop;
      }

  joins :
      (size : ℕ) (row : Row) (rows : List Row)
      → size < max_block_rows
      → same_binding_shape first row ≡ true
      → (size + 1) * sum_binding_lengths first ≤ max_block_bytes
      → block_size first size (row ∷ rows) ≡ block_size first (suc size) rows
      → Taken first (suc size) rows
      → Taken first size (row ∷ rows)
  joins size row rows room same bytes e t =
      let n : suc size + length t.taken ≡ size + suc (length t.taken) = omega arith in
      record {
        taken = row ∷ t.taken;
        rest = t.rest;
        parts = ap (◌∷◌ row) t.parts;
        counts = e ∙ t.counts ∙ n;
        shapes = (same, t.shapes);
        within = let h = t.within in omega arith;
        bytes = inr (fits t.taken t.bytes);
        ends = subst (λ k. Ends first k t.rest) n t.ends;
      }
    where
      fits :
          (taken : List Row)
          → (taken ≡ []) ⊎ ((suc size + length taken) * sum_binding_lengths first ≤ max_block_bytes)
          → (size + suc (length taken)) * sum_binding_lengths first ≤ max_block_bytes
      fits taken (inl empty) =
          let n : size + suc (length taken) ≡ size + 1 = rw empty (omega arith) in
          subst (λ k. k * sum_binding_lengths first ≤ max_block_bytes) (sym n) bytes
      fits taken (inr h) =
          let n : suc size + length taken ≡ size + suc (length taken) = omega arith in
          subst (λ k. k * sum_binding_lengths first ≤ max_block_bytes) n h

  block_size_lem : (size : ℕ) (rows : List Row) → size ≤ max_block_rows → Taken first size rows
  unfolding block_size
  block_size_lem size [] h = stays size [] h refl tt
  block_size_lem size (row ∷ rows) h =
      either (ltb size max_block_rows) refl (same_binding_shape first row) refl
        (ltb max_block_bytes ((size + 1) * sum_binding_lengths first)) refl
        (λ room. block_size_lem (suc size) rows (ltb→lt _ _ room))
    where
      either :
          (t : Bool)
          → ltb size max_block_rows ≡ t
          → (u : Bool) → same_binding_shape first row ≡ u
          → (v : Bool) → ltb max_block_bytes ((size + 1) * sum_binding_lengths first) ≡ v
          → (ltb size max_block_rows ≡ true → Taken first (suc size) rows)
          → Taken first size (row ∷ rows)
      either false e u f v g later =
          stays size (row ∷ rows) h (rw e refl) (inl (ltb_false→le _ _ e))
      either true e false f v g later = stays size (row ∷ rows) h (rw (e, f) refl) (inr (inl f))
      either true e true f true g later =
          stays size (row ∷ rows) h (rw (e, f, g) refl) (inr (inr (ltb→lt _ _ g)))
      either true e true f false g later =
          joins size row rows (ltb→lt _ _ e) f (ltb_false→le _ _ g) (rw (e, f, g) refl) (later e)

module _ (first : Row) (rows : List Row) where
  taken_first : (t : Taken first 1 rows) → first_block first rows ≡ (first ∷ t.taken, t.rest)
  taken_first t =
      let n : block_size first 1 rows ≡ suc (length t.taken) =
        let e = t.counts in omega (arith, e) in
      rw (n, t.parts, take-append t.taken t.rest, drop-append t.taken t.rest) refl

-- The rows are sent in blocks, each once and in their order: a block has one shape and keeps to both
-- limits (a single row may exceed the bytes), and ends only where the next row does not fit. With as
-- many rounds as there are rows the loop sends all blocks, up to the first that fails, and answers
-- the sum of what the blocks before it counted.
pub exec_blocks-Cut :
    {S : Type 0} (exec : List Row → S → Result ℕ × S) (rounds : ℕ) (rows : List Row)
    → length rows ≤ rounds
    → (blocks : List (List Row)) × Cut rows blocks
      × ((total : ℕ) (w : S) → exec_blocks exec rounds total rows w ≡ send exec total blocks w)
unfolding exec_blocks
exec_blocks-Cut exec rounds [] h = ([], nothing, λ total w. refl)
exec_blocks-Cut exec zero (first ∷ rows) h = absurd (omega arith)
exec_blocks-Cut {S} exec (suc rounds) (first ∷ rows) h =
    let t = block_size_lem first 1 rows (omega arith) in
    let fewer : length t.rest ≤ rounds =
      omega (arith, ap length t.parts, length-append {0} t.taken t.rest) in
    let (blocks, cut, same) = exec_blocks-Cut exec rounds t.rest fewer in
    (
      (first ∷ t.taken) ∷ blocks,
      subst (λ rs. Cut (first ∷ rs) ((first ∷ t.taken) ∷ blocks)) (sym t.parts)
          (block
            (record {
              shapes = t.shapes;
              rows = let r = t.within in omega arith;
              bytes = bytes_of t.taken t.bytes;
            })
            (subst (λ k. Ends first k t.rest) (one_more (length t.taken)) t.ends) cut),
      λ total w.
          ap (sent total w) (taken_first first rows t)
          ∙ step blocks t.rest total same (exec (first ∷ t.taken) w),
    )
  where
    -- A round of the loop, from its block and the rows behind it.
    sent : ℕ → S → List Row × List Row → (ℕ × Option Error) × S
    sent total w (b, rest) =
        let ran = exec b w in
        elim ran.0 [
          | err e ↦ ((total, some e), ran.1)
          | ok n ↦ exec_blocks exec rounds (total + n) rest ran.1
        ]

    one_more : (n : ℕ) → 1 + n ≡ suc n
    one_more n = omega arith

    bytes_of :
        (taken : List Row)
        → (taken ≡ []) ⊎ ((1 + length taken) * sum_binding_lengths first ≤ max_block_bytes)
        → (taken ≡ []) ⊎ (suc (length taken) * sum_binding_lengths first ≤ max_block_bytes)
    bytes_of taken (inl empty) = inl empty
    bytes_of taken (inr h) =
        inr
          (subst (λ k. k * sum_binding_lengths first ≤ max_block_bytes) (one_more (length taken)) h)

    step :
        (blocks : List (List Row)) (rest : List Row)
        → (total : ℕ)
        → ((total : ℕ) (w : S) → exec_blocks exec rounds total rest w ≡ send exec total blocks w)
        → (ran : Result ℕ × S)
        → elim ran.0 [
          | err e ↦ ((total, some e), ran.1)
          | ok n ↦ exec_blocks exec rounds (total + n) rest ran.1
        ]
          ≡ elim ran.0 [
            | err e ↦ ((total, some e), ran.1)
            | ok n ↦ send exec (total + n) blocks ran.1
          ]
    step blocks rest total same (err e, w') = refl
    step blocks rest total same (ok n, w') = same (total + n) w'
