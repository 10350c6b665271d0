-- ===== src/Execution/Counted.antt =====
-- What a batch in blocks counts.
use i.Prelude.{
  ℕ, suc, ◌+◌, ◌≡◌, ap, ◌∙◌, List, ◌∷◌, ◌++◌, Option, none, some, length, length-append, arith,
}
use i.Errors.{Error, Result, ok, err}
use i.Batches.{Row, exec_blocks}
use i.Batches.Partition.{IsBlock, Cut, nothing, block, send, exec_blocks-Cut}

-- The blocks of a cut, where each is answered with the number of its rows.
send-counts :
    {S : Type 0} (exec : List Row → S → Result ℕ × S)
    → ((first : Row) (others : List Row) (w : S)
        → IsBlock first others
        → (exec (first ∷ others) w).0 ≡ ok (suc (length others)))
    → {rows : List Row} {blocks : List (List Row)} → Cut rows blocks
    → (total : ℕ) (w : S) → (send exec total blocks w).0 ≡ (total + length rows, none)
send-counts {S} exec counts nothing total w =
    let e : total ≡ total + 0 = omega arith in ap (λ n. (n, none)) e
send-counts {S} exec counts (block {first} {others} {rest} {blocks} is_block ends cut) total w =
    step (exec (first ∷ others) w) (counts first others w is_block)
      (λ w'. send-counts exec counts cut (total + suc (length others)) w')
  where
    went : Result ℕ × S → (ℕ × Option Error) × S
    went ran = elim ran.0 [
      | err e ↦ ((total, some e), ran.1)
      | ok n ↦ send exec (total + n) blocks ran.1
    ]

    step :
        (ran : Result ℕ × S)
        → ran.0 ≡ ok (suc (length others))
        → ((w' : S)
            → (send exec (total + suc (length others)) blocks w').0
              ≡ (total + suc (length others) + length rest, none))
        → (went ran).0 ≡ (total + suc (length (others ++ rest)), none)
    step (answer, w') h later =
        let sum : total + suc (length others) + length rest
            ≡ total + suc (length (others ++ rest)) =
          omega (arith, length-append {0} others rest) in
        rw h (later w' ∙ ap (λ n. (n, none)) sum)

-- Where every block that keeps to the limits is answered with the number of its rows, the loop counts all
-- rows and ends without an error.
pub exec_blocks-counts :
    {S : Type 0} (exec : List Row → S → Result ℕ × S)
    → ((first : Row) (others : List Row) (w : S)
        → IsBlock first others
        → (exec (first ∷ others) w).0 ≡ ok (suc (length others)))
    → (rows : List Row) (w : S) → (exec_blocks exec (length rows) 0 rows w).0 ≡ (length rows, none)
exec_blocks-counts exec counts rows w =
    let (blocks, cut, same) = exec_blocks-Cut exec (length rows) rows (omega arith) in
    let sum : 0 + length rows ≡ length rows = omega arith in
    ap (λ run. run.0) (same 0 w) ∙ send-counts exec counts cut 0 w ∙ ap (λ n. (n, none)) sum
