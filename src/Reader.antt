-- ===== src/Reader.antt =====
-- sliceReader of sql.go. The reader is the bytes from its position on: every read takes from their
-- front, and fails with end of file where too few are left.
use i.Prelude.{
  ℕ, suc, ◌^◌, ◌<◌, ◌≡◌, refl, ap, ◌∙◌, Bytes, [], ◌∷◌, ◌++◌, length, take, drop, ltb,
  length-append, take-append, drop-append, le→ltb_false, if◌then◌else◌, arith,
}
use i.Errors.{Result, ok, err, ◌>>=◌, eof}
use i.Binary.{be, put_u16, put_u32, be-put_u16, be-put_u32}

-- `readBytes` of a count that is not negative.
unfoldable pub read_bytes : ℕ → Bytes → Result (Bytes × Bytes)
read_bytes n r = if ltb (length r) n then err eof else ok (take n r, drop n r)

unfoldable pub read_u8 : Bytes → Result (ℕ × Bytes)
read_u8 [] = err eof
read_u8 (b ∷ r) = ok (b, r)

unfoldable pub read_u16 : Bytes → Result (ℕ × Bytes)
read_u16 r = if ltb (length r) 2 then err eof else ok (be (take 2 r), drop 2 r)

unfoldable pub read_u32 : Bytes → Result (ℕ × Bytes)
read_u32 r = if ltb (length r) 4 then err eof else ok (be (take 4 r), drop 4 r)

unfoldable pub skip : ℕ → Bytes → Result Bytes
skip n r = read_bytes n r >>= λ p. ok p.1

pub read_bytes-append : (bs r : Bytes) → read_bytes (length bs) (bs ++ r) ≡ ok (bs, r)
unfolding read_bytes
read_bytes-append bs r = rw (
  le→ltb_false (length (bs ++ r)) (length bs) (omega (arith, length-append bs r)),
  take-append bs r,
  drop-append bs r,
)

pub read_u16-put_u16 : (v : ℕ) (r : Bytes) → v < 2 ^ 16 → read_u16 (put_u16 v ++ r) ≡ ok (v, r)
unfolding read_u16
read_u16-put_u16 v r h =
    let read : ℕ → Result (ℕ × Bytes) = λ n. ok (n, r) in
    (rw (le→ltb_false (suc (suc (length r))) 2 (omega arith)) refl) ∙ ap read (be-put_u16 v h)

pub read_u32-put_u32 : (v : ℕ) (r : Bytes) → v < 2 ^ 32 → read_u32 (put_u32 v ++ r) ≡ ok (v, r)
unfolding read_u32
read_u32-put_u32 v r h =
    let read : ℕ → Result (ℕ × Bytes) = λ n. ok (n, r) in
    (rw (le→ltb_false (suc (suc (suc (suc (length r))))) 4 (omega arith)) refl)
    ∙ ap read (be-put_u32 v h)

-- What reads on after a value that was written.
pub read_u16-then :
    {A : Type 0} (v : ℕ) (r : Bytes) (next : ℕ × Bytes → Result A)
    → v < 2 ^ 16
    → (read_u16 (put_u16 v ++ r) >>= next) ≡ next (v, r)
read_u16-then v r next h = ap (λ read. read >>= next) (read_u16-put_u16 v r h)

pub read_u32-then :
    {A : Type 0} (v : ℕ) (r : Bytes) (next : ℕ × Bytes → Result A)
    → v < 2 ^ 32
    → (read_u32 (put_u32 v ++ r) >>= next) ≡ next (v, r)
read_u32-then v r next h = ap (λ read. read >>= next) (read_u32-put_u32 v r h)
