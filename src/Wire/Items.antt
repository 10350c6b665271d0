-- ===== src/Wire/Items.antt =====
-- LLCP items: reading back what was written, and what a successful read says of the data.
use i.Prelude.{
  suc, ℕ, ◌+◌, ◌-◌, ◌≤◌, ◌<◌, ◌^◌, ◌%◌, ◌≡◌, ap, Bytes, [], ◌∷◌, ◌++◌, length, take, drop, arith,
  ◌∙◌, Bool-cases, ltb, ◌⊎◌, inl, inr, le→ltb_false, All, IsByte, length-append, take-append-drop,
  take-append, drop-append, length-take, length-drop,
}
use i.Errors.{ok, err, llcp_too_short, invalid_llcp_length, llcp_exceeds_buffer}
use i.Binary.{
  put_u32, be, uint16_at_ok, uint32_at_ok, slice_ok, slice_to_end, be-put_u16, be-put_u32,
  put_u16-be, put_u32-be,
}
use i.Wire.{append_llcp, parse_llcp}

-- The first item of data that holds it whole.
parse_llcp_step :
    (d : Bytes)
    → 6 ≤ be (take 4 d)
    → be (take 4 d) ≤ length d
    → parse_llcp d
      ≡ ok (be (take 2 (drop 4 d)), take (be (take 4 d) - 6) (drop 6 d), drop (be (take 4 d)) d)
unfolding parse_llcp
parse_llcp_step d h k = rw (
  le→ltb_false (length d) 6 (omega arith),
  uint32_at_ok 0 d (omega arith),
  le→ltb_false (be (take 4 d)) 6 h,
  le→ltb_false (length d) (be (take 4 d)) k,
  uint16_at_ok 4 d (omega arith),
  slice_ok 6 (be (take 4 d)) d h k,
  slice_to_end (be (take 4 d)) d k,
)

-- What `ParseLLCP` answers, by the announced length: three errors, and the first item.
pub parse_llcp_total :
    (d : Bytes)
    → ((length d < 6) × (parse_llcp d ≡ err (llcp_too_short (length d))))
      ⊎ ((6 ≤ length d)
          × (be (take 4 d) < 6)
          × (parse_llcp d ≡ err (invalid_llcp_length (be (take 4 d)))))
      ⊎ ((6 ≤ length d)
          × (length d < be (take 4 d))
          × (parse_llcp d ≡ err (llcp_exceeds_buffer (be (take 4 d)) (length d))))
      ⊎ ((6 ≤ be (take 4 d))
          × (be (take 4 d) ≤ length d)
          × (parse_llcp d
              ≡ ok (
                be (take 2 (drop 4 d)),
                take (be (take 4 d) - 6) (drop 6 d),
                drop (be (take 4 d)) d,
              )))
parse_llcp_total d = elim (Bool-cases (ltb (length d) 6)) [
  | inl short ↦ inl (ground arith, unfold parse_llcp in rw short)
  | inr long ↦ elim (Bool-cases (ltb (be (take 4 d)) 6)) [
    | inl small ↦ inr (
        inl (
          ground arith,
          ground arith,
          unfold parse_llcp in rw (long, uint32_at_ok 0 d (ground arith), small),
        ))
    | inr fits ↦ elim (Bool-cases (ltb (length d) (be (take 4 d)))) [
      | inl over ↦ inr (
          inr (
            inl (
              ground arith,
              ground arith,
              unfold parse_llcp in rw (long, uint32_at_ok 0 d (ground arith), fits, over),
            )))
      | inr whole ↦
          inr (
            inr (inr (ground arith, ground arith, parse_llcp_step d (ground arith) (ground arith))))
    ]
  ]
]

-- An item whose code point is a word and whose length fits its length word is read back, and
-- whatever follows it is left.
pub parse_llcp-append_llcp :
    (code_point : ℕ) (payload rest : Bytes)
    → code_point < 2 ^ 16
    → length payload + 6 < 2 ^ 32
    → parse_llcp (append_llcp [] code_point payload ++ rest) ≡ ok (code_point, payload, rest)
unfolding append_llcp
parse_llcp-append_llcp code_point payload rest hc hp =
    parse_llcp_step d (omega (arith, announced))
      (omega (arith, announced, length-append payload rest))
    ∙ ap ok (λ i. (id_read i, payload_read i, rest_read i))
  where
    d : Bytes
    d = append_llcp [] code_point payload ++ rest

    announced : be (take 4 d) ≡ suc (suc (suc (suc (suc (suc (length payload))))))
    announced = be-put_u32 _ (omega arith) ∙ omega arith

    id_read : be (take 2 (drop 4 d)) ≡ code_point
    id_read = be-put_u16 code_point hc

    payload_read : take (be (take 4 d) - 6) (drop 6 d) ≡ payload
    payload_read =
        ap (λ k. take k (payload ++ rest)) (omega (arith, announced)) ∙ take-append payload rest

    rest_read : drop (be (take 4 d)) d ≡ rest
    rest_read = ap (λ k. drop k d) announced ∙ drop-append payload rest

-- The first item of data that holds it whole, written again in front of the rest.
append_llcp-parts :
    (d : Bytes)
    → All IsByte d
    → 6 ≤ be (take 4 d)
    → be (take 4 d) ≤ length d
    → append_llcp [] (be (take 2 (drop 4 d))) (take (be (take 4 d) - 6) (drop 6 d))
        ++ drop (be (take 4 d)) d
      ≡ d
unfolding append_llcp
append_llcp-parts (a ∷ b ∷ c ∷ e ∷ x ∷ y ∷ d) h small fits =
    λ i. size i ++ (put_u16-be x y h.1.1.1.1.0 h.1.1.1.1.1.0 i ++ tail i)
  where
    n : ℕ
    n = be (a ∷ b ∷ c ∷ e ∷ [])

    size : put_u32 ((length (take (n - 6) d) + 6) % 2 ^ 32) ≡ a ∷ b ∷ c ∷ e ∷ []
    size =
        ap put_u32 (omega (arith, length-take (n - 6) d, h))
        ∙ put_u32-be a b c e h.0 h.1.0 h.1.1.0 h.1.1.1.0

    tail : take (n - 6) d ++ drop n (a ∷ b ∷ c ∷ e ∷ x ∷ y ∷ d) ≡ d
    tail =
        ap (λ m. take (n - 6) d ++ drop m (a ∷ b ∷ c ∷ e ∷ x ∷ y ∷ d)) six
        ∙ take-append-drop (n - 6) d
      where
        six : n ≡ suc (suc (suc (suc (suc (suc (n - 6))))))
        six = omega arith
append_llcp-parts _ h small fits = absurd (omega arith)

-- Writing an item that was read from bytes, in front of the rest that was left, gives the bytes back.
pub append_llcp-parse_llcp :
    (d : Bytes) {code_point : ℕ} {payload rest : Bytes}
    → All IsByte d
    → parse_llcp d ≡ ok (code_point, payload, rest)
    → append_llcp [] code_point payload ++ rest ≡ d
append_llcp-parse_llcp d h e = elim (parse_llcp_total d) [
  | inl (_, fails) ↦ cc
  | inr (inl (_, _, fails)) ↦ cc
  | inr (inr (inl (_, _, fails))) ↦ cc
  | inr (inr (inr (small, fits, reads))) ↦ ground (arith, append_llcp-parts d h small fits)
]

-- A loop over the items of a payload goes on with less data.
pub parse_llcp-shrinks :
    (d : Bytes) {code_point : ℕ} {payload rest : Bytes}
    → parse_llcp d ≡ ok (code_point, payload, rest)
    → length rest < length d
parse_llcp-shrinks d e = elim (parse_llcp_total d) [
  | inl (_, fails) ↦ cc
  | inr (inl (_, _, fails)) ↦ cc
  | inr (inr (inl (_, _, fails))) ↦ cc
  | inr (inr (inr (small, fits, reads))) ↦ ground (arith, length-drop (be (take 4 d)) d)
]
