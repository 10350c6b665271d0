-- ===== src/Wire/Walk.antt =====
-- The loops `for len(remaining) > 0 { cp, data, rest, err := ParseLLCP(remaining) … }` over the
-- items of a payload, as one combinator: `body` is what a round does with an item, and `least` is
-- the number of bytes below which the loop stops.
use i.Prelude.{
  Bool, true, false, subst, ltb→lt, ltb_false→le, Bool-cases, ap, sym, inl, inr, ℕ, zero, suc, ◌≤◌,
  ◌<◌, ◌≡◌, refl, Bytes, List, [], ◌∷◌, ◌++◌, length, ltb, le→ltb_false, lt→ltb, arith,
  append_assoc, ◌+◌, ◌^◌, length-append, ◌∙◌, All,
}
use i.Errors.{Error, Result, ok, err}
use i.Wire.{append_llcp, parse_llcp}
use i.Wire.Items.{parse_llcp-append_llcp, parse_llcp-shrinks}

-- What a round does: go on with a new state, or return.
pub data Turn (S R : Type 0) : Type 0 where
  next : S → Turn S R
  done : R → Turn S R

module _ {S R : Type 0} (least : ℕ) (fail : Error → R) (finish : S → R)
    (body : ℕ → Bytes → S → Turn S R) where
  pub walk : ℕ → Bytes → S → R
  walk zero d s = finish s
  walk (suc fuel) d s = elim (ltb (length d) least) [
    | true ↦ finish s
    | false ↦ elim (parse_llcp d) [
      | err e ↦ fail e
      | ok (code_point, payload, rest) ↦ elim (body code_point payload s) [
        | next s' ↦ walk fuel rest s'
        | done r ↦ r
      ]
    ]
  ]

  unfoldable pub scan : Bytes → S → R
  unfolding walk
  scan d s = walk (length d) d s

abbrev pub Item : Type 0
Item = ℕ × Bytes

-- An item that `AppendLLCP` can write.
abbrev pub IsItem : Item → Type 0
IsItem (code_point, payload) = (code_point < 2 ^ 16) × (length payload + 6 < 2 ^ 32)

abbrev pub encode : List Item → Bytes
encode [] = []
encode ((code_point, payload) ∷ items) = append_llcp [] code_point payload ++ encode items

pub length-append_llcp : (c : ℕ) (p : Bytes) → length (append_llcp [] c p) ≡ length p + 6
unfolding append_llcp
length-append_llcp c p = omega arith

length-first :
    (c : ℕ) (p d tail : Bytes)
    → length ((append_llcp [] c p ++ d) ++ tail) ≡ length p + 6 + length (d ++ tail)
length-first c p d tail = omega (
  arith,
  length-append {0} (append_llcp [] c p ++ d) tail,
  length-append {0} (append_llcp [] c p) d,
  length-append {0} d tail,
  length-append_llcp c p,
)

module _ {S R : Type 0} (least : ℕ) (fail : Error → R) (finish : S → R)
    (body : ℕ → Bytes → S → Turn S R) where
  -- The loop on the items themselves.
  abbrev pub visit : List Item → S → R
  visit [] s = finish s
  visit ((code_point, payload) ∷ items) s = elim (body code_point payload s) [
    | next s' ↦ visit items s'
    | done r ↦ r
  ]

  resume : ℕ → Bytes → Turn S R → R
  resume fuel rest (next s) = walk least fail finish body fuel rest s
  resume fuel rest (done r) = r

  walk_short :
      (fuel : ℕ) (d : Bytes) (s : S)
      → length d < least
      → walk least fail finish body fuel d s ≡ finish s
  unfolding walk
  walk_short zero d s h = refl
  walk_short (suc fuel) d s h = rw (lt→ltb (length d) least h, walk)

  walk_round :
      (fuel : ℕ) (d : Bytes) (s : S) {c : ℕ} {p rest : Bytes}
      → least ≤ length d
      → parse_llcp d ≡ ok (c, p, rest)
      → walk least fail finish body (suc fuel) d s ≡ resume fuel rest (body c p s)
  unfolding walk
  walk_round fuel d s {c} {p} {rest} h e =
      rw (le→ltb_false (length d) least h, e, walk) (turn (body c p s))
    where
      turn :
          (t : Turn S R)
          → ◌≡◌ {A = R}
              (elim t [ next s' ↦ walk least fail finish body fuel rest s' | done r ↦ r ])
              (resume fuel rest t)
      turn (next s') = unfold resume in refl
      turn (done r) = unfold resume in refl

  walk_fails :
      (fuel : ℕ) (d : Bytes) (s : S) {e : Error}
      → least ≤ length d
      → parse_llcp d ≡ err e
      → walk least fail finish body (suc fuel) d s ≡ fail e
  unfolding walk
  walk_fails fuel d s h e = rw (le→ltb_false (length d) least h, e, walk)

  resume-visit :
      (fuel : ℕ) (rest : Bytes) (items : List Item) (t : Turn S R)
      → ((s : S) → walk least fail finish body fuel rest s ≡ visit items s)
      → resume fuel rest t ≡ elim t [ next s' ↦ visit items s' | done r ↦ r ]
  unfolding resume
  resume-visit fuel rest items (next s) h = h s
  resume-visit fuel rest items (done r) h = refl

  walk-encode :
      (fuel : ℕ) (items : List Item) (tail : Bytes) (s : S)
      → 0 < least
      → least ≤ 6
      → length tail < least
      → All IsItem items
      → length (encode items ++ tail) ≤ fuel
      → walk least fail finish body fuel (encode items ++ tail) s ≡ visit items s
  walk-encode fuel [] tail s p q t h f = walk_short fuel tail s t
  walk-encode zero ((c, d) ∷ items) tail s p q t h f =
      absurd (omega (arith, length-first c d (encode items) tail))
  walk-encode (suc fuel) ((c, d) ∷ items) tail s p q t (h, hs) f =
      walk_round fuel _ s (omega (arith, size)) (
        ap parse_llcp (append_assoc _ (encode items) tail)
        ∙ parse_llcp-append_llcp c d (encode items ++ tail) h.0 h.1)
      ∙ resume-visit fuel (encode items ++ tail) items (body c d s)
          (λ s'. walk-encode fuel items tail s' p q t hs (omega (arith, size)))
    where
      size :
          length ((append_llcp [] c d ++ encode items) ++ tail)
          ≡ length d + 6 + length (encode items ++ tail)
      size = length-first c d (encode items) tail

  resume_enough :
      (f g : ℕ) (rest : Bytes) (t : Turn S R)
      → ((s : S) → walk least fail finish body f rest s ≡ walk least fail finish body g rest s)
      → resume f rest t ≡ resume g rest t
  unfolding resume
  resume_enough f g rest (next s) h = h s
  resume_enough f g rest (done r) h = refl

  -- Whatever the payload, the loop needs no more rounds than there are bytes.
  pub walk_enough :
      (f g : ℕ) (d : Bytes) (s : S)
      → 0 < least
      → length d ≤ f
      → length d ≤ g
      → walk least fail finish body f d s ≡ walk least fail finish body g d s
  walk_enough zero g d s p hf hg =
      walk_short zero d s (omega arith) ∙ sym (walk_short g d s (omega arith))
  walk_enough (suc f) zero d s p hf hg =
      walk_short (suc f) d s (omega arith) ∙ sym (walk_short zero d s (omega arith))
  walk_enough (suc f) (suc g) d s p hf hg = elim (Bool-cases (ltb (length d) least)) [
    | inl short ↦
        walk_short (suc f) d s (ground arith) ∙ sym (walk_short (suc g) d s (ground arith))
    | inr long ↦
        parsed (parse_llcp d) refl (ground arith)
          (λ rest s' h. walk_enough f g rest s' p (omega arith) (omega arith))
  ]
    where
      parsed :
          (m : Result (ℕ × Bytes × Bytes))
          → parse_llcp d ≡ m
          → least ≤ length d
          → ((rest : Bytes) (s' : S)
              → length rest < length d
              → walk least fail finish body f rest s' ≡ walk least fail finish body g rest s')
          → walk least fail finish body (suc f) d s ≡ walk least fail finish body (suc g) d s
      parsed (err x) e long again = walk_fails f d s long e ∙ sym (walk_fails g d s long e)
      parsed (ok (c, q, rest)) e long again =
          walk_round f d s long e
          ∙ resume_enough f g rest (body c q s) (λ s'. again rest s' (parse_llcp-shrinks d e))
          ∙ sym (walk_round g d s long e)

  -- Over a payload of whole items, and a tail too short for the loop to look at, the loop is the
  -- fold over the items.
  pub scan-encode :
      (items : List Item) (tail : Bytes) (s : S)
      → 0 < least
      → least ≤ 6
      → length tail < least
      → All IsItem items
      → scan least fail finish body (encode items ++ tail) s ≡ visit items s
  unfolding scan
  scan-encode items tail s p q t h = walk-encode _ items tail s p q t h (omega arith)

  -- What the loop answers over any payload has a property that the ends of a round have, given an
  -- invariant of the state.
  module _ {κ ι} (I : S → Type ι) (P : R → Type κ)
      (failed : (d : Bytes) (e : Error) → parse_llcp d ≡ err e → P (fail e))
      (finished : (s : S) → I s → P (finish s))
      (kept : (c : ℕ) (p : Bytes) (s s' : S) → I s → body c p s ≡ next s' → I s')
      (returned : (c : ℕ) (p : Bytes) (s : S) (r : R) → I s → body c p s ≡ done r → P r) where
    walk-holds : (fuel : ℕ) (d : Bytes) (s : S) → I s → P (walk least fail finish body fuel d s)
    unfolding walk resume
    walk-holds zero d s inv = finished s inv
    walk-holds (suc fuel) d s inv =
        either (ltb (length d) least) (λ rest s' inv'. walk-holds fuel rest s' inv') refl
      where
        turned :
            (c : ℕ) (p rest : Bytes) (t : Turn S R)
            → ((s' : S) → I s' → P (walk least fail finish body fuel rest s'))
            → body c p s ≡ t
            → P (resume fuel rest t)
        turned c p rest (next s') again e = again s' (kept c p s s' inv e)
        turned c p rest (done r) again e = returned c p s r inv e

        parsed :
            (o : Result (ℕ × Bytes × Bytes))
            → ((rest : Bytes) (s' : S) → I s' → P (walk least fail finish body fuel rest s'))
            → parse_llcp d ≡ o
            → ltb (length d) least ≡ false
            → P (walk least fail finish body (suc fuel) d s)
        parsed (err e) again h long =
            subst P (sym (walk_fails fuel d s (ltb_false→le _ _ long) h)) (failed d e h)
        parsed (ok (c, p, rest)) again h long =
            subst P (sym (walk_round fuel d s (ltb_false→le _ _ long) h))
              (turned c p rest (body c p s) (again rest) refl)

        either :
            (t : Bool)
            → ((rest : Bytes) (s' : S) → I s' → P (walk least fail finish body fuel rest s'))
            → ltb (length d) least ≡ t
            → P (walk least fail finish body (suc fuel) d s)
        either true again h =
            subst P (sym (walk_short (suc fuel) d s (ltb→lt _ _ h))) (finished s inv)
        either false again h = parsed (parse_llcp d) again refl h

    pub scan-holds : (d : Bytes) (s : S) → I s → P (scan least fail finish body d s)
    unfolding scan
    scan-holds d s inv = walk-holds (length d) d s inv
