-- ===== src/StatementCache/Reached.antt =====
-- The insertion, and the books of every cache that the calls reach.
use i.Prelude.{
  ℕ, ◌+◌, ◌≤◌, ◌<◌, ◌≡◌, refl, sym, ap, ◌∙◌, subst, Bytes, List, [], ◌∷◌, ◌++◌, Bool, true, false,
  ◌&&◌, ◌==◌, ltb, Option, none, some, length, arith, ==_iff, length-append, le→ltb_false, lt→ltb,
}
use mathlib.Core.Option.{some-injective}
use i.Errors.{Result, ok, err}
use i.StatementCache.{
  CachedStatement, Cache, find, update, is_over, make_room, hit, look_up, add, reuse, added, insert,
  empty_cache,
}
use i.Text.{bytes_eq, bytes_eq_same}
use i.StatementCache.Counts.{
  flag, in_order, in_keys, times, in_entries, in_order-append, in_keys_of_none,
}
use i.StatementCache.Traces.{
  Reachable, start, finds, inserts, releases, closes, Books, IsKept, IsBalanced,
}
use i.StatementCache.Sections.{
  this_address, other_address, hit-IsBalanced, reuse-IsBalanced, release-IsBalanced,
}
use i.StatementCache.Kept.{make_room-HasRoom}

ok-injective : {A : Type 0} (x y : A) → ok x ≡ ok y → x ≡ y
ok-injective {A} x y e =
    let content : Result A → A = λ r. elim r [ ok z ↦ z | err why ↦ x ] in ap content e

module _ {Prepared : Type 0} (size : ℕ) where
  abbrev new_statement : Prepared → CachedStatement Prepared → CachedStatement Prepared
  new_statement prepared s = record { prepared = some prepared; refs = 1; evicted = false }

  -- The books on what is not allocated.
  free-Books :
      (s : CachedStatement Prepared) (uses closings entries : ℕ)
      → Books s uses closings entries 0
      → s.refs ≡ 0
      → (uses ≡ 0) × ((closings ≡ 0) × (entries ≡ 0))
  free-Books s uses closings entries (r, (k, e)) unused = either s.evicted k e
    where
      either :
          (t : Bool)
          → closings ≡ flag (t && s.refs == 0)
          → entries + flag t ≡ 0
          → (uses ≡ 0) × ((closings ≡ 0) × (entries ≡ 0))
      either true k e = absurd (omega (arith, e))
      either false k e = (omega (arith, r, unused), (k, omega (arith, e)))

  add-IsKept :
      (query : Bytes) (prepared : Prepared) (c : Cache Prepared) (held : List ℕ) (a : ℕ)
      → IsKept size c held a
      → IsKept size (add query prepared c).1 (c.fresh ∷ held) a
  add-IsKept query prepared c held a (books, spare) = either (a == c.fresh) refl
    where
      heap : ℕ → CachedStatement Prepared
      heap = update c.fresh (new_statement prepared) c.heap

      either :
          (t : Bool)
          → (a == c.fresh) ≡ t
          → Books
              (heap a)
              (flag t + times a held)
              (closes size a c.log)
              (flag t + in_entries a c.entries)
              (flag (ltb a (c.fresh + 1)))
            × (c.fresh + 1 ≤ a → (heap a).refs ≡ 0)
      either true e =
          let here : heap a ≡ new_statement prepared (c.heap a) =
            this_address size (new_statement prepared) c.heap a c.fresh e in
          let same : a ≡ c.fresh = (==_iff a c.fresh).0 e in
          let free : flag (ltb a c.fresh) ≡ 0 =
            ap flag (le→ltb_false a c.fresh (omega (arith, same))) in
          let now : flag (ltb a (c.fresh + 1)) ≡ 1 =
            ap flag (lt→ltb a (c.fresh + 1) (omega (arith, same))) in
          let (uses, (closings, entries)) =
            free-Books (c.heap a) _ _ _ (subst (Books (c.heap a) _ _ _) free books)
              (spare (omega (arith, same))) in
          (
            rw (here) (omega (arith, uses), (closings, omega (arith, entries, now))),
            λ over. absurd (omega (arith, same, over)),
          )
      either false e =
          let here : heap a ≡ c.heap a =
            other_address size (new_statement prepared) c.heap a c.fresh e in
          let allocated : ltb a (c.fresh + 1) ≡ ltb a c.fresh = ground (arith, e) in
          (
            rw (here)
                (omega (arith, books.0), (books.1.0, omega (arith, books.1.1, ap flag allocated))),
            rw (here) (λ over. spare (omega (arith, over))),
          )

  add-IsBalanced :
      (query : Bytes) (prepared : Prepared) (c : Cache Prepared) (held : List ℕ)
      → in_keys query c.entries ≡ 0
      → length c.entries < size
      → IsBalanced size c held
      → IsBalanced size (add query prepared c).1 (c.fresh ∷ held)
  add-IsBalanced query prepared c held absent room ((keys, (lengths, r)), kept) = (
    (
      (λ q. (
        omega (arith, (keys q).0, in_order-append q query c.order),
        either q (bytes_eq query q) refl,
      )),
      (omega (arith, lengths, length-append {0} c.order (query ∷ [])), omega (arith, room)),
    ),
    λ a. add-IsKept query prepared c held a (kept a),
  )
    where
      either :
          (q : Bytes) (t : Bool) → bytes_eq query q ≡ t → in_order q (c.order ++ (query ∷ [])) ≤ 1
      either q true e =
          let none_of : in_keys q c.entries ≡ 0 =
            subst (λ q. in_keys q c.entries ≡ 0) (bytes_eq_same query q e) absent in
          omega (arith, none_of, (keys q).0, in_order-append q query c.order, ap flag e)
      either q false e = omega (arith, (keys q).1, in_order-append q query c.order, ap flag e)

  -- The insertion does not panic.
  pub insert-IsBalanced :
      (query : Bytes) (prepared : Prepared) (c : Cache Prepared) (held : List ℕ)
      → 0 < size
      → IsBalanced size c held
      → (answer : ℕ × Cache Prepared) × ((insert size query prepared c ≡ ok answer)
          × IsBalanced size answer.1 (answer.0 ∷ held))
  unfolding insert
  insert-IsBalanced query prepared c held positive balanced = either (find query c.entries) refl
    where
      either :
          (o : Option ℕ)
          → find query c.entries ≡ o
          → (answer : ℕ × Cache Prepared) × ((elim o [
            | some address ↦ ok (reuse prepared c address)
            | none ↦ added query prepared (make_room size c)
          ]
                ≡ ok answer)
              × IsBalanced size answer.1 (answer.0 ∷ held))
      either (some v) e =
          (reuse prepared c v, (refl, reuse-IsBalanced size query prepared c held v e balanced))
      either none e =
          let (c', (made, (balanced', (room, absent)))) =
            make_room-HasRoom size c held positive balanced in
          (
            add query prepared c',
            (
              ap (added query prepared) made,
              add-IsBalanced query prepared c' held
                  (absent query (in_keys_of_none query c.entries e)) room balanced',
            ),
          )

  start-IsBalanced : (c : Cache Prepared) → c ≡ empty_cache → IsBalanced size c []
  start-IsBalanced c e =
      subst (λ c. IsBalanced size c []) (sym e)
        (
          ((λ q. (refl, omega arith)), (refl, omega arith)),
          λ a. ((refl, (refl, ap flag (sym (le→ltb_false a 0 (omega arith))))), λ free. refl),
        )

  look_up-IsBalanced :
      (query : Bytes) (c c' : Cache Prepared) (held : List ℕ) (a : ℕ)
      → look_up query c ≡ some (a, c')
      → IsBalanced size c held
      → IsBalanced size c' (a ∷ held)
  unfolding look_up
  look_up-IsBalanced query c c' held a e balanced = either (find query c.entries) refl e
    where
      either :
          (o : Option ℕ)
          → find query c.entries ≡ o
          → (elim o [ none ↦ none | some address ↦ some (hit query c address) ]) ≡ some (a, c')
          → IsBalanced size c' (a ∷ held)
      either none f e = ground arith
      either (some v) f e =
          subst (λ answer. IsBalanced size answer.1 (answer.0 ∷ held)) (some-injective _ _ e)
            (hit-IsBalanced size query c held v f balanced)

  Reachable-IsBalanced :
      {c : Cache Prepared} {held : List ℕ}
      → 0 < size
      → Reachable size c held
      → IsBalanced size c held
  Reachable-IsBalanced positive start = start-IsBalanced empty_cache refl
  Reachable-IsBalanced positive (finds {c} {c'} {held} query a reached e) =
      look_up-IsBalanced query c c' held a e (Reachable-IsBalanced positive reached)
  Reachable-IsBalanced positive (inserts {c} {c'} {held} query prepared a reached e) =
      let (answer, (made, balanced)) =
        insert-IsBalanced query prepared c held positive (Reachable-IsBalanced positive reached) in
      subst (λ answer. IsBalanced size answer.1 (answer.0 ∷ held)) (ok-injective _ _ (sym made ∙ e))
        balanced
  Reachable-IsBalanced positive (releases {c} before after a reached) =
      release-IsBalanced size c before after a (Reachable-IsBalanced positive reached)

  -- In a cache with room for at least one statement, which any interleaving of lookups, insertions
  -- and releases by the calls that hold a statement has reached: the counter of every statement is
  -- the number of calls that hold it; it has one entry in the cache or is evicted; it was closed
  -- once if it is evicted and held by no call, and otherwise never; there are no more entries than
  -- there is room for; and the next insertion does not panic.
  pub Reachable-Books :
      (c : Cache Prepared) (held : List ℕ)
      → 0 < size
      → Reachable size c held
      → (a : ℕ) → a < c.fresh
      → ((c.heap a).refs ≡ times a held)
        × ((in_entries a c.entries + flag (c.heap a).evicted ≡ 1)
            × ((closes size a c.log ≡ flag (is_over (c.heap a)))
                × ((length c.entries ≤ size)
                    × ((query : Bytes) (prepared : Prepared)
                        → (answer : ℕ × Cache Prepared) × (insert size query prepared c
                            ≡ ok answer)))))
  Reachable-Books c held positive reached a there =
      let balanced : IsBalanced size c held = Reachable-IsBalanced positive reached in
      let ((uses, (closings, entry)), spare) = balanced.1 a in
      (
        uses,
        (
          entry ∙ ap flag (lt→ltb a c.fresh there),
          (
            closings,
            (
              balanced.0.1.1,
              λ query prepared.
                  let (answer, (made, after)) =
                    insert-IsBalanced query prepared c held positive balanced in
                  (answer, made),
            ),
          ),
        ),
      )
