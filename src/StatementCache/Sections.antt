-- ===== src/StatementCache/Sections.antt =====
-- What each critical section does to the books of one address, and to the keys.
use i.Prelude.{
  ℕ, ◌+◌, ◌≤◌, ◌<◌, ◌≡◌, refl, sym, ap, ◌∙◌, subst, Bytes, List, [], ◌∷◌, ◌++◌, Bool, true, false,
  ◌==◌, ltb, some, arith, ==_iff, if◌then◌else◌, length-append, le→ltb_false,
}
use i.StatementCache.{
  CachedStatement, Closed, Cache, find, remove, update, acquired, released, is_over, close_if, hit,
  reuse, release_cached,
}
use i.StatementCache.Counts.{
  flag, flag_one, in_order, times, times-middle, in_entries, in_entries_of_some, in_order-moved,
  length-remove, in_keys_of_some,
}
use i.StatementCache.Traces.{closes, Books, IsKept, IsBalanced}
use i.StatementCache.Balance.{acquired-Books, released-Books}

module _ {Prepared : Type 0} (size : ℕ) where
  -- A statement of the cache gets one more use.
  use-IsKept :
      (c : Cache Prepared) (held : List ℕ) (v a : ℕ)
      → 0 < in_entries v c.entries
      → IsKept size c held a
      → IsKept size (record c { heap = update v acquired c.heap }) (v ∷ held) a
  use-IsKept c held v a here (books, spare) = either (a == v) refl
    where
      either :
          (t : Bool)
          → (a == v) ≡ t
          → Books
              (if t then acquired (c.heap a) else c.heap a)
              (flag t + times a held)
              (closes size a c.log)
              (in_entries a c.entries)
              (flag (ltb a c.fresh))
            × (c.fresh ≤ a → (if t then acquired (c.heap a) else c.heap a).refs ≡ 0)
      either true e =
          let there : 0 < in_entries a c.entries =
            subst (λ x. 0 < in_entries x c.entries) (sym ((==_iff a v).0 e)) here in
          (
            acquired-Books (c.heap a) _ _ _ _ books there (flag_one (ltb a c.fresh)),
            λ free. absurd (omega (arith, there, books.1.1, ap flag (le→ltb_false a c.fresh free))),
          )
      either false e = ((omega (arith, books.0), books.1), spare)

  pub hit-IsBalanced :
      (query : Bytes) (c : Cache Prepared) (held : List ℕ) (v : ℕ)
      → find query c.entries ≡ some v
      → IsBalanced size c held
      → IsBalanced size (hit query c v).1 (v ∷ held)
  hit-IsBalanced query c held v found ((keys, (lengths, room)), kept) =
      let present : 0 < in_order query c.order =
        subst (0 <◌) (keys query).0 (in_keys_of_some query c.entries v found) in
      (
        (
          (λ q. (
            (keys q).0 ∙ sym (in_order-moved q query c.order present),
            omega (arith, in_order-moved q query c.order present, (keys q).1),
          )),
          (
            omega (
              arith,
              lengths,
              length-append {0} (remove query c.order) (query ∷ []),
              length-remove query c.order present,
            ),
            room,
          ),
        ),
        λ a. use-IsKept c held v a (in_entries_of_some query c.entries v found) (kept a),
      )

  pub reuse-IsBalanced :
      (query : Bytes) (prepared : Prepared) (c : Cache Prepared) (held : List ℕ) (v : ℕ)
      → find query c.entries ≡ some v
      → IsBalanced size c held
      → IsBalanced size (reuse prepared c v).1 (v ∷ held)
  reuse-IsBalanced query prepared c held v found (ordered, kept) =
      (ordered, λ a. use-IsKept c held v a (in_entries_of_some query c.entries v found) (kept a))

  -- The log behind a section that may close a statement.
  pub closes-same :
      (t : Bool) (a v : ℕ) (log : List (Closed Prepared))
      → (a == v) ≡ true
      → closes size a (close_if t v log) ≡ flag t + closes size a log
  closes-same true a v log e = rw (e) refl
  closes-same false a v log e = omega arith

  pub closes-other :
      (t : Bool) (a v : ℕ) (log : List (Closed Prepared))
      → (a == v) ≡ false
      → closes size a (close_if t v log) ≡ closes size a log
  closes-other true a v log e = omega (arith, ap flag e)
  closes-other false a v log e = refl

  -- A write at another address.
  pub other_address :
      (change : CachedStatement Prepared → CachedStatement Prepared)
      (heap : ℕ → CachedStatement Prepared) (a v : ℕ)
      → (a == v) ≡ false
      → update v change heap a ≡ heap a
  other_address change heap a v e = rw (e) refl

  pub this_address :
      (change : CachedStatement Prepared → CachedStatement Prepared)
      (heap : ℕ → CachedStatement Prepared) (a v : ℕ)
      → (a == v) ≡ true
      → update v change heap a ≡ change (heap a)
  this_address change heap a v e = rw (e) refl

  release-IsKept :
      (c : Cache Prepared) (before after : List ℕ) (v a : ℕ)
      → IsKept size c (before ++ v ∷ after) a
      → IsKept size (release_cached v c) (before ++ after) a
  unfolding release_cached
  release-IsKept c before after v a ((uses, books), spare) = either (a == v) refl
    where
      heap : ℕ → CachedStatement Prepared
      heap = update v released c.heap

      log : List (Closed Prepared)
      log = close_if (is_over (heap v)) v c.log

      either :
          (t : Bool)
          → (a == v) ≡ t
          → Books
              (heap a)
              (times a (before ++ after))
              (closes size a log)
              (in_entries a c.entries)
              (flag (ltb a c.fresh))
            × (c.fresh ≤ a → (heap a).refs ≡ 0)
      either true e =
          let here : heap a ≡ released (c.heap a) = this_address released c.heap a v e in
          let there : heap v ≡ released (c.heap a) = ap heap (sym ((==_iff a v).0 e)) ∙ here in
          let count : closes size a log
              ≡ flag (is_over (released (c.heap a))) + closes size a c.log =
            closes-same (is_over (heap v)) a v c.log e
            ∙ ap (λ s. flag (is_over s) + closes size a c.log) there in
          let used : (c.heap a).refs ≡ 1 + times a (before ++ after) =
            omega (arith, uses, times-middle a v before after, ap flag e) in
          (
            rw (here, count) (released-Books (c.heap a) _ _ _ _ (used, books)),
            λ free. absurd (omega (arith, spare free, used)),
          )
      either false e =
          let here : heap a ≡ c.heap a = other_address released c.heap a v e in
          let count : closes size a log ≡ closes size a c.log =
            closes-other (is_over (heap v)) a v c.log e in
          let used : (c.heap a).refs ≡ times a (before ++ after) =
            omega (arith, uses, times-middle a v before after, ap flag e) in
          (rw (here, count) (used, books), rw (here) spare)

  pub release-IsBalanced :
      (c : Cache Prepared) (before after : List ℕ) (v : ℕ)
      → IsBalanced size c (before ++ v ∷ after)
      → IsBalanced size (release_cached v c) (before ++ after)
  unfolding release_cached
  release-IsBalanced c before after v (ordered, kept) =
      (ordered, λ a. release-IsKept c before after v a (kept a))
