-- ===== src/StatementCache/Kept.antt =====
-- The eviction and the insertion, and the books of the whole cache.
use i.Prelude.{
  ℕ, suc, ◌+◌, ◌≤◌, ◌<◌, ◌≡◌, refl, sym, ap, ◌∙◌, subst, Bytes, List, [], ◌∷◌, Bool, true, false,
  ◌==◌, ltb, leb, Option, none, some, length, arith, ==_iff, if◌then◌else◌, leb→le,
}
use i.Errors.{ok}
use i.StatementCache.{
  CachedStatement, Closed, Cache, find, delete, update, marked, is_over, close_if, evict_at,
  evict_first, make_room,
}
use i.Text.{bytes_eq}
use i.StatementCache.Counts.{
  flag, flag_one, in_order, in_keys, times, in_entries, in_keys_of_none, in_keys-delete,
  length-delete, in_entries-delete, bytes_eq_refl,
}
use i.StatementCache.Traces.{closes, Books, IsKept, IsBalanced}
use i.StatementCache.Balance.{marked-Books}
use i.StatementCache.Sections.{this_address, other_address, closes-same, closes-other}

module _ {Prepared : Type 0} (size : ℕ) where
  -- The cache without a victim.
  abbrev evicted_from : Bytes → List Bytes → ℕ → Cache Prepared → Cache Prepared
  evicted_from key order v c =
      let heap = update v marked c.heap in
      record c {
        heap = heap;
        entries = delete key c.entries;
        order = order;
        log = close_if (is_over (heap v)) v c.log;
      }

  evict-IsKept :
      (c : Cache Prepared) (held : List ℕ) (key : Bytes) (order : List Bytes) (v a : ℕ)
      → find key c.entries ≡ some v
      → in_keys key c.entries ≤ 1
      → IsKept size c held a
      → IsKept size (evicted_from key order v c) held a
  evict-IsKept c held key order v a found once ((uses, (closed, entries)), spare) =
      either (a == v) refl
    where
      heap : ℕ → CachedStatement Prepared
      heap = update v marked c.heap

      log : List (Closed Prepared)
      log = close_if (is_over (heap v)) v c.log

      gone : in_entries a (delete key c.entries) + flag (a == v) ≡ in_entries a c.entries
      gone = in_entries-delete a v key c.entries found once

      either :
          (t : Bool)
          → (a == v) ≡ t
          → Books
              (heap a)
              (times a held)
              (closes size a log)
              (in_entries a (delete key c.entries))
              (flag (ltb a c.fresh))
            × (c.fresh ≤ a → (heap a).refs ≡ 0)
      either true e =
          let here : heap a ≡ marked (c.heap a) = this_address size marked c.heap a v e in
          let there : heap v ≡ marked (c.heap a) = ap heap (sym ((==_iff a v).0 e)) ∙ here in
          let count : closes size a log ≡ flag (is_over (marked (c.heap a))) + closes size a c.log =
            closes-same size (is_over (heap v)) a v c.log e
            ∙ ap (λ s. flag (is_over s) + closes size a c.log) there in
          let before : in_entries a (delete key c.entries) + 1 + flag (c.heap a).evicted
              ≡ flag (ltb a c.fresh) =
            omega (arith, entries, gone, ap flag e) in
          (
            rw (here, count)
                (marked-Books (c.heap a) _ _ _ _ (uses, (closed, before))
                  (flag_one (ltb a c.fresh))),
            rw (here) spare,
          )
      either false e =
          let here : heap a ≡ c.heap a = other_address size marked c.heap a v e in
          let count : closes size a log ≡ closes size a c.log =
            closes-other size (is_over (heap v)) a v c.log e in
          (
            rw (here, count) (uses, (closed, omega (arith, entries, gone, ap flag e))),
            rw (here) spare,
          )

  evict-keys :
      (c : Cache Prepared) (key : Bytes) (order : List Bytes) (q : Bytes)
      → (in_keys q c.entries ≡ flag (bytes_eq key q) + in_order q order)
      → flag (bytes_eq key q) + in_order q order ≤ 1
      → (in_keys q (delete key c.entries) ≡ in_order q order) × (in_order q order ≤ 1)
  evict-keys c key order q same once =
      either (bytes_eq key q) same once (in_keys-delete q key c.entries)
    where
      either :
          (t : Bool)
          → in_keys q c.entries ≡ flag t + in_order q order
          → flag t + in_order q order ≤ 1
          → in_keys q (delete key c.entries) ≡ (if t then 0 else in_keys q c.entries)
          → (in_keys q (delete key c.entries) ≡ in_order q order) × (in_order q order ≤ 1)
      either true same once rest = (omega (arith, rest, once), omega (arith, once))
      either false same once rest = (omega (arith, rest, same), omega (arith, once))

  -- Room for one more, and no new keys.
  abbrev pub HasRoom : Cache Prepared → Cache Prepared → List ℕ → Type 0
  HasRoom c c' held =
      IsBalanced size c' held
      × ((length c'.entries < size)
          × ((q : Bytes) → in_keys q c.entries ≡ 0 → in_keys q c'.entries ≡ 0))

  evict-HasRoom :
      (c : Cache Prepared) (held : List ℕ) (key : Bytes) (order : List Bytes) (v : ℕ)
      → c.order ≡ key ∷ order
      → find key c.entries ≡ some v
      → IsBalanced size c held
      → HasRoom c (evicted_from key order v c) held
  evict-HasRoom c held key order v e found ((keys, (lengths, room)), kept) =
      let front : (q : Bytes) → in_order q c.order ≡ flag (bytes_eq key q) + in_order q order =
        λ q. ap (in_order q) e in
      let new : (q : Bytes)
          → (in_keys q (delete key c.entries) ≡ in_order q order) × (in_order q order ≤ 1) =
        λ q. evict-keys c key order q ((keys q).0 ∙ front q) (subst (◌≤ 1) (front q) (keys q).1) in
      let once : in_keys key c.entries ≡ 1 =
        omega (arith, (keys key).0, (keys key).1, front key, ap flag (bytes_eq_refl key)) in
      let long : length c.order ≡ suc (length order) = ap length e in
      let shorter : length (delete key c.entries) + in_keys key c.entries ≡ length c.entries =
        length-delete key c.entries in
      (
        (
          (new, (omega (arith, shorter, once, lengths, long), omega (arith, shorter, once, room))),
          λ a. evict-IsKept c held key order v a found (omega (arith, once)) (kept a),
        ),
        (
          omega (arith, shorter, once, room),
          λ q none_of. omega (arith, (new q).0, (keys q).0, front q, none_of),
        ),
      )

  evict_first-HasRoom :
      (c : Cache Prepared) (held : List ℕ) (order : List Bytes)
      → c.order ≡ order
      → 0 < length c.entries
      → IsBalanced size c held
      → (c' : Cache Prepared) × ((evict_first order c ≡ ok c') × HasRoom c c' held)
  evict_first-HasRoom c held [] e some_entry ((keys, (lengths, room)), kept) =
      absurd (omega (arith, some_entry, lengths, ap length e))
  evict_first-HasRoom c held (key ∷ order) e some_entry balanced = either (find key c.entries) refl
    where
      present : in_keys key c.entries ≡ flag (bytes_eq key key) + in_order key order
      present = (balanced.0.0 key).0 ∙ ap (in_order key) e

      either :
          (o : Option ℕ)
          → find key c.entries ≡ o
          → (c' : Cache Prepared) × ((evict_at key order c o ≡ ok c') × HasRoom c c' held)
      either none f =
          absurd
            (omega (arith, present, ap flag (bytes_eq_refl key), in_keys_of_none key c.entries f))
      either (some v) f =
          (evicted_from key order v c, (refl, evict-HasRoom c held key order v e f balanced))

  pub make_room-HasRoom :
      (c : Cache Prepared) (held : List ℕ)
      → 0 < size
      → IsBalanced size c held
      → (c' : Cache Prepared) × ((make_room size c ≡ ok c') × HasRoom c c' held)
  unfolding make_room
  make_room-HasRoom c held positive balanced = either (leb size (length c.entries)) refl
    where
      either :
          (t : Bool)
          → leb size (length c.entries) ≡ t
          → (c' : Cache Prepared) × (((if t then evict_first c.order c else ok c) ≡ ok c')
              × HasRoom c c' held)
      either true e =
          let full : size ≤ length c.entries = leb→le size (length c.entries) e in
          evict_first-HasRoom c held c.order refl (omega (arith, full, positive)) balanced
      either false e = (c, (refl, (balanced, (ground (arith, e), λ q none_of. none_of))))
