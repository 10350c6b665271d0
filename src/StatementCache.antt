-- ===== src/StatementCache.antt =====
-- The statement cache of driver.go. A cached statement is shared: the map of the cache, the calls that
-- use it and the eviction all reach it through a pointer, so statements stand on a heap. The two
-- critical sections of cachedPreparedStatement and that of releaseCachedStatement are one function
-- each; a statement that a section closes is written to a log.
pub mod Counts
pub mod Traces
pub mod Balance
pub mod Sections
pub mod Kept
pub mod Reached
use i.Prelude.{
  ℕ, zero, suc, ◌+◌, ◌-◌, Bytes, List, [], ◌∷◌, ◌++◌, Bool, true, false, not, ◌&&◌, ◌==◌, ltb, leb,
  Option, none, some, length, if◌then◌else◌,
}
use i.Errors.{Result, ok, err, panic}
use i.Text.{bytes_eq}

-- cachedStatement; `prepared` is its type, handle, name and parameter format.
pub record CachedStatement (Prepared : Type 0) : Type 0 where
  pub prepared : Option Prepared
  pub refs : ℕ
  pub evicted : Bool

-- What closePreparedStatement is called for: a cached statement, or a prepared one that is not cached.
pub data Closed (Prepared : Type 0) : Type 0 where
  cached : ℕ → Closed Prepared
  spare : Prepared → Closed Prepared

-- statementCache and statementCacheOrder, the heap, the first free address, and the log.
pub record Cache (Prepared : Type 0) : Type 0 where
  pub heap : ℕ → CachedStatement Prepared
  pub fresh : ℕ
  pub entries : List (Bytes × ℕ)
  pub order : List Bytes
  pub log : List (Closed Prepared)

-- `statementCache[query]`.
unfoldable pub find : Bytes → List (Bytes × ℕ) → Option ℕ
find query [] = none
find query ((key, address) ∷ entries) =
    let later = find query entries in if bytes_eq key query then some address else later

-- `delete(c.statementCache, key)`.
unfoldable pub delete : Bytes → List (Bytes × ℕ) → List (Bytes × ℕ)
delete query [] = []
delete query ((key, address) ∷ entries) =
    let rest = delete query entries in if bytes_eq key query then rest else (key, address) ∷ rest

-- The order without the first place of a query.
unfoldable pub remove : Bytes → List Bytes → List Bytes
remove query [] = []
remove query (key ∷ order) =
    let rest = remove query order in if bytes_eq key query then order else key ∷ rest

module _ {Prepared : Type 0} where
  -- A write through a pointer.
  abbrev pub update :
      ℕ
      → (CachedStatement Prepared → CachedStatement Prepared)
      → (ℕ → CachedStatement Prepared)
      → ℕ
      → CachedStatement Prepared
  update address change heap a = if a == address then change (heap a) else heap a

  abbrev pub acquired : CachedStatement Prepared → CachedStatement Prepared
  acquired s = record s { refs = s.refs + 1 }

  abbrev pub released : CachedStatement Prepared → CachedStatement Prepared
  released s = record s { refs = s.refs - 1 }

  abbrev pub marked : CachedStatement Prepared → CachedStatement Prepared
  marked s = record s { evicted = true }

  -- Whether nobody uses a statement that was evicted.
  abbrev pub is_over : CachedStatement Prepared → Bool
  is_over s = s.evicted && s.refs == 0

  abbrev pub close_if : Bool → ℕ → List (Closed Prepared) → List (Closed Prepared)
  close_if over address log = if over then cached address ∷ log else log

  -- The first section: a statement that the cache has moves to the end of the order.
  abbrev pub hit : Bytes → Cache Prepared → ℕ → ℕ × Cache Prepared
  hit query c address = (
    address,
    record c {
      heap = update address acquired c.heap;
      order = remove query c.order ++ (query ∷ []);
    },
  )

  unfoldable pub look_up : Bytes → Cache Prepared → Option (ℕ × Cache Prepared)
  look_up query c = elim (find query c.entries) [
    | none ↦ none
    | some address ↦ some (hit query c address)
  ]

  -- The victim of the eviction: `order[0]`, which panics where the order is empty, and the pointer that
  -- the cache has for it, which panics where it is nil.
  abbrev pub evict_at : Bytes → List Bytes → Cache Prepared → Option ℕ → Result (Cache Prepared)
  evict_at key order c none = err panic
  evict_at key order c (some victim) =
      let heap = update victim marked c.heap in
      ok record c {
        heap = heap;
        entries = delete key c.entries;
        order = order;
        log = close_if (is_over (heap victim)) victim c.log;
      }

  abbrev pub evict_first : List Bytes → Cache Prepared → Result (Cache Prepared)
  evict_first [] c = err panic
  evict_first (key ∷ order) c = evict_at key order c (find key c.entries)

  unfoldable pub make_room : (size : ℕ) → Cache Prepared → Result (Cache Prepared)
  make_room size c = if leb size (length c.entries) then evict_first c.order c else ok c

  -- The new statement at the first free address.
  abbrev pub add : Bytes → Prepared → Cache Prepared → ℕ × Cache Prepared
  add query prepared c = (
    c.fresh,
    record c {
      heap =
          update c.fresh (λ s. record { prepared = some prepared; refs = 1; evicted = false })
            c.heap;
      fresh = c.fresh + 1;
      entries = (query, c.fresh) ∷ c.entries;
      order = c.order ++ (query ∷ []);
    },
  )

  -- Another call was faster: its statement is used, and the one just prepared is closed.
  abbrev pub reuse : Prepared → Cache Prepared → ℕ → ℕ × Cache Prepared
  reuse prepared c address =
      (address, record c { heap = update address acquired c.heap; log = spare prepared ∷ c.log })

  abbrev pub added : Bytes → Prepared → Result (Cache Prepared) → Result (ℕ × Cache Prepared)
  added query prepared (err e) = err e
  added query prepared (ok c) = ok (add query prepared c)

  -- The second section, behind the prepare.
  unfoldable pub insert :
      (size : ℕ) → Bytes → Prepared → Cache Prepared → Result (ℕ × Cache Prepared)
  insert size query prepared c = elim (find query c.entries) [
    | some address ↦ ok (reuse prepared c address)
    | none ↦ added query prepared (make_room size c)
  ]

  -- releaseCachedStatement. `refs` stops at 0.
  unfoldable pub release_cached : ℕ → Cache Prepared → Cache Prepared
  release_cached address c =
      let heap = update address released c.heap in
      record c { heap = heap; log = close_if (is_over (heap address)) address c.log }

  -- A cache that was just made.
  abbrev pub empty_cache : Cache Prepared
  empty_cache = record {
    heap = λ a. record { prepared = none; refs = 0; evicted = false };
    fresh = 0;
    entries = [];
    order = [];
    log = [];
  }
