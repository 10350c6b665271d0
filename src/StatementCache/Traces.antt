-- ===== src/StatementCache/Traces.antt =====
-- The interleavings of the cache's calls: each step is one critical section of some call. `held` has
-- the address of a statement once for each call that uses it.
use i.Prelude.{ℕ, ◌+◌, ◌≤◌, ◌≡◌, Bytes, List, [], ◌∷◌, ◌++◌, ◌==◌, ltb, some, length}
use i.Errors.{ok}
use i.StatementCache.{
  Cache, CachedStatement, Closed, cached, spare, empty_cache, is_over, look_up, insert,
  release_cached,
}
use i.StatementCache.Counts.{flag, in_order, in_keys, times, in_entries}

-- The books on one statement: its counter is the number of calls that use it; it was closed once if it
-- is evicted and unused, and never otherwise; and if it is allocated, it has one entry or is evicted.
abbrev pub Books :
    {Prepared : Type 0} → CachedStatement Prepared → (uses closings entries allocated : ℕ) → Type 0
Books s uses closings entries allocated =
    (s.refs ≡ uses) × ((closings ≡ flag (is_over s)) × (entries + flag s.evicted ≡ allocated))

module _ {Prepared : Type 0} (size : ℕ) where
  pub data Reachable : Cache Prepared → List ℕ → Type 0 where
    start : Reachable empty_cache []
    finds :
        {c c' : Cache Prepared} {held : List ℕ} (query : Bytes) (a : ℕ)
        → Reachable c held
        → look_up query c ≡ some (a, c')
        → Reachable c' (a ∷ held)
    inserts :
        {c c' : Cache Prepared} {held : List ℕ} (query : Bytes) (prepared : Prepared) (a : ℕ)
        → Reachable c held
        → insert size query prepared c ≡ ok (a, c')
        → Reachable c' (a ∷ held)
    releases :
        {c : Cache Prepared} (before after : List ℕ) (a : ℕ)
        → Reachable c (before ++ a ∷ after)
        → Reachable (release_cached a c) (before ++ after)

  -- How often a cached statement was closed.
  abbrev pub closes : ℕ → List (Closed Prepared) → ℕ
  closes a [] = 0
  closes a (spare p ∷ log) = closes a log
  closes a (cached b ∷ log) = flag (a == b) + closes a log

  -- The books on the statement at an address.
  abbrev pub IsKept : Cache Prepared → List ℕ → ℕ → Type 0
  IsKept c held a =
      Books (c.heap a) (times a held) (closes a c.log) (in_entries a c.entries)
        (flag (ltb a c.fresh))
      × (c.fresh ≤ a → (c.heap a).refs ≡ 0)

  -- The map and the order have the same keys, each once, and no more than there is room for.
  abbrev pub IsOrdered : Cache Prepared → Type 0
  IsOrdered c =
      ((query : Bytes)
        → (in_keys query c.entries ≡ in_order query c.order) × (in_order query c.order ≤ 1))
      × ((length c.entries ≡ length c.order) × (length c.entries ≤ size))

  abbrev pub IsBalanced : Cache Prepared → List ℕ → Type 0
  IsBalanced c held = IsOrdered c × ((a : ℕ) → IsKept c held a)
