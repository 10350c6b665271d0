-- ===== src/StatementCache/Balance.antt =====
-- Every critical section keeps the books of the cache.

use i.Prelude.{ℕ, ◌+◌, ◌-◌, ◌≤◌, ◌<◌, ◌≡◌, ap, ◌∙◌, Bool, true, false, ◌&&◌, ◌==◌, arith}
use i.StatementCache.{CachedStatement, acquired, released, marked, is_over}
use i.StatementCache.Counts.{flag}
use i.StatementCache.Traces.{Books}

module _ {Prepared : Type 0} where
  pub acquired-Books :
      (s : CachedStatement Prepared) (uses closings entries allocated : ℕ)
      → Books s uses closings entries allocated
      → 0 < entries
      → allocated ≤ 1
      → Books (acquired s) (1 + uses) closings entries allocated
  acquired-Books s uses closings entries allocated (r, (k, e)) here one = either s.evicted r k e
    where
      either :
          (t : Bool)
          → s.refs ≡ uses
          → closings ≡ flag (t && s.refs == 0)
          → entries + flag t ≡ allocated
          → (s.refs + 1 ≡ 1 + uses)
            × ((closings ≡ flag (t && (s.refs + 1) == 0)) × (entries + flag t ≡ allocated))
      either true r k e = absurd (omega (arith, here, one, e))
      either false r k e = (omega (arith, r), (k, e))

  -- A call gives the statement back, which closes it where it was the last and it is evicted.
  pub released-Books :
      (s : CachedStatement Prepared) (uses closings entries allocated : ℕ)
      → Books s (1 + uses) closings entries allocated
      → Books (released s) uses (flag (is_over (released s)) + closings) entries allocated
  released-Books s uses closings entries allocated (r, (k, e)) = either s.evicted k e
    where
      either :
          (t : Bool)
          → closings ≡ flag (t && s.refs == 0)
          → entries + flag t ≡ allocated
          → (s.refs - 1 ≡ uses)
            × ((flag (t && (s.refs - 1) == 0) + closings ≡ flag (t && (s.refs - 1) == 0))
                × (entries + flag t ≡ allocated))
      either true k e =
          let used : (s.refs == 0) ≡ false = ground (arith, r) in
          (omega (arith, r), (omega (arith, k ∙ ap flag used), e))
      either false k e = (omega (arith, r), (omega (arith, k), e))

  -- The eviction of a statement that has an entry, which closes it where nobody uses it.
  pub marked-Books :
      (s : CachedStatement Prepared) (uses closings entries allocated : ℕ)
      → Books s uses closings (entries + 1) allocated
      → allocated ≤ 1
      → Books (marked s) uses (flag (is_over (marked s)) + closings) entries allocated
  marked-Books s uses closings entries allocated (r, (k, e)) one = either s.evicted k e
    where
      either :
          (t : Bool)
          → closings ≡ flag (t && s.refs == 0)
          → entries + 1 + flag t ≡ allocated
          → (s.refs ≡ uses)
            × ((flag (s.refs == 0) + closings ≡ flag (s.refs == 0)) × (entries + 1 ≡ allocated))
      either true k e = absurd (omega (arith, one, e))
      either false k e = (r, (omega (arith, k), omega (arith, e)))
