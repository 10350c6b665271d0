-- ===== src/Tests/StatementCacheTests.antt =====
-- A cache of one statement: the second query evicts the statement of the first, which is still held and
-- is closed when it is given back.
use i.Prelude.{ℕ, ◌+◌, ◌<◌, ◌≤◌, ◌≡◌, refl, Bytes, [], ◌∷◌, length, arith}
use i.Errors.{Result, ok, err}
use i.StatementCache.{
  Cache, cached, empty_cache, insert, make_room, find, delete, release_cached, is_over,
}
use i.StatementCache.Counts.{flag, times, in_entries}
use i.StatementCache.Traces.{Reachable, start, inserts, releases, closes}
use i.StatementCache.Reached.{Reachable-Books}

abbrev chosen : Result (ℕ × Cache ℕ) → Cache ℕ
chosen (ok answer) = answer.1
chosen (err e) = empty_cache

abbrev one : Cache ℕ
one = chosen (insert 1 (b'A' ∷ []) 70 empty_cache)

abbrev two : Cache ℕ
two = chosen (insert 1 (b'B' ∷ []) 71 one)

inserted_one : insert 1 (b'A' ∷ []) 70 empty_cache ≡ ok (0, one)
unfolding insert make_room find delete
inserted_one = refl

inserted_two : insert 1 (b'B' ∷ []) 71 one ≡ ok (1, two)
unfolding insert make_room find delete
inserted_two = refl

reached : Reachable 1 (release_cached 0 two) (1 ∷ [])
reached =
    releases (1 ∷ []) [] 0
      (inserts (b'B' ∷ []) 71 1 (inserts (b'A' ∷ []) 70 0 start inserted_one) inserted_two)

allocated : 0 < (release_cached 0 two).fresh
unfolding release_cached insert make_room find delete
allocated = omega arith

Reachable-Books_example :
    let c = release_cached 0 two in
    ((c.heap 0).refs ≡ times 0 (1 ∷ []))
    × ((in_entries 0 c.entries + flag (c.heap 0).evicted ≡ 1)
        × ((closes {Prepared = ℕ} 1 0 c.log ≡ flag (is_over (c.heap 0)))
            × ((length c.entries ≤ 1)
                × ((query : Bytes) (prepared : ℕ)
                    → (answer : ℕ × Cache ℕ) × (insert 1 query prepared c ≡ ok answer)))))
Reachable-Books_example =
    Reachable-Books 1 (release_cached 0 two) (1 ∷ []) (omega arith) reached 0 allocated

first_closed : (release_cached 0 two).log ≡ cached 0 ∷ []
unfolding release_cached insert make_room find delete
first_closed = refl
