-- ===== src/StatementCache/Counts.antt =====
-- How often a query and an address stand in the cache and its order, and what the lookups change.
use mathlib.Core.Option.{some-injective}
use i.Prelude.{
  ℕ, suc, ◌+◌, ◌≤◌, ◌<◌, ◌≡◌, refl, ap, ◌∙◌, subst, Bytes, List, [], ◌∷◌, ◌++◌, Bool, true, false,
  ◌==◌, none, some, length, arith, if◌then◌else◌,
}
use i.StatementCache.{find, delete, remove}
use i.Text.{bytes_eq, bytes_eq_same}

abbrev pub flag : Bool → ℕ
flag true = 1
flag false = 0

abbrev pub in_order : Bytes → List Bytes → ℕ
in_order query [] = 0
in_order query (key ∷ order) = flag (bytes_eq key query) + in_order query order

abbrev pub in_keys : Bytes → List (Bytes × ℕ) → ℕ
in_keys query [] = 0
in_keys query ((key, address) ∷ entries) = flag (bytes_eq key query) + in_keys query entries

-- How often a number stands in a list, and an address in the cache.
abbrev pub times : ℕ → List ℕ → ℕ
times a [] = 0
times a (b ∷ bs) = flag (a == b) + times a bs

abbrev pub in_entries : ℕ → List (Bytes × ℕ) → ℕ
in_entries a [] = 0
in_entries a ((key, address) ∷ entries) = flag (a == address) + in_entries a entries

pub bytes_eq_refl : (s : Bytes) → bytes_eq s s ≡ true
bytes_eq_refl [] = refl
bytes_eq_refl (c ∷ s) = let same : (c == c) ≡ true = ground arith in rw (same) (bytes_eq_refl s)

pub in_order-append :
    (query key : Bytes) (order : List Bytes)
    → in_order query (order ++ (key ∷ [])) ≡ in_order query order + flag (bytes_eq key query)
in_order-append query key [] = omega arith
in_order-append query key (k ∷ order) = omega (arith, in_order-append query key order)

in_order-remove :
    (query key : Bytes) (order : List Bytes)
    → 0 < in_order key order
    → in_order query (remove key order) + flag (bytes_eq key query) ≡ in_order query order
unfolding remove
in_order-remove query key [] h = absurd (omega (arith, h))
in_order-remove query key (k ∷ order) h =
    either (bytes_eq k key) refl h (in_order-remove query key order)
  where
    either :
        (t : Bool)
        → bytes_eq k key ≡ t
        → 0 < flag t + in_order key order
        → (0 < in_order key order
            → in_order query (remove key order) + flag (bytes_eq key query) ≡ in_order query order)
        → in_order query (if t then order else k ∷ remove key order) + flag (bytes_eq key query)
          ≡ flag (bytes_eq k query) + in_order query order
    either true e h later = rw (bytes_eq_same k key e) (omega arith)
    either false e h later = omega (arith, later (omega (arith, h)))

-- A key that is moved to the end counts as before.
pub in_order-moved :
    (query key : Bytes) (order : List Bytes)
    → 0 < in_order key order
    → in_order query (remove key order ++ (key ∷ [])) ≡ in_order query order
in_order-moved query key order h =
    in_order-append query key (remove key order) ∙ in_order-remove query key order h

pub length-remove :
    (key : Bytes) (order : List Bytes)
    → 0 < in_order key order
    → length (remove key order) + 1 ≡ length order
unfolding remove
length-remove key [] h = absurd (omega (arith, h))
length-remove key (k ∷ order) h = either (bytes_eq k key) h (length-remove key order)
  where
    either :
        (t : Bool)
        → 0 < flag t + in_order key order
        → (0 < in_order key order → length (remove key order) + 1 ≡ length order)
        → length (if t then order else k ∷ remove key order) + 1 ≡ suc (length order)
    either true h later = omega arith
    either false h later = omega (arith, later (omega (arith, h)))

pub in_keys_of_none :
    (query : Bytes) (entries : List (Bytes × ℕ))
    → find query entries ≡ none
    → in_keys query entries ≡ 0
unfolding find
in_keys_of_none query [] h = refl
in_keys_of_none query ((key, address) ∷ entries) h =
    either (bytes_eq key query) h (in_keys_of_none query entries)
  where
    either :
        (t : Bool)
        → (if t then some address else find query entries) ≡ none
        → (find query entries ≡ none → in_keys query entries ≡ 0)
        → flag t + in_keys query entries ≡ 0
    either true h later = ground arith
    either false h later = omega (arith, later h)

pub in_keys_of_some :
    (query : Bytes) (entries : List (Bytes × ℕ)) (a : ℕ)
    → find query entries ≡ some a
    → 0 < in_keys query entries
unfolding find
in_keys_of_some query [] a h = ground arith
in_keys_of_some query ((key, address) ∷ entries) a h =
    either (bytes_eq key query) h (in_keys_of_some query entries a)
  where
    either :
        (t : Bool)
        → (if t then some address else find query entries) ≡ some a
        → (find query entries ≡ some a → 0 < in_keys query entries)
        → 0 < flag t + in_keys query entries
    either true h later = omega arith
    either false h later = omega (arith, later h)

pub in_keys-delete :
    (query key : Bytes) (entries : List (Bytes × ℕ))
    → in_keys query (delete key entries) ≡ (if bytes_eq key query then 0 else in_keys query entries)
unfolding delete
in_keys-delete query key [] = unchanged (bytes_eq key query)
  where
    unchanged : (t : Bool) → ◌≡◌ {A = ℕ} 0 (if t then 0 else 0)
    unchanged true = refl
    unchanged false = refl
in_keys-delete query key ((k, address) ∷ entries) =
    either (bytes_eq k key) refl (bytes_eq key query) refl (in_keys-delete query key entries)
  where
    either :
        (t : Bool)
        → bytes_eq k key ≡ t
        → (u : Bool) → bytes_eq key query ≡ u
        → in_keys query (delete key entries) ≡ (if u then 0 else in_keys query entries)
        → in_keys query (if t then delete key entries else (k, address) ∷ delete key entries)
          ≡ (if u then 0 else flag (bytes_eq k query) + in_keys query entries)
    either true e true f same = same
    either true e false f same = same ∙ (rw (bytes_eq_same k key e, f) (omega arith))
    either false e true f same =
        let differs : bytes_eq k query ≡ false =
          subst (λ q. bytes_eq k q ≡ false) (bytes_eq_same key query f) e in
        rw (differs, same) refl
    either false e false f same = rw (same) refl

pub length-delete :
    (key : Bytes) (entries : List (Bytes × ℕ))
    → length (delete key entries) + in_keys key entries ≡ length entries
unfolding delete
length-delete key [] = refl
length-delete key ((k, address) ∷ entries) = either (bytes_eq k key) (length-delete key entries)
  where
    either :
        (t : Bool)
        → length (delete key entries) + in_keys key entries ≡ length entries
        → length (if t then delete key entries else (k, address) ∷ delete key entries)
            + (flag t + in_keys key entries)
          ≡ suc (length entries)
    either true h = omega (arith, h)
    either false h = omega (arith, h)

delete-absent :
    (a : ℕ) (key : Bytes) (entries : List (Bytes × ℕ))
    → in_keys key entries ≡ 0
    → in_entries a (delete key entries) ≡ in_entries a entries
unfolding delete
delete-absent a key [] h = refl
delete-absent a key ((k, address) ∷ entries) h =
    either (bytes_eq k key) h (delete-absent a key entries)
  where
    either :
        (t : Bool)
        → flag t + in_keys key entries ≡ 0
        → (in_keys key entries ≡ 0 → in_entries a (delete key entries) ≡ in_entries a entries)
        → in_entries a (if t then delete key entries else (k, address) ∷ delete key entries)
          ≡ flag (a == address) + in_entries a entries
    either true h later = absurd (omega (arith, h))
    either false h later = omega (arith, later (omega (arith, h)))

-- Deleting a key takes away the address that the cache has for it.
pub in_entries-delete :
    (a v : ℕ) (key : Bytes) (entries : List (Bytes × ℕ))
    → find key entries ≡ some v
    → in_keys key entries ≤ 1
    → in_entries a (delete key entries) + flag (a == v) ≡ in_entries a entries
unfolding delete find
in_entries-delete a v key [] h k = ground arith
in_entries-delete a v key ((q, address) ∷ entries) h k =
    either (bytes_eq q key) h k (delete-absent a key entries) (in_entries-delete a v key entries)
  where
    either :
        (t : Bool)
        → (if t then some address else find key entries) ≡ some v
        → flag t + in_keys key entries ≤ 1
        → (in_keys key entries ≡ 0 → in_entries a (delete key entries) ≡ in_entries a entries)
        → (find key entries ≡ some v
            → in_keys key entries ≤ 1
            → in_entries a (delete key entries) + flag (a == v) ≡ in_entries a entries)
        → in_entries a (if t then delete key entries else (q, address) ∷ delete key entries)
            + flag (a == v)
          ≡ flag (a == address) + in_entries a entries
    either true h k absent later =
        rw (some-injective _ _ h) (omega (arith, absent (omega (arith, k))))
    either false h k absent later = omega (arith, later h (omega (arith, k)))

-- A statement that is found has an entry.
pub in_entries_of_some :
    (query : Bytes) (entries : List (Bytes × ℕ)) (a : ℕ)
    → find query entries ≡ some a
    → 0 < in_entries a entries
unfolding find
in_entries_of_some query [] a h = ground arith
in_entries_of_some query ((key, address) ∷ entries) a h =
    either (bytes_eq key query) h (in_entries_of_some query entries a)
  where
    either :
        (t : Bool)
        → (if t then some address else find query entries) ≡ some a
        → (find query entries ≡ some a → 0 < in_entries a entries)
        → 0 < flag (a == address) + in_entries a entries
    either true h later =
        let same : (a == address) ≡ true = ground (arith, some-injective _ _ h) in
        omega (arith, ap flag same)
    either false h later = omega (arith, later h)

pub times-middle :
    (a b : ℕ) (before after : List ℕ)
    → times a (before ++ b ∷ after) ≡ flag (a == b) + times a (before ++ after)
times-middle a b [] after = refl
times-middle a b (c ∷ before) after = omega (arith, times-middle a b before after)

pub flag_one : (b : Bool) → flag b ≤ 1
flag_one true = omega arith
flag_one false = omega arith
