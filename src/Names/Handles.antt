-- ===== src/Names/Handles.antt =====
-- Which statement ids and descriptor handles are handed out.
use i.Prelude.{
  ℕ, zero, suc, ◌+◌, ◌^◌, ◌≤◌, ◌<◌, ◌≡◌, refl, sym, ap, ◌∙◌, Bytes, List, [], ◌∷◌, Bool, true,
  false, ◌==◌, ◌||◌, arith, Bool-cases, inl, inr, ◌⊎◌, if◌then◌else◌, ltb, ltb→lt, ltb_false→le,
  ==_iff, subst,
}
use i.Errors.{Result, ok, err, max_statements_exceeded}
use i.Names.{
  Names, max_statements, has_key, delete_key, first_unused, statement_name, take_handle,
  next_statement_name, release_statement_handle, next_descriptor_seq, next_descriptor_handle,
}

at_or_after : (first k : ℕ) → first ≤ k → (k ≡ first) ⊎ (suc first ≤ k)
at_or_after first k p = elim (Bool-cases (ltb first k)) [
  | inl less ↦ inr (ltb→lt first k less)
  | inr more ↦ inl (omega (arith, ltb_false→le first k more))
]

abbrev id_or : ℕ → Result ℕ → ℕ
id_or n (ok id) = id
id_or n (err e) = n

-- What is said of the search from `first` on among `rounds` ids: the least one that is not used, or none is.
abbrev Finds : (rounds first : ℕ) → List ℕ → Result ℕ → Type 0
Finds rounds first used (ok id) =
    (first ≤ id)
    × ((id < first + rounds)
        × ((has_key id used ≡ false) × ((k : ℕ) → first ≤ k → k < id → has_key k used ≡ true)))
Finds rounds first used (err e) =
    (e ≡ max_statements_exceeded)
    × ((k : ℕ) → first ≤ k → k < first + rounds → has_key k used ≡ true)

later-Finds :
    (rounds first : ℕ) (used : List ℕ) (found : Result ℕ)
    → has_key first used ≡ true
    → Finds rounds (suc first) used found
    → Finds (suc rounds) first used found
later-Finds rounds first used (ok id) taken h =
    (omega (arith, h.0), (omega (arith, h.1.0), (h.1.1.0, λ k p q. below k p q)))
  where
    below : (k : ℕ) → first ≤ k → k < id → has_key k used ≡ true
    below k p q = elim (at_or_after first k p) [
      | inl same ↦ ap (λ j. has_key j used) same ∙ taken
      | inr above ↦ h.1.1.1 k above q
    ]
later-Finds rounds first used (err e) taken h = (h.0, λ k p q. below k p q)
  where
    below : (k : ℕ) → first ≤ k → k < first + suc rounds → has_key k used ≡ true
    below k p q = elim (at_or_after first k p) [
      | inl same ↦ ap (λ j. has_key j used) same ∙ taken
      | inr above ↦ h.1 k above (omega arith)
    ]

first_unused-Finds :
    (rounds first : ℕ) (used : List ℕ) → Finds rounds first used (first_unused rounds first used)
first_unused-Finds zero first used = (refl, λ k p q. absurd (omega arith))
first_unused-Finds (suc rounds) first used =
    either (has_key first used) refl (first_unused-Finds rounds (suc first) used)
  where
    either :
        (t : Bool)
        → has_key first used ≡ t
        → Finds rounds (suc first) used (first_unused rounds (suc first) used)
        → Finds
            (suc rounds)
            first
            used
            (if t then first_unused rounds (suc first) used else ok first)
    either true e later = later-Finds rounds first used _ e later
    either false e later = (omega arith, (omega arith, (e, λ k p q. absurd (omega arith))))

-- What is said of an id that is handed out, or of none.
abbrev pub Takes : Names → Result (Bytes × ℕ × Names) → Type 0
Takes c (ok (name, id, c')) =
    (1 ≤ id)
    × ((id < max_statements)
        × ((has_key id c.used_statement_handles ≡ false)
            × ((c'.used_statement_handles ≡ id ∷ c.used_statement_handles)
                × ((name ≡ statement_name id)
                    × ((k : ℕ) → 1 ≤ k → k < id → has_key k c.used_statement_handles ≡ true)))))
Takes c (err e) =
    (e ≡ max_statements_exceeded)
    × ((k : ℕ) → 1 ≤ k → k < max_statements → has_key k c.used_statement_handles ≡ true)

-- nextStatementName hands out the least id from 1 on that is not in use, below the maximum, and marks it, or it fails
-- with the error for too many statements, and then every id is in use.
pub next_statement_name-Takes : (c : Names) → Takes c (next_statement_name c)
unfolding next_statement_name
next_statement_name-Takes c =
    either (first_unused 9998 1 c.used_statement_handles)
      (first_unused-Finds 9998 1 c.used_statement_handles)
  where
    either :
        (found : Result ℕ)
        → Finds 9998 1 c.used_statement_handles found
        → Takes c (take_handle c found)
    either (ok id) h = (h.0, (omega (arith, h.1.0), (h.1.1.0, (refl, (refl, h.1.1.1)))))
    either (err e) h = (h.0, λ k p q. h.1 k p (omega arith))

has_key-delete_key : (id : ℕ) (ks : List ℕ) → has_key id (delete_key id ks) ≡ false
unfolding delete_key
has_key-delete_key id [] = refl
has_key-delete_key id (k ∷ ks) = either (id == k) refl (has_key-delete_key id ks)
  where
    either :
        (t : Bool)
        → (id == k) ≡ t
        → has_key id (delete_key id ks) ≡ false
        → has_key id (if t then delete_key id ks else k ∷ delete_key id ks) ≡ false
    either true e rest = rest
    either false e rest = rw (e, rest) refl

has_key-delete_key_other :
    (j id : ℕ) (ks : List ℕ) → (j == id) ≡ false → has_key j (delete_key id ks) ≡ has_key j ks
unfolding delete_key
has_key-delete_key_other j id [] n = refl
has_key-delete_key_other j id (k ∷ ks) n =
    either (id == k) refl (has_key-delete_key_other j id ks n)
  where
    either :
        (t : Bool)
        → (id == k) ≡ t
        → has_key j (delete_key id ks) ≡ has_key j ks
        → has_key j (if t then delete_key id ks else k ∷ delete_key id ks) ≡ has_key j (k ∷ ks)
    either true e rest =
        let same : id ≡ k = (==_iff id k).0 e in
        rest ∙ ap (λ b. b || has_key j ks) (sym n ∙ ap (λ i. j == i) same)
    either false e rest = ap (λ b. (j == k) || b) rest

handle_released :
    (handle : ℕ) (c : Names)
    → (handle == 0) ≡ false
    → (release_statement_handle handle c).used_statement_handles
      ≡ delete_key handle c.used_statement_handles
unfolding release_statement_handle
handle_released handle c e = rw e refl

nonzero : (id : ℕ) → 1 ≤ id → (id == 0) ≡ false
nonzero id p = ground arith

put_and_deleted :
    (k id : ℕ) (used : List ℕ)
    → has_key id used ≡ false
    → has_key k (delete_key id (id ∷ used)) ≡ has_key k used
put_and_deleted k id used free = elim (Bool-cases (k == id)) [
  | inl e ↦
      let same : k ≡ id = (==_iff k id).0 e in
      ap (λ j. has_key j (delete_key id (id ∷ used))) same
      ∙ has_key-delete_key id (id ∷ used)
      ∙ sym (ap (λ j. has_key j used) same ∙ free)
  | inr n ↦ has_key-delete_key_other k id (id ∷ used) n ∙ ap (λ b. b || has_key k used) n
]

-- Releasing the id that nextStatementName handed out leaves the same ids in use as before.
pub release_statement_handle-next :
    (c : Names) {name : Bytes} {id : ℕ} {c' : Names}
    → next_statement_name c ≡ ok (name, id, c')
    → (k : ℕ)
    → has_key k (release_statement_handle id c').used_statement_handles
      ≡ has_key k c.used_statement_handles
release_statement_handle-next c {name} {id} {c'} e k =
    let taken : Takes c (ok (name, id, c')) = subst (Takes c) e (next_statement_name-Takes c) in
    ap (λ u. has_key k u) (handle_released id c' (nonzero id taken.0))
    ∙ ap (λ u. has_key k (delete_key id u)) taken.1.1.1.0
    ∙ put_and_deleted k id c.used_statement_handles taken.1.1.0

-- A descriptor handle is a word that is never 0, also where the counter wraps.
pub next_descriptor_handle-nonzero :
    (c : Names) → (0 < (next_descriptor_handle c).0) × ((next_descriptor_handle c).0 < 2 ^ 16)
unfolding next_descriptor_handle next_descriptor_seq
next_descriptor_handle-nonzero c = ground arith
