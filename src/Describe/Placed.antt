-- ===== src/Describe/Placed.antt =====
-- The offsets that a data format sets, and the columns of a whole description.
use i.Prelude.{
  ℕ, zero, suc, ◌+◌, ◌-◌, ◌≡◌, refl, Bytes, List, [], ◌∷◌, Bool, true, false, ◌==◌, ltb,
  if◌then◌else◌, subst,
}
use i.Errors.{Result, ok, err, ◌>>=◌, invalid_variable_field_length}
use i.Reader.{read_bytes, read_u8, read_u16, read_u32, skip}
use i.Wire.Walk.{Turn, next, done, scan-holds}
use i.Describe.{ColumnMeta, DescribedSet, ensure_columns, sum_widths}
use i.Describe.Columns.{parse_extended_column_descriptors}
use i.Describe.Format.{
  read_fixed, place, columns_of, read_variable, read_variables, read_names,
  parse_super_extended_data_format, describe_round, parse_describe_payload, go_on, with_row_size,
  no_set,
}
use i.Describe.Tiled.{
  spot, Tiled, Alike, Tiled-Alike, Yields, then-Yields, after-Yields, spot-with_name,
  parse_extended-Tiled,
}

place-Tiled : (o : ℕ) (cs : List (ColumnMeta × ℕ)) → Tiled o (columns_of (place o cs))
unfolding place
place-Tiled o [] = tt
place-Tiled o ((c, n) ∷ cs) = (refl, place-Tiled (o + c.width) cs)

module _ (decode : Bytes → ℕ → Result Bytes) where
  read_variable-Alike :
      (c : ColumnMeta) (r : Bytes) → Yields (λ p. spot p.1 ≡ spot c) (read_variable decode c r)
  read_variable-Alike c r = after-Yields _ (read_u32 r) _ (λ n.
      after-Yields _ (read_u16 n.1) _ (λ p. after-Yields _ (read_u16 p.1) _ (λ k.
        after-Yields _
          (if ltb n.0 8 then err (invalid_variable_field_length n.0) else read_bytes (n.0 - 8) k.1)
          _ (λ b. after-Yields _ (decode b.0 k.0) _ (λ t. spot-with_name p.0 k.0 t c)))))

  read_variables-Alike :
      (rounds left : ℕ) (c : ColumnMeta) (r : Bytes)
      → Yields (λ p. spot p.0 ≡ spot c) (read_variables decode rounds left c r)
  unfolding read_variables
  read_variables-Alike rounds zero c r = refl
  read_variables-Alike zero (suc left) c r = refl
  read_variables-Alike (suc rounds) (suc left) c r =
      either (ltb (suc left) 8) (λ n c' r'. read_variables-Alike rounds (suc left - n) c' r')
    where
      either :
          (t : Bool)
          → ((n : ℕ) (c' : ColumnMeta) (r' : Bytes)
              → Yields
                  (λ p. spot p.0 ≡ spot c')
                  (read_variables decode rounds (suc left - n) c' r'))
          → Yields
              (λ p. spot p.0 ≡ spot c)
              (if t
                then (skip (suc left) r >>= λ r'. ok (c, r'))
                else (read_variable decode c r >>= λ p.
                    read_variables decode rounds (suc left - p.0) p.1 p.2))
      either true again = after-Yields _ (skip (suc left) r) _ (λ r'. refl)
      either false again =
          then-Yields (λ p. spot p.1 ≡ spot c) _ (read_variable decode c r) _
            (read_variable-Alike c r)
            (λ p same.
              subst
                (λ (s : ℕ × ℕ).
                  Yields {A = ColumnMeta × Bytes} (λ q. spot q.0 ≡ s)
                    (read_variables decode rounds (suc left - p.0) p.1 p.2))
                same (again p.0 p.1 p.2))

  read_names-Alike :
      (cs : List (ColumnMeta × ℕ)) (r : Bytes)
      → Yields (λ p. Alike p.0 (columns_of cs)) (read_names decode cs r)
  unfolding read_names
  read_names-Alike [] r = tt
  read_names-Alike ((c, n) ∷ cs) r =
      then-Yields (λ p. spot p.0 ≡ spot c) _ (read_variables decode n n c r) _
        (read_variables-Alike n n c r)
        (λ p same.
          then-Yields (λ q. Alike q.0 (columns_of cs)) _ (read_names decode cs p.1) _
            (read_names-Alike cs p.1) (λ q rest. (same, rest)))

  parse_super-Tiled :
      (payload : Bytes) (meta : DescribedSet)
      → Yields (λ m. Tiled 0 m.columns) (parse_super_extended_data_format decode payload meta)
  unfolding parse_super_extended_data_format
  parse_super-Tiled payload meta = after-Yields _ (read_u32 payload) _ (λ a.
      after-Yields _ (read_u32 a.1) _ (λ n. after-Yields _ (read_u8 n.1) _ (λ b.
        after-Yields _ (read_u8 b.1) _ (λ c. after-Yields _ (read_u8 c.1) _ (λ d.
          after-Yields _ (read_u8 d.1) _ (λ e. after-Yields _ (read_u32 e.1) _ (λ f.
            after-Yields _ (ensure_columns n.0 meta.columns) _ (λ cs.
              after-Yields _ (read_fixed cs f.1) _ (λ p.
                then-Yields (λ q. Alike q.0 (columns_of (place 0 p.0))) _
                  (read_names decode (place 0 p.0) p.1) _ (read_names-Alike (place 0 p.0) p.1)
                  (λ q same. Tiled-Alike 0 q.0 _ same (place-Tiled 0 p.0)))))))))))

  -- A round over tiled columns goes on with tiled columns or returns an error.
  abbrev OnTurn : Turn DescribedSet (Result DescribedSet) → Type 0
  OnTurn (next m) = Tiled 0 m.columns
  OnTurn (done r) = Yields (λ m. Tiled 0 m.columns) r

  go_on-OnTurn :
      (r : Result DescribedSet) → Yields (λ m. Tiled 0 m.columns) r → OnTurn (go_on decode r)
  go_on-OnTurn (err e) h = tt
  go_on-OnTurn (ok m) h = h

  describe_round-OnTurn :
      (c : ℕ) (p : Bytes) (m : DescribedSet)
      → Tiled 0 m.columns
      → OnTurn (describe_round decode c p m)
  describe_round-OnTurn c p m t = either (c == 0x3811) (c == 0x3812)
    where
      either :
          (a b : Bool)
          → OnTurn (
              if a
              then go_on decode (parse_extended_column_descriptors decode p m)
              else if b
              then go_on decode (parse_super_extended_data_format decode p m)
              else next m)
      either true b = go_on-OnTurn _ (parse_extended-Tiled decode p m t)
      either false true = go_on-OnTurn _ (parse_super-Tiled p m)
      either false false = t

  -- In every description that is answered, whatever the payload, the columns lie in the row without gaps: each
  -- begins where the widths of those before it end.
  pub parse_describe_payload-Tiled :
      (payload : Bytes) {meta : DescribedSet}
      → parse_describe_payload decode payload ≡ ok meta
      → Tiled 0 meta.columns
  unfolding parse_describe_payload
  parse_describe_payload-Tiled payload {meta} answered =
      subst (Yields (λ (m : DescribedSet). Tiled 0 m.columns)) answered (
        scan-holds 1 (λ e. err e) (λ meta. ok (with_row_size decode meta)) (describe_round decode)
          (λ m. Tiled 0 m.columns) (Yields (λ m. Tiled 0 m.columns)) (λ d e h. tt) finished kept
          returned payload (no_set decode) tt)
    where
      finished : (m : DescribedSet) → Tiled 0 m.columns → Tiled 0 (with_row_size decode m).columns
      finished m t = either (m.row_size == 0)
        where
          either :
              (b : Bool)
              → Tiled 0 (if b then record m { row_size = sum_widths m.columns } else m).columns
          either true = t
          either false = t

      kept :
          (c : ℕ) (p : Bytes) (s s' : DescribedSet)
          → Tiled 0 s.columns
          → describe_round decode c p s ≡ next s'
          → Tiled 0 s'.columns
      kept c p s s' t e = subst OnTurn e (describe_round-OnTurn c p s t)

      returned :
          (c : ℕ) (p : Bytes) (s : DescribedSet) (r : Result DescribedSet)
          → Tiled 0 s.columns
          → describe_round decode c p s ≡ done r
          → Yields (λ (m : DescribedSet). Tiled 0 m.columns) r
      returned c p s r t e = subst OnTurn e (describe_round-OnTurn c p s t)
