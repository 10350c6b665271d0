-- ===== src/Execution/Cursors.antt =====
-- The name of a query's cursor: what becomes of it where the query fails.
use i.Prelude.{
  ℕ, ◌≡◌, refl, ap, ◌∙◌, Bytes, List, [], ◌∷◌, Bool, true, false, none, arith, eq→==, Bool-cases,
  inl, inr, Option,
}
use i.Errors.{Error, ok, err, Ran, no_result_set}
use i.Names.{
  Names, has_key, delete_key, open_cursor_name, release_open_cursor_name, release_default_cursor,
}
use i.Request.Statements.{cursor_name_for_statement}
use i.Sqlca.{SqlcaInfo}
use i.Replies.{Conn}
use i.Rows.{ResultSetMeta}
use i.Parameters.{ParameterMarkerFormat, ParameterBinding}
use i.Execution.{Session, Calls}
use i.Execution.Queries.{
  open_and_describe, rows_opened, is_no_result_set, query_rows_for_statement,
  query_rows_for_statement_with_bindings,
}

-- Taking a key that is not in a map away again leaves the map.
delete_key_absent : (k : ℕ) (ks : List ℕ) → has_key k ks ≡ false → delete_key k ks ≡ ks
unfolding delete_key
delete_key_absent k [] h = refl
delete_key_absent k (j ∷ ks) h = ground (arith, delete_key_absent k ks)

delete_key_first : (k : ℕ) (ks : List ℕ) → has_key k ks ≡ false → delete_key k (k ∷ ks) ≡ ks
unfolding delete_key
delete_key_first k ks h = rw (eq→== k k refl) (delete_key_absent k ks h)

-- The default cursors in use after a name was taken and released.
module _ (handle : ℕ) (c : Names) where
  pub release_open_cursor_name-open_cursor_name :
      (release_open_cursor_name handle
        (open_cursor_name handle c).0.1
        (open_cursor_name handle c).1).default_cursor_busy
      ≡ c.default_cursor_busy
  unfolding open_cursor_name release_open_cursor_name release_default_cursor
  release_open_cursor_name-open_cursor_name =
      elim (Bool-cases (has_key handle c.default_cursor_busy)) [
        | inl busy ↦ rw busy refl
        | inr free ↦ rw free (delete_key_first handle c.default_cursor_busy free)
      ]

module _ {N Arg Column Format : Type 0} (calls : Calls N Arg Column Format) where
  -- A query that fails, with the names that it leaves.
  failed_names :
      (unanswered : ℕ → Bool → Names → Names)
      → (handle : ℕ) (name cursor : Bytes) (default : Bool) (names : Names)
      → (run : Ran (Conn N) (ResultSetMeta Column Format × SqlcaInfo)) → (e : Error)
      → (rows_opened calls unanswered handle name cursor default names run).0 ≡ err e
      → unanswered handle default names ≡ release_open_cursor_name handle default names
      → (rows_opened calls unanswered handle name cursor default names run).1.names
        ≡ release_open_cursor_name handle default names
  failed_names unanswered handle name cursor default names (err why, c) e h same = refl
  failed_names unanswered handle name cursor default names (ok (meta, info), c) e h same =
      elim (Bool-cases (is_no_result_set meta info)) [
        | inl none_found ↦ rw none_found same
        | inr found ↦ cc (rw found at h)
      ]

  -- A query without bound values that fails, in whatever step, leaves the same default cursors in use as
  -- before.
  pub query_rows_for_statement-releases :
      (handle : ℕ) (name : Bytes) (s : Session N) (e : Error)
      → (query_rows_for_statement calls handle name s).0 ≡ err e
      → (query_rows_for_statement calls handle name s).1.names.default_cursor_busy
        ≡ s.names.default_cursor_busy
  unfolding query_rows_for_statement
  query_rows_for_statement-releases handle name s e h =
      ap (λ (names : Names). names.default_cursor_busy)
        (failed_names release_open_cursor_name handle name (open_cursor_name handle s.names).0.0
          (open_cursor_name handle s.names).0.1 (open_cursor_name handle s.names).1
          (open_and_describe calls handle name (open_cursor_name handle s.names).0.0 0 none []
            s.conn)
          e h refl)
      ∙ release_open_cursor_name-open_cursor_name handle s.names

  -- A query with bound values that opens no result set answers an error, but its default cursor stays
  -- in use: the next query of the statement gets another name. The statement's default cursor was free.
  pub query_rows_for_statement_with_bindings-strands :
      (handle : ℕ) (name : Bytes) (descriptor : ℕ) (format : Option ParameterMarkerFormat)
      (bindings : List ParameterBinding) (s : Session N) {meta : ResultSetMeta Column Format}
      {info : SqlcaInfo} {c : Conn N}
      → has_key handle s.names.default_cursor_busy ≡ false
      → open_and_describe calls handle name
          (cursor_name_for_statement handle)
          descriptor
          format
          bindings
          s.conn
        ≡ (ok (meta, info), c)
      → is_no_result_set meta info ≡ true
      → let run =
          query_rows_for_statement_with_bindings calls handle name descriptor format bindings s in
        (run.0 ≡ err no_result_set)
        × (run.1.names.default_cursor_busy ≡ handle ∷ s.names.default_cursor_busy)
        × ((open_cursor_name handle run.1.names).0.1 ≡ false)
  unfolding query_rows_for_statement_with_bindings open_cursor_name
  query_rows_for_statement_with_bindings-strands handle name descriptor format bindings s free opens
        nothing =
      (
        rw (free, opens, nothing) refl,
        rw (free, opens, nothing) refl,
        rw (free, opens, nothing, eq→== handle handle refl) refl,
      )
