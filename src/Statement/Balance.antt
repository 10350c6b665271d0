-- ===== src/Statement/Balance.antt =====
-- What every call of a statement leaves of its count of active calls.
use i.Prelude.{
  ℕ, ◌+◌, ◌≡◌, refl, ap, List, Bool, true, false, not, ◌&&◌, Option, none, some, arith, inl, inr,
  ◌⊎◌, if◌then◌else◌,
}
use i.Errors.{Result, ok, err, bad_conn, connection_closed, prepared_statement_binding_unsupported}
use i.Arguments.{NamedValue, reorder_named_args, has_no_elements}
use i.Text.{is_empty}
use i.Statement.{
  Stmt, Connection, Opened, Run, with_lock, acquire, release, exec, query, query_acquired, opened,
  query_ordered, query_bound, query_unbound, mark, ran,
}

-- The calls that the answer of QueryContext leaves active: one where it hands out rows that hold it.
abbrev pub held : {Rows : Type 0} → Result (Opened Rows) → ℕ
held (err e) = 0
held (ok o) = if o.holds then 1 else 0

-- acquire fails exactly on a closed statement, and counts one call more on an open one.
pub acquire_cases :
    {Format : Type 0} (s : Stmt Format)
    → ((s.closed ≡ true) × (acquire s ≡ err connection_closed))
      ⊎ ((s.closed ≡ false) × (acquire s ≡ ok (with_lock s.closed (s.active + 1) s)))
unfolding acquire
acquire_cases {Format} s = either s.closed refl
  where
    either :
        (t : Bool)
        → s.closed ≡ t
        → ((t ≡ true)
            × ((if t then err connection_closed else ok (with_lock s.closed (s.active + 1) s))
                ≡ err connection_closed))
          ⊎ ((t ≡ false)
              × ((if t then err connection_closed else ok (with_lock s.closed (s.active + 1) s))
                  ≡ ok (with_lock s.closed (s.active + 1) s)))
    either true e = inl (refl, refl)
    either false e = inr (refl, refl)

-- A run that released the statement, or whose answer holds it.
abbrev pub Settled : {Format S Rows : Type 0} → Stmt Format → Run Format S (Opened Rows) → Type 0
Settled s run =
    ((run.stmt ≡ release s) × (held run.answer ≡ 0)) ⊎ ((run.stmt ≡ s) × (held run.answer ≡ 1))

module _ {S Format Value Rows Outcome : Type 0}
    (conn : Connection S Format Value Rows Outcome) where
  -- ExecContext leaves the count and the flag as it found them, on every branch.
  pub exec-active :
      (s : Stmt Format) (args : List (NamedValue Value)) (w : S)
      → ((exec conn s args w).stmt.active ≡ s.active)
        × ((exec conn s args w).stmt.closed ≡ s.closed)
  unfolding exec release
  exec-active s args w = elim (acquire_cases s) [
    | inl (_, fails) ↦ rw fails (refl, refl)
    | inr (_, acquires) ↦ rw acquires (omega arith, refl)
  ]

  opened-Settled : (s : Stmt Format) (answer : Result Rows × S) → Settled s (opened conn s answer)
  opened-Settled s (err e, w) = inl (refl, refl)
  opened-Settled s (ok rows, w) = either (conn.is_query_rows (mark conn s.statement_type rows))
    where
      either :
          (t : Bool)
          → Settled s (
              if t
              then ran (ok record { rows = mark conn s.statement_type rows; holds = true }) s w
              else ran
                  (ok record { rows = mark conn s.statement_type rows; holds = false })
                  (release s)
                  w)
      either true = inr (refl, refl)
      either false = inl (refl, refl)

  query_bound-Settled :
      (s : Stmt Format) (args ordered : List (NamedValue Value)) (w : S) (format : Option Format)
      → reorder_named_args s.param_names args ≡ ok ordered
      → Settled s (query_bound conn s args w format)
  query_bound-Settled s args ordered w none e = inl (refl, refl)
  query_bound-Settled s args ordered w (some format) e =
      rw e (either (not (is_empty s.statement_name) && not (has_no_elements args)))
    where
      either :
          (t : Bool)
          → Settled s (
              if t
              then query_ordered conn s format (ok ordered) w
              else ran (err prepared_statement_binding_unsupported) (release s) w)
      either true = opened-Settled s _
      either false = inl (refl, refl)

  pub query_acquired-Settled :
      (s : Stmt Format) (args ordered : List (NamedValue Value)) (w : S)
      → reorder_named_args s.param_names args ≡ ok ordered
      → Settled s (query_acquired conn s args w)
  unfolding query_acquired
  query_acquired-Settled s args ordered w e =
      either (not (conn.is_valid w)) (not (is_empty s.statement_name) && has_no_elements args)
    where
      either :
          (t u : Bool)
          → Settled s (
              if t
              then ran (err bad_conn) (release s) w
              else if u
              then opened conn s (query_unbound conn s w)
              else query_bound conn s args w s.parameter_marker_format)
      either true u = inl (refl, refl)
      either false true = opened-Settled s (query_unbound conn s w)
      either false false = query_bound-Settled s args ordered w s.parameter_marker_format e

  settled :
      (s : Stmt Format) (run : Run Format S (Opened Rows))
      → Settled (with_lock s.closed (s.active + 1) s) run
      → run.stmt.active ≡ s.active + held run.answer
  unfolding release
  settled s run (inl (stmt, answer)) = omega (arith, ap (λ t. t.active) stmt, answer)
  settled s run (inr (stmt, answer)) = omega (arith, ap (λ t. t.active) stmt, answer)

  -- QueryContext whose arguments can be ordered leaves one call more active where it hands out rows that hold
  -- the statement, and the count as it was on every other branch, errors included.
  pub query-active :
      (s : Stmt Format) (args ordered : List (NamedValue Value)) (w : S)
      → reorder_named_args s.param_names args ≡ ok ordered
      → (query conn s args w).stmt.active ≡ s.active + held (query conn s args w).answer
  unfolding query
  query-active s args ordered w e = elim (acquire_cases s) [
    | inl (_, fails) ↦ rw fails (omega arith)
    | inr (_, acquires) ↦ rw acquires (
        settled s (query_acquired conn (with_lock s.closed (s.active + 1) s) args w)
          (query_acquired-Settled (with_lock s.closed (s.active + 1) s) args ordered w e))
  ]
