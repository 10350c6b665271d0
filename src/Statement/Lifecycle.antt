-- ===== src/Statement/Lifecycle.antt =====
-- The interleavings of the calls of one statement, at the points where they hold its mutex.
use i.Prelude.{
  ℕ, List, zero, suc, ◌+◌, ◌≤◌, ◌<◌, ◌≡◌, refl, subst, sym, ap, ◌∙◌, none, Bool, true, false,
  Option, some, arith, inl, inr, if◌then◌else◌, ltb_false→le, le→ltb_false,
}
use i.Errors.{Result, ok, err}
use i.Statement.Balance.{acquire_cases, held, Settled, query_acquired-Settled}
use i.Arguments.{NamedValue, reorder_named_args}
use i.Statement.{
  Connection, Run, Opened, exec, query, query_acquired, Stmt, with_lock, acquire, release,
  start_close, close_waits,
}

abbrev active_of : {Format : Type 0} → Result (Stmt Format) → ℕ
active_of (ok s) = s.active
active_of (err e) = 0

acquire-active :
    {Format : Type 0} (s : Stmt Format) {s' : Stmt Format}
    → acquire s ≡ ok s'
    → s'.active ≡ s.active + 1
acquire-active s e = elim (acquire_cases s) [
  | inl (_, fails) ↦ cc
  | inr (_, acquires) ↦ sym (ap active_of e) ∙ ap active_of acquires
]

abbrev active_or : {Format : Type 0} → ℕ → Option (Stmt Format) → ℕ
active_or n (some s) = s.active
active_or n none = n

abbrev is_closed : {Format : Type 0} → Option (Stmt Format) → Bool
is_closed (some s) = s.closed
is_closed none = true

start_close_lem :
    {Format : Type 0} (s : Stmt Format)
    → (active_or s.active (start_close s) ≡ s.active) × (is_closed (start_close s) ≡ true)
unfolding start_close
start_close_lem {Format} s = either s.closed
  where
    either :
        (t : Bool)
        → (active_or s.active (if t then none else some (with_lock true s.active s)) ≡ s.active)
          × (is_closed (if t then none else some (with_lock true s.active s)) ≡ true)
    either true = (refl, refl)
    either false = (refl, refl)

zero_more : (o : ℕ) → o ≡ 0 + o
zero_more o = omega arith

suc_one : (o : ℕ) → suc o ≡ 1 + o
suc_one o = omega arith

module _ (Format : Type 0) where
  -- A statement, with the calls between acquire and release, the rows that hold it, the calls that
  -- returned without a release, and the calls of Close that wait.
  pub record Life : Type 0 where
    pub stmt : Stmt Format
    pub running : ℕ
    pub open_rows : ℕ
    pub lost : ℕ
    pub closing : ℕ

  abbrev pub life : Stmt Format → ℕ → ℕ → ℕ → ℕ → Life
  life s r o l c = record { stmt = s; running = r; open_rows = o; lost = l; closing = c }

  pub data Step : Life → Life → Type 0 where
    begins :
        {s s' : Stmt Format} {r o l c : ℕ}
        → acquire s ≡ ok s'
        → Step (life s r o l c) (life s' (suc r) o l c)
    ends : {s : Stmt Format} {r o l c : ℕ} → Step (life s (suc r) o l c) (life (release s) r o l c)
    hands_over :
        {s : Stmt Format} {r o l c : ℕ} → Step (life s (suc r) o l c) (life s r (suc o) l c)
    forgets : {s : Stmt Format} {r o l c : ℕ} → Step (life s (suc r) o l c) (life s r o (suc l) c)
    closes_rows :
        {s : Stmt Format} {r o l c : ℕ} → Step (life s r (suc o) l c) (life (release s) r o l c)
    starts_close :
        {s s' : Stmt Format} {r o l c : ℕ}
        → start_close s ≡ some s'
        → Step (life s r o l c) (life s' r o l (suc c))
    ends_close :
        {s : Stmt Format} {r o l c : ℕ}
        → close_waits s ≡ false
        → Step (life s r o l (suc c)) (life s r o l c)

  pub data Steps : Life → Life → Type 0 where
    stays : {a : Life} → Steps a a
    goes : {a b c : Life} → Step a b → Steps b c → Steps a c

  -- The count is that of the calls and rows that are still to release.
  abbrev pub IsCounted : Life → Type 0
  IsCounted a = a.stmt.active ≡ a.running + a.open_rows + a.lost

  Step-IsCounted : {a b : Life} → Step a b → IsCounted a → IsCounted b
  unfolding acquire release start_close
  Step-IsCounted (begins {s} {s'} e) h = omega (arith, h, acquire-active s e)
  Step-IsCounted ends h = omega (arith, h)
  Step-IsCounted hands_over h = omega (arith, h)
  Step-IsCounted forgets h = omega (arith, h)
  Step-IsCounted closes_rows h = omega (arith, h)
  Step-IsCounted (starts_close {s} {s'} e) h =
      sym (ap (active_or s.active) e) ∙ (start_close_lem s).0 ∙ h
  Step-IsCounted (ends_close e) h = h

  -- The count is right after any interleaving of calls.
  pub Steps-IsCounted : {a b : Life} → Steps a b → IsCounted a → IsCounted b
  Steps-IsCounted stays h = h
  Steps-IsCounted (goes step steps) h = Steps-IsCounted steps (Step-IsCounted step h)

  quiet :
      (s : Stmt Format) (r o l c : ℕ)
      → IsCounted (life s r o l c)
      → close_waits s ≡ false
      → (r ≡ 0) × ((o ≡ 0) × (l ≡ 0))
  unfolding close_waits
  quiet s r o l c h e =
      let none_active = ltb_false→le 0 s.active e in
      (omega (arith, h), (omega (arith, h), omega (arith, h)))

  -- Where the count is right and a step ends a waiting Close, no call is running, no rows hold the statement and no call was lost.
  pub close-quiet :
      {a b : Life}
      → Step a b
      → IsCounted a
      → b.closing < a.closing
      → (a.running ≡ 0) × ((a.open_rows ≡ 0) × (a.lost ≡ 0))
  close-quiet (ends_close {s} {r} {o} {l} {c} e) h p = quiet s r o l c h e
  close-quiet (begins e) h p = absurd (omega arith)
  close-quiet ends h p = absurd (omega arith)
  close-quiet hands_over h p = absurd (omega arith)
  close-quiet forgets h p = absurd (omega arith)
  close-quiet closes_rows h p = absurd (omega arith)
  close-quiet (starts_close e) h p = absurd (omega arith)

  followed_by : {a b d : Life} → Steps a b → Steps b d → Steps a d
  followed_by stays t = t
  followed_by (goes step steps) t = goes step (followed_by steps t)

  drain_rows :
      (s : Stmt Format) (o c : ℕ)
      → IsCounted (life s 0 o 0 c)
      → (s' : Stmt Format) × (IsCounted (life s' 0 0 0 c))
        × (Steps (life s 0 o 0 c) (life s' 0 0 0 c))
  drain_rows s zero c h = (s, h, stays)
  drain_rows s (suc o) c h =
      let rest =
        drain_rows (release s) o c
          (Step-IsCounted (closes_rows {s = s} {r = 0} {o = o} {l = 0} {c = c}) h) in
      (rest.0, rest.1, goes closes_rows rest.2)

  drain :
      (s : Stmt Format) (r o c : ℕ)
      → IsCounted (life s r o 0 c)
      → (s' : Stmt Format) × (IsCounted (life s' 0 0 0 c))
        × (Steps (life s r o 0 c) (life s' 0 0 0 c))
  drain s zero o c h = drain_rows s o c h
  drain s (suc r) o c h =
      let rest =
        drain (release s) r o c (Step-IsCounted (ends {s = s} {r = r} {o = o} {l = 0} {c = c}) h) in
      (rest.0, rest.1, goes ends rest.2)

  -- Where the count is right and no call was lost, a Close that waits can end: some steps of the calls that run and
  -- the rows that are open lead to its end.
  pub close-can-end :
      (s : Stmt Format) (r o c : ℕ)
      → IsCounted (life s r o 0 (suc c))
      → (s' : Stmt Format) × (Steps (life s r o 0 (suc c)) (life s' 0 0 0 c))
  unfolding close_waits
  close-can-end s r o c h =
      let drained = drain s r o (suc c) h in
      (
        drained.0,
        followed_by drained.2 (
            goes (ends_close (le→ltb_false 0 (drained.0).active (omega (arith, drained.1)))) stays),
      )

  Step-lost : {a b : Life} → Step a b → a.lost ≤ b.lost
  Step-lost (begins e) = omega arith
  Step-lost ends = omega arith
  Step-lost hands_over = omega arith
  Step-lost forgets = omega arith
  Step-lost closes_rows = omega arith
  Step-lost (starts_close e) = omega arith
  Step-lost (ends_close e) = omega arith

  Step-closing : {a b : Life} → IsCounted a → 0 < a.lost → Step a b → a.closing ≤ b.closing
  Step-closing h p (begins e) = omega arith
  Step-closing h p ends = omega arith
  Step-closing h p hands_over = omega arith
  Step-closing h p forgets = omega arith
  Step-closing h p closes_rows = omega arith
  Step-closing h p (starts_close e) = omega arith
  Step-closing h p (ends_close {s} {r} {o} {l} {c} e) =
      let found = quiet s r o l c h e in omega arith

  -- Where the count is right and a call has returned without a release, no interleaving of calls ends a Close that
  -- waits.
  pub close-stuck : {a b : Life} → IsCounted a → 0 < a.lost → Steps a b → a.closing ≤ b.closing
  close-stuck h p stays = omega arith
  close-stuck h p (goes step steps) =
      let later = close-stuck (Step-IsCounted step h) (omega (arith, Step-lost step)) steps in
      omega (arith, Step-closing h p step)

  module _ {S Value Rows Outcome : Type 0} (conn : Connection S Format Value Rows Outcome) where
    -- A call of ExecContext is steps that begin and end one call, or none on a closed statement.
    pub exec-Steps :
        (s : Stmt Format) (args : List (NamedValue Value)) (w : S) (r o l c : ℕ)
        → Steps (life s r o l c) (life (exec conn s args w).stmt r o l c)
    unfolding exec
    exec-Steps s args w r o l c = elim (acquire_cases s) [
      | inl (_, fails) ↦ rw fails stays
      | inr (_, acquires) ↦ rw acquires (goes (begins acquires) (goes ends stays))
    ]

    settles :
        (s s' : Stmt Format) (r o l c : ℕ) (run : Run Format S (Opened Rows))
        → acquire s ≡ ok s'
        → Settled s' run
        → Steps (life s r o l c) (life run.stmt r (held run.answer + o) l c)
    settles s s' r o l c run e (inl (stmt, answer)) =
        rw (stmt, answer)
          (goes (begins e) (
            goes
              (subst (λ k. Step (life s' (suc r) o l c) (life (release s') r k l c)) (zero_more o)
                ends)
              stays))
    settles s s' r o l c run e (inr (stmt, answer)) =
        rw (stmt, answer)
          (goes (begins e) (
            goes
              (subst (λ k. Step (life s' (suc r) o l c) (life s' r k l c)) (suc_one o) hands_over)
              stays))

    -- A call of QueryContext whose arguments can be ordered is steps that begin a call and end it, or hand it over
    -- to the rows that the answer holds.
    pub query-Steps :
        (s : Stmt Format) (args ordered : List (NamedValue Value)) (w : S) (r o l c : ℕ)
        → reorder_named_args s.param_names args ≡ ok ordered
        → Steps
            (life s r o l c)
            (life (query conn s args w).stmt r (held (query conn s args w).answer + o) l c)
    unfolding query
    query-Steps s args ordered w r o l c e = elim (acquire_cases s) [
      | inl (_, fails) ↦
          rw fails (subst (λ k. Steps (life s r o l c) (life s r k l c)) (zero_more o) stays)
      | inr (_, acquires) ↦ rw acquires (
          settles s (with_lock s.closed (s.active + 1) s) r o l c
            (query_acquired conn (with_lock s.closed (s.active + 1) s) args w) acquires
            (query_acquired-Settled conn (with_lock s.closed (s.active + 1) s) args ordered w e))
    ]
