-- ===== src/Transaction/Single.antt =====
-- The transactions of one connection over any sequence of BeginTx, Commit, Rollback and ResetSession.
use i.Prelude.{ℕ, suc, ◌≤◌, ◌≡◌, Bool, true, false}
use i.Errors.{Result, ok, err, Error}
use i.Transaction.{IsolationLevel, Session, Host, Tx, begin_tx, finish}
use i.Transaction.Reset.{Attributes, reset_session}

-- A connection and the number of its transactions that are not done.
pub record Use (S : Type 0) : Type 0 where
  pub session : Session S
  pub unfinished : ℕ

abbrev pub used : {S : Type 0} → Session S → ℕ → Use S
used c n = record { session = c; unfinished = n }

module _ {S : Type 0} (host : Host S) (attributes : Attributes S) where
  -- A step of the connection. database/sql resets a connection when it takes it from the pool, where no
  -- connection with an unfinished transaction is, so that a reset is a step only there.
  pub data Move : Use S → Use S → Type 0 where
    opens :
        (level : IsolationLevel) {c c' : Session S} {t : Tx} {n : ℕ}
        → begin_tx host level c ≡ (ok t, c')
        → Move (used c n) (used c' (suc n))
    refuses :
        (level : IsolationLevel) {c c' : Session S} {e : Error} {n : ℕ}
        → begin_tx host level c ≡ (err e, c')
        → Move (used c n) (used c' n)
    finishes :
        (commit : Bool) (t : Tx) {c : Session S} {n : ℕ}
        → t.done ≡ false
        → Move (used c (suc n)) (used (finish host commit t c).1 n)
    repeats :
        (commit : Bool) (t : Tx) {c : Session S} {n : ℕ}
        → t.done ≡ true
        → Move (used c n) (used (finish host commit t c).1 n)
    resets :
        {c c' : Session S} {answer : Result (Unit {0})}
        → reset_session host attributes c ≡ (answer, c')
        → Move (used c 0) (used c' 0)

  pub data Moves : Use S → Use S → Type 0 where
    stays : {a : Use S} → Moves a a
    goes : {a b c : Use S} → Move a b → Moves b c → Moves a c

  -- At most one transaction is open, and none while autocommit is on.
  abbrev pub IsSingle : Use S → Type 0
  IsSingle u = (u.unfinished ≤ 1) × (u.session.auto_commit ≡ true → u.unfinished ≡ 0)
