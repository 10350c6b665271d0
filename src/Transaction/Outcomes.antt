-- ===== src/Transaction/Outcomes.antt =====
-- What BeginTx, Commit and Rollback leave behind, on every branch.
use i.Prelude.{
  ◌≡◌, refl, sym, Bytes, ℤ, pos, Bool, true, false, not, Option, none, some, if◌then◌else◌,
}
use i.Errors.{Result, ok, err, Error, bad_conn, tx_done, transaction_active}
use i.Text.{is_empty}
use i.Transaction.{
  IsolationLevel, transaction_isolation_mode, transaction_commitment_control, Session, at, Host, Tx,
  set_current_commitment_control, set_auto_commit_state, switched, same, begin_at, begin_mode,
  begin_checked, isolated, begin_tx, ended, finish_attached, finish, finish_tx, finish_request_of,
  restored, began,
}

module _ {S : Type 0} (host : Host S) where
  -- A switch of autocommit that succeeded, or changed nothing.
  abbrev Switches : Bool → Session S → Result (Unit {0}) × Session S → Type 0
  Switches enabled c (ok done, c') =
      (c'.auto_commit ≡ enabled) × (c'.current_commitment_control ≡ c.current_commitment_control)
  Switches enabled c (err e, c') =
      (c'.auto_commit ≡ c.auto_commit)
      × (c'.current_commitment_control ≡ c.current_commitment_control)

  same→≡ : (a b : Bool) → same host a b ≡ true → a ≡ b
  same→≡ true b e = sym e
  same→≡ false true e = cc
  same→≡ false false e = refl

  switched-Switches :
      (c : Session S) (enabled : Bool) (answer : Result (Unit {0}) × S)
      → Switches enabled c (switched host c enabled answer)
  switched-Switches c enabled (ok done, w) = (refl, refl)
  switched-Switches c enabled (err e, w) = (refl, refl)

  set_auto_commit_state-Switches :
      (enabled : Bool) (c : Session S) → Switches enabled c (set_auto_commit_state host enabled c)
  unfolding set_auto_commit_state
  set_auto_commit_state-Switches enabled c = either (same host c.auto_commit enabled) refl _
    where
      either :
          (t : Bool)
          → same host c.auto_commit enabled ≡ t
          → (answer : Result (Unit {0}) × S)
          → Switches enabled c (if t then (ok tt, c) else switched host c enabled answer)
      either true e answer = (same→≡ c.auto_commit enabled e, refl)
      either false e answer = switched-Switches c enabled answer

  -- A transaction was begun, under a commitment control, or autocommit is as it was.
  abbrev pub Begins : Session S → Result Tx × Session S → Type 0
  Begins c (ok t, c') = (c.auto_commit ≡ true) × ((c'.auto_commit ≡ false) × (t.done ≡ false))
  Begins c (err e, c') = c'.auto_commit ≡ c.auto_commit

  begin_at-Begins :
      (control : ℤ) (c : Session S) → c.auto_commit ≡ true → Begins c (begin_at host control c)
  begin_at-Begins control c h =
      either (set_auto_commit_state host false (set_current_commitment_control host control c))
        (set_auto_commit_state-Switches false (set_current_commitment_control host control c))
    where
      either :
          (run : Result (Unit {0}) × Session S)
          → Switches false (set_current_commitment_control host control c) run
          → Begins c (began host run)
      either (ok done, c') s = (h, (s.0, refl))
      either (err e, c') s = s.0

  isolated-Begins :
      (level : IsolationLevel) (c : Session S) (answer : Result (Unit {0}) × S)
      → c.auto_commit ≡ true
      → Begins c (isolated host level c answer)
  isolated-Begins level c (err e, w) h = refl
  isolated-Begins level c (ok done, w) h =
      begin_at-Begins (pos (transaction_commitment_control level)) (at host c w) h

  begin_mode-Begins :
      (level : IsolationLevel) (c : Session S) (mode : Result Bytes)
      → c.auto_commit ≡ true
      → Begins c (begin_mode host level c mode)
  begin_mode-Begins level c (err e) h = refl
  begin_mode-Begins level c (ok mode) h = either (is_empty mode) _
    where
      either :
          (t : Bool) (answer : Result (Unit {0}) × S)
          → Begins c (
              if t
              then begin_at host host.cfg.commitment_control c
              else isolated host level c answer)
      either true answer = begin_at-Begins _ c h
      either false answer = isolated-Begins level c answer h

  begin_checked-Begins :
      (o : Option Error) (level : IsolationLevel) (c : Session S)
      → Begins c (begin_checked host o level c)
  begin_checked-Begins (some e) level c = refl
  begin_checked-Begins none level c = either (not (host.is_valid c.world)) c.auto_commit refl
    where
      either :
          (t auto_commit : Bool)
          → c.auto_commit ≡ auto_commit
          → Begins c (
              if t
              then (err bad_conn, c)
              else if not auto_commit
              then (err transaction_active, c)
              else begin_mode host level c (transaction_isolation_mode level))
      either true a e = refl
      either false false e = refl
      either false true e = begin_mode-Begins level c _ e

  -- BeginTx on any connection: it begins only where autocommit was on, and then leaves it off with a transaction that is
  -- not done, or it fails and leaves autocommit as it was.
  pub begin_tx-Begins : (level : IsolationLevel) (c : Session S) → Begins c (begin_tx host level c)
  unfolding begin_tx
  begin_tx-Begins level c = begin_checked-Begins (host.ctx_err c.world) level c

  -- A transaction ended with autocommit on and the configured commitment control, or autocommit is as it was.
  abbrev pub Ends : Tx → Session S → Result (Unit {0}) × Session S → Type 0
  Ends t c (ok done, c') =
      (t.done ≡ false)
      × ((c'.auto_commit ≡ true) × (c'.current_commitment_control ≡ host.cfg.commitment_control))
  Ends t c (err e, c') = c'.auto_commit ≡ c.auto_commit

  ended-Ends :
      (t : Tx) (c : Session S) (answer : Result (Unit {0}) × S)
      → t.done ≡ false
      → Ends t c (ended host c answer)
  ended-Ends t c (err e, w) h = refl
  ended-Ends t c (ok done, w) h =
      either (set_auto_commit_state host true (at host c w))
        (set_auto_commit_state-Switches true (at host c w))
    where
      either :
          (run : Result (Unit {0}) × Session S)
          → Switches true (at host c w) run
          → Ends t c (restored host run)
      either (ok done, c') s = (h, (s.0, refl))
      either (err e, c') s = s.0

  finish_attached-Ends :
      (commit : Bool) (t : Tx) (attached : Bool) (c : Session S)
      → t.done ≡ false
      → Ends t c (finish_attached host commit attached c)
  finish_attached-Ends commit t false c h = refl
  finish_attached-Ends commit t true c h = either (not (host.is_valid c.world))
    where
      either :
          (b : Bool)
          → Ends t c (
              if b
              then (err bad_conn, c)
              else ended host c (host.transact (finish_request_of host commit) c.world))
      either true = refl
      either false = ended-Ends t c _ h

  -- Commit and Rollback: they succeed only on a transaction that is not done, and then leave autocommit on with the
  -- configured commitment control, or they fail and leave autocommit as it was.
  pub finish-Ends : (commit : Bool) (t : Tx) (c : Session S) → Ends t c (finish host commit t c)
  unfolding finish
  finish-Ends commit t c = either t.done refl
    where
      either :
          (d : Bool)
          → t.done ≡ d
          → Ends t c (if d then (err tx_done, c) else finish_attached host commit t.attached c)
      either true e = refl
      either false e = finish_attached-Ends commit t t.attached c e

  -- Whatever the first Commit or Rollback answered, a second one answers that the transaction is done and leaves the
  -- connection alone.
  pub finish-twice :
      (commit : Bool) (t : Tx) (c : Session S)
      → finish host commit (finish_tx host t) c ≡ (err tx_done, c)
  unfolding finish finish_tx
  finish-twice commit t c = either t.done refl
    where
      either :
          (d : Bool)
          → t.done ≡ d
          → finish host commit (if d then t else record { done = true; attached = false }) c
            ≡ (err tx_done, c)
      either true e = rw e refl
      either false e = refl

  pub finish-done :
      (commit : Bool) (t : Tx) (c : Session S) → t.done ≡ true → (finish host commit t c).1 ≡ c
  unfolding finish
  finish-done commit t c e = rw e refl
