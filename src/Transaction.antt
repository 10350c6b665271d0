-- ===== src/Transaction.antt =====
-- tx.go, and the commitment control of dbconn.go and driver.go: what BeginTx, Commit and Rollback do to
-- the connection's autocommit state. A request and the check of its reply are one call of the
-- connection's interface.
pub mod Levels
pub mod Outcomes
pub mod Reset
pub mod Single
use i.Prelude.{
  ℕ, ◌≡◌, Bytes, [], ◌++◌, ℤ, pos, negsuc, Bool, true, false, not, ◌&&◌, Option, none, some, leb,
  if◌then◌else◌,
}
use i.Errors.{
  Result, ok, err, Error, bad_conn, tx_done, transaction_active, unsupported_isolation_level,
}
use i.Text.{codes, is_empty}
use i.Request.Build.{build_commit_request, build_rollback_request, build_auto_commit_request_level}

-- `sql.IsolationLevel`; `other` is a number that the package does not name.
pub data IsolationLevel : Type 0 where
  default_level read_uncommitted read_committed write_committed repeatable_read snapshot
        serializable linearizable :
      IsolationLevel
  other : ℤ → IsolationLevel

unfoldable pub transaction_isolation_mode : IsolationLevel → Result Bytes
transaction_isolation_mode default_level = ok []
transaction_isolation_mode read_uncommitted = ok (codes "CHG")
transaction_isolation_mode read_committed = ok (codes "CS")
transaction_isolation_mode repeatable_read = ok (codes "ALL")
transaction_isolation_mode serializable = ok (codes "RR")
transaction_isolation_mode _ = err unsupported_isolation_level

abbrev pub default_commitment_control : ℕ
default_commitment_control = 1

unfoldable pub transaction_commitment_control : IsolationLevel → ℕ
transaction_commitment_control read_uncommitted = 2
transaction_commitment_control read_committed = 1
transaction_commitment_control repeatable_read = 3
transaction_commitment_control serializable = 4
transaction_commitment_control _ = default_commitment_control

-- `if v < 0 || v > 4 { return defaultCommitmentControl }`.
abbrev pub in_levels : ℤ → ℕ
in_levels (pos n) = if leb n 4 then n else default_commitment_control
in_levels (negsuc n) = default_commitment_control

unfoldable pub commitment_control_for_auto_commit : Bool → ℤ → ℕ
commitment_control_for_auto_commit enabled control = if enabled then 0 else in_levels control

unfoldable pub request_commitment_control : Bool → ℤ → ℕ
request_commitment_control auto_commit control = if auto_commit then 0 else in_levels control

pub record Config : Type 0 where
  pub commitment_control : ℤ
  pub true_autocommit : Bool

unfoldable pub server_commitment_control : Config → Bool → ℤ → ℕ
server_commitment_control cfg auto_commit control =
    if auto_commit && not cfg.true_autocommit then 0 else request_commitment_control false control

-- `autoCommit`, `currentCommitmentControl`, and what else the connection is, `world`.
pub record Session (S : Type 0) : Type 0 where
  pub auto_commit : Bool
  pub current_commitment_control : ℤ
  pub world : S

-- doRequest and checkReply of a request, execContext of a statement, IsValid and the context's error.
pub record Host (S : Type 0) : Type 0 where
  pub cfg : Config
  pub is_valid : S → Bool
  pub ctx_err : S → Option Error
  pub transact : Bytes → S → Result (Unit {0}) × S
  pub exec_context : Bytes → S → Result (Unit {0}) × S

-- `done`, and whether `conn` is set.
pub record Tx : Type 0 where
  pub done : Bool
  pub attached : Bool

module _ {S : Type 0} (host : Host S) where
  abbrev pub at : Session S → S → Session S
  at c w = record {
    auto_commit = c.auto_commit;
    current_commitment_control = c.current_commitment_control;
    world = w;
  }

  abbrev pub current_commitment_mode : Session S → ℕ
  current_commitment_mode c = in_levels c.current_commitment_control

  abbrev pub set_current_commitment_control : ℤ → Session S → Session S
  set_current_commitment_control mode c = record {
    auto_commit = c.auto_commit;
    current_commitment_control = mode;
    world = c.world;
  }

  abbrev pub set_auto_commit : Bool → Session S → Session S
  set_auto_commit enabled c = record {
    auto_commit = enabled;
    current_commitment_control = c.current_commitment_control;
    world = c.world;
  }

  abbrev pub same : Bool → Bool → Bool
  same true b = b
  same false b = not b

  abbrev pub switched : Session S → Bool → Result (Unit {0}) × S → Result (Unit {0}) × Session S
  switched c enabled (err e, w) = (err e, at c w)
  switched c enabled (ok done, w) = (ok tt, set_auto_commit enabled (at c w))

  unfoldable pub set_auto_commit_state : Bool → Session S → Result (Unit {0}) × Session S
  set_auto_commit_state enabled c =
      if same c.auto_commit enabled
      then (ok tt, c)
      else let level =
          server_commitment_control host.cfg enabled
            (pos (commitment_control_for_auto_commit false (pos (current_commitment_mode c)))) in
        switched c enabled (host.transact (build_auto_commit_request_level enabled level) c.world)

  abbrev began : Result (Unit {0}) × Session S → Result Tx × Session S
  began (err e, c) = (err e, c)
  began (ok done, c) = (ok record { done = false; attached = true }, c)

  -- BeginTx from the resolved commitment control on.
  abbrev pub begin_at : ℤ → Session S → Result Tx × Session S
  begin_at control c =
      began (set_auto_commit_state false (set_current_commitment_control control c))

  abbrev pub isolated : IsolationLevel → Session S → Result (Unit {0}) × S → Result Tx × Session S
  isolated level c (err e, w) = (err e, at c w)
  isolated level c (ok done, w) = begin_at (pos (transaction_commitment_control level)) (at c w)

  abbrev pub begin_mode : IsolationLevel → Session S → Result Bytes → Result Tx × Session S
  begin_mode level c (err e) = (err e, c)
  begin_mode level c (ok mode) =
      if is_empty mode
      then begin_at host.cfg.commitment_control c
      else isolated level c
          (host.exec_context (codes "SET TRANSACTION ISOLATION LEVEL " ++ mode) c.world)

  abbrev pub begin_checked : Option Error → IsolationLevel → Session S → Result Tx × Session S
  begin_checked (some e) level c = (err e, c)
  begin_checked none level c =
      if not (host.is_valid c.world)
      then (err bad_conn, c)
      else if not c.auto_commit
      then (err transaction_active, c)
      else begin_mode level c (transaction_isolation_mode level)

  unfoldable pub begin_tx : IsolationLevel → Session S → Result Tx × Session S
  begin_tx level c = begin_checked (host.ctx_err c.world) level c

  abbrev pub restored : Result (Unit {0}) × Session S → Result (Unit {0}) × Session S
  restored (err e, c) = (err e, c)
  restored (ok done, c) = (ok tt, set_current_commitment_control host.cfg.commitment_control c)

  -- What follows the commit or rollback.
  abbrev pub ended : Session S → Result (Unit {0}) × S → Result (Unit {0}) × Session S
  ended c (err e, w) = (err e, at c w)
  ended c (ok done, w) = restored (set_auto_commit_state true (at c w))

  abbrev pub finish_request_of : Bool → Bytes
  finish_request_of commit = if commit then build_commit_request else build_rollback_request

  -- `finish` behind the lock.
  abbrev pub finish_attached : Bool → Bool → Session S → Result (Unit {0}) × Session S
  finish_attached commit false c = (err tx_done, c)
  finish_attached commit true c =
      if not (host.is_valid c.world)
      then (err bad_conn, c)
      else ended c (host.transact (finish_request_of commit) c.world)

  -- The answer, the transaction and the session behind it.
  unfoldable pub finish : Bool → Tx → Session S → Result (Unit {0}) × Session S
  finish commit t c = if t.done then (err tx_done, c) else finish_attached commit t.attached c

  -- `t.done = true; t.conn = nil`, unless it is done already.
  unfoldable pub finish_tx : Tx → Tx
  finish_tx t = if t.done then t else record { done = true; attached = false }
