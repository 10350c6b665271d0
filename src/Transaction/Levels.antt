-- ===== src/Transaction/Levels.antt =====
-- The commitment control levels that reach the server.
use i.Prelude.{
  ℕ, ◌≤◌, ◌≡◌, sym, ap, ◌∙◌, [], Bytes, ℤ, pos, negsuc, Bool, true, false, ◌&&◌, not, Option, none,
  some, arith, if◌then◌else◌,
}
use i.Errors.{Result, ok, err}
use i.Text.{codes, is_empty}
use i.Arguments.{same_text}
use i.Transaction.{
  IsolationLevel, default_level, read_uncommitted, read_committed, write_committed, repeatable_read,
  snapshot, serializable, linearizable, other, transaction_isolation_mode,
  transaction_commitment_control, Config, in_levels, request_commitment_control,
  server_commitment_control,
}

in_levels-bounded : (control : ℤ) → in_levels control ≤ 4
in_levels-bounded (pos n) = ground arith
in_levels-bounded (negsuc n) = omega arith

-- Whatever commitment control is configured, the level that is sent to the server is one of its five.
pub server_commitment_control-bounded :
    (cfg : Config) (auto_commit : Bool) (control : ℤ)
    → server_commitment_control cfg auto_commit control ≤ 4
unfolding server_commitment_control request_commitment_control
server_commitment_control-bounded cfg auto_commit control =
    either (auto_commit && not cfg.true_autocommit)
  where
    either : (t : Bool) → (if t then 0 else in_levels control) ≤ 4
    either true = omega arith
    either false = in_levels-bounded control

-- The number that the server gives to a level of SET TRANSACTION.
abbrev pub level_number : Bytes → Option ℕ
level_number mode =
    if same_text mode (codes "CS")
    then some 1
    else if same_text mode (codes "CHG")
    then some 2
    else if same_text mode (codes "ALL")
    then some 3
    else if same_text mode (codes "RR")
    then some 4
    else none

abbrev mode_of : Result Bytes → Bytes
mode_of (ok mode) = mode
mode_of (err e) = []

-- The level that SET TRANSACTION names and the commitment control that is kept for the transaction are the
-- same one, for every isolation level that has a mode.
pub transaction_isolation_mode-agrees :
    (level : IsolationLevel) {mode : Bytes}
    → transaction_isolation_mode level ≡ ok mode
    → is_empty mode ≡ false
    → level_number mode ≡ some (transaction_commitment_control level)
unfolding transaction_isolation_mode transaction_commitment_control
transaction_isolation_mode-agrees default_level e named =
    let none_named : true ≡ false = ap (λ r. is_empty (mode_of r)) e ∙ named in cc
transaction_isolation_mode-agrees read_uncommitted e named =
    sym (ap (λ r. level_number (mode_of r)) e)
transaction_isolation_mode-agrees read_committed e named =
    sym (ap (λ r. level_number (mode_of r)) e)
transaction_isolation_mode-agrees write_committed e named = cc
transaction_isolation_mode-agrees repeatable_read e named =
    sym (ap (λ r. level_number (mode_of r)) e)
transaction_isolation_mode-agrees snapshot e named = cc
transaction_isolation_mode-agrees serializable e named = sym (ap (λ r. level_number (mode_of r)) e)
transaction_isolation_mode-agrees linearizable e named = cc
transaction_isolation_mode-agrees (other n) e named = cc
