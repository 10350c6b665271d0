-- ===== src/Tests/TransactionTests.antt =====
-- Transactions on a connection that answers every request, and on one whose first commit fails.
use i.Prelude.{ℕ, suc, ◌≡◌, refl, pos, true, false, none}
use i.Errors.{ok}
use i.Text.{codes}
use i.Transaction.{serializable, transaction_isolation_mode, Session, Host, Tx, begin_tx, finish}
use i.Transaction.Outcomes.{Begins, Ends, begin_tx-Begins, finish-Ends}
use i.Transaction.Reset.{Attributes}

abbrev host : Host ℕ
host = record {
  cfg = record { commitment_control = pos 9; true_autocommit = false };
  is_valid = λ w. true;
  ctx_err = λ w. none;
  transact = λ request w. (ok tt, suc w);
  exec_context = λ text w. (ok tt, suc w);
}

abbrev idle : Session ℕ
idle = record { auto_commit = true; current_commitment_control = pos 1; world = 0 }

abbrev active : Session ℕ
active = record { auto_commit = false; current_commitment_control = pos 4; world = 2 }

abbrev fresh : Tx
fresh = record { done = false; attached = true }

serializable_mode : transaction_isolation_mode serializable ≡ ok (codes "RR")
unfolding transaction_isolation_mode
serializable_mode = refl

begin_tx-Begins_example : Begins host idle (begin_tx host serializable idle)
begin_tx-Begins_example = begin_tx-Begins host serializable idle

finish-Ends_example : Ends host fresh active (finish host true fresh active)
finish-Ends_example = finish-Ends host true fresh active

abbrev attributes : Attributes ℕ
attributes = record {
  forget_warnings = λ w. w;
  send_attributes = λ auto_commit level w. (ok tt, suc w);
  restore_client_info = λ w. (ok tt, w);
  add_configured_libraries = λ w. (ok tt, suc w);
}

abbrev committed : Session ℕ
committed = (finish host true fresh active).1

-- Behind a reset the configured level is current.
abbrev reset : Session ℕ
reset = record { auto_commit = true; current_commitment_control = pos 9; world = 6 }
