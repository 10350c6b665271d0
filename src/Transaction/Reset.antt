-- ===== src/Transaction/Reset.antt =====
-- ResetSession (driver.go), with which database/sql hands out a connection again.
use i.Prelude.{
  ℕ, ◌≡◌, refl, ◌⊎◌, inl, inr, Bool, true, false, not, Option, none, some, if◌then◌else◌,
}
use i.Errors.{Result, ok, err, Error, bad_conn}
use i.Request.Build.{build_rollback_request}
use i.Transaction.{
  Session, Host, at, set_current_commitment_control, current_commitment_mode, switched,
}

-- What a reset does besides the commitment control: ClearWarnings, the request that sets the attributes of
-- the server with its check, restoreClientInfo and addConfiguredLibraries.
pub record Attributes (S : Type 0) : Type 0 where
  pub forget_warnings : S → S
  pub send_attributes : (auto_commit : Bool) (commitment_control : ℕ) → S → Result (Unit {0}) × S
  pub restore_client_info : S → Result (Unit {0}) × S
  pub add_configured_libraries : S → Result (Unit {0}) × S

module _ {S : Type 0} (host : Host S) (attributes : Attributes S) where
  unfoldable pub set_server_attributes : Bool → Session S → Result (Unit {0}) × Session S
  set_server_attributes auto_commit c =
      switched host c auto_commit
        (attributes.send_attributes auto_commit (current_commitment_mode host c) c.world)

  abbrev restored_info : Session S → Result (Unit {0}) × S → Result (Unit {0}) × Session S
  restored_info c (err e, w) = (err e, at host c w)
  restored_info c (ok done, w) =
      let run = attributes.add_configured_libraries w in (run.0, at host c run.1)

  abbrev behind_attributes : Result (Unit {0}) × Session S → Result (Unit {0}) × Session S
  behind_attributes (err e, c) = (err e, c)
  behind_attributes (ok done, c) = restored_info c (attributes.restore_client_info c.world)

  -- What follows the rollback.
  abbrev reconfigured : Session S → Result (Unit {0}) × Session S
  reconfigured c = behind_attributes (
      set_server_attributes true
        (set_current_commitment_control host host.cfg.commitment_control c))

  abbrev rolled_back : Session S → Result (Unit {0}) × S → Result (Unit {0}) × Session S
  rolled_back c (err e, w) = (err e, at host c w)
  rolled_back c (ok done, w) = reconfigured (at host c w)

  abbrev reset_valid : Session S → Result (Unit {0}) × Session S
  reset_valid c =
      if not c.auto_commit
      then rolled_back c (host.transact build_rollback_request c.world)
      else reconfigured c

  abbrev reset_checked : Option Error → Session S → Result (Unit {0}) × Session S
  reset_checked (some e) c = (err e, c)
  reset_checked none c =
      if not (host.is_valid c.world)
      then (err bad_conn, c)
      else reset_valid (at host c (attributes.forget_warnings c.world))

  unfoldable pub reset_session : Session S → Result (Unit {0}) × Session S
  reset_session c = reset_checked (host.ctx_err c.world) c

  -- A reset that succeeds leaves autocommit on, with the configured commitment control. One that fails
  -- leaves autocommit as it was or on.
  abbrev Resets : Session S → Result (Unit {0}) × Session S → Type 0
  Resets c (ok done, c') =
      (c'.auto_commit ≡ true) × (c'.current_commitment_control ≡ host.cfg.commitment_control)
  Resets c (err e, c') = (c'.auto_commit ≡ c.auto_commit) ⊎ (c'.auto_commit ≡ true)

  reconfigured-Resets : (c : Session S) → Resets c (reconfigured c)
  unfolding set_server_attributes
  reconfigured-Resets c = sent (
      attributes.send_attributes true
        (current_commitment_mode host
          (set_current_commitment_control host host.cfg.commitment_control c))
        c.world)
    where
      configured : Session S
      configured = set_current_commitment_control host host.cfg.commitment_control c

      informed :
          (w : S) (answer : Result (Unit {0}) × S)
          → Resets c (restored_info (record configured { auto_commit = true; world = w }) answer)
      informed w (err e, w') = inr refl
      informed w (ok done, w') = libraries_added (attributes.add_configured_libraries w')
        where
          libraries_added :
              (run : Result (Unit {0}) × S)
              → Resets c
                  (run.0, at host (record configured { auto_commit = true; world = w }) run.1)
          libraries_added (err e, v) = inr refl
          libraries_added (ok done, v) = (refl, refl)

      sent :
          (answer : Result (Unit {0}) × S)
          → Resets c (behind_attributes (switched host configured true answer))
      sent (err e, w) = inl refl
      sent (ok done, w) = informed w (attributes.restore_client_info w)

  pub reset_session-Resets : (c : Session S) → Resets c (reset_session c)
  unfolding reset_session
  reset_session-Resets c = context_checked (host.ctx_err c.world)
    where
      cleared : Session S
      cleared = at host c (attributes.forget_warnings c.world)

      rolled : (answer : Result (Unit {0}) × S) → Resets c (rolled_back cleared answer)
      rolled (err e, w) = inl refl
      rolled (ok done, w) = reconfigured-Resets (at host c w)

      either :
          (valid auto_commit : Bool)
          → Resets c (
              if not valid
              then (err bad_conn, c)
              else if not auto_commit
              then rolled_back cleared (host.transact build_rollback_request cleared.world)
              else reconfigured cleared)
      either false auto_commit = inl refl
      either true false = rolled (host.transact build_rollback_request cleared.world)
      either true true = reconfigured-Resets cleared

      context_checked : (o : Option Error) → Resets c (reset_checked o c)
      context_checked (some e) = inl refl
      context_checked none = either (host.is_valid c.world) c.auto_commit
