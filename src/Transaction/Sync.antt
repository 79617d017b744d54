-- ===== src/Transaction/Sync.antt =====
-- The syncs outside a change: `force_state_sync` and `run_recovery_sync` of
-- src/application/transaction/sync.rs, and `force_wan_state_sync` of src/application/wan.rs. They bring
-- the router to a state that is given, with no operation and no journal.
use unetic_core.Prelude.{
  Bool, true, false, some, List, String, ◌==◌, ◌!=◌, if◌then◌else◌, is_empty, ok, err,
}
use unetic_core.Domain.Errors.{
  LegacyAppError, new_error, ErrorStage, uci_stage_mismatch, target_missing, Fallible,
}
use unetic_core.Domain.Roaming.{RoamingConfig, compile_applied_roaming, applied_roaming_config_eq}
use unetic_core.Domain.Wan.{WanDesired, extender, wan_protocol_eq}
use unetic_core.Domain.Wifi.{WifiNetworkConfig}
use unetic_core.Platform.{RouterBackend, Host}
use unetic_core.App.Monad.{Action, ◌>>=◌, ◌>>◌, pure, raise, gets, lift, call, try, ignore}
use unetic_core.Transaction.Verify.{any_mismatch, verify_wifi}
use unetic_core.Transaction.Wifi.{undo_apply}
use unetic_core.Transaction.Wan.{
  attach_cleanup_error, wan_rollback_error, stage_wan_candidate, verify_wan_configuration,
}

abbrev sync_mismatch : String → LegacyAppError
sync_mismatch message = new_error uci_stage_mismatch ErrorStage.reconcile message

abbrev pub no_targets : LegacyAppError
no_targets =
    new_error target_missing ErrorStage.reconcile "cannot reconcile Wi-Fi without managed targets"

-- `match app.backend.rollback(..) { Ok(()) => Err(error), Err(rollback) => .. }`
abbrev pub unverified : LegacyAppError → Fallible (Unit {0}) → LegacyAppError
unverified error (ok _) = error
unverified error (err rollback) = wan_rollback_error error "rollback failed" rollback

module _ {W : Type 0} ⦃backend : RouterBackend W⦄ where
  -- `SessionGuard::new(..)?` and `drop` at the end of the block, whatever its result
  unfoldable pub with_session : (String → Action W (Unit {0})) → Action W (Unit {0})
  with_session body = do
    session ← call backend.create_session
    result ← try (body session)
    ignore (call (backend.destroy_session session))
    lift result

  unfoldable pub revert_and_raise : {A : Type 0} → String → LegacyAppError → Action W A
  revert_and_raise session error = do ignore (call (backend.revert_staged session)); raise error

  -- `Err(error) => { let _ = app.backend.revert_staged(..); return Err(error); }`
  unfoldable pub or_revert : {A : Type 0} → String → Fallible A → Action W A
  unfolding revert_and_raise
  or_revert session (ok value) = pure value
  or_revert session (err error) = revert_and_raise session error

  unfoldable pub revert_if : Bool → String → LegacyAppError → Action W (Unit {0})
  unfolding revert_and_raise
  revert_if true session error = revert_and_raise session error
  revert_if false session error = pure tt

  -- `let _ = app.backend.rollback(..); return Err(error);`
  unfoldable pub rollback_if_failed : String → Fallible (Unit {0}) → Action W (Unit {0})
  rollback_if_failed session (ok _) = pure tt
  rollback_if_failed session (err error) = do ignore (call (backend.rollback session)); raise error

  module _ ⦃host : Host W⦄ where
    unfoldable pub stage_sync :
        List String → WifiNetworkConfig → RoamingConfig → String → Action W (Unit {0})
    stage_sync targets config roaming session = do
      is_extender ← gets (λ s. s.inner.config.wan.proto == extender)
      written ← try (call (backend.stage_wifi_config session targets config roaming is_extender))
      or_revert session written
      read ← try (call (backend.read_wifi_configs targets (some session)))
      staged ← or_revert session read
      revert_if (any_mismatch staged targets config) session
          (sync_mismatch "recovery stage did not match desired state")
      staged_roaming ← call (backend.read_roaming_config targets (some session))
      revert_if
          (staged_roaming != compile_applied_roaming roaming config.ssid config.encryption targets)
          session (sync_mismatch "recovery roaming stage did not match desired state")

    unfoldable pub sync_in :
        List String → WifiNetworkConfig → RoamingConfig → String → Action W (Unit {0})
    unfolding stage_sync
    sync_in targets config roaming session = do
      stage_sync targets config roaming session
      timing ← gets (λ s. s.timing)
      applied ← try (call (backend.apply session timing.rpcd_rollback_timeout_secs))
      undo_apply session applied
      verified ← try (verify_wifi targets config roaming timing.verify_timeout)
      rollback_if_failed session verified
      call (backend.confirm session)

    unfoldable pub force_state_sync :
        List String → WifiNetworkConfig → RoamingConfig → Action W (Unit {0})
    unfolding sync_in with_session
    force_state_sync targets config roaming =
        if is_empty targets then raise no_targets else with_session (sync_in targets config roaming)

    unfoldable pub run_recovery_sync : Action W (Unit {0})
    run_recovery_sync = do
      wifi ← gets (λ s. s.inner.config.wifi)
      force_state_sync wifi.primary.targets wifi.primary wifi.roaming

    -- the failures of a WAN sync: the stage, the apply with its rollback, the verification
    unfoldable pub after_wan_stage : String → Fallible (Unit {0}) → Action W (Unit {0})
    after_wan_stage session (ok _) = pure tt
    after_wan_stage session (err error) = do
      cleanup ← try (call (backend.revert_staged session))
      raise (attach_cleanup_error error cleanup)

    unfoldable pub undo_wan_apply :
        String → LegacyAppError → Fallible (Unit {0}) → Action W (Unit {0})
    undo_wan_apply session error (err rollback) =
        raise (wan_rollback_error error "rollback failed" rollback)
    undo_wan_apply session error (ok _) = do
      cleanup ← try (call (backend.revert_staged session))
      raise (attach_cleanup_error error cleanup)

    unfoldable pub after_wan_apply : String → Fallible (Unit {0}) → Action W (Unit {0})
    unfolding undo_wan_apply
    after_wan_apply session (ok _) = pure tt
    after_wan_apply session (err error) = do
      undone ← try (call (backend.rollback session))
      undo_wan_apply session error undone

    unfoldable pub after_wan_verify : String → Fallible (Unit {0}) → Action W (Unit {0})
    after_wan_verify session (ok _) = pure tt
    after_wan_verify session (err error) = do
      undone ← try (call (backend.rollback session))
      raise (unverified error undone)

    unfoldable pub wan_sync_in : WanDesired → String → Action W (Unit {0})
    unfolding after_wan_stage after_wan_apply after_wan_verify
    wan_sync_in desired session = do
      staged ← try (stage_wan_candidate session desired)
      after_wan_stage session staged
      timing ← gets (λ s. s.timing)
      applied ← try (call (backend.apply session timing.rpcd_rollback_timeout_secs))
      after_wan_apply session applied
      verified ← try (verify_wan_configuration desired timing.verify_timeout)
      after_wan_verify session verified
      call (backend.confirm session)

    unfoldable pub force_wan_state_sync : WanDesired → Action W (Unit {0})
    unfolding wan_sync_in with_session
    force_wan_state_sync desired = with_session (wan_sync_in desired)
