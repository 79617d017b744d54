-- ===== src/Transaction/SyncQuiet.antt =====
-- A sync does nothing to the desired state.
use unetic_core.Prelude.{Bool, true, false, List, String, ok, err}
use unetic_core.Domain.Errors.{LegacyAppError, Fallible}
use unetic_core.Domain.Roaming.{RoamingConfig}
use unetic_core.Domain.Wan.{WanDesired}
use unetic_core.Domain.Wifi.{WifiNetworkConfig}
use unetic_core.Platform.{RouterBackend, Host}
use unetic_core.App.Monad.{Action}
use unetic_core.App.Quiet.{Quietly, quiet_rules}
use unetic_core.Transaction.Sync.{
  with_session, revert_and_raise, or_revert, revert_if, rollback_if_failed, stage_sync, sync_in,
  force_state_sync, run_recovery_sync, after_wan_stage, undo_wan_apply, after_wan_apply,
  after_wan_verify, wan_sync_in, force_wan_state_sync,
}
use unetic_core.Transaction.Wan.Quiet.{
  Quietly-stage_wan_candidate, Quietly-verify_wan_configuration,
}
use unetic_core.Transaction.Quiet.{Quietly-verify_wifi, Quietly-undo_apply}

module _ {W : Type 0} ⦃backend : RouterBackend W⦄ ⦃host : Host W⦄ where
  Quietly-with_session :
      (body : String → Action W (Unit {0}))
      → ((session : String) → Quietly (body session))
      → Quietly (with_session body)
  unfolding with_session
  Quietly-with_session body h = search (quiet_rules, h)

  Quietly-revert_and_raise :
      {A : Type 0} (session : String) (error : LegacyAppError)
      → Quietly {W = W} {A = A} (revert_and_raise session error)
  unfolding revert_and_raise
  Quietly-revert_and_raise session error = search quiet_rules

  Quietly-or_revert :
      {A : Type 0} (session : String) (r : Fallible A) → Quietly {W = W} (or_revert session r)
  unfolding or_revert
  Quietly-or_revert session (ok value) = search quiet_rules
  Quietly-or_revert session (err error) = Quietly-revert_and_raise session error

  Quietly-revert_if :
      (b : Bool) (session : String) (error : LegacyAppError)
      → Quietly {W = W} (revert_if b session error)
  unfolding revert_if
  Quietly-revert_if true session error = Quietly-revert_and_raise session error
  Quietly-revert_if false session error = search quiet_rules

  Quietly-rollback_if_failed :
      (session : String) (r : Fallible (Unit {0})) → Quietly {W = W} (rollback_if_failed session r)
  unfolding rollback_if_failed
  Quietly-rollback_if_failed session (ok _) = search quiet_rules
  Quietly-rollback_if_failed session (err error) = search quiet_rules

  module _ (targets : List String) (config : WifiNetworkConfig) (roaming : RoamingConfig) where
    Quietly-stage_sync :
        (session : String) → Quietly {W = W} (stage_sync targets config roaming session)
    unfolding stage_sync
    Quietly-stage_sync session =
        search (quiet_rules, Quietly-or_revert, Quietly-revert_if) depth 20 fits 3000

    Quietly-sync_in : (session : String) → Quietly {W = W} (sync_in targets config roaming session)
    unfolding sync_in
    Quietly-sync_in session =
        search
          (
            quiet_rules, Quietly-stage_sync, Quietly-undo_apply, Quietly-verify_wifi,
            Quietly-rollback_if_failed,
          )
          depth 20 fits 3000

    pub Quietly-force_state_sync : Quietly {W = W} (force_state_sync targets config roaming)
    unfolding force_state_sync
    Quietly-force_state_sync = search (quiet_rules, Quietly-with_session, Quietly-sync_in)

  pub Quietly-run_recovery_sync : Quietly {W = W} run_recovery_sync
  unfolding run_recovery_sync
  Quietly-run_recovery_sync = search (quiet_rules, Quietly-force_state_sync)

  Quietly-after_wan_stage :
      (session : String) (r : Fallible (Unit {0})) → Quietly {W = W} (after_wan_stage session r)
  unfolding after_wan_stage
  Quietly-after_wan_stage session (ok _) = search quiet_rules
  Quietly-after_wan_stage session (err error) = search quiet_rules

  Quietly-undo_wan_apply :
      (session : String) (error : LegacyAppError) (r : Fallible (Unit {0}))
      → Quietly {W = W} (undo_wan_apply session error r)
  unfolding undo_wan_apply
  Quietly-undo_wan_apply session error (ok _) = search quiet_rules
  Quietly-undo_wan_apply session error (err rollback) = search quiet_rules

  Quietly-after_wan_apply :
      (session : String) (r : Fallible (Unit {0})) → Quietly {W = W} (after_wan_apply session r)
  unfolding after_wan_apply
  Quietly-after_wan_apply session (ok _) = search quiet_rules
  Quietly-after_wan_apply session (err error) = search (quiet_rules, Quietly-undo_wan_apply)

  Quietly-after_wan_verify :
      (session : String) (r : Fallible (Unit {0})) → Quietly {W = W} (after_wan_verify session r)
  unfolding after_wan_verify
  Quietly-after_wan_verify session (ok _) = search quiet_rules
  Quietly-after_wan_verify session (err error) = search quiet_rules

  Quietly-wan_sync_in :
      (desired : WanDesired) (session : String) → Quietly {W = W} (wan_sync_in desired session)
  unfolding wan_sync_in
  Quietly-wan_sync_in desired session =
      search
        (
          quiet_rules, Quietly-stage_wan_candidate, Quietly-after_wan_stage,
          Quietly-after_wan_apply, Quietly-verify_wan_configuration, Quietly-after_wan_verify,
        )
        depth 20 fits 3000

  pub Quietly-force_wan_state_sync :
      (desired : WanDesired) → Quietly {W = W} (force_wan_state_sync desired)
  unfolding force_wan_state_sync
  Quietly-force_wan_state_sync desired =
      search (quiet_rules, Quietly-with_session, Quietly-wan_sync_in)
