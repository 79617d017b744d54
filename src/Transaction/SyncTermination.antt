-- ===== src/Transaction/SyncTermination.antt =====
-- A sync comes to an end.
use unetic_core.Prelude.{Bool, true, false, List, String, ok, err}
use unetic_core.Domain.Errors.{LegacyAppError, Fallible}
use unetic_core.Domain.Roaming.{RoamingConfig}
use unetic_core.Domain.Wan.{WanDesired}
use unetic_core.Domain.Wifi.{WifiNetworkConfig}
use unetic_core.Platform.{RouterBackend, Host}
use unetic_core.App.Monad.{Action}
use unetic_core.App.Timely.{IsSteady, Timely, timely_rules}
use unetic_core.Transaction.Sync.{
  with_session, revert_and_raise, or_revert, revert_if, rollback_if_failed, stage_sync, sync_in,
  force_state_sync, run_recovery_sync, after_wan_stage, undo_wan_apply, after_wan_apply,
  after_wan_verify, wan_sync_in, force_wan_state_sync,
}
use unetic_core.Transaction.Wan.Termination.{Timely-verify_wan_configuration}
use unetic_core.Transaction.Termination.{Timely-verify_wifi}
use unetic_core.Transaction.Wifi.{undo_apply}
use unetic_core.Transaction.Wan.{stage_wan_candidate}

module _ {W : Type 0} ⦃backend : RouterBackend W⦄ ⦃host : Host W⦄
    (steady : IsSteady backend host) where
  pub Timely-undo_apply :
      (session : String) (applied : Fallible (Unit {0}))
      → Timely {W = W} (undo_apply session applied)
  unfolding undo_apply
  Timely-undo_apply session (ok _) = search timely_rules
  Timely-undo_apply session (err error) =
      search (timely_rules, steady.rollback, steady.revert_staged)

  Timely-stage_wan_candidate :
      (session : String) (desired : WanDesired)
      → Timely {W = W} (stage_wan_candidate session desired)
  unfolding stage_wan_candidate
  Timely-stage_wan_candidate session desired =
      search (timely_rules, steady.stage_wan_config, steady.read_wan_config) depth 12

  Timely-with_session :
      (body : String → Action W (Unit {0}))
      → ((session : String) → Timely (body session))
      → Timely (with_session body)
  unfolding with_session
  Timely-with_session body h =
      search (timely_rules, h, steady.create_session, steady.destroy_session) depth 12

  Timely-revert_and_raise :
      {A : Type 0} (session : String) (error : LegacyAppError)
      → Timely {W = W} {A = A} (revert_and_raise session error)
  unfolding revert_and_raise
  Timely-revert_and_raise session error =
      search (timely_rules, steady.revert_staged, steady.rollback)

  Timely-or_revert :
      {A : Type 0} (session : String) (r : Fallible A) → Timely {W = W} (or_revert session r)
  unfolding or_revert
  Timely-or_revert session (ok value) = search (timely_rules, steady.revert_staged, steady.rollback)
  Timely-or_revert session (err error) = Timely-revert_and_raise session error

  Timely-revert_if :
      (b : Bool) (session : String) (error : LegacyAppError)
      → Timely {W = W} (revert_if b session error)
  unfolding revert_if
  Timely-revert_if true session error = Timely-revert_and_raise session error
  Timely-revert_if false session error =
      search (timely_rules, steady.revert_staged, steady.rollback)

  Timely-rollback_if_failed :
      (session : String) (r : Fallible (Unit {0})) → Timely {W = W} (rollback_if_failed session r)
  unfolding rollback_if_failed
  Timely-rollback_if_failed session (ok _) =
      search (timely_rules, steady.revert_staged, steady.rollback)
  Timely-rollback_if_failed session (err error) =
      search (timely_rules, steady.revert_staged, steady.rollback)

  module _ (targets : List String) (config : WifiNetworkConfig) (roaming : RoamingConfig) where
    Timely-stage_sync :
        (session : String) → Timely {W = W} (stage_sync targets config roaming session)
    unfolding stage_sync
    Timely-stage_sync session =
        search
          (
            timely_rules, Timely-or_revert, Timely-revert_if, steady.stage_wifi_config,
            steady.read_wifi_configs, steady.read_roaming_config,
          )
          depth 20 fits 3000

    Timely-sync_in : (session : String) → Timely {W = W} (sync_in targets config roaming session)
    unfolding sync_in
    Timely-sync_in session =
        search
          (
            timely_rules, steady.apply, steady.confirm, Timely-stage_sync, Timely-undo_apply,
            Timely-verify_wifi, Timely-rollback_if_failed,
          )
          depth 20 fits 3000

    pub Timely-force_state_sync : Timely {W = W} (force_state_sync targets config roaming)
    unfolding force_state_sync
    Timely-force_state_sync = search (timely_rules, Timely-with_session, Timely-sync_in)

  pub Timely-run_recovery_sync : Timely {W = W} run_recovery_sync
  unfolding run_recovery_sync
  Timely-run_recovery_sync = search (timely_rules, Timely-force_state_sync)

  Timely-after_wan_stage :
      (session : String) (r : Fallible (Unit {0})) → Timely {W = W} (after_wan_stage session r)
  unfolding after_wan_stage
  Timely-after_wan_stage session (ok _) =
      search (timely_rules, steady.revert_staged, steady.rollback)
  Timely-after_wan_stage session (err error) =
      search (timely_rules, steady.revert_staged, steady.rollback)

  Timely-undo_wan_apply :
      (session : String) (error : LegacyAppError) (r : Fallible (Unit {0}))
      → Timely {W = W} (undo_wan_apply session error r)
  unfolding undo_wan_apply
  Timely-undo_wan_apply session error (ok _) =
      search (timely_rules, steady.revert_staged, steady.rollback)
  Timely-undo_wan_apply session error (err rollback) =
      search (timely_rules, steady.revert_staged, steady.rollback)

  Timely-after_wan_apply :
      (session : String) (r : Fallible (Unit {0})) → Timely {W = W} (after_wan_apply session r)
  unfolding after_wan_apply
  Timely-after_wan_apply session (ok _) =
      search (timely_rules, steady.revert_staged, steady.rollback)
  Timely-after_wan_apply session (err error) =
      search (timely_rules, Timely-undo_wan_apply, steady.rollback)

  Timely-after_wan_verify :
      (session : String) (r : Fallible (Unit {0})) → Timely {W = W} (after_wan_verify session r)
  unfolding after_wan_verify
  Timely-after_wan_verify session (ok _) =
      search (timely_rules, steady.revert_staged, steady.rollback)
  Timely-after_wan_verify session (err error) =
      search (timely_rules, steady.revert_staged, steady.rollback)

  Timely-wan_sync_in :
      (desired : WanDesired) (session : String) → Timely {W = W} (wan_sync_in desired session)
  unfolding wan_sync_in
  Timely-wan_sync_in desired session =
      search
        (
          timely_rules, steady.apply, steady.confirm, Timely-stage_wan_candidate,
          Timely-after_wan_stage, Timely-after_wan_apply, Timely-verify_wan_configuration,
          Timely-after_wan_verify,
        )
        depth 20 fits 3000

  pub Timely-force_wan_state_sync :
      (desired : WanDesired) → Timely {W = W} (force_wan_state_sync desired)
  unfolding force_wan_state_sync
  Timely-force_wan_state_sync desired =
      search (timely_rules, Timely-with_session, Timely-wan_sync_in)
