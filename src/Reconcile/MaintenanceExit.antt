-- ===== src/Reconcile/MaintenanceExit.antt =====
-- `run_maintenance_exit` of src/application/app/maintenance.rs: the worker that brings the router to
-- the desired state and ends the maintenance.
use unetic_core.Prelude.{true, false, none, some, if◌then◌else◌, is_empty, ok, err}
use unetic_core.Domain.Errors.{LegacyAppError, Fallible}
use unetic_core.Domain.Config.{ready, degraded}
use unetic_core.Platform.{RouterBackend, Host}
use unetic_core.App.State.{Inner, StateTopic}
use unetic_core.App.Monad.{Action, ◌>>=◌, ◌>>◌, pure, gets, try, modify_inner}
use unetic_core.App.Publisher.{publish}
use unetic_core.App.Observation.{refresh_observed}
use unetic_core.Transaction.Sync.{force_state_sync, force_wan_state_sync}

unfoldable pub still_in_maintenance : LegacyAppError → Inner → Inner
still_in_maintenance error inner = record inner {
  maintenance_exiting = false;
  maintenance = true;
  lifecycle = degraded;
  health = record inner.health { core = "error" };
  last_system_error = some error;
}

-- the `match` on the two results
unfoldable pub end_maintenance : Fallible (Unit {0}) → Fallible (Unit {0}) → Inner → Inner
unfolding still_in_maintenance
end_maintenance (ok _) (ok _) inner = record inner {
  maintenance_exiting = false;
  maintenance = false;
  maintenance_reason = none;
  lifecycle = ready;
  repair_failures = 0;
  health = record inner.health { core = "ok"; wireless = "ok"; wan = "ok" };
  last_system_error = none;
}
end_maintenance (err error) wan_result inner = still_in_maintenance error inner
end_maintenance (ok _) (err error) inner = still_in_maintenance error inner

module _ {W : Type 0} ⦃backend : RouterBackend W⦄ ⦃host : Host W⦄ where
  unfoldable pub sync_if_managed : Action W (Fallible (Unit {0}))
  sync_if_managed = do
    wifi ← gets (λ s. s.inner.config.wifi)
    (if is_empty wifi.primary.targets
        then pure (ok tt)
        else try (force_state_sync wifi.primary.targets wifi.primary wifi.roaming))

  unfoldable pub run_maintenance_exit : Action W (Unit {0})
  unfolding sync_if_managed end_maintenance
  run_maintenance_exit = do
    sync_result ← sync_if_managed
    wan ← gets (λ s. s.inner.config.wan)
    wan_sync_result ← try (force_wan_state_sync wan)
    modify_inner (end_maintenance sync_result wan_sync_result)
    refresh_observed
    publish StateTopic.maintenance
    pure tt
