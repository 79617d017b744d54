-- ===== src/Reconcile/Round.antt =====
-- `reconcile_once` of src/application/app/reconcile.rs up to its decision under the lock.
use unetic_core.Prelude.{
  Bool, true, false, not, ◌&&◌, ◌||◌, Option, none, some, List, String, ◌==◌, ◌!=◌, option_eq,
  if◌then◌else◌, ltb, leb, is_empty,
}
use unetic_core.Domain.Roaming.{compile_applied_roaming, applied_roaming_config_eq}
use unetic_core.Domain.Wan.{WanDesired}
use unetic_core.Domain.Operation.{OperationSource, accepted}
use unetic_core.Domain.Config.{ready, degraded, needs_setup, booting, lifecycle_eq}
use unetic_core.App.State.{Inner}
use unetic_core.Transaction.Context.{
  ChangeContext, public_operation, WanChangeContext, public_wan_operation,
}
use unetic_core.Transaction.Verify.{all_equal_config}
use unetic_core.Wan.Normalization.{wan_config_matches}

pub data Repair : Type 0 where
  config : ChangeContext → Repair
  wan_config : WanChangeContext → Repair
  runtime : List String → String → Repair

abbrev pub is_active : Inner → Bool
is_active inner = elim inner.active_operation [ none ↦ false | some _ ↦ true ]

unfoldable pub should_skip_reconcile : Inner → Bool
should_skip_reconcile inner =
    inner.maintenance
    || (inner.lifecycle == degraded && leb 3 inner.repair_failures)
    || is_active inner
    || is_empty inner.config.wifi.primary.targets
    || inner.lifecycle == needs_setup
    || inner.lifecycle == booting

-- what is published of an inner state, and whether
unfoldable pub clear_recovered_errors : Inner → Inner × Bool
clear_recovered_errors inner =
    if ltb 0 inner.repair_failures
    then (
      record inner {
        repair_failures = 0;
        lifecycle = if inner.lifecycle == degraded then ready else inner.lifecycle;
        health = record inner.health { core = "ok" };
        last_system_error = none;
      },
      true,
    )
    else if inner.lifecycle == ready
        && not (elim inner.last_system_error [ none ↦ true | some _ ↦ false ])
    then (record inner { last_system_error = none }, true)
    else (inner, false)

unfoldable pub build_wifi_reconcile_context : Inner → String → ChangeContext
build_wifi_reconcile_context inner op_id =
    let wifi = inner.config.wifi in
    record {
      operation_id = op_id;
      request_id = none;
      source = OperationSource.reconcile;
      base_revision = inner.config.revision;
      target_revision = inner.config.revision;
      old_wifi = wifi.primary;
      new_wifi = wifi.primary;
      old_roaming = wifi.roaming;
      new_roaming = wifi.roaming;
      targets = wifi.primary.targets;
      backhaul = wifi.backhaul;
      radio_channels = wifi.radio_channels;
    }

unfoldable pub build_wan_reconcile_context : Inner → String → WanChangeContext
build_wan_reconcile_context inner op_id = record {
  operation_id = op_id;
  request_id = none;
  source = OperationSource.reconcile;
  base_revision = inner.config.revision;
  target_revision = inner.config.revision;
  old_wan = inner.config.wan;
  new_wan = inner.config.wan;
}

unfoldable pub config_drift : Inner → Bool
config_drift inner =
    let wifi = inner.config.wifi in
    not (all_equal_config inner.observed_configs wifi.primary.targets wifi.primary)
    || inner.observed_roaming
      != some (
          compile_applied_roaming wifi.roaming wifi.primary.ssid wifi.primary.encryption
            wifi.primary.targets)

unfoldable pub wan_drift : Option WanDesired → Inner → Bool
wan_drift none inner = false
wan_drift (some wan) inner = not (wan_config_matches wan inner.config.wan)

-- The inner state after the decision, the repair that is to start, if any, and whether to publish.
pub record Decision : Type 0 where
  pub inner : Inner
  pub repair : Option Repair
  pub publishes : Bool

abbrev pub starts_config : Inner → ChangeContext → Inner
starts_config inner context = record inner {
  active_operation = some (public_operation context accepted none);
}

unfoldable pub evaluate_reconcile_state : Inner → String → Option WanDesired → Bool → Decision
evaluate_reconcile_state inner op_id observed_wan observation_changed =
    let wifi_context = build_wifi_reconcile_context inner op_id in
    let wan_context = build_wan_reconcile_context inner op_id in
    let wifi = inner.config.wifi.primary in
    let cleared = clear_recovered_errors inner in
    if not (config_drift inner) && not (wan_drift observed_wan inner) && inner.runtime_healthy
    then record { inner = cleared.0; repair = none; publishes = cleared.1 || observation_changed }
    else if config_drift inner
    then record {
      inner = starts_config inner wifi_context;
      repair = some (Repair.config wifi_context);
      publishes = false;
    }
    else if wan_drift observed_wan inner
    then record {
      inner = record inner {
        active_operation = some (public_wan_operation wan_context accepted none);
      };
      repair = some (wan_config wan_context);
      publishes = false;
    }
    else record {
      inner = starts_config inner wifi_context;
      repair = some (runtime wifi.targets wifi.ssid);
      publishes = false;
    }
