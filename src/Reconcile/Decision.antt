-- ===== src/Reconcile/Decision.antt =====
-- What a round decides.
use unetic_core.Prelude.{◌≡◌, ◌≢◌, ◌⊎◌, ◌↔◌, arith, Bool, true, false, Option, none, some, String}
use unetic_core.Domain.Wan.{WanDesired}
use unetic_core.Domain.Operation.{OperationSource}
use unetic_core.App.State.{Inner}
use unetic_core.Transaction.Context.{ChangeContext, WanChangeContext}
use unetic_core.Reconcile.Round.{
  Repair, wan_config, runtime, Decision, config_drift, wan_drift, build_wifi_reconcile_context,
  build_wan_reconcile_context, evaluate_reconcile_state, is_active,
}
use unetic_core.Reconcile.Drift.{WifiHolds, WanHolds}

-- The change from the desired Wi-Fi configuration to itself.
abbrev pub wifi_again : Inner → String → ChangeContext
wifi_again inner op_id = record {
  operation_id = op_id;
  request_id = none;
  source = OperationSource.reconcile;
  base_revision = inner.config.revision;
  target_revision = inner.config.revision;
  old_wifi = inner.config.wifi.primary;
  new_wifi = inner.config.wifi.primary;
  old_roaming = inner.config.wifi.roaming;
  new_roaming = inner.config.wifi.roaming;
  targets = inner.config.wifi.primary.targets;
  backhaul = inner.config.wifi.backhaul;
  radio_channels = inner.config.wifi.radio_channels;
}

-- The change from the desired WAN configuration to itself.
abbrev pub wan_again : Inner → String → WanChangeContext
wan_again inner op_id = record {
  operation_id = op_id;
  request_id = none;
  source = OperationSource.reconcile;
  base_revision = inner.config.revision;
  target_revision = inner.config.revision;
  old_wan = inner.config.wan;
  new_wan = inner.config.wan;
}

-- What a round starts for what it finds.
pub record IsRound (inner : Inner) (op_id : String) (wan : Option WanDesired) (decision : Decision)
    : Type 0 where
  pub nothing :
      (decision.repair ≡ none)
      ↔ (WifiHolds inner × WanHolds wan inner.config.wan × (inner.runtime_healthy ≡ true))
  pub wifi : (decision.repair ≡ some (Repair.config (wifi_again inner op_id))) ↔ (¬ WifiHolds inner)
  pub uplink :
      (decision.repair ≡ some (wan_config (wan_again inner op_id)))
      ↔ (WifiHolds inner × (¬ WanHolds wan inner.config.wan))
  pub restart :
      (decision.repair
        ≡ some (runtime inner.config.wifi.primary.targets inner.config.wifi.primary.ssid))
      ↔ (WifiHolds inner × WanHolds wan inner.config.wan × (inner.runtime_healthy ≡ false))
  pub busy : (decision.repair ≢ none) ↔ (is_active decision.inner ≡ true)
  pub config : decision.inner.config ≡ inner.config

module _ (inner : Inner) (op_id : String) (wan : Option WanDesired) (changed : Bool)
    (idle : inner.active_operation ≡ none) where
  pub evaluate_reconcile_state-first :
      let decision = evaluate_reconcile_state inner op_id wan changed in
      (decision.repair ≡ none)
      ⊎ (config_drift inner ≡ true)
        × (decision.repair ≡ some (Repair.config (build_wifi_reconcile_context inner op_id)))
      ⊎ (config_drift inner ≡ false)
        × (wan_drift wan inner ≡ true)
        × (decision.repair ≡ some (wan_config (build_wan_reconcile_context inner op_id)))
      ⊎ (config_drift inner ≡ false)
        × (wan_drift wan inner ≡ false)
        × (decision.repair
            ≡ some (runtime inner.config.wifi.primary.targets inner.config.wifi.primary.ssid))
  unfolding evaluate_reconcile_state
  evaluate_reconcile_state-first = ground arith
