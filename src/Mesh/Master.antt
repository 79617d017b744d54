-- ===== src/Mesh/Master.antt =====
-- `apply_master_wifi_config` of src/application/app/operations/mesh.rs.
use unetic_core.Prelude.{◌&&◌, Option, none, some, ◌==◌, if◌then◌else◌}
use unetic_core.Domain.Roaming.{RoamingConfig, roaming_config_eq}
use unetic_core.Domain.Wifi.{WifiNetworkConfig, wifi_network_config_eq}
use unetic_core.Domain.Config.{DesiredConfig}
use unetic_core.Platform.{Host, RouterBackend}
use unetic_core.App.Monad.{Action, ◌>>=◌, ◌>>◌, pure, gets, modify_inner}
use unetic_core.App.Store.{persist_config}
use unetic_core.App.Publisher.{next_seq}
use unetic_core.App.Observation.{refresh_observed}
use unetic_core.Transaction.Sync.{force_state_sync}
use unetic_core.Mesh.Pairing.{publish_extenders}

abbrev roaming_or : RoamingConfig → Option RoamingConfig → RoamingConfig
roaming_or current none = current
roaming_or current (some roaming) = roaming

unfoldable pub with_master_wifi : WifiNetworkConfig → RoamingConfig → DesiredConfig → DesiredConfig
with_master_wifi config roaming desired = record desired {
  wifi = record desired.wifi { primary = config; roaming = roaming };
  revision = next_seq desired.revision;
}

module _ {W : Type 0} ⦃backend : RouterBackend W⦄ ⦃host : Host W⦄ where
  unfoldable pub adopt_master_wifi : WifiNetworkConfig → RoamingConfig → Action W (Unit {0})
  unfolding with_master_wifi publish_extenders
  adopt_master_wifi config roaming = do
    force_state_sync config.targets config roaming
    desired ← gets (λ s. with_master_wifi config roaming s.inner.config)
    persist_config desired
    modify_inner (λ inner. record inner { config = desired })
    refresh_observed
    publish_extenders

  unfoldable pub apply_master_wifi_config :
      WifiNetworkConfig → Option RoamingConfig → Action W (Unit {0})
  unfolding adopt_master_wifi
  apply_master_wifi_config given requested = do
    wifi ← gets (λ s. s.inner.config.wifi)
    let config = record given { targets = wifi.primary.targets }
    let roaming = roaming_or wifi.roaming requested
    (if config == wifi.primary && roaming == wifi.roaming
        then pure tt
        else adopt_master_wifi config roaming)
