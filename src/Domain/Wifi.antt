-- ===== src/Domain/Wifi.antt =====
-- src/domain/network/wifi.rs
use unetic_core.Prelude.{ℕ, String, Option, none, Bool, List, [], Eq, nat_eq, string_eq}
use unetic_core.Domain.Roaming.{RoamingConfig, default_roaming}

pub record WifiNetworkConfig : Type 0 where
  pub ssid : String
  pub encryption : String
  pub key : Option String
  pub targets : List String

abbrev pub default_wifi_network : WifiNetworkConfig
default_wifi_network = record { ssid = ""; encryption = "none"; key = none; targets = [] }

pub record RadioChannelConfig : Type 0 where
  pub target : String
  pub channel : ℕ
  pub band : Option String

pub record MeshBackhaulConfig : Type 0 where
  pub enabled : Bool
  pub backhaul_target : String
  pub client_target : String
  pub hidden : Bool

pub record WifiDesired : Type 0 where
  pub primary : WifiNetworkConfig
  pub roaming : RoamingConfig
  pub backhaul : Option MeshBackhaulConfig
  pub radio_channels : List RadioChannelConfig

abbrev pub default_wifi : WifiDesired
default_wifi = record {
  primary = default_wifi_network;
  roaming = default_roaming;
  backhaul = none;
  radio_channels = [];
}

pub record DiscoveredWifi : Type 0 where
  pub ssid : String
  pub encryption : String
  pub key : Option String
  pub targets : List String
  pub backhaul : Option MeshBackhaulConfig
  pub radio_channels : List RadioChannelConfig

pub record SetWifiConfigRequest : Type 0 where
  pub ssid : String
  pub encryption : String
  pub key : Option String
  pub roaming : Option RoamingConfig
  pub backhaul : Option MeshBackhaulConfig
  pub radio_channels : List RadioChannelConfig
  pub expected_revision : ℕ
  pub request_id : String

unfoldable pub WifiNetworkConfig-discrete : Discrete WifiNetworkConfig
WifiNetworkConfig-discrete = hlevel (string_eq.dec_eq)

unfoldable pub RadioChannelConfig-discrete : Discrete RadioChannelConfig
RadioChannelConfig-discrete = hlevel (nat_eq.dec_eq, string_eq.dec_eq)

unfoldable pub MeshBackhaulConfig-discrete : Discrete MeshBackhaulConfig
MeshBackhaulConfig-discrete = hlevel (string_eq.dec_eq)

instance abbrev pub wifi_network_config_eq : Eq WifiNetworkConfig
wifi_network_config_eq = record { dec_eq = WifiNetworkConfig-discrete }

instance abbrev pub radio_channel_config_eq : Eq RadioChannelConfig
radio_channel_config_eq = record { dec_eq = RadioChannelConfig-discrete }

instance abbrev pub mesh_backhaul_config_eq : Eq MeshBackhaulConfig
mesh_backhaul_config_eq = record { dec_eq = MeshBackhaulConfig-discrete }
