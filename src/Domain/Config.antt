-- ===== src/Domain/Config.antt =====
-- src/domain/system/config.rs and src/domain/system/system_state.rs: the desired configuration,
-- which is written to disk, and the small states of the running core.
use unetic_core.Prelude.{ℕ, String, Option, none, List, [], Eq}
use unetic_core.Domain.Roaming.{default_roaming}
use unetic_core.Domain.Wan.{WanDesired, default_wan}
use unetic_core.Domain.Wifi.{WifiDesired, WifiNetworkConfig, default_wifi}
use unetic_core.Domain.Device.{RegisteredDevice}
use unetic_core.Domain.Services.{DnsConfig, default_dns, DdnsConfig, default_ddns, KnownExtender}

-- `STATE_SCHEMA_VERSION`
abbrev pub state_schema_version : ℕ
state_schema_version = 1

pub record DesiredConfig : Type 0 where
  pub schema_version : ℕ
  pub revision : ℕ
  pub wifi : WifiDesired
  pub wan : WanDesired
  pub registered_devices : List RegisteredDevice
  pub dns : DnsConfig
  pub ddns : DdnsConfig
  pub extenders : List KnownExtender
  pub extender_auth_token : Option String

-- `DesiredConfig::new`
abbrev pub new_config : WifiNetworkConfig → WanDesired → DesiredConfig
new_config primary wan = record {
  schema_version = state_schema_version;
  revision = 1;
  wifi = record {
    primary = primary;
    roaming = default_roaming;
    backhaul = none;
    radio_channels = [];
  };
  wan = wan;
  registered_devices = [];
  dns = default_dns;
  ddns = default_ddns;
  extenders = [];
  extender_auth_token = none;
}

-- `DesiredConfig::empty`
abbrev pub empty_config : DesiredConfig
empty_config = record {
  schema_version = state_schema_version;
  revision = 0;
  wifi = default_wifi;
  wan = default_wan;
  registered_devices = [];
  dns = default_dns;
  ddns = default_ddns;
  extenders = [];
  extender_auth_token = none;
}

pub data Lifecycle : Type 0 where
  booting ready maintenance degraded needs_setup : Lifecycle

unfoldable pub Lifecycle-discrete : Discrete Lifecycle
Lifecycle-discrete = hlevel

instance abbrev pub lifecycle_eq : Eq Lifecycle
lifecycle_eq = record { dec_eq = Lifecycle-discrete }

pub record HealthState : Type 0 where
  pub core : String
  pub ubus : String
  pub rpcd : String
  pub wireless : String
  pub wan : String
