-- ===== src/Domain/Wan.antt =====
-- src/domain/network/wan.rs
use unetic_core.Prelude.{ℕ, String, Option, Bool, false, List, [], Eq, nat_eq, string_eq}

pub data WanProtocol : Type 0 where
  dhcp static pppoe extender none : WanProtocol

pub data WanStatus : Type 0 where
  not_configured connecting connected disconnected error : WanStatus

pub record WanStaticConfig : Type 0 where
  pub ip_address : String
  pub netmask : String
  pub gateway : String
  pub dns : List String

pub record WanPppoeConfig : Type 0 where
  pub username : String
  pub password : Option String
  pub service_name : Option String

pub record WanQos : Type 0 where
  pub enabled : Bool
  pub download_kbps : Option ℕ
  pub upload_kbps : Option ℕ

pub record WanDesired : Type 0 where
  pub present : Bool
  pub device : Option String
  pub proto : WanProtocol
  pub custom_mac : Option String
  pub custom_mtu : Option ℕ
  pub custom_dns : List String
  pub static_config : Option WanStaticConfig
  pub pppoe_config : Option WanPppoeConfig
  pub qos : Option WanQos

-- `WanDesired::default()`
abbrev pub default_wan : WanDesired
default_wan = record {
  present = false;
  device = Option.none;
  proto = dhcp;
  custom_mac = Option.none;
  custom_mtu = Option.none;
  custom_dns = [];
  static_config = Option.none;
  pppoe_config = Option.none;
  qos = Option.none;
}

-- The same fields, as the router is found to have them.
pub record DiscoveredWan : Type 0 where
  pub present : Bool
  pub device : Option String
  pub proto : WanProtocol
  pub custom_mac : Option String
  pub custom_mtu : Option ℕ
  pub custom_dns : List String
  pub static_config : Option WanStaticConfig
  pub pppoe_config : Option WanPppoeConfig
  pub qos : Option WanQos

pub record WanPublicState : Type 0 where
  pub present : Bool
  pub proto : WanProtocol
  pub status : WanStatus
  pub device : Option String
  pub ip_address : Option String
  pub netmask : Option String
  pub gateway : Option String
  pub dns : List String
  pub mac_address : Option String
  pub uptime_secs : ℕ
  pub error_reason : Option String
  pub qos : Option WanQos

-- `WanPublicState::default()`
abbrev pub default_wan_public : WanPublicState
default_wan_public = record {
  present = false;
  proto = dhcp;
  status = not_configured;
  device = Option.none;
  ip_address = Option.none;
  netmask = Option.none;
  gateway = Option.none;
  dns = [];
  mac_address = Option.none;
  uptime_secs = 0;
  error_reason = Option.none;
  qos = Option.none;
}

pub record SetWanRequest : Type 0 where
  pub expected_revision : ℕ
  pub request_id : String
  pub wan : WanDesired

unfoldable pub WanProtocol-discrete : Discrete WanProtocol
WanProtocol-discrete = hlevel

unfoldable pub WanStatus-discrete : Discrete WanStatus
WanStatus-discrete = hlevel

unfoldable pub WanDesired-discrete : Discrete WanDesired
WanDesired-discrete = hlevel (nat_eq.dec_eq, string_eq.dec_eq)

unfoldable pub WanPublicState-discrete : Discrete WanPublicState
WanPublicState-discrete = hlevel (nat_eq.dec_eq, string_eq.dec_eq)

instance abbrev pub wan_protocol_eq : Eq WanProtocol
wan_protocol_eq = record { dec_eq = WanProtocol-discrete }

instance abbrev pub wan_status_eq : Eq WanStatus
wan_status_eq = record { dec_eq = WanStatus-discrete }

instance abbrev pub wan_desired_eq : Eq WanDesired
wan_desired_eq = record { dec_eq = WanDesired-discrete }

instance abbrev pub wan_public_state_eq : Eq WanPublicState
wan_public_state_eq = record { dec_eq = WanPublicState-discrete }
