-- ===== src/Domain/Services.antt =====
-- src/domain/network/dns.rs, src/domain/network/ddns.rs and src/domain/mesh/extender.rs: the parts
-- of the configuration that name servers and extenders.
use unetic_core.Prelude.{ℤ, ℕ, String, Option, Bool, false, List, []}

pub record DnsRecord : Type 0 where
  pub id : String
  pub hostname : String
  pub ip : String

pub record DnsConfig : Type 0 where
  pub upstream : List String
  pub local_domain : Option String
  pub dhcp_start : ℕ
  pub dhcp_limit : ℕ
  pub dhcp_lease_hours : ℕ
  pub custom_records : List DnsRecord

abbrev pub default_dns : DnsConfig
default_dns = record {
  upstream = [];
  local_domain = Option.none;
  dhcp_start = 100;
  dhcp_limit = 150;
  dhcp_lease_hours = 12;
  custom_records = [];
}

pub data DdnsProvider : Type 0 where
  none cloudflare duck_dns : DdnsProvider

pub record CloudflareConfig : Type 0 where
  pub zone_id : String
  pub record_id : String
  pub api_token : String
  pub hostname : String

pub record DuckDnsConfig : Type 0 where
  pub token : String
  pub domain : String

pub record DdnsConfig : Type 0 where
  pub enabled : Bool
  pub provider : DdnsProvider
  pub cloudflare : Option CloudflareConfig
  pub duckdns : Option DuckDnsConfig

abbrev pub default_ddns : DdnsConfig
default_ddns = record {
  enabled = false;
  provider = none;
  cloudflare = Option.none;
  duckdns = Option.none;
}

-- src/domain/network/ports.rs
pub data PortType : Type 0 where
  wan lan : PortType

pub data PortSpeed : Type 0 where
  no_link speed10 speed100 speed1000 speed2500 speed5000 speed10000 : PortSpeed

pub record PortConnection : Type 0 where
  pub device_id : String

pub record PhysicalPort : Type 0 where
  pub id : String
  pub port_type : PortType
  pub speed : PortSpeed
  pub connections : List PortConnection

-- src/domain/mesh/extender.rs
pub record PendingExtender : Type 0 where
  pub mac : String
  pub model : String
  pub pairing_key : String

pub record ScannedNetwork : Type 0 where
  pub ssid : String
  pub bssid : String
  pub channel : ℕ
  pub signal : ℤ

pub record KnownExtender : Type 0 where
  pub mac : String
  pub ip : String
  pub model : String
  pub auth_token : String
