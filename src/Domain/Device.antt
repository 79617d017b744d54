-- ===== src/Domain/Device.antt =====
-- src/domain/mesh/device.rs: what the user registers about a device, and what the router sees of it.
use unetic_core.Prelude.{ℕ, ℤ, String, Option, Bool, List, Eq, nat_eq, string_eq}

pub data PortForwardProtocol : Type 0 where
  tcp udp all : PortForwardProtocol

pub record PortForward : Type 0 where
  pub id : String
  pub external_port : ℕ
  pub internal_port : ℕ
  pub protocol : PortForwardProtocol

pub record RegisteredDevice : Type 0 where
  pub id : String
  pub mac : String
  pub name : String
  pub is_static_ip : Bool
  pub port_forwards : List PortForward

pub data DeviceConnection : Type 0 where
  wired : String → DeviceConnection
  wireless : ℤ → String → Option String → DeviceConnection
  via_extender :
      String → Option ℤ → Option String → Option String → Option String → DeviceConnection
  unknown : DeviceConnection

pub record Device : Type 0 where
  pub mac : String
  pub ip : Option String
  pub ip6 : Option String
  pub hostname : Option String
  pub connection : DeviceConnection

-- src/domain/mesh/extender.rs: a client that an extender reports
pub record ExtenderClient : Type 0 where
  pub mac : String
  pub signal_dbm : Option ℤ
  pub interface : Option String
  pub network : Option String
  pub port_id : Option String

unfoldable pub ExtenderClient-discrete : Discrete ExtenderClient
ExtenderClient-discrete = hlevel (nat_eq.dec_eq, string_eq.dec_eq)

instance abbrev pub extender_client_eq : Eq ExtenderClient
extender_client_eq = record { dec_eq = ExtenderClient-discrete }

-- src/domain/mesh/device_inventory.rs
pub record DeviceRuntime : Type 0 where
  pub id : String
  pub registered : Bool
  pub device : Device
  pub online : Bool
  pub last_seen_ms : ℕ

unfoldable pub Device-discrete : Discrete Device
Device-discrete = hlevel (nat_eq.dec_eq, string_eq.dec_eq)

unfoldable pub DeviceRuntime-discrete : Discrete DeviceRuntime
DeviceRuntime-discrete = hlevel (nat_eq.dec_eq, string_eq.dec_eq)

instance abbrev pub device_eq : Eq Device
device_eq = record { dec_eq = Device-discrete }

instance abbrev pub device_runtime_eq : Eq DeviceRuntime
device_runtime_eq = record { dec_eq = DeviceRuntime-discrete }
