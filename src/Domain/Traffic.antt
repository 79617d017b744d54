-- ===== src/Domain/Traffic.antt =====
-- src/domain/network/traffic.rs: counters, rates and charts; and the switch of
-- src/domain/network/ports.rs. Counters are 64 bits wide and saturate.
use unetic_core.Prelude.{
  ℕ, ◌+◌, ◌-◌, ◌*◌, ◌/◌, ◌^◌, Bool, List, [], ◌∷◌, ◌++◌, leb, ◌==◌, nat_eq, if◌then◌else◌, length,
}

abbrev pub u64_max : ℕ
u64_max = 2 ^ 64 - 1

-- `saturating_add` and `saturating_mul`
abbrev pub saturate : ℕ → ℕ
saturate n = if leb n u64_max then n else u64_max

pub record TrafficBytes : Type 0 where
  pub rx : ℕ
  pub tx : ℕ

abbrev pub no_bytes : TrafficBytes
no_bytes = record { rx = 0; tx = 0 }

unfoldable pub add_bytes : TrafficBytes → TrafficBytes → TrafficBytes
add_bytes a b = record { rx = saturate (a.rx + b.rx); tx = saturate (a.tx + b.tx) }

pub record TrafficCounters : Type 0 where
  pub wan : TrafficBytes
  pub lan : TrafficBytes

pub record TrafficRate : Type 0 where
  pub rx_kbps : ℕ
  pub tx_kbps : ℕ

pub record TrafficPoint : Type 0 where
  pub at_ms : ℕ
  pub rx_kbps : ℕ
  pub tx_kbps : ℕ

pub record TrafficCharts : Type 0 where
  pub one_minute : List TrafficPoint
  pub fifteen_minutes : List TrafficPoint
  pub one_hour : List TrafficPoint
  pub twenty_four_hours : List TrafficPoint
  pub seven_days : List TrafficPoint

pub record TrafficSource : Type 0 where
  pub realtime : TrafficRate
  pub charts : TrafficCharts

pub record LanTrafficSource : Type 0 where
  pub hw_offload_enabled : Bool
  pub source : TrafficSource

pub record TrafficState : Type 0 where
  pub wan : TrafficSource
  pub lan : LanTrafficSource
  pub all : TrafficSource

unfoldable pub rate : TrafficBytes → ℕ → TrafficRate
rate delta elapsed_ms = if elapsed_ms == 0 then record { rx_kbps = 0; tx_kbps = 0 } else record {
  rx_kbps = saturate (delta.rx * 1_000) / elapsed_ms / 1_024;
  tx_kbps = saturate (delta.tx * 1_000) / elapsed_ms / 1_024;
}

abbrev pub traffic_history_capacity : ℕ
traffic_history_capacity = 60

-- `remove(0)`
abbrev pub remove_first {ℓ} : {A : Type ℓ} → List A → List A
remove_first [] = []
remove_first (x ∷ xs) = xs

unfoldable pub push_point : List TrafficPoint → TrafficPoint → List TrafficPoint
push_point points point =
    (if length points == traffic_history_capacity then remove_first points else points)
    ++ point ∷ []

pub record HardwareOffload : Type 0 where
  pub available : Bool
  pub enabled : Bool

pub record SwitchState : Type 0 where
  pub hw_offload : HardwareOffload
