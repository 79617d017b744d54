-- ===== src/Domain/Roaming.antt =====
-- src/domain/network/roaming.rs: the profile that the user picks, and the policy compiled from it.
use unetic_core.Prelude.{
  ℕ, String, Option, none, some, Bool, true, false, not, ◌&&◌, List, [], ◌∷◌, Eq, nat_eq, string_eq,
  ◌!=◌, ltb, if◌then◌else◌, length, Map, collect, contains_text, ℤ, pos, negsuc,
}

pub data RoamingMode : Type 0 where
  soft aggressive : RoamingMode

pub data RoamingSensitivity : Type 0 where
  low balanced high : RoamingSensitivity

pub record RoamingConfig : Type 0 where
  pub mode : RoamingMode
  pub sensitivity : RoamingSensitivity

abbrev pub default_roaming : RoamingConfig
default_roaming = record { mode = soft; sensitivity = balanced }

pub record UsteerPolicy : Type 0 where
  pub aggressiveness : ℕ
  pub roam_scan_snr : ℤ
  pub roam_trigger_snr : ℤ
  pub signal_diff_threshold : ℤ
  pub roam_scan_tries : ℕ
  pub roam_scan_interval : ℕ
  pub roam_scan_timeout : ℕ
  pub roam_trigger_interval : ℕ
  pub roam_kick_delay : ℕ
  pub steer_reject_timeout : ℕ
  pub max_neighbor_reports : ℕ
  pub assoc_steering : Bool
  pub probe_steering : Bool
  pub load_kick_enabled : Bool
  pub min_connect_snr : ℤ
  pub min_snr : ℤ
  pub band_steering_interval : ℕ
  pub band_steering_min_snr : ℤ
  pub band_steering_signal_threshold : ℤ

pub record AccessPointRoamingPolicy : Type 0 where
  pub ieee80211k : Bool
  pub rrm_neighbor_report : Bool
  pub rrm_beacon_report : Bool
  pub bss_transition : Bool
  pub ieee80211r : Bool
  pub ft_over_ds : Bool
  pub ft_psk_generate_local : Bool
  pub mobility_domain : Option String

pub record AppliedRoamingConfig : Type 0 where
  pub enabled : Bool
  pub network : String
  pub local_mode : Bool
  pub ssid_list : List String
  pub policy : UsteerPolicy
  pub access_points : Map AccessPointRoamingPolicy

pub data RoamingRuntimeStatus : Type 0 where
  ready degraded : RoamingRuntimeStatus

pub record RoamingRuntime : Type 0 where
  pub available : Bool
  pub local_bss : ℕ
  pub remote_bss : ℕ
  pub status : RoamingRuntimeStatus
  pub error : Option String

abbrev pub default_roaming_runtime : RoamingRuntime
default_roaming_runtime = record {
  available = false;
  local_bss = 0;
  remote_bss = 0;
  status = degraded;
  error = some "usteer runtime has not been observed";
}

unfoldable pub RoamingConfig-discrete : Discrete RoamingConfig
RoamingConfig-discrete = hlevel

unfoldable pub AppliedRoamingConfig-discrete : Discrete AppliedRoamingConfig
AppliedRoamingConfig-discrete = hlevel (nat_eq.dec_eq, string_eq.dec_eq)

unfoldable pub RoamingRuntime-discrete : Discrete RoamingRuntime
RoamingRuntime-discrete = hlevel (nat_eq.dec_eq, string_eq.dec_eq)

unfoldable pub RoamingRuntimeStatus-discrete : Discrete RoamingRuntimeStatus
RoamingRuntimeStatus-discrete = hlevel

instance abbrev pub roaming_config_eq : Eq RoamingConfig
roaming_config_eq = record { dec_eq = RoamingConfig-discrete }

instance abbrev pub applied_roaming_config_eq : Eq AppliedRoamingConfig
applied_roaming_config_eq = record { dec_eq = AppliedRoamingConfig-discrete }

instance abbrev pub roaming_runtime_eq : Eq RoamingRuntime
roaming_runtime_eq = record { dec_eq = RoamingRuntime-discrete }

instance abbrev pub roaming_runtime_status_eq : Eq RoamingRuntimeStatus
roaming_runtime_status_eq = record { dec_eq = RoamingRuntimeStatus-discrete }

roam_snr : RoamingSensitivity → ℤ
roam_snr low = negsuc 77
roam_snr balanced = negsuc 71
roam_snr high = negsuc 66

signal_diff : RoamingSensitivity → ℤ
signal_diff low = pos 12
signal_diff balanced = pos 8
signal_diff high = pos 5

aggressiveness_of : RoamingMode → ℕ
aggressiveness_of soft = 1
aggressiveness_of aggressive = 3

kick_delay_of : RoamingMode → ℕ
kick_delay_of soft = 0
kick_delay_of aggressive = 15_000

unfoldable pub compile_usteer_policy : RoamingConfig → ℕ → UsteerPolicy
unfolding roam_snr signal_diff aggressiveness_of kick_delay_of
compile_usteer_policy config suitable_bss = record {
  aggressiveness = aggressiveness_of config.mode;
  roam_scan_snr = roam_snr config.sensitivity;
  roam_trigger_snr = roam_snr config.sensitivity;
  signal_diff_threshold = signal_diff config.sensitivity;
  roam_scan_tries = 3;
  roam_scan_interval = 10_000;
  roam_scan_timeout = 60_000;
  roam_trigger_interval = 60_000;
  roam_kick_delay = kick_delay_of config.mode;
  steer_reject_timeout = 120_000;
  max_neighbor_reports = 8;
  assoc_steering = false;
  probe_steering = false;
  load_kick_enabled = false;
  min_connect_snr = pos 0;
  min_snr = pos 0;
  band_steering_interval = if ltb 1 suitable_bss then 30_000 else 0;
  band_steering_min_snr = negsuc 59;
  band_steering_signal_threshold = pos 5;
}

unfoldable pub compile_ap_policy : String → AccessPointRoamingPolicy
compile_ap_policy encryption =
    let fast_transition = encryption != "none" in
    let local_psk = fast_transition && not (contains_text encryption "sae") in
    record {
      ieee80211k = true;
      rrm_neighbor_report = true;
      rrm_beacon_report = true;
      bss_transition = true;
      ieee80211r = fast_transition;
      ft_over_ds = false;
      ft_psk_generate_local = local_psk;
      mobility_domain = if fast_transition then some "4f57" else none;
    }

unfoldable pub compile_applied_roaming :
    RoamingConfig → String → String → List String → AppliedRoamingConfig
compile_applied_roaming profile ssid encryption targets = record {
  enabled = true;
  network = "lan";
  local_mode = false;
  ssid_list = ssid ∷ [];
  policy = compile_usteer_policy profile (length targets);
  access_points = collect (λ target. compile_ap_policy encryption) targets;
}
