-- ===== src/Tests/Bench.antt =====
-- A router and a core to try the operations on.
use unetic_core.Prelude.{ℕ, ◌+◌, true, false, none, some, [], ◌∷◌, ok, arith, collect}
use unetic_core.Domain.Errors.{Fallible}
use unetic_core.Domain.Roaming.{
  default_roaming, default_roaming_runtime, compile_applied_roaming, RoamingRuntimeStatus,
}
use unetic_core.Domain.Wan.{default_wan, default_wan_public}
use unetic_core.Domain.Wifi.{WifiNetworkConfig, SetWifiConfigRequest}
use unetic_core.Domain.Operation.{user}
use unetic_core.Domain.Config.{new_config, ready}
use unetic_core.Platform.{RouterBackend, Host, done}
use unetic_core.App.State.{App, Inner, default_timing}
use unetic_core.App.Timely.{IsSteady}
use unetic_core.Transaction.Context.{ChangeContext}

-- A router whose wireless devices show what they were staged, over a clock of milliseconds.
abbrev pub home : WifiNetworkConfig
home = record {
  ssid = "home";
  encryption = "psk2";
  key = some "passphrase";
  targets = "radio0" ∷ [];
}

abbrev pub office : WifiNetworkConfig
office = record home { ssid = "office" }

abbrev pub answer : {A : Type 0} → A → ℕ → Fallible A × ℕ
answer a clock = (ok a, clock + 1)

instance abbrev pub bench_router : RouterBackend ℕ
bench_router = record {
  create_session = answer "session";
  destroy_session = λ session. answer tt;
  read_wifi_configs =
      λ targets session. answer (collect (λ t. record office { targets = t ∷ [] }) targets);
  stage_wifi_config = λ session targets config roaming is_extender. answer tt;
  read_roaming_config =
      λ targets session. answer (compile_applied_roaming default_roaming "office" "psk2" targets);
  read_roaming_runtime = λ targets ssid roaming clock.
      (record default_roaming_runtime { status = RoamingRuntimeStatus.ready }, clock);
  read_wan_config = λ session. answer default_wan;
  stage_wan_config = λ session wan. answer tt;
  read_wan_runtime_status = answer default_wan_public;
  revert_staged = λ session. answer tt;
  apply = λ session timeout. answer tt;
  confirm = λ session. answer tt;
  rollback = λ session. answer tt;
  runtime_healthy = λ targets ssid. answer true;
  reload_wireless_runtime = answer tt;
}

instance abbrev pub bench_host : Host ℕ
bench_host = record {
  instant = λ clock. clock;
  now_ms = λ clock. clock;
  sleep = λ d clock. clock + d;
  write_file = λ name clock. (done, clock + 5);
  remove_file = λ name clock. (done, clock + 5);
  spawn = λ name clock. (none, clock);
  show = λ n. "";
}

pub bench_IsSteady : IsSteady bench_router bench_host
bench_IsSteady = record {
  sleep = λ d w. omega arith;
  write_file = λ _ w. omega arith;
  remove_file = λ _ w. omega arith;
  create_session = λ w. omega arith;
  destroy_session = λ _ w. omega arith;
  read_wifi_configs = λ _ _ w. omega arith;
  stage_wifi_config = λ _ _ _ _ _ w. omega arith;
  read_roaming_config = λ _ _ w. omega arith;
  read_roaming_runtime = λ _ _ _ w. omega arith;
  read_wan_runtime_status = λ w. omega arith;
  read_wan_config = λ _ w. omega arith;
  stage_wan_config = λ _ _ w. omega arith;
  revert_staged = λ _ w. omega arith;
  apply = λ _ _ w. omega arith;
  confirm = λ _ w. omega arith;
  rollback = λ _ w. omega arith;
  reload_wireless_runtime = λ w. omega arith;
  runtime_healthy = λ _ _ w. omega arith;
}

abbrev pub bench_inner : Inner
bench_inner = record {
  config = new_config home default_wan;
  lifecycle = ready;
  maintenance = false;
  maintenance_exiting = false;
  maintenance_reason = none;
  observed_configs = [];
  observed_roaming = none;
  roaming_runtime = default_roaming_runtime;
  runtime_healthy = true;
  wan = default_wan_public;
  active_operation = none;
  last_user_operation = none;
  last_system_error = none;
  event_seq = 0;
  boot_id = "boot";
  health = record { core = "ok"; ubus = "ok"; rpcd = "ok"; wireless = "ok"; wan = "ok" };
  devices = [];
  repair_failures = 0;
  extender_ports = [];
  extender_clients = [];
  latest_scans = [];
  pending_extenders = [];
  approved_pairings = [];
  extender_pairing_key = "key";
}

abbrev pub bench_app : App ℕ
bench_app = record {
  inner = bench_inner;
  store = record {
    config = some (new_config home default_wan);
    transaction = none;
    devices = none;
  };
  events = [];
  state_updates = record { pending = none; last_sent_at = none };
  op_counter = 0;
  timing = default_timing;
  device_refreshing = false;
  world = 0;
}

abbrev pub to_office : ChangeContext
to_office = record {
  operation_id = "op-1";
  request_id = some "request-1";
  source = user;
  base_revision = 1;
  target_revision = 2;
  old_wifi = home;
  new_wifi = office;
  old_roaming = default_roaming;
  new_roaming = default_roaming;
  targets = "radio0" ∷ [];
  backhaul = none;
  radio_channels = [];
}

abbrev pub office_request : SetWifiConfigRequest
office_request = record {
  ssid = "office";
  encryption = "psk2";
  key = some "passphrase";
  roaming = none;
  backhaul = none;
  radio_channels = [];
  expected_revision = 1;
  request_id = "request-1";
}
