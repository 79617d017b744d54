-- ===== src/Tests/Core.antt =====
-- The theorems on the running core, at a small router.
use unetic_core.Prelude.{
  ℕ, ◌≡◌, ◌≢◌, ◌↔◌, refl, ap, true, false, String-discrete, byte_len, contains_nul, ℕ_discrete,
  is_blank, none, some, String, List, [], ◌∷◌, ok, arith,
}
use unetic_core.Domain.Wifi.{MeshBackhaulConfig, RadioChannelConfig}
use unetic_core.Domain.Operation.{OperationAccepted, TransactionJournal}
use unetic_core.Domain.Config.{Lifecycle-discrete}
use unetic_core.App.Store.{settle, persist_transaction}
use unetic_core.App.State.{App, StateTopic}
use unetic_core.App.Monad.{returns, hangs, ◌>>=◌}
use unetic_core.App.Publisher.{publish, snapshot, flush_state_update}
use unetic_core.App.Delivery.{
  IsSequenced, publish-IsSequenced, Delivers, flush_state_update-publish,
}
use unetic_core.App.Maintenance.{maintenance_get, maintenance_enter, maintenance_exit}
use unetic_core.App.Mutex.{free}
use unetic_core.App.MaintenanceLaws.{ComesBack, maintenance_exit-hangs}
use unetic_core.Transaction.Wifi.{run_change}
use unetic_core.Transaction.Conclusion.{wifi_subject}
use unetic_core.Transaction.Outcome.{IsConcluded}
use unetic_core.App.WifiOperations.{with_new_wifi}
use unetic_core.Transaction.Completion.{run_change-Concludes}
use unetic_core.Domain.Wan.{default_wan}
use unetic_core.Domain.Operation.{user}
use unetic_core.App.WanOperations.{with_new_wan}
use unetic_core.Transaction.Context.{WanChangeContext}
use unetic_core.Transaction.Wan.{run_wan_change}
use unetic_core.Transaction.Wan.Conclusion.{wan_subject}
use unetic_core.Transaction.Wan.Completion.{run_wan_change-Concludes}
use unetic_core.Requests.WifiValidation.{
  validate_ssid, validate_key, validate_wifi_config, validate_mesh_backhaul_config,
}
use unetic_core.Requests.WifiAcceptance.{
  IsSsid, IsKey, validate_wifi_config_iff, IsDedicated, validate_mesh_backhaul_config_iff,
}
use unetic_core.Requests.Admission.{
  change, admit_wifi, validate_wifi_request, validate_request_id, check_app_ready,
  check_idempotency, decide, check_revision, is_wifi_noop, build_wifi_change_context,
}
use unetic_core.Requests.Safety.{IsStart, admit_wifi-IsStart}
use unetic_core.Requests.Wifi.{
  accept, next_operation_id, spawn_worker, start_worker, persist_and_spawn_wifi_change,
  admit_change, admitted, set_wifi_config,
}
use unetic_core.Requests.Retry.{set_wifi_config-set_wifi_config}
use unetic_core.Requests.Journal.{RecordsWifi, set_wifi_config-WifiRecorded}
use unetic_core.Tests.Bench.{
  bench_router, bench_host, bench_IsSteady, bench_inner, bench_app, to_office, office_request,
}

run_change-Concludes_example :
    (t : App ℕ) × (run_change to_office bench_app ≡ (returns tt, t))
    × IsConcluded
        (wifi_subject to_office)
        bench_inner.config
        (with_new_wifi to_office bench_inner.config)
        t
run_change-Concludes_example = run_change-Concludes bench_IsSteady to_office bench_app (omega arith)

abbrev to_dhcp : WanChangeContext
to_dhcp = record {
  operation_id = "op-2";
  request_id = some "request-2";
  source = user;
  base_revision = 1;
  target_revision = 2;
  old_wan = default_wan;
  new_wan = record default_wan { present = true };
}

run_wan_change-Concludes_example :
    (t : App ℕ) × (run_wan_change to_dhcp bench_app ≡ (returns tt, t))
    × IsConcluded
        (wan_subject to_dhcp)
        bench_inner.config
        (with_new_wan to_dhcp bench_inner.config)
        t
run_wan_change-Concludes_example =
    run_wan_change-Concludes bench_IsSteady to_dhcp bench_app (omega arith)

publish-IsSequenced_example :
    IsSequenced (publish StateTopic.wifi bench_app).1 × IsSequenced (flush_state_update bench_app)
publish-IsSequenced_example =
    publish-IsSequenced StateTopic.wifi bench_app (omega arith)
      (record { increasing = tt; numbered = tt })

flush_state_update-publish_example :
    Delivers (snapshot bench_inner) (flush_state_update (publish StateTopic.wifi bench_app).1)
flush_state_update-publish_example = flush_state_update-publish StateTopic.wifi bench_app

maintenance_exit-hangs_example :
    ComesBack (maintenance_get free bench_app)
    × ComesBack (maintenance_enter none free bench_app)
    × (ComesBack (maintenance_exit free bench_app) ↔ (bench_inner.maintenance ≡ true))
    × (((maintenance_exit free bench_app).0 ≡ hangs) ↔ (bench_inner.maintenance ≡ false))
maintenance_exit-hangs_example = maintenance_exit-hangs none bench_app

abbrev psk2 : String
psk2 = "psk2"

validate_wifi_config_iff_example :
    (validate_wifi_config "office" psk2 (some "passphrase") ≡ ok tt)
    ↔ (IsSsid "office" × (psk2 ≢ "none" → IsKey (some "passphrase")))
validate_wifi_config_iff_example = validate_wifi_config_iff "office" psk2 (some "passphrase")

abbrev dual : MeshBackhaulConfig
dual = record {
  enabled = true;
  backhaul_target = "radio1";
  client_target = "radio0";
  hidden = true;
}

abbrev radios : List String
radios = "radio0" ∷ "radio1" ∷ []

abbrev channels : List RadioChannelConfig
channels = record { target = "radio1"; channel = 36; band = none } ∷ []

validate_mesh_backhaul_config_iff_example :
    (validate_mesh_backhaul_config dual radios channels ≡ ok tt)
    ↔ (dual.enabled ≡ true → IsDedicated dual radios channels)
validate_mesh_backhaul_config_iff_example = validate_mesh_backhaul_config_iff dual radios channels

office_admitted : admit_wifi office_request bench_inner ≡ ok change
unfolding admit_wifi validate_wifi_request validate_wifi_config validate_ssid String-discrete
    byte_len contains_nul ℕ_discrete validate_key validate_request_id is_blank check_app_ready
    Lifecycle-discrete check_idempotency decide check_revision is_wifi_noop
office_admitted = refl

admit_wifi-IsStart_example : IsStart office_request bench_inner
admit_wifi-IsStart_example = admit_wifi-IsStart office_request bench_inner office_admitted

office_answered : (set_wifi_config office_request bench_app).0 ≡ returns (ok (accept "op--"))
unfolding set_wifi_config admitted admit_change next_operation_id persist_and_spawn_wifi_change
    start_worker spawn_worker persist_transaction settle publish ◌>>=◌ build_wifi_change_context
office_answered = ap (λ r. (admitted office_request r bench_app).0) office_admitted

abbrev after_office : App ℕ
after_office = (set_wifi_config office_request bench_app).1

set_wifi_config-set_wifi_config_example :
    (b : OperationAccepted) × (set_wifi_config office_request after_office
      ≡ (returns (ok b), after_office))
    × (b.operation_id ≡ "op--")
set_wifi_config-set_wifi_config_example =
    set_wifi_config-set_wifi_config office_request bench_app after_office (accept "op--")
      (ap (λ r. (r, after_office)) office_answered)

set_wifi_config-WifiRecorded_example :
    (journal : TransactionJournal) × (after_office.store.transaction ≡ some journal)
    × RecordsWifi bench_inner office_request "op--" journal
set_wifi_config-WifiRecorded_example =
    set_wifi_config-WifiRecorded office_request bench_app after_office (accept "op--")
      office_admitted (ap (λ r. (r, after_office)) office_answered)
