-- ===== src/Tests/Requests.antt =====
-- The theorems on `set_wan` and `ddns_set` at a small router.
use unetic_core.Prelude.{
  ◌↔◌, none, true, some, ℕ, ◌≡◌, refl, ap, true, ok, String-discrete, byte_len, ℕ_discrete,
  is_blank,
}
use unetic_core.Domain.Wan.{SetWanRequest, default_wan, WanDesired-discrete, WanProtocol-discrete}
use unetic_core.Domain.Operation.{OperationAccepted, TransactionJournal}
use unetic_core.Domain.Config.{Lifecycle-discrete}
use unetic_core.Wan.Validation.{validate_wan_desired, validate_servers}
use unetic_core.Wan.Normalization.{normalize_wan_desired}
use unetic_core.App.Store.{settle, persist_transaction}
use unetic_core.App.State.{App}
use unetic_core.App.Monad.{returns, ◌>>=◌}
use unetic_core.App.Publisher.{publish}
use unetic_core.Requests.Admission.{change, check_app_ready}
use unetic_core.Requests.WanAdmission.{
  admit_wan, admit_normalized, validate_set_wan, normalized, check_wan_idempotency,
  check_wan_revision, decide_wan, build_wan_change_context,
}
use unetic_core.Requests.WanSafety.{IsWanStart, admit_wan-IsWanStart}
use unetic_core.Requests.Wifi.{accept, next_operation_id}
use unetic_core.Requests.Wan.{
  spawn_wan_worker, start_wan_worker, persist_and_spawn_wan_change, admit_wan_change, admitted_wan,
  set_wan,
}
use unetic_core.Requests.WanRetry.{set_wan-set_wan}
use unetic_core.Requests.Journal.{RecordsWan, set_wan-WanRecorded}
use unetic_core.Domain.Services.{DdnsConfig, DdnsProvider}
use unetic_core.Services.Ddns.{validate_ddns_config, ddns_set}
use unetic_core.Services.DdnsLaws.{
  IsComplete, IsApplied, validate_ddns_config_iff, ddns_set-IsApplied,
}
use unetic_core.Tests.Bench.{bench_router, bench_host, bench_inner, bench_app}

abbrev uplink : SetWanRequest
uplink = record {
  wan = record default_wan { present = true };
  expected_revision = 1;
  request_id = "request-2";
}

uplink_admitted : admit_wan uplink bench_inner ≡ ok change
unfolding admit_wan admit_normalized validate_set_wan is_blank byte_len validate_wan_desired
    check_app_ready Lifecycle-discrete check_wan_idempotency decide_wan check_wan_revision
    normalized normalize_wan_desired WanDesired-discrete String-discrete ℕ_discrete validate_servers
    WanProtocol-discrete
uplink_admitted = refl

admit_wan-IsWanStart_example : IsWanStart uplink bench_inner
admit_wan-IsWanStart_example = admit_wan-IsWanStart uplink bench_inner uplink_admitted

uplink_answered : (set_wan uplink bench_app).0 ≡ returns (accept "op--")
unfolding set_wan admitted_wan admit_wan_change next_operation_id persist_and_spawn_wan_change
    start_wan_worker spawn_wan_worker persist_transaction settle publish ◌>>=◌
    build_wan_change_context
uplink_answered = ap (λ r. (admitted_wan (normalized uplink) r bench_app).0) uplink_admitted

abbrev after_uplink : App ℕ
after_uplink = (set_wan uplink bench_app).1

set_wan-set_wan_example :
    (b : OperationAccepted) × (set_wan uplink after_uplink ≡ (returns b, after_uplink))
    × (b.operation_id ≡ "op--")
set_wan-set_wan_example =
    set_wan-set_wan uplink bench_app after_uplink (accept "op--")
      (ap (λ r. (r, after_uplink)) uplink_answered)

set_wan-WanRecorded_example :
    (journal : TransactionJournal) × (after_uplink.store.transaction ≡ some journal)
    × RecordsWan bench_inner uplink "op--" journal
set_wan-WanRecorded_example =
    set_wan-WanRecorded uplink bench_app after_uplink (accept "op--") uplink_admitted
      (ap (λ r. (r, after_uplink)) uplink_answered)

abbrev duck : DdnsConfig
duck = record {
  enabled = true;
  provider = DdnsProvider.duck_dns;
  cloudflare = none;
  duckdns = some (record { token = "token"; domain = "home" });
}

validate_ddns_config_iff_example :
    (validate_ddns_config duck ≡ ok tt) ↔ (duck.enabled ≡ true → IsComplete duck.provider duck)
validate_ddns_config_iff_example = validate_ddns_config_iff duck

ddns_set-IsApplied_example : IsApplied duck bench_app (ddns_set duck bench_app)
ddns_set-IsApplied_example = ddns_set-IsApplied duck bench_app
