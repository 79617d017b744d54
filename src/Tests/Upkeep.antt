-- ===== src/Tests/Upkeep.antt =====
-- The theorems on recovery, reconciliation and the end of maintenance, at a small router.
use unetic_core.Prelude.{get, [], ◌∷◌, ◌≡◌, inl, refl, arith, false, none, some, ℕ, all}
use unetic_core.Domain.Errors.{Fallible, new_error, ErrorCode, ErrorStage, LegacyAppError}
use unetic_core.Domain.Roaming.{default_roaming}
use unetic_core.Domain.Operation.{accepted, LastOperation, OperationSource, OperationStatus}
use unetic_core.App.State.{App, Inner}
use unetic_core.App.Monad.{returns, try}
use unetic_core.Transaction.Context.{to_journal}
use unetic_core.Transaction.Sync.{force_wan_state_sync}
use unetic_core.Transaction.Verify.{all_equal_config, all_match}
use unetic_core.Requests.Admission.{build_wifi_change_context}
use unetic_core.Recovery.Journal.{recover_from_journal}
use unetic_core.Recovery.Restart.{Restarts, recover_from_journal-Restarts}
use unetic_core.Reconcile.Round.{
  Repair, runtime, build_wifi_reconcile_context, evaluate_reconcile_state, config_drift,
}
use unetic_core.Reconcile.Repair.{spawn_repair_task, repair_worker}
use unetic_core.Reconcile.Start.{Abandons, spawn_repair_task-Abandons}
use unetic_core.Platform.{Host}
use unetic_core.Reconcile.Completion.{evaluate_reconcile_state-repair_worker}
use unetic_core.Reconcile.MaintenanceExit.{sync_if_managed, run_maintenance_exit}
use unetic_core.Reconcile.MaintenanceEnd.{HasEnded, run_maintenance_exit-HasEnded}
use unetic_core.Tests.Bench.{
  bench_router, bench_host, bench_IsSteady, bench_inner, bench_app, office_request,
}

recover_from_journal-Restarts_example :
    Restarts
      (build_wifi_change_context bench_inner "op-1" office_request default_roaming)
      bench_inner.config
      bench_app
      (recover_from_journal
        (to_journal
          (build_wifi_change_context bench_inner "op-1" office_request default_roaming)
          accepted)
        bench_app)
recover_from_journal-Restarts_example =
    recover_from_journal-Restarts bench_IsSteady bench_inner "op-1" office_request default_roaming
      bench_app (omega arith) (inl refl) refl refl

abbrev failing : Inner
failing = record bench_inner { repair_failures = 2 }

abbrev lost : LegacyAppError
lost = new_error ErrorCode.ubus_unavailable ErrorStage.transport "ubus"

abbrev last : LastOperation
last = record {
  id = "op-2";
  request_id = none;
  source = OperationSource.reconcile;
  kind = "wifi.set_config";
  status = OperationStatus.failed;
  revision = 1;
  requested_ssid = "home";
  intent = none;
  error = some lost;
  finished_at_ms = 10;
}

abbrev repair : Repair
repair = Repair.config (build_wifi_reconcile_context bench_inner "op-2")

repair_started : (evaluate_reconcile_state bench_inner "op-2" none false).repair ≡ some repair
unfolding evaluate_reconcile_state config_drift all_equal_config all_match all get
repair_started = refl

evaluate_reconcile_state-repair_worker_example :
    (t : App ℕ) × (repair_worker repair bench_app ≡ (returns tt, t))
    × (t.inner.active_operation ≡ none)
    × (t.inner.config ≡ bench_inner.config)
evaluate_reconcile_state-repair_worker_example =
    evaluate_reconcile_state-repair_worker bench_IsSteady bench_inner "op-2" none false repair
      bench_app refl repair_started refl (omega arith)

run_maintenance_exit-HasEnded_example :
    (sync wan : Fallible (Unit {0})) × (u v t : App ℕ) × (sync_if_managed bench_app
      ≡ (returns sync, u))
    × (try (force_wan_state_sync u.inner.config.wan) u ≡ (returns wan, v))
    × (run_maintenance_exit bench_app ≡ (returns tt, t))
    × HasEnded sync wan t.inner
    × (t.inner.maintenance_exiting ≡ false)
    × (t.inner.config ≡ bench_inner.config)
run_maintenance_exit-HasEnded_example =
    run_maintenance_exit-HasEnded bench_IsSteady bench_app (omega arith)

-- a host that can start no thread
abbrev full_host : Host ℕ
full_host = record bench_host { spawn = λ name clock. (some "no more threads", clock) }

spawn_repair_task-Abandons_example :
    Abandons
      (runtime ("radio0" ∷ []) "home")
      bench_inner
      (spawn_repair_task ⦃host = full_host⦄ (runtime ("radio0" ∷ []) "home") bench_app).1.inner
spawn_repair_task-Abandons_example =
    spawn_repair_task-Abandons ⦃host = full_host⦄ (runtime ("radio0" ∷ []) "home") "no more threads"
      bench_app refl
