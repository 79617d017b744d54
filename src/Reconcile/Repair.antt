-- ===== src/Reconcile/Repair.antt =====
-- The rest of `reconcile_once`, and the workers that it starts: `spawn_repair_task`,
-- `run_runtime_repair` and `repair_runtime` of src/application/app/reconcile.rs.
use unetic_core.Prelude.{
  ℕ, zero, suc, ◌+◌, Bool, true, false, Option, none, some, List, String, ◌==◌, if◌then◌else◌, ltb,
  leb, to_option, ok, err,
}
use unetic_core.Domain.Errors.{
  LegacyAppError, new_error, retryable, ErrorStage, reconcile_failed, Fallible,
}
use unetic_core.Domain.Wan.{WanDesired}
use unetic_core.Domain.Config.{ready, degraded, lifecycle_eq}
use unetic_core.Platform.{RouterBackend, Host}
use unetic_core.App.State.{App, Inner, StateTopic}
use unetic_core.App.Monad.{
  Action, ◌>>=◌, ◌>>◌, pure, raise, hang, gets, call, try, host_call, modify_inner,
}
use unetic_core.App.Publisher.{publish}
use unetic_core.App.Observation.{refresh_observed}
use unetic_core.App.WifiOperations.{next_failure}
use unetic_core.Requests.Wifi.{next_id, count_id}
use unetic_core.Transaction.Wifi.{run_change}
use unetic_core.Transaction.Wan.{run_wan_change}
use unetic_core.Reconcile.Round.{
  Repair, wan_config, runtime, Decision, should_skip_reconcile, evaluate_reconcile_state,
}

abbrev pub spawn_failed : String → LegacyAppError
spawn_failed message = retryable (new_error reconcile_failed ErrorStage.reconcile message) true

abbrev pub not_recovered : LegacyAppError
not_recovered =
    retryable
      (new_error reconcile_failed ErrorStage.reconcile
        "wireless runtime did not recover after reload")
      true

-- three failed repairs in a row degrade the core
unfoldable pub give_up : Inner → Inner
give_up inner =
    if leb 3 inner.repair_failures
    then record inner { lifecycle = degraded; health = record inner.health { core = "error" } }
    else inner

unfoldable pub note_spawn_error : String → Inner → Inner
unfolding give_up
note_spawn_error message inner = give_up (record inner {
  active_operation = none;
  repair_failures = next_failure inner.repair_failures;
  last_system_error = some (spawn_failed message);
})

-- the state after a repair of the runtime, from its outcome
unfoldable pub note_runtime : Fallible (Unit {0}) → Inner → Inner
unfolding give_up
note_runtime (err error) inner =
    let settled = give_up (record inner {
      active_operation = none;
      repair_failures = next_failure inner.repair_failures;
      last_system_error = some error;
    }) in
    record settled { health = record settled.health { wireless = "error" } }
note_runtime (ok _) inner = record inner {
  active_operation = none;
  repair_failures = 0;
  lifecycle = if inner.lifecycle == degraded then ready else inner.lifecycle;
  health = record inner.health { core = "ok"; wireless = "ok" };
  runtime_healthy = true;
  last_system_error = none;
}

-- `successful_samples` after one more sample
unfoldable pub next_samples : Fallible Bool → ℕ → ℕ
next_samples (ok true) samples = next_failure samples
next_samples (ok false) samples = 0
next_samples (err error) samples = 0

module _ {W : Type 0} ⦃backend : RouterBackend W⦄ ⦃host : Host W⦄ where
  unfoldable pub repair_loop : List String → String → ℕ → ℕ → ℕ → Action W (Unit {0})
  repair_loop targets ssid zero deadline samples s = hang s
  repair_loop targets ssid (suc rounds) deadline samples s =
      let next : Action W (Unit {0}) = do
        healthy ← try (call (backend.runtime_healthy targets ssid))
        let samples' = next_samples healthy samples
        (if leb 2 samples' then (do refresh_observed; pure tt) else (do
          delay ← gets (λ s. s.timing.verify_sample_delay)
          host_call (λ w. (tt {0}, host.sleep delay w))
          repair_loop targets ssid rounds deadline samples'))
      in (if ltb (host.instant s.world) deadline then next else raise not_recovered) s

  -- a round sleeps for a millisecond at least, so one round more than the timeout has is enough
  unfoldable pub await_runtime : List String → String → ℕ → Action W (Unit {0})
  await_runtime targets ssid timeout s =
      repair_loop targets ssid (suc timeout) (host.instant s.world + timeout) 0 s

  unfoldable pub repair_runtime : List String → String → Action W (Unit {0})
  unfolding await_runtime
  repair_runtime targets ssid = do
    call backend.reload_wireless_runtime
    timeout ← gets (λ s. s.timing.rollback_verify_timeout)
    await_runtime targets ssid timeout

  unfoldable pub run_runtime_repair : List String → String → Action W (Unit {0})
  unfolding note_runtime
  run_runtime_repair targets ssid = do
    outcome ← try (repair_runtime targets ssid)
    modify_inner (note_runtime outcome)
    publish StateTopic.reconciliation
    pure tt

  unfoldable pub handle_reconcile_spawn_error : String → Action W (Unit {0})
  unfolding note_spawn_error
  handle_reconcile_spawn_error message = do
    modify_inner (note_spawn_error message)
    publish StateTopic.reconciliation
    pure tt

  unfoldable pub spawn_or_note : String → String → Action W (Unit {0})
  spawn_or_note name message = do
    failure ← host_call (host.spawn name)
    elim failure [ none ↦ pure tt | some _ ↦ handle_reconcile_spawn_error message ]

  -- The worker that is started runs `run_change`, `run_wan_change` or `run_runtime_repair` later. That
  -- the thread of a runtime repair could not be started is not looked at.
  unfoldable pub spawn_repair_task : Repair → Action W (Unit {0})
  unfolding spawn_or_note
  spawn_repair_task (Repair.config context) =
      spawn_or_note "unetic-reconcile" "failed to start reconciliation worker"
  spawn_repair_task (wan_config context) =
      spawn_or_note "unetic-reconcile-wan" "failed to start WAN reconciliation worker"
  spawn_repair_task (runtime targets ssid) = do host_call (host.spawn "unetic-repair"); pure tt

  unfoldable pub act_on : Option Repair → Bool → Action W (Unit {0})
  act_on (some repair) publishes = do publish StateTopic.reconciliation; spawn_repair_task repair
  act_on none true = do publish StateTopic.reconciliation; pure tt
  act_on none false = pure tt

  -- `app.next_operation_id()` is called only where an operation starts
  abbrev pub count_if : Option Repair → App W → App W
  count_if none s = s
  count_if (some repair) s = count_id s

  unfoldable pub take_decision : Decision → Action W (Unit {0})
  unfolding act_on
  take_decision decision s =
      act_on decision.repair decision.publishes
        (record (count_if decision.repair s) { inner = decision.inner })

  unfoldable pub decide_round : Option WanDesired → Bool → Action W (Unit {0})
  unfolding take_decision
  decide_round observed_wan changed s =
      if should_skip_reconcile s.inner
      then act_on none changed s
      else take_decision (evaluate_reconcile_state s.inner (next_id s) observed_wan changed) s

  unfoldable pub reconcile_once : Action W (Unit {0})
  reconcile_once = do
    changed ← refresh_observed
    observed ← try (call (backend.read_wan_config none))
    decide_round (to_option observed) changed

  -- what the thread of a repair runs
  unfoldable pub repair_worker : Repair → Action W (Unit {0})
  unfolding run_runtime_repair
  repair_worker (Repair.config context) = run_change context
  repair_worker (wan_config context) = run_wan_change context
  repair_worker (runtime targets ssid) = run_runtime_repair targets ssid
