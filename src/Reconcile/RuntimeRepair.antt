-- ===== src/Reconcile/RuntimeRepair.antt =====
-- A repair of the wireless runtime comes to an end, and leaves the desired state alone.
use unetic_core.Prelude.{
  ℕ, zero, suc, ◌+◌, ◌≤◌, ◌<◌, ◌≡◌, ◌∙◌, refl, List, String, Bool, ok, err, arith, ltb, leb, none,
}
use unetic_core.Domain.Errors.{Fallible}
use unetic_core.Platform.{RouterBackend, Host}
use unetic_core.App.State.{App, Inner, StateTopic}
use unetic_core.App.Monad.{try, call}
use unetic_core.App.Quiet.{
  Quietly, Quietly-pure, Quietly-raise, Quietly-hang, Quietly-gets, Quietly-host_call, Quietly-try,
  Quietly-if, Quietly-bind, Quietly-call, quiet_rules, Quietly-refresh_observed, Quietly-publish,
}
use unetic_core.App.Ends.{Ends, Ends-try, Ends-Quiet, Ends-modify, Returns-publish}
use unetic_core.App.Timely.{
  ltb-lt, Runs-if, Runs-gets, Runs-sleep, IsSteady, Ahead-refl, still_delayed, Runs, Timely,
  Runs-bind, Timely-pure, Timely-call, Timely-try, Timely-bind, timely_rules,
}
use unetic_core.Transaction.Marks.{Timely-refresh_observed, Timely-publish}
use unetic_core.Reconcile.Repair.{
  next_samples, repair_loop, await_runtime, repair_runtime, note_runtime, run_runtime_repair,
  give_up,
}

note_runtime-idle :
    (outcome : Fallible (Unit {0})) (inner : Inner)
    → ((note_runtime outcome inner).active_operation ≡ none)
      × ((note_runtime outcome inner).config ≡ inner.config)
unfolding note_runtime give_up
note_runtime-idle (ok _) inner = (refl, refl)
note_runtime-idle (err error) inner = (ground arith, ground arith)

module _ {W : Type 0} ⦃backend : RouterBackend W⦄ ⦃host : Host W⦄ (targets : List String)
    (ssid : String) where
  Quietly-repair_loop :
      (rounds deadline samples : ℕ)
      → Quietly {W = W} (repair_loop targets ssid rounds deadline samples)
  unfolding repair_loop
  Quietly-repair_loop zero deadline samples = Quietly-hang
  Quietly-repair_loop (suc rounds) deadline samples =
      let body = λ (healthy : Fallible Bool).
        Quietly-if (leb 2 (next_samples healthy samples)) _ _
          (Quietly-bind _ _ Quietly-refresh_observed λ _. Quietly-pure tt)
          (Quietly-bind _ _ (Quietly-gets _) λ delay.
            Quietly-bind _ _ (Quietly-host_call (λ w. (tt {0}, host.sleep delay w)))
              λ _. Quietly-repair_loop rounds deadline (next_samples healthy samples)) in
      record {
        at = λ s.
            (Quietly-if (ltb (host.instant s.world) deadline) _ _
                (Quietly-bind _ _ (Quietly-try _ (Quietly-call _)) body) (Quietly-raise _)).at
              s;
      }

  Quietly-await_runtime : (timeout : ℕ) → Quietly {W = W} (await_runtime targets ssid timeout)
  unfolding await_runtime
  Quietly-await_runtime timeout = record { at = λ s. (Quietly-repair_loop (suc timeout) _ 0).at s }

  Quietly-repair_runtime : Quietly {W = W} (repair_runtime targets ssid)
  unfolding repair_runtime
  Quietly-repair_runtime = search (quiet_rules, Quietly-await_runtime)

  module _ (steady : IsSteady backend host) where
    Timely-sample : Timely {W = W} (try (call (backend.runtime_healthy targets ssid)))
    Timely-sample = Timely-try _ (Timely-call _ (steady.runtime_healthy targets ssid))

    Runs-repair_loop :
        (rounds deadline samples : ℕ) (s : App W)
        → 1 ≤ rounds
        → deadline < rounds + host.instant s.world
        → 1 ≤ s.timing.verify_sample_delay
        → Runs (repair_loop targets ssid rounds deadline samples) s
    unfolding repair_loop
    Runs-repair_loop zero deadline samples s r l d = absurd (omega arith)
    Runs-repair_loop (suc rounds) deadline samples s r l d =
        Runs-if (ltb (host.instant s.world) deadline) _ _ s
          (λ early. Runs-bind _ _ s (Timely-sample.at s d) λ healthy t q.
            Runs-if (leb 2 (next_samples healthy samples)) _ _ t
              (λ _.
                (Timely-bind _ _ (Timely-refresh_observed steady) (λ _. Timely-pure tt)).at t
                  (still_delayed q d))
              λ _. Runs-gets _ _ t (
                Runs-sleep steady t.timing.verify_sample_delay _ t (
                  Runs-repair_loop rounds deadline _ _ (omega (arith, ltb-lt _ _ early))
                    (omega (
                      arith,
                      ltb-lt _ _ early,
                      q.instant,
                      still_delayed q d,
                      steady.sleep t.timing.verify_sample_delay t.world,
                    ))
                    (still_delayed q d))))
          (λ _. (Ahead-refl s, tt))

    Timely-await_runtime : (timeout : ℕ) → Timely {W = W} (await_runtime targets ssid timeout)
    unfolding await_runtime
    Timely-await_runtime timeout = record {
      at = λ s d. Runs-repair_loop (suc timeout) _ 0 s (omega arith) (omega arith) d;
    }

    pub Timely-run_runtime_repair : Timely {W = W} (run_runtime_repair targets ssid)
    unfolding run_runtime_repair repair_runtime
    Timely-run_runtime_repair =
        search (timely_rules, Timely-await_runtime, Timely-publish, steady.reload_wireless_runtime)
          depth 12

  -- it ends idle, with the desired configuration as it was
  pub run_runtime_repair-idle :
      (s : App W)
      → Ends
          (λ t. (t.inner.active_operation ≡ none) × (t.inner.config ≡ s.inner.config))
          (run_runtime_repair targets ssid s)
  unfolding run_runtime_repair
  run_runtime_repair-idle s =
      let goal : App W → Type 0 =
        λ t. (t.inner.active_operation ≡ none) × (t.inner.config ≡ s.inner.config) in
      Ends-try goal _ _ s Quietly-repair_runtime λ outcome t q. Ends-modify goal _ _ t (
        let (idle, same) = note_runtime-idle outcome t.inner in
        Ends-Quiet goal _ _ _ (Returns-publish StateTopic.reconciliation)
          (Quietly-publish StateTopic.reconciliation)
          λ _ u p. (p.idle idle, p.config ∙ same ∙ q.config))
