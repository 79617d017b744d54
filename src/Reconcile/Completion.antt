-- ===== src/Reconcile/Completion.antt =====
-- A repair comes to an end, and changes the router and not what is desired.
use unetic_core.Prelude.{
  subst, ◌≡◌, ◌≤◌, ◌⊎◌, inl, inr, ◌∙◌, sym, arith, some, none, Option, Bool, String,
}
use unetic_core.Domain.Wan.{WanDesired}
use unetic_core.Domain.Config.{DesiredConfig}
use unetic_core.Platform.{RouterBackend, Host}
use unetic_core.App.State.{App, Inner}
use unetic_core.App.Monad.{returns}
use unetic_core.App.Timely.{IsSteady}
use unetic_core.App.WifiOperations.{with_new_wifi}
use unetic_core.App.WanOperations.{with_new_wan}
use unetic_core.Transaction.Outcome.{OldOrNew, settled}
use unetic_core.Transaction.Completion.{run_change-Concludes}
use unetic_core.Transaction.Wan.Completion.{run_wan_change-Concludes}
use unetic_core.Reconcile.Round.{
  Repair, wan_config, runtime, build_wifi_reconcile_context, build_wan_reconcile_context,
  evaluate_reconcile_state,
}
use unetic_core.Reconcile.Repair.{repair_worker}
use unetic_core.Reconcile.Decision.{evaluate_reconcile_state-first}
use unetic_core.Reconcile.RuntimeRepair.{Timely-run_runtime_repair, run_runtime_repair-idle}

-- a repair that a round can start for a configuration
abbrev IsFor : DesiredConfig → Repair → Type 0
IsFor config (Repair.config context) = with_new_wifi context config ≡ config
IsFor config (wan_config context) = with_new_wan context config ≡ config
IsFor config (runtime targets ssid) = Unit

reconcile-IsFor :
    (inner : Inner) (id : String)
    → with_new_wifi (build_wifi_reconcile_context inner id) inner.config ≡ inner.config
unfolding with_new_wifi build_wifi_reconcile_context
reconcile-IsFor inner id = ground arith

wan_reconcile-IsFor :
    (inner : Inner) (id : String)
    → with_new_wan (build_wan_reconcile_context inner id) inner.config ≡ inner.config
unfolding with_new_wan build_wan_reconcile_context
wan_reconcile-IsFor inner id = ground arith

same : {old new c : DesiredConfig} → new ≡ old → OldOrNew old new c → c ≡ old
same e (inl p) = p
same e (inr p) = p ∙ e

some_inj : {p q : Repair} → ◌≡◌ {A = Option Repair} (some p) (some q) → p ≡ q
some_inj h = cc

started-IsFor :
    (inner : Inner) (id : String) (repair : Repair)
    → (Repair.config (build_wifi_reconcile_context inner id) ≡ repair)
      ⊎ (wan_config (build_wan_reconcile_context inner id) ≡ repair)
      ⊎ (runtime inner.config.wifi.primary.targets inner.config.wifi.primary.ssid ≡ repair)
    → IsFor inner.config repair
started-IsFor inner id repair (inl e) = subst (IsFor inner.config) e (reconcile-IsFor inner id)
started-IsFor inner id repair (inr (inl e)) =
    subst (IsFor inner.config) e (wan_reconcile-IsFor inner id)
started-IsFor inner id repair (inr (inr e)) = subst (IsFor inner.config) e tt

module _ {W : Type 0} ⦃host : Host W⦄ ⦃backend : RouterBackend W⦄
    (steady : IsSteady backend host) where
  repair_worker-idle :
      (repair : Repair) (s : App W)
      → 1 ≤ s.timing.verify_sample_delay
      → IsFor s.inner.config repair
      → (t : App W) × (repair_worker repair s ≡ (returns tt, t))
        × (t.inner.active_operation ≡ none)
        × (t.inner.config ≡ s.inner.config)
  unfolding repair_worker
  repair_worker-idle (Repair.config context) s d e =
      let (t, p, c) = run_change-Concludes steady context s d in (t, p, c.idle, same e c.config)
  repair_worker-idle (wan_config context) s d e =
      let (t, p, c) = run_wan_change-Concludes steady context s d in (t, p, c.idle, same e c.config)
  repair_worker-idle (runtime targets ssid) s d e =
      let (t, p, c) =
        settled _ ((Timely-run_runtime_repair targets ssid steady).at s d).1
          (run_runtime_repair-idle targets ssid s) in
      (t, p, c.0, c.1)

  -- A repair that a round has started, carried out by its worker over a clock that does not run back and
  -- with a delay between samples that is not zero, while the desired configuration is the one that the
  -- round found: the worker returns, the core is then idle, and the desired configuration is still that
  -- one, whatever the router and the files answer.
  pub evaluate_reconcile_state-repair_worker :
      (inner : Inner) (op_id : String) (wan : Option WanDesired) (changed : Bool) (repair : Repair)
      (s : App W)
      → inner.active_operation ≡ none
      → (evaluate_reconcile_state inner op_id wan changed).repair ≡ some repair
      → s.inner.config ≡ inner.config
      → 1 ≤ s.timing.verify_sample_delay
      → (t : App W) × (repair_worker repair s ≡ (returns tt, t))
        × (t.inner.active_operation ≡ none)
        × (t.inner.config ≡ s.inner.config)
  evaluate_reconcile_state-repair_worker inner op_id wan changed repair s idle started found d =
      let first = evaluate_reconcile_state-first inner op_id wan changed idle in
      repair_worker-idle repair s d (
        subst (λ config. IsFor config repair) (sym found)
          (started-IsFor inner op_id repair (elim first [
            | inl e ↦ absurd (let c = sym e ∙ started in cc)
            | inr (inl e) ↦ inl (some_inj (sym e.1 ∙ started))
            | inr (inr (inl e)) ↦ inr (inl (some_inj (sym e.2 ∙ started)))
            | inr (inr (inr e)) ↦ inr (inr (some_inj (sym e.2 ∙ started)))
          ])))
