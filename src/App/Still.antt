-- ===== src/App/Still.antt =====
-- Actions that only look at the router or tell of the state: all that the core decides by stays as it
-- is, and so do its files.
use unetic_core.Prelude.{
  ◌≡◌, refl, ◌∙◌, arith, Bool, true, false, Option, List, String, Map, ok, err, if◌then◌else◌,
}
use unetic_core.Domain.Errors.{Fallible, LegacyAppError}
use unetic_core.Domain.Roaming.{RoamingConfig, AppliedRoamingConfig, RoamingRuntime}
use unetic_core.Domain.Wan.{WanPublicState}
use unetic_core.Domain.Wifi.{WifiNetworkConfig}
use unetic_core.Domain.Config.{HealthState}
use unetic_core.Platform.{RouterBackend, Host, Effect}
use unetic_core.App.State.{App, Inner, StateTopic}
use unetic_core.App.Monad.{
  Action, Outcome, returns, fails, hangs, ◌>>=◌, pure, gets, call, try, host_call, continue,
}
use unetic_core.App.Publisher.{publish, queue_state_update, send_pending_state}
use unetic_core.App.Observation.{note_wan, with_inner, observe_wifi, refresh_observed}

-- the part of the state that is not observed
pub record Same (p q : Inner) : Type 0 where
  pub config : q.config ≡ p.config
  pub lifecycle : q.lifecycle ≡ p.lifecycle
  pub maintenance : q.maintenance ≡ p.maintenance
  pub exiting : q.maintenance_exiting ≡ p.maintenance_exiting
  pub active : q.active_operation ≡ p.active_operation
  pub last : q.last_user_operation ≡ p.last_user_operation
  pub failures : q.repair_failures ≡ p.repair_failures

pub record Still {W : Type 0} (s t : App W) : Type 0 where
  pub store : t.store ≡ s.store
  pub inner : Same s.inner t.inner

pub Same-refl : (p : Inner) → Same p p
Same-refl p = record {
  config = refl;
  lifecycle = refl;
  maintenance = refl;
  exiting = refl;
  active = refl;
  last = refl;
  failures = refl;
}

observed-Same :
    (p : Inner) (configs : Map WifiNetworkConfig) (roaming : Option AppliedRoamingConfig)
    (runtime : RoamingRuntime) (healthy : Bool) (health : HealthState)
    (last : Option LegacyAppError) (wan : WanPublicState)
    → Same p (record p {
      observed_configs = configs;
      observed_roaming = roaming;
      roaming_runtime = runtime;
      runtime_healthy = healthy;
      health = health;
      last_system_error = last;
      wan = wan;
    })
observed-Same p configs roaming runtime healthy health last wan = record {
  config = refl;
  lifecycle = refl;
  maintenance = refl;
  exiting = refl;
  active = refl;
  last = refl;
  failures = refl;
}

Same-trans : {p q r : Inner} → Same p q → Same q r → Same p r
Same-trans f g = record {
  config = g.config ∙ f.config;
  lifecycle = g.lifecycle ∙ f.lifecycle;
  maintenance = g.maintenance ∙ f.maintenance;
  exiting = g.exiting ∙ f.exiting;
  active = g.active ∙ f.active;
  last = g.last ∙ f.last;
  failures = g.failures ∙ f.failures;
}

pub record Looks {W A : Type 0} (m : Action W A) : Type 0 where
  pub at : (s : App W) → Still s (m s).1

module _ {W : Type 0} where
  pub Still-refl : (s : App W) → Still s s
  Still-refl s = record { store = refl; inner = Same-refl s.inner }

  pub Still-trans : {s t u : App W} → Still s t → Still t u → Still s u
  Still-trans p q = record { store = q.store ∙ p.store; inner = Same-trans p.inner q.inner }

module _ {W A : Type 0} where
  pub Looks-pure : (a : A) → Looks {W = W} (pure a)
  Looks-pure a = record { at = Still-refl }

  Looks-gets : (f : App W → A) → Looks (gets f)
  Looks-gets f = record { at = Still-refl }

  looked : (f : Effect W A) (s : App W) → (try (call f) s).1.inner ≡ s.inner
  looked f s = ground arith

  pub Looks-try-call : (f : Effect W A) → Looks (try (call f))
  Looks-try-call f = record {
    at = λ s. record { store = ground arith; inner = rw (looked f s) (Same-refl s.inner) };
  }

  Looks-host_call : (f : W → A × W) → Looks (host_call f)
  Looks-host_call f = record { at = λ s. record { store = refl; inner = Same-refl s.inner } }

  Looks-if : (b : Bool) (m n : Action W A) → Looks m → Looks n → Looks (if b then m else n)
  Looks-if true m n p q = p
  Looks-if false m n p q = q

module _ {W A B : Type 0} where
  continue-Still :
      (s : App W) (r : Outcome A × App W) (f : A → Action W B)
      → Still s r.1
      → ((a : A) → Looks (f a))
      → Still s (continue r f).1
  continue-Still s (returns a, t) f q k = Still-trans q ((k a).at t)
  continue-Still s (fails e, t) f q k = q
  continue-Still s (hangs, t) f q k = q

  pub Looks-bind :
      (m : Action W A) (f : A → Action W B) → Looks m → ((a : A) → Looks (f a)) → Looks (m >>= f)
  unfolding ◌>>=◌
  Looks-bind m f q k = record { at = λ s. continue-Still s (m s) f (q.at s) k }

ruleset looking_rules =
    (Looks-pure, Looks-gets, Looks-try-call, Looks-host_call, Looks-if, Looks-bind)

module _ {W : Type 0} ⦃host : Host W⦄ where
  pub Looks-publish : (topic : StateTopic) → Looks {W = W} (publish topic)
  unfolding publish queue_state_update send_pending_state
  Looks-publish topic = record {
    at = λ s. record {
      store = ground arith;
      inner = record {
        config = ground arith;
        lifecycle = ground arith;
        maintenance = ground arith;
        exiting = ground arith;
        active = ground arith;
        last = ground arith;
        failures = ground arith;
      };
    };
  }

note_wan-Same :
    (observation : Fallible WanPublicState) (inner : Inner)
    → Same inner (note_wan observation inner).0
unfolding note_wan
note_wan-Same (ok status) inner = observed-Same inner _ _ _ _ _ _ _
note_wan-Same (err error) inner = observed-Same inner _ _ _ _ _ _ _

module _ {W : Type 0} ⦃backend : RouterBackend W⦄ where
  Looks-with_inner :
      (f : Inner → Inner × Bool)
      → ((inner : Inner) → Same inner (f inner).0)
      → Looks {W = W} (with_inner f)
  unfolding with_inner
  Looks-with_inner f same = record { at = λ s. record { store = refl; inner = same s.inner } }

  Looks-observe_wifi :
      (targets : List String) (desired : WifiNetworkConfig) (roaming : RoamingConfig)
      (changed : Bool) (configs : Fallible (Map WifiNetworkConfig))
      → Looks {W = W} (observe_wifi targets desired roaming changed configs)
  unfolding observe_wifi
  Looks-observe_wifi targets desired roaming changed (ok configs) =
      Looks-bind _ _ (Looks-try-call _) λ _. Looks-bind _ _ (Looks-host_call _) λ _.
        Looks-bind _ _ (Looks-try-call _)
          λ _. Looks-with_inner _ (λ inner. observed-Same inner _ _ _ _ _ _ _)
  Looks-observe_wifi targets desired roaming changed (err error) =
      Looks-bind _ _ (Looks-host_call _)
        λ _. Looks-with_inner _ (λ inner. observed-Same inner _ _ _ _ _ _ _)

  pub Looks-refresh_observed : Looks {W = W} refresh_observed
  unfolding refresh_observed
  Looks-refresh_observed =
      search (looking_rules, Looks-with_inner, note_wan-Same, Looks-observe_wifi) depth 16
