-- ===== src/App/Timely.antt =====
-- That an action comes to an end: it does not hang, and the clock does not run back in it.
use unetic_core.Prelude.{
  ◌<◌, ltb, ℕ, ◌+◌, ◌≤◌, ◌≡◌, refl, ◌∙◌, Bool, true, false, List, String, Option, ok, err, arith,
  if◌then◌else◌,
}
use unetic_core.Domain.Errors.{LegacyAppError, Fallible}
use unetic_core.Domain.Wifi.{WifiNetworkConfig}
use unetic_core.Domain.Wan.{WanDesired}
use unetic_core.Domain.Roaming.{RoamingConfig}
use unetic_core.Platform.{RouterBackend, Host, Effect}
use unetic_core.App.State.{App, Inner}
use unetic_core.App.Monad.{
  ◌>>◌, Action, Outcome, returns, fails, hangs, ◌>>=◌, pure, raise, gets, lift, call, host_call,
  try, ignore, modify_inner, recover, continue,
}

-- the clock after a call
abbrev pub Later : {W : Type 0} → Host W → (W → W) → Type 0
Later {W} host f = (w : W) → host.instant w ≤ host.instant (f w)

-- Time does not run back in a call of the router or of the files, and a sleep takes at least the time
-- that it is asked for.
pub record IsSteady {W : Type 0} (backend : RouterBackend W) (host : Host W) : Type 0 where
  pub sleep : (d : ℕ) (w : W) → host.instant w + d ≤ host.instant (host.sleep d w)
  pub write_file : (f : String) → Later host (λ w. (host.write_file f w).1)
  pub remove_file : (f : String) → Later host (λ w. (host.remove_file f w).1)
  pub create_session : Later host (λ w. (backend.create_session w).1)
  pub destroy_session : (s : String) → Later host (λ w. (backend.destroy_session s w).1)
  pub read_wifi_configs :
      (t : List String) (s : Option String) → Later host (λ w. (backend.read_wifi_configs t s w).1)
  pub stage_wifi_config :
      (s : String) (t : List String) (c : WifiNetworkConfig) (r : RoamingConfig) (e : Bool)
      → Later host (λ w. (backend.stage_wifi_config s t c r e w).1)
  pub read_roaming_config :
      (t : List String) (s : Option String)
      → Later host (λ w. (backend.read_roaming_config t s w).1)
  pub read_roaming_runtime :
      (t : List String) (s : String) (r : RoamingConfig)
      → Later host (λ w. (backend.read_roaming_runtime t s r w).1)
  pub read_wan_runtime_status : Later host (λ w. (backend.read_wan_runtime_status w).1)
  pub read_wan_config : (s : Option String) → Later host (λ w. (backend.read_wan_config s w).1)
  pub stage_wan_config :
      (s : String) (c : WanDesired) → Later host (λ w. (backend.stage_wan_config s c w).1)
  pub revert_staged : (s : String) → Later host (λ w. (backend.revert_staged s w).1)
  pub apply : (s : String) (n : ℕ) → Later host (λ w. (backend.apply s n w).1)
  pub confirm : (s : String) → Later host (λ w. (backend.confirm s w).1)
  pub rollback : (s : String) → Later host (λ w. (backend.rollback s w).1)
  pub reload_wireless_runtime : Later host (λ w. (backend.reload_wireless_runtime w).1)
  pub runtime_healthy :
      (t : List String) (s : String) → Later host (λ w. (backend.runtime_healthy t s w).1)

abbrev pub Alive {ℓ} : {A : Type ℓ} → Outcome A → Type 0
Alive (returns a) = Unit
Alive (fails e) = Unit
Alive hangs = ⊥

module _ {W : Type 0} ⦃host : Host W⦄ where
  pub record Ahead (s t : App W) : Type 0 where
    pub timing : t.timing ≡ s.timing
    pub instant : host.instant s.world ≤ host.instant t.world

  pub Ahead-refl : (s : App W) → Ahead s s
  Ahead-refl s = record { timing = refl; instant = omega arith }

  pub Ahead-trans : {s t u : App W} → Ahead s t → Ahead t u → Ahead s u
  Ahead-trans p q = record {
    timing = q.timing ∙ p.timing;
    instant = omega (arith, p.instant, q.instant);
  }

  pub still_delayed :
      {s t : App W}
      → Ahead s t
      → 1 ≤ s.timing.verify_sample_delay
      → 1 ≤ t.timing.verify_sample_delay
  still_delayed q d = rw q.timing d

  abbrev pub Runs : {A : Type 0} → Action W A → App W → Type 0
  Runs m s = Ahead s (m s).1 × Alive (m s).0

  -- It runs to its end whenever the delay between two samples of the router is not zero.
  pub record Timely {A : Type 0} (m : Action W A) : Type 0 where
    pub at : (s : App W) → 1 ≤ s.timing.verify_sample_delay → Runs m s

  module _ {A : Type 0} where
    pub Timely-pure : (a : A) → Timely (pure a)
    Timely-pure a = record { at = λ s _. (Ahead-refl s, tt) }

    pub Timely-raise : (e : LegacyAppError) → Timely {A = A} (raise e)
    Timely-raise e = record { at = λ s _. (Ahead-refl s, tt) }

    pub Timely-gets : (f : App W → A) → Timely (gets f)
    Timely-gets f = record { at = λ s _. (Ahead-refl s, tt) }

    pub result-Alive : (r : Fallible A) (s : App W) → Alive (lift r s).0
    result-Alive (ok a) s = tt
    result-Alive (err e) s = tt

    pub Timely-lift : (r : Fallible A) → Timely (lift r)
    Timely-lift r = record { at = λ s _. (Ahead-refl s, result-Alive r s) }

    pub Timely-call : (f : Effect W A) → Later host (λ w. (f w).1) → Timely (call f)
    Timely-call f h = record {
      at = λ s _. (record { timing = refl; instant = h s.world }, result-Alive (f s.world).0 s);
    }

    pub Timely-host_call : (f : W → A × W) → Later host (λ w. (f w).1) → Timely (host_call f)
    Timely-host_call f h = record {
      at = λ s _. (record { timing = refl; instant = h s.world }, tt);
    }

    recover-Runs :
        (s : App W) (r : Outcome A × App W)
        → Ahead s r.1
        → Alive r.0
        → Ahead s (recover r).1 × Alive (recover r).0
    recover-Runs s (returns a, t) q l = (q, tt)
    recover-Runs s (fails e, t) q l = (q, tt)
    recover-Runs s (hangs, t) q l = (q, l)

    pub Timely-try : (m : Action W A) → Timely m → Timely (try m)
    Timely-try m h = record { at = λ s d. let (q, l) = h.at s d in recover-Runs s (m s) q l }

    pub Timely-if :
        (b : Bool) (m n : Action W A) → Timely m → Timely n → Timely (if b then m else n)
    Timely-if true m n p q = p
    Timely-if false m n p q = q

  module _ {A B : Type 0} where
    continue-Runs :
        (s : App W) (r : Outcome A × App W) (f : A → Action W B)
        → Ahead s r.1
        → Alive r.0
        → ((a : A) (t : App W) → Ahead s t → Runs (f a) t)
        → Ahead s (continue r f).1 × Alive (continue r f).0
    continue-Runs s (returns a, t) f q l k = let (q₂, l₂) = k a t q in (Ahead-trans q q₂, l₂)
    continue-Runs s (fails e, t) f q l k = (q, tt)
    continue-Runs s (hangs, t) f q l k = (q, l)

    pub Runs-bind :
        (m : Action W A) (f : A → Action W B) (s : App W)
        → Runs m s
        → ((a : A) (t : App W) → Ahead s t → Runs (f a) t)
        → Runs (m >>= f) s
    unfolding ◌>>=◌
    Runs-bind m f s h k = continue-Runs s (m s) f h.0 h.1 k

    pub Timely-bind :
        (m : Action W A) (f : A → Action W B)
        → Timely m
        → ((a : A) → Timely (f a))
        → Timely (m >>= f)
    Timely-bind m f h k = record {
      at = λ s d. Runs-bind m f s (h.at s d) λ a t q. (k a).at t (still_delayed q d);
    }

  module _ {A : Type 0} where
    pub Timely-ignore : (m : Action W A) → Timely m → Timely (ignore m)
    unfolding ignore
    Timely-ignore m h = Timely-bind _ _ (Timely-try m h) λ _. Timely-pure tt

  pub Timely-modify : (g : Inner → Inner) → Timely (modify_inner g)
  Timely-modify g = record { at = λ s _. (record { timing = refl; instant = omega arith }, tt) }

pub ltb-lt : (a b : ℕ) → ltb a b ≡ true → a < b
ltb-lt a b h = ground arith

module _ {W : Type 0} ⦃host : Host W⦄ where
  pub Runs-if :
      {A : Type 0} (b : Bool) (m n : Action W A) (s : App W)
      → (b ≡ true → Runs m s)
      → (b ≡ false → Runs n s)
      → Runs (if b then m else n) s
  Runs-if true m n s h k = h refl
  Runs-if false m n s h k = k refl

  pub Runs-gets :
      {A B : Type 0} (g : App W → A) (f : A → Action W B) (s : App W)
      → Runs (f (g s)) s
      → Runs (gets g >>= f) s
  unfolding ◌>>=◌
  Runs-gets g f s h = h

  module _ ⦃backend : RouterBackend W⦄ (steady : IsSteady backend host) where
    pub Runs-sleep :
        (d : ℕ) (m : Action W (Unit {0})) (s : App W)
        → Runs m (record s { world = host.sleep d s.world })
        → Runs (host_call (λ w. (tt {0}, host.sleep d w)) >> m) s
    unfolding ◌>>=◌
    Runs-sleep d m s h = (
      record { timing = h.0.timing; instant = omega (arith, steady.sleep d s.world, h.0.instant) },
      h.1,
    )

pub ruleset timely_rules = (
  Timely-pure, Timely-raise, Timely-gets, Timely-lift, Timely-call, Timely-host_call, Timely-try,
  Timely-if, Timely-bind, Timely-ignore, Timely-modify,
)
