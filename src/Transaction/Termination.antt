-- ===== src/Transaction/Termination.antt =====
-- A Wi-Fi change comes to an end: the loop that samples the router has rounds enough, and no other
-- part of the change loops.
use unetic_core.Prelude.{ℕ, zero, suc, ◌+◌, ◌≤◌, ◌<◌, List, String, Map, ok, err, arith, ltb, leb}
use unetic_core.Domain.Errors.{Fallible}
use unetic_core.Domain.Roaming.{RoamingConfig}
use unetic_core.Domain.Wifi.{WifiNetworkConfig}
use unetic_core.Platform.{RouterBackend, Host}
use unetic_core.App.State.{App}
use unetic_core.App.Timely.{
  ltb-lt, Runs-if, Runs-gets, Runs-sleep, IsSteady, Ahead-refl, still_delayed, Runs, Timely,
  Runs-bind, Timely-pure, Timely-call, Timely-host_call, Timely-try, Timely-if, Timely-bind,
}
use unetic_core.Transaction.Verify.{Samples, judge_configs, sample, verify_loop, verify_wifi}

module _ {W : Type 0} ⦃backend : RouterBackend W⦄ ⦃host : Host W⦄ (steady : IsSteady backend host)
    (targets : List String) (expected : WifiNetworkConfig) (roaming : RoamingConfig) where
  Timely-judge_configs :
      (seen : Samples) (configs : Fallible (Map WifiNetworkConfig))
      → Timely {W = W} (judge_configs targets expected roaming seen configs)
  unfolding judge_configs
  Timely-judge_configs seen (err error) = Timely-pure _
  Timely-judge_configs seen (ok configs) =
      Timely-if _ _ _
        (Timely-bind _ _ (Timely-try _ (Timely-call _ (steady.read_roaming_config _ _))) λ _.
          Timely-bind _ _ (Timely-host_call _ (steady.read_roaming_runtime _ _ _)) λ _.
            Timely-bind _ _ (Timely-try _ (Timely-call _ (steady.runtime_healthy _ _)))
              λ _. Timely-pure _)
        (Timely-pure _)

  Timely-sample : (seen : Samples) → Timely {W = W} (sample targets expected roaming seen)
  unfolding sample
  Timely-sample seen =
      Timely-bind _ _ (Timely-try _ (Timely-call _ (steady.read_wifi_configs _ _)))
        λ configs. Timely-judge_configs seen configs

  -- The loop, with more rounds than milliseconds are left.
  Runs-verify_loop :
      (rounds deadline : ℕ) (seen : Samples) (s : App W)
      → 1 ≤ rounds
      → deadline < rounds + host.instant s.world
      → 1 ≤ s.timing.verify_sample_delay
      → Runs (verify_loop targets expected roaming rounds deadline seen) s
  unfolding verify_loop
  Runs-verify_loop zero deadline seen s r l d = absurd (omega arith)
  Runs-verify_loop (suc rounds) deadline seen s r l d =
      Runs-if (ltb (host.instant s.world) deadline) _ _ s
        (λ early. Runs-bind _ _ s ((Timely-sample seen).at s d) λ seen' t q.
          Runs-if (leb 2 seen'.0) _ _ t (λ _. (Timely-pure tt).at t (still_delayed q d))
            λ _. Runs-gets _ _ t (
              Runs-sleep steady t.timing.verify_sample_delay _ t (
                Runs-verify_loop rounds deadline seen' _ (omega (arith, ltb-lt _ _ early))
                  (omega (
                    arith,
                    ltb-lt _ _ early,
                    q.instant,
                    still_delayed q d,
                    steady.sleep t.timing.verify_sample_delay t.world,
                  ))
                  (still_delayed q d))))
        (λ _. (Ahead-refl s, tt))

  pub Timely-verify_wifi :
      (timeout : ℕ) → Timely {W = W} (verify_wifi targets expected roaming timeout)
  unfolding verify_wifi
  Timely-verify_wifi timeout = record {
    at = λ s d. Runs-verify_loop (suc timeout) _ _ s (omega arith) (omega arith) d;
  }
