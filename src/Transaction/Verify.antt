-- ===== src/Transaction/Verify.antt =====
-- `verify` of src/application/transaction/sync.rs: the loop that waits for the router to settle.
use Prim.Native.String.{◌++◌}
use unetic_core.Prelude.{
  ℕ, zero, suc, ◌+◌, Bool, true, false, not, ◌&&◌, ◌||◌, Option, none, some, List, String, Map, get,
  ◌==◌, ◌!=◌, string_eq, option_eq, if◌then◌else◌, ltb, leb, all, any, is_empty, ok, err,
}
use unetic_core.Domain.Errors.{
  LegacyAppError, new_error, retryable, verify_timeout, verify, Fallible,
}
use unetic_core.Domain.Roaming.{
  RoamingConfig, AppliedRoamingConfig, RoamingRuntime, RoamingRuntimeStatus,
  compile_applied_roaming, applied_roaming_config_eq, roaming_runtime_status_eq,
}
use unetic_core.Domain.Wifi.{WifiNetworkConfig}
use unetic_core.Platform.{RouterBackend, Host}
use unetic_core.App.Monad.{Action, ◌>>=◌, ◌>>◌, pure, raise, hang, gets, call, try, host_call}

-- `cfg.ssid == expected.ssid && cfg.encryption == expected.encryption && cfg.key == expected.key`
unfoldable pub same_network : WifiNetworkConfig → WifiNetworkConfig → Bool
same_network cfg expected =
    cfg.ssid == expected.ssid && cfg.encryption == expected.encryption && cfg.key == expected.key

unfoldable pub has_network : WifiNetworkConfig → Option WifiNetworkConfig → Bool
has_network expected none = false
has_network expected (some cfg) = same_network cfg expected

-- every target is observed with the expected network
unfoldable pub all_match : Map WifiNetworkConfig → List String → WifiNetworkConfig → Bool
unfolding has_network
all_match observed targets expected =
    all (λ target. has_network expected (get observed target)) targets

-- `all_equal_config` of src/application/state/mod.rs
unfoldable pub all_equal_config : Map WifiNetworkConfig → List String → WifiNetworkConfig → Bool
all_equal_config observed targets expected =
    not (is_empty targets) && all_match observed targets expected

lacks_network : WifiNetworkConfig → Option WifiNetworkConfig → Bool
lacks_network expected none = true
lacks_network expected (some cfg) =
    cfg.ssid != expected.ssid || cfg.encryption != expected.encryption || cfg.key != expected.key

-- the test on the staged values in `stage_and_verify` and `force_state_sync`
unfoldable pub any_mismatch : Map WifiNetworkConfig → List String → WifiNetworkConfig → Bool
unfolding lacks_network
any_mismatch staged targets expected =
    any (λ target. lacks_network expected (get staged target)) targets

abbrev is_config : AppliedRoamingConfig → Fallible AppliedRoamingConfig → Bool
is_config expected (ok observed) = observed == expected
is_config expected (err error) = false

or_message : Option String → String → String
or_message none message = message
or_message (some text) message = text

-- The healthy samples so far, and why the last sample was not healthy.
abbrev pub Samples : Type 0
Samples = ℕ × String

-- the `match` on `runtime_healthy`
unfoldable pub judge : Bool → RoamingRuntime → Fallible Bool → Samples → Samples
unfolding or_message
judge config_ready runtime (ok true) (samples, reason) =
    if config_ready && runtime.status == RoamingRuntimeStatus.ready
    then (samples + 1, reason)
    else (0, or_message runtime.error "wireless or usteer roaming state is not converged")
judge config_ready runtime (ok false) (samples, reason) = (0, "wireless runtime is not healthy")
judge config_ready runtime (err error) (samples, reason) = (0, error.message)

abbrev pub not_converged : String → LegacyAppError
not_converged reason =
    retryable
      (new_error verify_timeout verify
        ("Wi-Fi configuration did not converge before timeout: " ++ reason))
      true

module _ {W : Type 0} ⦃backend : RouterBackend W⦄ where
  unfoldable pub judge_configs :
      List String
      → WifiNetworkConfig
      → RoamingConfig
      → Samples
      → Fallible (Map WifiNetworkConfig)
      → Action W Samples
  unfolding judge
  judge_configs targets expected roaming seen (err error) = pure (0, error.message)
  judge_configs targets expected roaming seen (ok observed) =
      if all_match observed targets expected
      then (do
        let expected_roaming =
            compile_applied_roaming roaming expected.ssid expected.encryption targets
        config ← try (call (backend.read_roaming_config targets none))
        runtime ← host_call (backend.read_roaming_runtime targets expected.ssid roaming)
        healthy ← try (call (backend.runtime_healthy targets expected.ssid))
        pure (judge (is_config expected_roaming config) runtime healthy seen))
      else pure (0, "committed UCI does not match candidate Wi-Fi configuration")

  -- one round of the loop, up to the sleep
  unfoldable pub sample :
      List String → WifiNetworkConfig → RoamingConfig → Samples → Action W Samples
  sample targets expected roaming seen = do
    observed ← try (call (backend.read_wifi_configs targets none))
    judge_configs targets expected roaming seen observed

  module _ ⦃host : Host W⦄ (targets : List String) (expected : WifiNetworkConfig)
      (roaming : RoamingConfig) where
    unfoldable pub verify_loop : ℕ → ℕ → Samples → Action W (Unit {0})
    verify_loop zero deadline seen s = hang s
    verify_loop (suc rounds) deadline seen s =
        let next : Action W (Unit {0}) = do
          seen' ← sample targets expected roaming seen
          (if leb 2 seen'.0 then pure tt else (do
            delay ← gets (λ s. s.timing.verify_sample_delay)
            host_call (λ w. (tt {0}, host.sleep delay w))
            verify_loop rounds deadline seen'))
        in (if ltb (host.instant s.world) deadline then next else raise (not_converged seen.1)) s

    -- A round sleeps for a millisecond at least, so one round more than the timeout has is enough.
    unfoldable pub verify_wifi : ℕ → Action W (Unit {0})
    verify_wifi timeout s =
        verify_loop (suc timeout) (host.instant s.world + timeout)
          (0, "wireless state not converged") s
