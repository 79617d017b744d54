-- ===== src/Reconcile/Drift.antt =====
-- When the router differs from what is desired, in terms of what is observed.
use unetic_core.Prelude.{
  ◌≡◌, ◌≢◌, ◌⊎◌, ◌↔◌, refl, arith, true, false, Option, none, some, List, [], ◌∷◌, String, Map, get,
  all, All, is_empty,
}
use unetic_core.Domain.Roaming.{compile_applied_roaming}
use unetic_core.Domain.Wan.{WanDesired, dhcp, extender}
use unetic_core.Domain.Wifi.{WifiNetworkConfig}
use unetic_core.App.State.{Inner}
use unetic_core.Transaction.Verify.{all_equal_config, all_match, has_network, same_network}
use unetic_core.Wan.Normalization.{normalize_wan_desired}
use unetic_core.Wan.Matching.{wan_config_matches_iff}
use unetic_core.Reconcile.Round.{config_drift, wan_drift}

-- A target is observed with the name, the encryption and the key of a network.
abbrev pub Observes : WifiNetworkConfig → Option WifiNetworkConfig → Type 0
Observes expected none = ⊥
Observes expected (some cfg) =
    (cfg.ssid ≡ expected.ssid) × (cfg.encryption ≡ expected.encryption) × (cfg.key ≡ expected.key)

-- There are targets, each of them is observed with the desired network, and the router has the roaming
-- policies that the desired profile compiles to.
abbrev pub WifiHolds : Inner → Type 0
WifiHolds inner =
    (inner.config.wifi.primary.targets ≢ [])
    × All (λ target. Observes inner.config.wifi.primary (get inner.observed_configs target))
        inner.config.wifi.primary.targets
    × (inner.observed_roaming
        ≡ some (
            compile_applied_roaming inner.config.wifi.roaming inner.config.wifi.primary.ssid
              inner.config.wifi.primary.encryption inner.config.wifi.primary.targets))

-- The WAN could not be read, or its normal form is the desired one's, or an extender is desired and the
-- router has the same configuration under DHCP.
abbrev pub WanHolds : Option WanDesired → WanDesired → Type 0
WanHolds none desired = Unit
WanHolds (some observed) desired =
    (normalize_wan_desired observed ≡ normalize_wan_desired desired)
    ⊎ ((normalize_wan_desired desired).proto ≡ extender)
      × ((normalize_wan_desired observed).proto ≡ dhcp)
      × (record (normalize_wan_desired observed) { proto = extender }
          ≡ normalize_wan_desired desired)

has_network_iff :
    (expected : WifiNetworkConfig) (o : Option WifiNetworkConfig)
    → (has_network expected o ≡ true) ↔ Observes expected o
unfolding has_network same_network
has_network_iff expected none = (λ h. cc, λ h. absurd h)
has_network_iff expected (some cfg) = (λ h. ground arith, λ h. ground arith)

all_match_iff :
    (observed : Map WifiNetworkConfig) (targets : List String) (expected : WifiNetworkConfig)
    → (all_match observed targets expected ≡ true)
      ↔ All (λ target. Observes expected (get observed target)) targets
unfolding all_match all
all_match_iff observed [] expected = (λ h. tt, λ h. refl)
all_match_iff observed (target ∷ targets) expected =
    let here = has_network_iff expected (get observed target) in
    let rest = all_match_iff observed targets expected in
    (
      λ h. (here.0 (ground arith), rest.0 (ground arith)),
      λ h. ground (arith, here.1 h.0, rest.1 h.1),
    )

is_empty-eq-false : (targets : List String) → (is_empty targets ≡ false) ↔ (targets ≢ [])
is_empty-eq-false [] = (λ h. cc, λ h. absurd (h refl))
is_empty-eq-false (target ∷ targets) = (λ h e. cc, λ h. refl)

pub config_drift_iff : (inner : Inner) → (config_drift inner ≡ false) ↔ WifiHolds inner
unfolding config_drift all_equal_config
config_drift_iff inner =
    let primary = inner.config.wifi.primary in
    let managed = is_empty-eq-false primary.targets in
    let matched = all_match_iff inner.observed_configs primary.targets primary in
    (
      λ h. (managed.0 (ground arith), matched.0 (ground arith), ground arith),
      λ h. ground (arith, managed.1 h.0, matched.1 h.1, h.2),
    )

pub wan_drift_iff :
    (wan : Option WanDesired) (inner : Inner)
    → (wan_drift wan inner ≡ false) ↔ WanHolds wan inner.config.wan
unfolding wan_drift
wan_drift_iff none inner = (λ h. tt, λ h. refl)
wan_drift_iff (some wan) inner =
    let matches = wan_config_matches_iff wan inner.config.wan in
    (λ h. matches.0 (ground arith), λ h. ground (arith, matches.1 h))
