-- ===== src/Wan/Matching.antt =====
-- `wan_config_matches`: when an observed WAN configuration counts as the expected one.
use unetic_core.Prelude.{◌≡◌, ◌↔◌, ◌⊎◌, true, arith}
use unetic_core.Domain.Wan.{WanDesired, dhcp, extender}
use unetic_core.Wan.Normalization.{
  normalize_wan_desired, wan_config_matches, normalize_wan_desired_idem,
}

-- An observed configuration matches exactly if its normal form is the expected one's, or if an
-- extender is expected and the observation is the same configuration under DHCP.
pub wan_config_matches_iff :
    (observed expected : WanDesired)
    → (wan_config_matches observed expected ≡ true) ↔ (
        (normalize_wan_desired observed ≡ normalize_wan_desired expected)
        ⊎ ((normalize_wan_desired expected).proto ≡ extender)
          × ((normalize_wan_desired observed).proto ≡ dhcp)
          × (record (normalize_wan_desired observed) { proto = extender }
              ≡ normalize_wan_desired expected))
unfolding wan_config_matches
wan_config_matches_iff observed expected = (ground arith, ground arith)

-- Every configuration matches itself and its normal form, on either side.
pub wan_config_matches-normalize :
    (wan : WanDesired)
    → (wan_config_matches wan wan ≡ true)
      × (wan_config_matches (normalize_wan_desired wan) wan ≡ true)
      × (wan_config_matches wan (normalize_wan_desired wan) ≡ true)
unfolding wan_config_matches
wan_config_matches-normalize wan = ground (arith, normalize_wan_desired_idem wan)
