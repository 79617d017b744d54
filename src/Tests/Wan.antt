-- ===== src/Tests/Wan.antt =====
-- The theorems on the WAN configuration, at concrete ones.
use unetic_core.Prelude.{
  ℕ, ◌+◌, ◌^◌, ◌<◌, ◌≡◌, ◌≢◌, ◌⊎◌, ◌↔◌, ◌>>=◌, all, is_ascii_digit, split, bytes, encode_utf8,
  ℕ_discrete, refl, true, none, some, [], ◌∷◌, ok,
}
use unetic_core.Domain.Wan.{
  WanDesired, WanProtocol, WanProtocol-discrete, dhcp, static, extender, default_wan, WanQos,
}
use unetic_core.Wan.Address.{parse_ipv4, validate_ipv4, is_contiguous, validate_netmask}
use unetic_core.Wan.Qos.{validate_qos}
use unetic_core.Wan.Normalization.{
  normalize_wan_desired, wan_config_matches, normalize_wan_desired_idem,
}
use unetic_core.Wan.Matching.{wan_config_matches_iff, wan_config_matches-normalize}
use unetic_core.Wan.Netmask.{validate_netmask_iff}
use unetic_core.Wan.Validation.{
  validate_servers, validate_static_config, validate_mtu, validate_proto, validate_wan_desired,
}
use unetic_core.Wan.Acceptance.{
  validate_wan_desired-normalize, validate_qos_iff, HasLimits, IsUsable,
  validate_wan_desired-IsUsable,
}

abbrev static_wan : WanDesired
static_wan = record default_wan {
  present = true;
  proto = static;
  custom_mtu = some 1500;
  static_config = some (record {
    ip_address = "192.168.1.2";
    netmask = "255.255.255.0";
    gateway = "192.168.1.1";
    dns = "1.1.1.1" ∷ [];
  });
}

abbrev shaped : WanQos
shaped = record { enabled = true; download_kbps = some 1000; upload_kbps = none }

static_wan_accepted : validate_wan_desired static_wan ≡ ok tt
unfolding all is_ascii_digit validate_wan_desired validate_proto validate_static_config
    validate_ipv4 validate_netmask parse_ipv4 is_contiguous validate_mtu validate_servers ◌>>=◌
    split bytes encode_utf8 WanProtocol-discrete ℕ_discrete
static_wan_accepted = refl

validate_wan_desired-normalize_example :
    validate_wan_desired (normalize_wan_desired static_wan) ≡ ok tt
validate_wan_desired-normalize_example =
    validate_wan_desired-normalize static_wan static_wan_accepted

validate_wan_desired-IsUsable_example : IsUsable static_wan
validate_wan_desired-IsUsable_example =
    validate_wan_desired-IsUsable static_wan static_wan_accepted refl

validate_qos_iff_example : (validate_qos shaped true dhcp ≡ ok tt) ↔ (
    (true ≡ true)
    × (dhcp ≢ WanProtocol.none)
    × (dhcp ≢ extender)
    × (shaped.enabled ≡ true → HasLimits shaped))
validate_qos_iff_example = validate_qos_iff shaped true dhcp

validate_netmask_iff_example : (validate_netmask "255.255.255.0" ≡ ok 4_294_967_040) ↔ (
    (parse_ipv4 "255.255.255.0" ≡ some 4_294_967_040)
    × ((k : ℕ) × (k < 32) × (4_294_967_040 + 2 ^ k ≡ 2 ^ 32)))
validate_netmask_iff_example = validate_netmask_iff "255.255.255.0" 4_294_967_040

wan_config_matches_iff_example : (wan_config_matches static_wan default_wan ≡ true) ↔ (
    (normalize_wan_desired static_wan ≡ normalize_wan_desired default_wan)
    ⊎ ((normalize_wan_desired default_wan).proto ≡ extender)
      × ((normalize_wan_desired static_wan).proto ≡ dhcp)
      × (record (normalize_wan_desired static_wan) { proto = extender }
          ≡ normalize_wan_desired default_wan))
wan_config_matches_iff_example = wan_config_matches_iff static_wan default_wan

wan_config_matches-normalize_example :
    (wan_config_matches static_wan static_wan ≡ true)
    × (wan_config_matches (normalize_wan_desired static_wan) static_wan ≡ true)
    × (wan_config_matches static_wan (normalize_wan_desired static_wan) ≡ true)
wan_config_matches-normalize_example = wan_config_matches-normalize static_wan

normalize_wan_desired_idem_example :
    normalize_wan_desired (normalize_wan_desired static_wan) ≡ normalize_wan_desired static_wan
normalize_wan_desired_idem_example = normalize_wan_desired_idem static_wan
