-- ===== src/Wan/Acceptance.antt =====
-- What an accepted WAN configuration satisfies, and that normalizing one keeps it accepted.
use Prim.Native.Nat.{bit_and}
use unetic_core.Prelude.{
  ℕ, ◌≡◌, ◌≤◌, ◌≢◌, ◌↔◌, inl, inr, Option-cases, Bool-cases, >>=-ok, refl, Bool, true, Option, none,
  some, String, List, [], ◌∷◌, ok, arith,
}
use unetic_core.Domain.Wan.{
  pppoe, WanDesired, WanProtocol, static, extender, WanQos, WanStaticConfig,
}
use unetic_core.Wan.Address.{parse_ipv4, validate_ipv4, validate_netmask}
use unetic_core.Wan.Qos.{validate_limit, validate_qos, max_wan_qos_kbps}
use unetic_core.Wan.Normalization.{normalize_wan_desired}
use unetic_core.Wan.Validation.{
  validate_servers, validate_static_config, validate_proto, validate_mtu, validate_wan_desired,
}

-- The label of a field shows in messages only.
validate_ipv4_label :
    (server a b : String) (ip : ℕ) → validate_ipv4 server a ≡ ok ip → validate_ipv4 server b ≡ ok ip
unfolding validate_ipv4
validate_ipv4_label server a b ip h = ground arith

validate_servers_label :
    (servers : List String) (a b : String)
    → validate_servers servers a ≡ ok tt
    → validate_servers servers b ≡ ok tt
unfolding validate_servers
validate_servers_label [] a b h = refl
validate_servers_label (server ∷ servers) a b h =
    grind (arith, validate_ipv4_label server a b, validate_servers_label servers a b)

static_servers :
    (config : WanStaticConfig)
    → validate_static_config config ≡ ok tt
    → validate_servers config.dns "static DNS" ≡ ok tt
unfolding validate_static_config
static_servers config h = ground arith

-- A configuration that is accepted is still accepted after it has been normalized.
pub validate_wan_desired-normalize :
    (wan : WanDesired)
    → validate_wan_desired wan ≡ ok tt
    → validate_wan_desired (normalize_wan_desired wan) ≡ ok tt
unfolding validate_wan_desired normalize_wan_desired validate_proto
validate_wan_desired-normalize wan h = elim (Option-cases wan.static_config) [
  | inl absent ↦ ground arith
  | inr (config, given) ↦
      ground
        (arith, static_servers config, validate_servers_label config.dns "static DNS" "custom DNS")
]

abbrev pub InLimit : Option ℕ → Type 0
InLimit none = Unit
InLimit (some value) = (1 ≤ value) × (value ≤ max_wan_qos_kbps)

-- What an enabled shaper needs: some limit, and each limit that is given in range.
pub record HasLimits (qos : WanQos) : Type 0 where
  pub limited : ¬ ((qos.download_kbps ≡ none) × (qos.upload_kbps ≡ none))
  pub download : InLimit qos.download_kbps
  pub upload : InLimit qos.upload_kbps

InLimit-of_ok : (o : Option ℕ) (s : String) → validate_limit o s ≡ ok tt → InLimit o
unfolding validate_limit
InLimit-of_ok none s h = tt
InLimit-of_ok (some v) s h = (ground arith, ground arith)

ok-of_InLimit : (o : Option ℕ) (s : String) → InLimit o → validate_limit o s ≡ ok tt
unfolding validate_limit
ok-of_InLimit none s h = refl
ok-of_InLimit (some v) s h = ground arith

-- Traffic shaping is accepted exactly on a WAN that is there and is no extender's, and, if it is
-- enabled, with at least one limit and no limit out of 1 to 10,000,000 kbps.
pub validate_qos_iff :
    (qos : WanQos) (present : Bool) (proto : WanProtocol)
    → (validate_qos qos present proto ≡ ok tt) ↔ (
        (present ≡ true)
        × (proto ≢ WanProtocol.none)
        × (proto ≢ extender)
        × (qos.enabled ≡ true → HasLimits qos))
unfolding validate_qos
validate_qos_iff qos present proto = (
  λ h. (
    ground arith,
    ground arith,
    ground arith,
    λ on. record {
      limited = λ both. ground arith;
      download = InLimit-of_ok qos.download_kbps "download" (ground arith);
      upload = InLimit-of_ok qos.upload_kbps "upload" (ground arith);
    },
  ),
  λ h. elim (Bool-cases qos.enabled) [
    | inl on ↦
        let limits = h.3 on in
        ground (
          arith,
          ok-of_InLimit qos.download_kbps "download" limits.download,
          ok-of_InLimit qos.upload_kbps "upload" limits.upload,
          limits.limited,
        )
    | inr off ↦ ground arith
  ],
)

parse_of_valid :
    (value field : String) (ip : ℕ) → validate_ipv4 value field ≡ ok ip → parse_ipv4 value ≡ some ip
unfolding validate_ipv4
parse_of_valid value field ip h = ground arith

parse_of_mask :
    (value : String) (mask : ℕ) → validate_netmask value ≡ ok mask → parse_ipv4 value ≡ some mask
unfolding validate_netmask
parse_of_mask value mask h = ground arith

abbrev pub SharesSubnet : WanStaticConfig → Type 0
SharesSubnet config =
    (ip : ℕ) × (mask : ℕ) × (gw : ℕ) × (parse_ipv4 config.ip_address ≡ some ip)
    × (parse_ipv4 config.netmask ≡ some mask)
    × (parse_ipv4 config.gateway ≡ some gw)
    × (bit_and ip mask ≡ bit_and gw mask)

validate_static_config-SharesSubnet :
    (config : WanStaticConfig) → validate_static_config config ≡ ok tt → SharesSubnet config
unfolding validate_static_config
validate_static_config-SharesSubnet config h =
    let (ip, p, h₁) = >>=-ok (validate_ipv4 config.ip_address "IP address") _ h in
    let (mask, q, h₂) = >>=-ok (validate_netmask config.netmask) _ h₁ in
    let (gw, r, h₃) = >>=-ok (validate_ipv4 config.gateway "gateway") _ h₂ in
    (
      ip,
      mask,
      gw,
      parse_of_valid config.ip_address "IP address" ip p,
      parse_of_mask config.netmask mask q,
      parse_of_valid config.gateway "gateway" gw r,
      ground arith,
    )

-- What the core relies on in a configuration that is present.
pub record IsUsable (wan : WanDesired) : Type 0 where
  pub proto : wan.proto ≢ WanProtocol.none
  pub mtu :
      (n : ℕ) → wan.custom_mtu ≡ some n → (576 ≤ n) × (n ≤ 1_500) × (wan.proto ≡ pppoe → n ≤ 1_492)
  pub shaping : (qos : WanQos) → wan.qos ≡ some qos → validate_qos qos wan.present wan.proto ≡ ok tt
  pub static :
      wan.proto ≡ static
      → (config : WanStaticConfig) × (wan.static_config ≡ some config) × SharesSubnet config

-- An accepted configuration that is present has a protocol, an MTU from 576 to 1500 (1492 under
-- PPPoE), shaping that passes its own test, and, if it is static, an address, mask and gateway that parse,
-- the gateway in the subnet of the address.
pub validate_wan_desired-IsUsable :
    (wan : WanDesired) → validate_wan_desired wan ≡ ok tt → wan.present ≡ true → IsUsable wan
unfolding validate_wan_desired validate_proto validate_mtu
validate_wan_desired-IsUsable wan h p = record {
  proto = ground arith;
  mtu = λ n e. (ground arith, ground arith, λ q. ground arith);
  shaping = λ qos e. ground arith;
  static = λ e. elim (Option-cases wan.static_config) [
    | inl absent ↦ absurd (ground arith)
    | inr (config, given) ↦
        (config, given, validate_static_config-SharesSubnet config (ground arith))
  ];
}
