-- ===== src/Wan/Validation.antt =====
-- src/application/wan/validation.rs
use Prim.Native.Nat.{bit_and}
use Prim.Native.String.{◌++◌}
use unetic_core.Prelude.{
  ℕ, Bool, not, ◌&&◌, ◌||◌, Option, none, some, List, [], ◌∷◌, String, ◌==◌, ◌!=◌, ltb, leb, nat_eq,
  if◌then◌else◌, byte_len, is_blank, ok, err, ◌>>=◌, ◌>>◌, fail_if,
}
use unetic_core.Domain.Errors.{Fallible, invalid}
use unetic_core.Domain.Wan.{
  WanProtocol, dhcp, static, pppoe, extender, WanStaticConfig, WanPppoeConfig, WanDesired,
  SetWanRequest, wan_protocol_eq,
}
use unetic_core.Wan.Address.{validate_ipv4, validate_netmask, validate_mac_address}
use unetic_core.Wan.Qos.{validate_qos}

-- `for dns in servers { validate_ipv4(dns, field)?; }`
unfoldable pub validate_servers : List String → String → Fallible (Unit {0})
validate_servers [] field = ok tt
validate_servers (server ∷ servers) field = do
  validate_ipv4 server field
  validate_servers servers field

unfoldable pub validate_static_config : WanStaticConfig → Fallible (Unit {0})
validate_static_config config = do
  ip ← validate_ipv4 config.ip_address "IP address"
  mask ← validate_netmask config.netmask
  gw ← validate_ipv4 config.gateway "gateway"
  fail_if (bit_and ip mask != bit_and gw mask)
      (invalid "gateway IP is outside the specified subnet")
  validate_servers config.dns "static DNS"

password_too_long : Option String → Bool
password_too_long none = Bool.false
password_too_long (some pass) = ltb 128 (byte_len pass)

unfoldable pub validate_pppoe_config : WanPppoeConfig → Fallible (Unit {0})
unfolding password_too_long
validate_pppoe_config config = do
  fail_if (is_blank config.username || ltb 128 (byte_len config.username))
      (invalid "PPPoE username must be between 1 and 128 characters")
  fail_if (password_too_long config.password)
      (invalid "PPPoE password must be at most 128 characters")
  ok tt

-- the names that `{proto:?}` prints
debug_proto : WanProtocol → String
debug_proto dhcp = "Dhcp"
debug_proto static = "Static"
debug_proto pppoe = "Pppoe"
debug_proto extender = "Extender"
debug_proto WanProtocol.none = "None"

unfoldable pub max_mtu : WanProtocol → ℕ
max_mtu proto = if proto == pppoe then 1492 else 1500

unfoldable pub validate_mtu : ℕ → WanProtocol → Fallible (Unit {0})
unfolding max_mtu debug_proto
validate_mtu mtu proto =
    let shown = if proto == pppoe then "1492" else "1500" in
    if leb 576 mtu && leb mtu (max_mtu proto)
    then ok tt
    else err (invalid ("MTU must be between 576 and " ++ shown ++ " for " ++ debug_proto proto))

validate_some {ℓ} : {A : Type ℓ} → (A → Fallible (Unit {0})) → Option A → Fallible (Unit {0})
validate_some check none = ok tt
validate_some check (some a) = check a

-- `let Some(config) = config else { return Err(..) }; check(config)?`
validate_required {ℓ} :
    {A : Type ℓ} → (A → Fallible (Unit {0})) → String → Option A → Fallible (Unit {0})
validate_required check message none = err (invalid message)
validate_required check message (some a) = check a

unfoldable pub validate_proto : WanProtocol → WanDesired → Fallible (Unit {0})
unfolding validate_required
validate_proto WanProtocol.none desired =
    err (invalid "WAN protocol must be specified when WAN is present")
validate_proto dhcp desired = ok tt
validate_proto extender desired = ok tt
validate_proto static desired =
    validate_required validate_static_config "static_config is required when WAN protocol is static"
      desired.static_config
validate_proto pppoe desired =
    validate_required validate_pppoe_config "pppoe_config is required when WAN protocol is pppoe"
      desired.pppoe_config

unfoldable pub validate_wan_desired : WanDesired → Fallible (Unit {0})
unfolding validate_some validate_proto
validate_wan_desired desired = do
  validate_some (λ qos. validate_qos qos desired.present desired.proto) desired.qos
  if not desired.present then ok tt else do
    validate_proto desired.proto desired
    validate_some validate_mac_address desired.custom_mac
    validate_some (λ mtu. validate_mtu mtu desired.proto) desired.custom_mtu
    validate_servers desired.custom_dns "custom DNS"

unfoldable pub validate_wan_request : SetWanRequest → Fallible (Unit {0})
validate_wan_request request = do
  fail_if (is_blank request.request_id || ltb 128 (byte_len request.request_id))
      (invalid "request_id must be between 1 and 128 characters")
  validate_wan_desired request.wan
