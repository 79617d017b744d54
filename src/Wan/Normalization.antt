-- ===== src/Wan/Normalization.antt =====
-- src/application/wan/normalization.rs
use unetic_core.Prelude.{
  ◌≡◌, Bool, not, ◌&&◌, ◌||◌, Option, none, some, List, [], String, ◌==◌, if◌then◌else◌, arith,
}
use unetic_core.Domain.Wan.{
  WanDesired, WanProtocol, dhcp, static, pppoe, extender, WanStaticConfig, default_wan,
  wan_protocol_eq, wan_desired_eq,
}

-- `WanDesired { present: false, proto: WanProtocol::None, ..WanDesired::default() }`
abbrev pub disabled_wan : WanDesired
disabled_wan = record default_wan { proto = WanProtocol.none }

abbrev static_dns : Option WanStaticConfig → List String
static_dns none = []
static_dns (some config) = config.dns

normalize_proto : WanProtocol → WanDesired → WanDesired
normalize_proto dhcp wan = record wan { static_config = none; pppoe_config = none }
normalize_proto extender wan = record wan { static_config = none; pppoe_config = none }
normalize_proto static wan = record wan {
  custom_dns = static_dns wan.static_config;
  pppoe_config = none;
}
normalize_proto pppoe wan = record wan { static_config = none }
normalize_proto WanProtocol.none wan = wan

-- In the last case of `normalize_proto` the source is unreachable: the test above has returned.
unfoldable pub normalize_wan_desired : WanDesired → WanDesired
unfolding normalize_proto
normalize_wan_desired wan =
    if not wan.present || wan.proto == WanProtocol.none
    then disabled_wan
    else normalize_proto wan.proto wan

adopt_extender : WanDesired → WanDesired → WanDesired
adopt_extender observed expected =
    if expected.proto == extender && observed.proto == dhcp
    then record observed { proto = extender }
    else observed

unfoldable pub wan_config_matches : WanDesired → WanDesired → Bool
unfolding adopt_extender
wan_config_matches observed expected =
    let observed' = normalize_wan_desired observed in
    let expected' = normalize_wan_desired expected in
    adopt_extender observed' expected' == expected'

-- Normalizing twice is normalizing once.
pub normalize_wan_desired_idem :
    (wan : WanDesired)
    → normalize_wan_desired (normalize_wan_desired wan) ≡ normalize_wan_desired wan
unfolding normalize_wan_desired
normalize_wan_desired_idem wan = ground arith
