-- ===== src/Wan/Qos.antt =====
-- src/application/wan/validation/qos.rs
use Prim.Native.String.{◌++◌}
use unetic_core.Prelude.{
  ℕ, Bool, not, ◌&&◌, ◌||◌, Option, none, some, String, ◌==◌, leb, if◌then◌else◌, ok, err, ◌>>◌,
  fail_if,
}
use unetic_core.Domain.Errors.{Fallible, invalid}
use unetic_core.Domain.Wan.{WanProtocol, extender, WanQos, wan_protocol_eq}

-- `MAX_WAN_QOS_KBPS`
abbrev pub max_wan_qos_kbps : ℕ
max_wan_qos_kbps = 10_000_000

abbrev is_none {ℓ} : {A : Type ℓ} → Option A → Bool
is_none none = Bool.true
is_none (some a) = Bool.false

unfoldable pub validate_limit : Option ℕ → String → Fallible (Unit {0})
validate_limit none direction = ok tt
validate_limit (some value) direction =
    if leb 1 value && leb value max_wan_qos_kbps
    then ok tt
    else err
        (invalid ("QoS " ++ direction ++ " bandwidth limit must be between 1 and 10000000 kbps"))

unfoldable pub validate_qos : WanQos → Bool → WanProtocol → Fallible (Unit {0})
unfolding validate_limit
validate_qos qos wan_present proto = do
  fail_if (not wan_present || proto == WanProtocol.none)
      (invalid "QoS cannot be configured when WAN is disabled")
  fail_if (proto == extender)
      (invalid "QoS cannot be configured on WAN in extender mode (master only)")
  if not qos.enabled then ok tt else do
    fail_if (is_none qos.download_kbps && is_none qos.upload_kbps) (
        invalid
          "At least one bandwidth limit (download or upload) must be specified when QoS is enabled")
    validate_limit qos.download_kbps "download"
    validate_limit qos.upload_kbps "upload"
