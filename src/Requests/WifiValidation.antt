-- ===== src/Requests/WifiValidation.antt =====
-- The validators of src/application/state/mod.rs.
use Prim.Native.String.{◌++◌}
use unetic_core.Prelude.{
  ℕ, Bool, false, not, ◌&&◌, ◌||◌, Option, none, some, List, [], ◌∷◌, String, ◌==◌, ◌!=◌, nat_eq,
  string_eq, ltb, length, any, find, byte_len, contains_nul, if◌then◌else◌, ok, err, ◌>>◌, fail_if,
}
use unetic_core.Domain.Errors.{Fallible, invalid, with_details, number}
use unetic_core.Domain.Wifi.{MeshBackhaulConfig, RadioChannelConfig}

unfoldable pub validate_ssid : String → Fallible (Unit {0})
validate_ssid ssid = do
  fail_if (ssid == "") (invalid "SSID must not be empty")
  fail_if (ltb 32 (byte_len ssid)) (
      with_details (invalid "SSID must be at most 32 UTF-8 bytes")
        (("bytes", number (byte_len ssid)) ∷ []))
  fail_if (contains_nul ssid) (invalid "SSID must not contain NUL")
  ok tt

unfoldable pub validate_key : Option String → Fallible (Unit {0})
validate_key none = err (invalid "key must be provided when encryption is not 'none'")
validate_key (some key) = do
  fail_if (ltb (byte_len key) 8 || ltb 63 (byte_len key))
      (invalid "key must be between 8 and 63 characters long")
  fail_if (contains_nul key) (invalid "key must not contain NUL")
  ok tt

unfoldable pub validate_wifi_config : String → String → Option String → Fallible (Unit {0})
validate_wifi_config ssid encryption key = do
  validate_ssid ssid
  if encryption != "none" then validate_key key else ok tt

unfoldable pub contains : List String → String → Bool
contains items item = any (λ other. other == item) items

-- `.find(|rc| rc.target == target).map(|rc| rc.channel)`
unfoldable pub channel_of : List RadioChannelConfig → String → Option ℕ
channel_of channels target =
    elim (find (λ (rc : RadioChannelConfig). rc.target == target) channels) [
      | none ↦ none
      | some rc ↦ some rc.channel
    ]

unfoldable pub same_channel : Option ℕ → Option ℕ → Bool
same_channel (some b) (some c) = ltb 0 b && ltb 0 c && b == c
same_channel _ _ = false

unfoldable pub validate_mesh_backhaul_config :
    MeshBackhaulConfig → List String → List RadioChannelConfig → Fallible (Unit {0})
unfolding contains
validate_mesh_backhaul_config backhaul available_targets radio_channels =
    if not backhaul.enabled then ok tt else do
      fail_if (ltb (length available_targets) 2) (
          invalid
            "Dual-radio hardware (at least 2 radios) is required for dedicated wireless backhaul")
      fail_if (backhaul.backhaul_target == backhaul.client_target)
          (invalid "Backhaul radio chip and Client access radio chip must be different")
      fail_if (not (contains available_targets backhaul.backhaul_target)) (
          invalid (
            "Backhaul target radio '" ++ backhaul.backhaul_target
            ++ "' does not exist in available radios"))
      fail_if (not (contains available_targets backhaul.client_target)) (
          invalid (
            "Client target radio '" ++ backhaul.client_target
            ++ "' does not exist in available radios"))
      fail_if
          (same_channel (channel_of radio_channels backhaul.backhaul_target)
            (channel_of radio_channels backhaul.client_target))
          (invalid (
            "Backhaul radio (" ++ backhaul.backhaul_target ++ ") and Client radio ("
            ++ backhaul.client_target ++ ") must operate on different channels"))
