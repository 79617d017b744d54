-- ===== src/Requests/WifiAcceptance.antt =====
-- What the validators of a Wi-Fi request accept.
use Prim.Native.Nat.{ℕ}
use unetic_core.Prelude.{
  ◌≡◌, ◌≢◌, ◌≤◌, ◌⊎◌, ◌↔◌, inl, inr, refl, ap, ◌∙◌, true, false, Option, none, some, List, String,
  length, byte_len, contains_nul, ok, arith, Bool-cases,
}
use unetic_core.Domain.Wifi.{MeshBackhaulConfig, RadioChannelConfig}
use unetic_core.Requests.WifiValidation.{
  contains, validate_ssid, validate_key, validate_wifi_config, channel_of, same_channel,
  validate_mesh_backhaul_config,
}

abbrev pub IsSsid : String → Type 0
IsSsid ssid = (ssid ≢ "") × (byte_len ssid ≤ 32) × (contains_nul ssid ≡ false)

validate_ssid_iff : (ssid : String) → (validate_ssid ssid ≡ ok tt) ↔ IsSsid ssid
unfolding validate_ssid
validate_ssid_iff ssid = (λ h. (ground arith, ground arith, ground arith), λ h. ground arith)

abbrev pub IsKey : Option String → Type 0
IsKey key =
    (k : String) × (key ≡ some k) × (8 ≤ byte_len k) × (byte_len k ≤ 63) × (contains_nul k ≡ false)

key_some :
    (k : String)
    → validate_key (some k) ≡ ok tt
    → (8 ≤ byte_len k) × (byte_len k ≤ 63) × (contains_nul k ≡ false)
unfolding validate_key
key_some k h = (ground arith, ground arith, ground arith)

of_key :
    (k : String)
    → (8 ≤ byte_len k)
    → (byte_len k ≤ 63)
    → (contains_nul k ≡ false)
    → validate_key (some k) ≡ ok tt
unfolding validate_key
of_key k a b c = ground arith

validate_key_iff : (key : Option String) → (validate_key key ≡ ok tt) ↔ IsKey key
unfolding validate_key
validate_key_iff none = (λ h. cc, λ h. absurd (let e = h.1 in cc))
validate_key_iff (some k) = (
  λ h. let r = key_some k h in (k, refl, r.0, r.1, r.2),
  λ h. ap validate_key h.1 ∙ of_key h.0 h.2 h.3 h.4,
)

-- A Wi-Fi network is accepted exactly if its name has one byte at least, 32 at most and no NUL, and,
-- unless it is open, it has a key of 8 to 63 bytes without a NUL.
pub validate_wifi_config_iff :
    (ssid encryption : String) (key : Option String)
    → (validate_wifi_config ssid encryption key ≡ ok tt)
      ↔ (IsSsid ssid × (encryption ≢ "none" → IsKey key))
unfolding validate_wifi_config
validate_wifi_config_iff ssid encryption key = (
  λ h. (
    (validate_ssid_iff ssid).0 (ground arith),
    λ secured. (validate_key_iff key).0 (ground arith),
  ),
  λ h.
      let named = (validate_ssid_iff ssid).1 h.0 in
      let keyed : encryption ≢ "none" → validate_key key ≡ ok tt =
        λ n. (validate_key_iff key).1 (h.1 n) in
      ground (arith, keyed),
)

-- What a dedicated backhaul needs.
pub record IsDedicated (backhaul : MeshBackhaulConfig) (targets : List String)
    (channels : List RadioChannelConfig) : Type 0 where
  pub radios : 2 ≤ length targets
  pub apart : backhaul.backhaul_target ≢ backhaul.client_target
  pub backhaul_radio : contains targets backhaul.backhaul_target ≡ true
  pub client_radio : contains targets backhaul.client_target ≡ true
  pub channels_apart :
      (b c : ℕ)
      → channel_of channels backhaul.backhaul_target ≡ some b
      → channel_of channels backhaul.client_target ≡ some c
      → (b ≢ c) ⊎ (b ≡ 0)

same_channel-apart :
    (b c : Option ℕ)
    → (same_channel b c ≡ false) ↔ ((m n : ℕ) → b ≡ some m → c ≡ some n → (m ≢ n) ⊎ (m ≡ 0))
unfolding same_channel
same_channel-apart none c = (λ h m n p q. cc, λ h. refl)
same_channel-apart (some b) none = (λ h m n p q. cc, λ h. refl)
same_channel-apart (some b) (some c) =
    (λ h m n p q. ground arith, λ h. let k = h b c refl refl in ground arith)

-- A backhaul is accepted exactly if it is not enabled, or it has two radios of the router, one for
-- the backhaul and another for the clients, which do not share a fixed channel.
pub validate_mesh_backhaul_config_iff :
    (backhaul : MeshBackhaulConfig) (targets : List String) (channels : List RadioChannelConfig)
    → (validate_mesh_backhaul_config backhaul targets channels ≡ ok tt)
      ↔ (backhaul.enabled ≡ true → IsDedicated backhaul targets channels)
unfolding validate_mesh_backhaul_config
validate_mesh_backhaul_config_iff backhaul targets channels =
    let apart =
      same_channel-apart (channel_of channels backhaul.backhaul_target)
        (channel_of channels backhaul.client_target) in
    (
      λ h on. record {
        radios = ground arith;
        apart = ground arith;
        backhaul_radio = ground arith;
        client_radio = ground arith;
        channels_apart = apart.0 (ground arith);
      },
      λ h. elim (Bool-cases backhaul.enabled) [
        | inl on ↦
            let d = h on in
            ground
              (arith, apart.1 d.channels_apart, d.radios, d.apart, d.backhaul_radio, d.client_radio)
        | inr off ↦ ground arith
      ],
    )
