-- ===== src/Requests/Safety.antt =====
-- When a Wi-Fi request starts a change.
use unetic_core.Prelude.{
  ◌≡◌, ◌≢◌, ◌⊎◌, inl, inr, refl, true, false, Option, none, some, String, ok, >>=-ok, arith,
}
use unetic_core.Domain.Wifi.{SetWifiConfigRequest, WifiDesired}
use unetic_core.Domain.Operation.{OperationAccepted}
use unetic_core.Domain.Config.{ready}
use unetic_core.App.State.{Inner}
use unetic_core.Requests.WifiValidation.{validate_wifi_config}
use unetic_core.Requests.WifiAcceptance.{IsSsid, IsKey, validate_wifi_config_iff}
use unetic_core.Requests.Admission.{
  change, decide, admit_wifi, validate_wifi_request, check_app_ready, check_idempotency,
  check_revision, requested_roaming, is_wifi_noop, normalized_key,
}
use unetic_core.Requests.Known.{fresh}

-- The request asks for what is desired already: an open network has no key, and a request without
-- roaming asks for the one in force.
abbrev pub IsDesired : SetWifiConfigRequest → WifiDesired → Type 0
IsDesired request current =
    (current.primary.ssid ≡ request.ssid)
    × (current.primary.encryption ≡ request.encryption)
    × ((request.encryption ≡ "none") × (current.primary.key ≡ none)
        ⊎ (request.encryption ≢ "none") × (current.primary.key ≡ request.key))
    × ((request.roaming ≡ none) ⊎ (request.roaming ≡ some current.roaming))
    × (current.backhaul ≡ request.backhaul)
    × (current.radio_channels ≡ request.radio_channels)

pub record IsStart (request : SetWifiConfigRequest) (inner : Inner) : Type 0 where
  pub ssid : IsSsid request.ssid
  pub key : request.encryption ≢ "none" → IsKey request.key
  pub awake : inner.maintenance ≡ false
  pub lifecycle : inner.lifecycle ≡ ready
  pub free : inner.active_operation ≡ none
  pub revision : request.expected_revision ≡ inner.config.revision
  pub differs : ¬ IsDesired request inner.config.wifi

decide-change :
    (request : SetWifiConfigRequest) (inner : Inner) (known : Option OperationAccepted)
    → decide request inner known ≡ ok change
    → (request.expected_revision ≡ inner.config.revision)
      × (is_wifi_noop inner.config.wifi request (requested_roaming request inner) ≡ false)
unfolding decide check_revision
decide-change request inner known h = (ground arith, ground arith)

normalized_key_lem :
    (request : SetWifiConfigRequest) (key : Option String)
    → (request.encryption ≡ "none") × (key ≡ none)
      ⊎ (request.encryption ≢ "none") × (key ≡ request.key)
    → key ≡ normalized_key request
unfolding normalized_key
normalized_key_lem request key (inl (e, k)) = ground arith
normalized_key_lem request key (inr (e, k)) = ground arith

requested_roaming_lem :
    (request : SetWifiConfigRequest) (inner : Inner)
    → (request.roaming ≡ none) ⊎ (request.roaming ≡ some inner.config.wifi.roaming)
    → inner.config.wifi.roaming ≡ requested_roaming request inner
unfolding requested_roaming
requested_roaming_lem request inner (inl e) = rw e refl
requested_roaming_lem request inner (inr e) = rw e refl

IsDesired-is_wifi_noop :
    (request : SetWifiConfigRequest) (inner : Inner)
    → IsDesired request inner.config.wifi
    → is_wifi_noop inner.config.wifi request (requested_roaming request inner) ≡ true
unfolding is_wifi_noop
IsDesired-is_wifi_noop request inner h = ground (
  arith,
  normalized_key_lem request inner.config.wifi.primary.key h.2,
  requested_roaming_lem request inner h.3,
  h,
)

-- A Wi-Fi request starts a change only if its name and key are well-formed, the core is ready and not
-- in maintenance, no operation runs, the client has seen the revision in force, and the request
-- differs from the desired configuration in the name, the encryption, the key, the roaming, the
-- backhaul or the channels.
pub admit_wifi-IsStart :
    (request : SetWifiConfigRequest) (inner : Inner)
    → admit_wifi request inner ≡ ok change
    → IsStart request inner
unfolding admit_wifi validate_wifi_request check_app_ready
admit_wifi-IsStart request inner h =
    let (valid, p, h₁) = >>=-ok (validate_wifi_request request inner) _ h in
    let (known, q, h₂) =
      >>=-ok (check_idempotency inner request (requested_roaming request inner)) _ h₁ in
    let (rev, differs) = decide-change request inner known h₂ in
    let wifi : validate_wifi_config request.ssid request.encryption request.key ≡ ok tt =
      ground arith in
    let accepts = (validate_wifi_config_iff request.ssid request.encryption request.key).0 wifi in
    record {
      ssid = accepts.0;
      key = accepts.1;
      awake = ground arith;
      lifecycle = ground arith;
      free = (fresh request inner change h (λ k e. cc)).1;
      revision = rev;
      differs = λ same. let noop = IsDesired-is_wifi_noop request inner same in cc;
    }
