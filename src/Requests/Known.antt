-- ===== src/Requests/Known.antt =====
-- When a Wi-Fi request is known: what admission answers to one that it has seen before.
use unetic_core.Prelude.{
  ◌≡◌, ◌≢◌, refl, ◌∙◌, ap, false, Option, none, some, String, ok, >>=-ok, arith,
}
use unetic_core.Domain.Roaming.{RoamingConfig}
use unetic_core.Domain.Wifi.{SetWifiConfigRequest}
use unetic_core.Domain.Operation.{OperationAccepted, PublicOperation, LastOperation}
use unetic_core.App.State.{Inner}
use unetic_core.Requests.Admission.{
  Admission, replay, check_idempotency, requested_roaming, wifi_intent, decide, admit_wifi,
  validate_wifi_request, check_app_ready,
}

-- What admission reads of the state, but for the operations that are known.
pub record SameBase (s t : Inner) : Type 0 where
  pub config : t.config ≡ s.config
  pub lifecycle : t.lifecycle ≡ s.lifecycle
  pub maintenance : t.maintenance ≡ s.maintenance

same_validation :
    (request : SetWifiConfigRequest) (s t : Inner)
    → SameBase s t
    → validate_wifi_request request t ≡ validate_wifi_request request s
unfolding validate_wifi_request check_app_ready
same_validation request s t q = rw q.maintenance (rw q.lifecycle (rw q.config refl))

pub known_active :
    (request : SetWifiConfigRequest) (s : Inner) (active : PublicOperation)
    → s.active_operation ≡ some active
    → active.request_id ≡ some request.request_id
    → active.intent ≡ some (wifi_intent request (requested_roaming request s))
    → check_idempotency s request (requested_roaming request s)
      ≡ ok (some (record { operation_id = active.id; status = active.status; noop = false }))
unfolding check_idempotency
known_active request s active a r i = ground arith

pub known_last :
    (request : SetWifiConfigRequest) (s : Inner) (last : LastOperation)
    → s.active_operation ≡ none
    → s.last_user_operation ≡ some last
    → last.request_id ≡ some request.request_id
    → last.intent ≡ some (wifi_intent request (requested_roaming request s))
    → check_idempotency s request (requested_roaming request s)
      ≡ ok (some (record { operation_id = last.id; status = last.status; noop = false }))
unfolding check_idempotency
known_last request s last a l r i = ground arith

-- A change is decided on only while no operation runs.
is_free :
    (request : SetWifiConfigRequest) (s : Inner) (roaming : RoamingConfig)
    → check_idempotency s request roaming ≡ ok none
    → s.active_operation ≡ none
unfolding check_idempotency
is_free request s roaming h = ground arith

abbrev pub Fresh : SetWifiConfigRequest → Inner → Type 0
Fresh request s = (validate_wifi_request request s ≡ ok tt) × (s.active_operation ≡ none)

decided :
    (request : SetWifiConfigRequest) (s : Inner) (known : Option OperationAccepted) (a : Admission)
    → decide request s known ≡ ok a
    → ((k : OperationAccepted) → a ≢ replay k)
    → known ≡ none
unfolding decide
decided request s none a h n = refl
decided request s (some known) a h n = absurd (n known (ground arith))

pub fresh :
    (request : SetWifiConfigRequest) (s : Inner) (a : Admission)
    → admit_wifi request s ≡ ok a
    → ((k : OperationAccepted) → a ≢ replay k)
    → Fresh request s
unfolding admit_wifi
fresh request s a h n =
    let (valid, p, h₁) = >>=-ok (validate_wifi_request request s) _ h in
    let (known, q, h₂) = >>=-ok (check_idempotency s request (requested_roaming request s)) _ h₁ in
    (p, is_free request s _ (q ∙ ap ok (decided request s known a h₂ n)))

-- The next time, the same request is answered with this operation.
abbrev pub Repeats : SetWifiConfigRequest → Inner → String → Type 0
Repeats request t id =
    (known : OperationAccepted) × (admit_wifi request t ≡ ok (replay known))
    × (known.operation_id ≡ id)

pub admit_known :
    (request : SetWifiConfigRequest) (s t : Inner) (known : OperationAccepted)
    → validate_wifi_request request s ≡ ok tt
    → SameBase s t
    → check_idempotency t request (requested_roaming request t) ≡ ok (some known)
    → admit_wifi request t ≡ ok (replay known)
unfolding admit_wifi decide
admit_known request s t known v q h = rw (same_validation request s t q) (rw v (rw h refl))

pub same_roaming :
    (request : SetWifiConfigRequest) (s t : Inner)
    → SameBase s t
    → requested_roaming request t ≡ requested_roaming request s
unfolding requested_roaming
same_roaming request s t q = rw q.config refl
