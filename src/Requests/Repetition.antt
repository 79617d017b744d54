-- ===== src/Requests/Repetition.antt =====
-- States in which a Wi-Fi request is a repetition of an earlier one.
use unetic_core.Prelude.{ℕ, ◌≡◌, refl, ◌∙◌, sym, ap, none, some, String, ok, arith}
use unetic_core.Domain.Wifi.{SetWifiConfigRequest}
use unetic_core.Domain.Operation.{OperationAccepted, accepted}
use unetic_core.App.State.{Inner}
use unetic_core.Transaction.Context.{public_operation}
use unetic_core.Requests.Admission.{
  requested_roaming, wifi_intent, noop_last_operation, build_wifi_change_context,
}
use unetic_core.Requests.Wifi.{Answer}
use unetic_core.Requests.Known.{
  SameBase, Repeats, Fresh, known_active, known_last, admit_known, same_roaming,
}

-- What the sending of events and the files leave of the state.
pub record Kept (s t : Inner) : Type 0 where
  pub base : SameBase s t
  pub active : t.active_operation ≡ s.active_operation
  pub last : t.last_user_operation ≡ s.last_user_operation

pub Kept-refl : (s : Inner) → Kept s s
Kept-refl s = record {
  base = record { config = refl; lifecycle = refl; maintenance = refl };
  active = refl;
  last = refl;
}

pub Kept-trans : {s t u : Inner} → Kept s t → Kept t u → Kept s u
Kept-trans p q = record {
  base = record {
    config = q.base.config ∙ p.base.config;
    lifecycle = q.base.lifecycle ∙ p.base.lifecycle;
    maintenance = q.base.maintenance ∙ p.base.maintenance;
  };
  active = q.active ∙ p.active;
  last = q.last ∙ p.last;
}

-- While the change is still the active operation, the same request is a repetition of it.
pub active-Repeats :
    (request : SetWifiConfigRequest) (s t : Inner) (id : String)
    → Fresh request s
    → SameBase s t
    → t.active_operation
      ≡ some (
          public_operation
            (build_wifi_change_context s id request (requested_roaming request s))
            accepted
            none)
    → Repeats request t id
unfolding public_operation build_wifi_change_context wifi_intent
active-Repeats request s t id f q a = (
  _,
  admit_known request s t _ f.0 q (
      known_active request t _ a refl
        (ap (λ r. some (wifi_intent request r)) (sym (same_roaming request s t q)))),
  refl,
)

-- After a request that changed nothing, it is the last operation.
pub last-Repeats :
    (request : SetWifiConfigRequest) (s t : Inner) (noop : OperationAccepted) (now : ℕ)
    → Fresh request s
    → SameBase s t
    → t.active_operation ≡ s.active_operation
    → t.last_user_operation
      ≡ some (noop_last_operation noop s.config.revision request (requested_roaming request s) now)
    → Repeats request t noop.operation_id
unfolding noop_last_operation
last-Repeats request s t noop now f base k l = (
  _,
  admit_known request s t _ f.0 base (
      known_last request t _ (k ∙ f.1) l refl
        (ap (λ r. some (wifi_intent request r)) (sym (same_roaming request s t base)))),
  refl,
)

pub Kept-eq : {s t : Inner} → t ≡ s → Kept s t
Kept-eq q = record {
  base = record {
    config = ap (λ (i : Inner). i.config) q;
    lifecycle = ap (λ (i : Inner). i.lifecycle) q;
    maintenance = ap (λ (i : Inner). i.maintenance) q;
  };
  active = ap (λ (i : Inner). i.active_operation) q;
  last = ap (λ (i : Inner). i.last_user_operation) q;
}

abbrev pub answer : OperationAccepted → Answer
answer a = ok a

pub ok_inj : {a b : OperationAccepted} → answer a ≡ answer b → a ≡ b
ok_inj h = ground arith
