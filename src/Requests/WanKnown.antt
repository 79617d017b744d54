-- ===== src/Requests/WanKnown.antt =====
-- When a WAN request is known: what admission answers to one that it has seen before.
use unetic_core.Prelude.{
  ℕ, ◌≡◌, ◌≢◌, false, refl, ◌∙◌, ap, Option, none, some, String, ok, >>=-ok, arith,
}
use unetic_core.Domain.Wan.{SetWanRequest}
use unetic_core.Domain.Operation.{
  OperationAccepted, OperationIntent, PublicOperation, LastOperation,
}
use unetic_core.App.State.{Inner}
use unetic_core.Transaction.Context.{public_wan_operation}
use unetic_core.Requests.Admission.{Admission, replay, check_app_ready}
use unetic_core.Requests.WanAdmission.{
  validate_set_wan, normalized, check_wan_idempotency, decide_wan, admit_normalized, admit_wan,
  noop_wan_operation, build_wan_change_context,
}
use unetic_core.Requests.Known.{SameBase}
use unetic_core.Domain.Operation.{accepted}

known_active_wan :
    (request : SetWanRequest) (s : Inner) (active : PublicOperation)
    → s.active_operation ≡ some active
    → active.request_id ≡ some request.request_id
    → active.intent ≡ some (OperationIntent.wan request.wan)
    → check_wan_idempotency s request
      ≡ ok (some (record { operation_id = active.id; status = active.status; noop = false }))
unfolding check_wan_idempotency
known_active_wan request s active a r i = ground arith

known_last_wan :
    (request : SetWanRequest) (s : Inner) (last : LastOperation)
    → s.active_operation ≡ none
    → s.last_user_operation ≡ some last
    → last.request_id ≡ some request.request_id
    → last.intent ≡ some (OperationIntent.wan request.wan)
    → check_wan_idempotency s request
      ≡ ok (some (record { operation_id = last.id; status = last.status; noop = false }))
unfolding check_wan_idempotency
known_last_wan request s last a l r i = ground arith

wan_is_free :
    (request : SetWanRequest) (s : Inner)
    → check_wan_idempotency s request ≡ ok none
    → s.active_operation ≡ none
unfolding check_wan_idempotency
wan_is_free request s h = ground arith

wan_decided :
    (request : SetWanRequest) (s : Inner) (known : Option OperationAccepted) (a : Admission)
    → decide_wan request s known ≡ ok a
    → ((k : OperationAccepted) → a ≢ replay k)
    → known ≡ none
unfolding decide_wan
wan_decided request s none a h n = refl
wan_decided request s (some known) a h n = absurd (n known (ground arith))

-- the request, not yet normalized, is accepted in a core that is ready and idle
pub record IsFresh (request : SetWanRequest) (s : Inner) : Type 0 where
  pub valid : validate_set_wan request ≡ ok tt
  pub ready : check_app_ready s ≡ ok tt
  pub free : s.active_operation ≡ none

pub admit_wan-IsFresh :
    (request : SetWanRequest) (s : Inner) (a : Admission)
    → admit_wan request s ≡ ok a
    → ((k : OperationAccepted) → a ≢ replay k)
    → IsFresh request s
unfolding admit_wan admit_normalized
admit_wan-IsFresh request s a h n =
    let (u, p, h₁) = >>=-ok (validate_set_wan request) _ h in
    let (v, q, h₂) = >>=-ok (check_app_ready s) _ h₁ in
    let (known, r, h₃) = >>=-ok (check_wan_idempotency s (normalized request)) _ h₂ in
    record {
      valid = p;
      ready = q;
      free =
          wan_is_free (normalized request) s
            (r ∙ ap ok (wan_decided (normalized request) s known a h₃ n));
    }

same_ready : (s t : Inner) → SameBase s t → check_app_ready t ≡ check_app_ready s
unfolding check_app_ready
same_ready s t q = rw q.maintenance (rw q.lifecycle refl)

admit_known_wan :
    (request : SetWanRequest) (s t : Inner) (known : OperationAccepted)
    → IsFresh request s
    → SameBase s t
    → check_wan_idempotency t (normalized request) ≡ ok (some known)
    → admit_wan request t ≡ ok (replay known)
unfolding admit_wan admit_normalized decide_wan
admit_known_wan request s t known f q h =
    rw f.valid (rw (same_ready s t q) (rw f.ready (rw h refl)))

-- The next time, the same request is answered with this operation.
abbrev pub RepeatsWan : SetWanRequest → Inner → String → Type 0
RepeatsWan request t id =
    (known : OperationAccepted) × (admit_wan request t ≡ ok (replay known))
    × (known.operation_id ≡ id)

pub active-RepeatsWan :
    (request : SetWanRequest) (s t : Inner) (id : String)
    → IsFresh request s
    → SameBase s t
    → t.active_operation
      ≡ some
          (public_wan_operation (build_wan_change_context s id (normalized request)) accepted none)
    → RepeatsWan request t id
unfolding public_wan_operation build_wan_change_context
active-RepeatsWan request s t id f q a = (
  _,
  admit_known_wan request s t _ f q (known_active_wan (normalized request) t _ a refl refl),
  refl,
)

pub last-RepeatsWan :
    (request : SetWanRequest) (s t : Inner) (noop : OperationAccepted) (now : ℕ)
    → IsFresh request s
    → SameBase s t
    → t.active_operation ≡ s.active_operation
    → t.last_user_operation
      ≡ some (noop_wan_operation noop s.config.revision (normalized request) now)
    → RepeatsWan request t noop.operation_id
unfolding noop_wan_operation
last-RepeatsWan request s t noop now f q k l = (
  _,
  admit_known_wan request s t _ f q
      (known_last_wan (normalized request) t _ (k ∙ f.free) l refl refl),
  refl,
)
