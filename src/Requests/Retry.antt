-- ===== src/Requests/Retry.antt =====
-- A Wi-Fi request can be repeated safely: the answer names the operation of the first time.
use unetic_core.Prelude.{◌≡◌, refl, ◌∙◌, ap, subst, true, Option, none, some, String, ok, err}
use unetic_core.Domain.Errors.{Fallible}
use unetic_core.Domain.Wifi.{SetWifiConfigRequest}
use unetic_core.Domain.Operation.{OperationAccepted, accepted, succeeded}
use unetic_core.Platform.{RouterBackend, Host}
use unetic_core.App.State.{App, StateTopic}
use unetic_core.App.Monad.{returns, host_call}
use unetic_core.App.Ends.{Leaves}
use unetic_core.App.Leaves.{Leaves-bind, Leaves-gets, Leaves-modify}
use unetic_core.Transaction.Context.{ChangeContext, public_operation}
use unetic_core.Requests.Admission.{
  Admission, replay, unchanged, change, requested_roaming, admit_wifi, noop_last_operation,
  build_wifi_change_context,
}
use unetic_core.Requests.Wifi.{
  WifiSetError, Answer, next_operation_id, spawn_worker, start_worker,
  persist_and_spawn_wifi_change, admit_change, admit_noop, admitted, set_wifi_config,
}
use unetic_core.Requests.Repetition.{
  Kept, Kept-trans, Kept-eq, active-Repeats, last-Repeats, ok_inj,
}
use unetic_core.Requests.Steps.{publish-Kept, recover-inner, Any, everywhere, persist_inner}
use unetic_core.Requests.Known.{Repeats, fresh}

module _ {W : Type 0} ⦃host : Host W⦄ where
  module _ ⦃backend : RouterBackend W⦄ (request : SetWifiConfigRequest) where
    abbrev Answered : Answer → App W → Type 0
    Answered answer t =
        (a : OperationAccepted) → answer ≡ ok a → Repeats request t.inner a.operation_id

    refused-Answered : (e : WifiSetError) (t : App W) → Answered (err e) t
    refused-Answered e t a h = cc

    spawn_worker-Answered :
        (context : ChangeContext) (failure : Option String) (t : App W)
        → Repeats request t.inner context.operation_id
        → Leaves Answered Any (spawn_worker context failure t)
    unfolding spawn_worker
    spawn_worker-Answered context none t h =
        λ a e. (h.0, h.1, h.2 ∙ ap (λ (o : OperationAccepted). o.operation_id) (ok_inj e))
    spawn_worker-Answered context (some message) t h =
        Leaves-bind (λ _ _. Unit {0}) Any Answered _ _ t (everywhere (λ _. Unit) _ tt)
          (λ _ u _. refused-Answered _ u)

    abbrev After : App W → App W → Type 0
    After s t = Kept s.inner t.inner

    start_worker-Answered :
        (context : ChangeContext) (saved : Fallible (Unit {0})) (t : App W)
        → ((u : App W) → After t u → Repeats request u.inner context.operation_id)
        → Leaves Answered Any (start_worker context saved t)
    unfolding start_worker
    start_worker-Answered context (err error) t h =
        Leaves-bind (λ _ _. Unit {0}) Any Answered _ _ t tt (λ _ u _. refused-Answered _ u)
    start_worker-Answered context (ok _) t h =
        Leaves-bind (λ _. After t) Any Answered _ _ t
          (everywhere (After t) _ (publish-Kept StateTopic.operation t))
          λ _ u k.
            Leaves-bind (λ _. After t) Any Answered (host_call (host.spawn _)) _ u k
              λ failure v k₂. spawn_worker-Answered context failure v (h v k₂)

    persist-Answered :
        (context : ChangeContext) (t : App W)
        → ((u : App W) → After t u → Repeats request u.inner context.operation_id)
        → Leaves Answered Any (persist_and_spawn_wifi_change context t)
    unfolding persist_and_spawn_wifi_change
    persist-Answered context t h =
        Leaves-bind (λ _. After t) Any Answered _ _ t
          (everywhere (After t) _ (Kept-eq (recover-inner _ ∙ persist_inner _ t)))
          (λ saved u k. start_worker-Answered context saved u (λ v k₂. h v (Kept-trans k k₂)))

    change-Answered :
        (id : String) (s : App W)
        → admit_wifi request s.inner ≡ ok change
        → Leaves Answered Any (admit_change request id s)
    unfolding admit_change build_wifi_change_context
    change-Answered id s e =
        let context =
          build_wifi_change_context s.inner id request (requested_roaming request s.inner) in
        Leaves-gets Answered Any _ _ s (
          Leaves-modify Answered Any _ _ s (
            persist-Answered context
              (record s {
                inner = record s.inner {
                  active_operation = some (public_operation context accepted none);
                };
              })
              λ u k.
                active-Repeats request s.inner u.inner id
                  (fresh request s.inner change e (λ k p. cc))
                  (record {
                    config = k.base.config;
                    lifecycle = k.base.lifecycle;
                    maintenance = k.base.maintenance;
                  })
                  k.active))

    unchanged-Answered :
        (id : String) (s : App W)
        → admit_wifi request s.inner ≡ ok unchanged
        → Leaves Answered Any (admit_noop request id s)
    unfolding admit_noop
    unchanged-Answered id s e =
        let now = host.now_ms s.world in
        let noop : OperationAccepted = record {
          operation_id = id;
          status = succeeded;
          noop = true;
        } in
        let last =
          noop_last_operation noop s.inner.config.revision request
            (requested_roaming request s.inner) now in
        let noted = record s { inner = record s.inner { last_user_operation = some last } } in
        Leaves-gets Answered Any _ _ s (
          Leaves-modify Answered Any _ _ s (
            Leaves-bind (λ _. After noted) Any Answered _ _ noted
              (everywhere (After noted) _ (publish-Kept StateTopic.operation noted))
              (λ _ u k a h.
                let (known, p, q) =
                  last-Repeats request s.inner u.inner noop now
                    (fresh request s.inner unchanged e (λ k p. cc))
                    (record {
                      config = k.base.config;
                      lifecycle = k.base.lifecycle;
                      maintenance = k.base.maintenance;
                    })
                    k.active k.last in
                (known, p, q ∙ ap (λ (o : OperationAccepted). o.operation_id) (ok_inj h)))))

    admitted-Answered :
        (s : App W) (answer : Fallible Admission)
        → admit_wifi request s.inner ≡ answer
        → Leaves Answered Any (admitted request answer s)
    unfolding admitted next_operation_id
    admitted-Answered s (err error) e = refused-Answered _ s
    admitted-Answered s (ok (replay known)) e =
        λ a h. (known, e, ap (λ (o : OperationAccepted). o.operation_id) (ok_inj h))
    admitted-Answered s (ok unchanged) e =
        Leaves-bind (λ _ u. u.inner ≡ s.inner) Any Answered next_operation_id _ s refl
          (λ id u q. unchanged-Answered id u (ap (admit_wifi request) q ∙ e))
    admitted-Answered s (ok change) e =
        Leaves-bind (λ _ u. u.inner ≡ s.inner) Any Answered next_operation_id _ s refl
          (λ id u q. change-Answered id u (ap (admit_wifi request) q ∙ e))

    -- If a Wi-Fi request is accepted, then the same request, made again in the state that the first
    -- leaves, is accepted too: it names the same operation and changes nothing.
    pub set_wifi_config-set_wifi_config :
        (s t : App W) (a : OperationAccepted)
        → set_wifi_config request s ≡ (returns (ok a), t)
        → (b : OperationAccepted) × (set_wifi_config request t ≡ (returns (ok b), t))
          × (b.operation_id ≡ a.operation_id)
    unfolding set_wifi_config admitted
    set_wifi_config-set_wifi_config s t a h =
        let left : Leaves Answered Any (returns (ok a), t) =
          subst (Leaves Answered Any) h (admitted-Answered s _ refl) in
        let (known, e, q) = left a refl in (known, ap (λ r. admitted request r t) e, q)
