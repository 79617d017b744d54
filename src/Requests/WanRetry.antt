-- ===== src/Requests/WanRetry.antt =====
-- A WAN request can be repeated safely: the answer names the operation of the first time.
use unetic_core.Prelude.{true, ◌≡◌, refl, ◌∙◌, ap, subst, Option, none, some, String, ok, err}
use unetic_core.Domain.Errors.{Fallible}
use unetic_core.Domain.Wan.{SetWanRequest}
use unetic_core.Domain.Operation.{OperationAccepted, accepted, succeeded}
use unetic_core.Platform.{RouterBackend, Host}
use unetic_core.App.State.{App, StateTopic}
use unetic_core.App.Monad.{returns, host_call}
use unetic_core.App.Ends.{Leaves}
use unetic_core.App.Leaves.{Leaves-bind, Leaves-gets, Leaves-modify}
use unetic_core.Transaction.Context.{WanChangeContext, public_wan_operation}
use unetic_core.Requests.Admission.{Admission, replay, unchanged, change}
use unetic_core.Requests.WanAdmission.{
  admit_wan, normalized, noop_wan_operation, build_wan_change_context,
}
use unetic_core.Requests.Wifi.{next_operation_id}
use unetic_core.Requests.Wan.{
  spawn_wan_worker, start_wan_worker, persist_and_spawn_wan_change, admit_wan_noop,
  admit_wan_change, admitted_wan, set_wan,
}
use unetic_core.Requests.Repetition.{Kept, Kept-trans, Kept-eq}
use unetic_core.Requests.Steps.{publish-Kept, recover-inner, Any, everywhere, persist_inner}
use unetic_core.Requests.WanKnown.{
  RepeatsWan, admit_wan-IsFresh, active-RepeatsWan, last-RepeatsWan,
}

module _ {W : Type 0} ⦃host : Host W⦄ ⦃backend : RouterBackend W⦄ (request : SetWanRequest) where
  abbrev Repeated : OperationAccepted → App W → Type 0
  Repeated a t = RepeatsWan request t.inner a.operation_id

  abbrev After : App W → App W → Type 0
  After s t = Kept s.inner t.inner

  spawn_wan_worker-Repeated :
      (context : WanChangeContext) (failure : Option String) (t : App W)
      → RepeatsWan request t.inner context.operation_id
      → Leaves Repeated Any (spawn_wan_worker context failure t)
  unfolding spawn_wan_worker
  spawn_wan_worker-Repeated context none t h = h
  spawn_wan_worker-Repeated context (some message) t h =
      Leaves-bind (λ _ _. Unit {0}) Any Repeated _ _ t (everywhere (λ _. Unit) _ tt) (λ _ u _. tt)

  start_wan_worker-Repeated :
      (context : WanChangeContext) (saved : Fallible (Unit {0})) (t : App W)
      → ((u : App W) → After t u → RepeatsWan request u.inner context.operation_id)
      → Leaves Repeated Any (start_wan_worker context saved t)
  unfolding start_wan_worker
  start_wan_worker-Repeated context (err error) t h =
      Leaves-bind (λ _ _. Unit {0}) Any Repeated _ _ t tt (λ _ u _. tt)
  start_wan_worker-Repeated context (ok _) t h =
      Leaves-bind (λ _. After t) Any Repeated _ _ t
        (everywhere (After t) _ (publish-Kept StateTopic.operation t))
        λ _ u k.
          Leaves-bind (λ _. After t) Any Repeated (host_call (host.spawn _)) _ u k
            λ failure v k₂. spawn_wan_worker-Repeated context failure v (h v k₂)

  persist-Repeated :
      (context : WanChangeContext) (t : App W)
      → ((u : App W) → After t u → RepeatsWan request u.inner context.operation_id)
      → Leaves Repeated Any (persist_and_spawn_wan_change context t)
  unfolding persist_and_spawn_wan_change
  persist-Repeated context t h =
      Leaves-bind (λ _. After t) Any Repeated _ _ t
        (everywhere (After t) _ (Kept-eq (recover-inner _ ∙ persist_inner _ t)))
        (λ saved u k. start_wan_worker-Repeated context saved u (λ v k₂. h v (Kept-trans k k₂)))

  change-Repeated :
      (id : String) (s : App W)
      → admit_wan request s.inner ≡ ok change
      → Leaves Repeated Any (admit_wan_change (normalized request) id s)
  unfolding admit_wan_change build_wan_change_context
  change-Repeated id s e =
      let context = build_wan_change_context s.inner id (normalized request) in
      let fresh = admit_wan-IsFresh request s.inner change e (λ k p. cc) in
      Leaves-gets Repeated Any _ _ s (
        Leaves-modify Repeated Any _ _ s (
          persist-Repeated context
            (record s {
              inner = record s.inner {
                active_operation = some (public_wan_operation context accepted none);
              };
            })
            λ u k.
              active-RepeatsWan request s.inner u.inner id fresh
                (record {
                  config = k.base.config;
                  lifecycle = k.base.lifecycle;
                  maintenance = k.base.maintenance;
                })
                k.active))

  unchanged-Repeated :
      (id : String) (s : App W)
      → admit_wan request s.inner ≡ ok unchanged
      → Leaves Repeated Any (admit_wan_noop (normalized request) id s)
  unfolding admit_wan_noop
  unchanged-Repeated id s e =
      let now = host.now_ms s.world in
      let noop : OperationAccepted = record {
        operation_id = id;
        status = succeeded;
        noop = true;
      } in
      let last = noop_wan_operation noop s.inner.config.revision (normalized request) now in
      let noted = record s { inner = record s.inner { last_user_operation = some last } } in
      let fresh = admit_wan-IsFresh request s.inner unchanged e (λ k p. cc) in
      Leaves-gets Repeated Any _ _ s (
        Leaves-modify Repeated Any _ _ s (
          Leaves-bind (λ _. After noted) Any Repeated _ _ noted
            (everywhere (After noted) _ (publish-Kept StateTopic.operation noted))
            λ _ u k.
              last-RepeatsWan request s.inner u.inner noop now fresh
                (record {
                  config = k.base.config;
                  lifecycle = k.base.lifecycle;
                  maintenance = k.base.maintenance;
                })
                k.active k.last))

  admitted-Repeated :
      (s : App W) (answer : Fallible Admission)
      → admit_wan request s.inner ≡ answer
      → Leaves Repeated Any (admitted_wan (normalized request) answer s)
  unfolding admitted_wan next_operation_id
  admitted-Repeated s (err error) e = tt
  admitted-Repeated s (ok (replay known)) e = (known, e, refl)
  admitted-Repeated s (ok unchanged) e =
      Leaves-bind (λ _ u. u.inner ≡ s.inner) Any Repeated next_operation_id _ s refl
        (λ id u q. unchanged-Repeated id u (ap (admit_wan request) q ∙ e))
  admitted-Repeated s (ok change) e =
      Leaves-bind (λ _ u. u.inner ≡ s.inner) Any Repeated next_operation_id _ s refl
        (λ id u q. change-Repeated id u (ap (admit_wan request) q ∙ e))

  -- If a WAN request is accepted, then the same request, made again in the state that the first
  -- leaves, is accepted too: it names the same operation and changes nothing.
  pub set_wan-set_wan :
      (s t : App W) (a : OperationAccepted)
      → set_wan request s ≡ (returns a, t)
      → (b : OperationAccepted) × (set_wan request t ≡ (returns b, t))
        × (b.operation_id ≡ a.operation_id)
  unfolding set_wan admitted_wan
  set_wan-set_wan s t a h =
      let left : Leaves Repeated Any (returns a, t) =
        subst (Leaves Repeated Any) h (admitted-Repeated s _ refl) in
      let (known, e, q) = left in (known, ap (λ r. admitted_wan (normalized request) r t) e, q)
