-- ===== src/Requests/Journal.antt =====
-- A change is written to the journal before its worker is started.
use unetic_core.Prelude.{
  arith, ◌≢◌, ◌+◌, ◌%◌, ◌^◌, ◌≡◌, refl, ◌∙◌, ap, sym, subst, Option, none, some, String, ok, err,
}
use unetic_core.Domain.Wan.{SetWanRequest}
use unetic_core.Domain.Wifi.{SetWifiConfigRequest}
use unetic_core.Domain.Operation.{
  OperationAccepted, TransactionJournal, TransactionKind, accepted, user,
}
use unetic_core.Domain.Roaming.{RoamingConfig}
use unetic_core.Wan.Normalization.{normalize_wan_desired}
use unetic_core.Platform.{RouterBackend, Host}
use unetic_core.App.State.{App, Inner, StateTopic}
use unetic_core.App.Monad.{returns, host_call, ◌>>=◌}
use unetic_core.App.Ends.{Leaves}
use unetic_core.App.Leaves.{Leaves-bind, Leaves-gets, Leaves-modify, Leaves-try, Leaves-weaken}
use unetic_core.Transaction.Context.{ChangeContext, to_journal, WanChangeContext, to_wan_journal}
use unetic_core.Requests.Admission.{
  change, admit_wifi, requested_roaming, normalized_key, build_wifi_change_context,
}
use unetic_core.Requests.WanAdmission.{admit_wan, normalized, build_wan_change_context}
use unetic_core.Requests.Wifi.{
  Answer, WifiSetError, next_operation_id, spawn_worker, start_worker,
  persist_and_spawn_wifi_change, admit_change, admitted, set_wifi_config,
}
use unetic_core.Requests.Wan.{
  spawn_wan_worker, start_wan_worker, persist_and_spawn_wan_change, admit_wan_change, admitted_wan,
  set_wan,
}
use unetic_core.Requests.Repetition.{answer, ok_inj}
use unetic_core.Requests.Steps.{Holds, persist_transaction-Holds, publish_store, Any, everywhere}

-- What the journal of a WAN request says.
pub record RecordsWan (inner : Inner) (request : SetWanRequest) (id : String)
    (journal : TransactionJournal) : Type 0 where
  pub operation_id : journal.operation_id ≡ id
  pub request_id : journal.request_id ≡ request.request_id
  pub source : journal.source ≡ user
  pub base_revision : journal.base_revision ≡ inner.config.revision
  pub target_revision : journal.target_revision ≡ (inner.config.revision + 1) % 2 ^ 64
  pub kind : journal.kind ≡ TransactionKind.wan
  pub old_wan : journal.old_wan ≡ some inner.config.wan
  pub new_wan : journal.new_wan ≡ some (normalize_wan_desired request.wan)
  pub phase : journal.phase ≡ accepted

-- What the journal of a Wi-Fi request says.
pub record RecordsWifi (inner : Inner) (request : SetWifiConfigRequest) (id : String)
    (journal : TransactionJournal) : Type 0 where
  pub operation_id : journal.operation_id ≡ id
  pub request_id : journal.request_id ≡ request.request_id
  pub source : journal.source ≡ user
  pub base_revision : journal.base_revision ≡ inner.config.revision
  pub target_revision : journal.target_revision ≡ (inner.config.revision + 1) % 2 ^ 64
  pub kind : journal.kind ≡ TransactionKind.wifi
  pub old_ssid : journal.old_ssid ≡ inner.config.wifi.primary.ssid
  pub old_encryption : journal.old_encryption ≡ inner.config.wifi.primary.encryption
  pub old_key : journal.old_key ≡ inner.config.wifi.primary.key
  pub old_roaming : journal.old_roaming ≡ inner.config.wifi.roaming
  pub new_ssid : journal.new_ssid ≡ request.ssid
  pub new_encryption : journal.new_encryption ≡ request.encryption
  pub open_key : request.encryption ≡ "none" → journal.new_key ≡ none
  pub new_key : request.encryption ≢ "none" → journal.new_key ≡ request.key
  pub kept_roaming : request.roaming ≡ none → journal.new_roaming ≡ inner.config.wifi.roaming
  pub new_roaming :
      (roaming : RoamingConfig) → request.roaming ≡ some roaming → journal.new_roaming ≡ roaming
  pub targets : journal.targets ≡ inner.config.wifi.primary.targets
  pub phase : journal.phase ≡ accepted

-- the journal of the change that a WAN request starts under this id
abbrev recorded : SetWanRequest → Inner → String → TransactionJournal
recorded request inner id =
    to_wan_journal (build_wan_change_context inner id (normalized request)) accepted

module _ {W : Type 0} ⦃host : Host W⦄ where
  module _ ⦃backend : RouterBackend W⦄ where
    -- The journal of the operation that a WAN request is answered with.
    abbrev WanJournal : WanChangeContext → OperationAccepted → App W → Type 0
    WanJournal context a t =
        (a.operation_id ≡ context.operation_id) × Holds (to_wan_journal context accepted) t

    spawn_wan_worker-Holds :
        (context : WanChangeContext) (failure : Option String) (t : App W)
        → Holds (to_wan_journal context accepted) t
        → Leaves (WanJournal context) Any (spawn_wan_worker context failure t)
    unfolding spawn_wan_worker
    spawn_wan_worker-Holds context none t h = (refl, h)
    spawn_wan_worker-Holds context (some message) t h =
        Leaves-bind (λ _ _. Unit {0}) Any (WanJournal context) _ _ t (everywhere (λ _. Unit) _ tt)
          (λ _ u _. tt)

    persist_wan-Holds :
        (context : WanChangeContext) (t : App W)
        → Leaves (WanJournal context) Any (persist_and_spawn_wan_change context t)
    unfolding persist_and_spawn_wan_change start_wan_worker
    persist_wan-Holds context t =
        let journal = to_wan_journal context accepted in
        Leaves-try (λ _. Holds journal) Any (WanJournal context) Any _ _ t
          (persist_transaction-Holds journal t)
          (λ _ u h.
            Leaves-bind (λ _. Holds journal) Any (WanJournal context) _ _ u
              (everywhere (Holds journal) _ (publish_store StateTopic.operation u ∙ h))
              λ _ v k.
                Leaves-bind (λ _. Holds journal) Any (WanJournal context) (host_call (host.spawn _))
                  _ v k λ failure w l. spawn_wan_worker-Holds context failure w l)
          (λ e u h. Leaves-bind (λ _ _. Unit {0}) Any (WanJournal context) _ _ u tt (λ _ v _. tt))

    module _ (request : SetWanRequest) where
      abbrev WanRecorded : App W → OperationAccepted → App W → Type 0
      WanRecorded s a t = Holds (recorded request s.inner a.operation_id) t

      change-WanRecorded :
          (s u : App W) (id : String)
          → u.inner ≡ s.inner
          → Leaves (WanRecorded s) Any (admit_wan_change (normalized request) id u)
      unfolding admit_wan_change build_wan_change_context
      change-WanRecorded s u id q =
          let context = build_wan_change_context u.inner id (normalized request) in
          Leaves-gets (WanRecorded s) Any _ _ u (
            Leaves-modify (WanRecorded s) Any _ _ u (
              Leaves-weaken (WanJournal context) (WanRecorded s) Any
                (persist_and_spawn_wan_change context _)
                (λ a t (same, holds).
                  holds
                  ∙ ap (λ inner. some (recorded request inner id)) q
                  ∙ ap (λ name. some (recorded request s.inner name)) (sym same))
                (persist_wan-Holds context _)))

      answered-WanRecorded :
          (s t : App W) (a : OperationAccepted)
          → admit_wan request s.inner ≡ ok change
          → set_wan request s ≡ (returns a, t)
          → WanRecorded s a t
      unfolding set_wan admitted_wan next_operation_id
      answered-WanRecorded s t a h e =
          let started : Leaves (WanRecorded s) Any
              ((next_operation_id >>= admit_wan_change (normalized request)) s) =
            Leaves-bind (λ _ u. u.inner ≡ s.inner) Any (WanRecorded s) _ _ s refl
              (λ id u q. change-WanRecorded s u id q) in
          subst (Leaves (WanRecorded s) Any)
            (sym (ap (λ r. admitted_wan (normalized request) r s) h) ∙ e) started

      -- If a WAN request starts a change and is answered, then a journal is on the disk which has the id
      -- in the answer, the id of the request, the WAN configuration in force and its revision as the old
      -- ones, the normal form of the requested configuration as the new one, under the next revision, and
      -- the phase of an accepted operation.
      pub set_wan-WanRecorded :
          (s t : App W) (a : OperationAccepted)
          → admit_wan request s.inner ≡ ok change
          → set_wan request s ≡ (returns a, t)
          → (journal : TransactionJournal) × (t.store.transaction ≡ some journal)
            × RecordsWan s.inner request a.operation_id journal
      unfolding build_wan_change_context to_wan_journal normalized
      set_wan-WanRecorded s t a h e = (
        recorded request s.inner a.operation_id,
        answered-WanRecorded s t a h e,
        record {
          operation_id = refl;
          request_id = refl;
          source = refl;
          base_revision = refl;
          target_revision = refl;
          kind = refl;
          old_wan = refl;
          new_wan = refl;
          phase = refl;
        },
      )

abbrev recorded_wifi : SetWifiConfigRequest → Inner → String → TransactionJournal
recorded_wifi request inner id =
    to_journal (build_wifi_change_context inner id request (requested_roaming request inner))
      accepted

module _ {W : Type 0} ⦃host : Host W⦄ ⦃backend : RouterBackend W⦄ where
  -- The journal of the operation that a Wi-Fi request is answered with.
  abbrev WifiJournal : ChangeContext → Answer → App W → Type 0
  WifiJournal context answer t =
      (a : OperationAccepted)
      → answer ≡ ok a
      → (a.operation_id ≡ context.operation_id) × Holds (to_journal context accepted) t

  refused-WifiJournal :
      (context : ChangeContext) (e : WifiSetError) (t : App W) → WifiJournal context (err e) t
  refused-WifiJournal context e t a h = cc

  spawn_worker-Holds :
      (context : ChangeContext) (failure : Option String) (t : App W)
      → Holds (to_journal context accepted) t
      → Leaves (WifiJournal context) Any (spawn_worker context failure t)
  unfolding spawn_worker
  spawn_worker-Holds context none t h =
      λ a e. (ap (λ (o : OperationAccepted). o.operation_id) (sym (ok_inj e)), h)
  spawn_worker-Holds context (some message) t h =
      Leaves-bind (λ _ _. Unit {0}) Any (WifiJournal context) _ _ t (everywhere (λ _. Unit) _ tt)
        (λ _ u _. refused-WifiJournal context _ u)

  persist_wifi-Holds :
      (context : ChangeContext) (t : App W)
      → Leaves (WifiJournal context) Any (persist_and_spawn_wifi_change context t)
  unfolding persist_and_spawn_wifi_change start_worker
  persist_wifi-Holds context t =
      let journal = to_journal context accepted in
      Leaves-try (λ _. Holds journal) Any (WifiJournal context) Any _ _ t
        (persist_transaction-Holds journal t)
        (λ _ u h.
          Leaves-bind (λ _. Holds journal) Any (WifiJournal context) _ _ u
            (everywhere (Holds journal) _ (publish_store StateTopic.operation u ∙ h))
            λ _ v k.
              Leaves-bind (λ _. Holds journal) Any (WifiJournal context) (host_call (host.spawn _))
                _ v k λ failure w l. spawn_worker-Holds context failure w l)
        (λ e u h.
          Leaves-bind (λ _ _. Unit {0}) Any (WifiJournal context) _ _ u tt
            (λ _ v _. refused-WifiJournal context _ v))

  module _ (request : SetWifiConfigRequest) where
    abbrev WifiRecorded : App W → Answer → App W → Type 0
    WifiRecorded s answer t =
        (a : OperationAccepted)
        → answer ≡ ok a
        → Holds (recorded_wifi request s.inner a.operation_id) t

    change-WifiRecorded :
        (s u : App W) (id : String)
        → u.inner ≡ s.inner
        → Leaves (WifiRecorded s) Any (admit_change request id u)
    unfolding admit_change build_wifi_change_context
    change-WifiRecorded s u id q =
        let context =
          build_wifi_change_context u.inner id request (requested_roaming request u.inner) in
        Leaves-gets (WifiRecorded s) Any _ _ u (
          Leaves-modify (WifiRecorded s) Any _ _ u (
            Leaves-weaken (WifiJournal context) (WifiRecorded s) Any
              (persist_and_spawn_wifi_change context _)
              (λ answer t journal a h.
                let (same, holds) = journal a h in
                holds
                ∙ ap (λ inner. some (recorded_wifi request inner id)) q
                ∙ ap (λ name. some (recorded_wifi request s.inner name)) (sym same))
              (persist_wifi-Holds context _)))

    answered-WifiRecorded :
        (s t : App W) (a : OperationAccepted)
        → admit_wifi request s.inner ≡ ok change
        → set_wifi_config request s ≡ (returns (ok a), t)
        → Holds (recorded_wifi request s.inner a.operation_id) t
    unfolding set_wifi_config admitted next_operation_id
    answered-WifiRecorded s t a h e =
        let started : Leaves (WifiRecorded s) Any ((next_operation_id >>= admit_change request) s) =
          Leaves-bind (λ _ u. u.inner ≡ s.inner) Any (WifiRecorded s) _ _ s refl
            (λ id u q. change-WifiRecorded s u id q) in
        subst (Leaves (WifiRecorded s) Any) (sym (ap (λ r. admitted request r s) h) ∙ e) started a
          refl

    -- If a Wi-Fi request starts a change and is accepted, then a journal is on the disk which has the id
    -- in the answer, the id of the request, the network, the roaming and the revision in force as the old
    -- ones, the requested network (an open one without a key) and the requested roaming, or the one in
    -- force where none is requested, as the new ones, under the next revision, the managed targets, and
    -- the phase of an accepted operation.
    pub set_wifi_config-WifiRecorded :
        (s t : App W) (a : OperationAccepted)
        → admit_wifi request s.inner ≡ ok change
        → set_wifi_config request s ≡ (returns (ok a), t)
        → (journal : TransactionJournal) × (t.store.transaction ≡ some journal)
          × RecordsWifi s.inner request a.operation_id journal
    unfolding build_wifi_change_context to_journal normalized_key requested_roaming
    set_wifi_config-WifiRecorded s t a h e = (
      recorded_wifi request s.inner a.operation_id,
      answered-WifiRecorded s t a h e,
      record {
        operation_id = refl;
        request_id = refl;
        source = refl;
        base_revision = refl;
        target_revision = refl;
        kind = refl;
        old_ssid = refl;
        old_encryption = refl;
        old_key = refl;
        old_roaming = refl;
        new_ssid = refl;
        new_encryption = refl;
        open_key = λ h. ground (arith, h);
        new_key = λ h. ground (arith, h);
        kept_roaming = λ h. rw h;
        new_roaming = λ roaming h. rw h;
        targets = refl;
        phase = refl;
      },
    )
