-- ===== src/App/Quiet.antt =====
-- Actions that leave the desired configuration, its file and the user's last operation as they are.
use unetic_core.Prelude.{
  ◌≡◌, refl, ◌∙◌, Bool, true, false, Option, none, List, String, if◌then◌else◌, ok, err, arith, Map,
}
use unetic_core.Domain.Errors.{LegacyAppError, Fallible}
use unetic_core.Domain.Roaming.{RoamingConfig}
use unetic_core.Domain.Wifi.{WifiNetworkConfig}
use unetic_core.Domain.Operation.{OperationStatus}
use unetic_core.Platform.{RouterBackend, Host, Effect}
use unetic_core.App.State.{App, Inner, StateTopic}
use unetic_core.App.Monad.{
  Action, Outcome, returns, fails, hangs, ◌>>=◌, pure, raise, hang, gets, lift, call, host_call,
  try, ignore, modify_inner, recover, continue,
}
use unetic_core.App.Publisher.{publish, queue_state_update, send_pending_state}
use unetic_core.App.Store.{clear_transaction}
use unetic_core.App.Observation.{with_inner, observe_wifi, refresh_observed}
use unetic_core.Transaction.Context.{ChangeContext}
use unetic_core.App.WifiOperations.{
  set_operation_status_with_kind, set_operation_status, clear_journal_if,
}

pub record Quiet {W : Type 0} (s t : App W) : Type 0 where
  pub config : t.inner.config ≡ s.inner.config
  pub stored : t.store.config ≡ s.store.config
  pub last : t.inner.last_user_operation ≡ s.inner.last_user_operation
  pub timing : t.timing ≡ s.timing
  pub idle : s.inner.active_operation ≡ none → t.inner.active_operation ≡ none

pub record Quietly {W A : Type 0} (m : Action W A) : Type 0 where
  pub at : (s : App W) → Quiet s (m s).1

module _ {W : Type 0} where
  pub Quiet-refl : (s : App W) → Quiet s s
  Quiet-refl s = record { config = refl; stored = refl; last = refl; timing = refl; idle = λ h. h }

  pub Quiet-trans : {s t u : App W} → Quiet s t → Quiet t u → Quiet s u
  Quiet-trans p q = record {
    config = q.config ∙ p.config;
    stored = q.stored ∙ p.stored;
    last = q.last ∙ p.last;
    timing = q.timing ∙ p.timing;
    idle = λ h. q.idle (p.idle h);
  }

module _ {W A : Type 0} where
  pub Quietly-pure : (a : A) → Quietly {W = W} (pure a)
  Quietly-pure a = record { at = Quiet-refl }

  pub Quietly-raise : (e : LegacyAppError) → Quietly {W = W} {A = A} (raise e)
  Quietly-raise e = record { at = Quiet-refl }

  pub Quietly-hang : Quietly {W = W} {A = A} hang
  Quietly-hang = record { at = Quiet-refl }

  pub Quietly-gets : (f : App W → A) → Quietly (gets f)
  Quietly-gets f = record { at = Quiet-refl }

  pub Quietly-lift : (r : Fallible A) → Quietly {W = W} (lift r)
  Quietly-lift r = record { at = Quiet-refl }

  pub Quietly-call : (f : Effect W A) → Quietly (call f)
  Quietly-call f = record {
    at = λ s. record { config = refl; stored = refl; last = refl; timing = refl; idle = λ h. h };
  }

  pub Quietly-host_call : (f : W → A × W) → Quietly (host_call f)
  Quietly-host_call f = record {
    at = λ s. record { config = refl; stored = refl; last = refl; timing = refl; idle = λ h. h };
  }

  recover-Quiet : (s : App W) (r : Outcome A × App W) → Quiet s r.1 → Quiet s (recover r).1
  recover-Quiet s (returns a, t) q = q
  recover-Quiet s (fails e, t) q = q
  recover-Quiet s (hangs, t) q = q

  pub Quietly-try : (m : Action W A) → Quietly m → Quietly (try m)
  Quietly-try m q = record { at = λ s. recover-Quiet s (m s) (q.at s) }

  pub Quietly-if :
      (b : Bool) (m n : Action W A) → Quietly m → Quietly n → Quietly (if b then m else n)
  Quietly-if true m n p q = p
  Quietly-if false m n p q = q

module _ {W A B : Type 0} where
  continue-Quiet :
      (s : App W) (r : Outcome A × App W) (f : A → Action W B)
      → Quiet s r.1
      → ((a : A) → Quietly (f a))
      → Quiet s (continue r f).1
  continue-Quiet s (returns a, t) f q k = Quiet-trans q ((k a).at t)
  continue-Quiet s (fails e, t) f q k = q
  continue-Quiet s (hangs, t) f q k = q

  pub Quietly-bind :
      (m : Action W A) (f : A → Action W B)
      → Quietly m
      → ((a : A) → Quietly (f a))
      → Quietly (m >>= f)
  unfolding ◌>>=◌
  Quietly-bind m f q k = record { at = λ s. continue-Quiet s (m s) f (q.at s) k }

module _ {W A : Type 0} where
  pub Quietly-ignore : (m : Action W A) → Quietly m → Quietly (ignore m)
  unfolding ignore
  Quietly-ignore m q = Quietly-bind (try m) (λ _. pure tt) (Quietly-try m q) (λ _. Quietly-pure tt)

pub ruleset quiet_rules = (
  Quietly-pure, Quietly-raise, Quietly-hang, Quietly-gets, Quietly-lift, Quietly-call,
  Quietly-host_call, Quietly-try, Quietly-if, Quietly-bind, Quietly-ignore,
)

module _ {W : Type 0} ⦃host : Host W⦄ where
  pub Quietly-publish : (topic : StateTopic) → Quietly (publish {W = W} topic)
  unfolding publish queue_state_update send_pending_state
  Quietly-publish topic = record {
    at = λ s. record {
      config = ground arith;
      stored = ground arith;
      last = ground arith;
      timing = ground arith;
      idle = λ h. ground arith;
    };
  }

  Quietly-mark :
      (f : Inner → Inner)
      → ((inner : Inner)
          → ((f inner).config ≡ inner.config)
            × ((f inner).last_user_operation ≡ inner.last_user_operation)
            × (inner.active_operation ≡ none → (f inner).active_operation ≡ none))
      → Quietly {W = W} (modify_inner f)
  Quietly-mark f same = record {
    at = λ s. record {
      config = (same s.inner).0;
      stored = refl;
      last = (same s.inner).1;
      timing = refl;
      idle = (same s.inner).2;
    };
  }

  pub Quietly-set_operation_status_with_kind :
      (id kind : String) (status : OperationStatus) (error : Option LegacyAppError)
      → Quietly {W = W} (set_operation_status_with_kind id kind status error)
  unfolding set_operation_status_with_kind
  Quietly-set_operation_status_with_kind id kind status error =
      Quietly-bind _ _ (Quietly-mark _ (λ inner. (refl, refl, λ h. ground arith)))
        λ _. Quietly-bind _ _ (Quietly-publish StateTopic.wifi) λ _. Quietly-pure tt

  pub Quietly-set_operation_status :
      (context : ChangeContext) (status : OperationStatus) (error : Option LegacyAppError)
      → Quietly {W = W} (set_operation_status context status error)
  unfolding set_operation_status
  Quietly-set_operation_status context status error =
      Quietly-set_operation_status_with_kind context.operation_id "wifi.set_config" status error

  pub Quietly-clear_transaction : Quietly (clear_transaction {W = W})
  unfolding clear_transaction ◌>>=◌
  Quietly-clear_transaction = record {
    at = λ s. record {
      config = ground arith;
      stored = ground arith;
      last = ground arith;
      timing = ground arith;
      idle = λ h. ground arith;
    };
  }

  pub Quietly-clear_journal_if : (wanted : Bool) → Quietly {W = W} (clear_journal_if wanted)
  unfolding clear_journal_if
  Quietly-clear_journal_if wanted = search (quiet_rules, Quietly-clear_transaction)

  module _ ⦃backend : RouterBackend W⦄ where
    Quietly-with_inner :
        (f : Inner → Inner × Bool)
        → ((inner : Inner)
            → ((f inner).0.config ≡ inner.config)
              × ((f inner).0.last_user_operation ≡ inner.last_user_operation)
              × ((f inner).0.active_operation ≡ inner.active_operation))
        → Quietly {W = W} (with_inner f)
    unfolding with_inner
    Quietly-with_inner f same = record {
      at = λ s. record {
        config = (same s.inner).0;
        stored = refl;
        last = (same s.inner).1;
        timing = refl;
        idle = λ h. (same s.inner).2 ∙ h;
      };
    }

    Quietly-observe_wifi :
        (targets : List String) (desired : WifiNetworkConfig) (roaming : RoamingConfig)
        (changed : Bool) (configs : Fallible (Map WifiNetworkConfig))
        → Quietly {W = W} (observe_wifi targets desired roaming changed configs)
    unfolding observe_wifi
    Quietly-observe_wifi targets desired roaming changed (ok configs) =
        Quietly-bind _ _ (Quietly-try _ (Quietly-call _)) λ _.
          Quietly-bind _ _ (Quietly-host_call _) λ _.
            Quietly-bind _ _ (Quietly-try _ (Quietly-call _))
              λ _. Quietly-with_inner _ (λ inner. (refl, refl, refl))
    Quietly-observe_wifi targets desired roaming changed (err error) =
        Quietly-bind _ _ (Quietly-host_call _)
          λ _. Quietly-with_inner _ (λ inner. (refl, refl, refl))

    pub Quietly-refresh_observed : Quietly {W = W} refresh_observed
    unfolding refresh_observed
    Quietly-refresh_observed = Quietly-bind _ _ (Quietly-gets _) λ desired.
        Quietly-bind _ _ (Quietly-gets _) λ roaming.
          Quietly-bind _ _ (Quietly-try _ (Quietly-call _)) λ observation.
            Quietly-bind _ _
              (Quietly-with_inner _ (λ inner. (ground arith, ground arith, ground arith)))
              λ changed. Quietly-if _ _ _ (Quietly-pure _) (
                Quietly-bind _ _ (Quietly-try _ (Quietly-call _))
                  λ configs. Quietly-observe_wifi _ _ _ _ configs)
