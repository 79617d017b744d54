-- ===== src/Transaction/Marks.antt =====
-- The steps that mark the state of the core during a Wi-Fi change come to an end.
use unetic_core.Prelude.{refl, Bool, List, String, Option, none, some, Map, ok, err, arith}
use unetic_core.Domain.Errors.{LegacyAppError, Fallible}
use unetic_core.Domain.Roaming.{RoamingConfig}
use unetic_core.Domain.Wifi.{WifiNetworkConfig}
use unetic_core.Domain.Operation.{OperationStatus, TransactionJournal}
use unetic_core.Platform.{RouterBackend, Host, FileOutcome}
use unetic_core.App.State.{StateTopic, StateStore, Inner}
use unetic_core.App.Monad.{host_call}
use unetic_core.App.Store.{settle, persist_config, clear_present, clear_transaction}
use unetic_core.App.Publisher.{publish, queue_state_update, send_pending_state}
use unetic_core.App.Observation.{with_inner, observe_wifi, refresh_observed}
use unetic_core.App.WifiOperations.{
  set_operation_status_with_kind, set_operation_status, persist_new_desired, clear_journal_if,
  complete_success, mark_commit_uncertain, complete_failure,
}
use unetic_core.App.Timely.{
  IsSteady, Timely, Timely-pure, Timely-host_call, Timely-bind, timely_rules, result-Alive,
}
use unetic_core.Transaction.Context.{ChangeContext}

module _ {W : Type 0} ⦃backend : RouterBackend W⦄ ⦃host : Host W⦄
    (steady : IsSteady backend host) where
  pub Timely-publish : (topic : StateTopic) → Timely (publish {W = W} topic)
  unfolding publish queue_state_update send_pending_state
  Timely-publish topic = record {
    at = λ s d. (record { timing = ground arith; instant = ground arith }, tt);
  }

  pub Timely-set_operation_status_with_kind :
      (id kind : String) (status : OperationStatus) (error : Option LegacyAppError)
      → Timely {W = W} (set_operation_status_with_kind id kind status error)
  unfolding set_operation_status_with_kind
  Timely-set_operation_status_with_kind id kind status error = search (timely_rules, Timely-publish)

  pub Timely-set_operation_status :
      (context : ChangeContext) (status : OperationStatus) (error : Option LegacyAppError)
      → Timely {W = W} (set_operation_status context status error)
  unfolding set_operation_status
  Timely-set_operation_status context status error =
      Timely-set_operation_status_with_kind context.operation_id "wifi.set_config" status error

  pub Timely-settle :
      (change : StateStore → StateStore) (outcome : FileOutcome)
      → Timely {W = W} (settle change outcome)
  unfolding settle
  Timely-settle change outcome = record {
    at = λ s d. (record { timing = refl; instant = omega arith }, result-Alive _ s);
  }

  pub Timely-persist_new_desired :
      (context : ChangeContext) → Timely {W = W} (persist_new_desired context)
  unfolding persist_new_desired persist_config
  Timely-persist_new_desired context = search (timely_rules, Timely-settle, steady.write_file)

  Timely-clear_present : (file : Option TransactionJournal) → Timely {W = W} (clear_present file)
  unfolding clear_present
  Timely-clear_present none = Timely-pure tt
  Timely-clear_present (some journal) = record {
    at = λ s d.
        (Timely-bind (host_call (host.remove_file "transaction.json")) _
            (Timely-host_call _ (steady.remove_file _)) (Timely-settle _)).at
          s d;
  }

  pub Timely-clear_transaction : Timely {W = W} clear_transaction
  unfolding clear_transaction
  Timely-clear_transaction = record {
    at = λ s d. (Timely-clear_present s.store.transaction).at s d;
  }

  pub Timely-clear_journal_if : (wanted : Bool) → Timely {W = W} (clear_journal_if wanted)
  unfolding clear_journal_if
  Timely-clear_journal_if wanted = search (timely_rules, Timely-clear_transaction)

  Timely-with_inner : (f : Inner → Inner × Bool) → Timely {W = W} (with_inner f)
  unfolding with_inner
  Timely-with_inner f = record { at = λ s _. (record { timing = refl; instant = omega arith }, tt) }

  Timely-observe_wifi :
      (targets : List String) (desired : WifiNetworkConfig) (roaming : RoamingConfig)
      (changed : Bool) (configs : Fallible (Map WifiNetworkConfig))
      → Timely {W = W} (observe_wifi targets desired roaming changed configs)
  unfolding observe_wifi
  Timely-observe_wifi targets desired roaming changed (ok configs) =
      search
        (
          timely_rules, Timely-with_inner, steady.read_roaming_config, steady.read_roaming_runtime,
          steady.runtime_healthy,
        )
        depth 12
  Timely-observe_wifi targets desired roaming changed (err error) =
      search (timely_rules, Timely-with_inner, steady.read_roaming_runtime)

  pub Timely-refresh_observed : Timely {W = W} refresh_observed
  unfolding refresh_observed
  Timely-refresh_observed =
      search
        (
          timely_rules, Timely-with_inner, Timely-observe_wifi, steady.read_wan_runtime_status,
          steady.read_wifi_configs,
        )
        depth 12

  pub Timely-complete_success :
      (context : ChangeContext) → Timely {W = W} (complete_success context)
  unfolding complete_success
  Timely-complete_success context = search (timely_rules, Timely-clear_journal_if, Timely-publish)

  pub Timely-mark_commit_uncertain :
      (context : ChangeContext) (error : LegacyAppError)
      → Timely {W = W} (mark_commit_uncertain context error)
  unfolding mark_commit_uncertain
  Timely-mark_commit_uncertain context error = search (timely_rules, Timely-publish)

  pub Timely-complete_failure :
      (context : ChangeContext) (error : LegacyAppError) (badly : Bool)
      → Timely {W = W} (complete_failure context error badly)
  unfolding complete_failure
  Timely-complete_failure context error badly =
      search (timely_rules, Timely-clear_journal_if, Timely-refresh_observed, Timely-publish) depth
        12
