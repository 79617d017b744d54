-- ===== src/Recovery/Termination.antt =====
-- The recovery of a journal comes to an end.
use unetic_core.Prelude.{ℕ, Option}
use unetic_core.Domain.Errors.{LegacyAppError}
use unetic_core.Domain.Wan.{WanDesired}
use unetic_core.Domain.Operation.{
  OperationStatus, TransactionJournal, TransactionKind, operation_source_eq,
}
use unetic_core.Domain.Config.{DesiredConfig}
use unetic_core.Platform.{RouterBackend, Host}
use unetic_core.App.Timely.{IsSteady, Timely, timely_rules}
use unetic_core.Transaction.Marks.{Timely-clear_transaction, Timely-refresh_observed}
use unetic_core.Transaction.SyncTermination.{Timely-force_state_sync, Timely-force_wan_state_sync}
use unetic_core.Recovery.Journal.{
  record_recovered_operation, record_recovered_wan_operation, close_journal, recover_old_wifi,
  confirm_new_wifi, recover_old_wan, confirm_new_wan, recover_wan_configs, recover_wan_journal,
  recover_wifi_journal, recover_kind, recover_from_journal,
}

module _ {W : Type 0} ⦃backend : RouterBackend W⦄ ⦃host : Host W⦄
    (steady : IsSteady backend host) where
  Timely-record_recovered_operation :
      (journal : TransactionJournal) (status : OperationStatus) (revision : ℕ)
      (error : Option LegacyAppError)
      → Timely {W = W} (record_recovered_operation journal status revision error)
  unfolding record_recovered_operation
  Timely-record_recovered_operation journal status revision error = search timely_rules

  Timely-record_recovered_wan_operation :
      (journal : TransactionJournal) (wan : WanDesired) (status : OperationStatus) (revision : ℕ)
      (error : Option LegacyAppError)
      → Timely {W = W} (record_recovered_wan_operation journal wan status revision error)
  unfolding record_recovered_wan_operation
  Timely-record_recovered_wan_operation journal wan status revision error = search timely_rules

  Timely-close_journal : Timely {W = W} close_journal
  unfolding close_journal
  Timely-close_journal = search (timely_rules, Timely-clear_transaction, Timely-refresh_observed)

  ruleset recovery_rules = (
    timely_rules, Timely-record_recovered_operation, Timely-record_recovered_wan_operation,
    Timely-close_journal, Timely-force_state_sync, Timely-force_wan_state_sync,
  )

  module _ (journal : TransactionJournal) where
    Timely-recover_wan_configs :
        (config : DesiredConfig) (configs : WanDesired × WanDesired)
        → Timely {W = W} (recover_wan_configs config journal configs)
    unfolding recover_wan_configs recover_old_wan confirm_new_wan
    Timely-recover_wan_configs config (old_wan, new_wan) = search recovery_rules depth 12

    Timely-recover_wan_journal :
        (config : DesiredConfig) → Timely {W = W} (recover_wan_journal config journal)
    unfolding recover_wan_journal
    Timely-recover_wan_journal config = search (recovery_rules, Timely-recover_wan_configs)

    Timely-recover_wifi_journal :
        (config : DesiredConfig) → Timely {W = W} (recover_wifi_journal config journal)
    unfolding recover_wifi_journal recover_old_wifi confirm_new_wifi
    Timely-recover_wifi_journal config = search recovery_rules depth 12

    Timely-recover_kind :
        (kind : TransactionKind) (config : DesiredConfig)
        → Timely {W = W} (recover_kind kind config journal)
    unfolding recover_kind
    Timely-recover_kind TransactionKind.wifi config = Timely-recover_wifi_journal config
    Timely-recover_kind TransactionKind.wan config = Timely-recover_wan_journal config

    pub Timely-recover_from_journal : Timely {W = W} (recover_from_journal journal)
    unfolding recover_from_journal
    Timely-recover_from_journal = record {
      at = λ s d. (Timely-recover_kind journal.kind s.inner.config).at s d;
    }
