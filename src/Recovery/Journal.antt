-- ===== src/Recovery/Journal.antt =====
-- `recover_from_journal` of src/application/app/recovery.rs, with `record_recovered_operation` and
-- `record_recovered_wan_operation` of src/application/app/operations.
use unetic_core.Prelude.{
  ℕ, Bool, ◌&&◌, Option, none, some, String, ◌==◌, nat_eq, string_eq, option_eq, if◌then◌else◌, ok,
  err,
}
use unetic_core.Domain.Errors.{
  LegacyAppError, new_error, with_operation, bootstrap, operation_interrupted, state_corrupt,
  Fallible,
}
use unetic_core.Domain.Roaming.{roaming_config_eq}
use unetic_core.Domain.Wan.{WanDesired}
use unetic_core.Domain.Wifi.{WifiNetworkConfig}
use unetic_core.Domain.Operation.{
  OperationIntent, OperationStatus, succeeded, failed, user, operation_source_eq, LastOperation,
  TransactionJournal, TransactionKind,
}
use unetic_core.Domain.Config.{DesiredConfig}
use unetic_core.Platform.{RouterBackend, Host}
use unetic_core.App.Monad.{Action, ◌>>=◌, ◌>>◌, pure, gets, lift, modify_inner}
use unetic_core.App.Store.{clear_transaction}
use unetic_core.App.Observation.{refresh_observed}
use unetic_core.Transaction.Sync.{force_state_sync, force_wan_state_sync}
use unetic_core.Wan.Normalization.{wan_config_matches}

unfoldable pub matches_old_wifi : DesiredConfig → TransactionJournal → Bool
matches_old_wifi config journal =
    config.revision == journal.base_revision
    && config.wifi.primary.ssid == journal.old_ssid
    && config.wifi.primary.encryption == journal.old_encryption
    && config.wifi.primary.key == journal.old_key
    && config.wifi.roaming == journal.old_roaming

unfoldable pub matches_new_wifi : DesiredConfig → TransactionJournal → Bool
matches_new_wifi config journal =
    config.revision == journal.target_revision
    && config.wifi.primary.ssid == journal.new_ssid
    && config.wifi.primary.encryption == journal.new_encryption
    && config.wifi.primary.key == journal.new_key
    && config.wifi.roaming == journal.new_roaming

abbrev pub old_wifi_of : TransactionJournal → WifiNetworkConfig
old_wifi_of journal = record {
  ssid = journal.old_ssid;
  encryption = journal.old_encryption;
  key = journal.old_key;
  targets = journal.targets;
}

abbrev pub new_wifi_of : TransactionJournal → WifiNetworkConfig
new_wifi_of journal = record {
  ssid = journal.new_ssid;
  encryption = journal.new_encryption;
  key = journal.new_key;
  targets = journal.targets;
}

abbrev incomplete_journal : LegacyAppError
incomplete_journal =
    new_error state_corrupt bootstrap "WAN transaction journal is missing old or new configuration"

-- `journal.old_wan.as_ref().zip(journal.new_wan.as_ref()).ok_or_else(..)`
unfoldable pub zip_wan : Option WanDesired → Option WanDesired → Fallible (WanDesired × WanDesired)
zip_wan (some old_wan) (some new_wan) = ok (old_wan, new_wan)
zip_wan none new_wan = err incomplete_journal
zip_wan (some old_wan) none = err incomplete_journal

unfoldable pub wan_journal_configs : TransactionJournal → Fallible (WanDesired × WanDesired)
unfolding zip_wan
wan_journal_configs journal = zip_wan journal.old_wan journal.new_wan

abbrev pub interrupted_error : TransactionJournal → String → LegacyAppError
interrupted_error journal message =
    with_operation (new_error operation_interrupted bootstrap message) journal.operation_id
      (some journal.request_id)

-- the operation of a journal, as the user's last
unfoldable pub recovered_operation :
    TransactionJournal → OperationStatus → ℕ → Option LegacyAppError → ℕ → LastOperation
recovered_operation journal status revision error now_ms = record {
  id = journal.operation_id;
  request_id = some journal.request_id;
  source = user;
  kind = "wifi.set_config";
  status = status;
  revision = revision;
  requested_ssid = journal.new_ssid;
  intent = some (
      OperationIntent.wifi journal.new_ssid journal.new_encryption journal.new_key
        journal.new_roaming);
  error = error;
  finished_at_ms = now_ms;
}

unfoldable pub recovered_wan_operation :
    TransactionJournal
    → WanDesired
    → OperationStatus
    → ℕ
    → Option LegacyAppError
    → ℕ
    → LastOperation
recovered_wan_operation journal new_wan status revision error now_ms = record {
  id = journal.operation_id;
  request_id = some journal.request_id;
  source = user;
  kind = "wan.set_config";
  status = status;
  revision = revision;
  requested_ssid = "";
  intent = some (OperationIntent.wan new_wan);
  error = error;
  finished_at_ms = now_ms;
}

module _ {W : Type 0} ⦃host : Host W⦄ where
  unfoldable pub record_recovered_operation :
      TransactionJournal → OperationStatus → ℕ → Option LegacyAppError → Action W (Unit {0})
  record_recovered_operation journal status revision error =
      if journal.source == user
      then (do
        last ← gets (λ s. recovered_operation journal status revision error (host.now_ms s.world))
        modify_inner (λ inner. record inner { last_user_operation = some last }))
      else pure tt

  unfoldable pub record_recovered_wan_operation :
      TransactionJournal
      → WanDesired
      → OperationStatus
      → ℕ
      → Option LegacyAppError
      → Action W (Unit {0})
  record_recovered_wan_operation journal new_wan status revision error =
      if journal.source == user
      then (do
        last ← gets (λ s.
            recovered_wan_operation journal new_wan status revision error (host.now_ms s.world))
        modify_inner (λ inner. record inner { last_user_operation = some last }))
      else pure tt

  module _ ⦃backend : RouterBackend W⦄ where
    -- `self.store.clear_transaction()?; self.refresh_observed(); Ok(())`
    unfoldable pub close_journal : Action W (Unit {0})
    close_journal = do clear_transaction; refresh_observed; pure tt

    unfoldable pub recover_old_wifi : TransactionJournal → Action W (Unit {0})
    recover_old_wifi journal = do
      force_state_sync journal.targets (old_wifi_of journal) journal.old_roaming
      record_recovered_operation journal failed journal.base_revision (
          some (
            interrupted_error journal
              "operation was interrupted by a core restart and rolled back"))
      close_journal

    unfoldable pub confirm_new_wifi : TransactionJournal → Action W (Unit {0})
    confirm_new_wifi journal = do
      force_state_sync journal.targets (new_wifi_of journal) journal.new_roaming
      record_recovered_operation journal succeeded journal.target_revision none
      close_journal

    unfoldable pub recover_old_wan :
        TransactionJournal → WanDesired → WanDesired → Action W (Unit {0})
    recover_old_wan journal old_wan new_wan = do
      force_wan_state_sync old_wan
      record_recovered_wan_operation journal new_wan failed journal.base_revision
          (some (interrupted_error journal "WAN operation was interrupted by a core restart"))
      close_journal

    unfoldable pub confirm_new_wan : TransactionJournal → WanDesired → Action W (Unit {0})
    confirm_new_wan journal new_wan = do
      force_wan_state_sync new_wan
      record_recovered_wan_operation journal new_wan succeeded journal.target_revision none
      close_journal

    unfoldable pub recover_wan_configs :
        DesiredConfig → TransactionJournal → WanDesired × WanDesired → Action W (Unit {0})
    recover_wan_configs config journal (old_wan, new_wan) =
        if config.revision == journal.base_revision && wan_config_matches config.wan old_wan
        then recover_old_wan journal old_wan new_wan
        else if config.revision == journal.target_revision && wan_config_matches config.wan new_wan
        then confirm_new_wan journal new_wan
        else close_journal

    unfoldable pub recover_wan_journal : DesiredConfig → TransactionJournal → Action W (Unit {0})
    recover_wan_journal config journal = do
      configs ← lift (wan_journal_configs journal)
      recover_wan_configs config journal configs

    unfoldable pub recover_wifi_journal : DesiredConfig → TransactionJournal → Action W (Unit {0})
    recover_wifi_journal config journal =
        if matches_old_wifi config journal
        then recover_old_wifi journal
        else if matches_new_wifi config journal
        then confirm_new_wifi journal
        else close_journal

    unfoldable pub recover_kind :
        TransactionKind → DesiredConfig → TransactionJournal → Action W (Unit {0})
    unfolding recover_wifi_journal recover_wan_journal
    recover_kind TransactionKind.wifi config journal = recover_wifi_journal config journal
    recover_kind TransactionKind.wan config journal = recover_wan_journal config journal

    unfoldable pub recover_from_journal : TransactionJournal → Action W (Unit {0})
    unfolding recover_kind
    recover_from_journal journal s = recover_kind journal.kind s.inner.config journal s
