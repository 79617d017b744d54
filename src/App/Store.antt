-- ===== src/App/Store.antt =====
-- src/infrastructure/storage.rs: the files of the state directory. JSON goes through `serde_json`,
-- which writes every value of these types and reads it back as it was.
use unetic_core.Prelude.{String, Map, Option, none, some, ok, err}
use unetic_core.Domain.Errors.{LegacyAppError, new_error, state_store_failed, persist, Fallible}
use unetic_core.Domain.Device.{DeviceRuntime}
use unetic_core.Domain.Operation.{TransactionJournal}
use unetic_core.Domain.Config.{DesiredConfig}
use unetic_core.Platform.{Host, FileOutcome, done, failed_before, failed_after}
use unetic_core.App.State.{StateStore}
use unetic_core.App.Monad.{Action, returns, ◌>>=◌, host_call, lift}

abbrev pub store_error : String → LegacyAppError
store_error message = new_error state_store_failed persist message

-- The result that a file operation reports, and whether it took effect.
abbrev reported : FileOutcome → Fallible (Unit {0})
reported done = ok tt
reported (failed_before message) = err (store_error message)
reported (failed_after message) = err (store_error message)

abbrev took_effect {ℓ} : {A : Type ℓ} → FileOutcome → A → A → A
took_effect done new old = new
took_effect (failed_before message) new old = old
took_effect (failed_after message) new old = new

module _ {W : Type 0} ⦃host : Host W⦄ where
  -- `write_json` and `clear_transaction`, over what the file is to hold
  unfoldable pub settle : (StateStore → StateStore) → FileOutcome → Action W (Unit {0})
  settle change outcome s =
      lift (reported outcome) (record s { store = took_effect outcome (change s.store) s.store })

  unfoldable pub persist_config : DesiredConfig → Action W (Unit {0})
  unfolding settle
  persist_config value =
      host_call (host.write_file "config.json")
      >>= settle (λ files. record files { config = some value })

  unfoldable pub persist_transaction : TransactionJournal → Action W (Unit {0})
  unfolding settle
  persist_transaction value =
      host_call (host.write_file "transaction.json")
      >>= settle (λ files. record files { transaction = some value })

  unfoldable pub persist_device_inventory : Map DeviceRuntime → Action W (Unit {0})
  unfolding settle
  persist_device_inventory value =
      host_call (host.write_file "devices.json")
      >>= settle (λ files. record files { devices = some value })

  -- A file that is not there counts as cleared.
  unfoldable pub clear_present : Option TransactionJournal → Action W (Unit {0})
  unfolding settle
  clear_present none s = (returns tt, s)
  clear_present (some journal) s =
      (host_call (host.remove_file "transaction.json")
          >>= settle (λ files. record files { transaction = none }))
        s

  unfoldable pub clear_transaction : Action W (Unit {0})
  unfolding clear_present
  clear_transaction s = clear_present s.store.transaction s
