-- ===== src/Requests/Wifi.antt =====
-- `set_wifi_config` of src/application/app/handlers.rs. The worker that it starts runs `run_change` on
-- its own thread, so in the model that is a later action over the state that this one leaves.
use Prim.Native.String.{◌++◌}
use unetic_core.Prelude.{
  ℕ, zero, suc, ◌+◌, ◌%◌, ◌^◌, true, false, Option, none, some, String, ok, err, Result,
}
use unetic_core.Domain.Errors.{ErrorCode, ErrorStage, Fallible, new_error}
use unetic_core.Domain.Wifi.{SetWifiConfigRequest}
use unetic_core.Domain.Operation.{OperationAccepted, accepted, succeeded}
use unetic_core.Platform.{RouterBackend, Host}
use unetic_core.App.State.{App, StateTopic}
use unetic_core.App.Monad.{Action, returns, ◌>>=◌, ◌>>◌, pure, gets, try, host_call, modify_inner}
use unetic_core.App.Store.{persist_transaction}
use unetic_core.App.Publisher.{publish}
use unetic_core.App.WifiOperations.{complete_failure}
use unetic_core.Transaction.Context.{ChangeContext, public_operation, to_journal}
use unetic_core.Requests.Admission.{
  Admission, replay, unchanged, change, admit_wifi, requested_roaming, noop_last_operation,
  build_wifi_change_context,
}

pub data WifiSetError : Type 0 where
  success invalid_wifi_config apply_failed not_ready : WifiSetError

-- `From<LegacyAppError>`
unfoldable pub of_code : ErrorCode → WifiSetError
of_code ErrorCode.busy = WifiSetError.not_ready
of_code ErrorCode.not_ready = WifiSetError.not_ready
of_code ErrorCode.maintenance_mode = WifiSetError.not_ready
of_code ErrorCode.revision_conflict = apply_failed
of_code ErrorCode.idempotency_conflict = apply_failed
of_code _ = invalid_wifi_config

abbrev pub Answer : Type 0
Answer = Result OperationAccepted WifiSetError

abbrev pub accept : String → OperationAccepted
accept id = record { operation_id = id; status = accepted; noop = false }

-- the first 24 bytes of an ASCII text
unfoldable pub first_chars : ℕ → String → String
first_chars zero s = ""
first_chars (suc n) String.[] = ""
first_chars (suc n) (String.◌∷◌ c s) = String.◌∷◌ c (first_chars n s)

module _ {W : Type 0} ⦃host : Host W⦄ where
  abbrev pub next_id : App W → String
  next_id s = "op-" ++ host.show (host.now_ms s.world) ++ "-" ++ host.show s.op_counter

  -- the counter is an `AtomicUsize`, here of 64 bits
  abbrev pub count_id : App W → App W
  count_id s = record s { op_counter = (s.op_counter + 1) % 2 ^ 64 }

  unfoldable pub next_operation_id : Action W String
  next_operation_id s = (returns (next_id s), count_id s)

  module _ ⦃backend : RouterBackend W⦄ where
    unfoldable pub spawn_worker : ChangeContext → Option String → Action W Answer
    spawn_worker context none = pure (ok (accept context.operation_id))
    spawn_worker context (some message) = do
      complete_failure context (new_error ErrorCode.internal ErrorStage.apply "ApplyFailed") false
      pure (err apply_failed)

    unfoldable pub start_worker : ChangeContext → Fallible (Unit {0}) → Action W Answer
    unfolding first_chars spawn_worker
    -- `map_err(|_| ApplyFailed)` takes the place of the error that the store's becomes.
    start_worker context (err error) = do
      modify_inner (λ inner. record inner { active_operation = none })
      pure (err apply_failed)
    start_worker context (ok _) = do
      publish StateTopic.operation
      failure ← host_call (host.spawn ("unetic-wifi-" ++ first_chars 24 context.operation_id))
      spawn_worker context failure

    unfoldable pub persist_and_spawn_wifi_change : ChangeContext → Action W Answer
    unfolding start_worker
    persist_and_spawn_wifi_change context = do
      saved ← try (persist_transaction (to_journal context accepted))
      start_worker context saved

    unfoldable pub admit_noop : SetWifiConfigRequest → String → Action W Answer
    admit_noop request id = do
      let noop : OperationAccepted = record { operation_id = id; status = succeeded; noop = true }
      last ← gets (λ s.
          noop_last_operation noop s.inner.config.revision request
            (requested_roaming request s.inner) (host.now_ms s.world))
      modify_inner (λ inner. record inner { last_user_operation = some last })
      publish StateTopic.operation
      pure (ok noop)

    unfoldable pub admit_change : SetWifiConfigRequest → String → Action W Answer
    admit_change request id = do
      context ←
          gets
            (λ s. build_wifi_change_context s.inner id request (requested_roaming request s.inner))
      modify_inner (λ inner. record inner {
        active_operation = some (public_operation context accepted none);
      })
      persist_and_spawn_wifi_change context

    unfoldable pub admitted : SetWifiConfigRequest → Fallible Admission → Action W Answer
    admitted request (err error) = pure (err (of_code error.code))
    admitted request (ok (replay known)) = pure (ok known)
    admitted request (ok unchanged) = next_operation_id >>= admit_noop request
    admitted request (ok change) = next_operation_id >>= admit_change request

    unfoldable pub set_wifi_config : SetWifiConfigRequest → Action W Answer
    unfolding admitted
    set_wifi_config request s = admitted request (admit_wifi request s.inner) s
