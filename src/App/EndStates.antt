-- ===== src/App/EndStates.antt =====
-- What the end of a Wi-Fi change writes into the state of the core.
use unetic_core.Prelude.{◌≡◌, refl, Bool, Option, none, some, if◌then◌else◌, arith, ==-eq, ap}
use unetic_core.Domain.Errors.{LegacyAppError}
use unetic_core.Domain.Operation.{OperationSource, user, operation_source_eq, LastOperation}
use unetic_core.App.State.{Inner}
use unetic_core.App.WifiOperations.{remember, apply_wifi_success_state, apply_wifi_failure_state}
use unetic_core.App.WanOperations.{apply_wan_success_state, apply_wan_failure_state}
use unetic_core.Domain.Wan.{WanPublicState}
use unetic_core.Transaction.Context.{ChangeContext, WanChangeContext}

pub record EndState (source : OperationSource) (last : LastOperation) (before after : Inner)
    : Type 0 where
  pub config : after.config ≡ before.config
  pub idle : after.active_operation ≡ none
  pub last_op : source ≡ user → after.last_user_operation ≡ some last

pub remember-user :
    (source : OperationSource) (last : LastOperation) (previous : Option LastOperation)
    → source ≡ user
    → remember source last previous ≡ some last
remember-user source last previous u =
    ap (λ b. if b then some last else previous) (==-eq source user u)

pub apply_wifi_success_state-EndState :
    (context : ChangeContext) (last : LastOperation) (error : Option LegacyAppError) (inner : Inner)
    → EndState context.source last inner (apply_wifi_success_state context last error inner)
unfolding apply_wifi_success_state
apply_wifi_success_state-EndState context last none inner = record {
  config = refl;
  idle = refl;
  last_op = remember-user _ _ _;
}
apply_wifi_success_state-EndState context last (some error) inner = record {
  config = refl;
  idle = refl;
  last_op = remember-user _ _ _;
}

pub apply_wifi_failure_state-EndState :
    (context : ChangeContext) (last : LastOperation) (error : LegacyAppError)
    (badly uncleared : Bool) (inner : Inner)
    → EndState context.source last inner
        (apply_wifi_failure_state context last error badly uncleared inner)
unfolding apply_wifi_failure_state
apply_wifi_failure_state-EndState context last error badly uncleared inner = record {
  config = ground arith;
  idle = ground arith;
  last_op = λ u. let h = ==-eq _ _ u in ground arith;
}

pub apply_wan_success_state-EndState :
    (context : WanChangeContext) (last : LastOperation) (status : WanPublicState)
    (error : Option LegacyAppError) (inner : Inner)
    → EndState context.source last inner (apply_wan_success_state context last status error inner)
unfolding apply_wan_success_state
apply_wan_success_state-EndState context last status none inner = record {
  config = refl;
  idle = refl;
  last_op = remember-user _ _ _;
}
apply_wan_success_state-EndState context last status (some error) inner = record {
  config = refl;
  idle = refl;
  last_op = remember-user _ _ _;
}

pub apply_wan_failure_state-EndState :
    (context : WanChangeContext) (last : LastOperation) (status : WanPublicState)
    (error : LegacyAppError) (badly uncleared : Bool) (inner : Inner)
    → EndState context.source last inner
        (apply_wan_failure_state context last status error badly uncleared inner)
unfolding apply_wan_failure_state
apply_wan_failure_state-EndState context last status error badly uncleared inner = record {
  config = ground arith;
  idle = ground arith;
  last_op = λ u. let h = ==-eq _ _ u in ground arith;
}
