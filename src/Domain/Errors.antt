-- ===== src/Domain/Errors.antt =====
-- src/domain/core/errors.rs
use unetic_core.Prelude.{
  ℕ, String, Option, none, some, Bool, false, List, [], Eq, nat_eq, string_eq, Result,
}

pub data ErrorCode : Type 0 where
  not_found invalid_argument idempotency_conflict revision_conflict maintenance_mode busy :
      ErrorCode
  not_ready operation_interrupted ambiguous_wifi_config target_missing ubus_unavailable : ErrorCode
  rpcd_session_lost uci_read_failed uci_stage_failed uci_stage_mismatch uci_apply_failed : ErrorCode
  verify_timeout verify_mismatch state_store_failed confirm_failed commit_uncertain : ErrorCode
  rollback_failed reconcile_failed state_corrupt internal : ErrorCode

pub data ErrorStage : Type 0 where
  bootstrap validate journal stage apply verify persist confirm rollback reconcile : ErrorStage
  transport internal : ErrorStage

-- The values of the flat JSON objects that the core puts into `details`.
pub data Detail : Type 0 where
  text : String → Detail
  number : ℕ → Detail

pub record LegacyAppError : Type 0 where
  pub code : ErrorCode
  pub message : String
  pub stage : ErrorStage
  pub operation_id : Option String
  pub request_id : Option String
  pub retryable : Bool
  pub details : List (String × Detail)

unfoldable pub ErrorCode-discrete : Discrete ErrorCode
ErrorCode-discrete = hlevel

unfoldable pub ErrorStage-discrete : Discrete ErrorStage
ErrorStage-discrete = hlevel

unfoldable pub LegacyAppError-discrete : Discrete LegacyAppError
LegacyAppError-discrete = hlevel (nat_eq.dec_eq, string_eq.dec_eq)

instance abbrev pub error_code_eq : Eq ErrorCode
error_code_eq = record { dec_eq = ErrorCode-discrete }

instance abbrev pub error_stage_eq : Eq ErrorStage
error_stage_eq = record { dec_eq = ErrorStage-discrete }

instance abbrev pub legacy_app_error_eq : Eq LegacyAppError
legacy_app_error_eq = record { dec_eq = LegacyAppError-discrete }

-- `LegacyAppError::new`
abbrev pub new_error : ErrorCode → ErrorStage → String → LegacyAppError
new_error code at message = record {
  code = code;
  message = message;
  stage = at;
  operation_id = none;
  request_id = none;
  retryable = false;
  details = [];
}

abbrev pub retryable : LegacyAppError → Bool → LegacyAppError
retryable error flag = record error { retryable = flag }

abbrev pub with_details : LegacyAppError → List (String × Detail) → LegacyAppError
with_details error details = record error { details = details }

abbrev pub with_operation : LegacyAppError → String → Option String → LegacyAppError
with_operation error operation_id request_id = record error {
  operation_id = some operation_id;
  request_id = request_id;
}

-- `Err(LegacyAppError::new(ErrorCode::InvalidArgument, ErrorStage::Validate, message))`
abbrev pub invalid : String → LegacyAppError
invalid message = new_error ErrorCode.invalid_argument validate message

abbrev pub Fallible : Type 0 → Type 0
Fallible A = Result A LegacyAppError
