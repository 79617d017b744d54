-- ===== src/Domain/Operation.antt =====
-- src/domain/system/operation.rs
use unetic_core.Prelude.{ℕ, String, Option, Bool, List, Eq, nat_eq, string_eq}
use unetic_core.Domain.Errors.{LegacyAppError}
use unetic_core.Domain.Roaming.{RoamingConfig}
use unetic_core.Domain.Wan.{WanDesired}

pub data OperationIntent : Type 0 where
  wifi : String → String → Option String → RoamingConfig → OperationIntent
  wan : WanDesired → OperationIntent

pub data OperationStatus : Type 0 where
  accepted staging applying verifying persisting confirming rolling_back : OperationStatus
  succeeded failed rollback_failed : OperationStatus

pub data OperationSource : Type 0 where
  user reconcile recovery : OperationSource

pub data TransactionKind : Type 0 where
  wifi wan : TransactionKind

pub record OperationAccepted : Type 0 where
  pub operation_id : String
  pub status : OperationStatus
  pub noop : Bool

pub record PublicOperation : Type 0 where
  pub id : String
  pub request_id : Option String
  pub source : OperationSource
  pub kind : String
  pub status : OperationStatus
  pub requested_ssid : String
  pub intent : Option OperationIntent
  pub error : Option LegacyAppError

pub record LastOperation : Type 0 where
  pub id : String
  pub request_id : Option String
  pub source : OperationSource
  pub kind : String
  pub status : OperationStatus
  pub revision : ℕ
  pub requested_ssid : String
  pub intent : Option OperationIntent
  pub error : Option LegacyAppError
  pub finished_at_ms : ℕ

pub record TransactionJournal : Type 0 where
  pub schema_version : ℕ
  pub operation_id : String
  pub request_id : String
  pub source : OperationSource
  pub base_revision : ℕ
  pub target_revision : ℕ
  pub kind : TransactionKind
  pub old_ssid : String
  pub new_ssid : String
  pub old_encryption : String
  pub new_encryption : String
  pub old_key : Option String
  pub new_key : Option String
  pub old_roaming : RoamingConfig
  pub new_roaming : RoamingConfig
  pub targets : List String
  pub old_wan : Option WanDesired
  pub new_wan : Option WanDesired
  pub phase : OperationStatus

unfoldable pub OperationIntent-discrete : Discrete OperationIntent
OperationIntent-discrete = hlevel (nat_eq.dec_eq, string_eq.dec_eq)

unfoldable pub OperationSource-discrete : Discrete OperationSource
OperationSource-discrete = hlevel

instance abbrev pub operation_intent_eq : Eq OperationIntent
operation_intent_eq = record { dec_eq = OperationIntent-discrete }

instance abbrev pub operation_source_eq : Eq OperationSource
operation_source_eq = record { dec_eq = OperationSource-discrete }
