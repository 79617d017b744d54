-- ===== src/Transaction/Context.antt =====
-- `ChangeContext` of src/application/transaction.rs and `WanChangeContext` of
-- src/application/wan/context.rs: what a worker is asked to change.
use unetic_core.Prelude.{ℕ, String, Option, none, some, List, []}
use unetic_core.Domain.Errors.{LegacyAppError}
use unetic_core.Domain.Roaming.{RoamingConfig, default_roaming}
use unetic_core.Domain.Wan.{WanDesired}
use unetic_core.Domain.Wifi.{WifiNetworkConfig, MeshBackhaulConfig, RadioChannelConfig}
use unetic_core.Domain.Operation.{
  OperationIntent, OperationSource, OperationStatus, PublicOperation, TransactionJournal,
  TransactionKind,
}
use unetic_core.Domain.Config.{state_schema_version}

pub record ChangeContext : Type 0 where
  pub operation_id : String
  pub request_id : Option String
  pub source : OperationSource
  pub base_revision : ℕ
  pub target_revision : ℕ
  pub old_wifi : WifiNetworkConfig
  pub new_wifi : WifiNetworkConfig
  pub old_roaming : RoamingConfig
  pub new_roaming : RoamingConfig
  pub targets : List String
  pub backhaul : Option MeshBackhaulConfig
  pub radio_channels : List RadioChannelConfig

abbrev pub context_intent : ChangeContext → OperationIntent
context_intent context =
    OperationIntent.wifi context.new_wifi.ssid context.new_wifi.encryption context.new_wifi.key
      context.new_roaming

-- `unwrap_or_default()`
abbrev or_empty : Option String → String
or_empty none = ""
or_empty (some text) = text

-- `ChangeContext::public`
unfoldable pub public_operation :
    ChangeContext → OperationStatus → Option LegacyAppError → PublicOperation
public_operation context status error = record {
  id = context.operation_id;
  request_id = context.request_id;
  source = context.source;
  kind = "wifi.set_config";
  status = status;
  requested_ssid = context.new_wifi.ssid;
  intent = some (context_intent context);
  error = error;
}

-- `ChangeContext::to_journal`
unfoldable pub to_journal : ChangeContext → OperationStatus → TransactionJournal
to_journal context phase = record {
  schema_version = state_schema_version;
  operation_id = context.operation_id;
  request_id = or_empty context.request_id;
  source = context.source;
  base_revision = context.base_revision;
  target_revision = context.target_revision;
  kind = TransactionKind.wifi;
  old_ssid = context.old_wifi.ssid;
  new_ssid = context.new_wifi.ssid;
  old_encryption = context.old_wifi.encryption;
  new_encryption = context.new_wifi.encryption;
  old_key = context.old_wifi.key;
  new_key = context.new_wifi.key;
  old_roaming = context.old_roaming;
  new_roaming = context.new_roaming;
  targets = context.targets;
  old_wan = none;
  new_wan = none;
  phase = phase;
}

pub record WanChangeContext : Type 0 where
  pub operation_id : String
  pub request_id : Option String
  pub source : OperationSource
  pub base_revision : ℕ
  pub target_revision : ℕ
  pub old_wan : WanDesired
  pub new_wan : WanDesired

-- `WanChangeContext::public`
unfoldable pub public_wan_operation :
    WanChangeContext → OperationStatus → Option LegacyAppError → PublicOperation
public_wan_operation context status error = record {
  id = context.operation_id;
  request_id = context.request_id;
  source = context.source;
  kind = "wan.set_config";
  status = status;
  requested_ssid = "";
  intent = some (OperationIntent.wan context.new_wan);
  error = error;
}

-- `WanChangeContext::to_journal`
unfoldable pub to_wan_journal : WanChangeContext → OperationStatus → TransactionJournal
to_wan_journal context phase = record {
  schema_version = state_schema_version;
  operation_id = context.operation_id;
  request_id = or_empty context.request_id;
  source = context.source;
  base_revision = context.base_revision;
  target_revision = context.target_revision;
  kind = TransactionKind.wan;
  old_ssid = "";
  new_ssid = "";
  old_encryption = "none";
  new_encryption = "none";
  old_key = none;
  new_key = none;
  old_roaming = default_roaming;
  new_roaming = default_roaming;
  targets = [];
  old_wan = some context.old_wan;
  new_wan = some context.new_wan;
  phase = phase;
}
