-- ===== src/Memory/Contract.antt =====
-- What a router promises to one session, with no word of how it keeps its sessions apart: there are the
-- configuration in force, the one that the session has staged, and, from an apply to its confirm or
-- rollback, the one that was in force before.
use unetic_core.Prelude.{
  Bool, Option, none, some, List, [], ◌∷◌, String, Map, ok, err, if◌then◌else◌,
}
use unetic_core.Domain.Errors.{
  Fallible, new_error, ErrorStage, uci_apply_failed, confirm_failed, rollback_failed,
}
use unetic_core.Domain.Roaming.{RoamingConfig, AppliedRoamingConfig}
use unetic_core.Domain.Wan.{WanDesired}
use unetic_core.Domain.Wifi.{WifiNetworkConfig}
use unetic_core.Memory.State.{FailurePlan, MemoryState}
use unetic_core.Memory.Router.{read_targets, stage_targets, applied_roaming, stage_failure}
use unetic_core.Memory.Router
use unetic_core.Memory.Apply

pub record RouterConfig : Type 0 where
  pub wifi : Map WifiNetworkConfig
  pub roaming : RoamingConfig
  pub wan : WanDesired

pub record Session : Type 0 where
  pub committed : RouterConfig
  pub staged : RouterConfig
  pub before : Option RouterConfig

-- What the core asks of a router within a session.
pub data Call : Type 0 where
  stage_wifi : List String → WifiNetworkConfig → RoamingConfig → Bool → Call
  stage_wan : WanDesired → Call
  read_wifi read_roaming : List String → Call
  read_wan revert apply confirm rollback : Call

pub data Answer : Type 0 where
  done : Fallible (Unit {0}) → Answer
  wifi : Fallible (Map WifiNetworkConfig) → Answer
  roaming : Fallible AppliedRoamingConfig → Answer
  wan : Fallible WanDesired → Answer

-- A call of the router in memory.
abbrev pub answered {ℓ} : {A : Type ℓ} → (A → Answer) → A × MemoryState → Answer × MemoryState
answered f (a, m) = (f a, m)

unfoldable pub call_memory : String → Call → MemoryState → Answer × MemoryState
call_memory id (stage_wifi targets config profile is_extender) m =
    answered done (Router.stage_wifi_config id targets config profile is_extender m)
call_memory id (stage_wan config) m = answered done (Apply.stage_wan_config id config m)
call_memory id (read_wifi targets) m = answered wifi (Router.read_wifi_configs targets (some id) m)
call_memory id (read_roaming targets) m =
    answered roaming (Router.read_roaming_config targets (some id) m)
call_memory id read_wan m = answered wan (Apply.read_wan_config (some id) m)
call_memory id revert m = answered done (Apply.revert_staged id m)
call_memory id apply m = answered done (Apply.apply id 0 m)
call_memory id confirm m = answered done (Apply.confirm id m)
call_memory id rollback m = answered done (Apply.rollback id m)

-- The same call under the contract.
unfoldable pub after_stage :
    RoamingConfig → Session → Fallible (Unit {0}) × Map WifiNetworkConfig → Answer × Session
after_stage profile s (err e, config) =
    (done (err e), record s { staged = record s.staged { wifi = config } })
after_stage profile s (ok u, config) =
    (done (ok u), record s { staged = record s.staged { wifi = config; roaming = profile } })

unfoldable pub take_back : Session → Session
take_back s = elim s.before [
  | none ↦ s
  | some config ↦ record { committed = config; staged = config; before = none }
]

unfoldable pub call_session : FailurePlan → Call → Session → Answer × Session
unfolding after_stage take_back
call_session plan (stage_wifi targets config profile is_extender) s =
    if plan.fail_stage
    then (done (err stage_failure), s)
    else after_stage profile s (stage_targets config s.staged.wifi targets)
call_session plan (stage_wan config) s =
    if plan.fail_stage
    then (done (err stage_failure), s)
    else (done (ok tt), record s { staged = record s.staged { wan = config } })
call_session plan (read_wifi targets) s = (wifi (read_targets s.staged.wifi [] targets), s)
call_session plan (read_roaming targets) s =
    (roaming (applied_roaming s.staged.roaming s.staged.wifi targets), s)
call_session plan read_wan s =
    (wan (ok (if plan.fail_wan_candidate_verify then s.committed.wan else s.staged.wan)), s)
call_session plan revert s = (done (ok tt), record s { staged = s.committed })
call_session plan apply s =
    if plan.fail_apply
    then (done (err (new_error uci_apply_failed ErrorStage.apply "injected apply failure")), s)
    else (done (ok tt), record s { committed = s.staged; before = some s.committed })
call_session plan confirm s =
    if plan.fail_confirm
    then (done (err (new_error confirm_failed ErrorStage.confirm "injected confirm failure")), s)
    else (done (ok tt), record s { before = none })
call_session plan rollback s =
    if plan.fail_rollback
    then (done (err (new_error rollback_failed ErrorStage.rollback "injected rollback failure")), s)
    else (done (ok tt), take_back s)

-- A sequence of calls, and their answers.
unfoldable pub run_memory : String → List Call → MemoryState → List Answer × MemoryState
unfolding call_memory
run_memory id [] m = ([], m)
run_memory id (call ∷ calls) m =
    let (answer, after) = call_memory id call m in
    let (answers, last) = run_memory id calls after in (answer ∷ answers, last)

unfoldable pub run_session : FailurePlan → List Call → Session → List Answer × Session
unfolding call_session
run_session plan [] s = ([], s)
run_session plan (call ∷ calls) s =
    let (answer, after) = call_session plan call s in
    let (answers, last) = run_session plan calls after in (answer ∷ answers, last)

-- The session that a router opens: the configuration in force is staged in it.
abbrev pub opened : MemoryState → Session
opened m = record {
  committed = record { wifi = m.committed; roaming = m.roaming_committed; wan = m.wan_committed };
  staged = record { wifi = m.committed; roaming = m.roaming_committed; wan = m.wan_committed };
  before = none;
}
