-- ===== src/Memory/Shows.antt =====
-- What the router in memory shows to a session, and that a call that changes nothing in force keeps
-- the contract.
use unetic_core.Prelude.{
  ◌≡◌, refl, ap, sym, subst, ◌∙◌, arith, ok, err, if◌then◌else◌, Bool, true, false, none, some,
  Option, String, Map, List, [], get, get-insert_same, string_eq,
}
use unetic_core.Domain.Errors.{Fallible}
use unetic_core.Domain.Roaming.{RoamingConfig}
use unetic_core.Domain.Wan.{WanDesired}
use unetic_core.Domain.Wifi.{WifiNetworkConfig}
use unetic_core.Memory.State.{FailurePlan, MemoryState}
use unetic_core.Memory.Router
use unetic_core.Memory.Apply
use unetic_core.Memory.Contract.{
  RouterConfig, Session, Answer, stage_wifi, stage_wan, wifi, roaming, read_wifi, read_roaming,
  read_wan, revert, call_memory, call_session, done, wan, answered, after_stage,
}

abbrev pub or_committed {ℓ} : {A : Type ℓ} → A → Option A → A
or_committed a none = a
or_committed a (some b) = b

abbrev pub part {ℓ} : {A : Type ℓ} → (RouterConfig → A) → Option RouterConfig → Option A
part f none = none
part f (some config) = some (f config)

-- What the state of the router in memory shows to an open session.
pub record Shows (id : String) (plan : FailurePlan) (m : MemoryState) (s : Session) : Type 0 where
  pub committed :
      (m.committed ≡ s.committed.wifi)
      × (m.roaming_committed ≡ s.committed.roaming)
      × (m.wan_committed ≡ s.committed.wan)
  pub staged :
      (get m.sessions id ≡ some s.staged.wifi)
      × (get m.roaming_sessions id ≡ some s.staged.roaming)
      × (get m.wan_sessions id ≡ some s.staged.wan)
  pub before :
      (get m.rollback_snapshots id ≡ part (λ c. c.wifi) s.before)
      × (get m.roaming_rollback_snapshots id ≡ part (λ c. c.roaming) s.before)
      × (get m.wan_rollback_snapshots id ≡ part (λ c. c.wan) s.before)
  pub failure : m.failure ≡ plan

abbrev pub Keeps : String → FailurePlan → Answer × MemoryState → Answer × Session → Type 0
Keeps id plan r q = (r.0 ≡ q.0) × Shows id plan r.1 q.1

pub choose :
    {id : String} {plan : FailurePlan} (b c : Bool)
    → b ≡ c
    → (x y : Fallible (Unit {0}) × MemoryState) (p q : Answer × Session)
    → Keeps id plan (answered done x) p
    → Keeps id plan (answered done y) q
    → Keeps id plan (answered done (if b then x else y)) (if c then p else q)
choose true true e x y p q h k = h
choose true false e x y p q h k = ground (arith, e)
choose false true e x y p q h k = ground (arith, e)
choose false false e x y p q h k = k

-- A staged set of Wi-Fi configurations.
module _ (id : String) (plan : FailurePlan) (m : MemoryState) (s : Session)
    (h : Shows id plan m s) where
  noted :
      (profile : RoamingConfig) (r : Fallible (Unit {0}) × Map WifiNetworkConfig)
      → Keeps id plan (answered done (Router.note_staged id profile m r)) (after_stage profile s r)
  unfolding Router.note_staged after_stage
  noted profile (err e, config) = (
    refl,
    record {
      committed = h.committed;
      staged = (get-insert_same id config m.sessions, h.staged.1, h.staged.2);
      before = h.before;
      failure = h.failure;
    },
  )
  noted profile (ok u, config) = (
    refl,
    record {
      committed = h.committed;
      staged = (
        get-insert_same id config m.sessions,
        get-insert_same id profile m.roaming_sessions,
        h.staged.2,
      );
      before = h.before;
      failure = h.failure;
    },
  )

  pub stage_wifi-Keeps :
      (targets : List String) (config : WifiNetworkConfig) (profile : RoamingConfig)
      (is_extender : Bool)
      → Keeps id plan
          (call_memory id (stage_wifi targets config profile is_extender) m)
          (call_session plan (stage_wifi targets config profile is_extender) s)
  unfolding call_memory Router.stage_wifi_config call_session
  stage_wifi-Keeps targets config profile is_extender = rw h.staged.0 (
      choose m.failure.fail_stage plan.fail_stage (ap (λ p. p.fail_stage) h.failure) _ _ _ _
        (refl, h) (noted profile (Router.stage_targets config s.staged.wifi targets)))

  pub stage_wan-Keeps :
      (config : WanDesired)
      → Keeps id plan (call_memory id (stage_wan config) m) (call_session plan (stage_wan config) s)
  unfolding call_memory Apply.stage_wan_config call_session
  stage_wan-Keeps config =
      choose m.failure.fail_stage plan.fail_stage (ap (λ p. p.fail_stage) h.failure) _ _ _ _
        (refl, h)
        (
          refl,
          record {
            committed = h.committed;
            staged = (h.staged.0, h.staged.1, get-insert_same id config m.wan_sessions);
            before = h.before;
            failure = h.failure;
          },
        )

  read_wan-same :
      ((call_memory id read_wan m).0
        ≡ wan (ok (if plan.fail_wan_candidate_verify then s.committed.wan else s.staged.wan)))
      × ((call_memory id read_wan m).1 ≡ m)
  unfolding call_memory Apply.read_wan_config
  read_wan-same = (ground (arith, h.failure, h.committed.2, h.staged.2), ground arith)

  pub reads-Keeps :
      (targets : List String)
      → Keeps id plan
          (call_memory id (read_wifi targets) m)
          (call_session plan (read_wifi targets) s)
        × Keeps id plan
            (call_memory id (read_roaming targets) m)
            (call_session plan (read_roaming targets) s)
  unfolding call_memory Router.read_wifi_configs Router.read_roaming_config call_session
  reads-Keeps targets =
      let configs = ap (or_committed m.committed) h.staged.0 in
      let profile = ap (or_committed m.roaming_committed) h.staged.1 in
      (
        (ap (λ c. wifi (Router.read_targets c [] targets)) configs, h),
        (
          ap
                (λ c.
                  roaming (
                    Router.applied_roaming c (or_committed m.committed (get m.sessions id))
                      targets))
                profile
              ∙ ap (λ c. roaming (Router.applied_roaming s.staged.roaming c targets)) configs,
          h,
        ),
      )

  pub read_wan-Keeps : Keeps id plan (call_memory id read_wan m) (call_session plan read_wan s)
  unfolding call_memory Apply.read_wan_config call_session
  read_wan-Keeps = (read_wan-same.0, subst (λ x. Shows id plan x s) (sym read_wan-same.1) h)

  pub revert-Keeps : Keeps id plan (call_memory id revert m) (call_session plan revert s)
  unfolding call_memory Apply.revert_staged Router.open_session call_session
  revert-Keeps = (
    refl,
    record {
      committed = h.committed;
      staged = (
        get-insert_same id m.committed m.sessions ∙ ap some h.committed.0,
        get-insert_same id m.roaming_committed m.roaming_sessions ∙ ap some h.committed.1,
        get-insert_same id m.wan_committed m.wan_sessions ∙ ap some h.committed.2,
      );
      before = h.before;
      failure = h.failure;
    },
  )
