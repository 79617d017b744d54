-- ===== src/Memory/Refinement.antt =====
-- The router in memory keeps the contract in every call.
use unetic_core.Prelude.{
  ◌≡◌, refl, ap, ◌∙◌, none, some, Option, String, get, get-insert_same, get-remove_same, string_eq,
}
use unetic_core.Memory.State.{FailurePlan, MemoryState}
use unetic_core.Memory.Apply
use unetic_core.Memory.Contract.{
  RouterConfig, Session, Call, stage_wifi, stage_wan, read_wifi, read_roaming, read_wan, revert,
  apply, confirm, rollback, call_memory, call_session, take_back,
}
use unetic_core.Memory.Shows.{
  Shows, Keeps, or_committed, part, choose, stage_wifi-Keeps, stage_wan-Keeps, reads-Keeps,
  read_wan-Keeps, revert-Keeps,
}

module _ (id : String) (plan : FailurePlan) (m : MemoryState) (s : Session)
    (h : Shows id plan m s) where
  apply-Keeps : Keeps id plan (call_memory id apply m) (call_session plan apply s)
  unfolding call_memory Apply.apply Apply.apply_staged call_session
  apply-Keeps = rw h.staged.0 (
      choose m.failure.fail_apply plan.fail_apply (ap (λ p. p.fail_apply) h.failure) _ _ _ _
        (refl, h)
        (
          refl,
          record {
            committed = (
              refl,
              ap Apply.or_roaming h.staged.1,
              ap (or_committed m.wan_committed) h.staged.2,
            );
            staged = h.staged;
            before = (
              get-insert_same id m.committed m.rollback_snapshots ∙ ap some h.committed.0,
              get-insert_same id m.roaming_committed m.roaming_rollback_snapshots
                  ∙ ap some h.committed.1,
              get-insert_same id m.wan_committed m.wan_rollback_snapshots ∙ ap some h.committed.2,
            );
            failure = h.failure;
          },
        ))

  confirm-Keeps : Keeps id plan (call_memory id confirm m) (call_session plan confirm s)
  unfolding call_memory Apply.confirm call_session
  confirm-Keeps =
      choose m.failure.fail_confirm plan.fail_confirm (ap (λ p. p.fail_confirm) h.failure) _ _ _ _
        (refl, h)
        (
          refl,
          record {
            committed = h.committed;
            staged = h.staged;
            before = (
              get-remove_same id m.rollback_snapshots,
              get-remove_same id m.roaming_rollback_snapshots,
              get-remove_same id m.wan_rollback_snapshots,
            );
            failure = h.failure;
          },
        )

  snapshots :
      (o : Option RouterConfig)
      → s.before ≡ o
      → (get m.rollback_snapshots id ≡ part (λ c. c.wifi) o)
        × (get m.roaming_rollback_snapshots id ≡ part (λ c. c.roaming) o)
        × (get m.wan_rollback_snapshots id ≡ part (λ c. c.wan) o)
  snapshots o e = (
    h.before.0 ∙ ap (part (λ c. c.wifi)) e,
    h.before.1 ∙ ap (part (λ c. c.roaming)) e,
    h.before.2 ∙ ap (part (λ c. c.wan)) e,
  )

  rolled_by :
      (o : Option RouterConfig)
      → s.before ≡ o
      → Apply.rollback_wan id (Apply.rollback_roaming id (Apply.rollback_wifi id m))
        ≡ Apply.restore_wan id
            (Apply.restore_roaming id
              (Apply.restore_wifi id m (part (λ c. c.wifi) o))
              (part (λ c. c.roaming) o))
            (part (λ c. c.wan) o)
  unfolding Apply.rollback_wan Apply.rollback_roaming Apply.rollback_wifi Apply.restore_wifi
      Apply.restore_roaming
  rolled_by none e = let b = snapshots none e in rw (b.0, b.1, b.2) refl
  rolled_by (some c) e = let b = snapshots (some c) e in rw (b.0, b.1, b.2) refl

  rolled :
      (o : Option RouterConfig)
      → s.before ≡ o
      → Shows id plan
          (Apply.rollback_wan id (Apply.rollback_roaming id (Apply.rollback_wifi id m)))
          (take_back s)
  unfolding Apply.restore_wan Apply.restore_roaming Apply.restore_wifi take_back
  rolled none e =
      rw (rolled_by none e, e)
        (record {
          committed = h.committed;
          staged = h.staged;
          before = snapshots none e;
          failure = h.failure;
        })
  rolled (some c) e =
      rw (rolled_by (some c) e, e)
        (record {
          committed = (refl, refl, refl);
          staged = (
            get-insert_same id c.wifi m.sessions,
            get-insert_same id c.roaming m.roaming_sessions,
            get-insert_same id c.wan m.wan_sessions,
          );
          before = (
            get-remove_same id m.rollback_snapshots,
            get-remove_same id m.roaming_rollback_snapshots,
            get-remove_same id m.wan_rollback_snapshots,
          );
          failure = h.failure;
        })

  rollback-Keeps : Keeps id plan (call_memory id rollback m) (call_session plan rollback s)
  unfolding call_memory Apply.rollback call_session
  rollback-Keeps =
      choose m.failure.fail_rollback plan.fail_rollback (ap (λ p. p.fail_rollback) h.failure) _ _ _
        _ (refl, h) (refl, rolled s.before refl)

  pub call-Keeps : (call : Call) → Keeps id plan (call_memory id call m) (call_session plan call s)
  call-Keeps (stage_wifi targets config profile is_extender) =
      stage_wifi-Keeps id plan m s h targets config profile is_extender
  call-Keeps (stage_wan config) = stage_wan-Keeps id plan m s h config
  call-Keeps (read_wifi targets) = (reads-Keeps id plan m s h targets).0
  call-Keeps (read_roaming targets) = (reads-Keeps id plan m s h targets).1
  call-Keeps read_wan = read_wan-Keeps id plan m s h
  call-Keeps revert = revert-Keeps id plan m s h
  call-Keeps apply = apply-Keeps
  call-Keeps confirm = confirm-Keeps
  call-Keeps rollback = rollback-Keeps
