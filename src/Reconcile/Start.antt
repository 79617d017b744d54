-- ===== src/Reconcile/Start.antt =====
-- A repair whose thread cannot be started.
use unetic_core.Prelude.{◌≡◌, refl, ◌∙◌, arith, none, some, String}
use unetic_core.Platform.{Host, RouterBackend}
use unetic_core.App.State.{App, Inner, StateTopic}
use unetic_core.App.Monad.{◌>>=◌}
use unetic_core.App.Publisher.{publish, queue_state_update, send_pending_state}
use unetic_core.App.WifiOperations.{next_failure}
use unetic_core.Reconcile.Round.{Repair, wan_config, runtime}
use unetic_core.Reconcile.Repair.{
  spawn_repair_task, spawn_or_note, handle_reconcile_spawn_error, note_spawn_error, give_up,
}

abbrev pub thread_of : Repair → String
thread_of (Repair.config context) = "unetic-reconcile"
thread_of (wan_config context) = "unetic-reconcile-wan"
thread_of (runtime targets ssid) = "unetic-repair"

abbrev pub IsNoted : Inner → Inner → Type 0
IsNoted p q = (q.active_operation ≡ none) × (q.repair_failures ≡ next_failure p.repair_failures)

-- What is left of a repair that did not start.
abbrev pub Abandons : Repair → Inner → Inner → Type 0
Abandons (Repair.config context) p q = IsNoted p q
Abandons (wan_config context) p q = IsNoted p q
Abandons (runtime targets ssid) p q = q ≡ p

note_spawn_error-IsNoted :
    (message : String) (inner : Inner) → IsNoted inner (note_spawn_error message inner)
unfolding note_spawn_error give_up
note_spawn_error-IsNoted message inner = (ground arith, ground arith)

module _ {W : Type 0} ⦃host : Host W⦄ where
  publish_noted :
      (topic : StateTopic) (s : App W)
      → ((publish topic s).1.inner.active_operation ≡ s.inner.active_operation)
        × ((publish topic s).1.inner.repair_failures ≡ s.inner.repair_failures)
  unfolding publish queue_state_update send_pending_state
  publish_noted topic s = (ground arith, ground arith)

module _ {W : Type 0} ⦃host : Host W⦄ ⦃backend : RouterBackend W⦄ where
  handled-IsNoted :
      (message : String) (s : App W)
      → IsNoted s.inner (handle_reconcile_spawn_error message s).1.inner
  unfolding handle_reconcile_spawn_error publish ◌>>=◌
  handled-IsNoted message s =
      let n = note_spawn_error-IsNoted message s.inner in
      let p =
        publish_noted StateTopic.reconciliation
          (record s { inner = note_spawn_error message s.inner }) in
      (p.0 ∙ n.0, p.1 ∙ n.1)

  spawn_or_note-IsNoted :
      (name message error : String) (s : App W)
      → (host.spawn name s.world).0 ≡ some error
      → IsNoted s.inner (spawn_or_note name message s).1.inner
  unfolding spawn_or_note ◌>>=◌
  spawn_or_note-IsNoted name message error s e = rw e (handled-IsNoted message _)

  -- Where the thread of a repair cannot be started: a repair of the Wi-Fi configuration or of the WAN
  -- configuration leaves the core idle and counts as failed, and a repair of the runtime leaves the
  -- state behind the lock as it was, with its operation.
  pub spawn_repair_task-Abandons :
      (repair : Repair) (error : String) (s : App W)
      → (host.spawn (thread_of repair) s.world).0 ≡ some error
      → Abandons repair s.inner (spawn_repair_task repair s).1.inner
  unfolding spawn_repair_task ◌>>=◌
  spawn_repair_task-Abandons (Repair.config context) error s e = spawn_or_note-IsNoted _ _ error s e
  spawn_repair_task-Abandons (wan_config context) error s e = spawn_or_note-IsNoted _ _ error s e
  spawn_repair_task-Abandons (runtime targets ssid) error s e = refl
