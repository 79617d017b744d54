-- ===== src/App/Maintenance.antt =====
-- src/application/app/maintenance.rs, but for the worker that ends the maintenance. A scope is a block
-- of the source that holds the lock of the state; `publish` takes this lock for itself.
use Prim.Native.String.{◌++◌}
use unetic_core.Prelude.{Bool, true, false, not, ◌||◌, Option, none, some, String, if◌then◌else◌}
use unetic_core.Domain.Errors.{LegacyAppError, new_error, busy, validate, reconcile, ErrorCode}
use unetic_core.Domain.Config.{maintenance, degraded}
use unetic_core.Platform.{Host}
use unetic_core.App.State.{Inner, PublicState, MaintenanceState, StateTopic}
use unetic_core.App.Monad.{raise, gets, host_call, modify_inner}
use unetic_core.App.Mutex.{Locking, step, pure, scope, ◌>>=◌, ◌>>◌}
use unetic_core.App.Publisher.{snapshot, publish}

abbrev is_running : Inner → Bool
is_running inner = elim inner.active_operation [ none ↦ false | some _ ↦ true ]

exit_failed : String → LegacyAppError
exit_failed message =
    new_error ErrorCode.internal reconcile ("failed to start maintenance exit worker: " ++ message)

module _ {W : Type 0} where
  -- `state`
  unfoldable pub state : Locking W PublicState
  state = scope (step (gets (λ s. snapshot s.inner)))

  unfoldable pub maintenance_get : Locking W MaintenanceState
  unfolding state
  maintenance_get = do seen ← state; pure seen.maintenance

  module _ ⦃host : Host W⦄ where
    abbrev tell : Locking W PublicState
    tell = scope (step (publish StateTopic.maintenance))

    begin : Option String → Locking W (Unit {0})
    begin reason x s =
        if is_running s.inner || s.inner.maintenance_exiting
        then step
            (raise (
              new_error busy validate
                "cannot enter maintenance while another transition is active"))
            x s
        else step
            (modify_inner (λ inner. record inner {
              maintenance = true;
              maintenance_exiting = false;
              maintenance_reason = reason;
              lifecycle = maintenance;
            }))
            x s

    unfoldable pub maintenance_enter : Option String → Locking W PublicState
    unfolding begin
    maintenance_enter reason = do scope (begin reason); tell

    unfoldable pub spawn_exit : Option String → Locking W PublicState
    unfolding exit_failed state
    spawn_exit none = state
    spawn_exit (some message) = do
      scope (
          step (
            modify_inner (λ inner. record inner {
              maintenance_exiting = false;
              last_system_error = some (exit_failed message);
              lifecycle = degraded;
            })))
      tell
      step (raise (exit_failed message))

    -- The block under the lock: what it returns early, if it does. Outside maintenance that is what
    -- `state` returns, which is called in the block.
    unfoldable pub leave : Locking W (Option PublicState)
    unfolding state
    leave x s =
        if not s.inner.maintenance
        then (do seen ← state; pure (some seen)) x s
        else if is_running s.inner || s.inner.maintenance_exiting
        then step
            (raise (
              new_error busy validate
                "maintenance exit is already running or blocked by another transition"))
            x s
        else (do
          step (modify_inner (λ inner. record inner { maintenance_exiting = true }))
          pure none)
            x s

    unfoldable pub after_leave : Option PublicState → Locking W PublicState
    unfolding spawn_exit
    after_leave (some seen) = pure seen
    after_leave none = do
      tell
      failure ← step (host_call (host.spawn "unetic-maint-exit"))
      spawn_exit failure

    unfoldable pub maintenance_exit : Locking W PublicState
    unfolding leave after_leave
    maintenance_exit = scope leave >>= after_leave
