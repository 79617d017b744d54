-- ===== src/Tests/Memory.antt =====
-- The router in memory.
use Prim.Native.String.{String}
use unetic_core.Prelude.{◌≡◌, refl, true, List, [], get, ◌∷◌, ◌++◌}
use unetic_core.Domain.Roaming.{RoamingConfig, aggressive, high}
use unetic_core.Domain.Wan.{default_wan, pppoe}
use unetic_core.Memory.State.{MemoryState, new}
use unetic_core.Memory.Router.{create_session}
use unetic_core.Memory.Contract.{
  Call, stage_wifi, stage_wan, read_wifi, read_wan, revert, apply, confirm, rollback, run_memory,
  run_session, opened, Session,
}
use unetic_core.Memory.Shows.{Shows}
use unetic_core.Memory.Traces.{
  Refines, in_force, create_session-Refines, rollback-apply, confirm-apply,
}
use unetic_core.Tests.Bench.{office}

abbrev device : MemoryState
device = new "home" ("radio0" ∷ "radio1" ∷ [])

abbrev id : String
id = "memory-session-1"

abbrev lively : RoamingConfig
lively = record { mode = aggressive; sensitivity = high }

abbrev calls : List Call
calls =
    stage_wifi ("radio0" ∷ "radio2" ∷ []) office lively true
    ∷ stage_wan (record default_wan { present = true; proto = pppoe })
    ∷ read_wifi ("radio0" ∷ [])
    ∷ apply
    ∷ read_wan
    ∷ rollback
    ∷ confirm
    ∷ []

create_session-Refines_example :
    Refines id device.failure
      (run_memory id calls (create_session (λ n. "1") device).1)
      (run_session device.failure calls (opened device))
unfolding create_session get new
create_session-Refines_example =
    create_session-Refines (λ n. "1") device id calls refl refl refl refl

abbrev session : Session
session =
    (run_session device.failure (stage_wifi ("radio0" ∷ []) office lively true ∷ [])
      (opened device)).1

abbrev staged : MemoryState
staged =
    (run_memory id (stage_wifi ("radio0" ∷ []) office lively true ∷ [])
      (create_session (λ n. "1") device).1).1

staged-Shows : Shows id device.failure staged session
unfolding create_session get new
staged-Shows =
    (create_session-Refines (λ n. "1") device id
      (stage_wifi ("radio0" ∷ []) office lively true ∷ []) refl refl refl refl).1

abbrev between : List Call
between = read_wifi ("radio0" ∷ []) ∷ revert ∷ stage_wan default_wan ∷ []

rollback-apply_example :
    in_force (run_memory id (apply ∷ between ++ rollback ∷ []) staged).1 ≡ in_force staged
unfolding new
rollback-apply_example =
    rollback-apply id device.failure staged session staged-Shows between (tt, (tt, (tt, tt))) refl
      refl

confirm-apply_example :
    in_force (run_memory id (apply ∷ between ++ confirm ∷ rollback ∷ []) staged).1 ≡ session.staged
unfolding new
confirm-apply_example =
    confirm-apply id device.failure staged session staged-Shows between (tt, (tt, (tt, tt))) refl
      refl
