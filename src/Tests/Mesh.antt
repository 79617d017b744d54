-- ===== src/Tests/Mesh.antt =====
-- The pairing of extenders.
use unetic_core.Prelude.{ℕ, ◌+◌, arith, [], ◌∷◌, String, lowercase}
use unetic_core.Domain.Services.{PendingExtender}
use unetic_core.App.State.{App}
use unetic_core.Mesh.Pairing.{mesh_add_pending, mesh_pair_accept, mesh_pair_reject}
use unetic_core.Mesh.Tokens.{IsPaired, mesh_pair_accept-IsPaired}
use unetic_core.Mesh.Queue.{IsQueued, mesh_add_pending-IsQueued}
use unetic_core.Tests.Bench.{bench_app, bench_inner, bench_host}

abbrev upstairs : PendingExtender
upstairs = record { mac = "aa:bb:cc:dd:ee:ff"; model = "Extender"; pairing_key = "secret" }

abbrev waiting : App ℕ
waiting = record bench_app { inner = record bench_inner { pending_extenders = upstairs ∷ [] } }

abbrev new_uuid : ℕ → String × ℕ
new_uuid clock = ("2f1d-44", clock + 1)

mesh_pair_accept-IsPaired_example :
    IsPaired
      (lowercase "AA:BB:CC:DD:EE:FF")
      "2f1d-44"
      waiting
      (mesh_pair_accept new_uuid "AA:BB:CC:DD:EE:FF" waiting)
mesh_pair_accept-IsPaired_example = mesh_pair_accept-IsPaired new_uuid "AA:BB:CC:DD:EE:FF" waiting

mesh_add_pending-IsQueued_example :
    IsQueued (mesh_add_pending (record upstairs { mac = "00:11:22:33:44:55" }) waiting).1
    × IsQueued (mesh_pair_reject "AA:BB:CC:DD:EE:FF" waiting).1
mesh_add_pending-IsQueued_example =
    mesh_add_pending-IsQueued (record upstairs { mac = "00:11:22:33:44:55" }) "AA:BB:CC:DD:EE:FF"
      waiting (omega arith, (tt, tt))
