-- ===== src/Reconcile/Rest.antt =====
-- The rounds after three failed repairs in a row.
use unetic_core.Prelude.{◌≡◌, ◌≤◌, none}
use unetic_core.Domain.Config.{degraded}
use unetic_core.Platform.{RouterBackend, Host}
use unetic_core.App.State.{App, Inner}
use unetic_core.App.Still.{Still}
use unetic_core.Reconcile.Repair.{reconcile_once}

-- the core has given up on the router
abbrev HasGivenUp : Inner → Type 0
HasGivenUp inner =
    (inner.active_operation ≡ none) × (inner.lifecycle ≡ degraded) × (3 ≤ inner.repair_failures)

module _ {W : Type 0} ⦃host : Host W⦄ ⦃backend : RouterBackend W⦄ where
  -- In this inner state a round starts nothing: the core stays idle and degraded, with what it decides by
  -- and its files as they were.
  abbrev pub Rests : App W → Inner → Type 0
  Rests s inner =
      let t = (reconcile_once (record s { inner = inner })).1 in
      Still (record s { inner = inner }) t
      × (t.inner.active_operation ≡ none)
      × (t.inner.lifecycle ≡ degraded)
