-- ===== src/Reconcile/MaintenanceEnd.antt =====
-- How the maintenance ends.
use unetic_core.Prelude.{
  Bool-cases, is_empty, ◌≡◌, ◌≤◌, inl, inr, refl, ◌∙◌, ap, true, false, ok, err,
}
use unetic_core.Domain.Errors.{Fallible}
use unetic_core.Domain.Config.{ready, degraded}
use unetic_core.Platform.{RouterBackend, Host}
use unetic_core.App.State.{App, Inner, StateTopic}
use unetic_core.App.Monad.{
  Action, Outcome, returns, fails, hangs, try, recover, continue, pure, gets, modify_inner, ◌>>=◌,
  ◌>>◌,
}
use unetic_core.App.Quiet.{Quiet, Quiet-refl, Quietly}
use unetic_core.App.Still.{Same, Still-trans, Looks-refresh_observed, Looks-publish}
use unetic_core.App.Publisher.{publish}
use unetic_core.App.Observation.{refresh_observed}
use unetic_core.App.Ends.{returned, Returns-refresh_observed, Returns-publish}
use unetic_core.App.Timely.{IsSteady, Timely, Alive}
use unetic_core.Transaction.Sync.{force_wan_state_sync}
use unetic_core.Transaction.SyncQuiet.{Quietly-force_state_sync, Quietly-force_wan_state_sync}
use unetic_core.Transaction.SyncTermination.{Timely-force_state_sync, Timely-force_wan_state_sync}
use unetic_core.Reconcile.MaintenanceExit.{sync_if_managed, end_maintenance, run_maintenance_exit}

-- the state after both syncs
abbrev pub HasEnded : Fallible (Unit {0}) → Fallible (Unit {0}) → Inner → Type 0
HasEnded (ok _) (ok _) inner = (inner.maintenance ≡ false) × (inner.lifecycle ≡ ready)
HasEnded (err error) wan_result inner = (inner.maintenance ≡ true) × (inner.lifecycle ≡ degraded)
HasEnded (ok _) (err error) inner = (inner.maintenance ≡ true) × (inner.lifecycle ≡ degraded)

HasEnded-Same :
    (sync wan : Fallible (Unit {0})) {p q : Inner}
    → Same p q
    → HasEnded sync wan p
    → HasEnded sync wan q
HasEnded-Same (ok _) (ok _) e h = (e.maintenance ∙ h.0, e.lifecycle ∙ h.1)
HasEnded-Same (err error) wan e h = (e.maintenance ∙ h.0, e.lifecycle ∙ h.1)
HasEnded-Same (ok _) (err error) e h = (e.maintenance ∙ h.0, e.lifecycle ∙ h.1)

end_maintenance-HasEnded :
    (sync wan : Fallible (Unit {0})) (inner : Inner)
    → HasEnded sync wan (end_maintenance sync wan inner)
      × ((end_maintenance sync wan inner).maintenance_exiting ≡ false)
      × ((end_maintenance sync wan inner).config ≡ inner.config)
unfolding end_maintenance
end_maintenance-HasEnded (ok _) (ok _) inner = ((refl, refl), refl, refl)
end_maintenance-HasEnded (err error) wan inner = ((refl, refl), refl, refl)
end_maintenance-HasEnded (ok _) (err error) inner = ((refl, refl), refl, refl)

module _ {W : Type 0} ⦃host : Host W⦄ where
  -- an action whose errors are caught returns, if it ends
  caught :
      (s : App W) (r : Outcome (Unit {0}) × App W)
      → Alive r.0
      → (a : Fallible (Unit {0})) × (recover r ≡ (returns a, r.1))
  caught s (returns a, t) l = (ok a, refl)
  caught s (fails e, t) l = (err e, refl)
  caught s (hangs, t) l = absurd l

  bind-returns :
      {A B : Type 0} (m : Action W A) (f : A → Action W B) (s : App W) (a : A) (t : App W)
      → m s ≡ (returns a, t)
      → (m >>= f) s ≡ f a t
  unfolding ◌>>=◌
  bind-returns m f s a t e = ap (λ r. continue r f) e

  sure :
      {A : Type 0} (r : Outcome A × App W) → returned r.0 ≡ true → (a : A) × (r ≡ (returns a, r.1))
  sure (returns a, t) h = (a, refl)
  sure (fails e, t) h = absurd (cc)
  sure (hangs, t) h = absurd (cc)

  module _ ⦃backend : RouterBackend W⦄ (steady : IsSteady backend host) where
    -- A synced state, with what has been answered.
    abbrev Answered : Action W (Fallible (Unit {0})) → App W → Type 0
    Answered m s = (a : Fallible (Unit {0})) × (t : App W) × (m s ≡ (returns a, t)) × Quiet s t

    caught-Answered :
        (m : Action W (Unit {0})) (s : App W)
        → Timely m
        → Quietly m
        → 1 ≤ s.timing.verify_sample_delay
        → Answered (try m) s
    caught-Answered m s h q d = let (a, e) = caught s (m s) (h.at s d).1 in (a, (m s).1, e, q.at s)

    sync_if_managed-Answered :
        (s : App W) → 1 ≤ s.timing.verify_sample_delay → Answered sync_if_managed s
    unfolding sync_if_managed ◌>>=◌
    sync_if_managed-Answered s d =
        elim (Bool-cases (is_empty s.inner.config.wifi.primary.targets)) [
          | inl none_managed ↦ rw none_managed (ok tt, s, refl, Quiet-refl s)
          | inr managed ↦ rw managed (
              caught-Answered _ s (Timely-force_state_sync steady _ _ _)
                (Quietly-force_state_sync _ _ _) d)
        ]

    abbrev Ended : Fallible (Unit {0}) → Fallible (Unit {0}) → App W → App W → Type 0
    Ended sync wan s t =
        HasEnded sync wan t.inner
        × (t.inner.maintenance_exiting ≡ false)
        × (t.inner.config ≡ s.inner.config)

    ended :
        (sync wan : Fallible (Unit {0})) (s : App W)
        → (t : App W) × ((do
          modify_inner (end_maintenance sync wan)
          refresh_observed
          publish StateTopic.maintenance
          pure tt)
              s
            ≡ (returns tt, t))
          × Ended sync wan s t
    ended sync wan s =
        let u = record s { inner = end_maintenance sync wan s.inner } in
        let (has, exited, kept) = end_maintenance-HasEnded sync wan s.inner in
        let (a, e) = sure (refresh_observed u) (Returns-refresh_observed.at u) in
        let v = (refresh_observed u).1 in
        let (b, e₂) =
          sure (publish StateTopic.maintenance v) ((Returns-publish StateTopic.maintenance).at v) in
        let still =
          Still-trans (Looks-refresh_observed.at u) ((Looks-publish StateTopic.maintenance).at v) in
        (
          (publish StateTopic.maintenance v).1,
          bind-returns (modify_inner (end_maintenance sync wan)) _ s tt u refl
              ∙ bind-returns refresh_observed _ u a v e
              ∙ bind-returns (publish StateTopic.maintenance) _ v b _ e₂,
          (
            HasEnded-Same sync wan still.inner has,
            still.inner.exiting ∙ exited,
            still.inner.config ∙ kept,
          ),
        )

    -- Over a clock that does not run back and with a delay between samples that is not zero, the worker
    -- that ends the maintenance returns. The core is then in no transition and its desired configuration
    -- is as it was; if the sync of the Wi-Fi (where targets are managed) and the sync of the WAN have both
    -- succeeded, the maintenance is over and the core ready, and otherwise the core is still in
    -- maintenance and degraded.
    pub run_maintenance_exit-HasEnded :
        (s : App W)
        → 1 ≤ s.timing.verify_sample_delay
        → (sync wan : Fallible (Unit {0})) × (u v t : App W) × (sync_if_managed s
            ≡ (returns sync, u))
          × (try (force_wan_state_sync u.inner.config.wan) u ≡ (returns wan, v))
          × (run_maintenance_exit s ≡ (returns tt, t))
          × HasEnded sync wan t.inner
          × (t.inner.maintenance_exiting ≡ false)
          × (t.inner.config ≡ s.inner.config)
    unfolding run_maintenance_exit
    run_maintenance_exit-HasEnded s d =
        let (sync, u, e, q) = sync_if_managed-Answered s d in
        let (wan, v, e₂, q₂) =
          caught-Answered (force_wan_state_sync u.inner.config.wan) u
            (Timely-force_wan_state_sync steady _) (Quietly-force_wan_state_sync _)
            (rw q.timing d) in
        let (t, e₃, (has, exited, kept)) = ended sync wan v in
        (
          sync,
          wan,
          u,
          v,
          t,
          e,
          e₂,
          bind-returns sync_if_managed _ s sync u e
              ∙ bind-returns (gets (λ (s : App W). s.inner.config.wan)) _ u u.inner.config.wan u
                  refl
              ∙ bind-returns (try (force_wan_state_sync u.inner.config.wan)) _ u wan v e₂
              ∙ e₃,
          has,
          exited,
          kept ∙ q₂.config ∙ q.config,
        )
