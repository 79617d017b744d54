-- ===== src/Recovery/Restart.antt =====
-- A restart in the middle of a user's Wi-Fi change.
use unetic_core.Prelude.{◌≡◌, ◌≤◌, ◌⊎◌, inl, inr, refl, some, none, String}
use unetic_core.Domain.Errors.{LegacyAppError}
use unetic_core.Domain.Roaming.{RoamingConfig}
use unetic_core.Domain.Wifi.{SetWifiConfigRequest}
use unetic_core.Domain.Operation.{accepted}
use unetic_core.Domain.Config.{DesiredConfig}
use unetic_core.Platform.{RouterBackend, Host}
use unetic_core.App.State.{App, Inner}
use unetic_core.App.Monad.{Outcome, returns, fails, hangs}
use unetic_core.App.WifiOperations.{with_new_wifi}
use unetic_core.App.Ends.{Leaves}
use unetic_core.App.Timely.{IsSteady, Alive}
use unetic_core.Transaction.Context.{ChangeContext, to_journal}
use unetic_core.Transaction.Conclusion.{wifi_subject}
use unetic_core.Transaction.Outcome.{IsConcluded, OldOrNew}
use unetic_core.Requests.Admission.{build_wifi_change_context}
use unetic_core.Recovery.Journal.{recover_from_journal}
use unetic_core.Recovery.Decision.{build_wifi_change_context-IsUserChange}
use unetic_core.Recovery.Completion.{IsUnmoved, recover_wifi-Recovered}
use unetic_core.Recovery.Termination.{Timely-recover_from_journal}

-- The two ways in which a recovery ends.
abbrev pub Restarts :
    {W : Type 0} → ChangeContext → DesiredConfig → App W → Outcome (Unit {0}) × App W → Type 0
Restarts {W} context config s r =
    ((t : App W) × (r ≡ (returns tt, t))
      × IsConcluded (wifi_subject context) config (with_new_wifi context config) t
      × IsUnmoved s t
      × (t.store.transaction ≡ none))
    ⊎ ((e : LegacyAppError) × (t : App W) × (r ≡ (fails e, t)) × IsUnmoved s t)

restarted :
    {W : Type 0} (context : ChangeContext) (config : DesiredConfig) (s : App W)
    (r : Outcome (Unit {0}) × App W)
    → Alive r.0
    → Leaves
        (λ _ t.
          (IsConcluded (wifi_subject context) config (with_new_wifi context config) t
            × IsUnmoved s t)
          × (t.store.transaction ≡ none))
        (λ _ t. IsUnmoved s t)
        r
    → Restarts context config s r
restarted context config s (returns u, t) l h = inl (t, refl, h.0.0, h.0.1, h.1)
restarted context config s (fails e, t) l h = inr (e, t, refl, h)
restarted context config s (hangs, t) l h = absurd l

module _ {W : Type 0} ⦃host : Host W⦄ ⦃backend : RouterBackend W⦄ where
  -- A restart in the middle of a user's Wi-Fi change, with the configuration that the change began with
  -- or the new one in force and on the disk, no operation running, over a clock that does not run back
  -- and with a delay between samples that is not zero: the recovery of the journal ends. Where it
  -- returns, the change is concluded as if it had come to its end, the configuration is the one that
  -- was found, and the journal is gone; where it fails, the configuration is the one that was found.
  pub recover_from_journal-Restarts :
      (steady : IsSteady backend host) (inner : Inner) (id : String)
      (request : SetWifiConfigRequest) (roaming : RoamingConfig) (s : App W)
      → 1 ≤ s.timing.verify_sample_delay
      → OldOrNew inner.config
          (with_new_wifi (build_wifi_change_context inner id request roaming) inner.config)
          s.inner.config
      → s.store.config ≡ some s.inner.config
      → s.inner.active_operation ≡ none
      → Restarts (build_wifi_change_context inner id request roaming) inner.config s (
          recover_from_journal
            (to_journal (build_wifi_change_context inner id request roaming) accepted)
            s)
  unfolding build_wifi_change_context
  recover_from_journal-Restarts steady inner id request roaming s d pending stored idle =
      restarted _ _ s _ ((Timely-recover_from_journal steady _).at s d).1 (
        recover_wifi-Recovered (build_wifi_change_context inner id request roaming) inner.config
          (build_wifi_change_context-IsUserChange inner id request roaming) refl request.request_id
          refl s pending stored idle)
