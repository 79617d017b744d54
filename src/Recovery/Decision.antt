-- ===== src/Recovery/Decision.antt =====
-- Which way a recovery goes for the journal of a user's Wi-Fi change.
use unetic_core.Prelude.{
  ◌≡◌, ◌≢◌, refl, arith, ℕ, ◌+◌, ◌%◌, ◌^◌, true, false, String, ==-eq, nat_eq, string_eq, option_eq,
}
use unetic_core.Domain.Roaming.{RoamingConfig, roaming_config_eq}
use unetic_core.Domain.Wifi.{SetWifiConfigRequest}
use unetic_core.Domain.Operation.{accepted}
use unetic_core.Domain.Config.{DesiredConfig}
use unetic_core.App.State.{Inner}
use unetic_core.App.WifiOperations.{with_new_wifi}
use unetic_core.Transaction.Context.{ChangeContext, to_journal}
use unetic_core.Requests.Admission.{build_wifi_change_context}
use unetic_core.Recovery.Journal.{matches_old_wifi, matches_new_wifi}

-- A user's change of the configuration that is in force.
pub record IsUserChange (context : ChangeContext) (config : DesiredConfig) : Type 0 where
  pub base : context.base_revision ≡ config.revision
  pub next : context.target_revision ≢ context.base_revision
  pub old_wifi : context.old_wifi ≡ config.wifi.primary
  pub old_roaming : context.old_roaming ≡ config.wifi.roaming

next_revision : (n : ℕ) → (n + 1) % 2 ^ 64 ≢ n
next_revision n h = omega arith

pub build_wifi_change_context-IsUserChange :
    (inner : Inner) (id : String) (request : SetWifiConfigRequest) (roaming : RoamingConfig)
    → IsUserChange (build_wifi_change_context inner id request roaming) inner.config
unfolding build_wifi_change_context
build_wifi_change_context-IsUserChange inner id request roaming = record {
  base = refl;
  next = next_revision inner.config.revision;
  old_wifi = refl;
  old_roaming = refl;
}

module _ (context : ChangeContext) (config : DesiredConfig)
    (user_change : IsUserChange context config) where
  pub matches_old : matches_old_wifi config (to_journal context accepted) ≡ true
  unfolding matches_old_wifi to_journal
  matches_old =
      let wifi = user_change.old_wifi in
      ground (
        arith,
        ==-eq config.revision context.base_revision,
        user_change.base,
        user_change.old_wifi,
        user_change.old_roaming,
      )

  pub lacks_old :
      matches_old_wifi (with_new_wifi context config) (to_journal context accepted) ≡ false
  unfolding matches_old_wifi to_journal with_new_wifi
  lacks_old = ground (arith, user_change.next)

  pub matches_new :
      matches_new_wifi (with_new_wifi context config) (to_journal context accepted) ≡ true
  unfolding matches_new_wifi to_journal with_new_wifi
  matches_new = ground arith
