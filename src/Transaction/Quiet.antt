-- ===== src/Transaction/Quiet.antt =====
-- Before the new configuration is written, a Wi-Fi change does nothing to the desired state.
use unetic_core.Prelude.{ℕ, zero, suc, Bool, true, false, List, String, Map, ok, err, leb, ltb}
use unetic_core.Domain.Errors.{LegacyAppError, Fallible}
use unetic_core.Domain.Roaming.{RoamingConfig}
use unetic_core.Domain.Wifi.{WifiNetworkConfig}
use unetic_core.Platform.{RouterBackend, Host}
use unetic_core.App.Quiet.{
  Quietly, Quietly-pure, Quietly-raise, Quietly-hang, Quietly-gets, Quietly-call, Quietly-host_call,
  Quietly-try, Quietly-if, Quietly-bind, Quietly-ignore, Quietly-set_operation_status,
}
use unetic_core.Transaction.Context.{ChangeContext}
use unetic_core.Transaction.Verify.{Samples, judge_configs, sample, verify_loop, verify_wifi}
use unetic_core.Transaction.Wifi.{raise_if, stage_and_verify, undo_apply, apply_and_verify}

Quietly-raise_if : {W : Type 0} (b : Bool) (e : LegacyAppError) → Quietly {W = W} (raise_if b e)
Quietly-raise_if true e = Quietly-raise e
Quietly-raise_if false e = Quietly-pure tt

module _ {W : Type 0} ⦃backend : RouterBackend W⦄ where
  module _ (targets : List String) (expected : WifiNetworkConfig) (roaming : RoamingConfig) where
    Quietly-judge_configs :
        (seen : Samples) (configs : Fallible (Map WifiNetworkConfig))
        → Quietly {W = W} (judge_configs targets expected roaming seen configs)
    unfolding judge_configs
    Quietly-judge_configs seen (err error) = Quietly-pure _
    Quietly-judge_configs seen (ok configs) =
        Quietly-if _ _ _
          (Quietly-bind _ _ (Quietly-try _ (Quietly-call _)) λ _.
            Quietly-bind _ _ (Quietly-host_call _)
              λ _. Quietly-bind _ _ (Quietly-try _ (Quietly-call _)) λ _. Quietly-pure _)
          (Quietly-pure _)

    Quietly-sample : (seen : Samples) → Quietly {W = W} (sample targets expected roaming seen)
    unfolding sample
    Quietly-sample seen =
        Quietly-bind _ _ (Quietly-try _ (Quietly-call _))
          λ configs. Quietly-judge_configs seen configs

    module _ ⦃host : Host W⦄ where
      Quietly-verify_loop :
          (rounds deadline : ℕ) (seen : Samples)
          → Quietly {W = W} (verify_loop targets expected roaming rounds deadline seen)
      unfolding verify_loop
      Quietly-verify_loop zero deadline seen = Quietly-hang
      Quietly-verify_loop (suc rounds) deadline seen =
          let body = λ (seen' : Samples). Quietly-if (leb 2 seen'.0) _ _ (Quietly-pure tt) (
            Quietly-bind _ _ (Quietly-gets _) λ delay.
              Quietly-bind _ _ (Quietly-host_call (λ w. (tt {0}, host.sleep delay w)))
                λ _. Quietly-verify_loop rounds deadline seen') in
          record {
            at = λ s.
                (Quietly-if (ltb (host.instant s.world) deadline) _ _
                    (Quietly-bind _ _ (Quietly-sample seen) body) (Quietly-raise _)).at
                  s;
          }

      pub Quietly-verify_wifi :
          (timeout : ℕ) → Quietly {W = W} (verify_wifi targets expected roaming timeout)
      unfolding verify_wifi
      Quietly-verify_wifi timeout = record {
        at = λ s. (Quietly-verify_loop (suc timeout) _ _).at s;
      }

module _ {W : Type 0} ⦃backend : RouterBackend W⦄ ⦃host : Host W⦄ where
  pub Quietly-undo_apply :
      (session : String) (applied : Fallible (Unit {0}))
      → Quietly {W = W} (undo_apply session applied)
  unfolding undo_apply
  Quietly-undo_apply session (ok _) = Quietly-pure tt
  Quietly-undo_apply session (err error) =
      Quietly-bind _ _ (Quietly-ignore _ (Quietly-call _))
        λ _. Quietly-bind _ _ (Quietly-ignore _ (Quietly-call _)) λ _. Quietly-raise error

module _ {W : Type 0} ⦃backend : RouterBackend W⦄ ⦃host : Host W⦄ (context : ChangeContext)
    (session : String) where
  pub Quietly-stage_and_verify : Quietly {W = W} (stage_and_verify context session)
  unfolding stage_and_verify
  Quietly-stage_and_verify = Quietly-bind _ _ (Quietly-set_operation_status _ _ _) λ _.
      Quietly-bind _ _ (Quietly-gets _) λ _. Quietly-bind _ _ (Quietly-call _) λ _.
        Quietly-bind _ _ (Quietly-call _) λ _.
          Quietly-bind _ _ (Quietly-raise_if _ _)
            λ _. Quietly-bind _ _ (Quietly-call _) λ _. Quietly-raise_if _ _

  pub Quietly-apply_and_verify : Quietly {W = W} (apply_and_verify context session)
  unfolding apply_and_verify
  Quietly-apply_and_verify = Quietly-bind _ _ (Quietly-set_operation_status _ _ _) λ _.
      Quietly-bind _ _ (Quietly-gets _) λ _.
        Quietly-bind _ _ (Quietly-try _ (Quietly-call _)) λ applied.
          Quietly-bind _ _ (Quietly-undo_apply session applied) λ _.
            Quietly-bind _ _ (Quietly-set_operation_status _ _ _) λ _. Quietly-verify_wifi _ _ _ _
