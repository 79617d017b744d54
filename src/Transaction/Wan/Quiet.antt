-- ===== src/Transaction/Wan/Quiet.antt =====
-- Before the new configuration is written, a WAN change does nothing to the desired state.
use unetic_core.Prelude.{ℕ, zero, suc, Bool, ltb, Option, String}
use unetic_core.Domain.Errors.{LegacyAppError}
use unetic_core.Domain.Operation.{OperationStatus}
use unetic_core.Domain.Wan.{WanDesired}
use unetic_core.Platform.{RouterBackend, Host}
use unetic_core.App.Quiet.{
  Quietly, Quietly-pure, Quietly-raise, Quietly-hang, Quietly-gets, Quietly-host_call, Quietly-if,
  Quietly-bind, Quietly-set_operation_status_with_kind, quiet_rules,
}
use unetic_core.App.Ends.{Returns, Returns-set_operation_status_with_kind}
use unetic_core.Transaction.Context.{WanChangeContext}
use unetic_core.Transaction.Wan.{
  sample_wan, wan_verify_loop, verify_wan_configuration, set_wan_status, stage_wan_candidate,
  stage_and_verify_wan, verify_wan_ready, apply_and_verify_wan,
}

module _ {W : Type 0} ⦃backend : RouterBackend W⦄ where
  Quietly-sample_wan : (expected : WanDesired) → Quietly {W = W} (sample_wan expected)
  unfolding sample_wan
  Quietly-sample_wan expected = search quiet_rules depth 12

  pub Quietly-stage_wan_candidate :
      (session : String) (desired : WanDesired)
      → Quietly {W = W} (stage_wan_candidate session desired)
  unfolding stage_wan_candidate
  Quietly-stage_wan_candidate session desired = search quiet_rules depth 12

  module _ ⦃host : Host W⦄ where
    Quietly-wan_verify_loop :
        (expected : WanDesired) (rounds deadline : ℕ)
        → Quietly {W = W} (wan_verify_loop expected rounds deadline)
    unfolding wan_verify_loop
    Quietly-wan_verify_loop expected zero deadline = Quietly-hang
    Quietly-wan_verify_loop expected (suc rounds) deadline =
        let body = λ (healthy : Bool). Quietly-if healthy _ _ (Quietly-pure tt) (
          Quietly-bind _ _ (Quietly-gets _) λ delay.
            Quietly-bind _ _ (Quietly-host_call (λ w. (tt {0}, host.sleep delay w)))
              λ _. Quietly-wan_verify_loop expected rounds deadline) in
        record {
          at = λ s.
              (Quietly-if (ltb (host.instant s.world) deadline) _ _
                  (Quietly-bind _ _ (Quietly-sample_wan expected) body) (Quietly-raise _)).at
                s;
        }

    pub Quietly-verify_wan_configuration :
        (expected : WanDesired) (timeout : ℕ)
        → Quietly {W = W} (verify_wan_configuration expected timeout)
    unfolding verify_wan_configuration
    Quietly-verify_wan_configuration expected timeout = record {
      at = λ s. (Quietly-wan_verify_loop expected (suc timeout) _).at s;
    }

    pub Quietly-set_wan_status :
        (context : WanChangeContext) (status : OperationStatus) (error : Option LegacyAppError)
        → Quietly {W = W} (set_wan_status context status error)
    unfolding set_wan_status
    Quietly-set_wan_status context status error =
        Quietly-set_operation_status_with_kind context.operation_id "wan.set_config" status error

    pub Returns-set_wan_status :
        (context : WanChangeContext) (status : OperationStatus) (error : Option LegacyAppError)
        → Returns {W = W} (set_wan_status context status error)
    unfolding set_wan_status
    Returns-set_wan_status context status error =
        Returns-set_operation_status_with_kind context.operation_id "wan.set_config" status error

    module _ (context : WanChangeContext) where
      pub Quietly-stage_and_verify_wan :
          (session : String) → Quietly {W = W} (stage_and_verify_wan context session)
      unfolding stage_and_verify_wan
      Quietly-stage_and_verify_wan session =
          search (quiet_rules, Quietly-set_wan_status, Quietly-stage_wan_candidate)

      Quietly-verify_wan_ready : Quietly {W = W} (verify_wan_ready context)
      unfolding verify_wan_ready
      Quietly-verify_wan_ready =
          search (quiet_rules, Quietly-set_wan_status, Quietly-verify_wan_configuration)

      pub Quietly-apply_and_verify_wan :
          (session : String) → Quietly {W = W} (apply_and_verify_wan context session)
      unfolding apply_and_verify_wan
      Quietly-apply_and_verify_wan session =
          search (quiet_rules, Quietly-set_wan_status, Quietly-verify_wan_ready)
