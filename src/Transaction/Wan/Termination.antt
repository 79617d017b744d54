-- ===== src/Transaction/Wan/Termination.antt =====
-- A WAN change comes to an end: the loop that samples the router has rounds enough, and the steps that
-- mark the state end too.
use unetic_core.Prelude.{ℕ, zero, suc, ◌+◌, ◌≤◌, ◌<◌, Bool, Option, arith, ltb}
use unetic_core.Domain.Errors.{LegacyAppError}
use unetic_core.Domain.Wan.{WanDesired}
use unetic_core.Domain.Operation.{OperationStatus}
use unetic_core.Platform.{RouterBackend, Host}
use unetic_core.App.State.{App}
use unetic_core.App.Store.{persist_config}
use unetic_core.App.WanOperations.{
  persist_new_desired_wan, complete_wan_success, complete_wan_failure, mark_wan_commit_uncertain,
}
use unetic_core.App.Timely.{
  ltb-lt, IsSteady, Ahead-refl, still_delayed, Runs, Timely, Runs-bind, Runs-if, Runs-gets,
  Runs-sleep, Timely-pure, timely_rules,
}
use unetic_core.Transaction.Context.{WanChangeContext}
use unetic_core.Transaction.Marks.{
  Timely-publish, Timely-settle, Timely-set_operation_status_with_kind, Timely-clear_journal_if,
  Timely-refresh_observed,
}
use unetic_core.Transaction.Wan.{
  sample_wan, wan_verify_loop, verify_wan_configuration, set_wan_status,
}

module _ {W : Type 0} ⦃backend : RouterBackend W⦄ ⦃host : Host W⦄
    (steady : IsSteady backend host) where
  Timely-sample_wan : (expected : WanDesired) → Timely {W = W} (sample_wan expected)
  unfolding sample_wan
  Timely-sample_wan expected =
      search (timely_rules, steady.read_wan_config, steady.read_wan_runtime_status) depth 12

  -- The loop, with more rounds than milliseconds are left.
  Runs-wan_verify_loop :
      (expected : WanDesired) (rounds deadline : ℕ) (s : App W)
      → 1 ≤ rounds
      → deadline < rounds + host.instant s.world
      → 1 ≤ s.timing.verify_sample_delay
      → Runs (wan_verify_loop expected rounds deadline) s
  unfolding wan_verify_loop
  Runs-wan_verify_loop expected zero deadline s r l d = absurd (omega arith)
  Runs-wan_verify_loop expected (suc rounds) deadline s r l d =
      Runs-if (ltb (host.instant s.world) deadline) _ _ s
        (λ early. Runs-bind _ _ s ((Timely-sample_wan expected).at s d) λ healthy t q.
          Runs-if healthy _ _ t (λ _. (Timely-pure tt).at t (still_delayed q d))
            λ _. Runs-gets _ _ t (
              Runs-sleep steady t.timing.verify_sample_delay _ t (
                Runs-wan_verify_loop expected rounds deadline _ (omega (arith, ltb-lt _ _ early))
                  (omega (
                    arith,
                    ltb-lt _ _ early,
                    q.instant,
                    still_delayed q d,
                    steady.sleep t.timing.verify_sample_delay t.world,
                  ))
                  (still_delayed q d))))
        (λ _. (Ahead-refl s, tt))

  pub Timely-verify_wan_configuration :
      (expected : WanDesired) (timeout : ℕ)
      → Timely {W = W} (verify_wan_configuration expected timeout)
  unfolding verify_wan_configuration
  Timely-verify_wan_configuration expected timeout = record {
    at = λ s d. Runs-wan_verify_loop expected (suc timeout) _ s (omega arith) (omega arith) d;
  }

  pub Timely-set_wan_status :
      (context : WanChangeContext) (status : OperationStatus) (error : Option LegacyAppError)
      → Timely {W = W} (set_wan_status context status error)
  unfolding set_wan_status
  Timely-set_wan_status context status error =
      Timely-set_operation_status_with_kind steady context.operation_id "wan.set_config" status
        error

  pub Timely-persist_new_desired_wan :
      (context : WanChangeContext) → Timely {W = W} (persist_new_desired_wan context)
  unfolding persist_new_desired_wan persist_config
  Timely-persist_new_desired_wan context = search (timely_rules, Timely-settle, steady.write_file)

  pub Timely-complete_wan_success :
      (context : WanChangeContext) → Timely {W = W} (complete_wan_success context)
  unfolding complete_wan_success
  Timely-complete_wan_success context =
      search (timely_rules, Timely-clear_journal_if, Timely-publish, steady.read_wan_runtime_status)
        depth 12

  pub Timely-mark_wan_commit_uncertain :
      (context : WanChangeContext) (error : LegacyAppError)
      → Timely {W = W} (mark_wan_commit_uncertain context error)
  unfolding mark_wan_commit_uncertain
  Timely-mark_wan_commit_uncertain context error = search (timely_rules, Timely-publish)

  pub Timely-complete_wan_failure :
      (context : WanChangeContext) (error : LegacyAppError) (badly : Bool)
      → Timely {W = W} (complete_wan_failure context error badly)
  unfolding complete_wan_failure
  Timely-complete_wan_failure context error badly =
      search
        (
          timely_rules, Timely-clear_journal_if, Timely-refresh_observed, Timely-publish,
          steady.read_wan_runtime_status,
        )
        depth 14
