-- ===== src/Memory/Traces.antt =====
-- Within a session the router in memory answers like the contract, and an apply can be taken back.
use unetic_core.Prelude.{
  get-insert_same, ◌≡◌, refl, sym, ap, ok, err, if◌then◌else◌, Bool, ◌∙◌, arith, none, some, String,
  ℕ, ◌+◌, ◌%◌, ◌^◌, List, [], ◌∷◌, ◌++◌, get, All, true, false,
}
use unetic_core.Domain.Errors.{Fallible}
use unetic_core.Memory.State.{FailurePlan, MemoryState}
use unetic_core.Memory.Router.{create_session, open_session}
use unetic_core.Memory.Contract.{
  Call, Answer, Session, RouterConfig, call_memory, call_session, run_memory, run_session, opened,
  apply, confirm, rollback, stage_wifi, stage_wan, read_wifi, read_roaming, read_wan, revert,
  after_stage, take_back,
}
use unetic_core.Memory.Shows.{Shows}
use unetic_core.Memory.Refinement.{call-Keeps}

abbrev pub Refines :
    String → FailurePlan → List Answer × MemoryState → List Answer × Session → Type 0
Refines id plan r q = (r.0 ≡ q.0) × Shows id plan r.1 q.1

pub run-Refines :
    (id : String) (plan : FailurePlan) (calls : List Call) (m : MemoryState) (s : Session)
    → Shows id plan m s
    → Refines id plan (run_memory id calls m) (run_session plan calls s)
unfolding run_memory run_session
run-Refines id plan [] m s h = (refl, h)
run-Refines id plan (call ∷ calls) m s h =
    let (e, k) = call-Keeps id plan m s h call in
    let (es, l) =
      run-Refines id plan calls (call_memory id call m).1 (call_session plan call s).1 k in
    (
      ap (λ a. a ∷ (run_memory id calls (call_memory id call m).1).0) e
          ∙ ap (λ answers. (call_session plan call s).0 ∷ answers) es,
      l,
    )

open_session-Shows :
    (id : String) (m : MemoryState)
    → get m.rollback_snapshots id ≡ none
    → get m.roaming_rollback_snapshots id ≡ none
    → get m.wan_rollback_snapshots id ≡ none
    → Shows id m.failure (open_session id m) (opened m)
unfolding open_session
open_session-Shows id m a b c = record {
  committed = (refl, refl, refl);
  staged = (
    get-insert_same id m.committed m.sessions,
    get-insert_same id m.roaming_committed m.roaming_sessions,
    get-insert_same id m.wan_committed m.wan_sessions,
  );
  before = (a, b, c);
  failure = refl;
}

ok_eq : {a b : String} → ◌≡◌ {A = Fallible String} (ok a) (ok b) → a ≡ b
ok_eq h = ground arith

-- A session that the router in memory opens under a fresh name, with any failures planned: whatever is
-- asked in it, one call after another, the answers are those of the contract, and so is what the router
-- then has in force, staged and to fall back to.
pub create_session-Refines :
    (show : ℕ → String) (m : MemoryState) (id : String) (calls : List Call)
    → (create_session show m).0 ≡ ok id
    → get m.rollback_snapshots id ≡ none
    → get m.roaming_rollback_snapshots id ≡ none
    → get m.wan_rollback_snapshots id ≡ none
    → Refines id m.failure
        (run_memory id calls (create_session show m).1)
        (run_session m.failure calls (opened m))
unfolding create_session
create_session-Refines show m id calls e a b c =
    let opens = (λ (sid : String).
      open_session sid (record m { next_session = (m.next_session + 1) % 2 ^ 64 })) in
    let same = ap opens (ok_eq e) in
    rw same (
      run-Refines id m.failure calls (opens id) (opened m)
        (open_session-Shows id (record m { next_session = (m.next_session + 1) % 2 ^ 64 }) a b c))

-- The calls that do not change what is in force.
abbrev pub IsMild : Call → Type 0
IsMild apply = ⊥
IsMild confirm = ⊥
IsMild rollback = ⊥
IsMild call = Unit

abbrev Keeps : Session → Session → Type 0
Keeps s t = (t.committed ≡ s.committed) × (t.before ≡ s.before)

after_stage-Keeps : (profile : _) (s : Session) (r : _) → Keeps s (after_stage profile s r).1
unfolding after_stage
after_stage-Keeps profile s (err e, c) = (refl, refl)
after_stage-Keeps profile s (ok u, c) = (refl, refl)

if-Keeps :
    (s : Session) (b : Bool) (x y : Answer × Session)
    → Keeps s x.1
    → Keeps s y.1
    → Keeps s (if b then x else y).1
if-Keeps s true x y h k = h
if-Keeps s false x y h k = k

call_session-Keeps :
    (plan : FailurePlan) (call : Call) (s : Session)
    → IsMild call
    → Keeps s (call_session plan call s).1
unfolding call_session
call_session-Keeps plan (stage_wifi targets config profile is_extender) s h =
    if-Keeps s plan.fail_stage _ _ (refl, refl) (after_stage-Keeps profile s _)
call_session-Keeps plan (stage_wan config) s h =
    if-Keeps s plan.fail_stage _ _ (refl, refl) (refl, refl)
call_session-Keeps plan (read_wifi targets) s h = (refl, refl)
call_session-Keeps plan (read_roaming targets) s h = (refl, refl)
call_session-Keeps plan read_wan s h = (refl, refl)
call_session-Keeps plan revert s h = (refl, refl)
call_session-Keeps plan apply s h = absurd h
call_session-Keeps plan confirm s h = absurd h
call_session-Keeps plan rollback s h = absurd h

-- what the calls that follow leave of a session, if the ones before them are mild
after_mild :
    (plan : FailurePlan) (calls rest : List Call) (s : Session)
    → All IsMild calls
    → (t : Session) × Keeps s t
      × ((run_session plan (calls ++ rest) s).1 ≡ (run_session plan rest t).1)
unfolding run_session
after_mild plan [] rest s h = (s, (refl, refl), refl)
after_mild plan (call ∷ calls) rest s h =
    let k = call_session-Keeps plan call s h.0 in
    let (t, l, e) = after_mild plan calls rest (call_session plan call s).1 h.1 in
    (t, (l.0 ∙ k.0, l.1 ∙ k.1), e)

apply-step :
    (plan : FailurePlan) (s : Session)
    → plan.fail_apply ≡ false
    → (call_session plan apply s).1 ≡ record s { committed = s.staged; before = some s.committed }
unfolding call_session
apply-step plan s a = ground (arith, a)

rollback-step :
    (plan : FailurePlan) (s : Session) (c : RouterConfig)
    → plan.fail_rollback ≡ false
    → s.before ≡ some c
    → (call_session plan rollback s).1.committed ≡ c
unfolding call_session take_back
rollback-step plan s c r b = ground (arith, r, b)

confirm-step :
    (plan : FailurePlan) (s : Session)
    → plan.fail_confirm ≡ false
    → (call_session plan rollback (call_session plan confirm s).1).1.committed ≡ s.committed
unfolding call_session take_back
confirm-step plan s c = ground (arith, c)

module _ (plan : FailurePlan) (between : List Call) (mild : All IsMild between) (s : Session)
    (applies : plan.fail_apply ≡ false) where
  after_apply :
      (rest : List Call)
      → (t : Session) × (t.committed ≡ s.staged)
        × (t.before ≡ some s.committed)
        × ((run_session plan (apply ∷ between ++ rest) s).1 ≡ (run_session plan rest t).1)
  unfolding run_session
  after_apply rest =
      let (t, k, e) =
        after_mild plan between rest (record s { committed = s.staged; before = some s.committed })
          mild in
      (
        t,
        k.0,
        k.1,
        ap (λ x. (run_session plan (between ++ rest) x).1) (apply-step plan s applies) ∙ e,
      )

  rolled_back :
      plan.fail_rollback ≡ false
      → (run_session plan (apply ∷ between ++ rollback ∷ []) s).1.committed ≡ s.committed
  unfolding run_session
  rolled_back r =
      let (t, k, b, e) = after_apply (rollback ∷ []) in
      ap (λ x. x.committed) e ∙ rollback-step plan t s.committed r b

  confirmed :
      plan.fail_confirm ≡ false
      → (run_session plan (apply ∷ between ++ confirm ∷ rollback ∷ []) s).1.committed ≡ s.staged
  unfolding run_session
  confirmed c =
      let (t, k, b, e) = after_apply (confirm ∷ rollback ∷ []) in
      ap (λ x. x.committed) e ∙ confirm-step plan t c ∙ k

-- The configuration that is in force.
abbrev pub in_force : MemoryState → RouterConfig
in_force m = record { wifi = m.committed; roaming = m.roaming_committed; wan = m.wan_committed }

in_force-Shows :
    (id : String) (plan : FailurePlan) (m : MemoryState) (s : Session)
    → Shows id plan m s
    → in_force m ≡ s.committed
in_force-Shows id plan m s h = let (a, b, c) = h.committed in rw (a, b, c) refl

module _ (id : String) (plan : FailurePlan) (m : MemoryState) (s : Session) (h : Shows id plan m s)
    (between : List Call) (mild : All IsMild between) (applies : plan.fail_apply ≡ false) where
  -- In an open session in which neither an apply nor a rollback is planned to fail: after an apply,
  -- whatever is read, staged and reverted meanwhile, a rollback puts the configuration of the Wi-Fi, of
  -- the roaming and of the WAN back in force that was in force before.
  pub rollback-apply :
      plan.fail_rollback ≡ false
      → in_force (run_memory id (apply ∷ between ++ rollback ∷ []) m).1 ≡ in_force m
  rollback-apply r =
      let calls = apply ∷ between ++ rollback ∷ [] in
      let (e, k) = run-Refines id plan calls m s h in
      in_force-Shows id plan (run_memory id calls m).1 (run_session plan calls s).1 k
      ∙ rolled_back plan between mild s applies r
      ∙ sym (in_force-Shows id plan m s h)

  -- In an open session in which neither an apply nor a confirm is planned to fail: after an apply,
  -- whatever is read, staged and reverted meanwhile, and a confirm, what had been staged is in force, and
  -- a later rollback leaves it in force.
  pub confirm-apply :
      plan.fail_confirm ≡ false
      → in_force (run_memory id (apply ∷ between ++ confirm ∷ rollback ∷ []) m).1 ≡ s.staged
  confirm-apply c =
      let calls = apply ∷ between ++ confirm ∷ rollback ∷ [] in
      let (e, k) = run-Refines id plan calls m s h in
      in_force-Shows id plan (run_memory id calls m).1 (run_session plan calls s).1 k
      ∙ confirmed plan between mild s applies c
