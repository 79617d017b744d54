-- ===== src/Mesh/Queue.antt =====
-- The extenders that wait for the user: no more than fifty, and none twice.
use unetic_core.Prelude.{
  ◌==◌, nat_eq, ◌≡◌, ◌≤◌, refl, sym, subst, arith, Bool, true, false, ◌||◌, List, [], ◌∷◌, ◌++◌,
  String, length, length-append, length-retain-le, All, any, retain, leb, if◌then◌else◌, Bool-cases,
  inl, inr,
}
use unetic_core.Domain.Services.{PendingExtender}
use unetic_core.Domain.Traffic.{remove_first}
use unetic_core.Platform.{Host}
use unetic_core.App.State.{App, StateTopic}
use unetic_core.App.Monad.{raise, Action, ◌>>=◌}
use unetic_core.App.Publisher.{publish, queue_state_update, send_pending_state}
use unetic_core.Wan.Address.{eq_ignore_ascii_case}
use unetic_core.Devices.Validation.{no_such}
use unetic_core.Mesh.Pairing.{
  add_pending, without_pending, is_pending, mesh_add_pending, mesh_pair_reject, publish_extenders,
}

-- An extender's address is not that of a later one.
abbrev pub AreDistinct : List PendingExtender → Type 0
AreDistinct [] = Unit
AreDistinct (x ∷ pending) =
    All (λ (o : PendingExtender). eq_ignore_ascii_case x.mac o.mac ≡ false) pending
    × AreDistinct pending

abbrev pub IsQueue : List PendingExtender → Type 0
IsQueue pending = (length pending ≤ 50) × AreDistinct pending

All-retain :
    (P : PendingExtender → Type 0) (p : PendingExtender → Bool) (pending : List PendingExtender)
    → All P pending
    → All P (retain p pending)
unfolding retain
All-retain P p [] h = tt
All-retain P p (x ∷ pending) h = elim (Bool-cases (p x)) [
  | inl b ↦ rw b (h.0, All-retain P p pending h.1)
  | inr b ↦ rw b (All-retain P p pending h.1)
]

retain-AreDistinct :
    (p : PendingExtender → Bool) (pending : List PendingExtender)
    → AreDistinct pending
    → AreDistinct (retain p pending)
unfolding retain
retain-AreDistinct p [] h = tt
retain-AreDistinct p (x ∷ pending) h = elim (Bool-cases (p x)) [
  | inl b ↦ rw b (All-retain _ p pending h.0, retain-AreDistinct p pending h.1)
  | inr b ↦ rw b (retain-AreDistinct p pending h.1)
]

retain-IsQueue :
    (p : PendingExtender → Bool) (pending : List PendingExtender)
    → IsQueue pending
    → IsQueue (retain p pending)
retain-IsQueue p pending h =
    (omega (arith, length-retain-le p pending, h.0), retain-AreDistinct p pending h.1)

snoc-All :
    (P : PendingExtender → Type 0) (pending : List PendingExtender) (e : PendingExtender)
    → All P pending
    → P e
    → All P (pending ++ e ∷ [])
snoc-All P [] e h p = (p, tt)
snoc-All P (x ∷ pending) e h p = (h.0, snoc-All P pending e h.1 p)

any-false : (b c : Bool) → (b || c) ≡ false → (b ≡ false) × (c ≡ false)
any-false b c h = (ground (arith, h), ground (arith, h))

snoc-AreDistinct :
    (pending : List PendingExtender) (e : PendingExtender)
    → AreDistinct pending
    → is_pending e.mac pending ≡ false
    → AreDistinct (pending ++ e ∷ [])
unfolding any
snoc-AreDistinct [] e h n = (tt, tt)
snoc-AreDistinct (x ∷ pending) e h n =
    let (a, b) = any-false (eq_ignore_ascii_case x.mac e.mac) (is_pending e.mac pending) n in
    (snoc-All _ pending e h.0 a, snoc-AreDistinct pending e h.1 b)

remove_first-new :
    (pending : List PendingExtender) (mac : String)
    → is_pending mac pending ≡ false
    → is_pending mac (remove_first pending) ≡ false
unfolding any
remove_first-new [] mac n = n
remove_first-new (x ∷ pending) mac n = (any-false (eq_ignore_ascii_case x.mac mac) _ n).1

remove_first-AreDistinct :
    (pending : List PendingExtender) → AreDistinct pending → AreDistinct (remove_first pending)
remove_first-AreDistinct [] h = tt
remove_first-AreDistinct (x ∷ pending) h = h.1

length-remove_first :
    (pending : List PendingExtender) → length pending ≤ 50 → length (remove_first pending) ≤ 49
length-remove_first [] h = omega arith
length-remove_first (x ∷ pending) h = omega (arith, h)

add_pending-IsQueue :
    (e : PendingExtender) (pending : List PendingExtender)
    → IsQueue pending
    → is_pending e.mac pending ≡ false
    → IsQueue (add_pending e pending)
unfolding add_pending
add_pending-IsQueue e pending h n = elim (Bool-cases (leb 50 (length pending))) [
  | inl b ↦ rw b (
    omega (arith, length-append (remove_first pending) (e ∷ []), length-remove_first pending h.0),
    snoc-AreDistinct (remove_first pending) e (remove_first-AreDistinct pending h.1)
        (remove_first-new pending e.mac n),
  )
  | inr b ↦
      let l = length-append pending (e ∷ []) in
      rw b (ground (arith, l, b), snoc-AreDistinct pending e h.1 n)
]

without-IsQueue :
    (mac : String) (pending : List PendingExtender)
    → IsQueue pending
    → IsQueue (without_pending mac pending)
unfolding without_pending
without-IsQueue mac pending h = retain-IsQueue _ pending h

module _ {W : Type 0} ⦃host : Host W⦄ where
  publish_pending :
      (topic : StateTopic) (s : App W)
      → (publish topic s).1.inner.pending_extenders ≡ s.inner.pending_extenders
  unfolding publish queue_state_update send_pending_state
  publish_pending topic s = ground arith

  abbrev pub IsQueued : App W → Type 0
  IsQueued s = IsQueue s.inner.pending_extenders

  if-IsQueued :
      (b : Bool) (m n : Action W (Unit {0})) (s : App W)
      → IsQueued (m s).1
      → (b ≡ false → IsQueued (n s).1)
      → IsQueued ((if b then m else n) s).1
  if-IsQueued true m n s h k = h
  if-IsQueued false m n s h k = k refl

  published : (s : App W) → IsQueued s → IsQueued (publish_extenders s).1
  unfolding publish_extenders publish ◌>>=◌
  published s h = subst IsQueue (sym (publish_pending StateTopic.extenders s)) h

  added-IsQueued :
      (e : PendingExtender) (s : App W) → IsQueued s → IsQueued (mesh_add_pending e s).1
  unfolding mesh_add_pending ◌>>=◌
  added-IsQueued e s h =
      if-IsQueued (is_pending e.mac s.inner.pending_extenders) _ _ s h
        (λ n. published _ (add_pending-IsQueue e s.inner.pending_extenders h n))

  rejected-IsQueued : (mac : String) (s : App W) → IsQueued s → IsQueued (mesh_pair_reject mac s).1
  unfolding mesh_pair_reject ◌>>=◌
  rejected-IsQueued mac s h =
      let kept = without-IsQueue mac s.inner.pending_extenders h in
      let left = record s {
        inner = record s.inner {
          pending_extenders = without_pending mac s.inner.pending_extenders;
        };
      } in
      if-IsQueued
        (length (without_pending mac s.inner.pending_extenders) == length s.inner.pending_extenders)
        (raise (no_such "pending extender")) publish_extenders left kept (λ _. published left kept)

  -- Where no more than fifty extenders wait for the user, and no two with one address but for the case
  -- of its letters, this is so after one more has asked to be paired, and after one is rejected.
  pub mesh_add_pending-IsQueued :
      (e : PendingExtender) (mac : String) (s : App W)
      → IsQueued s
      → IsQueued (mesh_add_pending e s).1 × IsQueued (mesh_pair_reject mac s).1
  mesh_add_pending-IsQueued e mac s h = (added-IsQueued e s h, rejected-IsQueued mac s h)
