-- ===== src/App/Delivery.antt =====
-- What the receivers of events are sent.
use unetic_core.Prelude.{
  ℕ, ◌≡◌, ◌≤◌, ◌<◌, refl, Bool, true, false, Option, none, some, List, [], ◌∷◌, ◌++◌, All, arith,
  if◌then◌else◌,
}
use unetic_core.Platform.{Host}
use unetic_core.App.State.{App, PublicState, StateTopic, PendingStateUpdate, u64_max}
use unetic_core.App.Publisher.{
  next_seq, snapshot, queued, send, send_pending_state, queue_state_update, publish,
  flush_state_update,
}

-- numbered, each with a greater number than those before it
abbrev pub Increasing : List PublicState → Type 0
Increasing [] = Unit
Increasing (x ∷ xs) = All (λ (y : PublicState). x.event_seq < y.event_seq) xs × Increasing xs

abbrev pub NotAfter : ℕ → List PublicState → Type 0
NotAfter n events = All (λ (e : PublicState). e.event_seq ≤ n) events

pub record IsSequenced {W : Type 0} (s : App W) : Type 0 where
  pub increasing : Increasing s.events
  pub numbered : NotAfter s.inner.event_seq s.events

All-append :
    (P : PublicState → Type 0) (xs : List PublicState) (y : PublicState)
    → All P xs
    → P y
    → All P (xs ++ y ∷ [])
All-append P [] y h p = (p, tt)
All-append P (x ∷ xs) y h p = (h.0, All-append P xs y h.1 p)

NotAfter-le : (m n : ℕ) (events : List PublicState) → m ≤ n → NotAfter m events → NotAfter n events
NotAfter-le m n [] l h = tt
NotAfter-le m n (e ∷ events) l h = (omega (arith, h.0), NotAfter-le m n events l h.1)

Increasing-append :
    (events : List PublicState) (e : PublicState) (n : ℕ)
    → Increasing events
    → NotAfter n events
    → n < e.event_seq
    → Increasing (events ++ e ∷ [])
Increasing-append [] e n i b l = (tt, tt)
Increasing-append (x ∷ events) e n i b l =
    (All-append _ events e i.0 (omega (arith, b.0)), Increasing-append events e n i.1 b.1 l)

module _ {W : Type 0} ⦃host : Host W⦄ where
  send-IsSequenced :
      (pending : Option PendingStateUpdate) (s : App W)
      → s.inner.event_seq < u64_max
      → IsSequenced s
      → IsSequenced (send pending s)
  unfolding send
  send-IsSequenced none s l v = v
  send-IsSequenced (some update) s l v =
      let later : s.inner.event_seq < next_seq s.inner.event_seq = ground arith in
      record {
        increasing = Increasing-append s.events _ s.inner.event_seq v.increasing v.numbered later;
        numbered =
            All-append _ s.events _
              (NotAfter-le s.inner.event_seq _ s.events (omega (arith, later)) v.numbered)
              (omega arith);
      }

  flush_state_update-IsSequenced :
      (s : App W) → s.inner.event_seq < u64_max → IsSequenced s → IsSequenced (flush_state_update s)
  unfolding flush_state_update send_pending_state
  flush_state_update-IsSequenced s l v = send-IsSequenced s.state_updates.pending s l v

  if_sent :
      (b : Bool) (s : App W)
      → s.inner.event_seq < u64_max
      → IsSequenced s
      → IsSequenced (if b then send_pending_state s else s)
  unfolding send_pending_state
  if_sent true s l v = send-IsSequenced s.state_updates.pending s l v
  if_sent false s l v = v

  -- Publishing a state and flushing the buffer keep the numbers of the events that were sent: each is
  -- greater than those before it, as long as the last number is below 2^64 - 1.
  pub publish-IsSequenced :
      (topic : StateTopic) (s : App W)
      → s.inner.event_seq < u64_max
      → IsSequenced s
      → IsSequenced (publish topic s).1 × IsSequenced (flush_state_update s)
  unfolding publish queue_state_update send_pending_state
  publish-IsSequenced topic s l v =
      let sent = if_sent _ s l v in
      (
        record { increasing = sent.increasing; numbered = sent.numbered },
        flush_state_update-IsSequenced s l v,
      )

  -- the last of the events, and an empty buffer
  abbrev pub Delivers : PublicState → App W → Type 0
  Delivers state t =
      (before : List PublicState) × (t.events
        ≡ before ++ record state { event_seq = t.inner.event_seq } ∷ [])
      × (t.state_updates.pending ≡ none)

  send-Delivers :
      (pending : Option PendingStateUpdate) (topic : StateTopic) (state : PublicState) (t : App W)
      → Delivers state (send (queued pending topic state) t)
  unfolding send queued
  send-Delivers none topic state t = (t.events, refl, refl)
  send-Delivers (some update) topic state t = (t.events, refl, refl)

  -- However the buffer stands, a state that is published and then flushed is the last that is sent,
  -- but for its number, which is the one that the core then has.
  pub flush_state_update-publish :
      (topic : StateTopic) (s : App W)
      → Delivers (snapshot s.inner) (flush_state_update (publish topic s).1)
  unfolding publish queue_state_update flush_state_update send_pending_state
  flush_state_update-publish topic s = send-Delivers _ topic (snapshot s.inner) _
