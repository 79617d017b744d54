-- ===== src/Mesh/Tokens.antt =====
-- A token is given once, to the extender that the user has accepted.
use unetic_core.Prelude.{
  ◌≡◌, ◌≢◌, refl, ap, ◌∙◌, arith, true, Option, none, some, List, [], ◌∷◌, ◌++◌, String, Map, get,
  insert, remove, get-insert_same, get-remove_same, ==-eq, find, retain, ◌==◌, ◌!=◌, string_eq,
  option_eq, lowercase,
}
use unetic_core.Domain.Services.{KnownExtender, PendingExtender}
use unetic_core.Domain.Config.{DesiredConfig}
use unetic_core.Platform.{Host, FileOutcome, done, failed_before, failed_after}
use unetic_core.App.State.{App, Inner, StateTopic}
use unetic_core.App.Monad.{
  Outcome, returns, fails, hangs, ◌>>=◌, ◌>>◌, lift, host_call, modify_inner,
}
use unetic_core.App.Store.{settle, persist_config}
use unetic_core.App.Publisher.{publish, queue_state_update, send_pending_state}
use unetic_core.Wan.Address.{eq_ignore_ascii_case}
use unetic_core.Mesh.Pairing.{
  take_approved_pairing_token, mesh_pair_accept, takes, known_token, with_extender, without_pending,
  publish_extenders, known_extender, ok_or, token_of,
}

-- The extender that was put at the end is found.
find-known :
    (known : KnownExtender) (extenders : List KnownExtender)
    → find
        (λ (e : KnownExtender). e.mac == known.mac)
        (retain (λ e. e.mac != known.mac) extenders ++ known ∷ [])
      ≡ some known
unfolding find retain
find-known known [] = rw (==-eq known.mac known.mac refl) refl
find-known known (e ∷ extenders) = ground (arith, find-known known extenders)

takes-approved :
    (mac key : String) (inner : Inner)
    → get inner.approved_pairings mac ≡ some key
    → takes mac key inner ≡ true
unfolding takes
takes-approved mac key inner g = rw g (==-eq (some key) (some key) refl)

removed : (mac k : String) (m : Map String) → get (remove mac m) mac ≢ some k
removed mac k m = ground (arith, get-remove_same mac m)

module _ {W : Type 0} where
  -- A token that is given for one key only, and once.
  abbrev pub GivesOnce : String → String → String → App W → Type 0
  GivesOnce mac key token t =
      (u : App W) × (take_approved_pairing_token mac key t ≡ (returns (some token), u))
      × ((k : String) → (take_approved_pairing_token mac k u).0 ≡ returns none)
      × ((k : String) → key ≢ k → (take_approved_pairing_token mac k t).0 ≡ returns none)

  take-other :
      (mac k : String) (t : App W)
      → get t.inner.approved_pairings mac ≢ some k
      → (take_approved_pairing_token mac k t).0 ≡ returns none
  unfolding take_approved_pairing_token takes ◌>>=◌
  take-other mac k t n = ground (arith, n)

  abbrev taken : String → App W → App W
  taken mac t = record t {
    inner = record t.inner { approved_pairings = remove mac t.inner.approved_pairings };
  }

  gives_once :
      (mac key token : String) (t : App W)
      → get t.inner.approved_pairings mac ≡ some key
      → known_token mac t.inner.config.extenders ≡ some token
      → GivesOnce mac key token t
  unfolding take_approved_pairing_token ◌>>=◌
  gives_once mac key token t g e = (
    taken mac t,
    rw (takes-approved mac key t.inner g) (ap (λ o. (returns o, taken mac t)) e),
    λ k. take-other mac k _ (removed mac k t.inner.approved_pairings),
    λ k n. take-other mac k t (ground (arith, g, n)),
  )

module _ {W : Type 0} ⦃host : Host W⦄ where
  publish_pairings :
      (topic : StateTopic) (s : App W)
      → ((publish topic s).1.inner.config ≡ s.inner.config)
        × ((publish topic s).1.inner.approved_pairings ≡ s.inner.approved_pairings)
  unfolding publish queue_state_update send_pending_state
  publish_pairings topic s = (ground arith, ground arith)

  -- A pairing that is accepted gives the token once, and one that fails changes nothing.
  abbrev pub IsPaired : String → String → App W → Outcome (Unit {0}) × App W → Type 0
  IsPaired mac token s (returns _, t) =
      (pending : PendingExtender) × (find (λ (e : PendingExtender). eq_ignore_ascii_case e.mac mac)
          s.inner.pending_extenders
        ≡ some pending)
      × GivesOnce mac pending.pairing_key token t
  IsPaired mac token s (fails error, t) = t.inner ≡ s.inner
  IsPaired mac token s (hangs, t) = ⊥

  module _ (mac token : String) (pending : PendingExtender) (s : App W)
      (found : find
          (λ (e : PendingExtender). eq_ignore_ascii_case e.mac mac)
          s.inner.pending_extenders
        ≡ some pending) where
    abbrev paired : Inner → Inner
    paired i = record i {
      config = with_extender (known_extender mac pending token) s.inner.config;
      pending_extenders = without_pending mac i.pending_extenders;
      approved_pairings = insert mac pending.pairing_key i.approved_pairings;
    }

    paired-known : known_token mac (paired s.inner).config.extenders ≡ some token
    unfolding known_token with_extender
    paired-known =
        ap token_of (find-known (known_extender mac pending token) s.inner.config.extenders)

    stored-IsPaired :
        (world : W) (outcome : FileOutcome)
        → IsPaired mac token s (
            (settle
                  (λ files. record files {
                    config = some (with_extender (known_extender mac pending token) s.inner.config);
                  })
                  outcome
                >>= (λ _. (do modify_inner paired; publish_extenders)))
              (record s { world = world }))
    unfolding settle publish_extenders publish ◌>>=◌
    stored-IsPaired world done =
        let desired = with_extender (known_extender mac pending token) s.inner.config in
        let stored = record s {
          inner = paired s.inner;
          store = record s.store { config = some desired };
          world = world;
        } in
        let kept = publish_pairings StateTopic.extenders stored in
        (
          pending,
          found,
          gives_once mac pending.pairing_key token _
              (ap (λ m. get m mac) kept.1
                ∙ get-insert_same mac pending.pairing_key s.inner.approved_pairings)
              (ap (λ (c : DesiredConfig). known_token mac c.extenders) kept.0 ∙ paired-known),
        )
    stored-IsPaired world (failed_before message) = refl
    stored-IsPaired world (failed_after message) = refl

  found-IsPaired :
      (new_uuid : W → String × W) (mac : String) (s : App W) (o : Option PendingExtender)
      → find (λ (e : PendingExtender). eq_ignore_ascii_case e.mac mac) s.inner.pending_extenders ≡ o
      → IsPaired mac (new_uuid s.world).0 s (
          (lift (ok_or o) >>= (λ pending. (do
            token ← host_call new_uuid
            let config = with_extender (known_extender mac pending token) s.inner.config
            persist_config config
            modify_inner (λ i. record i {
              config = config;
              pending_extenders = without_pending mac i.pending_extenders;
              approved_pairings = insert mac pending.pairing_key i.approved_pairings;
            })
            publish_extenders)))
            s)
  unfolding persist_config ◌>>=◌
  found-IsPaired new_uuid mac s none e = refl
  found-IsPaired new_uuid mac s (some pending) e =
      stored-IsPaired mac (new_uuid s.world).0 pending s e _ _

  -- The acceptance of an extender does not hang. If it succeeds, an extender with this address was
  -- waiting, and from then on the token is given for the key that this extender came with, once, and for
  -- no other key; if it fails, the state behind the lock is as it was.
  pub mesh_pair_accept-IsPaired :
      (new_uuid : W → String × W) (mac : String) (s : App W)
      → IsPaired (lowercase mac) (new_uuid s.world).0 s (mesh_pair_accept new_uuid mac s)
  unfolding mesh_pair_accept ◌>>=◌
  mesh_pair_accept-IsPaired new_uuid mac s = found-IsPaired new_uuid (lowercase mac) s _ refl
