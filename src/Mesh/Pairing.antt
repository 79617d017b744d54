-- ===== src/Mesh/Pairing.antt =====
-- src/application/app/mesh_state.rs, and the pairing of src/application/app/operations/mesh.rs. The token of
-- a pairing is a version 4 UUID, from a generator outside the core.
use unetic_core.Prelude.{
  Bool, true, false, not, Option, none, some, List, [], ◌∷◌, ◌++◌, String, get, insert, remove,
  contains_key, any, find, retain, length, leb, ◌==◌, ◌!=◌, nat_eq, string_eq, option_eq, ok, err,
  list_eq, if◌then◌else◌, lowercase,
}
use unetic_core.Domain.Errors.{Fallible}
use unetic_core.Domain.Device.{ExtenderClient, extender_client_eq}
use unetic_core.Domain.Services.{KnownExtender, PendingExtender, PhysicalPort, ScannedNetwork}
use unetic_core.Domain.Config.{DesiredConfig}
use unetic_core.Domain.Traffic.{remove_first}
use unetic_core.Platform.{Host}
use unetic_core.App.State.{Inner, StateTopic}
use unetic_core.App.Monad.{Action, ◌>>=◌, ◌>>◌, pure, raise, gets, lift, host_call, modify_inner}
use unetic_core.App.Store.{persist_config}
use unetic_core.App.Publisher.{next_seq, publish}
use unetic_core.Wan.Address.{eq_ignore_ascii_case}
use unetic_core.Devices.Validation.{no_such}

abbrev pub is_pending : String → List PendingExtender → Bool
is_pending mac pending = any (λ current. eq_ignore_ascii_case current.mac mac) pending

unfoldable pub add_pending : PendingExtender → List PendingExtender → List PendingExtender
add_pending extender pending =
    (if leb 50 (length pending) then remove_first pending else pending) ++ extender ∷ []

-- The approved pairings, without the one that is taken.
unfoldable pub takes : String → String → Inner → Bool
takes mac pairing_key inner = get inner.approved_pairings mac == some pairing_key

abbrev pub token_of : Option KnownExtender → Option String
token_of none = none
token_of (some extender) = some extender.auth_token

unfoldable pub known_token : String → List KnownExtender → Option String
known_token mac extenders = token_of (find (λ extender. extender.mac == mac) extenders)

abbrev pub known_extender : String → PendingExtender → String → KnownExtender
known_extender mac pending token = record {
  mac = mac;
  ip = "";
  model = pending.model;
  auth_token = token;
}

-- The desired configuration with an extender that is paired, under the next revision.
unfoldable pub with_extender : KnownExtender → DesiredConfig → DesiredConfig
with_extender known config = record config {
  extenders = retain (λ extender. extender.mac != known.mac) config.extenders ++ known ∷ [];
  revision = next_seq config.revision;
}

unfoldable pub without_pending : String → List PendingExtender → List PendingExtender
without_pending mac pending =
    retain (λ extender. not (eq_ignore_ascii_case extender.mac mac)) pending

abbrev pub ok_or : Option PendingExtender → Fallible PendingExtender
ok_or none = err (no_such "pending extender")
ok_or (some extender) = ok extender

module _ {W : Type 0} where
  unfoldable pub take_approved_pairing_token : String → String → Action W (Option String)
  unfolding takes known_token
  take_approved_pairing_token mac pairing_key = do
    inner ← gets (λ s. s.inner)
    (if takes mac pairing_key inner
        then modify_inner (λ i. record i { approved_pairings = remove mac i.approved_pairings })
          >> pure (known_token mac inner.config.extenders)
        else pure none)

  abbrev pub extender_pairing_key : Action W String
  extender_pairing_key = gets (λ s. s.inner.extender_pairing_key)

module _ {W : Type 0} ⦃host : Host W⦄ where
  unfoldable pub publish_extenders : Action W (Unit {0})
  publish_extenders = publish StateTopic.extenders >> pure tt

  unfoldable pub mesh_add_pending : PendingExtender → Action W (Unit {0})
  unfolding publish_extenders add_pending
  mesh_add_pending extender = do
    pending ← gets (λ s. s.inner.pending_extenders)
    (if is_pending extender.mac pending
        then pure tt
        else modify_inner
            (λ inner. record inner { pending_extenders = add_pending extender pending })
          >> publish_extenders)

  unfoldable pub mesh_pair_accept : (W → String × W) → String → Action W (Unit {0})
  unfolding with_extender without_pending publish_extenders
  mesh_pair_accept new_uuid given = do
    let mac = lowercase given
    inner ← gets (λ s. s.inner)
    pending ← lift (ok_or (find (λ e. eq_ignore_ascii_case e.mac mac) inner.pending_extenders))
    token ← host_call new_uuid
    let config = with_extender (known_extender mac pending token) inner.config
    persist_config config
    modify_inner (λ i. record i {
      config = config;
      pending_extenders = without_pending mac i.pending_extenders;
      approved_pairings = insert mac pending.pairing_key i.approved_pairings;
    })
    publish_extenders

  unfoldable pub mesh_pair_reject : String → Action W (Unit {0})
  unfolding without_pending publish_extenders
  mesh_pair_reject mac = do
    pending ← gets (λ s. s.inner.pending_extenders)
    let kept = without_pending mac pending
    modify_inner (λ i. record i { pending_extenders = kept })
    (if length kept == length pending
        then raise (no_such "pending extender")
        else publish_extenders)

  unfoldable pub update_extender_token : Option String → Action W (Unit {0})
  unfolding publish_extenders
  update_extender_token token = do
    config ← gets (λ s. record s.inner.config { extender_auth_token = token })
    persist_config config
    modify_inner (λ inner. record inner { config = config })
    publish_extenders

  abbrev pub extender_set_token : String → Action W (Unit {0})
  extender_set_token token = update_extender_token (some token)

  abbrev pub extender_clear_token : Action W (Unit {0})
  extender_clear_token = update_extender_token none

  unfoldable pub update_extender_ports : String → List PhysicalPort → Action W (Unit {0})
  unfolding publish_extenders
  update_extender_ports mac ports = do
    modify_inner (λ inner. record inner { extender_ports = insert mac ports inner.extender_ports })
    publish_extenders

  unfoldable pub update_extender_telemetry : String → List ExtenderClient → Action W Bool
  unfolding publish_extenders
  update_extender_telemetry mac clients = do
    known ← gets (λ s. get s.inner.extender_clients mac)
    (if known == some clients
        then pure false
        else modify_inner
            (λ inner. record inner { extender_clients = insert mac clients inner.extender_clients })
          >> publish_extenders
          >> pure true)

  unfoldable pub clear_extender_telemetry : String → Action W (Unit {0})
  unfolding publish_extenders
  clear_extender_telemetry mac = do
    removed ← gets (λ s. contains_key s.inner.extender_clients mac)
    modify_inner (λ inner. record inner { extender_clients = remove mac inner.extender_clients })
    (if removed then publish_extenders else pure tt)

  unfoldable pub update_scan_results : String → List ScannedNetwork → Action W (Unit {0})
  unfolding publish_extenders
  update_scan_results mac networks = do
    modify_inner (λ inner. record inner { latest_scans = insert mac networks inner.latest_scans })
    publish_extenders
