-- ===== src/Requests/WanSafety.antt =====
-- When a WAN request starts a change.
use unetic_core.Prelude.{◌≡◌, ◌≢◌, false, Option, none, ok, >>=-ok, arith, byte_len, is_blank, ◌≤◌}
use unetic_core.Domain.Wan.{SetWanRequest, wan_desired_eq}
use unetic_core.Domain.Operation.{OperationAccepted}
use unetic_core.Domain.Config.{ready}
use unetic_core.App.State.{Inner}
use unetic_core.Wan.Normalization.{normalize_wan_desired}
use unetic_core.Wan.Validation.{validate_wan_desired}
use unetic_core.Wan.Acceptance.{validate_wan_desired-normalize}
use unetic_core.Requests.Admission.{change, check_app_ready}
use unetic_core.Requests.WanAdmission.{
  validate_set_wan, normalized, check_wan_idempotency, check_wan_revision, decide_wan,
  admit_normalized, admit_wan,
}
use unetic_core.Requests.WanKnown.{admit_wan-IsFresh}

pub record IsWanStart (request : SetWanRequest) (inner : Inner) : Type 0 where
  pub id : is_blank request.request_id ≡ false
  pub id_len : byte_len request.request_id ≤ 128
  pub valid : validate_wan_desired (normalize_wan_desired request.wan) ≡ ok tt
  pub awake : inner.maintenance ≡ false
  pub lifecycle : inner.lifecycle ≡ ready
  pub free : inner.active_operation ≡ none
  pub revision : request.expected_revision ≡ inner.config.revision
  pub differs : inner.config.wan ≢ normalize_wan_desired request.wan

decide_wan-change :
    (request : SetWanRequest) (inner : Inner) (known : Option OperationAccepted)
    → decide_wan request inner known ≡ ok change
    → (request.expected_revision ≡ inner.config.revision) × (inner.config.wan ≢ request.wan)
unfolding decide_wan check_wan_revision
decide_wan-change request inner known h = (ground arith, ground arith)

-- A WAN request starts a change only if its request_id is not blank and has 128 bytes at most, the
-- configuration that would be put in force, which is the normal form of the one asked for, is
-- acceptable, the core is ready and not in maintenance, no operation runs, the client has seen the
-- revision in force, and that configuration is not the one in force.
pub admit_wan-IsWanStart :
    (request : SetWanRequest) (inner : Inner)
    → admit_wan request inner ≡ ok change
    → IsWanStart request inner
unfolding admit_wan admit_normalized validate_set_wan check_app_ready normalized
admit_wan-IsWanStart request inner h =
    let fresh = admit_wan-IsFresh request inner change h (λ k e. cc) in
    let (u, p, h₁) = >>=-ok (validate_set_wan request) _ h in
    let (v, q, h₂) = >>=-ok (check_app_ready inner) _ h₁ in
    let (known, r, h₃) = >>=-ok (check_wan_idempotency inner (normalized request)) _ h₂ in
    let (rev, differs) = decide_wan-change (normalized request) inner known h₃ in
    record {
      id = ground arith;
      id_len = ground arith;
      valid = validate_wan_desired-normalize request.wan (ground arith);
      awake = ground arith;
      lifecycle = ground arith;
      free = fresh.free;
      revision = rev;
      differs = differs;
    }
