-- ===== src/Services/DdnsLaws.antt =====
-- What `ddns_set` accepts, and what it leaves.
use unetic_core.Prelude.{
  ◌≡◌, ◌≤◌, ◌<◌, ◌+◌, ◌-◌, ◌^◌, sym, subst, ◌↔◌, ◌∙◌, refl, ap, true, false, Option, none, some,
  String, ok, err, is_blank, arith,
}
use unetic_core.Domain.Errors.{Fallible}
use unetic_core.Domain.Services.{
  DdnsProvider, cloudflare, duck_dns, CloudflareConfig, DuckDnsConfig, DdnsConfig,
}
use unetic_core.Domain.Config.{DesiredConfig}
use unetic_core.Platform.{Host, FileOutcome, done, failed_before, failed_after}
use unetic_core.App.State.{App, StateTopic, StateStore}
use unetic_core.App.Monad.{Outcome, returns, fails, hangs, ◌>>=◌, ◌>>◌, pure, modify_inner, lift}
use unetic_core.App.Store.{settle, persist_config}
use unetic_core.App.Publisher.{publish, queue_state_update, send_pending_state}
use unetic_core.Services.Ddns.{
  cloudflare_present, duckdns_present, provider_present, validate_ddns_config, with_ddns, save_ddns,
  ddns_set,
}

abbrev pub IsPresent : String → Type 0
IsPresent value = is_blank value ≡ false

-- What a provider needs.
abbrev pub IsComplete : DdnsProvider → DdnsConfig → Type 0
IsComplete cloudflare config =
    (c : CloudflareConfig) × (config.cloudflare ≡ some c)
    × IsPresent c.zone_id
    × IsPresent c.record_id
    × IsPresent c.api_token
    × IsPresent c.hostname
IsComplete duck_dns config =
    (d : DuckDnsConfig) × (config.duckdns ≡ some d) × IsPresent d.token × IsPresent d.domain
IsComplete DdnsProvider.none config = ⊥

of_cloudflare :
    (c : CloudflareConfig)
    → IsPresent c.zone_id
    → IsPresent c.record_id
    → IsPresent c.api_token
    → IsPresent c.hostname
    → cloudflare_present (some c) ≡ true
unfolding cloudflare_present
of_cloudflare c zone record_id token host = ground arith

of_duckdns :
    (d : DuckDnsConfig) → IsPresent d.token → IsPresent d.domain → duckdns_present (some d) ≡ true
unfolding duckdns_present
of_duckdns d token domain = ground arith

cloudflare_present-IsComplete :
    (config : Option CloudflareConfig)
    → cloudflare_present config ≡ true
    → (c : CloudflareConfig) × (config ≡ some c)
      × IsPresent c.zone_id
      × IsPresent c.record_id
      × IsPresent c.api_token
      × IsPresent c.hostname
unfolding cloudflare_present
cloudflare_present-IsComplete none h = absurd cc
cloudflare_present-IsComplete (some c) h =
    (c, refl, ground arith, ground arith, ground arith, ground arith)

duckdns_present-IsComplete :
    (config : Option DuckDnsConfig)
    → duckdns_present config ≡ true
    → (d : DuckDnsConfig) × (config ≡ some d) × IsPresent d.token × IsPresent d.domain
unfolding duckdns_present
duckdns_present-IsComplete none h = absurd cc
duckdns_present-IsComplete (some d) h = (d, refl, ground arith, ground arith)

provider_present_iff :
    (provider : DdnsProvider) (config : DdnsConfig)
    → (provider_present provider config ≡ true) ↔ IsComplete provider config
unfolding provider_present
provider_present_iff cloudflare config = (
  cloudflare_present-IsComplete config.cloudflare,
  λ h. ap cloudflare_present h.1 ∙ of_cloudflare h.0 h.2 h.3 h.4 h.5,
)
provider_present_iff duck_dns config = (
  duckdns_present-IsComplete config.duckdns,
  λ h. ap duckdns_present h.1 ∙ of_duckdns h.0 h.2 h.3,
)
provider_present_iff DdnsProvider.none config = (λ h. cc, λ h. absurd h)

-- A DDNS configuration is accepted exactly if it is not enabled or its provider is named and has every
-- value that it needs, none of them blank.
pub validate_ddns_config_iff :
    (config : DdnsConfig)
    → (validate_ddns_config config ≡ ok tt)
      ↔ (config.enabled ≡ true → IsComplete config.provider config)
unfolding validate_ddns_config
validate_ddns_config_iff config = (
  λ h on. (provider_present_iff config.provider config).0 (ground arith),
  λ h.
      let complete : config.enabled ≡ true → provider_present config.provider config ≡ true =
        λ on. (provider_present_iff config.provider config).1 (h on) in
      ground (arith, complete),
)

-- The configuration after a DDNS request: the request's one for DDNS, the next revision, which stops
-- at the last number of 64 bits, and nothing else is changed.
pub record IsInForce (config : DdnsConfig) (before after : DesiredConfig) : Type 0 where
  pub ddns : after.ddns ≡ config
  pub next : before.revision < 2 ^ 64 - 1 → after.revision ≡ before.revision + 1
  pub last : 2 ^ 64 - 1 ≤ before.revision → after.revision ≡ 2 ^ 64 - 1
  pub others : record after { ddns = before.ddns; revision = before.revision } ≡ before

with_ddns-IsInForce :
    (config : DdnsConfig) (before : DesiredConfig)
    → IsInForce config before (with_ddns config before)
with_ddns-IsInForce config before = record {
  ddns = refl;
  next = λ h. ground arith;
  last = λ h. ground arith;
  others = refl;
}

module _ {W : Type 0} ⦃host : Host W⦄ where
  -- What a DDNS request leaves where it is accepted, and where it is refused.
  abbrev pub IsApplied : DdnsConfig → App W → Outcome (Unit {0}) × App W → Type 0
  IsApplied config s (returns _, t) =
      (config.enabled ≡ true → IsComplete config.provider config)
      × IsInForce config s.inner.config t.inner.config
      × (t.store.config ≡ some t.inner.config)
  IsApplied config s (fails error, t) = t.inner ≡ s.inner
  IsApplied config s (hangs, t) = ⊥

  publish_config :
      (topic : StateTopic) (s : App W)
      → ((publish topic s).1.inner.config ≡ s.inner.config) × ((publish topic s).1.store ≡ s.store)
  unfolding publish queue_state_update send_pending_state
  publish_config topic s = (ground arith, ground arith)

  written-IsApplied :
      (config : DdnsConfig) (s : App W)
      → validate_ddns_config config ≡ ok tt
      → (world : W) (outcome : FileOutcome)
      → IsApplied config s (
          (settle
                (λ files. record files { config = some (with_ddns config s.inner.config) })
                outcome
              >>= (λ _. (do
                modify_inner (λ inner. record inner { config = with_ddns config s.inner.config })
                publish StateTopic.ddns
                pure tt)))
            (record s { world = world }))
  unfolding settle publish ◌>>=◌
  written-IsApplied config s h world done =
      let kept = publish_config StateTopic.ddns _ in
      (
        (validate_ddns_config_iff config).0 h,
        subst (IsInForce config s.inner.config) (sym kept.0)
            (with_ddns-IsInForce config s.inner.config),
        ap (λ (files : StateStore). files.config) kept.1 ∙ ap some (sym kept.0),
      )
  written-IsApplied config s h world (failed_before message) = refl
  written-IsApplied config s h world (failed_after message) = refl

  saved-IsApplied :
      (config : DdnsConfig) (s : App W)
      → validate_ddns_config config ≡ ok tt
      → IsApplied config s (save_ddns config s)
  unfolding save_ddns persist_config ◌>>=◌
  saved-IsApplied config s h = written-IsApplied config s h _ _

  checked-IsApplied :
      (config : DdnsConfig) (s : App W) (r : Fallible (Unit {0}))
      → validate_ddns_config config ≡ r
      → IsApplied config s ((lift r >> save_ddns config) s)
  unfolding ◌>>=◌
  checked-IsApplied config s (ok _) h = saved-IsApplied config s h
  checked-IsApplied config s (err error) h = refl

  -- A DDNS request does not hang. If it is accepted, it names a provider with every value that it needs
  -- or is not enabled, the configuration in force is the one that it was but for the requested DDNS
  -- configuration and the next revision (which stops at 2^64 - 1), and this configuration is on the
  -- disk; if it fails, the state behind the lock is as it was.
  pub ddns_set-IsApplied :
      (config : DdnsConfig) (s : App W) → IsApplied config s (ddns_set config s)
  unfolding ddns_set
  ddns_set-IsApplied config s = checked-IsApplied config s _ refl
