-- ===== src/Services/Ddns.antt =====
-- `ddns_set` of src/application/app/operations/ddns.rs. The status that the watcher reports is left out.
use unetic_core.Prelude.{Bool, false, not, ◌&&◌, Option, none, some, String, is_blank, fail_if}
use unetic_core.Domain.Errors.{Fallible, invalid}
use unetic_core.Domain.Services.{
  DdnsProvider, cloudflare, duck_dns, CloudflareConfig, DuckDnsConfig, DdnsConfig,
}
use unetic_core.Domain.Config.{DesiredConfig}
use unetic_core.Platform.{Host}
use unetic_core.App.State.{StateTopic}
use unetic_core.App.Monad.{Action, ◌>>=◌, ◌>>◌, pure, gets, lift, modify_inner}
use unetic_core.App.Store.{persist_config}
use unetic_core.App.Publisher.{next_seq, publish}

-- `all_present`, of one value
abbrev pub present : String → Bool
present value = not (is_blank value)

unfoldable pub cloudflare_present : Option CloudflareConfig → Bool
cloudflare_present none = false
cloudflare_present (some config) =
    present config.zone_id
    && present config.record_id
    && present config.api_token
    && present config.hostname

unfoldable pub duckdns_present : Option DuckDnsConfig → Bool
duckdns_present none = false
duckdns_present (some config) = present config.token && present config.domain

unfoldable pub provider_present : DdnsProvider → DdnsConfig → Bool
provider_present cloudflare config = cloudflare_present config.cloudflare
provider_present duck_dns config = duckdns_present config.duckdns
provider_present DdnsProvider.none config = false

unfoldable pub validate_ddns_config : DdnsConfig → Fallible (Unit {0})
validate_ddns_config config =
    fail_if (config.enabled && not (provider_present config.provider config))
      (invalid "enabled DDNS provider configuration is incomplete")

-- `desired.revision.saturating_add(1)`
abbrev pub with_ddns : DdnsConfig → DesiredConfig → DesiredConfig
with_ddns config desired = record desired { ddns = config; revision = next_seq desired.revision }

module _ {W : Type 0} ⦃host : Host W⦄ where
  -- The lock is held from the reading of the configuration to its replacement.
  unfoldable pub save_ddns : DdnsConfig → Action W (Unit {0})
  save_ddns config = do
    desired ← gets (λ s. with_ddns config s.inner.config)
    persist_config desired
    modify_inner (λ inner. record inner { config = desired })
    publish StateTopic.ddns
    pure tt

  unfoldable pub ddns_set : DdnsConfig → Action W (Unit {0})
  ddns_set config = lift (validate_ddns_config config) >> save_ddns config
