-- ===== src/Service/Bundles.antt =====
-- internal/core/service/bundle.go. The repositories and the provider of bundles are parameters that work
-- on a state `S`, and so are the JSON encoder and SHA-256. A value is never changed in place, so
-- cloneBundle gives the bundle itself. A time is a number of nanoseconds.
pub mod LastKnown
use dependency_firewall.Base.{
  Bool, List, Option, String, [], any, if◌then◌else◌, leb_ℤ, none, not, pos, some, ℤ, ◌&&◌, ◌-ℤ◌,
  ◌==◌, ◌||◌, ◌∷◌,
}
use dependency_firewall.Domain.Capability.{Upstream, auth_configured}
use dependency_firewall.Domain.Message.{
  Error, Message, Result, annotate, bundle_unavailable, err, no_message, ok, plain,
  tenant_not_found, upstream_auth_transport_insecure, wrap,
}
use dependency_firewall.Domain.Policy.{Policy}
use dependency_firewall.Service.Calls.{Call, check, give, or_fail, ◌>>=◌, ◌>>◌}

pub record Tenant : Type 0 where
  pub id : String
  pub name : String

pub record TenantBundle : Type 0 where
  pub tenant : Tenant
  pub tenant_id : String
  pub revision : String
  pub generated_at : ℤ
  pub policies : List Policy
  pub upstreams : List Upstream

pub record BundlePorts (S : Type 0) : Type 0 where
  pub get_tenant : String → Call S (Option Tenant)
  pub list_policies : String → Call S (List Policy)
  pub list_bundle_upstreams : String → Call S (List Upstream)
  pub include_upstream_auth : Bool
  pub encode : Tenant → List Policy → List Upstream → Result String
  pub digest : String → String

found_tenant : Option Tenant → Result Tenant
found_tenant none = err (annotate "loading bundle tenant" (wrap tenant_not_found no_message))
found_tenant (some t) = ok t

refuse_auth : Bool → List Upstream → Result (Unit {0})
refuse_auth included upstreams =
    if not included && any (λ u. auth_configured u.auth) upstreams
    then err (
        wrap upstream_auth_transport_insecure
          (plain "authenticated upstreams cannot be bundled over insecure transport"))
    else ok tt

module _ {S : Type 0} (ports : BundlePorts S) where
  bundle_revision : Tenant → List Policy → List Upstream → Result String
  bundle_revision t policies upstreams = elim (ports.encode t policies upstreams) [
    | err e ↦ err e
    | ok data_ ↦ ok (ports.digest data_)
  ]

  -- GetTenantBundle of BundleService; `now` is time.Now
  unfoldable pub get_tenant_bundle : ℤ → String → Call S TenantBundle
  unfolding found_tenant refuse_auth bundle_revision
  get_tenant_bundle now tenant = do
    found ← or_fail "loading bundle tenant" (ports.get_tenant tenant)
    t ← check (found_tenant found)
    policies ← or_fail "listing bundle policies" (ports.list_policies tenant)
    upstreams ← or_fail "listing bundle upstreams" (ports.list_bundle_upstreams tenant)
    check (refuse_auth ports.include_upstream_auth upstreams)
    revision ← or_fail "computing bundle revision" (check (bundle_revision t policies upstreams))
    give (record {
      tenant = t;
      tenant_id = t.id;
      revision = revision;
      generated_at = now;
      policies = policies;
      upstreams = upstreams;
    })

pub record CachedBundle : Type 0 where
  pub bundle : TenantBundle
  pub refreshed : ℤ

-- what the last refresh of a kind was for
pub record Refresh : Type 0 where
  pub tenant_id : String
  pub detail : Message
  pub at : ℤ

-- CachedBundleProvider; a map is the list of its entries, the last one written first
pub record BundleCache : Type 0 where
  pub refresh_interval : ℤ
  pub entries : List (String × CachedBundle)
  pub last_success : Option Refresh
  pub last_failure : Option Refresh

unfoldable pub load_bundle : String → List (String × CachedBundle) → Option CachedBundle
load_bundle tenant [] = none
load_bundle tenant ((t, b) ∷ rest) =
    let later = load_bundle tenant rest in if t == tenant then some b else later

unfoldable pub should_refresh : ℤ → BundleCache → CachedBundle → Bool
should_refresh now c b =
    leb_ℤ c.refresh_interval (pos 0) || leb_ℤ c.refresh_interval (now -ℤ b.refreshed)

unfoldable pub store_bundle : ℤ → String → TenantBundle → BundleCache → BundleCache
store_bundle now tenant bundle c = record c {
  entries = (tenant, record { bundle = bundle; refreshed = now }) ∷ c.entries;
}

unfoldable pub record_success : ℤ → String → TenantBundle → BundleCache → BundleCache
record_success now tenant bundle c = record c {
  last_success = some (record { tenant_id = tenant; detail = plain bundle.revision; at = now });
}

unfoldable pub record_failure : ℤ → String → Error → BundleCache → BundleCache
record_failure now tenant e c = record c {
  last_failure = some (record { tenant_id = tenant; detail = e.message; at = now });
}

-- the last-known-good bundle, or ErrBundleUnavailable
unfoldable pub last_known : Error → Option CachedBundle → Result TenantBundle
last_known e none = err (record e { sentinel = some bundle_unavailable })
last_known e (some b) = ok b.bundle

module _ {S : Type 0} (provider : String → Call S TenantBundle) where
  -- GetTenantBundle of CachedBundleProvider, below the call of the provider
  unfoldable pub refreshed_bundle :
      ℤ
      → String
      → Option CachedBundle
      → Result TenantBundle × S
      → BundleCache
      → Result TenantBundle × (BundleCache × S)
  unfolding store_bundle record_success record_failure last_known
  refreshed_bundle now tenant entry (ok bundle, s) c =
      (ok bundle, (record_success now tenant bundle (store_bundle now tenant bundle c), s))
  refreshed_bundle now tenant entry (err e, s) c =
      (last_known e entry, (record_failure now tenant e c, s))

  -- and below the look-up in the cache
  unfoldable pub looked_up_bundle :
      ℤ → String → Option CachedBundle → BundleCache × S → Result TenantBundle × (BundleCache × S)
  unfolding refreshed_bundle
  looked_up_bundle now tenant none (c, s) = refreshed_bundle now tenant none (provider tenant s) c
  looked_up_bundle now tenant (some b) (c, s) =
      let refreshed = refreshed_bundle now tenant (some b) (provider tenant s) c in
      if should_refresh now c b then refreshed else (ok b.bundle, (c, s))

  unfoldable pub get_cached_bundle :
      ℤ → String → BundleCache × S → Result TenantBundle × (BundleCache × S)
  unfolding looked_up_bundle load_bundle
  get_cached_bundle now tenant (c, s) =
      looked_up_bundle now tenant (load_bundle tenant c.entries) (c, s)
