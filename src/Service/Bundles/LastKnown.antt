-- ===== src/Service/Bundles/LastKnown.antt =====
-- internal/core/service/bundle.go: a bundle that was loaded once stays available.
use dependency_firewall.Base.{
  Bool-cases, Option, String, arith, inl, inr, is_some, none, refl, some, true, ℤ, ◌≡◌,
}
use dependency_firewall.Domain.Message.{Result, err, is_ok, ok}
use dependency_firewall.Service.Bundles.{
  BundleCache, CachedBundle, TenantBundle, get_cached_bundle, last_known, load_bundle,
  looked_up_bundle, record_failure, record_success, refreshed_bundle, should_refresh, store_bundle,
}
use dependency_firewall.Service.Calls.{Call}

module _ {S : Type 0} (provider : String → Call S TenantBundle) where
  -- a bundle of the tenant is in the cache
  abbrev pub Known : String → BundleCache → Type 0
  Known tenant c = is_some (load_bundle tenant c.entries) ≡ true

  refreshed_bundle-Known :
      (now : ℤ) (tenant other : String) (entry : Option CachedBundle) (r : Result TenantBundle × S)
      (c : BundleCache)
      → Known other c
      → Known other (refreshed_bundle provider now tenant entry r c).1.0
  unfolding refreshed_bundle store_bundle record_success record_failure load_bundle
  refreshed_bundle-Known now tenant other entry (ok b, s) c h = ground arith
  refreshed_bundle-Known now tenant other entry (err e, s) c h = h

  refreshed_bundle-ok :
      (now : ℤ) (tenant : String) (b : CachedBundle) (r : Result TenantBundle × S) (c : BundleCache)
      → is_ok (refreshed_bundle provider now tenant (some b) r c).0 ≡ true
  unfolding refreshed_bundle last_known
  refreshed_bundle-ok now tenant b (ok x, s) c = refl
  refreshed_bundle-ok now tenant b (err e, s) c = refl

  looked_up_bundle-ok :
      (now : ℤ) (tenant : String) (entry : Option CachedBundle) (c : BundleCache) (s : S)
      → is_some entry ≡ true
      → is_ok (looked_up_bundle provider now tenant entry (c, s)).0 ≡ true
  unfolding looked_up_bundle
  looked_up_bundle-ok now tenant none c s h = cc
  looked_up_bundle-ok now tenant (some b) c s h = elim (Bool-cases (should_refresh now c b)) [
    | inl e ↦ rw e (refreshed_bundle-ok now tenant b (provider tenant s) c)
    | inr e ↦ rw e refl
  ]

  looked_up_bundle-Known :
      (now : ℤ) (tenant other : String) (entry : Option CachedBundle) (c : BundleCache) (s : S)
      → Known other c
      → Known other (looked_up_bundle provider now tenant entry (c, s)).1.0
  unfolding looked_up_bundle
  looked_up_bundle-Known now tenant other none c s h =
      refreshed_bundle-Known now tenant other none (provider tenant s) c h
  looked_up_bundle-Known now tenant other (some b) c s h =
      elim (Bool-cases (should_refresh now c b)) [
        | inl e ↦ rw e (refreshed_bundle-Known now tenant other (some b) (provider tenant s) c h)
        | inr e ↦ rw e h
      ]

  -- Where a bundle of the tenant is in the cache, GetTenantBundle succeeds, whatever the provider does;
  -- and no call loses the bundle of any tenant.
  pub get_cached_bundle-Known :
      (now : ℤ) (tenant other : String) (c : BundleCache) (s : S)
      → (Known tenant c → is_ok (get_cached_bundle provider now tenant (c, s)).0 ≡ true)
        × (Known other c → Known other (get_cached_bundle provider now tenant (c, s)).1.0)
  unfolding get_cached_bundle
  get_cached_bundle-Known now tenant other c s = (
    looked_up_bundle-ok now tenant (load_bundle tenant c.entries) c s,
    looked_up_bundle-Known now tenant other (load_bundle tenant c.entries) c s,
  )
