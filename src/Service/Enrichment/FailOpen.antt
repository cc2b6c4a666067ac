-- ===== src/Service/Enrichment/FailOpen.antt =====
-- internal/core/service/enrichment.go: a failure of the cache or of the sources is not an error.
use dependency_firewall.Base.{Option, String, ap, none, refl, some, true, ◌≡◌}
use dependency_firewall.Domain.Artifact.{ArtifactIdentity, ArtifactMetadata}
use dependency_firewall.Domain.Message.{Result, err, is_ok, ok}
use dependency_firewall.Service.Calls.{Call, give, go_on, ◌>>=◌, ◌>>◌}
use dependency_firewall.Service.Effects.{AuditEvent}
use dependency_firewall.Service.Enrichment.{
  EnrichmentPorts, enrich_missed, enrich_with_correlation, lookup_cached_metadata, metadata_found,
  query_enrichment_sources, record_enrichment_audit, sources_answered, store_cached_metadata,
}

module _ {S : Type 0} (ports : EnrichmentPorts S)
    (recorded_always : (e : AuditEvent) (s : S)
      → (record_enrichment_audit ports e s).0 ≡ ok tt) where
  go_on-ok :
      {A B : Type 0} (f : A → Call S B) (r : Result A × S)
      → is_ok r.0 ≡ true
      → ((x : A) (s : S) → is_ok (f x s).0 ≡ true)
      → is_ok (go_on f r).0 ≡ true
  unfolding go_on
  go_on-ok f (ok x, s) h g = g x s
  go_on-ok f (err e, s) h g = cc

  record_enrichment_audit-ok :
      {B : Type 0} (e : AuditEvent) (y : B) (s : S)
      → is_ok ((record_enrichment_audit ports e >> give y) s).0 ≡ true
  unfolding ◌>>◌
  record_enrichment_audit-ok e y s =
      go_on-ok (λ _. give y) (record_enrichment_audit ports e s) (ap is_ok (recorded_always e s))
        (λ x t. refl)

  metadata_found-ok :
      (tenant correlation : String) (a : ArtifactIdentity) (r : Result (Option ArtifactMetadata))
      (s : S)
      → is_ok (metadata_found ports tenant correlation a r s).0 ≡ true
  unfolding metadata_found
  metadata_found-ok tenant correlation a (ok (some m)) s = record_enrichment_audit-ok _ (some m) s
  metadata_found-ok tenant correlation a (ok none) s = record_enrichment_audit-ok _ none s
  metadata_found-ok tenant correlation a (err e) s = record_enrichment_audit-ok _ none s

  sources_answered-ok :
      (tenant correlation : String) (a : ArtifactIdentity) (r : Result (Option ArtifactMetadata))
      (s : S)
      → is_ok (sources_answered ports tenant correlation a r s).0 ≡ true
  unfolding sources_answered
  sources_answered-ok tenant correlation a (ok m) s = refl
  sources_answered-ok tenant correlation a (err e) s = record_enrichment_audit-ok _ none s

  store_cached_metadata-ok :
      (tenant : String) (a : ArtifactIdentity) (m : Option ArtifactMetadata) (s : S)
      → is_ok (store_cached_metadata ports tenant a m s).0 ≡ true
  unfolding store_cached_metadata
  store_cached_metadata-ok tenant a none s = refl
  store_cached_metadata-ok tenant a (some m) s = refl

  enrich_missed-ok :
      (tenant correlation : String) (a : ArtifactIdentity) (m : Option ArtifactMetadata) (s : S)
      → is_ok (enrich_missed ports tenant correlation a m s).0 ≡ true
  unfolding enrich_missed query_enrichment_sources ◌>>=◌
  enrich_missed-ok tenant correlation a (some m) s = refl
  enrich_missed-ok tenant correlation a none s =
      go_on-ok (store_cached_metadata ports tenant a) _
        (sources_answered-ok tenant correlation a _ _) (store_cached_metadata-ok tenant a)

  -- EnrichWithCorrelation succeeds, whatever the cache and the sources do, where the audit trail
  -- records what it is handed.
  pub enrich_with_correlation-ok :
      (tenant correlation : String) (a : ArtifactIdentity) (s : S)
      → is_ok (enrich_with_correlation ports tenant correlation a s).0 ≡ true
  unfolding enrich_with_correlation lookup_cached_metadata ◌>>=◌
  enrich_with_correlation-ok tenant correlation a s =
      go_on-ok (enrich_missed ports tenant correlation a) _
        (metadata_found-ok tenant correlation a _ _) (enrich_missed-ok tenant correlation a)
