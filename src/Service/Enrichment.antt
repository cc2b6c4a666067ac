-- ===== src/Service/Enrichment.antt =====
-- internal/core/service/enrichment.go. The sources of metadata, their cache and the audit trail are
-- parameters that work on a state `S`; an audit trail that is nil is `none`.
pub mod FailOpen
use dependency_firewall.Base.{Option, String, if◌then◌else◌, none, not, some, ℕ, ◌*◌, ◌==◌}
use dependency_firewall.Domain.Artifact.{ArtifactIdentity, ArtifactMetadata}
use dependency_firewall.Domain.Message.{Result, err, ok, plain}
use dependency_firewall.Service.Calls.{Call, give, ◌>>=◌, ◌>>◌}
use dependency_firewall.Service.Effects.{AuditEvent}

-- Time spans in nanoseconds: an hour, and a day.
abbrev pub mutable_ref_ttl : ℕ
mutable_ref_ttl = 3600000000000

abbrev pub immutable_ref_ttl : ℕ
immutable_ref_ttl = 24 * 3600000000000

pub record EnrichmentPorts (S : Type 0) : Type 0 where
  pub cache_get : String → ArtifactIdentity → S → Result (Option ArtifactMetadata) × S
  pub cache_set : String → ArtifactIdentity → ArtifactMetadata → ℕ → Call S (Unit {0})
  pub enrich : ArtifactIdentity → Call S (Option ArtifactMetadata)
  pub audit : Option (AuditEvent → Call S (Unit {0}))

-- cacheTTL
unfoldable pub metadata_cache_ttl : ArtifactIdentity → ℕ
metadata_cache_ttl a = if not (a.digest == "") then immutable_ref_ttl else mutable_ref_ttl

-- metadataCacheAuditEvent, and the event of a failure without its payload
unfoldable pub metadata_audit_event :
    String → String → ArtifactIdentity → String → String → AuditEvent
metadata_audit_event tenant correlation a event_type message = record {
  tenant_id = tenant;
  correlation_id = correlation;
  event_type = event_type;
  upstream_id = "";
  policy_id = "";
  outcome = none;
  artifact = a;
  message = plain message;
}

module _ {S : Type 0} (ports : EnrichmentPorts S) where
  recorded : Option (AuditEvent → Call S (Unit {0})) → AuditEvent → Call S (Unit {0})
  recorded none e = give tt
  recorded (some record_event) e = record_event e

  -- recordAudit
  unfoldable pub record_enrichment_audit : AuditEvent → Call S (Unit {0})
  unfolding recorded
  record_enrichment_audit e = recorded ports.audit e

  -- lookupCachedMetadata, below the call of the cache: `none` is a miss
  unfoldable pub metadata_found :
      String
      → String
      → ArtifactIdentity
      → Result (Option ArtifactMetadata)
      → Call S (Option ArtifactMetadata)
  unfolding record_enrichment_audit
  metadata_found tenant correlation a (ok (some metadata)) = do
    record_enrichment_audit
        (metadata_audit_event tenant correlation a "metadata_cache_hit" "metadata cache hit")
    give (some metadata)
  metadata_found tenant correlation a (ok none) = do
    record_enrichment_audit
        (metadata_audit_event tenant correlation a "metadata_cache_miss" "metadata cache miss")
    give none
  metadata_found tenant correlation a (err e) = do
    record_enrichment_audit
        (metadata_audit_event tenant correlation a "metadata_cache_miss" "metadata cache miss")
    give none

  unfoldable pub lookup_cached_metadata :
      String → String → ArtifactIdentity → Call S (Option ArtifactMetadata)
  unfolding metadata_found
  lookup_cached_metadata tenant correlation a s =
      let (r, s') = ports.cache_get tenant a s in metadata_found tenant correlation a r s'

  -- queryEnrichmentSources, below the call of the sources
  unfoldable pub sources_answered :
      String
      → String
      → ArtifactIdentity
      → Result (Option ArtifactMetadata)
      → Call S (Option ArtifactMetadata)
  unfolding record_enrichment_audit
  sources_answered tenant correlation a (ok metadata) = give metadata
  sources_answered tenant correlation a (err e) = do
    record_enrichment_audit
        (metadata_audit_event tenant correlation a "enrichment_failed" "artifact enrichment failed")
    give none

  unfoldable pub query_enrichment_sources :
      String → String → ArtifactIdentity → Call S (Option ArtifactMetadata)
  unfolding sources_answered
  query_enrichment_sources tenant correlation a s =
      let (r, s') = ports.enrich a s in sources_answered tenant correlation a r s'

  -- storeCachedMetadata for metadata that are there; an error of the cache is logged
  unfoldable pub store_cached_metadata :
      String → ArtifactIdentity → Option ArtifactMetadata → Call S (Option ArtifactMetadata)
  store_cached_metadata tenant a none s = (ok none, s)
  store_cached_metadata tenant a (some metadata) s =
      (ok (some metadata), (ports.cache_set tenant a metadata (metadata_cache_ttl a) s).1)

  -- EnrichWithCorrelation, below lookupCachedMetadata
  unfoldable pub enrich_missed :
      String
      → String
      → ArtifactIdentity
      → Option ArtifactMetadata
      → Call S (Option ArtifactMetadata)
  unfolding query_enrichment_sources store_cached_metadata
  enrich_missed tenant correlation a (some cached) = give (some cached)
  enrich_missed tenant correlation a none =
      query_enrichment_sources tenant correlation a >>= store_cached_metadata tenant a

  unfoldable pub enrich_with_correlation :
      String → String → ArtifactIdentity → Call S (Option ArtifactMetadata)
  unfolding lookup_cached_metadata enrich_missed
  enrich_with_correlation tenant correlation a =
      lookup_cached_metadata tenant correlation a >>= enrich_missed tenant correlation a
