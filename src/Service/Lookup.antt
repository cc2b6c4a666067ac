-- ===== src/Service/Lookup.antt =====
-- internal/core/service/audit.go (Record) and proxy_lookup.go: the audit trail, and what happens to
-- a request before its policies are evaluated.
pub mod Caller
pub mod Hit
pub mod Returns
use dependency_firewall.Base.{
  Bool, Option, String, [], false, if◌then◌else◌, none, not, some, true, ◌++◌, ◌==◌, ◌||◌, ◌∷◌,
}
use dependency_firewall.Domain.Artifact.{
  ArtifactIdentity, ecosystem_npm, ecosystem_oci, is_mutable_reference, is_npm_dist_tag,
  normalize_artifact_identity,
}
use dependency_firewall.Domain.Capability.{Upstream}
use dependency_firewall.Domain.Message.{
  Error, Result, annotate, audit_unavailable, err, is_cache_miss, no_message, ok, plain, wrap,
}
use dependency_firewall.Domain.Policy.{AccessRequest, Decision}
use dependency_firewall.Infra.DecisionCache.{ValkeyServer, cache_get}
use dependency_firewall.Service.Effects.{AuditEvent, Eff, Ports, pure, raise, ◌>>=◌, ◌>>◌}
use dependency_firewall.Service.Requests.{context_cache_hash, should_cache_decision}

abbrev pub audit_event : AccessRequest → String → String → AuditEvent
audit_event req kind message = record {
  tenant_id = req.tenant_id;
  correlation_id = req.request_id;
  event_type = kind;
  upstream_id = req.upstream.id;
  policy_id = "";
  outcome = none;
  artifact = req.artifact;
  message = plain message;
}

abbrev audit_unavailable_error : Error
audit_unavailable_error = wrap audit_unavailable no_message

module _ (valkey : ValkeyServer) (ports : Ports) where
  open valkey use {Server}

  append_event : AuditEvent → Eff Server (Unit {0})
  append_event event w = (ok tt, record w { events = w.events ++ event ∷ [] })

  -- the recorder's error, as AuditService.Record handles it
  audit_failed : Error → Eff Server (Unit {0})
  audit_failed e =
      if ports.is_canceled e
      then pure tt
      else if ports.audit_fail_closed
      then raise audit_unavailable_error
      else pure tt

  -- AccessService.recordAudit
  unfoldable pub record_audit : AuditEvent → Eff Server (Unit {0})
  unfolding append_event audit_failed
  record_audit event =
      if not ports.audit_enabled || ports.canceled
      then pure tt
      else elim (ports.record_event event) [ ok _ ↦ append_event event | err e ↦ audit_failed e ]

  -- `_ = s.recordAudit(...)`: the error is dropped
  unfoldable pub record_audit_best_effort : AuditEvent → Eff Server (Unit {0})
  record_audit_best_effort event w = (ok tt, (record_audit event w).1)

  -- normalizeAccessRequest, below the call of NormalizeArtifactIdentity
  normalized : AccessRequest → Result ArtifactIdentity → Eff Server AccessRequest
  normalized req (err e) = do
    record_audit_best_effort (audit_event req "error" "artifact normalization failed")
    raise (annotate "normalizing artifact" e)
  normalized req (ok a) = do
    let req' = record req { artifact = a }
    record_audit (audit_event req' "artifact_normalized" "artifact normalized")
    pure req'

  unfoldable pub normalize_access_request : AccessRequest → Eff Server AccessRequest
  unfolding normalized
  normalize_access_request req = do
    record_audit (audit_event req "evaluation_started" "evaluation started")
    normalized req (normalize_artifact_identity req.artifact)

  -- the upstream of the request, or the tenant's upstream of the ecosystem
  pub upstream_for : AccessRequest → String → Option Upstream
  upstream_for req ecosystem =
      if not (req.upstream.id == "")
      then some req.upstream
      else elim (ports.get_by_ecosystem req.tenant_id ecosystem) [
        | ok u ↦ if u.id == "" then none else some u
        | err e ↦ none
      ]

  -- the audit event of a reference that was resolved, or was not
  reference_event : AccessRequest → Upstream → String → String → AuditEvent
  reference_event req upstream kind message = record (audit_event req kind message) {
    upstream_id = upstream.id;
  }

  oci_resolved : AccessRequest → Upstream → Result String → Eff Server (AccessRequest × Bool)
  unfolding reference_event
  oci_resolved req upstream (err e) = do
    record_audit_best_effort (reference_event req upstream "error" "reference resolution failed")
    pure (req, true)
  oci_resolved req upstream (ok digest) = do
    let req' = record req { artifact = record req.artifact { digest = digest } }
    record_audit (
        reference_event req' upstream "reference_resolved"
          "mutable OCI reference resolved to digest")
    pure (req', true)

  resolve_oci_from : AccessRequest → Option Upstream → Eff Server (AccessRequest × Bool)
  unfolding oci_resolved
  resolve_oci_from req none = pure (req, true)
  resolve_oci_from req (some upstream) =
      oci_resolved req upstream (ports.resolve_reference upstream req.artifact)

  unfoldable pub resolve_mutable_oci_reference : AccessRequest → Eff Server (AccessRequest × Bool)
  unfolding resolve_oci_from upstream_for
  resolve_mutable_oci_reference req =
      if not (req.artifact.ecosystem == ecosystem_oci) || not (is_mutable_reference req.artifact)
      then pure (req, false)
      else resolve_oci_from req (upstream_for req ecosystem_oci)

  -- Unlike its OCI counterpart, this one takes an upstream with an empty id.
  pub npm_upstream_for : AccessRequest → Option Upstream
  npm_upstream_for req =
      if not (req.upstream.id == "")
      then some req.upstream
      else elim (ports.get_by_ecosystem req.tenant_id ecosystem_npm) [
        | ok u ↦ some u
        | err e ↦ none
      ]

  npm_resolved : AccessRequest → Upstream → Result String → Eff Server AccessRequest
  unfolding reference_event
  npm_resolved req upstream (err e) = do
    record_audit_best_effort (reference_event req upstream "error" "reference resolution failed")
    pure req
  npm_resolved req upstream (ok version) = do
    let req' = record req { artifact = record req.artifact { version = version } }
    record_audit
        (reference_event req' upstream "reference_resolved" "npm dist-tag resolved to version")
    pure req'

  resolve_npm_from : AccessRequest → Option Upstream → Eff Server AccessRequest
  unfolding npm_resolved
  resolve_npm_from req none = pure req
  resolve_npm_from req (some upstream) =
      npm_resolved req upstream (ports.resolve_reference upstream req.artifact)

  unfoldable pub resolve_mutable_npm_reference : AccessRequest → Eff Server AccessRequest
  unfolding resolve_npm_from npm_upstream_for
  resolve_mutable_npm_reference req =
      if not (is_npm_dist_tag req.artifact)
      then pure req
      else resolve_npm_from req (npm_upstream_for req)

  -- useCachedDecision
  use_cached_decision : AccessRequest → Decision → Eff Server (Option Decision)
  use_cached_decision req cached = do
    record_audit (record (audit_event req "decision_cache_hit" "decision cache hit") {
      policy_id = cached.policy_id;
      outcome = some cached.outcome;
    })
    pure (some (record cached { cached_at = some ports.now }))

  -- what follows a failed look-up: a miss, or an error of the cache
  cache_lookup_failed : AccessRequest → Error → Eff Server (Option Decision)
  cache_lookup_failed req e =
      if is_cache_miss e
      then record_audit (audit_event req "decision_cache_miss" "decision cache miss") >> pure none
      else (record_audit_best_effort (audit_event req "error" "decision cache lookup failed")
          >> pure none)

  cached_result : AccessRequest → Result Decision → Eff Server (Option Decision)
  unfolding use_cached_decision cache_lookup_failed
  cached_result req (ok cached) = use_cached_decision req cached
  cached_result req (err e) = cache_lookup_failed req e

  -- `some` is a hit
  unfoldable pub lookup_cached_decision : AccessRequest → Eff Server (Option Decision)
  unfolding cached_result
  lookup_cached_decision req w =
      if not (should_cache_decision req)
      then (ok none, w)
      else cached_result req
          (cache_get valkey ports.digest ports.now req.tenant_id req.artifact
            (context_cache_hash ports.digest req) w.server)
          w
