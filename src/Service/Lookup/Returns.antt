-- ===== src/Service/Lookup/Returns.antt =====
-- The steps of internal/core/service/proxy_lookup.go end without an error, if the audit trail lets
-- the workflow go on when it cannot record.
use dependency_firewall.Base.{
  Bool-cases, Option, String, arith, false, inl, inr, none, refl, some, true, ◌≡◌,
}
use dependency_firewall.Domain.Artifact.{
  ArtifactIdentity, ecosystem_oci, normalize_artifact_identity,
}
use dependency_firewall.Domain.Capability.{Upstream}
use dependency_firewall.Domain.Message.{Result, err, is_cache_miss, ok}
use dependency_firewall.Domain.Policy.{AccessRequest, Decision}
use dependency_firewall.Infra.DecisionCache.{ValkeyServer}
use dependency_firewall.Service.Effects.{AuditEvent, Eff, Ports, World, pure, ◌>>◌}
use dependency_firewall.Service.Lookup.{
  append_event, audit_event, audit_failed, cache_lookup_failed, cached_result,
  lookup_cached_decision, normalize_access_request, normalized, npm_resolved, npm_upstream_for,
  oci_resolved, record_audit, record_audit_best_effort, resolve_mutable_npm_reference,
  resolve_mutable_oci_reference, resolve_npm_from, resolve_oci_from, upstream_for,
  use_cached_decision,
}
use dependency_firewall.Service.Requests.{should_cache_decision}
use dependency_firewall.Service.Triple.{>>=-Returns, Returns}

module _ (valkey : ValkeyServer) (ports : Ports) (fail_open : ports.audit_fail_closed ≡ false) where
  open valkey use {Server}

  pub audit-Returns :
      (event : AuditEvent) (w : World Server) → Returns (record_audit valkey ports event w)
  unfolding record_audit append_event audit_failed
  audit-Returns event w = ground (arith, fail_open)

  pub audited-Returns :
      {B : Type 0} (event : AuditEvent) (next : Eff Server B) (w : World Server)
      → ((w' : World Server) → Returns (next w'))
      → Returns ((record_audit valkey ports event >> next) w)
  audited-Returns event next w k =
      >>=-Returns (record_audit valkey ports event) (λ _. next) w (audit-Returns event w) (λ _. k)

  pub normalize-Returns :
      (req : AccessRequest) (a : ArtifactIdentity) (w : World Server)
      → normalize_artifact_identity req.artifact ≡ ok a
      → Returns (normalize_access_request valkey ports req w)
  unfolding normalize_access_request normalized
  normalize-Returns req a w h = rw h (
      audited-Returns (audit_event req "evaluation_started" "evaluation started")
        (normalized valkey ports req (ok a)) w
        λ w'. audited-Returns _ (pure (record req { artifact = a })) w' λ _. refl)

  oci_resolved-Returns :
      (req : AccessRequest) (u : Upstream) (r : Result String) (w : World Server)
      → Returns (oci_resolved valkey ports req u r w)
  unfolding oci_resolved record_audit_best_effort
  oci_resolved-Returns req u (err e) w = refl
  oci_resolved-Returns req u (ok d) w =
      audited-Returns _ (pure (record req { artifact = record req.artifact { digest = d } }, true))
        w (λ _. refl)

  resolve_oci_from-Returns :
      (req : AccessRequest) (o : Option Upstream) (w : World Server)
      → Returns (resolve_oci_from valkey ports req o w)
  unfolding resolve_oci_from
  resolve_oci_from-Returns req none w = refl
  resolve_oci_from-Returns req (some u) w = oci_resolved-Returns req u _ w

  pub resolve_oci-Returns :
      (req : AccessRequest) (w : World Server)
      → Returns (resolve_mutable_oci_reference valkey ports req w)
  unfolding resolve_mutable_oci_reference
  resolve_oci-Returns req w =
      ground (arith, resolve_oci_from-Returns req (upstream_for valkey ports req ecosystem_oci) w)

  npm_resolved-Returns :
      (req : AccessRequest) (u : Upstream) (r : Result String) (w : World Server)
      → Returns (npm_resolved valkey ports req u r w)
  unfolding npm_resolved record_audit_best_effort
  npm_resolved-Returns req u (err e) w = refl
  npm_resolved-Returns req u (ok v) w =
      audited-Returns _ (pure (record req { artifact = record req.artifact { version = v } })) w
        (λ _. refl)

  resolve_npm_from-Returns :
      (req : AccessRequest) (o : Option Upstream) (w : World Server)
      → Returns (resolve_npm_from valkey ports req o w)
  unfolding resolve_npm_from
  resolve_npm_from-Returns req none w = refl
  resolve_npm_from-Returns req (some u) w = npm_resolved-Returns req u _ w

  pub resolve_npm-Returns :
      (req : AccessRequest) (w : World Server)
      → Returns (resolve_mutable_npm_reference valkey ports req w)
  unfolding resolve_mutable_npm_reference
  resolve_npm-Returns req w =
      ground (arith, resolve_npm_from-Returns req (npm_upstream_for valkey ports req) w)

  cached_result-Returns :
      (req : AccessRequest) (r : Result Decision) (w : World Server)
      → Returns (cached_result valkey ports req r w)
  unfolding cached_result use_cached_decision cache_lookup_failed record_audit_best_effort
  cached_result-Returns req (ok cached) w =
      audited-Returns _ (pure (some (record cached { cached_at = some ports.now }))) w (λ _. refl)
  cached_result-Returns req (err e) w = elim (Bool-cases (is_cache_miss e)) [
    | inl miss ↦ rw miss (
        audited-Returns (audit_event req "decision_cache_miss" "decision cache miss")
          (pure {A = Option Decision} none) w (λ _. refl))
    | inr other ↦ rw other refl
  ]

  pub lookup-Returns :
      (req : AccessRequest) (w : World Server) → Returns (lookup_cached_decision valkey ports req w)
  unfolding lookup_cached_decision
  lookup-Returns req w = elim (Bool-cases (should_cache_decision req)) [
    | inl cacheable ↦ rw cacheable (cached_result-Returns req _ w)
    | inr unversioned ↦ rw unversioned refl
  ]
