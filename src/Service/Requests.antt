-- ===== src/Service/Requests.antt =====
-- internal/core/service/proxy_policy.go, and the tests of proxy_dependency.go and
-- proxy_enrichment.go: what a request and a policy set call for.
use dependency_firewall.Base.{
  Bool, List, String, any, false, if◌then◌else◌, is_some, keep, none, not, some, true, ℕ, ◌&&◌, ◌*◌,
  ◌==◌, ◌||◌,
}
use dependency_firewall.Domain.Artifact.{
  ArtifactIdentity, ecosystem_npm, empty_metadata, is_mutable_reference, is_npm_dist_tag,
}
use dependency_firewall.Domain.Dependency.{normalize_context}
use dependency_firewall.Domain.Policy.{
  AccessRequest, Decision, DecisionOutcome, Policy, allow, deny,
}
use dependency_firewall.Policy.Catalog.{requires_external_metadata}

unfoldable pub filter_policies_for_upstream : List Policy → String → List Policy
filter_policies_for_upstream policies upstream_id =
    if upstream_id == ""
    then policies
    else keep (λ p. p.upstream_id == "" || p.upstream_id == upstream_id) policies

unfoldable pub needs_enrichment : List Policy → Bool
needs_enrichment policies = any (λ p. p.enabled && requires_external_metadata p.kind) policies

unfoldable pub needs_dependency_context : List Policy → Bool
needs_dependency_context policies = any (λ p. p.enabled && is_some p.target) policies

unfoldable pub is_unversioned_npm_artifact : ArtifactIdentity → Bool
is_unversioned_npm_artifact a = a.ecosystem == ecosystem_npm && a.version == ""

unfoldable pub should_enrich_artifact : AccessRequest → List Policy → Bool
should_enrich_artifact req policies =
    if is_unversioned_npm_artifact req.artifact then false else needs_enrichment policies

unfoldable pub should_cache_decision : AccessRequest → Bool
should_cache_decision req = not (is_unversioned_npm_artifact req.artifact)

abbrev pub is_allow : DecisionOutcome → Bool
is_allow allow = true
is_allow deny = false

unfoldable pub should_persist_decision : AccessRequest → Decision → Bool
should_persist_decision req d = not (is_unversioned_npm_artifact req.artifact && is_allow d.outcome)

unfoldable pub should_resolve_dependency_context : AccessRequest → List Policy → Bool
should_resolve_dependency_context req policies =
    req.artifact.ecosystem == ecosystem_npm
    && not (req.artifact.version == "")
    && not (is_npm_dist_tag req.artifact)
    && needs_dependency_context policies

unfoldable pub apply_mutable_tag_metadata : AccessRequest → Bool → AccessRequest
apply_mutable_tag_metadata req was_mutable =
    if was_mutable
    then elim req.metadata [
      | none ↦ record req { metadata = some (record empty_metadata { is_mutable_tag = true }) }
      | some m ↦ record req { metadata = some (record m { is_mutable_tag = true }) }
    ]
    else req

-- mutableDecisionTTL and immutableDecisionTTL, in nanoseconds
abbrev pub mutable_decision_ttl : ℕ
mutable_decision_ttl = 5 * 60 * 1000000000

abbrev pub immutable_decision_ttl : ℕ
immutable_decision_ttl = 60 * 60 * 1000000000

unfoldable pub decision_ttl : AccessRequest → ℕ
decision_ttl req =
    if is_mutable_reference req.artifact then mutable_decision_ttl else immutable_decision_ttl

module _ (digest : String → String) where
  -- dependencyContextCacheHash
  unfoldable pub context_cache_hash : AccessRequest → String
  context_cache_hash req = elim req.dependency_context [
    | none ↦ ""
    | some c ↦ (normalize_context digest c).context_hash
  ]
