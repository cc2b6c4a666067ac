-- ===== src/Service/Tests.antt =====
-- Inputs for the theorems about internal/core/service.
use dependency_firewall.Base.{
  List, [], false, has_prefix, inl, inr, none, pos, refl, sort, to_lower, trim_space, true, ◌∷◌,
  ◌≡◌,
}
use dependency_firewall.Domain.Artifact.{
  ArtifactIdentity, is_npm_dist_tag, normalize_artifact_identity, normalize_npm,
}
use dependency_firewall.Domain.Capability.{Upstream}
use dependency_firewall.Domain.Dependency.{new_unknown_dependency_context}
use dependency_firewall.Domain.Message.{
  Error, err, invalid_policy, no_message, ok, plain, upstream_not_found, wrap,
}
use dependency_firewall.Domain.Policy.{AccessRequest, Decision, Policy, allow}
use dependency_firewall.Infra.DecisionCache.{cache_get, cache_set, current_generation}
use dependency_firewall.Infra.Tests.{memory, same_hash}
use dependency_firewall.Policy.Catalog.{policy_definition_for}
use dependency_firewall.Policy.Evaluator.{decision, evaluate, filter_enabled, no_match_reason}
use dependency_firewall.Policy.Hash.{hash_policies}
use dependency_firewall.Policy.Validate.{validate_policies, validate_policy}
use dependency_firewall.Service.Access.{
  attach_dependency_context, decided, evaluate_access, evaluate_policies, finalize_decision,
}
use dependency_firewall.Service.Access.Accounted.{Accounted}
use dependency_firewall.Service.Access.Allowed.{Permitted, evaluate_access-allow}
use dependency_firewall.Service.Access.Origin.{evaluate_access-Accounted}
use dependency_firewall.Service.Access.Returns.{evaluate_access-decides}
use dependency_firewall.Service.Effects.{Ports, World}
use dependency_firewall.Service.Lookup.{
  lookup_cached_decision, normalize_access_request, record_audit, resolve_mutable_npm_reference,
  resolve_mutable_oci_reference,
}
use dependency_firewall.Service.Lookup.Caller.{SameSubject, by_tag, pinned_request}
use dependency_firewall.Service.Prepare.{
  append_decision, cache_decision, invalid_decision, invalid_set, prepare_policy_set,
}
use dependency_firewall.Service.Prepare.InForce.{prepare-fail_closed}
use dependency_firewall.Service.Requests.{
  apply_mutable_tag_metadata, filter_policies_for_upstream, is_unversioned_npm_artifact,
  needs_dependency_context, needs_enrichment, should_cache_decision, should_enrich_artifact,
  should_persist_decision, should_resolve_dependency_context,
}

abbrev spelled : ArtifactIdentity
spelled = record {
  ecosystem = "npm";
  namespace = "";
  name = "Lodash";
  version = "4.17.21";
  digest = "";
}

abbrev upstream : Upstream
upstream = record {
  id = "u1";
  tenant_id = "t1";
  name = "npm";
  ecosystem = "npm";
  base_url = "https://registry.npmjs.org";
  capabilities = none;
  auth = none;
}

abbrev request : AccessRequest
request = record {
  tenant_id = "t1";
  request_id = "r1";
  kind = "";
  artifact = spelled;
  upstream = upstream;
  metadata = none;
  dependency_context = none;
}

abbrev canonical : AccessRequest
canonical = record request { artifact = record spelled { name = "lodash" } }

-- a policy of a type that the catalog does not have
abbrev unknown_policy : Policy
unknown_policy = record {
  id = "p1";
  tenant_id = "t1";
  upstream_id = "";
  name = "p1";
  kind = "unknown";
  action = "deny";
  schema_version = pos 1;
  config = none;
  target = none;
  priority = pos 1;
  enabled = true;
}

abbrev not_found : Error
not_found = wrap upstream_not_found no_message

-- adapters that record everything, and know these policies
abbrev ports : List Policy → Ports
ports policies = record {
  now = pos 0;
  canceled = false;
  is_canceled = λ _. false;
  audit_enabled = true;
  audit_fail_closed = true;
  record_event = λ _. ok tt;
  list_by_tenant = λ _. ok policies;
  get_by_ecosystem = λ _ _. err not_found;
  resolve_reference = λ _ _. err not_found;
  resolve_context = λ _. err not_found;
  enrich = λ _. ok none;
  record_decision = λ _. ok tt;
  encode = λ _. ok "[]";
  digest = same_hash;
}

abbrev start : World memory.Server
start = record { events = []; recorded = []; server = λ _. none }

abbrev default_allow : Decision
default_allow = record {
  id = "";
  tenant_id = "t1";
  artifact = canonical.artifact;
  outcome = allow;
  policy_id = "";
  policy_hash = "[]";
  dependency_context = none;
  reason = plain "no matching policy";
  reasons = no_match_reason ∷ [];
  warnings = [];
  cached_at = none;
  evaluated_at = pos 0;
}

-- the state after the request
abbrev finish : World memory.Server
finish = (evaluate_access memory (ports []) request start).1

runs : evaluate_access memory (ports []) request start ≡ (ok default_allow, finish)
unfolding evaluate_access normalize_access_request record_audit normalize_artifact_identity
    normalize_npm has_prefix to_lower resolve_mutable_oci_reference resolve_mutable_npm_reference
    is_npm_dist_tag prepare_policy_set validate_policies hash_policies attach_dependency_context
    should_resolve_dependency_context needs_dependency_context filter_policies_for_upstream
    lookup_cached_decision should_cache_decision is_unversioned_npm_artifact cache_get
    current_generation evaluate_policies decided finalize_decision should_enrich_artifact
    needs_enrichment evaluate decision sort filter_enabled apply_mutable_tag_metadata
    should_persist_decision append_decision cache_decision cache_set
runs = refl

evaluate_access-Accounted_example :
    (a : ArtifactIdentity) × (normalize_artifact_identity spelled ≡ ok a)
    × SameSubject
        (record request { artifact = a })
        (pinned_request memory (ports []) (record request { artifact = a }))
    × Accounted memory
        (ports [])
        start.server
        (pinned_request memory (ports []) (record request { artifact = a }))
        (by_tag a)
        default_allow
evaluate_access-Accounted_example =
    evaluate_access-Accounted memory (ports []) request start finish default_allow runs

evaluate_access-allow_example :
    (a : ArtifactIdentity) × (normalize_artifact_identity spelled ≡ ok a)
    × Permitted memory
        (ports [])
        start.server
        (pinned_request memory (ports []) (record request { artifact = a }))
        (by_tag a)
evaluate_access-allow_example =
    evaluate_access-allow memory (ports []) request start finish default_allow runs refl

abbrev unknown_error : Error
unknown_error = wrap invalid_policy (plain "unknown policy type %q")

prepare-fail_closed_example :
    (prepare_policy_set memory (ports (unknown_policy ∷ [])) canonical start).0
    ≡ ok (invalid_set (invalid_decision (pos 0) canonical unknown_error))
unfolding validate_policies validate_policy trim_space policy_definition_for
prepare-fail_closed_example =
    prepare-fail_closed memory (ports (unknown_policy ∷ [])) canonical unknown_error start
      (inr (unknown_policy ∷ [], refl, inl refl))

-- adapters whose audit recorder fails, and stops nothing
abbrev failing_recorder : Ports
failing_recorder = record (ports []) {
  audit_fail_closed = false;
  record_event = λ _. err not_found;
  resolve_context = λ _. ok (new_unknown_dependency_context same_hash, true);
}

evaluate_access-decides_example :
    (d : Decision) × ((evaluate_access memory failing_recorder request start).0 ≡ ok d)
unfolding normalize_artifact_identity normalize_npm has_prefix to_lower
evaluate_access-decides_example =
    evaluate_access-decides memory failing_recorder refl (λ _. refl) (λ _. refl) (λ _. refl) request
      canonical.artifact start refl
