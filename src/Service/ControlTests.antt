-- ===== src/Service/ControlTests.antt =====
-- The control plane of internal/core/service at concrete inputs.
-- the names of the calls, the last one first
use dependency_firewall.Base.{
  Bool, List, String, [], false, none, pos, refl, some, true, ℤ, ◌∷◌, ◌≡◌,
}
use dependency_firewall.Domain.Artifact.{ArtifactIdentity}
use dependency_firewall.Domain.Capability.{Upstream}
use dependency_firewall.Domain.Config.{block_mutable_tag_config}
use dependency_firewall.Domain.Message.{err, errorf, is_ok, ok, plain}
use dependency_firewall.Domain.Policy.{Policy, action_deny, block_mutable_tag}
use dependency_firewall.Policy.Catalog.{policy_definition_for}
use dependency_firewall.Policy.Hash.{hash_policies}
use dependency_firewall.Policy.Validate.{validate_policies, validate_upstream_compatibility}
use dependency_firewall.Service.Bundles.{BundleCache, TenantBundle, get_cached_bundle}
use dependency_firewall.Service.Bundles.LastKnown.{Known, get_cached_bundle-Known}
use dependency_firewall.Service.Calls.{Call, Ensures, Gives, ◌>>=◌, ◌>>◌}
use dependency_firewall.Service.Enrichment.{
  EnrichmentPorts, enrich_with_correlation, record_enrichment_audit,
}
use dependency_firewall.Service.Enrichment.FailOpen.{enrich_with_correlation-ok}
use dependency_firewall.Service.Policies.{
  PolicyPorts, create_policy, delete_policy, finalize_tenant_mutation, rollback_to_version,
  update_policy,
}
use dependency_firewall.Service.Policies.Import.{import_policies}
use dependency_firewall.Service.Policies.Invalidated.{Imported, Invalidated, mutations-Invalidated}
use dependency_firewall.Service.Upstreams.{check_scoped}

abbrev logged : {A : Type 0} → String → A → Call (List String) A
logged name x log = (ok x, name ∷ log)

abbrev policy : String → Policy
policy upstream = record {
  id = "p1";
  tenant_id = "acme";
  upstream_id = upstream;
  name = "no tags";
  kind = block_mutable_tag;
  action = action_deny;
  schema_version = pos 1;
  config = some (block_mutable_tag_config none);
  target = none;
  priority = pos 1;
  enabled = false;
}

abbrev policy_ports : PolicyPorts (List String)
policy_ports = record {
  create = λ p. logged "create" p;
  update = λ p. logged "update" p;
  delete = λ tenant id force. logged "delete" tt;
  get_by_id = λ tenant id. logged "get" (policy "");
  list_policies = λ tenant. logged "list" [];
  list_versions = λ tenant id n. logged "versions" [];
  rollback = λ tenant id n. logged "rollback" (policy "");
  create_revision = λ tenant hash. logged "revision" tt;
  invalidate = λ tenant. logged "invalidate" tt;
  upstreams = none;
  encode = λ ps. ok "";
  digest = λ s. s;
}

test-delete_policy :
    delete_policy policy_ports "acme" "p1" false []
    ≡ (ok tt, "invalidate" ∷ "revision" ∷ "list" ∷ "delete" ∷ "get" ∷ [])
unfolding delete_policy ◌>>=◌ ◌>>◌ finalize_tenant_mutation hash_policies validate_policies
test-delete_policy = refl

mutations-Invalidated_example :
    ((p : Policy) → Ensures (Invalidated policy_ports p.tenant_id) (create_policy policy_ports p))
    × ((p : Policy) → Ensures (Invalidated policy_ports p.tenant_id) (update_policy policy_ports p))
    × ((tenant id : String) (version : ℤ)
        → Ensures
            (Invalidated policy_ports tenant)
            (rollback_to_version policy_ports tenant id version))
    × ((tenant id : String) (force : Bool)
        → Ensures (Invalidated policy_ports tenant) (delete_policy policy_ports tenant id force))
    × ((tenant : String) (imported : List Policy)
        → Gives (Imported policy_ports tenant) (import_policies policy_ports tenant imported))
mutations-Invalidated_example = mutations-Invalidated policy_ports

abbrev registry : Upstream
registry = record {
  id = "u1";
  tenant_id = "acme";
  name = "npmjs";
  ecosystem = "npm";
  base_url = "https://registry.npmjs.org";
  capabilities = none;
  auth = none;
}

test-check_scoped : is_ok (check_scoped registry (policy "" ∷ policy "u1" ∷ [])) ≡ false
unfolding check_scoped validate_upstream_compatibility policy_definition_for
test-check_scoped = refl

-- an audit trail that records everything, and a cache and sources that fail
abbrev failing : EnrichmentPorts (List String)
failing = record {
  cache_get = λ tenant a log. (err (errorf (plain "no connection")), log);
  cache_set = λ tenant a metadata ttl log. (err (errorf (plain "no connection")), log);
  enrich = λ a log. (err (errorf (plain "timeout")), log);
  audit = some (λ e log. (ok tt, e.event_type ∷ log));
}

abbrev left_pad : ArtifactIdentity
left_pad = record {
  ecosystem = "npm";
  namespace = "";
  name = "left-pad";
  version = "1.3.0";
  digest = "";
}

enrich_with_correlation-ok_example :
    is_ok (enrich_with_correlation failing "acme" "r1" left_pad []).0 ≡ true
unfolding record_enrichment_audit
enrich_with_correlation-ok_example =
    enrich_with_correlation-ok failing (λ e s. refl) "acme" "r1" left_pad []

abbrev bundle : TenantBundle
bundle = record {
  tenant = record { id = "acme"; name = "Acme" };
  tenant_id = "acme";
  revision = "r1";
  generated_at = pos 5;
  policies = [];
  upstreams = [];
}

abbrev bundles : BundleCache
bundles = record {
  refresh_interval = pos 10;
  entries = ("acme", record { bundle = bundle; refreshed = pos 5 }) ∷ [];
  last_success = none;
  last_failure = none;
}

abbrev unreachable : String → Call (List String) TenantBundle
unreachable tenant log = (err (errorf (plain "unreachable")), tenant ∷ log)

get_cached_bundle-Known_example :
    (Known unreachable "acme" bundles
      → is_ok (get_cached_bundle unreachable (pos 60) "acme" (bundles, [])).0 ≡ true)
    × (Known unreachable "acme" bundles
        → Known unreachable "acme"
            (get_cached_bundle unreachable (pos 60) "acme" (bundles, [])).1.0)
get_cached_bundle-Known_example =
    get_cached_bundle-Known unreachable (pos 60) "acme" "acme" bundles []
