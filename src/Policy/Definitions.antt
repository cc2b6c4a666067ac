-- ===== src/Policy/Definitions.antt =====
-- internal/core/policy/catalog_age.go, catalog_license.go, catalog_namespace.go, catalog_oci.go,
-- catalog_scorecard.go and catalog_vulnerability.go: the policy types, with their schema versions,
-- actions, ecosystems, capabilities and conditions.
use dependency_firewall.Base.{List, String, [], false, none, pos, some, true, ◌∷◌}
use dependency_firewall.Domain.Artifact.{ecosystem_npm, ecosystem_oci}
use dependency_firewall.Domain.Capability.{
  licenses_capability, manifest_digest_lookup, publish_time, scorecard_lookup, vulnerability_lookup,
}
use dependency_firewall.Domain.Config.{
  block_mutable_tag_config, cvss_threshold_config, license_allowlist_config,
  license_allowlist_config_v2, license_config, maximum_age_config, minimum_age_config,
  namespace_list_config, scorecard_config,
}
use dependency_firewall.Domain.Policy.{
  action_allow, action_deny, allowlist, block_mutable_tag, blocklist, cvss_threshold, license,
  license_allowlist, maximum_age, minimum_age, namespace_allowlist, scorecard_type,
}
use dependency_firewall.Policy.Condition.Age.{evaluate_maximum_age, evaluate_minimum_age}
use dependency_firewall.Policy.Condition.Cvss.{evaluate_cvss_threshold}
use dependency_firewall.Policy.Condition.License.{evaluate_license, evaluate_license_allowlist}
use dependency_firewall.Policy.Condition.MutableTag.{evaluate_block_mutable_tag}
use dependency_firewall.Policy.Condition.NamespaceList.{
  evaluate_allowlist, evaluate_blocklist, evaluate_namespace_allowlist,
}
use dependency_firewall.Policy.Condition.Scorecard.{evaluate_scorecard}
use dependency_firewall.Policy.Descriptor.{
  Condition, PolicyDefinition, define_deny_policy_v1, is_block_mutable_tag, is_cvss_threshold,
  is_license, is_license_allowlist, is_maximum_age, is_minimum_age, is_namespace_list, is_scorecard,
}

cvss_threshold_definition : PolicyDefinition
unfolding define_deny_policy_v1
cvss_threshold_definition =
    define_deny_policy_v1 cvss_threshold (λ now. evaluate_cvss_threshold) ecosystem_npm
      vulnerability_lookup true is_cvss_threshold
      (cvss_threshold_config
        (some (record { max_cvss = none; minimum_severity = none; dry_run = false })))

minimum_age_definition : PolicyDefinition
unfolding define_deny_policy_v1
minimum_age_definition =
    define_deny_policy_v1 minimum_age evaluate_minimum_age ecosystem_npm publish_time true
      is_minimum_age
      (minimum_age_config
        (some (record { min_age_days = none; exclude_packages = []; dry_run = false })))

maximum_age_definition : PolicyDefinition
unfolding define_deny_policy_v1
maximum_age_definition =
    define_deny_policy_v1 maximum_age evaluate_maximum_age ecosystem_npm publish_time true
      is_maximum_age
      (maximum_age_config
        (some (record { max_age_days = none; exclude_packages = []; dry_run = false })))

block_mutable_tag_definition : PolicyDefinition
unfolding define_deny_policy_v1
block_mutable_tag_definition =
    define_deny_policy_v1 block_mutable_tag (λ now. evaluate_block_mutable_tag) ecosystem_oci
      manifest_digest_lookup false is_block_mutable_tag
      (block_mutable_tag_config (some (record { tags = []; dry_run = false })))

scorecard_definition : PolicyDefinition
unfolding define_deny_policy_v1
scorecard_definition =
    define_deny_policy_v1 scorecard_type (λ now. evaluate_scorecard) ecosystem_npm scorecard_lookup
      true is_scorecard
      (scorecard_config (
        some (record {
          min_score = none;
          checks = [];
          unavailable_scorecard_behavior = "";
          dry_run = false;
        })))

license_definition : PolicyDefinition
license_definition = record {
  descriptor = record {
    kind = license;
    current_schema_version = pos 1;
    supported_schema_versions = pos 1 ∷ [];
    supported_actions = action_allow ∷ action_deny ∷ [];
    supported_ecosystems = ecosystem_npm ∷ [];
    required_capabilities = licenses_capability ∷ [];
  };
  requires_external_metadata = true;
  new_config_by_schema =
      (pos 1, license_config (some (record { licenses = []; dry_run = false }))) ∷ [];
  config_matches = is_license;
  condition_evaluator = λ now. evaluate_license;
}

license_allowlist_definition : PolicyDefinition
license_allowlist_definition = record {
  descriptor = record {
    kind = license_allowlist;
    current_schema_version = pos 2;
    supported_schema_versions = pos 1 ∷ pos 2 ∷ [];
    supported_actions = action_deny ∷ [];
    supported_ecosystems = ecosystem_npm ∷ [];
    required_capabilities = licenses_capability ∷ [];
  };
  requires_external_metadata = true;
  new_config_by_schema =
      (pos 1, license_allowlist_config (some (record { licenses = []; dry_run = false })))
      ∷ (
        pos 2,
        license_allowlist_config_v2 (
            some (record {
              licenses = [];
              unlicensed_behavior = "";
              unavailable_metadata_behavior = "";
              dry_run = false;
            })),
      )
      ∷ [];
  config_matches = is_license_allowlist;
  condition_evaluator = λ now. evaluate_license_allowlist;
}

-- the three namespace policies differ in their type, their action and their condition
namespace_definition : String → String → Condition → PolicyDefinition
namespace_definition kind action condition = record {
  descriptor = record {
    kind = kind;
    current_schema_version = pos 1;
    supported_schema_versions = pos 1 ∷ [];
    supported_actions = action ∷ [];
    supported_ecosystems = ecosystem_npm ∷ ecosystem_oci ∷ [];
    required_capabilities = [];
  };
  requires_external_metadata = false;
  new_config_by_schema =
      (pos 1, namespace_list_config (some (record { namespaces = []; dry_run = false }))) ∷ [];
  config_matches = is_namespace_list;
  condition_evaluator = condition;
}

allowlist_definition : PolicyDefinition
unfolding namespace_definition
allowlist_definition = namespace_definition allowlist action_allow (λ now. evaluate_allowlist)

namespace_allowlist_definition : PolicyDefinition
unfolding namespace_definition
namespace_allowlist_definition =
    namespace_definition namespace_allowlist action_deny (λ now. evaluate_namespace_allowlist)

blocklist_definition : PolicyDefinition
unfolding namespace_definition
blocklist_definition = namespace_definition blocklist action_deny (λ now. evaluate_blocklist)

unfoldable pub policy_definitions : List PolicyDefinition
unfolding cvss_threshold_definition minimum_age_definition maximum_age_definition
    block_mutable_tag_definition scorecard_definition license_definition
    license_allowlist_definition allowlist_definition namespace_allowlist_definition
    blocklist_definition is_cvss_threshold is_minimum_age is_maximum_age is_block_mutable_tag
    is_scorecard is_license is_license_allowlist is_namespace_list
policy_definitions =
    cvss_threshold_definition ∷ minimum_age_definition ∷ maximum_age_definition
    ∷ block_mutable_tag_definition ∷ scorecard_definition ∷ license_definition
    ∷ license_allowlist_definition ∷ allowlist_definition ∷ namespace_allowlist_definition
    ∷ blocklist_definition ∷ []
