-- ===== src/Policy/Descriptor.antt =====
-- internal/core/policy/catalog.go and internal/core/domain/policy_type_descriptor.go: what the
-- catalog says of a policy type, and the tests of a configuration's type. Help texts and examples
-- are left out.
use dependency_firewall.Base.{Bool, List, Option, String, [], false, pos, true, ℤ, ◌∷◌}
use dependency_firewall.Domain.Config.{
  PolicyConfig, block_mutable_tag_config, cvss_threshold_config, license_allowlist_config,
  license_allowlist_config_v2, license_config, maximum_age_config, minimum_age_config,
  namespace_list_config, scorecard_config,
}
use dependency_firewall.Domain.Message.{Message, Result}
use dependency_firewall.Domain.Policy.{AccessRequest, action_deny}
use dependency_firewall.Policy.Condition.NamespaceList.Complement.{matches}

abbrev pub Condition : Type 0
Condition = ℤ → AccessRequest → Option PolicyConfig → Result (Option Message)

pub record PolicyTypeDescriptor : Type 0 where
  pub kind : String
  pub current_schema_version : ℤ
  pub supported_schema_versions : List ℤ
  pub supported_actions : List String
  pub supported_ecosystems : List String
  pub required_capabilities : List String

-- `new_config_by_schema` holds what each factory returns.
pub record PolicyDefinition : Type 0 where
  pub descriptor : PolicyTypeDescriptor
  pub requires_external_metadata : Bool
  pub new_config_by_schema : List (ℤ × PolicyConfig)
  pub config_matches : PolicyConfig → Bool
  pub condition_evaluator : Condition

-- defineDenyPolicyV1
unfoldable pub define_deny_policy_v1 :
    String
    → Condition
    → String
    → String
    → Bool
    → (PolicyConfig → Bool)
    → PolicyConfig
    → PolicyDefinition
define_deny_policy_v1 kind condition ecosystem capability external matches config = record {
  descriptor = record {
    kind = kind;
    current_schema_version = pos 1;
    supported_schema_versions = pos 1 ∷ [];
    supported_actions = action_deny ∷ [];
    supported_ecosystems = ecosystem ∷ [];
    required_capabilities = capability ∷ [];
  };
  requires_external_metadata = external;
  new_config_by_schema = (pos 1, config) ∷ [];
  config_matches = matches;
  condition_evaluator = condition;
}

-- configTypeMatcher at the types of the catalog
unfoldable pub is_cvss_threshold : PolicyConfig → Bool
is_cvss_threshold (cvss_threshold_config c) = true
is_cvss_threshold _ = false

unfoldable pub is_minimum_age : PolicyConfig → Bool
is_minimum_age (minimum_age_config c) = true
is_minimum_age _ = false

unfoldable pub is_maximum_age : PolicyConfig → Bool
is_maximum_age (maximum_age_config c) = true
is_maximum_age _ = false

unfoldable pub is_block_mutable_tag : PolicyConfig → Bool
is_block_mutable_tag (block_mutable_tag_config c) = true
is_block_mutable_tag _ = false

unfoldable pub is_scorecard : PolicyConfig → Bool
is_scorecard (scorecard_config c) = true
is_scorecard _ = false

unfoldable pub is_license : PolicyConfig → Bool
is_license (license_config c) = true
is_license _ = false

unfoldable pub is_license_allowlist : PolicyConfig → Bool
is_license_allowlist (license_allowlist_config c) = true
is_license_allowlist (license_allowlist_config_v2 c) = true
is_license_allowlist _ = false

unfoldable pub is_namespace_list : PolicyConfig → Bool
is_namespace_list (namespace_list_config c) = true
is_namespace_list _ = false
