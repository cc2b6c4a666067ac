-- ===== src/Policy/Catalog.antt =====
-- internal/core/policy/catalog.go and schema.go: what is looked up in the catalog of the policy
-- types, and the versions of the schemas.
use dependency_firewall.Base.{
  Bool, List, Option, String, [], eqb_ℤ, false, if◌then◌else◌, none, pos, some, ℤ, ◌==◌, ◌||◌, ◌∷◌,
}
use dependency_firewall.Domain.Config.{PolicyConfig}
use dependency_firewall.Domain.Message.{
  Message, Result, err, errorf, int, invalid_policy, ok, require, text,
  unsupported_policy_schema_version, wrap,
}
use dependency_firewall.Policy.Definitions.{policy_definitions}
use dependency_firewall.Policy.Descriptor.{Condition, PolicyDefinition}

-- the map from a type to its definition; the types of the list are distinct
unfoldable pub find_definition : String → List PolicyDefinition → Option PolicyDefinition
find_definition kind [] = none
find_definition kind (d ∷ ds) =
    if d.descriptor.kind == kind then some d else find_definition kind ds

unfoldable pub policy_definition_for : String → Option PolicyDefinition
unfolding policy_definitions find_definition
policy_definition_for kind = find_definition kind policy_definitions

unknown_policy_type : String → Message
unknown_policy_type kind = record { format = "unknown policy type %q"; args = text kind ∷ [] }

unfoldable pub condition_for_type : String → Result Condition
unfolding unknown_policy_type
condition_for_type kind = elim (policy_definition_for kind) [
  | none ↦ err (errorf (unknown_policy_type kind))
  | some d ↦ ok d.condition_evaluator
]

unfoldable pub config_type_matches_policy : String → PolicyConfig → Bool
config_type_matches_policy kind config = elim (policy_definition_for kind) [
  | none ↦ false
  | some d ↦ d.config_matches config
]

unfoldable pub requires_external_metadata : String → Bool
requires_external_metadata kind = elim (policy_definition_for kind) [
  | none ↦ false
  | some d ↦ d.requires_external_metadata
]

unfoldable pub contains_version : List ℤ → ℤ → Bool
contains_version [] v = false
contains_version (x ∷ xs) v = eqb_ℤ x v || contains_version xs v

unfoldable pub current_schema_version : String → Result ℤ
unfolding unknown_policy_type
current_schema_version kind = elim (policy_definition_for kind) [
  | none ↦ err (wrap invalid_policy (unknown_policy_type kind))
  | some d ↦ ok d.descriptor.current_schema_version
]

unfoldable pub normalize_schema_version : String → ℤ → Result ℤ
normalize_schema_version kind version =
    if eqb_ℤ version (pos 0) then current_schema_version kind else ok version

unfoldable pub validate_schema_version : String → ℤ → Result (Unit {0})
unfolding unknown_policy_type contains_version
validate_schema_version kind version = elim (policy_definition_for kind) [
  | none ↦ err (wrap invalid_policy (unknown_policy_type kind))
  | some d ↦ require (contains_version d.descriptor.supported_schema_versions version) (
      wrap unsupported_policy_schema_version (record {
        format = "schema_version %d is not supported for policy type %q";
        args = int version ∷ text kind ∷ [];
      }))
]

find_config : ℤ → List (ℤ × PolicyConfig) → Option PolicyConfig
find_config version [] = none
find_config version ((v, c) ∷ rest) = if eqb_ℤ v version then some c else find_config version rest

-- newConfigForType
unfoldable pub new_config_for_type : String → ℤ → Result PolicyConfig
unfolding unknown_policy_type find_config
new_config_for_type kind version = elim (policy_definition_for kind) [
  | none ↦ err (wrap invalid_policy (unknown_policy_type kind))
  | some d ↦ elim (find_config version d.new_config_by_schema) [
    | none ↦ err (
        wrap unsupported_policy_schema_version (record {
          format = "schema_version %d is not supported for policy type %q";
          args = int version ∷ text kind ∷ [];
        }))
    | some c ↦ ok c
  ]
]
