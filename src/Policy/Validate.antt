-- ===== src/Policy/Validate.antt =====
-- internal/core/policy/validate.go and upstream_support.go: what the firewall accepts as a policy,
-- and which policy types an upstream can serve. Validation writes defaults into the
-- configuration and the target, so that it returns the policy as the call leaves it.
use dependency_firewall.Base.{
  Bool, List, Option, String, [], contains, false, if◌then◌else◌, is_empty, none, not, some,
  trim_space, true, ◌==◌, ◌||◌, ◌∷◌,
}
use dependency_firewall.Domain.Capability.{Upstream, upstream_supports}
use dependency_firewall.Domain.Config.{PolicyConfig, validate}
use dependency_firewall.Domain.Dependency.{validate_target}
use dependency_firewall.Domain.Message.{
  Error, Result, err, invalid_policy, ok, plain, policy_upstream_incompatible, require, wrap, ◌>>=◌,
  ◌>>◌,
}
use dependency_firewall.Domain.Policy.{Policy, action_allow, action_deny}
use dependency_firewall.Policy.Catalog.{
  config_type_matches_policy, normalize_schema_version, policy_definition_for,
  validate_schema_version,
}
use dependency_firewall.Policy.Definitions.{policy_definitions}
use dependency_firewall.Policy.Descriptor.{PolicyDefinition}

abbrev invalid : String → Error
invalid format = wrap invalid_policy (plain format)

abbrev is_valid_action : String → Bool
is_valid_action action = action == action_allow || action == action_deny

definition_of : String → Result PolicyDefinition
definition_of kind = elim (policy_definition_for kind) [
  | none ↦ err (invalid "unknown policy type %q")
  | some d ↦ ok d
]

-- invalidPolicyf("%v", err)
as_invalid {ℓ} : {A : Type ℓ} → Result A → Result A
as_invalid (ok a) = ok a
as_invalid (err e) = err (wrap invalid_policy e.message)

config_of : Option PolicyConfig → Result PolicyConfig
config_of none = err (invalid "config is required")
config_of (some c) = ok c

unfoldable pub validate_policy : Policy → Result Policy
unfolding definition_of as_invalid config_of
validate_policy p = do
  require (not (trim_space p.tenant_id == "")) (invalid "tenant_id is required")
  require (not (trim_space p.name == "")) (invalid "name is required")
  definition ← definition_of p.kind
  require (is_valid_action p.action) (invalid "invalid action %q, must be %q or %q")
  require (contains definition.descriptor.supported_actions p.action)
      (invalid "policy type %q does not support action %q")
  version ← normalize_schema_version p.kind p.schema_version
  validate_schema_version p.kind version
  config ← config_of p.config
  require (config_type_matches_policy p.kind config)
      (invalid "config type %T does not match policy type %q")
  config' ← as_invalid (validate config)
  target' ← as_invalid (validate_target p.target)
  ok (record p { config = some config'; target = target' })

-- the loop over the policies; `seen` holds the names met before
validate_from : List String → List Policy → Result (List Policy)
unfolding as_invalid
validate_from seen [] = ok []
validate_from seen (p ∷ ps) = do
  p' ← as_invalid (validate_policy p)
  require (not (contains seen p.name))
      (invalid "policy %d (%q): duplicate policy name %q already used by policy %d")
  ps' ← validate_from (p.name ∷ seen) ps
  ok (p' ∷ ps')

unfoldable pub validate_policies : List Policy → Result (List Policy)
unfolding validate_from
validate_policies policies = validate_from [] policies

missing_capabilities : Upstream → List String → List String
missing_capabilities u [] = []
missing_capabilities u (c ∷ cs) =
    let rest = missing_capabilities u cs in if upstream_supports u c then rest else c ∷ rest

unfoldable pub validate_upstream_compatibility : String → Upstream → Result (Unit {0})
unfolding definition_of missing_capabilities
validate_upstream_compatibility kind u = do
  d ← definition_of kind
  require (contains d.descriptor.supported_ecosystems u.ecosystem)
      (wrap policy_upstream_incompatible (plain "policy type %q only supports %s upstreams"))
  require (is_empty (missing_capabilities u d.descriptor.required_capabilities))
      (wrap policy_upstream_incompatible (plain "policy type %q requires upstream capabilities %s"))

is_ok {ℓ} : {A : Type ℓ} → Result A → Bool
is_ok (ok a) = true
is_ok (err e) = false

supported_from : Upstream → List PolicyDefinition → List String
unfolding is_ok
supported_from u [] = []
supported_from u (d ∷ ds) =
    let rest = supported_from u ds in
    if is_ok (validate_upstream_compatibility d.descriptor.kind u)
    then d.descriptor.kind ∷ rest
    else rest

unfoldable pub supported_policy_types_for_upstream : Upstream → List String
unfolding supported_from
supported_policy_types_for_upstream u = supported_from u policy_definitions
