-- ===== src/Domain/Dependency.antt =====
-- internal/core/domain/dependency_graph.go and policy_target.go: the evidence that a dependency
-- graph gives about an artifact, its canonical form, and the selector of a policy.
use dependency_firewall.Base.{
  Bool, List, Option, String, [], all, contains, if◌then◌else◌, join, map, none, some, sort, str_lt,
  trim_space, ◌==◌, ◌||◌, ◌∷◌,
}
use dependency_firewall.Domain.Message.{Result, invalid_policy, ok, plain, require, wrap, ◌>>◌}

abbrev pub scope_direct : String
scope_direct = "direct"

abbrev pub scope_transitive : String
scope_transitive = "transitive"

abbrev pub scope_unknown : String
scope_unknown = "unknown"

abbrev pub type_prod : String
type_prod = "prod"

abbrev pub type_dev : String
type_dev = "dev"

abbrev pub type_peer : String
type_peer = "peer"

abbrev pub type_optional : String
type_optional = "optional"

abbrev pub unknown_warn : String
unknown_warn = "warn"

abbrev pub unknown_deny : String
unknown_deny = "deny"

abbrev pub unknown_skip : String
unknown_skip = "skip"

pub record DependencyContext : Type 0 where
  pub scope : String
  pub dependency_types : List String
  pub graph_ids : List String
  pub context_hash : String

pub record PolicyTarget : Type 0 where
  pub dependency_scopes : List String
  pub dependency_types : List String
  pub on_unknown : String

-- the loop of the three `unique` functions: empty values and those met before are dropped
unique_from : List String → List String → List String
unique_from seen [] = []
unique_from seen (value ∷ values) =
    let fresh = value ∷ unique_from (value ∷ seen) values in
    let rest = unique_from seen values in
    if value == "" then rest else if contains seen value then rest else fresh

unfoldable pub unique_dependency_types : List String → List String
unfolding unique_from
unique_dependency_types values = sort str_lt (unique_from [] values)

unfoldable pub unique_strings : List String → List String
unfolding unique_from
unique_strings values = sort str_lt (unique_from [] (map trim_space values))

unfoldable pub unique_dependency_scopes : List String → List String
unfolding unique_from
unique_dependency_scopes values = unique_from [] values

-- The text that `StableHash` hashes.
unfoldable pub hash_input : DependencyContext → String
hash_input c =
    join "|" (
      c.scope ∷ join "," (sort str_lt c.dependency_types) ∷ join "," (sort str_lt c.graph_ids) ∷ [])

-- The hash function is a parameter: hex(sha256(text)).
module _ (digest : String → String) where
  unfoldable pub stable_hash : DependencyContext → String
  unfolding hash_input
  stable_hash c = digest (hash_input c)

  unfoldable pub new_unknown_dependency_context : DependencyContext
  unfolding stable_hash
  new_unknown_dependency_context =
      let ctx : DependencyContext = record {
        scope = scope_unknown;
        dependency_types = [];
        graph_ids = [];
        context_hash = "";
      } in
      record ctx { context_hash = stable_hash ctx }

  unfoldable pub normalize_context : DependencyContext → DependencyContext
  unfolding stable_hash unique_dependency_types unique_strings
  normalize_context c =
      let c' : DependencyContext = record {
        scope = if c.scope == "" then scope_unknown else c.scope;
        dependency_types = unique_dependency_types c.dependency_types;
        graph_ids = unique_strings c.graph_ids;
        context_hash = c.context_hash;
      } in
      if c.context_hash == "" then record c' { context_hash = stable_hash c' } else c'

abbrev is_unknown_action : String → Bool
is_unknown_action s = s == unknown_warn || s == unknown_deny || s == unknown_skip

abbrev is_scope : String → Bool
is_scope s = s == scope_direct || s == scope_transitive || s == scope_unknown

abbrev is_dependency_type : String → Bool
is_dependency_type s = s == type_prod || s == type_dev || s == type_peer || s == type_optional

-- (*PolicyTarget).Validate: the default of `on_unknown` is written into the target.
unfoldable pub validate_target : Option PolicyTarget → Result (Option PolicyTarget)
validate_target none = ok none
validate_target (some t) = do
  let t' = if t.on_unknown == "" then record t { on_unknown = unknown_warn } else t
  require (is_unknown_action t'.on_unknown)
      (wrap invalid_policy (plain "target.on_unknown must be one of warn, deny, skip"))
  require (all is_scope t'.dependency_scopes)
      (wrap invalid_policy (plain "target.dependency_scope contains unsupported value %q"))
  require (all is_dependency_type t'.dependency_types)
      (wrap invalid_policy (plain "target.dependency_types contains unsupported value %q"))
  ok (some t')

-- (*PolicyTarget).Normalize
unfoldable pub normalize_target : Option PolicyTarget → Option PolicyTarget
unfolding unique_dependency_scopes unique_dependency_types
normalize_target none = none
normalize_target (some t) = some (record {
  dependency_scopes = unique_dependency_scopes t.dependency_scopes;
  dependency_types = unique_dependency_types t.dependency_types;
  on_unknown = if t.on_unknown == "" then unknown_warn else t.on_unknown;
})
