-- ===== src/Policy/Hash.antt =====
-- internal/core/policy/hash.go: the canonical hash of a policy set. The JSON encoding and SHA-256
-- are parameters.
use dependency_firewall.Base.{
  Bool, List, Option, String, eqb_ℤ, if◌then◌else◌, ltb_ℤ, map, not, sort, str_lt, ℤ, ◌==◌,
}
use dependency_firewall.Domain.Config.{PolicyConfig}
use dependency_firewall.Domain.Dependency.{PolicyTarget}
use dependency_firewall.Domain.Message.{Result, err, ok, ◌>>=◌}
use dependency_firewall.Domain.Policy.{Policy}
use dependency_firewall.Policy.Catalog.{normalize_schema_version}

pub record HashablePolicy : Type 0 where
  pub upstream_id : String
  pub name : String
  pub kind : String
  pub action : String
  pub schema_version : ℤ
  pub priority : ℤ
  pub enabled : Bool
  pub config : Option PolicyConfig
  pub target : Option PolicyTarget

-- mustNormalizePolicySchemaVersion
must_normalize_version : String → ℤ → ℤ
must_normalize_version kind version = elim (normalize_schema_version kind version) [
  | ok v ↦ v
  | err e ↦ version
]

hashable : Policy → HashablePolicy
unfolding must_normalize_version
hashable p = record {
  upstream_id = p.upstream_id;
  name = p.name;
  kind = p.kind;
  action = p.action;
  schema_version = must_normalize_version p.kind p.schema_version;
  priority = p.priority;
  enabled = p.enabled;
  config = p.config;
  target = p.target;
}

unfoldable pub hash_less : HashablePolicy → HashablePolicy → Bool
hash_less a b =
    if not (eqb_ℤ a.priority b.priority)
    then ltb_ℤ a.priority b.priority
    else if not (a.name == b.name)
    then str_lt a.name b.name
    else if not (a.upstream_id == b.upstream_id)
    then str_lt a.upstream_id b.upstream_id
    else if not (a.kind == b.kind)
    then str_lt a.kind b.kind
    else str_lt a.action b.action

module _ (encode : List HashablePolicy → Result String) (digest : String → String) where
  unfoldable pub hash_policies : List Policy → Result String
  unfolding hashable
  hash_policies policies = do
    payload ← encode (sort hash_less (map hashable policies))
    ok (digest payload)
