-- ===== src/Policy/Condition/NamespaceList.antt =====
-- internal/core/policy/condition/list.go
pub mod Complement
use dependency_firewall.Base.{
  List, Option, String, [], contains, if◌then◌else◌, none, not, some, ◌∷◌,
}
use dependency_firewall.Domain.Config.{PolicyConfig, namespace_list_config, validate_namespace_list}
use dependency_firewall.Domain.Message.{Message, Result, err, errorf, ok, plain, text, ◌>>=◌, ◌>>◌}
use dependency_firewall.Domain.Policy.{AccessRequest}

abbrev in_namespace : String → String → Message
in_namespace format ns = record { format = format; args = text ns ∷ [] }

-- the type assertion and the validation that the three conditions begin with
namespace_list : String → Option PolicyConfig → Result (List String)
namespace_list what (some (namespace_list_config (some c))) = do
  validate_namespace_list (some c)
  ok c.namespaces
namespace_list what (some (namespace_list_config none)) = do validate_namespace_list none; ok []
namespace_list what _ = err (errorf (plain what))

unfoldable pub evaluate_allowlist : AccessRequest → Option PolicyConfig → Result (Option Message)
unfolding namespace_list
evaluate_allowlist req config = do
  namespaces ← namespace_list "allowlist requires %T, got %T" config
  let ns = req.artifact.namespace
  ok (if contains namespaces ns then some (in_namespace "namespace %q is allowed" ns) else none)

unfoldable pub evaluate_namespace_allowlist :
    AccessRequest → Option PolicyConfig → Result (Option Message)
unfolding namespace_list
evaluate_namespace_allowlist req config = do
  namespaces ← namespace_list "namespace_allowlist requires %T, got %T" config
  let ns = req.artifact.namespace
  ok (
      if not (contains namespaces ns)
      then some (in_namespace "namespace %q is not in the approved namespace list" ns)
      else none)

unfoldable pub evaluate_blocklist : AccessRequest → Option PolicyConfig → Result (Option Message)
unfolding namespace_list
evaluate_blocklist req config = do
  namespaces ← namespace_list "blocklist requires %T, got %T" config
  let ns = req.artifact.namespace
  ok (if contains namespaces ns then some (in_namespace "namespace %q is blocked" ns) else none)
