-- ===== src/Policy/Condition/NamespaceList/Complement.antt =====
-- How the three conditions on namespaces (internal/core/policy/condition/list.go) relate.
use dependency_firewall.Base.{Bool, Option, arith, is_some, none, not, some, ◌≡◌}
use dependency_firewall.Domain.Config.{PolicyConfig}
use dependency_firewall.Domain.Message.{Message, Result, err, ok}
use dependency_firewall.Domain.Policy.{AccessRequest}
use dependency_firewall.Policy.Condition.NamespaceList.{
  evaluate_allowlist, evaluate_blocklist, evaluate_namespace_allowlist, namespace_list,
}

-- whether a condition matches, where it gives no error
abbrev pub matches : Result (Option Message) → Option Bool
matches (ok o) = some (is_some o)
matches (err e) = none

abbrev pub negated : Option Bool → Option Bool
negated none = none
negated (some b) = some (not b)

-- For every configuration the three conditions give an error together; else the namespace
-- allowlist matches exactly where the allowlist does not, and the blocklist exactly where it does.
pub matches-evaluate_allowlist :
    (req : AccessRequest) (config : Option PolicyConfig)
    → (matches (evaluate_namespace_allowlist req config)
        ≡ negated (matches (evaluate_allowlist req config)))
      × (matches (evaluate_blocklist req config) ≡ matches (evaluate_allowlist req config))
unfolding evaluate_namespace_allowlist evaluate_allowlist evaluate_blocklist namespace_list
matches-evaluate_allowlist req config = (ground arith, ground arith)
