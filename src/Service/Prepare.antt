-- ===== src/Service/Prepare.antt =====
-- internal/core/service/proxy.go (preparePolicySet) and proxy_invalid.go: the policies in force for a
-- request, or the denial of a request whose policies are not valid. preparePolicySet hands on the
-- policies with their hash, or a decision that ends the evaluation.
pub mod InForce
pub mod Returns
use dependency_firewall.Base.{List, String, [], if◌then◌else◌, none, some, ℤ, ◌++◌, ◌∷◌}
use dependency_firewall.Domain.Message.{Error, Result, annotate, err, is_deprecated, ok, plain}
use dependency_firewall.Domain.Policy.{
  AccessRequest, Decision, Policy, action_deny, deny, evaluation_error,
}
use dependency_firewall.Infra.DecisionCache.{ValkeyServer, cache_set}
use dependency_firewall.Policy.Hash.{hash_policies}
use dependency_firewall.Policy.Validate.{validate_policies}
use dependency_firewall.Service.Effects.{Eff, Ports, pure, raise, ◌>>=◌, ◌>>◌}
use dependency_firewall.Service.Lookup.{audit_event, record_audit, record_audit_best_effort}
use dependency_firewall.Service.Requests.{
  decision_ttl, filter_policies_for_upstream, should_cache_decision,
}

pub data Prepared : Type 0 where
  prepared : List Policy → String → Prepared
  invalid_set : Decision → Prepared

unfoldable pub invalid_decision : ℤ → AccessRequest → Error → Decision
invalid_decision now req e = record {
  id = "";
  tenant_id = req.tenant_id;
  artifact = req.artifact;
  outcome = deny;
  policy_id = "";
  policy_hash = "";
  dependency_context = none;
  reason = plain "invalid policy configuration";
  reasons =
      record {
        policy_id = "";
        policy_name = "";
        category = evaluation_error;
        action = action_deny;
        message = e.message;
      }
      ∷ [];
  warnings = [];
  cached_at = none;
  evaluated_at = now;
}

module _ (valkey : ValkeyServer) (ports : Ports) where
  open valkey use {Server}

  -- s.decisionCache.Set, whose error is only logged
  unfoldable pub cache_decision : AccessRequest → Decision → Eff Server (Unit {0})
  cache_decision req d w =
      if should_cache_decision req
      then elim (cache_set valkey ports.digest ports.now (decision_ttl req) d w.server) [
        | ok server' ↦ (ok tt, record w { server = server' })
        | err e ↦ (ok tt, w)
      ]
      else (ok tt, w)

  unfoldable pub append_decision : Decision → Eff Server (Unit {0})
  append_decision d w = (ok tt, record w { recorded = w.recorded ++ d ∷ [] })

  -- s.decisions.Record in denyForInvalidPolicySet, and what follows it
  invalid_recorded : AccessRequest → Decision → Result (Unit {0}) → Eff Server (Unit {0})
  unfolding append_decision
  invalid_recorded req d (ok _) = append_decision d
  invalid_recorded req d (err _) =
      record_audit_best_effort valkey ports
        (record (audit_event req "error" "invalid-policy decision persistence failed") {
          outcome = some d.outcome;
        })

  unfoldable pub deny_for_invalid_policy_set : AccessRequest → Error → Eff Server Decision
  unfolding invalid_decision invalid_recorded
  deny_for_invalid_policy_set req e = do
    record_audit_best_effort valkey ports (audit_event req "error" "invalid policy set")
    let d = invalid_decision ports.now req e
    cache_decision req d
    invalid_recorded req d (ports.record_decision d)
    pure d

  pub refuse_set : AccessRequest → Error → Eff Server Prepared
  refuse_set req e = deny_for_invalid_policy_set req e >>= λ d. pure (invalid_set d)

  -- preparePolicySet, below the call of HashPolicies
  prepare_hashed : AccessRequest → List Policy → Result String → Eff Server Prepared
  unfolding refuse_set
  prepare_hashed req effective (err e) = refuse_set req e
  prepare_hashed req effective (ok hash) = do
    record_audit valkey ports (audit_event req "policies_loaded" "policies loaded for evaluation")
    pure (prepared effective hash)

  -- below the call of ValidatePolicies
  prepare_valid : AccessRequest → Result (List Policy) → Eff Server Prepared
  unfolding prepare_hashed
  prepare_valid req (err e) = refuse_set req e
  prepare_valid req (ok valid) =
      let effective = filter_policies_for_upstream valid req.upstream.id in
      prepare_hashed req effective (hash_policies ports.encode ports.digest effective)

  -- below the call of ListByTenant
  prepare_listed : AccessRequest → Result (List Policy) → Eff Server Prepared
  unfolding prepare_valid
  prepare_listed req (ok policies) = prepare_valid req (validate_policies policies)
  prepare_listed req (err e) =
      if is_deprecated e
      then refuse_set req e
      else (record_audit_best_effort valkey ports (audit_event req "error" "policy load failed")
          >> raise (annotate "loading policies" e))

  unfoldable pub prepare_policy_set : AccessRequest → Eff Server Prepared
  unfolding prepare_listed
  prepare_policy_set req = prepare_listed req (ports.list_by_tenant req.tenant_id)
