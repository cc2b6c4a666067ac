-- ===== src/Service/Prepare/Returns.antt =====
-- preparePolicySet (internal/core/service/proxy.go) ends without an error, if the audit trail lets
-- the workflow go on when it cannot record, and the policies are loaded.
use dependency_firewall.Base.{List, String, ap, false, refl, true, ◌≡◌}
use dependency_firewall.Domain.Message.{Error, Result, err, is_ok, is_ok-value, ok}
use dependency_firewall.Domain.Policy.{AccessRequest, Policy}
use dependency_firewall.Infra.DecisionCache.{ValkeyServer}
use dependency_firewall.Policy.Validate.{validate_policies}
use dependency_firewall.Service.Effects.{Ports, World, pure}
use dependency_firewall.Service.Lookup.Returns.{audited-Returns}
use dependency_firewall.Service.Prepare.{
  prepare_hashed, prepare_listed, prepare_policy_set, prepare_valid, prepared, refuse_set,
}
use dependency_firewall.Service.Prepare.InForce.{refuse-ok}
use dependency_firewall.Service.Triple.{Returns}

module _ (valkey : ValkeyServer) (ports : Ports) (fail_open : ports.audit_fail_closed ≡ false) where
  open valkey use {Server}

  refuse-Returns :
      (req : AccessRequest) (e : Error) (w : World Server)
      → Returns (refuse_set valkey ports req e w)
  refuse-Returns req e w = ap is_ok (refuse-ok valkey ports req e w)

  prepare_hashed-Returns :
      (req : AccessRequest) (effective : List Policy) (r : Result String) (w : World Server)
      → Returns (prepare_hashed valkey ports req effective r w)
  unfolding prepare_hashed
  prepare_hashed-Returns req effective (err e) w = refuse-Returns req e w
  prepare_hashed-Returns req effective (ok hash) w =
      audited-Returns valkey ports fail_open _ (pure (prepared effective hash)) w (λ _. refl)

  prepare_valid-Returns :
      (req : AccessRequest) (r : Result (List Policy)) (w : World Server)
      → Returns (prepare_valid valkey ports req r w)
  unfolding prepare_valid
  prepare_valid-Returns req (err e) w = refuse-Returns req e w
  prepare_valid-Returns req (ok valid) w = prepare_hashed-Returns req _ _ w

  pub prepare-Returns :
      (loads : (tenant : String) → is_ok (ports.list_by_tenant tenant) ≡ true) (req : AccessRequest)
      (w : World Server)
      → Returns (prepare_policy_set valkey ports req w)
  unfolding prepare_policy_set prepare_listed
  prepare-Returns loads req w =
      let (policies, h) = is_ok-value _ (loads req.tenant_id) in
      rw h (prepare_valid-Returns req (validate_policies policies) w)
