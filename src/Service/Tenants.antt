-- ===== src/Service/Tenants.antt =====
-- internal/core/service/tenant.go, evaluation.go and cache.go: calls of a repository or of a cache, with
-- a description of the error. The adapters are parameters that work on a state `S`.
use dependency_firewall.Base.{List, String, ℤ}
use dependency_firewall.Domain.Policy.{Decision}
use dependency_firewall.Service.Bundles.{Tenant}
use dependency_firewall.Service.Calls.{Call, or_fail}

pub record TenantPorts (S : Type 0) : Type 0 where
  pub create : Tenant → Call S (Unit {0})
  pub get_by_id : String → Call S Tenant
  pub list_tenants : Call S (List Tenant)
  pub update : Tenant → Call S (Unit {0})
  pub delete : String → Call S (Unit {0})
  pub list_decisions : String → ℤ → ℤ → String → Call S (List Decision)
  pub invalidate_decisions : String → Call S (Unit {0})
  pub invalidate_metadata : String → Call S (Unit {0})

module _ {S : Type 0} (ports : TenantPorts S) where
  unfoldable create_tenant : Tenant → Call S (Unit {0})
  create_tenant t = or_fail "creating tenant" (ports.create t)

  unfoldable get_tenant_by_id : String → Call S Tenant
  get_tenant_by_id id = or_fail "getting tenant" (ports.get_by_id id)

  unfoldable list_all_tenants : Call S (List Tenant)
  list_all_tenants = or_fail "listing tenants" ports.list_tenants

  unfoldable update_tenant : Tenant → Call S (Unit {0})
  update_tenant t = or_fail "updating tenant" (ports.update t)

  unfoldable delete_tenant : String → Call S (Unit {0})
  delete_tenant id = or_fail "deleting tenant" (ports.delete id)

  -- ListByTenant of EvaluationService
  unfoldable list_evaluations : String → ℤ → ℤ → String → Call S (List Decision)
  list_evaluations tenant limit offset search_text =
      or_fail "listing evaluations" (ports.list_decisions tenant limit offset search_text)

  -- the two operations of CacheService
  unfoldable clear_tenant_decisions : String → Call S (Unit {0})
  clear_tenant_decisions tenant =
      or_fail "clearing tenant decision cache" (ports.invalidate_decisions tenant)

  unfoldable clear_tenant_metadata : String → Call S (Unit {0})
  clear_tenant_metadata tenant =
      or_fail "clearing tenant metadata cache" (ports.invalidate_metadata tenant)
