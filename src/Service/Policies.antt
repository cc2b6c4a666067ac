-- ===== src/Service/Policies.antt =====
-- internal/core/service/policy.go. The repositories and the decision cache are parameters that work on
-- a state `S`; the version number of a policy is left to the repository. A validation fills the
-- defaults in through pointers, so what it gives back is the policy from there on.
pub mod Import
pub mod Invalidated
use dependency_firewall.Base.{
  Bool, List, Option, String, [], eqb_ℤ, if◌then◌else◌, is_some, none, pos, some, ℤ, ◌++◌, ◌<>◌,
  ◌==◌, ◌∷◌,
}
use dependency_firewall.Domain.Capability.{Upstream}
use dependency_firewall.Domain.Config.{PolicyConfig}
use dependency_firewall.Domain.Dependency.{PolicyTarget}
use dependency_firewall.Domain.Message.{
  Error, Result, annotate, err, no_message, ok, policy_delete_enabled, wrap,
}
use dependency_firewall.Domain.Policy.{Policy}
use dependency_firewall.Policy.Catalog.{normalize_schema_version}
use dependency_firewall.Policy.Hash.{HashablePolicy, hash_policies}
use dependency_firewall.Policy.Validate.{
  validate_policies, validate_policy, validate_upstream_compatibility,
}
use dependency_firewall.Service.Calls.{Call, check, give, or_fail, ◌>>=◌, ◌>>◌}

pub record PolicyVersion : Type 0 where
  pub policy_id : String
  pub version : ℤ
  pub upstream_id : String
  pub name : String
  pub kind : String
  pub action : String
  pub schema_version : ℤ
  pub config : Option PolicyConfig
  pub target : Option PolicyTarget
  pub priority : ℤ
  pub enabled : Bool

-- MaxRetainedPolicyVersions
abbrev pub max_retained_policy_versions : ℤ
max_retained_policy_versions = pos 3

pub record PolicyPorts (S : Type 0) : Type 0 where
  pub create : Policy → Call S Policy
  pub update : Policy → Call S Policy
  pub delete : String → String → Bool → Call S (Unit {0})
  pub get_by_id : String → String → Call S Policy
  pub list_policies : String → Call S (List Policy)
  pub list_versions : String → String → ℤ → Call S (List PolicyVersion)
  pub rollback : String → String → ℤ → Call S Policy
  pub create_revision : String → String → Call S (Unit {0})
  pub invalidate : String → Call S (Unit {0})
  pub upstreams : Option (String → String → Call S Upstream)
  pub encode : List HashablePolicy → Result String
  pub digest : String → String

-- errors.Join: the errors one after the other; the first one gives the sentinel.
abbrev pub join_errors : Error → List Error → Error
join_errors e [] = e
join_errors e (e' ∷ es) =
    join_errors
      (record e {
        message = record {
          format = e.message.format <> "\n" <> e'.message.format;
          args = e.message.args ++ e'.message.args;
        };
      })
      es

abbrev pub joined : List Error → Result (Unit {0})
joined [] = ok tt
joined (e ∷ es) = err (join_errors e es)

-- the error of a result, as a list
abbrev pub failure {ℓ} : {A : Type ℓ} → String → Result A → List Error
failure what (ok x) = []
failure what (err e) = annotate what e ∷ []

abbrev validated : List Policy → Result (List Policy) → List Policy
validated policies (ok policies') = policies'
validated policies (err e) = policies

-- the policy that ListVersions validates for a version
abbrev version_policy : String → PolicyVersion → Policy
version_policy tenant v = record {
  id = v.policy_id;
  tenant_id = tenant;
  upstream_id = v.upstream_id;
  name = v.name;
  kind = v.kind;
  action = v.action;
  schema_version = v.schema_version;
  config = v.config;
  target = none;
  priority = v.priority;
  enabled = v.enabled;
}

validate_versions : String → List PolicyVersion → Result (Unit {0})
validate_versions tenant [] = ok tt
validate_versions tenant (v ∷ vs) = elim (validate_policy (version_policy tenant v)) [
  | err e ↦ err (annotate "validating stored policy version %d" e)
  | ok _ ↦ validate_versions tenant vs
]

-- the last policy of a name
unfoldable pub existing_by_name : String → List Policy → Option Policy
existing_by_name name [] = none
existing_by_name name (p ∷ ps) =
    let later = existing_by_name name ps in
    if is_some later then later else if p.name == name then some p else none

module _ {S : Type 0} (ports : PolicyPorts S) where
  -- finalizeTenantMutation, between the hash and the invalidation
  unfoldable pub record_revision : String → List Error → Result String → S → List Error × S
  record_revision tenant errs (err e) s = (errs ++ annotate "hashing tenant policy set" e ∷ [], s)
  record_revision tenant (e ∷ errs) (ok hash) s = (e ∷ errs, s)
  record_revision tenant [] (ok hash) s =
      let (r, s') = ports.create_revision tenant hash s in
      (failure "recording tenant policy revision" r, s')

  unfoldable pub revision_errors : String → Result (List Policy) × S → List Error × S
  unfolding record_revision
  revision_errors tenant (err e, s) = (annotate "listing tenant policies for revision" e ∷ [], s)
  revision_errors tenant (ok policies, s) =
      let v = validate_policies policies in
      record_revision tenant (failure "validating tenant policies for revision" v)
        (hash_policies ports.encode ports.digest (validated policies v)) s

  unfoldable pub invalidated : String → List Error × S → Result (Unit {0}) × S
  invalidated tenant (errs, s) =
      let (r, s') = ports.invalidate tenant s in
      (joined (errs ++ failure "invalidating tenant decision cache" r), s')

  unfoldable pub finalize_tenant_mutation : String → Call S (Unit {0})
  unfolding revision_errors invalidated
  finalize_tenant_mutation tenant s =
      invalidated tenant (revision_errors tenant (ports.list_policies tenant s))

  unfoldable pub scoped_upstream :
      String → String → String → Option (String → String → Call S Upstream) → Call S (Unit {0})
  scoped_upstream tenant upstream kind none = give tt
  scoped_upstream tenant upstream kind (some get) =
      get tenant upstream >>= λ u. check (validate_upstream_compatibility kind u)

  unfoldable pub validate_upstream_scope : String → String → String → Call S (Unit {0})
  unfolding scoped_upstream
  validate_upstream_scope tenant upstream kind =
      if upstream == "" then give tt else scoped_upstream tenant upstream kind ports.upstreams

  unfoldable pub validate_policy_mutation : Policy → Call S Policy
  unfolding validate_upstream_scope
  validate_policy_mutation p = do
    version ← check (normalize_schema_version p.kind p.schema_version)
    p' ← check (validate_policy (record p { schema_version = version }))
    validate_upstream_scope p.tenant_id p'.upstream_id p'.kind
    give p'

  unfoldable pub create_policy : Policy → Call S Policy
  unfolding validate_policy_mutation
  create_policy p = do
    p' ← validate_policy_mutation p
    created ← or_fail "creating policy" (ports.create p')
    or_fail "finalizing policy creation" (finalize_tenant_mutation p.tenant_id)
    give created

  unfoldable pub get_policy : String → String → Call S Policy
  get_policy tenant id = do
    p ← or_fail "getting policy" (ports.get_by_id tenant id)
    or_fail "validating loaded policy" (check (validate_policy p))

  unfoldable pub list_by_tenant : String → Call S (List Policy)
  list_by_tenant tenant = do
    policies ← or_fail "listing policies" (ports.list_policies tenant)
    or_fail "validating loaded policies" (check (validate_policies policies))

  unfoldable pub list_policy_versions : String → String → Call S (List PolicyVersion)
  unfolding validate_versions
  list_policy_versions tenant id = do
    versions ←
        or_fail "listing policy versions"
          (ports.list_versions tenant id max_retained_policy_versions)
    check (validate_versions tenant versions)
    give versions

  unfoldable pub update_policy : Policy → Call S Policy
  unfolding validate_policy_mutation
  update_policy p = do
    p' ← validate_policy_mutation p
    updated ← or_fail "updating policy" (ports.update p')
    or_fail "finalizing policy update" (finalize_tenant_mutation p.tenant_id)
    give updated

  -- the loop of RollbackToVersion: the first version of the number
  unfoldable pub version_scope : String → ℤ → List PolicyVersion → Call S (Unit {0})
  unfolding validate_upstream_scope
  version_scope tenant version [] = give tt
  version_scope tenant version (v ∷ vs) =
      let rest = version_scope tenant version vs in
      if eqb_ℤ v.version version then validate_upstream_scope tenant v.upstream_id v.kind else rest

  unfoldable pub rollback_to_version : String → String → ℤ → Call S Policy
  unfolding version_scope
  rollback_to_version tenant id version = do
    versions ←
        or_fail "listing policy versions for rollback"
          (ports.list_versions tenant id max_retained_policy_versions)
    or_fail "validating rolled back policy upstream" (version_scope tenant version versions)
    p ← or_fail "rolling back policy" (ports.rollback tenant id version)
    p' ← or_fail "validating rolled back policy" (check (validate_policy p))
    or_fail "finalizing policy rollback" (finalize_tenant_mutation tenant)
    give p'

  unfoldable pub refuse_enabled : Policy → Call S (Unit {0})
  refuse_enabled p =
      check (if p.enabled then err (wrap policy_delete_enabled no_message) else ok tt)

  unfoldable pub delete_policy : String → String → Bool → Call S (Unit {0})
  unfolding refuse_enabled
  delete_policy tenant id force = do
    p ← or_fail "getting policy for delete" (ports.get_by_id tenant id)
    refuse_enabled p
    or_fail "deleting policy" (ports.delete tenant id force)
    or_fail "finalizing policy delete" (finalize_tenant_mutation tenant)
