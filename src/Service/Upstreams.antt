-- ===== src/Service/Upstreams.antt =====
-- internal/core/service/upstream.go. The repositories are parameters that work on a state `S`.
pub mod Compatible
use dependency_firewall.Base.{
  Bool, List, Option, String, [], if◌then◌else◌, none, not, some, ◌<>◌, ◌==◌, ◌||◌, ◌∷◌,
}
use dependency_firewall.Domain.Artifact.{ecosystem_oci}
use dependency_firewall.Domain.Capability.{
  Upstream, UpstreamAuth, auth_configured, normalize_capabilities,
}
use dependency_firewall.Domain.Message.{
  Error, Result, err, no_message, ok, plain, upstream_auth_invalid,
  upstream_auth_transport_insecure, upstream_policy_conflict, wrap,
}
use dependency_firewall.Domain.Policy.{Policy}
use dependency_firewall.Policy.Validate.{validate_upstream_compatibility}
use dependency_firewall.Service.Calls.{Call, check, give, or_fail, ◌>>=◌, ◌>>◌}

pub record UpstreamPorts (S : Type 0) : Type 0 where
  pub create : Upstream → Call S (Unit {0})
  pub update : Upstream → Call S (Unit {0})
  pub delete : String → String → Call S (Unit {0})
  pub get_by_id : String → String → Call S Upstream
  pub list_upstreams : String → Call S (List Upstream)
  pub list_policies : Option (String → Call S (List Policy))
  pub allow_authenticated_upstreams : Bool

abbrev invalid_auth : String → Error
invalid_auth why = wrap upstream_auth_invalid (plain why)

-- the switch over the kinds of authentication
validate_credentials : Upstream → Option UpstreamAuth → Result (Unit {0})
validate_credentials u none = ok tt
validate_credentials u (some a) =
    if not (u.ecosystem == ecosystem_oci)
    then err (invalid_auth "upstream auth is only supported for OCI")
    else if a.kind == "basic"
    then (if a.username == "" || a.secret == ""
        then err (invalid_auth "basic auth requires username and password")
        else ok tt)
    else if a.kind == "bearer_token"
    then (if a.secret == "" then err (invalid_auth "bearer token auth requires token") else ok tt)
    else err (invalid_auth "unsupported auth type %q")

-- validateAuth, with WithAuthenticatedUpstreams
unfoldable pub validate_auth : Bool → Upstream → Result (Unit {0})
unfolding validate_credentials
validate_auth allowed u =
    if not (auth_configured u.auth)
    then ok tt
    else if not allowed
    then err (wrap upstream_auth_transport_insecure no_message)
    else validate_credentials u u.auth

-- the loop over the policies of the tenant
unfoldable pub check_scoped : Upstream → List Policy → Result (Unit {0})
check_scoped u [] = ok tt
check_scoped u (p ∷ ps) =
    let rest = check_scoped u ps in
    if not (p.upstream_id == u.id) then rest else elim (validate_upstream_compatibility p.kind u) [
      | ok _ ↦ rest
      | err e ↦ err (record e {
        sentinel = some upstream_policy_conflict;
        message = record e.message {
          format = "upstream %q would no longer satisfy policy %q: " <> e.message.format;
        };
      })
    ]

module _ {S : Type 0} (ports : UpstreamPorts S) where
  normalized : Upstream → Result Upstream
  normalized u = elim (normalize_capabilities u.ecosystem u.capabilities) [
    | err e ↦ err e
    | ok capabilities ↦ ok (record u { capabilities = some capabilities })
  ]

  scoped_policies : Upstream → Option (String → Call S (List Policy)) → Call S (Unit {0})
  scoped_policies u none = give tt
  scoped_policies u (some list) =
      or_fail "listing scoped policies for upstream update" (list u.tenant_id) >>= λ policies.
      check (check_scoped u policies)

  unfoldable pub validate_scoped_policies : Upstream → Call S (Unit {0})
  unfolding scoped_policies
  validate_scoped_policies u = scoped_policies u ports.list_policies

  unfoldable pub create_upstream : Upstream → Call S Upstream
  unfolding normalized
  create_upstream u = do
    u' ← check (normalized u)
    check (validate_auth ports.allow_authenticated_upstreams u')
    or_fail "creating upstream" (ports.create u')
    give u'

  unfoldable pub get_upstream : String → String → Call S Upstream
  get_upstream tenant id = or_fail "getting upstream" (ports.get_by_id tenant id)

  unfoldable pub list_upstreams_by_tenant : String → Call S (List Upstream)
  list_upstreams_by_tenant tenant = or_fail "listing upstreams" (ports.list_upstreams tenant)

  unfoldable pub update_upstream : Upstream → Call S Upstream
  unfolding normalized validate_scoped_policies
  update_upstream u = do
    u' ← check (normalized u)
    check (validate_auth ports.allow_authenticated_upstreams u')
    validate_scoped_policies u'
    or_fail "updating upstream" (ports.update u')
    give u'

  unfoldable pub delete_upstream : String → String → Call S (Unit {0})
  delete_upstream tenant id = or_fail "deleting upstream" (ports.delete tenant id)
