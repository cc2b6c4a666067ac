-- ===== src/Domain/Capability.antt =====
-- internal/core/domain/upstream.go, upstream_auth.go and upstream_capability.go: an upstream and
-- what it can supply. A nil slice is `none`, an empty one `some []`.
use dependency_firewall.Base.{
  Bool, List, Option, String, [], all, any, contains, false, if◌then◌else◌, is_empty, keep, none,
  not, some, true, ◌&&◌, ◌==◌, ◌∷◌,
}
use dependency_firewall.Domain.Artifact.{ecosystem_npm, ecosystem_oci}
use dependency_firewall.Domain.Message.{
  Result, err, ok, text, unsupported_upstream_capability, wrap,
}

abbrev pub publish_time : String
publish_time = "publish_time"

abbrev pub licenses_capability : String
licenses_capability = "licenses"

abbrev pub vulnerability_lookup : String
vulnerability_lookup = "vulnerability_lookup"

abbrev pub scorecard_lookup : String
scorecard_lookup = "scorecard_lookup"

abbrev pub manifest_digest_lookup : String
manifest_digest_lookup = "manifest_digest_lookup"

pub record UpstreamAuth : Type 0 where
  pub kind : String
  pub username : String
  pub secret : String

pub record Upstream : Type 0 where
  pub id : String
  pub tenant_id : String
  pub name : String
  pub ecosystem : String
  pub base_url : String
  pub capabilities : Option (List String)
  pub auth : Option UpstreamAuth

-- (*UpstreamAuth).Configured
unfoldable pub auth_configured : Option UpstreamAuth → Bool
auth_configured none = false
auth_configured (some a) = not (a.kind == "") && not (a.kind == "none")

abbrev same_list : List String → List String → Bool
same_list [] [] = true
same_list (x ∷ xs) (y ∷ ys) = x == y && same_list xs ys
same_list _ _ = false

-- allowedUpstreamCapabilities; an unknown ecosystem has no entry
unfoldable pub allowed_capabilities : String → List String
allowed_capabilities ecosystem =
    if ecosystem == ecosystem_npm
    then publish_time ∷ licenses_capability ∷ vulnerability_lookup ∷ scorecard_lookup ∷ []
    else if ecosystem == ecosystem_oci
    then manifest_digest_lookup ∷ []
    else []

legacy_defaults : String → List (List String)
legacy_defaults ecosystem =
    if ecosystem == ecosystem_npm
    then (publish_time ∷ licenses_capability ∷ vulnerability_lookup ∷ []) ∷ []
    else []

-- NormalizeUpstreamCapabilities
unfoldable pub normalize_capabilities : String → Option (List String) → Result (List String)
normalize_capabilities ecosystem capabilities =
    let allowed = allowed_capabilities ecosystem in
    if is_empty allowed
    then err (
        wrap unsupported_upstream_capability
          (record { format = "unknown ecosystem %q"; args = text ecosystem ∷ [] }))
    else elim capabilities [
      | none ↦ ok allowed
      | some cs ↦
          if all (contains allowed) cs
          then ok (keep (contains cs) allowed)
          else err (
              wrap unsupported_upstream_capability (record {
                format = "capability is not supported for %s upstreams";
                args = text ecosystem ∷ [];
              }))
    ]

-- EffectiveUpstreamCapabilities
unfoldable pub effective_capabilities : String → Option (List String) → List String
unfolding legacy_defaults
effective_capabilities ecosystem none = allowed_capabilities ecosystem
effective_capabilities ecosystem (some cs) =
    if any (same_list cs) (legacy_defaults ecosystem) then allowed_capabilities ecosystem else cs

-- Upstream.UpstreamSupports
unfoldable pub upstream_supports : Upstream → String → Bool
upstream_supports u capability =
    contains (effective_capabilities u.ecosystem u.capabilities) capability
