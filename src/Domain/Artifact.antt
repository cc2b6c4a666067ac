-- ===== src/Domain/Artifact.antt =====
-- internal/core/domain/artifact.go, ecosystem.go and normalize.go: the identity of an artifact, the
-- access request's metadata, and the canonical form of an identity. A nil pointer is `none`.
pub mod Canonical
use Prim.Native.Char.{Char, code}
use dependency_firewall.Base.{
  Bool, Float64, List, Option, String, [], eqb, false, has_prefix, if◌then◌else◌, ltb, none, not,
  some, split_once, to_lower, trim, trim_space, ℤ, ◌&&◌, ◌<>◌, ◌==◌, ◌||◌, ◌∷◌,
}
use dependency_firewall.Domain.Message.{
  Error, Result, err, invalid_artifact_ref, ok, plain, text, wrap, ◌>>=◌, ◌>>◌,
}

abbrev pub ecosystem_npm : String
ecosystem_npm = "npm"

abbrev pub ecosystem_oci : String
ecosystem_oci = "oci"

pub record ArtifactIdentity : Type 0 where
  pub ecosystem : String
  pub namespace : String
  pub name : String
  pub version : String
  pub digest : String

pub record SourceRepository : Type 0 where
  pub host : String
  pub owner : String
  pub repo : String

pub record ScorecardResult : Type 0 where
  pub score : Option Float64
  pub checks : List (String × Float64)
  pub unavailable_reason : String

pub record Vulnerability : Type 0 where
  pub id : String
  pub severity : String
  pub cvss : Float64
  pub summary : String

pub record ArtifactMetadata : Type 0 where
  pub published_at : Option ℤ
  pub max_cvss : Option Float64
  pub licenses : List String
  pub vulnerabilities : List Vulnerability
  pub is_mutable_tag : Bool
  pub source_repository : Option SourceRepository
  pub scorecard : Option ScorecardResult

-- &domain.ArtifactMetadata{}
abbrev pub empty_metadata : ArtifactMetadata
empty_metadata = record {
  published_at = none;
  max_cvss = none;
  licenses = [];
  vulnerabilities = [];
  is_mutable_tag = false;
  source_repository = none;
  scorecard = none;
}

unfoldable pub project_uri : SourceRepository → String
project_uri r =
    let host = trim_space (to_lower r.host) in
    let owner = trim_space r.owner in
    let repo = trim_space r.repo in
    if host == "" || owner == "" || repo == "" then "" else host <> "/" <> owner <> "/" <> repo

unfoldable pub display_name : SourceRepository → String
display_name r =
    let owner = trim_space r.owner in
    let repo = trim_space r.repo in if owner == "" || repo == "" then "" else owner <> "/" <> repo

abbrev is_slash : Char → Bool
is_slash c = eqb (code c) b'/'

-- a.Version = ... if it looks like a digest, and "latest" where nothing else is known
oci_reference : ArtifactIdentity → ArtifactIdentity
oci_reference a =
    let moved =
      if has_prefix a.version "sha256:" || has_prefix a.version "sha512:"
      then record a { version = ""; digest = a.version }
      else a in
    if moved.version == "" && moved.digest == "" then record moved { version = "latest" } else moved

unfoldable pub normalize_oci : ArtifactIdentity → Result ArtifactIdentity
unfolding oci_reference
normalize_oci a =
    let a' = record a {
      namespace = to_lower (trim is_slash a.namespace);
      name = to_lower a.name;
    } in
    if a'.name == ""
    then err (wrap invalid_artifact_ref (plain "OCI artifact name is required"))
    else ok (oci_reference a')

invalid_scoped : String → Error
invalid_scoped name =
    wrap invalid_artifact_ref
      (record { format = "invalid scoped npm package %q"; args = text name ∷ [] })

-- strings.SplitN(a.Name, "/", 2) for a scoped name
scoped_name : ArtifactIdentity → String × Option String → Result ArtifactIdentity
unfolding invalid_scoped
scoped_name a (scope, none) = err (invalid_scoped a.name)
scoped_name a (scope, some rest) =
    if rest == ""
    then err (invalid_scoped a.name)
    else ok (record a { namespace = to_lower scope; name = to_lower rest })

split_scope : ArtifactIdentity → Result ArtifactIdentity
unfolding scoped_name
split_scope a =
    if has_prefix a.name "@"
    then scoped_name a (split_once b'/' a.name)
    else ok (record a { name = to_lower a.name })

-- what the npm command line would read as an option
reject_options : ArtifactIdentity → Result ArtifactIdentity
reject_options a =
    if a.name == ""
    then err (wrap invalid_artifact_ref (plain "npm package name is required"))
    else if has_prefix a.name "-"
    then err (
        wrap invalid_artifact_ref (record {
          format = "npm package name %q must not start with \"-\"";
          args = text a.name ∷ [];
        }))
    else if has_prefix a.version "-"
    then err (
        wrap invalid_artifact_ref (record {
          format = "npm package version %q must not start with \"-\"";
          args = text a.version ∷ [];
        }))
    else ok a

unfoldable pub normalize_npm : ArtifactIdentity → Result ArtifactIdentity
unfolding split_scope reject_options
normalize_npm a = do a' ← split_scope a; reject_options a'

unfoldable pub normalize_artifact_identity : ArtifactIdentity → Result ArtifactIdentity
normalize_artifact_identity a =
    if a.ecosystem == ecosystem_oci
    then normalize_oci a
    else if a.ecosystem == ecosystem_npm
    then normalize_npm a
    else err (
        wrap invalid_artifact_ref
          (record { format = "unsupported ecosystem %q"; args = text a.ecosystem ∷ [] }))

unfoldable pub full_name : ArtifactIdentity → String
full_name a = if a.namespace == "" then a.name else a.namespace <> "/" <> a.name

-- what stands behind the ecosystem and the full name
reference_suffix : ArtifactIdentity → String
reference_suffix a =
    if a.digest == "" then (if a.version == "" then "" else ":" <> a.version) else "@" <> a.digest

unfoldable pub cache_key : ArtifactIdentity → String
unfolding full_name reference_suffix
cache_key a = a.ecosystem <> ":" <> full_name a <> reference_suffix a

unfoldable pub is_mutable_reference : ArtifactIdentity → Bool
is_mutable_reference a = a.digest == "" && not (a.version == "")

-- whether the first character of the version is no digit
starts_unlike_digit : String → Bool
starts_unlike_digit String.[] = false
starts_unlike_digit (String.◌∷◌ c s) = ltb (code c) b'0' || ltb b'9' (code c)

unfoldable pub is_npm_dist_tag : ArtifactIdentity → Bool
unfolding starts_unlike_digit
is_npm_dist_tag a = a.ecosystem == ecosystem_npm && starts_unlike_digit a.version
