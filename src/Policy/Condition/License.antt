-- ===== src/Policy/Condition/License.antt =====
-- internal/core/policy/condition/license.go
pub mod Approved
use dependency_firewall.Base.{
  Bool, List, Option, String, [], contains, false, if◌then◌else◌, is_empty, map, none, not, some,
  to_lower, trim_space, true, ◌&&◌, ◌<>◌, ◌==◌, ◌∷◌,
}
use dependency_firewall.Domain.Artifact.{
  ArtifactIdentity, ArtifactMetadata, ecosystem_npm, full_name,
}
use dependency_firewall.Domain.Config.{
  PolicyConfig, behavior_deny, behavior_skip, effective_behavior, license_allowlist_config,
  license_allowlist_config_v2, license_config, validate_license, validate_license_allowlist,
  validate_license_allowlist_v2,
}
use dependency_firewall.Domain.Message.{Message, Result, err, errorf, ok, plain, text, ◌>>=◌, ◌>>◌}
use dependency_firewall.Domain.Policy.{AccessRequest}

unfoldable pub license_key : String → String
license_key value = to_lower (trim_space value)

-- The keys of the map `approvedLicenses(licenses)`.
unfoldable pub approved_licenses : List String → List String
approved_licenses licenses = map license_key licenses

-- the first license whose membership in `allowed` is `wanted`
first_license : Bool → List String → List String → Option String
first_license wanted allowed [] = none
first_license wanted allowed (l ∷ ls) =
    let rest = first_license wanted allowed ls in
    let approved = contains allowed (license_key l) in
    if (if wanted then approved else not approved) then some l else rest

about : String → Option String → Option Message
about format none = none
about format (some l) = some (record { format = format; args = text l ∷ [] })

unfoldable pub match_license : List String → Option ArtifactMetadata → Option Message
unfolding first_license about
match_license licenses none = none
match_license licenses (some m) =
    about "license %q matched policy" (first_license true (approved_licenses licenses) m.licenses)

unfoldable pub evaluate_license : AccessRequest → Option PolicyConfig → Result (Option Message)
evaluate_license req (some (license_config none)) = do validate_license none; ok none
evaluate_license req (some (license_config (some c))) = do
  validate_license (some c)
  ok (match_license c.licenses req.metadata)
evaluate_license req _ = err (errorf (plain "license requires %T, got %T"))

unfoldable pub is_unversioned_npm_metadata_request : AccessRequest → Bool
is_unversioned_npm_metadata_request req =
    req.artifact.ecosystem == ecosystem_npm && trim_space req.artifact.version == ""

pub record LicenseAllowlistSettings : Type 0 where
  pub licenses : List String
  pub unlicensed : String
  pub unavailable : String

unfoldable pub license_allowlist_settings : Option PolicyConfig → Result LicenseAllowlistSettings
license_allowlist_settings (some (license_allowlist_config (some c))) = do
  validate_license_allowlist (some c)
  ok (record { licenses = c.licenses; unlicensed = behavior_deny; unavailable = behavior_deny })
license_allowlist_settings (some (license_allowlist_config none)) = do
  validate_license_allowlist none
  ok (record { licenses = []; unlicensed = behavior_deny; unavailable = behavior_deny })
license_allowlist_settings (some (license_allowlist_config_v2 (some c))) = do
  validate_license_allowlist_v2 (some c)
  ok (record {
    licenses = c.licenses;
    unlicensed = effective_behavior c.unlicensed_behavior;
    unavailable = effective_behavior c.unavailable_metadata_behavior;
  })
license_allowlist_settings (some (license_allowlist_config_v2 none)) = do
  validate_license_allowlist_v2 none
  ok (record { licenses = []; unlicensed = behavior_deny; unavailable = behavior_deny })
license_allowlist_settings _ = err (errorf (plain "license_allowlist requires %T or %T, got %T"))

unfoldable pub apply_missing_license_behavior : String → Message → Option Message
apply_missing_license_behavior behavior reason =
    if behavior == behavior_skip then none else some reason

-- artifactLicenseReference, and the end of scorecardReference
unfoldable pub artifact_reference : ArtifactIdentity → String
artifact_reference a =
    if not (trim_space a.digest == "")
    then full_name a <> "@" <> trim_space a.digest
    else if not (trim_space a.version == "")
    then full_name a <> "@" <> trim_space a.version
    else full_name a

license_metadata_unavailable_reason : ArtifactIdentity → Message
license_metadata_unavailable_reason a =
    let ref = artifact_reference a in
    if ref == ""
    then plain "license metadata is unavailable and approved-license policy denies the artifact"
    else record {
      format =
          "license metadata is unavailable for %s and approved-license policy denies the artifact";
      args = text ref ∷ [];
    }

unlicensed_artifact_reason : ArtifactIdentity → Message
unlicensed_artifact_reason a =
    let ref = artifact_reference a in
    if ref == ""
    then plain "artifact does not declare a license and approved-license policy denies the artifact"
    else record {
      format =
          "artifact %s does not declare a license and approved-license policy denies the artifact";
      args = text ref ∷ [];
    }

-- the part that looks at the metadata
unfoldable pub match_license_allowlist :
    LicenseAllowlistSettings → ArtifactIdentity → Option ArtifactMetadata → Option Message
unfolding first_license about license_metadata_unavailable_reason unlicensed_artifact_reason
match_license_allowlist s a none =
    apply_missing_license_behavior s.unavailable (license_metadata_unavailable_reason a)
match_license_allowlist s a (some m) =
    if is_empty m.licenses
    then apply_missing_license_behavior s.unlicensed (unlicensed_artifact_reason a)
    else about "license %q is not in the approved license list"
        (first_license false (approved_licenses s.licenses) m.licenses)

unfoldable pub evaluate_license_allowlist :
    AccessRequest → Option PolicyConfig → Result (Option Message)
evaluate_license_allowlist req config =
    if is_unversioned_npm_metadata_request req then ok none else do
      s ← license_allowlist_settings config
      ok (match_license_allowlist s req.artifact req.metadata)
