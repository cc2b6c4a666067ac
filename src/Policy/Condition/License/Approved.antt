-- ===== src/Policy/Condition/License/Approved.antt =====
-- What the approved-license condition (internal/core/policy/condition/license.go) refuses.
use dependency_firewall.Base.{
  Bool, Bool-cases, List, Option, String, [], any, ap, arith, contains, eq_iff, false,
  if◌then◌else◌, inl, inr, is_empty, is_some, none, not, refl, some, to_lower, trim_space, ◌&&◌,
  ◌==◌, ◌∙◌, ◌∷◌, ◌≡◌,
}
use dependency_firewall.Domain.Artifact.{ArtifactIdentity, ArtifactMetadata}
use dependency_firewall.Domain.Config.{
  PolicyConfig, effective_behavior, license_allowlist_config, license_allowlist_config_v2,
  validate_license_allowlist, validate_license_allowlist_v2,
}
use dependency_firewall.Domain.Message.{Message, Result-cases, err, ok}
use dependency_firewall.Domain.Policy.{AccessRequest}
use dependency_firewall.Policy.Condition.Judged.{Judged}
use dependency_firewall.Policy.Condition.License.{
  LicenseAllowlistSettings, about, apply_missing_license_behavior, approved_licenses,
  evaluate_license_allowlist, first_license, is_unversioned_npm_metadata_request,
  license_allowlist_settings, license_key, match_license_allowlist,
}

-- whether two licenses are the same up to case and surrounding space
abbrev pub same_license : String → String → Bool
same_license a b = to_lower (trim_space a) == to_lower (trim_space b)

abbrev pub is_on_list : List String → String → Bool
is_on_list licenses l = any (λ a. same_license a l) licenses

-- An artifact without metadata is refused, unless that is skipped, and so is one without a license;
-- any other one is refused if it declares some license that is not on the list.
abbrev pub refused_licenses : List String → Bool → Bool → Option ArtifactMetadata → Bool
refused_licenses licenses skip_unlicensed skip_unavailable none = not skip_unavailable
refused_licenses licenses skip_unlicensed skip_unavailable (some m) =
    if is_empty m.licenses
    then not skip_unlicensed
    else any (λ l. not (is_on_list licenses l)) m.licenses

-- The request for the versions of an npm package is never refused.
abbrev pub is_refused : List String → Bool → Bool → AccessRequest → Bool
is_refused licenses skip_unlicensed skip_unavailable req =
    if req.artifact.ecosystem == "npm" && trim_space req.artifact.version == ""
    then false
    else refused_licenses licenses skip_unlicensed skip_unavailable req.metadata

-- The terms of a valid configuration: the list, and what is skipped. Schema 1 skips nothing.
abbrev pub terms : PolicyConfig → Option (List String × (Bool × Bool))
terms (license_allowlist_config (some c)) = elim (validate_license_allowlist (some c)) [
  | ok _ ↦ some (c.licenses, (false, false))
  | err _ ↦ none
]
terms (license_allowlist_config_v2 (some c)) = elim (validate_license_allowlist_v2 (some c)) [
  | ok _ ↦
      some
        (c.licenses, (c.unlicensed_behavior == "skip", c.unavailable_metadata_behavior == "skip"))
  | err _ ↦ none
]
terms _ = none

contains-approved_licenses :
    (licenses : List String) (l : String)
    → contains (approved_licenses licenses) (license_key l) ≡ is_on_list licenses l
unfolding approved_licenses license_key
contains-approved_licenses [] l = refl
contains-approved_licenses (a ∷ licenses) l = ground (arith, contains-approved_licenses licenses l)

is_some-first_license :
    (licenses declared : List String)
    → is_some (first_license false (approved_licenses licenses) declared)
      ≡ any (λ l. not (is_on_list licenses l)) declared
unfolding first_license
is_some-first_license licenses [] = refl
is_some-first_license licenses (l ∷ ls) =
    ground (arith, is_some-first_license licenses ls, contains-approved_licenses licenses l)

is_some-about : (format : String) (o : Option String) → is_some (about format o) ≡ is_some o
unfolding about
is_some-about format none = refl
is_some-about format (some l) = refl

is_some-missing :
    (behavior : String) (reason : Message)
    → is_some (apply_missing_license_behavior behavior reason) ≡ not (behavior == "skip")
unfolding apply_missing_license_behavior
is_some-missing behavior reason = ground arith

effective_skip :
    (behavior : String) → (effective_behavior behavior == "skip") ≡ (behavior == "skip")
effective_skip behavior = elim (Bool-cases (behavior == "")) [
  | inl e ↦ rw e (rw ((eq_iff behavior "").0 e) refl)
  | inr e ↦ rw e refl
]

is_some-match_license_allowlist :
    (s : LicenseAllowlistSettings) (a : ArtifactIdentity) (m : Option ArtifactMetadata)
    → is_some (match_license_allowlist s a m)
      ≡ refused_licenses s.licenses (s.unlicensed == "skip") (s.unavailable == "skip") m
unfolding match_license_allowlist
is_some-match_license_allowlist s a none = is_some-missing s.unavailable _
is_some-match_license_allowlist s a (some m) = elim (Bool-cases (is_empty m.licenses)) [
  | inl unlicensed ↦ rw unlicensed (is_some-missing s.unlicensed _)
  | inr licensed ↦ rw licensed (
      is_some-about "license %q is not in the approved license list" _
      ∙ is_some-first_license s.licenses m.licenses)
]

-- The settings that the code reads from a configuration with these terms.
abbrev Settled :
    Option PolicyConfig → Option (List String × (Bool × Bool)) → List String → Bool → Bool → Type 0
Settled config t licenses skip_unlicensed skip_unavailable =
    t ≡ some (licenses, (skip_unlicensed, skip_unavailable))
    → (s : LicenseAllowlistSettings) × (license_allowlist_settings config ≡ ok s)
      × (s.licenses ≡ licenses)
      × ((s.unlicensed == "skip") ≡ skip_unlicensed)
      × ((s.unavailable == "skip") ≡ skip_unavailable)

settings-terms :
    (config : PolicyConfig) (licenses : List String) (skip_unlicensed skip_unavailable : Bool)
    → Settled (some config) (terms config) licenses skip_unlicensed skip_unavailable
unfolding license_allowlist_settings
settings-terms (license_allowlist_config (some c)) licenses u a =
    elim (Result-cases (validate_license_allowlist (some c))) [
      | inr (e, failed) ↦ rw failed (λ h. cc)
      | inl (_, valid) ↦ rw valid (λ h. (
        record { licenses = c.licenses; unlicensed = "deny"; unavailable = "deny" },
        refl,
        cc,
        cc,
        cc,
      ))
    ]
settings-terms (license_allowlist_config_v2 (some c)) licenses u a =
    elim (Result-cases (validate_license_allowlist_v2 (some c))) [
      | inr (e, failed) ↦ rw failed (λ h. cc)
      | inl (_, valid) ↦ rw valid (λ h. (
        record {
          licenses = c.licenses;
          unlicensed = effective_behavior c.unlicensed_behavior;
          unavailable = effective_behavior c.unavailable_metadata_behavior;
        },
        refl,
        cc,
        effective_skip c.unlicensed_behavior ∙ cc,
        effective_skip c.unavailable_metadata_behavior ∙ cc,
      ))
    ]
settings-terms config licenses u a = λ h. cc

judged :
    (req : AccessRequest) (config : Option PolicyConfig) (licenses : List String) (u a : Bool)
    (s : LicenseAllowlistSettings)
    → license_allowlist_settings config ≡ ok s
    → s.licenses ≡ licenses
    → (s.unlicensed == "skip") ≡ u
    → (s.unavailable == "skip") ≡ a
    → Judged (evaluate_license_allowlist req config) (is_refused licenses u a req)
unfolding evaluate_license_allowlist is_unversioned_npm_metadata_request
judged req config licenses u a s settled same e f =
    elim (Bool-cases (req.artifact.ecosystem == "npm" && trim_space req.artifact.version == "")) [
      | inl bare ↦ rw bare refl
      | inr other ↦
          rw (other, settled)
            (is_some-match_license_allowlist s req.artifact req.metadata
              ∙ ap
                  (λ l.
                    refused_licenses l (s.unlicensed == "skip") (s.unavailable == "skip")
                      req.metadata)
                  same
              ∙ ap (λ b. refused_licenses licenses b (s.unavailable == "skip") req.metadata) e
              ∙ ap (λ b. refused_licenses licenses u b req.metadata) f)
    ]

-- On a valid configuration of either schema the approved-license condition reports no error. It
-- matches exactly the requests that it is to refuse: without metadata or without a license, unless
-- the configuration skips them, or with some license that is on the list in no spelling up to case
-- and surrounding space; a request for the versions of an npm package it never matches.
pub evaluate_license_allowlist-Judged :
    (req : AccessRequest) (config : PolicyConfig) (licenses : List String)
    (skip_unlicensed skip_unavailable : Bool)
    → terms config ≡ some (licenses, (skip_unlicensed, skip_unavailable))
    → Judged
        (evaluate_license_allowlist req (some config))
        (is_refused licenses skip_unlicensed skip_unavailable req)
evaluate_license_allowlist-Judged req config licenses skip_unlicensed skip_unavailable h =
    let (s, settled, same, e, f) =
      settings-terms config licenses skip_unlicensed skip_unavailable h in
    judged req (some config) licenses skip_unlicensed skip_unavailable s settled same e f
