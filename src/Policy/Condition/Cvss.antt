-- ===== src/Policy/Condition/Cvss.antt =====
-- internal/core/policy/condition/cvss.go. A severity is a text; its rank is `none` where the
-- source returns false.
pub mod Reached
pub mod Monotone
use dependency_firewall.Base.{
  Bool, Float64, List, Option, String, [], false, float_le, float_lt, if◌then◌else◌, is_some, leb,
  none, not, some, thousandths, to_lower, trim_space, ℕ, ◌&&◌, ◌==◌, ◌∷◌,
}
use dependency_firewall.Domain.Artifact.{ArtifactMetadata, Vulnerability}
use dependency_firewall.Domain.Config.{
  CvssThresholdPolicyConfig, PolicyConfig, cvss_threshold_config, validate_cvss_threshold,
}
use dependency_firewall.Domain.Message.{
  Message, Result, err, errorf, float, ok, plain, text, ◌>>=◌, ◌>>◌,
}
use dependency_firewall.Domain.Policy.{AccessRequest}

severity_rank_without_normalization : String → Option ℕ
severity_rank_without_normalization severity =
    if severity == "none"
    then some 0
    else if severity == "low"
    then some 1
    else if severity == "medium"
    then some 2
    else if severity == "high"
    then some 3
    else if severity == "critical"
    then some 4
    else none

unfoldable pub normalize_severity : String → String
unfolding severity_rank_without_normalization
normalize_severity severity =
    let normalized = to_lower (trim_space severity) in
    if is_some (severity_rank_without_normalization normalized) then normalized else ""

unfoldable pub severity_rank : String → Option ℕ
unfolding severity_rank_without_normalization
severity_rank severity = severity_rank_without_normalization (normalize_severity severity)

unfoldable pub severity_at_or_above : String → String → Bool
severity_at_or_above actual threshold = elim (severity_rank actual) [
  | none ↦ false
  | some a ↦ elim (severity_rank threshold) [ none ↦ false | some t ↦ leb t a ]
]

unfoldable pub severity_from_cvss : Float64 → String
severity_from_cvss score =
    if float_le (thousandths 9000) score
    then "critical"
    else if float_le (thousandths 7000) score
    then "high"
    else if float_le (thousandths 4000) score
    then "medium"
    else if float_lt (thousandths 0) score
    then "low"
    else ""

-- the severity of a vulnerability: the one that it states, or else the one of its score
unfoldable pub vulnerability_severity : Vulnerability → String
vulnerability_severity v =
    let stated = normalize_severity v.severity in
    if stated == "" then severity_from_cvss v.cvss else stated

severity_message : String → Vulnerability → Message
severity_message threshold v =
    let actual = vulnerability_severity v in
    if normalize_severity v.severity == "" && not (actual == "")
    then record {
      format =
          "artifact has vulnerability with inferred severity %s (CVSS %.1f) at or above threshold %s";
      args = text actual ∷ float v.cvss ∷ text threshold ∷ [];
    }
    else record {
      format = "artifact has vulnerability with severity %s at or above threshold %s";
      args = text actual ∷ text threshold ∷ [];
    }

-- the loop over the vulnerabilities
unfoldable pub match_severity : String → List Vulnerability → Option Message
unfolding severity_message
match_severity threshold [] = none
match_severity threshold (v ∷ vs) =
    let rest = match_severity threshold vs in
    if severity_at_or_above (vulnerability_severity v) threshold
    then some (severity_message threshold v)
    else rest

-- the test of the score
unfoldable pub match_score : Option Float64 → Option Float64 → Option Message
match_score (some threshold) (some score) =
    if float_le threshold score
    then some (record {
      format = "artifact has CVSS score %.1f at or above threshold %.1f";
      args = float score ∷ float threshold ∷ [];
    })
    else none
match_score _ _ = none

unfoldable pub match_cvss : CvssThresholdPolicyConfig → Option ArtifactMetadata → Option Message
match_cvss c none = none
match_cvss c (some m) = elim (match_score c.max_cvss m.max_cvss) [
  | some reason ↦ some reason
  | none ↦ elim c.minimum_severity [
    | none ↦ none
    | some severity ↦ match_severity (normalize_severity severity) m.vulnerabilities
  ]
]

unfoldable pub evaluate_cvss_threshold :
    AccessRequest → Option PolicyConfig → Result (Option Message)
evaluate_cvss_threshold req (some (cvss_threshold_config none)) = do
  validate_cvss_threshold none
  ok none
evaluate_cvss_threshold req (some (cvss_threshold_config (some c))) = do
  validate_cvss_threshold (some c)
  ok (match_cvss c req.metadata)
evaluate_cvss_threshold req _ = err (errorf (plain "cvss_threshold requires %T, got %T"))
