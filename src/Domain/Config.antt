-- ===== src/Domain/Config.antt =====
-- internal/core/domain/policy_config*.go: the typed configurations of the policy types. A pointer
-- field is an `Option`; the configuration itself is a pointer too, so that every constructor of
-- `PolicyConfig` carries an `Option`, and the nil interface is `none` one level up.
use Prim.Native.Char.{code}
use dependency_firewall.Base.{
  Bool, Float64, List, Option, String, [], contains, eqb, false, float_lt, if◌then◌else◌, is_empty,
  is_some, is_space, join, map, none, not, some, thousandths, to_lower, trim_space, true, ℤ, ◌++◌,
  ◌<>◌, ◌==◌, ◌||◌, ◌∷◌,
}
use dependency_firewall.Domain.Message.{
  Error, Result, err, errorf, ok, plain, require, text, ◌>>=◌, ◌>>◌,
}

pub record MinimumAgePolicyConfig : Type 0 where
  pub min_age_days : Option ℤ
  pub exclude_packages : List String
  pub dry_run : Bool

pub record MaximumAgePolicyConfig : Type 0 where
  pub max_age_days : Option ℤ
  pub exclude_packages : List String
  pub dry_run : Bool

pub record CvssThresholdPolicyConfig : Type 0 where
  pub max_cvss : Option Float64
  pub minimum_severity : Option String
  pub dry_run : Bool

pub record LicensePolicyConfig : Type 0 where
  pub licenses : List String
  pub dry_run : Bool

pub record LicenseAllowlistPolicyConfig : Type 0 where
  pub licenses : List String
  pub dry_run : Bool

pub record LicenseAllowlistPolicyConfigV2 : Type 0 where
  pub licenses : List String
  pub unlicensed_behavior : String
  pub unavailable_metadata_behavior : String
  pub dry_run : Bool

pub record BlockMutableTagPolicyConfig : Type 0 where
  pub tags : List String
  pub dry_run : Bool

pub record NamespaceListPolicyConfig : Type 0 where
  pub namespaces : List String
  pub dry_run : Bool

-- `checks` is a Go map: its order here is the order in which `range` visits it.
pub record ScorecardPolicyConfig : Type 0 where
  pub min_score : Option Float64
  pub checks : List (String × Float64)
  pub unavailable_scorecard_behavior : String
  pub dry_run : Bool

pub data PolicyConfig : Type 0 where
  minimum_age_config : Option MinimumAgePolicyConfig → PolicyConfig
  maximum_age_config : Option MaximumAgePolicyConfig → PolicyConfig
  cvss_threshold_config : Option CvssThresholdPolicyConfig → PolicyConfig
  license_config : Option LicensePolicyConfig → PolicyConfig
  license_allowlist_config : Option LicenseAllowlistPolicyConfig → PolicyConfig
  license_allowlist_config_v2 : Option LicenseAllowlistPolicyConfigV2 → PolicyConfig
  block_mutable_tag_config : Option BlockMutableTagPolicyConfig → PolicyConfig
  namespace_list_config : Option NamespaceListPolicyConfig → PolicyConfig
  scorecard_config : Option ScorecardPolicyConfig → PolicyConfig

abbrev pub behavior_deny : String
behavior_deny = "deny"

abbrev pub behavior_skip : String
behavior_skip = "skip"

abbrev missing_key : String → Error
missing_key key =
    errorf (record { format = "missing required config key %q"; args = text key ∷ [] })

-- value < 0 || value > 10, false of NaN
abbrev pub outside_ten : Float64 → Bool
outside_ten v = float_lt v (thousandths 0) || float_lt (thousandths 10000) v

abbrev pub is_severity : String → Bool
is_severity s = s == "critical" || s == "high" || s == "medium" || s == "low" || s == "none"

abbrev is_behavior : String → Bool
is_behavior s = s == "" || s == behavior_deny || s == behavior_skip

-- validateLicenseAllowlistMissingBehavior, validateScorecardUnavailableBehavior
validate_behavior : String → String → Result (Unit {0})
validate_behavior value field = require (is_behavior value) (
    errorf
      (record { format = "invalid config value for %q: %q"; args = text field ∷ text value ∷ [] }))

-- Effective...Behavior: deny when omitted
abbrev pub effective_behavior : String → String
effective_behavior value = if value == "" then behavior_deny else value

-- validateScorecardScore
validate_score : Float64 → String → Result (Unit {0})
validate_score value field = require (not (outside_ten value)) (
    errorf (record {
      format = "invalid config value for %q: must be between 0 and 10";
      args = text field ∷ [];
    }))

unfoldable pub validate_minimum_age : Option MinimumAgePolicyConfig → Result (Unit {0})
validate_minimum_age none = err (missing_key "min_age_days")
validate_minimum_age (some c) = require (is_some c.min_age_days) (missing_key "min_age_days")

unfoldable pub validate_maximum_age : Option MaximumAgePolicyConfig → Result (Unit {0})
validate_maximum_age none = err (missing_key "max_age_days")
validate_maximum_age (some c) = require (is_some c.max_age_days) (missing_key "max_age_days")

abbrev opt_all {ℓ} : {A : Type ℓ} → (A → Bool) → Option A → Bool
opt_all p none = true
opt_all p (some a) = p a

cvss_keys_missing : Error
cvss_keys_missing =
    errorf (plain "missing required config keys: max_cvss or minimum_severity are required")

unfoldable pub validate_cvss_threshold : Option CvssThresholdPolicyConfig → Result (Unit {0})
unfolding cvss_keys_missing
validate_cvss_threshold none = err cvss_keys_missing
validate_cvss_threshold (some c) = do
  require (is_some c.max_cvss || is_some c.minimum_severity) cvss_keys_missing
  require (opt_all (λ v. not (outside_ten v)) c.max_cvss)
      (errorf (plain "max_cvss must be between 0 and 10"))
  require (opt_all is_severity c.minimum_severity) (errorf (plain "invalid minimum_severity: %s"))

unfoldable pub validate_license : Option LicensePolicyConfig → Result (Unit {0})
validate_license none = err (missing_key "licenses")
validate_license (some c) = require (not (is_empty c.licenses)) (missing_key "licenses")

unfoldable pub validate_license_allowlist : Option LicenseAllowlistPolicyConfig → Result (Unit {0})
validate_license_allowlist none = err (missing_key "licenses")
validate_license_allowlist (some c) = require (not (is_empty c.licenses)) (missing_key "licenses")

unfoldable pub validate_license_allowlist_v2 :
    Option LicenseAllowlistPolicyConfigV2 → Result (Unit {0})
unfolding validate_behavior
validate_license_allowlist_v2 none = err (missing_key "licenses")
validate_license_allowlist_v2 (some c) = do
  require (not (is_empty c.licenses)) (missing_key "licenses")
  validate_behavior c.unlicensed_behavior "unlicensed_behavior"
  validate_behavior c.unavailable_metadata_behavior "unavailable_metadata_behavior"

unfoldable pub validate_block_mutable_tag : Option BlockMutableTagPolicyConfig → Result (Unit {0})
validate_block_mutable_tag none = err (missing_key "tags")
validate_block_mutable_tag (some c) = require (not (is_empty c.tags)) (missing_key "tags")

unfoldable pub validate_namespace_list : Option NamespaceListPolicyConfig → Result (Unit {0})
validate_namespace_list none = err (missing_key "namespaces")
validate_namespace_list (some c) = require (not (is_empty c.namespaces)) (missing_key "namespaces")

-- strings.NewReplacer("_", " ", "-", " ") and strings.Fields: the words between the separators
words_from : String → String → List String
words_from cur String.[] = if cur == "" then [] else cur ∷ []
words_from cur (String.◌∷◌ c s) =
    let cut = words_from "" s in
    let more = words_from (cur <> String.◌∷◌ c String.[]) s in
    if is_space c || eqb (code c) b'_' || eqb (code c) b'-'
    then (if cur == "" then cut else cur ∷ cut)
    else more

-- NormalizeScorecardCheckName
unfoldable pub normalize_check_name : String → String
unfolding words_from is_space
normalize_check_name value = join "-" (words_from "" (trim_space (to_lower value)))

-- the loop over the checks; `done` is `normalizedChecks`
normalize_checks :
    List (String × Float64) → List (String × Float64) → Result (List (String × Float64))
unfolding validate_score
normalize_checks done [] = ok done
normalize_checks done ((raw, min_score) ∷ rest) = do
  let name = normalize_check_name raw
  require (not (name == "")) (errorf (plain "scorecard check names must not be empty"))
  validate_score min_score ("checks." <> name)
  require (not (contains (map (λ e. e.0) done) name))
      (errorf (record { format = "duplicate scorecard check threshold %q"; args = text name ∷ [] }))
  normalize_checks (done ++ (name, min_score) ∷ []) rest

-- (*ScorecardPolicyConfig).Validate, which also writes the normalized names into the configuration
unfoldable pub validate_scorecard :
    Option ScorecardPolicyConfig → Result (Option ScorecardPolicyConfig)
unfolding validate_score validate_behavior normalize_checks
validate_scorecard none = err (errorf (plain "scorecard config is required"))
validate_scorecard (some c) = do
  require (is_some c.min_score || not (is_empty c.checks))
      (errorf (plain "at least one of \"min_score\" or \"checks\" is required"))
  elim c.min_score [ none ↦ ok tt | some v ↦ validate_score v "min_score" ]
  validate_behavior c.unavailable_scorecard_behavior "unavailable_scorecard_behavior"
  checks ← normalize_checks [] c.checks
  ok (some (record c { checks = checks }))

-- PolicyConfig.Validate: the configuration as the call leaves it
unfoldable pub validate : PolicyConfig → Result PolicyConfig
validate (minimum_age_config c) = do validate_minimum_age c; ok (minimum_age_config c)
validate (maximum_age_config c) = do validate_maximum_age c; ok (maximum_age_config c)
validate (cvss_threshold_config c) = do validate_cvss_threshold c; ok (cvss_threshold_config c)
validate (license_config c) = do validate_license c; ok (license_config c)
validate (license_allowlist_config c) = do
  validate_license_allowlist c
  ok (license_allowlist_config c)
validate (license_allowlist_config_v2 c) = do
  validate_license_allowlist_v2 c
  ok (license_allowlist_config_v2 c)
validate (block_mutable_tag_config c) = do
  validate_block_mutable_tag c
  ok (block_mutable_tag_config c)
validate (namespace_list_config c) = do validate_namespace_list c; ok (namespace_list_config c)
validate (scorecard_config c) = do c' ← validate_scorecard c; ok (scorecard_config c')

abbrev opt_or_false {ℓ} : {A : Type ℓ} → (A → Bool) → Option A → Bool
opt_or_false p none = false
opt_or_false p (some a) = p a

-- PolicyConfig.DryRunEnabled
unfoldable pub dry_run_enabled : PolicyConfig → Bool
dry_run_enabled (minimum_age_config c) = opt_or_false (λ c. c.dry_run) c
dry_run_enabled (maximum_age_config c) = opt_or_false (λ c. c.dry_run) c
dry_run_enabled (cvss_threshold_config c) = opt_or_false (λ c. c.dry_run) c
dry_run_enabled (license_config c) = opt_or_false (λ c. c.dry_run) c
dry_run_enabled (license_allowlist_config c) = opt_or_false (λ c. c.dry_run) c
dry_run_enabled (license_allowlist_config_v2 c) = opt_or_false (λ c. c.dry_run) c
dry_run_enabled (block_mutable_tag_config c) = opt_or_false (λ c. c.dry_run) c
dry_run_enabled (namespace_list_config c) = opt_or_false (λ c. c.dry_run) c
dry_run_enabled (scorecard_config c) = opt_or_false (λ c. c.dry_run) c
