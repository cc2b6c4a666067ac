-- ===== src/Policy/Tests.antt =====
-- Inputs for the theorems about internal/core/policy.
use mathlib.Core.List.Perm
use dependency_firewall.Base.{
  Bool, List, Option, String, [], false, if◌then◌else◌, is_empty, none, pos, refl, some, sort,
  thousandths, to_lower, trim_space, true, ℤ, ◌==◌, ◌∷◌, ◌≡◌,
}
use dependency_firewall.Domain.Artifact.{ArtifactIdentity, ArtifactMetadata, empty_metadata}
use dependency_firewall.Domain.Capability.{Upstream}
use dependency_firewall.Domain.Config.{
  CvssThresholdPolicyConfig, PolicyConfig, cvss_threshold_config, dry_run_enabled,
  license_allowlist_config_v2, namespace_list_config, validate_cvss_threshold,
  validate_license_allowlist_v2, validate_namespace_list,
}
use dependency_firewall.Domain.Message.{Message, plain, text}
use dependency_firewall.Domain.Policy.{
  AccessRequest, Decision, EvaluationReason, Policy, allow, deny,
}
use dependency_firewall.Policy.Catalog.{condition_for_type, policy_definition_for}
use dependency_firewall.Policy.Condition.Cvss.{
  evaluate_cvss_threshold, normalize_severity, severity_at_or_above, severity_from_cvss,
  severity_rank,
}
use dependency_firewall.Policy.Condition.Cvss.Monotone.{severity_from_cvss_mono}
use dependency_firewall.Policy.Condition.Cvss.Reached.{evaluate_cvss_threshold-Judged, is_reached}
use dependency_firewall.Policy.Condition.Judged.{Judged}
use dependency_firewall.Policy.Condition.License.{evaluate_license_allowlist}
use dependency_firewall.Policy.Condition.License.Approved.{
  evaluate_license_allowlist-Judged, is_on_list, is_refused,
}
use dependency_firewall.Policy.Condition.NamespaceList.{
  evaluate_allowlist, evaluate_blocklist, evaluate_namespace_allowlist,
}
use dependency_firewall.Policy.Condition.NamespaceList.Complement.{
  matches, matches-evaluate_allowlist, negated,
}
use dependency_firewall.Policy.Evaluator.{
  decision, evaluate, evaluate_policy, filter_enabled, first_deny_policy_id, is_warn_mode,
  no_match_reason, policy_less, target_evaluation_mode,
}
use dependency_firewall.Policy.Evaluator.Attribution.{
  evaluate_default, has_reason, policy_id-names_dry_run,
}
use dependency_firewall.Policy.Evaluator.Outcome.{
  outcome-evaluate, outcome-perm, reason-evaluate_denied, reasons-evaluate,
}
use dependency_firewall.Policy.Evaluator.Spec.{
  all_reasons, effect, enforces, first_enforced, run_condition,
}

abbrev hash : String → String
hash s = s

abbrev lodash : ArtifactIdentity
lodash = record {
  ecosystem = "npm";
  namespace = "";
  name = "lodash";
  version = "4.17.21";
  digest = "";
}

abbrev registry : Upstream
registry = record {
  id = "u1";
  tenant_id = "t1";
  name = "npm";
  ecosystem = "npm";
  base_url = "https://registry.npmjs.org";
  capabilities = none;
  auth = none;
}

abbrev request : AccessRequest
request = record {
  tenant_id = "t1";
  request_id = "r1";
  kind = "";
  artifact = lodash;
  upstream = registry;
  metadata = none;
  dependency_context = none;
}

abbrev namespace_policy : String → String → String → ℤ → Bool → Policy
namespace_policy id kind namespace priority dry = record {
  id = id;
  tenant_id = "t1";
  upstream_id = "";
  name = id;
  kind = kind;
  action = if kind == "allowlist" then "allow" else "deny";
  schema_version = pos 1;
  config =
      some (namespace_list_config (some (record { namespaces = namespace ∷ []; dry_run = dry })));
  target = none;
  priority = priority;
  enabled = true;
}

-- an allow, a dry-run deny and a deny that match
abbrev p_allow : Policy
p_allow = namespace_policy "a" "allowlist" "" (pos 9) false

abbrev p_dry : Policy
p_dry = namespace_policy "d" "blocklist" "" (pos 1) true

abbrev p_deny : Policy
p_deny = namespace_policy "z" "namespace_allowlist" "x" (pos 5) false

abbrev blocked : Message
blocked = record { format = "namespace %q is blocked"; args = text "" ∷ [] }

-- a name for all that an evaluation of these policies runs through
run : List Policy → Decision
unfolding evaluate target_evaluation_mode condition_for_type evaluate_policy decision sort
    filter_enabled policy_less policy_definition_for evaluate_allowlist evaluate_namespace_allowlist
    evaluate_blocklist validate_namespace_list is_warn_mode dry_run_enabled first_deny_policy_id
    effect enforces all_reasons first_enforced run_condition has_reason
run ps = evaluate hash (pos 0) request ps

abbrev policies : List Policy
policies = p_deny ∷ p_dry ∷ p_allow ∷ []

evaluate_deny : ((run policies).outcome ≡ deny) × ((run policies).policy_id ≡ "d")
unfolding run
evaluate_deny = (refl, refl)

outcome-evaluate_example : (evaluate hash (pos 0) request policies).outcome ≡ deny
unfolding run
outcome-evaluate_example = outcome-evaluate hash (pos 0) request policies

outcome-perm_example :
    (evaluate hash (pos 0) request (p_deny ∷ p_dry ∷ [])).outcome
    ≡ (evaluate hash (pos 0) request (p_dry ∷ p_deny ∷ [])).outcome
outcome-perm_example =
    outcome-perm hash (pos 0) request (p_deny ∷ p_dry ∷ []) (p_dry ∷ p_deny ∷ [])
      (Perm.swap p_dry p_deny [])

reasons-evaluate_example : (evaluate hash (pos 0) request policies).reasons ≡ (
    let rs = all_reasons hash (pos 0) request (sort policy_less (filter_enabled policies)) in
    if is_empty rs then no_match_reason ∷ [] else rs)
reasons-evaluate_example = reasons-evaluate hash (pos 0) request policies

reason-evaluate_denied_example :
    (r : EvaluationReason) × (first_enforced hash
        (pos 0)
        request
        (sort policy_less (filter_enabled policies))
      ≡ some r)
    × ((evaluate hash (pos 0) request policies).reason ≡ r.message)
unfolding run
reason-evaluate_denied_example = reason-evaluate_denied hash (pos 0) request policies refl

evaluate_default_example :
    ((evaluate hash (pos 0) request []).outcome ≡ allow)
    × ((evaluate hash (pos 0) request []).reasons ≡ no_match_reason ∷ [])
    × ((evaluate hash (pos 0) request []).policy_id ≡ "")
    × ((evaluate hash (pos 0) request []).reason ≡ plain "no matching policy")
evaluate_default_example = evaluate_default hash (pos 0) request [] refl

policy_id-names_dry_run_example :
    ((evaluate hash (pos 0) request policies).outcome ≡ deny)
    × ((evaluate hash (pos 0) request policies).policy_id ≡ "d")
    × (enforces hash (pos 0) request p_dry ≡ false)
unfolding run
policy_id-names_dry_run_example =
    policy_id-names_dry_run hash (pos 0) request policies p_dry (p_deny ∷ p_allow ∷ []) blocked refl
      refl refl refl refl refl

-- the list of the namespace conditions, as a configuration
abbrev x_only : Option PolicyConfig
x_only = some (namespace_list_config (some (record { namespaces = "x" ∷ []; dry_run = false })))

matches-evaluate_allowlist_example :
    (matches (evaluate_namespace_allowlist request x_only)
      ≡ negated (matches (evaluate_allowlist request x_only)))
    × (matches (evaluate_blocklist request x_only) ≡ matches (evaluate_allowlist request x_only))
matches-evaluate_allowlist_example = matches-evaluate_allowlist request x_only

abbrev vulnerable : ArtifactMetadata
vulnerable = record empty_metadata {
  max_cvss = some (thousandths 7500);
  licenses = "GPL-3.0" ∷ [];
  vulnerabilities = record { id = "v1"; severity = ""; cvss = thousandths 7500; summary = "" } ∷ [];
}

abbrev high_severity : CvssThresholdPolicyConfig
high_severity = record {
  max_cvss = some (thousandths 9000);
  minimum_severity = some "high";
  dry_run = false;
}

abbrev mit_only : PolicyConfig
mit_only = license_allowlist_config_v2 (
    some (record {
      licenses = " MIT " ∷ [];
      unlicensed_behavior = "";
      unavailable_metadata_behavior = "skip";
      dry_run = false;
    }))

abbrev licensed_gpl : AccessRequest
licensed_gpl = record request { metadata = some vulnerable }

evaluate_license_allowlist-Judged_example :
    Judged
      (evaluate_license_allowlist licensed_gpl (some mit_only))
      (is_refused (" MIT " ∷ []) false true licensed_gpl)
unfolding validate_license_allowlist_v2
evaluate_license_allowlist-Judged_example =
    evaluate_license_allowlist-Judged licensed_gpl mit_only (" MIT " ∷ []) false true refl

-- The license "GPL-3.0" is refused, and "mit" is not.
test-is_refused :
    (is_refused (" MIT " ∷ []) false true licensed_gpl ≡ true)
    × (is_on_list (" MIT " ∷ []) "mit" ≡ true)
unfolding to_lower trim_space
test-is_refused = (refl, refl)

evaluate_cvss_threshold-Judged_example :
    Judged
      (evaluate_cvss_threshold licensed_gpl (some (cvss_threshold_config (some high_severity))))
      (is_reached high_severity (some vulnerable))
unfolding validate_cvss_threshold to_lower trim_space
evaluate_cvss_threshold-Judged_example =
    evaluate_cvss_threshold-Judged licensed_gpl high_severity refl

-- The score is below its threshold, and the severity that it implies is high enough.
test-is_reached : is_reached high_severity (some vulnerable) ≡ true
unfolding to_lower trim_space
test-is_reached = refl

severity_from_cvss_mono_example :
    severity_at_or_above (severity_from_cvss (thousandths 9800)) "high" ≡ true
unfolding severity_at_or_above severity_rank normalize_severity severity_from_cvss to_lower
    trim_space
severity_from_cvss_mono_example =
    severity_from_cvss_mono (thousandths 7500) (thousandths 9800) "high" refl refl
