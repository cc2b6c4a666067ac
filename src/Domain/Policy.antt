-- ===== src/Domain/Policy.antt =====
-- internal/core/domain/policy.go, decision.go and the request of artifact.go. Types that are
-- strings in the source are strings here, with the source's constants.
use dependency_firewall.Base.{Bool, List, Option, String, ℤ}
use dependency_firewall.Domain.Artifact.{ArtifactIdentity, ArtifactMetadata}
use dependency_firewall.Domain.Capability.{Upstream}
use dependency_firewall.Domain.Config.{PolicyConfig}
use dependency_firewall.Domain.Dependency.{DependencyContext, PolicyTarget}
use dependency_firewall.Domain.Message.{Message}

abbrev pub action_allow : String
action_allow = "allow"

abbrev pub action_deny : String
action_deny = "deny"

abbrev pub cvss_threshold : String
cvss_threshold = "cvss_threshold"

abbrev pub minimum_age : String
minimum_age = "minimum_age"

abbrev pub maximum_age : String
maximum_age = "maximum_age"

abbrev pub block_mutable_tag : String
block_mutable_tag = "block_mutable_tag"

abbrev pub scorecard_type : String
scorecard_type = "scorecard"

abbrev pub license : String
license = "license"

abbrev pub license_allowlist : String
license_allowlist = "license_allowlist"

abbrev pub allowlist : String
allowlist = "allowlist"

abbrev pub namespace_allowlist : String
namespace_allowlist = "namespace_allowlist"

abbrev pub blocklist : String
blocklist = "blocklist"

pub record Policy : Type 0 where
  pub id : String
  pub tenant_id : String
  pub upstream_id : String
  pub name : String
  pub kind : String
  pub action : String
  pub schema_version : ℤ
  pub config : Option PolicyConfig
  pub target : Option PolicyTarget
  pub priority : ℤ
  pub enabled : Bool

-- Times are nanoseconds.
pub record AccessRequest : Type 0 where
  pub tenant_id : String
  pub request_id : String
  pub kind : String
  pub artifact : ArtifactIdentity
  pub upstream : Upstream
  pub metadata : Option ArtifactMetadata
  pub dependency_context : Option DependencyContext

pub data DecisionOutcome : Type 0 where
  allow deny : DecisionOutcome

pub data ReasonCategory : Type 0 where
  policy_match policy_warning no_matching_policy evaluation_error : ReasonCategory
  enrichment_failure_category cached_category : ReasonCategory

pub record EvaluationReason : Type 0 where
  pub policy_id : String
  pub policy_name : String
  pub category : ReasonCategory
  pub action : String
  pub message : Message

-- A warning is the text "[%s] %s" of a policy's name and a reason.
pub record Decision : Type 0 where
  pub id : String
  pub tenant_id : String
  pub artifact : ArtifactIdentity
  pub outcome : DecisionOutcome
  pub policy_id : String
  pub policy_hash : String
  pub dependency_context : Option DependencyContext
  pub reason : Message
  pub reasons : List EvaluationReason
  pub warnings : List (String × Message)
  pub cached_at : Option ℤ
  pub evaluated_at : ℤ
