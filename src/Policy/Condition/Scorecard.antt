-- ===== src/Policy/Condition/Scorecard.antt =====
-- internal/core/policy/condition/scorecard.go. `Checks` maps are association lists.
use dependency_firewall.Base.{
  Bool, Float64, List, Option, String, [], float_lt, if◌then◌else◌, none, not, some, sort, str_lt,
  thousandths, trim_space, ◌&&◌, ◌<>◌, ◌==◌, ◌∷◌,
}
use dependency_firewall.Domain.Artifact.{
  ArtifactIdentity, ArtifactMetadata, ScorecardResult, SourceRepository, display_name, project_uri,
}
use dependency_firewall.Domain.Config.{
  PolicyConfig, ScorecardPolicyConfig, behavior_skip, effective_behavior, scorecard_config,
  validate_scorecard,
}
use dependency_firewall.Domain.Message.{Message, Result, err, errorf, float, ok, plain, text, ◌>>=◌}
use dependency_firewall.Domain.Policy.{AccessRequest}
use dependency_firewall.Policy.Condition.License.{artifact_reference}

unfoldable pub apply_unavailable_scorecard_behavior : String → Message → Option Message
apply_unavailable_scorecard_behavior behavior reason =
    if behavior == behavior_skip then none else some reason

unfoldable pub scorecard_result : Option ArtifactMetadata → Option ScorecardResult
scorecard_result none = none
scorecard_result (some m) = m.scorecard

source_repository : Option ArtifactMetadata → Option SourceRepository
source_repository none = none
source_repository (some m) = m.source_repository

scorecard_reference : Option ArtifactMetadata → ArtifactIdentity → String
unfolding source_repository
scorecard_reference metadata a = elim (source_repository metadata) [
  | none ↦ artifact_reference a
  | some r ↦
      if not (project_uri r == "")
      then project_uri r
      else if not (display_name r == "")
      then display_name r
      else artifact_reference a
]

scorecard_unavailable_note : Option ScorecardResult → String
scorecard_unavailable_note none = ""
scorecard_unavailable_note (some s) = trim_space s.unavailable_reason

unfoldable pub scorecard_unavailable_reason : AccessRequest → String → Message
unfolding scorecard_reference scorecard_unavailable_note
scorecard_unavailable_reason req detail =
    let ref = scorecard_reference req.metadata req.artifact in
    let note = scorecard_unavailable_note (scorecard_result req.metadata) in
    if not (note == "")
    then record { format = "%s and Scorecard policy denies the artifact"; args = text note ∷ [] }
    else if not (detail == "") && not (ref == "")
    then record {
      format = "%s for %s and Scorecard policy denies the artifact";
      args = text detail ∷ text ref ∷ [];
    }
    else if not (detail == "")
    then record { format = "%s and Scorecard policy denies the artifact"; args = text detail ∷ [] }
    else if not (ref == "")
    then record {
      format = "Scorecard data is unavailable for %s and Scorecard policy denies the artifact";
      args = text ref ∷ [];
    }
    else plain "Scorecard data is unavailable and Scorecard policy denies the artifact"

unfoldable pub lookup_check : String → List (String × Float64) → Option Float64
lookup_check name [] = none
lookup_check name ((n, v) ∷ rest) = if n == name then some v else lookup_check name rest

-- What one check says: nothing, or the end of the loop with a result.
pub data CheckResult : Type 0 where
  passed : CheckResult
  ended : Option Message → CheckResult

module _ (behavior : String) (req : AccessRequest) (actual : List (String × Float64)) where
  check_unavailable : String → CheckResult
  check_unavailable name = ended (
      apply_unavailable_scorecard_behavior behavior
        (scorecard_unavailable_reason req ("Scorecard check \"" <> name <> "\" is unavailable")))

  unfoldable pub match_check : String × Float64 → CheckResult
  unfolding check_unavailable
  match_check (name, min_score) = elim (lookup_check name actual) [
    | none ↦ check_unavailable name
    | some score ↦
        if float_lt score (thousandths 0)
        then check_unavailable name
        else if float_lt score min_score
        then ended (
            some (record {
              format = "source repository Scorecard check %q scored %.1f below minimum %.1f";
              args = text name ∷ float score ∷ float min_score ∷ [];
            }))
        else passed
  ]

  unfoldable pub match_checks : List (String × Float64) → Option Message
  match_checks [] = none
  match_checks (c ∷ cs) =
      let rest = match_checks cs in elim (match_check c) [ passed ↦ rest | ended result ↦ result ]

-- sort.Strings over the keys of the map, which are distinct
by_check_name : String × Float64 → String × Float64 → Bool
by_check_name (m, _) (n, _) = str_lt m n

-- the test of the overall score
unfoldable pub match_overall : ScorecardPolicyConfig → AccessRequest → ScorecardResult → CheckResult
match_overall c req s = elim c.min_score [
  | none ↦ passed
  | some min_score ↦ elim s.score [
    | none ↦ ended (
        apply_unavailable_scorecard_behavior (effective_behavior c.unavailable_scorecard_behavior)
          (scorecard_unavailable_reason req "overall Scorecard is unavailable"))
    | some score ↦
        if float_lt score min_score
        then ended (
            some (record {
              format = "source repository Scorecard %.1f is below minimum %.1f";
              args = float score ∷ float min_score ∷ [];
            }))
        else passed
  ]
]

unfoldable pub match_scorecard : ScorecardPolicyConfig → AccessRequest → Option Message
unfolding by_check_name
match_scorecard c req = elim (scorecard_result req.metadata) [
  | none ↦
      apply_unavailable_scorecard_behavior (effective_behavior c.unavailable_scorecard_behavior)
        (scorecard_unavailable_reason req "")
  | some s ↦ elim (match_overall c req s) [
    | ended result ↦ result
    | passed ↦
        match_checks (effective_behavior c.unavailable_scorecard_behavior) req s.checks
          (sort by_check_name c.checks)
  ]
]

unfoldable pub evaluate_scorecard : AccessRequest → Option PolicyConfig → Result (Option Message)
evaluate_scorecard req (some (scorecard_config config)) = do
  validated ← validate_scorecard config
  elim validated [ none ↦ ok none | some c ↦ ok (match_scorecard c req) ]
evaluate_scorecard req _ = err (errorf (plain "scorecard requires %T, got %T"))
