-- ===== src/Policy/Condition/Age.antt =====
-- internal/core/policy/condition/age.go. The age in days is a float64 that is compared with an
-- integer; here nanoseconds are compared with days of 86400 * 10^9 of them, so that the
-- rounding of the division is left out. `now` is the reading of the clock.
use dependency_firewall.Base.{
  Bool, List, Option, String, [], contains, floor_div, if◌then◌else◌, ltb_ℤ, none, scale, some, ℕ,
  ℤ, ◌*◌, ◌-ℤ◌, ◌∷◌,
}
use dependency_firewall.Domain.Artifact.{full_name}
use dependency_firewall.Domain.Config.{
  PolicyConfig, maximum_age_config, minimum_age_config, validate_maximum_age, validate_minimum_age,
}
use dependency_firewall.Domain.Message.{Error, Message, Result, err, errorf, int, ok, plain, ◌>>◌}
use dependency_firewall.Domain.Policy.{AccessRequest}

abbrev day : ℕ
day = 86400 * 1000000000

abbrev pub config_error : String → Error
config_error format = errorf (plain format)

unfoldable pub is_excluded_package : String → List String → Bool
is_excluded_package full excluded = contains excluded full

-- ageDays < float64(thresholdDays)
unfoldable pub is_younger_than : ℤ → ℤ → Bool
is_younger_than age threshold = ltb_ℤ age (scale threshold day)

-- ageDays > float64(thresholdDays)
unfoldable pub is_older_than : ℤ → ℤ → Bool
is_older_than age threshold = ltb_ℤ (scale threshold day) age

published_at : AccessRequest → Option ℤ
published_at req = elim req.metadata [ none ↦ none | some m ↦ m.published_at ]

unfoldable pub evaluate_age :
    ℤ → AccessRequest → List String → ℤ → (ℤ → ℤ → Bool) → String → Option Message
unfolding published_at
evaluate_age now req excluded threshold matches format =
    if is_excluded_package (full_name req.artifact) excluded
    then none
    else elim (published_at req) [
      | none ↦ none
      | some published ↦
          let age = now -ℤ published in
          if matches age threshold
          then some
              (record { format = format; args = int (floor_div age day) ∷ int threshold ∷ [] })
          else none
    ]

unfoldable pub evaluate_minimum_age :
    ℤ → AccessRequest → Option PolicyConfig → Result (Option Message)
evaluate_minimum_age now req (some (minimum_age_config none)) = do
  validate_minimum_age none
  ok none
evaluate_minimum_age now req (some (minimum_age_config (some c))) = do
  validate_minimum_age (some c)
  elim c.min_age_days [
    | none ↦ ok none
    | some days ↦ ok (
        evaluate_age now req c.exclude_packages days is_younger_than
          "artifact published %d days ago, minimum required is %d days")
  ]
evaluate_minimum_age now req _ = err (config_error "minimum_age requires %T, got %T")

unfoldable pub evaluate_maximum_age :
    ℤ → AccessRequest → Option PolicyConfig → Result (Option Message)
evaluate_maximum_age now req (some (maximum_age_config none)) = do
  validate_maximum_age none
  ok none
evaluate_maximum_age now req (some (maximum_age_config (some c))) = do
  validate_maximum_age (some c)
  elim c.max_age_days [
    | none ↦ ok none
    | some days ↦ ok (
        evaluate_age now req c.exclude_packages days is_older_than
          "artifact published %d days ago, maximum allowed is %d days")
  ]
evaluate_maximum_age now req _ = err (config_error "maximum_age requires %T, got %T")
