-- ===== src/Policy/Condition/Cvss/Monotone.antt =====
-- The severity that is inferred from a score (internal/core/policy/condition/cvss.go).
use dependency_firewall.Base.{
  Bool, Float64, Option, String, ap, arith, false, float_le, float_lt, if◌then◌else◌, leb, none,
  refl, some, sym, thousandths, to_lower, trim_space, true, ℕ, ◌∙◌, ◌≡◌,
}
use dependency_firewall.Policy.Condition.Cvss.{
  normalize_severity, severity_at_or_above, severity_from_cvss, severity_rank,
  severity_rank_without_normalization,
}

-- the rank of the severity of a score
abbrev pub score_rank : Float64 → Option ℕ
score_rank x =
    if float_le (thousandths 9000) x
    then some 4
    else if float_le (thousandths 7000) x
    then some 3
    else if float_le (thousandths 4000) x
    then some 2
    else if float_lt (thousandths 0) x
    then some 1
    else none

ranks :
    (severity_rank "critical" ≡ some 4)
    × (severity_rank "high" ≡ some 3)
    × (severity_rank "medium" ≡ some 2)
    × (severity_rank "low" ≡ some 1)
    × (severity_rank "" ≡ none)
unfolding severity_rank normalize_severity severity_rank_without_normalization to_lower trim_space
ranks = (refl, refl, refl, refl, refl)

pub severity_rank-severity_from_cvss :
    (x : Float64) → severity_rank (severity_from_cvss x) ≡ score_rank x
unfolding severity_from_cvss
severity_rank-severity_from_cvss x =
    let (critical, high, medium, low, unknown) = ranks in
    ground (arith, critical, high, medium, low, unknown)

-- whether both ranks are there and the first is not below the second
abbrev pub reaches : Option ℕ → Option ℕ → Bool
reaches none t = false
reaches (some a) none = false
reaches (some a) (some t) = leb t a

pub severity_at_or_above-eq :
    (actual threshold : String)
    → severity_at_or_above actual threshold
      ≡ reaches (severity_rank actual) (severity_rank threshold)
unfolding severity_at_or_above
severity_at_or_above-eq actual threshold = ground arith

reaches-score_rank :
    (x y : Float64) (t : Option ℕ)
    → float_le x y ≡ true
    → reaches (score_rank x) t ≡ true
    → reaches (score_rank y) t ≡ true
reaches-score_rank x y t le h = ground arith

-- If the severity that is inferred from a score reaches a threshold, then the one that is inferred
-- from a score that is not lower does too.
pub severity_from_cvss_mono :
    (x y : Float64) (threshold : String)
    → float_le x y ≡ true
    → severity_at_or_above (severity_from_cvss x) threshold ≡ true
    → severity_at_or_above (severity_from_cvss y) threshold ≡ true
severity_from_cvss_mono x y threshold le h =
    severity_at_or_above-eq (severity_from_cvss y) threshold
    ∙ ap (λ r. reaches r (severity_rank threshold)) (severity_rank-severity_from_cvss y)
    ∙ reaches-score_rank x y (severity_rank threshold) le (
        sym (ap (λ r. reaches r (severity_rank threshold)) (severity_rank-severity_from_cvss x))
        ∙ sym (severity_at_or_above-eq (severity_from_cvss x) threshold)
        ∙ h)
