-- ===== src/Policy/Condition/Cvss/Reached.antt =====
-- When the CVSS condition (internal/core/policy/condition/cvss.go) matches.
use mathlib.Core.Path.{ap₂}
use dependency_firewall.Base.{
  Bool, Bool-cases, Float64, List, Option, String, [], any, ap, arith, eq_iff, false, float_le,
  if◌then◌else◌, inl, inr, is_some, none, refl, some, sym, to_lower, trim_space, true, ℕ, ◌==◌,
  ◌||◌, ◌∙◌, ◌∷◌, ◌≡◌,
}
use dependency_firewall.Domain.Artifact.{ArtifactMetadata, Vulnerability}
use dependency_firewall.Domain.Config.{
  CvssThresholdPolicyConfig, cvss_threshold_config, validate_cvss_threshold,
}
use dependency_firewall.Domain.Message.{Message, ok}
use dependency_firewall.Domain.Policy.{AccessRequest}
use dependency_firewall.Policy.Condition.Cvss.{
  evaluate_cvss_threshold, match_cvss, match_score, match_severity, normalize_severity,
  severity_at_or_above, severity_rank, severity_rank_without_normalization, vulnerability_severity,
}
use dependency_firewall.Policy.Condition.Cvss.Monotone.{
  reaches, score_rank, severity_at_or_above-eq, severity_rank-severity_from_cvss,
}
use dependency_firewall.Policy.Condition.Judged.{Judged}

-- the rank of a severity, up to case and surrounding space
abbrev pub named_rank : String → Option ℕ
named_rank name =
    if name == "none"
    then some 0
    else if name == "low"
    then some 1
    else if name == "medium"
    then some 2
    else if name == "high"
    then some 3
    else if name == "critical"
    then some 4
    else none

abbrev pub stated_rank : String → Option ℕ
stated_rank severity = named_rank (to_lower (trim_space severity))

-- the first of two values
abbrev pub or_else : Option ℕ → Option ℕ → Option ℕ
or_else (some r) o = some r
or_else none o = o

-- The rank of a vulnerability is that of the severity that it states, or else that of its score:
-- critical from 9, high from 7, medium from 4, and low above 0.
abbrev pub vulnerability_rank : Vulnerability → Option ℕ
vulnerability_rank v = or_else (stated_rank v.severity) (score_rank v.cvss)

-- whether both are there and the score is not below the threshold
abbrev pub score_reached : Option Float64 → Option Float64 → Bool
score_reached (some threshold) (some score) = float_le threshold score
score_reached _ _ = false

-- whether a minimum is set and the rank of some vulnerability is not below it
abbrev pub severity_reached : Option String → List Vulnerability → Bool
severity_reached none vs = false
severity_reached (some minimum) vs =
    any (λ v. reaches (vulnerability_rank v) (stated_rank minimum)) vs

abbrev pub is_reached : CvssThresholdPolicyConfig → Option ArtifactMetadata → Bool
is_reached c none = false
is_reached c (some m) =
    score_reached c.max_cvss m.max_cvss || severity_reached c.minimum_severity m.vulnerabilities

known_rank : (t : String) → severity_rank_without_normalization t ≡ named_rank t
unfolding severity_rank_without_normalization
known_rank t = refl

-- A name that has a rank has no upper-case letter and no space around it.
stated_rank-named : (t : String) → is_some (named_rank t) ≡ true → stated_rank t ≡ named_rank t
unfolding to_lower trim_space
stated_rank-named t h = elim (Bool-cases (t == "critical")) [
  | inl e ↦ rw ((eq_iff t "critical").0 e) refl
  | inr e₄ ↦ elim (Bool-cases (t == "high")) [
    | inl e ↦ rw ((eq_iff t "high").0 e) refl
    | inr e₃ ↦ elim (Bool-cases (t == "medium")) [
      | inl e ↦ rw ((eq_iff t "medium").0 e) refl
      | inr e₂ ↦ elim (Bool-cases (t == "low")) [
        | inl e ↦ rw ((eq_iff t "low").0 e) refl
        | inr e₁ ↦ elim (Bool-cases (t == "none")) [
          | inl e ↦ rw ((eq_iff t "none").0 e) refl
          | inr e₀ ↦ absurd (ground (arith, e₀, e₁, e₂, e₃, e₄))
        ]
      ]
    ]
  ]
]

-- Where the severity has a rank, the normal form is not empty and has the same rank.
normalize-known :
    (severity : String)
    → is_some (stated_rank severity) ≡ true
    → normalize_severity severity ≡ to_lower (trim_space severity)
unfolding normalize_severity
normalize-known severity h = rw (known_rank (to_lower (trim_space severity)), h) refl

normalize-unknown :
    (severity : String) → is_some (stated_rank severity) ≡ false → normalize_severity severity ≡ ""
unfolding normalize_severity
normalize-unknown severity h = rw (known_rank (to_lower (trim_space severity)), h) refl

unranked : (o : Option ℕ) → is_some o ≡ false → none ≡ o
unranked none h = refl
unranked (some r) h = cc

severity_rank-stated : (severity : String) → severity_rank severity ≡ stated_rank severity
unfolding severity_rank
severity_rank-stated severity = elim (Bool-cases (is_some (stated_rank severity))) [
  | inl h ↦ rw (normalize-known severity h) (known_rank (to_lower (trim_space severity)))
  | inr h ↦ rw (normalize-unknown severity h) (known_rank "" ∙ unranked (stated_rank severity) h)
]

stated_rank-empty : stated_rank "" ≡ none
unfolding to_lower trim_space
stated_rank-empty = refl

severity_rank-normalize :
    (severity : String) → severity_rank (normalize_severity severity) ≡ stated_rank severity
severity_rank-normalize severity = elim (Bool-cases (is_some (stated_rank severity))) [
  | inl h ↦ rw (normalize-known severity h) (
      severity_rank-stated (to_lower (trim_space severity))
      ∙ stated_rank-named (to_lower (trim_space severity)) h)
  | inr h ↦
      rw (normalize-unknown severity h)
        (severity_rank-stated "" ∙ stated_rank-empty ∙ unranked (stated_rank severity) h)
]

not_empty :
    (severity : String)
    → is_some (stated_rank severity) ≡ true
    → (normalize_severity severity == "") ≡ false
not_empty severity h =
    let n = to_lower (trim_space severity) in
    rw (normalize-known severity h) (elim (Bool-cases (n == "")) [
      | inr e ↦ e
      | inl e ↦ let k = sym h ∙ ap (λ s. is_some (named_rank s)) ((eq_iff n "").0 e) in cc
    ])

or_else-first : (o p : Option ℕ) → is_some o ≡ true → o ≡ or_else o p
or_else-first none p h = cc
or_else-first (some r) p h = refl

or_else-second : (o p : Option ℕ) → is_some o ≡ false → p ≡ or_else o p
or_else-second none p h = refl
or_else-second (some r) p h = cc

severity_rank-vulnerability_severity :
    (v : Vulnerability) → severity_rank (vulnerability_severity v) ≡ vulnerability_rank v
unfolding vulnerability_severity
severity_rank-vulnerability_severity v = elim (Bool-cases (is_some (stated_rank v.severity))) [
  | inl h ↦ rw (not_empty v.severity h) (
      severity_rank-normalize v.severity
      ∙ or_else-first (stated_rank v.severity) (score_rank v.cvss) h)
  | inr h ↦ rw (normalize-unknown v.severity h) (
      severity_rank-severity_from_cvss v.cvss
      ∙ or_else-second (stated_rank v.severity) (score_rank v.cvss) h)
]

reaches-severity :
    (minimum : String) (v : Vulnerability)
    → severity_at_or_above (vulnerability_severity v) (normalize_severity minimum)
      ≡ reaches (vulnerability_rank v) (stated_rank minimum)
reaches-severity minimum v =
    severity_at_or_above-eq (vulnerability_severity v) (normalize_severity minimum)
    ∙ ap₂ reaches (severity_rank-vulnerability_severity v) (severity_rank-normalize minimum)

is_some-match_severity :
    (minimum : String) (vs : List Vulnerability)
    → is_some (match_severity (normalize_severity minimum) vs) ≡ severity_reached (some minimum) vs
unfolding match_severity
is_some-match_severity minimum [] = refl
is_some-match_severity minimum (v ∷ vs) =
    ground (arith, is_some-match_severity minimum vs, reaches-severity minimum v)

is_some-match_score :
    (threshold score : Option Float64)
    → is_some (match_score threshold score) ≡ score_reached threshold score
unfolding match_score
is_some-match_score threshold score = ground arith

-- the first match, or else the severity's
is_some-first :
    (a : Option Message) (o : Option String) (vs : List Vulnerability)
    → is_some (elim a [
      | some reason ↦ some reason
      | none ↦ elim o [
        | none ↦ none
        | some severity ↦ match_severity (normalize_severity severity) vs
      ]
    ])
      ≡ (is_some a || severity_reached o vs)
is_some-first (some reason) o vs = refl
is_some-first none none vs = refl
is_some-first none (some severity) vs = is_some-match_severity severity vs

is_some-match_cvss :
    (c : CvssThresholdPolicyConfig) (m : Option ArtifactMetadata)
    → is_some (match_cvss c m) ≡ is_reached c m
unfolding match_cvss
is_some-match_cvss c none = refl
is_some-match_cvss c (some m) =
    is_some-first (match_score c.max_cvss m.max_cvss) c.minimum_severity m.vulnerabilities
    ∙ ap (λ b. b || severity_reached c.minimum_severity m.vulnerabilities)
        (is_some-match_score c.max_cvss m.max_cvss)

-- On a valid configuration the CVSS condition reports no error. It matches exactly where the
-- highest score reaches the threshold, or the rank of some vulnerability reaches that of the minimum
-- severity: the rank of the severity that it states, up to case and surrounding space, or, where
-- that is none of the five, of its score, critical from 9, high from 7, medium from 4 and low above
-- 0. Without metadata it matches nothing.
pub evaluate_cvss_threshold-Judged :
    (req : AccessRequest) (c : CvssThresholdPolicyConfig)
    → validate_cvss_threshold (some c) ≡ ok tt
    → Judged
        (evaluate_cvss_threshold req (some (cvss_threshold_config (some c))))
        (is_reached c req.metadata)
unfolding evaluate_cvss_threshold
evaluate_cvss_threshold-Judged req c valid = rw valid (is_some-match_cvss c req.metadata)
