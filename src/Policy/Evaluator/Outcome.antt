-- ===== src/Policy/Evaluator/Outcome.antt =====
-- The outcome and the reasons of an evaluation, from the effects of the policies.
use mathlib.Core.List.{Perm, append-nil, append_assoc}
use dependency_firewall.Base.{
  List, Option, String, [], any, any-keep, any-perm, any-sort, arith, if◌then◌else◌, inl, inr,
  is_empty, none, refl, some, sort, true, ℤ, ◌&&◌, ◌++◌, ◌||◌, ◌∷◌, ◌≡◌,
}
use dependency_firewall.Domain.Message.{Message}
use dependency_firewall.Domain.Policy.{AccessRequest, EvaluationReason, Policy, allow, deny}
use dependency_firewall.Policy.Evaluator.{
  EvaluationState, add_deny, decision, evaluate, evaluate_all, evaluate_policy, filter_enabled,
  initial_state, no_match_reason, policy_less,
}
use dependency_firewall.Policy.Evaluator.Spec.{
  Effect-cases, all_reasons, apply_effect, effect, enforces, evaluate_policy-eq, first_enforced,
  reasons_of,
}

module _ (digest : String → String) (now : ℤ) (req : AccessRequest) where
  has_deny-step :
      (s : EvaluationState) (p : Policy)
      → (evaluate_policy digest now req s p).has_deny ≡ (s.has_deny || enforces digest now req p)
  unfolding enforces apply_effect add_deny
  has_deny-step s p = rw evaluate_policy-eq (ground arith)

  reasons-step :
      (s : EvaluationState) (p : Policy)
      → (evaluate_policy digest now req s p).reasons
        ≡ s.reasons ++ reasons_of (effect digest now req p)
  unfolding apply_effect add_deny
  reasons-step s p = rw evaluate_policy-eq (ground (arith, append-nil s.reasons))

  pub has_deny-evaluate_all :
      (s : EvaluationState) (ps : List Policy)
      → (evaluate_all digest now req s ps).has_deny
        ≡ (s.has_deny || any (enforces digest now req) ps)
  unfolding evaluate_all
  has_deny-evaluate_all s [] = ground arith
  has_deny-evaluate_all s (p ∷ ps) =
      ground
        (arith, has_deny-evaluate_all (evaluate_policy digest now req s p) ps, has_deny-step s p)

  pub reasons-evaluate_all :
      (s : EvaluationState) (ps : List Policy)
      → (evaluate_all digest now req s ps).reasons ≡ s.reasons ++ all_reasons digest now req ps
  unfolding evaluate_all all_reasons
  reasons-evaluate_all s [] = rw append-nil
  reasons-evaluate_all s (p ∷ ps) =
      rw (reasons-evaluate_all (evaluate_policy digest now req s p) ps, reasons-step s p)
        (append_assoc s.reasons _ _)

  abbrev first_message : EvaluationState → Option EvaluationReason → Message
  first_message s o =
      if s.has_deny
      then s.first_deny_reason
      else elim o [ none ↦ s.first_deny_reason | some r ↦ r.message ]

  first_deny-step :
      (s : EvaluationState) (p : Policy)
      → (evaluate_policy digest now req s p).first_deny_reason
        ≡ first_message s (first_enforced digest now req (p ∷ []))
  unfolding apply_effect add_deny first_enforced
  first_deny-step s p = rw evaluate_policy-eq (ground arith)

  pub first_deny-evaluate_all :
      (s : EvaluationState) (ps : List Policy)
      → (evaluate_all digest now req s ps).first_deny_reason
        ≡ first_message s (first_enforced digest now req ps)
  unfolding evaluate_all first_enforced enforces
  first_deny-evaluate_all s [] = ground arith
  first_deny-evaluate_all s (p ∷ ps) = ground (
    arith,
    first_deny-evaluate_all (evaluate_policy digest now req s p) ps,
    first_deny-step s p,
    has_deny-step s p,
  )

  -- The request is denied exactly when some enabled policy, taken alone, denies it; and otherwise it
  -- is allowed.
  pub outcome-evaluate :
      (ps : List Policy)
      → (evaluate digest now req ps).outcome
        ≡ (if any (λ p. p.enabled && enforces digest now req p) ps then deny else allow)
  unfolding evaluate decision filter_enabled
  outcome-evaluate ps = ground (
    arith,
    has_deny-evaluate_all initial_state (sort policy_less (filter_enabled ps)),
    any-sort policy_less (enforces digest now req) (filter_enabled ps),
    any-keep (enforces digest now req) (λ p. p.enabled) ps,
  )

  -- Whatever the order in which the policies are given, the outcome is the same.
  pub outcome-perm :
      (ps qs : List Policy)
      → Perm ps qs
      → (evaluate digest now req ps).outcome ≡ (evaluate digest now req qs).outcome
  outcome-perm ps qs h = rw (outcome-evaluate ps, outcome-evaluate qs, any-perm _ ps qs h) refl

  -- The reasons are those of the enabled policies, in the order of priority and name; where there
  -- is none, the one reason is that no policy matched.
  pub reasons-evaluate :
      (ps : List Policy)
      → (evaluate digest now req ps).reasons ≡ (
          let rs = all_reasons digest now req (sort policy_less (filter_enabled ps)) in
          if is_empty rs then no_match_reason ∷ [] else rs)
  unfolding evaluate decision
  reasons-evaluate ps =
      ground (arith, reasons-evaluate_all initial_state (sort policy_less (filter_enabled ps)))

  first_enforced-some :
      (ps : List Policy)
      → any (enforces digest now req) ps ≡ true
      → (r : EvaluationReason) × (first_enforced digest now req ps ≡ some r)
  unfolding first_enforced enforces
  first_enforced-some [] h = cc
  first_enforced-some (p ∷ ps) h = elim (Effect-cases (effect digest now req p)) [
    | inl (r, e) ↦ (r, rw (e, first_enforced))
    | inr e ↦ let (r, f) = first_enforced-some ps (ground (arith, e)) in (r, ground (arith, f, e))
  ]

  -- A denial gives the reason of the first enforced policy in the order of priority and name.
  pub reason-evaluate_denied :
      (ps : List Policy)
      → (evaluate digest now req ps).outcome ≡ deny
      → (r : EvaluationReason) × (first_enforced digest now req
            (sort policy_less (filter_enabled ps))
          ≡ some r)
        × ((evaluate digest now req ps).reason ≡ r.message)
  unfolding evaluate decision
  reason-evaluate_denied ps h =
      let sorted = sort policy_less (filter_enabled ps) in
      let denied = has_deny-evaluate_all initial_state sorted in
      let (r, e) = first_enforced-some sorted (ground (arith, denied)) in
      (r, e, ground (arith, denied, e, first_deny-evaluate_all initial_state sorted))
