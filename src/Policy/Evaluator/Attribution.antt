-- ===== src/Policy/Evaluator/Attribution.antt =====
-- Which policy a decision names, and what it says where no policy has anything to say.
use dependency_firewall.Base.{
  Bool, List, String, [], any, any-keep, any-sort, arith, eq_iff, false, none, refl, some, sort,
  true, ℤ, ◌&&◌, ◌∙◌, ◌∷◌, ◌≡◌,
}
use dependency_firewall.Domain.Message.{Message, ok, plain}
use dependency_firewall.Domain.Policy.{
  AccessRequest, Policy, action_deny, allow, deny, policy_warning,
}
use dependency_firewall.Policy.Evaluator.{
  decision, evaluate, filter_enabled, first_deny_policy_id, initial_state, is_warn_mode,
  no_match_reason, policy_less, target_evaluation_mode,
}
use dependency_firewall.Policy.Evaluator.Outcome.{has_deny-evaluate_all, reasons-evaluate_all}
use dependency_firewall.Policy.Evaluator.Spec.{
  Effect, all_reasons, effect, enforces, noted, run_condition, silent,
}

speaks : Effect → Bool
speaks silent = false
speaks _ = true

module _ (digest : String → String) (now : ℤ) (req : AccessRequest) where
  -- Whether the policy leaves a reason.
  unfoldable pub has_reason : Policy → Bool
  unfolding speaks
  has_reason p = speaks (effect digest now req p)

  all_reasons-nil :
      (ps : List Policy) → any has_reason ps ≡ false → all_reasons digest now req ps ≡ []
  unfolding all_reasons has_reason
  all_reasons-nil [] h = refl
  all_reasons-nil (p ∷ ps) h = ground (arith, all_reasons-nil ps)

  enforces-has_reason :
      (ps : List Policy) → any has_reason ps ≡ false → any (enforces digest now req) ps ≡ false
  unfolding enforces has_reason
  enforces-has_reason [] h = refl
  enforces-has_reason (p ∷ ps) h = ground (arith, enforces-has_reason ps)

  -- Where no enabled policy leaves a reason, the request is allowed by default: no policy is named, and
  -- there is the one reason that no policy matched.
  pub evaluate_default :
      (ps : List Policy)
      → any (λ p. p.enabled && has_reason p) ps ≡ false
      → ((evaluate digest now req ps).outcome ≡ allow)
        × ((evaluate digest now req ps).reasons ≡ no_match_reason ∷ [])
        × ((evaluate digest now req ps).policy_id ≡ "")
        × ((evaluate digest now req ps).reason ≡ plain "no matching policy")
  unfolding evaluate decision filter_enabled
  evaluate_default ps h =
      let enabled = filter_enabled ps in
      let sorted = sort policy_less enabled in
      let quiet : any has_reason sorted ≡ false =
        any-sort policy_less has_reason enabled ∙ any-keep has_reason (λ p. p.enabled) ps ∙ h in
      let denied = has_deny-evaluate_all digest now req initial_state sorted in
      let reasons = reasons-evaluate_all digest now req initial_state sorted in
      let lax = enforces-has_reason sorted quiet in
      let empty = all_reasons-nil sorted quiet in
      (
        ground (arith, denied, lax),
        ground (arith, reasons, empty),
        ground (arith, denied, lax, reasons, empty),
        ground (arith, denied, lax, reasons, empty),
      )

  -- What a matching dry-run policy does.
  effect-dry_run :
      (p : Policy) (m : Message)
      → p.target ≡ none
      → is_warn_mode p.config ≡ true
      → run_condition now req p ≡ ok (some m)
      → effect digest now req p
        ≡ noted (record {
          policy_id = p.id;
          policy_name = p.name;
          category = policy_warning;
          action = p.action;
          message = m;
        })
  unfolding effect target_evaluation_mode
  effect-dry_run p m t w c = rw (t, c, w) refl

  -- A denial can name a policy that did not deny: if the first policy in the order is a dry-run deny
  -- policy that matches, and a later one is enforced, the decision carries the id of the dry-run
  -- policy, which is not enforced.
  pub policy_id-names_dry_run :
      (ps : List Policy) (p : Policy) (rest : List Policy) (m : Message)
      → sort policy_less (filter_enabled ps) ≡ p ∷ rest
      → p.target ≡ none
      → is_warn_mode p.config ≡ true
      → p.action ≡ action_deny
      → run_condition now req p ≡ ok (some m)
      → any (enforces digest now req) rest ≡ true
      → ((evaluate digest now req ps).outcome ≡ deny)
        × ((evaluate digest now req ps).policy_id ≡ p.id)
        × (enforces digest now req p ≡ false)
  unfolding evaluate decision first_deny_policy_id enforces all_reasons
  policy_id-names_dry_run ps p rest m order t w a c e =
      let note = effect-dry_run p m t w c in
      let denied = has_deny-evaluate_all digest now req initial_state (p ∷ rest) in
      let reasons = reasons-evaluate_all digest now req initial_state (p ∷ rest) in
      let is_deny = eq_iff p.action action_deny in
      rw order (
        ground (arith, denied, e),
        ground (arith, denied, e, reasons, note, is_deny, a),
        ground (arith, note),
      )
