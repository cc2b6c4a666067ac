-- ===== src/Policy/Evaluator/Spec.antt =====
-- What one policy contributes to an evaluation, described without the evaluation state.
use dependency_firewall.Base.{
  Bool, List, Option, String, [], arith, false, if◌then◌else◌, inl, inr, is_some, none, refl, some,
  true, ℤ, ◌++◌, ◌==◌, ◌||◌, ◌∷◌, ◌≡◌, ◌⊎◌,
}
use dependency_firewall.Domain.Message.{Message, Result, err, ok, text, ◌>>=◌}
use dependency_firewall.Domain.Policy.{
  AccessRequest, EvaluationReason, Policy, action_deny, evaluation_error, policy_match,
  policy_warning,
}
use dependency_firewall.Policy.Catalog.{condition_for_type, policy_definition_for}
use dependency_firewall.Policy.Evaluator.{
  EvaluationState, TargetMode, add_deny, evaluate_policy, is_warn_mode, target_evaluation_mode,
  target_skip, target_warn,
}

-- conditionForType, then the condition
unfoldable pub run_condition : ℤ → AccessRequest → Policy → Result (Option Message)
run_condition now req p = do condition ← condition_for_type p.kind; condition now req p.config

-- The effect of one policy: none, a note in the audit trail, or a reason to deny.
pub data Effect : Type 0 where
  silent : Effect
  noted : EvaluationReason → Effect
  enforced : EvaluationReason → Effect

abbrev pub is_enforced : Effect → Bool
is_enforced (enforced r) = true
is_enforced _ = false

pub Effect-cases :
    (e : Effect) → ((r : EvaluationReason) × (e ≡ enforced r)) ⊎ (is_enforced e ≡ false)
Effect-cases silent = inr refl
Effect-cases (noted r) = inr refl
Effect-cases (enforced r) = inl (r, refl)

abbrev pub reasons_of : Effect → List EvaluationReason
reasons_of silent = []
reasons_of (noted r) = r ∷ []
reasons_of (enforced r) = r ∷ []

abbrev is_warn_target : TargetMode → Bool
is_warn_target target_warn = true
is_warn_target _ = false

-- an error denies, a warning or an allow is noted, and a deny is enforced
effect_of : Policy → TargetMode → Result (Option Message) → Effect
effect_of p mode (err e) = enforced (record {
  policy_id = p.id;
  policy_name = p.name;
  category = evaluation_error;
  action = action_deny;
  message =
      if is_some (policy_definition_for p.kind)
      then record {
        format = "condition evaluation error for policy %q: %v";
        args = text p.name ∷ text e.message.format ∷ e.message.args;
      }
      else record {
        format = "unknown policy type %q: %v";
        args = text p.kind ∷ text e.message.format ∷ e.message.args;
      };
})
effect_of p mode (ok none) = silent
effect_of p mode (ok (some m)) =
    let warned : EvaluationReason = record {
      policy_id = p.id;
      policy_name = p.name;
      category = policy_warning;
      action = p.action;
      message = m;
    } in
    let matched : EvaluationReason = record {
      policy_id = p.id;
      policy_name = p.name;
      category = policy_match;
      action = p.action;
      message = m;
    } in
    if is_warn_mode p.config || is_warn_target mode
    then noted warned
    else if p.action == action_deny
    then enforced matched
    else noted matched

module _ (digest : String → String) (now : ℤ) (req : AccessRequest) where
  unfoldable pub effect : Policy → Effect
  unfolding effect_of run_condition
  effect p = elim (target_evaluation_mode digest req p.target) [
    | target_skip ↦ silent
    | mode ↦ effect_of p mode (run_condition now req p)
  ]

  -- Whether the policy, on its own, denies the request.
  unfoldable pub enforces : Policy → Bool
  enforces p = is_enforced (effect p)

  -- The reasons that the policies leave, in the order in which they stand.
  unfoldable pub all_reasons : List Policy → List EvaluationReason
  all_reasons [] = []
  all_reasons (p ∷ ps) = reasons_of (effect p) ++ all_reasons ps

  -- The reason of the first policy that is enforced.
  unfoldable pub first_enforced : List Policy → Option EvaluationReason
  first_enforced [] = none
  first_enforced (p ∷ ps) =
      let rest = first_enforced ps in elim (effect p) [ enforced r ↦ some r | _ ↦ rest ]

  -- The state after a policy of a given effect.
  unfoldable pub apply_effect : Effect → EvaluationState → EvaluationState
  apply_effect silent s = s
  apply_effect (noted r) s = record s {
    reasons = s.reasons ++ r ∷ [];
    warnings = elim r.category [
      | policy_warning ↦ s.warnings ++ (r.policy_name, r.message) ∷ []
      | _ ↦ s.warnings
    ];
  }
  apply_effect (enforced r) s = add_deny r s

  pub evaluate_policy-eq :
      (s : EvaluationState) (p : Policy)
      → evaluate_policy digest now req s p ≡ apply_effect (effect p) s
  unfolding evaluate_policy effect apply_effect condition_for_type
  evaluate_policy-eq s p = ground arith
