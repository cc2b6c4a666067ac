-- ===== src/Policy/Evaluator.antt =====
-- internal/core/policy/evaluator.go: the evaluation of a policy set against one request.
-- `now` is the reading of the clock, and `digest` the hash function of dependency contexts.
pub mod Spec
pub mod Outcome
pub mod Attribution
use dependency_firewall.Base.{
  Bool, List, Option, String, [], any, contains, eqb_ℤ, false, if◌then◌else◌, is_empty, keep, ltb_ℤ,
  none, not, some, sort, str_lt, true, ℤ, ◌&&◌, ◌++◌, ◌==◌, ◌||◌, ◌∷◌,
}
use dependency_firewall.Domain.Config.{PolicyConfig, dry_run_enabled}
use dependency_firewall.Domain.Dependency.{
  DependencyContext, PolicyTarget, new_unknown_dependency_context, normalize_context, scope_unknown,
  unknown_deny, unknown_skip,
}
use dependency_firewall.Domain.Message.{Error, Message, Result, err, no_message, ok, plain, text}
use dependency_firewall.Domain.Policy.{
  AccessRequest, Decision, EvaluationReason, Policy, ReasonCategory, action_deny, allow, deny,
  evaluation_error, no_matching_policy, policy_match, policy_warning,
}
use dependency_firewall.Policy.Catalog.{condition_for_type}

pub data TargetMode : Type 0 where
  target_apply target_warn target_skip : TargetMode

pub record EvaluationState : Type 0 where
  pub reasons : List EvaluationReason
  pub warnings : List (String × Message)
  pub first_deny_reason : Message
  pub has_deny : Bool

-- priority, then name
unfoldable pub policy_less : Policy → Policy → Bool
policy_less a b =
    if not (eqb_ℤ a.priority b.priority) then ltb_ℤ a.priority b.priority else str_lt a.name b.name

unfoldable pub filter_enabled : List Policy → List Policy
filter_enabled policies = keep (λ p. p.enabled) policies

-- isWarnMode
unfoldable pub is_warn_mode : Option PolicyConfig → Bool
is_warn_mode none = false
is_warn_mode (some c) = dry_run_enabled c

dependency_types_match : List String → List String → Bool
dependency_types_match allowed actual = any (λ a. contains actual a) allowed

abbrev unknown_mode : String → TargetMode
unknown_mode action =
    if action == unknown_deny
    then target_apply
    else if action == unknown_skip
    then target_skip
    else target_warn

unfoldable pub add_deny : EvaluationReason → EvaluationState → EvaluationState
add_deny r s =
    if s.has_deny
    then record s { reasons = s.reasons ++ r ∷ [] }
    else record s { reasons = s.reasons ++ r ∷ []; has_deny = true; first_deny_reason = r.message }

error_reason : Policy → Message → EvaluationReason
error_reason p m = record {
  policy_id = p.id;
  policy_name = p.name;
  category = evaluation_error;
  action = action_deny;
  message = m;
}

match_reason : Policy → ReasonCategory → Message → EvaluationReason
match_reason p category m = record {
  policy_id = p.id;
  policy_name = p.name;
  category = category;
  action = p.action;
  message = m;
}

-- what a matched condition does to the state
add_match : Policy → TargetMode → Message → EvaluationState → EvaluationState
unfolding match_reason
add_match p mode reason s =
    if is_warn_mode p.config || (elim mode [ target_warn ↦ true | _ ↦ false ])
    then record s {
      reasons = s.reasons ++ match_reason p policy_warning reason ∷ [];
      warnings = s.warnings ++ (p.name, reason) ∷ [];
    }
    else if p.action == action_deny && not s.has_deny
    then record s {
      reasons = s.reasons ++ match_reason p policy_match reason ∷ [];
      has_deny = true;
      first_deny_reason = reason;
    }
    else record s { reasons = s.reasons ++ match_reason p policy_match reason ∷ [] }

-- a format with %q or %s of `name`, and %v of `e`
error_text : String → String → Error → Message
error_text format name e = record {
  format = format;
  args = text name ∷ text e.message.format ∷ e.message.args;
}

-- the part of evaluatePolicy below the call of the condition
add_result : Policy → TargetMode → Result (Option Message) → EvaluationState → EvaluationState
unfolding error_reason error_text add_match add_deny
add_result p mode (err e) s =
    add_deny (error_reason p (error_text "condition evaluation error for policy %q: %v" p.name e)) s
add_result p mode (ok none) s = s
add_result p mode (ok (some reason)) s = add_match p mode reason s

unfoldable pub first_deny_policy_id : List EvaluationReason → String
first_deny_policy_id [] = ""
first_deny_policy_id (r ∷ rs) =
    if r.action == action_deny then r.policy_id else first_deny_policy_id rs

first_or : EvaluationReason → List EvaluationReason → EvaluationReason
first_or d [] = d
first_or d (r ∷ rs) = r

abbrev pub no_match_reason : EvaluationReason
no_match_reason = record {
  policy_id = "";
  policy_name = "";
  category = no_matching_policy;
  action = "";
  message = plain "no matching policy";
}

unfoldable pub decision : ℤ → AccessRequest → EvaluationState → Decision
unfolding first_or
decision now req s = record {
  id = "";
  tenant_id = req.tenant_id;
  artifact = req.artifact;
  outcome = if s.has_deny then deny else allow;
  policy_id =
      if s.has_deny
      then first_deny_policy_id s.reasons
      else (first_or no_match_reason s.reasons).policy_id;
  policy_hash = "";
  dependency_context = none;
  reason = if s.has_deny then s.first_deny_reason else (first_or no_match_reason s.reasons).message;
  reasons = if is_empty s.reasons then no_match_reason ∷ [] else s.reasons;
  warnings = s.warnings;
  cached_at = none;
  evaluated_at = now;
}

abbrev pub initial_state : EvaluationState
initial_state = record {
  reasons = [];
  warnings = [];
  first_deny_reason = no_message;
  has_deny = false;
}

module _ (digest : String → String) where
  request_context : AccessRequest → DependencyContext
  request_context req = elim req.dependency_context [
    | none ↦ new_unknown_dependency_context digest
    | some c ↦ normalize_context digest c
  ]

  target_mode_in : DependencyContext → PolicyTarget → TargetMode
  unfolding dependency_types_match
  target_mode_in ctx t =
      if ctx.scope == scope_unknown
      then unknown_mode t.on_unknown
      else if not (is_empty t.dependency_scopes) && not (contains t.dependency_scopes ctx.scope)
      then target_skip
      else if not (is_empty t.dependency_types)
          && not (dependency_types_match t.dependency_types ctx.dependency_types)
      then target_skip
      else target_apply

  unfoldable pub target_evaluation_mode : AccessRequest → Option PolicyTarget → TargetMode
  unfolding request_context target_mode_in
  target_evaluation_mode req none = target_apply
  target_evaluation_mode req (some t) = target_mode_in (request_context req) t

  unfoldable pub evaluate_policy : ℤ → AccessRequest → EvaluationState → Policy → EvaluationState
  unfolding add_result
  evaluate_policy now req s p = elim (target_evaluation_mode req p.target) [
    | target_skip ↦ s
    | mode ↦ elim (condition_for_type p.kind) [
      | err e ↦ add_deny (error_reason p (error_text "unknown policy type %q: %v" p.kind e)) s
      | ok condition ↦ add_result p mode (condition now req p.config) s
    ]
  ]

  unfoldable pub evaluate_all : ℤ → AccessRequest → EvaluationState → List Policy → EvaluationState
  evaluate_all now req s [] = s
  evaluate_all now req s (p ∷ ps) = evaluate_all now req (evaluate_policy now req s p) ps

  unfoldable pub evaluate : ℤ → AccessRequest → List Policy → Decision
  unfolding evaluate_all
  evaluate now req policies =
      decision now req
        (evaluate_all now req initial_state (sort policy_less (filter_enabled policies)))
