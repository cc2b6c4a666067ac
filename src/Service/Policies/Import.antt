-- ===== src/Service/Policies/Import.antt =====
-- internal/core/service/policy.go: ImportPolicies.
-- what persistImportedPolicies gives back, with the policies by their names
use dependency_firewall.Base.{
  Bool, List, Option, String, [], false, length, none, some, true, ℕ, ◌++◌, ◌∷◌,
}
use dependency_firewall.Domain.Message.{Error, Result, annotate, err, ok}
use dependency_firewall.Domain.Policy.{Policy}
use dependency_firewall.Policy.Validate.{validate_policies}
use dependency_firewall.Service.Calls.{Call, check, give, or_fail, ◌>>=◌, ◌>>◌}
use dependency_firewall.Service.Policies.{
  PolicyPorts, existing_by_name, finalize_tenant_mutation, join_errors, validate_upstream_scope,
}

pub record Persisted (S : Type 0) : Type 0 where
  pub mutated : Bool
  pub failed : Option Error
  pub state : S

module _ {S : Type 0} (ports : PolicyPorts S) where
  unfoldable pub scope_imported : String → List Policy → Call S (List Policy)
  scope_imported tenant [] = give []
  scope_imported tenant (p ∷ ps) = do
    or_fail "validating imported policy %q upstream"
        (validate_upstream_scope ports tenant p.upstream_id p.kind)
    ps' ← scope_imported tenant ps
    give (record p { tenant_id = tenant } ∷ ps')

  unfoldable pub prepare_imported_policies : String → List Policy → Call S (List Policy)
  unfolding scope_imported
  prepare_imported_policies tenant imported = do
    policies ← scope_imported tenant imported
    or_fail "validating imported policies" (check (validate_policies policies))

  unfoldable pub persist_with : Policy → Option Policy → Call S Policy
  persist_with p none = ports.create p
  persist_with p (some existing) = ports.update (record p { id = existing.id })

  -- the loop after the call of persistImportedPolicy
  unfoldable pub persisted : (Policy → S → Persisted S) → Bool → Result Policy × S → Persisted S
  persisted next mutated (err e, s) = record { mutated = mutated; failed = some e; state = s }
  persisted next mutated (ok p, s) = next p s

  unfoldable pub persist_imported_policies : List Policy → List Policy → Bool → S → Persisted S
  unfolding persist_with persisted
  persist_imported_policies existing [] mutated s = record {
    mutated = mutated;
    failed = none;
    state = s;
  }
  persist_imported_policies existing (p ∷ ps) mutated s =
      persisted (λ p'. persist_imported_policies (existing ++ p' ∷ []) ps true) mutated
        (persist_with p (existing_by_name p.name existing) s)

  unfoldable pub partial_error : Error → Result (Unit {0}) × S → Result ℕ × S
  partial_error e (ok _, s) = (err (annotate "persisting imported policy %q" e), s)
  partial_error e (err e', s) =
      (err (join_errors (annotate "persisting imported policy %q" e) (e' ∷ [])), s)

  -- ImportPolicies, below persistImportedPolicies
  unfoldable pub finish_import : String → ℕ → Bool → Option Error → Call S ℕ
  unfolding partial_error
  finish_import tenant n false (some e) s = (err (annotate "persisting imported policy %q" e), s)
  finish_import tenant n true (some e) s = partial_error e (finalize_tenant_mutation ports tenant s)
  finish_import tenant n false none s = (ok n, s)
  finish_import tenant n true none s =
      (or_fail "finalizing imported policies" (finalize_tenant_mutation ports tenant) >> give n) s

  -- ImportPolicies, below existingPoliciesByName
  unfoldable pub persist_and_finish : String → List Policy → List Policy → Call S ℕ
  unfolding persist_imported_policies finish_import
  persist_and_finish tenant policies existing s =
      let p = persist_imported_policies existing policies false s in
      finish_import tenant (length policies) p.mutated p.failed p.state

  unfoldable pub import_policies : String → List Policy → Call S ℕ
  unfolding prepare_imported_policies persist_and_finish
  import_policies tenant imported = do
    policies ← prepare_imported_policies tenant imported
    existing ← or_fail "listing existing policies for import" (ports.list_policies tenant)
    persist_and_finish tenant policies existing
