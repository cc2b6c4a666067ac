-- ===== src/Service/Policies/Invalidated.antt =====
-- internal/core/service/policy.go: what stands at the end of every change of a tenant's policies.
use dependency_firewall.Base.{
  Bool, List, Option, String, [], ap, arith, false, length, ltb, none, refl, some, suc, true, ℕ, ℤ,
  ◌++◌, ◌-◌, ◌∙◌, ◌∷◌, ◌≡◌,
}
use dependency_firewall.Domain.Message.{Error, Result, err, ok}
use dependency_firewall.Domain.Policy.{Policy}
use dependency_firewall.Service.Calls.{
  >>-Ensures, >>=-Ensures, >>=-Gives, >>give-Ensures, Ensures, Gives, give, or_fail,
  or_fail-Ensures, ◌>>◌,
}
use dependency_firewall.Service.Policies.{
  PolicyPorts, create_policy, delete_policy, existing_by_name, failure, finalize_tenant_mutation,
  invalidated, joined, rollback_to_version, update_policy,
}
use dependency_firewall.Service.Policies.Import.{
  Persisted, finish_import, import_policies, partial_error, persist_and_finish,
  persist_imported_policies, persist_with, persisted,
}

module _ {S : Type 0} (ports : PolicyPorts S) where
  -- The last step was a successful invalidation of the tenant's cached decisions.
  abbrev pub Invalidated : String → S → Type 0
  Invalidated tenant s =
      (t : S) × ((ports.invalidate tenant t).0 ≡ ok tt) × ((ports.invalidate tenant t).1 ≡ s)

  joined-ok :
      (errs : List Error) (r : Result (Unit {0}))
      → joined (errs ++ failure "invalidating tenant decision cache" r) ≡ ok tt
      → r ≡ ok tt
  joined-ok [] (ok _) h = refl
  joined-ok [] (err e) h = cc
  joined-ok (e ∷ errs) r h = cc

  invalidated-Invalidated :
      (tenant : String) (w : List Error × S) (x : Unit {0})
      → (invalidated ports tenant w).0 ≡ ok x
      → Invalidated tenant (invalidated ports tenant w).1
  unfolding invalidated
  invalidated-Invalidated tenant (errs, s) x h = (s, joined-ok errs _ h, refl)

  finalize-Invalidated :
      (tenant : String) → Ensures (Invalidated tenant) (finalize_tenant_mutation ports tenant)
  unfolding finalize_tenant_mutation
  finalize-Invalidated tenant s x h = invalidated-Invalidated tenant _ x h

  finalized-Invalidated :
      {A : Type 0} (tenant what : String) (y : A)
      → Ensures
          (Invalidated tenant)
          (or_fail what (finalize_tenant_mutation ports tenant) >> give y)
  finalized-Invalidated tenant what y =
      >>give-Ensures (Invalidated tenant) _ y
        (or_fail-Ensures (Invalidated tenant) what _ (finalize-Invalidated tenant))

  rollback_to_version-Invalidated :
      (tenant id : String) (version : ℤ)
      → Ensures (Invalidated tenant) (rollback_to_version ports tenant id version)
  unfolding rollback_to_version
  rollback_to_version-Invalidated tenant id version =
      >>=-Ensures (Invalidated tenant) _ _ (λ versions. >>-Ensures (Invalidated tenant) _ _ (
        >>=-Ensures (Invalidated tenant) _ _ (λ p.
          >>=-Ensures (Invalidated tenant) _ _
            (λ p'. finalized-Invalidated tenant "finalizing policy rollback" p'))))

  delete_policy-Invalidated :
      (tenant id : String) (force : Bool)
      → Ensures (Invalidated tenant) (delete_policy ports tenant id force)
  unfolding delete_policy
  delete_policy-Invalidated tenant id force = >>=-Ensures (Invalidated tenant) _ _ (λ p.
      >>-Ensures (Invalidated tenant) _ _ (
        >>-Ensures (Invalidated tenant) _ _ (
          or_fail-Ensures (Invalidated tenant) "finalizing policy delete" _
            (finalize-Invalidated tenant))))

  create_policy-Invalidated :
      (p : Policy) → Ensures (Invalidated p.tenant_id) (create_policy ports p)
  unfolding create_policy
  create_policy-Invalidated p = >>=-Ensures (Invalidated p.tenant_id) _ _ (λ p'.
      >>=-Ensures (Invalidated p.tenant_id) _ _
        (λ created. finalized-Invalidated p.tenant_id "finalizing policy creation" created))

  update_policy-Invalidated :
      (p : Policy) → Ensures (Invalidated p.tenant_id) (update_policy ports p)
  unfolding update_policy
  update_policy-Invalidated p = >>=-Ensures (Invalidated p.tenant_id) _ _ (λ p'.
      >>=-Ensures (Invalidated p.tenant_id) _ _
        (λ updated. finalized-Invalidated p.tenant_id "finalizing policy update" updated))

  persisted-mutated :
      (next : Policy → S → Persisted S) (m : Bool) (r : Result Policy × S)
      → ((p : Policy) (s : S) → (next p s).mutated ≡ true)
      → (persisted ports next m r).failed ≡ none
      → (persisted ports next m r).mutated ≡ true
  unfolding persisted
  persisted-mutated next m (err e, s) h f = cc
  persisted-mutated next m (ok p, s) h f = h p s

  persisted-true :
      (next : Policy → S → Persisted S) (r : Result Policy × S)
      → ((p : Policy) (s : S) → (next p s).mutated ≡ true)
      → (persisted ports next true r).mutated ≡ true
  unfolding persisted
  persisted-true next (err e, s) h = refl
  persisted-true next (ok p, s) h = h p s

  stays-mutated :
      (existing ps : List Policy) (s : S)
      → (persist_imported_policies ports existing ps true s).mutated ≡ true
  unfolding persist_imported_policies
  stays-mutated existing [] s = refl
  stays-mutated existing (p ∷ ps) s =
      persisted-true _ _ (λ p' t. stays-mutated (existing ++ p' ∷ []) ps t)

  persist-mutated :
      (existing ps : List Policy) (s : S)
      → (persist_imported_policies ports existing ps false s).mutated ≡ false
      → (persist_imported_policies ports existing ps false s).failed ≡ none
      → length ps ≡ 0
  unfolding persist_imported_policies
  persist-mutated existing [] s h f = refl
  persist-mutated existing (p ∷ ps) s h f =
      let m =
        persisted-mutated (λ q. persist_imported_policies ports (existing ++ q ∷ []) ps true) false
          (persist_with ports p (existing_by_name p.name existing) s)
          (λ p' t. stays-mutated (existing ++ p' ∷ []) ps t) f in
      ground (arith, m, h)

  partial_error-err :
      {C : Type 0} (e : Error) (r : Result (Unit {0}) × S) (k : ℕ)
      → (partial_error ports e r).0 ≡ ok (suc k)
      → C
  unfolding partial_error
  partial_error-err e (ok _, s) k h = cc
  partial_error-err e (err e', s) k h = cc

  finish_import-Invalidated :
      (tenant : String) (n : ℕ) (mutated : Bool) (failed : Option Error) (s : S) (k : ℕ)
      → (mutated ≡ false → failed ≡ none → n ≡ 0)
      → (finish_import ports tenant n mutated failed s).0 ≡ ok (suc k)
      → Invalidated tenant (finish_import ports tenant n mutated failed s).1
  unfolding finish_import
  finish_import-Invalidated tenant n false (some e) s k h f = cc
  finish_import-Invalidated tenant n true (some e) s k h f = partial_error-err e _ k f
  finish_import-Invalidated tenant n false none s k h f =
      let same : n ≡ suc k = cc in ground (arith, h refl refl, same)
  finish_import-Invalidated tenant n true none s k h f =
      finalized-Invalidated tenant "finalizing imported policies" n s (suc k) f

  -- Where something was imported, the cached decisions were invalidated.
  abbrev pub Imported : String → ℕ → S → Type 0
  Imported tenant n s = ltb 0 n ≡ true → Invalidated tenant s

  positive : (n : ℕ) → ltb 0 n ≡ true → n ≡ suc (n - 1)
  positive n h = ground arith

  persist_and_finish-Imported :
      (tenant : String) (policies existing : List Policy)
      → Gives (Imported tenant) (persist_and_finish ports tenant policies existing)
  unfolding persist_and_finish
  persist_and_finish-Imported tenant policies existing s n e p =
      finish_import-Invalidated tenant (length policies) _ _ _ (n - 1)
        (persist-mutated existing policies s) (e ∙ ap ok (positive n p))

  import_policies-Imported :
      (tenant : String) (imported : List Policy)
      → Gives (Imported tenant) (import_policies ports tenant imported)
  unfolding import_policies
  import_policies-Imported tenant imported = >>=-Gives (Imported tenant) _ _ (λ policies.
      >>=-Gives (Imported tenant) _ _
        (λ existing. persist_and_finish-Imported tenant policies existing))

  -- Where a change of a tenant's policies succeeds, its last step was a successful invalidation of the
  -- tenant's cached decisions: for a creation, an update, a rollback and a deletion, and for an import
  -- of at least one policy.
  pub mutations-Invalidated :
      ((p : Policy) → Ensures (Invalidated p.tenant_id) (create_policy ports p))
      × ((p : Policy) → Ensures (Invalidated p.tenant_id) (update_policy ports p))
      × ((tenant id : String) (version : ℤ)
          → Ensures (Invalidated tenant) (rollback_to_version ports tenant id version))
      × ((tenant id : String) (force : Bool)
          → Ensures (Invalidated tenant) (delete_policy ports tenant id force))
      × ((tenant : String) (imported : List Policy)
          → Gives (Imported tenant) (import_policies ports tenant imported))
  mutations-Invalidated = (
    create_policy-Invalidated, update_policy-Invalidated, rollback_to_version-Invalidated,
    delete_policy-Invalidated, import_policies-Imported,
  )
