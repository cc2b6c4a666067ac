-- ===== src/Service/Prepare/InForce.antt =====
-- What preparePolicySet (internal/core/service/proxy.go) hands on.
use dependency_firewall.Base.{Bool-cases, List, String, arith, inl, inr, refl, true, ◌≡◌, ◌⊎◌}
use dependency_firewall.Domain.Message.{Error, Result, err, is_deprecated, ok}
use dependency_firewall.Domain.Policy.{AccessRequest, Policy}
use dependency_firewall.Infra.DecisionCache.{ValkeyServer}
use dependency_firewall.Policy.Hash.{hash_policies}
use dependency_firewall.Policy.Validate.{validate_policies}
use dependency_firewall.Service.Effects.{Ports, World, pure}
use dependency_firewall.Service.Lookup.{record_audit_best_effort}
use dependency_firewall.Service.Lookup.Caller.{after_audit}
use dependency_firewall.Service.Prepare.{
  Prepared, append_decision, cache_decision, deny_for_invalid_policy_set, invalid_decision,
  invalid_recorded, invalid_set, prepare_hashed, prepare_listed, prepare_policy_set, prepare_valid,
  prepared, refuse_set,
}
use dependency_firewall.Service.Requests.{filter_policies_for_upstream}
use dependency_firewall.Service.Triple.{Ensures, result-Ensures}

module _ (ports : Ports) where
  -- The policies with the hash are those of the tenant, valid, of the request's upstream.
  abbrev pub InForce : AccessRequest → List Policy → String → Type 0
  InForce req effective hash =
      (loaded : List Policy) × (valid : List Policy) × (ports.list_by_tenant req.tenant_id
        ≡ ok loaded)
      × (validate_policies loaded ≡ ok valid)
      × (effective ≡ filter_policies_for_upstream valid req.upstream.id)
      × (hash_policies ports.encode ports.digest effective ≡ ok hash)

  -- The error that makes the policies of the tenant unusable: of an old configuration, of the
  -- validation, or of the encoding.
  abbrev pub Broken : AccessRequest → Error → Type 0
  Broken req e =
      ((ports.list_by_tenant req.tenant_id ≡ err e) × (is_deprecated e ≡ true))
      ⊎ ((loaded : List Policy) × (ports.list_by_tenant req.tenant_id ≡ ok loaded)
          × ((validate_policies loaded ≡ err e)
              ⊎ ((valid : List Policy) × (validate_policies loaded ≡ ok valid)
                  × (hash_policies ports.encode ports.digest
                        (filter_policies_for_upstream valid req.upstream.id)
                      ≡ err e))))

module _ (valkey : ValkeyServer) (ports : Ports) where
  open valkey use {Server}

  abbrev pub SetDescribed : AccessRequest → World Server → Prepared → World Server → Type 0
  SetDescribed req w (prepared effective hash) w' =
      (w'.server ≡ w.server) × InForce ports req effective hash
  SetDescribed req w (invalid_set d) w' =
      (e : Error) × Broken ports req e × (d ≡ invalid_decision ports.now req e)

  -- A broken policy set ends in a denial, whatever the cache, the repository and the audit trail
  -- return.
  pub deny-ok :
      (req : AccessRequest) (e : Error) (w : World Server)
      → (deny_for_invalid_policy_set valkey ports req e w).0 ≡ ok (invalid_decision ports.now req e)
  unfolding deny_for_invalid_policy_set record_audit_best_effort cache_decision append_decision
      invalid_recorded
  deny-ok req e w = ground arith

  pub refuse-ok :
      (req : AccessRequest) (e : Error) (w : World Server)
      → (refuse_set valkey ports req e w).0 ≡ ok (invalid_set (invalid_decision ports.now req e))
  unfolding refuse_set
  refuse-ok req e w = ground (arith, deny-ok req e w)

  -- If the policies of the tenant are of an old configuration, are not valid or cannot be encoded,
  -- preparePolicySet ends in a denial that carries the error, and in no error, whatever the cache,
  -- the repository and the audit trail do.
  pub prepare-fail_closed :
      (req : AccessRequest) (e : Error) (w : World Server)
      → Broken ports req e
      → (prepare_policy_set valkey ports req w).0
        ≡ ok (invalid_set (invalid_decision ports.now req e))
  unfolding prepare_policy_set prepare_listed prepare_valid prepare_hashed
  prepare-fail_closed req e w (inl (listed, old)) = rw (listed, old) (refuse-ok req e w)
  prepare-fail_closed req e w (inr (loaded, listed, inl invalid)) =
      rw (listed, invalid) (refuse-ok req e w)
  prepare-fail_closed req e w (inr (loaded, listed, inr (valid, checked, hash))) =
      rw (listed, checked, hash) (refuse-ok req e w)

  refuse-Ensures :
      (req : AccessRequest) (e : Error) (w w₁ : World Server)
      → Broken ports req e
      → Ensures (SetDescribed req w) (refuse_set valkey ports req e w₁)
  refuse-Ensures req e w w₁ b =
      result-Ensures (SetDescribed req w) (refuse_set valkey ports req e w₁) _ (refuse-ok req e w₁)
        λ _. (e, b, refl)

  prepare_hashed-Ensures :
      (req : AccessRequest) (loaded valid : List Policy) (r : Result String) (w : World Server)
      → ports.list_by_tenant req.tenant_id ≡ ok loaded
      → validate_policies loaded ≡ ok valid
      → hash_policies ports.encode ports.digest (filter_policies_for_upstream valid req.upstream.id)
        ≡ r
      → Ensures
          (SetDescribed req w)
          (prepare_hashed valkey ports req (filter_policies_for_upstream valid req.upstream.id) r w)
  unfolding prepare_hashed
  prepare_hashed-Ensures req loaded valid (err e) w listed checked h =
      refuse-Ensures req e w w (inr (loaded, listed, inr (valid, checked, h)))
  prepare_hashed-Ensures req loaded valid (ok hash) w listed checked h =
      after_audit valkey ports (SetDescribed req w) _
        (pure (prepared (filter_policies_for_upstream valid req.upstream.id) hash)) w
        λ w' q. (q.0, (loaded, valid, listed, checked, refl, h))

  prepare_valid-Ensures :
      (req : AccessRequest) (loaded : List Policy) (r : Result (List Policy)) (w : World Server)
      → ports.list_by_tenant req.tenant_id ≡ ok loaded
      → validate_policies loaded ≡ r
      → Ensures (SetDescribed req w) (prepare_valid valkey ports req r w)
  unfolding prepare_valid
  prepare_valid-Ensures req loaded (err e) w listed h =
      refuse-Ensures req e w w (inr (loaded, listed, inl h))
  prepare_valid-Ensures req loaded (ok valid) w listed h =
      prepare_hashed-Ensures req loaded valid _ w listed h refl

  prepare_listed-Ensures :
      (req : AccessRequest) (r : Result (List Policy)) (w : World Server)
      → ports.list_by_tenant req.tenant_id ≡ r
      → Ensures (SetDescribed req w) (prepare_listed valkey ports req r w)
  unfolding prepare_listed record_audit_best_effort
  prepare_listed-Ensures req (ok loaded) w h = prepare_valid-Ensures req loaded _ w h refl
  prepare_listed-Ensures req (err e) w h = elim (Bool-cases (is_deprecated e)) [
    | inl old ↦ rw old (refuse-Ensures req e w w (inl (h, old)))
    | inr other ↦ rw other tt
  ]

  pub prepare-Ensures :
      (req : AccessRequest) (w : World Server)
      → Ensures (SetDescribed req w) (prepare_policy_set valkey ports req w)
  unfolding prepare_policy_set
  prepare-Ensures req w = prepare_listed-Ensures req _ w refl
