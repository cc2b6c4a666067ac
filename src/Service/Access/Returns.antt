-- ===== src/Service/Access/Returns.antt =====
-- AccessService.Evaluate (internal/core/service/proxy.go) returns a decision where the adapters that
-- it cannot do without answer.
use dependency_firewall.Base.{
  Bool, Bool-cases, List, Option, String, [], arith, false, inl, inr, none, refl, some, true, ◌∷◌,
  ◌≡◌,
}
use dependency_firewall.Domain.Artifact.{ArtifactIdentity, normalize_artifact_identity}
use dependency_firewall.Domain.Dependency.{normalize_context}
use dependency_firewall.Domain.Message.{Result, err, is_ok, is_ok-value, ok}
use dependency_firewall.Domain.Policy.{
  AccessRequest, Decision, DecisionOutcome, EvaluationReason, Policy,
}
use dependency_firewall.Infra.DecisionCache.{ValkeyServer}
use dependency_firewall.Service.Access.{
  attach_dependency_context, context_resolved, decided, enrich_artifact, enrich_if_needed, enriched,
  evaluate_access, evaluate_canonical, evaluate_enriched, evaluate_looked_up, evaluate_policies,
  evaluate_prepared, finalize_decision, persist_decision, record_computed, record_reasons,
  recorded_decision,
}
use dependency_firewall.Service.Effects.{Ports, World, pure, ◌>>=◌, ◌>>◌}
use dependency_firewall.Service.Lookup.{
  audit_event, lookup_cached_decision, normalize_access_request, record_audit_best_effort,
  resolve_mutable_npm_reference, resolve_mutable_oci_reference,
}
use dependency_firewall.Service.Lookup.Returns.{
  audit-Returns, audited-Returns, lookup-Returns, normalize-Returns, resolve_npm-Returns,
  resolve_oci-Returns,
}
use dependency_firewall.Service.Prepare.{
  Prepared, append_decision, cache_decision, invalid_set, prepare_policy_set, prepared,
}
use dependency_firewall.Service.Prepare.Returns.{prepare-Returns}
use dependency_firewall.Service.Requests.{
  apply_mutable_tag_metadata, should_enrich_artifact, should_persist_decision,
  should_resolve_dependency_context,
}
use dependency_firewall.Service.Triple.{>>=-Returns, Returns}

module _ (valkey : ValkeyServer) (ports : Ports) (fail_open : ports.audit_fail_closed ≡ false) where
  open valkey use {Server}

  attach-Returns :
      (resolves : (r : AccessRequest) → is_ok (ports.resolve_context r) ≡ true)
      (req : AccessRequest) (policies : List Policy) (w : World Server)
      → Returns (attach_dependency_context valkey ports req policies w)
  unfolding attach_dependency_context context_resolved
  attach-Returns resolves req policies w =
      let ((c, b), h) = is_ok-value _ (resolves req) in
      elim (Bool-cases (should_resolve_dependency_context req policies)) [
        | inl needed ↦
            rw (needed, h)
              (audited-Returns valkey ports fail_open _
                (pure (record req { dependency_context = some (normalize_context ports.digest c) }))
                w (λ _. refl))
        | inr not_needed ↦ rw not_needed refl
      ]

  enrich-Returns :
      (enriches : (r : AccessRequest) → is_ok (ports.enrich r) ≡ true) (req : AccessRequest)
      (policies : List Policy) (w : World Server)
      → Returns (enrich_if_needed valkey ports req policies w)
  unfolding enrich_if_needed enrich_artifact enriched
  enrich-Returns enriches req policies w =
      let (m, h) = is_ok-value _ (enriches req) in
      elim (Bool-cases (should_enrich_artifact req policies)) [
        | inl needed ↦
            rw (needed, h)
              (audited-Returns valkey ports fail_open
                (audit_event req "enrichment_started" "artifact enrichment started")
                (enriched valkey ports req (ok m)) w (λ _. refl))
        | inr not_needed ↦ rw not_needed refl
      ]

  reasons-Returns :
      (req : AccessRequest) (outcome : DecisionOutcome) (rs : List EvaluationReason)
      (w : World Server)
      → Returns (record_reasons valkey ports req outcome rs w)
  unfolding record_reasons
  reasons-Returns req outcome [] w = refl
  reasons-Returns req outcome (r ∷ rs) w =
      audited-Returns valkey ports fail_open _ (record_reasons valkey ports req outcome rs) w
        (reasons-Returns req outcome rs)

  computed-Returns :
      (req : AccessRequest) (d : Decision) (w : World Server)
      → Returns (record_computed valkey ports req d w)
  unfolding record_computed
  computed-Returns req d w = elim (Bool-cases (should_persist_decision req d)) [
    | inl persist ↦ rw persist (audit-Returns valkey ports fail_open _ w)
    | inr skip ↦ rw skip refl
  ]

  evaluate_policies-Returns :
      (req : AccessRequest) (policies : List Policy) (hash : String) (w : World Server)
      → Returns (evaluate_policies valkey ports req policies hash w)
  unfolding evaluate_policies
  evaluate_policies-Returns req policies hash w =
      let d = decided valkey ports req policies hash in
      >>=-Returns (record_reasons valkey ports req d.outcome d.reasons)
        (λ _. record_computed valkey ports req d >> pure d) w
        (reasons-Returns req d.outcome d.reasons w)
        λ _ w'.
          >>=-Returns (record_computed valkey ports req d) (λ _. pure d) w'
            (computed-Returns req d w') (λ _ _. refl)

  recorded-Returns :
      (req : AccessRequest) (d : Decision) (r : Result (Unit {0})) (w : World Server)
      → Returns (recorded_decision valkey ports req d r w)
  unfolding recorded_decision append_decision record_audit_best_effort
  recorded-Returns req d (err e) w = refl
  recorded-Returns req d (ok _) w = audit-Returns valkey ports fail_open _ _

  persist-Returns :
      (req : AccessRequest) (d : Decision) (w : World Server)
      → Returns (persist_decision valkey ports req d w)
  unfolding persist_decision
  persist-Returns req d w = elim (Bool-cases (should_persist_decision req d)) [
    | inl persist ↦ rw persist (recorded-Returns req d _ w)
    | inr skip ↦ rw skip refl
  ]

  cache-Returns :
      (req : AccessRequest) (d : Decision) (w : World Server)
      → Returns (cache_decision valkey ports req d w)
  unfolding cache_decision
  cache-Returns req d w = ground arith

  finalize-Returns :
      (req : AccessRequest) (d : Decision) (w : World Server)
      → Returns (finalize_decision valkey ports req d w)
  unfolding finalize_decision
  finalize-Returns req d w =
      >>=-Returns (cache_decision valkey ports req d) (λ _. persist_decision valkey ports req d) w
        (cache-Returns req d w) (λ _. persist-Returns req d)

  module _ (resolves : (r : AccessRequest) → is_ok (ports.resolve_context r) ≡ true)
      (enriches : (r : AccessRequest) → is_ok (ports.enrich r) ≡ true) where
    looked_up-Returns :
        (req : AccessRequest) (was : Bool) (policies : List Policy) (hash : String)
        (hit : Option Decision) (w : World Server)
        → Returns (evaluate_looked_up valkey ports req was policies hash hit w)
    unfolding evaluate_looked_up evaluate_enriched
    looked_up-Returns req was policies hash (some d) w = refl
    looked_up-Returns req was policies hash none w =
        >>=-Returns (enrich_if_needed valkey ports req policies)
          (evaluate_enriched valkey ports req was policies hash) w
          (enrich-Returns enriches req policies w)
          λ m w₁.
            let judged = apply_mutable_tag_metadata (record req { metadata = m }) was in
            >>=-Returns (evaluate_policies valkey ports judged policies hash)
              (λ d. finalize_decision valkey ports judged d >> pure d) w₁
              (evaluate_policies-Returns judged policies hash w₁)
              λ d w₂.
                >>=-Returns (finalize_decision valkey ports judged d) (λ _. pure d) w₂
                  (finalize-Returns judged d w₂) (λ _ _. refl)

    prepared-Returns :
        (req : AccessRequest) (was : Bool) (set : Prepared) (w : World Server)
        → Returns (evaluate_prepared valkey ports req was set w)
    unfolding evaluate_prepared
    prepared-Returns req was (invalid_set d) w = refl
    prepared-Returns req was (prepared effective hash) w =
        >>=-Returns (attach_dependency_context valkey ports req effective)
          (λ asked.
            lookup_cached_decision valkey ports asked
            >>= evaluate_looked_up valkey ports asked was effective hash)
          w (attach-Returns resolves req effective w)
          λ asked w₁.
            >>=-Returns (lookup_cached_decision valkey ports asked)
              (evaluate_looked_up valkey ports asked was effective hash) w₁
              (lookup-Returns valkey ports fail_open asked w₁)
              (looked_up-Returns asked was effective hash)

    canonical-Returns :
        (loads : (tenant : String) → is_ok (ports.list_by_tenant tenant) ≡ true)
        (req : AccessRequest) (w : World Server)
        → Returns (evaluate_canonical valkey ports req w)
    unfolding evaluate_canonical
    canonical-Returns loads req₁ w =
        >>=-Returns (resolve_mutable_oci_reference valkey ports req₁)
          (λ resolved. resolve_mutable_npm_reference valkey ports resolved.0 >>= λ req.
            prepare_policy_set valkey ports req >>= evaluate_prepared valkey ports req resolved.1)
          w (resolve_oci-Returns valkey ports fail_open req₁ w)
          λ r w₁.
            >>=-Returns (resolve_mutable_npm_reference valkey ports r.0)
              (λ req.
                prepare_policy_set valkey ports req >>= evaluate_prepared valkey ports req r.1)
              w₁ (resolve_npm-Returns valkey ports fail_open r.0 w₁)
              λ req w₂.
                >>=-Returns (prepare_policy_set valkey ports req)
                  (evaluate_prepared valkey ports req r.1) w₂
                  (prepare-Returns valkey ports fail_open loads req w₂) (prepared-Returns req r.1)

  -- Evaluate returns a decision for every request whose artifact has a canonical form, if the audit
  -- trail lets the workflow go on when it cannot record, and the policies, the contexts and the
  -- metadata are served: whatever the cache, the resolution of references and the decision log do.
  pub evaluate_access-decides :
      (resolves : (r : AccessRequest) → is_ok (ports.resolve_context r) ≡ true)
      (enriches : (r : AccessRequest) → is_ok (ports.enrich r) ≡ true)
      (loads : (tenant : String) → is_ok (ports.list_by_tenant tenant) ≡ true) (req : AccessRequest)
      (a : ArtifactIdentity) (w : World Server)
      → normalize_artifact_identity req.artifact ≡ ok a
      → (d : Decision) × ((evaluate_access valkey ports req w).0 ≡ ok d)
  unfolding evaluate_access
  evaluate_access-decides resolves enriches loads req a w h = is_ok-value _ (
      >>=-Returns (normalize_access_request valkey ports req) (evaluate_canonical valkey ports) w
        (normalize-Returns valkey ports fail_open req a w h)
        (canonical-Returns resolves enriches loads))
