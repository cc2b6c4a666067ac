-- ===== src/Service/Access.antt =====
-- internal/core/service/proxy.go and its parts proxy_enrichment.go and proxy_dependency.go: the
-- evaluation of one access request.
pub mod Accounted
pub mod Origin
pub mod Allowed
pub mod Returns
use dependency_firewall.Base.{
  Bool, List, Option, String, [], if◌then◌else◌, none, not, some, ◌==◌, ◌∷◌,
}
use dependency_firewall.Domain.Artifact.{ArtifactMetadata}
use dependency_firewall.Domain.Dependency.{DependencyContext, normalize_context, scope_unknown}
use dependency_firewall.Domain.Message.{Result, annotate, err, ok}
use dependency_firewall.Domain.Policy.{
  AccessRequest, Decision, DecisionOutcome, EvaluationReason, Policy,
}
use dependency_firewall.Infra.DecisionCache.{ValkeyServer}
use dependency_firewall.Policy.Evaluator.{evaluate}
use dependency_firewall.Service.Effects.{Eff, Ports, pure, raise, ◌>>=◌, ◌>>◌}
use dependency_firewall.Service.Lookup.{
  audit_event, lookup_cached_decision, normalize_access_request, record_audit,
  record_audit_best_effort, resolve_mutable_npm_reference, resolve_mutable_oci_reference,
}
use dependency_firewall.Service.Prepare.{
  Prepared, append_decision, cache_decision, invalid_set, prepare_policy_set, prepared,
}
use dependency_firewall.Service.Requests.{
  apply_mutable_tag_metadata, should_enrich_artifact, should_persist_decision,
  should_resolve_dependency_context,
}

module _ (valkey : ValkeyServer) (ports : Ports) where
  open valkey use {Server}

  -- attachDependencyContext, below the call of Resolve
  context_resolved : AccessRequest → Result (DependencyContext × Bool) → Eff Server AccessRequest
  context_resolved req (err e) = raise e
  context_resolved req (ok (resolved, enqueued)) = do
    let context = normalize_context ports.digest resolved
    let req' = record req { dependency_context = some context }
    let message =
        if enqueued
        then "dependency graph miss; resolver request enqueued"
        else if context.scope == scope_unknown
        then "dependency graph context unknown"
        else "dependency graph context hit"
    record_audit valkey ports (audit_event req' "dependency_graph_context" message)
    pure req'

  unfoldable pub attach_dependency_context : AccessRequest → List Policy → Eff Server AccessRequest
  unfolding context_resolved
  attach_dependency_context req policies =
      if not (should_resolve_dependency_context req policies)
      then pure req
      else context_resolved req (ports.resolve_context req)

  -- enrichArtifact, below the call of EnrichWithCorrelation
  enriched : AccessRequest → Result (Option ArtifactMetadata) → Eff Server (Option ArtifactMetadata)
  enriched req (ok metadata) = pure metadata
  enriched req (err e) = do
    record_audit_best_effort valkey ports (audit_event req "error" "artifact enrichment failed")
    raise (annotate "enriching artifact" e)

  unfoldable pub enrich_artifact : AccessRequest → Eff Server (Option ArtifactMetadata)
  unfolding enriched
  enrich_artifact req = do
    record_audit valkey ports (audit_event req "enrichment_started" "artifact enrichment started")
    enriched req (ports.enrich req)

  -- the audit events of the reasons
  record_reasons : AccessRequest → DecisionOutcome → List EvaluationReason → Eff Server (Unit {0})
  record_reasons req outcome [] = pure tt
  record_reasons req outcome (r ∷ rs) = do
    record_audit valkey ports (record (audit_event req "policy_matched" "") {
      policy_id = r.policy_id;
      outcome = some outcome;
      message = r.message;
    })
    record_reasons req outcome rs

  -- the decision of evaluatePolicies
  unfoldable pub decided : AccessRequest → List Policy → String → Decision
  decided req policies hash = record (evaluate ports.digest ports.now req policies) {
    policy_hash = hash;
    dependency_context = elim req.dependency_context [
      | none ↦ none
      | some c ↦ some (normalize_context ports.digest c)
    ];
  }

  record_computed : AccessRequest → Decision → Eff Server (Unit {0})
  record_computed req d =
      if should_persist_decision req d
      then record_audit valkey ports
          (record (audit_event req "decision_computed" "decision computed") {
            policy_id = d.policy_id;
            outcome = some d.outcome;
            artifact = d.artifact;
          })
      else pure tt

  unfoldable pub evaluate_policies : AccessRequest → List Policy → String → Eff Server Decision
  unfolding record_reasons decided record_computed
  evaluate_policies req policies hash = do
    let d = decided req policies hash
    record_reasons req d.outcome d.reasons
    record_computed req d
    pure d

  -- s.decisions.Record in finalizeDecision, and what follows it
  recorded_decision : AccessRequest → Decision → Result (Unit {0}) → Eff Server (Unit {0})
  unfolding append_decision
  recorded_decision req d (err e) =
      record_audit_best_effort valkey ports
        (record (audit_event req "error" "decision persistence failed") {
          policy_id = d.policy_id;
          outcome = some d.outcome;
          artifact = d.artifact;
        })
  recorded_decision req d (ok _) = do
    append_decision valkey ports d
    record_audit valkey ports (record (audit_event req "decision_persisted" "decision persisted") {
      policy_id = d.policy_id;
      outcome = some d.outcome;
      artifact = d.artifact;
    })

  -- the second half of finalizeDecision
  persist_decision : AccessRequest → Decision → Eff Server (Unit {0})
  unfolding recorded_decision
  persist_decision req d =
      if not (should_persist_decision req d)
      then pure tt
      else recorded_decision req d (ports.record_decision d)

  unfoldable pub finalize_decision : AccessRequest → Decision → Eff Server (Unit {0})
  unfolding persist_decision
  finalize_decision req d = do cache_decision valkey ports req d; persist_decision req d

  -- Evaluate, below the enrichment
  evaluate_enriched :
      AccessRequest → Bool → List Policy → String → Option ArtifactMetadata → Eff Server Decision
  evaluate_enriched req was_mutable policies hash metadata = do
    let req' = apply_mutable_tag_metadata (record req { metadata = metadata }) was_mutable
    d ← evaluate_policies req' policies hash
    finalize_decision req' d
    pure d

  pub enrich_if_needed : AccessRequest → List Policy → Eff Server (Option ArtifactMetadata)
  enrich_if_needed req policies =
      if should_enrich_artifact req policies then enrich_artifact req else pure req.metadata

  -- below the look-up of the cache
  evaluate_looked_up :
      AccessRequest → Bool → List Policy → String → Option Decision → Eff Server Decision
  unfolding evaluate_enriched enrich_if_needed
  evaluate_looked_up req was_mutable policies hash (some cached) = pure cached
  evaluate_looked_up req was_mutable policies hash none = do
    metadata ← enrich_if_needed req policies
    evaluate_enriched req was_mutable policies hash metadata

  -- below preparePolicySet
  evaluate_prepared : AccessRequest → Bool → Prepared → Eff Server Decision
  unfolding evaluate_looked_up
  evaluate_prepared req was_mutable (invalid_set d) = pure d
  evaluate_prepared req was_mutable (prepared policies hash) = do
    req' ← attach_dependency_context req policies
    hit ← lookup_cached_decision valkey ports req'
    evaluate_looked_up req' was_mutable policies hash hit

  -- Evaluate, below normalizeAccessRequest
  evaluate_canonical : AccessRequest → Eff Server Decision
  unfolding evaluate_prepared
  evaluate_canonical req₁ = do
    resolved ← resolve_mutable_oci_reference valkey ports req₁
    req ← resolve_mutable_npm_reference valkey ports resolved.0
    set ← prepare_policy_set valkey ports req
    evaluate_prepared req resolved.1 set

  -- AccessService.Evaluate
  unfoldable pub evaluate_access : AccessRequest → Eff Server Decision
  unfolding evaluate_canonical
  evaluate_access req = normalize_access_request valkey ports req >>= evaluate_canonical
