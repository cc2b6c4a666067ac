-- ===== src/Service/Access/Accounted.antt =====
-- Where a decision of AccessService.Evaluate (internal/core/service/proxy.go) comes from.
use dependency_firewall.Base.{
  Bool, Bool-cases, List, Option, String, false, inl, inr, refl, some, true, ◌≡◌,
}
use dependency_firewall.Domain.Artifact.{ArtifactMetadata}
use dependency_firewall.Domain.Dependency.{DependencyContext, normalize_context}
use dependency_firewall.Domain.Message.{Error, Result, err, ok}
use dependency_firewall.Domain.Policy.{AccessRequest, Decision, Policy}
use dependency_firewall.Infra.DecisionCache.{ValkeyServer, cache_get}
use dependency_firewall.Service.Access.{
  attach_dependency_context, context_resolved, decided, enrich_artifact, enrich_if_needed, enriched,
}
use dependency_firewall.Service.Effects.{Ports, World, pure}
use dependency_firewall.Service.Lookup.{audit_event, record_audit_best_effort}
use dependency_firewall.Service.Lookup.Caller.{after_audit}
use dependency_firewall.Service.Prepare.{invalid_decision}
use dependency_firewall.Service.Prepare.InForce.{Broken, InForce}
use dependency_firewall.Service.Requests.{
  apply_mutable_tag_metadata, context_cache_hash, should_cache_decision, should_enrich_artifact,
  should_resolve_dependency_context,
}
use dependency_firewall.Service.Triple.{Ensures}

module _ (ports : Ports) where
  -- the request with the dependency context that the policies call for
  pub data Attached (req : AccessRequest) (policies : List Policy) (asked : AccessRequest)
      : Type 0 where
    left_out :
        should_resolve_dependency_context req policies ≡ false
        → asked ≡ req
        → Attached req policies asked
    attached :
        should_resolve_dependency_context req policies ≡ true
        → (context : DependencyContext) (enqueued : Bool)
        → ports.resolve_context req ≡ ok (context, enqueued)
        → asked ≡ record req { dependency_context = some (normalize_context ports.digest context) }
        → Attached req policies asked

  -- the metadata that the policies call for
  pub data Informed (asked : AccessRequest) (policies : List Policy)
      (metadata : Option ArtifactMetadata) : Type 0 where
    as_given :
        should_enrich_artifact asked policies ≡ false
        → metadata ≡ asked.metadata
        → Informed asked policies metadata
    fetched :
        should_enrich_artifact asked policies ≡ true
        → ports.enrich asked ≡ ok metadata
        → Informed asked policies metadata

module _ (valkey : ValkeyServer) (ports : Ports) where
  open valkey use {Server}

  -- The decision `d` for the resolved request `req`, with the cache as `server` has it: the denial
  -- of a policy set that is not usable; the cached decision, with the time of the look-up; or the
  -- decision of the evaluator on the policies in force.
  pub data Accounted (server : Server) (req : AccessRequest) (was_mutable : Bool) (d : Decision)
      : Type 0 where
    refused :
        (e : Error)
        → Broken ports req e
        → d ≡ invalid_decision ports.now req e
        → Accounted server req was_mutable d
    replayed :
        (effective : List Policy) (hash : String)
        → InForce ports req effective hash
        → (asked : AccessRequest) → Attached ports req effective asked
        → should_cache_decision asked ≡ true
        → (cached : Decision)
        → cache_get valkey ports.digest ports.now asked.tenant_id asked.artifact
            (context_cache_hash ports.digest asked)
            server
          ≡ ok cached
        → d ≡ record cached { cached_at = some ports.now }
        → Accounted server req was_mutable d
    evaluated :
        (effective : List Policy) (hash : String)
        → InForce ports req effective hash
        → (asked : AccessRequest) → Attached ports req effective asked
        → (metadata : Option ArtifactMetadata) → Informed ports asked effective metadata
        → d
          ≡ decided valkey ports
              (apply_mutable_tag_metadata (record asked { metadata = metadata }) was_mutable)
              effective
              hash
        → Accounted server req was_mutable d

  context_resolved-Ensures :
      (req : AccessRequest) (r : Result (DependencyContext × Bool)) (policies : List Policy)
      → ports.resolve_context req ≡ r
      → should_resolve_dependency_context req policies ≡ true
      → (w : World Server)
      → Ensures
          (λ asked w'. (w'.server ≡ w.server) × Attached ports req policies asked)
          (context_resolved valkey ports req r w)
  unfolding context_resolved
  context_resolved-Ensures req (err e) policies h needed w = tt
  context_resolved-Ensures req (ok (c, b)) policies h needed w =
      after_audit valkey ports
        (λ asked w'. (w'.server ≡ w.server) × Attached ports req policies asked) _
        (pure (record req { dependency_context = some (normalize_context ports.digest c) })) w
        λ w' q. (q.0, attached needed c b h refl)

  pub attach-Ensures :
      (req : AccessRequest) (policies : List Policy) (w : World Server)
      → Ensures
          (λ asked w'. (w'.server ≡ w.server) × Attached ports req policies asked)
          (attach_dependency_context valkey ports req policies w)
  unfolding attach_dependency_context
  attach-Ensures req policies w =
      elim (Bool-cases (should_resolve_dependency_context req policies)) [
        | inl needed ↦ rw needed (context_resolved-Ensures req _ policies refl needed w)
        | inr not_needed ↦ rw not_needed (refl, left_out not_needed refl)
      ]

  enriched-Ensures :
      (asked : AccessRequest) (r : Result (Option ArtifactMetadata)) (policies : List Policy)
      → ports.enrich asked ≡ r
      → should_enrich_artifact asked policies ≡ true
      → (w : World Server)
      → Ensures (λ m _. Informed ports asked policies m) (enriched valkey ports asked r w)
  unfolding enriched record_audit_best_effort
  enriched-Ensures asked (ok m) policies h needed w = fetched needed h
  enriched-Ensures asked (err e) policies h needed w = tt

  pub enrich-Ensures :
      (asked : AccessRequest) (policies : List Policy) (w : World Server)
      → Ensures
          (λ m _. Informed ports asked policies m)
          (enrich_if_needed valkey ports asked policies w)
  unfolding enrich_if_needed enrich_artifact
  enrich-Ensures asked policies w = elim (Bool-cases (should_enrich_artifact asked policies)) [
    | inl needed ↦ rw needed (
        after_audit valkey ports (λ m _. Informed ports asked policies m)
          (audit_event asked "enrichment_started" "artifact enrichment started")
          (enriched valkey ports asked (ports.enrich asked)) w
          (λ w' _. enriched-Ensures asked _ policies refl needed w'))
    | inr not_needed ↦ rw not_needed (as_given not_needed refl)
  ]
