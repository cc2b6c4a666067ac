-- ===== src/Service/Access/Allowed.antt =====
-- When AccessService.Evaluate (internal/core/service/proxy.go) allows a request.
use dependency_firewall.Base.{
  Bool, List, Option, String, any, ap, false, if◌then◌else◌, inl, inr, refl, sym, true, ◌&&◌, ◌∙◌,
  ◌≡◌, ◌⊎◌,
}
use dependency_firewall.Domain.Artifact.{
  ArtifactIdentity, ArtifactMetadata, normalize_artifact_identity,
}
use dependency_firewall.Domain.Message.{ok}
use dependency_firewall.Domain.Policy.{AccessRequest, Decision, Policy, allow, deny}
use dependency_firewall.Infra.DecisionCache.{ValkeyServer, cache_get}
use dependency_firewall.Policy.Evaluator.Outcome.{outcome-evaluate}
use dependency_firewall.Policy.Evaluator.Spec.{enforces}
use dependency_firewall.Service.Access.{decided, evaluate_access}
use dependency_firewall.Service.Access.Accounted.{
  Accounted, Attached, Informed, evaluated, refused, replayed,
}
use dependency_firewall.Service.Access.Origin.{evaluate_access-Accounted}
use dependency_firewall.Service.Effects.{Ports, World}
use dependency_firewall.Service.Lookup.Caller.{by_tag, pinned_request}
use dependency_firewall.Service.Prepare.{invalid_decision}
use dependency_firewall.Service.Prepare.InForce.{InForce}
use dependency_firewall.Service.Requests.{apply_mutable_tag_metadata, context_cache_hash}

allow-if : (b : Bool) → (if b then deny else allow) ≡ allow → b ≡ false
allow-if true h = cc
allow-if false h = refl

module _ (valkey : ValkeyServer) (ports : Ports) where
  open valkey use {Server}

  -- Nothing denies: the cached decision allows, or no enabled policy in force enforces a denial of
  -- the request with its context and metadata.
  abbrev pub Undenied : Server → Bool → List Policy → AccessRequest → Type 0
  Undenied server was effective asked =
      ((cached : Decision) × (cache_get valkey ports.digest ports.now asked.tenant_id asked.artifact
            (context_cache_hash ports.digest asked) server
          ≡ ok cached)
        × (cached.outcome ≡ allow))
      ⊎ ((metadata : Option ArtifactMetadata) × Informed ports asked effective metadata
          × (any
                (λ p.
                  p.enabled
                  && enforces ports.digest ports.now
                      (apply_mutable_tag_metadata (record asked { metadata = metadata }) was) p)
                effective
              ≡ false))

  -- The policies in force are valid, and nothing denies.
  abbrev pub Permitted : Server → AccessRequest → Bool → Type 0
  Permitted server req was =
      (effective : List Policy) × (hash : String) × (asked : AccessRequest) × InForce ports req
        effective hash
      × Attached ports req effective asked
      × Undenied server was effective asked

  Accounted-allow :
      (server : Server) (req : AccessRequest) (was : Bool) (d : Decision)
      → Accounted valkey ports server req was d
      → d.outcome ≡ allow
      → Permitted server req was
  unfolding invalid_decision decided
  Accounted-allow server req was d (refused e b h) allowed =
      let impossible : deny ≡ allow = sym (ap (λ x. x.outcome) h) ∙ allowed in cc
  Accounted-allow server req was d (replayed effective hash force asked at c cached found h)
        allowed =
      (
        effective,
        hash,
        asked,
        force,
        at,
        inl (cached, found, sym (ap (λ x. x.outcome) h) ∙ allowed),
      )
  Accounted-allow server req was d (evaluated effective hash force asked at m informed h) allowed =
      let judged = apply_mutable_tag_metadata (record asked { metadata = m }) was in
      let outcome = outcome-evaluate ports.digest ports.now judged effective in
      (
        effective,
        hash,
        asked,
        force,
        at,
        inr (m, informed, allow-if _ (sym outcome ∙ sym (ap (λ x. x.outcome) h) ∙ allowed)),
      )

  -- If Evaluate allows a request, then the policies of the tenant are valid, and of those in force
  -- for it no enabled one enforces a denial of it, unless the cache holds a decision that allows it.
  -- The request that they judge is the one that was asked, with the canonical identity of its
  -- artifact, with the digest of its tag or the version of its dist-tag, if the upstream tells it,
  -- and with the context and the metadata that the policies call for.
  pub evaluate_access-allow :
      (req₀ : AccessRequest) (w w' : World Server) (d : Decision)
      → evaluate_access valkey ports req₀ w ≡ (ok d, w')
      → d.outcome ≡ allow
      → (a : ArtifactIdentity) × (normalize_artifact_identity req₀.artifact ≡ ok a)
        × Permitted w.server (pinned_request valkey ports (record req₀ { artifact = a })) (by_tag a)
  evaluate_access-allow req₀ w w' d h allowed =
      let (a, canonical, same, accounted) = evaluate_access-Accounted valkey ports req₀ w w' d h in
      let req = pinned_request valkey ports (record req₀ { artifact = a }) in
      (a, canonical, Accounted-allow w.server req (by_tag a) d accounted allowed)
