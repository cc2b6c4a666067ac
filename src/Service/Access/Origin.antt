-- ===== src/Service/Access/Origin.antt =====
-- Every decision of AccessService.Evaluate (internal/core/service/proxy.go) is accounted for.
use mathlib.Core.Path.{subst}
use dependency_firewall.Base.{Bool, List, Option, String, ap, refl, ◌∙◌, ◌≡◌}
use dependency_firewall.Domain.Artifact.{
  ArtifactIdentity, ArtifactMetadata, normalize_artifact_identity,
}
use dependency_firewall.Domain.Message.{ok}
use dependency_firewall.Domain.Policy.{AccessRequest, Decision, Policy}
use dependency_firewall.Infra.DecisionCache.{ValkeyServer}
use dependency_firewall.Service.Access.{
  attach_dependency_context, decided, enrich_if_needed, evaluate_access, evaluate_canonical,
  evaluate_enriched, evaluate_looked_up, evaluate_policies, evaluate_prepared, finalize_decision,
  record_computed, record_reasons,
}
use dependency_firewall.Service.Access.Accounted.{
  Accounted, Attached, Informed, attach-Ensures, enrich-Ensures, evaluated, refused, replayed,
}
use dependency_firewall.Service.Effects.{Ports, World, pure, ◌>>=◌, ◌>>◌}
use dependency_firewall.Service.Lookup.{
  lookup_cached_decision, normalize_access_request, resolve_mutable_npm_reference,
  resolve_mutable_oci_reference,
}
use dependency_firewall.Service.Lookup.Caller.{
  Canonical, NpmPinned, OciPinned, SameSubject, by_tag, normalize-Ensures, npm_pinned, oci_pinned,
  pinned-SameSubject, pinned_request, resolve_npm-Ensures, resolve_oci-Ensures,
}
use dependency_firewall.Service.Lookup.Hit.{Hit, is_hit, is_miss, lookup-Ensures}
use dependency_firewall.Service.Prepare.{Prepared, invalid_set, prepare_policy_set, prepared}
use dependency_firewall.Service.Prepare.InForce.{InForce, SetDescribed, prepare-Ensures}
use dependency_firewall.Service.Requests.{apply_mutable_tag_metadata}
use dependency_firewall.Service.Triple.{
  >>=-Ensures, Ensures, ensures-ok, second-Ensures, weaken-Ensures,
}

module _ (valkey : ValkeyServer) (ports : Ports) where
  open valkey use {Server}

  evaluate_policies-Ensures :
      (req : AccessRequest) (policies : List Policy) (hash : String) (w : World Server)
      → Ensures
          (λ d _. d ≡ decided valkey ports req policies hash)
          (evaluate_policies valkey ports req policies hash w)
  unfolding evaluate_policies
  evaluate_policies-Ensures req policies hash w =
      let d = decided valkey ports req policies hash in
      second-Ensures (λ x _. x ≡ d) (record_reasons valkey ports req d.outcome d.reasons)
        (λ _. record_computed valkey ports req d >> pure d) w
        λ _ w'.
          second-Ensures (λ x _. x ≡ d) (record_computed valkey ports req d) (λ _. pure d) w'
            (λ _ _. refl)

  evaluate_enriched-Ensures :
      (asked : AccessRequest) (was : Bool) (policies : List Policy) (hash : String)
      (metadata : Option ArtifactMetadata) (w : World Server)
      → let req = apply_mutable_tag_metadata (record asked { metadata = metadata }) was in
        Ensures
          (λ d _. d ≡ decided valkey ports req policies hash)
          (evaluate_enriched valkey ports asked was policies hash metadata w)
  unfolding evaluate_enriched
  evaluate_enriched-Ensures asked was policies hash metadata w =
      let req = apply_mutable_tag_metadata (record asked { metadata = metadata }) was in
      let Q : Decision → World Server → Type 0 =
        λ d _. d ≡ decided valkey ports req policies hash in
      >>=-Ensures Q Q (evaluate_policies valkey ports req policies hash)
        (λ d. finalize_decision valkey ports req d >> pure d) w
        (evaluate_policies-Ensures req policies hash w)
        λ d w' h.
          second-Ensures Q (finalize_decision valkey ports req d) (λ _. pure d) w' (λ _ _. h)

  looked_up-Ensures :
      (server : Server) (req : AccessRequest) (was : Bool) (effective : List Policy) (hash : String)
      (asked : AccessRequest) (hit : Option Decision) (w : World Server)
      → InForce ports req effective hash
      → Attached ports req effective asked
      → Hit valkey ports asked server hit
      → Ensures
          (λ d _. Accounted valkey ports server req was d)
          (evaluate_looked_up valkey ports asked was effective hash hit w)
  unfolding evaluate_looked_up
  looked_up-Ensures server req was effective hash asked _ w force at (is_hit cacheable c h) =
      replayed effective hash force asked at cacheable c h refl
  looked_up-Ensures server req was effective hash asked _ w force at is_miss =
      >>=-Ensures (λ m _. Informed ports asked effective m)
        (λ d _. Accounted valkey ports server req was d)
        (enrich_if_needed valkey ports asked effective)
        (evaluate_enriched valkey ports asked was effective hash) w
        (enrich-Ensures valkey ports asked effective w)
        λ m w' informed.
          weaken-Ensures _ (λ d _. Accounted valkey ports server req was d)
            (evaluate_enriched valkey ports asked was effective hash m w')
            (evaluate_enriched-Ensures asked was effective hash m w')
            λ d _ e. evaluated effective hash force asked at m informed e

  prepared-Ensures :
      (req : AccessRequest) (was : Bool) (set : Prepared) (w w₁ : World Server)
      → SetDescribed valkey ports req w set w₁
      → Ensures
          (λ d _. Accounted valkey ports w.server req was d)
          (evaluate_prepared valkey ports req was set w₁)
  unfolding evaluate_prepared
  prepared-Ensures req was (invalid_set d) w w₁ (e, b, h) = refused e b h
  prepared-Ensures req was (prepared effective hash) w w₁ (same, force) =
      let Q : Decision → World Server → Type 0 = λ d _. Accounted valkey ports w.server req was d in
      >>=-Ensures (λ asked w'. (w'.server ≡ w₁.server) × Attached ports req effective asked) Q
        (attach_dependency_context valkey ports req effective)
        (λ asked.
          lookup_cached_decision valkey ports asked
          >>= evaluate_looked_up valkey ports asked was effective hash)
        w₁ (attach-Ensures valkey ports req effective w₁)
        λ asked w₂ (quiet, at).
          >>=-Ensures (λ hit _. Hit valkey ports asked w₂.server hit) Q
            (lookup_cached_decision valkey ports asked)
            (evaluate_looked_up valkey ports asked was effective hash) w₂
            (lookup-Ensures valkey ports asked w₂)
            λ hit w₃ h.
              looked_up-Ensures w.server req was effective hash asked hit w₃ force at
                (subst (λ s. Hit valkey ports asked s hit) (quiet ∙ same) h)

  transport-Accounted :
      {server server' : Server} {req : AccessRequest} {b b' : Bool} {d : Decision}
      → server' ≡ server
      → b' ≡ b
      → Accounted valkey ports server' req b' d
      → Accounted valkey ports server req b d
  transport-Accounted {server' = s'} {req = req} {b = b} {d = d} p q acc =
      subst (λ s. Accounted valkey ports s req b d) p
        (subst (λ x. Accounted valkey ports s' req x d) q acc)

  -- The decision is accounted for, for the request with the canonical identity of its artifact and
  -- with the digest or the version that its reference stands for.
  abbrev pub Origin : AccessRequest → Server → Decision → Type 0
  Origin req₀ server d =
      (a : ArtifactIdentity) × (normalize_artifact_identity req₀.artifact ≡ ok a)
      × Accounted valkey ports server (pinned_request valkey ports (record req₀ { artifact = a }))
          (by_tag a) d

  origin :
      (req₀ req₁ req₂ req₃ : AccessRequest) (was : Bool) (server server' : Server) (d : Decision)
      → normalize_artifact_identity req₀.artifact ≡ ok req₁.artifact
      → req₁ ≡ record req₀ { artifact = req₁.artifact }
      → req₂ ≡ oci_pinned valkey ports req₁
      → req₃ ≡ npm_pinned valkey ports req₂
      → was ≡ by_tag req₁.artifact
      → server' ≡ server
      → Accounted valkey ports server' req₃ was d
      → Origin req₀ server d
  origin req₀ req₁ req₂ req₃ was server server' d canonical e₁ e₂ e₃ flag same acc =
      let pinned : req₃ ≡ pinned_request valkey ports (record req₀ { artifact = req₁.artifact }) =
        e₃ ∙ ap (npm_pinned valkey ports) (e₂ ∙ ap (oci_pinned valkey ports) e₁) in
      (
        req₁.artifact,
        canonical,
        subst (λ r. Accounted valkey ports server r (by_tag req₁.artifact) d) pinned
            (transport-Accounted same flag acc),
      )

  resolved-Ensures :
      (req₀ req₁ : AccessRequest) (w w₁ : World Server)
      → Canonical req₀ w req₁ w₁
      → Ensures (λ d _. Origin req₀ w.server d) (evaluate_canonical valkey ports req₁ w₁)
  unfolding evaluate_canonical
  resolved-Ensures req₀ req₁ w w₁ (q₁, canonical, e₁) =
      let Q : Decision → World Server → Type 0 = λ d _. Origin req₀ w.server d in
      >>=-Ensures (OciPinned valkey ports req₁ w₁) Q
        (resolve_mutable_oci_reference valkey ports req₁)
        (λ resolved. resolve_mutable_npm_reference valkey ports resolved.0 >>= λ req.
          prepare_policy_set valkey ports req >>= evaluate_prepared valkey ports req resolved.1)
        w₁ (resolve_oci-Ensures valkey ports req₁ w₁)
        λ r w₂ (q₂, e₂, flag).
          >>=-Ensures (NpmPinned valkey ports r.0 w₂) Q
            (resolve_mutable_npm_reference valkey ports r.0)
            (λ req. prepare_policy_set valkey ports req >>= evaluate_prepared valkey ports req r.1)
            w₂ (resolve_npm-Ensures valkey ports r.0 w₂)
            λ req w₃ (q₃, e₃).
              >>=-Ensures (SetDescribed valkey ports req w₃) Q (prepare_policy_set valkey ports req)
                (evaluate_prepared valkey ports req r.1) w₃ (prepare-Ensures valkey ports req w₃)
                λ set w₄ described.
                  weaken-Ensures (λ d _. Accounted valkey ports w₃.server req r.1 d) Q
                    (evaluate_prepared valkey ports req r.1 set w₄)
                    (prepared-Ensures req r.1 set w₃ w₄ described)
                    λ d _ acc.
                      origin req₀ req₁ r.0 req r.1 w.server w₃.server d canonical e₁ e₂ e₃ flag
                        (q₃.0 ∙ q₂.0 ∙ q₁.0) acc

  evaluate_access-Origin :
      (req₀ : AccessRequest) (w w' : World Server) (d : Decision)
      → evaluate_access valkey ports req₀ w ≡ (ok d, w')
      → Origin req₀ w.server d
  unfolding evaluate_access
  evaluate_access-Origin req₀ w w' d h =
      let Q : Decision → World Server → Type 0 = λ x _. Origin req₀ w.server x in
      ensures-ok Q (evaluate_access valkey ports req₀ w) d w'
        (>>=-Ensures (Canonical req₀ w) Q (normalize_access_request valkey ports req₀)
          (evaluate_canonical valkey ports) w (normalize-Ensures valkey ports req₀ w)
          λ req₁ w₁ canonical. resolved-Ensures req₀ req₁ w w₁ canonical)
        h

  -- A decision that Evaluate returns is the denial of a policy set that is not usable, the cached
  -- decision of the request, or what the evaluator decides by the valid policies in force with the
  -- context and the metadata that they call for, with the tag flag of the canonical identity. The
  -- request is the one that was asked, with the canonical identity of its artifact and with the
  -- digest of its tag or the version of its dist-tag, if the upstream tells it; its tenant and
  -- upstream stay, and its ecosystem, namespace and name are the canonical ones.
  pub evaluate_access-Accounted :
      (req₀ : AccessRequest) (w w' : World Server) (d : Decision)
      → evaluate_access valkey ports req₀ w ≡ (ok d, w')
      → (a : ArtifactIdentity) × (normalize_artifact_identity req₀.artifact ≡ ok a)
        × SameSubject
            (record req₀ { artifact = a })
            (pinned_request valkey ports (record req₀ { artifact = a }))
        × Accounted valkey ports w.server
            (pinned_request valkey ports (record req₀ { artifact = a }))
            (by_tag a)
            d
  evaluate_access-Accounted req₀ w w' d h =
      let (a, canonical, accounted) = evaluate_access-Origin req₀ w w' d h in
      (a, canonical, pinned-SameSubject valkey ports (record req₀ { artifact = a }), accounted)
