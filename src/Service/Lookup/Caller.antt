-- ===== src/Service/Lookup/Caller.antt =====
-- The request that the steps before the policies (internal/core/service/proxy_lookup.go) hand on.
use dependency_firewall.Base.{
  Bool, Bool-cases, Option, String, ap, arith, if◌then◌else◌, inl, inr, none, refl, some, true,
  ◌&&◌, ◌==◌, ◌∙◌, ◌≡◌,
}
use dependency_firewall.Domain.Artifact.{
  ArtifactIdentity, ecosystem_oci, is_mutable_reference, is_npm_dist_tag,
  normalize_artifact_identity,
}
use dependency_firewall.Domain.Capability.{Upstream}
use dependency_firewall.Domain.Message.{Result, err, ok}
use dependency_firewall.Domain.Policy.{AccessRequest}
use dependency_firewall.Infra.DecisionCache.{ValkeyServer}
use dependency_firewall.Service.Effects.{AuditEvent, Eff, Ports, World, pure, ◌>>◌}
use dependency_firewall.Service.Lookup.{
  append_event, audit_failed, normalize_access_request, normalized, npm_resolved, npm_upstream_for,
  oci_resolved, record_audit, record_audit_best_effort, resolve_mutable_npm_reference,
  resolve_mutable_oci_reference, resolve_npm_from, resolve_oci_from, upstream_for,
}
use dependency_firewall.Service.Triple.{>>=-Ensures, Ensures, Quiet, weaken-Ensures}

-- Two requests that the policies of one tenant judge under one name.
abbrev pub SameSubject : AccessRequest → AccessRequest → Type 0
SameSubject a b =
    (b.tenant_id ≡ a.tenant_id)
    × (b.upstream ≡ a.upstream)
    × (b.artifact.ecosystem ≡ a.artifact.ecosystem)
    × (b.artifact.namespace ≡ a.artifact.namespace)
    × (b.artifact.name ≡ a.artifact.name)

-- whether the image is named by a tag
abbrev pub by_tag : ArtifactIdentity → Bool
by_tag a = a.ecosystem == ecosystem_oci && is_mutable_reference a

-- what the first step leaves of a request and of the state
abbrev pub Canonical :
    {Server : Type 0} → AccessRequest → World Server → AccessRequest → World Server → Type 0
Canonical req w req' w' =
    Quiet w w'
    × (normalize_artifact_identity req.artifact ≡ ok req'.artifact)
    × (req' ≡ record req { artifact = req'.artifact })

abbrev pub to_option : Result String → Option String
to_option (ok s) = some s
to_option (err e) = none

abbrev pub with_digest : AccessRequest → Option String → AccessRequest
with_digest req none = req
with_digest req (some digest) = record req { artifact = record req.artifact { digest = digest } }

abbrev pub with_version : AccessRequest → Option String → AccessRequest
with_version req none = req
with_version req (some version) = record req {
  artifact = record req.artifact { version = version };
}

module _ (valkey : ValkeyServer) (ports : Ports) where
  open valkey use {Server}

  -- what the upstream, if there is one, says the reference stands for
  abbrev pub reference : Option Upstream → ArtifactIdentity → Option String
  reference none a = none
  reference (some upstream) a = to_option (ports.resolve_reference upstream a)

  -- The request with the digest that an image's tag stands for, if that is known.
  abbrev pub oci_pinned : AccessRequest → AccessRequest
  oci_pinned req =
      if by_tag req.artifact
      then with_digest req (reference (upstream_for valkey ports req ecosystem_oci) req.artifact)
      else req

  -- The request with the version that an npm dist-tag stands for, if that is known.
  abbrev pub npm_pinned : AccessRequest → AccessRequest
  npm_pinned req =
      if is_npm_dist_tag req.artifact
      then with_version req (reference (npm_upstream_for valkey ports req) req.artifact)
      else req

  -- The request that the policies judge.
  abbrev pub pinned_request : AccessRequest → AccessRequest
  pinned_request req = npm_pinned (oci_pinned req)

  -- what the steps leave of a request and of the state
  abbrev pub OciPinned : AccessRequest → World Server → AccessRequest × Bool → World Server → Type 0
  OciPinned req w (req', was) w' =
      Quiet w w' × (req' ≡ oci_pinned req) × (was ≡ by_tag req.artifact)

  abbrev pub NpmPinned : AccessRequest → World Server → AccessRequest → World Server → Type 0
  NpmPinned req w req' w' = Quiet w w' × (req' ≡ npm_pinned req)

  record_audit-Quiet :
      (event : AuditEvent) (w : World Server) → Quiet w (record_audit valkey ports event w).1
  unfolding record_audit append_event audit_failed
  record_audit-Quiet event w = ground arith

  pub audit-Ensures :
      (event : AuditEvent) (w : World Server)
      → Ensures (λ _ w'. Quiet w w') (record_audit valkey ports event w)
  unfolding record_audit append_event audit_failed
  audit-Ensures event w = ground arith

  pub best_effort-Ensures :
      (event : AuditEvent) (w : World Server)
      → Ensures (λ _ w'. Quiet w w') (record_audit_best_effort valkey ports event w)
  unfolding record_audit_best_effort
  best_effort-Ensures event w = record_audit-Quiet event w

  -- what holds after an audit event and `next`, if it holds after `next` wherever only the trail
  -- has changed
  pub after_audit :
      {B : Type 0} (Q : B → World Server → Type 0) (event : AuditEvent) (next : Eff Server B)
      (w : World Server)
      → ((w' : World Server) → Quiet w w' → Ensures Q (next w'))
      → Ensures Q ((record_audit valkey ports event >> next) w)
  after_audit Q event next w k =
      >>=-Ensures (λ _ w'. Quiet w w') Q (record_audit valkey ports event) (λ _. next) w
        (audit-Ensures event w) (λ _. k)

  pub after_best_effort :
      {B : Type 0} (Q : B → World Server → Type 0) (event : AuditEvent) (next : Eff Server B)
      (w : World Server)
      → ((w' : World Server) → Quiet w w' → Ensures Q (next w'))
      → Ensures Q ((record_audit_best_effort valkey ports event >> next) w)
  after_best_effort Q event next w k =
      >>=-Ensures (λ _ w'. Quiet w w') Q (record_audit_best_effort valkey ports event) (λ _. next) w
        (best_effort-Ensures event w) (λ _. k)

  normalized-Ensures :
      (req : AccessRequest) (r : Result ArtifactIdentity)
      → normalize_artifact_identity req.artifact ≡ r
      → (w w₁ : World Server) → Quiet w w₁
      → Ensures (Canonical req w) (normalized valkey ports req r w₁)
  unfolding normalized record_audit_best_effort
  normalized-Ensures req (err e) h w w₁ q = tt
  normalized-Ensures req (ok a) h w w₁ q =
      after_audit (Canonical req w) _ (pure (record req { artifact = a })) w₁
        λ w₂ q₂. ((q₂.0 ∙ q.0, q₂.1 ∙ q.1), h, refl)

  pub normalize-Ensures :
      (req : AccessRequest) (w : World Server)
      → Ensures (Canonical req w) (normalize_access_request valkey ports req w)
  unfolding normalize_access_request
  normalize-Ensures req w =
      after_audit (Canonical req w) _ (normalized valkey ports req _) w
        (normalized-Ensures req _ refl w)

  -- The references.
  oci_resolved-Ensures :
      (req : AccessRequest) (upstream : Upstream) (r : Result String) (w : World Server)
      → Ensures
          (λ res w'. Quiet w w' × (res ≡ (with_digest req (to_option r), true)))
          (oci_resolved valkey ports req upstream r w)
  unfolding oci_resolved
  oci_resolved-Ensures req upstream (err e) w =
      after_best_effort (λ res w'. Quiet w w' × (res ≡ (req, true))) _ (pure (req, true)) w
        λ w' q. (q, refl)
  oci_resolved-Ensures req upstream (ok d) w =
      let req' = with_digest req (some d) in
      after_audit (λ res w'. Quiet w w' × (res ≡ (req', true))) _ (pure (req', true)) w
        λ w' q. (q, refl)

  resolve_oci_from-Ensures :
      (req : AccessRequest) (o : Option Upstream) (w : World Server)
      → Ensures
          (λ res w'. Quiet w w' × (res ≡ (with_digest req (reference o req.artifact), true)))
          (resolve_oci_from valkey ports req o w)
  unfolding resolve_oci_from
  resolve_oci_from-Ensures req none w = ((refl, refl), refl)
  resolve_oci_from-Ensures req (some u) w = oci_resolved-Ensures req u _ w

  pub resolve_oci-Ensures :
      (req : AccessRequest) (w : World Server)
      → Ensures (OciPinned req w) (resolve_mutable_oci_reference valkey ports req w)
  unfolding resolve_mutable_oci_reference
  resolve_oci-Ensures req w = elim (Bool-cases (req.artifact.ecosystem == ecosystem_oci)) [
    | inr other ↦ rw other ((refl, refl), rw other refl, rw other refl)
    | inl oci ↦ elim (Bool-cases (is_mutable_reference req.artifact)) [
      | inr fixed ↦ rw (oci, fixed) ((refl, refl), rw (oci, fixed) refl, rw (oci, fixed) refl)
      | inl tag ↦
          rw (oci, tag)
            (weaken-Ensures _ (OciPinned req w) _
              (resolve_oci_from-Ensures req (upstream_for valkey ports req ecosystem_oci) w)
              λ res w' (q, e).
                (q, rw (oci, tag) (ap (λ x. x.0) e), rw (oci, tag) (ap (λ x. x.1) e)))
    ]
  ]

  npm_resolved-Ensures :
      (req : AccessRequest) (upstream : Upstream) (r : Result String) (w : World Server)
      → Ensures
          (λ req' w'. Quiet w w' × (req' ≡ with_version req (to_option r)))
          (npm_resolved valkey ports req upstream r w)
  unfolding npm_resolved
  npm_resolved-Ensures req upstream (err e) w =
      after_best_effort (λ req' w'. Quiet w w' × (req' ≡ req)) _ (pure req) w λ w' q. (q, refl)
  npm_resolved-Ensures req upstream (ok v) w =
      let pinned = with_version req (some v) in
      after_audit (λ req' w'. Quiet w w' × (req' ≡ pinned)) _ (pure pinned) w λ w' q. (q, refl)

  resolve_npm_from-Ensures :
      (req : AccessRequest) (o : Option Upstream) (w : World Server)
      → Ensures
          (λ req' w'. Quiet w w' × (req' ≡ with_version req (reference o req.artifact)))
          (resolve_npm_from valkey ports req o w)
  unfolding resolve_npm_from
  resolve_npm_from-Ensures req none w = ((refl, refl), refl)
  resolve_npm_from-Ensures req (some u) w = npm_resolved-Ensures req u _ w

  pub resolve_npm-Ensures :
      (req : AccessRequest) (w : World Server)
      → Ensures (NpmPinned req w) (resolve_mutable_npm_reference valkey ports req w)
  unfolding resolve_mutable_npm_reference
  resolve_npm-Ensures req w = elim (Bool-cases (is_npm_dist_tag req.artifact)) [
    | inl tag ↦ rw tag (
        weaken-Ensures _ (NpmPinned req w) _
          (resolve_npm_from-Ensures req (npm_upstream_for valkey ports req) w)
          λ res w' (q, e). (q, rw tag e))
    | inr pinned ↦ rw pinned ((refl, refl), rw pinned refl)
  ]

  -- The pinned request has the same tenant, upstream, ecosystem, namespace and name.
  digest-SameSubject :
      (req : AccessRequest) (o : Option String) → SameSubject req (with_digest req o)
  digest-SameSubject req none = (refl, refl, refl, refl, refl)
  digest-SameSubject req (some d) = (refl, refl, refl, refl, refl)

  version-SameSubject :
      (req : AccessRequest) (o : Option String) → SameSubject req (with_version req o)
  version-SameSubject req none = (refl, refl, refl, refl, refl)
  version-SameSubject req (some v) = (refl, refl, refl, refl, refl)

  pub pinned-SameSubject : (req : AccessRequest) → SameSubject req (pinned_request req)
  pinned-SameSubject req =
      let o = reference (upstream_for valkey ports req ecosystem_oci) req.artifact in
      let v =
        reference (npm_upstream_for valkey ports (oci_pinned req)) (oci_pinned req).artifact in
      ground (arith, digest-SameSubject req o, version-SameSubject (oci_pinned req) v)
