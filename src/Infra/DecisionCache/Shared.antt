-- ===== src/Infra/DecisionCache/Shared.antt =====
-- What the key of a cached decision (internal/infra/valkey/decision.go) leaves out.
use mathlib.Core.Path.{fun_ext}
use dependency_firewall.Base.{String, ap, false, refl, ℤ, ◌==◌, ◌≡◌}
use dependency_firewall.Domain.Artifact.{ArtifactIdentity, full_name}
use dependency_firewall.Domain.Artifact.Canonical.{cache_key-digest}
use dependency_firewall.Domain.Message.{◌>>=◌}
use dependency_firewall.Infra.DecisionCache.{
  ValkeyServer, cache_get, current_generation, decision_key, found,
}
use dependency_firewall.Service.Worker.{annotated}

-- Two identities of one ecosystem and name with the same digest have one key, whatever their tags.
pub decision_key-digest :
    (tenant : String) (generation : ℤ) (hash : String) (a b : ArtifactIdentity)
    → b.ecosystem ≡ a.ecosystem
    → full_name b ≡ full_name a
    → b.digest ≡ a.digest
    → (a.digest == "") ≡ false
    → decision_key tenant generation b hash ≡ decision_key tenant generation a hash
unfolding decision_key
decision_key-digest tenant generation hash a b e n d pinned =
    rw (cache_key-digest a b e n d pinned) refl

-- A look-up for an identity with a digest gives what it gives for any other tag of that digest: a
-- decision made for a pull by digest is found for a pull by tag, and one made for a pull by tag
-- for a pull by digest.
pub cache_get-any_tag :
    (valkey : ValkeyServer) (digest : String → String) (now : ℤ) (tenant : String)
    (a : ArtifactIdentity) (tag hash : String) (s : valkey.Server)
    → (a.digest == "") ≡ false
    → cache_get valkey digest now tenant (record a { version = tag }) hash s
      ≡ cache_get valkey digest now tenant a hash s
unfolding cache_get full_name
cache_get-any_tag valkey digest now tenant a tag hash s pinned =
    ap
      (λ (key : ℤ → String). current_generation valkey digest tenant s >>= λ g.
        annotated "getting cached decision" (valkey.get now (key g) s) >>= found valkey digest)
      (fun_ext
        λ g. decision_key-digest tenant g hash a (record a { version = tag }) refl refl refl pinned)
