-- ===== src/Infra/DecisionCache.antt =====
-- internal/infra/valkey/decision.go: the cache of decisions. The server is a parameter, with the
-- errors that its client returns: reading, writing (with a time to live, if any) and deleting a
-- value, and counters. `marshal` and `unmarshal` are the JSON encoder and decoder of a decision.
pub mod After
pub mod Invalidation
pub mod Shared
pub mod RoundTrip
use dependency_firewall.Base.{
  Option, String, format_int, if◌then◌else◌, ltb, none, pos, some, ℕ, ℤ, ◌<>◌, ◌==◌,
}
use dependency_firewall.Domain.Artifact.{ArtifactIdentity, cache_key}
use dependency_firewall.Domain.Dependency.{normalize_context}
use dependency_firewall.Domain.Message.{
  Error, Result, annotate, cache_miss, err, no_message, ok, wrap, ◌>>=◌, ◌>>◌,
}
use dependency_firewall.Domain.Policy.{Decision}

pub record ValkeyServer : Type 1 where
  pub Server : Type 0
  pub get : ℤ → String → Server → Result (Option String)
  pub set : ℤ → Option ℕ → String → String → Server → Result Server
  pub del : String → Server → Result Server
  pub get_text : String → Server → Result (Option String)
  pub incr : String → Server → Result Server
  pub parse_int : String → Result ℤ
  pub marshal : Decision → Result String
  pub unmarshal : String → Result Decision

unfoldable pub decision_generation_key : String → String
decision_generation_key tenant = "decision-generation:" <> tenant

unfoldable pub decision_key : String → ℤ → ArtifactIdentity → String → String
decision_key tenant generation artifact hash =
    "decision:"
    <> tenant
    <> ":"
    <> format_int generation
    <> ":"
    <> (if hash == "" then "none" else hash)
    <> ":"
    <> cache_key artifact

abbrev pub cache_miss_error : Error
cache_miss_error = wrap cache_miss no_message

abbrev annotated {ℓ} : {A : Type ℓ} → String → Result A → Result A
annotated what (ok a) = ok a
annotated what (err e) = err (annotate what e)

module _ (valkey : ValkeyServer) (digest : String → String) where
  open valkey use {Server}

  parse_generation : Option String → Result ℤ
  parse_generation none = ok (pos 0)
  parse_generation (some value) =
      annotated "parsing decision cache generation" (valkey.parse_int value)

  unfoldable pub current_generation : String → Server → Result ℤ
  unfolding parse_generation
  current_generation tenant s = do
    value ←
        annotated "getting decision cache generation"
          (valkey.get_text (decision_generation_key tenant) s)
    parse_generation value

  -- the decision that the JSON text stands for
  abbrev pub decoded : String → Result Decision
  decoded bytes = annotated "unmarshalling cached decision" (valkey.unmarshal bytes)

  pub found : Option String → Result Decision
  found none = err cache_miss_error
  found (some bytes) = decoded bytes

  unfoldable pub cache_get : ℤ → String → ArtifactIdentity → String → Server → Result Decision
  unfolding found
  cache_get now tenant artifact hash s = do
    generation ← current_generation tenant s
    value ←
        annotated "getting cached decision"
          (valkey.get now (decision_key tenant generation artifact hash) s)
    found value

  -- the hash of the context under which a decision is stored
  unfoldable pub stored_context_hash : Decision → String
  stored_context_hash d = elim d.dependency_context [
    | none ↦ ""
    | some c ↦ (normalize_context digest c).context_hash
  ]

  unfoldable pub cache_set : ℤ → ℕ → Decision → Server → Result Server
  cache_set now ttl d s = do
    bytes ← annotated "marshalling decision for cache" (valkey.marshal d)
    generation ← current_generation d.tenant_id s
    annotated "setting cached decision" (
        valkey.set now (if ltb 0 ttl then some ttl else none)
          (decision_key d.tenant_id generation d.artifact (stored_context_hash d)) bytes s)

  unfoldable pub cache_invalidate : String → ArtifactIdentity → Server → Result Server
  cache_invalidate tenant artifact s = do
    generation ← current_generation tenant s
    annotated "invalidating cached decision"
        (valkey.del (decision_key tenant generation artifact "") s)

  unfoldable pub cache_invalidate_tenant : String → Server → Result Server
  cache_invalidate_tenant tenant s =
      annotated "invalidating tenant decision cache"
        (valkey.incr (decision_generation_key tenant) s)
