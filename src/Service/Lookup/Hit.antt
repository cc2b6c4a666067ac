-- ===== src/Service/Lookup/Hit.antt =====
-- What a look-up in the decision cache gives (lookupCachedDecision in
-- internal/core/service/proxy_lookup.go).
use dependency_firewall.Base.{Bool-cases, Option, inl, inr, none, refl, some, true, ◌≡◌}
use dependency_firewall.Domain.Message.{Result, err, is_cache_miss, ok}
use dependency_firewall.Domain.Policy.{AccessRequest, Decision}
use dependency_firewall.Infra.DecisionCache.{ValkeyServer, cache_get}
use dependency_firewall.Service.Effects.{Ports, World, pure}
use dependency_firewall.Service.Lookup.{
  audit_event, cache_lookup_failed, cached_result, lookup_cached_decision, record_audit,
  record_audit_best_effort, use_cached_decision,
}
use dependency_firewall.Service.Lookup.Caller.{after_audit}
use dependency_firewall.Service.Requests.{context_cache_hash, should_cache_decision}
use dependency_firewall.Service.Triple.{Ensures, second-Ensures}

module _ (valkey : ValkeyServer) (ports : Ports) where
  open valkey use {Server}

  -- a hit is the cached decision, with the time of the look-up
  pub data Hit (asked : AccessRequest) (server : Server) : Option Decision → Type 0 where
    is_miss : Hit asked server none
    is_hit :
        should_cache_decision asked ≡ true
        → (cached : Decision)
        → cache_get valkey ports.digest ports.now asked.tenant_id asked.artifact
            (context_cache_hash ports.digest asked)
            server
          ≡ ok cached
        → Hit asked server (some (record cached { cached_at = some ports.now }))

  cached_result-Ensures :
      (asked : AccessRequest) (r : Result Decision) (w : World Server)
      → should_cache_decision asked ≡ true
      → cache_get valkey ports.digest ports.now asked.tenant_id asked.artifact
          (context_cache_hash ports.digest asked)
          w.server
        ≡ r
      → Ensures (λ hit _. Hit asked w.server hit) (cached_result valkey ports asked r w)
  unfolding cached_result use_cached_decision cache_lookup_failed
  cached_result-Ensures asked (ok cached) w cacheable h =
      after_audit valkey ports (λ hit _. Hit asked w.server hit) _
        (pure (some (record cached { cached_at = some ports.now }))) w
        λ _ _. is_hit cacheable cached h
  cached_result-Ensures asked (err e) w cacheable h = elim (Bool-cases (is_cache_miss e)) [
    | inl miss ↦ rw miss (
        second-Ensures (λ hit _. Hit asked w.server hit)
          (record_audit valkey ports
            (audit_event asked "decision_cache_miss" "decision cache miss"))
          (λ _. pure none) w (λ _ _. is_miss))
    | inr other ↦ rw other (
        second-Ensures (λ hit _. Hit asked w.server hit)
          (record_audit_best_effort valkey ports
            (audit_event asked "error" "decision cache lookup failed"))
          (λ _. pure none) w (λ _ _. is_miss))
  ]

  pub lookup-Ensures :
      (asked : AccessRequest) (w : World Server)
      → Ensures (λ hit _. Hit asked w.server hit) (lookup_cached_decision valkey ports asked w)
  unfolding lookup_cached_decision
  lookup-Ensures asked w = elim (Bool-cases (should_cache_decision asked)) [
    | inl cacheable ↦ rw cacheable (cached_result-Ensures asked _ w cacheable refl)
    | inr unversioned ↦ rw unversioned is_miss
  ]
