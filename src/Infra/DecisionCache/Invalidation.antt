-- ===== src/Infra/DecisionCache/Invalidation.antt =====
-- What a look-up gives after Invalidate (internal/infra/valkey/decision.go).
use dependency_firewall.Base.{String, if◌then◌else◌, none, ℤ, ◌==◌, ◌≡◌}
use dependency_firewall.Domain.Artifact.{ArtifactIdentity}
use dependency_firewall.Domain.Message.{>>=-eq-ok, err, ok}
use dependency_firewall.Infra.DecisionCache.{
  ValkeyServer, cache_get, cache_invalidate, cache_miss_error, current_generation, decision_key,
  found,
}
use dependency_firewall.Infra.DecisionCache.After.{annotated-ok, cache_get-after, looked_up_after}

module _ (valkey : ValkeyServer) (digest : String → String) where
  open valkey use {Server}

  -- If Invalidate of an artifact succeeds, then a look-up whose key is that of the artifact without a
  -- dependency context, in the current generation of the tenant, misses; every other look-up, also
  -- that of the artifact with a context that gives another key, gives what it gave before. The server
  -- is taken to drop the text of a key that it was told to delete, and to keep the other texts and
  -- the counters.
  pub cache_get-cache_invalidate :
      (get-del : (now : ℤ) (key k : String) (s s' : Server)
        → valkey.del key s ≡ ok s'
        → valkey.get now k s' ≡ (if k == key then ok none else valkey.get now k s))
      (get_text-del : (key counter : String) (s s' : Server)
        → valkey.del key s ≡ ok s'
        → valkey.get_text counter s' ≡ valkey.get_text counter s)
      (now : ℤ) (tenant' : String) (b : ArtifactIdentity) (s s' : Server) (tenant : String)
      (a : ArtifactIdentity) (hash : String)
      → cache_invalidate valkey digest tenant' b s ≡ ok s'
      → (generation : ℤ) × (current_generation valkey digest tenant' s ≡ ok generation)
        × (cache_get valkey digest now tenant a hash s'
            ≡ looked_up_after valkey digest
                (decision_key tenant' generation b "")
                (err cache_miss_error)
                now
                tenant
                a
                hash
                s)
  unfolding cache_invalidate found
  cache_get-cache_invalidate get-del get_text-del now tenant' b s s' tenant a hash h =
      let (g, current, deleted) = >>=-eq-ok _ (current_generation valkey digest tenant' s) s' h in
      let done = annotated-ok "invalidating cached decision" _ s' deleted in
      (
        g,
        current,
        cache_get-after valkey digest (decision_key tenant' g b "") none now tenant a hash s s'
            (λ counter. get_text-del _ counter s s' done) (λ k. get-del now _ k s s' done),
      )
