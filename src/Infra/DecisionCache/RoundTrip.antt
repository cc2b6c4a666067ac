-- ===== src/Infra/DecisionCache/RoundTrip.antt =====
-- What a look-up gives after a decision was stored (internal/infra/valkey/decision.go).
use dependency_firewall.Base.{Option, String, if◌then◌else◌, some, ℕ, ℤ, ◌==◌, ◌≡◌}
use dependency_firewall.Domain.Artifact.{ArtifactIdentity}
use dependency_firewall.Domain.Message.{>>=-eq-ok, ok}
use dependency_firewall.Domain.Policy.{Decision}
use dependency_firewall.Infra.DecisionCache.{
  ValkeyServer, cache_get, cache_set, current_generation, decision_key, decoded, found,
  stored_context_hash,
}
use dependency_firewall.Infra.DecisionCache.After.{annotated-ok, cache_get-after, looked_up_after}
use dependency_firewall.Service.Worker.{annotated}

module _ (valkey : ValkeyServer) (digest : String → String) where
  open valkey use {Server}

  module _
      (get-set : (now : ℤ) (ttl : Option ℕ) (key bytes k : String) (s s' : Server)
        → valkey.set now ttl key bytes s ≡ ok s'
        → valkey.get now k s' ≡ (if k == key then ok (some bytes) else valkey.get now k s))
      (get_text-set : (now : ℤ) (ttl : Option ℕ) (key bytes counter : String) (s s' : Server)
        → valkey.set now ttl key bytes s ≡ ok s'
        → valkey.get_text counter s' ≡ valkey.get_text counter s) where
    -- If Set succeeds, then it has encoded the decision, and every look-up whose key is that of the
    -- decision, in the current generation of its tenant and with the hash of its normalized context,
    -- gives what the text decodes to, or the error of decoding it; every other look-up gives what it
    -- gave before. The server is taken to give a text that it was handed under its key as long as it
    -- has not expired, and to keep the other texts and the counters.
    pub cache_get-cache_set :
        (now : ℤ) (ttl : ℕ) (d : Decision) (s s' : Server) (tenant : String) (a : ArtifactIdentity)
        (hash : String)
        → cache_set valkey digest now ttl d s ≡ ok s'
        → (generation : ℤ) × (bytes : String) × (current_generation valkey digest d.tenant_id s
            ≡ ok generation)
          × (valkey.marshal d ≡ ok bytes)
          × (cache_get valkey digest now tenant a hash s'
              ≡ looked_up_after valkey digest
                  (decision_key d.tenant_id generation d.artifact
                    (stored_context_hash valkey digest d))
                  (decoded valkey digest bytes)
                  now
                  tenant
                  a
                  hash
                  s)
    unfolding cache_set found
    cache_get-cache_set now ttl d s s' tenant a hash h =
        let (bytes, marshalled, stored) =
          >>=-eq-ok _ (annotated "marshalling decision for cache" (valkey.marshal d)) s' h in
        let (g, current, written) =
          >>=-eq-ok _ (current_generation valkey digest d.tenant_id s) s' stored in
        let done = annotated-ok "setting cached decision" _ s' written in
        (
          g,
          bytes,
          current,
          annotated-ok "marshalling decision for cache" (valkey.marshal d) bytes marshalled,
          cache_get-after valkey digest
              (decision_key d.tenant_id g d.artifact (stored_context_hash valkey digest d))
              (some bytes) now tenant a hash s s'
              (λ counter. get_text-set now _ _ bytes counter s s' done)
              (λ k. get-set now _ _ bytes k s s' done),
        )
