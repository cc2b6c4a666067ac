-- ===== src/Infra/Tests.antt =====
-- A server that keeps its values for ever, and inputs for the theorems about internal/infra/valkey.
use dependency_firewall.Base.{
  Option, String, [], ap, arith, format_int, format_nat, if◌then◌else◌, none, pos, refl, some, sym,
  ℕ, ℤ, ◌==◌, ◌∙◌, ◌≡◌,
}
use dependency_firewall.Domain.Artifact.{ArtifactIdentity, cache_key}
use dependency_firewall.Domain.Message.{Result, err, errorf, ok, plain}
use dependency_firewall.Domain.Policy.{Decision, DecisionOutcome, allow, deny}
use dependency_firewall.Infra.DecisionCache.{
  ValkeyServer, cache_get, cache_invalidate, cache_miss_error, cache_set, current_generation,
  decision_key, decoded, stored_context_hash,
}
use dependency_firewall.Infra.DecisionCache.After.{looked_up_after}
use dependency_firewall.Infra.DecisionCache.Invalidation.{cache_get-cache_invalidate}
use dependency_firewall.Infra.DecisionCache.RoundTrip.{cache_get-cache_set}
use dependency_firewall.Infra.DecisionCache.Shared.{cache_get-any_tag}

abbrev pub same_hash : String → String
same_hash s = s

abbrev image : ArtifactIdentity
image = record {
  ecosystem = "oci";
  namespace = "library";
  name = "nginx";
  version = "";
  digest = "sha256:ab";
}

abbrev allowed : Decision
allowed = record {
  id = "";
  tenant_id = "t1";
  artifact = image;
  outcome = allow;
  policy_id = "";
  policy_hash = "";
  dependency_context = none;
  reason = plain "no matching policy";
  reasons = [];
  warnings = [];
  cached_at = none;
  evaluated_at = pos 0;
}

-- a decision stands under the name of its outcome
abbrev encoded : DecisionOutcome → String
encoded allow = "allow"
encoded deny = "deny"

abbrev decode : String → Result Decision
decode bytes =
    if bytes == "allow"
    then ok allowed
    else if bytes == "deny"
    then ok (record allowed { outcome = deny })
    else err (errorf (plain "invalid character"))

abbrev pub memory : ValkeyServer
memory = record {
  Server = String → Option String;
  get = λ now key s. ok (s key);
  set = λ now ttl key d s. ok (λ k. if k == key then some d else s k);
  del = λ key s. ok (λ k. if k == key then none else s k);
  get_text = λ key s. ok none;
  incr = λ key s. ok s;
  parse_int = λ text. ok (pos 0);
  marshal = λ d. ok (encoded d.outcome);
  unmarshal = decode;
}

-- the server that holds the decision, under the key of the digest
abbrev holding : String → Option String
holding k = if k == "decision:t1:0:none:oci:library/nginx@sha256:ab" then some "allow" else none

cache_get-any_tag_example :
    cache_get memory same_hash (pos 0) "t1" (record image { version = "latest" }) "" holding
    ≡ cache_get memory same_hash (pos 0) "t1" image "" holding
cache_get-any_tag_example =
    cache_get-any_tag memory same_hash (pos 0) "t1" image "latest" "" holding refl

abbrev read : String → Result (String → Option String) → Result (Option String)
read key (ok s) = ok (s key)
read key (err e) = err e

memory-get-set :
    (now : ℤ) (ttl : Option ℕ) (key bytes k : String) (s s' : String → Option String)
    → memory.set now ttl key bytes s ≡ ok s'
    → memory.get now k s' ≡ (if k == key then ok (some bytes) else memory.get now k s)
memory-get-set now ttl key bytes k s s' h = sym (ap (read k) h) ∙ ground arith

memory-get_text-set :
    (now : ℤ) (ttl : Option ℕ) (key bytes counter : String) (s s' : String → Option String)
    → memory.set now ttl key bytes s ≡ ok s'
    → memory.get_text counter s' ≡ memory.get_text counter s
memory-get_text-set now ttl key bytes counter s s' h = refl

cache_get-cache_set_example :
    (generation : ℤ) × (bytes : String) × (current_generation memory same_hash "t1" (λ _. none)
      ≡ ok generation)
    × (memory.marshal allowed ≡ ok bytes)
    × (cache_get memory same_hash (pos 0) "t1" image "" holding
        ≡ looked_up_after memory same_hash
            (decision_key "t1" generation image (stored_context_hash memory same_hash allowed))
            (decoded memory same_hash bytes)
            (pos 0)
            "t1"
            image
            ""
            (λ _. none))
unfolding cache_set current_generation decision_key cache_key format_int format_nat
    stored_context_hash
cache_get-cache_set_example =
    cache_get-cache_set memory same_hash memory-get-set memory-get_text-set (pos 0) 300000000000
      allowed (λ _. none) holding "t1" image "" refl

-- The text of the decision is decoded to the decision.
test-cache_get : cache_get memory same_hash (pos 0) "t1" image "" holding ≡ ok allowed
unfolding cache_get current_generation decision_key cache_key format_int format_nat
test-cache_get = refl

memory-get-del :
    (now : ℤ) (key k : String) (s s' : String → Option String)
    → memory.del key s ≡ ok s'
    → memory.get now k s' ≡ (if k == key then ok none else memory.get now k s)
memory-get-del now key k s s' h = sym (ap (read k) h) ∙ ground arith

memory-get_text-del :
    (key counter : String) (s s' : String → Option String)
    → memory.del key s ≡ ok s'
    → memory.get_text counter s' ≡ memory.get_text counter s
memory-get_text-del key counter s s' h = refl

-- the server after the deletion
abbrev emptied : String → Option String
emptied k = if k == "decision:t1:0:none:oci:library/nginx@sha256:ab" then none else holding k

cache_get-cache_invalidate_example :
    (generation : ℤ) × (current_generation memory same_hash "t1" holding ≡ ok generation)
    × (cache_get memory same_hash (pos 0) "t1" image "c1" emptied
        ≡ looked_up_after memory same_hash
            (decision_key "t1" generation image "")
            (err cache_miss_error)
            (pos 0)
            "t1"
            image
            "c1"
            holding)
unfolding cache_invalidate current_generation decision_key cache_key format_int format_nat
cache_get-cache_invalidate_example =
    cache_get-cache_invalidate memory same_hash memory-get-del memory-get_text-del (pos 0) "t1"
      image holding emptied "t1" image "c1" refl
