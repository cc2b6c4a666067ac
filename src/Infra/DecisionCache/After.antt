-- ===== src/Infra/DecisionCache/After.antt =====
-- What a look-up (internal/infra/valkey/decision.go) gives after one entry has changed.
use mathlib.Core.Path.{fun_ext}
use dependency_firewall.Base.{
  Bool, Option, String, ap, false, if◌then◌else◌, refl, true, ℤ, ◌==◌, ◌∙◌, ◌≡◌,
}
use dependency_firewall.Domain.Artifact.{ArtifactIdentity}
use dependency_firewall.Domain.Message.{Result, err, ok, ◌>>=◌}
use dependency_firewall.Domain.Policy.{Decision}
use dependency_firewall.Infra.DecisionCache.{
  ValkeyServer, cache_get, current_generation, decision_generation_key, decision_key, found,
}
use dependency_firewall.Service.Worker.{annotated}

pub annotated-ok :
    {A : Type 0} (what : String) (r : Result A) (a : A) → annotated what r ≡ ok a → r ≡ ok a
annotated-ok what (ok x) a h = h
annotated-ok what (err e) a h = cc

module _ (valkey : ValkeyServer) (digest : String → String) where
  open valkey use {Server}

  -- What a look-up gives once only the entry of `key` has changed: `result` if the key is that of the
  -- look-up, and otherwise what it gave before.
  abbrev pub looked_up_after :
      String → Result Decision → ℤ → String → ArtifactIdentity → String → Server → Result Decision
  looked_up_after key result now tenant a hash s =
      current_generation valkey digest tenant s >>= λ generation.
      if decision_key tenant generation a hash == key
      then result
      else cache_get valkey digest now tenant a hash s

  found-if :
      (b : Bool) (entry : Option String) (before : Result (Option String))
      → (annotated "getting cached decision" (if b then ok entry else before)
          >>= found valkey digest)
        ≡ (if b
            then found valkey digest entry
            else (annotated "getting cached decision" before >>= found valkey digest))
  found-if true entry before = refl
  found-if false entry before = refl

  generation-cases :
      (key : String) (result : Result Decision) (now : ℤ) (tenant : String) (a : ArtifactIdentity)
      (hash : String) (s : Server) (r : Result ℤ)
      → current_generation valkey digest tenant s ≡ r
      → (r >>= λ g.
          if decision_key tenant g a hash == key
          then result
          else (annotated "getting cached decision"
                (valkey.get now (decision_key tenant g a hash) s)
              >>= found valkey digest))
        ≡ looked_up_after key result now tenant a hash s
  unfolding cache_get
  generation-cases key result now tenant a hash s (err e) h = rw h refl
  generation-cases key result now tenant a hash s (ok g) h = rw h refl

  -- where `s'` has the counters of `s` and its entries but one
  pub cache_get-after :
      (key : String) (entry : Option String) (now : ℤ) (tenant : String) (a : ArtifactIdentity)
      (hash : String) (s s' : Server)
      → ((counter : String) → valkey.get_text counter s' ≡ valkey.get_text counter s)
      → ((k : String) → valkey.get now k s' ≡ (if k == key then ok entry else valkey.get now k s))
      → cache_get valkey digest now tenant a hash s'
        ≡ looked_up_after key (found valkey digest entry) now tenant a hash s
  unfolding cache_get current_generation
  cache_get-after key entry now tenant a hash s s' counters entries =
      let g₀ = current_generation valkey digest tenant s in
      let same : current_generation valkey digest tenant s' ≡ g₀ =
        rw (counters (decision_generation_key tenant)) refl in
      ap
        (λ r. r >>= λ g.
          annotated "getting cached decision" (valkey.get now (decision_key tenant g a hash) s')
          >>= found valkey digest)
        same
      ∙ ap (λ (f : ℤ → Result Decision). g₀ >>= f)
          (fun_ext λ g.
            ap (λ r. annotated "getting cached decision" r >>= found valkey digest)
              (entries (decision_key tenant g a hash))
            ∙ found-if _ entry (valkey.get now (decision_key tenant g a hash) s))
      ∙ generation-cases key (found valkey digest entry) now tenant a hash s g₀ refl
