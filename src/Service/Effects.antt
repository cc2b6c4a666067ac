-- ===== src/Service/Effects.antt =====
-- What a workflow of internal/core/service reads and writes, and the monad that it runs in. An error
-- leaves the state as it was when the error occurred. Logs and traces are left out.
use dependency_firewall.Base.{Bool, List, Option, String, ℤ}
use dependency_firewall.Domain.Artifact.{ArtifactIdentity, ArtifactMetadata}
use dependency_firewall.Domain.Capability.{Upstream}
use dependency_firewall.Domain.Dependency.{DependencyContext}
use dependency_firewall.Domain.Message.{Error, Message, Result, err, ok}
use dependency_firewall.Domain.Policy.{AccessRequest, Decision, DecisionOutcome, Policy}
use dependency_firewall.Policy.Hash.{HashablePolicy}

pub record AuditEvent : Type 0 where
  pub tenant_id : String
  pub correlation_id : String
  pub event_type : String
  pub upstream_id : String
  pub policy_id : String
  pub outcome : Option DecisionOutcome
  pub artifact : ArtifactIdentity
  pub message : Message

-- The adapters that the service calls: each is a function of what it is handed, with the error
-- that the adapter returns. `canceled` is the state of the request's context.
pub record Ports : Type 0 where
  pub now : ℤ
  pub canceled : Bool
  pub is_canceled : Error → Bool
  pub audit_enabled : Bool
  pub audit_fail_closed : Bool
  pub record_event : AuditEvent → Result (Unit {0})
  pub list_by_tenant : String → Result (List Policy)
  pub get_by_ecosystem : String → String → Result Upstream
  pub resolve_reference : Upstream → ArtifactIdentity → Result String
  pub resolve_context : AccessRequest → Result (DependencyContext × Bool)
  pub enrich : AccessRequest → Result (Option ArtifactMetadata)
  pub record_decision : Decision → Result (Unit {0})
  pub encode : List HashablePolicy → Result String
  pub digest : String → String

-- The audit trail, the recorded decisions, and the server of the decision cache.
pub record World (Server : Type 0) : Type 0 where
  pub events : List AuditEvent
  pub recorded : List Decision
  pub server : Server

abbrev pub Eff : Type 0 → Type 0 → Type 0
Eff Server A = World Server → Result A × World Server

module _ {Server A : Type 0} where
  abbrev pub pure : A → Eff Server A
  pure a w = (ok a, w)

  abbrev pub raise : Error → Eff Server A
  raise e w = (err e, w)

  abbrev pub lift : Result A → Eff Server A
  lift r w = (r, w)

module _ {Server A B : Type 0} where
  abbrev pub continue : Result A → (A → Eff Server B) → Eff Server B
  continue (ok a) f w = f a w
  continue (err e) f w = (err e, w)

  infixl 5 ◌>>=◌ ◌>>◌
  abbrev pub ◌>>=◌ : Eff Server A → (A → Eff Server B) → Eff Server B
  ◌>>=◌ m f w = let (r, w') = m w in continue r f w'

  abbrev pub ◌>>◌ : Eff Server A → Eff Server B → Eff Server B
  m >> n = m >>= λ _. n
