-- ===== src/Service/Ingest.antt =====
-- internal/core/service/ingest.go. The repositories are parameters that work on a state `S`; one that
-- is nil is `none`, and so is a pointer or a time that is not there.
pub mod Wakes
use dependency_firewall.Base.{
  Bool, List, Option, String, false, if◌then◌else◌, none, some, trim_space, true, ℕ, ℤ, ◌<>◌, ◌==◌,
}
use dependency_firewall.Domain.Artifact.{ArtifactIdentity}
use dependency_firewall.Domain.Dependency.{DependencyContext}
use dependency_firewall.Domain.Message.{Error, Result, err, errorf, ok, plain}
use dependency_firewall.Domain.Policy.{Decision}
use dependency_firewall.Infra.NpmGraph.Depths.{GraphEdge}
use dependency_firewall.Infra.NpmGraph.LockFile.{GraphNode}
use dependency_firewall.Service.Effects.{AuditEvent}
use dependency_firewall.Service.Jobs.{ResolveRequest, SummaryKey}
use dependency_firewall.Service.Notifier.{Notifier, notify, watch_resolve_jobs}

-- fmt.Errorf("what: why")
abbrev pub refuse : String → String → Error
refuse what why = errorf (plain (what <> ": " <> why))

abbrev pub Call : Type 0 → Type 0 → Type 0
Call S A = S → Result A × S

-- The tests that stand before a call of a repository: that it is there, and that a tenant is named.
module _ {S P A : Type 0} where
  unfoldable pub for_tenant : String → String → String → (P → Call S A) → Option P → Call S A
  for_tenant what missing tenant call none s = (err (refuse what missing), s)
  for_tenant what missing tenant call (some port) s =
      if trim_space tenant == ""
      then (err (refuse what "tenant_id is required"), s)
      else call port s

pub record DecisionRepository (S : Type 0) : Type 0 where
  pub record_decision : Decision → Call S (Unit {0})
  pub get_by_artifact : String → ArtifactIdentity → Call S Decision
  pub list_by_tenant : String → ℤ → ℤ → String → Call S (List Decision)
  pub has_recent_allow : String → String → String → String → Call S Bool

pub record GraphResolver (S : Type 0) : Type 0 where
  pub claim_next : String → ℤ → Call S (Option ResolveRequest)
  pub complete : ResolveRequest → List GraphNode → List GraphEdge → String → Call S (Unit {0})
  pub fail : ResolveRequest → String → ℤ → Call S (Unit {0})

-- ProxyIngestService; the notifier is part of the state.
pub record IngestPorts (S : Type 0) : Type 0 where
  pub decisions : Option (DecisionRepository S)
  pub record_event : Option (AuditEvent → Call S (Unit {0}))
  pub enqueue : Option (ResolveRequest → Call S Bool)
  pub lookup_context : Option (SummaryKey → Call S DependencyContext)
  pub resolver : Option (GraphResolver S)

module _ {S : Type 0} (ports : IngestPorts S) where
  -- RecordDecision: the decision is tested between the repository and the tenant.
  record_for : Option Decision → Option (DecisionRepository S) → Call S (Unit {0})
  record_for d none s = (err (refuse "recording decision" "repository unavailable"), s)
  record_for none (some r) s = (err (refuse "recording decision" "decision is required"), s)
  record_for (some d) (some r) s =
      if trim_space d.tenant_id == ""
      then (err (refuse "recording decision" "tenant_id is required"), s)
      else r.record_decision d s

  unfoldable pub ingest_decision : Option Decision → Call S (Unit {0})
  unfolding record_for
  ingest_decision d s = record_for d ports.decisions s

  unfoldable pub get_decision_by_artifact : String → ArtifactIdentity → Call S Decision
  unfolding for_tenant
  get_decision_by_artifact tenant a s =
      for_tenant "getting decision by artifact" "repository unavailable" tenant
        (λ (r : DecisionRepository S). r.get_by_artifact tenant a) ports.decisions s

  unfoldable pub list_decisions_by_tenant : String → ℤ → ℤ → String → Call S (List Decision)
  unfolding for_tenant
  list_decisions_by_tenant tenant limit offset search_text s =
      for_tenant "listing decisions" "repository unavailable" tenant
        (λ (r : DecisionRepository S). r.list_by_tenant tenant limit offset search_text)
        ports.decisions s

  unfoldable pub has_recent_allow_for : String → String → String → String → Call S Bool
  unfolding for_tenant
  has_recent_allow_for tenant ecosystem namespace name s =
      for_tenant "checking recent allow" "repository unavailable" tenant
        (λ (r : DecisionRepository S). r.has_recent_allow tenant ecosystem namespace name)
        ports.decisions s

  record_event_for : Option AuditEvent → Option (AuditEvent → Call S (Unit {0})) → Call S (Unit {0})
  record_event_for e none s = (err (refuse "recording audit event" "recorder unavailable"), s)
  record_event_for none (some r) s = (err (refuse "recording audit event" "event is required"), s)
  record_event_for (some e) (some r) s =
      if trim_space e.tenant_id == ""
      then (err (refuse "recording audit event" "tenant_id is required"), s)
      else r e s

  unfoldable pub ingest_audit_event : Option AuditEvent → Call S (Unit {0})
  unfolding record_event_for
  ingest_audit_event e s = record_event_for e ports.record_event s

  -- what EnqueueDependencyGraphResolve does after the call of the queue
  unfoldable pub notify_queued : String → Result Bool × S → Notifier → Result Bool × (S × Notifier)
  notify_queued tenant (ok true, s) n = (ok true, (s, notify tenant n))
  notify_queued tenant (ok false, s) n = (ok false, (s, n))
  notify_queued tenant (err e, s) n = (err e, (s, n))

  unfoldable pub enqueue_for :
      ResolveRequest
      → Option (ResolveRequest → Call S Bool)
      → S × Notifier
      → Result Bool × (S × Notifier)
  unfolding notify_queued
  enqueue_for req none w =
      (err (refuse "enqueueing dependency graph resolve" "queue unavailable"), w)
  enqueue_for req (some enqueue) (s, n) =
      if trim_space req.tenant_id == ""
      then (err (refuse "enqueueing dependency graph resolve" "tenant_id is required"), (s, n))
      else notify_queued req.tenant_id (enqueue req s) n

  unfoldable pub enqueue_dependency_graph_resolve :
      ResolveRequest → S × Notifier → Result Bool × (S × Notifier)
  unfolding enqueue_for
  enqueue_dependency_graph_resolve req w = enqueue_for req ports.enqueue w

  -- LookupDependencyGraphContext
  unfoldable pub lookup_dependency_graph_context : SummaryKey → Call S DependencyContext
  unfolding for_tenant
  lookup_dependency_graph_context key s =
      for_tenant "looking up dependency graph context" "lookup unavailable" key.tenant_id
        (λ (lookup : SummaryKey → Call S DependencyContext). lookup key) ports.lookup_context s

  -- ClaimDependencyGraphResolve; `clock` is time.Now
  unfoldable pub claim_dependency_graph_resolve :
      ℤ → String → Option ℤ → Call S (Option ResolveRequest)
  unfolding for_tenant
  claim_dependency_graph_resolve clock tenant now s =
      for_tenant "claiming dependency graph resolve" "resolver unavailable" tenant
        (λ (r : GraphResolver S). r.claim_next tenant (elim now [ none ↦ clock | some t ↦ t ]))
        ports.resolver s

  unfoldable pub complete_with :
      ResolveRequest
      → List GraphNode
      → List GraphEdge
      → String
      → GraphResolver S
      → Call S (Unit {0})
  complete_with req nodes edges hash r s =
      if trim_space hash == ""
      then (err (refuse "completing dependency graph resolve" "graph_hash is required"), s)
      else r.complete req nodes edges hash s

  unfoldable pub complete_dependency_graph_resolve :
      ResolveRequest → List GraphNode → List GraphEdge → String → Call S (Unit {0})
  unfolding for_tenant complete_with
  complete_dependency_graph_resolve req nodes edges hash s =
      for_tenant "completing dependency graph resolve" "resolver unavailable" req.tenant_id
        (complete_with req nodes edges hash) ports.resolver s

  unfoldable pub fail_with :
      ResolveRequest → String → Option ℤ → GraphResolver S → Call S (Unit {0})
  fail_with req message none r s =
      (err (refuse "failing dependency graph resolve" "retry_after is required"), s)
  fail_with req message (some retry_after) r s = r.fail req message retry_after s

  unfoldable pub fail_dependency_graph_resolve :
      ResolveRequest → String → Option ℤ → Call S (Unit {0})
  unfolding for_tenant fail_with
  fail_dependency_graph_resolve req message retry_after s =
      for_tenant "failing dependency graph resolve" "resolver unavailable" req.tenant_id
        (fail_with req message retry_after) ports.resolver s

-- WatchDependencyGraphResolve; a notifier that is nil is `none`.
unfoldable pub watch_dependency_graph_resolve :
    String → Option Notifier → Result ℕ × Option Notifier
watch_dependency_graph_resolve tenant none =
    (err (refuse "watching dependency graph resolve" "notifier unavailable"), none)
watch_dependency_graph_resolve tenant (some n) =
    let (channel, n') = watch_resolve_jobs tenant n in
    if trim_space tenant == ""
    then (err (refuse "watching dependency graph resolve" "tenant_id is required"), some n)
    else (ok channel, some n')
