-- ===== src/Service/Ingest/Wakes.antt =====
-- internal/core/service/ingest.go: a queued job wakes the workers of its tenant.
use dependency_firewall.Base.{
  Bool, List, Option, String, any, false, if◌then◌else◌, none, some, trim_space, true, ℕ, ◌==◌, ◌≡◌,
}
use dependency_firewall.Domain.Message.{Error, Result, err, ok}
use dependency_firewall.Service.Calls.{Call}
use dependency_firewall.Service.Ingest.{
  IngestPorts, enqueue_dependency_graph_resolve, enqueue_for, notify_queued,
}
use dependency_firewall.Service.Jobs.{ResolveRequest}
use dependency_firewall.Service.Notifier.{Event, Notifier, run}
use dependency_firewall.Service.Notifier.Signals.{concerns, notify-waits, signalled, subscribed}

module _ {S : Type 0} (ports : IngestPorts S) where
  notify_queued-signalled :
      (channel : ℕ) (tenant : String) (r : Result Bool × S) (n : Notifier) (es : List Event)
      → (notify_queued ports tenant r n).0 ≡ ok true
      → subscribed channel tenant n ≡ true
      → any (concerns channel) es ≡ false
      → signalled channel (run es (notify_queued ports tenant r n).1.1) ≡ true
  unfolding notify_queued
  notify_queued-signalled channel tenant (ok true, s) n es h at c =
      notify-waits channel tenant n es at c
  notify_queued-signalled channel tenant (ok false, s) n es h at c = cc
  notify_queued-signalled channel tenant (err e, s) n es h at c = cc

  enqueue_for-signalled :
      (req : ResolveRequest) (queue : Option (ResolveRequest → Call S Bool)) (s : S) (n : Notifier)
      (channel : ℕ) (es : List Event)
      → (enqueue_for ports req queue (s, n)).0 ≡ ok true
      → subscribed channel req.tenant_id n ≡ true
      → any (concerns channel) es ≡ false
      → signalled channel (run es (enqueue_for ports req queue (s, n)).1.1) ≡ true
  unfolding enqueue_for
  enqueue_for-signalled req none s n channel es h at c = cc
  enqueue_for-signalled req (some enqueue) s n channel es h at c =
      guarded (trim_space req.tenant_id == "") _ h
    where
      guarded :
          (blank : Bool) (e : Error)
          → (if blank
              then (err e, (s, n))
              else notify_queued ports req.tenant_id (enqueue req s) n).0
            ≡ ok true
          → signalled channel (
              run es
                (if blank
                  then (err e, (s, n))
                  else notify_queued ports req.tenant_id (enqueue req s) n).1.1)
            ≡ true
      guarded true e h = cc
      guarded false e h = notify_queued-signalled channel req.tenant_id (enqueue req s) n es h at c

  -- If EnqueueDependencyGraphResolve reports that it queued a job, then a signal waits for every
  -- subscriber that hears of the tenant, whatever happens until it takes a signal or goes away.
  pub enqueue_dependency_graph_resolve-wakes :
      (req : ResolveRequest) (s : S) (n : Notifier) (channel : ℕ) (es : List Event)
      → (enqueue_dependency_graph_resolve ports req (s, n)).0 ≡ ok true
      → subscribed channel req.tenant_id n ≡ true
      → any (concerns channel) es ≡ false
      → signalled channel (run es (enqueue_dependency_graph_resolve ports req (s, n)).1.1) ≡ true
  unfolding enqueue_dependency_graph_resolve
  enqueue_dependency_graph_resolve-wakes req s n channel es h at c =
      enqueue_for-signalled req ports.enqueue s n channel es h at c
