-- ===== src/Service/Context/Resolved.antt =====
-- internal/core/service/dependency_context.go: when Resolve queues a job, and when it fails.
use dependency_firewall.Base.{
  Bool, Option, String, ap, arith, eq_iff, false, if◌then◌else◌, none, refl, some, sym, true, ℤ,
  ◌≡◌, ◌≢◌,
}
use dependency_firewall.Domain.Dependency.{DependencyContext, new_unknown_dependency_context}
use dependency_firewall.Domain.Message.{Error, Result, annotate, err, ok}
use dependency_firewall.Domain.Policy.{AccessRequest}
use dependency_firewall.Service.Context.{
  ContextPorts, dependency_context_key, enqueue_dependency_graph_root, enqueue_on,
  is_artifact_not_found, lookup_stored_context, lookup_stored_in, resolve_cached, resolve_context,
  resolve_request, resolve_stored, resolve_unknown, should_enqueue_dependency_graph_root,
  stored_context, was_queued,
}
use dependency_firewall.Service.Jobs.{ResolveRequest, SummaryKey, kind_npm_tarball}

module _ {S : Type 0} where
  -- The queue takes a job, in some state.
  abbrev pub Takes : Option (ResolveRequest → S → Result Bool × S) → ResolveRequest → Type 0
  Takes none job = ⊥
  Takes (some enqueue) job = (s : S) × ((enqueue job s).0 ≡ ok true)

  -- The store fails to look the key up, in some state, and not for want of it.
  abbrev pub Fails :
      Option (SummaryKey → S → Result DependencyContext × S) → SummaryKey → Error → Type 0
  Fails none key e = ⊥
  Fails (some lookup) key e =
      (s : S) × ((lookup key s).0 ≡ err e) × (is_artifact_not_found e ≡ false)

was_queued-true : (r : Result Bool) → was_queued r ≡ true → r ≡ ok true
was_queued-true (ok queued) h = ap ok h
was_queued-true (err e) h = cc

module _ {S : Type 0} (digest : String → String) (ports : ContextPorts S) (req : AccessRequest)
    (now : ℤ) where
  enqueue_on-Takes :
      (queue : Option (ResolveRequest → S → Result Bool × S)) (s : S)
      → (enqueue_on digest ports req now queue s).0 ≡ true
      → Takes queue (resolve_request req now)
  unfolding enqueue_on
  enqueue_on-Takes none s h = cc
  enqueue_on-Takes (some enqueue) s h = (s, was_queued-true _ h)

  if-queued :
      (b : Bool) (s : S)
      → (if b then enqueue_on digest ports req now ports.queue s else (false, s)).0 ≡ true
      → (b ≡ true) × Takes ports.queue (resolve_request req now)
  if-queued true s h = (refl, enqueue_on-Takes ports.queue s h)
  if-queued false s h = cc

  not_tarball : should_enqueue_dependency_graph_root req ≡ true → req.kind ≢ kind_npm_tarball
  not_tarball h e = ground (arith, eq_iff req.kind kind_npm_tarball)

  resolve_unknown-queued :
      (c : DependencyContext) (s : S)
      → (resolve_unknown digest ports req now s).0 ≡ ok (c, true)
      → (c ≡ new_unknown_dependency_context digest)
        × (req.kind ≢ kind_npm_tarball)
        × Takes ports.queue (resolve_request req now)
  unfolding resolve_unknown enqueue_dependency_graph_root
  resolve_unknown-queued c s h =
      let same : (
        new_unknown_dependency_context digest,
        (enqueue_dependency_graph_root digest ports req now s).0,
      )
          ≡ (c, true) =
        cc in
      let (kind, takes) =
        if-queued (should_enqueue_dependency_graph_root req) s
          (ap (λ (p : DependencyContext × Bool). p.1) same) in
      (sym (ap (λ (p : DependencyContext × Bool). p.0) same), not_tarball kind, takes)

  resolve_stored-queued :
      (r : Result (Option DependencyContext)) (c : DependencyContext) (s : S)
      → (resolve_stored digest ports req now r s).0 ≡ ok (c, true)
      → (c ≡ new_unknown_dependency_context digest)
        × (req.kind ≢ kind_npm_tarball)
        × Takes ports.queue (resolve_request req now)
  unfolding resolve_stored
  resolve_stored-queued (err e) c s h = cc
  resolve_stored-queued (ok (some d)) c s h = cc
  resolve_stored-queued (ok none) c s h = resolve_unknown-queued c s h

  resolve_cached-queued :
      (cached : Option DependencyContext) (c : DependencyContext) (s : S)
      → (resolve_cached digest ports req now cached s).0 ≡ ok (c, true)
      → (c ≡ new_unknown_dependency_context digest)
        × (req.kind ≢ kind_npm_tarball)
        × Takes ports.queue (resolve_request req now)
  unfolding resolve_cached
  resolve_cached-queued (some d) c s h = cc
  resolve_cached-queued none c s h = resolve_stored-queued _ c _ h

  -- If Resolve reports that it queued a job, then the context is the unknown one, the request is not
  -- for a tarball, and the queue has taken a job for the tenant, the upstream and the artifact of
  -- the request.
  pub resolve_context-queued :
      (c : DependencyContext) (s : S)
      → (resolve_context digest ports req now s).0 ≡ ok (c, true)
      → (c ≡ new_unknown_dependency_context digest)
        × (req.kind ≢ kind_npm_tarball)
        × Takes ports.queue (resolve_request req now)
  unfolding resolve_context
  resolve_context-queued c s h = resolve_cached-queued _ c _ h

  if-err :
      (b : Bool) (e₀ e : Error)
      → (let failed : Result (Option DependencyContext) = err e in
          (if b then ok none else err e₀) ≡ failed)
      → (b ≡ false) × (e ≡ e₀)
  if-err true e₀ e h = cc
  if-err false e₀ e h = (refl, cc)

  -- how Resolve reports a failure of the store
  abbrev FailedStore : Option (SummaryKey → S → Result DependencyContext × S) → Error → Type 0
  FailedStore graphs e =
      (e' : Error) × Fails graphs (dependency_context_key req) e'
      × (e ≡ annotate "looking up dependency context" e')

  stored_context-FailedStore :
      (lookup : SummaryKey → S → Result DependencyContext × S) (e : Error) (s : S)
      (r : Result DependencyContext) (s' : S)
      → (lookup (dependency_context_key req) s).0 ≡ r
      → (stored_context digest ports (dependency_context_key req) r s').0 ≡ err e
      → FailedStore (some lookup) e
  unfolding stored_context
  stored_context-FailedStore lookup e s (ok c) s' at h = cc
  stored_context-FailedStore lookup e s (err e') s' at h =
      let (known, same) = if-err (is_artifact_not_found e') _ e h in (e', (s, at, known), same)

  lookup_stored_in-FailedStore :
      (graphs : Option (SummaryKey → S → Result DependencyContext × S)) (e : Error) (s : S)
      → (lookup_stored_in digest ports (dependency_context_key req) graphs s).0 ≡ err e
      → FailedStore graphs e
  unfolding lookup_stored_in
  lookup_stored_in-FailedStore none e s h = cc
  lookup_stored_in-FailedStore (some lookup) e s h =
      stored_context-FailedStore lookup e s _ _ refl h

  resolve_stored-err :
      (r : Result (Option DependencyContext)) (e : Error) (s : S)
      → (resolve_stored digest ports req now r s).0 ≡ err e
      → r ≡ err e
  unfolding resolve_stored resolve_unknown
  resolve_stored-err (err e') e s h = cc
  resolve_stored-err (ok (some c)) e s h = cc
  resolve_stored-err (ok none) e s h = cc

  resolve_cached-FailedStore :
      (cached : Option DependencyContext) (e : Error) (s : S)
      → (resolve_cached digest ports req now cached s).0 ≡ err e
      → FailedStore ports.graphs e
  unfolding resolve_cached lookup_stored_context
  resolve_cached-FailedStore (some c) e s h = cc
  resolve_cached-FailedStore none e s h =
      lookup_stored_in-FailedStore ports.graphs e s (resolve_stored-err _ e _ h)

  -- If Resolve fails, then the store has failed to look the request up, with an error that does not
  -- say that it holds nothing for it, and that is the error reported: neither the cache nor the queue
  -- makes Resolve fail.
  pub resolve_context-Fails :
      (e : Error) (s : S)
      → (resolve_context digest ports req now s).0 ≡ err e
      → (e' : Error) × Fails ports.graphs (dependency_context_key req) e'
        × (e ≡ annotate "looking up dependency context" e')
  unfolding resolve_context
  resolve_context-Fails e s h = resolve_cached-FailedStore _ e _ h
