-- ===== src/Service/Context.antt =====
-- internal/core/service/dependency_context.go. The cache, the store of the graphs and the queue are
-- parameters that work on a state `S`; an adapter that is nil is `none`.
pub mod Resolved
use dependency_firewall.Base.{
  Bool, Option, String, false, if◌then◌else◌, none, not, some, true, ℕ, ℤ, ◌*◌, ◌==◌,
}
use dependency_firewall.Domain.Dependency.{
  DependencyContext, new_unknown_dependency_context, normalize_context,
}
use dependency_firewall.Domain.Message.{Error, Result, annotate, artifact_not_found, err, ok}
use dependency_firewall.Domain.Policy.{AccessRequest}
use dependency_firewall.Service.Jobs.{ResolveRequest, SummaryKey, kind_npm_tarball}

pub record ContextCache (S : Type 0) : Type 0 where
  pub get : SummaryKey → S → Result DependencyContext × S
  pub set : SummaryKey → DependencyContext → ℕ → S → Result (Unit {0}) × S

pub record ContextPorts (S : Type 0) : Type 0 where
  pub cache : Option (ContextCache S)
  pub graphs : Option (SummaryKey → S → Result DependencyContext × S)
  pub queue : Option (ResolveRequest → S → Result Bool × S)

-- 30 * time.Minute
abbrev pub dependency_context_cache_ttl : ℕ
dependency_context_cache_ttl = 30 * 60000000000

abbrev pub dependency_context_key : AccessRequest → SummaryKey
dependency_context_key req = record {
  tenant_id = req.tenant_id;
  upstream_id = req.upstream.id;
  artifact = req.artifact;
}

-- errors.Is(err, domain.ErrArtifactNotFound)
abbrev pub is_artifact_not_found : Error → Bool
is_artifact_not_found e = elim e.sentinel [
  | none ↦ false
  | some s ↦ elim s [ artifact_not_found ↦ true | _ ↦ false ]
]

abbrev pub resolve_request : AccessRequest → ℤ → ResolveRequest
resolve_request req now = record {
  tenant_id = req.tenant_id;
  upstream = req.upstream;
  root = req.artifact;
  requested_at = now;
}

abbrev pub should_enqueue_dependency_graph_root : AccessRequest → Bool
should_enqueue_dependency_graph_root req = not (req.kind == kind_npm_tarball)

-- what EnqueueResolve reports; an error counts as not queued
abbrev pub was_queued : Result Bool → Bool
was_queued (ok queued) = queued
was_queued (err e) = false

module _ {S : Type 0} (digest : String → String) (ports : ContextPorts S) where
  unfoldable pub cached_context : Result DependencyContext → Option DependencyContext
  cached_context (ok c) = some (normalize_context digest c)
  cached_context (err e) = none

  unfoldable pub lookup_cached_context : SummaryKey → S → Option DependencyContext × S
  unfolding cached_context
  lookup_cached_context key s = elim ports.cache [
    | none ↦ (none, s)
    | some cache ↦ let (r, s') = cache.get key s in (cached_context r, s')
  ]

  unfoldable pub cache_stored_context : SummaryKey → DependencyContext → S → S
  cache_stored_context key c s = elim ports.cache [
    | none ↦ s
    | some cache ↦ (cache.set key c dependency_context_cache_ttl s).1
  ]

  -- lookupStoredContext, below the call of LookupContext
  unfoldable pub stored_context :
      SummaryKey → Result DependencyContext → S → Result (Option DependencyContext) × S
  unfolding cache_stored_context
  stored_context key (err e) s = (
    if is_artifact_not_found e then ok none else err (annotate "looking up dependency context" e),
    s,
  )
  stored_context key (ok c) s =
      let normalized = normalize_context digest c in
      (ok (some normalized), cache_stored_context key normalized s)

  unfoldable pub lookup_stored_in :
      SummaryKey
      → Option (SummaryKey → S → Result DependencyContext × S)
      → S
      → Result (Option DependencyContext) × S
  unfolding stored_context
  lookup_stored_in key none s = (ok none, s)
  lookup_stored_in key (some lookup) s = let (r, s') = lookup key s in stored_context key r s'

  unfoldable pub lookup_stored_context : SummaryKey → S → Result (Option DependencyContext) × S
  unfolding lookup_stored_in
  lookup_stored_context key s = lookup_stored_in key ports.graphs s

  -- enqueueDependencyGraphRoot, below the test of the request
  unfoldable pub enqueue_on :
      AccessRequest → ℤ → Option (ResolveRequest → S → Result Bool × S) → S → Bool × S
  enqueue_on req now none s = (false, s)
  enqueue_on req now (some enqueue) s =
      let (r, s') = enqueue (resolve_request req now) s in (was_queued r, s')

  unfoldable pub enqueue_dependency_graph_root : AccessRequest → ℤ → S → Bool × S
  unfolding enqueue_on
  enqueue_dependency_graph_root req now s =
      if should_enqueue_dependency_graph_root req
      then enqueue_on req now ports.queue s
      else (false, s)

  -- Resolve, below the look-ups
  unfoldable pub resolve_unknown : AccessRequest → ℤ → S → Result (DependencyContext × Bool) × S
  unfolding enqueue_dependency_graph_root
  resolve_unknown req now s =
      let (queued, s') = enqueue_dependency_graph_root req now s in
      (ok (new_unknown_dependency_context digest, queued), s')

  -- Resolve, below lookupStoredContext
  unfoldable pub resolve_stored :
      AccessRequest
      → ℤ
      → Result (Option DependencyContext)
      → S
      → Result (DependencyContext × Bool) × S
  unfolding resolve_unknown
  resolve_stored req now (err e) s = (err e, s)
  resolve_stored req now (ok (some c)) s = (ok (c, false), s)
  resolve_stored req now (ok none) s = resolve_unknown req now s

  -- Resolve, below lookupCachedContext
  unfoldable pub resolve_cached :
      AccessRequest → ℤ → Option DependencyContext → S → Result (DependencyContext × Bool) × S
  unfolding resolve_stored lookup_stored_context
  resolve_cached req now (some c) s = (ok (c, false), s)
  resolve_cached req now none s =
      let (r, s') = lookup_stored_context (dependency_context_key req) s in
      resolve_stored req now r s'

  -- Resolve of a service that is not nil; the result holds whether a job was queued.
  unfoldable pub resolve_context : AccessRequest → ℤ → S → Result (DependencyContext × Bool) × S
  unfolding resolve_cached lookup_cached_context
  resolve_context req now s =
      let (c, s') = lookup_cached_context (dependency_context_key req) s in
      resolve_cached req now c s'
