-- ===== src/Service/GraphTests.antt =====
-- The dependency graph workflows of internal/core/service at concrete inputs.
use dependency_firewall.Base.{
  Bool, List, Option, String, [], any, count, eqb, false, has_prefix, if◌then◌else◌, leb, length,
  ltb, map, none, pos, refl, some, suc, take, to_lower, trim_space, true, zero, ℕ, ◌&&◌, ◌++◌, ◌==◌,
  ◌∷◌, ◌≡◌, ◌≢◌,
}
use dependency_firewall.Domain.Artifact.{ArtifactIdentity, full_name, normalize_npm}
use dependency_firewall.Domain.Capability.{Upstream}
use dependency_firewall.Domain.Dependency.{new_unknown_dependency_context}
use dependency_firewall.Domain.Message.{
  Error, Result, annotate, artifact_not_found, err, errorf, ok, plain, wrap,
}
use dependency_firewall.Domain.Policy.{AccessRequest}
use dependency_firewall.Service.Context.{
  ContextPorts, dependency_context_key, resolve_context, resolve_request,
}
use dependency_firewall.Service.Context.Resolved.{
  Fails, Takes, resolve_context-Fails, resolve_context-queued,
}
use dependency_firewall.Service.Ingest.{IngestPorts, enqueue_dependency_graph_resolve}
use dependency_firewall.Service.Ingest.Wakes.{enqueue_dependency_graph_resolve-wakes}
use dependency_firewall.Service.Jobs.{
  InstallSnapshot, ResolveRequest, kind_npm_metadata, kind_npm_tarball,
}
use dependency_firewall.Service.Notifier.{
  Event, Notifier, Subscriber, canceled, new_notifier, notified, notify, receive, received, run,
  tenant_scope, watch_resolve_jobs, watched,
}
use dependency_firewall.Service.Notifier.Signals.{notify-waits, overfull, run-coalesces, signalled}
use dependency_firewall.Service.Snapshot.{
  collect_dependency_names, infer_roots, package_key, process_snapshot,
}
use dependency_firewall.Service.Snapshot.Roots.{
  infer_roots-undeclared, is_failure, process_snapshot-bounds, undeclared,
}
use dependency_firewall.Service.Worker.{claim_available_jobs, npm_args}
use dependency_firewall.Service.Worker.Arguments.{npm_args-package}
use dependency_firewall.Service.Worker.Slots.{
  claim_available_jobs-bounded, claim_available_jobs-ends,
}

abbrev events : List Event
events =
    watched " acme "
    ∷ watched ""
    ∷ notified "acme"
    ∷ notified "acme"
    ∷ received 0
    ∷ notified "other"
    ∷ []

test-run : map (λ (s : Subscriber). s.pending) (run events new_notifier).subscribers ≡ 0 ∷ 1 ∷ []
unfolding run notify receive watch_resolve_jobs tenant_scope trim_space
test-run = refl

run-coalesces_example : overfull (run events new_notifier) ≡ false
run-coalesces_example = run-coalesces events

abbrev two_watchers : Notifier
two_watchers = record {
  subscribers =
      record { channel = 0; scope = "acme"; pending = 0 }
      ∷ record { channel = 1; scope = "other"; pending = 1 }
      ∷ [];
  made = 2;
}

abbrev later : List Event
later = received 1 ∷ notified "acme" ∷ watched "acme" ∷ canceled 1 ∷ []

notify-waits_example : signalled 0 (run later (notify "acme" two_watchers)) ≡ true
notify-waits_example = notify-waits 0 "acme" two_watchers later refl refl

abbrev npmjs : Upstream
npmjs = record {
  id = "u1";
  tenant_id = "acme";
  name = "npmjs";
  ecosystem = "npm";
  base_url = "https://registry.npmjs.org";
  capabilities = none;
  auth = none;
}

abbrev root : String → String → ArtifactIdentity
root name version = record {
  ecosystem = "npm";
  namespace = "";
  name = name;
  version = version;
  digest = "";
}

abbrev request : AccessRequest
request = record {
  tenant_id = "acme";
  request_id = "r1";
  kind = kind_npm_metadata;
  artifact = root "left-pad" "1.3.0";
  upstream = npmjs;
  metadata = none;
  dependency_context = none;
}

-- a store that knows nothing, and a queue that counts its jobs
abbrev counting : ContextPorts ℕ
counting = record {
  cache = none;
  graphs = some (λ key. λ n. (err (wrap artifact_not_found (plain "no graph")), n));
  queue = some (λ job. λ n. (ok true, suc n));
}

abbrev digest : String → String
digest s = s

resolve_context-queued_example :
    (new_unknown_dependency_context digest ≡ new_unknown_dependency_context digest)
    × (request.kind ≢ kind_npm_tarball)
    × Takes counting.queue (resolve_request request (pos 7))
unfolding resolve_context
resolve_context-queued_example =
    resolve_context-queued digest counting request (pos 7) (new_unknown_dependency_context digest) 0
      refl

abbrev broken : ContextPorts ℕ
broken = record counting { graphs = some (λ key. λ n. (err (errorf (plain "connection lost")), n)) }

resolve_context-Fails_example :
    (e' : Error) × Fails broken.graphs (dependency_context_key request) e'
    × (errorf (plain "looking up dependency context: connection lost")
        ≡ annotate "looking up dependency context" e')
unfolding resolve_context
resolve_context-Fails_example =
    resolve_context-Fails digest broken request (pos 7)
      (errorf (plain "looking up dependency context: connection lost")) 0 refl

-- "app" needs "left-pad", and the manifest of "private" cannot be fetched
abbrev manifest : ArtifactIdentity → Result (List String)
manifest a =
    if a.name == "app"
    then ok ("left-pad" ∷ [])
    else if a.name == "private"
    then err (errorf (plain "not found"))
    else ok []

abbrev installed : List ArtifactIdentity
installed = root "app" "1.0.0" ∷ root "left-pad" "1.3.0" ∷ root "private" "2.0.0" ∷ []

infer_roots-undeclared_example : infer_roots manifest 3 installed ≡ (
    if any (λ (p : ArtifactIdentity). is_failure manifest (manifest p)) (take 3 installed)
      && ltb 1 (length installed)
      && eqb (length (undeclared manifest 3 installed)) (length installed)
    then []
    else undeclared manifest 3 installed)
infer_roots-undeclared_example = infer_roots-undeclared manifest 3 installed

test-infer_roots :
    infer_roots manifest 3 installed ≡ root "app" "1.0.0" ∷ root "private" "2.0.0" ∷ []
unfolding infer_roots collect_dependency_names
test-infer_roots = refl

-- A package that declares its own name is no root, although no other package declares it.
test-self_declared : infer_roots (λ a. ok (a.name ∷ [])) 1 (root "app" "1.0.0" ∷ []) ≡ []
unfolding infer_roots collect_dependency_names
test-self_declared = refl

abbrev snapshot : InstallSnapshot
snapshot = record { tenant_id = "acme"; upstream = npmjs; packages = installed; observed_at = none }

abbrev counting_queue : ResolveRequest → ℕ → Result Bool × ℕ
counting_queue job n = (ok true, suc n)

process_snapshot-bounds_example :
    let roots = (process_snapshot manifest counting_queue (pos 7) 3 snapshot 0).0 in
    (leb (length roots) 5000 ≡ true)
    × ((key : String) → leb (count (λ (a : ArtifactIdentity). package_key a == key) roots) 1 ≡ true)
process_snapshot-bounds_example =
    process_snapshot-bounds manifest counting_queue (pos 7) 3 snapshot 0

abbrev job : ResolveRequest
job = record {
  tenant_id = "acme";
  upstream = npmjs;
  root = root "left-pad" "1.3.0";
  requested_at = pos 7;
}

-- a queue with as many jobs as its state says
abbrev claim : ℕ → Result (Option ResolveRequest) × ℕ
claim zero = (ok none, 0)
claim (suc n) = (ok (some job), n)

claim_available_jobs-bounded_example :
    leb (length (claim_available_jobs claim 2 (λ n. λ j. eqb n 1) 4 0 (job ∷ []) 9).jobs) 2 ≡ true
claim_available_jobs-bounded_example =
    claim_available_jobs-bounded claim 2 (λ n. λ j. eqb n 1) 4 0 (job ∷ []) 9 refl

claim_available_jobs-ends_example :
    (claim_available_jobs claim 2 (λ n. λ j. true) 2 0 (job ∷ []) 9).ended ≡ true
claim_available_jobs-ends_example =
    claim_available_jobs-ends claim 2 (λ n. λ j. true) (λ n. λ j. refl) 2 0 (job ∷ []) 9 refl refl

npm_args-package_example :
    ((options : List String) × (npm_args job ≡ options ++ "--" ∷ "left-pad@1.3.0" ∷ []))
    × (has_prefix "left-pad@1.3.0" "-" ≡ false)
unfolding normalize_npm has_prefix to_lower full_name
npm_args-package_example = npm_args-package job (root "Left-Pad" "1.3.0") refl refl

abbrev ingest_ports : IngestPorts ℕ
ingest_ports = record {
  decisions = none;
  record_event = none;
  enqueue = some counting_queue;
  lookup_context = none;
  resolver = none;
}

enqueue_dependency_graph_resolve-wakes_example :
    signalled 0
      (run later (enqueue_dependency_graph_resolve ingest_ports job (0, two_watchers)).1.1)
    ≡ true
unfolding enqueue_dependency_graph_resolve trim_space
enqueue_dependency_graph_resolve-wakes_example =
    enqueue_dependency_graph_resolve-wakes ingest_ports job 0 two_watchers 0 later refl refl refl
