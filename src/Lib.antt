-- ===== src/Lib.antt =====
-- Dependency Firewall: the decision whether a package or an image may pass.
--
-- The firewall is a proxy for npm and OCI registries. A request names an artifact; the access
-- service puts the identity into its canonical form, resolves mutable references, loads the
-- policies of the tenant, validates and hashes them, attaches the dependency context if a
-- policy asks for it, consults the decision cache, has the artifact's metadata fetched if a policy
-- asks for it, evaluates the policies, and caches and records the decision.
--
-- The parts, with the paths of the repository that they model:
--   Base: shared helpers: Booleans and lists, Go's integers (Base/Int) and 64-bit floats
--     (Base/Float), package `strings` (Base/Text), the stable sort (Base/Sort).
--   Domain: internal/core/domain. Domain/Message has formatted texts, errors (errors.go) and
--     results; Domain/Artifact artifact.go, ecosystem.go and normalize.go; Domain/Dependency
--     dependency_graph.go and policy_target.go; Domain/Capability upstream.go, upstream_auth.go and
--     upstream_capability.go; Domain/Config the policy_config files; Domain/Policy policy.go,
--     decision.go and the access request.
--   Policy: internal/core/policy. Policy/Condition and its children are the conditions of
--     internal/core/policy/condition; Policy/Descriptor, Policy/Definitions and Policy/Catalog are
--     catalog.go with its parts and schema.go;
--     Policy/Validate validate.go and upstream_support.go; Policy/Evaluator evaluator.go, against the
--     description of a policy set in Policy/Evaluator/Spec; Policy/Hash hash.go.
--   Infra: Infra/DecisionCache is internal/infra/valkey/decision.go; Infra/NpmGraph with its children
--     is internal/infra/npmgraph/lockfile.go: the paths and the entries of a lock file, the nodes and
--     the edges of its graph, and the search for the depths. Infra/BlobCache and its children are
--     internal/infra/ocicache/disk.go: the limits, the paths and the write session.
--   Service: internal/core/service. Service/Effects has the state of a workflow (the audit trail,
--     the recorded decisions, the server of the cache) and the record of the adapters that it calls;
--     Service/Requests proxy_policy.go and the tests of a request; Service/Lookup audit.go and
--     proxy_lookup.go; Service/Prepare the loading of the policies in proxy.go, and
--     proxy_invalid.go; Service/Access the rest of proxy.go, proxy_enrichment.go and
--     proxy_dependency.go. Service/Context is dependency_context.go, Service/Notifier and
--     Service/Worker the notifier and the worker of the dependency graphs, Service/Snapshot
--     install_snapshot.go, Service/Ingest ingest.go, Service/Policies policy.go and
--     Service/Upstreams upstream.go, Service/Enrichment enrichment.go, Service/Bundles bundle.go, and
--     Service/Tenants tenant.go, evaluation.go and cache.go, over the calls of Service/Calls.
--     Service/Jobs has the records of the resolve jobs. Service/Triple has the rules for the proofs
--     about a workflow. The id that the decision log gives a decision is not modelled.
--
-- How the program is read. A function that returns an error returns a `Result`; a text that is
-- formatted is kept as its format and arguments, since no decision depends on how it is rendered
-- except through equality. A pointer that may be nil is an Option. A service method is a function of
-- the state with a result, which keeps the state where an error ends it. The clock, SHA-256, the
-- JSON encoder and decoder, the repositories, the upstream clients and the Valkey server are
-- parameters. Letter case and white space are those of ASCII. Three functions use fuel: the printing of a number, whose
-- fuel is the number itself and one; the search for the depths, with a round for each node and one more,
-- which is always enough; and the loop that claims jobs, which is bounded wherever the fuel cuts it
-- off, and ends with one round for each free place and one more while no job ends. What runs at the
-- same time is a sequence of steps: the notifier works under its lock, and the claims take any
-- schedule of the jobs that end.
--
-- Not modelled: logs, traces, the payloads of audit events, the decoding of requests and of policy
-- documents, the management API, the SQL repositories, the network clients, the select over ticker
-- and signals of the graph worker, reading from the disk cache of artifacts, the status of the bundle
-- cache and the web console.
pub mod Base
pub mod Domain
pub mod Policy
pub mod Infra
pub mod Service
