-- ===== src/Service/Worker.antt =====
-- internal/core/service/dependency_graph_worker.go. The resolver of jobs, the file system and npm are
-- parameters. A time span is a number of nanoseconds.
pub mod Arguments
pub mod Slots
use dependency_firewall.Base.{
  Bool, List, Option, String, [], false, if◌then◌else◌, keep, leb_ℤ, length, ltb, none, pos, some,
  suc, trim_space, true, zero, ℕ, ℤ, ◌++◌, ◌+ℤ◌, ◌<>◌, ◌==◌, ◌∷◌,
}
use dependency_firewall.Domain.Artifact.{full_name}
use dependency_firewall.Domain.Message.{Error, Result, annotate, err, ok, text, ◌>>=◌, ◌>>◌}
use dependency_firewall.Infra.NpmGraph.Depths.{GraphEdge}
use dependency_firewall.Infra.NpmGraph.Graph.{ParsedGraph, parse_package_lock}
use dependency_firewall.Infra.NpmGraph.LockFile.{GraphNode, Packages}
use dependency_firewall.Service.Jobs.{ResolveRequest}
use dependency_firewall.Service.Notifier.{tenant_scope}

pub record WorkerConfig : Type 0 where
  pub enabled : Bool
  pub tenant_id : String
  pub poll_interval : ℤ
  pub timeout : ℤ
  pub concurrency : ℤ
  pub retry_delay : ℤ

-- `if v <= 0 { v = d }`
abbrev or_default : ℤ → ℕ → ℤ
or_default v d = if leb_ℤ v (pos 0) then pos d else v

-- the defaults that Run fills in
unfoldable pub with_defaults : WorkerConfig → WorkerConfig
with_defaults c = record c {
  poll_interval = or_default c.poll_interval 5000000000;
  timeout = or_default c.timeout 120000000000;
  concurrency = or_default c.concurrency 1;
  retry_delay = or_default c.retry_delay 300000000000;
  tenant_id = tenant_scope c.tenant_id;
}

-- the jobs that run when the loop of claimAvailableJobs ends, or is cut off with `ended = false`
pub record Claims (S : Type 0) : Type 0 where
  pub jobs : List ResolveRequest
  pub state : S
  pub ended : Bool

-- `runs n job` tells whether the job still runs at the n-th test of the loop; a job that has ended
-- has given its place in `sem` back.
module _ {S : Type 0} (claim : S → Result (Option ResolveRequest) × S) (capacity : ℕ)
    (runs : ℕ → ResolveRequest → Bool) where
  -- the body of the loop, below the claim
  unfoldable pub claimed :
      (List ResolveRequest → S → Claims S)
      → List ResolveRequest
      → Result (Option ResolveRequest)
      → S
      → Claims S
  claimed next jobs (err e) s = record { jobs = jobs; state = s; ended = true }
  claimed next jobs (ok none) s = record { jobs = jobs; state = s; ended = true }
  claimed next jobs (ok (some job)) s = next (job ∷ jobs) s

  unfoldable pub claim_available_jobs : ℕ → ℕ → List ResolveRequest → S → Claims S
  unfolding claimed
  claim_available_jobs zero n jobs s = record { jobs = jobs; state = s; ended = false }
  claim_available_jobs (suc fuel) n jobs s =
      let running = keep (runs n) jobs in
      let (r, s') = claim s in
      let next = claimed (claim_available_jobs fuel (suc n)) running r s' in
      if ltb (length running) capacity
      then next
      else record { jobs = running; state = s; ended = true }

-- The npm command line, without the name of the program.
abbrev pub npm_options : List String
npm_options =
    "install" ∷ "--package-lock-only" ∷ "--ignore-scripts" ∷ "--no-audit" ∷ "--no-fund"
    ∷ "--allow-git=none" ∷ []

abbrev pub registry_options : String → List String
registry_options registry = if registry == "" then [] else "--registry" ∷ registry ∷ []

unfoldable pub npm_args : ResolveRequest → List String
npm_args job =
    npm_options
    ++ (registry_options (trim_space job.upstream.base_url)
        ++ "--" ∷ (full_name job.root <> "@" <> job.root.version) ∷ [])

-- os.MkdirTemp, os.WriteFile, npm and os.ReadFile; npm gives its output, and an error if it fails
pub record Workspace : Type 0 where
  pub make_dir : Result String
  pub write_file : String → String → Result (Unit {0})
  pub run_npm : String → List String → String × Option Error
  pub read_file : String → Result String

abbrev pub package_json : String
package_json =
    "{\"private\":true,\"name\":\"dependency-firewall-graph-root\",\"version\":\"0.0.0\"}\n"

abbrev pub annotated {ℓ} : {A : Type ℓ} → String → Result A → Result A
annotated what (ok x) = ok x
annotated what (err e) = err (annotate what e)

npm_ran : String × Option Error → Result (Unit {0})
npm_ran (output, none) = ok tt
npm_ran (output, some e) = err (record e {
  message = record {
    format = "running npm resolver: " <> e.message.format <> ": %s";
    args = e.message.args ++ (text (trim_space output) ∷ []);
  };
})

module _ (decode : String → Result Packages) (encode : List GraphNode → List GraphEdge → String)
    (digest : String → String) (workspace : Workspace) where
  unfoldable pub resolve_npm_graph : ResolveRequest → Result ParsedGraph
  unfolding npm_args npm_ran
  resolve_npm_graph job = do
    dir ← annotated "creating resolver workspace" workspace.make_dir
    annotated "writing resolver package.json"
        (workspace.write_file (dir <> "/package.json") package_json)
    npm_ran (workspace.run_npm dir (npm_args job))
    data_ ←
        annotated "reading resolver package-lock.json"
          (workspace.read_file (dir <> "/package-lock.json"))
    parse_package_lock decode encode digest job.root data_

  module _ {S : Type 0} (complete : ResolveRequest → ParsedGraph → S → Result (Unit {0}) × S)
      (fail : ResolveRequest → Error → ℤ → S → Result (Unit {0}) × S) where
    -- resolveJob, below resolveNPMGraph; errors of the two calls are logged
    unfoldable pub report : ResolveRequest → ℤ → Result ParsedGraph → S → S
    report job retry_after (err e) s = (fail job e retry_after s).1
    report job retry_after (ok g) s = (complete job g s).1

    unfoldable pub resolve_job : WorkerConfig → ℤ → ResolveRequest → S → S
    unfolding report resolve_npm_graph
    resolve_job c now job s = report job (now +ℤ c.retry_delay) (resolve_npm_graph job) s
