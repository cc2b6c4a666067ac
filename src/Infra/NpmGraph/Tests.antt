-- ===== src/Infra/NpmGraph/Tests.antt =====
-- A lock file, its graph, and the theorems at it (internal/infra/npmgraph).
use dependency_firewall.Base.{
  List, Option, String, [], any, false, has_prefix, map, none, refl, some, sort, split_once,
  to_lower, true, ℕ, ◌<>◌, ◌∷◌, ◌≡◌,
}
use dependency_firewall.Domain.Artifact.{
  ArtifactIdentity, cache_key, normalize_artifact_identity, normalize_npm,
}
use dependency_firewall.Domain.Dependency.{unique_dependency_types}
use dependency_firewall.Domain.Message.{Result, ok}
use dependency_firewall.Infra.NpmGraph.Depths.{GraphEdge, children, compute_depths}
use dependency_firewall.Infra.NpmGraph.Depths.Shortest.{Walk, at_most, compute_depths-shortest}
use dependency_firewall.Infra.NpmGraph.Graph.{
  ParsedGraph, build_dependency_graph_edges, build_dependency_graph_nodes, edge_less,
  finalize_dependency_graph_nodes, parse_package_lock,
}
use dependency_firewall.Infra.NpmGraph.Graph.Ends.{is_loose, parse_package_lock-ends}
use dependency_firewall.Infra.NpmGraph.LockFile.{
  GraphNode, LockPackage, Packages, artifact_for_lock_package, dependency_entries, resolve_above,
  resolve_dependency_path, root_with_full_name,
}
use dependency_firewall.Infra.NpmGraph.Paths.{
  clean_path, dir_path, join_path, package_name_from_lock_path, path_text, trim_prefix,
}

abbrev edges : List GraphEdge
edges =
    record { parent_node_id = "app"; child_node_id = "b"; dependency_type = "prod" }
    ∷ record { parent_node_id = "b"; child_node_id = "a"; dependency_type = "prod" }
    ∷ record { parent_node_id = "app"; child_node_id = "a"; dependency_type = "dev" }
    ∷ record { parent_node_id = "a"; child_node_id = "c"; dependency_type = "prod" }
    ∷ record { parent_node_id = "c"; child_node_id = "app"; dependency_type = "prod" }
    ∷ []

abbrev ids : List String
ids = "app" ∷ "a" ∷ "b" ∷ "c" ∷ "lonely" ∷ []

abbrev depths : Option (String → Option ℕ) → List (Option ℕ)
depths none = []
depths (some depth) = map depth ids

test-compute_depths :
    depths (compute_depths ids "app" edges) ≡ (some 0 ∷ some 1 ∷ some 1 ∷ some 2 ∷ none ∷ [])
unfolding compute_depths children cache_key unique_dependency_types
test-compute_depths = refl

compute_depths-shortest_example :
    (depth : String → Option ℕ) × (compute_depths ids "app" edges ≡ some depth)
    × ((v : String) (d : ℕ) → depth v ≡ some d → Walk ids "app" edges v d)
    × ((v : String) (n : ℕ) → Walk ids "app" edges v n → at_most (depth v) n ≡ true)
compute_depths-shortest_example = compute_depths-shortest ids "app" edges

abbrev app : ArtifactIdentity
app = record { ecosystem = "npm"; namespace = ""; name = "app"; version = "1.0.0"; digest = "" }

abbrev dep : String → String → List String → LockPackage
dep name version needs = record {
  name = name;
  version = version;
  dependencies = needs;
  dev_dependencies = [];
  peer_dependencies = [];
  optional_dependencies = [];
}

abbrev packages : Packages
packages =
    ("", dep "app" "1.0.0" ("b" ∷ "missing" ∷ []))
    ∷ ("node_modules/b", dep "" "2.0.0" ("a" ∷ []))
    ∷ ("node_modules/b/node_modules/a", dep "" "1.1.0" [])
    ∷ []

abbrev decode : String → Result Packages
decode s = ok packages

abbrev encode : List GraphNode → List GraphEdge → String
encode _ _ = ""

abbrev digest : String → String
digest s = s

abbrev node : String → String → Option ℕ → List String → GraphNode
node name version depth types = record {
  id = "npm:" <> name <> ":" <> version;
  artifact = record {
    ecosystem = "npm";
    namespace = "";
    name = name;
    version = version;
    digest = "";
  };
  min_depth = depth;
  dependency_types = types;
}

abbrev parsed : ParsedGraph
parsed = record {
  nodes =
      node "a" "1.1.0" (some 2) ("prod" ∷ [])
      ∷ node "app" "1.0.0" (some 0) []
      ∷ node "b" "2.0.0" (some 1) ("prod" ∷ [])
      ∷ [];
  edges =
      record {
        parent_node_id = "npm:app:1.0.0";
        child_node_id = "npm:b:2.0.0";
        dependency_type = "prod";
      }
      ∷ record {
        parent_node_id = "npm:b:2.0.0";
        child_node_id = "npm:a:1.1.0";
        dependency_type = "prod";
      }
      ∷ [];
  hash = "";
}

test-parse_package_lock : parse_package_lock decode encode digest app "{}" ≡ ok parsed
unfolding parse_package_lock build_dependency_graph_nodes sort artifact_for_lock_package
    root_with_full_name normalize_artifact_identity normalize_npm has_prefix to_lower
    package_name_from_lock_path trim_prefix split_once finalize_dependency_graph_nodes
    build_dependency_graph_edges dependency_entries resolve_dependency_path join_path path_text
    clean_path resolve_above dir_path edge_less compute_depths children cache_key
    unique_dependency_types
test-parse_package_lock = refl

parse_package_lock-ends_example : any (is_loose parsed.nodes) parsed.edges ≡ false
parse_package_lock-ends_example =
    parse_package_lock-ends decode encode digest app "{}" parsed test-parse_package_lock
