-- ===== src/Infra/NpmGraph/Graph.antt =====
-- internal/infra/npmgraph/lockfile.go: the nodes and the edges of the graph (ParsePackageLock). The
-- JSON decoder, the encoder of the graph and SHA-256 are parameters.
pub mod Ends
pub mod Linked
use dependency_firewall.Base.{
  Bool, List, Option, String, [], contains, if◌then◌else◌, is_empty, map, none, not, some, sort,
  str_lt, ℕ, ◌++◌, ◌<>◌, ◌==◌, ◌∷◌,
}
use dependency_firewall.Domain.Artifact.{ArtifactIdentity, cache_key}
use dependency_firewall.Domain.Dependency.{unique_dependency_types}
use dependency_firewall.Domain.Message.{Result, annotate, err, ok, require, ◌>>=◌, ◌>>◌}
use dependency_firewall.Infra.NpmGraph.Depths.{GraphEdge, compute_depths}
use dependency_firewall.Infra.NpmGraph.LockFile.{
  GraphNode, LockPackage, Packages, artifact_for_lock_package, dependency_entries, lock_error,
  resolve_dependency_path, root_with_full_name,
}

-- pathNodeIDs and nodesByKey
pub record Nodes : Type 0 where
  pub path_ids : List (String × String)
  pub nodes : List GraphNode

abbrev pub node_ids : List GraphNode → List String
node_ids nodes = map (λ n. n.id) nodes

-- pathNodeIDs[path]
abbrev pub id_at : List (String × String) → String → String
id_at [] path = ""
id_at ((p, id) ∷ rest) path = if p == path then id else id_at rest path

-- nodesByKey[key], created where it is missing
unfoldable pub add_node : ArtifactIdentity → List GraphNode → List GraphNode
add_node a nodes =
    if contains (node_ids nodes) (cache_key a)
    then nodes
    else (nodes
        ++ record { id = cache_key a; artifact = a; min_depth = none; dependency_types = [] } ∷ [])

unfoldable pub build_nodes_from :
    ArtifactIdentity → Packages → List (String × LockPackage) → Nodes → Result Nodes
unfolding add_node
build_nodes_from root packages [] ns = ok ns
build_nodes_from root packages ((path, pkg) ∷ rest) ns = do
  a ← artifact_for_lock_package root path pkg
  build_nodes_from root packages rest
      (record { path_ids = ns.path_ids ++ (path, cache_key a) ∷ []; nodes = add_node a ns.nodes })

-- The entries of the lock file in the order of their paths; `paths` and the look-ups by path of the
-- source are the two parts of the pairs.
unfoldable pub sorted_packages : Packages → Packages
sorted_packages packages = sort (λ a b. str_lt a.0 b.0) packages

unfoldable pub build_dependency_graph_nodes : ArtifactIdentity → Packages → Result Nodes
unfolding build_nodes_from sorted_packages
build_dependency_graph_nodes root packages =
    build_nodes_from root packages (sorted_packages packages) (record { path_ids = []; nodes = [] })

-- edgeKeys, edges and the dependency types of the nodes
pub record Edges : Type 0 where
  pub keys : List String
  pub edges : List GraphEdge
  pub typed : List GraphNode

abbrev edge_key : GraphEdge → String
edge_key e = e.parent_node_id <> ">" <> e.child_node_id <> ":" <> e.dependency_type

-- child.DependencyTypes = append(child.DependencyTypes, depType)
unfoldable pub add_type : String → String → List GraphNode → List GraphNode
add_type id kind [] = []
add_type id kind (n ∷ ns) =
    (if n.id == id then record n { dependency_types = n.dependency_types ++ kind ∷ [] } else n)
    ∷ add_type id kind ns

unfoldable pub add_edge : GraphEdge → Edges → Edges
unfolding add_type
add_edge e s = if contains s.keys (edge_key e) then s else record {
  keys = edge_key e ∷ s.keys;
  edges = s.edges ++ e ∷ [];
  typed = add_type e.child_node_id e.dependency_type s.typed;
}

module _ (packages : Packages) (path_ids : List (String × String)) where
  -- the loop over the dependencies of one package
  unfoldable pub add_entries : String → List (String × String) → Edges → Edges
  unfolding add_edge
  add_entries path [] s = s
  add_entries path ((name, kind) ∷ entries) s =
      let (child, found) = resolve_dependency_path packages path name in
      let e : GraphEdge = record {
        parent_node_id = id_at path_ids path;
        child_node_id = id_at path_ids child;
        dependency_type = kind;
      } in
      add_entries path entries (if found then add_edge e s else s)

  -- the loop over the packages
  unfoldable pub add_packages : List (String × LockPackage) → Edges → Edges
  unfolding add_entries
  add_packages [] s = s
  add_packages ((path, pkg) ∷ rest) s =
      add_packages rest (add_entries path (dependency_entries pkg) s)

unfoldable pub build_dependency_graph_edges : Packages → Nodes → Edges
unfolding add_packages sorted_packages
build_dependency_graph_edges packages ns =
    add_packages packages ns.path_ids (sorted_packages packages)
      (record { keys = []; edges = []; typed = ns.nodes })

-- the depths that computeDepths writes; it always ends
depths_of : List String → String → List GraphEdge → String → Option ℕ
depths_of ids root edges = elim (compute_depths ids root edges) [
  | none ↦ λ id. none
  | some depth ↦ depth
]

unfoldable pub finalize_node : (String → Option ℕ) → GraphNode → GraphNode
finalize_node depth n = record n {
  min_depth = depth n.id;
  dependency_types = unique_dependency_types n.dependency_types;
}

unfoldable pub finalize_dependency_graph_nodes :
    String → List GraphNode → List GraphEdge → List GraphNode
unfolding depths_of finalize_node
finalize_dependency_graph_nodes root_id nodes edges =
    sort (λ a b. str_lt a.id b.id)
      (map (finalize_node (depths_of (node_ids nodes) root_id edges)) nodes)

unfoldable pub edge_less : GraphEdge → GraphEdge → Bool
edge_less a b =
    if not (a.parent_node_id == b.parent_node_id)
    then str_lt a.parent_node_id b.parent_node_id
    else if not (a.child_node_id == b.child_node_id)
    then str_lt a.child_node_id b.child_node_id
    else str_lt a.dependency_type b.dependency_type

pub record ParsedGraph : Type 0 where
  pub nodes : List GraphNode
  pub edges : List GraphEdge
  pub hash : String

module _ (decode : String → Result Packages) (encode : List GraphNode → List GraphEdge → String)
    (digest : String → String) where
  -- ParsePackageLock, below the decoding
  unfoldable pub parse_packages : ArtifactIdentity → Packages → Result ParsedGraph
  parse_packages root packages = do
    require (not (is_empty packages)) (lock_error "packages is required")
    let root' = root_with_full_name root
    ns ← build_dependency_graph_nodes root' packages
    let built = build_dependency_graph_edges packages ns
    let nodes = finalize_dependency_graph_nodes (cache_key root') built.typed built.edges
    let edges = sort edge_less built.edges
    ok (record { nodes = nodes; edges = edges; hash = digest (encode nodes edges) })

  unfoldable pub parse_package_lock : ArtifactIdentity → String → Result ParsedGraph
  unfolding parse_packages
  parse_package_lock root data_ = elim (decode data_) [
    | err e ↦ err (annotate "parsing package-lock.json" e)
    | ok packages ↦ parse_packages root packages
  ]
