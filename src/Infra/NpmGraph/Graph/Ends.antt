-- ===== src/Infra/NpmGraph/Graph/Ends.antt =====
-- The edges of the graph of a lock file (internal/infra/npmgraph/lockfile.go) join its nodes.
-- whether an end of the edge is no node
use mathlib.Core.Path.{subst}
use dependency_firewall.Base.{
  Bool, List, Option, String, [], any, any-sort, arith, eq_iff, false, if◌then◌else◌, inl, inr,
  is_empty, map, not, refl, sort, str_lt, true, ℕ, ◌&&◌, ◌==◌, ◌∙◌, ◌∷◌, ◌≡◌,
}
use dependency_firewall.Domain.Artifact.{ArtifactIdentity, cache_key}
use dependency_firewall.Domain.Message.{>>=-eq-ok, Result, Result-cases, annotate, err, ok, require}
use dependency_firewall.Infra.NpmGraph.Depths.{GraphEdge}
use dependency_firewall.Infra.NpmGraph.Graph.{
  Edges, Nodes, ParsedGraph, add_edge, add_entries, add_packages, add_type,
  build_dependency_graph_edges, build_dependency_graph_nodes, depths_of, edge_less,
  finalize_dependency_graph_nodes, finalize_node, id_at, node_ids, parse_package_lock,
  parse_packages, sorted_packages,
}
use dependency_firewall.Infra.NpmGraph.Graph.Linked.{
  Linked, any-concat, build_nodes_from-Linked, build_nodes_from-has_path, has_path, is_node,
  resolve_dependency_path-has_path,
}
use dependency_firewall.Infra.NpmGraph.LockFile.{
  GraphNode, LockPackage, Packages, dependency_entries, resolve_dependency_path,
  root_with_full_name,
}

abbrev pub is_loose : List GraphNode → GraphEdge → Bool
is_loose nodes e = not (is_node nodes e.parent_node_id && is_node nodes e.child_node_id)

is_node-add_type :
    (id kind : String) (nodes : List GraphNode) (x : String)
    → is_node (add_type id kind nodes) x ≡ is_node nodes x
unfolding add_type
is_node-add_type id kind [] x = refl
is_node-add_type id kind (n ∷ ns) x = ground (arith, is_node-add_type id kind ns x)

abbrev Sound : List GraphNode → Edges → Type 0
Sound nodes s =
    (any (is_loose nodes) s.edges ≡ false) × ((x : String) → is_node s.typed x ≡ is_node nodes x)

add_edge-Sound :
    (nodes : List GraphNode) (e : GraphEdge) (s : Edges)
    → is_loose nodes e ≡ false
    → Sound nodes s
    → Sound nodes (add_edge e s)
unfolding add_edge
add_edge-Sound nodes e s h (l, t) = (
  ground (arith, any-concat (is_loose nodes) s.edges e),
  (λ x. ground (arith, is_node-add_type e.child_node_id e.dependency_type s.typed x, t x)),
)

if-Sound :
    (nodes : List GraphNode) (b : Bool) (s t : Edges)
    → (b ≡ true → Sound nodes t)
    → Sound nodes s
    → Sound nodes (if b then t else s)
if-Sound nodes true s t f g = f refl
if-Sound nodes false s t f g = g

module _ (packages : Packages) (ns : Nodes) (l : Linked ns)
    (covers : (path : String) → has_path packages path ≡ has_path ns.path_ids path) where
  -- the edge from a path of the lock file to what a dependency of it resolves to
  entry-tight :
      (path name kind : String)
      → has_path packages path ≡ true
      → (resolve_dependency_path packages path name).1 ≡ true
      → is_loose ns.nodes (record {
        parent_node_id = id_at ns.path_ids path;
        child_node_id = id_at ns.path_ids (resolve_dependency_path packages path name).0;
        dependency_type = kind;
      })
        ≡ false
  entry-tight path name kind h found =
      let child = (resolve_dependency_path packages path name).0 in
      ground (
        arith,
        resolve_dependency_path-has_path packages path name found,
        covers path,
        covers child,
        l path,
        l child,
      )

  add_entries-Sound :
      (path : String) (entries : List (String × String)) (s : Edges)
      → has_path packages path ≡ true
      → Sound ns.nodes s
      → Sound ns.nodes (add_entries packages ns.path_ids path entries s)
  unfolding add_entries
  add_entries-Sound path [] s h g = g
  add_entries-Sound path ((name, kind) ∷ entries) s h g =
      let (child, found) = resolve_dependency_path packages path name in
      add_entries-Sound path entries _ h (
        if-Sound ns.nodes found s _
          (λ e. add_edge-Sound ns.nodes _ s (entry-tight path name kind h e) g) g)

  add_packages-Sound :
      (rest : List (String × LockPackage)) (s : Edges)
      → ((path : String) → has_path rest path ≡ true → has_path packages path ≡ true)
      → Sound ns.nodes s
      → Sound ns.nodes (add_packages packages ns.path_ids rest s)
  unfolding add_packages
  add_packages-Sound [] s h g = g
  add_packages-Sound ((path, pkg) ∷ rest) s h g =
      add_packages-Sound rest _ (λ q e. h q (ground arith))
        (add_entries-Sound path (dependency_entries pkg) s
          (h path (ground (arith, eq_iff path path))) g)

  build_dependency_graph_edges-Sound : Sound ns.nodes (build_dependency_graph_edges packages ns)
  unfolding build_dependency_graph_edges sorted_packages
  build_dependency_graph_edges-Sound =
      add_packages-Sound (sorted_packages packages) _
        (λ path h. ground (
          arith,
          any-sort (λ (a : String × LockPackage) b. str_lt a.0 b.0)
              (λ (q : String × LockPackage). q.0 == path) packages,
        ))
        (refl, (λ x. refl))

build_dependency_graph_nodes-Linked :
    (root : ArtifactIdentity) (packages : Packages) (ns : Nodes)
    → build_dependency_graph_nodes root packages ≡ ok ns
    → Linked ns × ((path : String) → has_path packages path ≡ has_path ns.path_ids path)
unfolding build_dependency_graph_nodes sorted_packages
build_dependency_graph_nodes-Linked root packages ns h =
    let none_yet : Nodes = record { path_ids = []; nodes = [] } in
    (
      build_nodes_from-Linked root packages (sorted_packages packages) none_yet ns
          (λ path h. ground arith) h,
      (λ path. ground (
        arith,
        any-sort (λ (a : String × LockPackage) b. str_lt a.0 b.0)
            (λ (q : String × LockPackage). q.0 == path) packages,
        build_nodes_from-has_path root packages (sorted_packages packages) none_yet ns h path,
      )),
    )

is_node-finalize :
    (depth : String → Option ℕ) (nodes : List GraphNode) (x : String)
    → is_node (map (finalize_node depth) nodes) x ≡ is_node nodes x
unfolding finalize_node
is_node-finalize depth [] x = refl
is_node-finalize depth (n ∷ ns) x = ground (arith, is_node-finalize depth ns x)

is_node-finalize_dependency_graph_nodes :
    (root : String) (nodes : List GraphNode) (edges : List GraphEdge) (x : String)
    → is_node (finalize_dependency_graph_nodes root nodes edges) x ≡ is_node nodes x
unfolding finalize_dependency_graph_nodes
is_node-finalize_dependency_graph_nodes root nodes edges x = ground (
  arith,
  any-sort (λ (a : GraphNode) b. str_lt a.id b.id) (λ (n : GraphNode). n.id == x)
      (map (finalize_node (depths_of (node_ids nodes) root edges)) nodes),
  is_node-finalize (depths_of (node_ids nodes) root edges) nodes x,
)

any-is_loose-cong :
    (ms ns : List GraphNode)
    → ((x : String) → is_node ms x ≡ is_node ns x)
    → (edges : List GraphEdge) → any (is_loose ms) edges ≡ any (is_loose ns) edges
any-is_loose-cong ms ns h [] = refl
any-is_loose-cong ms ns h (e ∷ es) =
    ground (arith, h e.parent_node_id, h e.child_node_id, any-is_loose-cong ms ns h es)

-- the nodes and the edges as parse_packages arranges them
finalized-tight :
    (root_id : String) (packages : Packages) (ns : Nodes)
    → Linked ns
    → ((path : String) → has_path packages path ≡ has_path ns.path_ids path)
    → let built = build_dependency_graph_edges packages ns in
      any
        (is_loose (finalize_dependency_graph_nodes root_id built.typed built.edges))
        (sort edge_less built.edges)
      ≡ false
finalized-tight root_id packages ns l covers =
    let built = build_dependency_graph_edges packages ns in
    let nodes = finalize_dependency_graph_nodes root_id built.typed built.edges in
    let (t, same) = build_dependency_graph_edges-Sound packages ns l covers in
    any-sort edge_less (is_loose nodes) built.edges
    ∙ any-is_loose-cong nodes ns.nodes
        (λ x. is_node-finalize_dependency_graph_nodes root_id built.typed built.edges x ∙ same x)
        built.edges
    ∙ t

abbrev Tight : Result ParsedGraph → Type 0
Tight (ok g) = any (is_loose g.nodes) g.edges ≡ false
Tight (err e) = Unit

module _ (decode : String → Result Packages) (encode : List GraphNode → List GraphEdge → String)
    (digest : String → String) where
  parse_packages-ends :
      (root : ArtifactIdentity) (packages : Packages) (g : ParsedGraph)
      → parse_packages decode encode digest root packages ≡ ok g
      → any (is_loose g.nodes) g.edges ≡ false
  unfolding parse_packages
  parse_packages-ends root packages g h =
      let root' = root_with_full_name root in
      let (_, _, h') = >>=-eq-ok _ (require (not (is_empty packages)) _) g h in
      let (ns, e, h″) = >>=-eq-ok _ (build_dependency_graph_nodes root' packages) g h' in
      let (l, covers) = build_dependency_graph_nodes-Linked root' packages ns e in
      subst (λ (r : Result ParsedGraph). Tight r) h″
        (finalized-tight (cache_key root') packages ns l covers)

  -- Both ends of every edge of the graph of a lock file are nodes of the graph.
  pub parse_package_lock-ends :
      (root : ArtifactIdentity) (data_ : String) (g : ParsedGraph)
      → parse_package_lock decode encode digest root data_ ≡ ok g
      → any (is_loose g.nodes) g.edges ≡ false
  unfolding parse_package_lock
  parse_package_lock-ends root data_ g h = elim (Result-cases (decode data_)) [
    | inl (packages, e) ↦ parse_packages-ends root packages g (rw (e, parse_package_lock) at h)
    | inr (x, e) ↦
        let c : err (annotate "parsing package-lock.json" x) ≡ ok g =
          rw (e, parse_package_lock) at h in
        cc
  ]
