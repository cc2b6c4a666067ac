-- ===== src/Infra/NpmGraph/Graph/Linked.antt =====
-- internal/infra/npmgraph/lockfile.go: the paths of the lock file and the ids of their nodes.
use mathlib.Core.Path.{subst}
use dependency_firewall.Base.{
  Bool, List, String, [], any, arith, contains, eq_iff, false, if◌then◌else◌, is_some, none, refl,
  true, ◌++◌, ◌==◌, ◌||◌, ◌∷◌, ◌≡◌,
}
use dependency_firewall.Domain.Artifact.{ArtifactIdentity, cache_key}
use dependency_firewall.Domain.Message.{>>=-eq-ok, ok}
use dependency_firewall.Infra.NpmGraph.Graph.{Nodes, add_node, build_nodes_from, id_at, node_ids}
use dependency_firewall.Infra.NpmGraph.LockFile.{
  GraphNode, LockPackage, Packages, artifact_for_lock_package, candidate_in, find_package,
  resolve_above, resolve_dependency_path,
}
use dependency_firewall.Infra.NpmGraph.Paths.{dir_path, join_path, path_text}

-- whether the id is that of a node
abbrev pub is_node : List GraphNode → String → Bool
is_node nodes id = any (λ n. n.id == id) nodes

abbrev pub has_path {ℓ} : {A : Type ℓ} → List (String × A) → String → Bool
has_path ps path = any (λ p. p.0 == path) ps

pub contains-node_ids :
    (nodes : List GraphNode) (id : String) → contains (node_ids nodes) id ≡ is_node nodes id
contains-node_ids [] id = refl
contains-node_ids (n ∷ ns) id = ground (arith, contains-node_ids ns id)

pub any-concat :
    {A : Type 0} (p : A → Bool) (xs : List A) (x : A) → any p (xs ++ x ∷ []) ≡ (any p xs || p x)
any-concat p [] x = ground arith
any-concat p (y ∷ xs) x = ground (arith, any-concat p xs x)

pub is_node-add_node :
    (a : ArtifactIdentity) (nodes : List GraphNode) (id : String)
    → is_node (add_node a nodes) id ≡ (is_node nodes id || cache_key a == id)
unfolding add_node
is_node-add_node a nodes id =
    let new : GraphNode = record {
      id = cache_key a;
      artifact = a;
      min_depth = none;
      dependency_types = [];
    } in
    ground (
      arith,
      contains-node_ids nodes (cache_key a),
      any-concat (λ (n : GraphNode). n.id == id) nodes new,
      eq_iff (cache_key a) id,
    )

-- The id of every path is that of a node.
abbrev pub Linked : Nodes → Type 0
Linked ns =
    (path : String)
    → has_path ns.path_ids path ≡ true
    → is_node ns.nodes (id_at ns.path_ids path) ≡ true

pub id_at-concat :
    (ids : List (String × String)) (p id path : String)
    → id_at (ids ++ (p, id) ∷ []) path
      ≡ (if has_path ids path then id_at ids path else if p == path then id else "")
id_at-concat [] p id path = refl
id_at-concat ((q, i) ∷ ids) p id path = ground (arith, id_at-concat ids p id path)

pub Linked-concat :
    (ns : Nodes) (p : String) (a : ArtifactIdentity)
    → Linked ns
    → Linked
        (record { path_ids = ns.path_ids ++ (p, cache_key a) ∷ []; nodes = add_node a ns.nodes })
Linked-concat ns p a l path h = ground (
  arith,
  l path,
  any-concat (λ (q : String × String). q.0 == path) ns.path_ids (p, cache_key a),
  id_at-concat ns.path_ids p (cache_key a) path,
  is_node-add_node a ns.nodes (id_at ns.path_ids path),
  is_node-add_node a ns.nodes (cache_key a),
  eq_iff (cache_key a) (cache_key a),
)

pub build_nodes_from-Linked :
    (root : ArtifactIdentity) (packages : Packages) (rest : List (String × LockPackage))
    (ns ms : Nodes)
    → Linked ns
    → build_nodes_from root packages rest ns ≡ ok ms
    → Linked ms
unfolding build_nodes_from
build_nodes_from-Linked root packages [] ns ms l h = let e : ns ≡ ms = cc in subst Linked e l
build_nodes_from-Linked root packages ((p, pkg) ∷ rest) ns ms l h =
    let (a, _, built) = >>=-eq-ok _ (artifact_for_lock_package root p pkg) ms h in
    build_nodes_from-Linked root packages rest _ ms (Linked-concat ns p a l) built

pub build_nodes_from-has_path :
    (root : ArtifactIdentity) (packages : Packages) (rest : List (String × LockPackage))
    (ns ms : Nodes)
    → build_nodes_from root packages rest ns ≡ ok ms
    → (path : String)
    → (has_path ns.path_ids path || has_path rest path) ≡ has_path ms.path_ids path
unfolding build_nodes_from
build_nodes_from-has_path root packages [] ns ms h path =
    let e : ns ≡ ms = cc in
    subst (λ (k : Nodes). (has_path ns.path_ids path || false) ≡ has_path k.path_ids path) e
      (ground arith)
build_nodes_from-has_path root packages ((p, pkg) ∷ rest) ns ms h path =
    let (a, _, built) = >>=-eq-ok _ (artifact_for_lock_package root p pkg) ms h in
    ground (
      arith,
      build_nodes_from-has_path root packages rest _ ms built path,
      any-concat (λ (q : String × String). q.0 == path) ns.path_ids (p, cache_key a),
    )

pub find_package-has_path :
    (packages : Packages) (path : String)
    → is_some (find_package packages path) ≡ has_path packages path
find_package-has_path [] path = refl
find_package-has_path ((p, pkg) ∷ packages) path =
    ground (arith, find_package-has_path packages path)

pub resolve_above-has_path :
    (packages : Packages) (rooted : Bool) (name : String) (segments : List String)
    → (resolve_above packages rooted name segments).1 ≡ true
    → has_path packages (resolve_above packages rooted name segments).0 ≡ true
unfolding resolve_above
resolve_above-has_path packages rooted name [] h =
    let dir = path_text (record { rooted = rooted; segments = [] }) in
    ground (
      arith,
      find_package-has_path packages (candidate_in dir name),
      find_package-has_path packages (join_path ("node_modules" ∷ name ∷ [])),
    )
resolve_above-has_path packages rooted name (s ∷ segments) h =
    let dir = path_text (record { rooted = rooted; segments = s ∷ segments }) in
    ground (
      arith,
      find_package-has_path packages (candidate_in dir name),
      resolve_above-has_path packages rooted name segments,
    )

pub resolve_dependency_path-has_path :
    (packages : Packages) (parent name : String)
    → (resolve_dependency_path packages parent name).1 ≡ true
    → has_path packages (resolve_dependency_path packages parent name).0 ≡ true
unfolding resolve_dependency_path
resolve_dependency_path-has_path packages parent name h =
    let dir = dir_path parent in
    ground (
      arith,
      find_package-has_path packages (candidate_in parent name),
      find_package-has_path packages (join_path ("node_modules" ∷ name ∷ [])),
      resolve_above-has_path packages dir.rooted name dir.segments,
    )
