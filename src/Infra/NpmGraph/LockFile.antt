-- ===== src/Infra/NpmGraph/LockFile.antt =====
-- internal/infra/npmgraph/lockfile.go: the nodes and the edges of the graph of an npm lock file, from
-- the JSON value on. A Go map is the list of its entries in the order in which `range` visits
-- them. The JSON decoder, the encoder of the graph and SHA-256 are parameters.
use dependency_firewall.Base.{
  Bool, List, Option, String, [], if◌then◌else◌, is_some, none, some, true, ℕ, ◌<>◌, ◌==◌, ◌||◌,
  ◌∷◌,
}
use dependency_firewall.Domain.Artifact.{
  ArtifactIdentity, ecosystem_npm, normalize_artifact_identity,
}
use dependency_firewall.Domain.Dependency.{type_dev, type_optional, type_peer, type_prod}
use dependency_firewall.Domain.Message.{Error, Result, annotate, err, errorf, ok, plain}
use dependency_firewall.Infra.NpmGraph.Paths.{
  dir_path, join_path, package_name_from_lock_path, path_text,
}

pub record LockPackage : Type 0 where
  pub name : String
  pub version : String
  pub dependencies : List String
  pub dev_dependencies : List String
  pub peer_dependencies : List String
  pub optional_dependencies : List String

abbrev pub Packages : Type 0
Packages = List (String × LockPackage)

abbrev pub find_package : Packages → String → Option LockPackage
find_package [] path = none
find_package ((p, pkg) ∷ ps) path = if p == path then some pkg else find_package ps path

pub record GraphNode : Type 0 where
  pub id : String
  pub artifact : ArtifactIdentity
  pub min_depth : Option ℕ
  pub dependency_types : List String

unfoldable pub lock_error : String → Error
lock_error what = errorf (plain ("parsing package-lock.json: " <> what))

unfoldable pub root_with_full_name : ArtifactIdentity → ArtifactIdentity
root_with_full_name root =
    let named =
      if root.namespace == "" then record root { ecosystem = ecosystem_npm } else record root {
        ecosystem = ecosystem_npm;
        name = root.namespace <> "/" <> root.name;
        namespace = "";
      } in
    elim (normalize_artifact_identity named) [ ok normalized ↦ normalized | err e ↦ named ]

-- the identity of a package that is not the root
package_identity : String → LockPackage → ArtifactIdentity
package_identity lock_path pkg = record {
  ecosystem = ecosystem_npm;
  namespace = "";
  name = if pkg.name == "" then package_name_from_lock_path lock_path else pkg.name;
  version = pkg.version;
  digest = "";
}

normalized_package : String → Result ArtifactIdentity → Result ArtifactIdentity
normalized_package lock_path (ok a) = ok a
normalized_package lock_path (err e) = err (annotate ("normalizing lock package %q") e)

unfoldable pub artifact_for_lock_package :
    ArtifactIdentity → String → LockPackage → Result ArtifactIdentity
unfolding lock_error package_identity normalized_package
artifact_for_lock_package root lock_path pkg =
    if lock_path == ""
    then (if root.version == "" then err (lock_error "root version is required") else ok root)
    else let a = package_identity lock_path pkg in
      if a.name == "" || pkg.version == ""
      then err (lock_error "package %q has missing name or version")
      else normalized_package lock_path (normalize_artifact_identity a)

-- The entries of a map from a name to a dependency type, when `name` is written.
set_type : String → String → List (String × String) → List (String × String)
set_type kind name [] = (name, kind) ∷ []
set_type kind name ((n, k) ∷ entries) =
    let rest = set_type kind name entries in
    if n == name then (n, kind) ∷ entries else (n, k) ∷ rest

set_types : String → List String → List (String × String) → List (String × String)
unfolding set_type
set_types kind [] entries = entries
set_types kind (name ∷ names) entries = set_types kind names (set_type kind name entries)

unfoldable pub dependency_entries : LockPackage → List (String × String)
unfolding set_types
dependency_entries pkg = set_types type_optional pkg.optional_dependencies (
    set_types type_peer pkg.peer_dependencies
      (set_types type_dev pkg.dev_dependencies (set_types type_prod pkg.dependencies [])))

-- path.Join(dir, "node_modules", depName)
abbrev pub candidate_in : String → String → String
candidate_in dir name = join_path (dir ∷ "node_modules" ∷ name ∷ [])

-- the loop over the enclosing directories, and the candidate at the top
unfoldable pub resolve_above : Packages → Bool → String → List String → String × Bool
resolve_above packages rooted name [] =
    let dir = path_text (record { rooted = rooted; segments = [] }) in
    let top = join_path ("node_modules" ∷ name ∷ []) in
    if is_some (find_package packages (candidate_in dir name))
    then (candidate_in dir name, true)
    else (top, is_some (find_package packages top))
resolve_above packages rooted name (s ∷ segments) =
    let dir = path_text (record { rooted = rooted; segments = s ∷ segments }) in
    let above = resolve_above packages rooted name segments in
    if is_some (find_package packages (candidate_in dir name))
    then (candidate_in dir name, true)
    else above

unfoldable pub resolve_dependency_path : Packages → String → String → String × Bool
unfolding resolve_above
resolve_dependency_path packages parent name =
    let top = join_path ("node_modules" ∷ name ∷ []) in
    let dir = dir_path parent in
    if is_some (find_package packages (candidate_in parent name))
    then (candidate_in parent name, true)
    else if parent == "." || parent == "/" || parent == ""
    then (top, is_some (find_package packages top))
    else resolve_above packages dir.rooted name dir.segments
