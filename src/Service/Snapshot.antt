-- ===== src/Service/Snapshot.antt =====
-- internal/core/service/install_snapshot.go. The manifests and the queue are parameters; an adapter
-- that is nil is `none`. The manifests are fetched at the same time, and only the set of the names
-- and the count of the failures are kept, so the order of the results does not matter.
pub mod Roots
use dependency_firewall.Base.{
  Bool, List, Option, String, [], contains, eqb, if◌then◌else◌, keep, length, ltb, none, not, some,
  sort, str_lt, suc, take, trim_space, zero, ℕ, ℤ, ◌&&◌, ◌++◌, ◌+◌, ◌<>◌, ◌==◌, ◌||◌, ◌∷◌,
}
use dependency_firewall.Domain.Artifact.{ArtifactIdentity}
use dependency_firewall.Domain.Message.{Result, err, ok}
use dependency_firewall.Service.Jobs.{InstallSnapshot, ResolveRequest}

-- snapshotMaxPackages
abbrev pub snapshot_max_packages : ℕ
snapshot_max_packages = 5000

abbrev pub package_key : ArtifactIdentity → String
package_key a = a.name <> "@" <> a.version

abbrev pub package_less : ArtifactIdentity → ArtifactIdentity → Bool
package_less a b =
    if not (a.name == b.name) then str_lt a.name b.name else str_lt a.version b.version

-- the loop over the packages; `seen` holds the keys of those that were kept
unfoldable pub dedupe_from : List String → List ArtifactIdentity → List ArtifactIdentity
dedupe_from seen [] = []
dedupe_from seen (a ∷ rest) =
    let skipped = dedupe_from seen rest in
    let kept = a ∷ dedupe_from (package_key a ∷ seen) rest in
    if trim_space a.name == "" || trim_space a.version == "" || contains seen (package_key a)
    then skipped
    else kept

unfoldable pub dedupe_snapshot_packages : List ArtifactIdentity → List ArtifactIdentity
unfolding dedupe_from
dedupe_snapshot_packages packages = sort package_less (dedupe_from [] packages)

-- dependedOn and fetchFailures
pub record Declared : Type 0 where
  pub depended_on : List String
  pub fetch_failures : ℕ

abbrev pub add_manifest : Result (List String) → Declared → Declared
add_manifest (ok names) d = record d { depended_on = names ++ d.depended_on }
add_manifest (err e) d = record d { fetch_failures = d.fetch_failures + 1 }

-- The manifests of the packages that are taken before the context is canceled.
unfoldable pub collect_dependency_names :
    (ArtifactIdentity → Result (List String)) → ℕ → List ArtifactIdentity → Declared
collect_dependency_names manifest live [] = record { depended_on = []; fetch_failures = 0 }
collect_dependency_names manifest zero (a ∷ rest) = record { depended_on = []; fetch_failures = 0 }
collect_dependency_names manifest (suc live) (a ∷ rest) =
    add_manifest (manifest a) (collect_dependency_names manifest live rest)

-- the packages whose name no manifest declares
unfoldable pub snapshot_roots : Declared → List ArtifactIdentity → List ArtifactIdentity
snapshot_roots d packages = keep (λ a. not (contains d.depended_on a.name)) packages

-- fetchFailures > 0 && len(packages) > 1 && len(roots) == len(packages)
abbrev pub unreliable : Declared → List ArtifactIdentity → List ArtifactIdentity → Bool
unreliable d roots packages =
    ltb 0 d.fetch_failures && ltb 1 (length packages) && eqb (length roots) (length packages)

-- what ProcessSnapshot returns: no roots where the manifests are not reliable
unfoldable pub infer_roots :
    (ArtifactIdentity → Result (List String)) → ℕ → List ArtifactIdentity → List ArtifactIdentity
unfolding snapshot_roots
infer_roots manifest live packages =
    let d = collect_dependency_names manifest live packages in
    let roots = snapshot_roots d packages in if unreliable d roots packages then [] else roots

abbrev requested : Option ℤ → ℤ → ℤ
requested none now = now
requested (some observed) now = observed

module _ {S : Type 0} (manifest : ArtifactIdentity → Result (List String))
    (enqueue : ResolveRequest → S → Result Bool × S) where
  -- the loop over the roots; an error of the queue is logged
  enqueue_roots : InstallSnapshot → ℤ → List ArtifactIdentity → S → S
  enqueue_roots snapshot at [] s = s
  enqueue_roots snapshot at (root ∷ roots) s =
      enqueue_roots snapshot at roots
        (enqueue
          (record {
            tenant_id = snapshot.tenant_id;
            upstream = snapshot.upstream;
            root = root;
            requested_at = at;
          })
          s).1

  -- ProcessSnapshot of a service that is not nil; `live` is the number of packages that are taken
  -- before the context is canceled.
  unfoldable pub process_snapshot : ℤ → ℕ → InstallSnapshot → S → List ArtifactIdentity × S
  unfolding dedupe_snapshot_packages infer_roots enqueue_roots
  process_snapshot now live snapshot s =
      let packages = take snapshot_max_packages (dedupe_snapshot_packages snapshot.packages) in
      let roots = infer_roots manifest live packages in
      (roots, enqueue_roots snapshot (requested snapshot.observed_at now) roots s)
