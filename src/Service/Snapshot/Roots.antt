-- ===== src/Service/Snapshot/Roots.antt =====
-- internal/core/service/install_snapshot.go: which packages are roots, and how many there can be.
use mathlib.Core.Path.{ap₂}
use dependency_firewall.Base.{
  Bool, List, String, [], any, ap, arith, contains, count, count-keep, count-sort, count-take,
  eq_iff, eqb, false, if◌then◌else◌, keep, leb, length, length-keep, length-take, ltb, not, refl,
  suc, take, true, zero, ℕ, ℤ, ◌&&◌, ◌++◌, ◌==◌, ◌||◌, ◌∙◌, ◌∷◌, ◌≡◌,
}
use dependency_firewall.Domain.Artifact.{ArtifactIdentity}
use dependency_firewall.Domain.Message.{Result, err, ok}
use dependency_firewall.Service.Jobs.{InstallSnapshot, ResolveRequest}
use dependency_firewall.Service.Snapshot.{
  Declared, add_manifest, collect_dependency_names, dedupe_from, dedupe_snapshot_packages,
  infer_roots, package_key, package_less, process_snapshot, snapshot_max_packages, snapshot_roots,
}

module _ (manifest : ArtifactIdentity → Result (List String)) where
  -- whether the manifest of the package declares the name
  abbrev pub declares : String → Result (List String) → Bool
  declares name (ok names) = contains names name
  declares name (err e) = false

  abbrev pub is_failure : Result (List String) → Bool
  is_failure (ok names) = false
  is_failure (err e) = true

  contains-concat :
      (xs ys : List String) (name : String)
      → contains (xs ++ ys) name ≡ (contains xs name || contains ys name)
  contains-concat [] ys name = refl
  contains-concat (x ∷ xs) ys name = ground (arith, contains-concat xs ys name)

  contains-add_manifest :
      (r : Result (List String)) (d : Declared) (name : String)
      → contains (add_manifest r d).depended_on name
        ≡ (declares name r || contains d.depended_on name)
  contains-add_manifest (ok names) d name = contains-concat names d.depended_on name
  contains-add_manifest (err e) d name = refl

  failures-add_manifest :
      (r : Result (List String)) (d : Declared)
      → ltb 0 (add_manifest r d).fetch_failures ≡ (is_failure r || ltb 0 d.fetch_failures)
  failures-add_manifest (ok names) d = refl
  failures-add_manifest (err e) d = ground arith

  contains-collect :
      (live : ℕ) (packages : List ArtifactIdentity) (name : String)
      → contains (collect_dependency_names manifest live packages).depended_on name
        ≡ any (λ (p : ArtifactIdentity). declares name (manifest p)) (take live packages)
  unfolding collect_dependency_names
  contains-collect zero [] name = refl
  contains-collect zero (p ∷ ps) name = refl
  contains-collect (suc live) [] name = refl
  contains-collect (suc live) (p ∷ ps) name =
      contains-add_manifest (manifest p) _ name
      ∙ ap (λ b. declares name (manifest p) || b) (contains-collect live ps name)

  failures-collect :
      (live : ℕ) (packages : List ArtifactIdentity)
      → ltb 0 (collect_dependency_names manifest live packages).fetch_failures
        ≡ any (λ (p : ArtifactIdentity). is_failure (manifest p)) (take live packages)
  unfolding collect_dependency_names
  failures-collect zero [] = refl
  failures-collect zero (p ∷ ps) = refl
  failures-collect (suc live) [] = refl
  failures-collect (suc live) (p ∷ ps) =
      failures-add_manifest (manifest p) _
      ∙ ap (λ b. is_failure (manifest p) || b) (failures-collect live ps)

  keep-cong :
      (p q : ArtifactIdentity → Bool)
      → ((a : ArtifactIdentity) → p a ≡ q a)
      → (xs : List ArtifactIdentity) → keep p xs ≡ keep q xs
  keep-cong p q h [] = refl
  keep-cong p q h (x ∷ xs) = ground (arith, h x, keep-cong p q h xs)

  -- the packages whose name no manifest declares, of those that were fetched
  abbrev pub undeclared : ℕ → List ArtifactIdentity → List ArtifactIdentity
  undeclared live packages =
      keep
        (λ a.
          not (any (λ (p : ArtifactIdentity). declares a.name (manifest p)) (take live packages)))
        packages

  -- The roots are the packages whose name no manifest that was fetched declares, the package's own
  -- included; there are none where a manifest could not be fetched and each of several packages would
  -- be a root.
  pub infer_roots-undeclared :
      (live : ℕ) (packages : List ArtifactIdentity)
      → infer_roots manifest live packages ≡ (
          if any (λ (p : ArtifactIdentity). is_failure (manifest p)) (take live packages)
            && ltb 1 (length packages)
            && eqb (length (undeclared live packages)) (length packages)
          then []
          else undeclared live packages)
  unfolding infer_roots snapshot_roots
  infer_roots-undeclared live packages =
      let d = collect_dependency_names manifest live packages in
      let same : snapshot_roots d packages ≡ undeclared live packages =
        keep-cong _ _ (λ a. ap not (contains-collect live packages a.name)) packages in
      ap₂
        (λ (b : Bool) (roots : List ArtifactIdentity).
          if b && ltb 1 (length packages) && eqb (length roots) (length packages)
          then []
          else roots)
        (failures-collect live packages) same

dedupe_from-count :
    (key : String) (seen : List String) (packages : List ArtifactIdentity)
    → leb
        (count (λ (a : ArtifactIdentity). package_key a == key) (dedupe_from seen packages))
        (if contains seen key then 0 else 1)
      ≡ true
unfolding dedupe_from
dedupe_from-count key seen [] = ground arith
dedupe_from-count key seen (a ∷ rest) = ground (
  arith,
  dedupe_from-count key seen rest,
  dedupe_from-count key (package_key a ∷ seen) rest,
  eq_iff (package_key a) key,
)

dedupe_snapshot_packages-count :
    (key : String) (packages : List ArtifactIdentity)
    → leb
        (count (λ (a : ArtifactIdentity). package_key a == key) (dedupe_snapshot_packages packages))
        1
      ≡ true
unfolding dedupe_snapshot_packages
dedupe_snapshot_packages-count key packages = ground (
  arith,
  count-sort package_less (λ (a : ArtifactIdentity). package_key a == key)
      (dedupe_from [] packages),
  dedupe_from-count key [] packages,
)

infer_roots-bounds :
    (manifest : ArtifactIdentity → Result (List String)) (live : ℕ) (p : ArtifactIdentity → Bool)
    (packages : List ArtifactIdentity)
    → (leb (length (infer_roots manifest live packages)) (length packages) ≡ true)
      × (leb (count p (infer_roots manifest live packages)) (count p packages) ≡ true)
unfolding infer_roots snapshot_roots
infer_roots-bounds manifest live p packages =
    let d = collect_dependency_names manifest live packages in
    let kept = λ (a : ArtifactIdentity). not (contains d.depended_on a.name) in
    (ground (arith, length-keep kept packages), ground (arith, count-keep p kept packages))

leb_trans : (a b c : ℕ) → leb a b ≡ true → leb b c ≡ true → leb a c ≡ true
leb_trans a b c h g = ground arith

-- However many packages a snapshot has, ProcessSnapshot returns at most 5000 roots, and no version of
-- a package twice.
pub process_snapshot-bounds :
    {S : Type 0} (manifest : ArtifactIdentity → Result (List String))
    (enqueue : ResolveRequest → S → Result Bool × S) (now : ℤ) (live : ℕ)
    (snapshot : InstallSnapshot) (s : S)
    → let roots = (process_snapshot manifest enqueue now live snapshot s).0 in
      (leb (length roots) 5000 ≡ true)
      × ((key : String)
          → leb (count (λ (a : ArtifactIdentity). package_key a == key) roots) 1 ≡ true)
unfolding process_snapshot
process_snapshot-bounds manifest enqueue now live snapshot s =
    let all = dedupe_snapshot_packages snapshot.packages in
    let packages = take snapshot_max_packages all in
    (
      (let (fewer, _) = infer_roots-bounds manifest live (λ a. true) packages in
          leb_trans _ _ 5000 fewer (length-take 5000 all)),
      (λ key.
          let p = λ (a : ArtifactIdentity). package_key a == key in
          let (_, fewer) = infer_roots-bounds manifest live p packages in
          leb_trans _ _ 1 fewer (
            leb_trans _ _ 1 (count-take p 5000 all)
              (dedupe_snapshot_packages-count key snapshot.packages))),
    )
