-- ===== src/Infra/BlobCache/Removal.antt =====
-- internal/infra/ocicache/disk.go: which files removeCachedFile takes away. What os.Remove does to
-- the files is a parameter with its laws.
use dependency_firewall.Base.{
  Bool, Each, List, String, [], any, arith, false, if◌then◌else◌, refl, true, ◌==◌, ◌||◌, ◌∙◌, ◌∷◌,
  ◌≡◌,
}
use dependency_firewall.Domain.Message.{Error, Result, annotate, err, ok}
use dependency_firewall.Infra.BlobCache.{CachedFile, remove_cached_file, remove_path, removed_data}

-- Whether os.Remove leaves no file: it succeeds, or reports that there is none.
abbrev pub is_cleared : (Error → Bool) → Result (Unit {0}) → Bool
is_cleared is_not_exist (ok _) = true
is_cleared is_not_exist (err e) = is_not_exist e

-- `there path s` tells whether the path exists. A call concerns one path only, and creates none.
pub record RemoveLaws (S : Type 0) (remove : String → S → Result (Unit {0}) × S)
    (is_not_exist : Error → Bool) (there : String → S → Bool) : Type 0 where
  pub cleared :
      (path : String) (s : S)
      → is_cleared is_not_exist (remove path s).0 ≡ true
      → there path (remove path s).1 ≡ false
  pub creates_none :
      (path p : String) (s : S) → there p s ≡ false → there p (remove path s).1 ≡ false
  pub others :
      (path p : String) (s : S) → (p == path) ≡ false → there p (remove path s).1 ≡ there p s

abbrev pub is_path_of : String → CachedFile → Bool
is_path_of p f = (p == f.data_path) || (p == f.meta_path)

module _ {S : Type 0} (there : String → S → Bool) where
  -- Neither path of the file exists.
  abbrev pub Gone : S → CachedFile → Type 0
  Gone s f = (there f.data_path s ≡ false) × (there f.meta_path s ≡ false)

  -- No path appears.
  abbrev pub Shrinks : S → S → Type 0
  Shrinks s s' = (p : String) → there p s ≡ false → there p s' ≡ false

  -- The paths of exactly these files are taken away.
  abbrev pub Removed : S → S → List CachedFile → Type 0
  Removed s s' victims =
      Each (Gone s') victims
      × ((p : String) → any (is_path_of p) victims ≡ false → there p s' ≡ there p s)
      × Shrinks s s'

  pub Removed-none : (s : S) → Removed s s []
  Removed-none s = (tt, (λ p h. refl), (λ p h. h))

  pub Removed-cons :
      (f : CachedFile) (victims : List CachedFile) (s t s' : S)
      → Removed s t (f ∷ [])
      → Removed t s' victims
      → Removed s s' (f ∷ victims)
  Removed-cons f victims s t s' (((d, m), _), same, shrinks) (gone, same', shrinks') = (
    ((shrinks' _ d, shrinks' _ m), gone),
    (λ p h. same' p (ground arith) ∙ same p (ground arith)),
    (λ p h. shrinks' p (shrinks p h)),
  )

module _ {S : Type 0} (remove : String → S → Result (Unit {0}) × S) (is_not_exist : Error → Bool)
    (there : String → S → Bool) (laws : RemoveLaws S remove is_not_exist there) where
  is_cleared-of :
      (what : String) (r : Result (Unit {0}))
      → elim r as (λ _. Result (Unit {0})) [
        | ok _ ↦ ok tt
        | err e ↦ if is_not_exist e then ok tt else err (annotate what e)
      ]
        ≡ ok tt
      → is_cleared is_not_exist r ≡ true
  is_cleared-of what (ok _) h = refl
  is_cleared-of what (err e) h = ground arith

  -- what one call of remove_path tells
  abbrev Tells : String → S → Result (Unit {0}) × S → Type 0
  Tells path s (r, t) =
      (r ≡ ok tt → there path t ≡ false)
      × ((p : String) → (p == path) ≡ false → there p t ≡ there p s)
      × Shrinks there s t

  remove_path-Tells :
      (what path : String) (s : S) → Tells path s (remove_path remove is_not_exist what path s)
  unfolding remove_path
  remove_path-Tells what path s = (
    (λ h. laws.cleared path s (is_cleared-of what _ h)),
    (λ p h. laws.others path p s h),
    (λ p h. laws.creates_none path p s h),
  )

  removed_data-Removed :
      (f : CachedFile) (s : S) (r : Result (Unit {0}) × S)
      → Tells f.data_path s r
      → (removed_data remove is_not_exist f r).0 ≡ ok tt
      → Removed there s (removed_data remove is_not_exist f r).1 (f ∷ [])
  unfolding removed_data
  removed_data-Removed f s (err e, t) told h = cc
  removed_data-Removed f s (ok u, t) (gone, same, shrinks) h =
      let (gone', same', shrinks') = remove_path-Tells "removing cached metadata" f.meta_path t in
      (
        ((shrinks' _ (gone refl), gone' h), tt),
        (λ p q. same' p (ground arith) ∙ same p (ground arith)),
        (λ p q. shrinks' p (shrinks p q)),
      )

  -- removeCachedFile, where it succeeds, takes away the two paths of the file and no other.
  pub remove_cached_file-Removed :
      (f : CachedFile) (s : S)
      → (remove_cached_file remove is_not_exist f s).0 ≡ ok tt
      → Removed there s (remove_cached_file remove is_not_exist f s).1 (f ∷ [])
  unfolding remove_cached_file
  remove_cached_file-Removed f s h =
      removed_data-Removed f s
        (remove_path remove is_not_exist "removing cached artifact" f.data_path s)
        (remove_path-Tells "removing cached artifact" f.data_path s) h
