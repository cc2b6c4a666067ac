-- ===== src/Infra/BlobCache/Kept.antt =====
-- The number and the bytes of some of the files of internal/infra/ocicache/disk.go.
use dependency_firewall.Base.{
  Bool, List, [], any, arith, false, insert, keep, length, refl, sort, ◌∷◌, ◌≡◌, ◌≤◌,
}
use dependency_firewall.Infra.BlobCache.{CachedFile, cached_files_size, older}

module _ (p : CachedFile → Bool) where
  length-insert-keep :
      (f : CachedFile) (files : List CachedFile)
      → length (keep p (insert older f files)) ≡ length (keep p (f ∷ files))
  unfolding insert
  length-insert-keep f [] = refl
  length-insert-keep f (g ∷ files) = ground (arith, length-insert-keep f files)

  pub length-sort-keep :
      (files : List CachedFile) → length (keep p (sort older files)) ≡ length (keep p files)
  unfolding sort
  length-sort-keep [] = refl
  length-sort-keep (f ∷ files) =
      ground (arith, length-insert-keep f (sort older files), length-sort-keep files)

  size-insert-keep :
      (f : CachedFile) (files : List CachedFile)
      → cached_files_size (keep p (insert older f files)) ≡ cached_files_size (keep p (f ∷ files))
  unfolding insert cached_files_size
  size-insert-keep f [] = refl
  size-insert-keep f (g ∷ files) = ground (arith, size-insert-keep f files)

  pub size-sort-keep :
      (files : List CachedFile)
      → cached_files_size (keep p (sort older files)) ≡ cached_files_size (keep p files)
  unfolding sort cached_files_size
  size-sort-keep [] = refl
  size-sort-keep (f ∷ files) =
      ground (arith, size-insert-keep f (sort older files), size-sort-keep files)

  pub length-keep-le : (files : List CachedFile) → length (keep p files) ≤ length files
  length-keep-le [] = omega arith
  length-keep-le (f ∷ files) = ground (arith, length-keep-le files)

  pub size-keep-le :
      (files : List CachedFile) → cached_files_size (keep p files) ≤ cached_files_size files
  unfolding cached_files_size
  size-keep-le [] = omega arith
  size-keep-le (f ∷ files) = ground (arith, size-keep-le files)

  pub any-keep-false :
      (q : CachedFile → Bool) (files : List CachedFile)
      → any q files ≡ false
      → any q (keep p files) ≡ false
  any-keep-false q [] h = refl
  any-keep-false q (f ∷ files) h = ground (arith, any-keep-false q files)
