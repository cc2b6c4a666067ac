-- ===== src/Infra/BlobCache.antt =====
-- internal/infra/ocicache/disk.go: the limits of the disk cache of OCI artifacts. The file system is a
-- parameter that works on a state `S`. A size is a natural number, and the sums of the sizes stay
-- within 64 bits.
pub mod Fits
pub mod Kept
pub mod Limits
pub mod Paths
pub mod Removal
pub mod Session
mod Tests
use dependency_firewall.Base.{
  Bool, List, String, [], if◌then◌else◌, leb_ℤ, length, ltb_ℤ, pos, sort, suc, ℕ, ℤ, ◌&&◌, ◌+◌,
  ◌-ℤ◌, ◌-◌, ◌||◌, ◌∷◌,
}
use dependency_firewall.Domain.Message.{Error, Result, annotate, err, ok}

-- DiskCache; a time span and a time are a number of nanoseconds
pub record DiskCache : Type 0 where
  pub root_dir : String
  pub max_bytes : ℤ
  pub max_age : ℤ
  pub max_entries : ℤ

pub record CachedFile : Type 0 where
  pub data_path : String
  pub meta_path : String
  pub size : ℕ
  pub mod_time : ℤ

unfoldable pub cached_files_size : List CachedFile → ℕ
cached_files_size [] = 0
cached_files_size (f ∷ fs) = f.size + cached_files_size fs

-- c.maxEntries > 0 && entryCount > c.maxEntries, and the same for the bytes
unfoldable pub capacity_exceeded : DiskCache → ℕ → ℕ → Bool
capacity_exceeded c entry_count total_bytes =
    let too_many_entries = ltb_ℤ (pos 0) c.max_entries && ltb_ℤ c.max_entries (pos entry_count) in
    let too_many_bytes = ltb_ℤ (pos 0) c.max_bytes && ltb_ℤ c.max_bytes (pos total_bytes) in
    too_many_entries || too_many_bytes

abbrev pub older : CachedFile → CachedFile → Bool
older f g = ltb_ℤ f.mod_time g.mod_time

-- now.Sub(file.modTime) <= c.maxAge
unfoldable pub is_young : DiskCache → ℤ → CachedFile → Bool
is_young c now f = leb_ℤ (now -ℤ f.mod_time) c.max_age

-- `kept = append(kept, file)`
abbrev pub with_file :
    {S : Type 0} → CachedFile → Result (List CachedFile) × S → Result (List CachedFile) × S
with_file f (err e, s) = (err e, s)
with_file f (ok files, s) = (ok (f ∷ files), s)

module _ {S : Type 0} (remove : String → S → Result (Unit {0}) × S)
    (is_not_exist : Error → Bool) where
  -- an error of os.Remove, unless the file is not there
  unfoldable pub remove_path : String → String → S → Result (Unit {0}) × S
  remove_path what path s =
      let (r, s') = remove path s in
      (
        elim r [ ok _ ↦ ok tt | err e ↦ if is_not_exist e then ok tt else err (annotate what e) ],
        s',
      )

  unfoldable pub removed_data : CachedFile → Result (Unit {0}) × S → Result (Unit {0}) × S
  unfolding remove_path
  removed_data f (err e, s) = (err e, s)
  removed_data f (ok _, s) = remove_path "removing cached metadata" f.meta_path s

  unfoldable pub remove_cached_file : CachedFile → S → Result (Unit {0}) × S
  unfolding removed_data
  remove_cached_file f s = removed_data f (remove_path "removing cached artifact" f.data_path s)

  -- the loop after the call of removeCachedFile
  unfoldable pub after_removal :
      {A : Type 0} → (S → Result A × S) → Result (Unit {0}) × S → Result A × S
  after_removal next (err e, s) = (err e, s)
  after_removal next (ok _, s) = next s

  -- the loop of enforceCapacityLimits
  unfoldable pub evict : DiskCache → List CachedFile → ℕ → S → Result (Unit {0}) × S
  unfolding after_removal
  evict c [] total s = (ok tt, s)
  evict c (oldest ∷ files) total s =
      let next =
        after_removal (evict c files (total - oldest.size)) (remove_cached_file oldest s) in
      if capacity_exceeded c (suc (length files)) total then next else (ok tt, s)

  unfoldable pub enforce_capacity_limits : DiskCache → List CachedFile → S → Result (Unit {0}) × S
  unfolding evict
  enforce_capacity_limits c files s =
      if leb_ℤ c.max_entries (pos 0) && leb_ℤ c.max_bytes (pos 0)
      then (ok tt, s)
      else (let sorted = sort older files in evict c sorted (cached_files_size sorted) s)

  -- the loop of removeExpiredFiles
  unfoldable pub expire : DiskCache → ℤ → List CachedFile → S → Result (List CachedFile) × S
  unfolding after_removal is_young
  expire c now [] s = (ok [], s)
  expire c now (f ∷ files) s =
      let kept = with_file f (expire c now files s) in
      let next = after_removal (expire c now files) (remove_cached_file f s) in
      if is_young c now f then kept else next

  unfoldable pub remove_expired_files :
      DiskCache → ℤ → List CachedFile → S → Result (List CachedFile) × S
  unfolding expire
  remove_expired_files c now files s =
      if leb_ℤ c.max_age (pos 0) then (ok files, s) else expire c now files s

  -- enforceLimits, below removeExpiredFiles
  unfoldable pub enforce_after : DiskCache → Result (List CachedFile) × S → Result (Unit {0}) × S
  unfolding enforce_capacity_limits
  enforce_after c (err e, s) = (err e, s)
  enforce_after c (ok files, s) = enforce_capacity_limits c files s

  -- enforceLimits, with the files that collectScopedFiles has found
  unfoldable pub enforce_limits : DiskCache → ℤ → List CachedFile → S → Result (Unit {0}) × S
  unfolding remove_expired_files enforce_after
  enforce_limits c now files s =
      if leb_ℤ c.max_age (pos 0) && leb_ℤ c.max_entries (pos 0) && leb_ℤ c.max_bytes (pos 0)
      then (ok tt, s)
      else enforce_after c (remove_expired_files c now files s)
