-- ===== src/Infra/BlobCache/Limits.antt =====
-- internal/infra/ocicache/disk.go: which files enforceCapacityLimits takes away.
use mathlib.Core.Path.{subst}
use dependency_firewall.Base.{
  Bool, Bool-cases, List, String, [], ap, arith, false, inl, inr, leb_ℤ, length, pos, refl, sort,
  suc, true, ℕ, ◌&&◌, ◌++◌, ◌+◌, ◌-◌, ◌∷◌, ◌≡◌,
}
use dependency_firewall.Domain.Message.{Error, Result, err, ok}
use dependency_firewall.Infra.BlobCache.{
  CachedFile, DiskCache, after_removal, cached_files_size, capacity_exceeded,
  enforce_capacity_limits, evict, older, remove_cached_file,
}
use dependency_firewall.Infra.BlobCache.Removal.{
  RemoveLaws, Removed, Removed-cons, Removed-none, remove_cached_file-Removed,
}

shifted : (a b : ℕ) → b ≡ a + b - a
shifted a b = ground arith

capacity_exceeded-none : (c : DiskCache) → capacity_exceeded c 0 0 ≡ false
unfolding capacity_exceeded
capacity_exceeded-none c = ground arith

-- Each victim went while the files from it on were too many or too large.
abbrev pub Needed : DiskCache → List CachedFile → List CachedFile → Type 0
Needed c [] left = Unit
Needed c (v ∷ vs) left =
    (capacity_exceeded c (length (v ∷ vs ++ left)) (cached_files_size (v ∷ vs ++ left)) ≡ true)
    × Needed c vs left

-- The first files are taken away, each while the limits were exceeded, and the files after them are
-- left and within the limits.
abbrev pub Evicted :
    {S : Type 0} → (String → S → Bool) → DiskCache → List CachedFile → S → S → Type 0
Evicted there c files s s' =
    (victims : List CachedFile) × (left : List CachedFile) × (victims ++ left ≡ files)
    × (capacity_exceeded c (length left) (cached_files_size left) ≡ false)
    × Needed c victims left
    × Removed there s s' victims

module _ {S : Type 0} (remove : String → S → Result (Unit {0}) × S) (is_not_exist : Error → Bool)
    (there : String → S → Bool) (laws : RemoveLaws S remove is_not_exist there)
    (c : DiskCache) where
  Evicted-cons :
      (oldest : CachedFile) (files : List CachedFile) (s t s' : S)
      → capacity_exceeded c (suc (length files)) (cached_files_size (oldest ∷ files)) ≡ true
      → Removed there s t (oldest ∷ [])
      → Evicted there c files t s'
      → Evicted there c (oldest ∷ files) s s'
  Evicted-cons oldest files s t s' e gone (victims, left, same, within, needed, removed) = (
    oldest ∷ victims,
    left,
    ap (λ fs. oldest ∷ fs) same,
    within,
    (rw same e, needed),
    Removed-cons there oldest victims s t s' gone removed,
  )

  after_removal-Evicted :
      (oldest : CachedFile) (files : List CachedFile) (s : S) (next : S → Result (Unit {0}) × S)
      (r : Result (Unit {0}) × S)
      → capacity_exceeded c (suc (length files)) (cached_files_size (oldest ∷ files)) ≡ true
      → (r.0 ≡ ok tt → Removed there s r.1 (oldest ∷ []))
      → ((t : S) → (next t).0 ≡ ok tt → Evicted there c files t (next t).1)
      → (after_removal remove is_not_exist next r).0 ≡ ok tt
      → Evicted there c (oldest ∷ files) s (after_removal remove is_not_exist next r).1
  unfolding after_removal
  after_removal-Evicted oldest files s next (err x, t) e gone rest h = cc
  after_removal-Evicted oldest files s next (ok _, t) e gone rest h =
      Evicted-cons oldest files s t (next t).1 e (gone refl) (rest t h)

  evict-Evicted :
      (files : List CachedFile) (s : S)
      → let r = evict remove is_not_exist c files (cached_files_size files) s in
        r.0 ≡ ok tt → Evicted there c files s r.1
  unfolding evict cached_files_size
  evict-Evicted [] s = λ h. ([], [], refl, capacity_exceeded-none c, tt, Removed-none there s)
  evict-Evicted (oldest ∷ files) s =
      let total = cached_files_size (oldest ∷ files) in
      let rest = evict remove is_not_exist c files (total - oldest.size) in
      elim (Bool-cases (capacity_exceeded c (suc (length files)) total)) [
        | inl e ↦ rw e (
            after_removal-Evicted oldest files s rest
              (remove_cached_file remove is_not_exist oldest s) e
              (remove_cached_file-Removed remove is_not_exist there laws oldest s)
              (λ t.
                subst
                  (λ n.
                    (evict remove is_not_exist c files n t).0 ≡ ok tt
                    → Evicted there c files t (evict remove is_not_exist c files n t).1)
                  (shifted oldest.size (cached_files_size files)) (evict-Evicted files t)))
        | inr e ↦ rw e (λ h. ([], oldest ∷ files, refl, e, tt, Removed-none there s))
      ]

  -- If enforceCapacityLimits succeeds and a limit is set, then it has taken away the oldest files,
  -- each while the files from it on exceeded the limits, both paths of it, and no other path; the
  -- files after them are within the limits. A call of os.Remove that succeeds, or finds no file, is
  -- taken to leave no file at its path, to leave the other paths, and to create none.
  pub enforce_capacity_limits-Evicted :
      (files : List CachedFile) (s : S)
      → (leb_ℤ c.max_entries (pos 0) && leb_ℤ c.max_bytes (pos 0)) ≡ false
      → (enforce_capacity_limits remove is_not_exist c files s).0 ≡ ok tt
      → Evicted there c
          (sort older files)
          s
          (enforce_capacity_limits remove is_not_exist c files s).1
  unfolding enforce_capacity_limits
  enforce_capacity_limits-Evicted files s limited = rw limited (evict-Evicted (sort older files) s)
