-- ===== src/Infra/BlobCache/Fits.antt =====
-- internal/infra/ocicache/disk.go: the files that are there after enforceLimits.
use mathlib.Core.Path.{subst}
use dependency_firewall.Base.{
  Bool, Bool-cases, Each, List, String, [], all, any, ap, arith, false, inl, inr, keep, leb_ℤ,
  length, ltb_ℤ, not, pos, refl, sort, sym, true, ℕ, ℤ, ◌&&◌, ◌++◌, ◌∙◌, ◌∷◌, ◌≡◌, ◌≤◌,
}
use dependency_firewall.Domain.Message.{Error, Result, err, ok}
use dependency_firewall.Infra.BlobCache.{
  CachedFile, DiskCache, after_removal, cached_files_size, capacity_exceeded, enforce_after,
  enforce_capacity_limits, enforce_limits, expire, is_young, older, remove_cached_file,
  remove_expired_files, with_file,
}
use dependency_firewall.Infra.BlobCache.Kept.{
  any-keep-false, length-keep-le, length-sort-keep, size-keep-le, size-sort-keep,
}
use dependency_firewall.Infra.BlobCache.Limits.{Evicted, enforce_capacity_limits-Evicted}
use dependency_firewall.Infra.BlobCache.Removal.{
  Gone, RemoveLaws, Removed, Shrinks, remove_cached_file-Removed,
}

-- no more files and no more bytes than the limits that are set
abbrev pub WithinLimits : DiskCache → ℕ → ℕ → Type 0
WithinLimits c entries bytes =
    (ltb_ℤ (pos 0) c.max_entries ≡ true → leb_ℤ (pos entries) c.max_entries ≡ true)
    × (ltb_ℤ (pos 0) c.max_bytes ≡ true → leb_ℤ (pos bytes) c.max_bytes ≡ true)

capacity_exceeded-WithinLimits :
    (c : DiskCache) (entries bytes : ℕ)
    → capacity_exceeded c entries bytes ≡ false
    → WithinLimits c entries bytes
unfolding capacity_exceeded
capacity_exceeded-WithinLimits c entries bytes h = ((λ e. ground arith), (λ e. ground arith))

capacity_exceeded-fewer :
    (c : DiskCache) (n n' b b' : ℕ)
    → n' ≤ n
    → b' ≤ b
    → capacity_exceeded c n b ≡ false
    → capacity_exceeded c n' b' ≡ false
unfolding capacity_exceeded
capacity_exceeded-fewer c n n' b b' p q h = ground arith

unlimited :
    (c : DiskCache) (n m : ℕ)
    → (leb_ℤ c.max_entries (pos 0) && leb_ℤ c.max_bytes (pos 0)) ≡ true
    → capacity_exceeded c n m ≡ false
unfolding capacity_exceeded
unlimited c n m h = ground arith

-- those of the files that are there
abbrev pub remaining : {S : Type 0} → (String → S → Bool) → S → List CachedFile → List CachedFile
remaining there s files = keep (λ f. there f.data_path s) files

-- within the limits, and none too old
abbrev pub Fits : DiskCache → ℤ → List CachedFile → Type 0
Fits c now files =
    WithinLimits c (length files) (cached_files_size files)
    × (ltb_ℤ (pos 0) c.max_age ≡ true → any (λ f. not (is_young c now f)) files ≡ false)

module _ {S : Type 0} (remove : String → S → Result (Unit {0}) × S) (is_not_exist : Error → Bool)
    (there : String → S → Bool) (laws : RemoveLaws S remove is_not_exist there)
    (c : DiskCache) where
  remaining-victims :
      (s : S) (victims left : List CachedFile)
      → Each (Gone there s) victims
      → remaining there s (victims ++ left) ≡ remaining there s left
  remaining-victims s [] left h = refl
  remaining-victims s (f ∷ victims) left ((d, _), h) = rw d (remaining-victims s victims left h)

  -- What is there of some files is within the limits.
  abbrev Within : S → List CachedFile → Type 0
  Within s files =
      capacity_exceeded c (length (remaining there s files))
        (cached_files_size (remaining there s files))
      ≡ false

  Evicted-Within :
      (files : List CachedFile) (s s' : S)
      → Evicted there c (sort older files) s s'
      → Within s' files
  Evicted-Within files s s' (victims, left, same, within, needed, (gone, others, shrinks)) =
      let e : remaining there s' (sort older files) ≡ remaining there s' left =
        ap (remaining there s') (sym same) ∙ remaining-victims s' victims left gone in
      let p = λ (f : CachedFile). there f.data_path s' in
      capacity_exceeded-fewer c (length left) _ (cached_files_size left) _
        (omega (arith, length-sort-keep p files, ap length e, length-keep-le p left))
        (omega (arith, size-sort-keep p files, ap cached_files_size e, size-keep-le p left)) within

  enforce_capacity_limits-Within :
      (files : List CachedFile) (s : S)
      → (enforce_capacity_limits remove is_not_exist c files s).0 ≡ ok tt
      → let s' = (enforce_capacity_limits remove is_not_exist c files s).1 in
        Within s' files × Shrinks there s s'
  enforce_capacity_limits-Within files s h =
      elim (Bool-cases (leb_ℤ c.max_entries (pos 0) && leb_ℤ c.max_bytes (pos 0))) [
        | inl e ↦ (unlimited c _ _ e, unfold enforce_capacity_limits in rw e (λ p q. q))
        | inr e ↦
            let evicted =
              enforce_capacity_limits-Evicted remove is_not_exist there laws c files s e h in
            let (victims, left, same, within, needed, (gone, others, shrinks)) = evicted in
            (Evicted-Within files s _ evicted, shrinks)
      ]

  -- What removeExpiredFiles hands on is not too old, and holds all that is there from then on.
  abbrev Expired : ℤ → List CachedFile → S → Result (List CachedFile) × S → Type 0
  Expired now files s (r, t) =
      (kept : List CachedFile)
      → r ≡ ok kept
      → (any (λ f. not (is_young c now f)) kept ≡ false)
        × ((s' : S) → Shrinks there t s' → remaining there s' files ≡ remaining there s' kept)
        × Shrinks there s t

  with_file-Expired :
      (now : ℤ) (f : CachedFile) (files : List CachedFile) (s : S)
      (r : Result (List CachedFile) × S)
      → is_young c now f ≡ true
      → Expired now files s r
      → Expired now (f ∷ files) s (with_file f r)
  with_file-Expired now f files s (err x, t) young h = λ kept e. cc
  with_file-Expired now f files s (ok fs, t) young h = λ kept e.
      let (all, same, shrinks) = h fs refl in
      let k : f ∷ fs ≡ kept = cc in
      subst
        (λ ks.
          (any (λ g. not (is_young c now g)) ks ≡ false)
          × ((s' : S) → Shrinks there t s' → remaining there s' (f ∷ files) ≡ remaining there s' ks)
          × Shrinks there s t)
        k (rw young all, (λ s' q. rw (same s' q) refl), shrinks)

  after_removal-Expired :
      (now : ℤ) (f : CachedFile) (files : List CachedFile) (s : S)
      (next : S → Result (List CachedFile) × S) (r : Result (Unit {0}) × S)
      → (r.0 ≡ ok tt → Removed there s r.1 (f ∷ []))
      → ((t : S) → Expired now files t (next t))
      → Expired now (f ∷ files) s (after_removal remove is_not_exist next r)
  unfolding after_removal
  after_removal-Expired now f files s next (err x, t) gone rest = λ kept e. cc
  after_removal-Expired now f files s next (ok _, t) gone rest = λ kept e.
      let (((d, _), _), _, shrinks) = gone refl in
      let (all, same, shrinks') = rest t kept e in
      (all, (λ s' q. rw (q _ (shrinks' _ d)) (same s' q)), (λ p q. shrinks' p (shrinks p q)))

  expire-Expired :
      (now : ℤ) (files : List CachedFile) (s : S)
      → Expired now files s (expire remove is_not_exist c now files s)
  unfolding expire
  expire-Expired now [] s = λ kept e.
      let k : [] ≡ kept = cc in
      subst
        (λ ks.
          (any (λ g. not (is_young c now g)) ks ≡ false)
          × ((s' : S) → Shrinks there s s' → remaining there s' [] ≡ remaining there s' ks)
          × Shrinks there s s)
        k (refl, (λ s' q. refl), (λ p q. q))
  expire-Expired now (f ∷ files) s = elim (Bool-cases (is_young c now f)) [
    | inl e ↦ rw e (with_file-Expired now f files s _ e (expire-Expired now files s))
    | inr e ↦ rw e (
        after_removal-Expired now f files s (expire remove is_not_exist c now files)
          (remove_cached_file remove is_not_exist f s)
          (remove_cached_file-Removed remove is_not_exist there laws f s)
          (expire-Expired now files))
  ]

  enforce_after-Fits :
      (now : ℤ) (files : List CachedFile) (s : S) (r : Result (List CachedFile) × S)
      → (ltb_ℤ (pos 0) c.max_age ≡ true → Expired now files s r)
      → (leb_ℤ c.max_age (pos 0) ≡ true → r.0 ≡ ok files)
      → (enforce_after remove is_not_exist c r).0 ≡ ok tt
      → Fits c now (remaining there (enforce_after remove is_not_exist c r).1 files)
  unfolding enforce_after
  enforce_after-Fits now files s (err x, t) expired same h = cc
  enforce_after-Fits now files s (ok kept, t) expired same h =
      let (within, shrinks) = enforce_capacity_limits-Within kept t h in
      elim (Bool-cases (leb_ℤ c.max_age (pos 0))) [
        | inl e ↦
            let k : kept ≡ files = cc (same e) in
            (capacity_exceeded-WithinLimits c _ _ (rw (← k) within), (λ limited. ground arith))
        | inr e ↦
            let (young, all, _) = expired (ground arith) kept refl in
            let k = all _ shrinks in
            rw k (
              capacity_exceeded-WithinLimits c _ _ within,
              (λ limited. any-keep-false _ _ kept young),
            )
      ]

  -- If enforceLimits succeeds, then those of the files that are still there are within the limits of
  -- their number and of their bytes, and none of them is older than the limit of the age, where
  -- these limits are set. A call of os.Remove that succeeds, or finds no file, is taken to leave no
  -- file at its path, to leave the other paths, and to create none.
  pub enforce_limits-Fits :
      (now : ℤ) (files : List CachedFile) (s : S)
      → (enforce_limits remove is_not_exist c now files s).0 ≡ ok tt
      → Fits c now (remaining there (enforce_limits remove is_not_exist c now files s).1 files)
  unfolding enforce_limits remove_expired_files
  enforce_limits-Fits now files s =
      elim (Bool-cases
        (leb_ℤ c.max_age (pos 0) && leb_ℤ c.max_entries (pos 0) && leb_ℤ c.max_bytes (pos 0))) [
          | inl e ↦ rw e (λ h. (
            capacity_exceeded-WithinLimits c _ _ (unlimited c _ _ (ground arith)),
            (λ limited. ground arith),
          ))
          | inr e ↦ rw e (
              enforce_after-Fits now files s
                (remove_expired_files remove is_not_exist c now files s)
                (λ limited.
                  let e : leb_ℤ c.max_age (pos 0) ≡ false = ground arith in
                  rw e (expire-Expired now files s))
                (λ e. rw e refl))
        ]
