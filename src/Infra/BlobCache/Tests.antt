-- ===== src/Infra/BlobCache/Tests.antt =====
-- The disk cache of internal/infra/ocicache at concrete inputs.
use dependency_firewall.Base.{
  Bool, List, String, [], arith, eq_iff, false, if◌then◌else◌, map, pos, refl, sort, split_once,
  suc, trim_space, true, ℕ, ◌&&◌, ◌-ℤ◌, ◌<>◌, ◌==◌, ◌∷◌, ◌≡◌,
}
use dependency_firewall.Domain.Message.{Error, Result, err, errorf, is_ok, ok, plain}
use dependency_firewall.Infra.BlobCache.{
  CachedFile, DiskCache, cached_files_size, capacity_exceeded, enforce_capacity_limits,
  enforce_limits, older, remove_cached_file,
}
use dependency_firewall.Infra.BlobCache.Fits.{Fits, enforce_limits-Fits, remaining}
use dependency_firewall.Infra.BlobCache.Limits.{Evicted, enforce_capacity_limits-Evicted}
use dependency_firewall.Infra.BlobCache.Paths.{matches_digest, split_digest}
use dependency_firewall.Infra.BlobCache.Paths.Safe.{is_plain_component, split_digest-safe}
use dependency_firewall.Infra.BlobCache.Removal.{RemoveLaws}
use dependency_firewall.Infra.BlobCache.Session.{
  FileSystem, SessionCall, WriteSession, call_abort, call_commit, call_write, is_closed,
  session_commit, session_run,
}
use dependency_firewall.Infra.BlobCache.Session.Closed.{session_commit-Outcome, session_run-closes}

abbrev counted : String → ℕ → Result (Unit {0}) × ℕ
counted path n = (ok tt, suc n)

abbrev never : Error → Bool
never e = false

abbrev cache : DiskCache
cache = record { root_dir = "/cache"; max_bytes = pos 100; max_age = pos 50; max_entries = pos 2 }

abbrev file : String → ℕ → ℕ → CachedFile
file name size time = record {
  data_path = name <> ".data";
  meta_path = name <> ".meta.json";
  size = size;
  mod_time = pos time;
}

abbrev files : List CachedFile
files = file "c" 60 40 ∷ file "a" 10 3 ∷ file "b" 50 20 ∷ file "d" 30 45 ∷ []

-- the paths that are there
abbrev Paths : Type 0
Paths = String → Bool

abbrev missing : Error
missing = errorf (plain "file does not exist")

abbrev is_missing : Error → Bool
is_missing e = true

abbrev there : String → Paths → Bool
there path s = s path

abbrev unlink : String → Paths → Result (Unit {0}) × Paths
unlink path s = (if s path then ok tt else err missing, (λ k. if k == path then false else s k))

unlink-RemoveLaws : RemoveLaws Paths unlink is_missing there
unlink-RemoveLaws = record {
  cleared = λ path s h. ground (arith, eq_iff path path);
  creates_none = λ path p s h. ground arith;
  others = λ path p s h. ground arith;
}

abbrev everywhere : Paths
everywhere path = true

test-enforce_limits :
    let (r, s) = enforce_limits unlink is_missing cache (pos 60) files everywhere in
    (r ≡ ok tt)
    × (map (λ (f : CachedFile). s f.data_path) files ≡ true ∷ false ∷ false ∷ true ∷ [])
    × (map (λ (f : CachedFile). s f.meta_path) files ≡ true ∷ false ∷ false ∷ true ∷ [])
unfolding enforce_limits remove_cached_file sort capacity_exceeded cached_files_size ◌-ℤ◌
test-enforce_limits = (refl, refl, refl)

enforce_capacity_limits-Evicted_example :
    Evicted there cache
      (sort older files)
      everywhere
      (enforce_capacity_limits unlink is_missing cache files everywhere).1
unfolding enforce_capacity_limits sort capacity_exceeded remove_cached_file cached_files_size
enforce_capacity_limits-Evicted_example =
    enforce_capacity_limits-Evicted unlink is_missing there unlink-RemoveLaws cache files everywhere
      refl refl

enforce_limits-Fits_example :
    Fits cache
      (pos 60)
      (remaining there (enforce_limits unlink is_missing cache (pos 60) files everywhere).1 files)
unfolding enforce_limits remove_cached_file sort capacity_exceeded cached_files_size ◌-ℤ◌
enforce_limits-Fits_example =
    enforce_limits-Fits unlink is_missing there unlink-RemoveLaws cache (pos 60) files everywhere
      refl

split_digest-safe_example :
    (is_plain_component "sha256" ≡ true) × (is_plain_component "0a1b" ≡ true)
unfolding split_digest matches_digest trim_space split_once
split_digest-safe_example = split_digest-safe " sha256:0a1b " "sha256" "0a1b" refl

test-split_digest : is_ok (split_digest "../x:0a") ≡ false
unfolding split_digest matches_digest trim_space
test-split_digest = refl

abbrev disk : FileSystem ℕ
disk = record {
  write = λ p. λ n. (ok 1, suc n);
  close = λ n. (ok tt, suc n);
  write_file = λ path. λ bytes. λ n. (ok tt, suc n);
  stat = λ path. λ n. (ok false, suc n);
  rename = λ from. λ to. λ n. (ok tt, suc n);
  remove = counted;
  is_not_exist = never;
}

abbrev limits_kept : ℕ → Result (Unit {0}) × ℕ
limits_kept n = (ok tt, n)

abbrev session : WriteSession
session = record {
  temp_data_path = "/cache/.tmp/blob-1.part";
  final_data = "/cache/x.data";
  final_meta = "/cache/x.meta.json";
  metadata = ok "{}";
  aborted = false;
  committed = false;
}

session_commit-Outcome_example :
    (is_closed session ≡ false
      → (session_commit disk limits_kept session 0).0 ≡ ok tt
      → (session_commit disk limits_kept session 0).1.0.committed ≡ true)
    × (is_closed session ≡ true → session_commit disk limits_kept session 0 ≡ (ok tt, (session, 0)))
    × ((session_commit disk limits_kept session 0).1.0.aborted ≡ false)
session_commit-Outcome_example = session_commit-Outcome disk limits_kept session 0

abbrev calls : List SessionCall
calls = call_write "data" ∷ call_commit ∷ call_abort ∷ []

session_run-closes_example :
    let (session', n) = session_run disk limits_kept calls (session, 0) in
    ((session'.aborted && session'.committed) ≡ false)
    × (is_closed session' ≡ true
        → session_run disk limits_kept (call_abort ∷ []) (session', n) ≡ (session', n))
session_run-closes_example =
    session_run-closes disk limits_kept calls (call_abort ∷ []) session 0 refl
