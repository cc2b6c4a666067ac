-- ===== src/Infra/BlobCache/Session.antt =====
-- internal/infra/ocicache/disk.go: a staged write of an artifact (diskWriteSession). The file system
-- and the JSON encoder are parameters that work on a state `S`.
pub mod Closed
use dependency_firewall.Base.{
  Bool, List, String, [], false, if◌then◌else◌, true, ℕ, ◌<>◌, ◌||◌, ◌∷◌,
}
use dependency_firewall.Domain.Message.{Error, Result, annotate, err, errorf, ok, plain}

-- The calls of package `os`. `stat` tells whether the file is there, and fails with another error.
pub record FileSystem (S : Type 0) : Type 0 where
  pub write : String → S → Result ℕ × S
  pub close : S → Result (Unit {0}) × S
  pub write_file : String → String → S → Result (Unit {0}) × S
  pub stat : String → S → Result Bool × S
  pub rename : String → String → S → Result (Unit {0}) × S
  pub remove : String → S → Result (Unit {0}) × S
  pub is_not_exist : Error → Bool

-- `metadata` is what json.Marshal gives for the descriptor.
pub record WriteSession : Type 0 where
  pub temp_data_path : String
  pub final_data : String
  pub final_meta : String
  pub metadata : Result String
  pub aborted : Bool
  pub committed : Bool

abbrev pub is_closed : WriteSession → Bool
is_closed session = session.aborted || session.committed

-- a call of one of the three methods
pub data SessionCall : Type 0 where
  call_write : String → SessionCall
  call_commit : SessionCall
  call_abort : SessionCall

module _ {S : Type 0} (fs : FileSystem S) where
  -- `_ = os.Remove(path)`
  abbrev drop_file : String → S → S
  drop_file path s = (fs.remove path s).1

  abbrev temp_meta : WriteSession → String
  temp_meta session = session.temp_data_path <> ".meta"

  abbrev drop_both : WriteSession → S → S
  drop_both session s = drop_file (temp_meta session) (drop_file session.temp_data_path s)

  unfoldable pub session_write : String → WriteSession → S → Result ℕ × S
  session_write p session s =
      if is_closed session
      then (err (errorf (plain "cache write session already closed")), s)
      else fs.write p s

  -- what Commit gives back: its error, the session and the files
  abbrev pub Committed : Type 0
  Committed = Result (Unit {0}) × (WriteSession × S)

  abbrev failed : String → Error → WriteSession → S → Committed
  failed what e session s = (err (annotate what e), (session, s))

  module _ (enforce : S → Result (Unit {0}) × S) where
    unfoldable pub limits_enforced : WriteSession → Result (Unit {0}) × S → Committed
    limits_enforced session (err e, s) = failed "enforcing cache limits" e session s
    limits_enforced session (ok _, s) = (ok tt, (session, s))

    unfoldable pub meta_promoted : WriteSession → Result (Unit {0}) × S → Committed
    unfolding limits_enforced
    meta_promoted session (err e, s) =
        failed "promoting cache metadata" e session
          (drop_file (temp_meta session) (drop_file session.final_data s))
    meta_promoted session (ok _, s) =
        limits_enforced (record session { committed = true }) (enforce s)

    unfoldable pub promoted : WriteSession → Result (Unit {0}) × S → Committed
    unfolding meta_promoted
    promoted session (err e, s) = failed "promoting cached artifact" e session (drop_both session s)
    promoted session (ok _, s) =
        meta_promoted session (fs.rename (temp_meta session) session.final_meta s)

    unfoldable pub checked : WriteSession → Result Bool × S → Committed
    unfolding promoted
    checked session (err e, s) = failed "checking cache destination" e session (drop_both session s)
    checked session (ok true, s) =
        (ok tt, (record session { committed = true }, drop_both session s))
    checked session (ok false, s) =
        promoted session (fs.rename session.temp_data_path session.final_data s)

    unfoldable pub meta_written : WriteSession → Result (Unit {0}) × S → Committed
    unfolding checked
    meta_written session (err e, s) =
        failed "writing cache metadata" e session (drop_file session.temp_data_path s)
    meta_written session (ok _, s) = checked session (fs.stat session.final_data s)

    unfoldable pub meta_encoded : WriteSession → Result String → S → Committed
    unfolding meta_written
    meta_encoded session (err e) s =
        failed "encoding cache metadata" e session (drop_file session.temp_data_path s)
    meta_encoded session (ok bytes) s =
        meta_written session (fs.write_file (temp_meta session) bytes s)

    unfoldable pub file_closed : WriteSession → Result (Unit {0}) × S → Committed
    unfolding meta_encoded
    file_closed session (err e, s) =
        failed "closing cache temp file" e session (drop_file session.temp_data_path s)
    file_closed session (ok _, s) = meta_encoded session session.metadata s

    unfoldable pub session_commit : WriteSession → S → Committed
    unfolding file_closed
    session_commit session s =
        let go = file_closed session (fs.close s) in
        if is_closed session then (ok tt, (session, s)) else go

  unfoldable pub temp_removed : WriteSession → Result (Unit {0}) × S → Committed
  temp_removed session (ok _, s) = (ok tt, (session, s))
  temp_removed session (err e, s) =
      if fs.is_not_exist e
      then (ok tt, (session, s))
      else failed "removing cache temp file" e session s

  -- the session has its file from StartWrite on
  unfoldable pub session_abort : WriteSession → S → Committed
  unfolding temp_removed
  session_abort session s =
      let go =
        temp_removed (record session { aborted = true })
          (fs.remove session.temp_data_path (fs.close s).1) in
      if is_closed session then (ok tt, (session, s)) else go

  unfoldable pub session_step :
      (S → Result (Unit {0}) × S) → SessionCall → WriteSession × S → WriteSession × S
  unfolding session_write session_commit session_abort
  session_step enforce (call_write p) (session, s) = (session, (session_write p session s).1)
  session_step enforce call_commit (session, s) = (session_commit enforce session s).1
  session_step enforce call_abort (session, s) = (session_abort session s).1

  unfoldable pub session_run :
      (S → Result (Unit {0}) × S) → List SessionCall → WriteSession × S → WriteSession × S
  unfolding session_step
  session_run enforce [] w = w
  session_run enforce (c ∷ cs) w = session_run enforce cs (session_step enforce c w)
