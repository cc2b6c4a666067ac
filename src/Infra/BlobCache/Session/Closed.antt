-- ===== src/Infra/BlobCache/Session/Closed.antt =====
-- internal/infra/ocicache/disk.go: how a staged write can end.
use dependency_firewall.Base.{
  Bool, Bool-cases, List, String, [], ap, arith, false, inl, inr, refl, true, ◌&&◌, ◌∙◌, ◌∷◌, ◌≡◌,
}
use dependency_firewall.Domain.Message.{Result, err, ok}
use dependency_firewall.Infra.BlobCache.Session.{
  Committed, FileSystem, SessionCall, WriteSession, call_abort, call_commit, call_write, checked,
  file_closed, is_closed, limits_enforced, meta_encoded, meta_promoted, meta_written, promoted,
  session_abort, session_commit, session_run, session_step, session_write, temp_removed,
}

module _ {S : Type 0} (fs : FileSystem S) (enforce : S → Result (Unit {0}) × S) where
  -- A success has committed the session, and the session is not aborted by it.
  abbrev Outcome : WriteSession → Committed fs → Type 0
  Outcome session (r, (session', s)) =
      (session'.aborted ≡ session.aborted) × (r ≡ ok tt → session'.committed ≡ true)

  limits_enforced-Outcome :
      (session : WriteSession) (r : Result (Unit {0}) × S)
      → session.committed ≡ true
      → Outcome session (limits_enforced fs enforce session r)
  unfolding limits_enforced
  limits_enforced-Outcome session (err e, s) h = (refl, (λ c. h))
  limits_enforced-Outcome session (ok _, s) h = (refl, (λ c. h))

  meta_promoted-Outcome :
      (session : WriteSession) (r : Result (Unit {0}) × S)
      → Outcome session (meta_promoted fs enforce session r)
  unfolding meta_promoted
  meta_promoted-Outcome session (err e, s) = (refl, (λ c. cc))
  meta_promoted-Outcome session (ok _, s) =
      limits_enforced-Outcome (record session { committed = true }) _ refl

  promoted-Outcome :
      (session : WriteSession) (r : Result (Unit {0}) × S)
      → Outcome session (promoted fs enforce session r)
  unfolding promoted
  promoted-Outcome session (err e, s) = (refl, (λ c. cc))
  promoted-Outcome session (ok _, s) = meta_promoted-Outcome session _

  checked-Outcome :
      (session : WriteSession) (r : Result Bool × S)
      → Outcome session (checked fs enforce session r)
  unfolding checked
  checked-Outcome session (err e, s) = (refl, (λ c. cc))
  checked-Outcome session (ok true, s) = (refl, (λ c. refl))
  checked-Outcome session (ok false, s) = promoted-Outcome session _

  meta_written-Outcome :
      (session : WriteSession) (r : Result (Unit {0}) × S)
      → Outcome session (meta_written fs enforce session r)
  unfolding meta_written
  meta_written-Outcome session (err e, s) = (refl, (λ c. cc))
  meta_written-Outcome session (ok _, s) = checked-Outcome session _

  meta_encoded-Outcome :
      (session : WriteSession) (r : Result String) (s : S)
      → Outcome session (meta_encoded fs enforce session r s)
  unfolding meta_encoded
  meta_encoded-Outcome session (err e) s = (refl, (λ c. cc))
  meta_encoded-Outcome session (ok bytes) s = meta_written-Outcome session _

  file_closed-Outcome :
      (session : WriteSession) (r : Result (Unit {0}) × S)
      → Outcome session (file_closed fs enforce session r)
  unfolding file_closed
  file_closed-Outcome session (err e, s) = (refl, (λ c. cc))
  file_closed-Outcome session (ok _, s) = meta_encoded-Outcome session session.metadata s

  -- Where Commit of a session that is not closed reports no error, the session is committed, and where
  -- it is closed, Commit changes nothing; it never aborts.
  pub session_commit-Outcome :
      (session : WriteSession) (s : S)
      → (is_closed session ≡ false
          → (session_commit fs enforce session s).0 ≡ ok tt
          → (session_commit fs enforce session s).1.0.committed ≡ true)
        × (is_closed session ≡ true → session_commit fs enforce session s ≡ (ok tt, (session, s)))
        × ((session_commit fs enforce session s).1.0.aborted ≡ session.aborted)
  unfolding session_commit
  session_commit-Outcome session s =
      let (aborted, committed) = file_closed-Outcome session (fs.close s) in
      (
        (λ open_. rw open_ committed),
        (λ closed. rw closed refl),
        elim (Bool-cases (is_closed session)) [ inl e ↦ rw e refl | inr e ↦ rw e aborted ],
      )

  step-closed :
      (c : SessionCall) (session : WriteSession) (s : S)
      → is_closed session ≡ true
      → session_step fs enforce c (session, s) ≡ (session, s)
  unfolding session_step session_write session_commit session_abort
  step-closed (call_write p) session s h = rw h refl
  step-closed call_commit session s h = rw (h, session_step) refl
  step-closed call_abort session s h = rw (h, session_step) refl

  run-closed :
      (cs : List SessionCall) (session : WriteSession) (s : S)
      → is_closed session ≡ true
      → session_run fs enforce cs (session, s) ≡ (session, s)
  unfolding session_run
  run-closed [] session s h = refl
  run-closed (c ∷ cs) session s h =
      ap (session_run fs enforce cs) (step-closed c session s h) ∙ run-closed cs session s h

  abrupt : WriteSession → Bool
  abrupt session = session.aborted && session.committed

  temp_removed-session :
      (session : WriteSession) (r : Result (Unit {0}) × S)
      → (temp_removed fs session r).1.0 ≡ session
  unfolding temp_removed
  temp_removed-session session (ok _, s) = refl
  temp_removed-session session (err e, s) = elim (Bool-cases (fs.is_not_exist e)) [
    | inl h ↦ rw h refl
    | inr h ↦ rw h refl
  ]

  commit-exclusive :
      (session : WriteSession) (s : S)
      → abrupt session ≡ false
      → abrupt (session_commit fs enforce session s).1.0 ≡ false
  unfolding abrupt
  commit-exclusive session s h =
      let (_, unchanged, aborted) = session_commit-Outcome session s in
      elim (Bool-cases (is_closed session)) [
        | inl e ↦ rw (unchanged e) h
        | inr e ↦ let open_ : session.aborted ≡ false = ground arith in rw (aborted ∙ open_) refl
      ]

  abort-exclusive :
      (session : WriteSession) (s : S)
      → abrupt session ≡ false
      → abrupt (session_abort fs session s).1.0 ≡ false
  unfolding abrupt session_abort
  abort-exclusive session s h = elim (Bool-cases (is_closed session)) [
    | inl e ↦ rw e h
    | inr e ↦
        let open_ : session.committed ≡ false = ground arith in
        rw e (rw (temp_removed-session _ _) open_)
  ]

  step-exclusive :
      (c : SessionCall) (session : WriteSession) (s : S)
      → abrupt session ≡ false
      → abrupt (session_step fs enforce c (session, s)).0 ≡ false
  unfolding session_step
  step-exclusive (call_write p) session s h = h
  step-exclusive call_commit session s h = commit-exclusive session s h
  step-exclusive call_abort session s h = abort-exclusive session s h

  run-exclusive :
      (cs : List SessionCall) (w : WriteSession × S)
      → abrupt w.0 ≡ false
      → abrupt (session_run fs enforce cs w).0 ≡ false
  unfolding session_run
  run-exclusive [] w h = h
  run-exclusive (c ∷ cs) (session, s) h =
      run-exclusive cs (session_step fs enforce c (session, s)) (step-exclusive c session s h)

  -- A session that begins neither aborted nor committed is never both, whatever is called; and once it
  -- is one of them, further calls change neither the session nor the files.
  pub session_run-closes :
      (cs ds : List SessionCall) (session : WriteSession) (s : S)
      → is_closed session ≡ false
      → let (session', s') = session_run fs enforce cs (session, s) in
        ((session'.aborted && session'.committed) ≡ false)
        × (is_closed session' ≡ true → session_run fs enforce ds (session', s') ≡ (session', s'))
  unfolding abrupt
  session_run-closes cs ds session s h =
      let (session', s') = session_run fs enforce cs (session, s) in
      (run-exclusive cs (session, s) (ground arith), (λ e. run-closed ds session' s' e))
