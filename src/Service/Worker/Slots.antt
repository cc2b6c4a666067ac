-- ===== src/Service/Worker/Slots.antt =====
-- internal/core/service/dependency_graph_worker.go: how many jobs run at a time.
use dependency_firewall.Base.{
  Bool, Bool-cases, List, Option, [], all, arith, inl, inr, keep, leb, length, length-keep, ltb,
  none, refl, some, suc, true, zero, ℕ, ◌+◌, ◌∷◌, ◌≡◌,
}
use dependency_firewall.Domain.Message.{Result, err, ok}
use dependency_firewall.Service.Jobs.{ResolveRequest}
use dependency_firewall.Service.Worker.{Claims, claim_available_jobs, claimed}

module _ {S : Type 0} (claim : S → Result (Option ResolveRequest) × S) (capacity : ℕ)
    (runs : ℕ → ResolveRequest → Bool) where
  claimed-bounded :
      (next : List ResolveRequest → S → Claims S)
      → ((jobs : List ResolveRequest) (s : S)
          → leb (length jobs) capacity ≡ true
          → leb (length (next jobs s).jobs) capacity ≡ true)
      → (jobs : List ResolveRequest) (r : Result (Option ResolveRequest)) (s : S)
      → ltb (length jobs) capacity ≡ true
      → leb (length (claimed claim capacity runs next jobs r s).jobs) capacity ≡ true
  unfolding claimed
  claimed-bounded next f jobs (err e) s h = ground arith
  claimed-bounded next f jobs (ok none) s h = ground arith
  claimed-bounded next f jobs (ok (some job)) s h = f (job ∷ jobs) s (ground arith)

  -- However many jobs are claimed, and whichever of them end meanwhile, no more than the capacity run
  -- at a time: at the end of the loop, and wherever it is cut off.
  pub claim_available_jobs-bounded :
      (fuel n : ℕ) (jobs : List ResolveRequest) (s : S)
      → leb (length jobs) capacity ≡ true
      → leb (length (claim_available_jobs claim capacity runs fuel n jobs s).jobs) capacity ≡ true
  unfolding claim_available_jobs
  claim_available_jobs-bounded zero n jobs s h = h
  claim_available_jobs-bounded (suc fuel) n jobs s h =
      elim (Bool-cases (ltb (length (keep (runs n) jobs)) capacity)) [
        | inl free ↦ rw free (
            claimed-bounded (claim_available_jobs claim capacity runs fuel (suc n))
              (claim_available_jobs-bounded fuel (suc n)) (keep (runs n) jobs) (claim s).0
              (claim s).1 free)
        | inr full ↦ rw full (ground (arith, length-keep (runs n) jobs))
      ]

  keep-all :
      (n : ℕ)
      → ((job : ResolveRequest) → runs n job ≡ true)
      → (jobs : List ResolveRequest) → keep (runs n) jobs ≡ jobs
  keep-all n all [] = refl
  keep-all n all (job ∷ jobs) = ground (arith, all job, keep-all n all jobs)

  claimed-ended :
      (next : List ResolveRequest → S → Claims S) (jobs : List ResolveRequest)
      (r : Result (Option ResolveRequest)) (s : S)
      → ((job : ResolveRequest) (s : S) → (next (job ∷ jobs) s).ended ≡ true)
      → (claimed claim capacity runs next jobs r s).ended ≡ true
  unfolding claimed
  claimed-ended next jobs (err e) s f = refl
  claimed-ended next jobs (ok none) s f = refl
  claimed-ended next jobs (ok (some job)) s f = f job s

  -- While no job ends, and no more jobs run than the capacity, the loop ends by itself in no more
  -- rounds than one for each free place and one more.
  pub claim_available_jobs-ends :
      ((n : ℕ) (job : ResolveRequest) → runs n job ≡ true)
      → (fuel n : ℕ) (jobs : List ResolveRequest) (s : S) → ltb capacity (fuel + length jobs) ≡ true
      → leb (length jobs) capacity ≡ true
      → (claim_available_jobs claim capacity runs fuel n jobs s).ended ≡ true
  unfolding claim_available_jobs
  claim_available_jobs-ends all zero n jobs s h g = ground arith
  claim_available_jobs-ends all (suc fuel) n jobs s h g =
      rw (keep-all n (all n) jobs) (elim (Bool-cases (ltb (length jobs) capacity)) [
        | inl free ↦ rw free (
            claimed-ended (claim_available_jobs claim capacity runs fuel (suc n)) jobs (claim s).0
              (claim s).1
              (λ job t.
                claim_available_jobs-ends all fuel (suc n) (job ∷ jobs) t (ground arith)
                  (ground arith)))
        | inr full ↦ rw full refl
      ])
