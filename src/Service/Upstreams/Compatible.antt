-- ===== src/Service/Upstreams/Compatible.antt =====
-- internal/core/service/upstream.go: what an update keeps, and which authentication is accepted.
-- whether the policy asks for something that the upstream does not have
use dependency_firewall.Base.{Bool, List, [], any, arith, inl, inr, not, refl, ◌&&◌, ◌==◌, ◌∷◌, ◌≡◌}
use dependency_firewall.Domain.Capability.{Upstream}
use dependency_firewall.Domain.Message.{Result-cases, is_ok}
use dependency_firewall.Domain.Policy.{Policy}
use dependency_firewall.Policy.Validate.{validate_upstream_compatibility}
use dependency_firewall.Service.Upstreams.{check_scoped}

abbrev pub conflicts : Upstream → Policy → Bool
conflicts u p = p.upstream_id == u.id && not (is_ok (validate_upstream_compatibility p.kind u))

-- The check of an update succeeds exactly where no policy of the upstream asks for something that the
-- upstream does not have.
check_scoped-conflicts :
    (u : Upstream) (policies : List Policy)
    → is_ok (check_scoped u policies) ≡ not (any (conflicts u) policies)
unfolding check_scoped
check_scoped-conflicts u [] = refl
check_scoped-conflicts u (p ∷ ps) = elim (Result-cases (validate_upstream_compatibility p.kind u)) [
  | inl (x, e) ↦ rw e (ground (arith, check_scoped-conflicts u ps))
  | inr (x, e) ↦ rw e (ground (arith, check_scoped-conflicts u ps))
]
