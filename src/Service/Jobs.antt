-- ===== src/Service/Jobs.antt =====
-- The jobs that have a dependency graph resolved (internal/core/domain/dependency_graph.go,
-- install_snapshot.go), and the kinds of requests (artifact.go).
use dependency_firewall.Base.{List, Option, String, ℤ}
use dependency_firewall.Domain.Artifact.{ArtifactIdentity}
use dependency_firewall.Domain.Capability.{Upstream}

abbrev pub kind_npm_metadata : String
kind_npm_metadata = "npm_metadata"

abbrev pub kind_npm_tarball : String
kind_npm_tarball = "npm_tarball"

pub record ResolveRequest : Type 0 where
  pub tenant_id : String
  pub upstream : Upstream
  pub root : ArtifactIdentity
  pub requested_at : ℤ

pub record SummaryKey : Type 0 where
  pub tenant_id : String
  pub upstream_id : String
  pub artifact : ArtifactIdentity

pub record InstallSnapshot : Type 0 where
  pub tenant_id : String
  pub upstream : Upstream
  pub packages : List ArtifactIdentity
  pub observed_at : Option ℤ
