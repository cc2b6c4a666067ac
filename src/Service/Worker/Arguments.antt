-- ===== src/Service/Worker/Arguments.antt =====
-- internal/core/service/dependency_graph_worker.go: the command line that npm is run with.
-- the name, with the scope before it unless that is empty
use dependency_firewall.Base.{
  Bool, List, String, [], arith, eq_iff, false, has_prefix, refl, sym, trim_space, true, ◌++◌, ◌<>◌,
  ◌==◌, ◌∙◌, ◌∷◌, ◌≡◌, ◌≢◌,
}
use dependency_firewall.Base.Text.Laws.{append-nonempty, has_prefix-append}
use dependency_firewall.Domain.Artifact.{ArtifactIdentity, full_name, normalize_npm}
use dependency_firewall.Domain.Artifact.Canonical.{normalize_npm-safe}
use dependency_firewall.Domain.Message.{ok}
use dependency_firewall.Service.Jobs.{ResolveRequest}
use dependency_firewall.Service.Worker.{npm_args, npm_options, registry_options}

has_prefix-scoped :
    (a : ArtifactIdentity) (b : Bool)
    → (a.namespace == "") ≡ b
    → a.name ≢ ""
    → has_prefix a.name "-" ≡ false
    → has_prefix a.namespace "-" ≡ false
    → (full_name a ≢ "") × (has_prefix (full_name a) "-" ≡ false)
unfolding full_name
has_prefix-scoped a true e named h g =
    let same : full_name a ≡ a.name = rw (full_name, e) refl in
    ((λ p. named (sym same ∙ p)), rw same h)
has_prefix-scoped a false e named h g =
    let same : full_name a ≡ a.namespace <> "/" <> a.name = rw (full_name, e) refl in
    let scoped : a.namespace ≢ "" = λ p. ground (arith, eq_iff a.namespace "") in
    (
      (λ p. append-nonempty a.namespace ("/" <> a.name) scoped (sym same ∙ p)),
      rw same (rw (has_prefix-append _ a.namespace ("/" <> a.name) scoped) g),
    )

-- The command line ends in "--" and the package, "name@version", which does not begin with "-", if
-- NormalizeArtifactIdentity has given the root and its scope does not begin with "-".
pub npm_args-package :
    (job : ResolveRequest) (a : ArtifactIdentity)
    → normalize_npm a ≡ ok job.root
    → has_prefix job.root.namespace "-" ≡ false
    → let target = full_name job.root <> "@" <> job.root.version in
      ((options : List String) × (npm_args job ≡ options ++ "--" ∷ target ∷ []))
      × (has_prefix target "-" ≡ false)
unfolding npm_args
npm_args-package job a h g =
    let (named, name, _) = normalize_npm-safe a job.root h in
    let (present, safe) = has_prefix-scoped job.root _ refl named name g in
    (
      (npm_options ++ registry_options (trim_space job.upstream.base_url), refl),
      rw (has_prefix-append _ (full_name job.root) ("@" <> job.root.version) present) safe,
    )
