-- ===== src/Domain/Artifact/Canonical.antt =====
-- Normalized identities are canonical.
use Prim.Native.Char.{Char}
use mathlib.Core.Path.{subst}
use dependency_firewall.Base.{
  Bool, Bool-cases, Option, String, ap, arith, eq_iff, false, has_prefix, if◌then◌else◌, inl, inr,
  lower_char, none, refl, some, split_once, sym, to_lower, trim, true, ◌&&◌, ◌==◌, ◌||◌, ◌∙◌, ◌≡◌,
  ◌≢◌,
}
use dependency_firewall.Base.Text.Laws.{
  code-lower_char, cons-ne-empty, to_lower_idem, trim-to_lower, trim_idem,
}
use dependency_firewall.Domain.Artifact.{
  ArtifactIdentity, cache_key, full_name, is_slash, normalize_npm, normalize_oci, oci_reference,
  reference_suffix, reject_options, scoped_name, split_scope,
}
use dependency_firewall.Domain.Message.{
  >>=-eq-ok, Result, err, invalid_artifact_ref, ok, plain, wrap,
}

reject_options-eq :
    (a b : ArtifactIdentity)
    → reject_options a ≡ ok b
    → (a ≡ b)
      × ((a.name == "") ≡ false)
      × (has_prefix a.name "-" ≡ false)
      × (has_prefix a.version "-" ≡ false)
unfolding reject_options
reject_options-eq a b h = (ground arith, ground arith, ground arith, ground arith)

-- A normalized npm identity has a name, and neither the name nor the version begins with "-", so
-- that "name@version" is no option of the npm command line.
pub normalize_npm-safe :
    (a b : ArtifactIdentity)
    → normalize_npm a ≡ ok b
    → (b.name ≢ "") × (has_prefix b.name "-" ≡ false) × (has_prefix b.version "-" ≡ false)
unfolding normalize_npm
normalize_npm-safe a b h =
    let (x, _, e) = >>=-eq-ok reject_options (split_scope a) b h in
    let (same, named, name, version) = reject_options-eq x b e in
    (
      (λ p. ground (arith, same, named, eq_iff b.name "")),
      ground (arith, same, name),
      ground (arith, same, version),
    )

scoped_name-lower :
    (a b : ArtifactIdentity) (parts : String × Option String)
    → scoped_name a parts ≡ ok b
    → to_lower b.name ≡ b.name
unfolding scoped_name
scoped_name-lower a b (scope, none) h = cc
scoped_name-lower a b (scope, some rest) h = ground (arith, to_lower_idem rest)

split_scope-lower : (a b : ArtifactIdentity) → split_scope a ≡ ok b → to_lower b.name ≡ b.name
unfolding split_scope
split_scope-lower a b h =
    ground (arith, to_lower_idem a.name, scoped_name-lower a b (split_once b'/' a.name))

canonical_npm :
    (b : ArtifactIdentity)
    → has_prefix b.name "@" ≡ false
    → to_lower b.name ≡ b.name
    → reject_options b ≡ ok b
    → normalize_npm b ≡ ok b
unfolding normalize_npm
canonical_npm b h lower e = rw (h, lower) e

-- Normalizing an npm identity a second time changes nothing, if the name that the first pass
-- leaves does not begin with "@" itself.
pub normalize_npm_idem :
    (a b : ArtifactIdentity)
    → normalize_npm a ≡ ok b
    → has_prefix b.name "@" ≡ false
    → normalize_npm b ≡ ok b
unfolding normalize_npm
normalize_npm_idem a b h plain_name =
    let (x, s, e) = >>=-eq-ok reject_options (split_scope a) b h in
    let (same, _, _, _) = reject_options-eq x b e in
    canonical_npm b plain_name
      (subst (λ y. to_lower y.name ≡ y.name) same (split_scope-lower a x s))
      (subst (λ y. reject_options y ≡ ok b) same e)

slash-lower_char : (c : Char) → is_slash (lower_char c) ≡ is_slash c
slash-lower_char c = ground (arith, code-lower_char c)

abbrev looks_like_digest : String → Bool
looks_like_digest s = has_prefix s "sha256:" || has_prefix s "sha512:"

looks_like_digest-ne : (s : String) → looks_like_digest s ≡ true → (s == "") ≡ false
unfolding has_prefix
looks_like_digest-ne String.[] h = cc
looks_like_digest-ne (String.◌∷◌ c s) h = cons-ne-empty c s

no_digest : (looks_like_digest "" ≡ false) × (looks_like_digest "latest" ≡ false)
unfolding has_prefix
no_digest = (refl, refl)

-- the three forms that a reference can have
module _ (a : ArtifactIdentity) where
  reference_moved :
      looks_like_digest a.version ≡ true
      → oci_reference a ≡ record a { version = ""; digest = a.version }
  unfolding oci_reference
  reference_moved h = rw (h, looks_like_digest-ne a.version h) refl

  reference_kept :
      looks_like_digest a.version ≡ false
      → (a.version == "" && a.digest == "") ≡ false
      → oci_reference a ≡ a
  unfolding oci_reference
  reference_kept h k = rw h (rw k refl)

  reference_latest :
      looks_like_digest a.version ≡ false
      → (a.version == "" && a.digest == "") ≡ true
      → oci_reference a ≡ record a { version = "latest" }
  unfolding oci_reference
  reference_latest h k = rw h (rw k refl)

-- A reference that is stable: no digest in the place of the tag, and something known.
abbrev IsStable : ArtifactIdentity → Type 0
IsStable a = (looks_like_digest a.version ≡ false) × ((a.version == "" && a.digest == "") ≡ false)

oci_reference-IsStable : (a : ArtifactIdentity) → IsStable (oci_reference a)
oci_reference-IsStable a = elim (Bool-cases (looks_like_digest a.version)) [
  | inl e ↦ rw (reference_moved a e) (no_digest.0, looks_like_digest-ne a.version e)
  | inr e ↦ elim (Bool-cases (a.version == "" && a.digest == "")) [
    | inl f ↦ rw (reference_latest a e f) (no_digest.1, refl)
    | inr f ↦ rw (reference_kept a e f) (e, f)
  ]
]

reference_names :
    (a : ArtifactIdentity)
    → ((oci_reference a).name ≡ a.name) × ((oci_reference a).namespace ≡ a.namespace)
unfolding oci_reference
reference_names a = (ground arith, ground arith)

-- lower case and no slash at the ends
abbrev lowered : ArtifactIdentity → ArtifactIdentity
lowered a = record a { namespace = to_lower (trim is_slash a.namespace); name = to_lower a.name }

lowered-again :
    (a b : ArtifactIdentity)
    → b.name ≡ (lowered a).name
    → b.namespace ≡ (lowered a).namespace
    → lowered b ≡ b
lowered-again a b n ns =
    let lower : to_lower b.name ≡ b.name = rw n (to_lower_idem a.name) in
    let trimmed : to_lower (trim is_slash b.namespace) ≡ b.namespace = rw ns (
      rw (trim-to_lower is_slash slash-lower_char (trim is_slash a.namespace))
        (rw (trim_idem is_slash a.namespace) (to_lower_idem (trim is_slash a.namespace)))) in
    λ i. record b { namespace = trimmed i; name = lower i }

normalize_oci-eq :
    (a b : ArtifactIdentity)
    → normalize_oci a ≡ ok b
    → (b ≡ oci_reference (lowered a)) × (((lowered a).name == "") ≡ false)
unfolding normalize_oci
normalize_oci-eq a b h = (ground arith, ground arith)

finish : ArtifactIdentity → Result ArtifactIdentity
finish x =
    if x.name == ""
    then err (wrap invalid_artifact_ref (plain "OCI artifact name is required"))
    else ok (oci_reference x)

normalize_oci-finish : (a : ArtifactIdentity) → normalize_oci a ≡ finish (lowered a)
unfolding normalize_oci finish
normalize_oci-finish a = refl

finish-stable : (b : ArtifactIdentity) → (b.name == "") ≡ false → IsStable b → finish b ≡ ok b
unfolding finish
finish-stable b h (f, p) = rw h (ap ok (reference_kept b f p))

-- A normalized OCI identity has a name, and a tag or a digest; and normalizing it again changes
-- nothing.
pub normalize_oci-canonical :
    (a b : ArtifactIdentity)
    → normalize_oci a ≡ ok b
    → ((b.name == "") ≡ false)
      × ((b.version == "" && b.digest == "") ≡ false)
      × (normalize_oci b ≡ ok b)
normalize_oci-canonical a b h =
    let (e, named) = normalize_oci-eq a b h in
    let (n, ns) = reference_names (lowered a) in
    let name : b.name ≡ (lowered a).name = ap (λ x. x.name) e ∙ n in
    let namespace : b.namespace ≡ (lowered a).namespace = ap (λ x. x.namespace) e ∙ ns in
    let (fixed, pinned) = subst IsStable (sym e) (oci_reference-IsStable (lowered a)) in
    let has_name : (b.name == "") ≡ false = rw name named in
    (
      has_name,
      pinned,
      normalize_oci-finish b
          ∙ ap finish (lowered-again a b name namespace)
          ∙ finish-stable b has_name (fixed, pinned),
    )

-- Two identities of one ecosystem and name with the same digest have one cache key, whatever their
-- versions.
pub cache_key-digest :
    (a b : ArtifactIdentity)
    → b.ecosystem ≡ a.ecosystem
    → full_name b ≡ full_name a
    → b.digest ≡ a.digest
    → (a.digest == "") ≡ false
    → cache_key b ≡ cache_key a
unfolding cache_key reference_suffix
cache_key-digest a b e n d pinned = rw (e, n, d, pinned) refl
