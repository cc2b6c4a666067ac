-- ===== src/Infra/BlobCache/Paths/Safe.antt =====
-- internal/infra/ocicache/disk.go: the parts of a digest are single components of a path.
-- a component of a path that names an entry of its directory
use Prim.Native.Char.{code}
use mathlib.Core.Path.{subst}
use dependency_firewall.Base.{
  Bool, Bool-cases, Option, String, ap, arith, eq_iff, eqb, false, inl, inr, none, not, refl, some,
  split_once, trim_space, true, ◌&&◌, ◌==◌, ◌||◌, ◌≡◌,
}
use dependency_firewall.Domain.Message.{Error, Result, err, ok}
use dependency_firewall.Infra.BlobCache.Paths.{
  all_text, cut_digest, invalid_digest, is_algorithm_char, is_encoded, is_encoded_char,
  matches_digest, split_digest,
}

abbrev pub is_plain_component : String → Bool
is_plain_component s =
    not (s == "") && not (s == ".") && not (s == "..") && all_text (λ c. not (eqb (code c) b'/')) s

all_text-encoded :
    (s : String)
    → all_text is_encoded_char s ≡ true
    → all_text (λ c. not (eqb (code c) b'/')) s ≡ true
all_text-encoded String.[] h = refl
all_text-encoded (String.◌∷◌ c s) h = ground (arith, all_text-encoded s)

abbrev starts_well : Bool → String → Bool
starts_well inside String.[] = inside
starts_well inside (String.◌∷◌ c s) = inside || is_algorithm_char c

abbrev encoded_part : Option String → Bool
encoded_part none = false
encoded_part (some e) = is_encoded e

split_once-matches :
    (inside : Bool) (s : String)
    → matches_digest inside s ≡ true
    → (starts_well inside (split_once b':' s).0
        && all_text (λ c. not (eqb (code c) b'/')) (split_once b':' s).0
        && encoded_part (split_once b':' s).1)
      ≡ true
unfolding matches_digest split_once
split_once-matches inside String.[] h = cc
split_once-matches inside (String.◌∷◌ c s) h = elim (Bool-cases (eqb (code c) b':')) [
  | inl e ↦ rw e (ground arith)
  | inr e ↦ rw e (ground (arith, split_once-matches true s, split_once-matches false s))
]

differs : (p : String → Bool) (a b : String) → p a ≡ true → p b ≡ false → (a == b) ≡ false
differs p a b h g = elim (Bool-cases (a == b)) [
  | inl e ↦ let same : p a ≡ p b = ap p ((eq_iff a b).0 e) in ground arith
  | inr e ↦ e
]

encoded-nonempty : (s : String) → is_encoded s ≡ true → is_plain_component s ≡ true
encoded-nonempty s h =
    let chars : all_text is_encoded_char s ≡ true = ground arith in
    ground (
      arith,
      all_text-encoded s chars,
      differs (all_text is_encoded_char) s "." chars refl,
      differs (all_text is_encoded_char) s ".." chars refl,
    )

algorithm-plain :
    (s : String)
    → starts_well false s ≡ true
    → all_text (λ c. not (eqb (code c) b'/')) s ≡ true
    → is_plain_component s ≡ true
algorithm-plain s h g = ground (
  arith,
  differs (starts_well false) s "" h refl,
  differs (starts_well false) s "." h refl,
  differs (starts_well false) s ".." h refl,
)

cut-safe :
    (d algo encoded : String) (parts : String × Option String)
    → (starts_well false parts.0
        && all_text (λ c. not (eqb (code c) b'/')) parts.0
        && encoded_part parts.1)
      ≡ true
    → cut_digest d parts ≡ ok (algo, encoded)
    → (is_plain_component algo ≡ true) × (is_plain_component encoded ≡ true)
unfolding cut_digest
cut-safe d algo encoded (a, none) good h = cc
cut-safe d algo encoded (a, some e) good h =
    let plain : is_plain_component a ≡ true = algorithm-plain a (ground arith) (ground arith) in
    let plain' : is_plain_component e ≡ true = encoded-nonempty e (ground arith) in
    let same : (a, e) ≡ (algo, encoded) = cc in
    subst
      (λ (p : String × String). (is_plain_component p.0 ≡ true) × (is_plain_component p.1 ≡ true))
      same (plain, plain')

refused :
    (e : Error) (algo encoded : String)
    → (let failed : Result (String × String) = err e in failed ≡ ok (algo, encoded))
    → (is_plain_component algo ≡ true) × (is_plain_component encoded ≡ true)
refused e algo encoded h = cc

-- Both parts of a digest that splitDigest accepts are single components of a path: they are not
-- empty, neither "." nor "..", and hold no slash.
pub split_digest-safe :
    (digest algo encoded : String)
    → split_digest digest ≡ ok (algo, encoded)
    → (is_plain_component algo ≡ true) × (is_plain_component encoded ≡ true)
unfolding split_digest
split_digest-safe digest algo encoded h =
    let d = trim_space digest in
    elim (Bool-cases (matches_digest false d)) [
      | inl e ↦
          cut-safe d algo encoded (split_once b':' d) (split_once-matches false d e) (rw e at h)
      | inr e ↦ refused (invalid_digest d) algo encoded (rw e at h)
    ]
