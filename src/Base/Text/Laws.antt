-- ===== src/Base/Text/Laws.antt =====
-- Lower case and trimming: both are idempotent, and they commute. Concatenation and prefixes.
use Prim.Native.Nat.{◌+◌}
use Prim.Native.Char.{Char, code}
use Prim.Native.String.append
use Prim.Native.String.{String, [], ◌∷◌}
use mathlib.Core.Path.{◌≡◌, refl, sym, ap₂, ◌∙◌}
use mathlib.Core.Logic.{inl, inr, ◌≢◌}
use mathlib.Core.Bool.{Bool, false, ◌&&◌}
use native.Mathlib.Omega.{arith}
use text.Mathlib.Text.{◌==◌}
use text.Mathlib.TextEquality.{Char-path, eq_iff}
use text.Mathlib.TextLemmas.{cons≢nil}
use dependency_firewall.Base.Logic.{if◌then◌else◌, leb, Bool-cases}
use dependency_firewall.Base.Text.{
  ◌<>◌, has_prefix, lower_char, to_lower, is_blank, trim_left, trim_right, trim,
}

pub code-lower_char :
    (c : Char)
    → code (lower_char c) ≡ (if leb 65 (code c) && leb (code c) 90 then code c + 32 else code c)
unfolding lower_char
code-lower_char c = ground arith

pub lower_char_idem : (c : Char) → lower_char (lower_char c) ≡ lower_char c
lower_char_idem c =
    Char-path _ _ (ground (arith, code-lower_char (lower_char c), code-lower_char c))

pub to_lower_idem : (s : String) → to_lower (to_lower s) ≡ to_lower s
unfolding to_lower
to_lower_idem [] = refl
to_lower_idem (c ∷ s) = ap₂ ◌∷◌ (lower_char_idem c) (to_lower_idem s)

is_blank-to_lower : (s : String) → is_blank (to_lower s) ≡ is_blank s
unfolding to_lower
is_blank-to_lower [] = refl
is_blank-to_lower (c ∷ s) = refl

module _ (p : Char → Bool) (same : (c : Char) → p (lower_char c) ≡ p c) where
  trim_left-to_lower : (s : String) → trim_left p (to_lower s) ≡ to_lower (trim_left p s)
  unfolding trim_left to_lower
  trim_left-to_lower [] = refl
  trim_left-to_lower (c ∷ s) = elim (Bool-cases (p c)) [
    | inl e ↦ rw (same c, e) (trim_left-to_lower s)
    | inr e ↦ rw (same c, e) refl
  ]

  trim_right-to_lower : (s : String) → trim_right p (to_lower s) ≡ to_lower (trim_right p s)
  unfolding trim_right to_lower
  trim_right-to_lower [] = refl
  trim_right-to_lower (c ∷ s) =
      ground (arith, same c, trim_right-to_lower s, is_blank-to_lower (trim_right p s))

  pub trim-to_lower : (s : String) → trim p (to_lower s) ≡ to_lower (trim p s)
  unfolding trim
  trim-to_lower s = rw trim_left-to_lower (trim_right-to_lower (trim_left p s))

module _ (p : Char → Bool) where
  -- A text that does not begin with what is trimmed.
  abbrev Starts : String → Type 0
  Starts [] = Unit
  Starts (c ∷ s) = p c ≡ false

  Starts-trim_left : (s : String) → Starts (trim_left p s)
  unfolding trim_left
  Starts-trim_left [] = tt
  Starts-trim_left (c ∷ s) = elim (Bool-cases (p c)) [
    | inl e ↦ rw e (Starts-trim_left s)
    | inr e ↦ rw e e
  ]

  trim_left_of_Starts : (s : String) → Starts s → trim_left p s ≡ s
  unfolding trim_left
  trim_left_of_Starts [] h = refl
  trim_left_of_Starts (c ∷ s) h = rw h refl

  Starts-trim_right : (s : String) → Starts s → Starts (trim_right p s)
  unfolding trim_right
  Starts-trim_right [] h = tt
  Starts-trim_right (c ∷ s) h = rw h h

  trim_right_idem : (s : String) → trim_right p (trim_right p s) ≡ trim_right p s
  unfolding trim_right
  trim_right_idem [] = refl
  trim_right_idem (c ∷ s) = elim (Bool-cases (p c && is_blank (trim_right p s))) [
    | inl e ↦ rw e refl
    | inr e ↦ rw (e, trim_right_idem s) (rw e refl)
  ]

  pub trim_idem : (s : String) → trim p (trim p s) ≡ trim p s
  unfolding trim
  trim_idem s =
      rw
        (trim_left_of_Starts (trim_right p (trim_left p s))
          (Starts-trim_right (trim_left p s) (Starts-trim_left s)))
        (trim_right_idem (trim_left p s))

pub cons-ne-empty : (c : Char) (s : String) → ((c ∷ s) == "") ≡ false
cons-ne-empty c s = elim (Bool-cases ((c ∷ s) == "")) [
  | inl e ↦ absurd (cons≢nil ((eq_iff _ _).0 e))
  | inr e ↦ e
]

append-cons : (c : Char) (s t : String) → (c ∷ s) <> t ≡ c ∷ (s <> t)
append-cons c s t = λ i. append.cons c s t i

-- A prefix of one character is one of what stands first.
pub has_prefix-append :
    (d : Char) (s t : String) → s ≢ [] → has_prefix (s <> t) (d ∷ []) ≡ has_prefix s (d ∷ [])
unfolding has_prefix
has_prefix-append d [] t h = absurd (h refl)
has_prefix-append d (c ∷ s) t h = rw (append-cons c s t) refl

pub append-nonempty : (s t : String) → s ≢ [] → s <> t ≢ []
append-nonempty [] t h e = h refl
append-nonempty (c ∷ s) t h e = cons≢nil (sym (append-cons c s t) ∙ e)
