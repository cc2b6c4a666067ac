-- ===== src/Base/Lists.antt =====
-- Lists: Boolean tests over them, and membership by recursion.
use Prim.Native.Nat.{ℕ, zero, suc, ◌+◌}
use mathlib.Core.Path.{◌≡◌, refl, ◌∙◌, ap₂}
use mathlib.Core.Logic.{◌⊎◌, inl, inr, ∥∥₁_elim}
use mathlib.Core.Bool.{Bool, true, false, ◌&&◌, ◌||◌, Bool-set}
use mathlib.Core.List.{List, [], ◌∷◌, Perm, Permᴰ}
use native.Mathlib.Omega.{arith}
use dependency_firewall.Base.Logic.{if◌then◌else◌, leb, Bool-cases}

module _ {ℓ} {A : Type ℓ} where
  abbrev pub length : List A → ℕ
  length [] = 0
  length (x ∷ xs) = suc (length xs)

  abbrev pub is_empty : List A → Bool
  is_empty [] = true
  is_empty (x ∷ xs) = false

  abbrev pub any : (A → Bool) → List A → Bool
  any p [] = false
  any p (x ∷ xs) = p x || any p xs

  abbrev pub all : (A → Bool) → List A → Bool
  all p [] = true
  all p (x ∷ xs) = p x && all p xs

  abbrev pub keep : (A → Bool) → List A → List A
  keep p [] = []
  keep p (x ∷ xs) = let rest = keep p xs in if p x then x ∷ rest else rest

  abbrev pub take : ℕ → List A → List A
  take zero xs = []
  take (suc n) [] = []
  take (suc n) (x ∷ xs) = x ∷ take n xs

  -- the number of the elements that pass the test
  abbrev pub count : (A → Bool) → List A → ℕ
  count p [] = 0
  count p (x ∷ xs) = (if p x then 1 else 0) + count p xs

module _ {A : Type 0} where
  pub count-take :
      (p : A → Bool) (n : ℕ) (xs : List A) → leb (count p (take n xs)) (count p xs) ≡ true
  count-take p zero xs = ground arith
  count-take p (suc n) [] = refl
  count-take p (suc n) (x ∷ xs) = ground (arith, count-take p n xs)

  pub count-keep : (p q : A → Bool) (xs : List A) → leb (count p (keep q xs)) (count p xs) ≡ true
  count-keep p q [] = refl
  count-keep p q (x ∷ xs) = ground (arith, count-keep p q xs)

  pub length-take : (n : ℕ) (xs : List A) → leb (length (take n xs)) n ≡ true
  length-take zero xs = ground arith
  length-take (suc n) [] = ground arith
  length-take (suc n) (x ∷ xs) = ground (arith, length-take n xs)

  pub length-keep : (q : A → Bool) (xs : List A) → leb (length (keep q xs)) (length xs) ≡ true
  length-keep q [] = refl
  length-keep q (x ∷ xs) = ground (arith, length-keep q xs)

  -- What stands in a list, as a type.
  abbrev pub In : A → List A → Type 0
  In a [] = ⊥
  In a (x ∷ xs) = (x ≡ a) ⊎ In a xs

  abbrev pub Each : (A → Type 0) → List A → Type 0
  Each P [] = Unit
  Each P (x ∷ xs) = P x × Each P xs

  pub any-keep : (p q : A → Bool) (xs : List A) → any p (keep q xs) ≡ any (λ x. q x && p x) xs
  any-keep p q [] = refl
  any-keep p q (x ∷ xs) = ground (arith, any-keep p q xs)

  -- `any` is true exactly where an element passes the test.
  pub any-true : (p : A → Bool) (xs : List A) → any p xs ≡ true → (x : A) × In x xs × (p x ≡ true)
  any-true p [] h = cc
  any-true p (x ∷ xs) h = elim (Bool-cases (p x)) [
    | inl e ↦ (x, inl refl, e)
    | inr e ↦ let (y, m, f) = any-true p xs (ground arith) in (y, inr m, f)
  ]

  pub any-In : (p : A → Bool) (x : A) (xs : List A) → In x xs → p x ≡ true → any p xs ≡ true
  any-In p x [] m h = absurd m
  any-In p x (y ∷ xs) (inl e) h = rw (e, h)
  any-In p x (y ∷ xs) (inr m) h = ground (arith, any-In p x xs m h)

  -- `all` is true exactly where no element fails.
  pub all-true : (p : A → Bool) (x : A) (xs : List A) → all p xs ≡ true → In x xs → p x ≡ true
  all-true p x [] h m = absurd m
  all-true p x (y ∷ xs) h (inl e) = let q : p y ≡ true = ground arith in rw e at q
  all-true p x (y ∷ xs) h (inr m) = all-true p x xs (ground arith) m

  pub any-eq_any : (p q : A → Bool) (xs : List A) → ((x : A) → p x ≡ q x) → any p xs ≡ any q xs
  any-eq_any p q [] h = refl
  any-eq_any p q (x ∷ xs) h = ground (arith, h x, any-eq_any p q xs h)

  any-permᴰ : (p : A → Bool) {xs ys : List A} → Permᴰ xs ys → any p xs ≡ any p ys
  any-permᴰ p Permᴰ.nil = refl
  any-permᴰ p (Permᴰ.cons e h) = ap₂ (λ a b. p a || b) e (any-permᴰ p h)
  any-permᴰ p (Permᴰ.swap e f) = rw (e, f) (ground arith)
  any-permᴰ p (Permᴰ.trans h k) = any-permᴰ p h ∙ any-permᴰ p k

  pub any-perm : (p : A → Bool) (xs ys : List A) → Perm xs ys → any p xs ≡ any p ys
  any-perm p xs ys h = ∥∥₁_elim h (Bool-set _ _) (any-permᴰ p)
