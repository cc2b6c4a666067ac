-- ===== src/Base/Sort.antt =====
-- Package `sort`: the result of a stable sort, which does not depend on the algorithm. `lt` is the
-- `less` function of the call.
use Prim.Native.Nat.{◌+◌}
use mathlib.Core.Path.{◌≡◌, refl}
use mathlib.Core.Logic.{inl, inr}
use mathlib.Core.Bool.{Bool, true, false, ◌||◌}
use mathlib.Core.List.{List, [], ◌∷◌, Perm}
use mathlib.Core.List.Perm
use native.Mathlib.Omega.{arith}
use dependency_firewall.Base.Logic.{if◌then◌else◌, Bool-cases}
use dependency_firewall.Base.Lists.{any, count, keep, Each}

module _ {A : Type 0} (lt : A → A → Bool) where
  unfoldable pub insert : A → List A → List A
  insert a [] = a ∷ []
  insert a (b ∷ xs) = let rest = insert a xs in if lt b a then b ∷ rest else a ∷ b ∷ xs

  unfoldable pub sort : List A → List A
  unfolding insert
  sort [] = []
  sort (x ∷ xs) = insert x (sort xs)

  -- Nothing later comes before something earlier.
  abbrev pub IsSorted : List A → Type 0
  IsSorted [] = Unit
  IsSorted (x ∷ xs) = Each (λ y. lt y x ≡ false) xs × IsSorted xs

  count-insert :
      (p : A → Bool) (a : A) (xs : List A)
      → count p (insert a xs) ≡ (if p a then 1 else 0) + count p xs
  unfolding insert
  count-insert p a [] = refl
  count-insert p a (b ∷ xs) = ground (arith, count-insert p a xs)

  pub count-sort : (p : A → Bool) (xs : List A) → count p (sort xs) ≡ count p xs
  unfolding sort
  count-sort p [] = refl
  count-sort p (x ∷ xs) = ground (arith, count-insert p x (sort xs), count-sort p xs)

  any-insert : (p : A → Bool) (a : A) (xs : List A) → any p (insert a xs) ≡ (p a || any p xs)
  unfolding insert
  any-insert p a [] = refl
  any-insert p a (b ∷ xs) = ground (arith, any-insert p a xs)

  pub any-sort : (p : A → Bool) (xs : List A) → any p (sort xs) ≡ any p xs
  unfolding sort
  any-sort p [] = refl
  any-sort p (x ∷ xs) = ground (arith, any-insert p x (sort xs), any-sort p xs)

  insert-perm : (a : A) (xs : List A) → Perm (insert a xs) (a ∷ xs)
  unfolding insert
  insert-perm a [] = Perm.refl _
  insert-perm a (b ∷ xs) = elim (Bool-cases (lt b a)) [
    | inl e ↦ rw e (Perm.trans (Perm.cons b (insert-perm a xs)) (Perm.swap a b xs))
    | inr e ↦ rw e (Perm.refl _)
  ]

  pub sort-perm : (xs : List A) → Perm (sort xs) xs
  unfolding sort
  sort-perm [] = Perm.refl _
  sort-perm (x ∷ xs) = Perm.trans (insert-perm x (sort xs)) (Perm.cons x (sort-perm xs))

  -- Elements that `lt` does not tell apart keep their order.
  keep-insert :
      (p : A → Bool)
      → ((a b : A) → p a ≡ true → p b ≡ true → lt a b ≡ false)
      → (a : A) (xs : List A) → keep p (insert a xs) ≡ (if p a then a ∷ keep p xs else keep p xs)
  unfolding insert
  keep-insert p same a [] = refl
  keep-insert p same a (b ∷ xs) = ground (arith, keep-insert p same a xs, same b a)

  pub keep-sort :
      (p : A → Bool)
      → ((a b : A) → p a ≡ true → p b ≡ true → lt a b ≡ false)
      → (xs : List A) → keep p (sort xs) ≡ keep p xs
  unfolding sort
  keep-sort p same [] = refl
  keep-sort p same (x ∷ xs) = ground (arith, keep-insert p same x (sort xs), keep-sort p same xs)

Each-map :
    {A : Type 0} (P Q : A → Type 0) (xs : List A) → ((x : A) → P x → Q x) → Each P xs → Each Q xs
Each-map P Q [] f h = tt
Each-map P Q (x ∷ xs) f (p, h) = (f x p, Each-map P Q xs f h)

-- Where `lt` is a strict weak order, the result is sorted.
module _ {A : Type 0} (lt : A → A → Bool) (asym : (a b : A) → lt a b ≡ true → lt b a ≡ false)
    (negtrans : (a b c : A) → lt b a ≡ false → lt c b ≡ false → lt c a ≡ false) where
  Each-insert : (P : A → Type 0) (a : A) (xs : List A) → P a → Each P xs → Each P (insert lt a xs)
  unfolding insert
  Each-insert P a [] p h = (p, tt)
  Each-insert P a (b ∷ xs) p (q, h) = elim (Bool-cases (lt b a)) [
    | inl e ↦ rw e (q, Each-insert P a xs p h)
    | inr e ↦ rw e (p, (q, h))
  ]

  insert-IsSorted : (a : A) (xs : List A) → IsSorted lt xs → IsSorted lt (insert lt a xs)
  unfolding insert
  insert-IsSorted a [] h = (tt, tt)
  insert-IsSorted a (b ∷ xs) (q, h) = elim (Bool-cases (lt b a)) [
    | inl e ↦ rw e (Each-insert (λ y. lt y b ≡ false) a xs (asym b a e) q, insert-IsSorted a xs h)
    | inr e ↦ rw e (
      (e, Each-map (λ y. lt y b ≡ false) (λ y. lt y a ≡ false) xs (λ y. negtrans a b y e) q),
      (q, h),
    )
  ]

  pub sort-IsSorted : (xs : List A) → IsSorted lt (sort lt xs)
  unfolding sort
  sort-IsSorted [] = tt
  sort-IsSorted (x ∷ xs) = insert-IsSorted x (sort lt xs) (sort-IsSorted xs)
