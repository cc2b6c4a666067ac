-- ===== src/Service/Calls.antt =====
-- Calls of adapters that work on a state `S`, for the services of the control plane. The state after an
-- error is the state in which the error occurred.
use dependency_firewall.Base.{String, refl, ◌≡◌}
use dependency_firewall.Domain.Message.{Result, annotate, err, ok}

infixl 5 ◌>>=◌ ◌>>◌
abbrev pub Call : Type 0 → Type 0 → Type 0
Call S A = S → Result A × S

module _ {S A B : Type 0} where
  unfoldable pub go_on : (A → Call S B) → Result A × S → Result B × S
  go_on f (ok x, s) = f x s
  go_on f (err e, s) = (err e, s)

  unfoldable pub ◌>>=◌ : Call S A → (A → Call S B) → Call S B
  unfolding go_on
  ◌>>=◌ m f s = go_on f (m s)

  unfoldable pub ◌>>◌ : Call S A → Call S B → Call S B
  unfolding go_on
  ◌>>◌ m n s = go_on (λ _. n) (m s)

module _ {S A : Type 0} where
  abbrev pub give : A → Call S A
  give x s = (ok x, s)

  abbrev pub check : Result A → Call S A
  check r s = (r, s)

  abbrev described : String → Result A × S → Result A × S
  described what (ok x, s) = (ok x, s)
  described what (err e, s) = (err (annotate what e), s)

  -- fmt.Errorf("what: %w", err) where the call fails
  abbrev pub or_fail : String → Call S A → Call S A
  or_fail what m s = described what (m s)

  -- Where the call succeeds, its value and the state after it are as `Q` says.
  abbrev pub Gives : (A → S → Type 0) → Call S A → Type 0
  Gives Q m = (s : S) (x : A) → (m s).0 ≡ ok x → Q x (m s).1

  -- Where the call succeeds, the state after it is as `P` says.
  abbrev pub Ensures : (S → Type 0) → Call S A → Type 0
  Ensures P m = (s : S) (x : A) → (m s).0 ≡ ok x → P (m s).1

  described-Ensures :
      (P : S → Type 0) (what : String) (r : Result A × S)
      → ((x : A) → r.0 ≡ ok x → P r.1)
      → (y : A) → (described what r).0 ≡ ok y
      → P (described what r).1
  described-Ensures P what (ok x, s) h y e = h x refl
  described-Ensures P what (err x, s) h y e = cc

  pub or_fail-Ensures :
      (P : S → Type 0) (what : String) (m : Call S A) → Ensures P m → Ensures P (or_fail what m)
  or_fail-Ensures P what m h s x e = described-Ensures P what (m s) (h s) x e

module _ {S A B : Type 0} where
  go_on-Gives :
      (Q : B → S → Type 0) (f : A → Call S B)
      → ((x : A) → Gives Q (f x))
      → (r : Result A × S) (y : B) → (go_on f r).0 ≡ ok y
      → Q y (go_on f r).1
  unfolding go_on
  go_on-Gives Q f h (ok x, s) y e = h x s y e
  go_on-Gives Q f h (err x, s) y e = cc

  -- What follows a call decides.
  pub >>=-Gives :
      (Q : B → S → Type 0) (m : Call S A) (f : A → Call S B)
      → ((x : A) → Gives Q (f x))
      → Gives Q (m >>= f)
  unfolding ◌>>=◌
  >>=-Gives Q m f h s y e = go_on-Gives Q f h (m s) y e

  pub >>-Ensures : (P : S → Type 0) (m : Call S A) (n : Call S B) → Ensures P n → Ensures P (m >> n)
  unfolding ◌>>◌
  >>-Ensures P m n h s y e = go_on-Gives (λ _. P) (λ _. n) (λ _. h) (m s) y e

  -- What follows a call decides.
  pub >>=-Ensures :
      (P : S → Type 0) (m : Call S A) (f : A → Call S B)
      → ((x : A) → Ensures P (f x))
      → Ensures P (m >>= f)
  unfolding ◌>>=◌
  >>=-Ensures P m f h s y e = go_on-Gives (λ _. P) f h (m s) y e

  give-last :
      (P : S → Type 0) (y : B) (r : Result A × S)
      → ((x : A) → r.0 ≡ ok x → P r.1)
      → (z : B) → (go_on (λ _. give y) r).0 ≡ ok z
      → P (go_on (λ _. give y) r).1
  unfolding go_on
  give-last P y (ok x, s) h z e = h x refl
  give-last P y (err x, s) h z e = cc

  -- Giving a value changes nothing.
  pub >>give-Ensures :
      (P : S → Type 0) (m : Call S A) (y : B) → Ensures P m → Ensures P (m >> give y)
  unfolding ◌>>◌
  >>give-Ensures P m y h s z e = give-last P y (m s) (h s) z e
