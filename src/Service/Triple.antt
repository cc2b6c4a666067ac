-- ===== src/Service/Triple.antt =====
-- Reasoning about the workflows of internal/core/service: what holds of the value and of the state
-- that a workflow returns, if it returns no error; and the rule for a sequence.
use mathlib.Core.Path.{subst}
use dependency_firewall.Base.{sym, true, ◌≡◌}
use dependency_firewall.Domain.Message.{Result, err, is_ok, ok}
use dependency_firewall.Service.Effects.{Eff, World, continue, ◌>>=◌}

module _ {Server A : Type 0} where
  abbrev pub Ensures : (A → World Server → Type 0) → Result A × World Server → Type 0
  Ensures P (ok a, w) = P a w
  Ensures P (err e, w) = Unit {0}

  -- the same, of a run that is known to have returned `a`
  pub ensures-ok :
      (P : A → World Server → Type 0) (r : Result A × World Server) (a : A) (w : World Server)
      → Ensures P r
      → r ≡ (ok a, w)
      → P a w
  ensures-ok P r a w h e = subst (Ensures P) e h

  -- of a run whose result is known, and whose state is not
  pub result-Ensures :
      (P : A → World Server → Type 0) (r : Result A × World Server) (a : A)
      → r.0 ≡ ok a
      → ((w : World Server) → P a w)
      → Ensures P r
  result-Ensures P r a h k = subst (λ x. Ensures P (x, r.1)) (sym h) (k r.1)

  -- of any run at all
  pub any-Ensures : (r : Result A × World Server) → Ensures (λ _ _. Unit {0}) r
  any-Ensures (ok a, w) = tt
  any-Ensures (err e, w) = tt

  pub weaken-Ensures :
      (P Q : A → World Server → Type 0) (r : Result A × World Server)
      → Ensures P r
      → ((a : A) (w : World Server) → P a w → Q a w)
      → Ensures Q r
  weaken-Ensures P Q (ok a, w) h k = k a w h
  weaken-Ensures P Q (err e, w) h k = tt

-- What only the audit trail may have changed.
module _ {Server : Type 0} where
  abbrev pub Quiet : World Server → World Server → Type 0
  Quiet w w' = (w'.server ≡ w.server) × (w'.recorded ≡ w.recorded)

module _ {Server A B : Type 0} where
  continue-Ensures :
      (P : A → World Server → Type 0) (Q : B → World Server → Type 0) (f : A → Eff Server B)
      (r : Result A × World Server)
      → Ensures P r
      → ((a : A) (w : World Server) → P a w → Ensures Q (f a w))
      → Ensures Q (continue r.0 f r.1)
  continue-Ensures P Q f (ok a, w) h k = k a w h
  continue-Ensures P Q f (err e, w) h k = tt

  pub >>=-Ensures :
      (P : A → World Server → Type 0) (Q : B → World Server → Type 0) (m : Eff Server A)
      (f : A → Eff Server B) (w : World Server)
      → Ensures P (m w)
      → ((a : A) (w' : World Server) → P a w' → Ensures Q (f a w'))
      → Ensures Q ((m >>= f) w)
  >>=-Ensures P Q m f w h k = continue-Ensures P Q f (m w) h k

  -- where the second step gives what is wanted after any first one
  pub second-Ensures :
      (Q : B → World Server → Type 0) (m : Eff Server A) (f : A → Eff Server B) (w : World Server)
      → ((a : A) (w' : World Server) → Ensures Q (f a w'))
      → Ensures Q ((m >>= f) w)
  second-Ensures Q m f w k =
      >>=-Ensures (λ _ _. Unit {0}) Q m f w (any-Ensures (m w)) (λ a w' _. k a w')

-- a run that ends without an error
module _ {Server A : Type 0} where
  abbrev pub Returns : Result A × World Server → Type 0
  Returns r = is_ok r.0 ≡ true

module _ {Server A B : Type 0} where
  continue-Returns :
      (f : A → Eff Server B) (r : Result A × World Server)
      → Returns r
      → ((a : A) (w : World Server) → Returns (f a w))
      → Returns (continue r.0 f r.1)
  continue-Returns f (ok a, w) h k = k a w
  continue-Returns f (err e, w) h k = cc

  pub >>=-Returns :
      (m : Eff Server A) (f : A → Eff Server B) (w : World Server)
      → Returns (m w)
      → ((a : A) (w' : World Server) → Returns (f a w'))
      → Returns ((m >>= f) w)
  >>=-Returns m f w h k = continue-Returns f (m w) h k
