-- ===== src/Infra/NpmGraph/Depths/Rounds.antt =====
-- The search of computeDepths (internal/infra/npmgraph/lockfile.go) ends: the queue is in two layers,
-- of depths k and k + 1, and so no depth is ever written twice.
use mathlib.Core.List.{append-nil, append_assoc}
use mathlib.Core.Path.{subst}
use dependency_firewall.Base.{
  Bool-cases, Each, List, Option, String, [], all, ap, arith, contains, eq_iff, false,
  if◌then◌else◌, inl, inr, is_some, length, none, refl, some, suc, sym, true, zero, ℕ, ◌&&◌, ◌++◌,
  ◌+◌, ◌∙◌, ◌∷◌, ◌≡◌, ◌≤◌, ◌⊎◌,
}
use dependency_firewall.Infra.NpmGraph.Depths.{
  GraphEdge, Search, children, improves, relax, round, scan, search_loop, start, update,
}

-- the nodes without a depth
unset : (String → Option ℕ) → List String → ℕ
unset depth [] = 0
unset depth (x ∷ xs) = (if is_some (depth x) then 0 else 1) + unset depth xs

unset-update_le :
    (f : String → Option ℕ) (c : String) (d : ℕ) (xs : List String)
    → unset (update f c d) xs ≤ unset f xs
unfolding unset
unset-update_le f c d [] = omega arith
unset-update_le f c d (x ∷ xs) = ground (arith, unset-update_le f c d xs)

unset-update_lt :
    (f : String → Option ℕ) (c : String) (d : ℕ) (xs : List String)
    → contains xs c ≡ true
    → f c ≡ none
    → unset (update f c d) xs + 1 ≤ unset f xs
unfolding unset
unset-update_lt f c d [] m h = cc
unset-update_lt f c d (x ∷ xs) m h =
    ground (arith, eq_iff x c, unset-update_le f c d xs, unset-update_lt f c d xs)

unset-le-length : (f : String → Option ℕ) (xs : List String) → unset f xs ≤ length xs
unfolding unset
unset-le-length f [] = omega arith
unset-le-length f (x ∷ xs) = ground (arith, unset-le-length f xs)

pub List-cases :
    (xs : List String) → (xs ≡ []) ⊎ ((x : String) × (rest : List String) × (xs ≡ x ∷ rest))
List-cases [] = inl refl
List-cases (x ∷ xs) = inr (x, xs, refl)

tail : List String → List String
tail [] = []
tail (x ∷ xs) = xs

-- all of the list have the depth `k`
abbrev AllAt : (String → Option ℕ) → ℕ → List String → Type 0
AllAt f k xs = Each (λ x. f x ≡ some k) xs

AllAt-update :
    (f : String → Option ℕ) (c : String) (d k : ℕ) (xs : List String)
    → f c ≡ none
    → AllAt f k xs
    → AllAt (update f c d) k xs
AllAt-update f c d k [] h all = tt
AllAt-update f c d k (x ∷ xs) h (e, all) =
    (ground (arith, eq_iff x c), AllAt-update f c d k xs h all)

AllAt-concat :
    (f : String → Option ℕ) (c : String) (k : ℕ) (xs : List String)
    → AllAt f k xs
    → f c ≡ some k
    → AllAt f k (xs ++ c ∷ [])
AllAt-concat f c k [] all h = (h, tt)
AllAt-concat f c k (x ∷ xs) (e, all) h = (e, AllAt-concat f c k xs all h)

length-concat : (xs : List String) (c : String) → length (xs ++ c ∷ []) ≡ length xs + 1
length-concat [] c = omega arith
length-concat (x ∷ xs) c = omega (arith, length-concat xs c)

improves-fresh :
    (k : ℕ) (o : Option ℕ)
    → ((d : ℕ) → o ≡ some d → d ≤ k + 1)
    → improves (k + 1) o ≡ true
    → o ≡ none
improves-fresh k none h yes_ = refl
improves-fresh k (some old) h yes_ = ground (arith, h old refl)

module _ (ids : List String) where
  abbrev work : Search → ℕ
  work s = unset s.depth ids + length s.queue

  record Layered (k : ℕ) (a b : List String) (s : Search) : Type 0 where
    queued : s.queue ≡ a ++ b
    now : AllAt s.depth k a
    later : AllAt s.depth (k + 1) b
    bound : (x : String) (d : ℕ) → s.depth x ≡ some d → d ≤ k + 1

  -- a layer after some children were looked at
  record After (k : ℕ) (a : List String) (s t : Search) : Type 0 where
    layer : List String
    layered : Layered k a layer t
    less : work t ≤ work s
    kept : (x : String) (d : ℕ) → s.depth x ≡ some d → t.depth x ≡ some d

  relax-After :
      (child : String) (k : ℕ) (a b : List String) (s : Search)
      → Layered k a b s
      → After k a s (relax ids child k s)
  unfolding relax
  relax-After child k a b s l =
      elim (Bool-cases (contains ids child && improves (k + 1) (s.depth child))) [
        | inr stays ↦
            rw stays (record { layer = b; layered = l; less = omega arith; kept = λ x d h. h })
        | inl moves ↦
            let known : contains ids child ≡ true = ground arith in
            let fresh = improves-fresh k (s.depth child) (l.bound child) (ground arith) in
            rw moves (record {
              layer = b ++ child ∷ [];
              layered = record {
                queued = ap (λ q. q ++ child ∷ []) l.queued ∙ append_assoc a b (child ∷ []);
                now = AllAt-update s.depth child (k + 1) k a fresh l.now;
                later =
                    AllAt-concat (update s.depth child (k + 1)) child (k + 1) b
                      (AllAt-update s.depth child (k + 1) (k + 1) b fresh l.later)
                      (ground (arith, eq_iff child child));
                bound = λ x d h. ground (arith, l.bound x d);
              };
              less = omega (
                arith,
                unset-update_lt s.depth child (k + 1) ids known fresh,
                length-concat s.queue child,
              );
              kept = λ x d h. ground (arith, eq_iff x child);
            })
      ]

  scan-After :
      (u : String) (cs : List String) (k : ℕ) (a b : List String) (s : Search)
      → Layered k a b s
      → s.depth u ≡ some k
      → After k a s (scan ids u cs s)
  unfolding scan
  scan-After u [] k a b s l at = record {
    layer = b;
    layered = l;
    less = omega arith;
    kept = λ x d h. h;
  }
  scan-After u (c ∷ cs) k a b s l at =
      let first = relax-After c k a b s l in
      let rest =
        scan-After u cs k a first.layer (relax ids c k s) first.layered (first.kept u k at) in
      rw at (record {
        layer = rest.layer;
        layered = rest.layered;
        less = omega (arith, first.less, rest.less);
        kept = λ x d h. rest.kept x d (first.kept x d h);
      })

  -- some layers, at the head of the loop
  abbrev Layers : Search → Type 0
  Layers s = (k : ℕ) × (a : List String) × (b : List String) × Layered k a b s

  -- the layers when `u` has left the queue
  Popped : String → List String → Search → Type 0
  Popped u rest s =
      (k : ℕ) × (a : List String) × (b : List String) × Layered k a b (record s { queue = rest })
      × (s.depth u ≡ some k)

  pop :
      (u : String) (rest : List String) (s : Search)
      → s.queue ≡ u ∷ rest
      → Layers s
      → Popped u rest s
  unfolding Popped tail
  pop u rest s e (k, x ∷ a, b, l) =
      let h : x ∷ (a ++ b) ≡ u ∷ rest = sym l.queued ∙ e in
      let same : x ≡ u = cc in
      (
        k,
        a,
        b,
        record { queued = cc; now = l.now.1; later = l.later; bound = l.bound },
        subst (λ y. s.depth y ≡ some k) same l.now.0,
      )
  pop u rest s e (k, [], x ∷ b, l) =
      let h : x ∷ b ≡ u ∷ rest = sym l.queued ∙ e in
      let same : x ≡ u = cc in
      (
        k + 1,
        b,
        [],
        record {
          queued = sym (ap tail h) ∙ sym (append-nil b);
          now = l.later.1;
          later = tt;
          bound = λ y d f. omega (arith, l.bound y d f);
        },
        subst (λ y. s.depth y ≡ some (k + 1)) same l.later.0,
      )
  pop u rest s e (k, [], [], l) = let h : [] ≡ u ∷ rest = sym l.queued ∙ e in cc

  -- a round leaves layers, and less work
  round-Layers :
      (edges : List GraphEdge) (u : String) (rest : List String) (s : Search)
      → s.queue ≡ u ∷ rest
      → Layers s
      → let t = round ids edges u (record s { queue = rest }) in Layers t × (work t + 1 ≤ work s)
  unfolding round Popped
  round-Layers edges u rest s e l =
      let (k, a, b, popped, at) = pop u rest s e l in
      let after = scan-After u (children edges u) k a b (record s { queue = rest }) popped at in
      let shorter : length s.queue ≡ length rest + 1 = rw e (omega arith) in
      elim (Bool-cases (contains ids u)) [
        | inl known ↦
            rw (known, at) ((k, a, after.layer, after.layered), omega (arith, after.less, shorter))
        | inr unknown ↦ rw unknown ((k, a, b, popped), omega (arith, shorter))
      ]

  pub search_loop-empty :
      (edges : List GraphEdge) (fuel : ℕ) (s : Search)
      → s.queue ≡ []
      → search_loop ids edges fuel s ≡ some s
  unfolding search_loop
  search_loop-empty edges zero s e = ground arith
  search_loop-empty edges (suc fuel) s e = ground arith

  pub search_loop-step :
      (edges : List GraphEdge) (fuel : ℕ) (s : Search) (u : String) (rest : List String)
      → s.queue ≡ u ∷ rest
      → search_loop ids edges (suc fuel) s
        ≡ search_loop ids edges fuel (round ids edges u (record s { queue = rest }))
  unfolding search_loop
  search_loop-step edges fuel s u rest e = ground arith

  search_loop-ends :
      (edges : List GraphEdge) (fuel : ℕ) (s : Search)
      → Layers s
      → work s ≤ fuel
      → (t : Search) × (search_loop ids edges fuel s ≡ some t)
  search_loop-ends edges zero s l h = elim (List-cases s.queue) [
    | inl empty ↦ (s, search_loop-empty edges zero s empty)
    | inr (u, rest, e) ↦ absurd (omega (arith, ap length e))
  ]
  search_loop-ends edges (suc fuel) s l h = elim (List-cases s.queue) [
    | inl empty ↦ (s, search_loop-empty edges (suc fuel) s empty)
    | inr (u, rest, e) ↦
        let (l', less) = round-Layers edges u rest s e l in
        let (t, ends) =
          search_loop-ends edges fuel (round ids edges u (record s { queue = rest })) l'
            (omega arith) in
        (t, search_loop-step edges fuel s u rest e ∙ ends)
  ]

  start-Layers : (root : String) → contains ids root ≡ true → Layers (start ids root)
  start-Layers root known = (
    0,
    root ∷ [],
    [],
    record {
      queued = refl;
      now = (ground (arith, eq_iff root root), tt);
      later = tt;
      bound = λ x d h. ground arith;
    },
  )

  round-unknown :
      (edges : List GraphEdge) (u : String) (s : Search)
      → contains ids u ≡ false
      → round ids edges u s ≡ s
  unfolding round
  round-unknown edges u s h = rw h refl

  -- The fuel of computeDepths is enough.
  pub search_loop-returns :
      (root : String) (edges : List GraphEdge)
      → (t : Search) × (search_loop ids edges (suc (length ids)) (start ids root) ≡ some t)
  search_loop-returns root edges = elim (Bool-cases (contains ids root)) [
    | inl known ↦
        search_loop-ends edges (suc (length ids)) (start ids root) (start-Layers root known)
          (omega (arith, unset-le-length (start ids root).depth ids))
    | inr unknown ↦
        let done = record (start ids root) { queue = [] } in
        (
          done,
          search_loop-step edges (length ids) (start ids root) root [] refl
              ∙ ap (search_loop ids edges (length ids)) (round-unknown edges root done unknown)
              ∙ search_loop-empty edges (length ids) done refl,
        )
  ]
