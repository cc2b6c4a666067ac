-- ===== src/Infra/NpmGraph/Depths/Shortest.antt =====
-- What computeDepths (internal/infra/npmgraph/lockfile.go) computes: the length of a shortest walk.
use mathlib.Core.Path.{subst}
use dependency_firewall.Base.{
  Bool, Bool-cases, Each, List, Option, Option-cases, String, [], all, arith, contains, eq_iff,
  false, inl, inr, is_some, leb, length, none, refl, some, suc, sym, true, zero, ℕ, ◌&&◌, ◌++◌, ◌+◌,
  ◌==◌, ◌||◌, ◌∙◌, ◌∷◌, ◌≡◌,
}
use dependency_firewall.Infra.NpmGraph.Depths.{
  GraphEdge, Search, children, compute_depths, improves, relax, round, scan, search_loop, start,
}
use dependency_firewall.Infra.NpmGraph.Depths.Rounds.{
  List-cases, search_loop-empty, search_loop-returns, search_loop-step,
}

-- the walks from the root along the edges, through nodes, with their lengths
pub data Walk (ids : List String) (root : String) (edges : List GraphEdge)
    : String → ℕ → Type 0 where
  here : contains ids root ≡ true → Walk ids root edges root 0
  step :
      {u v : String} {n : ℕ}
      → Walk ids root edges u n
      → contains (children edges u) v ≡ true
      → contains ids v ≡ true
      → Walk ids root edges v (suc n)

-- whether a depth is there and not above `n`
abbrev pub at_most : Option ℕ → ℕ → Bool
at_most none n = false
at_most (some d) n = leb d n

contains-concat :
    (xs : List String) (c x : String) → contains (xs ++ c ∷ []) x ≡ (contains xs x || c == x)
contains-concat [] c x = ground arith
contains-concat (y ∷ xs) c x = ground (arith, contains-concat xs c x)

module _ (ids : List String) (root : String) (edges : List GraphEdge) where
  -- The invariant inside a round: `u` has left the queue, and `left` is what is left of its children.
  record Scanning (u : String) (d : ℕ) (left : List String) (s : Search) : Type 0 where
    current : s.depth u ≡ some d
    source : contains ids root ≡ true → s.depth root ≡ some 0
    sound : (x : String) (e : ℕ) → s.depth x ≡ some e → Walk ids root edges x e
    closed :
        (x v : String) (e : ℕ)
        → s.depth x ≡ some e
        → contains (children edges x) v ≡ true
        → contains ids v ≡ true
        → (contains s.queue x || (u == x && contains left v) || at_most (s.depth v) (e + 1)) ≡ true

  relax-Scanning :
      (u : String) (d : ℕ) (c : String) (left : List String) (s : Search)
      → contains (children edges u) c ≡ true
      → Scanning u d (c ∷ left) s
      → Scanning u d left (relax ids c d s)
  unfolding relax
  relax-Scanning u d c left s child inv =
      elim (Bool-cases (contains ids c && improves (d + 1) (s.depth c))) [
        | inr stays ↦ rw stays (record {
          current = inv.current;
          source = inv.source;
          sound = inv.sound;
          closed = λ x v e f g h. ground (arith, inv.closed x v e, eq_iff c v, eq_iff u x);
        })
        | inl moves ↦ rw moves (record {
          current = ground (arith, inv.current, eq_iff u c);
          source = λ known. ground (arith, inv.source known, eq_iff root c);
          sound = λ x e f. elim (Bool-cases (x == c)) [
            | inl same ↦
                let known : contains ids c ≡ true = ground arith in
                let long : suc d ≡ e = ground arith in
                subst (λ y. Walk ids root edges y e) (sym ((eq_iff x c).0 same))
                  (subst (λ n. Walk ids root edges c n) long
                    (step (inv.sound u d inv.current) child known))
            | inr other ↦ inv.sound x e (ground arith)
          ];
          closed = λ x v e f g h. ground (
            arith,
            inv.closed x v e,
            inv.current,
            contains-concat s.queue c x,
            eq_iff c v,
            eq_iff v c,
            eq_iff x c,
            eq_iff c x,
            eq_iff u x,
          );
        })
      ]

  Walk-known : (x : String) (e : ℕ) → Walk ids root edges x e → contains ids x ≡ true
  Walk-known x e (here known) = known
  Walk-known x e (step w child known) = known

  -- all of the list are children of `u`
  abbrev Children : String → List String → Type 0
  Children u cs = Each (λ c. contains (children edges u) c ≡ true) cs

  scan-Scanning :
      (u : String) (d : ℕ) (left : List String) (s : Search)
      → Children u left
      → Scanning u d left s
      → Scanning u d [] (scan ids u left s)
  unfolding scan
  scan-Scanning u d [] s all inv = inv
  scan-Scanning u d (c ∷ left) s (child, all) inv =
      rw (inv.current)
        (scan-Scanning u d left (relax ids c d s) all (relax-Scanning u d c left s child inv))

  -- The invariant of the loop.
  record Searching (s : Search) : Type 0 where
    source : contains ids root ≡ true → s.depth root ≡ some 0
    sound : (x : String) (e : ℕ) → s.depth x ≡ some e → Walk ids root edges x e
    closed :
        (x v : String) (e : ℕ)
        → s.depth x ≡ some e
        → contains (children edges x) v ≡ true
        → contains ids v ≡ true
        → (contains s.queue x || at_most (s.depth v) (e + 1)) ≡ true
    known : (x : String) (e : ℕ) → s.depth x ≡ some e → contains ids x ≡ true

  Each-self :
      (xs ys : List String)
      → ((x : String) → contains xs x ≡ true → contains ys x ≡ true)
      → Each (λ x. contains ys x ≡ true) xs
  Each-self [] ys h = tt
  Each-self (x ∷ xs) ys h =
      (h x (ground (arith, eq_iff x x)), Each-self xs ys (λ y m. h y (ground arith)))

  -- what the invariant says of an edge when `u` has left the queue
  popped :
      (s : Search) (u : String) (rest : List String)
      → s.queue ≡ u ∷ rest
      → Searching s
      → (x v : String) (e : ℕ) → s.depth x ≡ some e
      → contains (children edges x) v ≡ true
      → contains ids v ≡ true
      → (u == x || contains rest x || at_most (s.depth v) (e + 1)) ≡ true
  popped s u rest q inv x v e f g h =
      let old =
        subst (λ queue. (contains queue x || at_most (s.depth v) (e + 1)) ≡ true) q
          (inv.closed x v e f g h) in
      ground arith

  popped_at :
      (s : Search) (u : String) (rest : List String)
      → s.queue ≡ u ∷ rest
      → Searching s
      → (x v : String) (e : ℕ) → s.depth x ≡ some e
      → contains (children edges x) v ≡ true
      → contains ids v ≡ true
      → (contains rest x
          || (u == x && contains (children edges u) v)
          || at_most (s.depth v) (e + 1))
        ≡ true
  popped_at s u rest q inv x v e f g h =
      let old = popped s u rest q inv x v e f g h in
      elim (Bool-cases (u == x)) [
        | inl same ↦
            let child =
              subst (λ y. contains (children edges y) v ≡ true) (sym ((eq_iff u x).0 same)) g in
            ground arith
        | inr other ↦ ground arith
      ]

  round-Searching :
      (s : Search) (u : String) (rest : List String)
      → s.queue ≡ u ∷ rest
      → Searching s
      → Searching (round ids edges u (record s { queue = rest }))
  unfolding round
  round-Searching s u rest q inv = elim (Option-cases (s.depth u)) [
    | inl unset ↦
        let skip : (contains ids u && is_some (s.depth u)) ≡ false = ground arith in
        rw skip (record {
          source = inv.source;
          sound = inv.sound;
          closed = λ x v e f g h.
              let old = popped s u rest q inv x v e f g h in ground (arith, eq_iff u x);
          known = inv.known;
        })
    | inr (d, at) ↦
        let scanned =
          scan-Scanning u d (children edges u) (record s { queue = rest })
            (Each-self (children edges u) (children edges u) (λ x m. m))
            (record {
              current = at;
              source = inv.source;
              sound = inv.sound;
              closed = popped_at s u rest q inv;
            }) in
        let go : (contains ids u && is_some (s.depth u)) ≡ true =
          ground (arith, inv.known u d at) in
        rw go (record {
          source = scanned.source;
          sound = scanned.sound;
          closed = λ x v e f g h. let edge = scanned.closed x v e f g h in ground arith;
          known = λ x e f. Walk-known x e (scanned.sound x e f);
        })
  ]

  search_loop-Searching :
      (fuel : ℕ) (s t : Search)
      → Searching s
      → search_loop ids edges fuel s ≡ some t
      → Searching t × (t.queue ≡ [])
  unfolding search_loop
  search_loop-Searching zero s t inv h = elim (List-cases s.queue) [
    | inl empty ↦
        let same : s ≡ t = ground (arith, search_loop-empty ids edges zero s empty) in
        (subst Searching same inv, subst (λ x. x.queue ≡ []) same empty)
    | inr (u, rest, e) ↦ ground arith
  ]
  search_loop-Searching (suc fuel) s t inv h = elim (List-cases s.queue) [
    | inl empty ↦
        let same : s ≡ t = ground (arith, search_loop-empty ids edges (suc fuel) s empty) in
        (subst Searching same inv, subst (λ x. x.queue ≡ []) same empty)
    | inr (u, rest, e) ↦
        search_loop-Searching fuel (round ids edges u (record s { queue = rest })) t
          (round-Searching s u rest e inv) (sym (search_loop-step ids edges fuel s u rest e) ∙ h)
  ]

  start-Searching : Searching (start ids root)
  start-Searching = record {
    source = λ known. ground (arith, eq_iff root root);
    sound = λ x e f.
        let known : contains ids root ≡ true = ground arith in
        let zero_ : 0 ≡ e = ground arith in
        let same : (x == root) ≡ true = ground arith in
        subst (λ y. Walk ids root edges y e) (sym ((eq_iff x root).0 same))
          (subst (λ n. Walk ids root edges root n) zero_ (here known));
    closed = λ x v e f g h. ground (arith, eq_iff root x, eq_iff x root);
    known = λ x e f. ground (arith, eq_iff x root);
  }

  -- with an empty queue no walk is shorter than the depth
  least :
      (t : Search)
      → Searching t
      → t.queue ≡ []
      → (v : String) (n : ℕ) → Walk ids root edges v n
      → at_most (t.depth v) n ≡ true
  least t inv empty v zero (here known) = rw (inv.source known) refl
  least t inv empty v (suc n) (step {u} w child known) =
      let near = least t inv empty u n w in
      elim (Option-cases (t.depth u)) [
        | inl unset ↦ ground arith
        | inr (d, at) ↦
            let edge =
              subst (λ queue. (contains queue u || at_most (t.depth v) (d + 1)) ≡ true) empty
                (inv.closed u v d at child known) in
            ground arith
      ]

  -- computeDepths ends, and gives each node that a walk from the root reaches the length of a
  -- shortest walk, and no depth to any other node.
  pub compute_depths-shortest :
      (depth : String → Option ℕ) × (compute_depths ids root edges ≡ some depth)
      × ((v : String) (d : ℕ) → depth v ≡ some d → Walk ids root edges v d)
      × ((v : String) (n : ℕ) → Walk ids root edges v n → at_most (depth v) n ≡ true)
  unfolding compute_depths
  compute_depths-shortest =
      let (t, ends) = search_loop-returns ids root edges in
      let (inv, empty) =
        search_loop-Searching (suc (length ids)) (start ids root) t start-Searching ends in
      (t.depth, rw (ends, compute_depths) refl, inv.sound, least t inv empty)
