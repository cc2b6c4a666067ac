-- ===== src/Infra/NpmGraph/Depths.antt =====
-- internal/infra/npmgraph/lockfile.go (computeDepths): the least number of edges from the root to each
-- node of the graph. A depth of -1 is `none`. `byID` is the list of the ids of the nodes, and
-- the field MinDepth of its values is a map from ids to depths.
pub mod Rounds
pub mod Shortest
use dependency_firewall.Base.{
  Bool, List, Option, String, [], contains, if◌then◌else◌, is_some, length, ltb, none, some, suc,
  true, zero, ℕ, ◌&&◌, ◌++◌, ◌+◌, ◌==◌, ◌∷◌,
}

pub record GraphEdge : Type 0 where
  pub parent_node_id : String
  pub child_node_id : String
  pub dependency_type : String

pub record Search : Type 0 where
  pub depth : String → Option ℕ
  pub queue : List String

abbrev pub update : (String → Option ℕ) → String → ℕ → String → Option ℕ
update depth id d x = if x == id then some d else depth x

-- childNode.MinDepth == -1 || depth < childNode.MinDepth
abbrev pub improves : ℕ → Option ℕ → Bool
improves d none = true
improves d (some old) = ltb d old

-- adjacency[id]
unfoldable pub children : List GraphEdge → String → List String
children [] id = []
children (e ∷ es) id =
    let rest = children es id in if e.parent_node_id == id then e.child_node_id ∷ rest else rest

module _ (ids : List String) where
  -- the body of the loop over the children; `d` is currentNode.MinDepth
  relax : String → ℕ → Search → Search
  relax child d s =
      if contains ids child && improves (d + 1) (s.depth child)
      then record { depth = update s.depth child (d + 1); queue = s.queue ++ child ∷ [] }
      else s

  -- the loop over the children; the depth of the current node is read anew each time
  scan : String → List String → Search → Search
  unfolding relax
  scan current [] s = s
  scan current (child ∷ rest) s =
      scan current rest (elim (s.depth current) [ none ↦ s | some d ↦ relax child d s ])

  -- one round of the `for` loop, after `current` left the queue
  pub round : List GraphEdge → String → Search → Search
  unfolding scan
  round edges current s =
      if contains ids current && is_some (s.depth current)
      then scan current (children edges current) s
      else s

  -- `none` means that the fuel ran out
  pub search_loop : List GraphEdge → ℕ → Search → Option Search
  search_loop edges zero s = elim s.queue [ [] ↦ some s | _ ∷ _ ↦ none ]
  search_loop edges (suc fuel) s = elim s.queue [
    | [] ↦ some s
    | current ∷ rest ↦ search_loop edges fuel (round edges current (record s { queue = rest }))
  ]

-- the depths before the loop: 0 for the root, if it is a node
abbrev pub start : List String → String → Search
start ids root = record {
  depth = λ x. if contains ids root && x == root then some 0 else none;
  queue = root ∷ [];
}

-- computeDepths, with a round for each node and one more
unfoldable pub compute_depths : List String → String → List GraphEdge → Option (String → Option ℕ)
unfolding search_loop round
compute_depths ids root edges = elim (search_loop ids edges (suc (length ids)) (start ids root)) [
  | none ↦ none
  | some s ↦ some s.depth
]
