-- ===== src/Toposort.antt =====
-- go/algorithm/toposort/toposort.go: graphs as adjacency lists and their depth-first orders.
-- A Go map is an association list in the order in which `range` visits it, which is any order; a
-- nil map is the empty list, since the source only writes to a map that ensureNodes has made.
pub mod Sets
pub mod Graphs
pub mod References
pub mod Visits
pub mod Order
pub mod Cycles
pub mod Repeats
use monogon.Prelude.{
  ℕ, zero, suc, Bool, true, false, not, List, [], ◌∷◌, ◌++◌, if◌then◌else◌, length, map,
}
use Sets.{Comparable, member, remove, filter}

-- The Go map from a node to its outgoing edges.
abbrev pub Adjacency : Type 0 → Type 0
Adjacency T = List (T × List T)

pub record Graph (T : Type 0) : Type 0 where
  pub nodes : Adjacency T
  pub added_nodes : List T

abbrev pub empty_graph : {T : Type 0} → Graph T
empty_graph = record { nodes = []; added_nodes = [] }

-- unmarkedNodes, nodeVisitStack and the solution.
pub record Search (T : Type 0) : Type 0 where
  pub unmarked : List T
  pub visiting : List T
  pub solution : List T

pub data Visit (T : Type 0) : Type 0 where
  visited : Search T → Visit T
  err_cycle : Visit T
  out_of_fuel : Visit T

-- What the sorts return: the solution, or ErrCycle.
pub data Answer (T : Type 0) : Type 0 where
  solved : List T → Answer T
  failed : Answer T
  unfinished : Answer T

abbrev pub answer : {T : Type 0} → Visit T → Answer T
answer (visited s) = solved s.solution
answer err_cycle = failed
answer out_of_fuel = unfinished

abbrev pub nodes_of : {T : Type 0} → Adjacency T → List T
nodes_of m = map (λ p. p.0) m

module _ {T : Type 0} ⦃o : Comparable T⦄ where
  unfoldable pub insert : T → List T → List T
  insert x xs = if member x xs then xs else xs ++ x ∷ []

  -- `g.nodes[n]`.
  unfoldable pub edges : T → Adjacency T → List T
  edges n [] = []
  edges n ((k, out) ∷ m) = if o.eqb k n then out else edges n m

  unfoldable pub add_node_implicit : T → Adjacency T → Adjacency T
  add_node_implicit n m = if member n (nodes_of m) then m else m ++ (n, []) ∷ []

  -- `g.nodes[from][to] = true`.
  unfoldable pub insert_edge : T → T → Adjacency T → Adjacency T
  insert_edge from to [] = []
  insert_edge from to ((k, out) ∷ m) =
      let rest = insert_edge from to m in
      if o.eqb k from then (k, insert to out) ∷ m else (k, out) ∷ rest

  unfoldable pub add_node : T → Graph T → Graph T
  add_node n g = record {
    nodes = add_node_implicit n g.nodes;
    added_nodes = insert n g.added_nodes;
  }

  unfoldable pub add_edge : T → T → Graph T → Graph T
  add_edge from to g = record {
    nodes = insert_edge from to (add_node_implicit to (add_node_implicit from g.nodes));
    added_nodes = g.added_nodes;
  }

  -- The body of a loop of ImplicitNodeReferences: `out[n][e] = true`, with the set made first.
  unfoldable pub add_reference : T → T → Adjacency T → Adjacency T
  add_reference n e out = insert_edge n e (add_node_implicit n out)

  unfoldable pub outgoing : T → List T → Adjacency T → Adjacency T
  outgoing n [] out = out
  outgoing n (e ∷ es) out = outgoing n es (add_reference n e out)

  unfoldable pub incoming : List T → T → List T → Adjacency T → Adjacency T
  incoming added n [] out = out
  incoming added n (e ∷ es) out =
      incoming added n es (if member e added then out else add_reference e n out)

  unfoldable pub collect_references : List T → Adjacency T → Adjacency T → Adjacency T
  collect_references added [] out = out
  collect_references added ((n, es) ∷ m) out =
      let own = if member n added then out else outgoing n es (add_node_implicit n out) in
      collect_references added m (incoming added n es own)

  unfoldable pub implicit_node_references : Graph T → Adjacency T
  implicit_node_references g = collect_references g.added_nodes g.nodes []

  unfoldable pub enter : T → Search T → Search T
  enter n s = record { unmarked = s.unmarked; visiting = n ∷ s.visiting; solution = s.solution }

  unfoldable pub leave : T → Search T → Search T
  leave n s = record {
    unmarked = remove n s.unmarked;
    visiting = remove n s.visiting;
    solution = s.solution ++ n ∷ [];
  }

  -- The closure `visit` of TopologicalOrder. The fuel bounds the depth of the recursion.
  unfoldable pub visit : ℕ → Adjacency T → List T → Search T → Visit T
  visit fuel m [] s = visited s
  visit zero m (n ∷ ns) s = out_of_fuel
  visit (suc fuel) m (n ∷ ns) s = elim (member n s.unmarked) [
    | false ↦ visit (suc fuel) m ns s
    | true ↦ elim (member n s.visiting) [
      | true ↦ err_cycle
      | false ↦ elim (visit fuel m (edges n m) (enter n s)) [
        | visited t ↦ visit (suc fuel) m ns (leave n t)
        | err_cycle ↦ err_cycle
        | out_of_fuel ↦ out_of_fuel
      ]
    ]
  ]

  abbrev pub start : Adjacency T → Search T
  start m = record { unmarked = nodes_of m; visiting = []; solution = [] }

  unfoldable pub topological_order : Graph T → Visit T
  topological_order g =
      visit (suc (length (nodes_of g.nodes))) g.nodes (nodes_of g.nodes) (start g.nodes)

  module _ (sort_func : List T → List T) where
    -- The first loop of the closure of DetTopologicalOrder: the unmarked nodes, sorted.
    unfoldable pub sorted_order : List T → Search T → List T
    sorted_order ns s = sort_func (filter (λ n. member n s.unmarked) ns)

    -- Its second loop, with the recursive call.
    unfoldable pub visit_sorted : ℕ → Adjacency T → List T → Search T → Visit T
    visit_sorted fuel m [] s = visited s
    visit_sorted zero m (n ∷ ns) s = out_of_fuel
    visit_sorted (suc fuel) m (n ∷ ns) s = elim (member n s.visiting) [
      | true ↦ err_cycle
      | false ↦ elim (visit_sorted fuel m (sorted_order (edges n m) (enter n s)) (enter n s)) [
        | visited t ↦ visit_sorted (suc fuel) m ns (leave n t)
        | err_cycle ↦ err_cycle
        | out_of_fuel ↦ out_of_fuel
      ]
    ]

    unfoldable pub det_topological_order : Graph T → Visit T
    det_topological_order g =
        let s = start g.nodes in
        visit_sorted (suc (length (nodes_of g.nodes))) g.nodes (sorted_order (nodes_of g.nodes) s) s
