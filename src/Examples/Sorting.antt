-- ===== src/Examples/Sorting.antt =====
-- Graphs of numbers: 1 needs 2, and 2 needs 3 or, in the cyclic one, 1.
use monogon.Prelude.{ℕ, ◌≡◌, ◌⊎◌, refl, not, ◌&&◌, ◌||◌, List, [], ◌∷◌, arith, ◌==◌}
use monogon.Toposort.Sets.{Comparable, member}
use monogon.Toposort.Graphs.{Built, built_empty, built_node, built_edge}
use monogon.Toposort.References.{implicit_node_references_lem}
use monogon.Toposort.Cycles.{Reach, IsOrdered, IsBehind}
use monogon.Toposort.Order.{topological_order-IsOrdered}
use monogon.Toposort.Repeats.{det_topological_order-IsBehind, det_topological_order_repeats}
use monogon.Toposort.{
  Graph, answer, solved, failed, nodes_of, edges, empty_graph, add_node, add_edge, insert,
  insert_edge, add_node_implicit, enter, leave, visit, topological_order, sorted_order,
  visit_sorted, det_topological_order, implicit_node_references, collect_references, incoming,
  outgoing, add_reference,
}

instance number_node : Comparable ℕ
number_node = record { eqb = ◌==◌; eqb_iff = λ a b. ground arith }

abbrev three : Graph ℕ
three = add_edge 2 3 (add_edge 1 2 (add_node 1 empty_graph))

abbrev ring : Graph ℕ
ring = add_edge 2 1 (add_edge 1 2 empty_graph)

three-Built : Built three
three-Built =
    built_edge 2 3 (add_edge 1 2 (add_node 1 empty_graph))
      (built_edge 1 2 (add_node 1 empty_graph) (built_node 1 empty_graph built_empty))

three_order : answer (topological_order three) ≡ solved (3 ∷ 2 ∷ 1 ∷ [])
unfolding topological_order visit add_edge add_node insert insert_edge add_node_implicit edges enter
    number_node leave
three_order = refl

ring_order : answer (topological_order ring) ≡ failed
unfolding topological_order visit add_edge add_node insert insert_edge add_node_implicit edges enter
    number_node leave
ring_order = refl

three_repeats : answer (det_topological_order (λ ns. ns) three) ≡ solved (3 ∷ 2 ∷ 1 ∷ 2 ∷ 3 ∷ [])
unfolding det_topological_order sorted_order visit_sorted add_edge add_node insert insert_edge
    number_node add_node_implicit edges enter leave
three_repeats = refl

three_references : implicit_node_references three ≡ (2, 1 ∷ 3 ∷ []) ∷ (3, 2 ∷ []) ∷ []
unfolding implicit_node_references collect_references incoming outgoing add_reference add_edge
    number_node add_node insert insert_edge add_node_implicit edges
three_references = refl

topological_order-IsOrdered_example :
    ((ns : List ℕ) × (answer (topological_order three) ≡ solved ns)
      × IsOrdered three.nodes [] ns
      × ((y : ℕ) → member y ns ≡ member y (nodes_of three.nodes))
      × ((n : ℕ) → ¬ Reach three.nodes n n))
    ⊎ ((answer (topological_order three) ≡ failed) × (n : ℕ) × Reach three.nodes n n)
topological_order-IsOrdered_example = topological_order-IsOrdered three three-Built

det_topological_order-IsBehind_example :
    ((ns : List ℕ) × (answer (det_topological_order (λ (xs : List ℕ). xs) three) ≡ solved ns)
      × IsBehind three.nodes [] ns
      × ((y : ℕ) → member y ns ≡ member y (nodes_of three.nodes))
      × ((n : ℕ) → ¬ Reach three.nodes n n))
    ⊎ ((answer (det_topological_order (λ (xs : List ℕ). xs) three) ≡ failed)
        × (n : ℕ) × Reach three.nodes n n)
det_topological_order-IsBehind_example =
    det_topological_order-IsBehind (λ xs. xs) (λ xs y. refl) three three-Built

det_topological_order_repeats_example :
    answer (det_topological_order (λ (xs : List ℕ). xs) (add_edge 1 2 (empty_graph {T = ℕ})))
    ≡ solved (2 ∷ 1 ∷ 2 ∷ [])
unfolding number_node
det_topological_order_repeats_example =
    det_topological_order_repeats {T = ℕ} (λ xs. xs) 1 2 refl refl refl refl

implicit_node_references_lem_example :
    (member 2 (nodes_of (implicit_node_references three))
      ≡ (member 2 (nodes_of three.nodes) && not (member 2 three.added_nodes)))
    × (member 1 (edges 2 (implicit_node_references three)) ≡ (
        not (member 2 three.added_nodes)
        && (member 1 (edges 2 three.nodes) || member 2 (edges 1 three.nodes))))
implicit_node_references_lem_example = implicit_node_references_lem three 2 1 three-Built
