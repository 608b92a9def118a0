-- ===== src/Toposort/Graphs.antt =====
-- go/algorithm/toposort/toposort.go: what AddNode and AddEdge do to a graph.
use monogon.Prelude.{◌≡◌, refl, true, ◌||◌, ◌&&◌, List, [], ◌∷◌, ◌++◌, arith, ap, sym}
use monogon.Toposort.Sets.{Comparable, member, member-append}
use monogon.Toposort.{
  Graph, Adjacency, nodes_of, empty_graph, insert, edges, add_node_implicit, insert_edge, add_node,
  add_edge,
}

module _ {T : Type 0} ⦃o : Comparable T⦄ where
  -- Each edge leads to a node of the graph.
  abbrev pub IsClosed : Adjacency T → Type 0
  IsClosed m = (a b : T) → member b (edges a m) ≡ true → member b (nodes_of m) ≡ true

  member-insert : (x y : T) (xs : List T) → member y (insert x xs) ≡ (member y xs || o.eqb x y)
  unfolding insert
  member-insert x y xs = ground (arith, member-append y xs (x ∷ []), o.eqb_iff x y)

  pub nodes_of-append :
      (m : Adjacency T) (p : T × List T) → nodes_of (m ++ p ∷ []) ≡ nodes_of m ++ p.0 ∷ []
  nodes_of-append [] p = refl
  nodes_of-append (q ∷ m) p = ap (◌∷◌ q.0) (nodes_of-append m p)

  member-cast : (n y : T) (xs : List T) → member n xs ≡ true → o.eqb n y ≡ true → member y xs ≡ true
  member-cast n y xs h e = let f : n ≡ y = (o.eqb_iff n y).0 e in rw (sym f) h

  edges-append : (n a : T) (m : Adjacency T) → edges a (m ++ (n, []) ∷ []) ≡ edges a m
  unfolding edges
  edges-append n a [] = ground arith
  edges-append n a ((k, out) ∷ m) = ground (arith, edges-append n a m)

  pub member-add_node_implicit :
      (n y : T) (m : Adjacency T)
      → member y (nodes_of (add_node_implicit n m)) ≡ (member y (nodes_of m) || o.eqb n y)
  unfolding add_node_implicit
  member-add_node_implicit n y m = ground (
    arith,
    nodes_of-append m (n, []),
    member-append y (nodes_of m) (n ∷ []),
    member-cast n y (nodes_of m),
  )

  pub edges-add_node_implicit :
      (n a : T) (m : Adjacency T) → edges a (add_node_implicit n m) ≡ edges a m
  unfolding add_node_implicit
  edges-add_node_implicit n a m = ground (arith, edges-append n a m)

  pub nodes_of-insert_edge :
      (from to : T) (m : Adjacency T) → nodes_of (insert_edge from to m) ≡ nodes_of m
  unfolding insert_edge
  nodes_of-insert_edge from to [] = refl
  nodes_of-insert_edge from to ((k, out) ∷ m) = ground (arith, nodes_of-insert_edge from to m)

  pub member-edges-insert_edge :
      (from to a b : T) (m : Adjacency T)
      → member b (edges a (insert_edge from to m))
        ≡ (member b (edges a m) || (o.eqb from a && o.eqb to b && member from (nodes_of m)))
  unfolding insert_edge edges
  member-edges-insert_edge from to a b [] = ground arith
  member-edges-insert_edge from to a b ((k, out) ∷ m) = ground (
    arith,
    member-edges-insert_edge from to a b m,
    member-insert to b out,
    o.eqb_iff k from,
    o.eqb_iff k a,
    o.eqb_iff from a,
  )

  -- AddEdge adds both nodes and this edge, and nothing else.
  pub add_edge_lem :
      (from to a b : T) (g : Graph T)
      → (member b (edges a (add_edge from to g).nodes)
          ≡ (member b (edges a g.nodes) || (o.eqb from a && o.eqb to b)))
        × (member b (nodes_of (add_edge from to g).nodes)
            ≡ (member b (nodes_of g.nodes) || o.eqb from b || o.eqb to b))
  unfolding add_edge
  add_edge_lem from to a b g =
      let m = add_node_implicit from g.nodes in
      let t = add_node_implicit to m in
      ground (
        arith,
        member-edges-insert_edge from to a b t,
        edges-add_node_implicit to a m,
        edges-add_node_implicit from a g.nodes,
        nodes_of-insert_edge from to t,
        member-add_node_implicit to from m,
        member-add_node_implicit from from g.nodes,
        member-add_node_implicit to b m,
        member-add_node_implicit from b g.nodes,
        o.eqb_iff from from,
      )

  add_node_lem :
      (n a b : T) (g : Graph T)
      → (member b (edges a (add_node n g).nodes) ≡ member b (edges a g.nodes))
        × (member b (nodes_of (add_node n g).nodes) ≡ (member b (nodes_of g.nodes) || o.eqb n b))
  unfolding add_node
  add_node_lem n a b g =
      ground (arith, edges-add_node_implicit n a g.nodes, member-add_node_implicit n b g.nodes)

  empty_graph-IsClosed : IsClosed (empty_graph {T = T}).nodes
  unfolding edges
  empty_graph-IsClosed a b h = absurd (ground (arith, h))

  add_node-IsClosed : (n : T) (g : Graph T) → IsClosed g.nodes → IsClosed (add_node n g).nodes
  add_node-IsClosed n g c a b h = ground (arith, add_node_lem n a b g, c a b, h)

  add_edge-IsClosed :
      (from to : T) (g : Graph T) → IsClosed g.nodes → IsClosed (add_edge from to g).nodes
  add_edge-IsClosed from to g c a b h = ground (arith, add_edge_lem from to a b g, c a b, h)

  -- The graphs that calls of AddNode and AddEdge make.
  pub data Built : Graph T → Type 0 where
    built_empty : Built empty_graph
    built_node : (n : T) (g : Graph T) → Built g → Built (add_node n g)
    built_edge : (from to : T) (g : Graph T) → Built g → Built (add_edge from to g)

  pub IsClosed-of_Built : (g : Graph T) → Built g → IsClosed g.nodes
  IsClosed-of_Built g built_empty = empty_graph-IsClosed
  IsClosed-of_Built g (built_node n h b) = add_node-IsClosed n h (IsClosed-of_Built h b)
  IsClosed-of_Built g (built_edge f t h b) = add_edge-IsClosed f t h (IsClosed-of_Built h b)
