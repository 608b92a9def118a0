-- ===== src/Toposort/References.antt =====
-- go/algorithm/toposort/toposort.go, ImplicitNodeReferences: what it reports of a graph.
use monogon.Prelude.{
  ◌≡◌, refl, sym, Bool, true, false, not, ◌&&◌, ◌||◌, List, [], ◌∷◌, ◌++◌, arith, Bool-cases, inl,
  inr, if◌then◌else◌,
}
use monogon.Toposort.Sets.{Comparable, member, member-append}
use monogon.Toposort.Graphs.{
  Built, built_empty, built_node, built_edge, IsClosed-of_Built, nodes_of-append,
  member-add_node_implicit, edges-add_node_implicit, nodes_of-insert_edge, member-edges-insert_edge,
}
use monogon.Toposort.{
  Graph, Adjacency, nodes_of, edges, add_node_implicit, add_node, add_edge, add_reference, outgoing,
  incoming, collect_references, implicit_node_references,
}

module _ {T : Type 0} ⦃o : Comparable T⦄ where
  -- The keys of a Go map are distinct.
  abbrev pub IsDistinct : List T → Type 0
  IsDistinct [] = Unit {0}
  IsDistinct (x ∷ xs) = (member x xs ≡ false) × IsDistinct xs

  IsDistinct-append :
      (xs : List T) (x : T) → member x xs ≡ false → IsDistinct xs → IsDistinct (xs ++ x ∷ [])
  IsDistinct-append [] x new d = (refl, tt)
  IsDistinct-append (y ∷ ys) x new (a, b) = (
    ground (arith, member-append y ys (x ∷ []), a, new, o.eqb_iff x y, o.eqb_iff y x),
    IsDistinct-append ys x (ground (arith, new)) b,
  )

  add_node_implicit-IsDistinct :
      (n : T) (m : Adjacency T)
      → IsDistinct (nodes_of m)
      → IsDistinct (nodes_of (add_node_implicit n m))
  unfolding add_node_implicit
  add_node_implicit-IsDistinct n m d = elim (Bool-cases (member n (nodes_of m))) [
    | inl there ↦ rw there d
    | inr new ↦ rw (new, nodes_of-append m (n, [])) (IsDistinct-append (nodes_of m) n new d)
  ]

  IsDistinct-of_Built : (g : Graph T) → Built g → IsDistinct (nodes_of g.nodes)
  unfolding add_node add_edge
  IsDistinct-of_Built g built_empty = tt
  IsDistinct-of_Built g (built_node n h b) =
      add_node_implicit-IsDistinct n h.nodes (IsDistinct-of_Built h b)
  IsDistinct-of_Built g (built_edge f t h b) =
      let m = add_node_implicit f h.nodes in
      rw (nodes_of-insert_edge f t (add_node_implicit t m)) (
        add_node_implicit-IsDistinct t m
          (add_node_implicit-IsDistinct f h.nodes (IsDistinct-of_Built h b)))

  add_reference_lem :
      (n e a b : T) (out : Adjacency T)
      → (member b (edges a (add_reference n e out))
          ≡ (member b (edges a out) || (o.eqb n a && o.eqb e b)))
        × (member a (nodes_of (add_reference n e out)) ≡ (member a (nodes_of out) || o.eqb n a))
  unfolding add_reference
  add_reference_lem n e a b out = ground (
    arith,
    member-edges-insert_edge n e a b (add_node_implicit n out),
    edges-add_node_implicit n a out,
    nodes_of-insert_edge n e (add_node_implicit n out),
    member-add_node_implicit n n out,
    member-add_node_implicit n a out,
    o.eqb_iff n n,
  )

  outgoing_lem :
      (n : T) (es : List T) (a b : T) (out : Adjacency T)
      → member n (nodes_of out) ≡ true
      → (member b (edges a (outgoing n es out))
          ≡ (member b (edges a out) || (o.eqb n a && member b es)))
        × (member a (nodes_of (outgoing n es out)) ≡ member a (nodes_of out))
  unfolding outgoing
  outgoing_lem n [] a b out here = ground arith
  outgoing_lem n (e ∷ es) a b out here = ground (
    arith,
    outgoing_lem n es a b (add_reference n e out)
        (ground (arith, add_reference_lem n e n b out, here)),
    add_reference_lem n e a b out,
    o.eqb_iff n a,
    here,
  )

  incoming_lem :
      (added : List T) (n : T) (es : List T) (a b : T) (out : Adjacency T)
      → (member b (edges a (incoming added n es out))
          ≡ (member b (edges a out) || (not (member a added) && (o.eqb n b && member a es))))
        × (member a (nodes_of (incoming added n es out))
            ≡ (member a (nodes_of out) || (not (member a added) && member a es)))
  unfolding incoming
  incoming_lem added n [] a b out = ground arith
  incoming_lem added n (e ∷ es) a b out =
      let next = if member e added then out else add_reference e n out in
      let ih = incoming_lem added n es a b next in
      elim (Bool-cases (o.eqb e a)) [
        | inl same ↦
            let f : e ≡ a = (o.eqb_iff e a).0 same in
            let g : member e added ≡ member a added = rw f in
            ground (arith, ih, add_reference_lem e n a b out, same, g)
        | inr apart ↦ ground (arith, ih, add_reference_lem e n a b out, apart)
      ]

  abbrev mentions : T → Adjacency T → Bool
  mentions a [] = false
  mentions a ((n, es) ∷ m) = member a es || mentions a m

  edges-gone : (n : T) (m : Adjacency T) → member n (nodes_of m) ≡ false → edges n m ≡ []
  unfolding edges
  edges-gone n [] h = refl
  edges-gone n ((k, es) ∷ m) h = ground (arith, h, edges-gone n m)

  abbrev own : List T → T → List T → Adjacency T → Adjacency T
  own added n es out = if member n added then out else outgoing n es (add_node_implicit n out)

  own_lem :
      (added : List T) (n : T) (es : List T) (a b : T) (out : Adjacency T)
      → (member b (edges a (own added n es out))
          ≡ (member b (edges a out) || (not (member a added) && (o.eqb n a && member b es))))
        × (member a (nodes_of (own added n es out))
            ≡ (member a (nodes_of out) || (not (member a added) && o.eqb n a)))
  own_lem added n es a b out =
      let first = add_node_implicit n out in
      let here : member n (nodes_of first) ≡ true =
        ground (arith, member-add_node_implicit n n out, o.eqb_iff n n) in
      let facts = outgoing_lem n es a b first here in
      elim (Bool-cases (o.eqb n a)) [
        | inl same ↦
            let f : n ≡ a = (o.eqb_iff n a).0 same in
            let g : member n added ≡ member a added = rw f in
            ground (
              arith,
              facts,
              member-add_node_implicit n a out,
              edges-add_node_implicit n a out,
              same,
              g,
            )
        | inr apart ↦
            ground (
              arith,
              facts,
              member-add_node_implicit n a out,
              edges-add_node_implicit n a out,
              apart,
            )
      ]

  collect_references_lem :
      (added : List T) (m : Adjacency T) (a b : T) (out : Adjacency T)
      → IsDistinct (nodes_of m)
      → (member b (edges a (collect_references added m out)) ≡ (
          member b (edges a out)
          || (not (member a added) && (member b (edges a m) || member a (edges b m)))))
        × (member a (nodes_of (collect_references added m out)) ≡ (
            member a (nodes_of out)
            || (not (member a added) && (member a (nodes_of m) || mentions a m))))
  unfolding collect_references edges
  collect_references_lem added [] a b out d = ground arith
  collect_references_lem added ((n, es) ∷ m) a b out (new, d) =
      let first = own added n es out in
      let gone : edges n m ≡ [] = edges-gone n m new in
      let gone_a : o.eqb n a ≡ true → edges a m ≡ [] =
        λ e. let f : n ≡ a = (o.eqb_iff n a).0 e in rw (sym f) gone in
      let gone_b : o.eqb n b ≡ true → edges b m ≡ [] =
        λ e. let f : n ≡ b = (o.eqb_iff n b).0 e in rw (sym f) gone in
      ground (
        arith,
        collect_references_lem added m a b (incoming added n es first) d,
        incoming_lem added n es a b first,
        own_lem added n es a b out,
        gone_a,
        gone_b,
      )

  mentions-edges :
      (a : T) (m : Adjacency T)
      → IsDistinct (nodes_of m)
      → mentions a m ≡ true
      → (n : T) × (member a (edges n m) ≡ true)
  unfolding edges
  mentions-edges a [] d h = absurd (ground (arith, h))
  mentions-edges a ((k, es) ∷ m) (new, d) h = elim (Bool-cases (member a es)) [
    | inl here ↦ (k, ground (arith, here, o.eqb_iff k k))
    | inr not_here ↦
        let (n, e) = mentions-edges a m d (ground (arith, h, not_here)) in
        (
          n,
          elim (Bool-cases (o.eqb k n)) [
            | inl same ↦
                let f : k ≡ n = (o.eqb_iff k n).0 same in
                let gone : edges n m ≡ [] = rw (sym f) (edges-gone k m new) in
                absurd (ground (arith, gone, e))
            | inr apart ↦ ground (arith, apart, e)
          ],
        )
  ]

  -- For a graph that AddNode and AddEdge made, ImplicitNodeReferences reports the nodes without an
  -- AddNode, each with the ends and the starts of its edges, and nothing else.
  pub implicit_node_references_lem :
      (g : Graph T) (a b : T)
      → Built g
      → (member a (nodes_of (implicit_node_references g))
          ≡ (member a (nodes_of g.nodes) && not (member a g.added_nodes)))
        × (member b (edges a (implicit_node_references g)) ≡ (
            not (member a g.added_nodes)
            && (member b (edges a g.nodes) || member a (edges b g.nodes))))
  unfolding implicit_node_references edges
  implicit_node_references_lem g a b built =
      let d = IsDistinct-of_Built g built in
      let known : mentions a g.nodes ≡ true → member a (nodes_of g.nodes) ≡ true =
        λ h. let (n, e) = mentions-edges a g.nodes d h in IsClosed-of_Built g built n a e in
      ground (arith, collect_references_lem g.added_nodes g.nodes a b [] d, known)
