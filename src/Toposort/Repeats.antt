-- ===== src/Toposort/Repeats.antt =====
-- go/algorithm/toposort/toposort.go, DetTopologicalOrder: the order it gives, and its repetitions.
use monogon.Prelude.{
  ℕ, zero, suc, ◌≡◌, ◌⊎◌, refl, sym, ap, true, false, not, List, [], ◌∷◌, arith, Bool-cases, inl,
  inr, length,
}
use monogon.Toposort.Sets.{Comparable, member, filter, member-append, member-remove, member-filter}
use monogon.Toposort.Graphs.{IsClosed, Built, IsClosed-of_Built}
use monogon.Toposort.Cycles.{Reach, IsBehind, IsBehind-append, acyclic-of_all}
use monogon.Toposort.Visits.{
  Outcome, Outcome-eq, Visit-cases, Ready, head-known, enter-Ready, leave-Outcome, both-Outcome,
}
use monogon.Toposort.Order.{outside-length}
use monogon.Toposort.{
  Graph, Adjacency, Search, Visit, visited, err_cycle, out_of_fuel, nodes_of, edges, enter, leave,
  start, answer, solved, failed, sorted_order, visit_sorted, det_topological_order, add_edge,
  empty_graph, insert, insert_edge, add_node_implicit,
}

module _ {T : Type 0} ⦃o : Comparable T⦄ where
  record IsCovered (m : Adjacency T) (s : Search T) : Type 0 where
    behind : IsBehind m [] s.solution
    marks : (y : T) → member y (nodes_of m) ≡ true → member y s.unmarked ≡ not (member y s.solution)
    inside : (y : T) → member y s.solution ≡ true → member y (nodes_of m) ≡ true

  enter-IsCovered :
      (m : Adjacency T) (s : Search T) (n : T) → IsCovered m s → IsCovered m (enter n s)
  unfolding enter
  enter-IsCovered m s n h = record { behind = h.behind; marks = h.marks; inside = h.inside }

  leave-IsCovered :
      (m : Adjacency T) (t : Search T) (n : T)
      → member n (nodes_of m) ≡ true
      → ((b : T) → member b (edges n m) ≡ true → member b t.solution ≡ true)
      → IsCovered m t
      → IsCovered m (leave n t)
  unfolding leave
  leave-IsCovered m t n known deps h = record {
    behind = IsBehind-append m [] t.solution n h.behind (λ b e. ground (arith, deps b e));
    marks = λ y k.
        ground
          (arith, h.marks y k, member-remove y n t.unmarked, member-append y t.solution (n ∷ []));
    inside = λ y e. elim (Bool-cases (o.eqb n y)) [
      | inl same ↦ let f : n ≡ y = (o.eqb_iff n y).0 same in rw (sym f) known
      | inr apart ↦ ground (arith, h.inside y, e, apart, member-append y t.solution (n ∷ []))
    ];
  }

  module _ (sort_func : List T → List T)
      (same : (xs : List T) (y : T) → member y (sort_func xs) ≡ member y xs) where
    member-sorted_order :
        (ns : List T) (s : Search T) (y : T)
        → (member y (sorted_order sort_func ns s) ≡ true → member y ns ≡ true)
          × (member y ns ≡ true
              → member y s.unmarked ≡ true
              → member y (sorted_order sort_func ns s) ≡ true)
    unfolding sorted_order
    member-sorted_order ns s y =
        let p = λ (n : T). member n s.unmarked in
        (
          (λ h. ground (arith, h, same (filter p ns) y, member-filter p y ns)),
          (λ h k. ground (arith, h, k, same (filter p ns) y, member-filter p y ns)),
        )

    -- The nodes that the first loop drops are in the solution.
    sorted-Ready :
        (m : Adjacency T) (fuel : ℕ) (s : Search T) (ns : List T)
        → Ready IsCovered m fuel s ns
        → Ready IsCovered m fuel s (sorted_order sort_func ns s)
    sorted-Ready m fuel s ns r = record {
      sound = r.sound;
      known = λ x e. r.known x ((member-sorted_order ns s x).0 e);
      leads = λ y x on e. r.leads y x on ((member-sorted_order ns s x).0 e);
      deep = r.deep;
    }

    sorted-Outcome :
        (m : Adjacency T) (fuel : ℕ) (s : Search T) (ns : List T) (r : Visit T)
        → Ready IsCovered m fuel s ns
        → Outcome IsCovered m s (sorted_order sort_func ns s) r
        → Outcome IsCovered m s ns r
    sorted-Outcome m fuel s ns (visited t) ready (sound, stack, more, all) = (
      sound,
      stack,
      more,
      (λ y e. elim (Bool-cases (member y s.unmarked)) [
        | inl new ↦ all y ((member-sorted_order ns s y).1 e new)
        | inr marked ↦ more y (ground (arith, ready.sound.marks y (ready.known y e), marked))
      ]),
    )
    sorted-Outcome m fuel s ns err_cycle ready h = h
    sorted-Outcome m fuel s ns out_of_fuel ready h = h

    left-IsCovered :
        (m : Adjacency T) (fuel : ℕ) (s t : Search T) (n : T) (ns : List T)
        → Ready IsCovered m (suc fuel) s (n ∷ ns)
        → Outcome IsCovered m (enter n s) (edges n m) (visited t)
        → IsCovered m (leave n t)
    left-IsCovered m fuel s t n ns r (sound, _, _, all) =
        leave-IsCovered m t n (head-known IsCovered m (suc fuel) s n ns r) all sound

    visit_sorted-Outcome :
        (fuel : ℕ) (m : Adjacency T) (ns : List T) (s : Search T)
        → IsClosed m
        → Ready IsCovered m fuel s ns
        → Outcome IsCovered m s ns (visit_sorted sort_func fuel m ns s)
    unfolding visit_sorted
    visit_sorted-Outcome fuel m [] s closed r =
        (r.sound, (λ y. refl), (λ y e. e), (λ y e. absurd (ground (arith, e))))
    visit_sorted-Outcome zero m (n ∷ ns) s closed r = absurd (ground (arith, r.deep))
    visit_sorted-Outcome (suc fuel) m (n ∷ ns) s closed r =
        let whole = visit_sorted sort_func (suc fuel) m (n ∷ ns) s in
        elim (Bool-cases (member n s.visiting)) [
          | inl on ↦
              Outcome-eq IsCovered m s (n ∷ ns) err_cycle whole (ground (arith, on))
                (n, r.leads n n on (ground (arith, o.eqb_iff n n)))
          | inr off ↦
              let first = sorted_order sort_func (edges n m) (enter n s) in
              let entered =
                enter-Ready IsCovered m fuel s n ns closed off (enter-IsCovered m s n r.sound) r in
              let v = visit_sorted sort_func fuel m first (enter n s) in
              let below = sorted-Outcome m fuel (enter n s) (edges n m) v entered (
                visit_sorted-Outcome fuel m first (enter n s) closed
                  (sorted-Ready m fuel (enter n s) (edges n m) entered)) in
              elim (Visit-cases v) [
                | inl (t, e) ↦
                    let done =
                      Outcome-eq IsCovered m (enter n s) (edges n m) v (visited t) (sym e) below in
                    let (ready, one) =
                      leave-Outcome IsCovered m fuel s t n ns off r
                        (left-IsCovered m fuel s t n ns r done) done in
                    let rest = visit_sorted sort_func (suc fuel) m ns (leave n t) in
                    Outcome-eq IsCovered m s (n ∷ ns) rest whole (ground (arith, off, e)) (
                      both-Outcome IsCovered m s (leave n t) n ns rest one
                        (visit_sorted-Outcome (suc fuel) m ns (leave n t) closed ready))
                | inr (inl e) ↦
                    Outcome-eq IsCovered m s (n ∷ ns) err_cycle whole (ground (arith, off, e))
                      (Outcome-eq IsCovered m (enter n s) (edges n m) v err_cycle (sym e) below)
                | inr (inr e) ↦
                    absurd (
                      Outcome-eq IsCovered m (enter n s) (edges n m) v out_of_fuel (sym e) below tt)
              ]
        ]

    start-Ready :
        (m : Adjacency T) → Ready IsCovered m (suc (length (nodes_of m))) (start m) (nodes_of m)
    start-Ready m = record {
      sound = record {
        behind = tt;
        marks = λ y e. ground (arith, e);
        inside = λ y e. absurd (ground (arith, e));
      };
      known = λ x e. e;
      leads = λ y x on e. absurd (ground (arith, on));
      deep = outside-length (nodes_of m);
    }

    -- For a graph that AddNode and AddEdge made, DetTopologicalOrder, with a sort that keeps the
    -- members, either returns all its nodes, each behind the nodes its edges lead to, and then the
    -- graph has no cycle; or it returns ErrCycle, and then it has one.
    pub det_topological_order-IsBehind :
        (g : Graph T)
        → Built g
        → ((ns : List T) × (answer (det_topological_order sort_func g) ≡ solved ns)
            × IsBehind g.nodes [] ns
            × ((y : T) → member y ns ≡ member y (nodes_of g.nodes))
            × ((n : T) → ¬ Reach g.nodes n n))
          ⊎ ((answer (det_topological_order sort_func g) ≡ failed) × (n : T) × Reach g.nodes n n)
    unfolding det_topological_order
    det_topological_order-IsBehind g built =
        let m = g.nodes in
        let closed = IsClosed-of_Built g built in
        let fuel = suc (length (nodes_of m)) in
        let first = sorted_order sort_func (nodes_of m) (start m) in
        let r = visit_sorted sort_func fuel m first (start m) in
        let below = sorted-Outcome m fuel (start m) (nodes_of m) r (start-Ready m) (
          visit_sorted-Outcome fuel m first (start m) closed
            (sorted-Ready m fuel (start m) (nodes_of m) (start-Ready m))) in
        elim (Visit-cases r) [
          | inl (t, e) ↦
              let (sound, _, _, all) =
                Outcome-eq IsCovered m (start m) (nodes_of m) r (visited t) (sym e) below in
              let equal : (y : T) → member y t.solution ≡ member y (nodes_of m) =
                λ y. ground (arith, all y, sound.inside y) in
              inl (
                t.solution,
                ap answer e,
                sound.behind,
                equal,
                (λ n c. acyclic-of_all m t.solution closed sound.behind (λ y k. all y k) n c),
              )
          | inr (inl e) ↦
              let (n, c) =
                Outcome-eq IsCovered m (start m) (nodes_of m) r err_cycle (sym e) below in
              inr (ap answer e, n, c)
          | inr (inr e) ↦
              absurd (Outcome-eq IsCovered m (start m) (nodes_of m) r out_of_fuel (sym e) below tt)
        ]

  -- With an edge between two nodes and a sort that puts its start first, DetTopologicalOrder
  -- returns the end of the edge twice.
  pub det_topological_order_repeats :
      (sort_func : List T → List T) (a b : T)
      → o.eqb a b ≡ false
      → sort_func (a ∷ b ∷ []) ≡ a ∷ b ∷ []
      → sort_func (b ∷ []) ≡ b ∷ []
      → sort_func [] ≡ []
      → answer (det_topological_order sort_func (add_edge a b empty_graph))
        ≡ solved (b ∷ a ∷ b ∷ [])
  unfolding det_topological_order sorted_order visit_sorted add_edge insert_edge add_node_implicit
      insert edges enter leave
  det_topological_order_repeats sort_func a b apart two one none =
      let aa : o.eqb a a ≡ true = (o.eqb_iff a a).1 refl in
      let bb : o.eqb b b ≡ true = (o.eqb_iff b b).1 refl in
      let ba : o.eqb b a ≡ false = ground (arith, apart, o.eqb_iff a b, o.eqb_iff b a) in
      ground (arith, apart, aa, bb, ba, two, one, none)
