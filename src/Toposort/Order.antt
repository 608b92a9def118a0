-- ===== src/Toposort/Order.antt =====
-- go/algorithm/toposort/toposort.go, TopologicalOrder: the order, or a cycle.
use monogon.Prelude.{
  ℕ, zero, suc, ◌<◌, ◌≡◌, ◌⊎◌, refl, sym, ap, true, false, not, List, [], ◌∷◌, arith, Bool-cases,
  inl, inr, length,
}
use monogon.Toposort.Sets.{Comparable, member, outside, member-append, member-remove}
use monogon.Toposort.Graphs.{IsClosed, Built, IsClosed-of_Built}
use monogon.Toposort.Cycles.{
  Reach, IsOrdered, IsOrdered-append, IsBehind-of_ordered, acyclic-of_all,
}
use monogon.Toposort.Visits.{
  Outcome, Outcome-eq, Visit-cases, Ready, head-known, tail-Ready, enter-Ready, leave-Outcome,
  both-Outcome,
}
use monogon.Toposort.{
  Graph, Adjacency, Search, visited, err_cycle, out_of_fuel, nodes_of, edges, enter, leave, visit,
  start, topological_order, answer, solved, failed,
}

module _ {T : Type 0} ⦃o : Comparable T⦄ where
  pub record IsSound (m : Adjacency T) (s : Search T) : Type 0 where
    pub ordered : IsOrdered m [] s.solution
    pub marks :
        (y : T) → member y (nodes_of m) ≡ true → member y s.unmarked ≡ not (member y s.solution)
    pub inside : (y : T) → member y s.solution ≡ true → member y (nodes_of m) ≡ true
    pub pending : (y : T) → member y s.visiting ≡ true → member y s.solution ≡ false

  enter-IsSound :
      (m : Adjacency T) (s : Search T) (n : T)
      → member n (nodes_of m) ≡ true
      → member n s.unmarked ≡ true
      → IsSound m s
      → IsSound m (enter n s)
  unfolding enter
  enter-IsSound m s n known new h = record {
    ordered = h.ordered;
    marks = h.marks;
    inside = h.inside;
    pending = λ y e. elim (Bool-cases (o.eqb n y)) [
      | inl same ↦
          let f : n ≡ y = (o.eqb_iff n y).0 same in
          rw (sym f) (ground (arith, h.marks n known, new))
      | inr apart ↦ ground (arith, h.pending y, e, apart)
    ];
  }

  leave-IsSound :
      (m : Adjacency T) (t : Search T) (n : T)
      → member n (nodes_of m) ≡ true
      → member n t.visiting ≡ true
      → ((b : T) → member b (edges n m) ≡ true → member b t.solution ≡ true)
      → IsSound m t
      → IsSound m (leave n t)
  unfolding leave
  leave-IsSound m t n known here deps h = record {
    ordered =
        IsOrdered-append m [] t.solution n h.ordered refl (h.pending n here)
          (λ b e. ground (arith, deps b e));
    marks = λ y k.
        ground
          (arith, h.marks y k, member-remove y n t.unmarked, member-append y t.solution (n ∷ []));
    inside = λ y e. elim (Bool-cases (o.eqb n y)) [
      | inl same ↦ let f : n ≡ y = (o.eqb_iff n y).0 same in rw (sym f) known
      | inr apart ↦ ground (arith, h.inside y, e, apart, member-append y t.solution (n ∷ []))
    ];
    pending = λ y e.
        ground (
          arith,
          e,
          h.pending y,
          member-remove y n t.visiting,
          member-append y t.solution (n ∷ []),
        );
  }

  -- A node with a mark is in the solution already.
  skip-Outcome :
      (m : Adjacency T) (fuel : ℕ) (s : Search T) (n : T) (ns : List T)
      → member n s.unmarked ≡ false
      → Ready IsSound m fuel s (n ∷ ns)
      → Outcome IsSound m s (n ∷ []) (visited s)
  skip-Outcome m fuel s n ns marked r =
      let known = head-known IsSound m fuel s n ns r in
      (
        r.sound,
        (λ y. refl),
        (λ y e. e),
        (λ y e.
            let same : o.eqb n y ≡ true = ground (arith, e) in
            let f : n ≡ y = (o.eqb_iff n y).0 same in
            rw (sym f) (ground (arith, r.sound.marks n known, marked))),
      )

  left-IsSound :
      (m : Adjacency T) (fuel : ℕ) (s t : Search T) (n : T) (ns : List T)
      → Ready IsSound m (suc fuel) s (n ∷ ns)
      → Outcome IsSound m (enter n s) (edges n m) (visited t)
      → IsSound m (leave n t)
  unfolding enter
  left-IsSound m fuel s t n ns r (sound, same, more, all) =
      let here : member n t.visiting ≡ true = ground (arith, same n, o.eqb_iff n n) in
      leave-IsSound m t n (head-known IsSound m (suc fuel) s n ns r) here all sound

  visit-Outcome :
      (fuel : ℕ) (m : Adjacency T) (ns : List T) (s : Search T)
      → IsClosed m
      → Ready IsSound m fuel s ns
      → Outcome IsSound m s ns (visit fuel m ns s)
  unfolding visit
  visit-Outcome fuel m [] s closed r =
      (r.sound, (λ y. refl), (λ y e. e), (λ y e. absurd (ground (arith, e))))
  visit-Outcome zero m (n ∷ ns) s closed r = absurd (ground (arith, r.deep))
  visit-Outcome (suc fuel) m (n ∷ ns) s closed r = elim (Bool-cases (member n s.unmarked)) [
    | inr marked ↦
        Outcome-eq IsSound m s (n ∷ ns) (visit (suc fuel) m ns s) (visit (suc fuel) m (n ∷ ns) s)
          (ground (arith, marked))
          (both-Outcome IsSound m s s n ns (visit (suc fuel) m ns s)
            (skip-Outcome m (suc fuel) s n ns marked r)
            (visit-Outcome (suc fuel) m ns s closed (tail-Ready IsSound m (suc fuel) s n ns r)))
    | inl new ↦ elim (Bool-cases (member n s.visiting)) [
      | inl on ↦
          Outcome-eq IsSound m s (n ∷ ns) err_cycle (visit (suc fuel) m (n ∷ ns) s)
            (ground (arith, new, on)) (n, r.leads n n on (ground (arith, o.eqb_iff n n)))
      | inr off ↦
          let below = visit-Outcome fuel m (edges n m) (enter n s) closed (
            enter-Ready IsSound m fuel s n ns closed off
              (enter-IsSound m s n (head-known IsSound m (suc fuel) s n ns r) new r.sound) r) in
          elim (Visit-cases (visit fuel m (edges n m) (enter n s))) [
            | inl (t, e) ↦
                let done =
                  (Outcome-eq IsSound m (enter n s) (edges n m)
                    (visit fuel m (edges n m) (enter n s)) (visited t) (sym e) below) in
                let (ready, one) =
                  leave-Outcome IsSound m fuel s t n ns off r (left-IsSound m fuel s t n ns r done)
                    done in
                Outcome-eq IsSound m s (n ∷ ns) (visit (suc fuel) m ns (leave n t))
                  (visit (suc fuel) m (n ∷ ns) s) (ground (arith, new, off, e))
                  (both-Outcome IsSound m s (leave n t) n ns (visit (suc fuel) m ns (leave n t)) one
                    (visit-Outcome (suc fuel) m ns (leave n t) closed ready))
            | inr (inl e) ↦
                Outcome-eq IsSound m s (n ∷ ns) err_cycle (visit (suc fuel) m (n ∷ ns) s)
                  (ground (arith, new, off, e))
                  (Outcome-eq IsSound m (enter n s) (edges n m)
                    (visit fuel m (edges n m) (enter n s)) err_cycle (sym e) below)
            | inr (inr e) ↦ absurd (
                Outcome-eq IsSound m (enter n s) (edges n m) (visit fuel m (edges n m) (enter n s))
                  out_of_fuel (sym e) below tt)
          ]
    ]
  ]

  pub outside-length : (xs : List T) → outside [] xs < suc (length xs)
  outside-length [] = omega arith
  outside-length (x ∷ xs) = ground (arith, outside-length xs)

  start-Ready :
      (m : Adjacency T) → Ready IsSound m (suc (length (nodes_of m))) (start m) (nodes_of m)
  start-Ready m = record {
    sound = record {
      ordered = tt;
      marks = λ y e. ground (arith, e);
      inside = λ y e. absurd (ground (arith, e));
      pending = λ y e. absurd (ground (arith, e));
    };
    known = λ x e. e;
    leads = λ y x on e. absurd (ground (arith, on));
    deep = outside-length (nodes_of m);
  }

  -- For a graph that AddNode and AddEdge made, TopologicalOrder either returns all its nodes, each
  -- once and behind the nodes its edges lead to, and then the graph has no cycle; or it returns
  -- ErrCycle, and then it has one.
  pub topological_order-IsOrdered :
      (g : Graph T)
      → Built g
      → ((ns : List T) × (answer (topological_order g) ≡ solved ns)
          × IsOrdered g.nodes [] ns
          × ((y : T) → member y ns ≡ member y (nodes_of g.nodes))
          × ((n : T) → ¬ Reach g.nodes n n))
        ⊎ ((answer (topological_order g) ≡ failed) × (n : T) × Reach g.nodes n n)
  unfolding topological_order
  topological_order-IsOrdered g built =
      let m = g.nodes in
      let closed = IsClosed-of_Built g built in
      let r = visit (suc (length (nodes_of m))) m (nodes_of m) (start m) in
      let below =
        visit-Outcome (suc (length (nodes_of m))) m (nodes_of m) (start m) closed (start-Ready m) in
      elim (Visit-cases r) [
        | inl (t, e) ↦
            let (sound, _, _, all) =
              Outcome-eq IsSound m (start m) (nodes_of m) r (visited t) (sym e) below in
            let same : (y : T) → member y t.solution ≡ member y (nodes_of m) =
              λ y. ground (arith, all y, sound.inside y) in
            inl (
              t.solution,
              ap answer e,
              sound.ordered,
              same,
              (λ n c.
                  acyclic-of_all m t.solution closed
                    (IsBehind-of_ordered m [] t.solution sound.ordered) (λ y k. all y k) n c),
            )
        | inr (inl e) ↦
            let (n, c) = Outcome-eq IsSound m (start m) (nodes_of m) r err_cycle (sym e) below in
            inr (ap answer e, n, c)
        | inr (inr e) ↦
            absurd (Outcome-eq IsSound m (start m) (nodes_of m) r out_of_fuel (sym e) below tt)
      ]
