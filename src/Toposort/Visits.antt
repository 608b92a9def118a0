-- ===== src/Toposort/Visits.antt =====
-- go/algorithm/toposort/toposort.go, TopologicalOrder: what the depth-first visits leave behind.
use monogon.Prelude.{
  ℕ, suc, ◌<◌, ◌≡◌, ◌⊎◌, refl, sym, ◌∙◌, true, false, List, [], ◌∷◌, arith, Bool-cases, inl, inr,
}
use mathlib.Core.Path.{subst}
use monogon.Toposort.Sets.{
  Comparable, member, remove, outside, member-append, member-remove, outside-lt, outside-same,
}
use monogon.Toposort.Graphs.{IsClosed}
use monogon.Toposort.Cycles.{Reach, by_edge, further}
use monogon.Toposort.{
  Adjacency, Search, Visit, visited, err_cycle, out_of_fuel, nodes_of, edges, enter, leave,
}

module _ {T : Type 0} ⦃o : Comparable T⦄ where
  -- What a visit of some nodes leaves, from the stack and the solution before it.
  abbrev pub Outcome :
      (Adjacency T → Search T → Type 0) → Adjacency T → Search T → List T → Visit T → Type 0
  Outcome P m s ns (visited t) =
      P m t
      × ((y : T) → member y t.visiting ≡ member y s.visiting)
      × ((y : T) → member y s.solution ≡ true → member y t.solution ≡ true)
      × ((y : T) → member y ns ≡ true → member y t.solution ≡ true)
  Outcome P m s ns err_cycle = (n : T) × Reach m n n
  Outcome P m s ns out_of_fuel = ¬ (Unit {0})

  pub Outcome-eq :
      (P : Adjacency T → Search T → Type 0) (m : Adjacency T) (s : Search T) (ns : List T)
      (r r' : Visit T)
      → r' ≡ r
      → Outcome P m s ns r
      → Outcome P m s ns r'
  Outcome-eq P m s ns r r' e g = subst (Outcome P m s ns) (sym e) g

  pub Visit-cases :
      (r : Visit T) → ((t : Search T) × (r ≡ visited t)) ⊎ ((r ≡ err_cycle) ⊎ (r ≡ out_of_fuel))
  Visit-cases (visited t) = inl (t, refl)
  Visit-cases err_cycle = inr (inl refl)
  Visit-cases out_of_fuel = inr (inr refl)

  -- A path leads from each node on the stack to each node of the list.
  abbrev Leads : Adjacency T → Search T → List T → Type 0
  Leads m s ns = (y x : T) → member y s.visiting ≡ true → member x ns ≡ true → Reach m y x

  enter-Leads :
      (m : Adjacency T) (s : Search T) (n : T) (ns : List T)
      → Leads m s (n ∷ ns)
      → Leads m (enter n s) (edges n m)
  unfolding enter
  enter-Leads m s n ns leads y x on e = elim (Bool-cases (o.eqb n y)) [
    | inl same ↦ let f : n ≡ y = (o.eqb_iff n y).0 same in rw (sym f) (by_edge n x e)
    | inr apart ↦
        further y n x (leads y n (ground (arith, on, apart)) (ground (arith, o.eqb_iff n n))) e
  ]

  pub record Ready (P : Adjacency T → Search T → Type 0) (m : Adjacency T) (fuel : ℕ) (s : Search T)
      (ns : List T) : Type 0 where
    pub sound : P m s
    pub known : (x : T) → member x ns ≡ true → member x (nodes_of m) ≡ true
    pub leads : Leads m s ns
    pub deep : outside s.visiting (nodes_of m) < fuel

  pub head-known :
      (P : Adjacency T → Search T → Type 0) (m : Adjacency T) (fuel : ℕ) (s : Search T) (n : T)
      (ns : List T)
      → Ready P m fuel s (n ∷ ns)
      → member n (nodes_of m) ≡ true
  head-known P m fuel s n ns r = r.known n (ground (arith, o.eqb_iff n n))

  pub tail-Ready :
      (P : Adjacency T → Search T → Type 0) (m : Adjacency T) (fuel : ℕ) (s : Search T) (n : T)
      (ns : List T)
      → Ready P m fuel s (n ∷ ns)
      → Ready P m fuel s ns
  tail-Ready P m fuel s n ns r = record {
    sound = r.sound;
    known = λ x e. r.known x (ground (arith, e));
    leads = λ y x on e. r.leads y x on (ground (arith, e));
    deep = r.deep;
  }

  enter-deep :
      (m : Adjacency T) (fuel : ℕ) (s : Search T) (n : T)
      → member n (nodes_of m) ≡ true
      → member n s.visiting ≡ false
      → outside s.visiting (nodes_of m) < suc fuel
      → outside (enter n s).visiting (nodes_of m) < fuel
  unfolding enter
  enter-deep m fuel s n known off deep =
      omega (arith, outside-lt n s.visiting (nodes_of m) known off, deep)

  pub enter-Ready :
      (P : Adjacency T → Search T → Type 0) (m : Adjacency T) (fuel : ℕ) (s : Search T) (n : T)
      (ns : List T)
      → IsClosed m
      → member n s.visiting ≡ false
      → P m (enter n s)
      → Ready P m (suc fuel) s (n ∷ ns)
      → Ready P m fuel (enter n s) (edges n m)
  enter-Ready P m fuel s n ns closed off sound r = record {
    sound = sound;
    known = closed n;
    leads = enter-Leads m s n ns r.leads;
    deep = enter-deep m fuel s n (head-known P m (suc fuel) s n ns r) off r.deep;
  }

  -- What holds once the nodes below a node are visited.
  pub leave-Outcome :
      (P : Adjacency T → Search T → Type 0) (m : Adjacency T) (fuel : ℕ) (s t : Search T) (n : T)
      (ns : List T)
      → member n s.visiting ≡ false
      → Ready P m (suc fuel) s (n ∷ ns)
      → P m (leave n t)
      → Outcome P m (enter n s) (edges n m) (visited t)
      → Ready P m (suc fuel) (leave n t) ns × Outcome P m s (n ∷ []) (visited (leave n t))
  unfolding enter leave
  leave-Outcome P m fuel s t n ns off r next (sound, same, more, all) =
      let stack : (y : T) → member y (remove n t.visiting) ≡ member y s.visiting = λ y.
        elim (Bool-cases (o.eqb n y)) [
          | inl e ↦
              let f : n ≡ y = (o.eqb_iff n y).0 e in
              let gone : member y s.visiting ≡ false = rw (sym f) off in
              ground (arith, member-remove y n t.visiting, e, gone)
          | inr e ↦ ground (arith, member-remove y n t.visiting, same y, e)
        ] in
      let rest = tail-Ready P m (suc fuel) s n ns r in
      (
        record {
          sound = next;
          known = rest.known;
          leads = λ y x on e. rest.leads y x (sym (stack y) ∙ on) e;
          deep =
              ground (
                arith,
                outside-same (remove n t.visiting) s.visiting (nodes_of m) stack,
                rest.deep,
              );
        },
        (
          next,
          stack,
          (λ y e. ground (arith, member-append y t.solution (n ∷ []), more y e)),
          (λ y e. ground (arith, member-append y t.solution (n ∷ []), e)),
        ),
      )

  -- Visits one after the other.
  pub both-Outcome :
      (P : Adjacency T → Search T → Type 0) (m : Adjacency T) (s t : Search T) (n : T) (ns : List T)
      (r : Visit T)
      → Outcome P m s (n ∷ []) (visited t)
      → Outcome P m t ns r
      → Outcome P m s (n ∷ ns) r
  both-Outcome P m s t n ns (visited u) (_, same, more, all) (sound2, same2, more2, all2) = (
    sound2,
    (λ y. same2 y ∙ same y),
    (λ y e. more2 y (more y e)),
    (λ y e. elim (Bool-cases (o.eqb n y)) [
      | inl here ↦ more2 y (all y (ground (arith, here)))
      | inr apart ↦ all2 y (ground (arith, e, apart))
    ]),
  )
  both-Outcome P m s t n ns err_cycle a b = b
  both-Outcome P m s t n ns out_of_fuel a b = b
