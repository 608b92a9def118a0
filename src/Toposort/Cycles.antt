-- ===== src/Toposort/Cycles.antt =====
-- go/algorithm/toposort/toposort.go: paths along the edges, and orders that rule out cycles.
use monogon.Prelude.{◌≡◌, sym, true, false, ◌||◌, List, [], ◌∷◌, ◌++◌, arith, Bool-cases, inl, inr}
use monogon.Toposort.Sets.{Comparable, member}
use monogon.Toposort.Graphs.{IsClosed}
use monogon.Toposort.{nodes_of, Adjacency, edges}

module _ {T : Type 0} ⦃o : Comparable T⦄ where
  -- One edge or more lead from a node to another.
  pub data Reach (m : Adjacency T) : T → T → Type 0 where
    by_edge : (a b : T) → member b (edges a m) ≡ true → Reach m a b
    further : (a b c : T) → Reach m a b → member c (edges b m) ≡ true → Reach m a c

  -- Each node comes once, behind the ends of its edges.
  abbrev pub IsOrdered : Adjacency T → List T → List T → Type 0
  IsOrdered m done [] = Unit {0}
  IsOrdered m done (n ∷ ns) =
      (member n done ≡ false)
      × ((b : T) → member b (edges n m) ≡ true → member b done ≡ true)
      × IsOrdered m (n ∷ done) ns

  -- Each node comes behind the ends of its edges, perhaps again.
  abbrev pub IsBehind : Adjacency T → List T → List T → Type 0
  IsBehind m done [] = Unit {0}
  IsBehind m done (n ∷ ns) =
      ((b : T) → member b (edges n m) ≡ true → member b done ≡ true) × IsBehind m (n ∷ done) ns

  reach-member :
      (m : Adjacency T) (done : List T) (a b : T)
      → ((c d : T) → member c done ≡ true → member d (edges c m) ≡ true → member d done ≡ true)
      → ((c : T) → member c (edges a m) ≡ true → member c done ≡ true)
      → Reach m a b
      → member b done ≡ true
  reach-member m done a b closed first (by_edge x y e) = first b e
  reach-member m done a b closed first (further x y z r e) =
      closed y b (reach-member m done a y closed first r) e

  pub IsBehind-of_ordered :
      (m : Adjacency T) (done ns : List T) → IsOrdered m done ns → IsBehind m done ns
  IsBehind-of_ordered m done [] h = tt
  IsBehind-of_ordered m done (n ∷ ns) (_, first, rest) =
      (first, IsBehind-of_ordered m (n ∷ done) ns rest)

  -- An order that starts with all that its nodes need rules out cycles.
  behind_acyclic :
      (m : Adjacency T) (done ns : List T)
      → ((c d : T) → member c done ≡ true → member d (edges c m) ≡ true → member d done ≡ true)
      → ((x : T) → member x done ≡ true → ¬ Reach m x x)
      → IsBehind m done ns
      → (x : T) → member x ns ≡ true
      → ¬ Reach m x x
  behind_acyclic m done [] closed clear h = λ x inside r. absurd (ground (arith, inside))
  behind_acyclic m done (n ∷ ns) closed clear (first, rest) =
      let clear_head : ¬ Reach m n n = λ r. clear n (reach-member m done n n closed first r) r in
      λ x inside. elim (Bool-cases (o.eqb n x)) [
        | inl e ↦ let f : n ≡ x = (o.eqb_iff n x).0 e in rw (sym f) clear_head
        | inr e ↦
            behind_acyclic m (n ∷ done) ns
              (λ c d h k. elim (Bool-cases (o.eqb n c)) [
                | inl e2 ↦ let f : n ≡ c = (o.eqb_iff n c).0 e2 in ground (arith, first d (rw f k))
                | inr e2 ↦ ground (arith, closed c d, h, k, e2)
              ])
              (λ c h. elim (Bool-cases (o.eqb n c)) [
                | inl e2 ↦ let f : n ≡ c = (o.eqb_iff n c).0 e2 in rw (sym f) clear_head
                | inr e2 ↦ clear c (ground (arith, h, e2))
              ])
              rest x (ground (arith, inside, e))
      ]

  reach_known :
      (m : Adjacency T) → IsClosed m → (a b : T) → Reach m a b → member b (nodes_of m) ≡ true
  reach_known m closed a b (by_edge x y e) = closed x y e
  reach_known m closed a b (further x y z r e) = closed y z e

  pub acyclic-of_all :
      (m : Adjacency T) (ns : List T)
      → IsClosed m
      → IsBehind m [] ns
      → ((y : T) → member y (nodes_of m) ≡ true → member y ns ≡ true)
      → (n : T) → ¬ Reach m n n
  acyclic-of_all m ns closed behind all n r =
      behind_acyclic m [] ns (λ c d h. absurd (ground (arith, h)))
        (λ x h. absurd (ground (arith, h))) behind n (all n (reach_known m closed n n r)) r

  pub IsOrdered-append :
      (m : Adjacency T) (done ns : List T) (n : T)
      → IsOrdered m done ns
      → member n done ≡ false
      → member n ns ≡ false
      → ((b : T) → member b (edges n m) ≡ true → (member b done || member b ns) ≡ true)
      → IsOrdered m done (ns ++ n ∷ [])
  IsOrdered-append m done [] n h new new2 deps = (new, (λ b e. ground (arith, deps b e)), tt)
  IsOrdered-append m done (x ∷ xs) n (a, b, c) new new2 deps = (
    a,
    b,
    IsOrdered-append m (x ∷ done) xs n c (ground (arith, new, new2)) (ground (arith, new2))
        (λ y e. ground (arith, deps y e)),
  )

  pub IsBehind-append :
      (m : Adjacency T) (done ns : List T) (n : T)
      → IsBehind m done ns
      → ((b : T) → member b (edges n m) ≡ true → (member b done || member b ns) ≡ true)
      → IsBehind m done (ns ++ n ∷ [])
  IsBehind-append m done [] n h deps = ((λ b e. ground (arith, deps b e)), tt)
  IsBehind-append m done (x ∷ xs) n (b, c) deps =
      (b, IsBehind-append m (x ∷ done) xs n c (λ y e. ground (arith, deps y e)))
