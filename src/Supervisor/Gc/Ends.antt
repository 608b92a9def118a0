-- ===== src/Supervisor/Gc/Ends.antt =====
-- Phase two of the collection ends: each visit moves an entry of the queue towards the root, and
-- between two visits the queue turns at most once.
use monogon.Prelude.{
  ℕ, zero, suc, ◌+◌, ◌*◌, ◌≤◌, ◌<◌, ◌≡◌, ◌↔◌, refl, Bool, true, false, List, [], ◌∷◌, ◌++◌, none,
  some, arith, inl, inr, ◌⊎◌, Bool-cases, Option-cases, Bytes, length, get_elem?, length-append,
  bytes_eq_refl,
}
use native.Mathlib.Nat.{mul-le-mul_right}
use monogon.Supervisor.Tree.{
  Info, Node, node, Forest, nil, cons, TreePath, info_of, children_of, find, get, size,
}
use monogon.Supervisor.Gc.{Opinions, opinion, all_visited, parent_queue, verdict, visit_loop}
use monogon.Supervisor.Gc.Sets.{In, In-index, get_elem?-append}
use monogon.Supervisor.Gc.Ready.{Inv, length-split_last}
use monogon.Supervisor.Gc.Idle.{AllIdle, AllStopped-AllIdle, iff_trans}
use monogon.Supervisor.Gc.Visit.{visit_Inv, put_back_Inv, IsDue, IsDue-below, parent_queue-cases}

-- How often the entries of a queue can move up.
pub climbs : List TreePath → ℕ
climbs [] = 0
climbs (p ∷ q) = suc (length p) + climbs q

climbs-append : (q r : List TreePath) → climbs (q ++ r) ≡ climbs q + climbs r
unfolding climbs
climbs-append [] r = omega arith
climbs-append (p ∷ q) r = omega (arith, climbs-append q r)

climbs-parent_queue : (p : TreePath) (m : Opinions) → climbs (parent_queue p m) ≤ length p
unfolding climbs
climbs-parent_queue p m = elim (parent_queue-cases p m) [
  | inl empty ↦ rw empty (omega arith)
  | inr (q, self, s, one) ↦ rw one (omega (arith, length-split_last p q self s))
]

length-parent_queue : (p : TreePath) (m : Opinions) → length (parent_queue p m) ≤ 1
length-parent_queue p m = elim (parent_queue-cases p m) [
  | inl empty ↦ rw empty (omega arith)
  | inr (q, self, s, one) ↦ rw one (omega arith)
]

rank_falls :
    (now next l k' fuel : ℕ) → suc next ≤ now → k' < l → now * l ≤ fuel → next * l + k' < fuel
rank_falls now next l k' fuel a b c =
    let room : suc next * l ≤ now * l = mul-le-mul_right l a in
    let split : suc next * l ≡ next * l + l = omega arith in omega arith

-- The fuel that is enough for a queue.
pub fuel_for : List TreePath → ℕ
fuel_for q = suc (climbs q * length q + length q)

module _ (t : Node) where
  IsDue-in :
      (x : TreePath) (q : List TreePath) (m : Opinions)
      → Inv t (x ∷ q) m
      → (k : ℕ) × (w : TreePath) × (get_elem? (x ∷ q) k ≡ some w)
        × (k < length (x ∷ q))
        × IsDue t m w
  IsDue-in x q m v =
      let (n, e) = v.valid x (inl refl) in
      elim (Option-cases (opinion x m)) [
        | inr (b, old) ↦ (0, x, refl, omega arith, (n, e, v.closed x b n old e))
        | inl new ↦
            let (w, queued, due) = IsDue-below t (x ∷ q) m (size n) x n v (omega arith) e new in
            let (k, at, lt) = In-index w (x ∷ q) queued in (k, w, at, lt, due)
      ]

  -- The loop returns, with nothing left in the queue.
  abbrev Returns : ℕ → List TreePath → Opinions → Type 0
  Returns fuel q m = (m' : Opinions) × (visit_loop fuel t q m ≡ some m') × Inv t [] m'

  visit_loop-nil : (fuel : ℕ) (m : Opinions) → 0 < fuel → visit_loop fuel t [] m ≡ some m
  unfolding visit_loop
  visit_loop-nil zero m h = absurd (omega arith)
  visit_loop-nil (suc fuel) m h = refl

  resume :
      (fuel l now : ℕ) (q : List TreePath) (m : Opinions)
      → Inv t q m
      → suc (climbs q) ≤ now
      → length q ≤ l
      → now * l ≤ fuel
      → 0 < fuel
      → ((k : ℕ) (w : TreePath)
          → get_elem? q k ≡ some w
          → IsDue t m w
          → climbs q * l + k < fuel
          → Returns fuel q m)
      → Returns fuel q m
  resume fuel l now [] m v falls small enough pos go = (m, visit_loop-nil fuel m pos, v)
  resume fuel l now (x ∷ q) m v falls small enough pos go =
      let (k, w, at, lt, due) = IsDue-in x q m v in
      go k w at due (rank_falls now (climbs (x ∷ q)) l k fuel falls (omega arith) enough)

  -- What the loop with less fuel does.
  abbrev Rest : ℕ → ℕ → Type 0
  Rest fuel l =
      (k : ℕ) (q : List TreePath) (m : Opinions) (w : TreePath)
      → Inv t q m
      → get_elem? q k ≡ some w
      → IsDue t m w
      → length q ≤ l
      → climbs q * l + k < fuel
      → Returns fuel q m

  module _ (fuel l : ℕ) (rest : Rest fuel l) (p : TreePath) (q : List TreePath) (m : Opinions)
      (i : Info) (f : Forest) (v : Inv t (p ∷ q) m) (e : get p t ≡ some (node i f))
      (small : length (p ∷ q) ≤ l) where
    visit_turn :
        (k : ℕ)
        → all_visited m p f ≡ true
        → climbs (p ∷ q) * l + k < suc fuel
        → Returns (suc fuel) (p ∷ q) m
    unfolding visit_loop climbs
    visit_turn k all enough =
        let m' = (p, verdict m p (node i f)) ∷ m in
        let q' = q ++ parent_queue p m' in
        let up = climbs-parent_queue p m' in
        let one = length-parent_queue p m' in
        let some_rank = mul-le-mul_right {m = 1} {n = climbs (p ∷ q)} l (omega arith) in
        let short : length q' ≤ l = omega (arith, length-append q (parent_queue p m')) in
        let kept = visit_Inv t q m p i f v e all in
        let (r, runs, done) =
          resume fuel l (climbs (p ∷ q)) q' m' kept
            (omega (arith, climbs-append q (parent_queue p m'))) short (omega arith)
            (omega (arith, some_rank))
            (λ k' w' at' due' less. rest k' q' m' w' kept at' due' short less) in
        (r, ground (arith, e, all, runs), done)

    back_turn :
        (k : ℕ) (w : TreePath)
        → get_elem? (p ∷ q) k ≡ some w
        → IsDue t m w
        → all_visited m p f ≡ false
        → climbs (p ∷ q) * l + k < suc fuel
        → Returns (suc fuel) (p ∷ q) m
    unfolding visit_loop climbs
    back_turn zero w at (n, g, all) not_yet enough =
        let first : p ≡ w = ground arith in
        let same : node i f ≡ n = ground (arith, e, g, first) in
        absurd (ground (arith, first, same, all, not_yet))
    back_turn (suc k) w at due not_yet enough =
        let more = climbs-append q (p ∷ []) in
        let long = length-append q (p ∷ []) in
        let level : climbs (q ++ p ∷ []) ≡ climbs (p ∷ q) = omega (arith, more) in
        let (r, runs, done) =
          rest k (q ++ p ∷ []) m w (put_back_Inv t q m p v) (get_elem?-append q (p ∷ []) k w at) due
            (omega (arith, long)) (rw level (omega arith)) in
        (r, ground (arith, e, not_yet, runs), done)

  node_parts :
      (p : TreePath) (n : Node)
      → get p t ≡ some n
      → (i : Info) × (f : Forest) × (get p t ≡ some (node i f))
  node_parts p (node i f) e = (i, f, e)

  loop_ends : (fuel l : ℕ) → Rest fuel l
  loop_ends zero l k q m w v at due small enough = absurd (omega arith)
  loop_ends (suc fuel) l k [] m w v at due small enough = cc
  loop_ends (suc fuel) l k (p ∷ q) m w v at due small enough =
      let (n, g) = v.valid p (inl refl) in
      let (i, f, e) = node_parts p n g in
      let rest = loop_ends fuel l in
      elim (Bool-cases (all_visited m p f)) [
        | inl all ↦ visit_turn fuel l rest p q m i f v e small k all enough
        | inr not_yet ↦ back_turn fuel l rest p q m i f v e small k w at due not_yet enough
      ]

  -- A queue from which phase two reaches the whole tree: it holds nodes, all the leaves among them.
  pub record IsStart (q : List TreePath) : Type 0 where
    pub valid : (p : TreePath) → In p q → (n : Node) × (get p t ≡ some n)
    pub leaves : (p : TreePath) (i : Info) → get p t ≡ some (node i nil) → In p q

  -- A node with children has one that was not visited.
  start_pending :
      (q : List TreePath) (p : TreePath) (n : Node)
      → IsStart q
      → get p t ≡ some n
      → In p q
        ⊎ ((x : Bytes) × (c : Node) × (find x (children_of n) ≡ some c)
            × (opinion (p ++ x ∷ []) [] ≡ none))
  unfolding opinion find
  start_pending q p (node i nil) s e = inl (s.leaves p i e)
  start_pending q p (node i (cons c f)) s e =
      inr ((info_of c).name, c, rw (bytes_eq_refl (info_of c).name), refl)

  start_Inv : (q : List TreePath) → IsStart q → Inv t q []
  unfolding opinion
  start_Inv q s = record {
    valid = s.valid;
    sound = λ p b h. cc;
    closed = λ p b n h g. cc;
    pending = λ p n g h. start_pending q p n s g;
  }

  -- At the end of the loop every node was visited.
  complete :
      (m : Opinions) (p : TreePath) (n : Node)
      → Inv t [] m
      → get p t ≡ some n
      → (b : Bool) × (opinion p m ≡ some b)
  complete m p n v e = elim (Option-cases (opinion p m)) [
    | inr known ↦ known
    | inl new ↦
        let (w, queued, due) = IsDue-below t [] m (size n) p n v (omega arith) e new in
        absurd queued
  ]

  -- From any queue of nodes that holds all leaves, in any order, phase two ends, and then `ready`
  -- holds at a node exactly if every node of its subtree is CANCELED, DEAD or DONE.
  pub visit_loop_decides :
      (q : List TreePath)
      → IsStart q
      → (m : Opinions) × (visit_loop (fuel_for q) t q [] ≡ some m)
        × ((p : TreePath) (n : Node)
            → get p t ≡ some n
            → (b : Bool) × (opinion p m ≡ some b) × ((b ≡ true) ↔ AllIdle t p))
  unfolding fuel_for
  visit_loop_decides q s =
      let v = start_Inv q s in
      let (m, runs, done) =
        resume (fuel_for q) (length q) (suc (climbs q)) q [] v (omega arith) (omega arith)
          (omega arith) (omega arith)
          (λ k w at due less.
            loop_ends (fuel_for q) (length q) k q [] w v at due (omega arith) less) in
      (
        m,
        runs,
        λ p n e.
            let (b, known) = complete m p n done e in
            (b, known, iff_trans (done.sound p b known) (AllStopped-AllIdle t p)),
      )
