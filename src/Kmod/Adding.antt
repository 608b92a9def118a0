-- ===== src/Kmod/Adding.antt =====
-- AddPattern adds exactly the needles of its pattern.
use monogon.Prelude.{
  ℕ, ◌≡◌, refl, ◌∙◌, sym, ap, true, ◌&&◌, ◌||◌, List, [], ◌∷◌, ◌++◌, Option, none, some, arith, inl,
  inr, Bool-cases, Option-cases, length, take, drop, ◌==◌, Bytes, ==_iff,
}
use monogon.Kmod.{
  Part, root, wildcard, single_wildcard, literal, byte_range, RadixNode, radix, Children, no_more,
  child, lookup_modules_rec, lookup_children, Item, chain, mark, common, split_node, append_if_last,
  Fit, other, same, goes_on, splits, fit, add_children, add_child, add_parts,
}
use monogon.Kmod.Matching.{
  mem, mem-append, matches, accepts, accepts-mark, below, lookup_children-child,
  lookup_modules_rec-radix, below-chain,
}
use monogon.Kmod.Splitting.{
  IsMarked, common-split, take-drop, take-length, Adds, descend-below, extend-below,
  split_node-below,
}

-- What the verdict on two parts says of them.
FitMeans : Part → Part → Fit → Type 0
FitMeans p q other = Unit {0}
FitMeans p q same = p ≡ q
FitMeans p q (goes_on k) = (l : Bytes) × (p ≡ literal l) × (q ≡ literal (l ++ k))
FitMeans p q (splits i l k) = (p ≡ literal l) × (q ≡ literal k) × (take i l ≡ take i k)

whole_old : (l k : Bytes) → (common l k == length l) ≡ true → take (common l k) l ≡ l
whole_old l k e = ap (λ n. take n l) ((==_iff (common l k) (length l)).0 e) ∙ take-length l

whole_new : (l k : Bytes) → (common l k == length k) ≡ true → take (common l k) k ≡ k
whole_new l k e = ap (λ n. take n k) ((==_iff (common l k) (length k)).0 e) ∙ take-length k

prefix : (l k : Bytes) → (common l k == length l) ≡ true → k ≡ l ++ drop (common l k) k
prefix l k e =
    sym (take-drop (common l k) k)
    ∙ ap (λ a. a ++ drop (common l k) k) (sym (common-split l k) ∙ whole_old l k e)

fit_lem : (p q : Part) → FitMeans p q (fit p q)
unfolding fit FitMeans
fit_lem (literal l) (literal k) = elim (Bool-cases (common l k == 0)) [
  | inl nothing ↦ rw nothing tt
  | inr something ↦ elim (Bool-cases (common l k == length l)) [
    | inr inside ↦ rw (something, inside) (refl, refl, common-split l k)
    | inl over ↦ elim (Bool-cases (common l k == length k)) [
      | inl both ↦
          rw (something, over, both)
            (ap literal (sym (whole_old l k over) ∙ common-split l k ∙ whole_new l k both))
      | inr more ↦ rw (something, over, more) (l, refl, ap literal (prefix l k over))
    ]
  ]
]
fit_lem (byte_range a b) (byte_range c d) = elim (Bool-cases (a == c)) [
  | inr e ↦ rw e tt
  | inl e ↦ elim (Bool-cases (b == d)) [
    | inr g ↦ rw (e, g) tt
    | inl g ↦
        let left : a ≡ c = (==_iff a c).0 e in let right : b ≡ d = (==_iff b d).0 g in rw (e, g) cc
  ]
]
fit_lem wildcard wildcard = refl
fit_lem single_wildcard single_wildcard = refl
fit_lem root root = tt
fit_lem root wildcard = tt
fit_lem root single_wildcard = tt
fit_lem root (literal k) = tt
fit_lem root (byte_range c d) = tt
fit_lem wildcard root = tt
fit_lem wildcard single_wildcard = tt
fit_lem wildcard (literal k) = tt
fit_lem wildcard (byte_range c d) = tt
fit_lem single_wildcard root = tt
fit_lem single_wildcard wildcard = tt
fit_lem single_wildcard (literal k) = tt
fit_lem single_wildcard (byte_range c d) = tt
fit_lem (literal l) root = tt
fit_lem (literal l) wildcard = tt
fit_lem (literal l) single_wildcard = tt
fit_lem (literal l) (byte_range c d) = tt
fit_lem (byte_range a b) root = tt
fit_lem (byte_range a b) wildcard = tt
fit_lem (byte_range a b) single_wildcard = tt
fit_lem (byte_range a b) (literal k) = tt

IsMarked-head :
    (p q : Part) (m : List ℕ) (qs : List Item) → IsMarked ((p, m) ∷ qs) → IsMarked ((q, m) ∷ qs)
IsMarked-head p q m [] h = tt
IsMarked-head p q m (r ∷ qs) h = h

IsMarked-tail : (q : Item) (qs : List Item) → IsMarked (q ∷ qs) → IsMarked qs
IsMarked-tail q [] h = tt
IsMarked-tail (p, m) (r ∷ qs) h = h.1

-- The child that the loop puts in place of the old one.
abbrev replaced : Part → List ℕ → Children → Item → List Item → Fit → Option RadixNode
replaced p cm f (q, m) qs other = none
replaced p cm f (q, m) qs same = some (radix p (append_if_last qs cm m) (add_children f qs))
replaced p cm f (q, m) qs (goes_on k) = some (radix p cm (add_children f ((literal k, m) ∷ qs)))
replaced p cm f (q, m) qs (splits i l k) = some (split_node i l k cm m f qs)

-- A child takes the pattern by one of the three ways.
replaced-below :
    (j : ℕ) (p q : Part) (cm m : List ℕ) (f : Children) (qs : List Item) (s : Bytes) (t : Fit)
    → FitMeans p q t
    → IsMarked ((q, m) ∷ qs)
    → ((rs : List Item) → IsMarked rs → Adds f rs)
    → (c : RadixNode) → replaced p cm f (q, m) qs t ≡ some c
    → below j c s ≡ (below j (radix p cm f) s || accepts j ((q, m) ∷ qs) s)
unfolding FitMeans
replaced-below j p q cm m f qs s other means marked h c e = absurd (ground (arith, e))
replaced-below j p q cm m f qs s same means marked h c e =
    let is_c : radix p (append_if_last qs cm m) (add_children f qs) ≡ c = ground (arith, e) in
    rw (← is_c, ← means)
      (descend-below j p cm m f qs s (IsMarked-head q p m qs marked)
        (h qs (IsMarked-tail (q, m) qs marked)))
replaced-below j p q cm m f qs s (goes_on k) (l, is_l, is_k) marked h c e =
    let is_c : radix p cm (add_children f ((literal k, m) ∷ qs)) ≡ c = ground (arith, e) in
    rw (← is_c, is_l, is_k)
      (extend-below j l k cm m f qs s
        (h ((literal k, m) ∷ qs) (IsMarked-head q (literal k) m qs marked)))
replaced-below j p q cm m f qs s (splits i l k) (is_l, is_k, start) marked h c e =
    let is_c : split_node i l k cm m f qs ≡ c = ground (arith, e) in
    rw (← is_c, is_l, is_k)
      (split_node-below j i l k cm m f qs s (IsMarked-head q (literal k) m qs marked) start)

replaced-add_child :
    (p : Part) (cm : List ℕ) (f : Children) (q : Item) (qs : List Item)
    → add_child (radix p cm f) q qs ≡ replaced p cm f q qs (fit p q.0)
unfolding add_child
replaced-add_child p cm f (q, m) qs = go (fit p q)
  where
    go :
        (t : Fit)
        → elim t [
          | other ↦ none
          | same ↦ some (radix p (append_if_last qs cm m) (add_children f qs))
          | goes_on k ↦ some (radix p cm (add_children f ((literal k, m) ∷ qs)))
          | splits i l k ↦ some (split_node i l k cm m f qs)
        ]
          ≡ replaced p cm f (q, m) qs t
    go other = refl
    go same = refl
    go (goes_on k) = refl
    go (splits i l k) = refl

mutual
  unfolding Adds add_children accepts lookup_children

  Adds-all : (f : Children) (qs : List Item) → IsMarked qs → Adds f qs
  Adds-all f [] marked j s = ground arith
  Adds-all no_more (q ∷ qs) marked j s =
      ground (arith, lookup_children-child j (chain q qs) no_more s, below-chain j q qs s)
  Adds-all (child c f) (q ∷ qs) marked j s = elim (Option-cases (add_child c q qs)) [
    | inl e ↦ ground (
      arith,
      e,
      lookup_children-child j c f s,
      lookup_children-child j c (add_children f (q ∷ qs)) s,
      Adds-all f (q ∷ qs) marked j s,
    )
    | inr (c', e) ↦ ground (
      arith,
      e,
      lookup_children-child j c f s,
      lookup_children-child j c' f s,
      add_child-below c q qs marked c' e j s,
    )
  ]

  add_child-below :
      (c : RadixNode) (q : Item) (qs : List Item)
      → IsMarked (q ∷ qs)
      → (c' : RadixNode) → add_child c q qs ≡ some c'
      → (j : ℕ) (s : Bytes) → below j c' s ≡ (below j c s || accepts j (q ∷ qs) s)
  add_child-below (radix p cm f) (q, m) qs marked c' e j s =
      replaced-below j p q cm m f qs s (fit p q) (fit_lem p q) marked (λ rs. Adds-all f rs) c'
        (sym (replaced-add_child p cm f (q, m) qs) ∙ e)

mark-IsMarked : (ps : List Part) (idx : ℕ) → IsMarked (mark ps idx)
unfolding mark
mark-IsMarked [] idx = tt
mark-IsMarked (p ∷ []) idx = tt
mark-IsMarked (p ∷ q ∷ []) idx = (refl, tt)
mark-IsMarked (p ∷ q ∷ r ∷ ps) idx = (refl, mark-IsMarked (q ∷ r ∷ ps) idx)

-- After a pattern was added, a lookup finds what it found before, and the index of the pattern
-- exactly for the needles that the pattern matches: for every tree, pattern and needle, however
-- nodes were split or shared.
pub add_parts-found :
    (ps : List Part) (idx : ℕ) (n : RadixNode) (j : ℕ) (s : Bytes)
    → mem j (lookup_modules_rec (add_parts ps idx n) s)
      ≡ (mem j (lookup_modules_rec n s) || ((j == idx) && matches ps s))
unfolding add_parts matches Adds
add_parts-found [] idx (radix p m f) j s = ground (
  arith,
  lookup_modules_rec-radix j p m f s,
  lookup_modules_rec-radix j p (m ++ idx ∷ []) f s,
  mem-append j m (idx ∷ []),
)
add_parts-found (q ∷ qs) idx (radix p m f) j s = ground (
  arith,
  lookup_modules_rec-radix j p m f s,
  lookup_modules_rec-radix j p m (add_children f (mark (q ∷ qs) idx)) s,
  Adds-all f (mark (q ∷ qs) idx) (mark-IsMarked (q ∷ qs) idx) j s,
  accepts-mark j idx q qs s,
)
