-- ===== src/Kmod/Splitting.antt =====
-- What the changes of one child do to what is found below it.
use monogon.Prelude.{
  ℕ, zero, suc, ◌≡◌, refl, ◌∙◌, sym, ap, ◌&&◌, ◌||◌, List, [], ◌∷◌, ◌++◌, arith, inl, inr,
  Bool-cases, length, take, drop, ◌==◌, Bytes, ==_iff,
}
use monogon.Kmod.{
  Part, literal, radix, Children, no_more, child, is_empty, literal_rest, advance,
  lookup_modules_rec, lookup_children, Item, chain, common, split_node, append_if_last,
  add_children,
}
use monogon.Kmod.Matching.{
  mem, any, mem-append, any-or, any_cong, literal_rest-append, accepts, below,
  lookup_children-child, lookup_modules_rec-radix, below-chain,
}

-- Only the last part has indices.
abbrev pub IsMarked : List Item → Type 0
IsMarked [] = Unit {0}
IsMarked ((p, m) ∷ []) = Unit {0}
IsMarked ((p, m) ∷ q ∷ qs) = (m ≡ []) × IsMarked (q ∷ qs)

pub common-split : (k l : Bytes) → take (common k l) k ≡ take (common k l) l
unfolding common
common-split [] l = ground arith
common-split (x ∷ k) [] = refl
common-split (x ∷ k) (y ∷ l) = ground (arith, common-split k l)

pub take-drop : (n : ℕ) (l : Bytes) → take n l ++ drop n l ≡ l
take-drop zero l = refl
take-drop (suc n) [] = refl
take-drop (suc n) (x ∷ l) = ap (◌∷◌ x) (take-drop n l)

pub take-length : (l : Bytes) → take (length l) l ≡ l
take-length [] = refl
take-length (x ∷ l) = ap (◌∷◌ x) (take-length l)

-- A literal in two pieces, below a node and in a pattern.
below-literal :
    (j : ℕ) (k l : Bytes) (m : List ℕ) (f : Children) (s : Bytes)
    → below j (radix (literal (k ++ l)) m f) s
      ≡ any (below j (radix (literal l) m f)) (literal_rest k s)
unfolding advance lookup_modules_rec
below-literal j k l m f s = literal_rest-append _ k l s

accepts-literal :
    (j : ℕ) (k l : Bytes) (m : List ℕ) (qs : List Item) (s : Bytes)
    → accepts j ((literal (k ++ l), m) ∷ qs) s
      ≡ any (accepts j ((literal l, m) ∷ qs)) (literal_rest k s)
unfolding advance accepts
accepts-literal j k l m qs s = literal_rest-append _ k l s

-- What the loop over the children adds, below a node and at it.
unfoldable pub Adds : Children → List Item → Type 0
Adds f qs =
    (j : ℕ) (s : Bytes)
    → mem j (lookup_children (add_children f qs) s)
      ≡ (mem j (lookup_children f s) || accepts j qs s)

-- Where a child has the part, the rest goes below it.
pub descend-below :
    (j : ℕ) (p : Part) (cm m : List ℕ) (f : Children) (qs : List Item) (s : Bytes)
    → IsMarked ((p, m) ∷ qs)
    → Adds f qs
    → below j (radix p (append_if_last qs cm m) (add_children f qs)) s
      ≡ (below j (radix p cm f) s || accepts j ((p, m) ∷ qs) s)
unfolding accepts Adds
descend-below j p cm m f [] s marked h = any-or _ _ _ (advance p s) (λ r. ground (
  arith,
  lookup_modules_rec-radix j p (cm ++ m) (add_children f []) r,
  lookup_modules_rec-radix j p cm f r,
  mem-append j cm m,
  h j r,
))
descend-below j p cm m f (q ∷ qs) s marked h = any-or _ _ _ (advance p s) (λ r. ground (
  arith,
  lookup_modules_rec-radix j p cm (add_children f (q ∷ qs)) r,
  lookup_modules_rec-radix j p cm f r,
  marked.0,
  h j r,
))

-- A pattern that goes on behind the literal of a child.
pub extend-below :
    (j : ℕ) (l k : Bytes) (cm m : List ℕ) (f : Children) (qs : List Item) (s : Bytes)
    → Adds f ((literal k, m) ∷ qs)
    → below j (radix (literal l) cm (add_children f ((literal k, m) ∷ qs))) s
      ≡ (below j (radix (literal l) cm f) s || accepts j ((literal (l ++ k), m) ∷ qs) s)
unfolding Adds advance
extend-below j l k cm m f qs s h =
    any-or _ _ (accepts j ((literal k, m) ∷ qs)) (literal_rest l s) (λ r. ground (
      arith,
      lookup_modules_rec-radix j (literal l) cm (add_children f ((literal k, m) ∷ qs)) r,
      lookup_modules_rec-radix j (literal l) cm f r,
      h j r,
    ))
    ∙ ap (λ b. below j (radix (literal l) cm f) s || b) (sym (accepts-literal j l k m qs s))

-- A node with the common start of two literals, the old child below it, and more.
fork-below :
    (j : ℕ) (k l : Bytes) (cm m : List ℕ) (f g : Children) (s : Bytes)
    → below j (radix (literal k) m (child (radix (literal l) cm f) g)) s ≡ (
        below j (radix (literal (k ++ l)) cm f) s
        || any (λ r. mem j (lookup_children g r) || (is_empty r && mem j m)) (literal_rest k s))
unfolding advance
fork-below j k l cm m f g s =
    let old = radix (literal l) cm f in
    any-or _ (below j old) _ (literal_rest k s) (λ r. ground (
      arith,
      lookup_modules_rec-radix j (literal k) m (child old g) r,
      lookup_children-child j old g r,
    ))
    ∙ ap
        (λ b.
          b || any (λ r. mem j (lookup_children g r) || (is_empty r && mem j m)) (literal_rest k s))
        (sym (below-literal j k l cm f s))

-- The new literal ends in the old one.
split-inside :
    (j : ℕ) (k l : Bytes) (cm m : List ℕ) (f : Children) (s : Bytes)
    → below j (radix (literal k) m (child (radix (literal l) cm f) no_more)) s
      ≡ (below j (radix (literal (k ++ l)) cm f) s || accepts j ((literal k, m) ∷ []) s)
unfolding accepts lookup_children advance
split-inside j k l cm m f s =
    fork-below j k l cm m f no_more s
    ∙ ap (λ b. below j (radix (literal (k ++ l)) cm f) s || b)
        (any_cong _ _ (literal_rest k s) (λ r. ground arith))

split-inside_more :
    (j : ℕ) (k l : Bytes) (cm : List ℕ) (f : Children) (q : Item) (qs : List Item) (s : Bytes)
    → below j (radix (literal k) [] (child (radix (literal l) cm f) (child (chain q qs) no_more))) s
      ≡ (below j (radix (literal (k ++ l)) cm f) s || accepts j ((literal k, []) ∷ q ∷ qs) s)
unfolding accepts lookup_children advance
split-inside_more j k l cm f q qs s =
    fork-below j k l cm [] f (child (chain q qs) no_more) s
    ∙ ap (λ b. below j (radix (literal (k ++ l)) cm f) s || b)
        (any_cong _ _ (literal_rest k s) (λ r.
          ground (arith, lookup_children-child j (chain q qs) no_more r, below-chain j q qs r)))

-- The literals part.
split-apart :
    (j : ℕ) (k l n : Bytes) (cm m : List ℕ) (f : Children) (qs : List Item) (s : Bytes)
    → below j
        (radix
          (literal k)
          []
          (child (radix (literal l) cm f) (child (chain (literal n, m) qs) no_more)))
        s
      ≡ (below j (radix (literal (k ++ l)) cm f) s || accepts j ((literal (k ++ n), m) ∷ qs) s)
unfolding lookup_children
split-apart j k l n cm m f qs s =
    fork-below j k l cm [] f (child (chain (literal n, m) qs) no_more) s
    ∙ ap (λ b. below j (radix (literal (k ++ l)) cm f) s || b)
        (any_cong _ _ (literal_rest k s) (λ r. ground (
          arith,
          lookup_children-child j (chain (literal n, m) qs) no_more r,
          below-chain j (literal n, m) qs r,
        ))
          ∙ sym (accepts-literal j k n m qs s))

split-pieces :
    (j : ℕ) (a l b k : Bytes) (cm m : List ℕ) (f : Children) (qs : List Item) (s : Bytes)
    → a ≡ l
    → b ≡ k
    → (below j (radix (literal a) cm f) s || accepts j ((literal b, m) ∷ qs) s)
      ≡ (below j (radix (literal l) cm f) s || accepts j ((literal k, m) ∷ qs) s)
split-pieces j a l b k cm m f qs s ea eb = rw (ea, eb) refl

pub split_node-below :
    (j i : ℕ) (l k : Bytes) (cm m : List ℕ) (f : Children) (qs : List Item) (s : Bytes)
    → IsMarked ((literal k, m) ∷ qs)
    → take i l ≡ take i k
    → below j (split_node i l k cm m f qs) s
      ≡ (below j (radix (literal l) cm f) s || accepts j ((literal k, m) ∷ qs) s)
unfolding split_node
split_node-below j i l k cm m f [] s marked start =
    let old_whole : take i k ++ drop i l ≡ l =
      ap (λ a. a ++ drop i l) (sym start) ∙ take-drop i l in
    elim (Bool-cases (i == length k)) [
      | inl e ↦
          let at : i ≡ length k = (==_iff i (length k)).0 e in
          let whole : take i k ≡ k = ap (λ n. take n k) at ∙ take-length k in
          rw e (
            split-inside j k (drop i l) cm m f s
            ∙ split-pieces j (k ++ drop i l) l k k cm m f [] s
                (ap (λ a. a ++ drop i l) (sym whole) ∙ old_whole) refl)
      | inr e ↦ rw e (
          split-apart j (take i k) (drop i l) (drop i k) cm m f [] s
          ∙ split-pieces j (take i k ++ drop i l) l (take i k ++ drop i k) k cm m f [] s old_whole
              (take-drop i k))
    ]
split_node-below j i l k cm m f (q ∷ qs) s marked start =
    let old_whole : take i k ++ drop i l ≡ l =
      ap (λ a. a ++ drop i l) (sym start) ∙ take-drop i l in
    elim (Bool-cases (i == length k)) [
      | inl e ↦
          let at : i ≡ length k = (==_iff i (length k)).0 e in
          let whole : take i k ≡ k = ap (λ n. take n k) at ∙ take-length k in
          rw (e, marked.0)
            (split-inside_more j (take i k) (drop i l) cm f q qs s
              ∙ split-pieces j (take i k ++ drop i l) l (take i k) k cm [] f (q ∷ qs) s old_whole
                  whole)
      | inr e ↦ rw e (
          split-apart j (take i k) (drop i l) (drop i k) cm m f (q ∷ qs) s
          ∙ split-pieces j (take i k ++ drop i l) l (take i k ++ drop i k) k cm m f (q ∷ qs) s
              old_whole (take-drop i k))
    ]
