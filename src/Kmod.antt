-- ===== src/Kmod.antt =====
-- osbase/kmod/radix.go: the radix tree of module aliases. A node whose fields are set in place is a
-- tree that is returned. Where the code reads the first byte of two literals, the model takes an
-- empty literal for one that shares no byte with the other.
pub mod Manager
pub mod Matching
pub mod Pattern
pub mod Splitting
pub mod Adding
use monogon.Prelude.{
  ℕ, zero, suc, ◌+◌, ◌%◌, Bool, true, false, ◌&&◌, ◌||◌, List, [], ◌∷◌, ◌++◌, Option, none, some,
  if◌then◌else◌, length, take, drop, ltb, leb, ◌==◌, Bytes, bytes_eq,
}

-- `RadixNode_Type` with the fields that go with it.
pub data Part : Type 0 where
  root wildcard single_wildcard : Part
  literal : Bytes → Part
  byte_range : ℕ → ℕ → Part

mutual
  pub data RadixNode : Type 0 where
    radix : Part → List ℕ → Children → RadixNode

  pub data Children : Type 0 where
    no_more : Children
    child : RadixNode → Children → Children

abbrev pub part_of : RadixNode → Part
part_of (radix p m f) = p

abbrev pub is_empty {ℓ} : {A : Type ℓ} → List A → Bool
is_empty [] = true
is_empty (x ∷ xs) = false

-- `needle[i:]` for each `i` from 0 to the length.
unfoldable pub suffixes : Bytes → List Bytes
suffixes [] = [] ∷ []
suffixes (x ∷ s) = (x ∷ s) ∷ suffixes s

unfoldable pub literal_rest : Bytes → Bytes → List Bytes
literal_rest l s =
    if ltb (length s) (length l)
    then []
    else if bytes_eq l (take (length l) s)
    then drop (length l) s ∷ []
    else []

-- The switch on the type of a child: the needles with which the lookup goes on below it.
unfoldable pub advance : Part → Bytes → List Bytes
advance root s = []
advance wildcard s = suffixes s
advance single_wildcard [] = []
advance single_wildcard (x ∷ s) = s ∷ []
advance (literal l) s = literal_rest l s
advance (byte_range a b) [] = []
advance (byte_range a b) (x ∷ s) = if leb (a % 256) x && leb x (b % 256) then s ∷ [] else []

-- The module indices that are found; the map that collects them is a list.
unfoldable mutual
  pub lookup_modules_rec : RadixNode → Bytes → List ℕ
  lookup_modules_rec (radix p m f) s = lookup_children f s ++ (if is_empty s then m else [])

  pub lookup_children : Children → Bytes → List ℕ
  lookup_children no_more s = []
  lookup_children (child c f) s = lookup_each c (advance (part_of c) s) ++ lookup_children f s

  pub lookup_each : RadixNode → List Bytes → List ℕ
  lookup_each (radix p m f) [] = []
  lookup_each (radix p m f) (s ∷ ss) =
      (lookup_children f s ++ (if is_empty s then m else [])) ++ lookup_each (radix p m f) ss

-- A part of a pattern and its module indices.
abbrev pub Item : Type 0
Item = Part × List ℕ

-- `addPatternRec` at a node that has no children yet.
unfoldable pub chain : Item → List Item → RadixNode
chain (p, m) [] = radix p m no_more
chain (p, m) (q ∷ qs) = radix p m (child (chain q qs) no_more)

-- The number of bytes that two literals start with in common.
unfoldable pub common : Bytes → Bytes → ℕ
common [] l = 0
common (x ∷ k) [] = 0
common (x ∷ k) (y ∷ l) = let rest = common k l in if x == y then suc rest else 0

-- "Split current node", at a byte inside its literal.
unfoldable pub split_node : ℕ → Bytes → Bytes → List ℕ → List ℕ → Children → List Item → RadixNode
split_node i l new_literal cm m f [] =
    let old = radix (literal (drop i l)) cm f in
    if i == length new_literal
    then radix (literal new_literal) m (child old no_more)
    else radix (literal (take i new_literal)) []
        (child old (child (chain (literal (drop i new_literal), m) []) no_more))
split_node i l new_literal cm m f (q ∷ qs) =
    let old = radix (literal (drop i l)) cm f in
    radix (literal (take i new_literal)) [] (
      child old (
        child
          (if i == length new_literal
            then chain q qs
            else chain (literal (drop i new_literal), m) (q ∷ qs))
          no_more))

abbrev pub append_if_last : List Item → List ℕ → List ℕ → List ℕ
append_if_last [] cm m = cm ++ m
append_if_last (q ∷ qs) cm m = cm

-- What the part of a child has to do with the first part of a pattern: nothing, it is the same, its
-- literal is the start of the other and this is left, or the literals part at a byte.
pub data Fit : Type 0 where
  other same : Fit
  goes_on : Bytes → Fit
  splits : ℕ → Bytes → Bytes → Fit

unfoldable pub fit : Part → Part → Fit
fit (literal l) (literal k) =
    let i = common l k in
    if i == 0
    then other
    else if (i == length l) && (i == length k)
    then same
    else if i == length l
    then goes_on (drop i k)
    else splits i l k
fit (byte_range a b) (byte_range c d) = if (a == c) && (b == d) then same else other
fit wildcard wildcard = same
fit single_wildcard single_wildcard = same
fit _ _ = other

unfoldable mutual
  -- The loop over the children, and the new child where none takes the pattern.
  pub add_children : Children → List Item → Children
  add_children f [] = f
  add_children no_more (q ∷ qs) = child (chain q qs) no_more
  add_children (child c f) (q ∷ qs) =
      let rest = add_children f (q ∷ qs) in
      elim (add_child c q qs) [ none ↦ child c rest | some c' ↦ child c' f ]

  -- One child: `none` where the loop goes on.
  pub add_child : RadixNode → Item → List Item → Option RadixNode
  add_child (radix p cm f) (q, m) qs =
      let here = add_children f qs in
      elim (fit p q) [
        | other ↦ none
        | same ↦ some (radix p (append_if_last qs cm m) here)
        | goes_on k ↦ some (radix p cm (add_children f ((literal k, m) ∷ qs)))
        | splits i l k ↦ some (split_node i l k cm m f qs)
      ]

-- The last part carries the module index.
unfoldable pub mark : List Part → ℕ → List Item
mark [] idx = []
mark (p ∷ []) idx = (p, idx ∷ []) ∷ []
mark (p ∷ q ∷ ps) idx = (p, []) ∷ mark (q ∷ ps) idx

-- `AddPattern` of a pattern that was parsed.
unfoldable pub add_parts : List Part → ℕ → RadixNode → RadixNode
add_parts [] idx (radix p m f) = radix p (m ++ idx ∷ []) f
add_parts (q ∷ qs) idx (radix p m f) = radix p m (add_children f (mark (q ∷ qs) idx))
