-- ===== src/Cartesian.antt =====
-- go/algorithm/cartesian/cartesian.go: the product of slices.
pub mod Cross
use monogon.Prelude.{Bool, true, false, List, [], ◌∷◌, ◌++◌, if◌then◌else◌}

module _ {T : Type 0} where
  abbrev pub is_empty : List (List T) → Bool
  is_empty [] = true
  is_empty (x ∷ xs) = false

  -- The loop over the product of the tail.
  unfoldable pub elements : T → List (List T) → List (List T)
  elements v [] = []
  elements v (t ∷ ts) = (v ∷ t) ∷ elements v ts

  -- The loop over the head.
  unfoldable pub product_loop : List T → List (List T) → List (List T)
  product_loop [] tail_product = []
  product_loop (v ∷ vs) tail_product =
      (if is_empty tail_product then (v ∷ []) ∷ [] else elements v tail_product)
      ++ product_loop vs tail_product

  unfoldable pub product : List (List T) → List (List T)
  product [] = []
  product (head ∷ tail) = product_loop head (product tail)
