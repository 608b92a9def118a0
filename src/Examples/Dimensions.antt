-- ===== src/Examples/Dimensions.antt =====
-- Dimensions of which one is empty.
use monogon.Prelude.{ℕ, ◌≡◌, refl, List, [], ◌∷◌}
use monogon.Cartesian.{product, product_loop, elements}
use monogon.Cartesian.Cross.{cross, before_empty, product-cross}

abbrev behind : List (List ℕ)
behind = (3 ∷ []) ∷ [] ∷ (4 ∷ []) ∷ []

product-behind : product ((1 ∷ 2 ∷ []) ∷ behind) ≡ (1 ∷ 3 ∷ []) ∷ (2 ∷ 3 ∷ []) ∷ []
unfolding product product_loop elements
product-behind = refl

product-cross_example : product ((1 ∷ 2 ∷ []) ∷ behind) ≡ cross ((1 ∷ 2 ∷ []) ∷ before_empty behind)
product-cross_example = product-cross (1 ∷ 2 ∷ []) behind
