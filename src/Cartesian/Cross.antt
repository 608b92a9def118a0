-- ===== src/Cartesian/Cross.antt =====
-- The product against its definition.
use monogon.Prelude.{◌≡◌, refl, ◌∙◌, sym, ap, List, [], ◌∷◌, ◌++◌, map}
use monogon.Cartesian.{elements, product_loop, product}

module _ {T : Type 0} where
  abbrev pub spread : List T → List (List T) → List (List T)
  spread [] ts = []
  spread (v ∷ vs) ts = map (λ t. v ∷ t) ts ++ spread vs ts

  -- The cartesian product: one tuple, the empty one, of no dimensions, and no tuple where a
  -- dimension is empty.
  abbrev pub cross : List (List T) → List (List T)
  cross [] = [] ∷ []
  cross (d ∷ ds) = spread d (cross ds)

  -- The dimensions in front of the first empty one.
  abbrev pub before_empty : List (List T) → List (List T)
  before_empty [] = []
  before_empty ([] ∷ ds) = []
  before_empty ((v ∷ vs) ∷ ds) = (v ∷ vs) ∷ before_empty ds

  elements-map : (v : T) (ts : List (List T)) → elements v ts ≡ map (λ t. v ∷ t) ts
  unfolding elements
  elements-map v [] = refl
  elements-map v (t ∷ ts) = ap (◌∷◌ (v ∷ t)) (elements-map v ts)

  product_loop-nil : (d : List T) → product_loop d [] ≡ spread d ([] ∷ [])
  unfolding product_loop
  product_loop-nil [] = refl
  product_loop-nil (v ∷ vs) = ap (◌∷◌ (v ∷ [])) (product_loop-nil vs)

  product_loop-cons :
      (d : List T) (t : List T) (ts : List (List T)) → product_loop d (t ∷ ts) ≡ spread d (t ∷ ts)
  unfolding product_loop
  product_loop-cons [] t ts = refl
  product_loop-cons (v ∷ vs) t ts =
      ap (λ a. a ++ product_loop vs (t ∷ ts)) (elements-map v (t ∷ ts))
      ∙ ap (λ b. map (λ s. v ∷ s) (t ∷ ts) ++ b) (product_loop-cons vs t ts)

  product-cons :
      (v : T) (vs : List T) (ds : List (List T))
      → (t : List T) × (ts : List (List T)) × (product ((v ∷ vs) ∷ ds) ≡ t ∷ ts)
  unfolding product product_loop elements
  product-cons v vs ds = go (product ds)
    where
      go :
          (tail_product : List (List T))
          → (t : List T) × (ts : List (List T)) × (product_loop (v ∷ vs) tail_product ≡ t ∷ ts)
      go [] = (v ∷ [], product_loop vs [], refl)
      go (t ∷ ts) = (v ∷ t, elements v ts ++ product_loop vs (t ∷ ts), refl)

  -- The product is the cartesian product of its dimensions up to the first empty one behind the
  -- first: an empty dimension there is ignored with all that follow it.
  pub product-cross :
      (d : List T) (ds : List (List T)) → product (d ∷ ds) ≡ cross (d ∷ before_empty ds)
  unfolding product product_loop
  product-cross d [] = product_loop-nil d
  product-cross d ([] ∷ ds) = product_loop-nil d
  product-cross d ((v ∷ vs) ∷ ds) =
      let (t, ts, e) = product-cons v vs ds in
      ap (product_loop d) e
      ∙ product_loop-cons d t ts
      ∙ ap (spread d) (sym e ∙ product-cross (v ∷ vs) ds)
