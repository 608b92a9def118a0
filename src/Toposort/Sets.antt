-- ===== src/Toposort/Sets.antt =====
-- go/algorithm/toposort/toposort.go: sets of comparable values, which are Go maps to bool.
use monogon.Prelude.{
  ℕ, suc, ◌<◌, ◌≡◌, ◌↔◌, refl, Bool, true, false, not, ◌&&◌, ◌||◌, List, [], ◌∷◌, ◌++◌,
  if◌then◌else◌, arith, Bool-cases, inl, inr,
}

-- Go's `comparable`.
pub record Comparable (T : Type 0) : Type 0 where
  pub eqb : T → T → Bool
  pub eqb_iff : (a b : T) → (eqb a b ≡ true) ↔ (a ≡ b)

module _ {T : Type 0} where
  abbrev pub filter : (T → Bool) → List T → List T
  filter p [] = []
  filter p (x ∷ xs) = if p x then x ∷ filter p xs else filter p xs

module _ {T : Type 0} ⦃o : Comparable T⦄ where
  abbrev pub member : T → List T → Bool
  member k [] = false
  member k (x ∷ xs) = o.eqb x k || member k xs

  -- Go's `delete`.
  abbrev pub remove : T → List T → List T
  remove k [] = []
  remove k (x ∷ xs) = if o.eqb x k then remove k xs else x ∷ remove k xs

  -- How many of the values are not in the set.
  abbrev pub outside : List T → List T → ℕ
  outside set [] = 0
  outside set (x ∷ xs) = if member x set then outside set xs else suc (outside set xs)

  pub member-append : (k : T) (xs ys : List T) → member k (xs ++ ys) ≡ (member k xs || member k ys)
  member-append k [] ys = refl
  member-append k (x ∷ xs) ys = ground (arith, member-append k xs ys)

  pub member-remove :
      (k n : T) (xs : List T) → member k (remove n xs) ≡ (member k xs && not (o.eqb n k))
  member-remove k n [] = refl
  member-remove k n (x ∷ xs) =
      ground (arith, member-remove k n xs, o.eqb_iff x n, o.eqb_iff n k, o.eqb_iff x k)

  pub member-filter :
      (p : T → Bool) (k : T) (xs : List T) → member k (filter p xs) ≡ (member k xs && p k)
  member-filter p k [] = refl
  member-filter p k (x ∷ xs) = ground (arith, member-filter p k xs, o.eqb_iff x k)

  -- A value that joins the set leaves fewer outside.
  pub outside-le : (n : T) (set xs : List T) → outside (n ∷ set) xs < suc (outside set xs)
  outside-le n set [] = omega arith
  outside-le n set (x ∷ xs) = ground (arith, outside-le n set xs)

  pub outside-lt :
      (n : T) (set xs : List T)
      → member n xs ≡ true
      → member n set ≡ false
      → outside (n ∷ set) xs < outside set xs
  outside-lt n set [] h new = absurd (ground (arith, h))
  outside-lt n set (x ∷ xs) h new = elim (Bool-cases (o.eqb x n)) [
    | inl e ↦ ground (arith, outside-le n set xs, e, new, o.eqb_iff x n, o.eqb_iff n n)
    | inr e ↦
        ground (arith, outside-lt n set xs, e, outside-le n set xs, o.eqb_iff x n, o.eqb_iff n x)
  ]

  pub outside-same :
      (a b xs : List T) → ((y : T) → member y a ≡ member y b) → outside a xs ≡ outside b xs
  outside-same a b [] h = refl
  outside-same a b (x ∷ xs) h = ground (arith, outside-same a b xs h, h x)
