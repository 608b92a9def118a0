-- ===== src/OrderedMap/Removal.antt =====
-- Cutting one key out of the sorted list.
use monogon.Prelude.{
  ℕ, zero, suc, ◌≡◌, true, false, List, [], ◌∷◌, ◌++◌, some, if◌then◌else◌, arith, inl, inr,
  Bool-cases, Option-cases, take, drop, All,
}
use monogon.OrderedMap.Order.{Key}
use monogon.OrderedMap.Keys.{IsSorted, IsDistinct}
use monogon.OrderedMap.{member, index_of}

module _ {K : Type 0} ⦃o : Key K⦄ where
  pub index_of-some :
      (k : K) (xs : List K) → member k xs ≡ true → (i : ℕ) × (index_of k xs ≡ some i)
  unfolding member index_of
  index_of-some k [] h = absurd (ground arith)
  index_of-some k (x ∷ xs) h = elim (Bool-cases (o.eqb x k)) [
    | inl e ↦ (0, rw e)
    | inr e ↦ let (i, found) = index_of-some k xs (ground arith) in (suc i, rw (e, found))
  ]

  pub member-removed :
      (j k : K) (xs : List K) (i : ℕ)
      → IsDistinct xs
      → index_of k xs ≡ some i
      → member j (take i xs ++ drop (suc i) xs) ≡ (if o.eqb k j then false else member j xs)
  unfolding member index_of
  member-removed j k [] i d h = absurd (ground arith)
  member-removed j k (x ∷ xs) i d h = elim (Bool-cases (o.eqb x k)) [
    | inl e ↦
        let z : 0 ≡ i = ground arith in
        let same : x ≡ k = (o.eqb_iff x k).0 e in
        rw (← z) (ground (arith, o.eqb_iff k j, same, d.0))
    | inr e ↦ elim (Option-cases (index_of k xs)) [
      | inl gone ↦ absurd (ground (arith, e, gone))
      | inr (i2, found) ↦
          let z : suc i2 ≡ i = ground (arith, e, found) in
          rw (← z) (
            ground (
              arith,
              o.eqb_iff x j,
              o.eqb_iff k j,
              o.eqb_iff x k,
              member-removed j k xs i2 d.1 found,
            ))
    ]
  ]

  removed-above :
      (a : K) (xs : List K) (i : ℕ)
      → All (λ y. o.lt a y ≡ true) xs
      → All (λ y. o.lt a y ≡ true) (take i xs ++ drop (suc i) xs)
  removed-above a [] zero h = tt
  removed-above a [] (suc i) h = tt
  removed-above a (x ∷ xs) zero h = h.1
  removed-above a (x ∷ xs) (suc i) h = (h.0, removed-above a xs i h.1)

  pub removed-IsSorted :
      (xs : List K) (i : ℕ) → IsSorted xs → IsSorted (take i xs ++ drop (suc i) xs)
  removed-IsSorted [] zero h = tt
  removed-IsSorted [] (suc i) h = tt
  removed-IsSorted (x ∷ xs) zero h = h.1
  removed-IsSorted (x ∷ xs) (suc i) h = (removed-above x xs i h.0, removed-IsSorted xs i h.1)
