-- ===== src/OrderedMap/Keys.antt =====
-- Sorted lists of keys.
use monogon.Prelude.{
  suc, ◌≡◌, refl, ◌∙◌, sym, ap, true, false, ◌||◌, List, [], ◌∷◌, ◌++◌, arith, inl, inr, Bool-cases,
  length, All,
}
use monogon.OrderedMap.Order.{Key}
use monogon.OrderedMap.{member, insert_key, sort}

module _ {K : Type 0} ⦃o : Key K⦄ where
  -- Strictly ascending.
  abbrev pub IsSorted : List K → Type 0
  IsSorted [] = Unit {0}
  IsSorted (x ∷ xs) = All (λ y. o.lt x y ≡ true) xs × IsSorted xs

  abbrev pub IsDistinct : List K → Type 0
  IsDistinct [] = Unit {0}
  IsDistinct (x ∷ xs) = (member x xs ≡ false) × IsDistinct xs

  eqb_sym : (a b : K) → o.eqb a b ≡ o.eqb b a
  eqb_sym a b = ground (arith, o.eqb_iff a b, o.eqb_iff b a)

  lt_ne : (a b : K) → o.lt a b ≡ true → o.eqb a b ≡ false
  lt_ne a b h = ground (arith, o.eqb_iff a b, o.lt_irrefl b)

  above_absent : (x : K) (xs : List K) → All (λ y. o.lt x y ≡ true) xs → member x xs ≡ false
  unfolding member
  above_absent x [] h = refl
  above_absent x (y ∷ ys) h = ground (arith, lt_ne x y h.0, eqb_sym x y, above_absent x ys h.1)

  pub sorted-IsDistinct : (xs : List K) → IsSorted xs → IsDistinct xs
  sorted-IsDistinct [] h = tt
  sorted-IsDistinct (x ∷ xs) h = (above_absent x xs h.0, sorted-IsDistinct xs h.1)

  pub append-IsDistinct :
      (xs : List K) (k : K) → IsDistinct xs → member k xs ≡ false → IsDistinct (xs ++ k ∷ [])
  unfolding member
  append-IsDistinct [] k d h = (refl, tt)
  append-IsDistinct (x ∷ xs) k d h = (
    absent x xs k d.0 (ground (arith, h, eqb_sym x k)),
    append-IsDistinct xs k d.1 (ground arith),
  )
    where
      absent :
          (x : K) (xs : List K) (k : K)
          → member x xs ≡ false
          → o.eqb k x ≡ false
          → member x (xs ++ k ∷ []) ≡ false
      absent x [] k h e = ground arith
      absent x (y ∷ ys) k h e = ground (arith, absent x ys k)

  pub member-insert_key :
      (j k : K) (xs : List K) → member j (insert_key k xs) ≡ (o.eqb k j || member j xs)
  unfolding member insert_key
  member-insert_key j k [] = refl
  member-insert_key j k (x ∷ xs) = ground (arith, member-insert_key j k xs)

  pub member-sort : (j : K) (xs : List K) → member j (sort xs) ≡ member j xs
  unfolding sort member
  member-sort j [] = refl
  member-sort j (x ∷ xs) = ground (arith, member-insert_key j x (sort xs), member-sort j xs)

  pub member-append : (j k : K) (xs : List K) → member j (xs ++ k ∷ []) ≡ (o.eqb k j || member j xs)
  unfolding member
  member-append j k [] = refl
  member-append j k (x ∷ xs) = ground (arith, member-append j k xs)

  -- A bound from below for what is inserted into.
  insert_key-above :
      (a k : K) (xs : List K)
      → o.lt a k ≡ true
      → All (λ y. o.lt a y ≡ true) xs
      → All (λ y. o.lt a y ≡ true) (insert_key k xs)
  unfolding insert_key
  insert_key-above a k [] h b = (h, tt)
  insert_key-above a k (x ∷ xs) h b = elim (Bool-cases (o.lt x k)) [
    | inl less ↦ rw less (b.0, insert_key-above a k xs h b.1)
    | inr not_less ↦ rw not_less (h, b)
  ]

  above_trans :
      (a x : K) (xs : List K)
      → o.lt a x ≡ true
      → All (λ y. o.lt x y ≡ true) xs
      → All (λ y. o.lt a y ≡ true) xs
  above_trans a x [] h b = tt
  above_trans a x (y ∷ ys) h b = (o.lt_trans a x y h b.0, above_trans a x ys h b.1)

  insert_key-IsSorted :
      (k : K) (xs : List K) → IsSorted xs → member k xs ≡ false → IsSorted (insert_key k xs)
  unfolding insert_key member
  insert_key-IsSorted k [] s h = (tt, tt)
  insert_key-IsSorted k (x ∷ xs) s h = elim (Bool-cases (o.lt x k)) [
    | inl less ↦
        rw less (insert_key-above x k xs less s.0, insert_key-IsSorted k xs s.1 (ground arith))
    | inr not_less ↦
        let more = o.lt_total x k not_less (ground arith) in
        rw not_less ((more, above_trans k x xs more s.0), s)
  ]

  pub sort-IsSorted : (xs : List K) → IsDistinct xs → IsSorted (sort xs)
  unfolding sort
  sort-IsSorted [] d = tt
  sort-IsSorted (x ∷ xs) d =
      insert_key-IsSorted x (sort xs) (sort-IsSorted xs d.1) (member-sort x xs ∙ d.0)

  length-insert_key : (k : K) (xs : List K) → length (insert_key k xs) ≡ suc (length xs)
  unfolding insert_key
  length-insert_key k [] = refl
  length-insert_key k (x ∷ xs) = ground (arith, length-insert_key k xs)

  pub length-sort : (xs : List K) → length (sort xs) ≡ length xs
  unfolding sort
  length-sort [] = refl
  length-sort (x ∷ xs) = length-insert_key x (sort xs) ∙ ap suc (length-sort xs)

  not_below :
      (x y : K) (xs ys : List K)
      → IsSorted (y ∷ ys)
      → ((k : K) → member k (x ∷ xs) ≡ member k (y ∷ ys))
      → o.lt x y ≡ false
  unfolding member
  not_below x y xs ys t h = elim (Bool-cases (o.lt x y)) [
    | inl less ↦
        let gone = above_absent x (y ∷ ys) (less, above_trans x y ys less t.0) in
        absurd (ground (arith, h x, gone, o.eqb_iff x x))
    | inr e ↦ e
  ]

  -- Sorted lists with the same members are equal.
  pub sorted_unique :
      (xs ys : List K) → IsSorted xs → IsSorted ys → ((k : K) → member k xs ≡ member k ys) → xs ≡ ys
  unfolding member
  sorted_unique [] [] s t h = refl
  sorted_unique [] (y ∷ ys) s t h = absurd (ground (arith, h y, o.eqb_iff y y))
  sorted_unique (x ∷ xs) [] s t h = absurd (ground (arith, h x, o.eqb_iff x x))
  sorted_unique (x ∷ xs) (y ∷ ys) s t h =
      let below = not_below x y xs ys t h in
      let above = not_below y x ys xs s (λ k. sym (h k)) in
      let heads : x ≡ y = ground (arith, below, above, o.lt_total x y, o.eqb_iff x y) in
      let absent_left = above_absent x xs s.0 in
      let absent_right = above_absent y ys t.0 in
      let tails =
        sorted_unique xs ys s.1 t.1
          (λ k. ground (arith, h k, heads, absent_left, absent_right, o.eqb_iff x k)) in
      cc

  pub no_members : (xs : List K) → ((k : K) → member k xs ≡ false) → xs ≡ []
  unfolding member
  no_members [] h = refl
  no_members (x ∷ xs) h = absurd (ground (arith, h x, o.eqb_iff x x))
