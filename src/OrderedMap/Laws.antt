-- ===== src/OrderedMap/Laws.antt =====
-- What Insert, Delete, Clone and the listings do to the map a client sees.
use monogon.Prelude.{
  suc, ◌≡◌, refl, true, false, List, [], ◌∷◌, ◌++◌, none, some, if◌then◌else◌, arith, inl, inr,
  Option-cases, length-append, take, drop,
}
use monogon.OrderedMap.Order.{Key}
use monogon.OrderedMap.Keys.{
  IsSorted, sorted-IsDistinct, append-IsDistinct, member-sort, member-append, sort-IsSorted,
  length-sort, no_members,
}
use monogon.OrderedMap.Removal.{index_of-some, member-removed, removed-IsSorted}
use monogon.OrderedMap.{
  OrderedMap, member, lookup, assign, remove, is_some, entries, insert, get, all_keys, delete,
  count, value_at, clone_values, clone,
}

module _ {K V : Type 0} ⦃o : Key K⦄ where
  -- Each key with a value is in the list of keys, and the list is sorted.
  abbrev pub IsOrdered : OrderedMap K V → Type 0
  IsOrdered s =
      IsSorted s.keys × ((k : K) → member k s.keys ≡ is_some (lookup k (entries s.values)))

  lookup-assign :
      (j k : K) (v : V) (m : List (K × V))
      → lookup j (assign k v m) ≡ (if o.eqb k j then some v else lookup j m)
  unfolding lookup assign
  lookup-assign j k v [] = refl
  lookup-assign j k v ((i, w) ∷ m) =
      ground (arith, o.eqb_iff i k, o.eqb_iff i j, o.eqb_iff k j, lookup-assign j k v m)

  lookup-remove :
      (j k : K) (m : List (K × V))
      → lookup j (remove k m) ≡ (if o.eqb k j then none else lookup j m)
  unfolding lookup remove
  lookup-remove j k [] = ground arith
  lookup-remove j k ((i, w) ∷ m) =
      ground (arith, o.eqb_iff i k, o.eqb_iff i j, o.eqb_iff k j, lookup-remove j k m)

  pub get-lookup : (k : K) (s : OrderedMap K V) → get k s ≡ lookup k (entries s.values)
  unfolding get lookup
  get-lookup k s = elim (Option-cases s.values) [ inl e ↦ rw e | inr (m, e) ↦ rw e ]

  insert-IsOrdered : (k : K) (v : V) (s : OrderedMap K V) → IsOrdered s → IsOrdered (insert k v s)
  unfolding insert
  insert-IsOrdered k v s h = elim (Option-cases (lookup k (entries s.values))) [
    | inr (w, e) ↦ rw e (
      h.0,
      λ j. ground (arith, h.1 j, h.1 k, e, o.eqb_iff k j, lookup-assign j k v (entries s.values)),
    )
    | inl e ↦
        let absent : member k s.keys ≡ false = ground (arith, h.1 k, e) in
        rw e (
          sort-IsSorted (s.keys ++ k ∷ [])
              (append-IsDistinct s.keys k (sorted-IsDistinct s.keys h.0) absent),
          λ j. ground (
            arith,
            h.1 j,
            member-sort j (s.keys ++ k ∷ []),
            member-append j k s.keys,
            lookup-assign j k v (entries s.values),
          ),
        )
  ]

  -- Insert keeps the map ordered, sets the value of its key and of no other, and the count grows
  -- by one exactly where the key is new.
  pub insert_effect :
      (k : K) (v : V) (s : OrderedMap K V)
      → IsOrdered s
      → IsOrdered (insert k v s)
        × ((j : K) → get j (insert k v s) ≡ (if o.eqb k j then some v else get j s))
        × (count (insert k v s) ≡ (if is_some (get k s) then count s else suc (count s)))
  unfolding insert get count
  insert_effect k v s h = (
    insert-IsOrdered k v s h,
    λ j. ground (arith, get-lookup j s, lookup-assign j k v (entries s.values)),
    ground (arith, get-lookup k s, length-sort (s.keys ++ k ∷ []), length-append s.keys (k ∷ [])),
  )

  -- Delete does not panic on an ordered map, keeps it ordered, and takes away its key and no other.
  pub delete_effect :
      (k : K) (s : OrderedMap K V)
      → IsOrdered s
      → (t : OrderedMap K V) × (delete k s ≡ some t)
        × IsOrdered t
        × ((j : K) → get j t ≡ (if o.eqb k j then none else get j s))
  unfolding delete get
  delete_effect k s h = elim (Option-cases s.values) [
    | inl e ↦ (s, ground (arith, e), h, λ j. ground (arith, e))
    | inr (m, e) ↦ elim (Option-cases (lookup k m)) [
      | inl none_there ↦
          (s, ground (arith, e, none_there), h, λ j. ground (arith, e, none_there, o.eqb_iff k j))
      | inr (v, there) ↦
          let inside : member k s.keys ≡ true = ground (arith, h.1 k, e, there) in
          let (i, found) = index_of-some k s.keys inside in
          let distinct = sorted-IsDistinct s.keys h.0 in
          (
            record { keys = take i s.keys ++ drop (suc i) s.keys; values = some (remove k m) },
            ground (arith, e, there, found),
            (
              removed-IsSorted s.keys i h.0,
              λ j. ground (
                arith,
                h.1 j,
                e,
                member-removed j k s.keys i distinct found,
                lookup-remove j k m,
              ),
            ),
            λ j. ground (arith, e, lookup-remove j k m),
          )
    ]
  ]

  module _ (zero_value : V) where
    lookup-clone_values :
        (j : K) (ks : List K) (m built : List (K × V))
        → lookup j (clone_values zero_value ks m built)
          ≡ (if member j ks then some (value_at zero_value j m) else lookup j built)
    unfolding clone_values member
    lookup-clone_values j [] m built = refl
    lookup-clone_values j (k ∷ ks) m built = ground (
      arith,
      o.eqb_iff k j,
      lookup-assign j k (value_at zero_value k m) built,
      lookup-clone_values j ks m (assign k (value_at zero_value k m) built),
    )

    -- Clone of an ordered map is ordered, lists the same keys, and has the same value at each.
    clone_effect :
        (s : OrderedMap K V)
        → IsOrdered s
        → IsOrdered (clone zero_value s)
          × (all_keys (clone zero_value s) ≡ all_keys s)
          × ((j : K) → get j (clone zero_value s) ≡ get j s)
    unfolding clone get all_keys lookup member
    clone_effect s h = elim (Option-cases s.values) [
      | inl e ↦ rw e ((tt, λ k. refl), refl, λ j. refl)
      | inr (m, e) ↦
          let same : (j : K) → lookup j (clone_values zero_value s.keys m []) ≡ lookup j m =
            λ j. ground (arith, h.1 j, e, lookup-clone_values j s.keys m []) in
          rw e ((h.0, λ k. ground (arith, h.1 k, e, same k)), refl, same)
    ]

  -- The list of keys of an ordered map that is nil is empty.
  pub all_keys-keys : (s : OrderedMap K V) → IsOrdered s → all_keys s ≡ s.keys
  unfolding all_keys lookup
  all_keys-keys s h = elim (Option-cases s.values) [
    | inl e ↦ ground (arith, e, no_members s.keys (λ k. ground (arith, h.1 k, e)))
    | inr (m, e) ↦ ground (arith, e)
  ]
