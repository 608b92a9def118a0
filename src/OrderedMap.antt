-- ===== src/OrderedMap.antt =====
-- go/types/mapsets/orderedmap.go: a map with its keys kept in order. A Go map is an association
-- list, and `none` is the nil map. The order on keys is an interface, as in the source.
pub mod Order
pub mod Keys
pub mod Removal
pub mod Laws
pub mod Cycle
use monogon.Prelude.{
  ℕ, zero, suc, ◌+◌, Bool, true, false, ◌||◌, List, [], ◌∷◌, ◌++◌, Option, none, some,
  if◌then◌else◌, length, get_elem?, take, drop, leb, ◌==◌,
}
use Order.{Key}

module _ {K : Type 0} ⦃o : Key K⦄ where
  unfoldable pub member : K → List K → Bool
  member k [] = false
  member k (x ∷ xs) = o.eqb x k || member k xs

  -- sort.Slice by `<`.
  unfoldable pub insert_key : K → List K → List K
  insert_key k [] = k ∷ []
  insert_key k (x ∷ xs) = if o.lt x k then x ∷ insert_key k xs else k ∷ x ∷ xs

  unfoldable pub sort : List K → List K
  sort [] = []
  sort (x ∷ xs) = insert_key x (sort xs)

  -- The loop of `Delete` that looks for the position of a key.
  unfoldable pub index_of : K → List K → Option ℕ
  index_of k [] = none
  index_of k (x ∷ xs) =
      if o.eqb x k then some 0 else elim (index_of k xs) [ none ↦ none | some i ↦ some (suc i) ]

module _ {K V : Type 0} ⦃o : Key K⦄ where
  -- The Go map.
  unfoldable pub lookup : K → List (K × V) → Option V
  lookup k [] = none
  lookup k ((j, v) ∷ m) = if o.eqb j k then some v else lookup k m

  unfoldable pub assign : K → V → List (K × V) → List (K × V)
  assign k v [] = (k, v) ∷ []
  assign k v ((j, w) ∷ m) = if o.eqb j k then (k, v) ∷ m else (j, w) ∷ assign k v m

  unfoldable pub remove : K → List (K × V) → List (K × V)
  remove k [] = []
  remove k ((j, w) ∷ m) = let rest = remove k m in if o.eqb j k then rest else (j, w) ∷ rest

pub record OrderedMap (K V : Type 0) : Type 0 where
  pub keys : List K
  pub values : Option (List (K × V))

abbrev pub is_some {ℓ} : {A : Type ℓ} → Option A → Bool
is_some none = false
is_some (some a) = true

-- The entries of a map that may be nil: reading the nil map finds nothing.
abbrev pub entries : {K V : Type 0} → Option (List (K × V)) → List (K × V)
entries none = []
entries (some m) = m

module _ {K V : Type 0} ⦃o : Key K⦄ where
  abbrev pub empty : OrderedMap K V
  empty = record { keys = []; values = none }

  unfoldable pub insert : K → V → OrderedMap K V → OrderedMap K V
  insert k v s = record {
    keys = if is_some (lookup k (entries s.values)) then s.keys else sort (s.keys ++ k ∷ []);
    values = some (assign k v (entries s.values));
  }

  unfoldable pub get : K → OrderedMap K V → Option V
  get k s = elim s.values [ none ↦ none | some m ↦ lookup k m ]

  unfoldable pub all_keys : OrderedMap K V → List K
  all_keys s = elim s.values [ none ↦ [] | some m ↦ s.keys ]

  -- `none` is the panic "keys and values out of sync".
  unfoldable pub delete : K → OrderedMap K V → Option (OrderedMap K V)
  delete k s = elim s.values [
    | none ↦ some s
    | some m ↦ elim (lookup k m) [
      | none ↦ some s
      | some v ↦ elim (index_of k s.keys) [
        | none ↦ none
        | some i ↦
            some
              (record { keys = take i s.keys ++ drop (suc i) s.keys; values = some (remove k m) })
      ]
    ]
  ]

  unfoldable pub clear : OrderedMap K V → OrderedMap K V
  clear s = record { keys = []; values = none }

  unfoldable pub count : OrderedMap K V → ℕ
  count s = length s.keys

  module _ (zero_value : V) where
    -- `s.values[k]`, which is the zero value where the key is missing.
    abbrev pub value_at : K → List (K × V) → V
    value_at k m = elim (lookup k m) [ none ↦ zero_value | some v ↦ v ]

    unfoldable pub list_values : List K → List (K × V) → List (K × V)
    list_values [] m = []
    list_values (k ∷ ks) m = (k, value_at k m) ∷ list_values ks m

    unfoldable pub all_values : OrderedMap K V → List (K × V)
    all_values s = list_values s.keys (entries s.values)

    -- The loop of `Clone`: the map built so far.
    unfoldable pub clone_values : List K → List (K × V) → List (K × V) → List (K × V)
    clone_values [] m built = built
    clone_values (k ∷ ks) m built = clone_values ks m (assign k (value_at k m) built)

    unfoldable pub clone : OrderedMap K V → OrderedMap K V
    clone s = elim s.values [
      | none ↦ record { keys = []; values = none }
      | some m ↦ record { keys = s.keys; values = some (clone_values s.keys m []) }
    ]

    unfoldable pub replace : OrderedMap K V → OrderedMap K V → OrderedMap K V
    replace s other = clone other

    -- `Next` of an iterator at an index: the new index, and the key and value if there are any.
    unfoldable pub next : OrderedMap K V → ℕ → ℕ × Option (K × V)
    next s ix =
        if length s.keys == 0
        then (ix, none)
        else let i = if leb (length s.keys) ix then 0 else ix in
          elim (get_elem? s.keys i) [
            | none ↦ (ix, none)
            | some k ↦ (i + 1, some (k, value_at k (entries s.values)))
          ]
