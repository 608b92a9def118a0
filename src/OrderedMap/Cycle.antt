-- ===== src/OrderedMap/Cycle.antt =====
-- The listing of an ordered map, and the iterator that goes round it.
use monogon.Prelude.{
  ℕ, zero, suc, ◌+◌, ◌-◌, ◌<◌, ◌≤◌, ◌≡◌, refl, ◌∙◌, sym, ap, true, List, [], ◌∷◌, ◌++◌, Option,
  none, some, arith, inl, inr, Bool-cases, Option-cases, length, take, drop, All, map, get_elem?,
  get_elem?-lt, take_all, length-drop, ◌==◌,
}
use monogon.OrderedMap.Order.{Key}
use monogon.OrderedMap.Keys.{IsSorted}
use monogon.OrderedMap.Laws.{IsOrdered, all_keys-keys, get-lookup}
use monogon.OrderedMap.{
  OrderedMap, member, lookup, is_some, entries, get, all_keys, value_at, list_values, all_values,
  next, count,
}

module _ {K V : Type 0} ⦃o : Key K⦄ where
  module _ (zero_value : V) where
    -- The keys that further calls of Next give, and the index they leave.
    abbrev pub run : OrderedMap K V → ℕ → ℕ → ℕ × List (K × V)
    run s zero ix = (ix, [])
    run s (suc n) ix =
        let step = next zero_value s ix in
        let rest = run s n step.0 in elim step.1 [ none ↦ rest | some kv ↦ (rest.0, kv ∷ rest.1) ]

    list_values-keys :
        (ks : List K) (m : List (K × V)) → map (λ p. p.0) (list_values zero_value ks m) ≡ ks
    unfolding list_values
    list_values-keys [] m = refl
    list_values-keys (k ∷ ks) m = ap (◌∷◌ k) (list_values-keys ks m)

    list_values-values :
        (read : K → Option V) (ks : List K) (m : List (K × V))
        → ((k : K) → read k ≡ lookup k m)
        → ((k : K) → member k ks ≡ true → is_some (lookup k m) ≡ true)
        → All (λ p. read p.0 ≡ some p.1) (list_values zero_value ks m)
    unfolding list_values member
    list_values-values read [] m e h = tt
    list_values-values read (k ∷ ks) m e h = (
      ground (arith, h k, e k, o.eqb_iff k k),
      list_values-values read ks m e (λ j inside. h j (ground arith)),
    )

    drop-list_values :
        (ks : List K) (m : List (K × V)) (i : ℕ) (k : K)
        → get_elem? ks i ≡ some k
        → drop i (list_values zero_value ks m)
          ≡ (k, value_at zero_value k m) ∷ drop (suc i) (list_values zero_value ks m)
    unfolding list_values
    drop-list_values [] m i k h = absurd (ground arith)
    drop-list_values (j ∷ ks) m zero k h = ground arith
    drop-list_values (j ∷ ks) m (suc i) k h = drop-list_values ks m i k h

    list_values-length :
        (ks : List K) (m : List (K × V)) → length (list_values zero_value ks m) ≡ length ks
    unfolding list_values
    list_values-length [] m = refl
    list_values-length (k ∷ ks) m = ap suc (list_values-length ks m)

    -- A call of Next inside the list.
    next-inside :
        (s : OrderedMap K V) (ix : ℕ)
        → ix < length s.keys
        → (k : K) × (get_elem? s.keys ix ≡ some k)
          × (next zero_value s ix ≡ (ix + 1, some (k, value_at zero_value k (entries s.values))))
    unfolding next
    next-inside s ix lt = let (k, at) = get_elem?-lt s.keys ix lt in (k, at, ground (arith, at))

    run-inside :
        (s : OrderedMap K V) (n ix : ℕ)
        → ix + n ≤ length s.keys
        → run s n ix ≡ (ix + n, take n (drop ix (all_values zero_value s)))
    unfolding all_values
    run-inside s zero ix h = ground arith
    run-inside s (suc n) ix h =
        let (k, at, step) = next-inside s ix (omega arith) in
        let rest = run-inside s n (ix + 1) (omega arith) in
        ground (arith, step, rest, drop-list_values s.keys (entries s.values) ix k at)

    run-append :
        (s : OrderedMap K V) (a b ix : ℕ)
        → (run s (a + b) ix).1 ≡ (run s a ix).1 ++ (run s b (run s a ix).0).1
    run-append s zero b ix = ground arith
    run-append s (suc a) b ix =
        let more = run-append s a b (next zero_value s ix).0 in
        let sum : suc a + b ≡ suc (a + b) = omega arith in
        ap (λ i. (run s i ix).1) sum ∙ elim (Option-cases (next zero_value s ix).1) [
          | inl e ↦ ground (arith, e, more)
          | inr (kv, e) ↦ ground (arith, e, more)
        ]

    next-wrap :
        (s : OrderedMap K V)
        → 0 < length s.keys
        → next zero_value s (length s.keys) ≡ next zero_value s 0
    unfolding next
    next-wrap s more = let (k, at) = get_elem?-lt s.keys 0 more in ground (arith, at)

    -- At the end of the list Next starts again.
    run-wrap : (s : OrderedMap K V) (n : ℕ) → (run s n (length s.keys)).1 ≡ (run s n 0).1
    run-wrap s zero = refl
    run-wrap s (suc n) = elim (Bool-cases (length s.keys == 0)) [
      | inl none_left ↦ let e : length s.keys ≡ 0 = ground arith in ap (λ i. (run s (suc n) i).1) e
      | inr more ↦ let e = next-wrap s (ground arith) in ground (arith, e)
    ]

    -- From any index up to the count, as many calls of Next as there are keys give every entry once,
    -- in order from that index on and then from the start.
    pub cycle_visits :
        (s : OrderedMap K V) (ix : ℕ)
        → ix ≤ count s
        → (run s (count s) ix).1
          ≡ drop ix (all_values zero_value s) ++ take ix (all_values zero_value s)
    unfolding count all_values
    cycle_visits s ix h =
        let n = length s.keys in
        let values = list_values zero_value s.keys (entries s.values) in
        let cut : (n - ix) + ix ≡ n = omega arith in
        let sum : ix + (n - ix) ≡ n = omega arith in
        let split : (run s n ix).1 ≡ (run s (n - ix) ix).1 ++ (run s ix (run s (n - ix) ix).0).1 =
          ap (λ i. (run s i ix).1) (sym cut) ∙ run-append s (n - ix) ix ix in
        let first = run-inside s (n - ix) ix (omega arith) in
        let second = run-inside s ix 0 (omega arith) in
        let all : take (n - ix) (drop ix values) ≡ drop ix values =
          take_all (n - ix) (drop ix values)
            (omega (arith, length-drop ix values, list_values-length s.keys (entries s.values))) in
        ground (arith, sum, split, first, second, all, run-wrap s ix)

    -- The listing of an ordered map: its keys in order, each with its value, and these are all.
    pub all_values_effect :
        (s : OrderedMap K V)
        → IsOrdered s
        → (map (λ p. p.0) (all_values zero_value s) ≡ all_keys s)
          × IsSorted (all_keys s)
          × All (λ p. get p.0 s ≡ some p.1) (all_values zero_value s)
          × ((k : K) → member k (all_keys s) ≡ is_some (get k s))
    unfolding all_values
    all_values_effect s h =
        let keys = all_keys-keys s h in
        (
          list_values-keys s.keys (entries s.values) ∙ sym keys,
          rw keys h.0,
          list_values-values (λ k. get k s) s.keys (entries s.values) (λ k. get-lookup k s)
              (λ k inside. sym (h.1 k) ∙ inside),
          λ k. ground (arith, h.1 k, keys, get-lookup k s),
        )
