-- ===== src/Examples/Ordered.antt =====
-- A map of numbers that holds 2 and 5.
use monogon.Prelude.{
  ℕ, ◌≡◌, refl, Bool, true, false, ◌++◌, none, some, if◌then◌else◌, arith, ltb, ◌==◌, drop, take,
  All, map, suc,
}
use monogon.OrderedMap.Order.{Key}
use monogon.OrderedMap.Keys.{IsSorted}
use monogon.OrderedMap.{
  OrderedMap, empty, insert, get, delete, count, is_some, all_keys, all_values, member, sort,
  insert_key, assign, lookup,
}
use monogon.OrderedMap.Laws.{IsOrdered, insert_effect, delete_effect}
use monogon.OrderedMap.Cycle.{run, cycle_visits, all_values_effect}

instance number_key : Key ℕ
number_key = record {
  eqb = ◌==◌;
  lt = ltb;
  eqb_iff = λ a b. ground arith;
  lt_irrefl = λ a. ground arith;
  lt_trans = λ a b c h g. ground arith;
  lt_total = λ a b h g. ground arith;
}

abbrev five_two : OrderedMap ℕ Bool
five_two = insert 2 true (insert 5 false empty)

abbrev two_five : OrderedMap ℕ Bool
two_five = insert 5 false (insert 2 true empty)

empty-IsOrdered : IsOrdered {K = ℕ} {V = Bool} empty
unfolding member lookup
empty-IsOrdered = (tt, λ k. refl)

five_two-IsOrdered : IsOrdered five_two
five_two-IsOrdered =
    (insert_effect 2 true (insert 5 false empty) (insert_effect 5 false empty empty-IsOrdered).0).0

two_five-IsOrdered : IsOrdered two_five
two_five-IsOrdered =
    (insert_effect 5 false (insert 2 true empty) (insert_effect 2 true empty empty-IsOrdered).0).0

insert_effect_example :
    IsOrdered (insert 3 true five_two)
    × ((j : ℕ) → get j (insert 3 true five_two) ≡ (if 3 == j then some true else get j five_two))
    × (count (insert 3 true five_two)
        ≡ (if is_some (get 3 five_two) then count five_two else suc (count five_two)))
unfolding number_key
insert_effect_example = insert_effect 3 true five_two five_two-IsOrdered

delete_effect_example :
    (t : OrderedMap ℕ Bool) × (delete 5 five_two ≡ some t)
    × IsOrdered t
    × ((j : ℕ) → get j t ≡ (if 5 == j then none else get j five_two))
unfolding number_key
delete_effect_example = delete_effect 5 five_two five_two-IsOrdered

all_values_effect_example :
    (map (λ p. p.0) (all_values false five_two) ≡ all_keys five_two)
    × IsSorted (all_keys five_two)
    × All (λ p. get p.0 five_two ≡ some p.1) (all_values false five_two)
    × ((k : ℕ) → member k (all_keys five_two) ≡ is_some (get k five_two))
all_values_effect_example = all_values_effect false five_two five_two-IsOrdered

cycle_visits_example :
    (run false five_two (count five_two) 1).1
    ≡ drop 1 (all_values false five_two) ++ take 1 (all_values false five_two)
unfolding count insert sort insert_key lookup assign number_key
cycle_visits_example = cycle_visits false five_two 1 (omega arith)
