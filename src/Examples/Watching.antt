-- ===== src/Examples/Watching.antt =====
-- A value with a watcher that misses one value, and one that is closed.
use monogon.Prelude.{ℕ, ◌≡◌, refl, true, false, some, none, List, [], ◌∷◌}
use monogon.EventValue.Serving.{Event, setting, watching, closing, receiving, run}
use monogon.EventValue.{
  empty_value, update, update_all, set, drop_closed, watch, close, receive, Value,
}

abbrev events : List (Event ℕ)
events =
    watching false 7
    ∷ setting 1
    ∷ watching true 8
    ∷ receiving 8
    ∷ closing 8
    ∷ setting 2
    ∷ setting 3
    ∷ []

abbrev after : Value ℕ
after = elim (run events empty_value) [ none ↦ empty_value | some m ↦ m ]

-- The closed watcher is dropped, and the open one holds the latest value only.
closed_dropped : after.watchers ≡ 7 ∷ []
unfolding set watch close receive update_all update drop_closed
closed_dropped = refl

-- Closing a watcher twice panics.
closed_twice : run (watching false 7 ∷ closing 7 ∷ closing 7 ∷ []) (empty_value {T = ℕ}) ≡ none
unfolding watch close
closed_twice = refl
