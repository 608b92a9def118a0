-- ===== src/Examples/Waiting.antt =====
-- An element is added twice with different deadlines, and asked for in between.
use monogon.Prelude.{ℕ, ◌≡◌, refl, true, none, List, [], ◌∷◌, ◌==◌, arith}
use monogon.Sinbin.{Comparable, penalized}
use monogon.Sinbin.Penalty.{Event, added, asked, run, was_added, penalized_iff}

instance number_comparable : Comparable ℕ
number_comparable = record { eqb = ◌==◌; eqb_iff = λ a b. ground arith }

abbrev calls : List (Event ℕ)
calls = added 3 90 10 11 ∷ asked 3 20 ∷ added 3 50 30 30 ∷ []

was_asked : was_added 3 60 calls ≡ true
unfolding number_comparable
was_asked = refl

penalized_iff_example :
    (penalized 3 60 (run calls (record { bench = none; last_sweep = 0 }))).1 ≡ was_added 3 60 calls
penalized_iff_example =
    penalized_iff calls 0 60 3
      (omega arith, omega arith, (omega arith, (omega arith, omega arith, omega arith)))
