-- ===== src/OrderedMap/Order.antt =====
-- The interface `Key` of orderedmap.go: comparable and ordered. The laws are those of Go's `==` and
-- `<` on integers and strings.
use monogon.Prelude.{◌≡◌, ◌↔◌, Bool, true, false}

pub record Key (K : Type 0) : Type 0 where
  pub eqb : K → K → Bool
  pub lt : K → K → Bool
  pub eqb_iff : (a b : K) → (eqb a b ≡ true) ↔ (a ≡ b)
  pub lt_irrefl : (a : K) → lt a a ≡ false
  pub lt_trans : (a b c : K) → lt a b ≡ true → lt b c ≡ true → lt a c ≡ true
  pub lt_total : (a b : K) → lt a b ≡ false → eqb a b ≡ false → lt b a ≡ true
