-- ===== src/Logtree/Quotas.antt =====
-- osbase/logtree/journal_entry.go, append: what the quota of a DN leaves.
use monogon.Prelude.{
  ℕ, suc, ◌+◌, ◌-◌, ◌^◌, ◌<◌, ◌≤◌, ◌≡◌, refl, ap, ◌∙◌, false, Option, none, some, if◌then◌else◌,
  List, [], ◌∷◌, arith, inl, inr, Bool-cases, Bytes, bytes_eq, bytes_eq_iff, ltb, length,
}
use mathlib.Core.Path.{subst}
use monogon.Logtree.Linked.Chain.{first, last_or, without}
use monogon.Logtree.Views.{restrict, origins, IsLinked}
use monogon.Logtree.Numbers.{IsNumbered, count_local-length, some_last}
use monogon.Logtree.Standing.{
  drop_oldest, trimmed, Stands, first-restrict, without-first, unlink-Stands,
}
use monogon.Logtree.{
  Journal, origin_of, local_links, set_local_links, unlink, pop_excess, count_local, apply_quota,
}

abbrev pub limit_of : Option ℕ → ℕ
limit_of none = 0
limit_of (some q) = q

-- The journal holds these entries, the oldest first, and each DN is within its quota.
pub record Represents (j : Journal) (g : List ℕ) : Type 0 where
  pub linked : IsLinked j g
  pub numbered : (d : Bytes) → IsNumbered j.seq_local (restrict (origins j) d g)
  pub bounded : (d : Bytes) → length (restrict (origins j) d g) ≤ limit_of (j.quota d)
  pub quotas : (d : Bytes) (q : ℕ) → j.quota d ≡ some q → (1 ≤ q) × (q + 1 < 2 ^ 64)

length-drop_oldest :
    (origin : ℕ → Bytes) (d : Bytes) (g : List ℕ)
    → length (restrict origin d (drop_oldest origin d g)) ≡ length (restrict origin d g) - 1
length-drop_oldest origin d [] = refl
length-drop_oldest origin d (x ∷ xs) = ground (arith, length-drop_oldest origin d xs)

restrict-drop_oldest :
    (origin : ℕ → Bytes) (d d' : Bytes) (g : List ℕ)
    → bytes_eq d d' ≡ false
    → restrict origin d' (drop_oldest origin d g) ≡ restrict origin d' g
restrict-drop_oldest origin d d' [] apart = refl
restrict-drop_oldest origin d d' (x ∷ xs) apart = elim (Bool-cases (bytes_eq (origin x) d)) [
  | inl same ↦
      let f : origin x ≡ d = (bytes_eq_iff (origin x) d).0 same in
      let other : bytes_eq (origin x) d' ≡ false = rw f apart in ground (arith, same, other)
  | inr other ↦ ground (arith, other, restrict-drop_oldest origin d d' xs apart)
]

-- What the quota leaves to each DN.
pub length-trimmed :
    (origin : ℕ → Bytes) (d d' : Bytes) (max : ℕ) (g : List ℕ)
    → length (restrict origin d g) ≤ max + 1
    → (length (restrict origin d (trimmed origin d max g)) ≤ max)
      × (bytes_eq d d' ≡ false
          → length (restrict origin d' (trimmed origin d max g)) ≡ length (restrict origin d' g))
length-trimmed origin d d' max g short = (
  ground (arith, length-drop_oldest origin d g, short),
  (λ apart. ground (arith, restrict-drop_oldest origin d d' g apart)),
)

-- The state that the quota leaves.
abbrev pub Kept : Journal → Option Journal → List ℕ → Type 0
Kept j r g =
    (j' : Journal) × (r ≡ some j') × Stands j' g × (j'.quota ≡ j.quota) × (j'.entry ≡ j.entry)

apply_quota-some :
    (j : Journal) (g : List ℕ) (d : Bytes) (max x : ℕ) (xs : List ℕ)
    → Stands j g
    → j.quota d ≡ some max
    → restrict (origins j) d g ≡ x ∷ xs
    → length xs + 1 < 2 ^ 64
    → apply_quota d j
      ≡ some
          (if ltb max (suc (length xs)) then pop_excess (suc (length xs) - max) (some x) j else j)
unfolding apply_quota local_links
apply_quota-some j g d max x xs s quota mine short =
    let (t, last) = some_last x xs in
    let tail : j.tails d ≡ some t = (s.linked.locally d).ends ∙ ap (last_or none) mine ∙ last in
    let head : j.heads d ≡ some x = (s.linked.locally d).starts ∙ ap first mine in
    let count : count_local (j.seq_local t) (j.seq_local x) ≡ suc (length xs) =
      count_local-length j.seq_local x xs t short last
        (subst (λ ys. IsNumbered j.seq_local ys) mine (s.numbered d)) in
    ground (arith, quota, tail, head, count)

pop_excess-one : (left x : ℕ) (j : Journal) → left ≡ 1 → pop_excess left (some x) j ≡ unlink x j
unfolding pop_excess
pop_excess-one left x j one = rw one

unlink_frame :
    (x : ℕ) (j : Journal) → ((unlink x j).quota ≡ j.quota) × ((unlink x j).entry ≡ j.entry)
unfolding unlink set_local_links
unlink_frame x j = (refl, refl)

pub apply_quota-Kept :
    (j : Journal) (g : List ℕ) (d : Bytes) (max x : ℕ) (xs : List ℕ)
    → Stands j g
    → j.quota d ≡ some max
    → restrict (origins j) d g ≡ x ∷ xs
    → length xs ≤ max
    → max + 1 < 2 ^ 64
    → Kept j (apply_quota d j) (trimmed (origins j) d max g)
apply_quota-Kept j g d max x xs s quota mine short small =
    let run = apply_quota-some j g d max x xs s quota mine (omega (arith, short, small)) in
    let n : length (restrict (origins j) d g) ≡ suc (length xs) = ap length mine in
    elim (Bool-cases (ltb max (suc (length xs)))) [
      | inl over ↦
          let one : suc (length xs) - max ≡ 1 = ground (arith, over, short) in
          let popped = pop_excess-one (suc (length xs) - max) x j one in
          let oldest : first (restrict (origins j) d g) ≡ some x = ap first mine in
          let of_d : origin_of x j ≡ d =
            (bytes_eq_iff (origin_of x j) d).0 (first-restrict (origins j) d g x oldest).0 in
          let less : without x g ≡ trimmed (origins j) d max g =
            without-first (origins j) d g x oldest ∙ ground (arith, n, over) in
          let left = unlink-Stands j g x (rw of_d oldest) s in
          (
            unlink x j,
            ground (arith, run, over, popped),
            subst (λ ys. Stands (unlink x j) ys) less left,
            (unlink_frame x j).0,
            (unlink_frame x j).1,
          )
      | inr within ↦
          let still : g ≡ trimmed (origins j) d max g = ground (arith, n, within) in
          (j, ground (arith, run, within), subst (λ ys. Stands j ys) still s, refl, refl)
    ]
