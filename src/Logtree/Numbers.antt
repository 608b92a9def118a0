-- ===== src/Logtree/Numbers.antt =====
-- osbase/logtree/journal_entry.go: the numbers seqLocal along a local list, and the length that
-- they tell.
use monogon.Prelude.{
  ℕ, suc, ◌+◌, ◌%◌, ◌^◌, ◌<◌, ◌≡◌, refl, true, none, some, ◌==◌, eq_refl, List, [], ◌∷◌, ◌++◌,
  arith, length,
}
use monogon.Logtree.Linked.Chain.{has, last_or, first, without}
use monogon.Logtree.{count_local}

-- Each number is one more than the one before, modulo 2^64.
abbrev pub Steps : (ℕ → ℕ) → ℕ → List ℕ → Type 0
Steps seq x [] = Unit {0}
Steps seq x (y ∷ ys) = (seq y ≡ (seq x + 1) % 2 ^ 64) × Steps seq y ys

abbrev pub IsNumbered : (ℕ → ℕ) → List ℕ → Type 0
IsNumbered seq [] = Unit {0}
IsNumbered seq (x ∷ xs) = (seq x < 2 ^ 64) × Steps seq x xs

Steps-frame :
    (seq seq' : ℕ → ℕ) (x : ℕ) (xs : List ℕ)
    → ((y : ℕ) → has y (x ∷ xs) ≡ true → seq' y ≡ seq y)
    → Steps seq x xs
    → Steps seq' x xs
Steps-frame seq seq' x [] same h = tt
Steps-frame seq seq' x (y ∷ ys) same (a, b) = (
  ground (arith, same x, same y, eq_refl x, eq_refl y, a),
  Steps-frame seq seq' y ys (λ z k. same z (ground (arith, k))) b,
)

pub IsNumbered-frame :
    (seq seq' : ℕ → ℕ) (xs : List ℕ)
    → ((y : ℕ) → has y xs ≡ true → seq' y ≡ seq y)
    → IsNumbered seq xs
    → IsNumbered seq' xs
IsNumbered-frame seq seq' [] same h = tt
IsNumbered-frame seq seq' (x ∷ xs) same (a, b) =
    (ground (arith, same x, eq_refl x, a), Steps-frame seq seq' x xs same b)

pub some_last : (x : ℕ) (xs : List ℕ) → (t : ℕ) × (last_or (some x) xs ≡ some t)
some_last x [] = (x, refl)
some_last x (y ∷ ys) = some_last y ys

Steps-append :
    (seq : ℕ → ℕ) (x : ℕ) (xs : List ℕ) (e t : ℕ)
    → last_or (some x) xs ≡ some t
    → seq e ≡ (seq t + 1) % 2 ^ 64
    → Steps seq x xs
    → Steps seq x (xs ++ e ∷ [])
Steps-append seq x [] e t last next h = (ground (arith, last, next), tt)
Steps-append seq x (y ∷ ys) e t last next (a, b) = (a, Steps-append seq y ys e t last next b)

pub IsNumbered-append :
    (seq : ℕ → ℕ) (xs : List ℕ) (e : ℕ)
    → seq e ≡ elim (last_or none xs) [ none ↦ 0 | some t ↦ (seq t + 1) % 2 ^ 64 ]
    → IsNumbered seq xs
    → IsNumbered seq (xs ++ e ∷ [])
IsNumbered-append seq [] e next h = (ground (arith, next), tt)
IsNumbered-append seq (x ∷ xs) e next (a, b) =
    let (t, last) = some_last x xs in
    (a, Steps-append seq x xs e t last (ground (arith, next, last)) b)

Steps-last :
    (seq : ℕ → ℕ) (x : ℕ) (xs : List ℕ) (t : ℕ)
    → seq x < 2 ^ 64
    → last_or (some x) xs ≡ some t
    → Steps seq x xs
    → seq t ≡ (seq x + length xs) % 2 ^ 64
Steps-last seq x [] t small last h = ground (arith, last, small)
Steps-last seq x (y ∷ ys) t small last (a, b) =
    let ih = Steps-last seq y ys t (omega (arith, a)) last b in omega (arith, ih, a, small)

-- The length of a local list, from the numbers at its ends.
pub count_local-length :
    (seq : ℕ → ℕ) (x : ℕ) (xs : List ℕ) (t : ℕ)
    → length xs + 1 < 2 ^ 64
    → last_or (some x) xs ≡ some t
    → IsNumbered seq (x ∷ xs)
    → count_local (seq t) (seq x) ≡ suc (length xs)
unfolding count_local
count_local-length seq x xs t short last (a, b) =
    omega (arith, Steps-last seq x xs t a last b, a, short)

-- The rest of a list is numbered as well.
IsNumbered-rest : (seq : ℕ → ℕ) (x : ℕ) (xs : List ℕ) → Steps seq x xs → IsNumbered seq xs
IsNumbered-rest seq x [] h = tt
IsNumbered-rest seq x (y ∷ ys) (a, b) = (omega (arith, a), b)

pub IsNumbered-without :
    (seq : ℕ → ℕ) (xs : List ℕ) (h : ℕ)
    → first xs ≡ some h
    → IsNumbered seq xs
    → IsNumbered seq (without h xs)
IsNumbered-without seq [] h e n = tt
IsNumbered-without seq (x ∷ xs) h e (a, b) =
    let same : (h == x) ≡ true = ground (arith, e, eq_refl h) in
    rw same (IsNumbered-rest seq x xs b)
