-- ===== src/Prelude/ByteString.antt =====
-- Strings of bytes, and what Go's packages bytes and strings do to them.
use Prim.Native.Nat.{ℕ, suc, ◌<◌}
use mathlib.Core.Path.{◌≡◌, refl, ap}
use mathlib.Core.Logic.{◌↔◌, inl, inr}
use mathlib.Core.Bool.{Bool, true, false, ◌&&◌}
use mathlib.Core.Option.{Option, none, some}
use mathlib.Core.List.{List, [], ◌∷◌, ◌++◌}
use native.Mathlib.Omega.{arith}
use monogon.Prelude.Tests.{◌==◌, ==_iff, eq_refl, if◌then◌else◌, Bool-cases, Option-cases}
use monogon.Prelude.Lists.{length, take, drop, All}

abbrev pub Bytes : Type 0
Bytes = List ℕ

unfoldable pub bytes_eq : Bytes → Bytes → Bool
bytes_eq [] [] = true
bytes_eq [] (y ∷ ys) = false
bytes_eq (x ∷ xs) [] = false
bytes_eq (x ∷ xs) (y ∷ ys) = (x == y) && bytes_eq xs ys

pub bytes_eq→eq : (xs ys : Bytes) → bytes_eq xs ys ≡ true → xs ≡ ys
unfolding bytes_eq
bytes_eq→eq [] [] h = refl
bytes_eq→eq [] (y ∷ ys) h = cc
bytes_eq→eq (x ∷ xs) [] h = cc
bytes_eq→eq (x ∷ xs) (y ∷ ys) h = ground (arith, bytes_eq→eq xs ys, ==_iff x y)

pub bytes_eq_refl : (xs : Bytes) → bytes_eq xs xs ≡ true
unfolding bytes_eq
bytes_eq_refl [] = refl
bytes_eq_refl (x ∷ xs) = ground (arith, bytes_eq_refl xs)

pub bytes_eq_iff : (xs ys : Bytes) → (bytes_eq xs ys ≡ true) ↔ (xs ≡ ys)
bytes_eq_iff xs ys = (bytes_eq→eq xs ys, λ e. rw e (bytes_eq_refl ys))

-- IndexByte, and IndexRune for a one-byte rune.
unfoldable pub index_byte : ℕ → Bytes → Option ℕ
index_byte b [] = none
index_byte b (x ∷ xs) =
    if x == b then some 0 else elim (index_byte b xs) [ none ↦ none | some k ↦ some (suc k) ]

abbrev pub NotByte : ℕ → ℕ → Type 0
NotByte b x = (x == b) ≡ false

-- A byte that is not found stands nowhere.
pub index_byte-none : (b : ℕ) (xs : List ℕ) → index_byte b xs ≡ none → All (NotByte b) xs
unfolding index_byte
index_byte-none b [] h = tt
index_byte-none b (x ∷ xs) h = (ground arith, index_byte-none b xs (ground arith))

-- One that is found stands behind bytes that differ from it.
pub index_byte-some :
    (b : ℕ) (xs : List ℕ) (k : ℕ)
    → index_byte b xs ≡ some k
    → (xs ≡ take k xs ++ b ∷ drop (suc k) xs) × All (NotByte b) (take k xs) × (k < length xs)
unfolding index_byte
index_byte-some b [] k h = cc
index_byte-some b (x ∷ xs) k h = elim (Bool-cases (x == b)) [
  | inl hit ↦ let e : 0 ≡ k = ground arith in rw (← e) ((ground arith), tt, omega arith)
  | inr miss ↦ elim (Option-cases (index_byte b xs)) [
    | inl gone ↦ absurd (ground arith)
    | inr (j, found) ↦
        let e : suc j ≡ k = ground arith in
        let (split, before, lt) = index_byte-some b xs j found in
        rw (← e) (ap (◌∷◌ x) split, (miss, before), omega arith)
  ]
]

cons_head : ℕ → List Bytes → List Bytes
cons_head x [] = (x ∷ []) ∷ []
cons_head x (w ∷ ws) = (x ∷ w) ∷ ws

-- strings.Split by a one-byte separator.
unfoldable pub split_byte : ℕ → Bytes → List Bytes
unfolding cons_head
split_byte b [] = [] ∷ []
split_byte b (x ∷ xs) = let rest = split_byte b xs in if x == b then [] ∷ rest else cons_head x rest

split_byte-cons :
    (b : ℕ) (xs : Bytes) → (w : Bytes) × (ws : List Bytes) × (split_byte b xs ≡ w ∷ ws)
unfolding split_byte
split_byte-cons b [] = ([], [], refl)
split_byte-cons b (x ∷ xs) =
    let (w, ws, e) = split_byte-cons b xs in
    elim (Bool-cases (x == b)) [
      | inl hit ↦ ([], w ∷ ws, ground (arith, hit, e))
      | inr miss ↦ (x ∷ w, ws, ground (arith, miss, e))
    ]

-- A separator ends a part.
pub split_byte-append :
    (b : ℕ) (xs ys : Bytes) → split_byte b (xs ++ b ∷ ys) ≡ split_byte b xs ++ split_byte b ys
unfolding split_byte
split_byte-append b [] ys = rw (eq_refl b)
split_byte-append b (x ∷ xs) ys =
    let (w, ws, e) = split_byte-cons b xs in
    elim (Bool-cases (x == b)) [
      | inl hit ↦ ground (arith, hit, split_byte-append b xs ys)
      | inr miss ↦ ground (arith, miss, e, split_byte-append b xs ys)
    ]

-- A string without the separator is one part.
pub split_byte-clean : (b : ℕ) (xs : Bytes) → All (NotByte b) xs → split_byte b xs ≡ xs ∷ []
unfolding split_byte
split_byte-clean b [] h = refl
split_byte-clean b (x ∷ xs) h = ground (arith, split_byte-clean b xs h.1)
