-- ===== src/Logtree/Linked/Chain.antt =====
-- A doubly linked list against the list of its entries.
use monogon.Prelude.{
  ℕ, ◌≡◌, refl, ◌∙◌, sym, ap, Bool, true, false, ◌||◌, Option, none, some, if◌then◌else◌, ◌==◌,
  ==_iff, eq_refl, List, [], ◌∷◌, ◌++◌, arith, inl, inr, Bool-cases,
}
use monogon.Logtree.Linked.{Links, points, put, put_at, or_else, push}

abbrev pub has : ℕ → List ℕ → Bool
has x [] = false
has x (y ∷ ys) = (x == y) || has x ys

abbrev pub IsDistinct : List ℕ → Type 0
IsDistinct [] = Unit {0}
IsDistinct (x ∷ xs) = (has x xs ≡ false) × IsDistinct xs

abbrev pub first : List ℕ → Option ℕ
first [] = none
first (x ∷ xs) = some x

abbrev pub last_or : Option ℕ → List ℕ → Option ℕ
last_or o [] = o
last_or o (x ∷ xs) = last_or (some x) xs

abbrev pub without : ℕ → List ℕ → List ℕ
without x [] = []
without x (y ∷ ys) = if x == y then ys else y ∷ without x ys

-- The pointers along a list behind an entry.
abbrev pub Chain : (ℕ → Option ℕ) → (ℕ → Option ℕ) → Option ℕ → List ℕ → Type 0
Chain prev next p [] = Unit {0}
Chain prev next p (x ∷ xs) = (prev x ≡ p) × (next x ≡ first xs) × Chain prev next (some x) xs

pub record Holds (l : Links) (xs : List ℕ) : Type 0 where
  pub starts : l.head ≡ first xs
  pub ends : l.tail ≡ last_or none xs
  pub chained : Chain l.prev l.next none xs

-- Pointers elsewhere do not matter.
pub Chain-frame :
    (prev next prev' next' : ℕ → Option ℕ) (p : Option ℕ) (xs : List ℕ)
    → ((y : ℕ) → has y xs ≡ true → (prev' y ≡ prev y) × (next' y ≡ next y))
    → Chain prev next p xs
    → Chain prev' next' p xs
Chain-frame prev next prev' next' p [] same c = tt
Chain-frame prev next prev' next' p (x ∷ xs) same c =
    let (a, b) = same x (ground (arith, eq_refl x)) in
    (
      a ∙ c.0,
      b ∙ c.1,
      Chain-frame prev next prev' next' (some x) xs (λ y h. same y (ground (arith, h))) c.2,
    )

last_or-append : (o : Option ℕ) (xs : List ℕ) (e : ℕ) → last_or o (xs ++ e ∷ []) ≡ some e
last_or-append o [] e = refl
last_or-append o (x ∷ xs) e = last_or-append (some x) xs e

first-append : (xs : List ℕ) (e : ℕ) → first (xs ++ e ∷ []) ≡ or_else (first xs) (some e)
first-append [] e = refl
first-append (x ∷ xs) e = refl

-- The last entry is the one given or in the list.
pub last_or-has :
    (o : Option ℕ) (xs : List ℕ) (y : ℕ)
    → points (last_or o xs) y ≡ true
    → (points o y || has y xs) ≡ true
last_or-has o [] y h = ground (arith, h)
last_or-has o (x ∷ xs) y h = ground (arith, last_or-has (some x) xs y h)

push-next :
    (next : ℕ → Option ℕ) (x : ℕ) (xs : List ℕ) (e : ℕ)
    → (e == x) ≡ false
    → has x xs ≡ false
    → next x ≡ first xs
    → put_at (last_or (some x) xs) (some e) (put e none next) x ≡ first (xs ++ e ∷ [])
push-next next x [] e apart d c = ground (arith, eq_refl x)
push-next next x (y ∷ ys) e apart d c = ground (arith, last_or-has (some y) ys x, ==_iff x y)

push-Chain :
    (prev next : ℕ → Option ℕ) (p : Option ℕ) (xs : List ℕ) (e : ℕ)
    → points p e ≡ false
    → has e xs ≡ false
    → IsDistinct xs
    → Chain prev next p xs
    → Chain
        (put e (last_or p xs) prev)
        (put_at (last_or p xs) (some e) (put e none next))
        p
        (xs ++ e ∷ [])
push-Chain prev next p [] e apart fresh d c = ground (arith, eq_refl e, apart)
push-Chain prev next p (x ∷ xs) e apart fresh d c = (
  ground (arith, ==_iff e x),
  push-next next x xs e (ground (arith, ==_iff e x)) d.0 c.1,
  push-Chain prev next (some x) xs e (ground (arith, ==_iff e x)) (ground arith) d.1 c.2,
)

pub push-Holds :
    (l : Links) (xs : List ℕ) (e : ℕ)
    → has e xs ≡ false
    → IsDistinct xs
    → Holds l xs
    → Holds (push e l) (xs ++ e ∷ [])
unfolding push
push-Holds l xs e fresh d h = record {
  starts = ap (λ o. or_else o (some e)) h.starts ∙ sym (first-append xs e);
  ends = sym (last_or-append none xs e);
  chained = rw (h.ends) (push-Chain l.prev l.next none xs e refl fresh d h.chained);
}

pub push_frame :
    (l : Links) (xs : List ℕ) (e y : ℕ)
    → Holds l xs
    → has y xs ≡ false
    → (e == y) ≡ false
    → ((push e l).prev y ≡ l.prev y) × ((push e l).next y ≡ l.next y)
unfolding push
push_frame l xs e y h out apart = ground (arith, h.ends, last_or-has none xs y)

pub first-has : (xs : List ℕ) (y : ℕ) → points (first xs) y ≡ true → has y xs ≡ true
first-has [] y h = ground (arith, h)
first-has (x ∷ xs) y h = ground (arith, ==_iff x y, eq_refl y)

-- The neighbours of an entry are in the list, or in front of it.
pub neighbours :
    (prev next : ℕ → Option ℕ) (p : Option ℕ) (xs : List ℕ) (e y : ℕ)
    → has e xs ≡ true
    → Chain prev next p xs
    → (points (prev e) y ≡ true → (points p y || has y xs) ≡ true)
      × (points (next e) y ≡ true → has y xs ≡ true)
neighbours prev next p [] e y inside c = absurd (ground (arith, inside))
neighbours prev next p (x ∷ xs) e y inside c = elim (Bool-cases (e == x)) [
  | inl same ↦ ground (arith, ==_iff e x, same, c, first-has xs y)
  | inr apart ↦
      let ih = neighbours prev next (some x) xs e y (ground (arith, inside, apart)) c.2 in
      ((λ h. ground (arith, ih.0 h)), (λ h. ground (arith, ih.1 h)))
]
