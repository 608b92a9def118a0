-- ===== src/Logtree/Linked/Cutting.antt =====
-- osbase/logtree/journal_entry.go, unlink: what it does to the list of the entries.
use monogon.Prelude.{
  ℕ, ◌≡◌, refl, true, false, Option, none, some, if◌then◌else◌, ◌==◌, ==_iff, eq_refl, List, [],
  ◌∷◌, arith, inl, inr, Bool-cases,
}
use monogon.Logtree.Linked.{Links, points, put_at, cut}
use monogon.Logtree.Linked.Chain.{
  has, IsDistinct, first, last_or, without, Chain, Holds, Chain-frame, last_or-has, neighbours,
}

-- Behind a cut entry the list goes on from the one in front of it.
drop-Chain :
    (prev next : ℕ → Option ℕ) (p : Option ℕ) (xs : List ℕ) (e : ℕ)
    → next e ≡ first xs
    → ((y : ℕ) → has y xs ≡ true → points p y ≡ false)
    → IsDistinct xs
    → Chain prev next (some e) xs
    → Chain (put_at (next e) p prev) (put_at p (next e) next) p xs
drop-Chain prev next p [] e after front d c = tt
drop-Chain prev next p (y ∷ ys) e after front d c = (
  ground (arith, after, eq_refl y),
  ground (arith, front y, eq_refl y, c),
  Chain-frame prev next (put_at (next e) p prev) (put_at p (next e) next) (some y) ys
      (λ z h. (ground (arith, after, d, h, ==_iff y z), ground (arith, front z, h))) c.2,
)

next-cut :
    (prev next : ℕ → Option ℕ) (x : ℕ) (xs : List ℕ) (e : ℕ)
    → has e xs ≡ true
    → IsDistinct (x ∷ xs)
    → next x ≡ first xs
    → Chain prev next (some x) xs
    → put_at (prev e) (next e) next x ≡ first (without e xs)
next-cut prev next x [] e inside d after c = absurd (ground (arith, inside))
next-cut prev next x (y ∷ ys) e inside (out, d) after c = elim (Bool-cases (e == y)) [
  | inl same ↦ ground (arith, same, ==_iff e y, c, eq_refl x)
  | inr apart ↦
      let near = neighbours prev next (some y) ys e x (ground (arith, inside, apart)) c.2 in
      ground (arith, near.0, out, apart, after, ==_iff y x)
]

cut-Chain :
    (prev next : ℕ → Option ℕ) (p : Option ℕ) (xs : List ℕ) (e : ℕ)
    → has e xs ≡ true
    → ((y : ℕ) → has y xs ≡ true → points p y ≡ false)
    → IsDistinct xs
    → Chain prev next p xs
    → Chain (put_at (next e) (prev e) prev) (put_at (prev e) (next e) next) p (without e xs)
cut-Chain prev next p [] e inside front d c = absurd (ground (arith, inside))
cut-Chain prev next p (x ∷ xs) e inside front (out, d) (a, b, c) = elim (Bool-cases (e == x)) [
  | inl same ↦
      let f : e ≡ x = (==_iff e x).0 same in
      let before : prev e ≡ p = rw f a in
      let start =
        drop-Chain prev next p xs e (rw f b) (λ y h. front y (ground (arith, h))) d (rw f c) in
      rw (same, before) start
  | inr apart ↦
      let there : has e xs ≡ true = ground (arith, inside, apart) in
      let near = neighbours prev next (some x) xs e x there c in
      let here : put_at (next e) (prev e) prev x ≡ p = ground (arith, near.1, out, a) in
      let after = next-cut prev next x xs e there (out, d) b c in
      let rest =
        cut-Chain prev next (some x) xs e there (λ y h. ground (arith, ==_iff x y, h, out)) d c in
      rw apart (here, after, rest)
]

last_or-drop :
    (prev : ℕ → Option ℕ) (p : Option ℕ) (xs : List ℕ) (e x : ℕ)
    → e ≡ x
    → prev x ≡ p
    → has x xs ≡ false
    → (if points (last_or (some x) xs) e then prev e else last_or (some x) xs)
      ≡ last_or p (without e (x ∷ xs))
last_or-drop prev p [] e x same a out = ground (arith, ==_iff e x, eq_refl x, same, a)
last_or-drop prev p (y ∷ ys) e x same a out =
    ground (arith, ==_iff e x, eq_refl x, same, a, out, last_or-has (some y) ys x)

last_or-cut :
    (prev next : ℕ → Option ℕ) (p : Option ℕ) (xs : List ℕ) (e : ℕ)
    → has e xs ≡ true
    → IsDistinct xs
    → Chain prev next p xs
    → (if points (last_or p xs) e then prev e else last_or p xs) ≡ last_or p (without e xs)
last_or-cut prev next p [] e inside d c = absurd (ground (arith, inside))
last_or-cut prev next p (x ∷ xs) e inside (out, d) (a, b, c) = elim (Bool-cases (e == x)) [
  | inl same ↦ let f : e ≡ x = (==_iff e x).0 same in last_or-drop prev p xs e x f a out
  | inr apart ↦
      ground (arith, apart, last_or-cut prev next (some x) xs e (ground (arith, inside, apart)) d c)
]

first-cut :
    (l : Links) (xs : List ℕ) (e : ℕ)
    → Holds l xs
    → (if points l.head e then l.next e else l.head) ≡ first (without e xs)
first-cut l [] e h = ground (arith, h.starts)
first-cut l (x ∷ xs) e h = ground (arith, h.starts, h.chained, ==_iff e x, ==_iff x e)

pub cut-Holds :
    (l : Links) (xs : List ℕ) (e : ℕ)
    → has e xs ≡ true
    → IsDistinct xs
    → Holds l xs
    → Holds (cut e l) (without e xs)
unfolding cut
cut-Holds l xs e inside d h = record {
  starts = first-cut l xs e h;
  ends = rw (h.ends) (last_or-cut l.prev l.next none xs e inside d h.chained);
  chained = cut-Chain l.prev l.next none xs e inside (λ y g. refl) d h.chained;
}

pub cut_frame :
    (l : Links) (xs : List ℕ) (e y : ℕ)
    → has e xs ≡ true
    → has y xs ≡ false
    → Holds l xs
    → ((cut e l).prev y ≡ l.prev y) × ((cut e l).next y ≡ l.next y)
unfolding cut
cut_frame l xs e y inside out h =
    let near = neighbours l.prev l.next none xs e y inside h.chained in
    (ground (arith, near.1, out), ground (arith, near.0, out))
