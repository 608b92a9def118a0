-- ===== src/Logtree/Scans.antt =====
-- osbase/logtree/journal.go, scanEntries and getEntries: which entries the scans return.
use monogon.Prelude.{
  ℕ, zero, suc, ◌+◌, ◌<◌, ◌≤◌, ◌≡◌, refl, sym, ap, ◌∙◌, Bool, true, Option, none, some,
  if◌then◌else◌, List, [], ◌∷◌, ◌++◌, arith, Bytes, bytes_eq, length, length-append, take,
}
use mathlib.Core.Path.{subst}
use monogon.Logtree.Linked.Chain.{first, last_or, Chain, Holds}
use monogon.Logtree.Views.{restrict, origins, IsLinked}
use monogon.Logtree.Linked.{Links}
use monogon.Logtree.Reading.{Filter, passes, reverse, scan_back, scan_entries, get_entries}
use monogon.Logtree.Access.{is_wanted}
use monogon.Logtree.{Journal, local_links}

abbrev pub filter : (ℕ → Bool) → List ℕ → List ℕ
filter p [] = []
filter p (x ∷ xs) = if p x then x ∷ filter p xs else filter p xs

append_assoc : (xs : List ℕ) (y : ℕ) (ys : List ℕ) → (xs ++ y ∷ []) ++ ys ≡ xs ++ y ∷ ys
append_assoc [] y ys = refl
append_assoc (x ∷ xs) y ys = ap (◌∷◌ x) (append_assoc xs y ys)

append_nil : (xs : List ℕ) → xs ++ [] ≡ xs
append_nil [] = refl
append_nil (x ∷ xs) = ap (◌∷◌ x) (append_nil xs)

filter-append :
    (p : ℕ → Bool) (xs : List ℕ) (y : ℕ)
    → filter p (xs ++ y ∷ []) ≡ (if p y then filter p xs ++ y ∷ [] else filter p xs)
filter-append p [] y = refl
filter-append p (x ∷ xs) y = ground (arith, filter-append p xs y)

filter-reverse : (p : ℕ → Bool) (xs : List ℕ) → filter p (reverse xs) ≡ reverse (filter p xs)
filter-reverse p [] = refl
filter-reverse p (x ∷ xs) = ground (arith, filter-append p (reverse xs) x, filter-reverse p xs)

length-reverse : (xs : List ℕ) → length (reverse xs) ≡ length xs
length-reverse [] = refl
length-reverse (x ∷ xs) = ground (arith, length-append (reverse xs) (x ∷ []), length-reverse xs)

-- The newest entries of a list that starts with the oldest, as many as are asked for.
abbrev pub newest : Option ℕ → List ℕ → List ℕ
newest none ys = ys
newest (some n) ys = take n ys

abbrev pub latest : Option ℕ → List ℕ → List ℕ
latest count xs = reverse (newest count (reverse xs))

-- The pointers back along a list that starts with the newest entry.
abbrev Back : (ℕ → Option ℕ) → List ℕ → Type 0
Back prev [] = Unit {0}
Back prev (y ∷ ys) = (prev y ≡ first ys) × Back prev ys

Chain-Back :
    (prev next : ℕ → Option ℕ) (xs ys : List ℕ)
    → Chain prev next (first ys) xs
    → Back prev ys
    → Back prev (reverse xs ++ ys) × (last_or (first ys) xs ≡ first (reverse xs ++ ys))
Chain-Back prev next [] ys c b = (b, refl)
Chain-Back prev next (x ∷ xs) ys c b =
    subst (λ zs. Back prev zs × (last_or (some x) xs ≡ first zs))
      (sym (append_assoc (reverse xs) x ys)) (Chain-Back prev next xs (x ∷ ys) c.2 (c.0, b))

Holds-Back :
    (l : Links) (xs : List ℕ)
    → Holds l xs
    → Back l.prev (reverse xs) × (l.tail ≡ first (reverse xs))
Holds-Back l xs h =
    let (b, f) = Chain-Back l.prev l.next xs [] h.chained tt in
    subst (λ zs. Back l.prev zs × (l.tail ≡ first zs)) (append_nil (reverse xs)) (b, h.ends ∙ f)

scan_back-all :
    (fuel : ℕ) (prev : ℕ → Option ℕ) (p : ℕ → Bool) (ys res : List ℕ)
    → length ys < fuel
    → Back prev ys
    → scan_back fuel prev p none (first ys) res ≡ some (res ++ filter p ys)
unfolding scan_back
scan_back-all fuel prev p [] res enough b = ap some (sym (append_nil res))
scan_back-all zero prev p (y ∷ ys) res enough b = absurd (omega (arith, enough))
scan_back-all (suc fuel) prev p (y ∷ ys) res enough b =
    let taken = scan_back-all fuel prev p ys (res ++ y ∷ []) (omega (arith, enough)) b.1 in
    let left = scan_back-all fuel prev p ys res (omega (arith, enough)) b.1 in
    ground (arith, b.0, taken, left, append_assoc res y (filter p ys))

scan_back-some :
    (fuel : ℕ) (prev : ℕ → Option ℕ) (p : ℕ → Bool) (n m : ℕ) (ys res : List ℕ)
    → length ys < fuel
    → length res + suc m ≡ n
    → Back prev ys
    → scan_back fuel prev p (some n) (first ys) res ≡ some (res ++ take (suc m) (filter p ys))
unfolding scan_back
scan_back-some fuel prev p n m [] res enough room b = ap some (sym (append_nil res))
scan_back-some zero prev p n m (y ∷ ys) res enough room b = absurd (omega (arith, enough))
scan_back-some (suc fuel) prev p n zero (y ∷ ys) res enough room b =
    let left = scan_back-some fuel prev p n zero ys res (omega (arith, enough)) room b.1 in
    ground (arith, b.0, left, length-append res (y ∷ []), room)
scan_back-some (suc fuel) prev p n (suc m) (y ∷ ys) res enough room b =
    let more = length-append res (y ∷ []) in
    let taken =
      scan_back-some fuel prev p n m ys (res ++ y ∷ []) (omega (arith, enough))
        (omega (arith, more, room)) b.1 in
    let left = scan_back-some fuel prev p n (suc m) ys res (omega (arith, enough)) room b.1 in
    ground (arith, b.0, taken, left, more, room, append_assoc res y (take (suc m) (filter p ys)))

scan_back-newest :
    (fuel : ℕ) (prev : ℕ → Option ℕ) (p : ℕ → Bool) (count : Option ℕ) (xs : List ℕ)
    → is_wanted count ≡ true
    → length xs < fuel
    → Back prev (reverse xs)
    → scan_back fuel prev p count (first (reverse xs)) []
      ≡ some (newest count (reverse (filter p xs)))
unfolding is_wanted
scan_back-newest fuel prev p none xs wanted enough b =
    rw (sym (filter-reverse p xs))
      (scan_back-all fuel prev p (reverse xs) [] (rw (length-reverse xs) enough) b)
scan_back-newest fuel prev p (some zero) xs wanted enough b = absurd (ground (arith, wanted))
scan_back-newest fuel prev p (some (suc n)) xs wanted enough b = rw (sym (filter-reverse p xs)) (
    scan_back-some fuel prev p (suc n) n (reverse xs) [] (rw (length-reverse xs) enough)
      (omega arith) b)

reversed :
    {o : Option (List ℕ)} {res : List ℕ}
    → o ≡ some res
    → (elim o [ none ↦ none | some r ↦ some (reverse r) ]) ≡ some (reverse res)
reversed e = ap (λ o. elim o [ none ↦ none | some r ↦ some (reverse r) ]) e

pub scan_entries-latest :
    (fuel : ℕ) (count : Option ℕ) (filters : List Filter) (j : Journal) (g : List ℕ)
    → IsLinked j g
    → is_wanted count ≡ true
    → length g < fuel
    → scan_entries fuel count filters j
      ≡ some (latest count (filter (λ e. passes filters (j.entry e)) g))
unfolding scan_entries
scan_entries-latest fuel count filters j g linked wanted enough =
    let p = λ (e : ℕ). passes filters (j.entry e) in
    let (b, tail) = Holds-Back j.global g linked.globally in
    reversed (
      ap (λ c. scan_back fuel j.global.prev p count c []) tail
      ∙ scan_back-newest fuel j.global.prev p count g wanted enough b)

length-restrict :
    (origin : ℕ → Bytes) (d : Bytes) (g : List ℕ) → length (restrict origin d g) ≤ length g
length-restrict origin d [] = omega arith
length-restrict origin d (x ∷ xs) = ground (arith, length-restrict origin d xs)

pub filter-restrict :
    (origin : ℕ → Bytes) (d : Bytes) (p : ℕ → Bool) (g : List ℕ)
    → ((e : ℕ) → p e ≡ true → bytes_eq (origin e) d ≡ true)
    → filter p (restrict origin d g) ≡ filter p g
filter-restrict origin d p [] h = refl
filter-restrict origin d p (x ∷ xs) h = ground (arith, filter-restrict origin d p xs h, h x)

pub get_entries-latest :
    (fuel : ℕ) (count : Option ℕ) (d : Bytes) (filters : List Filter) (j : Journal) (g : List ℕ)
    → IsLinked j g
    → is_wanted count ≡ true
    → length g < fuel
    → get_entries fuel count d filters j
      ≡ some (latest count (filter (λ e. passes filters (j.entry e)) (restrict (origins j) d g)))
unfolding get_entries local_links
get_entries-latest fuel count d filters j g linked wanted enough =
    let p = λ (e : ℕ). passes filters (j.entry e) in
    let mine = restrict (origins j) d g in
    let (b, tail) = Holds-Back (local_links d j) mine (linked.locally d) in
    let short : length mine < fuel = omega (arith, length-restrict (origins j) d g, enough) in
    reversed (
      ap (λ c. scan_back fuel j.prev_local p count c []) tail
      ∙ scan_back-newest fuel j.prev_local p count mine wanted short b)
