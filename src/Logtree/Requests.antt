-- ===== src/Logtree/Requests.antt =====
-- osbase/logtree/logtree_access.go: the filters and scans of Read select what its options ask for.
use monogon.Prelude.{
  ℕ, zero, suc, ◌-◌, ◌≡◌, refl, sym, ap, ◌∙◌, true, false, ◌&&◌, Option, none, some, if◌then◌else◌,
  List, [], ◌∷◌, ◌++◌, arith, inl, inr, ◌⊎◌, Bool-cases, Option-cases, Bytes, bytes_eq,
  bytes_eq_iff, split_byte, ltb, leb, length, length-append, take, drop,
}
use monogon.Logtree.Reading.{
  Filter, passes, filter_all, filter_exact, filter_subtree, filter_severity, filter_only_raw,
  filter_only_leveled, starts_with, at_least, severity_at_least, reverse,
}
use monogon.Logtree.Access.{LogReadOption, no_option, is_nonempty, gather, filters_of}
use monogon.Logtree.Scans.{latest}
use monogon.Logtree.{Entry}
use monogon.Logtree.Options.{
  expects, gather-children, gather-leveled, gather-raw, gather-severity, is_below, is_prefix,
  is_severe, last_of, last_severity,
}

starts_with-is_prefix :
    (xs ys : List Bytes)
    → (if ltb (length ys) (length xs) then false else starts_with xs ys) ≡ is_prefix xs ys
unfolding starts_with
starts_with-is_prefix [] ys = ground arith
starts_with-is_prefix (x ∷ xs) [] = ground arith
starts_with-is_prefix (x ∷ xs) (y ∷ ys) = ground (arith, starts_with-is_prefix xs ys)

subtree_lem : (dn : Bytes) (e : Entry) → filter_subtree dn e ≡ is_below dn e.origin
unfolding filter_subtree filter_all
subtree_lem [] e = refl
subtree_lem (c ∷ dn) e = starts_with-is_prefix (split_byte b'.' (c ∷ dn)) (split_byte b'.' e.origin)

-- The cases of a severity: one of the letters, or no severity.
rank_cases :
    (s : Bytes)
    → (s ≡ b'I' ∷ [])
      ⊎ (s ≡ b'W' ∷ [])
      ⊎ (s ≡ b'E' ∷ [])
      ⊎ (s ≡ b'F' ∷ [])
      ⊎ (bytes_eq (b'I' ∷ []) s ≡ false)
        × (bytes_eq (b'W' ∷ []) s ≡ false)
        × (bytes_eq (b'E' ∷ []) s ≡ false)
        × (bytes_eq (b'F' ∷ []) s ≡ false)
rank_cases s = elim (Bool-cases (bytes_eq (b'I' ∷ []) s)) [
  | inl e ↦ inl (sym ((bytes_eq_iff (b'I' ∷ []) s).0 e))
  | inr i ↦ elim (Bool-cases (bytes_eq (b'W' ∷ []) s)) [
    | inl e ↦ inr (inl (sym ((bytes_eq_iff (b'W' ∷ []) s).0 e)))
    | inr w ↦ elim (Bool-cases (bytes_eq (b'E' ∷ []) s)) [
      | inl e ↦ inr (inr (inl (sym ((bytes_eq_iff (b'E' ∷ []) s).0 e))))
      | inr r ↦ elim (Bool-cases (bytes_eq (b'F' ∷ []) s)) [
        | inl e ↦ inr (inr (inr (inl (sym ((bytes_eq_iff (b'F' ∷ []) s).0 e)))))
        | inr f ↦ inr (inr (inr (inr (i, w, r, f))))
      ]
    ]
  ]
]

bytes_eq_sym : (xs ys : Bytes) → bytes_eq xs ys ≡ bytes_eq ys xs
unfolding bytes_eq
bytes_eq_sym [] [] = refl
bytes_eq_sym [] (y ∷ ys) = refl
bytes_eq_sym (x ∷ xs) [] = refl
bytes_eq_sym (x ∷ xs) (y ∷ ys) = ground (arith, bytes_eq_sym xs ys)

is_severe_lem : (s least : Bytes) → at_least s least ≡ is_severe least s
unfolding at_least severity_at_least bytes_eq
is_severe_lem s least = elim (rank_cases least) [
  | inl e ↦ rw e (ground (arith, rank_cases s))
  | inr (inl e) ↦ rw e (ground (arith, rank_cases s))
  | inr (inr (inl e)) ↦ rw e (ground (arith, rank_cases s))
  | inr (inr (inr (inl e))) ↦ rw e (ground (arith, rank_cases s))
  | inr (inr (inr (inr (i, w, r, f)))) ↦ ground (
    arith,
    i,
    w,
    r,
    f,
    bytes_eq_sym (b'I' ∷ []) least,
    bytes_eq_sym (b'W' ∷ []) least,
    bytes_eq_sym (b'E' ∷ []) least,
    bytes_eq_sym (b'F' ∷ []) least,
  )
]

passes-append :
    (fs gs : List Filter) (e : Entry) → passes (fs ++ gs) e ≡ (passes fs e && passes gs e)
unfolding passes
passes-append [] gs e = refl
passes-append (f ∷ fs) gs e = ground (arith, passes-append fs gs e)

passes-severity :
    (sev : Bytes) (e : Entry)
    → passes (if is_nonempty sev then filter_severity sev ∷ [] else []) e ≡ elim sev [
      | [] ↦ true
      | c ∷ s ↦ elim e.leveled [ none ↦ false | some p ↦ is_severe (c ∷ s) p.severity ]
    ]
unfolding passes filter_severity
passes-severity [] e = refl
passes-severity (c ∷ s) e = elim (Option-cases e.leveled) [
  | inl unleveled ↦ ground (arith, unleveled)
  | inr (p, is_p) ↦ ground (arith, is_p, is_severe_lem p.severity (c ∷ s))
]

pub passes-expects :
    (dn : Bytes) (opts : List LogReadOption) (e : Entry)
    → passes (filters_of dn (gather opts no_option)) e ≡ expects dn opts e
unfolding filters_of passes filter_exact filter_only_leveled filter_only_raw
passes-expects dn opts e =
    let s = gather opts no_option in
    let leveled = if s.only_leveled then filter_only_leveled ∷ [] else [] in
    let raw = if s.only_raw then filter_only_raw ∷ [] else [] in
    let sev =
      if is_nonempty s.leveled_with_minimum_severity
      then filter_severity s.leveled_with_minimum_severity ∷ []
      else [] in
    let rest = (if s.with_children then filter_subtree dn else filter_exact dn) ∷ sev in
    let severe : passes sev e ≡ elim (last_severity opts) [
      | [] ↦ true
      | c ∷ t ↦ elim e.leveled [ none ↦ false | some p ↦ is_severe (c ∷ t) p.severity ]
    ] =
      passes-severity s.leveled_with_minimum_severity e ∙ rw (gather-severity opts) refl in
    passes-append leveled (raw ++ rest) e
    ∙ ground (
      arith,
      passes-append raw rest e,
      severe,
      gather-leveled opts no_option,
      gather-raw opts no_option,
      gather-children opts no_option,
      subtree_lem dn e,
    )

reverse-append : (xs : List ℕ) (y : ℕ) → reverse (xs ++ y ∷ []) ≡ y ∷ reverse xs
reverse-append [] y = refl
reverse-append (x ∷ xs) y = ground (arith, reverse-append xs y)

reverse-reverse : (xs : List ℕ) → reverse (reverse xs) ≡ xs
reverse-reverse [] = refl
reverse-reverse (x ∷ xs) = reverse-append (reverse xs) x ∙ ap (◌∷◌ x) (reverse-reverse xs)

length-reverse : (xs : List ℕ) → length (reverse xs) ≡ length xs
length-reverse [] = refl
length-reverse (x ∷ xs) = ground (arith, length-append (reverse xs) (x ∷ []), length-reverse xs)

take-append :
    (n : ℕ) (ys : List ℕ) (x : ℕ)
    → take n (ys ++ x ∷ []) ≡ (if leb n (length ys) then take n ys else ys ++ x ∷ [])
take-append zero [] x = ground arith
take-append zero (y ∷ ys) x = ground arith
take-append (suc zero) [] x = ground arith
take-append (suc (suc n)) [] x = ground arith
take-append (suc n) (y ∷ ys) x = ground (arith, take-append n ys x)

nothing : (n m : ℕ) → reverse (take n []) ≡ drop {A = ℕ} m []
nothing zero zero = refl
nothing zero (suc m) = refl
nothing (suc n) zero = refl
nothing (suc n) (suc m) = refl

pub latest-last_of : (count : Option ℕ) (xs : List ℕ) → latest count xs ≡ last_of count xs
latest-last_of none xs = reverse-reverse xs
latest-last_of (some n) [] = nothing n (0 - n)
latest-last_of (some n) (x ∷ xs) =
    let ih = latest-last_of (some n) xs in
    let len = length-reverse xs in
    elim (Bool-cases (leb n (length xs))) [
      | inl few ↦
          let kept : take n (reverse xs ++ x ∷ []) ≡ take n (reverse xs) =
            ground (arith, take-append n (reverse xs) x, len, few) in
          let more : suc (length xs) - n ≡ suc (length xs - n) = ground (arith, few) in
          ap reverse kept ∙ ih ∙ rw more refl
      | inr many ↦
          let kept : take n (reverse xs ++ x ∷ []) ≡ reverse xs ++ x ∷ [] =
            ground (arith, take-append n (reverse xs) x, len, many) in
          let none_left : suc (length xs) - n ≡ 0 = ground (arith, many) in
          ap reverse kept ∙ reverse-reverse (x ∷ xs) ∙ rw none_left refl
    ]
