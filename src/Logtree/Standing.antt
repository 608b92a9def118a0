-- ===== src/Logtree/Standing.antt =====
-- osbase/logtree/journal_entry.go, append and unlink: the lists and numbers they leave.
use monogon.Prelude.{
  ℕ, ◌+◌, ◌%◌, ◌^◌, ◌≡◌, refl, sym, true, false, Option, none, some, if◌then◌else◌, ◌==◌, ==_iff,
  eq_refl, List, [], ◌∷◌, ◌++◌, arith, inl, inr, Bool-cases, Option-cases, Bytes, ◌⊎◌, bytes_eq,
  bytes_eq_iff, bytes_eq_refl, ltb, length,
}
use mathlib.Core.Path.{subst}
use monogon.Logtree.Linked.Chain.{has, first, last_or, without, last_or-has}
use monogon.Logtree.Views.{
  restrict, origins, IsLinked, has-restrict, restrict-append, restrict-without, without_self,
  unlink-IsLinked,
}
use monogon.Logtree.Numbers.{IsNumbered, IsNumbered-frame, IsNumbered-append, IsNumbered-without}
use monogon.Logtree.{
  Journal, origin_of, put_seq, local_links, set_local_links, unlink, create_quota, next_seq,
}

abbrev pub drop_oldest : (ℕ → Bytes) → Bytes → List ℕ → List ℕ
drop_oldest origin d [] = []
drop_oldest origin d (x ∷ xs) = if bytes_eq (origin x) d then xs else x ∷ drop_oldest origin d xs

-- The entries without the oldest one of a DN that is over its quota.
abbrev pub trimmed : (ℕ → Bytes) → Bytes → ℕ → List ℕ → List ℕ
trimmed origin d max g =
    if ltb max (length (restrict origin d g)) then drop_oldest origin d g else g

pub first-restrict :
    (origin : ℕ → Bytes) (d : Bytes) (g : List ℕ) (h : ℕ)
    → first (restrict origin d g) ≡ some h
    → (bytes_eq (origin h) d ≡ true) × (has h g ≡ true)
first-restrict origin d [] h e = absurd (ground (arith, e))
first-restrict origin d (x ∷ xs) h e = ground (arith, e, first-restrict origin d xs h, eq_refl h)

pub without-first :
    (origin : ℕ → Bytes) (d : Bytes) (g : List ℕ) (h : ℕ)
    → first (restrict origin d g) ≡ some h
    → without h g ≡ drop_oldest origin d g
without-first origin d [] h e = refl
without-first origin d (x ∷ xs) h e = elim (Bool-cases (bytes_eq (origin x) d)) [
  | inl same ↦ ground (arith, same, e, ==_iff h x)
  | inr apart ↦
      let later = first-restrict origin d xs h (ground (arith, e, apart)) in
      let other : (h == x) ≡ false = ground (arith, ==_iff h x, later, apart) in
      ground (arith, apart, e, other, without-first origin d xs h)
]

-- The quota of a DN after an append.
pub create_quota_lem :
    (d d' : Bytes) (quota : Bytes → Option ℕ)
    → (bytes_eq d d' ≡ false → create_quota d quota d' ≡ quota d')
      × (max : ℕ) × (create_quota d quota d ≡ some max)
      × ((quota d ≡ some max) ⊎ ((quota d ≡ none) × (max ≡ 8192)))
unfolding create_quota
create_quota_lem d d' quota = elim (Option-cases (quota d)) [
  | inl gone ↦ (
    (λ apart. ground (arith, gone, apart)),
    8192,
    ground (arith, gone, bytes_eq_refl d),
    inr (gone, refl),
  )
  | inr (q, there) ↦ ((λ apart. ground (arith, there)), q, ground (arith, there), inl there)
]

pub record Stands (j : Journal) (g : List ℕ) : Type 0 where
  pub linked : IsLinked j g
  pub numbered : (d : Bytes) → IsNumbered j.seq_local (restrict (origins j) d g)

pub insert_local-IsNumbered :
    (j : Journal) (g : List ℕ) (e : ℕ)
    → has e g ≡ false
    → IsLinked j g
    → ((d : Bytes) → IsNumbered j.seq_local (restrict (origins j) d g))
    → (d : Bytes)
    → IsNumbered
        (put_seq e (next_seq (origin_of e j) j) j.seq_local)
        (restrict (origins j) d (g ++ e ∷ []))
unfolding next_seq local_links
insert_local-IsNumbered j g e fresh linked numbered d =
    let seq = put_seq e (next_seq (origin_of e j) j) j.seq_local in
    let old = restrict (origins j) d g in
    let same : (y : ℕ) → has y old ≡ true → seq y ≡ j.seq_local y =
      λ y k. ground (arith, has-restrict (origins j) d y g, k, fresh, ==_iff e y) in
    let kept = IsNumbered-frame j.seq_local seq old same (numbered d) in
    elim (Bool-cases (bytes_eq (origin_of e j) d)) [
      | inl here ↦
          let f : origin_of e j ≡ d = (bytes_eq_iff (origin_of e j) d).0 here in
          let tail : j.tails (origin_of e j) ≡ last_or none old = rw f ((linked.locally d).ends) in
          let next : seq e ≡ elim (last_or none old) [ none ↦ 0 | some t ↦ (seq t + 1) % 2 ^ 64 ] =
            elim (Option-cases (last_or none old)) [
              | inl gone ↦ ground (arith, tail, gone, eq_refl e)
              | inr (t, there) ↦
                  ground (arith, tail, there, eq_refl e, same t, last_or-has none old t, eq_refl t)
            ] in
          let grown : restrict (origins j) d (g ++ e ∷ []) ≡ old ++ e ∷ [] =
            ground (arith, restrict-append (origins j) d g e, here) in
          subst (λ xs. IsNumbered seq xs) (sym grown) (IsNumbered-append seq old e next kept)
      | inr apart ↦
          let still : restrict (origins j) d (g ++ e ∷ []) ≡ old =
            ground (arith, restrict-append (origins j) d g e, apart) in
          subst (λ xs. IsNumbered seq xs) (sym still) kept
    ]

pub unlink-Stands :
    (j : Journal) (g : List ℕ) (h : ℕ)
    → first (restrict (origins j) (origin_of h j) g) ≡ some h
    → Stands j g
    → Stands (unlink h j) (without h g)
unfolding unlink set_local_links
unlink-Stands j g h oldest s = record {
  linked = unlink-IsLinked j g h (first-restrict (origins j) (origin_of h j) g h oldest).1 s.linked;
  numbered = λ d.
      let mine = restrict (origins j) d g in
      let smaller : restrict (origins j) d (without h g) ≡ without h mine =
        restrict-without (origins j) d g h s.linked.distinct in
      let rest : IsNumbered j.seq_local (without h mine) =
        elim (Bool-cases (bytes_eq (origin_of h j) d)) [
          | inl same ↦
              let f : origin_of h j ≡ d = (bytes_eq_iff (origin_of h j) d).0 same in
              IsNumbered-without j.seq_local mine h (rw (sym f) oldest) (s.numbered d)
          | inr apart ↦
              let gone =
                without_self h mine (ground (arith, has-restrict (origins j) d h g, apart)) in
              subst (λ xs. IsNumbered j.seq_local xs) (sym gone) (s.numbered d)
        ] in
      subst (λ xs. IsNumbered j.seq_local xs) (sym smaller) rest;
}
