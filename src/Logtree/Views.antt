-- ===== src/Logtree/Views.antt =====
-- osbase/logtree/journal.go: the journal as the list of its entries, from the oldest to the newest,
-- of which the local list of a DN is a part.
use monogon.Prelude.{
  ℕ, ◌≡◌, refl, sym, ◌∙◌, true, false, ◌&&◌, ◌||◌, Option, none, if◌then◌else◌, ◌==◌, ==_iff, List,
  [], ◌∷◌, ◌++◌, arith, inl, inr, Bool-cases, Bytes, bytes_eq, bytes_eq_iff, bytes_eq_refl,
}
use mathlib.Core.Path.{subst}
use monogon.Logtree.Linked.{Links, push, cut}
use monogon.Logtree.Linked.Chain.{
  has, IsDistinct, without, Holds, Chain-frame, push-Holds, push_frame,
}
use monogon.Logtree.Linked.Cutting.{cut-Holds, cut_frame}
use monogon.Logtree.{
  Journal, origin_of, local_links, set_local_links, unlink, insert_local, put_seq, next_seq,
}

-- The entries with a DN.
abbrev pub restrict : (ℕ → Bytes) → Bytes → List ℕ → List ℕ
restrict origin d [] = []
restrict origin d (x ∷ xs) =
    if bytes_eq (origin x) d then x ∷ restrict origin d xs else restrict origin d xs

abbrev pub origins : Journal → ℕ → Bytes
origins j e = origin_of e j

pub record IsLinked (j : Journal) (g : List ℕ) : Type 0 where
  pub distinct : IsDistinct g
  pub globally : Holds j.global g
  pub locally : (d : Bytes) → Holds (local_links d j) (restrict (origins j) d g)

pub has-restrict :
    (origin : ℕ → Bytes) (d : Bytes) (x : ℕ) (g : List ℕ)
    → has x (restrict origin d g) ≡ (has x g && bytes_eq (origin x) d)
has-restrict origin d x [] = refl
has-restrict origin d x (y ∷ ys) = ground (arith, has-restrict origin d x ys, ==_iff x y)

pub restrict-append :
    (origin : ℕ → Bytes) (d : Bytes) (g : List ℕ) (e : ℕ)
    → restrict origin d (g ++ e ∷ [])
      ≡ (if bytes_eq (origin e) d then restrict origin d g ++ e ∷ [] else restrict origin d g)
restrict-append origin d [] e = ground arith
restrict-append origin d (x ∷ xs) e = ground (arith, restrict-append origin d xs e)

pub without_self : (e : ℕ) (g : List ℕ) → has e g ≡ false → without e g ≡ g
without_self e [] h = refl
without_self e (x ∷ xs) h = ground (arith, h, without_self e xs)

pub restrict-without :
    (origin : ℕ → Bytes) (d : Bytes) (g : List ℕ) (e : ℕ)
    → IsDistinct g
    → restrict origin d (without e g) ≡ without e (restrict origin d g)
restrict-without origin d [] e h = refl
restrict-without origin d (x ∷ xs) e (out, h) = elim (Bool-cases (e == x)) [
  | inl same ↦
      let f : e ≡ x = (==_iff e x).0 same in
      let gone : has e xs ≡ false = rw f out in
      let rest =
        without_self e (restrict origin d xs) (ground (arith, has-restrict origin d e xs, gone)) in
      ground (arith, same, rest)
  | inr apart ↦ ground (arith, apart, restrict-without origin d xs e h)
]

has-without : (x e : ℕ) (g : List ℕ) → has x (without e g) ≡ true → has x g ≡ true
has-without x e [] h = h
has-without x e (y ∷ ys) h = ground (arith, h, has-without x e ys)

without-IsDistinct : (e : ℕ) (g : List ℕ) → IsDistinct g → IsDistinct (without e g)
without-IsDistinct e [] d = tt
without-IsDistinct e (x ∷ xs) (out, d) = elim (Bool-cases (e == x)) [
  | inl same ↦ rw same d
  | inr apart ↦ rw apart ((ground (arith, has-without x e xs, out)), without-IsDistinct e xs d)
]

has-append : (x : ℕ) (g : List ℕ) (e : ℕ) → has x (g ++ e ∷ []) ≡ (has x g || (x == e))
has-append x [] e = ground arith
has-append x (y ∷ ys) e = ground (arith, has-append x ys e)

append-IsDistinct : (g : List ℕ) (e : ℕ) → has e g ≡ false → IsDistinct g → IsDistinct (g ++ e ∷ [])
append-IsDistinct [] e fresh d = (refl, tt)
append-IsDistinct (x ∷ xs) e fresh (out, d) = (
  ground (arith, has-append x xs e, out, fresh, ==_iff x e, ==_iff e x),
  append-IsDistinct xs e (ground (arith, fresh)) d,
)

pub restrict-IsDistinct :
    (origin : ℕ → Bytes) (d : Bytes) (g : List ℕ) → IsDistinct g → IsDistinct (restrict origin d g)
restrict-IsDistinct origin d [] h = tt
restrict-IsDistinct origin d (x ∷ xs) (out, h) = elim (Bool-cases (bytes_eq (origin x) d)) [
  | inl same ↦
      rw same ((ground (arith, has-restrict origin d x xs, out)), restrict-IsDistinct origin d xs h)
  | inr apart ↦ rw apart (restrict-IsDistinct origin d xs h)
]

set_local_links-same :
    (d : Bytes) (l : Links) (j : Journal) (xs : List ℕ)
    → Holds l xs
    → Holds (local_links d (set_local_links d l j)) xs
unfolding local_links set_local_links
set_local_links-same d l j xs h = record {
  starts = ground (arith, bytes_eq_refl d, h.starts);
  ends = ground (arith, bytes_eq_refl d, h.ends);
  chained = h.chained;
}

set_local_links-other :
    (d d' : Bytes) (l : Links) (j : Journal) (xs : List ℕ)
    → bytes_eq d d' ≡ false
    → ((y : ℕ) → has y xs ≡ true → (l.prev y ≡ j.prev_local y) × (l.next y ≡ j.next_local y))
    → Holds (local_links d' j) xs
    → Holds (local_links d' (set_local_links d l j)) xs
unfolding local_links set_local_links
set_local_links-other d d' l j xs apart same h = record {
  starts = ground (arith, apart, h.starts);
  ends = ground (arith, apart, h.ends);
  chained = Chain-frame j.prev_local j.next_local l.prev l.next none xs same h.chained;
}

-- An entry of another DN is not in the local list.
other-member :
    (origin : ℕ → Bytes) (d d' : Bytes) (g : List ℕ) (y : ℕ)
    → bytes_eq d d' ≡ false
    → has y (restrict origin d' g) ≡ true
    → has y (restrict origin d g) ≡ false
other-member origin d d' g y apart h = elim (Bool-cases (bytes_eq (origin y) d)) [
  | inl same ↦
      let f : origin y ≡ d = (bytes_eq_iff (origin y) d).0 same in
      absurd (ground (arith, has-restrict origin d' y g, h, apart, f))
  | inr apart_y ↦ ground (arith, has-restrict origin d y g, apart_y)
]

pub insert_local-IsLinked :
    (j : Journal) (g : List ℕ) (e : ℕ) (q : Bytes → Option ℕ)
    → has e g ≡ false
    → IsLinked j g
    → IsLinked
        (insert_local e (origin_of e j) (record j { global = push e j.global; quota = q }))
        (g ++ e ∷ [])
unfolding insert_local set_local_links local_links
insert_local-IsLinked j g e q fresh h = record {
  distinct = append-IsDistinct g e fresh h.distinct;
  globally = push-Holds j.global g e fresh h.distinct h.globally;
  locally = λ d'.
      let d = origin_of e j in
      let l = local_links d j in
      let mine = restrict (origins j) d g in
      let new : has e mine ≡ false = ground (arith, has-restrict (origins j) d e g, fresh) in
      let base = record j {
        seq_local = put_seq e (next_seq d j) j.seq_local;
        global = push e j.global;
        quota = q;
      } in
      let after = set_local_links d (push e l) base in
      elim (Bool-cases (bytes_eq d d')) [
        | inl same ↦
            let f : d ≡ d' = (bytes_eq_iff d d').0 same in
            let grown : restrict (origins j) d (g ++ e ∷ []) ≡ mine ++ e ∷ [] =
              ground (arith, restrict-append (origins j) d g e, bytes_eq_refl d) in
            let pushed =
              push-Holds l mine e new (restrict-IsDistinct (origins j) d g h.distinct)
                (h.locally d) in
            let there : Holds (local_links d after) (mine ++ e ∷ []) =
              set_local_links-same d (push e l) base (mine ++ e ∷ []) pushed in
            let here : Holds (local_links d after) (restrict (origins j) d (g ++ e ∷ [])) =
              subst (λ xs. Holds (local_links d after) xs) (sym grown) there in
            subst (λ x. Holds (local_links x after) (restrict (origins j) x (g ++ e ∷ []))) f here
        | inr apart ↦
            let kept : restrict (origins j) d' (g ++ e ∷ []) ≡ restrict (origins j) d' g =
              ground (arith, restrict-append (origins j) d' g e, apart) in
            let there : Holds (local_links d' after) (restrict (origins j) d' g) =
              set_local_links-other d d' (push e l) base (restrict (origins j) d' g) apart
                (λ y k.
                  push_frame l mine e y (h.locally d) (other-member (origins j) d d' g y apart k)
                    (ground (arith, has-restrict (origins j) d' y g, k, fresh, ==_iff e y)))
                (h.locally d') in
            subst (λ xs. Holds (local_links d' after) xs) (sym kept) there
      ];
}

pub unlink-IsLinked :
    (j : Journal) (g : List ℕ) (e : ℕ)
    → has e g ≡ true
    → IsLinked j g
    → IsLinked (unlink e j) (without e g)
unfolding unlink set_local_links local_links
unlink-IsLinked j g e inside h = record {
  distinct = without-IsDistinct e g h.distinct;
  globally = cut-Holds j.global g e inside h.distinct h.globally;
  locally = λ d'.
      let d = origin_of e j in
      let l = local_links d j in
      let mine = restrict (origins j) d g in
      let here : has e mine ≡ true =
        ground (arith, has-restrict (origins j) d e g, inside, bytes_eq_refl d) in
      let base = record j { global = cut e j.global } in
      let after = set_local_links d (cut e l) base in
      elim (Bool-cases (bytes_eq d d')) [
        | inl same ↦
            let f : d ≡ d' = (bytes_eq_iff d d').0 same in
            let smaller = restrict-without (origins j) d g e h.distinct in
            let kept =
              cut-Holds l mine e here (restrict-IsDistinct (origins j) d g h.distinct)
                (h.locally d) in
            let there : Holds (local_links d after) (without e mine) =
              set_local_links-same d (cut e l) base (without e mine) kept in
            let found : Holds (local_links d after) (restrict (origins j) d (without e g)) =
              subst (λ xs. Holds (local_links d after) xs) (sym smaller) there in
            subst (λ x. Holds (local_links x after) (restrict (origins j) x (without e g))) f found
        | inr apart ↦
            let gone : has e (restrict (origins j) d' g) ≡ false =
              ground (arith, has-restrict (origins j) d' e g, apart) in
            let kept : restrict (origins j) d' (without e g) ≡ restrict (origins j) d' g =
              restrict-without (origins j) d' g e h.distinct
              ∙ without_self e (restrict (origins j) d' g) gone in
            let there : Holds (local_links d' after) (restrict (origins j) d' g) =
              set_local_links-other d d' (cut e l) base (restrict (origins j) d' g) apart
                (λ y k.
                  cut_frame l mine e y here (other-member (origins j) d d' g y apart k)
                    (h.locally d))
                (h.locally d') in
            subst (λ xs. Holds (local_links d' after) xs) (sym kept) there
      ];
}
