-- ===== src/Logtree/Appending.antt =====
-- osbase/logtree/journal_entry.go, append: the new entry at the end, and the quota.
use monogon.Prelude.{
  ℕ, ◌+◌, ◌^◌, ◌<◌, ◌≤◌, ◌≡◌, refl, sym, ap, ◌∙◌, false, Option, none, some, List, [], ◌∷◌, ◌++◌,
  arith, inl, inr, Bool-cases, Bytes, ◌⊎◌, bytes_eq, bytes_eq_iff, bytes_eq_refl, length,
  length-append,
}
use mathlib.Core.Path.{subst}
use monogon.Logtree.Linked.{push}
use monogon.Logtree.Linked.Chain.{has}
use monogon.Logtree.Views.{restrict, origins, restrict-append, insert_local-IsLinked}
use monogon.Logtree.Standing.{trimmed, Stands, create_quota_lem, insert_local-IsNumbered}
use monogon.Logtree.{
  Entry, new_journal, Journal, origin_of, local_links, set_local_links, create_quota, next_seq,
  insert_local, append,
}
use monogon.Logtree.Quotas.{limit_of, Represents, length-trimmed, apply_quota-Kept}

insert_local-Stands :
    (j : Journal) (g : List ℕ) (e : ℕ) (q : Bytes → Option ℕ)
    → has e g ≡ false
    → Stands j g
    → Stands
        (insert_local e (origin_of e j) (record j { global = push e j.global; quota = q }))
        (g ++ e ∷ [])
unfolding insert_local set_local_links next_seq
insert_local-Stands j g e q fresh s = record {
  linked = insert_local-IsLinked j g e q fresh s.linked;
  numbered = insert_local-IsNumbered j g e fresh s.linked s.numbered;
}

insert_local_frame :
    (e : ℕ) (d : Bytes) (j : Journal)
    → ((insert_local e d j).quota ≡ j.quota) × ((insert_local e d j).entry ≡ j.entry)
unfolding insert_local set_local_links
insert_local_frame e d j = (refl, refl)

nonempty :
    (xs : List ℕ) (e : ℕ)
    → (x : ℕ) × (ys : List ℕ) × (xs ++ e ∷ [] ≡ x ∷ ys) × (length ys ≡ length xs)
nonempty [] e = (e, [], refl, refl)
nonempty (x ∷ xs) e = (x, xs ++ e ∷ [], refl, ground (arith, length-append xs (e ∷ [])))

-- The quota of the DN of the new entry, and the entries it has so far.
append-Kept :
    (j : Journal) (g : List ℕ) (e max : ℕ)
    → has e g ≡ false
    → Stands j g
    → create_quota (origin_of e j) j.quota (origin_of e j) ≡ some max
    → length (restrict (origins j) (origin_of e j) g) ≤ max
    → max + 1 < 2 ^ 64
    → (j' : Journal) × (append e j ≡ some j')
      × Stands j' (trimmed (origins j) (origin_of e j) max (g ++ e ∷ []))
      × (j'.quota ≡ create_quota (origin_of e j) j.quota)
      × (j'.entry ≡ j.entry)
unfolding append insert_local set_local_links
append-Kept j g e max fresh s quota short small =
    let d = origin_of e j in
    let base = record j { global = push e j.global; quota = create_quota d j.quota } in
    let after = insert_local e d base in
    let grown : restrict (origins j) d (g ++ e ∷ []) ≡ restrict (origins j) d g ++ e ∷ [] =
      ground (arith, restrict-append (origins j) d g e, bytes_eq_refl d) in
    let (x, ys, shape, n) = nonempty (restrict (origins j) d g) e in
    let stands = insert_local-Stands j g e (create_quota d j.quota) fresh s in
    apply_quota-Kept after (g ++ e ∷ []) d max x ys stands quota (grown ∙ shape)
      (omega (arith, n, short)) small

-- The entries of the DN so far, and its quota after the append.
limits :
    (j : Journal) (g : List ℕ) (d : Bytes) (max : ℕ)
    → Represents j g
    → (j.quota d ≡ some max) ⊎ ((j.quota d ≡ none) × (max ≡ 8192))
    → (length (restrict (origins j) d g) ≤ max) × (1 ≤ max) × (max + 1 < 2 ^ 64)
limits j g d max r (inl there) =
    (ground (arith, r.bounded d, there), (r.quotas d max there).0, (r.quotas d max there).1)
limits j g d max r (inr (gone, is)) =
    (ground (arith, r.bounded d, gone, is), omega (arith, is), omega (arith, is))

length-appended :
    (j : Journal) (g : List ℕ) (e max : ℕ)
    → length (restrict (origins j) (origin_of e j) g) ≤ max
    → length (restrict (origins j) (origin_of e j) (g ++ e ∷ [])) ≤ max + 1
length-appended j g e max short =
    let d = origin_of e j in
    ground (
      arith,
      restrict-append (origins j) d g e,
      bytes_eq_refl d,
      length-append (restrict (origins j) d g) (e ∷ []),
      short,
    )

trimmed-bounded :
    (j : Journal) (g : List ℕ) (e max : ℕ) (d' : Bytes)
    → Represents j g
    → (j.quota (origin_of e j) ≡ some max) ⊎ ((j.quota (origin_of e j) ≡ none) × (max ≡ 8192))
    → create_quota (origin_of e j) j.quota (origin_of e j) ≡ some max
    → length (restrict (origins j) d' (trimmed (origins j) (origin_of e j) max (g ++ e ∷ [])))
      ≤ limit_of (create_quota (origin_of e j) j.quota d')
trimmed-bounded j g e max d' r was quota =
    let d = origin_of e j in
    let (before, _, _) = limits j g d max r was in
    let lengths =
      length-trimmed (origins j) d d' max (g ++ e ∷ []) (length-appended j g e max before) in
    elim (Bool-cases (bytes_eq d d')) [
      | inl same ↦
          let f : d ≡ d' = (bytes_eq_iff d d').0 same in
          rw (sym f) (ground (arith, lengths.0, quota))
      | inr apart ↦ ground (
        arith,
        lengths.1 apart,
        (create_quota_lem d d' j.quota).0 apart,
        r.bounded d',
        restrict-append (origins j) d' g e,
        apart,
      )
    ]

created :
    (j : Journal) (g : List ℕ) (d : Bytes) (max : ℕ) (d' : Bytes) (q : ℕ)
    → Represents j g
    → (j.quota d ≡ some max) ⊎ ((j.quota d ≡ none) × (max ≡ 8192))
    → create_quota d j.quota d ≡ some max
    → create_quota d j.quota d' ≡ some q
    → (1 ≤ q) × (q + 1 < 2 ^ 64)
created j g d max d' q r was quota h = elim (Bool-cases (bytes_eq d d')) [
  | inl same ↦
      let f : d ≡ d' = (bytes_eq_iff d d').0 same in
      let here = subst (λ x. create_quota d j.quota x ≡ some q) (sym f) h in
      let (_, positive, small) = limits j g d max r was in
      ground (arith, here, quota, positive, small)
  | inr apart ↦ r.quotas d' q (sym ((create_quota_lem d d' j.quota).0 apart) ∙ h)
]

-- A new entry is appended to a journal whose lists, numbers and quotas fit a list of entries. It
-- comes behind all others; if its DN is then over its quota, which is 8192 for a new DN, the oldest
-- entry of that DN is gone, and nothing else. No nil pointer is hit, and the lists, numbers and
-- quotas fit the new list of entries.
pub append-Represents :
    (j : Journal) (g : List ℕ) (e : ℕ)
    → has e g ≡ false
    → Represents j g
    → (j' : Journal) × (max : ℕ) × (append e j ≡ some j')
      × Represents j' (trimmed (origins j) (origin_of e j) max (g ++ e ∷ []))
      × ((j.quota (origin_of e j) ≡ some max) ⊎ ((j.quota (origin_of e j) ≡ none) × (max ≡ 8192)))
      × (j'.entry ≡ j.entry)
append-Represents j g e fresh r =
    let d = origin_of e j in
    let (_, max, quota, was) = create_quota_lem d d j.quota in
    let (before, positive, small) = limits j g d max r was in
    let (j', run, stands, quotas, entries) =
      append-Kept j g e max fresh (record { linked = r.linked; numbered = r.numbered }) quota before
        small in
    let left = trimmed (origins j) d max (g ++ e ∷ []) in
    let names : origins j' ≡ origins j = ap (λ f. λ x. (f x).origin) entries in
    let same_quota : (d' : Bytes) → j'.quota d' ≡ create_quota d j.quota d' =
      λ d'. ap (λ f. f d') quotas in
    let represents : Represents j' left = record {
      linked = stands.linked;
      numbered = stands.numbered;
      bounded = λ d'.
          subst (λ o. length (restrict o d' left) ≤ limit_of (j'.quota d')) (sym names)
            (subst (λ o. length (restrict (origins j) d' left) ≤ limit_of o) (sym (same_quota d'))
              (trimmed-bounded j g e max d' r was quota));
      quotas = λ d' q h. created j g d max d' q r was quota (sym (same_quota d') ∙ h);
    } in
    (j', max, run, represents, was, entries)

-- The new journal holds nothing.
pub new_journal-Represents : (entry : ℕ → Entry) → Represents (new_journal entry) []
unfolding new_journal local_links
new_journal-Represents entry = record {
  linked = record {
    distinct = tt;
    globally = record { starts = refl; ends = refl; chained = tt };
    locally = λ d. record { starts = refl; ends = refl; chained = tt };
  };
  numbered = λ d. tt;
  bounded = λ d. omega arith;
  quotas = λ d q h. absurd (ground (arith, h));
}
