-- ===== src/Supervisor/Gc/Sets.antt =====
-- Queues as sets of paths, and opinions on the children of a node.
use monogon.Prelude.{
  ℕ, zero, suc, ◌<◌, ◌≡◌, refl, sym, ap, Bool, true, false, List, [], ◌∷◌, ◌++◌, none, some, arith,
  inl, inr, ◌⊎◌, Bool-cases, Option-cases, Bytes, bytes_eq, bytes_eq_iff, bytes_eq_refl, length,
  get_elem?,
}
use monogon.Supervisor.Tree.{Node, Forest, nil, cons, TreePath, info_of, find}
use monogon.Supervisor.Gc.{Opinions, opinion, all_visited, children_ready}

abbrev pub In : TreePath → List TreePath → Type 0
In p [] = ⊥
In p (x ∷ q) = (p ≡ x) ⊎ In p q

pub In-append_left : (p : TreePath) (q r : List TreePath) → In p q → In p (q ++ r)
In-append_left p [] r h = absurd h
In-append_left p (x ∷ q) r (inl e) = inl e
In-append_left p (x ∷ q) r (inr h) = inr (In-append_left p q r h)

pub In-append_right : (p : TreePath) (q r : List TreePath) → In p r → In p (q ++ r)
In-append_right p [] r h = h
In-append_right p (x ∷ q) r h = inr (In-append_right p q r h)

pub In-append_cases : (p : TreePath) (q r : List TreePath) → In p (q ++ r) → In p q ⊎ In p r
In-append_cases p [] r h = inr h
In-append_cases p (x ∷ q) r (inl e) = inl (inl e)
In-append_cases p (x ∷ q) r (inr h) = elim (In-append_cases p q r h) [
  | inl a ↦ inl (inr a)
  | inr b ↦ inr b
]

-- What is in a queue has a position in it.
pub In-index :
    (p : TreePath) (q : List TreePath)
    → In p q
    → (k : ℕ) × (get_elem? q k ≡ some p) × (k < length q)
In-index p [] h = absurd h
In-index p (x ∷ q) (inl e) = (0, ap some (sym e), omega arith)
In-index p (x ∷ q) (inr h) = let (k, e, lt) = In-index p q h in (suc k, e, omega arith)

pub get_elem?-append :
    (q r : List TreePath) (k : ℕ) (p : TreePath)
    → get_elem? q k ≡ some p
    → get_elem? (q ++ r) k ≡ some p
get_elem?-append [] r k p h = cc
get_elem?-append (x ∷ q) r zero p h = h
get_elem?-append (x ∷ q) r (suc k) p h = get_elem?-append q r k p h

pub find-name : (x : Bytes) (f : Forest) (c : Node) → find x f ≡ some c → (info_of c).name ≡ x
unfolding find
find-name x nil c h = cc
find-name x (cons n f) c h = elim (Bool-cases (bytes_eq (info_of n).name x)) [
  | inl hit ↦
      let same : n ≡ c = ground (arith, hit) in
      rw (← same) ((bytes_eq_iff (info_of n).name x).0 hit)
  | inr miss ↦ find-name x f c (ground (arith, miss))
]

-- If all children were visited, then so was each that has a name.
pub all_visited-find :
    (m : Opinions) (p : TreePath) (f : Forest) (x : Bytes) (c : Node)
    → all_visited m p f ≡ true
    → find x f ≡ some c
    → (b : Bool) × (opinion (p ++ x ∷ []) m ≡ some b)
unfolding all_visited find
all_visited-find m p nil x c h e = cc
all_visited-find m p (cons n f) x c h e = elim (Bool-cases (bytes_eq (info_of n).name x)) [
  | inl hit ↦
      let name = (bytes_eq_iff (info_of n).name x).0 hit in
      elim (Option-cases (opinion (p ++ x ∷ []) m)) [
        | inl gone ↦ absurd (ground (arith, name, gone))
        | inr found ↦ found
      ]
  | inr miss ↦ all_visited-find m p f x c (ground arith) (ground (arith, miss))
]

-- If not, there is a child that was not.
pub all_visited-false :
    (m : Opinions) (p : TreePath) (f : Forest)
    → all_visited m p f ≡ false
    → (x : Bytes) × (c : Node) × (find x f ≡ some c) × (opinion (p ++ x ∷ []) m ≡ none)
unfolding all_visited find
all_visited-false m p nil h = cc
all_visited-false m p (cons n f) h =
    let x = (info_of n).name in
    elim (Option-cases (opinion (p ++ x ∷ []) m)) [
      | inl new ↦ (x, n, rw (bytes_eq_refl x), new)
      | inr (b, old) ↦
          let (y, c, e, new) = all_visited-false m p f (ground (arith, old)) in
          elim (Bool-cases (bytes_eq x y)) [
            | inl same ↦ (y, n, rw same, new)
            | inr other ↦ (y, c, rw other e, new)
          ]
    ]

pub children_ready-find :
    (m : Opinions) (p : TreePath) (f : Forest) (x : Bytes) (c : Node)
    → children_ready m p f ≡ true
    → find x f ≡ some c
    → opinion (p ++ x ∷ []) m ≡ some true
unfolding children_ready find
children_ready-find m p nil x c h e = cc
children_ready-find m p (cons n f) x c h e = elim (Bool-cases (bytes_eq (info_of n).name x)) [
  | inl hit ↦ let name = (bytes_eq_iff (info_of n).name x).0 hit in ground (arith, name)
  | inr miss ↦ children_ready-find m p f x c (ground arith) (ground (arith, miss))
]

-- The children are ready if each that has a name is.
pub children_ready_of :
    (m : Opinions) (p : TreePath) (f : Forest)
    → ((x : Bytes) (c : Node) → find x f ≡ some c → opinion (p ++ x ∷ []) m ≡ some true)
    → children_ready m p f ≡ true
unfolding children_ready find
children_ready_of m p nil h = refl
children_ready_of m p (cons n f) h =
    let x = (info_of n).name in
    let first = h x n (rw (bytes_eq_refl x)) in
    let rest = children_ready_of m p f λ y c e. elim (Bool-cases (bytes_eq x y)) [
      | inl same ↦ let name : y ≡ x = sym ((bytes_eq_iff x y).0 same) in rw name first
      | inr other ↦ h y c (rw other e)
    ] in
    ground (arith, first, rest)
