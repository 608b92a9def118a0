-- ===== src/Supervisor/Tree/Laws.antt =====
-- Looking up after a change: what stands at each path.
use monogon.Prelude.{
  ◌↔◌, ◌≡◌, refl, true, [], ◌∷◌, ◌++◌, none, some, if◌then◌else◌, arith, inl, inr, Bool-cases,
  Option-cases, Bytes, bytes_eq, bytes_eq_iff, bytes_eq_refl,
}
use monogon.Supervisor.Tree.{
  Info, Node, node, Forest, nil, cons, TreePath, info_of, find, update_child, get, modify, on_info,
  info_at, strip, path_eq,
}

-- A change of a node that leaves its name alone.
abbrev pub KeepsName : (Node → Node) → Type 0
KeepsName g = (n : Node) → (info_of (g n)).name ≡ (info_of n).name

find-update_child :
    (x y : Bytes) (g : Node → Node) (f : Forest)
    → KeepsName g
    → find x (update_child y g f)
      ≡ (if bytes_eq y x then elim (find y f) [ none ↦ none | some c ↦ some (g c) ] else find x f)
unfolding find update_child
find-update_child x y g nil k = ground arith
find-update_child x y g (cons n f) k = ground (
  arith,
  k n,
  find-update_child x y g f k,
  bytes_eq_iff y x,
  bytes_eq_iff (info_of n).name y,
  bytes_eq_iff (info_of n).name x,
)

modify-KeepsName : (p : TreePath) (g : Node → Node) → KeepsName g → KeepsName (modify p g)
unfolding modify
modify-KeepsName [] g k n = k n
modify-KeepsName (x ∷ p) g k (node i f) = refl

pub info_at-modify :
    (p q : TreePath) (g : Node → Node) (t : Node)
    → KeepsName g
    → info_at q (modify p g t) ≡ elim (strip p q) [
      | none ↦ info_at q t
      | some r ↦ elim (get p t) [ none ↦ none | some n ↦ info_at r (g n) ]
    ]
unfolding modify get strip
info_at-modify [] q g t k = refl
info_at-modify (x ∷ p) [] g (node i f) k = refl
info_at-modify (x ∷ p) (y ∷ q) g (node i f) k =
    let lookup = find-update_child y x (modify p g) f (modify-KeepsName p g k) in
    elim (Bool-cases (bytes_eq x y)) [
      | inl same ↦ elim (Option-cases (find x f)) [
        | inl gone ↦ ground (arith, gone, lookup, bytes_eq_iff x y)
        | inr (c, e) ↦ ground (arith, e, lookup, bytes_eq_iff x y, info_at-modify p q g c k)
      ]
      | inr other ↦ ground (arith, lookup)
    ]

-- A change of what one node keeps shows at its own path, and nowhere else.
pub info_at-on_info :
    (p q : TreePath) (h : Info → Info) (t : Node)
    → ((i : Info) → (h i).name ≡ i.name)
    → info_at q (modify p (on_info h) t) ≡ (
        if path_eq p q
        then elim (info_at q t) [ none ↦ none | some i ↦ some (h i) ]
        else info_at q t)
unfolding modify get path_eq
info_at-on_info [] [] h (node i f) k = refl
info_at-on_info [] (y ∷ q) h (node i f) k = refl
info_at-on_info (x ∷ p) [] h (node i f) k = refl
info_at-on_info (x ∷ p) (y ∷ q) h (node i f) k =
    let keeps : KeepsName (on_info h) = λ n. on_info-name h k n in
    let lookup =
      find-update_child y x (modify p (on_info h)) f (modify-KeepsName p (on_info h) keeps) in
    elim (Bool-cases (bytes_eq x y)) [
      | inl same ↦ elim (Option-cases (find x f)) [
        | inl gone ↦ ground (arith, gone, lookup, bytes_eq_iff x y)
        | inr (c, e) ↦ ground (arith, e, lookup, bytes_eq_iff x y, info_at-on_info p q h c k)
      ]
      | inr other ↦ ground (arith, lookup)
    ]
  where
    on_info-name : (h : Info → Info) → ((i : Info) → (h i).name ≡ i.name) → KeepsName (on_info h)
    on_info-name h k (node i f) = k i

path_eq→eq : (p q : TreePath) → path_eq p q ≡ true → p ≡ q
unfolding path_eq
path_eq→eq [] [] h = refl
path_eq→eq [] (y ∷ q) h = cc
path_eq→eq (x ∷ p) [] h = cc
path_eq→eq (x ∷ p) (y ∷ q) h = ground (arith, path_eq→eq p q, bytes_eq_iff x y)

pub path_eq_refl : (p : TreePath) → path_eq p p ≡ true
unfolding path_eq
path_eq_refl [] = refl
path_eq_refl (x ∷ p) = rw (bytes_eq_refl x) (path_eq_refl p)

pub path_eq_iff : (p q : TreePath) → (path_eq p q ≡ true) ↔ (p ≡ q)
path_eq_iff p q = (path_eq→eq p q, λ e. rw e (path_eq_refl q))

-- Where information is found there is a node, and the other way round.
pub get_of_info :
    (p : TreePath) (t : Node) (i : Info)
    → info_at p t ≡ some i
    → (n : Node) × (get p t ≡ some n) × (info_of n ≡ i)
get_of_info p t i h = elim (Option-cases (get p t)) [
  | inl e ↦ absurd (ground arith)
  | inr (n, e) ↦ (n, e, ground arith)
]

pub strip-append : (p r : TreePath) → strip p (p ++ r) ≡ some r
unfolding strip
strip-append [] r = refl
strip-append (x ∷ p) r = rw (bytes_eq_refl x) (strip-append p r)

pub strip-eq-nil : (p r : TreePath) → strip p r ≡ some [] → r ≡ p
unfolding strip
strip-eq-nil [] r h = ground arith
strip-eq-nil (x ∷ p) [] h = cc
strip-eq-nil (x ∷ p) (y ∷ r) h = ground (arith, strip-eq-nil p r, bytes_eq_iff x y)
