-- ===== src/Supervisor/Died/Siblings.antt =====
-- The siblings of a node in its group, in terms of the groups that its parent keeps.
use monogon.Prelude.{
  ◌≡◌, ◌≢◌, refl, sym, true, List, [], ◌∷◌, ◌++◌, none, some, arith, inl, inr, ◌⊎◌, Bool-cases,
  Option-cases, Bytes, bytes_eq, bytes_eq_iff,
}
use monogon.Supervisor.Tree.{Info, Node, TreePath, info_at}
use monogon.Supervisor.Tree.Laws.{path_eq_iff, path_eq_refl}
use monogon.Supervisor.Node.{member, group_siblings}
use monogon.Supervisor.Processor.{split_last}
use monogon.Supervisor.Died.{is_sibling}

abbrev pub In : Bytes → List Bytes → Type 0
In x [] = ¬ Unit {0}
In x (y ∷ ys) = (y ≡ x) ⊎ In x ys

-- The first group that has the name.
pub data GroupOf (x : Bytes) : List (List Bytes) → List Bytes → Type 0 where
  in_first : (g : List Bytes) (gs : List (List Bytes)) → In x g → GroupOf x (g ∷ gs) g
  in_later :
      (h g : List Bytes) (gs : List (List Bytes)) → ¬ In x h → GroupOf x gs g → GroupOf x (h ∷ gs) g

-- The context of the node at `p` is cancelled: it is so at the node or at one above it.
abbrev pub IsCtxCancelled : TreePath → Node → Type 0
IsCtxCancelled p t =
    (q rest : TreePath) × (j : Info) × (p ≡ q ++ rest)
    × (info_at q t ≡ some j)
    × (j.cancelled ≡ true)

-- The path `r` is that of another member of the group of the node at `p`.
abbrev pub IsSibling : TreePath → Node → TreePath → Type 0
IsSibling p t r =
    (q : TreePath) × (self x : Bytes) × (j : Info) × (g : List Bytes) × (p ≡ q ++ self ∷ [])
    × (r ≡ q ++ x ∷ [])
    × (info_at q t ≡ some j)
    × GroupOf self j.groups g
    × In x g
    × (x ≢ self)

pub member-In : (x : Bytes) (g : List Bytes) → member x g ≡ true → In x g
unfolding member
member-In x [] h = absurd (ground (arith, h))
member-In x (y ∷ ys) h = elim (Bool-cases (bytes_eq y x)) [
  | inl e ↦ inl ((bytes_eq_iff y x).0 e)
  | inr miss ↦ inr (member-In x ys (ground (arith, h, miss)))
]

pub In-member : (x : Bytes) (g : List Bytes) → In x g → member x g ≡ true
unfolding member
In-member x [] h = absurd (h tt)
In-member x (y ∷ ys) (inl e) = ground (arith, (bytes_eq_iff y x).1 e)
In-member x (y ∷ ys) (inr later) = ground (arith, In-member x ys later)

pub GroupOf-siblings :
    (x : Bytes) (gs : List (List Bytes)) (g : List Bytes)
    → GroupOf x gs g
    → group_siblings x gs ≡ some g
unfolding group_siblings
GroupOf-siblings x _ _ (in_first g gs m) = ground (arith, In-member x g m)
GroupOf-siblings x _ _ (in_later h g gs out w) = elim (Bool-cases (member x h)) [
  | inl m ↦ absurd (out (member-In x h m))
  | inr miss ↦ ground (arith, miss, GroupOf-siblings x gs g w)
]

pub siblings-GroupOf :
    (x : Bytes) (gs : List (List Bytes)) (g : List Bytes)
    → group_siblings x gs ≡ some g
    → GroupOf x gs g
unfolding group_siblings
siblings-GroupOf x [] g h = absurd (ground (arith, h))
siblings-GroupOf x (k ∷ gs) g h = elim (Bool-cases (member x k)) [
  | inl m ↦ let same : k ≡ g = ground (arith, h, m) in rw (← same) (in_first k gs (member-In x k m))
  | inr miss ↦
      in_later k g gs (λ m. absurd (ground (arith, In-member x k m, miss)))
        (siblings-GroupOf x gs g (ground (arith, h, miss)))
]

pub split_last-end : (q : TreePath) (x : Bytes) → split_last (q ++ x ∷ []) ≡ some (q, x)
unfolding split_last
split_last-end [] x = refl
split_last-end (y ∷ q) x = rw (split_last-end q x) refl

pub split_last_lem : (p q : TreePath) (x : Bytes) → split_last p ≡ some (q, x) → p ≡ q ++ x ∷ []
unfolding split_last
split_last_lem [] q x h = absurd (ground (arith, h))
split_last_lem (y ∷ p) q x h = elim (Option-cases (split_last p)) [
  | inl last ↦ let root : p ≡ [] = nothing p last in ground (arith, h, last, root)
  | inr ((q', z), deeper) ↦ ground (arith, h, deeper, split_last_lem p q' z deeper)
]
  where
    nothing : (r : TreePath) → split_last r ≡ none → r ≡ []
    nothing [] e = refl
    nothing (w ∷ r) e = absurd (ground (arith, e, split_last, Option-cases (split_last r)))

pub sibling_found :
    (q : TreePath) (self : Bytes) (g : List Bytes) (r : TreePath)
    → is_sibling q self g r ≡ true
    → (x : Bytes) × (r ≡ q ++ x ∷ []) × In x g × (x ≢ self)
unfolding is_sibling
sibling_found q self [] r h = absurd (ground (arith, h))
sibling_found q self (x ∷ g) r h = elim (Bool-cases (is_sibling q self g r)) [
  | inl later ↦ let (y, e, m, ne) = sibling_found q self g r later in (y, e, inr m, ne)
  | inr miss ↦ (
    x,
    sym ((path_eq_iff (q ++ x ∷ []) r).0 (ground (arith, h, miss))),
    inl refl,
    λ e. absurd (ground (arith, h, miss, (bytes_eq_iff x self).1 e)),
  )
]

pub sibling_hit :
    (q : TreePath) (self x : Bytes) (g : List Bytes)
    → In x g
    → x ≢ self
    → is_sibling q self g (q ++ x ∷ []) ≡ true
unfolding is_sibling
sibling_hit q self x [] m ne = absurd (m tt)
sibling_hit q self x (y ∷ g) (inl e) ne =
    rw e (ground (arith, path_eq_refl (q ++ x ∷ []), bytes_eq_iff x self, ne))
sibling_hit q self x (y ∷ g) (inr later) ne = ground (arith, sibling_hit q self x g later ne)
