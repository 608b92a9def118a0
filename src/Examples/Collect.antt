-- ===== src/Examples/Collect.antt =====
-- Phase two of the collection on the tree with two children.
use monogon.Prelude.{
  ◌≡◌, ◌↔◌, refl, true, Bool, [], ◌∷◌, some, arith, inl, inr, bytes_eq, bytes_eq→eq, Bool-cases, ap,
  sym,
}
use monogon.Supervisor.Tree.{Info, Node, node, nil, cons, TreePath, find, get}
use monogon.Supervisor.Node.{new_info}
use monogon.Supervisor.Gc.{Opinions, opinion, visit_loop}
use monogon.Supervisor.Gc.Sets.{In}
use monogon.Supervisor.Gc.Idle.{AllIdle}
use monogon.Supervisor.Gc.Ends.{IsStart, fuel_for, visit_loop_decides}

-- A root with one child, which has none.
abbrev line_tree : Node
line_tree = node (new_info []) (cons (node (new_info (1 ∷ [])) nil) nil)

abbrev child : TreePath
child = (1 ∷ []) ∷ []

valid : (p : TreePath) → In p (child ∷ []) → (n : Node) × (get p line_tree ≡ some n)
unfolding get find bytes_eq new_info
valid p (inl e) = rw e (node (new_info (1 ∷ [])) nil, refl)
valid p (inr h) = absurd h

leaves : (p : TreePath) (i : Info) → get p line_tree ≡ some (node i nil) → In p (child ∷ [])
unfolding get find new_info
leaves [] i e = absurd (ground arith)
leaves (x ∷ []) i e = elim (Bool-cases (bytes_eq (1 ∷ []) x)) [
  | inl hit ↦ inl (ap (λ y. y ∷ []) (sym (bytes_eq→eq (1 ∷ []) x hit)))
  | inr miss ↦ absurd (ground (arith, miss))
]
leaves (x ∷ y ∷ p) i e = elim (Bool-cases (bytes_eq (1 ∷ []) x)) [
  | inl hit ↦ absurd (ground (arith, hit))
  | inr miss ↦ absurd (ground (arith, miss))
]

line_tree-IsStart : IsStart line_tree (child ∷ [])
line_tree-IsStart = record { valid = valid; leaves = leaves }

visit_loop_decides_example :
    (m : Opinions) × (visit_loop (fuel_for (child ∷ [])) line_tree (child ∷ []) [] ≡ some m)
    × ((p : TreePath) (n : Node)
        → get p line_tree ≡ some n
        → (b : Bool) × (opinion p m ≡ some b) × ((b ≡ true) ↔ AllIdle line_tree p))
visit_loop_decides_example = visit_loop_decides line_tree (child ∷ []) line_tree-IsStart
