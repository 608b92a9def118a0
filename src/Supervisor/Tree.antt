-- ===== src/Supervisor/Tree.antt =====
-- osbase/supervisor/supervisor_node.go: the data of a supervision tree, and nodes by their path. The
-- source finds a node by the joined names of its path; that is the same node if no name has a dot
-- (Dn/Lookup is about the joined names).
-- A node is addressed by the names on the way from the root to it; see Dn for its textual form.
pub mod Laws
use monogon.Prelude.{
  ℕ, suc, ◌+◌, Bool, true, false, ◌||◌, List, [], ◌∷◌, Option, none, some, if◌then◌else◌, Bytes,
  bytes_eq,
}

pub data NodeState : Type 0 where
  new healthy dead done canceled : NodeState

-- What a node keeps beside its children. `cancelled` says that the node's own cancel function was
-- called; `failures` counts the backoffs taken since the last reset of its backoff.
pub record Info : Type 0 where
  pub name : Bytes
  pub state : NodeState
  pub cancelled : Bool
  pub groups : List (List Bytes)
  pub reserved : List Bytes
  pub failures : ℕ

mutual
  pub data Node : Type 0 where
    node : Info → Forest → Node

  pub data Forest : Type 0 where
    nil : Forest
    cons : Node → Forest → Forest

abbrev pub TreePath : Type 0
TreePath = List Bytes

abbrev pub info_of : Node → Info
info_of (node i f) = i

abbrev pub children_of : Node → Forest
children_of (node i f) = f

-- n.children[name]
unfoldable pub find : Bytes → Forest → Option Node
find x nil = none
find x (cons n f) = if bytes_eq (info_of n).name x then some n else find x f

unfoldable pub update_child : Bytes → (Node → Node) → Forest → Forest
update_child x g nil = nil
update_child x g (cons n f) =
    if bytes_eq (info_of n).name x then cons (g n) f else cons n (update_child x g f)

unfoldable pub get : TreePath → Node → Option Node
get [] t = some t
get (x ∷ p) (node i f) = elim (find x f) [ none ↦ none | some c ↦ get p c ]

-- The tree after an assignment through a pointer to the node at a path.
unfoldable pub modify : TreePath → (Node → Node) → Node → Node
modify [] g t = g t
modify (x ∷ p) g (node i f) = node i (update_child x (modify p g) f)

abbrev pub on_info : (Info → Info) → Node → Node
on_info h (node i f) = node (h i) f

-- What the node at a path keeps, if there is one.
abbrev pub info_at : TreePath → Node → Option Info
info_at p t = elim (get p t) [ none ↦ none | some n ↦ some (info_of n) ]

-- `ctx.Err() != nil` for the context of the node at a path: its own cancel function was called,
-- or that of a node above it, from whose context its own is derived.
unfoldable pub ctx_err : TreePath → Node → Bool
ctx_err [] (node i f) = i.cancelled
ctx_err (x ∷ p) (node i f) = i.cancelled || elim (find x f) [ none ↦ false | some c ↦ ctx_err p c ]

-- The rest of a path below another.
unfoldable pub strip : TreePath → TreePath → Option TreePath
strip [] q = some q
strip (x ∷ p) [] = none
strip (x ∷ p) (y ∷ q) = if bytes_eq x y then strip p q else none

unfoldable pub path_eq : TreePath → TreePath → Bool
path_eq [] [] = true
path_eq [] (y ∷ q) = false
path_eq (x ∷ p) [] = false
path_eq (x ∷ p) (y ∷ q) = if bytes_eq x y then path_eq p q else false

-- The number of nodes.
unfoldable mutual
  pub size : Node → ℕ
  size (node i f) = suc (size_forest f)

  pub size_forest : Forest → ℕ
  size_forest nil = 0
  size_forest (cons c f) = size c + size_forest f
