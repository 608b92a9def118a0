-- ===== src/Supervisor/Dn.antt =====
-- osbase/supervisor/supervisor_node.go: distinguished names, and nodes by them.
pub mod Lookup
use monogon.Prelude.{
  ℕ, List, [], ◌∷◌, ◌++◌, Option, none, some, if◌then◌else◌, Bytes, bytes_eq, split_byte,
}
use monogon.Supervisor.Tree.{Node, TreePath, get}

abbrev pub root_name : Bytes
root_name = b'r' ∷ b'o' ∷ b'o' ∷ b't' ∷ []

abbrev pub dot : ℕ
dot = b'.'

-- The name of a node below one that is called `parent_dn`.
unfoldable pub dn_from : Bytes → TreePath → Bytes
dn_from parent_dn [] = parent_dn
dn_from parent_dn (x ∷ p) = dn_from (parent_dn ++ dot ∷ x) p

unfoldable pub dn : TreePath → Bytes
dn p = dn_from root_name p

-- The search from the root; `none` is the panic.
unfoldable pub lookup_parts : List Bytes → Node → Option Node
lookup_parts [] t = none
lookup_parts (r ∷ parts) t = if bytes_eq r root_name then get parts t else none

unfoldable pub node_by_dn : Bytes → Node → Option Node
node_by_dn name t = lookup_parts (split_byte dot name) t
