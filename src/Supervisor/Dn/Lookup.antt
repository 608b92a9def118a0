-- ===== src/Supervisor/Dn/Lookup.antt =====
-- When the distinguished name of a node finds the node.
use monogon.Prelude.{
  ◌≡◌, refl, ◌∙◌, sym, List, [], ◌∷◌, ◌++◌, none, some, true, arith, Bytes, bytes_eq_refl,
  split_byte, split_byte-append, split_byte-clean, NotByte, All,
}
use mathlib.Core.List.{append-nil, append_assoc}
use monogon.Supervisor.Tree.{Info, Node, node, Forest, TreePath, find, get, info_at}
use monogon.Supervisor.Tree.Laws.{strip-append}
use monogon.Supervisor.Node.{scheduled, is_new, check_names, run_group}
use monogon.Supervisor.Died.{IsGrouped}
use monogon.Supervisor.RunGroup.{after_run, below_run, run_group_accepts, info_at-strip}
use monogon.Supervisor.Dn.{root_name, dot, dn_from, dn, lookup_parts, node_by_dn}

-- A name with no dot in it.
abbrev pub NoDot : Bytes → Type 0
NoDot x = All (NotByte dot) x

split-dn_from :
    (acc : Bytes) (p : TreePath)
    → All NoDot p
    → split_byte dot (dn_from acc p) ≡ split_byte dot acc ++ p
unfolding dn_from
split-dn_from acc [] h = sym (append-nil (split_byte dot acc))
split-dn_from acc (y ∷ p) h =
    split-dn_from (acc ++ dot ∷ y) p h.1
    ∙ rw (split_byte-append dot acc y, split_byte-clean dot y h.0)
        (append_assoc (split_byte dot acc) (y ∷ []) p)

dn_from-child :
    (acc : Bytes) (p : TreePath) (x : Bytes) → dn_from acc (p ++ x ∷ []) ≡ dn_from acc p ++ dot ∷ x
unfolding dn_from
dn_from-child acc [] x = refl
dn_from-child acc (y ∷ p) x = dn_from-child (acc ++ dot ∷ y) p x

root_name-clean : split_byte dot root_name ≡ root_name ∷ []
unfolding split_byte
root_name-clean = refl

-- A node is found by its distinguished name if no name on its path has a dot.
pub node_by_dn-dn : (p : TreePath) (t : Node) → All NoDot p → node_by_dn (dn p) t ≡ get p t
unfolding node_by_dn dn lookup_parts
node_by_dn-dn p t h = rw (split-dn_from root_name p h, root_name-clean, bytes_eq_refl root_name)

-- The distinguished name of a child is looked up along the parts of the child's name.
node_by_dn-child :
    (p : TreePath) (x : Bytes) (t : Node)
    → All NoDot p
    → node_by_dn (dn (p ++ x ∷ [])) t ≡ get (p ++ split_byte dot x) t
unfolding node_by_dn dn lookup_parts
node_by_dn-child p x t h = rw (
  dn_from-child root_name p x,
  split_byte-append dot (dn_from root_name p) x,
  split-dn_from root_name p h,
  root_name-clean,
  bytes_eq_refl root_name,
)

-- A child whose name has a dot: if the checks let the name pass, the child is created and its start
-- is requested, and the search for the name under which it is to be started panics, unless the
-- node has a child that is called like the part before the dot.
pub dotted_child_panics :
    (p : TreePath) (x y z : Bytes) (rest : List Bytes) (t : Node) (i : Info) (f : Forest)
    → get p t ≡ some (node i f)
    → is_new i.state ≡ true
    → check_names i f (x ∷ []) ≡ none
    → IsGrouped t
    → All NoDot p
    → split_byte dot x ≡ y ∷ z ∷ rest
    → find y f ≡ none
    → (t' : Node) × (run_group p (x ∷ []) t ≡ some (t', scheduled ((p ++ x ∷ []) ∷ [])))
      × (node_by_dn (dn (p ++ x ∷ [])) t' ≡ none)
unfolding after_run below_run get
dotted_child_panics p x y z rest t i f e young fine w clean parts gone =
    let (t', runs, effect) = run_group_accepts p (x ∷ []) t i f e young fine w in
    let path = p ++ y ∷ z ∷ rest in
    let under = strip-append p (y ∷ z ∷ rest) in
    let before : info_at path t ≡ none =
      ground (arith, info_at-strip p path (y ∷ z ∷ rest) t under, e, gone) in
    let after : info_at path t' ≡ none = effect path ∙ ground (arith, under, before) in
    let missing : get path t' ≡ none = ground (arith, after) in
    (t', runs, rw (node_by_dn-child p x t' clean, parts) missing)
