-- ===== src/Examples/Tree.antt =====
-- A supervision tree with two children in one group.
use monogon.Prelude.{
  inl, arith, ◌≡◌, ◌≢◌, refl, true, [], ◌∷◌, none, some, ◌⊎◌, inr, Bytes, bytes_eq, split_byte,
}
use monogon.Supervisor.Tree.{
  NodeState, Info, Node, node, Forest, nil, cons, TreePath, find, update_child, get, modify,
  info_at, ctx_err,
}
use monogon.Supervisor.Node.{
  member, valid_name, group_siblings, new_info, scheduled, refused, already_exists, check_names,
  put_child, create_children, add_group, run_group_at, run_group, signal_healthy, signal,
}
use monogon.Supervisor.Processor.{
  returned_error, process_died, is_expected, is_canceled, split_last, cancel_group, cancel_siblings,
}
use monogon.Supervisor.Died.{IsGrouped}
use monogon.Supervisor.Died.Effect.{Died, process_died_effect}
use monogon.Supervisor.RunGroup.{after_run, run_group_accepts}
use monogon.Supervisor.RunGroup.Refusals.{used, run_group_refuses}
use monogon.Supervisor.Invariant.{signal_effect, Turn}
use monogon.Supervisor.Reachable.{ran, Reach, here, next, root_tree, Reach-IsGrouped}
use monogon.Supervisor.Dn.{dn, dn_from, dot, node_by_dn}
use monogon.Supervisor.Dn.Lookup.{node_by_dn-dn, dotted_child_panics}

abbrev a : Bytes
a = b'a' ∷ []

abbrev b : Bytes
b = b'b' ∷ []

abbrev root_info : Info
root_info = new_info (b'r' ∷ b'o' ∷ b'o' ∷ b't' ∷ [])

-- The tree after the root has run the group {a, b}.
abbrev pair : Node
pair =
    node (record root_info { groups = (a ∷ b ∷ []) ∷ [] })
      (cons (node (new_info b) nil) (cons (node (new_info a) nil) nil))

pair_runs : run_group [] (a ∷ b ∷ []) root_tree ≡ some (pair, scheduled ((a ∷ []) ∷ (b ∷ []) ∷ []))
unfolding run_group get modify run_group_at check_names valid_name find member add_group
    create_children put_child bytes_eq group_siblings root_tree new_info
pair_runs = refl

pair-Reach : Reach pair
pair-Reach = next here (ran [] (a ∷ b ∷ []) (scheduled ((a ∷ []) ∷ (b ∷ []) ∷ [])) pair_runs)

Reach-IsGrouped_example : IsGrouped pair
Reach-IsGrouped_example = Reach-IsGrouped pair-Reach

a_info : info_at (a ∷ []) pair ≡ some (new_info a)
unfolding get find bytes_eq new_info
a_info = refl

process_died_effect_example :
    (t' : Node) × (process_died (a ∷ []) returned_error pair ≡ some t')
    × Died (a ∷ []) returned_error pair (new_info a) t'
process_died_effect_example =
    process_died_effect (a ∷ []) returned_error pair (new_info a) a_info
      (Reach-IsGrouped pair-Reach)

root_tree_info : get [] root_tree ≡ some (node root_info nil)
unfolding get root_tree
root_tree_info = refl

root_tree-IsGrouped : IsGrouped root_tree
root_tree-IsGrouped = Reach-IsGrouped here

-- The names "a" and "b" pass the checks on the fresh root, and so does "a.b".
names_fine :
    (check_names root_info nil (a ∷ b ∷ []) ≡ none)
    × (check_names root_info nil ((b'a' ∷ dot ∷ b) ∷ []) ≡ none)
unfolding check_names valid_name find member new_info
names_fine = (refl, refl)

root_is_new : root_info.state ≡ NodeState.new
unfolding new_info
root_is_new = refl

run_group_accepts_example :
    (t' : Node) × (run_group [] (a ∷ b ∷ []) root_tree
      ≡ some (t', scheduled ((a ∷ []) ∷ (b ∷ []) ∷ [])))
    × ((r : TreePath) → info_at r t' ≡ after_run [] root_info (a ∷ b ∷ []) r (info_at r root_tree))
unfolding new_info
run_group_accepts_example =
    run_group_accepts [] (a ∷ b ∷ []) root_tree root_info nil root_tree_info refl names_fine.0
      root_tree-IsGrouped

pair_children : Forest
pair_children = cons (node (new_info b) nil) (cons (node (new_info a) nil) nil)

pair_info : Info
pair_info = record root_info { groups = (a ∷ b ∷ []) ∷ [] }

get-pair : get [] pair ≡ some (node pair_info pair_children)
unfolding get pair_info pair_children
get-pair = refl

a_taken : (n : Node) × (get (a ∷ []) pair ≡ some n)
unfolding get find new_info bytes_eq
a_taken = (node (new_info a) nil, refl)

run_group_refuses_example :
    (t' : Node) × (run_group [] (a ∷ []) pair ≡ some (t', refused already_exists))
    × ((r : TreePath) → info_at r t' ≡ info_at r pair)
unfolding pair_info new_info
run_group_refuses_example =
    run_group_refuses [] (a ∷ []) pair pair_info pair_children already_exists get-pair
      (inr (refl, used a [] a_taken.0 (inl (inl (omega arith, omega arith))) a_taken.1))

signal_effect_example :
    ((st : NodeState) → ¬ Turn signal_healthy NodeState.new st)
      × (signal (a ∷ []) signal_healthy pair ≡ none)
    ⊎ ((st : NodeState) × (t' : Node) × Turn signal_healthy NodeState.new st
        × (signal (a ∷ []) signal_healthy pair ≡ some t')
        × (info_at (a ∷ []) t' ≡ some (record (new_info a) { state = st; failures = 0 }))
        × ((r : TreePath) → (a ∷ []) ≢ r → info_at r t' ≡ info_at r pair))
unfolding new_info
signal_effect_example = signal_effect (a ∷ []) signal_healthy pair (new_info a) a_info

node_by_dn-dn_example : node_by_dn (dn (a ∷ [])) pair ≡ get (a ∷ []) pair
node_by_dn-dn_example = node_by_dn-dn (a ∷ []) pair ((refl, tt), tt)

dn-a : dn (a ∷ []) ≡ b'r' ∷ b'o' ∷ b'o' ∷ b't' ∷ dot ∷ b'a' ∷ []
unfolding dn dn_from
dn-a = refl

dotted_parts : split_byte dot (b'a' ∷ dot ∷ b) ≡ a ∷ b ∷ []
unfolding split_byte
dotted_parts = refl

dotted_child_panics_example :
    (t' : Node) × (run_group [] ((b'a' ∷ dot ∷ b) ∷ []) root_tree
      ≡ some (t', scheduled (((b'a' ∷ dot ∷ b) ∷ []) ∷ [])))
    × (node_by_dn (dn ((b'a' ∷ dot ∷ b) ∷ [])) t' ≡ none)
unfolding new_info find
dotted_child_panics_example =
    dotted_child_panics [] (b'a' ∷ dot ∷ b) a b [] root_tree root_info nil root_tree_info refl
      names_fine.1 root_tree-IsGrouped tt dotted_parts refl

-- A runnable that was asked to stop and says so is CANCELED; one that fails takes its sibling along.
sibling_dies :
    elim (process_died (a ∷ []) returned_error pair) [
      | none ↦ none
      | some t ↦ some (ctx_err (b ∷ []) t)
    ]
    ≡ some true
unfolding process_died get find bytes_eq new_info is_expected is_canceled modify update_child
    cancel_siblings split_last group_siblings member cancel_group ctx_err
sibling_dies = refl
