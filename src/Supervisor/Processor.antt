-- ===== src/Supervisor/Processor.antt =====
-- osbase/supervisor/supervisor_processor.go: what the processor does to the tree when a runnable
-- has quit, and when the supervisor is killed. `none` is a panic.
use monogon.Prelude.{
  Bool, true, false, ◌&&◌, List, [], ◌∷◌, ◌++◌, Option, none, some, if◌then◌else◌, Bytes, bytes_eq,
}
use monogon.Supervisor.Tree.{
  NodeState, Info, Node, node, Forest, nil, cons, TreePath, info_of, get, modify, on_info, ctx_err,
}
use monogon.Supervisor.Node.{group_siblings}

-- How a runnable has returned: with no error, with an error that is `context.Canceled`, or with
-- another one, which a recovered panic is too.
pub data RunResult : Type 0 where
  returned_nil returned_canceled returned_error : RunResult

-- "It was marked as Done and quit with no error."
unfoldable pub is_expected : NodeState → RunResult → Bool
is_expected NodeState.done returned_nil = true
is_expected _ _ = false

unfoldable pub is_canceled : RunResult → Bool
is_canceled returned_canceled = true
is_canceled _ = false

abbrev pub set_canceled : Info → Info
set_canceled i = record i { state = NodeState.canceled }

abbrev pub set_dead : Info → Info
set_dead i = record i { state = NodeState.dead; cancelled = true }

abbrev pub cancel : Info → Info
cancel i = record i { cancelled = true }

-- `n.parent` and `n.name` of the node at a path.
unfoldable pub split_last : TreePath → Option (TreePath × Bytes)
split_last [] = none
split_last (x ∷ p) = elim (split_last p) [ none ↦ some ([], x) | some (q, y) ↦ some (x ∷ q, y) ]

-- `processKill`: the cancel function of every node is called. The order in which its queue finds the
-- nodes makes no difference.
unfoldable mutual
  pub process_kill : Node → Node
  process_kill (node i f) = node (cancel i) (kill_children f)

  pub kill_children : Forest → Forest
  kill_children nil = nil
  kill_children (cons n f) = cons (process_kill n) (kill_children f)

-- The loop over the siblings: it cancels each but the node itself.
unfoldable pub cancel_group : TreePath → Bytes → List Bytes → Node → Option Node
cancel_group q self [] t = some t
cancel_group q self (x ∷ g) t =
    let sibling = q ++ x ∷ [] in
    let step : Option Node = if bytes_eq x self then some t else elim (get sibling t) [
      | none ↦ none
      | some _ ↦ some (modify sibling (on_info cancel) t)
    ] in
    elim step [ none ↦ none | some t' ↦ cancel_group q self g t' ]

unfoldable pub cancel_siblings : TreePath → Node → Option Node
cancel_siblings p t = elim (split_last p) [
  | none ↦ some t
  | some (q, self) ↦ elim (get q t) [
    | none ↦ none
    | some parent ↦ elim (group_siblings self (info_of parent).groups) [
      | none ↦ some t
      | some g ↦ cancel_group q self g t
    ]
  ]
]

unfoldable pub process_died : TreePath → RunResult → Node → Option Node
process_died p r t = elim (get p t) [
  | none ↦ none
  | some n ↦
      if is_expected (info_of n).state r
      then some t
      else if is_canceled r && ctx_err p t
      then some (modify p (on_info set_canceled) t)
      else cancel_siblings p (modify p (on_info set_dead) t)
]
