-- ===== src/Supervisor/Gc.antt =====
-- osbase/supervisor/supervisor_processor.go, `processGC`: the search for the subtrees that are to
-- be restarted. A pointer to a node is its path; a set or map keyed by names is a list keyed by
-- paths. Each loop over a queue has fuel, and `none` says that it ran out.
pub mod Sets
pub mod Ready
pub mod Idle
pub mod Visit
pub mod Ends
use monogon.Prelude.{
  ℕ, zero, suc, Bool, true, false, ◌&&◌, List, [], ◌∷◌, ◌++◌, Option, none, some, if◌then◌else◌,
  Bytes,
}
use monogon.Supervisor.Tree.{
  NodeState, Info, Node, node, Forest, nil, cons, TreePath, info_of, children_of, get, path_eq,
}
use monogon.Supervisor.Node.{is_some}
use monogon.Supervisor.Processor.{split_last}

-- The maps `visited` and `ready` of phase two in one: a path has an entry once it was visited. Their
-- keys are the joined names in the source, which tell paths apart where no name has a dot.
abbrev pub Opinions : Type 0
Opinions = List (TreePath × Bool)

unfoldable pub opinion : TreePath → Opinions → Option Bool
opinion p [] = none
opinion p ((q, b) ∷ m) = if path_eq q p then some b else opinion p m

abbrev pub or_false : Option Bool → Bool
or_false none = false
or_false (some b) = b

-- `visited` at every child.
unfoldable pub all_visited : Opinions → TreePath → Forest → Bool
all_visited m p nil = true
all_visited m p (cons c f) = is_some (opinion (p ++ (info_of c).name ∷ []) m) && all_visited m p f

-- `ready` at every child.
unfoldable pub children_ready : Opinions → TreePath → Forest → Bool
children_ready m p nil = true
children_ready m p (cons c f) =
    or_false (opinion (p ++ (info_of c).name ∷ []) m) && children_ready m p f

unfoldable pub is_stopped : NodeState → Bool
is_stopped NodeState.done = true
is_stopped NodeState.canceled = true
is_stopped NodeState.dead = true
is_stopped _ = false

-- The parent, if it is still to be visited.
unfoldable pub parent_queue : TreePath → Opinions → List TreePath
parent_queue p m = elim (split_last p) [
  | none ↦ []
  | some (q, self) ↦ if is_some (opinion q m) then [] else q ∷ []
]

abbrev pub verdict : Opinions → TreePath → Node → Bool
verdict m p (node i f) = children_ready m p f && is_stopped i.state

-- Phase two.
unfoldable pub visit_loop : ℕ → Node → List TreePath → Opinions → Option Opinions
visit_loop zero t queue m = none
visit_loop (suc fuel) t [] m = some m
visit_loop (suc fuel) t (p ∷ queue) m = elim (get p t) [
  | none ↦ none
  | some n ↦ elim (all_visited m p (children_of n)) [
    | false ↦ visit_loop fuel t (queue ++ p ∷ []) m
    | true ↦ let m' = (p, verdict m p n) ∷ m in visit_loop fuel t (queue ++ parent_queue p m') m'
  ]
]
