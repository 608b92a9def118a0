-- ===== src/Supervisor/Node.antt =====
-- osbase/supervisor: what runnables and the processor do to the tree. `none` is a panic, which
-- `nodeByDN` raises where there is no node, and so do the operations where they say so.
-- An operation takes the path of its node, where the source takes the joined names: the two agree for
-- names without dots. A map that the source iterates over is a list: its order is that of the
-- iteration.
use monogon.Prelude.{
  Bool, true, false, ◌&&◌, ◌||◌, not, List, [], ◌∷◌, ◌++◌, Option, none, some, leb, ◌==◌,
  if◌then◌else◌, Bytes, bytes_eq,
}
use monogon.Supervisor.Tree.{
  NodeState, Info, Node, node, Forest, nil, cons, TreePath, info_of, children_of, find,
  update_child, get, modify, on_info,
}

unfoldable pub member : Bytes → List Bytes → Bool
member x [] = false
member x (y ∷ ys) = bytes_eq y x || member x ys

-- `reNodeName.MatchString`: the expression is not anchored, so one byte of its class is enough.
unfoldable pub valid_name : Bytes → Bool
valid_name [] = false
valid_name (b ∷ bs) =
    (leb b'a' b && leb b b'z') || (leb b'0' b && leb b b'9') || (b == b'_') || valid_name bs

unfoldable pub group_siblings : Bytes → List (List Bytes) → Option (List Bytes)
group_siblings x [] = none
group_siblings x (g ∷ gs) = if member x g then some g else group_siblings x gs

unfoldable pub new_info : Bytes → Info
new_info x = record {
  name = x;
  state = NodeState.new;
  cancelled = false;
  groups = [];
  reserved = [];
  failures = 0;
}

unfoldable pub reset : Node → Node
reset (node i f) =
    node (record i { state = NodeState.new; cancelled = false; groups = []; reserved = [] }) nil

pub data RunError : Type 0 where
  not_new invalid_name already_exists shadows_reserved duplicate_child : RunError

pub data RunReply : Type 0 where
  scheduled : List TreePath → RunReply
  refused : RunError → RunReply

abbrev pub is_new : NodeState → Bool
is_new NodeState.new = true
is_new _ = false

abbrev pub is_some {ℓ} : {A : Type ℓ} → Option A → Bool
is_some none = false
is_some (some a) = true

-- The checks of the requested names, the first failure of all.
unfoldable pub check_names : Info → Forest → List Bytes → Option RunError
check_names i f [] = none
check_names i f (x ∷ xs) =
    if not (valid_name x)
    then some invalid_name
    else if is_some (find x f)
    then some already_exists
    else if member x i.reserved
    then some shadows_reserved
    else check_names i f xs

-- `n.children[name] = node`
unfoldable pub put_child : Node → Forest → Forest
put_child c f = elim (find (info_of c).name f) [
  | none ↦ cons c f
  | some _ ↦ update_child (info_of c).name (λ _. c) f
]

-- The loop that creates the children: the forest so far, and whether a name was a duplicate.
unfoldable pub create_children : Info → Forest → List Bytes → Forest × Bool
create_children i f [] = (f, false)
create_children i f (x ∷ xs) =
    let rest = create_children i (put_child (node (new_info x) nil) f) xs in
    if is_some (group_siblings x i.groups) then (f, true) else rest

abbrev pub paths_below : TreePath → List Bytes → List TreePath
paths_below p [] = []
paths_below p (x ∷ xs) = (p ++ x ∷ []) ∷ paths_below p xs

unfoldable pub add_group : TreePath → List Bytes → Node → Node × RunReply
add_group p xs (node i f) =
    let (f', dup) = create_children i f xs in
    if dup
    then (node i f', refused duplicate_child)
    else (node (record i { groups = i.groups ++ xs ∷ [] }) f', scheduled (paths_below p xs))

unfoldable pub run_group_at : TreePath → List Bytes → Node → Node × RunReply
run_group_at p xs (node i f) =
    if not (is_new i.state) then (node i f, refused not_new) else elim (check_names i f xs) [
      | some e ↦ (node i f, refused e)
      | none ↦ add_group p xs (node i f)
    ]

-- `RunGroup` of a runnable whose node stands at a path.
unfoldable pub run_group : TreePath → List Bytes → Node → Option (Node × RunReply)
run_group p xs t = elim (get p t) [
  | none ↦ none
  | some n ↦ some (modify p (λ m. (run_group_at p xs m).0) t, (run_group_at p xs n).1)
]

pub data SignalType : Type 0 where
  signal_healthy signal_done : SignalType

-- The state that a signal leads to, if it may be sent in this state.
unfoldable pub signal_state : SignalType → NodeState → Option NodeState
signal_state signal_healthy NodeState.new = some NodeState.healthy
signal_state signal_healthy _ = none
signal_state signal_done NodeState.healthy = some NodeState.done
signal_state signal_done _ = none

abbrev pub enter : NodeState → Info → Info
enter s i = record i { state = s; failures = 0 }

-- `Signal` of a runnable whose node stands at a path; a signal out of turn panics.
unfoldable pub signal : TreePath → SignalType → Node → Option Node
signal p s t = elim (get p t) [
  | none ↦ none
  | some n ↦ elim (signal_state s (info_of n).state) [
    | none ↦ none
    | some st ↦ some (modify p (on_info (enter st)) t)
  ]
]

pub data LoggerReply : Type 0 where
  logger_for : TreePath → LoggerReply
  name_in_use logger_name_invalid : LoggerReply

abbrev pub reserve : Bytes → Info → Info
reserve x i = record i { reserved = x ∷ i.reserved }

-- `SubLogger` of a runnable whose node stands at a path.
unfoldable pub sub_logger : TreePath → Bytes → Node → Option (Node × LoggerReply)
sub_logger p x t = elim (get p t) [
  | none ↦ none
  | some n ↦
      if is_some (find x (children_of n))
      then some (t, name_in_use)
      else if not (valid_name x)
      then some (t, logger_name_invalid)
      else some (modify p (on_info (reserve x)) t, logger_for (p ++ x ∷ []))
]
