-- ===== src/Supervisor/Reachable.antt =====
-- The trees that a fresh supervisor can come to, by what runnables call, the deaths of runnables,
-- restarts and the kill of the supervisor, in any order: the invariant holds in each,
-- and so the handling of a death never panics.
use monogon.Prelude.{
  ◌≡◌, refl, ◌∙◌, List, [], ◌∷◌, Option, none, some, if◌then◌else◌, arith, inl, inr, ◌⊎◌,
  Bool-cases, Option-cases, Bytes,
}
use monogon.Supervisor.Tree.{
  Info, Node, node, Forest, nil, TreePath, children_of, find, get, modify, on_info, info_at,
  path_eq,
}
use monogon.Supervisor.Tree.Laws.{info_at-on_info}
use monogon.Supervisor.Node.{
  new_info, RunReply, RunError, is_new, is_some, check_names, run_group, SignalType, signal,
  LoggerReply, sub_logger, reserve, not_new, valid_name, reset,
}
use monogon.Supervisor.Processor.{RunResult, process_died, process_kill}
use monogon.Supervisor.Restarts.{reset-IsGrouped, process_kill-IsGrouped}
use monogon.Supervisor.Died.{IsGrouped, changed}
use monogon.Supervisor.RunGroup.{run_group_accepts, run_group-unchanged, ChecksFail}
use monogon.Supervisor.Invariant.{changed-IsGrouped, process_died-IsGrouped, signal-IsGrouped}
use monogon.Supervisor.Runs.{after_run-IsGrouped}

run_group_missing :
    (p : TreePath) (xs : List Bytes) (t : Node) → get p t ≡ none → run_group p xs t ≡ none
unfolding run_group
run_group_missing p xs t gone = ground (arith, gone)

refused-IsGrouped :
    (p : TreePath) (xs : List Bytes) (t t' : Node) (reply : RunReply) (i : Info) (f : Forest)
    (why : RunError)
    → get p t ≡ some (node i f)
    → ChecksFail i f xs why
    → IsGrouped t
    → run_group p xs t ≡ some (t', reply)
    → IsGrouped t'
refused-IsGrouped p xs t t' reply i f why e reason w run =
    let (u, runs, same) = run_group-unchanged p xs t i f why e reason in
    let is_u : u ≡ t' = ground (arith, runs, run) in
    rw (← is_u)
      (changed-IsGrouped t u (λ r k. k) (λ r. same r ∙ unchanged (info_at r t)) (λ r k. refl) w)
  where
    unchanged : (o : Option Info) → o ≡ changed (λ k. k) o
    unchanged none = refl
    unchanged (some i) = refl

run_group-IsGrouped :
    (p : TreePath) (xs : List Bytes) (t t' : Node) (reply : RunReply)
    → IsGrouped t
    → run_group p xs t ≡ some (t', reply)
    → IsGrouped t'
run_group-IsGrouped p xs t t' reply w run = elim (Option-cases (get p t)) [
  | inl gone ↦ absurd (ground (arith, run_group_missing p xs t gone, run))
  | inr (node i f, e) ↦ elim (Bool-cases (is_new i.state)) [
    | inr old ↦ refused-IsGrouped p xs t t' reply i f not_new e (inl (old, refl)) w run
    | inl young ↦ elim (Option-cases (check_names i f xs)) [
      | inr (why, bad) ↦ refused-IsGrouped p xs t t' reply i f why e (inr (young, bad)) w run
      | inl fine ↦
          let (u, runs, effect) = run_group_accepts p xs t i f e young fine w in
          let is_u : u ≡ t' = ground (arith, runs, run) in
          rw (← is_u) (after_run-IsGrouped p xs t u i (ground (arith, e)) effect w)
    ]
  ]
]

sub_logger_cases :
    (p : TreePath) (x : Bytes) (t t' : Node) (reply : LoggerReply)
    → sub_logger p x t ≡ some (t', reply)
    → (t' ≡ t) ⊎ (t' ≡ modify p (on_info (reserve x)) t)
unfolding sub_logger
sub_logger_cases p x t t' reply run = elim (Option-cases (get p t)) [
  | inl gone ↦ absurd (ground (arith, gone, run))
  | inr (n, e) ↦ elim (Bool-cases (is_some (find x (children_of n)))) [
    | inl used ↦ inl (ground (arith, e, used))
    | inr free ↦ elim (Bool-cases (valid_name x)) [
      | inl good ↦ inr (ground (arith, e, free, good))
      | inr bad ↦ inl (ground (arith, e, free, bad))
    ]
  ]
]

sub_logger-IsGrouped :
    (p : TreePath) (x : Bytes) (t t' : Node) (reply : LoggerReply)
    → IsGrouped t
    → sub_logger p x t ≡ some (t', reply)
    → IsGrouped t'
sub_logger-IsGrouped p x t t' reply w run = elim (sub_logger_cases p x t t' reply run) [
  | inl same ↦ rw same w
  | inr added ↦ rw added (
      changed-IsGrouped t (modify p (on_info (reserve x)) t)
        (λ r k. if path_eq p r then reserve x k else k)
        (λ r. info_at-on_info p r (reserve x) t (λ k. refl) ∙ ground arith) (λ r k. ground arith) w)
]

-- One operation on the tree that did not panic. A restart may hit any node here, also where the
-- collection would not restart one.
pub data Step (t t' : Node) : Type 0 where
  ran :
      (p : TreePath) (xs : List Bytes) (reply : RunReply)
      → run_group p xs t ≡ some (t', reply)
      → Step t t'
  signaled : (p : TreePath) (s : SignalType) → signal p s t ≡ some t' → Step t t'
  logged :
      (p : TreePath) (x : Bytes) (reply : LoggerReply)
      → sub_logger p x t ≡ some (t', reply)
      → Step t t'
  quit : (p : TreePath) (res : RunResult) → process_died p res t ≡ some t' → Step t t'
  restarted : (p : TreePath) (n : Node) → get p t ≡ some n → t' ≡ modify p reset t → Step t t'
  killed : t' ≡ process_kill t → Step t t'

-- The tree that `New` makes: a root with no children.
unfoldable pub root_tree : Node
root_tree = node (new_info (b'r' ∷ b'o' ∷ b'o' ∷ b't' ∷ [])) nil

pub data Reach : Node → Type 0 where
  here : Reach root_tree
  next : {t t' : Node} → Reach t → Step t t' → Reach t'

Step-IsGrouped : (t t' : Node) → Step t t' → IsGrouped t → IsGrouped t'
Step-IsGrouped t t' (ran p xs reply run) w = run_group-IsGrouped p xs t t' reply w run
Step-IsGrouped t t' (signaled p s run) w = signal-IsGrouped p s t t' w run
Step-IsGrouped t t' (logged p x reply run) w = sub_logger-IsGrouped p x t t' reply w run
Step-IsGrouped t t' (quit p res run) w = process_died-IsGrouped p res t t' w run
Step-IsGrouped t t' (restarted p n found e) w = rw e (reset-IsGrouped p t w)
Step-IsGrouped t t' (killed e) w = rw e (process_kill-IsGrouped t w)

root_tree-IsGrouped : IsGrouped root_tree
unfolding root_tree new_info get find
root_tree-IsGrouped [] j e = let bare : [] ≡ j.groups = ground arith in rw (← bare) tt
root_tree-IsGrouped (x ∷ q) j e = cc

-- In every tree that a fresh supervisor can come to by RunGroup, Signal, SubLogger, deaths, restarts of
-- nodes and the kill, each group of each node names only children that the node has.
pub Reach-IsGrouped : {t : Node} → Reach t → IsGrouped t
Reach-IsGrouped here = root_tree-IsGrouped
Reach-IsGrouped (next {t} {t'} r s) = Step-IsGrouped t t' s (Reach-IsGrouped r)
