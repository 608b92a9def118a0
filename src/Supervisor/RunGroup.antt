-- ===== src/Supervisor/RunGroup.antt =====
-- What `RunGroup` does to the tree: refusals leave it alone, and a group that is accepted appears
-- with fresh children, so that groups always name children.
pub mod Refusals
use monogon.Prelude.{
  ◌≡◌, refl, ◌∙◌, true, false, List, [], ◌∷◌, ◌++◌, Option, none, some, if◌then◌else◌, arith, inl,
  inr, ◌⊎◌, Bool-cases, Option-cases, Bytes, bytes_eq, bytes_eq_iff, bytes_eq_refl,
}
use monogon.Supervisor.Tree.{
  Info, Node, node, Forest, nil, cons, TreePath, info_of, children_of, find, update_child, get,
  modify, info_at, strip,
}
use monogon.Supervisor.Tree.Laws.{KeepsName, info_at-modify}
use monogon.Supervisor.Node.{
  member, group_siblings, new_info, RunError, scheduled, refused, not_new, is_new, is_some,
  check_names, put_child, create_children, paths_below, add_group, run_group_at, run_group,
}
use monogon.Supervisor.Died.{Present, AllPresent, IsGrouped}

abbrev fresh : Bytes → Node
fresh x = node (new_info x) nil

find-replace :
    (x y : Bytes) (f : Forest)
    → find x (update_child y (λ _. fresh y) f) ≡ (
        if bytes_eq y x
        then elim (find y f) [ none ↦ none | some _ ↦ some (fresh y) ]
        else find x f)
unfolding find update_child new_info
find-replace x y nil = ground arith
find-replace x y (cons n f) = ground (
  arith,
  find-replace x y f,
  bytes_eq_iff y x,
  bytes_eq_iff (info_of n).name y,
  bytes_eq_iff (info_of n).name x,
)

-- The new child is found under its name, and every other child as before.
find-cons :
    (x y : Bytes) (f : Forest)
    → find x (cons (fresh y) f) ≡ (if bytes_eq y x then some (fresh y) else find x f)
unfolding find new_info
find-cons x y f = refl

find-put_child :
    (x y : Bytes) (f : Forest)
    → find x (put_child (fresh y) f) ≡ (if bytes_eq y x then some (fresh y) else find x f)
unfolding put_child new_info
find-put_child x y f = elim (Option-cases (find y f)) [
  | inl gone ↦ ground (arith, gone, find-cons x y f)
  | inr (c, e) ↦ ground (arith, e, find-replace x y f)
]

find-create_children :
    (i : Info) (x : Bytes) (xs : List Bytes) (f : Forest)
    → (create_children i f xs).1 ≡ false
    → find x (create_children i f xs).0 ≡ (if member x xs then some (fresh x) else find x f)
unfolding create_children member
find-create_children i x [] f h = refl
find-create_children i x (y ∷ ys) f h = ground (
  arith,
  find-create_children i x ys (put_child (fresh y) f),
  find-put_child x y f,
  bytes_eq_iff y x,
)

pub get_child :
    (p : TreePath) (x : Bytes) (t : Node)
    → get (p ++ x ∷ []) t ≡ elim (get p t) [ none ↦ none | some n ↦ find x (children_of n) ]
unfolding get
get_child [] x (node i f) = ground arith
get_child (y ∷ p) x (node i f) = elim (Option-cases (find y f)) [
  | inl gone ↦ ground (arith, gone)
  | inr (c, e) ↦ ground (arith, e, get_child p x c)
]

child_in_group :
    (p : TreePath) (x : Bytes) (g : List Bytes) (t : Node)
    → Present p g t
    → member x g ≡ true
    → (j : Info) × (info_at (p ++ x ∷ []) t ≡ some j)
unfolding member
child_in_group p x [] t w h = cc
child_in_group p x (y ∷ g) t w h = elim (Bool-cases (bytes_eq y x)) [
  | inl hit ↦ let e : y ≡ x = (bytes_eq_iff y x).0 hit in rw (← e) w.0
  | inr miss ↦ child_in_group p x g t w.1 (ground (arith, miss))
]

-- A name in a group is the name of a child.
child_of_group :
    (p : TreePath) (x : Bytes) (gs : List (List Bytes)) (t : Node)
    → AllPresent p gs t
    → is_some (group_siblings x gs) ≡ true
    → (j : Info) × (info_at (p ++ x ∷ []) t ≡ some j)
unfolding group_siblings
child_of_group p x [] t w h = cc
child_of_group p x (g ∷ gs) t w h = elim (Bool-cases (member x g)) [
  | inl hit ↦ child_in_group p x g t w.0 hit
  | inr miss ↦ child_of_group p x gs t w.1 (ground (arith, miss))
]

-- Names that pass the checks are those of no child.
check_names-absent :
    (i : Info) (f : Forest) (x : Bytes) (xs : List Bytes)
    → check_names i f xs ≡ none
    → member x xs ≡ true
    → find x f ≡ none
unfolding check_names member
check_names-absent i f x [] h m = cc
check_names-absent i f x (y ∷ ys) h m =
    ground (arith, check_names-absent i f x ys, bytes_eq_iff y x)

-- So none of them is in a group.
no_duplicates :
    (p : TreePath) (t : Node) (i : Info) (f : Forest) (xs ys : List Bytes)
    → get p t ≡ some (node i f)
    → AllPresent p i.groups t
    → ((x : Bytes) → member x ys ≡ true → find x f ≡ none)
    → (g : Forest) → (create_children i g ys).1 ≡ false
unfolding create_children member
no_duplicates p t i f xs [] e w absent g = refl
no_duplicates p t i f xs (y ∷ ys) e w absent g =
    let rest =
      no_duplicates p t i f xs ys e w (λ x m. absent x (ground (arith, m)))
        (put_child (fresh y) g) in
    let gone = absent y (ground (arith, bytes_eq_refl y)) in
    elim (Bool-cases (is_some (group_siblings y i.groups))) [
      | inl grouped ↦
          let (j, there) = child_of_group p y i.groups t w grouped in
          absurd (ground (arith, get_child p y t, e, gone, there))
      | inr free ↦ ground (arith, free, rest)
    ]

-- What stands at a path below another stands there in the subtree.
pub info_at-strip :
    (p r rest : TreePath) (t : Node)
    → strip p r ≡ some rest
    → info_at r t ≡ elim (get p t) [ none ↦ none | some n ↦ info_at rest n ]
unfolding strip get
info_at-strip [] r rest t h = let e : r ≡ rest = ground arith in rw e
info_at-strip (x ∷ p) [] rest t h = cc
info_at-strip (x ∷ p) (y ∷ r) rest (node i f) h = elim (Option-cases (find y f)) [
  | inl gone ↦ ground (arith, gone, bytes_eq_iff x y)
  | inr (c, e) ↦ ground (arith, e, bytes_eq_iff x y, info_at-strip p r rest c)
]

-- What stands below a node at which a group was accepted.
unfoldable pub below_run : Info → List Bytes → TreePath → Option Info → Option Info
below_run i xs [] old = some (record i { groups = i.groups ++ xs ∷ [] })
below_run i xs (x ∷ []) old = if member x xs then some (new_info x) else old
below_run i xs (x ∷ y ∷ rest) old = old

-- What stands at the path `r` after a group was accepted at `p`, and what stood there before.
unfoldable pub after_run : TreePath → Info → List Bytes → TreePath → Option Info → Option Info
after_run p i xs r old = elim (strip p r) [ none ↦ old | some rest ↦ below_run i xs rest old ]

accepted : Info → List Bytes → Forest → Node
accepted i xs f = node (record i { groups = i.groups ++ xs ∷ [] }) (create_children i f xs).0

accepted_below :
    (i : Info) (f : Forest) (xs : List Bytes) (rest : TreePath)
    → (create_children i f xs).1 ≡ false
    → ((x : Bytes) → member x xs ≡ true → find x f ≡ none)
    → info_at rest (accepted i xs f) ≡ below_run i xs rest (info_at rest (node i f))
unfolding accepted below_run get
accepted_below i f xs [] d absent = refl
accepted_below i f xs (x ∷ []) d absent = ground (arith, find-create_children i x xs f d)
accepted_below i f xs (x ∷ y ∷ rest) d absent = elim (Bool-cases (member x xs)) [
  | inl named ↦ ground (arith, find-create_children i x xs f d, named, absent x named, childless)
  | inr other ↦ ground (arith, find-create_children i x xs f d, other)
]
  where
    childless : find y nil ≡ none
    childless = unfold find in refl

run_group_at-accepted :
    (p : TreePath) (xs : List Bytes) (i : Info) (f : Forest)
    → is_new i.state ≡ true
    → check_names i f xs ≡ none
    → (create_children i f xs).1 ≡ false
    → run_group_at p xs (node i f) ≡ (accepted i xs f, scheduled (paths_below p xs))
unfolding run_group_at add_group accepted
run_group_at-accepted p xs i f is_fresh fine d = ground arith

run_group_at-KeepsName : (p : TreePath) (xs : List Bytes) → KeepsName (λ m. (run_group_at p xs m).0)
unfolding run_group_at add_group
run_group_at-KeepsName p xs (node i f) = ground arith

-- In a tree whose groups name existing children, a NEW runnable's request for names that pass the
-- checks is accepted: the requests to start the children are sent in order, the node has the group
-- added, each name has a NEW child with no children of its own, and every other node is as it was.
pub run_group_accepts :
    (p : TreePath) (xs : List Bytes) (t : Node) (i : Info) (f : Forest)
    → get p t ≡ some (node i f)
    → is_new i.state ≡ true
    → check_names i f xs ≡ none
    → IsGrouped t
    → (t' : Node) × (run_group p xs t ≡ some (t', scheduled (paths_below p xs)))
      × ((r : TreePath) → info_at r t' ≡ after_run p i xs r (info_at r t))
unfolding run_group after_run
run_group_accepts p xs t i f e is_fresh fine w =
    let absent = λ (x : Bytes). check_names-absent i f x xs fine in
    let here : info_at p t ≡ some i = ground (arith, e) in
    let d = no_duplicates p t i f xs xs e (w p i here) absent f in
    let run = run_group_at-accepted p xs i f is_fresh fine d in
    let g = λ (m : Node). (run_group_at p xs m).0 in
    (
      modify p g t,
      ground (arith, e, run),
      λ r. info_at-modify p r g t (run_group_at-KeepsName p xs) ∙ elim (Option-cases (strip p r)) [
        | inl apart ↦ ground (arith, apart)
        | inr (rest, under) ↦ ground (
          arith,
          under,
          e,
          run,
          info_at-strip p r rest t under,
          accepted_below i f xs rest d absent,
        )
      ],
    )

-- The tests of a request that fail.
abbrev pub ChecksFail : Info → Forest → List Bytes → RunError → Type 0
ChecksFail i f xs why =
    (is_new i.state ≡ false) × (why ≡ not_new)
    ⊎ (is_new i.state ≡ true) × (check_names i f xs ≡ some why)

run_group_at-refused :
    (p : TreePath) (xs : List Bytes) (i : Info) (f : Forest) (why : RunError)
    → ChecksFail i f xs why
    → run_group_at p xs (node i f) ≡ (node i f, refused why)
unfolding run_group_at
run_group_at-refused p xs i f why (inl (old, e)) = ground arith
run_group_at-refused p xs i f why (inr (is_fresh, e)) = ground arith

-- A refusal changes no node.
pub run_group-unchanged :
    (p : TreePath) (xs : List Bytes) (t : Node) (i : Info) (f : Forest) (why : RunError)
    → get p t ≡ some (node i f)
    → ChecksFail i f xs why
    → (t' : Node) × (run_group p xs t ≡ some (t', refused why))
      × ((r : TreePath) → info_at r t' ≡ info_at r t)
unfolding run_group
run_group-unchanged p xs t i f why e reason =
    let run = run_group_at-refused p xs i f why reason in
    let g = λ (m : Node). (run_group_at p xs m).0 in
    (
      modify p g t,
      ground (arith, e, run),
      λ r. info_at-modify p r g t (run_group_at-KeepsName p xs) ∙ elim (Option-cases (strip p r)) [
        | inl apart ↦ ground (arith, apart)
        | inr (rest, under) ↦ ground (arith, under, e, run, info_at-strip p r rest t under)
      ],
    )
