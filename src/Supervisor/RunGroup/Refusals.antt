-- ===== src/Supervisor/RunGroup/Refusals.antt =====
-- osbase/supervisor/supervisor_node.go, runGroup: which requests are refused, and for what reason.
use monogon.Prelude.{
  ℕ, ◌≤◌, ◌≡◌, ◌≢◌, ap, true, false, List, [], ◌∷◌, ◌++◌, none, some, arith, inl, inr, ◌⊎◌, ◌&&◌,
  ◌||◌, leb, ◌==◌, Bool-cases, Bytes,
}
use monogon.Supervisor.Tree.{NodeState, Info, Node, node, Forest, TreePath, get, info_at}
use monogon.Supervisor.Node.{
  member, valid_name, RunError, not_new, invalid_name, already_exists, shadows_reserved, refused,
  is_new, check_names, run_group,
}
use monogon.Supervisor.Died.Siblings.{In, In-member, member-In}
use monogon.Supervisor.RunGroup.{get_child, run_group-unchanged}

-- A lower case letter, a digit or an underscore.
abbrev pub IsNameByte : ℕ → Type 0
IsNameByte b = ((b'a' ≤ b) × (b ≤ b'z')) ⊎ ((b'0' ≤ b) × (b ≤ b'9')) ⊎ (b ≡ b'_')

abbrev pub HasNameByte : Bytes → Type 0
HasNameByte [] = ¬ Unit {0}
HasNameByte (b ∷ bs) = IsNameByte b ⊎ HasNameByte bs

valid_name-HasNameByte : (x : Bytes) → valid_name x ≡ true → HasNameByte x
unfolding valid_name
valid_name-HasNameByte [] h = absurd (ground (arith, h))
valid_name-HasNameByte (b ∷ bs) h = elim (Bool-cases (valid_name bs)) [
  | inl later ↦ inr (valid_name-HasNameByte bs later)
  | inr none_later ↦ inl (go h none_later)
]
  where
    go :
        ((leb b'a' b && leb b b'z') || (leb b'0' b && leb b b'9') || (b == b'_') || valid_name bs)
          ≡ true
        → valid_name bs ≡ false
        → IsNameByte b
    go e f = elim (Bool-cases (leb b'a' b && leb b b'z')) [
      | inl letter ↦ inl (ground arith, ground arith)
      | inr l ↦ elim (Bool-cases (leb b'0' b && leb b b'9')) [
        | inl digit ↦ inr (inl (ground arith, ground arith))
        | inr d ↦ inr (inr (ground arith))
      ]
    ]

HasNameByte-valid_name : (x : Bytes) → HasNameByte x → valid_name x ≡ true
unfolding valid_name
HasNameByte-valid_name [] h = absurd (h tt)
HasNameByte-valid_name (b ∷ bs) (inl (inl (low, high))) = ground arith
HasNameByte-valid_name (b ∷ bs) (inl (inr (inl (low, high)))) = ground arith
HasNameByte-valid_name (b ∷ bs) (inl (inr (inr e))) = ground (arith, e)
HasNameByte-valid_name (b ∷ bs) (inr later) = ground (arith, HasNameByte-valid_name bs later)

-- The first of the names that may not be used below the node at `p`, and why.
pub data BadName (p : TreePath) (t : Node) (i : Info) : List Bytes → RunError → Type 0 where
  invalid : (x : Bytes) (xs : List Bytes) → ¬ HasNameByte x → BadName p t i (x ∷ xs) invalid_name
  used :
      (x : Bytes) (xs : List Bytes) (n : Node)
      → HasNameByte x
      → get (p ++ x ∷ []) t ≡ some n
      → BadName p t i (x ∷ xs) already_exists
  reserved_name :
      (x : Bytes) (xs : List Bytes)
      → HasNameByte x
      → get (p ++ x ∷ []) t ≡ none
      → In x i.reserved
      → BadName p t i (x ∷ xs) shadows_reserved
  bad_later :
      (x : Bytes) (xs : List Bytes) (why : RunError)
      → HasNameByte x
      → get (p ++ x ∷ []) t ≡ none
      → ¬ In x i.reserved
      → BadName p t i xs why
      → BadName p t i (x ∷ xs) why

-- Why the node at `p`, which keeps `i`, may not run a group.
abbrev pub Refusal : TreePath → Node → Info → List Bytes → RunError → Type 0
Refusal p t i xs why =
    (i.state ≢ NodeState.new) × (why ≡ not_new) ⊎ (i.state ≡ NodeState.new) × BadName p t i xs why

not_reserved : (x : Bytes) (i : Info) → ¬ In x i.reserved → member x i.reserved ≡ false
not_reserved x i out = elim (Bool-cases (member x i.reserved)) [
  | inr miss ↦ miss
  | inl hit ↦ absurd (out (member-In x i.reserved hit))
]

not_valid : (x : Bytes) → ¬ HasNameByte x → valid_name x ≡ false
not_valid x bad = elim (Bool-cases (valid_name x)) [
  | inr miss ↦ miss
  | inl good ↦ absurd (bad (valid_name-HasNameByte x good))
]

BadName-check_names :
    (p : TreePath) (t : Node) (i : Info) (f : Forest) (xs : List Bytes) (why : RunError)
    → get p t ≡ some (node i f)
    → BadName p t i xs why
    → check_names i f xs ≡ some why
unfolding check_names
BadName-check_names p t i f _ _ e (invalid x xs bad) = ground (arith, not_valid x bad)
BadName-check_names p t i f _ _ e (used x xs n good there) =
    ground (arith, HasNameByte-valid_name x good, there, get_child p x t, e)
BadName-check_names p t i f _ _ e (reserved_name x xs good free m) =
    ground
      (arith, HasNameByte-valid_name x good, free, get_child p x t, e, In-member x i.reserved m)
BadName-check_names p t i f _ _ e (bad_later x xs why good free out w) = ground (
  arith,
  HasNameByte-valid_name x good,
  free,
  get_child p x t,
  e,
  not_reserved x i out,
  BadName-check_names p t i f xs why e w,
)

not_new_lem : (s : NodeState) → s ≢ NodeState.new → is_new s ≡ false
not_new_lem s old = elim (Bool-cases (is_new s)) [
  | inr miss ↦ miss
  | inl young ↦ absurd (old (is_it s young))
]
  where
    is_it : (s : NodeState) → is_new s ≡ true → s ≡ NodeState.new
    is_it s h = ground (arith, h)

-- A request of a runnable that is not NEW is refused for that. One of a NEW runnable is refused if a
-- name has no lower case letter, digit or underscore, is that of a child of the node, or is reserved
-- by a logger: the first such name gives the reason, and these tests are made in this order. In each
-- case no node changes.
pub run_group_refuses :
    (p : TreePath) (xs : List Bytes) (t : Node) (i : Info) (f : Forest) (why : RunError)
    → get p t ≡ some (node i f)
    → Refusal p t i xs why
    → (t' : Node) × (run_group p xs t ≡ some (t', refused why))
      × ((r : TreePath) → info_at r t' ≡ info_at r t)
run_group_refuses p xs t i f why e (inl (old, is_it)) =
    run_group-unchanged p xs t i f why e (inl (not_new_lem i.state old, is_it))
run_group_refuses p xs t i f why e (inr (young, bad)) =
    run_group-unchanged p xs t i f why e
      (inr (ap is_new young, BadName-check_names p t i f xs why e bad))
