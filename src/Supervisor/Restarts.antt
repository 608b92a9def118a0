-- ===== src/Supervisor/Restarts.antt =====
-- A restart and a kill keep the groups of the tree: they name children that exist.
use monogon.Prelude.{
  ◌≡◌, refl, ◌∙◌, List, [], ◌∷◌, ◌++◌, none, some, arith, inl, inr, Bool-cases, Option-cases, Bytes,
  bytes_eq,
}
use monogon.Supervisor.Tree.{
  Info, Node, node, Forest, nil, cons, TreePath, info_of, find, get, modify, info_at, strip,
}
use monogon.Supervisor.Tree.Laws.{info_at-modify}
use monogon.Supervisor.Node.{reset}
use monogon.Supervisor.Processor.{process_kill, kill_children, cancel}
use monogon.Supervisor.Died.{Present, AllPresent, IsGrouped, changed}
use monogon.Supervisor.RunGroup.{info_at-strip}
use monogon.Supervisor.Invariant.{changed-IsGrouped}

-- A path that is not below `p` has only `p` itself as a child below it.
strip-child :
    (p q rest : TreePath) (x : Bytes)
    → strip p q ≡ none
    → strip p (q ++ x ∷ []) ≡ some rest
    → rest ≡ []
unfolding strip
strip-child [] q rest x out under = absurd (ground (arith, out))
strip-child (y ∷ p) [] rest x out under = elim (Bool-cases (bytes_eq y x)) [
  | inl same ↦ last p (ground (arith, under, same))
  | inr other ↦ absurd (ground (arith, under, other))
]
  where
    last : (r : TreePath) → strip r [] ≡ some rest → rest ≡ []
    last [] h = ground (arith, h, strip)
    last (z ∷ r) h = absurd (ground (arith, h, strip))
strip-child (y ∷ p) (z ∷ q) rest x out under = elim (Bool-cases (bytes_eq y z)) [
  | inl same ↦ strip-child p q rest x (ground (arith, out, same)) (ground (arith, under, same))
  | inr other ↦ absurd (ground (arith, under, other))
]

module _ (p : TreePath) (t : Node) where
  reset_at :
      (r : TreePath)
      → info_at r (modify p reset t) ≡ elim (strip p r) [
        | none ↦ info_at r t
        | some rest ↦ elim (get p t) [ none ↦ none | some n ↦ info_at rest (reset n) ]
      ]
  unfolding reset
  reset_at r = info_at-modify p r reset t same_name
    where
      same_name : (n : Node) → (info_of (reset n)).name ≡ (info_of n).name
      same_name (node i f) = unfold reset in refl

  reset_bare :
      (n : Node) (rest : TreePath) (j : Info) → info_at rest (reset n) ≡ some j → j.groups ≡ []
  unfolding reset get find
  reset_bare (node i f) [] j e = ground (arith, e)
  reset_bare (node i f) (x ∷ rest) j e = absurd (ground (arith, e))

  reset_child :
      (q : TreePath) (x : Bytes) (i : Info)
      → strip p q ≡ none
      → info_at (q ++ x ∷ []) t ≡ some i
      → (j : Info) × (info_at (q ++ x ∷ []) (modify p reset t) ≡ some j)
  unfolding get
  reset_child q x i out e = elim (Option-cases (strip p (q ++ x ∷ []))) [
    | inl apart ↦ (i, reset_at (q ++ x ∷ []) ∙ ground (arith, apart, e))
    | inr (rest, under) ↦
        let top = strip-child p q rest x out under in
        elim (Option-cases (get p t)) [
          | inl gone ↦ absurd (ground (arith, e, info_at-strip p (q ++ x ∷ []) rest t under, gone))
          | inr (n, found) ↦
              (info_of (reset n), reset_at (q ++ x ∷ []) ∙ ground (arith, under, found, top))
        ]
  ]

  reset-Present :
      (q : TreePath) (g : List Bytes)
      → strip p q ≡ none
      → Present q g t
      → Present q g (modify p reset t)
  reset-Present q [] out w = tt
  reset-Present q (x ∷ g) out ((i, e), w) = (reset_child q x i out e, reset-Present q g out w)

  reset-AllPresent :
      (q : TreePath) (gs : List (List Bytes))
      → strip p q ≡ none
      → AllPresent q gs t
      → AllPresent q gs (modify p reset t)
  reset-AllPresent q [] out w = tt
  reset-AllPresent q (g ∷ gs) out w = (reset-Present q g out w.0, reset-AllPresent q gs out w.1)

  pub reset-IsGrouped : IsGrouped t → IsGrouped (modify p reset t)
  reset-IsGrouped w q j e = elim (Option-cases (strip p q)) [
    | inl apart ↦ reset-AllPresent q j.groups apart (w q j (ground (arith, reset_at q, e, apart)))
    | inr (rest, under) ↦ elim (Option-cases (get p t)) [
      | inl gone ↦ absurd (ground (arith, reset_at q, e, under, gone))
      | inr (n, found) ↦
          let bare = reset_bare n rest j (ground (arith, reset_at q, e, under, found)) in rw bare tt
    ]
  ]

find-kill_children :
    (x : Bytes) (f : Forest)
    → find x (kill_children f) ≡ elim (find x f) [ none ↦ none | some n ↦ some (process_kill n) ]
unfolding find process_kill kill_children
find-kill_children x nil = refl
find-kill_children x (cons (node i g) f) = ground (arith, find-kill_children x f)

info_at-process_kill :
    (r : TreePath) (t : Node) → info_at r (process_kill t) ≡ changed cancel (info_at r t)
unfolding get process_kill
info_at-process_kill [] (node i f) = refl
info_at-process_kill (x ∷ r) (node i f) = elim (Option-cases (find x f)) [
  | inl gone ↦ ground (arith, gone, find-kill_children x f)
  | inr (n, found) ↦ ground (arith, found, find-kill_children x f, info_at-process_kill r n)
]

pub process_kill-IsGrouped : (t : Node) → IsGrouped t → IsGrouped (process_kill t)
process_kill-IsGrouped t w =
    changed-IsGrouped t (process_kill t) (λ r k. cancel k) (λ r. info_at-process_kill r t)
      (λ r k. refl) w
