-- ===== src/Supervisor/Died/Effect.antt =====
-- What `processDied` does, in terms of the states, the results and the contexts of the tree alone.
use monogon.Prelude.{
  ◌≡◌, ◌≢◌, refl, ap, ◌∙◌, true, false, ◌&&◌, [], ◌∷◌, ◌++◌, some, arith, inl, inr, ◌⊎◌, ◌↔◌,
  Bool-cases, Option-cases,
}
use monogon.Supervisor.Tree.{
  NodeState, Info, Node, node, TreePath, find, get, info_at, ctx_err, path_eq,
}
use monogon.Supervisor.Tree.Laws.{path_eq_iff, path_eq_refl}
use monogon.Supervisor.Node.{group_siblings}
use monogon.Supervisor.Processor.{
  RunResult, returned_nil, returned_canceled, is_expected, is_canceled, split_last, process_died,
}
use monogon.Supervisor.Died.{
  IsGrouped, changed, is_sibling, is_sibling_of, group_of, died_change, process_died_change,
}
use monogon.Supervisor.Died.Siblings.{
  GroupOf-siblings, IsCtxCancelled, IsSibling, sibling_found, sibling_hit, siblings-GroupOf,
  split_last-end, split_last_lem,
}

ctx_err-IsCtxCancelled : (p : TreePath) (t : Node) → ctx_err p t ≡ true → IsCtxCancelled p t
unfolding ctx_err get
ctx_err-IsCtxCancelled [] (node i f) h = ([], [], i, refl, refl, h)
ctx_err-IsCtxCancelled (x ∷ p) (node i f) h = elim (Bool-cases i.cancelled) [
  | inl own ↦ ([], x ∷ p, i, refl, refl, own)
  | inr valid ↦ elim (Option-cases (find x f)) [
    | inl gone ↦ absurd (ground (arith, h, valid, gone))
    | inr (c, found) ↦
        let (q, rest, j, e, at, off) =
          ctx_err-IsCtxCancelled p c (ground (arith, h, valid, found)) in
        (x ∷ q, rest, j, ap (◌∷◌ x) e, ground (arith, found, at), off)
  ]
]

IsCtxCancelled-ctx_err :
    (q rest : TreePath) (t : Node) (j : Info)
    → info_at q t ≡ some j
    → j.cancelled ≡ true
    → ctx_err (q ++ rest) t ≡ true
unfolding ctx_err get
IsCtxCancelled-ctx_err [] [] (node i f) j at off = ground (arith, at, off)
IsCtxCancelled-ctx_err [] (x ∷ rest) (node i f) j at off = ground (arith, at, off)
IsCtxCancelled-ctx_err (x ∷ q) rest (node i f) j at off = elim (Option-cases (find x f)) [
  | inl gone ↦ absurd (ground (arith, at, gone))
  | inr (c, found) ↦
      ground (arith, found, IsCtxCancelled-ctx_err q rest c j (ground (arith, at, found)) off)
]

is_expected_lem :
    (s : NodeState) (res : RunResult)
    → (is_expected s res ≡ true) ↔ ((s ≡ NodeState.done) × (res ≡ returned_nil))
unfolding is_expected
is_expected_lem s res = (to s res, λ h. rw (h.0, h.1) refl)
  where
    to :
        (s : NodeState) (res : RunResult)
        → is_expected s res ≡ true
        → (s ≡ NodeState.done) × (res ≡ returned_nil)
    to s res h = ground (arith, h, is_expected)

is_canceled_lem : (res : RunResult) → (is_canceled res ≡ true) ↔ (res ≡ returned_canceled)
unfolding is_canceled
is_canceled_lem res = (λ h. ground (arith, h), λ e. rw e refl)

siblings-IsSibling :
    (p : TreePath) (t : Node) (r : TreePath)
    → is_sibling_of p (group_of p t) r ≡ true
    → IsSibling p t r
unfolding is_sibling
siblings-IsSibling p t r h = elim (Option-cases (split_last p)) [
  | inl root ↦ absurd (ground (arith, h, root))
  | inr ((q, self), s) ↦ elim (Option-cases (info_at q t)) [
    | inl gone ↦ absurd (ground (arith, h, s, gone))
    | inr (j, up) ↦ elim (Option-cases (group_siblings self j.groups)) [
      | inl alone ↦ absurd (ground (arith, h, s, up, alone))
      | inr (g, grouped) ↦
          let (x, e, m, ne) = sibling_found q self g r (ground (arith, h, s, up, grouped)) in
          (
            q,
            self,
            x,
            j,
            g,
            split_last_lem p q self s,
            e,
            up,
            siblings-GroupOf self j.groups g grouped,
            m,
            ne,
          )
    ]
  ]
]

IsSibling-siblings :
    (p : TreePath) (t : Node) (r : TreePath)
    → IsSibling p t r
    → is_sibling_of p (group_of p t) r ≡ true
IsSibling-siblings p t r (q, self, x, j, g, above, beside, up, grouped, m, ne) = ground (
  arith,
  above,
  beside,
  split_last-end q self,
  up,
  GroupOf-siblings self j.groups g grouped,
  sibling_hit q self x g m ne,
)

abbrev pub IsDone : RunResult → Info → Type 0
IsDone res i = (i.state ≡ NodeState.done) × (res ≡ returned_nil)

abbrev pub IsAsked : TreePath → RunResult → Node → Type 0
IsAsked p res t = (res ≡ returned_canceled) × IsCtxCancelled p t

-- What the tree is after the death of the runnable at `p`, of which the node kept `i`.
abbrev pub Died : TreePath → RunResult → Node → Info → Node → Type 0
Died p res t i t' =
    IsDone res i × ((r : TreePath) → info_at r t' ≡ info_at r t)
    ⊎ (¬ IsDone res i
        × IsAsked p res t
        × (info_at p t' ≡ some (record i { state = NodeState.canceled }))
        × ((r : TreePath) → p ≢ r → info_at r t' ≡ info_at r t))
    ⊎ (¬ IsDone res i
        × ¬ IsAsked p res t
        × (info_at p t' ≡ some (record i { state = NodeState.dead; cancelled = true }))
        × ((r : TreePath) (j : Info)
            → IsSibling p t r
            → info_at r t ≡ some j
            → info_at r t' ≡ some (record j { cancelled = true }))
        × ((r : TreePath) → p ≢ r → ¬ IsSibling p t r → info_at r t' ≡ info_at r t))

own_not_sibling : (p : TreePath) (t : Node) → is_sibling_of p (group_of p t) p ≡ false
own_not_sibling p t = elim (Bool-cases (is_sibling_of p (group_of p t) p)) [
  | inr miss ↦ miss
  | inl hit ↦
      let (q, self, x, j, g, above, beside, up, grouped, m, ne) = siblings-IsSibling p t p hit in
      let one : split_last p ≡ some (q, self) = ground (arith, above, split_last-end q self) in
      let other : split_last p ≡ some (q, x) = ap split_last beside ∙ split_last-end q x in
      absurd (ne (ground (arith, one, other)))
]

sibling_elsewhere : (p : TreePath) (t : Node) (r : TreePath) → IsSibling p t r → path_eq p r ≡ false
sibling_elsewhere p t r w = elim (Bool-cases (path_eq p r)) [
  | inr apart ↦ apart
  | inl same ↦
      let e : p ≡ r = (path_eq_iff p r).0 same in
      absurd (ground (arith, own_not_sibling p t, IsSibling-siblings p t r w, e))
]

no_sibling :
    (p : TreePath) (t : Node) (r : TreePath)
    → ¬ IsSibling p t r
    → is_sibling_of p (group_of p t) r ≡ false
no_sibling p t r alone = elim (Bool-cases (is_sibling_of p (group_of p t) r)) [
  | inr miss ↦ miss
  | inl hit ↦ absurd (alone (siblings-IsSibling p t r hit))
]

Died_lem :
    (p : TreePath) (res : RunResult) (t : Node) (i : Info) (t' : Node)
    → info_at p t ≡ some i
    → ((r : TreePath)
        → info_at r t'
          ≡ changed (died_change p res i.state (ctx_err p t) (group_of p t) r) (info_at r t))
    → Died p res t i t'
unfolding died_change
Died_lem p res t i t' e effect = elim (Bool-cases (is_expected i.state res)) [
  | inl fine ↦ inl (
    (is_expected_lem i.state res).0 fine,
    λ r. effect r ∙ ground (arith, fine, Option-cases (info_at r t)),
  )
  | inr odd ↦
      let not_done : ¬ IsDone res i =
        λ h. absurd (ground (arith, odd, (is_expected_lem i.state res).1 h)) in
      elim (Bool-cases (is_canceled res && ctx_err p t)) [
        | inl asked ↦ inr (
            inl (
              not_done,
              (
                (is_canceled_lem res).0 (ground (arith, asked)),
                ctx_err-IsCtxCancelled p t (ground (arith, asked)),
              ),
              ground (arith, effect p, odd, asked, e, path_eq_refl p),
              λ r apart.
                  effect r
                  ∙ ground (arith, odd, asked, apart, path_eq_iff p r, Option-cases (info_at r t)),
            ))
        | inr failed ↦ inr (
            inr (
              not_done,
              λ (is_it, (q, rest, j, above, at, off)). absurd (
                  ground (
                    arith,
                    failed,
                    above,
                    (is_canceled_lem res).1 is_it,
                    IsCtxCancelled-ctx_err q rest t j at off,
                  )),
              ground (arith, effect p, odd, failed, e, path_eq_refl p, own_not_sibling p t),
              λ r j w at. ground (
                arith,
                effect r,
                odd,
                failed,
                at,
                sibling_elsewhere p t r w,
                IsSibling-siblings p t r w,
              ),
              λ r apart alone.
                  effect r
                  ∙ ground (
                    arith,
                    odd,
                    failed,
                    apart,
                    path_eq_iff p r,
                    no_sibling p t r alone,
                    Option-cases (info_at r t),
                  ),
            ))
      ]
]

-- In a tree whose groups name existing children `processDied` does not panic. A runnable that was
-- done and returned no error changes nothing. One that returned the error of a cancelled context,
-- where the context of its node is cancelled, makes its own node CANCELED and changes no other. Any
-- other return makes its own node DEAD with a cancelled context, cancels the contexts of the other
-- members of its group, and changes no other.
pub process_died_effect :
    (p : TreePath) (res : RunResult) (t : Node) (i : Info)
    → info_at p t ≡ some i
    → IsGrouped t
    → (t' : Node) × (process_died p res t ≡ some t') × Died p res t i t'
unfolding died_change
process_died_effect p res t i e w =
    let (t', runs, effect) = process_died_change p res t i e w in
    (t', runs, Died_lem p res t i t' e effect)
