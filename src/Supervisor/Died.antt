-- ===== src/Supervisor/Died.antt =====
-- What `processDied` does, node by node.
pub mod Siblings
pub mod Effect
use monogon.Prelude.{
  ◌≡◌, refl, ◌∙◌, ap, Bool, true, false, ◌&&◌, ◌||◌, not, List, [], ◌∷◌, ◌++◌, Option, none, some,
  if◌then◌else◌, arith, inl, inr, Bool-cases, Option-cases, Bytes, bytes_eq,
}
use monogon.Supervisor.Tree.{
  NodeState, Info, Node, node, TreePath, find, get, modify, on_info, info_at, ctx_err, path_eq,
}
use monogon.Supervisor.Tree.Laws.{info_at-on_info, path_eq_refl, get_of_info}
use monogon.Supervisor.Node.{member, group_siblings}
use monogon.Supervisor.Processor.{
  RunResult, is_expected, is_canceled, set_canceled, set_dead, cancel, split_last, cancel_group,
  cancel_siblings, process_died,
}

-- Every name of a group is that of a child.
abbrev pub Present : TreePath → List Bytes → Node → Type 0
Present q [] t = Unit {0}
Present q (x ∷ g) t = ((i : Info) × (info_at (q ++ x ∷ []) t ≡ some i)) × Present q g t

-- The path of a child of `q` with one of the names, other than `self`.
unfoldable pub is_sibling : TreePath → Bytes → List Bytes → TreePath → Bool
is_sibling q self [] r = false
is_sibling q self (x ∷ g) r =
    (not (bytes_eq x self) && path_eq (q ++ x ∷ []) r) || is_sibling q self g r

abbrev pub changed : (Info → Info) → Option Info → Option Info
changed h none = none
changed h (some i) = some (h i)

abbrev pub cancel_if : Bool → Info → Info
cancel_if b i = if b then cancel i else i

Present-on_info :
    (q p : TreePath) (g : List Bytes) (h : Info → Info) (t : Node)
    → ((i : Info) → (h i).name ≡ i.name)
    → Present q g t
    → Present q g (modify p (on_info h) t)
Present-on_info q p [] h t k w = tt
Present-on_info q p (x ∷ g) h t k ((i, e), w) = (
  (
    if path_eq p (q ++ x ∷ []) then h i else i,
    info_at-on_info p (q ++ x ∷ []) h t k ∙ ground (arith, e),
  ),
  Present-on_info q p g h t k w,
)

cancel_one :
    (sibling r : TreePath) (t : Node)
    → info_at r (modify sibling (on_info cancel) t)
      ≡ changed (cancel_if (path_eq sibling r)) (info_at r t)
cancel_one sibling r t =
    info_at-on_info sibling r cancel t (λ i. refl) ∙ rejoin (path_eq sibling r) (info_at r t)
  where
    rejoin :
        (b : Bool) (o : Option Info)
        → (if b then elim o [ none ↦ none | some i ↦ some (cancel i) ] else o)
          ≡ changed (cancel_if b) o
    rejoin true none = refl
    rejoin true (some i) = refl
    rejoin false none = refl
    rejoin false (some i) = refl

cancel_twice :
    (a b : Bool) (o : Option Info)
    → changed (cancel_if b) (changed (cancel_if a) o) ≡ changed (cancel_if (a || b)) o
cancel_twice true true none = refl
cancel_twice true true (some i) = refl
cancel_twice true false o = ground arith
cancel_twice false b o = ground arith

-- The loop over a group cancels the siblings, and touches no other node.
pub cancel_group_lem :
    (q : TreePath) (self : Bytes) (g : List Bytes) (t : Node)
    → Present q g t
    → (t' : Node) × (cancel_group q self g t ≡ some t')
      × ((r : TreePath) → info_at r t' ≡ changed (cancel_if (is_sibling q self g r)) (info_at r t))
unfolding cancel_group is_sibling
cancel_group_lem q self [] t h = (t, refl, λ r. ground arith)
cancel_group_lem q self (x ∷ g) t ((i, e), h) = elim (Bool-cases (bytes_eq x self)) [
  | inl me ↦
      let (t', runs, same) = cancel_group_lem q self g t h in
      (t', rw (me, cancel_group) runs, λ r. rw me (same r))
  | inr other ↦
      let sibling = q ++ x ∷ [] in
      let (n, found, _) = get_of_info sibling t i e in
      let t1 = modify sibling (on_info cancel) t in
      let (t', runs, same) =
        cancel_group_lem q self g t1 (Present-on_info q sibling g cancel t (λ j. refl) h) in
      (
        t',
        rw (other, cancel_group) (rw (found, cancel_group) runs),
        λ r.
            same r
            ∙ ap (changed (cancel_if (is_sibling q self g r))) (cancel_one sibling r t)
            ∙ cancel_twice (path_eq sibling r) (is_sibling q self g r) (info_at r t)
            ∙ rw other refl,
      )
]

-- A node has a node above it, under which it stands by its name.
pub parent_found :
    (p q : TreePath) (self : Bytes) (t : Node) (i : Info)
    → split_last p ≡ some (q, self)
    → info_at p t ≡ some i
    → (j : Info) × (info_at q t ≡ some j)
unfolding split_last get
parent_found [] q self t i s e = cc
parent_found (x ∷ p) q self (node k f) i s e = elim (Option-cases (split_last p)) [
  | inl top ↦ let root : [] ≡ q = ground (arith, top) in rw (← root) (k, refl)
  | inr ((r, y), deeper) ↦
      let path : x ∷ r ≡ q = ground (arith, deeper) in
      let name : y ≡ self = ground (arith, deeper) in
      elim (Option-cases (find x f)) [
        | inl gone ↦ absurd (ground (arith, gone))
        | inr (c, found) ↦
            let (j, up) = parent_found p r y c i deeper (ground (arith, found)) in
            rw (← path) (j, ground (arith, found, up))
      ]
]

abbrev pub AllPresent : TreePath → List (List Bytes) → Node → Type 0
AllPresent q [] t = Unit {0}
AllPresent q (g ∷ gs) t = Present q g t × AllPresent q gs t

Present-group_siblings :
    (q : TreePath) (x : Bytes) (gs : List (List Bytes)) (g : List Bytes) (t : Node)
    → AllPresent q gs t
    → group_siblings x gs ≡ some g
    → Present q g t
unfolding group_siblings
Present-group_siblings q x [] g t w e = cc
Present-group_siblings q x (h ∷ gs) g t w e = elim (Bool-cases (member x h)) [
  | inl hit ↦ let same : h ≡ g = ground (arith, hit) in rw (← same) w.0
  | inr miss ↦ Present-group_siblings q x gs g t w.1 (ground (arith, miss))
]

AllPresent-on_info :
    (q p : TreePath) (gs : List (List Bytes)) (h : Info → Info) (t : Node)
    → ((i : Info) → (h i).name ≡ i.name)
    → AllPresent q gs t
    → AllPresent q gs (modify p (on_info h) t)
AllPresent-on_info q p [] h t k w = tt
AllPresent-on_info q p (g ∷ gs) h t k w =
    (Present-on_info q p g h t k w.0, AllPresent-on_info q p gs h t k w.1)

-- The group of a node, if its parent lists one.
abbrev pub group_of : TreePath → Node → List Bytes
group_of p t = elim (split_last p) [
  | none ↦ []
  | some (q, self) ↦ elim (info_at q t) [
    | none ↦ []
    | some j ↦ elim (group_siblings self j.groups) [ none ↦ [] | some g ↦ g ]
  ]
]

abbrev pub is_sibling_of : TreePath → List Bytes → TreePath → Bool
is_sibling_of p g r = elim (split_last p) [ none ↦ false | some (q, self) ↦ is_sibling q self g r ]

-- The groups of every node name children that it has.
abbrev pub IsGrouped : Node → Type 0
IsGrouped t = (q : TreePath) (j : Info) → info_at q t ≡ some j → AllPresent q j.groups t

cancel_siblings_lem :
    (p : TreePath) (t : Node) (i : Info)
    → info_at p t ≡ some i
    → IsGrouped t
    → (t' : Node) × (cancel_siblings p t ≡ some t')
      × ((r : TreePath)
          → info_at r t' ≡ changed (cancel_if (is_sibling_of p (group_of p t) r)) (info_at r t))
unfolding cancel_siblings is_sibling
cancel_siblings_lem p t i e w = elim (Option-cases (split_last p)) [
  | inl root ↦ (t, ground (arith, root), λ r. ground (arith, root))
  | inr ((q, self), s) ↦
      let (j, up) = parent_found p q self t i s e in
      let (n, found, _) = get_of_info q t j up in
      elim (Option-cases (group_siblings self j.groups)) [
        | inl alone ↦
            (t, ground (arith, s, up, found, alone), λ r. ground (arith, s, up, found, alone))
        | inr (g, grouped) ↦
            let (t', runs, same) =
              cancel_group_lem q self g t
                (Present-group_siblings q self j.groups g t (w q j up) grouped) in
            (
              t',
              ground (arith, s, up, found, grouped, runs),
              λ r. same r ∙ ground (arith, s, up, found, grouped),
            )
      ]
]

-- What `processDied` changes in the node at a path `r` when the runnable at `p` has quit.
unfoldable pub died_change :
    TreePath → RunResult → NodeState → Bool → List Bytes → TreePath → Info → Info
died_change p res s ctx g r i =
    if is_expected s res
    then i
    else if is_canceled res && ctx
    then (if path_eq p r then set_canceled i else i)
    else cancel_if (is_sibling_of p g r) (if path_eq p r then set_dead i else i)

group_of-set_dead :
    (p : TreePath) (t : Node) → group_of p (modify p (on_info set_dead) t) ≡ group_of p t
group_of-set_dead p t = elim (Option-cases (split_last p)) [
  | inl root ↦ ground (arith, root)
  | inr ((q, self), s) ↦
      let up = info_at-on_info p q set_dead t (λ i. refl) in ground (arith, s, up)
]

IsGrouped-set_dead :
    (p : TreePath) (t : Node) → IsGrouped t → IsGrouped (modify p (on_info set_dead) t)
IsGrouped-set_dead p t w q j e = elim (Option-cases (info_at q t)) [
  | inl gone ↦ absurd (ground (arith, info_at-on_info p q set_dead t (λ i. refl), gone))
  | inr (k, found) ↦
      let same : k.groups ≡ j.groups =
        ground (arith, info_at-on_info p q set_dead t (λ i. refl), found) in
      rw (← same) (AllPresent-on_info q p k.groups set_dead t (λ i. refl) (w q k found))
]

-- `died_change` is what happens at each path.
pub process_died_change :
    (p : TreePath) (res : RunResult) (t : Node) (i : Info)
    → info_at p t ≡ some i
    → IsGrouped t
    → (t' : Node) × (process_died p res t ≡ some t')
      × ((r : TreePath)
          → info_at r t'
            ≡ changed (died_change p res i.state (ctx_err p t) (group_of p t) r) (info_at r t))
unfolding process_died died_change
process_died_change p res t i e w =
    let (n, found, is_i) = get_of_info p t i e in
    elim (Bool-cases (is_expected i.state res)) [
      | inl fine ↦ (t, ground (arith, found, is_i, fine), λ r. ground (arith, fine))
      | inr odd ↦ elim (Bool-cases (is_canceled res && ctx_err p t)) [
        | inl asked ↦ (
          modify p (on_info set_canceled) t,
          ground (arith, found, is_i, odd, asked),
          λ r. info_at-on_info p r set_canceled t (λ j. refl) ∙ ground (arith, odd, asked),
        )
        | inr failed ↦
            let t1 = modify p (on_info set_dead) t in
            let at1 = λ (r : TreePath). info_at-on_info p r set_dead t (λ j. refl) in
            let (t', runs, same) =
              cancel_siblings_lem p t1 (set_dead i) (ground (arith, at1 p, path_eq_refl p))
                (IsGrouped-set_dead p t w) in
            (
              t',
              ground (arith, found, is_i, odd, failed, runs),
              λ r. same r ∙ ground (arith, at1 r, group_of-set_dead p t, odd, failed),
            )
      ]
    ]
