-- ===== src/Supervisor/Invariant.antt =====
-- The tree's invariant over all that runnables and the processor's death handling do to it, and
-- the states that a node can go through.
use monogon.Prelude.{
  ◌≡◌, ◌≢◌, refl, ◌∙◌, Bool, List, [], ◌∷◌, ◌++◌, Option, none, some, if◌then◌else◌, arith, inl,
  inr, ◌⊎◌, ◌↔◌, Option-cases, Bytes,
}
use monogon.Supervisor.Tree.{
  NodeState, Info, Node, TreePath, get, modify, on_info, info_at, path_eq, ctx_err,
}
use monogon.Supervisor.Tree.Laws.{info_at-on_info, get_of_info, path_eq_iff, path_eq_refl}
use monogon.Supervisor.Node.{SignalType, signal_healthy, signal_done, signal_state, enter, signal}
use monogon.Supervisor.Processor.{RunResult, process_died}
use monogon.Supervisor.Died.{
  Present, AllPresent, IsGrouped, changed, died_change, process_died_change, group_of,
}

pub elsewhere :
    (h : Info → Info) (p r : TreePath) (o : Option Info)
    → p ≢ r
    → changed (λ k. if path_eq p r then h k else k) o ≡ o
elsewhere h p r none apart = refl
elsewhere h p r (some k) apart = ground (arith, path_eq_iff p r)

-- No node goes away.
abbrev pub Keeps : Node → Node → Type 0
Keeps t t' = (r : TreePath) (i : Info) → info_at r t ≡ some i → (j : Info) × (info_at r t' ≡ some j)

pub Present-Keeps :
    (q : TreePath) (g : List Bytes) (t t' : Node) → Keeps t t' → Present q g t → Present q g t'
Present-Keeps q [] t t' k w = tt
Present-Keeps q (x ∷ g) t t' k ((i, e), w) = (k (q ++ x ∷ []) i e, Present-Keeps q g t t' k w)

pub AllPresent-Keeps :
    (q : TreePath) (gs : List (List Bytes)) (t t' : Node)
    → Keeps t t'
    → AllPresent q gs t
    → AllPresent q gs t'
AllPresent-Keeps q [] t t' k w = tt
AllPresent-Keeps q (g ∷ gs) t t' k w =
    (Present-Keeps q g t t' k w.0, AllPresent-Keeps q gs t t' k w.1)

-- A change of what nodes keep that leaves every node's groups alone.
SameGroups : Node → Node → Type 0
SameGroups t t' =
    (q : TreePath) (j : Info)
    → info_at q t' ≡ some j
    → (k : Info) × (info_at q t ≡ some k) × (k.groups ≡ j.groups)

SameGroups-IsGrouped : (t t' : Node) → Keeps t t' → SameGroups t t' → IsGrouped t → IsGrouped t'
unfolding SameGroups
SameGroups-IsGrouped t t' keeps same w q j e =
    let (k, found, groups) = same q j e in
    rw (← groups) (AllPresent-Keeps q k.groups t t' keeps (w q k found))

module _ (t t' : Node) (c : TreePath → Info → Info)
    (effect : (r : TreePath) → info_at r t' ≡ changed (c r) (info_at r t))
    (groups : (r : TreePath) (i : Info) → (c r i).groups ≡ i.groups) where
  pub changed-IsGrouped : IsGrouped t → IsGrouped t'
  unfolding SameGroups
  changed-IsGrouped =
      SameGroups-IsGrouped t t' (λ r i e. (c r i, ground (arith, effect r, e)))
        (λ q j e. elim (Option-cases (info_at q t)) [
          | inl gone ↦ absurd (ground (arith, effect q, gone))
          | inr (k, found) ↦ (k, found, ground (arith, effect q, found, groups q k))
        ])

signal_run :
    (p : TreePath) (s : SignalType) (t : Node) (i : Info)
    → info_at p t ≡ some i
    → (signal_state s i.state ≡ none) × (signal p s t ≡ none)
      ⊎ ((st : NodeState) × (t' : Node) × (signal_state s i.state ≡ some st)
          × (signal p s t ≡ some t')
          × ((r : TreePath)
              → info_at r t' ≡ changed (λ k. if path_eq p r then enter st k else k) (info_at r t)))
unfolding signal
signal_run p s t i e =
    let (n, found, is_i) = get_of_info p t i e in
    elim (Option-cases (signal_state s i.state)) [
      | inl bad ↦ inl (bad, ground (arith, found, is_i, bad))
      | inr (st, good) ↦ inr (
        st,
        modify p (on_info (enter st)) t,
        good,
        ground (arith, found, is_i, good),
        λ r. info_at-on_info p r (enter st) t (λ k. refl) ∙ ground arith,
      )
    ]

-- The signals in their turn: the state a signal is meant for, and the one it leads to.
pub data Turn : SignalType → NodeState → NodeState → Type 0 where
  healthy_turn : Turn signal_healthy NodeState.new NodeState.healthy
  done_turn : Turn signal_done NodeState.healthy NodeState.done

Turn-signal_state : (s : SignalType) (a b : NodeState) → Turn s a b ↔ (signal_state s a ≡ some b)
unfolding signal_state
Turn-signal_state s a b = (to s a b, from s a b)
  where
    to : (s : SignalType) (a b : NodeState) → Turn s a b → signal_state s a ≡ some b
    to s a b healthy_turn = refl
    to s a b done_turn = refl

    from : (s : SignalType) (a b : NodeState) → signal_state s a ≡ some b → Turn s a b
    from signal_healthy NodeState.new b h =
        let e : NodeState.healthy ≡ b = ground (arith, h) in rw (← e) healthy_turn
    from signal_done NodeState.new b h = absurd (ground (arith, h))
    from signal_healthy NodeState.healthy b h = absurd (ground (arith, h))
    from signal_done NodeState.healthy b h =
        let e : NodeState.done ≡ b = ground (arith, h) in rw (← e) done_turn
    from signal_healthy NodeState.dead b h = absurd (ground (arith, h))
    from signal_done NodeState.dead b h = absurd (ground (arith, h))
    from signal_healthy NodeState.done b h = absurd (ground (arith, h))
    from signal_done NodeState.done b h = absurd (ground (arith, h))
    from signal_healthy NodeState.canceled b h = absurd (ground (arith, h))
    from signal_done NodeState.canceled b h = absurd (ground (arith, h))

-- `Signal` is accepted exactly in the state that it is meant for: healthy from NEW and done from
-- HEALTHY. Then the node is in the next state with no failed start counted in its backoff, what else
-- it keeps is as before, and no other node changes; otherwise it panics.
pub signal_effect :
    (p : TreePath) (s : SignalType) (t : Node) (i : Info)
    → info_at p t ≡ some i
    → ((st : NodeState) → ¬ Turn s i.state st) × (signal p s t ≡ none)
      ⊎ ((st : NodeState) × (t' : Node) × Turn s i.state st
          × (signal p s t ≡ some t')
          × (info_at p t' ≡ some (record i { state = st; failures = 0 }))
          × ((r : TreePath) → p ≢ r → info_at r t' ≡ info_at r t))
signal_effect p s t i e = elim (signal_run p s t i e) [
  | inl (bad, panics) ↦
      inl (λ st turn. absurd (ground (arith, (Turn-signal_state s i.state st).0 turn, bad)), panics)
  | inr (st, t', good, runs, effect) ↦ inr (
    st,
    t',
    (Turn-signal_state s i.state st).1 good,
    runs,
    ground (arith, effect p, e, path_eq_refl p),
    λ r apart. effect r ∙ elsewhere (enter st) p r (info_at r t) apart,
  )
]

died_change-groups :
    (p : TreePath) (res : RunResult) (s : NodeState) (c : Bool) (g : List Bytes) (r : TreePath)
    (i : Info)
    → (died_change p res s c g r i).groups ≡ i.groups
unfolding died_change
died_change-groups p res s c g r i = ground arith

process_died_missing :
    (p : TreePath) (res : RunResult) (t t' : Node)
    → info_at p t ≡ none
    → process_died p res t ≢ some t'
unfolding process_died
process_died_missing p res t t' gone = elim (Option-cases (get p t)) [
  | inl e ↦ ground (arith, e)
  | inr (n, e) ↦ absurd (ground (arith, e))
]

signal_missing :
    (p : TreePath) (s : SignalType) (t : Node) → info_at p t ≡ none → signal p s t ≡ none
unfolding signal
signal_missing p s t gone = elim (Option-cases (get p t)) [
  | inl e ↦ ground (arith, e)
  | inr (n, e) ↦ absurd (ground (arith, e))
]

pub process_died-IsGrouped :
    (p : TreePath) (res : RunResult) (t t' : Node)
    → IsGrouped t
    → process_died p res t ≡ some t'
    → IsGrouped t'
process_died-IsGrouped p res t t' w run = elim (Option-cases (info_at p t)) [
  | inl gone ↦ absurd (process_died_missing p res t t' gone run)
  | inr (i, e) ↦
      let (u, runs, effect) = process_died_change p res t i e w in
      let same : u ≡ t' = ground (arith, runs, run) in
      rw (← same) (
        changed-IsGrouped t u (died_change p res i.state (ctx_err p t) (group_of p t)) effect
          (died_change-groups p res i.state (ctx_err p t) (group_of p t)) w)
]

pub signal-IsGrouped :
    (p : TreePath) (s : SignalType) (t t' : Node)
    → IsGrouped t
    → signal p s t ≡ some t'
    → IsGrouped t'
signal-IsGrouped p s t t' w run = elim (Option-cases (info_at p t)) [
  | inl gone ↦ absurd (ground (arith, signal_missing p s t gone, run))
  | inr (i, e) ↦ elim (signal_run p s t i e) [
    | inl (_, panics) ↦ absurd (ground (arith, panics, run))
    | inr (st, u, _, runs, effect) ↦
        let same : u ≡ t' = ground (arith, runs, run) in
        rw (← same) (
          changed-IsGrouped t u (λ r k. if path_eq p r then enter st k else k) effect
            (λ r k. ground arith) w)
  ]
]
