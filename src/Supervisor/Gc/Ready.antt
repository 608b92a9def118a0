-- ===== src/Supervisor/Gc/Ready.antt =====
-- Phase two of the collection: what it has found out about the nodes that it has visited, and what
-- is still waiting in the queue.
use monogon.Prelude.{
  ℕ, suc, ◌+◌, ◌≤◌, ◌≡◌, ◌↔◌, refl, ◌∙◌, ap, Bool, true, List, [], ◌∷◌, ◌++◌, none, some,
  if◌then◌else◌, arith, inl, inr, ◌⊎◌, Option-cases, Bytes, length,
}
use mathlib.Core.List.{append_assoc, append-nil}
use monogon.Supervisor.Tree.{
  Info, Node, node, Forest, nil, cons, TreePath, info_of, children_of, find, get, info_at, path_eq,
  size, size_forest,
}
use monogon.Supervisor.Tree.Laws.{strip-append}
use monogon.Supervisor.Processor.{split_last}
use monogon.Supervisor.RunGroup.{info_at-strip}
use monogon.Supervisor.Gc.{Opinions, opinion, all_visited, children_ready, is_stopped, verdict}
use monogon.Supervisor.Gc.Sets.{In, all_visited-find, children_ready-find, children_ready_of}

pub find-size : (x : Bytes) (f : Forest) (c : Node) → find x f ≡ some c → size c ≤ size_forest f
unfolding find size
find-size x nil c h = cc
find-size x (cons n f) c h = ground (arith, find-size x f c)

pub size_below :
    (x : Bytes) (i : Info) (f : Forest) (c : Node) (bound : ℕ)
    → find x f ≡ some c
    → size (node i f) ≤ suc bound
    → size c ≤ bound
unfolding size
size_below x i f c bound e le = omega (arith, find-size x f c e)

pub split_last-append : (p : TreePath) (x : Bytes) → split_last (p ++ x ∷ []) ≡ some (p, x)
unfolding split_last
split_last-append [] x = refl
split_last-append (y ∷ p) x = rw (split_last-append p x)

split_last-none : (p : TreePath) → split_last p ≡ none → p ≡ []
unfolding split_last
split_last-none [] h = refl
split_last-none (y ∷ p) h = elim (Option-cases (split_last p)) [
  | inl top ↦ absurd (ground (arith, top))
  | inr ((r, z), deeper) ↦ absurd (ground (arith, deeper))
]

pub length-split_last :
    (p q : TreePath) (x : Bytes) → split_last p ≡ some (q, x) → length p ≡ length q + 1
unfolding split_last
length-split_last [] q x h = cc
length-split_last (y ∷ p) q x h = elim (Option-cases (split_last p)) [
  | inl top ↦ ground (arith, top, split_last-none p top)
  | inr ((r, z), deeper) ↦ ground (arith, deeper, length-split_last p r z deeper)
]

pub opinion-cons :
    (p r : TreePath) (b : Bool) (m : Opinions)
    → opinion r ((p, b) ∷ m) ≡ (if path_eq p r then some b else opinion r m)
unfolding opinion
opinion-cons p r b m = refl

pub all_visited-cons :
    (p r : TreePath) (b : Bool) (m : Opinions) (f : Forest)
    → all_visited m r f ≡ true
    → all_visited ((p, b) ∷ m) r f ≡ true
unfolding all_visited
all_visited-cons p r b m nil h = refl
all_visited-cons p r b m (cons c f) h =
    ground (arith, opinion-cons p (r ++ (info_of c).name ∷ []) b m, all_visited-cons p r b m f)

module _ (t : Node) where
  -- "A subtree is restartable/ready iff every node in that subtree is either CANCELED, DEAD or
  -- DONE."
  abbrev pub AllStopped : TreePath → Type 0
  AllStopped p = (r : TreePath) (i : Info) → info_at (p ++ r) t ≡ some i → is_stopped i.state ≡ true

  pub record Inv (q : List TreePath) (m : Opinions) : Type 0 where
    pub valid : (p : TreePath) → In p q → (n : Node) × (get p t ≡ some n)
    pub sound : (p : TreePath) (b : Bool) → opinion p m ≡ some b → (b ≡ true) ↔ AllStopped p
    pub closed :
        (p : TreePath) (b : Bool) (n : Node)
        → opinion p m ≡ some b
        → get p t ≡ some n
        → all_visited m p (children_of n) ≡ true
    pub pending :
        (p : TreePath) (n : Node)
        → get p t ≡ some n
        → opinion p m ≡ none
        → In p q
          ⊎ ((x : Bytes) × (c : Node) × (find x (children_of n) ≡ some c)
              × (opinion (p ++ x ∷ []) m ≡ none))

  AllStopped-child : (p : TreePath) (x : Bytes) → AllStopped p → AllStopped (p ++ x ∷ [])
  AllStopped-child p x h r i e = h (x ∷ r) i (rw append_assoc at e)

  module _ (q : List TreePath) (m : Opinions) (p : TreePath) (i : Info) (f : Forest) (v : Inv q m)
      (e : get p t ≡ some (node i f)) (all : all_visited m p f ≡ true) where
    stopped_below :
        children_ready m p f ≡ true
        → is_stopped i.state ≡ true
        → (r : TreePath) (j : Info) → info_at (p ++ r) t ≡ some j
        → is_stopped j.state ≡ true
    unfolding get
    stopped_below ready own [] j h =
        let here : info_at p t ≡ some j = rw append-nil at h in
        let same : i ≡ j = ground (arith, e, here) in rw (← same) own
    stopped_below ready own (x ∷ r) j h =
        let below = info_at-strip p (p ++ x ∷ r) (x ∷ r) t (strip-append p (x ∷ r)) in
        elim (Option-cases (find x f)) [
          | inl gone ↦ absurd (ground (arith, below, e, gone, h))
          | inr (c, found) ↦
              (v.sound (p ++ x ∷ []) true (children_ready-find m p f x c ready found)).0 refl r j
                (rw append_assoc h)
        ]

    -- The verdict on a node whose children were all visited is that of the definition.
    pub verdict_lem : (verdict m p (node i f) ≡ true) ↔ AllStopped p
    verdict_lem = (
      λ h. stopped_below (ground (arith, h)) (ground (arith, h)),
      λ h.
          let own : is_stopped i.state ≡ true = h [] i (rw append-nil (ground (arith, e))) in
          let ready : children_ready m p f ≡ true = children_ready_of m p f λ x c found.
            let (b, known) = all_visited-find m p f x c all found in
            let good : b ≡ true = (v.sound (p ++ x ∷ []) b known).1 (AllStopped-child p x h) in
            known ∙ ap some good in
          ground (arith, own, ready),
    )
