-- ===== src/Supervisor/Gc/Visit.antt =====
-- Phase two of the collection: one turn of its loop keeps the invariant, the loop ends, and at its
-- end every node has the opinion of the definition.
use monogon.Prelude.{
  ℕ, zero, suc, ◌≤◌, ◌≡◌, ◌↔◌, refl, ◌∙◌, sym, Bool, true, List, [], ◌∷◌, ◌++◌, none, some,
  if◌then◌else◌, arith, inl, inr, ◌⊎◌, Bool-cases, Option-cases, Bytes,
}
use monogon.Supervisor.Tree.{
  Info, Node, node, Forest, TreePath, info_of, children_of, find, get, path_eq, size,
}
use monogon.Supervisor.Tree.Laws.{path_eq_iff, path_eq_refl, get_of_info}
use monogon.Supervisor.Node.{is_some}
use monogon.Supervisor.Processor.{split_last}
use monogon.Supervisor.RunGroup.{get_child}
use monogon.Supervisor.Died.{parent_found}
use monogon.Supervisor.Gc.{Opinions, opinion, all_visited, parent_queue, verdict}
use monogon.Supervisor.Gc.Sets.{
  In, In-append_left, In-append_right, In-append_cases, all_visited-false,
}
use monogon.Supervisor.Gc.Ready.{
  AllStopped, Inv, verdict_lem, opinion-cons, all_visited-cons, split_last-append, size_below,
}

-- The parent of a path in a tree that has the path.
parent_get :
    (p q : TreePath) (self : Bytes) (t : Node) (n : Node)
    → split_last p ≡ some (q, self)
    → get p t ≡ some n
    → (k : Node) × (get q t ≡ some k)
parent_get p q self t n s e =
    let (j, up) = parent_found p q self t (info_of n) s (ground (arith, e)) in
    let (k, found, _) = get_of_info q t j up in (k, found)

-- Only the parent can be queued, and it is unless it was visited.
parent_queued :
    (p u : TreePath) (x : Bytes) (m : Opinions)
    → p ≡ u ++ x ∷ []
    → opinion u m ≡ none
    → parent_queue p m ≡ u ∷ []
unfolding parent_queue
parent_queued p u x m at new = rw at (ground (arith, split_last-append u x, new))

pub parent_queue-cases :
    (p : TreePath) (m : Opinions)
    → (parent_queue p m ≡ [])
      ⊎ ((q : TreePath) × (self : Bytes) × (split_last p ≡ some (q, self))
          × (parent_queue p m ≡ q ∷ []))
unfolding parent_queue
parent_queue-cases p m = elim (Option-cases (split_last p)) [
  | inl root ↦ inl (ground (arith, root))
  | inr ((q, self), s) ↦ elim (Bool-cases (is_some (opinion q m))) [
    | inl old ↦ inl (ground (arith, s, old))
    | inr new ↦ inr (q, self, s, ground (arith, s, new))
  ]
]

parent_only :
    (p u : TreePath) (m : Opinions)
    → In u (parent_queue p m)
    → (self : Bytes) × (split_last p ≡ some (u, self))
parent_only p u m h = elim (parent_queue-cases p m) [
  | inl empty ↦ absurd (rw empty at h)
  | inr (q, self, s, one) ↦ (self, rw (only q (rw one at h)) s)
]
  where
    only : (q : TreePath) → In u (q ∷ []) → u ≡ q
    only q (inl e) = e
    only q (inr h) = absurd h

module _ (t : Node) where
  module _ (q : List TreePath) (m : Opinions) (p : TreePath) (i : Info) (f : Forest)
      (v : Inv t (p ∷ q) m) (e : get p t ≡ some (node i f)) (all : all_visited m p f ≡ true) where
    abbrev noted : Opinions
    noted = (p, verdict m p (node i f)) ∷ m

    note_at :
        (r : TreePath)
        → opinion r noted ≡ (if path_eq p r then some (verdict m p (node i f)) else opinion r m)
    note_at r = opinion-cons p r (verdict m p (node i f)) m

    noted_sound : (r : TreePath) (b : Bool) → opinion r noted ≡ some b → (b ≡ true) ↔ AllStopped t r
    noted_sound r b h = elim (Bool-cases (path_eq p r)) [
      | inl here ↦
          let at : r ≡ p = sym ((path_eq_iff p r).0 here) in
          let is : verdict m p (node i f) ≡ b = ground (arith, note_at r, here) in
          rw (at, ← is) (verdict_lem t (p ∷ q) m p i f v e all)
      | inr away ↦ v.sound r b (ground (arith, note_at r, away))
    ]

    noted_closed :
        (r : TreePath) (b : Bool) (n : Node)
        → opinion r noted ≡ some b
        → get r t ≡ some n
        → all_visited noted r (children_of n) ≡ true
    noted_closed r b n h g =
        all_visited-cons p r (verdict m p (node i f)) m (children_of n)
          (elim (Bool-cases (path_eq p r)) [
            | inl here ↦
                let at : r ≡ p = sym ((path_eq_iff p r).0 here) in
                let same : node i f ≡ n = ground (arith, e, g, at) in rw (at, ← same) all
            | inr away ↦ v.closed r b n (ground (arith, note_at r, away)) g
          ])

    noted_valid :
        (r : TreePath) → In r (q ++ parent_queue p noted) → (n : Node) × (get r t ≡ some n)
    noted_valid r h = elim (In-append_cases r q (parent_queue p noted) h) [
      | inl old ↦ v.valid r (inr old)
      | inr new ↦ let (self, s) = parent_only p r noted new in parent_get p r self t (node i f) s e
    ]

    noted_pending :
        (u : TreePath) (n : Node)
        → get u t ≡ some n
        → opinion u noted ≡ none
        → In u (q ++ parent_queue p noted)
          ⊎ ((x : Bytes) × (c : Node) × (find x (children_of n) ≡ some c)
              × (opinion (u ++ x ∷ []) noted ≡ none))
    noted_pending u n g h =
        let before : opinion u m ≡ none = ground (arith, note_at u, h) in
        elim (v.pending u n g before) [
          | inl (inl same) ↦ absurd (ground (arith, note_at u, h, same, path_eq_refl p))
          | inl (inr queued) ↦ inl (In-append_left u q (parent_queue p noted) queued)
          | inr (x, c, found, new) ↦ elim (Bool-cases (path_eq p (u ++ x ∷ []))) [
            | inl child ↦
                let at : p ≡ u ++ x ∷ [] = (path_eq_iff p (u ++ x ∷ [])).0 child in
                inl (
                  In-append_right u q (parent_queue p noted)
                    (rw (parent_queued p u x noted at h) (inl refl)))
            | inr other ↦ inr (x, c, found, ground (arith, note_at (u ++ x ∷ []), other, new))
          ]
        ]

    -- A turn that visits a node.
    pub visit_Inv : Inv t (q ++ parent_queue p noted) noted
    visit_Inv = record {
      valid = noted_valid;
      sound = noted_sound;
      closed = noted_closed;
      pending = noted_pending;
    }

  -- A turn that puts a node back.
  pub put_back_Inv :
      (q : List TreePath) (m : Opinions) (p : TreePath) → Inv t (p ∷ q) m → Inv t (q ++ p ∷ []) m
  put_back_Inv q m p v = record {
    valid = λ r h. v.valid r (turned r h);
    sound = v.sound;
    closed = v.closed;
    pending = λ r n g new. elim (v.pending r n g new) [
      | inl (inl e) ↦ inl (In-append_right r q (p ∷ []) (inl e))
      | inl (inr h) ↦ inl (In-append_left r q (p ∷ []) h)
      | inr child ↦ inr child
    ];
  }
    where
      turned : (r : TreePath) → In r (q ++ p ∷ []) → In r (p ∷ q)
      turned r h = elim (In-append_cases r q (p ∷ []) h) [
        | inl old ↦ inr old
        | inr (inl e) ↦ inl e
        | inr (inr none_left) ↦ absurd none_left
      ]

  -- An entry of the queue whose turn would visit it.
  abbrev pub IsDue : Opinions → TreePath → Type 0
  IsDue m p = (n : Node) × (get p t ≡ some n) × (all_visited m p (children_of n) ≡ true)

  -- At or below a node that was not visited an entry of the queue is due.
  pub IsDue-below :
      (q : List TreePath) (m : Opinions) (bound : ℕ) (p : TreePath) (n : Node)
      → Inv t q m
      → size n ≤ bound
      → get p t ≡ some n
      → opinion p m ≡ none
      → (w : TreePath) × In w q × IsDue m w
  IsDue-below q m zero p (node i f) v le e new = absurd (unfold size in omega arith)
  IsDue-below q m (suc bound) p (node i f) v le e new =
      let at_child =
        λ (x : Bytes) (c : Node) (found : find x f ≡ some c)
            (fresh : opinion (p ++ x ∷ []) m ≡ none).
          IsDue-below q m bound (p ++ x ∷ []) c v (size_below x i f c bound found le)
            (get_child p x t ∙ ground (arith, e, found)) fresh in
      elim (v.pending p (node i f) e new) [
        | inr (x, c, found, fresh) ↦ at_child x c found fresh
        | inl queued ↦ elim (Bool-cases (all_visited m p f)) [
          | inl all ↦ (p, queued, (node i f, e, all))
          | inr some_not ↦
              let (x, c, found, fresh) = all_visited-false m p f some_not in
              at_child x c found fresh
        ]
      ]
