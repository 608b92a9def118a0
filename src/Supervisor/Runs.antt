-- ===== src/Supervisor/Runs.antt =====
-- Runs of the tree: what runnables and the handling of deaths can do to it, in any order.
use monogon.Prelude.{
  ◌≡◌, refl, ◌∙◌, true, List, [], ◌∷◌, ◌++◌, Option, some, if◌then◌else◌, arith, inl, inr, ◌⊎◌,
  Bool-cases, Option-cases, Bytes, bytes_eq_refl,
}
use monogon.Supervisor.Tree.{Info, Node, TreePath, info_at, strip}
use monogon.Supervisor.Tree.Laws.{strip-append, strip-eq-nil}
use monogon.Supervisor.Node.{member, new_info}
use monogon.Supervisor.Died.{Present, AllPresent, IsGrouped}
use monogon.Supervisor.RunGroup.{after_run, below_run}
use monogon.Supervisor.Invariant.{Keeps, AllPresent-Keeps}

below_run-some :
    (i : Info) (xs : List Bytes) (rest : TreePath) (j : Info)
    → (k : Info) × (below_run i xs rest (some j) ≡ some k)
unfolding below_run
below_run-some i xs [] j = (record i { groups = i.groups ++ xs ∷ [] }, refl)
below_run-some i xs (x ∷ []) j = (if member x xs then new_info x else j, ground arith)
below_run-some i xs (x ∷ y ∷ rest) j = (j, refl)

after_run-some :
    (p : TreePath) (i : Info) (xs : List Bytes) (r : TreePath) (j : Info)
    → (k : Info) × (after_run p i xs r (some j) ≡ some k)
unfolding after_run
after_run-some p i xs r j = elim (Option-cases (strip p r)) [
  | inl apart ↦ (j, ground (arith, apart))
  | inr (rest, under) ↦ let (k, e) = below_run-some i xs rest j in (k, ground (arith, under, e))
]

-- What a node keeps after a group was accepted is new, or has the group added, or is as before.
below_run-groups :
    (i : Info) (xs : List Bytes) (rest : TreePath) (old : Option Info) (j : Info)
    → below_run i xs rest old ≡ some j
    → (j.groups ≡ []) ⊎ ((rest ≡ []) × (j.groups ≡ i.groups ++ xs ∷ [])) ⊎ (old ≡ some j)
unfolding below_run new_info
below_run-groups i xs [] old j e = inr (inl (refl, ground arith))
below_run-groups i xs (x ∷ []) old j e = elim (Bool-cases (member x xs)) [
  | inl named ↦ inl (ground (arith, named))
  | inr other ↦ inr (inr (ground (arith, other)))
]
below_run-groups i xs (x ∷ y ∷ rest) old j e = inr (inr e)

AllPresent-append :
    (p : TreePath) (gs : List (List Bytes)) (xs : List Bytes) (t : Node)
    → AllPresent p gs t
    → Present p xs t
    → AllPresent p (gs ++ xs ∷ []) t
AllPresent-append p [] xs t w h = (h, tt)
AllPresent-append p (g ∷ gs) xs t w h = (w.0, AllPresent-append p gs xs t w.1 h)

module _ (p : TreePath) (xs : List Bytes) (t t' : Node) (i : Info) (here : info_at p t ≡ some i)
    (effect : (r : TreePath) → info_at r t' ≡ after_run p i xs r (info_at r t)) where
  after_run-Keeps : Keeps t t'
  after_run-Keeps r j e = let (k, now) = after_run-some p i xs r j in (k, effect r ∙ rw e now)

  -- The new group names the children that were created for it.
  new_Present :
      (ys : List Bytes) → ((x : Bytes) → member x ys ≡ true → member x xs ≡ true) → Present p ys t'
  unfolding after_run below_run member
  new_Present [] sub = tt
  new_Present (y ∷ ys) sub = (
    (
      new_info y,
      effect (p ++ y ∷ [])
          ∙ ground (arith, strip-append p (y ∷ []), sub y (ground (arith, bytes_eq_refl y))),
    ),
    new_Present ys (λ x m. sub x (ground (arith, m))),
  )

  pub after_run-IsGrouped : IsGrouped t → IsGrouped t'
  unfolding after_run
  after_run-IsGrouped w q j e = elim (Option-cases (strip p q)) [
    | inl apart ↦
        AllPresent-Keeps q j.groups t t' after_run-Keeps (w q j (ground (arith, effect q, apart)))
    | inr (rest, under) ↦
        elim (below_run-groups i xs rest (info_at q t) j (ground (arith, effect q, under))) [
          | inl bare ↦ rw bare tt
          | inr (inl (top, grown)) ↦
              let at : q ≡ p = strip-eq-nil p q (rw top at under) in
              rw (grown, at)
                (AllPresent-append p i.groups xs t'
                  (AllPresent-Keeps p i.groups t t' after_run-Keeps (w p i here))
                  (new_Present xs (λ x m. m)))
          | inr (inr old) ↦ AllPresent-Keeps q j.groups t t' after_run-Keeps (w q j old)
        ]
  ]
