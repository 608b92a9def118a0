-- ===== src/Kmod/Manager/Giving.antt =====
-- osbase/kmod/manager.go: what is given to the kernel, and in what order.
use monogon.Prelude.{
  ℕ, zero, suc, ◌<◌, ◌≡◌, ◌≢◌, ◌⊎◌, refl, sym, ap, ◌∙◌, Bool, true, false, ◌||◌, some, eq_refl,
  Bytes, List, [], ◌∷◌, ◌++◌, arith, inl, inr, Bool-cases,
}
use mathlib.Core.List.{append-nil, append_assoc}
use mathlib.Core.Path.{subst}
use monogon.Kmod.Manager.{
  Module, Answer, accepted, already_exists, refused, Manager, Outcome, loaded, failed, not_found,
  panicked, out_of_fuel, has, is_empty, module_at, insert_module, load_modules,
}
use monogon.Kmod.Manager.Loading.{
  IsSound, is_there, IsComplete, Loads, insert_module-Loads, load_modules-Loads,
}

has-append : (y : ℕ) (xs ys : List ℕ) → has y (xs ++ ys) ≡ (has y xs || has y ys)
has-append y [] ys = refl
has-append y (x ∷ xs) ys = ground (arith, has-append y xs ys)

module _ (meta : List Module) (opens : Bytes → Bool) (kernel : List ℕ → ℕ → Answer) where
  -- The modules `new` can be given to the kernel in this order, after those of `s` and `seen`: each has
  -- a file that opens, its dependencies are there by then, and the kernel does not have it.
  abbrev pub InOrder : Manager → List ℕ → List ℕ → Type 0
  InOrder s seen [] = Unit {0}
  InOrder s seen (y ∷ new) =
      ((m : Module) × (module_at meta y ≡ some m)
        × (is_empty m.path ≡ false)
        × (opens m.path ≡ true)
        × (kernel (s.given ++ seen) y ≢ already_exists)
        × ((d : ℕ) → has d m.depends ≡ true → (is_there meta s d || has d seen) ≡ true))
      × InOrder s (seen ++ y ∷ []) new

  -- From `s` to `t` some modules were given to the kernel, and no others are newly marked.
  abbrev pub Given : Manager → Manager → Type 0
  Given s t =
      (new : List ℕ) × (t.given ≡ s.given ++ new)
      × ((y : ℕ) → has y t.loaded_modules ≡ (has y s.loaded_modules || has y new))
      × InOrder s [] new

  InOrder-append :
      (s : Manager) (seen xs ys : List ℕ)
      → InOrder s seen xs
      → InOrder s (seen ++ xs) ys
      → InOrder s seen (xs ++ ys)
  InOrder-append s seen [] ys a b = rw append-nil at b
  InOrder-append s seen (x ∷ xs) ys (one, a) b =
      (one, InOrder-append s (seen ++ x ∷ []) xs ys a (rw (append_assoc) b))

  InOrder-shift :
      (s t : Manager) (before seen new : List ℕ)
      → t.given ≡ s.given ++ before
      → ((y : ℕ) → has y t.loaded_modules ≡ (has y s.loaded_modules || has y before))
      → InOrder t seen new
      → InOrder s (before ++ seen) new
  InOrder-shift s t before seen [] given marks w = tt
  InOrder-shift s t before seen (y ∷ new) given marks ((m, at, file, opened, lacks, deps), w) = (
    (
      m,
      at,
      file,
      opened,
      λ has_it. lacks (
          ap (λ g. kernel g y) (ap (λ g. g ++ seen) given ∙ append_assoc s.given before seen)
          ∙ has_it),
      λ d dep. ground (arith, deps d dep, marks d, has-append d before seen),
    ),
    subst (λ l. InOrder s l new) (sym (append_assoc before seen (y ∷ [])))
        (InOrder-shift s t before (seen ++ y ∷ []) new given marks w),
  )

  Given-refl : (s : Manager) → Given s s
  Given-refl s = ([], sym (append-nil s.given), (λ y. ground arith), tt)

  Given-trans : (s t u : Manager) → Given s t → Given t u → Given s u
  Given-trans s t u (xs, given, marks, order) (ys, given2, marks2, order2) = (
    xs ++ ys,
    given2 ∙ ap (λ g. g ++ ys) given ∙ append_assoc s.given xs ys,
    (λ y. ground (arith, marks y, marks2 y, has-append y xs ys)),
    InOrder-append s [] xs ys order
        (rw append-nil at (InOrder-shift s t xs [] ys given marks order2)),
  )

  abbrev pub Gives : Manager → Outcome → Type 0
  Gives s (loaded t) = Given s t
  Gives s (failed t) = Unit
  Gives s not_found = Unit
  Gives s panicked = Unit
  Gives s out_of_fuel = Unit

  Outcome-cases :
      (r : Outcome)
      → ((t : Manager) × (r ≡ loaded t))
        ⊎ (((t : Manager) × (r ≡ failed t))
            ⊎ ((r ≡ not_found) ⊎ ((r ≡ panicked) ⊎ (r ≡ out_of_fuel))))
  Outcome-cases (loaded t) = inl (t, refl)
  Outcome-cases (failed t) = inr (inl (t, refl))
  Outcome-cases not_found = inr (inr (inl refl))
  Outcome-cases panicked = inr (inr (inr (inl refl)))
  Outcome-cases out_of_fuel = inr (inr (inr (inr refl)))

  Gives-eq : (s : Manager) (r r' : Outcome) → r' ≡ r → Gives s r → Gives s r'
  Gives-eq s r r' e g = subst (Gives s) (sym e) g

  Gives-later : (s t : Manager) (r : Outcome) → Given s t → Gives t r → Gives s r
  Gives-later s t (loaded u) a b = Given-trans s t u a b
  Gives-later s t (failed u) a b = tt
  Gives-later s t not_found a b = tt
  Gives-later s t panicked a b = tt
  Gives-later s t out_of_fuel a b = tt

  Answer-cases : (a : Answer) → (a ≡ already_exists) ⊎ ((a ≡ accepted) ⊎ (a ≡ refused))
  Answer-cases accepted = inr (inl refl)
  Answer-cases already_exists = inl refl
  Answer-cases refused = inr (inr refl)

  insert_module-Gives :
      (m : Module) (i : ℕ) (t u : Manager)
      → module_at meta i ≡ some m
      → is_empty m.path ≡ false
      → ((y : ℕ) → has y m.depends ≡ true → is_there meta t y ≡ true)
      → insert_module meta opens kernel m i t ≡ loaded u
      → Given t u
  unfolding insert_module
  insert_module-Gives m i t u at file deps e =
      let marks : Manager = record {
        loaded_modules = i ∷ t.loaded_modules;
        given = t.given ++ i ∷ [];
      } in
      elim (Bool-cases (opens m.path)) [
        | inr shut ↦ absurd (ground (arith, e, shut))
        | inl opened ↦ elim (Answer-cases (kernel t.given i)) [
          | inl exists ↦ absurd (ground (arith, e, opened, exists))
          | inr lacks ↦
              let same : marks ≡ u = ground (arith, e, opened, lacks) in
              let new : kernel (t.given ++ []) i ≢ already_exists =
                rw append-nil (ground (arith, lacks)) in
              subst (Given t) same (
                i ∷ [],
                refl,
                (λ y. ground arith),
                ((m, at, file, opened, new, λ d dep. ground (arith, deps d dep)), tt),
              )
        ]
      ]

  -- A module with a file: its dependencies, the module, and the modules that follow.
  step-Gives :
      (fuel i : ℕ) (is : List ℕ) (s : Manager) (m : Module)
      → module_at meta i ≡ some m
      → has i s.loaded_modules ≡ false
      → is_empty m.path ≡ false
      → Loads meta opens kernel s m.depends (load_modules meta opens kernel fuel m.depends s)
      → Gives s (load_modules meta opens kernel fuel m.depends s)
      → ((u : Manager)
          → IsComplete meta u
          → Gives u (load_modules meta opens kernel (suc fuel) is u))
      → Gives s (load_modules meta opens kernel (suc fuel) (i ∷ is) s)
  unfolding load_modules
  step-Gives fuel i is s m at new file deps given rest =
      let whole = load_modules meta opens kernel (suc fuel) (i ∷ is) s in
      let r = load_modules meta opens kernel fuel m.depends s in
      elim (Outcome-cases r) [
        | inl (t, e) ↦
            let (complete, more, there) = subst (Loads meta opens kernel s m.depends) e deps in
            let first : Given s t = subst (Gives s) e given in
            let q = insert_module meta opens kernel m i t in
            elim (Outcome-cases q) [
              | inl (u, f) ↦
                  let marked : Loads meta opens kernel t (i ∷ []) (loaded u) =
                    subst (Loads meta opens kernel t (i ∷ [])) f
                      (insert_module-Loads meta opens kernel m i t at complete there) in
                  let second = insert_module-Gives m i t u at file there f in
                  let last = load_modules meta opens kernel (suc fuel) is u in
                  Gives-eq s last whole (ground (arith, new, at, file, e, f))
                    (Gives-later s u last (Given-trans s t u first second) (rest u marked.0))
              | inr (inl (v, f)) ↦
                  Gives-eq s (failed v) whole (ground (arith, new, at, file, e, f)) tt
              | inr (inr (inl f)) ↦
                  Gives-eq s not_found whole (ground (arith, new, at, file, e, f)) tt
              | inr (inr (inr (inl f))) ↦
                  Gives-eq s panicked whole (ground (arith, new, at, file, e, f)) tt
              | inr (inr (inr (inr f))) ↦
                  Gives-eq s out_of_fuel whole (ground (arith, new, at, file, e, f)) tt
            ]
        | inr (inl (v, f)) ↦ Gives-eq s (failed v) whole (ground (arith, new, at, file, f)) tt
        | inr (inr (inl f)) ↦ Gives-eq s not_found whole (ground (arith, new, at, file, f)) tt
        | inr (inr (inr (inl f))) ↦ Gives-eq s panicked whole (ground (arith, new, at, file, f)) tt
        | inr (inr (inr (inr f))) ↦
            Gives-eq s out_of_fuel whole (ground (arith, new, at, file, f)) tt
      ]

  module _ (rank : ℕ → ℕ) (sound : IsSound meta rank) where
    load_modules-Gives :
        (fuel : ℕ) (is : List ℕ) (s : Manager)
        → ((i : ℕ) → has i is ≡ true → (rank i < fuel) × (m : Module) × (module_at meta i ≡ some m))
        → IsComplete meta s
        → Gives s (load_modules meta opens kernel fuel is s)
    unfolding load_modules
    load_modules-Gives fuel [] s ok complete = Given-refl s
    load_modules-Gives zero (i ∷ is) s ok complete =
        absurd (ground (arith, (ok i (ground (arith, eq_refl i))).0))
    load_modules-Gives (suc fuel) (i ∷ is) s ok complete =
        let (low, m, at) = ok i (ground (arith, eq_refl i)) in
        let whole = load_modules meta opens kernel (suc fuel) (i ∷ is) s in
        let rest : (j : ℕ)
            → has j is ≡ true
            → (rank j < suc fuel) × (n : Module) × (module_at meta j ≡ some n) =
          λ j h. ok j (ground (arith, h)) in
        let skipped = load_modules meta opens kernel (suc fuel) is s in
        let go_on = load_modules-Gives (suc fuel) is s rest complete in
        elim (Bool-cases (has i s.loaded_modules)) [
          | inl there ↦ Gives-eq s skipped whole (ground (arith, there)) go_on
          | inr new ↦ elim (Bool-cases (is_empty m.path)) [
            | inl built_in ↦ Gives-eq s skipped whole (ground (arith, new, at, built_in)) go_on
            | inr file ↦
                let below : (d : ℕ)
                    → has d m.depends ≡ true
                    → (rank d < fuel) × (n : Module) × (module_at meta d ≡ some n) =
                  λ d h.
                    let (n, at_d) = sound.known i d m at h in
                    (omega (arith, sound.ranked i d m at h, low), n, at_d) in
                step-Gives fuel i is s m at new file
                  (load_modules-Loads meta opens kernel rank sound fuel m.depends s below complete)
                  (load_modules-Gives fuel m.depends s below complete)
                  (λ u. load_modules-Gives (suc fuel) is u rest)
          ]
        ]

    -- In metadata whose dependencies exist and go down a rank, for modules that exist with ranks
    -- below the fuel, and where the dependencies of the modules marked as loaded are there (marked,
    -- or built in): loading ends. After a success the modules asked for are there, and so are all
    -- dependencies of marked modules; what was marked stays so. The newly marked modules are just
    -- those that were given to the kernel, each after its dependencies, each with a file that opens,
    -- and each answered with no EEXIST. Loading fails only when a file does not open or when the
    -- kernel answers EEXIST: any other error of the kernel counts as a success.
    pub load_modules_effect :
        (fuel : ℕ) (is : List ℕ) (s : Manager)
        → ((i : ℕ) → has i is ≡ true → (rank i < fuel) × (m : Module) × (module_at meta i ≡ some m))
        → IsComplete meta s
        → Loads meta opens kernel s is (load_modules meta opens kernel fuel is s)
          × Gives s (load_modules meta opens kernel fuel is s)
    load_modules_effect fuel is s ok complete = (
      load_modules-Loads meta opens kernel rank sound fuel is s ok complete,
      load_modules-Gives fuel is s ok complete,
    )
