-- ===== src/Kmod/Manager/Loading.antt =====
-- osbase/kmod/manager.go: which modules are loaded after a success, and what an error means.
use monogon.Prelude.{
  ℕ, zero, suc, ◌<◌, ◌≡◌, ◌⊎◌, refl, sym, Bool, true, false, ◌||◌, none, some, ◌==◌, ==_iff,
  eq_refl, Bytes, List, [], ◌∷◌, ◌++◌, arith, inl, inr, Bool-cases,
}
use mathlib.Core.Path.{subst}
use monogon.Kmod.Manager.{
  Module, Answer, accepted, already_exists, refused, Manager, Outcome, loaded, failed, not_found,
  panicked, out_of_fuel, has, is_empty, module_at, insert_module, load_modules,
}

-- The metadata names modules that exist, and dependencies go down a rank.
pub record IsSound (meta : List Module) (rank : ℕ → ℕ) : Type 0 where
  pub known :
      (i d : ℕ) (m : Module)
      → module_at meta i ≡ some m
      → has d m.depends ≡ true
      → (n : Module) × (module_at meta d ≡ some n)
  pub ranked :
      (i d : ℕ) (m : Module) → module_at meta i ≡ some m → has d m.depends ≡ true → rank d < rank i

-- A module that needs no loading: it is marked as loaded, or it is built in.
abbrev pub is_there : List Module → Manager → ℕ → Bool
is_there meta s i =
    has i s.loaded_modules || elim (module_at meta i) [ none ↦ false | some m ↦ is_empty m.path ]

-- With each module that is marked as loaded its dependencies are there.
abbrev pub IsComplete : List Module → Manager → Type 0
IsComplete meta s =
    (i d : ℕ) (m : Module)
    → has i s.loaded_modules ≡ true
    → module_at meta i ≡ some m
    → has d m.depends ≡ true
    → is_there meta s d ≡ true

module _ (meta : List Module) (opens : Bytes → Bool) (kernel : List ℕ → ℕ → Answer) where
  -- Why loading stops: a file does not open, or the kernel has the module already.
  abbrev pub Stopped : Type 0
  Stopped =
      (i : ℕ) × (m : Module) × (module_at meta i ≡ some m)
      × ((opens m.path ≡ false) ⊎ ((given : List ℕ) × (kernel given i ≡ already_exists)))

  abbrev pub Loads : Manager → List ℕ → Outcome → Type 0
  Loads s is (loaded t) =
      IsComplete meta t
      × ((y : ℕ) → has y s.loaded_modules ≡ true → has y t.loaded_modules ≡ true)
      × ((y : ℕ) → has y is ≡ true → is_there meta t y ≡ true)
  Loads s is (failed t) = Stopped
  Loads s is not_found = ¬ (Unit {0})
  Loads s is panicked = ¬ (Unit {0})
  Loads s is out_of_fuel = ¬ (Unit {0})

  Loads-eq : (s : Manager) (is : List ℕ) (r r' : Outcome) → r' ≡ r → Loads s is r → Loads s is r'
  Loads-eq s is r r' e g = subst (Loads s is) (sym e) g

  Outcome-cases :
      (r : Outcome)
      → ((t : Manager) × (r ≡ loaded t))
        ⊎ (((t : Manager) × (r ≡ failed t)) ⊎ ((s : Manager) (is : List ℕ) → ¬ Loads s is r))
  Outcome-cases (loaded t) = inl (t, refl)
  Outcome-cases (failed t) = inr (inl (t, refl))
  Outcome-cases not_found = inr (inr (λ s is g. g tt))
  Outcome-cases panicked = inr (inr (λ s is g. g tt))
  Outcome-cases out_of_fuel = inr (inr (λ s is g. g tt))

  there-more :
      (s t : Manager) (y : ℕ)
      → (has y s.loaded_modules ≡ true → has y t.loaded_modules ≡ true)
      → is_there meta s y ≡ true
      → is_there meta t y ≡ true
  there-more s t y more h = ground (arith, h, more)

  Answer-cases : (a : Answer) → (a ≡ already_exists) ⊎ ((a ≡ accepted) ⊎ (a ≡ refused))
  Answer-cases accepted = inr (inl refl)
  Answer-cases already_exists = inl refl
  Answer-cases refused = inr (inr refl)

  -- A module may be marked as loaded when its dependencies are there.
  marked-Loads :
      (m : Module) (i : ℕ) (t u : Manager)
      → u.loaded_modules ≡ i ∷ t.loaded_modules
      → module_at meta i ≡ some m
      → IsComplete meta t
      → ((y : ℕ) → has y m.depends ≡ true → is_there meta t y ≡ true)
      → Loads t (i ∷ []) (loaded u)
  marked-Loads m i t u marks at complete deps =
      let more : (y : ℕ) → has y t.loaded_modules ≡ true → has y u.loaded_modules ≡ true =
        λ y h. ground (arith, marks, h) in
      (
        (λ j d n h at_j dep. elim (Bool-cases (i == j)) [
          | inl same ↦
              let f : i ≡ j = (==_iff i j).0 same in
              let mine : module_at meta i ≡ some n = rw f at_j in
              there-more t u d (more d) (deps d (ground (arith, at, mine, dep)))
          | inr apart ↦
              let before : has j t.loaded_modules ≡ true = ground (arith, marks, h, apart) in
              there-more t u d (more d) (complete j d n before at_j dep)
        ]),
        more,
        (λ y h. ground (arith, marks, h)),
      )

  -- The module that is given to the kernel behind its dependencies.
  pub insert_module-Loads :
      (m : Module) (i : ℕ) (t : Manager)
      → module_at meta i ≡ some m
      → IsComplete meta t
      → ((y : ℕ) → has y m.depends ≡ true → is_there meta t y ≡ true)
      → Loads t (i ∷ []) (insert_module meta opens kernel m i t)
  unfolding insert_module
  insert_module-Loads m i t at complete deps =
      let r = insert_module meta opens kernel m i t in
      let given : Manager = record {
        loaded_modules = t.loaded_modules;
        given = t.given ++ i ∷ [];
      } in
      let marks : Manager = record {
        loaded_modules = i ∷ t.loaded_modules;
        given = t.given ++ i ∷ [];
      } in
      let done = marked-Loads m i t marks refl at complete deps in
      elim (Bool-cases (opens m.path)) [
        | inr shut ↦ Loads-eq t (i ∷ []) (failed t) r (ground (arith, shut)) (i, m, at, inl shut)
        | inl opened ↦ elim (Answer-cases (kernel t.given i)) [
          | inl exists ↦
              Loads-eq t (i ∷ []) (failed given) r (ground (arith, opened, exists))
                (i, m, at, inr (t.given, exists))
          | inr (inl ok) ↦ Loads-eq t (i ∷ []) (loaded marks) r (ground (arith, opened, ok)) done
          | inr (inr bad) ↦ Loads-eq t (i ∷ []) (loaded marks) r (ground (arith, opened, bad)) done
        ]
      ]

  both-Loads :
      (s t : Manager) (i : ℕ) (is : List ℕ) (r : Outcome)
      → Loads s (i ∷ []) (loaded t)
      → Loads t is r
      → Loads s (i ∷ is) r
  both-Loads s t i is (loaded u) (_, more, here) (complete, more2, all) = (
    complete,
    (λ y h. more2 y (more y h)),
    (λ y h. elim (Bool-cases (i == y)) [
      | inl same ↦ there-more t u y (more2 y) (here y (ground (arith, same)))
      | inr apart ↦ all y (ground (arith, h, apart))
    ]),
  )
  both-Loads s t i is (failed u) a b = b
  both-Loads s t i is not_found a b = b
  both-Loads s t i is panicked a b = b
  both-Loads s t i is out_of_fuel a b = b

  -- A module that is there already.
  skip-Loads :
      (s : Manager) (i : ℕ)
      → IsComplete meta s
      → is_there meta s i ≡ true
      → Loads s (i ∷ []) (loaded s)
  skip-Loads s i complete there = (
    complete,
    (λ y h. h),
    (λ y h.
        let same : (i == y) ≡ true = ground (arith, h) in
        let f : i ≡ y = (==_iff i y).0 same in rw (sym f) there),
  )

  -- From the dependencies to the module itself.
  after-Loads :
      (s t : Manager) (i : ℕ) (ds : List ℕ) (r : Outcome)
      → Loads s ds (loaded t)
      → Loads t (i ∷ []) r
      → Loads s (i ∷ []) r
  after-Loads s t i ds (loaded u) (_, more, _) (complete, more2, all) =
      (complete, (λ y h. more2 y (more y h)), all)
  after-Loads s t i ds (failed u) a b = b
  after-Loads s t i ds not_found a b = b
  after-Loads s t i ds panicked a b = b
  after-Loads s t i ds out_of_fuel a b = b

  -- A module with a file: its dependencies, the module, and the modules that follow.
  step-Loads :
      (fuel i : ℕ) (is : List ℕ) (s : Manager) (m : Module)
      → module_at meta i ≡ some m
      → has i s.loaded_modules ≡ false
      → is_empty m.path ≡ false
      → Loads s m.depends (load_modules meta opens kernel fuel m.depends s)
      → ((u : Manager)
          → IsComplete meta u
          → Loads u is (load_modules meta opens kernel (suc fuel) is u))
      → Loads s (i ∷ is) (load_modules meta opens kernel (suc fuel) (i ∷ is) s)
  unfolding load_modules
  step-Loads fuel i is s m at new file deps rest =
      let whole = load_modules meta opens kernel (suc fuel) (i ∷ is) s in
      let r = load_modules meta opens kernel fuel m.depends s in
      elim (Outcome-cases r) [
        | inl (t, e) ↦
            let ready = Loads-eq s m.depends r (loaded t) (sym e) deps in
            let q = insert_module meta opens kernel m i t in
            let one =
              after-Loads s t i m.depends q ready (insert_module-Loads m i t at ready.0 ready.2) in
            elim (Outcome-cases q) [
              | inl (u, f) ↦
                  let here = Loads-eq s (i ∷ []) q (loaded u) (sym f) one in
                  let last = load_modules meta opens kernel (suc fuel) is u in
                  Loads-eq s (i ∷ is) last whole (ground (arith, new, at, file, e, f))
                    (both-Loads s u i is last here (rest u here.0))
              | inr (inl (u, f)) ↦
                  Loads-eq s (i ∷ is) (failed u) whole (ground (arith, new, at, file, e, f))
                    (Loads-eq s (i ∷ []) q (failed u) (sym f) one)
              | inr (inr never) ↦ absurd (never s (i ∷ []) one)
            ]
        | inr (inl (t, e)) ↦
            Loads-eq s (i ∷ is) (failed t) whole (ground (arith, new, at, file, e))
              (Loads-eq s m.depends r (failed t) (sym e) deps)
        | inr (inr never) ↦ absurd (never s m.depends deps)
      ]

  module _ (rank : ℕ → ℕ) (sound : IsSound meta rank) where
    -- Loading ends, and marks what it was asked for.
    pub load_modules-Loads :
        (fuel : ℕ) (is : List ℕ) (s : Manager)
        → ((i : ℕ) → has i is ≡ true → (rank i < fuel) × (m : Module) × (module_at meta i ≡ some m))
        → IsComplete meta s
        → Loads s is (load_modules meta opens kernel fuel is s)
    unfolding load_modules
    load_modules-Loads fuel [] s ok complete =
        (complete, (λ y h. h), (λ y h. absurd (ground (arith, h))))
    load_modules-Loads zero (i ∷ is) s ok complete =
        absurd (ground (arith, (ok i (ground (arith, eq_refl i))).0))
    load_modules-Loads (suc fuel) (i ∷ is) s ok complete =
        let (low, m, at) = ok i (ground (arith, eq_refl i)) in
        let whole = load_modules meta opens kernel (suc fuel) (i ∷ is) s in
        let rest : (j : ℕ)
            → has j is ≡ true
            → (rank j < suc fuel) × (n : Module) × (module_at meta j ≡ some n) =
          λ j h. ok j (ground (arith, h)) in
        let skipped = load_modules meta opens kernel (suc fuel) is s in
        let go_on = load_modules-Loads (suc fuel) is s rest complete in
        elim (Bool-cases (has i s.loaded_modules)) [
          | inl there ↦
              Loads-eq s (i ∷ is) skipped whole (ground (arith, there)) (
                both-Loads s s i is skipped (skip-Loads s i complete (ground (arith, there))) go_on)
          | inr new ↦ elim (Bool-cases (is_empty m.path)) [
            | inl built_in ↦ Loads-eq s (i ∷ is) skipped whole (ground (arith, new, at, built_in)) (
                both-Loads s s i is skipped (skip-Loads s i complete (ground (arith, at, built_in)))
                  go_on)
            | inr file ↦
                let below : (d : ℕ)
                    → has d m.depends ≡ true
                    → (rank d < fuel) × (n : Module) × (module_at meta d ≡ some n) =
                  λ d h.
                    let (n, at_d) = sound.known i d m at h in
                    (omega (arith, sound.ranked i d m at h, low), n, at_d) in
                step-Loads fuel i is s m at new file
                  (load_modules-Loads fuel m.depends s below complete)
                  (λ u. load_modules-Loads (suc fuel) is u rest)
          ]
        ]
