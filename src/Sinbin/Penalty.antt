-- ===== src/Sinbin/Penalty.antt =====
-- Penalized against the history of calls.
use monogon.Prelude.{
  ℕ, ◌≤◌, ◌≡◌, Bool, false, ◌&&◌, ◌||◌, List, [], ◌∷◌, Option, none, some, arith, inl, inr,
  Option-cases, leb,
}
use monogon.Sinbin.{
  Comparable, Sinbin, bench_at, initialize_unlocked, unexpired, sweep_unlocked, set_bench, add,
  penalized,
}

-- A call, with the times at which it read the clock.
pub data Event (T : Type 0) : Type 0 where
  added : T → ℕ → ℕ → ℕ → Event T
  asked : T → ℕ → Event T

-- A deadline that has not passed.
live : Option ℕ → ℕ → Bool
live none now = false
live (some until) now = leb now until

module _ {T : Type 0} ⦃o : Comparable T⦄ where
  abbrev pub step : Event T → Sinbin T → Sinbin T
  step (added t until now now_after) s = add t until now now_after s
  step (asked t now) s = (penalized t now s).0

  abbrev pub run : List (Event T) → Sinbin T → Sinbin T
  run [] s = s
  run (e ∷ h) s = run h (step e s)

  -- The clock does not go back from this time on, and ends at this one.
  abbrev pub IsChronological : ℕ → List (Event T) → ℕ → Type 0
  IsChronological start [] end = start ≤ end
  IsChronological start (added t until now now_after ∷ h) end =
      (start ≤ now) × (now ≤ now_after) × IsChronological now_after h end
  IsChronological start (asked t now ∷ h) end = (start ≤ now) × IsChronological now h end

  -- Some call has added the element with a deadline that has not passed.
  abbrev pub was_added : T → ℕ → List (Event T) → Bool
  was_added t now [] = false
  was_added t now (added k until _ _ ∷ h) = (o.eqb k t && leb now until) || was_added t now h
  was_added t now (asked k _ ∷ h) = was_added t now h

  bench_at-initialize : (s : Sinbin T) (t : T) → bench_at (initialize_unlocked s) t ≡ bench_at s t
  unfolding initialize_unlocked
  bench_at-initialize s t = elim (Option-cases s.bench) [
    | inl e ↦ ground (arith, e)
    | inr (b, e) ↦ ground (arith, e)
  ]

  -- From the sweep on nobody can tell.
  live-sweep :
      (now now_after later : ℕ) (s : Sinbin T) (t : T)
      → now_after ≤ later
      → live (bench_at (sweep_unlocked now now_after s) t) later ≡ live (bench_at s t) later
  unfolding sweep_unlocked live unexpired
  live-sweep now now_after later s t h = elim (Option-cases s.bench) [
    | inl e ↦ ground (arith, e)
    | inr (b, e) ↦ elim (Option-cases (b t)) [
      | inl g ↦ ground (arith, e, g)
      | inr (u, g) ↦ ground (arith, e, g)
    ]
  ]

  live-add :
      (t : T) (until now now_after later : ℕ) (s : Sinbin T) (k : T)
      → now_after ≤ later
      → live (bench_at (add t until now now_after s) k) later
        ≡ (live (bench_at s k) later || (o.eqb t k && leb later until))
  unfolding add set_bench live
  live-add t until now now_after later s k h =
      let swept = sweep_unlocked now now_after (initialize_unlocked s) in
      let same = live-sweep now now_after later (initialize_unlocked s) k h in
      let start = bench_at-initialize s k in
      elim (Option-cases (bench_at swept t)) [
        | inl e ↦ ground (arith, e, same, start, o.eqb_iff t k)
        | inr (u, e) ↦ ground (arith, e, same, start, o.eqb_iff t k)
      ]

  live-penalized :
      (t : T) (now later : ℕ) (s : Sinbin T) (k : T)
      → now ≤ later
      → live (bench_at (penalized t now s).0 k) later ≡ live (bench_at s k) later
  unfolding penalized set_bench live
  live-penalized t now later s k h = elim (Option-cases s.bench) [
    | inl e ↦ ground (arith, e)
    | inr (b, e) ↦ elim (Option-cases (b t)) [
      | inl g ↦ ground (arith, e, g)
      | inr (u, g) ↦ ground (arith, e, g, o.eqb_iff t k)
    ]
  ]

  IsChronological-le :
      (start : ℕ) (h : List (Event T)) (end : ℕ) → IsChronological start h end → start ≤ end
  IsChronological-le start [] end c = c
  IsChronological-le start (added k until a b ∷ h) end c =
      omega (arith, c.0, c.1, IsChronological-le b h end c.2)
  IsChronological-le start (asked k a ∷ h) end c =
      omega (arith, c.0, IsChronological-le a h end c.1)

  run-live :
      (h : List (Event T)) (s : Sinbin T) (start end now : ℕ) (t : T)
      → IsChronological start h end
      → end ≤ now
      → live (bench_at (run h s) t) now ≡ (live (bench_at s t) now || was_added t now h)
  run-live [] s start end now t c late = ground arith
  run-live (added k until a b ∷ h) s start end now t c late = ground (
    arith,
    run-live h (add k until a b s) b end now t c.2 late,
    live-add k until a b now s t (omega (arith, IsChronological-le b h end c.2)),
  )
  run-live (asked k a ∷ h) s start end now t c late = ground (
    arith,
    run-live h (penalized k a s).0 a end now t c.1 late,
    live-penalized k a now s t (omega (arith, IsChronological-le a h end c.1)),
  )

  -- After any calls with a clock that does not go back, starting from an empty sinbin, Penalized
  -- answers whether some call has added the element with a deadline that has not passed: a later
  -- shorter deadline does not take a longer one back, and sweeping changes no answer.
  pub penalized_iff :
      (h : List (Event T)) (swept now : ℕ) (t : T)
      → IsChronological 0 h now
      → (penalized t now (run h (record { bench = none; last_sweep = swept }))).1
        ≡ was_added t now h
  unfolding penalized live
  penalized_iff h swept now t c =
      let s : Sinbin T = run h (record { bench = none; last_sweep = swept }) in
      let found =
        run-live h (record { bench = none; last_sweep = swept }) 0 now now t c (omega arith) in
      elim (Option-cases s.bench) [
        | inl e ↦ ground (arith, e, found)
        | inr (b, e) ↦ elim (Option-cases (b t)) [
          | inl g ↦ ground (arith, e, g, found)
          | inr (u, g) ↦ ground (arith, e, g, found)
        ]
      ]
