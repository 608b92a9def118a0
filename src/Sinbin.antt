-- ===== src/Sinbin.antt =====
-- cloud/lib/sinbin/sinbin.go: elements with a deadline until which they are penalized. A Go map is a
-- function, `none` the nil map; the clock is handed to each operation, since it is read inside.
pub mod Penalty
use monogon.Prelude.{
  ℕ, ◌+◌, Bool, true, false, Option, none, some, if◌then◌else◌, ltb, List, [], ◌∷◌, ◌≡◌, ◌↔◌,
}

-- `comparable`
pub record Comparable (T : Type 0) : Type 0 where
  pub eqb : T → T → Bool
  pub eqb_iff : (a b : T) → (eqb a b ≡ true) ↔ (a ≡ b)

pub record Sinbin (T : Type 0) : Type 0 where
  pub bench : Option (T → Option ℕ)
  pub last_sweep : ℕ

abbrev pub minute : ℕ
minute = 60000000000

-- An entry that is left once the expired ones are deleted.
unfoldable pub unexpired : ℕ → Option ℕ → Option ℕ
unexpired now none = none
unexpired now (some until) = if ltb until now then none else some until

module _ {T : Type 0} ⦃o : Comparable T⦄ where
  abbrev pub bench_at : Sinbin T → T → Option ℕ
  bench_at s t = elim s.bench [ none ↦ none | some b ↦ b t ]

  unfoldable pub initialize_unlocked : Sinbin T → Sinbin T
  initialize_unlocked s = elim s.bench [
    | none ↦ record { bench = some (λ t. none); last_sweep = s.last_sweep }
    | some b ↦ s
  ]

  -- The clock is read twice.
  unfoldable pub sweep_unlocked : ℕ → ℕ → Sinbin T → Sinbin T
  sweep_unlocked now now_after s = if ltb now (s.last_sweep + minute) then s else record {
    bench = elim s.bench [ none ↦ none | some b ↦ some (λ t. unexpired now_after (b t)) ];
    last_sweep = now_after;
  }

  unfoldable pub set_bench : T → Option ℕ → Sinbin T → Sinbin T
  set_bench t e s = record {
    bench = some (λ k. if o.eqb t k then e else bench_at s k);
    last_sweep = s.last_sweep;
  }

  unfoldable pub add : T → ℕ → ℕ → ℕ → Sinbin T → Sinbin T
  add t until now now_after s =
      let swept = sweep_unlocked now now_after (initialize_unlocked s) in
      elim (bench_at swept t) [
        | none ↦ set_bench t (some until) swept
        | some existing ↦ if ltb existing until then set_bench t (some until) swept else swept
      ]

  unfoldable pub penalized : T → ℕ → Sinbin T → Sinbin T × Bool
  penalized t now s = elim s.bench [
    | none ↦ (s, false)
    | some b ↦ elim (b t) [
      | none ↦ (s, false)
      | some existing ↦ if ltb existing now then (set_bench t none s, false) else (s, true)
    ]
  ]
