-- ===== src/EventValue.antt =====
-- osbase/event/memory/memory.go: a value with watchers, for values without Sync. A watcher is known
-- by its address, a number; its bufferedC holds one value at most.
pub mod Serving
pub mod Latest
use monogon.Prelude.{
  ℕ, zero, suc, Bool, true, false, Option, none, some, if◌then◌else◌, ◌==◌, List, [], ◌∷◌, ◌++◌,
}

pub record Watcher (T : Type 0) : Type 0 where
  pub buffered_c : Option T
  pub get_sem : Bool
  pub closed : Bool

-- `inner` is none while innerSet is false.
pub record Value (T : Type 0) : Type 0 where
  pub inner : Option T
  pub watcher : ℕ → Watcher T
  pub watchers : List ℕ

-- What a Get comes to: an error, since another Get is active or for BacklogOnly, a value, or a wait
-- for one.
pub data GetResult (T : Type 0) : Type 0 where
  concurrent not_implemented waits : GetResult T
  received : T → GetResult T

abbrev pub put : {A : Type 0} → ℕ → A → (ℕ → A) → ℕ → A
put x v f y = if x == y then v else f y

abbrev pub empty_value : {T : Type 0} → Value T
empty_value = record {
  inner = none;
  watcher = λ w. record { buffered_c = none; get_sem = false; closed = false };
  watchers = [];
}

module _ {T : Type 0} where
  -- update without Sync: a value that was not retrieved is dropped.
  unfoldable pub update : T → Watcher T → Watcher T
  update v w = record w { buffered_c = some v }

  -- The loop of Set over the watchers, on the watchers and the new list.
  unfoldable pub update_all : T → List ℕ → (ℕ → Watcher T) → (ℕ → Watcher T) × List ℕ
  update_all v [] f = (f, [])
  update_all v (w ∷ ws) f = elim (f w).closed [
    | true ↦ update_all v ws f
    | false ↦ let rest = update_all v ws (put w (update v (f w)) f) in (rest.0, w ∷ rest.1)
  ]

  unfoldable pub set : T → Value T → Value T
  set v m =
      let updated = update_all v m.watchers m.watcher in
      record { inner = some v; watcher = updated.0; watchers = updated.1 }

  unfoldable pub drop_closed : (ℕ → Watcher T) → List ℕ → List ℕ
  drop_closed f [] = []
  drop_closed f (w ∷ ws) = let rest = drop_closed f ws in if (f w).closed then rest else w ∷ rest

  -- Watch, where `at_capacity` says whether the slice of watchers is full.
  unfoldable pub watch : Bool → ℕ → Value T → Value T
  watch at_capacity w m =
      let kept = if at_capacity then drop_closed m.watcher m.watchers else m.watchers in
      record {
        inner = m.inner;
        watcher =
            put w (record { buffered_c = m.inner; get_sem = false; closed = false }) m.watcher;
        watchers = kept ++ w ∷ [];
      }

  -- Close; `none` is the panic of closing a closed channel.
  unfoldable pub close : ℕ → Value T → Option (Value T)
  close w m =
      if (m.watcher w).closed
      then none
      else some (record {
        inner = m.inner;
        watcher = put w (record (m.watcher w) { closed = true }) m.watcher;
        watchers = m.watchers;
      })

  -- The start of Get: true when this call has the semaphore.
  unfoldable pub acquire : ℕ → Value T → Bool × Value T
  acquire w m = elim (m.watcher w).get_sem [
    | true ↦ (false, m)
    | false ↦ (
      true,
      record {
        inner = m.inner;
        watcher = put w (record (m.watcher w) { get_sem = true }) m.watcher;
        watchers = m.watchers;
      },
    )
  ]

  -- The end of Get.
  unfoldable pub release : ℕ → Value T → Value T
  release w m = record {
    inner = m.inner;
    watcher = put w (record (m.watcher w) { get_sem = false }) m.watcher;
    watchers = m.watchers;
  }

  -- A round of the loop of Get: the value that is received, or none where it blocks.
  unfoldable pub receive : ℕ → Value T → Option T × Value T
  receive w m = (
    (m.watcher w).buffered_c,
    record {
      inner = m.inner;
      watcher = put w (record (m.watcher w) { buffered_c = none }) m.watcher;
      watchers = m.watchers;
    },
  )

  -- The rounds of Get until a value passes the predicate, or until it blocks.
  unfoldable pub get_rounds : ℕ → (T → Bool) → ℕ → Value T → Option T × Value T
  get_rounds zero predicate w m = (none, m)
  get_rounds (suc rounds) predicate w m =
      let step = receive w m in
      elim step.0 [
        | none ↦ (none, step.1)
        | some v ↦ elim (predicate v) [
          | true ↦ (some v, step.1)
          | false ↦ get_rounds rounds predicate w step.1
        ]
      ]

  -- Get with the last predicate of its options, or one that all values pass, and whether an option
  -- asks for BacklogOnly. A Get that waits keeps the semaphore, until it receives a value or its
  -- context ends.
  unfoldable pub get : ℕ → Bool → (T → Bool) → ℕ → Value T → GetResult T × Value T
  get rounds backlog_only predicate w m =
      let start = acquire w m in
      elim start.0 [
        | false ↦ (concurrent, start.1)
        | true ↦ elim backlog_only [
          | true ↦ (not_implemented, release w start.1)
          | false ↦
              let found = get_rounds rounds predicate w start.1 in
              elim found.0 [ none ↦ (waits, found.1) | some v ↦ (received v, release w found.1) ]
        ]
      ]
