-- ===== src/EventValue/Serving.antt =====
-- osbase/event/memory/memory.go: each call on a value gives its watchers what they are owed.
use monogon.Prelude.{
  ℕ, ◌≡◌, refl, ◌∙◌, Bool, true, false, ◌||◌, Option, none, some, if◌then◌else◌, ◌==◌, ==_iff,
  eq_refl, List, [], ◌∷◌, ◌++◌, arith, inl, inr, Bool-cases, Option-cases,
}
use mathlib.Core.Path.{subst}
use monogon.EventValue.{
  Watcher, Value, put, update, update_all, set, drop_closed, watch, close, acquire, release,
  receive,
}

-- What happens to a value, in the order in which the mutex and the channels put it.
pub data Event (T : Type 0) : Type 0 where
  setting : T → Event T
  watching : Bool → ℕ → Event T
  closing : ℕ → Event T
  receiving : ℕ → Event T
  acquiring : ℕ → Event T
  releasing : ℕ → Event T

-- What a watcher is owed: none before it is there and after it is closed, else the latest value
-- if it has not received it. It is busy from the start of a Get to its end.
pub record View (T : Type 0) : Type 0 where
  pub latest : Option T
  pub owed : Option (Option T)
  pub busy : Bool

abbrev pub has : ℕ → List ℕ → Bool
has x [] = false
has x (y ∷ ys) = (y == x) || has x ys

has-append : (x : ℕ) (xs : List ℕ) (w : ℕ) → has x (xs ++ w ∷ []) ≡ (has x xs || (w == x))
has-append x [] w = ground arith
has-append x (y ∷ ys) w = ground (arith, has-append x ys w)

module _ {T : Type 0} where
  abbrev pub apply : Event T → Value T → Option (Value T)
  apply (setting v) m = some (set v m)
  apply (watching at_capacity w) m = some (watch at_capacity w m)
  apply (closing w) m = close w m
  apply (receiving w) m = some (receive w m).1
  apply (acquiring w) m = some (acquire w m).1
  apply (releasing w) m = some (release w m)

  abbrev when_open : Option (Option T) → Option T → Option (Option T)
  when_open none o = none
  when_open (some owed) o = some o

  abbrev pub look : ℕ → Event T → View T → View T
  look x (setting v) s = record s { latest = some v; owed = when_open s.owed (some v) }
  look x (watching at_capacity w) s =
      if w == x then record s { owed = some s.latest; busy = false } else s
  look x (closing w) s = if w == x then record s { owed = none } else s
  look x (receiving w) s = if w == x then record s { owed = when_open s.owed none } else s
  look x (acquiring w) s = if w == x then record s { busy = true } else s
  look x (releasing w) s = if w == x then record s { busy = false } else s

  -- `none` where one of the calls panics.
  abbrev pub run : List (Event T) → Value T → Option (Value T)
  run [] m = some m
  run (e ∷ es) m = elim (apply e m) [ none ↦ none | some m' ↦ run es m' ]

  abbrev pub looks : ℕ → List (Event T) → View T → View T
  looks x [] s = s
  looks x (e ∷ es) s = looks x es (look x e s)

  -- A watcher that is owed something is open, is in the list, and holds just that.
  pub record Serves (x : ℕ) (m : Value T) (s : View T) : Type 0 where
    pub latest : m.inner ≡ s.latest
    pub holds : (o : Option T) → s.owed ≡ some o → (m.watcher x).buffered_c ≡ o
    pub listed : (o : Option T) → s.owed ≡ some o → has x m.watchers ≡ true
    pub still_open : (o : Option T) → s.owed ≡ some o → (m.watcher x).closed ≡ false
    pub busy : (m.watcher x).get_sem ≡ s.busy

  -- Other watchers keep what they have; an open one that is listed gets the value and stays.
  update_all_lem :
      (v : T) (ws : List ℕ) (f : ℕ → Watcher T) (x : ℕ)
      → ((update_all v ws f).0 x).closed ≡ (f x).closed
  unfolding update_all update
  update_all_lem v [] f x = refl
  update_all_lem v (w ∷ ws) f x =
      ground (
        arith,
        update_all_lem v ws f x,
        update_all_lem v ws (put w (update v (f w)) f) x,
        ==_iff w x,
      )

  update_all-sem :
      (v : T) (ws : List ℕ) (f : ℕ → Watcher T) (x : ℕ)
      → ((update_all v ws f).0 x).get_sem ≡ (f x).get_sem
  unfolding update_all update
  update_all-sem v [] f x = refl
  update_all-sem v (w ∷ ws) f x =
      ground (
        arith,
        update_all-sem v ws f x,
        update_all-sem v ws (put w (update v (f w)) f) x,
        ==_iff w x,
      )

  update_all-listed :
      (v : T) (ws : List ℕ) (f : ℕ → Watcher T) (x : ℕ)
      → (f x).closed ≡ false
      → has x ws ≡ true
      → has x (update_all v ws f).1 ≡ true
  unfolding update_all update
  update_all-listed v [] f x opened h = absurd (ground (arith, h))
  update_all-listed v (w ∷ ws) f x opened h =
      let rest = update_all-listed v ws f x opened in
      let updated = update_all-listed v ws (put w (update v (f w)) f) x in
      elim (Bool-cases (w == x)) [
        | inl same ↦ ground (arith, same, opened, ==_iff w x, eq_refl x)
        | inr apart ↦ ground (arith, h, apart, opened, rest, updated)
      ]

  update_all-keeps :
      (v : T) (ws : List ℕ) (f : ℕ → Watcher T) (x : ℕ)
      → (f x).buffered_c ≡ some v
      → ((update_all v ws f).0 x).buffered_c ≡ some v
  unfolding update_all update
  update_all-keeps v [] f x h = h
  update_all-keeps v (w ∷ ws) f x h =
      ground
        (arith, update_all-keeps v ws f x h, update_all-keeps v ws (put w (update v (f w)) f) x, h)

  update_all-holds :
      (v : T) (ws : List ℕ) (f : ℕ → Watcher T) (x : ℕ)
      → (f x).closed ≡ false
      → has x ws ≡ true
      → ((update_all v ws f).0 x).buffered_c ≡ some v
  unfolding update_all update
  update_all-holds v [] f x opened h = absurd (ground (arith, h))
  update_all-holds v (w ∷ ws) f x opened h =
      let rest = update_all-holds v ws f x opened in
      let after = put w (update v (f w)) f in
      let updated = update_all-holds v ws after x in
      elim (Bool-cases (w == x)) [
        | inl same ↦
            ground (arith, same, opened, ==_iff w x, eq_refl x, update_all-keeps v ws after x)
        | inr apart ↦ ground (arith, h, apart, opened, rest, updated)
      ]

  drop_closed-listed :
      (f : ℕ → Watcher T) (ws : List ℕ) (x : ℕ)
      → (f x).closed ≡ false
      → has x ws ≡ true
      → has x (drop_closed f ws) ≡ true
  unfolding drop_closed
  drop_closed-listed f [] x opened h = absurd (ground (arith, h))
  drop_closed-listed f (w ∷ ws) x opened h =
      ground (arith, h, opened, drop_closed-listed f ws x opened, ==_iff w x)

  pub set-Serves :
      (x : ℕ) (v : T) (m : Value T) (s : View T)
      → Serves x m s
      → Serves x (set v m) (look x (setting v) s)
  unfolding set
  set-Serves x v m s h = elim (Option-cases s.owed) [
    | inl out ↦ record {
      latest = refl;
      holds = λ o e. absurd (ground (arith, out, e));
      listed = λ o e. absurd (ground (arith, out, e));
      still_open = λ o e. absurd (ground (arith, out, e));
      busy = update_all-sem v m.watchers m.watcher x ∙ h.busy;
    }
    | inr (owed, there) ↦
        let opened = h.still_open owed there in
        let listed = h.listed owed there in
        record {
          latest = refl;
          holds = λ o e.
              ground (arith, there, e, update_all-holds v m.watchers m.watcher x opened listed);
          listed = λ o e. update_all-listed v m.watchers m.watcher x opened listed;
          still_open = λ o e. update_all_lem v m.watchers m.watcher x ∙ opened;
          busy = update_all-sem v m.watchers m.watcher x ∙ h.busy;
        }
  ]

  pub watch-Serves :
      (x : ℕ) (at_capacity : Bool) (w : ℕ) (m : Value T) (s : View T)
      → Serves x m s
      → Serves x (watch at_capacity w m) (look x (watching at_capacity w) s)
  unfolding watch
  watch-Serves x at_capacity w m s h =
      let kept = if at_capacity then drop_closed m.watcher m.watchers else m.watchers in
      record {
        latest = ground (arith, h.latest);
        holds = λ o e. ground (arith, h.latest, h.holds o, e);
        listed = λ o e. ground (
          arith,
          has-append x kept w,
          h.listed o,
          h.still_open o,
          e,
          drop_closed-listed m.watcher m.watchers x,
        );
        still_open = λ o e. ground (arith, h.still_open o, e);
        busy = ground (arith, h.busy);
      }

  pub close-Serves :
      (x w : ℕ) (m m' : Value T) (s : View T)
      → Serves x m s
      → close w m ≡ some m'
      → Serves x m' (look x (closing w) s)
  unfolding close
  close-Serves x w m m' s h e = elim (Bool-cases (m.watcher w).closed) [
    | inl twice ↦ absurd (ground (arith, e, twice))
    | inr first ↦
        let after : Value T = record {
          inner = m.inner;
          watcher = put w (record (m.watcher w) { closed = true }) m.watcher;
          watchers = m.watchers;
        } in
        let same : after ≡ m' = ground (arith, e, first) in
        subst (λ n. Serves x n (look x (closing w) s)) same
          (record {
            latest = ground (arith, h.latest);
            holds = λ o f. ground (arith, h.holds o, f);
            listed = λ o f. ground (arith, h.listed o, f);
            still_open = λ o f. ground (arith, h.still_open o, f);
            busy = ground (arith, h.busy, ==_iff w x);
          })
  ]

  pub receive-Serves :
      (x w : ℕ) (m : Value T) (s : View T)
      → Serves x m s
      → Serves x (receive w m).1 (look x (receiving w) s)
  unfolding receive
  receive-Serves x w m s h = elim (Option-cases s.owed) [
    | inl out ↦ record {
      latest = ground (arith, h.latest);
      holds = λ o e. absurd (ground (arith, out, e));
      listed = λ o e. absurd (ground (arith, out, e));
      still_open = λ o e. absurd (ground (arith, out, e));
      busy = ground (arith, h.busy, ==_iff w x);
    }
    | inr (owed, there) ↦ record {
      latest = ground (arith, h.latest);
      holds = λ o e. ground (arith, h.holds o, there, e);
      listed = λ o e. h.listed owed there;
      still_open = λ o e. ground (arith, h.still_open owed there, ==_iff w x);
      busy = ground (arith, h.busy, ==_iff w x);
    }
  ]
