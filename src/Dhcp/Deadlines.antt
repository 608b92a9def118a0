-- ===== src/Dhcp/Deadlines.antt =====
-- The deadlines that follow from an ACK.
use monogon.Prelude.{
  ℕ, ◌+◌, ◌≤◌, ◌≡◌, refl, ap, sym, ◌∙◌, Option, none, some, if◌then◌else◌, arith, inl, inr,
  Bool-cases, Option-cases, ltb,
}
use mathlib.Core.Path.{subst}
use monogon.Dhcp.{Message, or_default, second}
use monogon.Dhcp.Leases.{
  acceptable_lease, strip_options, clamp_rebinding, clamp_renewal, normalize_options,
}
use monogon.Dhcp.Client.{
  Client, Answers, Shares, set_deadlines, transition_to_bound, handle_ack, switch_to_unicast,
}

abbrev pub AreShares : Shares → Type 0
AreShares s = (t : ℕ) → (s.half t ≤ s.most t) × (s.most t ≤ t)

accepted :
    (m m' : Message)
    → acceptable_lease m ≡ some m'
    → (second ≤ or_default 0 m.lease_time)
      × (normalize_options (clamp_renewal (clamp_rebinding (strip_options m))) ≡ m')
unfolding acceptable_lease
accepted m m' e = ground arith

-- The times of a message that was taken.
record Clamped (m m' : Message) : Type 0 where
  same_lease : m'.lease_time ≡ m.lease_time
  rebinding : m'.rebinding_time ≡ (
      if ltb (or_default 0 m.lease_time) (or_default 0 m.rebinding_time)
      then some (or_default 0 m.lease_time)
      else m.rebinding_time)
  renewal : m'.renewal_time ≡ (
      if ltb (or_default 0 m'.rebinding_time) (or_default 0 m.renewal_time)
      then some (or_default 0 m'.rebinding_time)
      else m.renewal_time)

-- A renewal time cut to a rebinding time.
abbrev cut_to : Option ℕ → Option ℕ → Option ℕ
cut_to b n = if ltb (or_default 0 b) (or_default 0 n) then some (or_default 0 b) else n

clamp_rebinding_lem :
    (m : Message)
    → ((clamp_rebinding m).lease_time ≡ m.lease_time)
      × ((clamp_rebinding m).renewal_time ≡ m.renewal_time)
      × ((clamp_rebinding m).rebinding_time ≡ (
          if ltb (or_default 0 m.lease_time) (or_default 0 m.rebinding_time)
          then some (or_default 0 m.lease_time)
          else m.rebinding_time))
unfolding clamp_rebinding
clamp_rebinding_lem m =
    elim (Bool-cases (ltb (or_default 0 m.lease_time) (or_default 0 m.rebinding_time))) [
      | inl e ↦ rw e (refl, refl, refl)
      | inr e ↦ rw e (refl, refl, refl)
    ]

clamp_renewal_lem :
    (m : Message)
    → ((clamp_renewal m).lease_time ≡ m.lease_time)
      × ((clamp_renewal m).rebinding_time ≡ m.rebinding_time)
      × ((clamp_renewal m).renewal_time ≡ (
          if ltb (or_default 0 m.rebinding_time) (or_default 0 m.renewal_time)
          then some (or_default 0 m.rebinding_time)
          else m.renewal_time))
unfolding clamp_renewal
clamp_renewal_lem m =
    elim (Bool-cases (ltb (or_default 0 m.rebinding_time) (or_default 0 m.renewal_time))) [
      | inl e ↦ rw e (refl, refl, refl)
      | inr e ↦ rw e (refl, refl, refl)
    ]

rebinding-Clamped : (m : Message) → Clamped m (clamp_renewal (clamp_rebinding (strip_options m)))
unfolding strip_options
rebinding-Clamped m =
    let (l, n, b) = clamp_rebinding_lem (strip_options m) in
    let (l', b', n') = clamp_renewal_lem (clamp_rebinding (strip_options m)) in
    record {
      same_lease = l' ∙ l;
      rebinding = b' ∙ b;
      renewal =
          n'
          ∙ ap (λ x. cut_to x (clamp_rebinding (strip_options m)).renewal_time) (sym b')
          ∙ ap (cut_to (clamp_renewal (clamp_rebinding (strip_options m))).rebinding_time) n;
    }

normalized-Clamped : (m n : Message) → Clamped m n → Clamped m (normalize_options n)
unfolding normalize_options
normalized-Clamped m n c = record {
  same_lease = c.same_lease;
  rebinding = c.rebinding;
  renewal = c.renewal;
}

transition_times :
    (shares : Shares) (a : Answers) (m : Message) (sent : ℕ) (c c' : Client)
    → transition_to_bound shares a m sent c ≡ (c', none)
    → (c'.lease_deadline ≡ sent + or_default 0 m.lease_time)
      × (c'.lease_bound_deadline
          ≡ sent + or_default (shares.half (or_default 0 m.lease_time)) m.renewal_time)
      × (c'.lease_renew_deadline
          ≡ sent + or_default (shares.most (or_default 0 m.lease_time)) m.rebinding_time)
unfolding transition_to_bound set_deadlines switch_to_unicast
transition_times shares a m sent c c' e = ground arith

-- The deadlines of a client after an ACK that was taken.
Timed : Shares → Message → ℕ → Client → Type 0
Timed shares m sent c =
    (m' : Message) × Clamped m m'
    × (second ≤ or_default 0 m.lease_time)
    × (c.lease_deadline ≡ sent + or_default 0 m'.lease_time)
    × (c.lease_bound_deadline
        ≡ sent + or_default (shares.half (or_default 0 m'.lease_time)) m'.renewal_time)
    × (c.lease_renew_deadline
        ≡ sent + or_default (shares.most (or_default 0 m'.lease_time)) m'.rebinding_time)

handle_ack-Timed :
    (shares : Shares) (a : Answers) (m : Message) (sent : ℕ) (c c' : Client)
    → handle_ack shares a m sent c ≡ (c', none)
    → Timed shares m sent c'
unfolding handle_ack Timed
handle_ack-Timed shares a m sent c c' e = elim (Option-cases (acceptable_lease m)) [
  | inl bad ↦ absurd (ground (arith, bad, e))
  | inr (m', good) ↦
      let (long, same) = accepted m m' good in
      let (end, early, late) = transition_times shares a m' sent c c' (ground (arith, good, e)) in
      (
        m',
        subst (Clamped m) same (normalized-Clamped m _ (rebinding-Clamped m)),
        long,
        end,
        early,
        late,
      )
]

ordered_times :
    (lease half most : ℕ) (n b n' b' : Option ℕ)
    → half ≤ most
    → most ≤ lease
    → b' ≡ (if ltb lease (or_default 0 b) then some lease else b)
    → n' ≡ (if ltb (or_default 0 b') (or_default 0 n) then some (or_default 0 b') else n)
    → ((t : ℕ) → n ≡ none → b ≡ some t → half ≤ t)
    → (or_default half n' ≤ or_default most b') × (or_default most b' ≤ lease)
ordered_times lease half most none none n' b' p q eb en usual = ground arith
ordered_times lease half most (some x) none n' b' p q eb en usual = ground arith
ordered_times lease half most none (some t) n' b' p q eb en usual =
    ground (arith, usual t refl refl)
ordered_times lease half most (some x) (some t) n' b' p q eb en usual = ground arith

-- An ACK that takes the client to BOUND sets the deadlines in their order, none before the message
-- was sent and the last at least a second after it, unless the server sends a rebinding time below
-- half of the lease time and no renewal time.
pub handle_ack_ordered :
    (shares : Shares) (a : Answers) (m : Message) (sent : ℕ) (c c' : Client)
    → AreShares shares
    → handle_ack shares a m sent c ≡ (c', none)
    → ((t : ℕ)
        → m.renewal_time ≡ none
        → m.rebinding_time ≡ some t
        → shares.half (or_default 0 m.lease_time) ≤ t)
    → (sent ≤ c'.lease_bound_deadline)
      × (c'.lease_bound_deadline ≤ c'.lease_renew_deadline)
      × (c'.lease_renew_deadline ≤ c'.lease_deadline)
      × (sent + second ≤ c'.lease_deadline)
unfolding Timed
handle_ack_ordered shares a m sent c c' shares_ok e usual =
    let (m', clamped, long, end, early, late) = handle_ack-Timed shares a m sent c c' e in
    let (low, high) = shares_ok (or_default 0 m.lease_time) in
    let same : or_default 0 m'.lease_time ≡ or_default 0 m.lease_time =
      ap (or_default 0) clamped.same_lease in
    let (one, two) =
      ordered_times (or_default 0 m.lease_time) (shares.half (or_default 0 m.lease_time))
        (shares.most (or_default 0 m.lease_time)) m.renewal_time m.rebinding_time m'.renewal_time
        m'.rebinding_time low high clamped.rebinding clamped.renewal usual in
    (
      rw early (omega arith),
      rw (early, late, same) (omega (arith, one)),
      rw (late, end, same) (omega (arith, two)),
      rw (end, same) (omega (arith, long)),
    )

-- A server that sends a renewal time and no rebinding time has the client renew at once: the
-- renewal time is cut down to the rebinding time that is absent, which is 0.
lone_renewal_time :
    (shares : Shares) (a : Answers) (m : Message) (sent t : ℕ) (c c' : Client)
    → handle_ack shares a m sent c ≡ (c', none)
    → m.renewal_time ≡ some t
    → m.rebinding_time ≡ none
    → c'.lease_bound_deadline ≡ sent
unfolding Timed
lone_renewal_time shares a m sent t c c' e has_renewal no_rebinding =
    let (m', clamped, long, end, early, late) = handle_ack-Timed shares a m sent c c' e in
    let no_rebinding' : m'.rebinding_time ≡ none =
      clamped.rebinding
      ∙ ap
          (λ b.
            if ltb (or_default 0 m.lease_time) (or_default 0 b)
            then some (or_default 0 m.lease_time)
            else b)
          no_rebinding
      ∙ ground arith in
    let at_once : or_default (shares.half (or_default 0 m'.lease_time)) m'.renewal_time ≡ 0 =
      rw (clamped.renewal, no_rebinding', has_renewal) (ground arith) in
    rw (early, at_once) (omega arith)
