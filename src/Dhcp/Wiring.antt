-- ===== src/Dhcp/Wiring.antt =====
-- Which transports are open and what the callback was told, state by state.
use monogon.Prelude.{
  ℕ, ◌≡◌, ◌≢◌, refl, sym, ap, Bool, true, false, not, Option, none, some, arith, inl, inr,
  Bool-cases, Option-cases, List, [], ◌∷◌, ◌==◌,
}
use mathlib.Core.Path.{subst}
use monogon.Dhcp.{Message, MessageType, offer, ack, nak}
use monogon.Dhcp.Leases.{acceptable_lease}
use monogon.Dhcp.Client.{
  State, discovering, requesting, bound, renewing, rebinding, Error, invalid_msg, context_done,
  callback_failed, close_failed, open_failed, no_message, send_failed, deadline_failed,
  receive_failed, Client, Answers, Shares, Lease, lease_from_ack, requesting_to_discovering,
  lease_to_discovering, switch_to_broadcast, switch_to_unicast, transition_to_bound, set_deadlines,
  handle_ack, handle_in,
}
use monogon.Dhcp.Run.{
  Received, message, deadline_exceeded, malformed, broken, Outcome, returned, waiting, panicked,
  is_some, cleanup, state_deadline_exceeded, receive_loop,
}

-- "Valid in states Discovering, Requesting, Rebinding"
abbrev pub uses_broadcast : State → Bool
uses_broadcast bound = false
uses_broadcast renewing = false
uses_broadcast _ = true

-- "Valid in states Bound, Renewing, Rebinding"
abbrev pub holds_lease : State → Bool
holds_lease discovering = false
holds_lease requesting = false
holds_lease _ = true

abbrev pub lease_of : Client → Option Lease
lease_of c = elim c.lease [ none ↦ none | some m ↦ some (lease_from_ack m c.lease_deadline) ]

pub record IsWired (c : Client) : Type 0 where
  pub broadcast : c.broadcast_open ≡ uses_broadcast c.state
  pub unicast : c.unicast_open ≡ not (uses_broadcast c.state)
  pub offered : c.state ≡ requesting → is_some c.last_offer ≡ true
  pub leased : is_some c.lease ≡ holds_lease c.state
  pub told : c.reported ≡ lease_of c

-- What a closure leaves: nil leads on, an invalid message changes nothing, any other error ends Run.
abbrev Handled : Client → Client × Option Error → Type 0
Handled c (c', none) = IsWired c'
Handled c (c', some invalid_msg) = c' ≡ c
Handled c (c', some context_done) = ⊥
Handled c (c', some _) = Unit {0}

transition_to_bound-Handled :
    (shares : Shares) (a : Answers) (m : Message) (sent : ℕ) (c : Client)
    → IsWired c
    → c.state ≢ bound
    → Handled c (transition_to_bound shares a m sent c)
unfolding transition_to_bound set_deadlines switch_to_unicast
transition_to_bound-Handled shares a m sent c w ne = ground arith

lease_to_discovering-Handled :
    (a : Answers) (c : Client)
    → IsWired c
    → holds_lease c.state ≡ true
    → c.state ≢ bound
    → Handled c (lease_to_discovering a c)
unfolding lease_to_discovering switch_to_broadcast
lease_to_discovering-Handled a c w l ne = ground arith

Handled-eq : (c : Client) (h h' : Client × Option Error) → h' ≡ h → Handled c h → Handled c h'
Handled-eq c h h' e g = subst (Handled c) (sym e) g

handle_ack-Handled :
    (shares : Shares) (a : Answers) (m : Message) (sent : ℕ) (c : Client)
    → IsWired c
    → c.state ≢ bound
    → Handled c (handle_ack shares a m sent c)
unfolding handle_ack
handle_ack-Handled shares a m sent c w ne = elim (Option-cases (acceptable_lease m)) [
  | inl bad ↦ Handled-eq c (c, some invalid_msg) _ (ground (arith, bad)) refl
  | inr (m', good) ↦
      Handled-eq c (transition_to_bound shares a m' sent c) _ (ground (arith, good))
        (transition_to_bound-Handled shares a m' sent c w ne)
]

handle_in-Handled :
    (shares : Shares) (s : State) (t : MessageType) (a : Answers) (m : Message) (sent : ℕ)
    (c : Client)
    → IsWired c
    → c.state ≡ s
    → Handled c (handle_in shares s t a m sent c)
unfolding handle_in requesting_to_discovering
handle_in-Handled shares discovering ack a m sent c w e =
    handle_ack-Handled shares a m sent c w (ground arith)
handle_in-Handled shares requesting ack a m sent c w e =
    handle_ack-Handled shares a m sent c w (ground arith)
handle_in-Handled shares renewing ack a m sent c w e =
    handle_ack-Handled shares a m sent c w (ground arith)
handle_in-Handled shares rebinding ack a m sent c w e =
    handle_ack-Handled shares a m sent c w (ground arith)
handle_in-Handled shares renewing nak a m sent c w e =
    lease_to_discovering-Handled a c w (ground arith) (ground arith)
handle_in-Handled shares rebinding nak a m sent c w e =
    lease_to_discovering-Handled a c w (ground arith) (ground arith)
handle_in-Handled shares discovering offer a m sent c w e =
    elim (Option-cases (acceptable_lease m)) [
      | inl bad ↦ Handled-eq c (c, some invalid_msg) _ (ground (arith, bad)) refl
      | inr (m', good) ↦
          Handled-eq c (record c { last_offer = some m'; state = requesting }, none) _
            (ground (arith, good)) (ground arith)
    ]
handle_in-Handled shares requesting nak a m sent c w e = ground arith
handle_in-Handled shares s t a m sent c w e = ground arith

-- What a round leaves: it never hits a nil pointer; where it goes on, the client is wired, and where
-- the context was done, everything is closed and the callback was told that there is no lease.
abbrev pub Ended : Client × Outcome → Type 0
Ended (c, panicked) = ⊥
Ended (c, waiting) = IsWired c
Ended (c, returned none) = IsWired c
Ended (c, returned (some context_done)) =
    (c.broadcast_open ≡ false) × (c.unicast_open ≡ false) × (c.reported ≡ none)
Ended (c, returned (some _)) = Unit {0}

pub cleanup-Ended : (c : Client) → IsWired c → Ended (cleanup c, returned (some context_done))
unfolding cleanup
cleanup-Ended c w = ground arith

-- What the loop makes of the answer of a closure.
abbrev after : Client × Option Error → Client × Outcome → Client × Outcome
after (c, none) rest = (c, returned none)
after (c, some invalid_msg) rest = rest
after (c, some e) rest = (c, returned (some e))

after-Ended :
    (c : Client) (h : Client × Option Error) (rest : Client × Outcome)
    → Handled c h
    → (h ≡ (c, some invalid_msg) → Ended rest)
    → Ended (after h rest)
after-Ended c (c', none) rest g again = g
after-Ended c (c', some invalid_msg) rest g again = again (ap (λ d. (d, some invalid_msg)) g)
after-Ended c (c', some context_done) rest g again = absurd g
after-Ended c (c', some callback_failed) rest g again = tt
after-Ended c (c', some close_failed) rest g again = tt
after-Ended c (c', some open_failed) rest g again = tt
after-Ended c (c', some no_message) rest g again = tt
after-Ended c (c', some send_failed) rest g again = tt
after-Ended c (c', some deadline_failed) rest g again = tt
after-Ended c (c', some receive_failed) rest g again = tt

pub Ended-eq : (r r' : Client × Outcome) → r' ≡ r → Ended r → Ended r'
Ended-eq r r' e g = subst (Ended) (sym e) g

receive_loop-message :
    (shares : Shares) (a : Answers) (id sent : ℕ) (m : Message) (rs : List (Bool × Received))
    (c : Client)
    → (m.transaction_id == id) ≡ true
    → receive_loop shares a id sent ((false, message m) ∷ rs) c
      ≡ after
          (handle_in shares c.state m.message_type a m sent c)
          (receive_loop shares a id sent rs (handle_in shares c.state m.message_type a m sent c).0)
unfolding receive_loop
receive_loop-message shares a id sent m rs c own =
    rw own (go (handle_in shares c.state m.message_type a m sent c))
  where
    go :
        (h : Client × Option Error)
        → elim h.1 [
          | none ↦ (h.0, returned none)
          | some invalid_msg ↦ receive_loop shares a id sent rs h.0
          | some e ↦ (h.0, returned (some e))
        ]
          ≡ after h (receive_loop shares a id sent rs h.0)
    go (c', none) = refl
    go (c', some invalid_msg) = refl
    go (c', some context_done) = refl
    go (c', some callback_failed) = refl
    go (c', some close_failed) = refl
    go (c', some open_failed) = refl
    go (c', some no_message) = refl
    go (c', some send_failed) = refl
    go (c', some deadline_failed) = refl
    go (c', some receive_failed) = refl

pub receive_loop-Ended :
    (shares : Shares) (a : Answers) (id sent : ℕ) (rs : List (Bool × Received)) (c : Client)
    → IsWired c
    → Ended (receive_loop shares a id sent rs c)
unfolding receive_loop
receive_loop-Ended shares a id sent [] c w = w
receive_loop-Ended shares a id sent ((true, r) ∷ rs) c w = cleanup-Ended c w
receive_loop-Ended shares a id sent ((false, deadline_exceeded) ∷ rs) c w = w
receive_loop-Ended shares a id sent ((false, malformed) ∷ rs) c w =
    receive_loop-Ended shares a id sent rs c w
receive_loop-Ended shares a id sent ((false, broken) ∷ rs) c w = tt
receive_loop-Ended shares a id sent ((false, message m) ∷ rs) c w =
    let again = receive_loop-Ended shares a id sent rs c w in
    elim (Bool-cases (m.transaction_id == id)) [
      | inr foreign ↦
          Ended-eq (receive_loop shares a id sent rs c) _ (ground (arith, foreign)) again
      | inl own ↦
          let h = handle_in shares c.state m.message_type a m sent c in
          Ended-eq _ _ (receive_loop-message shares a id sent m rs c own) (
            after-Ended c h (receive_loop shares a id sent rs h.0)
              (handle_in-Handled shares c.state m.message_type a m sent c w refl)
              (λ same. Ended-eq _ _ (ap (λ g. receive_loop shares a id sent rs g.0) same) again))
    ]

pub state_deadline_exceeded-Ended :
    (s : State) (a : Answers) (c : Client)
    → IsWired c
    → c.state ≡ s
    → s ≢ discovering
    → s ≢ bound
    → Ended (state_deadline_exceeded s a c)
unfolding state_deadline_exceeded requesting_to_discovering switch_to_broadcast
state_deadline_exceeded-Ended discovering a c w e d b = absurd (d refl)
state_deadline_exceeded-Ended bound a c w e d b = absurd (b refl)
state_deadline_exceeded-Ended requesting a c w e d b = ground arith
state_deadline_exceeded-Ended renewing a c w e d b = ground arith
state_deadline_exceeded-Ended rebinding a c w e d b =
    leads_on (lease_to_discovering a c)
      (lease_to_discovering-Handled a c w (ground arith) (ground arith))
  where
    leads_on : (h : Client × Option Error) → Handled c h → Ended (h.0, returned h.1)
    leads_on (c', none) g = g
    leads_on (c', some context_done) g = absurd g
    leads_on (c', some invalid_msg) g = tt
    leads_on (c', some callback_failed) g = tt
    leads_on (c', some close_failed) g = tt
    leads_on (c', some open_failed) g = tt
    leads_on (c', some no_message) g = tt
    leads_on (c', some send_failed) g = tt
    leads_on (c', some deadline_failed) g = tt
    leads_on (c', some receive_failed) g = tt
