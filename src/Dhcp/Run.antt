-- ===== src/Dhcp/Run.antt =====
-- dhcpc.go: `runTransactionState`, `runState` and the loop of `Run`.
use monogon.Prelude.{
  ℕ, ◌+◌, ◌*◌, Bool, true, false, not, ◌||◌, Option, none, some, if◌then◌else◌, ltb, ◌==◌, List, [],
  ◌∷◌,
}
use monogon.Dhcp.{Message, millisecond}
use monogon.Dhcp.Client.{
  State, discovering, requesting, bound, renewing, rebinding, Error, invalid_msg, no_message,
  send_failed, deadline_failed, receive_failed, context_done, Client, Answers, Shares,
  requesting_to_discovering, lease_to_discovering, switch_to_broadcast, handle_in,
}

-- What Receive returns.
pub data Received : Type 0 where
  message : Message → Received
  deadline_exceeded malformed broken : Received

-- `waiting`: Receive has not returned yet. `panicked`: a nil pointer or function.
pub data Outcome : Type 0 where
  returned : Option Error → Outcome
  waiting panicked : Outcome

-- All that the outside answers in one round of `Run`: each message comes with whether the context was
-- done by then.
pub record Input : Type 0 where
  pub now : ℕ
  pub random_id : Option ℕ
  pub wait : Option ℕ
  pub send_ok : Bool
  pub deadline_ok : Bool
  pub answers : Answers
  pub received : List (Bool × Received)
  pub cancelled : Bool

abbrev pub is_some {ℓ} : {A : Type ℓ} → Option A → Bool
is_some none = false
is_some (some a) = true

unfoldable pub cleanup : Client → Client
cleanup c = record c {
  unicast_open = false;
  broadcast_open = false;
  reported = if is_some c.lease then none else c.reported;
}

-- The transaction the request belongs to, after `setExtraOptions`; `none` is a nil pointer.
unfoldable pub request_id : State → ℕ → Client → Option ℕ
request_id requesting id c = elim c.last_offer [ none ↦ none | some m ↦ some m.transaction_id ]
request_id renewing id c = elim c.lease [ none ↦ none | some m ↦ some id ]
request_id rebinding id c = elim c.lease [ none ↦ none | some m ↦ some id ]
request_id _ id c = some id

abbrev pub state_deadline : State → Client → Option ℕ
state_deadline renewing c = some c.lease_renew_deadline
state_deadline rebinding c = some c.lease_deadline
state_deadline _ c = none

-- "Jump out if deadline expires in less than 10ms."
abbrev pub expires_soon : Option ℕ → ℕ → Bool
expires_soon none sent_time = false
expires_soon (some d) sent_time = ltb d (sent_time + 10 * millisecond)

abbrev pub returning : Client × Option Error → Client × Outcome
returning (c, e) = (c, returned e)

unfoldable pub state_deadline_exceeded : State → Answers → Client → Client × Outcome
state_deadline_exceeded discovering a c = (c, panicked)
state_deadline_exceeded requesting a c = (requesting_to_discovering c, returned none)
state_deadline_exceeded renewing a c =
    returning (switch_to_broadcast a (record c { state = rebinding }))
state_deadline_exceeded rebinding a c = returning (lease_to_discovering a c)
state_deadline_exceeded bound a c = (c, panicked)

abbrev pub is_bound : State → Bool
is_bound bound = true
is_bound _ = false

-- Bound: the wait for the deadline or the context.
unfoldable pub run_bound : Input → Client → Client × Outcome
run_bound i c =
    if i.cancelled
    then (cleanup c, returned (some context_done))
    else (record c { state = renewing }, returned none)

module _ (shares : Shares) where
  unfoldable pub receive_loop : Answers → ℕ → ℕ → List (Bool × Received) → Client → Client × Outcome
  receive_loop a id sent_time [] c = (c, waiting)
  receive_loop a id sent_time ((true, r) ∷ rs) c = (cleanup c, returned (some context_done))
  receive_loop a id sent_time ((false, deadline_exceeded) ∷ rs) c = (c, returned none)
  receive_loop a id sent_time ((false, malformed) ∷ rs) c = receive_loop a id sent_time rs c
  receive_loop a id sent_time ((false, broken) ∷ rs) c = (c, returned (some receive_failed))
  receive_loop a id sent_time ((false, message m) ∷ rs) c =
      if not (m.transaction_id == id)
      then receive_loop a id sent_time rs c
      else let handled = handle_in shares c.state m.message_type a m sent_time c in
        elim handled.1 [
          | none ↦ (handled.0, returned none)
          | some invalid_msg ↦ receive_loop a id sent_time rs handled.0
          | some e ↦ (handled.0, returned (some e))
        ]

  unfoldable pub run_transaction_state : Input → Client → Client × Outcome
  run_transaction_state i c = elim i.random_id [
    | none ↦ (c, returned (some no_message))
    | some fresh ↦ elim (request_id c.state fresh c) [
      | none ↦ (c, panicked)
      | some id ↦
          if not (is_some i.wait) || expires_soon (state_deadline c.state c) i.now
          then state_deadline_exceeded c.state i.answers c
          else if not i.send_ok
          then (c, returned (some send_failed))
          else if not i.deadline_ok
          then (c, returned (some deadline_failed))
          else receive_loop i.answers id i.now i.received c
    ]
  ]

  unfoldable pub run_state : Input → Client → Client × Outcome
  run_state i c = if is_bound c.state then run_bound i c else run_transaction_state i c

  -- `Run`, for as many rounds as there are inputs.
  unfoldable pub run : List Input → Client → Client × Outcome
  run [] c = (c, waiting)
  run (i ∷ is) c =
      let (c', o) = run_state i c in
      elim o [
        | returned none ↦ run is c'
        | returned (some e) ↦ (c', returned (some e))
        | waiting ↦ (c', waiting)
        | panicked ↦ (c', panicked)
      ]
