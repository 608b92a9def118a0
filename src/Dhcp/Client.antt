-- ===== src/Dhcp/Client.antt =====
-- dhcpc.go: the states of the client. What the outside answers is in the inputs: whether each call of
-- a transport and of the lease callback succeeds, what NextBackOff gives (`none` is Stop), what is
-- received, and the time. Each operation calls Open, Close and the callback at most once.
use monogon.Prelude.{ℕ, ◌+◌, Bool, true, false, not, Option, none, some, if◌then◌else◌}
use monogon.Dhcp.{MessageType, offer, ack, nak, Message, or_default}
use monogon.Dhcp.Leases.{acceptable_lease}

pub data State : Type 0 where
  discovering requesting bound renewing rebinding : State

pub data Error : Type 0 where
  invalid_msg callback_failed close_failed open_failed no_message send_failed deadline_failed :
      Error
  receive_failed context_done : Error

-- What the lease callback is told.
pub record Lease : Type 0 where
  pub message : Message
  pub expires_at : ℕ

pub record Client : Type 0 where
  pub state : State
  pub last_offer : Option Message
  pub lease : Option Message
  pub lease_deadline : ℕ
  pub lease_bound_deadline : ℕ
  pub lease_renew_deadline : ℕ
  -- Whether the transports are open.
  pub broadcast_open : Bool
  pub unicast_open : Bool
  -- The argument of the last call of LeaseCallback.
  pub reported : Option Lease

pub record Answers : Type 0 where
  pub open_ok : Bool
  pub close_ok : Bool
  pub callback_ok : Bool

-- Products of floats: half and 85 percent of a lease time.
pub record Shares : Type 0 where
  pub half : ℕ → ℕ
  pub most : ℕ → ℕ

-- As NewClient returns it.
unfoldable pub new_client : Client
new_client = record {
  state = discovering;
  last_offer = none;
  lease = none;
  lease_deadline = 0;
  lease_bound_deadline = 0;
  lease_renew_deadline = 0;
  broadcast_open = true;
  unicast_open = false;
  reported = none;
}

unfoldable pub switch_to_unicast : Answers → Client → Client × Option Error
switch_to_unicast a c =
    if not a.close_ok
    then (c, some close_failed)
    else if not a.open_ok
    then (record c { broadcast_open = false }, some open_failed)
    else (record c { broadcast_open = false; unicast_open = true }, none)

unfoldable pub switch_to_broadcast : Answers → Client → Client × Option Error
switch_to_broadcast a c =
    if not a.close_ok
    then (c, some close_failed)
    else if not a.open_ok
    then (record c { unicast_open = false }, some open_failed)
    else (record c { unicast_open = false; broadcast_open = true }, none)

abbrev pub is_renewing : State → Bool
is_renewing renewing = true
is_renewing _ = false

unfoldable pub requesting_to_discovering : Client → Client
requesting_to_discovering c = record c { last_offer = none; state = discovering }

abbrev pub call_back : Answers → Option Lease → Client → Client × Option Error
call_back a l c = (record c { reported = l }, if a.callback_ok then none else some callback_failed)

unfoldable pub lease_to_discovering : Answers → Client → Client × Option Error
lease_to_discovering a c =
    let switched = if is_renewing c.state then switch_to_broadcast a c else (c, none) in
    elim switched.1 [
      | some e ↦ switched
      | none ↦ call_back a none (record switched.0 { state = discovering; lease = none })
    ]

abbrev pub lease_from_ack : Message → ℕ → Lease
lease_from_ack m expires_at = record { message = m; expires_at = expires_at }

module _ (shares : Shares) where
  unfoldable pub set_deadlines : Message → ℕ → Client → Client
  set_deadlines m sent_time c =
      let lease_time = or_default 0 m.lease_time in
      record c {
        lease_deadline = sent_time + lease_time;
        lease_bound_deadline = sent_time + or_default (shares.half lease_time) m.renewal_time;
        lease_renew_deadline = sent_time + or_default (shares.most lease_time) m.rebinding_time;
      }

  unfoldable pub transition_to_bound : Answers → Message → ℕ → Client → Client × Option Error
  transition_to_bound a m sent_time c =
      let timed = set_deadlines m sent_time c in
      let (told, failure) = call_back a (some (lease_from_ack m timed.lease_deadline)) timed in
      elim failure [
        | some e ↦ (told, some e)
        | none ↦
            let switched =
              if not (is_renewing told.state) then switch_to_unicast a told else (told, none) in
            elim switched.1 [
              | some e ↦ switched
              | none ↦ (record switched.0 { state = bound; lease = some m }, none)
            ]
      ]

  -- An ACK in any state.
  unfoldable pub handle_ack : Answers → Message → ℕ → Client → Client × Option Error
  handle_ack a m sent_time c = elim (acceptable_lease m) [
    | none ↦ (c, some invalid_msg)
    | some m' ↦ transition_to_bound a m' sent_time c
  ]

  -- The closures `handleMessage` of the states that exchange messages.
  unfoldable pub handle_in :
      State → MessageType → Answers → Message → ℕ → Client → Client × Option Error
  handle_in discovering offer a m sent_time c = elim (acceptable_lease m) [
    | none ↦ (c, some invalid_msg)
    | some m' ↦ (record c { last_offer = some m'; state = requesting }, none)
  ]
  handle_in discovering ack a m sent_time c = handle_ack a m sent_time c
  handle_in requesting ack a m sent_time c = handle_ack a m sent_time c
  handle_in requesting nak a m sent_time c = (requesting_to_discovering c, none)
  handle_in renewing ack a m sent_time c = handle_ack a m sent_time c
  handle_in renewing nak a m sent_time c = lease_to_discovering a c
  handle_in rebinding ack a m sent_time c = handle_ack a m sent_time c
  handle_in rebinding nak a m sent_time c = lease_to_discovering a c
  handle_in _ _ a m sent_time c = (c, some invalid_msg)
