-- ===== src/Examples/Leasing.antt =====
-- A client that discovers, requests and binds a lease of an hour.
use monogon.Prelude.{
  ℕ, ◌+◌, ◌*◌, ◌/◌, ◌≤◌, ◌≡◌, refl, Bool, true, false, Option, none, some, List, [], ◌∷◌, arith,
}
use monogon.Dhcp.{Address, Message, MessageType, offer, ack, second}
use monogon.Dhcp.Leases.{
  acceptable_lease, strip_options, clamp_rebinding, clamp_renewal, normalize_options,
}
use monogon.Dhcp.Client.{
  bound, Client, Answers, Shares, new_client, handle_ack, handle_in, transition_to_bound,
  set_deadlines, switch_to_unicast,
}
use monogon.Dhcp.Run.{
  Received, message, Input, run, run_state, run_transaction_state, receive_loop, request_id,
  run_bound,
}
use monogon.Dhcp.Deadlines.{handle_ack_ordered}

abbrev shares : Shares
shares = record { half = λ t. t / 2; most = λ t. t * 85 / 100 }

abbrev address : Address
address = record {
  bytes = 10 ∷ 0 ∷ 0 ∷ 5 ∷ [];
  is_v4 = true;
  is_global_unicast = true;
  is_link_local_unicast = false;
}

abbrev reply : MessageType → Option ℕ → Message
reply t renewal = record {
  message_type = t;
  transaction_id = 7;
  your_ip_addr = address;
  server_ip_addr = address;
  server_host_name = [];
  boot_file_name = [];
  server_identifier = some address;
  lease_time = some (3600 * second);
  renewal_time = renewal;
  rebinding_time = none;
  requested_ip = none;
  parameter_request_list = none;
  client_identifier = none;
  max_message_size = none;
  tftp_server_name = none;
  bootfile_name = none;
  tftp_server_address = none;
}

abbrev fine : Answers
fine = record { open_ok = true; close_ok = true; callback_ok = true }

abbrev round : ℕ → List (Bool × Received) → Input
round now received = record {
  now = now;
  random_id = some 7;
  wait = some second;
  send_ok = true;
  deadline_ok = true;
  answers = fine;
  received = received;
  cancelled = false;
}

abbrev rounds : List Input
rounds =
    round 100 ((false, message (reply offer none)) ∷ [])
    ∷ round 200 ((false, message (reply ack none)) ∷ [])
    ∷ []

ends_bound : (run shares rounds new_client).0.state ≡ bound
unfolding run run_state run_transaction_state receive_loop request_id run_bound new_client handle_in
    handle_ack acceptable_lease strip_options clamp_rebinding clamp_renewal normalize_options
    transition_to_bound set_deadlines switch_to_unicast
ends_bound = refl

-- A request that nobody answers until its backoff gives up, and a client that starts again.
abbrev given_up : List Input
given_up =
    round 100 ((false, message (reply offer none)) ∷ [])
    ∷ record (round 200 []) { wait = none }
    ∷ round 300 ((false, message (reply offer none)) ∷ [])
    ∷ round 400 ((false, message (reply ack none)) ∷ [])
    ∷ []

abbrev bound_client : Option ℕ → Client
unfolding handle_ack acceptable_lease strip_options clamp_rebinding clamp_renewal normalize_options
    transition_to_bound set_deadlines switch_to_unicast new_client
bound_client renewal = (handle_ack shares fine (reply ack renewal) 200 new_client).0

takes :
    (renewal : Option ℕ)
    → handle_ack shares fine (reply ack renewal) 200 new_client ≡ (bound_client renewal, none)
unfolding handle_ack acceptable_lease strip_options clamp_rebinding clamp_renewal normalize_options
    transition_to_bound set_deadlines switch_to_unicast new_client
takes none = refl
takes (some t) = refl

handle_ack_ordered_example :
    (200 ≤ (bound_client none).lease_bound_deadline)
    × ((bound_client none).lease_bound_deadline ≤ (bound_client none).lease_renew_deadline)
    × ((bound_client none).lease_renew_deadline ≤ (bound_client none).lease_deadline)
    × (200 + second ≤ (bound_client none).lease_deadline)
handle_ack_ordered_example =
    handle_ack_ordered shares fine (reply ack none) 200 new_client (bound_client none)
      (λ t. (omega arith, omega arith)) (takes none) (λ t e g. absurd (ground (arith, g)))
