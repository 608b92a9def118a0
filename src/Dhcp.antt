-- ===== src/Dhcp.antt =====
-- metropolis/node/core/network/dhcp4c/dhcpc.go: what the states of the DHCP client share. A message
-- of the library dhcpv4 is what its accessors report: an option that is absent is `none`, and durations
-- and times are in nanoseconds.
pub mod Leases
pub mod Client
pub mod Run
pub mod Wiring
pub mod Rounds
pub mod Deadlines
use monogon.Prelude.{ℕ, Bool, true, false, Option, none, some, Bytes}

-- An address, with what the methods of net.IP say of it.
pub record Address : Type 0 where
  pub bytes : Bytes
  pub is_v4 : Bool
  pub is_global_unicast : Bool
  pub is_link_local_unicast : Bool

pub data MessageType : Type 0 where
  offer ack nak other : MessageType

pub record Message : Type 0 where
  pub message_type : MessageType
  pub transaction_id : ℕ
  pub your_ip_addr : Address
  pub server_ip_addr : Address
  pub server_host_name : Bytes
  pub boot_file_name : Bytes
  pub server_identifier : Option Address
  pub lease_time : Option ℕ
  pub renewal_time : Option ℕ
  pub rebinding_time : Option ℕ
  pub requested_ip : Option Bytes
  pub parameter_request_list : Option Bytes
  pub client_identifier : Option Bytes
  pub max_message_size : Option Bytes
  pub tftp_server_name : Option Bytes
  pub bootfile_name : Option Bytes
  pub tftp_server_address : Option Bytes

-- The accessors of durations with their defaults.
abbrev pub or_default : ℕ → Option ℕ → ℕ
or_default d none = d
or_default d (some t) = t

abbrev pub second : ℕ
second = 1000000000

abbrev pub millisecond : ℕ
millisecond = 1000000
