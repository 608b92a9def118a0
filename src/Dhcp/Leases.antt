-- ===== src/Dhcp/Leases.antt =====
-- dhcpc.go, `acceptableLease`: which messages are taken, and how they are normalised.
use monogon.Prelude.{
  Bool, true, false, not, ◌&&◌, ◌||◌, Option, none, some, if◌then◌else◌, ltb, Bytes, [], ◌∷◌,
}
use monogon.Dhcp.{Address, Message, or_default, second}

abbrev pub is_assignable : Address → Bool
is_assignable a = a.is_v4 && (a.is_global_unicast || a.is_link_local_unicast)

abbrev pub has_v4 : Option Address → Bool
has_v4 none = false
has_v4 (some a) = a.is_v4

unfoldable pub strip_options : Message → Message
strip_options m = record m {
  requested_ip = none;
  parameter_request_list = none;
  client_identifier = none;
  max_message_size = none;
}

unfoldable pub clamp_rebinding : Message → Message
clamp_rebinding m =
    if ltb (or_default 0 m.lease_time) (or_default 0 m.rebinding_time)
    then record m { rebinding_time = some (or_default 0 m.lease_time) }
    else m

unfoldable pub clamp_renewal : Message → Message
clamp_renewal m =
    if ltb (or_default 0 m.rebinding_time) (or_default 0 m.renewal_time)
    then record m { renewal_time = some (or_default 0 m.rebinding_time) }
    else m

abbrev pub or_inline : Bytes → Option Bytes → Option Bytes
or_inline [] option = option
or_inline (x ∷ xs) option = some (x ∷ xs)

abbrev pub is_missing : Option Bytes → Bool
is_missing none = true
is_missing (some []) = true
is_missing (some (x ∷ xs)) = false

-- The options that can also stand in fields of the message.
unfoldable pub normalize_options : Message → Message
normalize_options m = record m {
  tftp_server_name = or_inline m.server_host_name m.tftp_server_name;
  bootfile_name = or_inline m.boot_file_name m.bootfile_name;
  tftp_server_address =
      if is_missing m.tftp_server_address && is_assignable m.server_ip_addr
      then some m.server_ip_addr.bytes
      else m.tftp_server_address;
}

-- `none` is false; the message is changed in place where it is taken.
unfoldable pub acceptable_lease : Message → Option Message
acceptable_lease m =
    if not (has_v4 m.server_identifier)
    then none
    else if ltb (or_default 0 m.lease_time) second
    then none
    else if not (is_assignable m.your_ip_addr)
    then none
    else some (normalize_options (clamp_renewal (clamp_rebinding (strip_options m))))
