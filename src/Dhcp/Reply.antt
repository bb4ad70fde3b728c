-- ===== src/Dhcp/Reply.antt =====
-- The replies: OFFER, ACK, the ACK of an INFORM, NAK, and where a reply is sent.
use mathlib.Core.Option
use nimbusdns.Common.{
  ℕ, ◌*◌, ◌/◌, ◌%◌, ◌^◌, Bool, true, false, not, ◌&&◌, Option, none, some, [], ◌∷◌, take, ◌==◌,
  if◌then◌else◌,
}
use nimbusdns.Dhcp.Types.{
  DhcpServer, Message, MessageType, offer, ack, nak, boot_reply, Options, no_options, Reply,
}

abbrev pub unspecified : ℕ
unspecified = 0

abbrev pub broadcast : ℕ
broadcast = 0xffffffff

abbrev pub server_port : ℕ
server_port = 67

abbrev pub client_port : ℕ
client_port = 68

-- `make_msg` and the four setters that follow it in every builder.
unfoldable pub make_msg : Message → ℕ → ℕ → Options → Reply
make_msg msg yiaddr sid opts = record {
  opcode = boot_reply;
  xid = msg.xid;
  flags = msg.flags;
  ciaddr = msg.ciaddr;
  yiaddr = yiaddr;
  siaddr = sid;
  giaddr = msg.giaddr;
  chaddr = take 6 msg.chaddr;
  opts = opts;
}

-- The options that OFFER and ACK share.
unfoldable pub lease_options : MessageType → DhcpServer → Options
lease_options kind s = record no_options {
  message_type = some kind;
  server_identifier = some s.server_ip;
  subnet_mask = some s.config.netmask;
  domain_name_server = some (Option.get_or s.config.dns_server s.server_ip ∷ []);
  router = some (Option.get_or s.config.router s.server_ip ∷ []);
  address_lease_time = some s.config.lease_time;
  renewal = some (s.config.lease_time / 2);
  rebinding = some (s.config.lease_time * 7 / 8 % 2 ^ 32);
  domain_name = s.config.domain;
}

unfoldable pub build_offer : Message → ℕ → DhcpServer → Reply
unfolding make_msg lease_options
build_offer msg ip s = make_msg msg ip s.server_ip (lease_options offer s)

unfoldable pub build_ack : Message → ℕ → DhcpServer → Reply
unfolding make_msg lease_options
build_ack msg ip s = make_msg msg ip s.server_ip (lease_options ack s)

unfoldable pub build_inform_ack : Message → DhcpServer → Reply
unfolding build_ack
build_inform_ack msg s =
    let reply = build_ack msg unspecified s in record reply { opts = without_times reply.opts }
  where
    without_times : Options → Options
    without_times o = record o { address_lease_time = none; renewal = none; rebinding = none }

unfoldable pub build_nak : Message → DhcpServer → Reply
unfolding make_msg
build_nak msg s =
    make_msg msg unspecified s.server_ip
      (record no_options { message_type = some nak; server_identifier = some s.server_ip })

unfoldable pub is_nak : Option MessageType → Bool
is_nak (some nak) = true
is_nak _ = false

-- The address and the port that a reply is sent to.
unfoldable pub response_destination : Reply → ℕ × ℕ
unfolding is_nak
response_destination r =
    if not (r.giaddr == unspecified)
    then (r.giaddr, server_port)
    else if not (is_nak r.opts.message_type) && not (r.ciaddr == unspecified)
    then (r.ciaddr, client_port)
    else (broadcast, client_port)
