-- ===== src/Dhcp/Process.antt =====
-- `process_dhcp_message`: one packet, as one transaction on the server's state.
use Prim.Native.String.{String}
use nimbusdns.Common.{
  ℕ, ◌+◌, Bool, true, false, not, ◌&&◌, ◌||◌, Option, none, some, find, keep, ltb, ◌==◌,
  if◌then◌else◌, is_some, bit_and,
}
use nimbusdns.Common.Iteration.{Iteration}
use nimbusdns.Common.Map.{get, insert, remove}
use nimbusdns.Common.Sets.{contains}
use nimbusdns.Dhcp.Pool.{IpPool, in_range, next_available, mark_allocated}
use nimbusdns.Dhcp.Pool as Pool
use nimbusdns.Dhcp.Lease.{
  try_commit_lease, can_client_request, handle_decline, persist_lease, delete_persisted_lease,
}
use nimbusdns.Dhcp.Reclaim.{reclaim_expired_locked}
use nimbusdns.Dhcp.Reply.{build_offer, build_ack, build_nak, build_inform_ack, unspecified}
use nimbusdns.Dhcp.Types.{
  Mac, mac_discrete, same_mac, to_mac, Lease, OfferEntry, DhcpServer, dec_ip, Message, MessageType,
  Opcode, boot_request, Reply, Clock,
}

abbrev pub offer_timeout : ℕ
offer_timeout = 30

unfoldable pub is_boot_request : Opcode → Bool
is_boot_request boot_request = true
is_boot_request _ = false

-- The hostname of a request, or else the one on file.
unfoldable pub hostname_of : Option Lease → Option String
hostname_of none = none
hostname_of (some lease) = lease.hostname

unfoldable pub or_else {ℓ} : {A : Type ℓ} → Option A → Option A → Option A
or_else none b = b
or_else (some a) b = some a

-- `offers.insert(ip, (now + OFFER_TIMEOUT, mac))`
unfoldable pub reserve : DhcpServer → Mac → ℕ → ℕ → DhcpServer
reserve s mac now ip = record s { offered = insert dec_ip ip (now + offer_timeout, mac) s.offered }

-- The address of a lease that has not run out.
unfoldable pub live_address : Option Lease → ℕ → Option ℕ
live_address none now = none
live_address (some lease) now = if ltb now lease.expires_at then some lease.ip else none

unfoldable pub offered_entry : Mac → ℕ → ℕ × OfferEntry → Bool
offered_entry mac now (ip, entry) = same_mac entry.1 mac && ltb now entry.0

-- An address from the pool, reserved for the client.
unfoldable pub reserve_new : DhcpServer → Mac → ℕ → Option ℕ × IpPool → Option ℕ × DhcpServer
reserve_new s mac now (none, pool) = (none, s)
reserve_new s mac now (some ip, pool) = (some ip, reserve (record s { pool = pool }) mac now ip)

module _ (walk : Iteration dec_ip OfferEntry) where
  -- The address to offer: that of the client's lease, of its offer, or a new one.
  unfoldable pub pick_address : DhcpServer → Mac → ℕ → Option ℕ × DhcpServer
  unfolding reserve_new
  pick_address s mac now = elim (live_address (get mac_discrete mac s.leases) now) [
    | some ip ↦ (some ip, s)
    | none ↦ elim (find (offered_entry mac now) (walk.iter s.offered)) [
      | some (ip, entry) ↦ (some ip, reserve s mac now ip)
      | none ↦ reserve_new s mac now (next_available s.pool s.excluded)
    ]
  ]

  unfoldable pub offer_address :
      Message → Mac → ℕ → Option ℕ × DhcpServer → DhcpServer × Option Reply
  offer_address msg mac now (none, s) = (s, none)
  offer_address msg mac now (some ip, s) = (reserve s mac now ip, some (build_offer msg ip s))

  unfoldable pub handle_discover : DhcpServer → Message → Mac → ℕ → DhcpServer × Option Reply
  unfolding offer_address
  handle_discover s msg mac now = offer_address msg mac now (pick_address s mac now)

-- After `try_commit_lease`.
unfoldable pub finish_request :
    Message → Mac → ℕ → Option String → ℕ → DhcpServer × Bool → DhcpServer × Option Reply
finish_request msg mac ip hostname expires (s, false) = (s, some (build_nak msg s))
finish_request msg mac ip hostname expires (s, true) = (
  persist_lease (record s { pool = mark_allocated s.pool ip; offered = remove dec_ip ip s.offered })
      mac ip hostname expires,
  some (build_ack msg ip s),
)

unfoldable pub subnet_matches : DhcpServer → ℕ → Bool
subnet_matches s ip = bit_and ip s.config.netmask == bit_and s.server_ip s.config.netmask

-- A REQUEST whose address is known.
unfoldable pub request_address : DhcpServer → Message → Mac → ℕ → Clock → DhcpServer × Option Reply
unfolding finish_request subnet_matches
request_address s msg mac ip clock =
    if not (is_some msg.opts.server_identifier)
      && msg.ciaddr == unspecified
      && subnet_matches s ip
      && not (is_some (get mac_discrete mac s.leases))
    then (s, none)
    else if not (in_range s.pool ip) || not (can_client_request s mac ip clock.t1)
    then (s, some (build_nak msg s))
    else (let hostname = or_else msg.opts.hostname (hostname_of (get mac_discrete mac s.leases)) in
        let expires = clock.t2 + s.config.lease_time in
        finish_request msg mac ip hostname expires
          (try_commit_lease s mac ip expires hostname clock.t3))

unfoldable pub handle_request : DhcpServer → Message → Mac → Clock → DhcpServer × Option Reply
handle_request s msg mac clock =
    let requested = msg.opts.requested_ip in
    let configured = not (msg.ciaddr == unspecified) in
    if is_some msg.opts.server_identifier && (not (is_some requested) || configured)
    then (s, none)
    else if configured && is_some requested
    then (s, none)
    else elim (or_else requested (if configured then some msg.ciaddr else none)) [
      | none ↦ (s, none)
      | some ip ↦ request_address s msg mac ip clock
    ]

unfoldable pub owns : Option Lease → ℕ → Bool
owns none ip = false
owns (some lease) ip = lease.ip == ip

unfoldable pub handle_release : DhcpServer → Message → Mac → DhcpServer
unfolding owns
handle_release s msg mac =
    let ip = msg.ciaddr in
    if owns (get mac_discrete mac s.leases) ip && not (ip == unspecified)
    then delete_persisted_lease
        (record s {
          leases = remove mac_discrete mac s.leases;
          offered = keep (λ e. not (same_mac e.1.1 mac)) s.offered;
          pool = if contains ip s.excluded then s.pool else Pool.release s.pool ip;
        })
        mac
    else s

unfoldable pub decline_requested : DhcpServer → Mac → Option ℕ → Clock → DhcpServer
decline_requested s mac none clock = s
decline_requested s mac (some ip) clock = handle_decline s mac ip clock.t1 clock.t2

-- SELECTING, RELEASE and DECLINE name the server that they are for.
unfoldable pub other_server : Option ℕ → ℕ → Bool
other_server none sid = false
other_server (some ip) sid = not (ip == sid)

module _ (walk : Iteration dec_ip OfferEntry) where
  -- The `match kind`.
  unfoldable pub dispatch :
      MessageType → DhcpServer → Message → Mac → Clock → DhcpServer × Option Reply
  dispatch MessageType.discover s msg mac clock = handle_discover walk s msg mac clock.t1
  dispatch MessageType.request s msg mac clock = handle_request s msg mac clock
  dispatch MessageType.release s msg mac clock = (handle_release s msg mac, none)
  dispatch MessageType.decline s msg mac clock =
      (decline_requested s mac msg.opts.requested_ip clock, none)
  dispatch MessageType.inform s msg mac clock =
      if msg.ciaddr == unspecified then (s, none) else (s, some (build_inform_ack msg s))
  dispatch _ s msg mac clock = (s, none)

  unfoldable pub process_dhcp_message : DhcpServer → Message → Clock → DhcpServer × Option Reply
  unfolding other_server
  process_dhcp_message s msg clock =
      if not (is_boot_request msg.opcode) || not (msg.hlen == 6)
      then (s, none)
      else elim (to_mac msg.chaddr) [
        | none ↦ (s, none)
        | some mac ↦ elim msg.opts.message_type [
          | none ↦ (s, none)
          | some kind ↦
              if other_server msg.opts.server_identifier s.server_ip
              then (s, none)
              else dispatch kind (reclaim_expired_locked clock.t0 s) msg mac clock
        ]
      ]
