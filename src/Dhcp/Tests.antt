-- ===== src/Dhcp/Tests.antt =====
-- A server on 192.168.1.1 with the pool .100 to .102, and the packets of one client.
use nimbusdns.Dhcp.Startup.{
  Row, HostAddr, Loadable, load_persisted_leases, load_persisted_leases-Loadable,
}
use nimbusdns.Common.{
  List, Bool, ℕ, ◌+◌, ◌≤◌, ◌<◌, ◌⊎◌, ◌≡◌, refl, true, false, none, some, [], ◌∷◌, ℕ_discrete,
}
use nimbusdns.Common.Iteration.{Iteration, in_order}
use nimbusdns.Common.Map.{get, insert, Unique}
use nimbusdns.Common.Sets.{contains, add, discard}
use nimbusdns.Dhcp.Pool
use nimbusdns.Dhcp.Pool.{IpPool, in_range, next_available, mark_allocated}
use nimbusdns.Dhcp.Pool.Scan.{is_free, next_available-some, next_available-none}
use nimbusdns.Dhcp.Lease.{
  can_client_request, try_commit_lease, handle_decline, persist_lease, delete_persisted_lease,
  conflicts, holds, release_old,
}
use nimbusdns.Dhcp.Reclaim.{
  reclaim_expired_locked, reclaim_leases, reclaim_offers, reclaim_declined, release_all,
  lease_expired, offer_expired,
}
use nimbusdns.Dhcp.Reply.{build_ack, build_offer, build_nak, response_destination}
use nimbusdns.Dhcp.Process.{
  process_dhcp_message, dispatch, handle_discover, handle_request, handle_release,
  decline_requested, is_boot_request, hostname_of, or_else, reserve, live_address, offered_entry,
  pick_address, request_address,
}
use nimbusdns.Dhcp.Types.{
  Mac, mac_discrete, to_mac, Lease, OfferEntry, DhcpServer, dec_ip, Message, MessageType, ack,
  boot_request, Options, no_options, Reply, Clock,
}
use nimbusdns.Dhcp.Claims.{IsConsistent}
use nimbusdns.Dhcp.Claims.Reclaimed.{reclaim_expired_locked-IsConsistent}
use nimbusdns.Dhcp.Claims.Requestable.{HasLease, HasOffer, can_client_request_sound}
use nimbusdns.Dhcp.Claims.Granted.{Granted}
use nimbusdns.Dhcp.Claims.Offered.{Reservable}
use nimbusdns.Dhcp.Claims.Transaction.{
  process_dhcp_message-IsConsistent, process_dhcp_message-acks, process_dhcp_message-offers,
}

program : Unit {0}
unfolding get insert contains add discard Pool.new in_range next_available Pool.scan mark_allocated
    Pool.release can_client_request try_commit_lease handle_decline persist_lease
    delete_persisted_lease conflicts holds release_old reclaim_expired_locked reclaim_leases
    reclaim_offers reclaim_declined release_all lease_expired offer_expired build_ack build_offer
    build_nak response_destination process_dhcp_message dispatch handle_discover handle_request
    handle_release decline_requested is_boot_request hostname_of or_else reserve live_address
    offered_entry pick_address request_address mac_discrete to_mac ℕ_discrete
program = tt

abbrev walk : Iteration dec_ip OfferEntry
walk = in_order dec_ip

abbrev first : ℕ
first = 0xc0a80164

abbrev empty : DhcpServer
empty = record {
  excluded = [];
  config = record {
    enabled = true;
    interface = none;
    router = some 0xc0a80101;
    netmask = 0xffffff00;
    dns_server = none;
    pool_start = none;
    pool_end = none;
    lease_time = 86400;
    domain = none;
  };
  leases = [];
  pool = record { start = first; end = first + 2; allocated = [] };
  offered = [];
  declined = [];
  db = some [];
  server_ip = 0xc0a80101;
}

abbrev packet : MessageType → Options → Message
packet kind opts = record {
  opcode = boot_request;
  hlen = 6;
  xid = 7;
  flags = 0;
  ciaddr = 0;
  yiaddr = 0;
  siaddr = 0;
  giaddr = 0;
  chaddr = 2 ∷ 0 ∷ 0 ∷ 1 ∷ 1 ∷ 0 ∷ [];
  opts = record opts { message_type = some kind };
}

abbrev discover : Message
discover = packet MessageType.discover no_options

abbrev request : Message
request =
    packet MessageType.request
      (record no_options { requested_ip = some first; server_identifier = some 0xc0a80101 })

abbrev at : ℕ → Clock
at t = record { t0 = t; t1 = t; t2 = t; t3 = t }

empty-IsConsistent : IsConsistent empty
unfolding get
empty-IsConsistent = record {
  leases_unique = tt;
  offers_unique = tt;
  one_holder = λ m m' l l' h h' q. cc;
  offer_holder = λ ip e m l h h' q. cc;
  lease_taken = λ m l h. cc;
  offer_taken = λ ip e h. cc;
  lease_allowed = λ m l h. cc;
  offer_allowed = λ ip e h. cc;
}

abbrev offered : DhcpServer
offered = (process_dhcp_message walk empty discover (at 1000)).0

offer_reply : Reply
offer_reply = build_offer discover first empty

discover_offers : (process_dhcp_message walk empty discover (at 1000)).1 ≡ some offer_reply
unfolding program offer_reply
discover_offers = refl

process_dhcp_message-IsConsistent_example : IsConsistent offered
process_dhcp_message-IsConsistent_example =
    process_dhcp_message-IsConsistent walk empty discover (at 1000) empty-IsConsistent

process_dhcp_message-offers_example :
    (mac : Mac) × (to_mac discover.chaddr ≡ some mac)
    × (get dec_ip offer_reply.yiaddr offered.offered ≡ some (1030, mac))
    × Reservable offered mac offer_reply.yiaddr
process_dhcp_message-offers_example =
    process_dhcp_message-offers walk empty discover (at 1000) empty-IsConsistent offer_reply
      discover_offers refl

ack_reply : Reply
ack_reply = build_ack request first empty

request_acked : (process_dhcp_message walk offered request (at 1005)).1 ≡ some ack_reply
unfolding program ack_reply
request_acked = refl

ack_reply-type : ack_reply.opts.message_type ≡ some ack
unfolding program ack_reply
ack_reply-type = refl

process_dhcp_message-acks_example :
    (mac : Mac) × (to_mac request.chaddr ≡ some mac)
    × Granted
        (reclaim_expired_locked 1005 offered)
        (process_dhcp_message walk offered request (at 1005)).0
        mac
        ack_reply.yiaddr
        (at 1005)
    × ((m : Mac) (l : Lease)
        → get mac_discrete m (process_dhcp_message walk offered request (at 1005)).0.leases ≡ some l
        → l.ip ≡ ack_reply.yiaddr
        → m ≡ mac)
process_dhcp_message-acks_example =
    process_dhcp_message-acks walk offered request (at 1005)
      process_dhcp_message-IsConsistent_example ack_reply request_acked refl ack_reply-type

abbrev client : Mac
client = record { b0 = 2; b1 = 0; b2 = 0; b3 = 1; b4 = 1; b5 = 0 }

may_request : can_client_request offered client first 1005 ≡ true
unfolding program
may_request = refl

second_address : (next_available empty.pool (first ∷ [])).0 ≡ some (first + 1)
unfolding program
second_address = refl

next_available-some_example :
    (in_range empty.pool (first + 1) ≡ true)
    × (is_free [] (first ∷ []) (first + 1) ≡ true)
    × ((j : ℕ) → first ≤ j → j < first + 1 → is_free [] (first ∷ []) j ≡ false)
    × ((next_available empty.pool (first ∷ [])).1
        ≡ record (empty.pool) { allocated = add (first + 1) [] })
next_available-some_example = next_available-some empty.pool (first ∷ []) (first + 1) second_address

abbrev full : IpPool
full = record { start = first; end = first + 1; allocated = first ∷ [] }

exhausted : (next_available full ((first + 1) ∷ [])).0 ≡ none
unfolding program
exhausted = refl

next_available-none_example :
    ((j : ℕ) → in_range full j ≡ true → is_free (first ∷ []) ((first + 1) ∷ []) j ≡ false)
    × ((next_available full ((first + 1) ∷ [])).1 ≡ full)
next_available-none_example = next_available-none full ((first + 1) ∷ []) exhausted

can_client_request_sound_example :
    (contains first offered.excluded ≡ false)
    × ((until : ℕ) → get dec_ip first offered.declined ≡ some until → until ≤ 1005)
    × (HasLease offered client first 1005 ⊎ HasOffer offered client first 1005)
can_client_request_sound_example = can_client_request_sound offered client first 1005 may_request

reclaim_expired_locked-IsConsistent_example : IsConsistent (reclaim_expired_locked 1040 offered)
reclaim_expired_locked-IsConsistent_example =
    reclaim_expired_locked-IsConsistent 1040 offered process_dhcp_message-IsConsistent_example

abbrev rows : List Row
rows =
    record {
      mac = some client;
      ip = first;
      hostname = "host";
      no_hostname = false;
      expires_at = 2000;
    }
    ∷ []

load_persisted_leases-Loadable_example :
    Unique mac_discrete (load_persisted_leases 1000 first (first + 2) rows)
    × ((m : Mac) (l : Lease)
        → get mac_discrete m (load_persisted_leases 1000 first (first + 2) rows) ≡ some l
        → Loadable 1000 first (first + 2) m l)
load_persisted_leases-Loadable_example = load_persisted_leases-Loadable 1000 first (first + 2) rows

abbrev same_name : List ℕ → List ℕ → Bool
same_name a b = false

abbrev host : List HostAddr
host = record { name = []; ip = first; mask = 0xffffff00 } ∷ []
