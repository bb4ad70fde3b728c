-- ===== src/Dhcp/Types.antt =====
-- The data of nimbus-core/src/dhcp/mod.rs: leases, the server's state, its configuration, and the
-- view of a `dhcproto` message that the server reads and writes. Timestamps are seconds after the
-- epoch.
use Prim.Native.String.{String}
use nimbusdns.Common.{ℕ, Bool, Option, none, some, List, [], ◌∷◌, ℕ_discrete, test}
use nimbusdns.Dhcp.Pool.{IpPool}

-- `[u8; 6]`
pub record Mac : Type 0 where
  pub b0 : ℕ
  pub b1 : ℕ
  pub b2 : ℕ
  pub b3 : ℕ
  pub b4 : ℕ
  pub b5 : ℕ

unfoldable pub mac_discrete : Discrete Mac
unfolding ℕ_discrete
mac_discrete = hlevel ℕ_discrete

pub record Lease : Type 0 where
  pub ip : ℕ
  pub mac : Mac
  pub hostname : Option String
  pub vendor : Option String
  pub expires_at : ℕ

-- The expiry of an offer, and the client that it was made to.
abbrev pub OfferEntry : Type 0
OfferEntry = ℕ × Mac

pub record DhcpConfig : Type 0 where
  pub enabled : Bool
  pub interface : Option String
  pub router : Option ℕ
  pub netmask : ℕ
  pub dns_server : Option ℕ
  pub pool_start : Option ℕ
  pub pool_end : Option ℕ
  pub lease_time : ℕ
  pub domain : Option String

-- The calls that the server has made to its database, the latest first.
pub data DbCall : Type 0 where
  persist : Mac → ℕ → String → ℕ → DbCall
  delete : Mac → DbCall

-- `db` is `none` for a server without a database. The lock `mutation` has no state.
pub record DhcpServer : Type 0 where
  pub excluded : List ℕ
  pub config : DhcpConfig
  pub leases : List (Mac × Lease)
  pub pool : IpPool
  pub offered : List (ℕ × OfferEntry)
  pub declined : List (ℕ × ℕ)
  pub db : Option (List DbCall)
  pub server_ip : ℕ

pub data Opcode : Type 0 where
  boot_request boot_reply : Opcode
  unknown_opcode : ℕ → Opcode

pub data MessageType : Type 0 where
  discover offer request decline ack nak release inform : MessageType
  other_type : ℕ → MessageType

-- `DhcpOptions`: what is stored under each option code that the server uses.
pub record Options : Type 0 where
  pub message_type : Option MessageType
  pub server_identifier : Option ℕ
  pub requested_ip : Option ℕ
  pub hostname : Option String
  pub subnet_mask : Option ℕ
  pub domain_name_server : Option (List ℕ)
  pub router : Option (List ℕ)
  pub address_lease_time : Option ℕ
  pub renewal : Option ℕ
  pub rebinding : Option ℕ
  pub domain_name : Option String

abbrev pub no_options : Options
no_options = record {
  message_type = none;
  server_identifier = none;
  requested_ip = none;
  hostname = none;
  subnet_mask = none;
  domain_name_server = none;
  router = none;
  address_lease_time = none;
  renewal = none;
  rebinding = none;
  domain_name = none;
}

pub record Message : Type 0 where
  pub opcode : Opcode
  pub hlen : ℕ
  pub xid : ℕ
  pub flags : ℕ
  pub ciaddr : ℕ
  pub yiaddr : ℕ
  pub siaddr : ℕ
  pub giaddr : ℕ
  pub chaddr : List ℕ
  pub opts : Options

-- `msg.chaddr().try_into()`
unfoldable pub to_mac : List ℕ → Option Mac
to_mac (a ∷ b ∷ c ∷ d ∷ e ∷ f ∷ []) =
    some (record { b0 = a; b1 = b; b2 = c; b3 = d; b4 = e; b5 = f })
to_mac _ = none

-- The fields of a reply that the server sets.
pub record Reply : Type 0 where
  pub opcode : Opcode
  pub xid : ℕ
  pub flags : ℕ
  pub ciaddr : ℕ
  pub yiaddr : ℕ
  pub siaddr : ℕ
  pub giaddr : ℕ
  pub chaddr : List ℕ
  pub opts : Options

-- What one packet reads off the system clock, in the order of the calls of `Utc::now`.
pub record Clock : Type 0 where
  pub t0 : ℕ
  pub t1 : ℕ
  pub t2 : ℕ
  pub t3 : ℕ

-- Addresses are keys of the maps of offers and declined addresses.
abbrev pub dec_ip : Discrete ℕ
dec_ip = ℕ_discrete

abbrev pub same_mac : Mac → Mac → Bool
same_mac a b = test (mac_discrete a b)
