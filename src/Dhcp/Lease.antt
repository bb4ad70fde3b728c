-- ===== src/Dhcp/Lease.antt =====
-- The operations of `impl DhcpServer`: the ownership check, the commit of a lease, a DECLINE, and
-- the calls that keep the database in step.
use Prim.Native.String.{String}
use mathlib.Core.Option
use nimbusdns.Common.{
  ℕ, ◌+◌, Bool, true, false, not, ◌&&◌, Option, none, some, ◌∷◌, any, ltb, ◌==◌, if◌then◌else◌,
  is_some,
}
use nimbusdns.Common.Map.{get, insert, remove}
use nimbusdns.Common.Sets.{contains, add}
use nimbusdns.Dhcp.Pool.{mark_allocated, release}
use nimbusdns.Dhcp.Types.{
  Mac, mac_discrete, same_mac, Lease, OfferEntry, persist, delete, DhcpServer, dec_ip,
}

-- Another client holds `ip` by a lease that has not run out.
unfoldable pub conflicts : Mac → ℕ → ℕ → Mac × Lease → Bool
conflicts mac ip now (k, lease) = lease.ip == ip && not (same_mac k mac) && ltb now lease.expires_at

unfoldable pub holds : ℕ → ℕ → Mac × Lease → Bool
holds ip now (k, lease) = lease.ip == ip && ltb now lease.expires_at

-- The address that the client had before goes back, if nothing else claims it.
unfoldable pub release_old : DhcpServer → Option ℕ → ℕ → ℕ → DhcpServer
release_old s none ip now = s
release_old s (some old) ip now =
    if not (old == ip)
      && not (any (holds old now) s.leases)
      && not (is_some (get dec_ip old s.offered))
      && not (contains old s.excluded)
    then record s { pool = release s.pool old }
    else s

unfoldable pub try_commit_lease : DhcpServer → Mac → ℕ → ℕ → Option String → ℕ → DhcpServer × Bool
try_commit_lease s mac ip expires_at hostname now =
    if any (conflicts mac ip now) s.leases then (s, false) else (
      release_old
          (record s {
            leases = insert mac_discrete mac lease s.leases;
            pool = mark_allocated s.pool ip;
          })
          (Option.map (λ l. l.ip) (get mac_discrete mac s.leases)) ip now,
      true,
    )
  where
    lease : Lease
    lease = record {
      ip = ip;
      mac = mac;
      hostname = hostname;
      vendor = none;
      expires_at = expires_at;
    }

unfoldable pub quarantined : Option ℕ → ℕ → Bool
quarantined none now = false
quarantined (some until) now = ltb now until

unfoldable pub leased : Option Lease → ℕ → ℕ → Bool
leased none ip now = false
leased (some lease) ip now = lease.ip == ip && ltb now lease.expires_at

unfoldable pub offered_to : Option OfferEntry → Mac → ℕ → Bool
offered_to none mac now = false
offered_to (some (expiry, offer_mac)) mac now = same_mac offer_mac mac && ltb now expiry

unfoldable pub can_client_request : DhcpServer → Mac → ℕ → ℕ → Bool
unfolding quarantined leased offered_to
can_client_request s mac ip now =
    if contains ip s.excluded
    then false
    else if quarantined (get dec_ip ip s.declined) now
    then false
    else if leased (get mac_discrete mac s.leases) ip now
    then true
    else offered_to (get dec_ip ip s.offered) mac now

unfoldable pub persist_lease : DhcpServer → Mac → ℕ → Option String → ℕ → DhcpServer
persist_lease s mac ip hostname expires_at = record s {
  db = Option.map (λ calls. persist mac ip (Option.get_or hostname "") expires_at ∷ calls) s.db;
}

unfoldable pub delete_persisted_lease : DhcpServer → Mac → DhcpServer
delete_persisted_lease s mac = record s { db = Option.map (λ calls. delete mac ∷ calls) s.db }

-- `now` comes from the caller; `can_client_request` reads the clock again.
unfoldable pub handle_decline : DhcpServer → Mac → ℕ → ℕ → ℕ → DhcpServer
unfolding delete_persisted_lease
handle_decline s mac ip now now' =
    if can_client_request s mac ip now'
    then delete_persisted_lease
        (record s {
          excluded = add ip s.excluded;
          declined = insert dec_ip ip (now + 600) s.declined;
          pool = mark_allocated s.pool ip;
          leases = remove mac_discrete mac s.leases;
          offered = remove dec_ip ip s.offered;
        })
        mac
    else s
