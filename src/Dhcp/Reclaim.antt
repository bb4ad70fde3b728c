-- ===== src/Dhcp/Reclaim.antt =====
-- `reclaim_expired_locked`: leases, offers and quarantines that have run out.
use nimbusdns.Common.{
  ℕ, Bool, not, ◌&&◌, List, [], ◌∷◌, map, any, keep, leb, if◌then◌else◌, is_some,
}
use nimbusdns.Common.Map.{get}
use nimbusdns.Common.Sets.{contains}
use nimbusdns.Dhcp.Pool.{IpPool, release}
use nimbusdns.Dhcp.Lease.{holds}
use nimbusdns.Dhcp.Types.{Mac, Lease, OfferEntry, DhcpServer, dec_ip}

-- The loops `for ip in … { if free { pool.release(ip) } }`.
unfoldable pub release_all : (ℕ → Bool) → List ℕ → IpPool → IpPool
release_all free [] pool = pool
release_all free (ip ∷ ips) pool = release_all free ips (if free ip then release pool ip else pool)

unfoldable pub lease_expired : ℕ → Mac × Lease → Bool
lease_expired now (mac, lease) = leb lease.expires_at now

unfoldable pub reclaim_leases : ℕ → DhcpServer → DhcpServer
reclaim_leases now s =
    let left = keep (λ e. not (lease_expired now e)) s.leases in
    let active_ips = map (λ e. e.1.ip) left in
    record s {
      leases = left;
      pool =
          release_all
            (λ ip.
              not (contains ip active_ips)
              && not (is_some (get dec_ip ip s.offered))
              && not (contains ip s.excluded))
            (map (λ e. e.1.ip) (keep (lease_expired now) s.leases)) s.pool;
    }

unfoldable pub offer_expired : ℕ → ℕ × OfferEntry → Bool
offer_expired now (ip, entry) = leb entry.0 now

unfoldable pub reclaim_offers : ℕ → DhcpServer → DhcpServer
reclaim_offers now s = record s {
  offered = keep (λ e. not (offer_expired now e)) s.offered;
  pool =
      release_all (λ ip. not (any (holds ip now) s.leases) && not (contains ip s.excluded))
        (map (λ e. e.0) (keep (offer_expired now) s.offered)) s.pool;
}

unfoldable pub reclaim_declined : ℕ → DhcpServer → DhcpServer
reclaim_declined now s = record s { declined = keep (λ e. not (leb e.1 now)) s.declined }

unfoldable pub reclaim_expired_locked : ℕ → DhcpServer → DhcpServer
reclaim_expired_locked now s = reclaim_declined now (reclaim_offers now (reclaim_leases now s))
