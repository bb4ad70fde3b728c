-- ===== src/Dhcp/Claims/Reclaimed.antt =====
-- `reclaim_expired_locked` keeps the claims consistent, and leaves exactly those that are in force.
use nimbusdns.Common.{
  ℕ, ◌<◌, ◌≡◌, refl, ◌≢◌, Bool, true, false, not, none, some, List, [], ◌∷◌, map, keep, any,
  if◌then◌else◌, arith, Bool-cases, ◌⊎◌, inl, inr,
}
use nimbusdns.Common.Map.{
  get, Unique, get-keep, keep-Unique, keep-get, keep-Within, any-true, Within,
}
use nimbusdns.Common.Sets.{contains}
use nimbusdns.Dhcp.Pool.{IpPool, release}
use nimbusdns.Dhcp.Pool.Scan.{Taken, release-keeps}
use nimbusdns.Dhcp.Lease.{holds}
use nimbusdns.Dhcp.Reclaim.{
  release_all, lease_expired, reclaim_leases, offer_expired, reclaim_offers, reclaim_declined,
  reclaim_expired_locked,
}
use nimbusdns.Dhcp.Types.{Mac, mac_discrete, Lease, OfferEntry, DhcpServer, dec_ip}
use nimbusdns.Dhcp.Claims.{Leases, Offers, IsConsistent, shrink}

release_step :
    (free : ℕ → Bool) (ip j : ℕ) (pool : IpPool)
    → (free j ≡ false) ⊎ (ip ≢ j)
    → Taken pool j
    → Taken (if free ip then release pool ip else pool) j
release_step free ip j pool why t = elim (Bool-cases (free ip)) [
  | inl e ↦ rw e (release-keeps pool ip j (differ why e) t)
  | inr e ↦ rw e t
]
  where
    differ : (free j ≡ false) ⊎ (ip ≢ j) → free ip ≡ true → ip ≢ j
    differ (inl f) e = λ q. cc
    differ (inr ne) e = ne

release_all-keeps :
    (free : ℕ → Bool) (ips : List ℕ) (j : ℕ) (pool : IpPool)
    → free j ≡ false
    → Taken pool j
    → Taken (release_all free ips pool) j
unfolding release_all
release_all-keeps free [] j pool f t = t
release_all-keeps free (ip ∷ ips) j pool f t =
    release_all-keeps free ips j _ f (release_step free ip j pool (inl f) t)

release_all-absent :
    (free : ℕ → Bool) (ips : List ℕ) (j : ℕ) (pool : IpPool)
    → contains j ips ≡ false
    → Taken pool j
    → Taken (release_all free ips pool) j
unfolding release_all contains
release_all-absent free [] j pool f t = t
release_all-absent free (ip ∷ ips) j pool f t =
    release_all-absent free ips j _ (ground arith)
      (release_step free ip j pool (inr (λ q. ground arith)) t)

contains-addresses :
    (m : Mac) (l : Lease) (leases : Leases)
    → get mac_discrete m leases ≡ some l
    → contains l.ip (map (λ e. e.1.ip) leases) ≡ true
unfolding get contains
contains-addresses m l [] h = cc
contains-addresses m l ((k, v) ∷ leases) h = elim (mac_discrete k m) [
  | yes p ↦ ground arith
  | no p ↦ ground (arith, contains-addresses m l leases)
]

contains-keys :
    (ip : ℕ) (offered : Offers)
    → get dec_ip ip offered ≡ none
    → contains ip (map (λ e. e.0) offered) ≡ false
unfolding get contains
contains-keys ip [] h = refl
contains-keys ip ((j, e) ∷ offered) h = ground (arith, contains-keys ip offered)

-- No lease in the list has run out.
abbrev pub Live : ℕ → Leases → Type 0
Live now leases = (m : Mac) (l : Lease) → get mac_discrete m leases ≡ some l → now < l.expires_at

reclaim_leases-Live :
    (now : ℕ) (s : DhcpServer)
    → Unique mac_discrete s.leases
    → Live now (reclaim_leases now s).leases
unfolding reclaim_leases lease_expired
reclaim_leases-Live now s u m l h =
    let passed = (keep-get mac_discrete (λ e. not (lease_expired now e)) s.leases m l u h).1 in
    ground (arith, passed)

reclaim_leases-IsConsistent :
    (now : ℕ) (s : DhcpServer) → IsConsistent s → IsConsistent (reclaim_leases now s)
unfolding reclaim_leases
reclaim_leases-IsConsistent now s c =
    shrink c (keep-Unique mac_discrete _ s.leases c.leases_unique) c.offers_unique within
      (λ k v h. h)
      (λ m l h.
        release_all-keeps _ _ l.ip s.pool (ground (arith, contains-addresses m l left h))
          (c.lease_taken m l (within m l h)))
      (λ ip e h. release_all-keeps _ _ ip s.pool (ground arith) (c.offer_taken ip e h))
  where
    left : Leases
    left = keep (λ e. not (lease_expired now e)) s.leases

    within : Within mac_discrete left s.leases
    within = keep-Within mac_discrete _ s.leases c.leases_unique

module _ (now : ℕ) (s : DhcpServer) (c : IsConsistent s) where
  left_offers : Offers
  left_offers = keep (λ e. not (offer_expired now e)) s.offered

  kept_offer :
      (ip : ℕ) (e : OfferEntry)
      → get dec_ip ip left_offers ≡ some e
      → (get dec_ip ip s.offered ≡ some e) × (offer_expired now (ip, e) ≡ false)
  unfolding left_offers
  kept_offer ip e h =
      let kept =
        keep-get dec_ip (λ x. not (offer_expired now x)) s.offered ip e c.offers_unique h in
      (kept.0, ground (arith, kept.1))

  -- An offer that stays is not among those that have expired.
  not_expired :
      (ip : ℕ) (e : OfferEntry)
      → get dec_ip ip left_offers ≡ some e
      → contains ip (map (λ x. x.0) (keep (offer_expired now) s.offered)) ≡ false
  not_expired ip e h = contains-keys ip (keep (offer_expired now) s.offered) (
      ground (
        arith,
        kept_offer ip e h,
        get-keep dec_ip (offer_expired now) ip s.offered c.offers_unique,
      ))

  held :
      (m : Mac) (l : Lease)
      → Live now s.leases
      → get mac_discrete m s.leases ≡ some l
      → any (holds l.ip now) s.leases ≡ true
  unfolding holds
  held m l live h =
      any-true mac_discrete (holds l.ip now) m l s.leases h (ground (arith, live m l h))

  reclaim_offers-IsConsistent : Live now s.leases → IsConsistent (reclaim_offers now s)
  unfolding reclaim_offers left_offers
  reclaim_offers-IsConsistent live =
      shrink c c.leases_unique (keep-Unique dec_ip _ s.offered c.offers_unique) (λ k v h. h)
        (λ ip e h. (kept_offer ip e h).0)
        (λ m l h.
          release_all-keeps _ _ l.ip s.pool (ground (arith, held m l live h)) (c.lease_taken m l h))
        (λ ip e h.
          release_all-absent _ _ ip s.pool (not_expired ip e h)
            (c.offer_taken ip e (kept_offer ip e h).0))

-- Reclaiming keeps the claims consistent, whatever the time.
pub reclaim_expired_locked-IsConsistent :
    (now : ℕ) (s : DhcpServer) → IsConsistent s → IsConsistent (reclaim_expired_locked now s)
unfolding reclaim_expired_locked reclaim_declined
reclaim_expired_locked-IsConsistent now s c =
    reclaim_offers-IsConsistent now (reclaim_leases now s) (reclaim_leases-IsConsistent now s c)
      (reclaim_leases-Live now s c.leases_unique)
