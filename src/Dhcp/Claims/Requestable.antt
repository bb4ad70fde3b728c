-- ===== src/Dhcp/Claims/Requestable.antt =====
-- What `can_client_request` admits: the requests of an address by its only holder.
use nimbusdns.Common.{
  ℕ, ◌≤◌, ◌<◌, ◌≡◌, refl, sym, ◌∙◌, ap, subst, ◌⊎◌, inl, inr, Bool, true, false, ◌&&◌, Option, none,
  some, arith, Bool-cases,
}
use nimbusdns.Common.Map.{get}
use nimbusdns.Common.Sets.{contains}
use nimbusdns.Dhcp.Pool.Scan.{Taken}
use nimbusdns.Dhcp.Lease.{can_client_request, quarantined, leased, offered_to}
use nimbusdns.Dhcp.Types.{Mac, mac_discrete, same_mac, Lease, OfferEntry, DhcpServer, dec_ip}
use nimbusdns.Dhcp.Claims.{IsConsistent}

pub same_mac-eq : (a b : Mac) → same_mac a b ≡ true → a ≡ b
same_mac-eq a b h = elim (mac_discrete a b) [ yes p ↦ p | no n ↦ absurd (ground arith) ]

pub same_mac_refl : (a : Mac) → same_mac a a ≡ true
same_mac_refl a = elim (mac_discrete a a) [ yes p ↦ ground arith | no n ↦ absurd (n refl) ]

and-left : (a b : Bool) → (a && b) ≡ true → a ≡ true
and-left a b h = ground arith

-- The client holds the address by a lease that has not run out.
abbrev pub HasLease : DhcpServer → Mac → ℕ → ℕ → Type 0
HasLease s mac ip now =
    (l : Lease) × (get mac_discrete mac s.leases ≡ some l) × (l.ip ≡ ip) × (now < l.expires_at)

-- The address is on offer to the client.
abbrev pub HasOffer : DhcpServer → Mac → ℕ → ℕ → Type 0
HasOffer s mac ip now =
    (expiry : ℕ) × (get dec_ip ip s.offered ≡ some (expiry, mac)) × (now < expiry)

leased-true :
    (o : Option Lease) (ip now : ℕ)
    → leased o ip now ≡ true
    → (l : Lease) × (o ≡ some l) × (l.ip ≡ ip) × (now < l.expires_at)
unfolding leased
leased-true none ip now h = cc
leased-true (some l) ip now h = (l, refl, ground arith, ground arith)

offered_to-true :
    (o : Option OfferEntry) (mac : Mac) (now : ℕ)
    → offered_to o mac now ≡ true
    → (expiry : ℕ) × (o ≡ some (expiry, mac)) × (now < expiry)
unfolding offered_to
offered_to-true none mac now h = cc
offered_to-true (some (expiry, m)) mac now h =
    (expiry, ap (λ x. some (expiry, x)) (same_mac-eq m mac (and-left _ _ h)), ground arith)

quarantined-false :
    (o : Option ℕ) (now until : ℕ) → quarantined o now ≡ false → o ≡ some until → until ≤ now
unfolding quarantined
quarantined-false none now until h e = cc
quarantined-false (some u) now until h e = ground arith

allowed_claim :
    (s : DhcpServer) (mac : Mac) (ip now : ℕ)
    → can_client_request s mac ip now ≡ true
    → (contains ip s.excluded ≡ false)
      × (quarantined (get dec_ip ip s.declined) now ≡ false)
      × ((leased (get mac_discrete mac s.leases) ip now ≡ true)
          ⊎ (offered_to (get dec_ip ip s.offered) mac now ≡ true))
unfolding can_client_request
allowed_claim s mac ip now h = elim (Bool-cases (leased (get mac_discrete mac s.leases) ip now)) [
  | inl e ↦ (ground arith, ground arith, inl e)
  | inr e ↦ (ground arith, ground arith, inr (ground arith))
]

pub claim_of_request :
    (s : DhcpServer) (mac : Mac) (ip now : ℕ)
    → can_client_request s mac ip now ≡ true
    → HasLease s mac ip now ⊎ HasOffer s mac ip now
claim_of_request s mac ip now h = elim ((allowed_claim s mac ip now h).2) [
  | inl e ↦ inl (leased-true (get mac_discrete mac s.leases) ip now e)
  | inr e ↦ inr (offered_to-true (get dec_ip ip s.offered) mac now e)
]

-- A client may request only what it has on lease or on offer, and no address that is excluded or in
-- quarantine.
pub can_client_request_sound :
    (s : DhcpServer) (mac : Mac) (ip now : ℕ)
    → can_client_request s mac ip now ≡ true
    → (contains ip s.excluded ≡ false)
      × ((until : ℕ) → get dec_ip ip s.declined ≡ some until → until ≤ now)
      × (HasLease s mac ip now ⊎ HasOffer s mac ip now)
can_client_request_sound s mac ip now h =
    let a = allowed_claim s mac ip now h in
    (a.0, λ until e. quarantined-false _ now until a.1 e, claim_of_request s mac ip now h)

-- Who may request an address is its only holder.
module _ (s : DhcpServer) (c : IsConsistent s) (mac : Mac) (ip now : ℕ) where
  pub only_holder :
      can_client_request s mac ip now ≡ true
      → (m : Mac) (l : Lease) → get mac_discrete m s.leases ≡ some l
      → l.ip ≡ ip
      → m ≡ mac
  only_holder h m l hl q = elim (claim_of_request s mac ip now h) [
    | inl (l', hl', q', _) ↦ c.one_holder m mac l l' hl hl' (q ∙ sym q')
    | inr (expiry, ho, _) ↦ sym (c.offer_holder ip (expiry, mac) m l ho hl q)
  ]

  pub only_offer :
      can_client_request s mac ip now ≡ true
      → (e : OfferEntry) → get dec_ip ip s.offered ≡ some e
      → e.1 ≡ mac
  only_offer h e he = elim (claim_of_request s mac ip now h) [
    | inl (l, hl, q, _) ↦ c.offer_holder ip e mac l he hl q
    | inr (expiry, ho, _) ↦ same_entry e expiry (sym he ∙ ho)
  ]
    where
      same_entry : (e : OfferEntry) (expiry : ℕ) → some e ≡ some (expiry, mac) → e.1 ≡ mac
      same_entry e expiry q = ground arith

  pub in_pool :
      can_client_request s mac ip now ≡ true → Taken s.pool ip × (contains ip s.excluded ≡ false)
  in_pool h = elim (claim_of_request s mac ip now h) [
    | inl (l, hl, q, _) ↦
        (subst (Taken s.pool) q (c.lease_taken mac l hl), (allowed_claim s mac ip now h).0)
    | inr (expiry, ho, _) ↦ (c.offer_taken ip (expiry, mac) ho, (allowed_claim s mac ip now h).0)
  ]
