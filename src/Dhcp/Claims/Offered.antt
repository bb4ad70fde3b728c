-- ===== src/Dhcp/Claims/Offered.antt =====
-- DISCOVER keeps the claims consistent: what it offers may be offered.
use nimbusdns.Common.{
  ℕ, ◌+◌, ◌≡◌, refl, sym, ◌∙◌, subst, inl, inr, true, false, Option, none, some, find, arith,
  Option-cases, All-find, find-true,
}
use nimbusdns.Common.Iteration.{Iteration}
use nimbusdns.Common.Map.{get, get-insert_self}
use nimbusdns.Common.Sets.{contains, contains-add}
use nimbusdns.Dhcp.Pool.{IpPool, in_range, next_available}
use nimbusdns.Dhcp.Pool.Scan.{Taken, next_available-some, next_available-keeps}
use nimbusdns.Dhcp.Process.{
  live_address, offered_entry, reserve, reserve_new, pick_address, offer_address, handle_discover,
}
use nimbusdns.Dhcp.Reply.{build_offer}
use mathlib.Core.Option.{none-ne-some, some-injective}
use nimbusdns.Dhcp.Types.{Reply, Mac, mac_discrete, Lease, OfferEntry, DhcpServer, dec_ip, Message}
use nimbusdns.Dhcp.Claims.{IsConsistent, shrink, add_offer}
use nimbusdns.Dhcp.Claims.Requestable.{same_mac-eq}

-- An address that may be offered to the client: in the pool, allocated, not excluded, and leased to
-- nobody else.
pub record Reservable (s : DhcpServer) (mac : Mac) (ip : ℕ) : Type 0 where
  pub taken : Taken s.pool ip
  pub allowed : contains ip s.excluded ≡ false
  pub own : (m : Mac) (l : Lease) → get mac_discrete m s.leases ≡ some l → l.ip ≡ ip → mac ≡ m

pub reserve-IsConsistent :
    (s : DhcpServer) (mac : Mac) (now ip : ℕ)
    → IsConsistent s
    → Reservable s mac ip
    → IsConsistent (reserve s mac now ip)
unfolding reserve
reserve-IsConsistent s mac now ip c r = add_offer ip _ c r.own r.taken r.allowed

reserve-Reservable :
    (s : DhcpServer) (mac : Mac) (now ip : ℕ)
    → Reservable s mac ip
    → Reservable (reserve s mac now ip) mac ip
unfolding reserve
reserve-Reservable s mac now ip r = record { taken = r.taken; allowed = r.allowed; own = r.own }

module _ (s : DhcpServer) (c : IsConsistent s) (mac : Mac) (now : ℕ) where
  leased_address :
      (ip : ℕ)
      → live_address (get mac_discrete mac s.leases) now ≡ some ip
      → (l : Lease) × (get mac_discrete mac s.leases ≡ some l) × (l.ip ≡ ip)
  unfolding live_address
  leased_address ip h = elim (Option-cases (get mac_discrete mac s.leases)) [
    | inl e ↦ absurd (ground arith)
    | inr (l, e) ↦ (l, e, ground arith)
  ]

  lease-Reservable :
      (ip : ℕ) (l : Lease)
      → get mac_discrete mac s.leases ≡ some l
      → l.ip ≡ ip
      → Reservable s mac ip
  lease-Reservable ip l h q = record {
    taken = subst (Taken s.pool) q (c.lease_taken mac l h);
    allowed = subst (λ x. contains x s.excluded ≡ false) q (c.lease_allowed mac l h);
    own = λ m l' h' q'. c.one_holder mac m l l' h h' (q ∙ sym q');
  }

  offer-Reservable :
      (ip : ℕ) (e : OfferEntry) → get dec_ip ip s.offered ≡ some e → e.1 ≡ mac → Reservable s mac ip
  offer-Reservable ip e h q = record {
    taken = c.offer_taken ip e h;
    allowed = c.offer_allowed ip e h;
    own = λ m l h' q'. sym q ∙ c.offer_holder ip e m l h h' q';
  }

  drawn : DhcpServer
  drawn = record s { pool = (next_available s.pool s.excluded).1 }

  drawn-IsConsistent : IsConsistent drawn
  unfolding drawn
  drawn-IsConsistent =
      shrink c c.leases_unique c.offers_unique (λ k v h. h) (λ k v h. h)
        (λ m l h. next_available-keeps s.pool s.excluded l.ip (c.lease_taken m l h))
        (λ ip e h. next_available-keeps s.pool s.excluded ip (c.offer_taken ip e h))

  -- An address drawn from the pool is leased to nobody, for every leased address is allocated.
  drawn-Reservable :
      (ip : ℕ) → (next_available s.pool s.excluded).0 ≡ some ip → Reservable drawn mac ip
  unfolding drawn in_range
  drawn-Reservable ip h =
      let (range, free, _, pool) = next_available-some s.pool s.excluded ip h in
      record {
        taken = rw pool (range, ground (arith, contains-add ip ip s.pool.allocated));
        allowed = ground (arith, free);
        own = λ m l hl q.
            let held = subst (λ x. contains x s.pool.allocated ≡ true) q (c.lease_taken m l hl).1 in
            absurd (ground (arith, free, held));
      }

module _ (walk : Iteration dec_ip OfferEntry) (s : DhcpServer) (c : IsConsistent s) (mac : Mac)
    (now : ℕ) where
  -- An address that is on offer to the client, as the walk over the offers finds it.
  found_offer :
      (ip : ℕ) (e : OfferEntry)
      → find (offered_entry mac now) (walk.iter s.offered) ≡ some (ip, e)
      → (get dec_ip ip s.offered ≡ some e) × (e.1 ≡ mac)
  unfolding offered_entry
  found_offer ip e h =
      let seen = find-true (offered_entry mac now) (walk.iter s.offered) (ip, e) h in
      (
        All-find _ (offered_entry mac now) (walk.iter s.offered) (ip, e)
            (walk.visits s.offered c.offers_unique) h,
        same_mac-eq e.1 mac (ground (arith, seen)),
      )

  -- What `pick_address` leaves: consistent claims, and an address that may be offered.
  abbrev Picked : Option ℕ × DhcpServer → Type 0
  Picked r = IsConsistent r.1 × ((ip : ℕ) → r.0 ≡ some ip → Reservable r.1 mac ip)

  reserve_pick_one :
      (r : DhcpServer) (ip : ℕ) → IsConsistent r → Reservable r mac ip → Picked (some ip, r)
  reserve_pick_one r ip cr h =
      (cr, λ j q. let e : ip ≡ j = ground arith in subst (Reservable r mac) e h)

  abbrev draw : Option ℕ × IpPool
  draw = next_available s.pool s.excluded

  reserve_new-Picked : Picked (reserve_new s mac now draw)
  unfolding reserve_new drawn
  reserve_new-Picked = elim (Option-cases draw.0) [
    | inl e ↦
        let q : reserve_new s mac now draw ≡ (none, s) = rw (e, reserve_new) refl in
        subst Picked (sym q) (c, λ ip h. absurd (ground arith))
    | inr (ip, e) ↦
        let s' : DhcpServer = drawn s c mac now in
        let q : reserve_new s mac now draw ≡ (some ip, reserve s' mac now ip) =
          rw (e, reserve_new) refl in
        let r = drawn-Reservable s c mac now ip e in
        subst Picked (sym q) (
          reserve_pick_one _ ip
            (reserve-IsConsistent s' mac now ip (drawn-IsConsistent s c mac now) r)
            (reserve-Reservable s' mac now ip r))
  ]

  offered-Picked :
      live_address (get mac_discrete mac s.leases) now ≡ none → Picked (pick_address walk s mac now)
  unfolding pick_address
  offered-Picked e = elim (Option-cases (find (offered_entry mac now) (walk.iter s.offered))) [
    | inl e' ↦
        let q : pick_address walk s mac now
            ≡ reserve_new s mac now (next_available s.pool s.excluded) =
          rw (e, e', pick_address) refl in
        subst Picked (sym q) reserve_new-Picked
    | inr ((a, entry), e') ↦
        let q : pick_address walk s mac now ≡ (some a, reserve s mac now a) =
          rw (e, e', pick_address) refl in
        let f = found_offer a entry e' in
        let r = offer-Reservable s c mac now a entry f.0 f.1 in
        subst Picked (sym q) (
          reserve_pick_one _ a (reserve-IsConsistent s mac now a c r)
            (reserve-Reservable s mac now a r))
  ]

  pick_address-Picked : Picked (pick_address walk s mac now)
  unfolding pick_address
  pick_address-Picked = elim (Option-cases (live_address (get mac_discrete mac s.leases) now)) [
    | inl e ↦ offered-Picked e
    | inr (a, e) ↦
        let q : pick_address walk s mac now ≡ (some a, s) = rw (e, pick_address) refl in
        let (l, hl, ql) = leased_address s c mac now a e in
        subst Picked (sym q) (reserve_pick_one s a c (lease-Reservable s c mac now a l hl ql))
  ]

  pub handle_discover-IsConsistent :
      (msg : Message) → IsConsistent (handle_discover walk s msg mac now).0
  unfolding handle_discover offer_address
  handle_discover-IsConsistent msg = elim (Option-cases (pick_address walk s mac now).0) [
    | inl e ↦
        let q : handle_discover walk s msg mac now ≡ ((pick_address walk s mac now).1, none) =
          rw (e, offer_address) refl in
        subst (λ r. IsConsistent r.0) (sym q) pick_address-Picked.0
    | inr (ip, e) ↦
        let s' : DhcpServer = (pick_address walk s mac now).1 in
        let q : (handle_discover walk s msg mac now).0 ≡ reserve s' mac now ip =
          rw (e, offer_address) refl in
        subst IsConsistent (sym q)
          (reserve-IsConsistent s' mac now ip pick_address-Picked.0 (pick_address-Picked.1 ip e))
  ]

  -- What an OFFER stands for: a reservation of an address that may be offered.
  abbrev pub Offers : DhcpServer × Option Reply → Type 0
  Offers r =
      (reply : Reply)
      → r.1 ≡ some reply
      → (get dec_ip reply.yiaddr r.0.offered ≡ some (now + 30, mac))
        × Reservable r.0 mac reply.yiaddr

  offer_reserved :
      (s' : DhcpServer) (ip : ℕ) (msg : Message)
      → Reservable (reserve s' mac now ip) mac ip
      → Offers (reserve s' mac now ip, some (build_offer msg ip s'))
  unfolding build_offer reserve
  offer_reserved s' ip msg r reply h =
      subst
        (λ (x : Reply).
          (get dec_ip x.yiaddr (reserve s' mac now ip).offered ≡ some (now + 30, mac))
          × Reservable (reserve s' mac now ip) mac x.yiaddr)
        (some-injective (build_offer msg ip s') reply h)
        (get-insert_self dec_ip ip (now + 30, mac) s'.offered, r)

  pub handle_discover-Offers : (msg : Message) → Offers (handle_discover walk s msg mac now)
  unfolding handle_discover offer_address
  handle_discover-Offers msg = elim (Option-cases (pick_address walk s mac now).0) [
    | inl e ↦
        let q : handle_discover walk s msg mac now ≡ ((pick_address walk s mac now).1, none) =
          rw (e, offer_address) refl in
        subst Offers (sym q) (λ reply h. absurd (none-ne-some reply h))
    | inr (ip, e) ↦
        let s' : DhcpServer = (pick_address walk s mac now).1 in
        let q : handle_discover walk s msg mac now
            ≡ (reserve s' mac now ip, some (build_offer msg ip s')) =
          rw (e, offer_address) refl in
        subst Offers (sym q)
          (offer_reserved s' ip msg (reserve-Reservable s' mac now ip (pick_address-Picked.1 ip e)))
  ]
