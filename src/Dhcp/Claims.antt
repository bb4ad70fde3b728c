-- ===== src/Dhcp/Claims.antt =====
-- The server's claims on addresses (leases and offers) agree with each other, with the pool and with
-- the excluded addresses; and the changes of the state that keep them so.
pub mod Reclaimed
pub mod Requestable
pub mod Committed
pub mod Granted
pub mod Offered
pub mod Transaction
use nimbusdns.Common.{ℕ, ◌≡◌, sym, ◌∙◌, ap, subst, true, false, some, List, ◌≢◌, arith, inl, inr}
use nimbusdns.Common.Map.{get, insert, Unique, insert-Unique, insert-cases, Within}
use nimbusdns.Common.Sets.{contains, add, contains-add}
use nimbusdns.Dhcp.Pool.{IpPool, in_range, mark_allocated}
use nimbusdns.Dhcp.Pool.Scan.{Taken, mark_allocated-Taken, mark_allocated-keeps}
use nimbusdns.Dhcp.Types.{Mac, mac_discrete, Lease, OfferEntry, DhcpServer, dec_ip}

abbrev pub Leases : Type 0
Leases = List (Mac × Lease)

abbrev pub Offers : Type 0
Offers = List (ℕ × OfferEntry)

pub record Consistent (leases : Leases) (offered : Offers) (pool : IpPool) (excluded : List ℕ)
    : Type 0 where
  pub leases_unique : Unique mac_discrete leases
  pub offers_unique : Unique dec_ip offered
  -- No address is leased to two clients.
  pub one_holder :
      (m m' : Mac) (l l' : Lease)
      → get mac_discrete m leases ≡ some l
      → get mac_discrete m' leases ≡ some l'
      → l.ip ≡ l'.ip
      → m ≡ m'
  -- An address that is offered is leased to nobody else.
  pub offer_holder :
      (ip : ℕ) (e : OfferEntry) (m : Mac) (l : Lease)
      → get dec_ip ip offered ≡ some e
      → get mac_discrete m leases ≡ some l
      → l.ip ≡ ip
      → e.1 ≡ m
  -- Leased and offered addresses lie in the pool, are allocated, and are not excluded.
  pub lease_taken : (m : Mac) (l : Lease) → get mac_discrete m leases ≡ some l → Taken pool l.ip
  pub offer_taken : (ip : ℕ) (e : OfferEntry) → get dec_ip ip offered ≡ some e → Taken pool ip
  pub lease_allowed :
      (m : Mac) (l : Lease) → get mac_discrete m leases ≡ some l → contains l.ip excluded ≡ false
  pub offer_allowed :
      (ip : ℕ) (e : OfferEntry) → get dec_ip ip offered ≡ some e → contains ip excluded ≡ false

abbrev pub IsConsistent : DhcpServer → Type 0
IsConsistent s = Consistent s.leases s.offered s.pool s.excluded

module _ {leases : Leases} {offered : Offers} {pool : IpPool} {excluded : List ℕ} where
  -- Claims may be given up, and addresses that nobody claims may be released.
  pub shrink :
      {leases' : Leases} {offered' : Offers} {pool' : IpPool}
      → Consistent leases offered pool excluded
      → Unique mac_discrete leases'
      → Unique dec_ip offered'
      → Within mac_discrete leases' leases
      → Within dec_ip offered' offered
      → ((m : Mac) (l : Lease) → get mac_discrete m leases' ≡ some l → Taken pool' l.ip)
      → ((ip : ℕ) (e : OfferEntry) → get dec_ip ip offered' ≡ some e → Taken pool' ip)
      → Consistent leases' offered' pool' excluded
  shrink c ul uo wl wo tl to = record {
    leases_unique = ul;
    offers_unique = uo;
    one_holder = λ m m' l l' h h'. c.one_holder m m' l l' (wl m l h) (wl m' l' h');
    offer_holder = λ ip e m l h h'. c.offer_holder ip e m l (wo ip e h) (wl m l h');
    lease_taken = tl;
    offer_taken = to;
    lease_allowed = λ m l h. c.lease_allowed m l (wl m l h);
    offer_allowed = λ ip e h. c.offer_allowed ip e (wo ip e h);
  }

  -- An offer of an address that no other client holds.
  pub add_offer :
      (ip : ℕ) (e : OfferEntry)
      → Consistent leases offered pool excluded
      → ((m : Mac) (l : Lease) → get mac_discrete m leases ≡ some l → l.ip ≡ ip → e.1 ≡ m)
      → Taken pool ip
      → contains ip excluded ≡ false
      → Consistent leases (insert dec_ip ip e offered) pool excluded
  add_offer ip e c own taken allowed = record {
    leases_unique = c.leases_unique;
    offers_unique = insert-Unique dec_ip ip e offered c.offers_unique;
    one_holder = c.one_holder;
    offer_holder = λ j e' m l h h' q. elim (insert-cases dec_ip ip e offered j e' h) [
      | inl (p, v) ↦ subst (λ x. x.1 ≡ m) v (own m l h' (q ∙ sym p))
      | inr (_, old) ↦ c.offer_holder j e' m l old h' q
    ];
    lease_taken = c.lease_taken;
    offer_taken = λ j e' h. elim (insert-cases dec_ip ip e offered j e' h) [
      | inl (p, _) ↦ subst (Taken pool) p taken
      | inr (_, old) ↦ c.offer_taken j e' old
    ];
    lease_allowed = c.lease_allowed;
    offer_allowed = λ j e' h. elim (insert-cases dec_ip ip e offered j e' h) [
      | inl (p, _) ↦ subst (λ x. contains x excluded ≡ false) p allowed
      | inr (_, old) ↦ c.offer_allowed j e' old
    ];
  }

  -- A lease of an address that no other client holds or is offered.
  pub add_lease :
      (m : Mac) (l : Lease)
      → Consistent leases offered pool excluded
      → ((m' : Mac) (l' : Lease) → get mac_discrete m' leases ≡ some l' → l'.ip ≡ l.ip → m' ≡ m)
      → ((e : OfferEntry) → get dec_ip l.ip offered ≡ some e → e.1 ≡ m)
      → in_range pool l.ip ≡ true
      → contains l.ip excluded ≡ false
      → Consistent (insert mac_discrete m l leases) offered (mark_allocated pool l.ip) excluded
  add_lease m l c own offer range allowed = record {
    leases_unique = insert-Unique mac_discrete m l leases c.leases_unique;
    offers_unique = c.offers_unique;
    one_holder = λ m1 m2 l1 l2 h1 h2 q. elim (insert-cases mac_discrete m l leases m1 l1 h1) [
      | inl (p1, v1) ↦ elim (insert-cases mac_discrete m l leases m2 l2 h2) [
        | inl (p2, v2) ↦ sym p1 ∙ p2
        | inr (_, old2) ↦ sym p1 ∙ sym (own m2 l2 old2 (sym q ∙ ap (λ x. x.ip) (sym v1)))
      ]
      | inr (_, old1) ↦ elim (insert-cases mac_discrete m l leases m2 l2 h2) [
        | inl (p2, v2) ↦ own m1 l1 old1 (q ∙ ap (λ x. x.ip) (sym v2)) ∙ p2
        | inr (_, old2) ↦ c.one_holder m1 m2 l1 l2 old1 old2 q
      ]
    ];
    offer_holder = λ ip e m1 l1 h h1 q. elim (insert-cases mac_discrete m l leases m1 l1 h1) [
      | inl (p, v) ↦
          let at : l.ip ≡ ip = ap (λ x. x.ip) v ∙ q in
          offer e (subst (λ x. get dec_ip x offered ≡ some e) (sym at) h) ∙ p
      | inr (_, old) ↦ c.offer_holder ip e m1 l1 h old q
    ];
    lease_taken = λ m1 l1 h1. elim (insert-cases mac_discrete m l leases m1 l1 h1) [
      | inl (_, v) ↦
          subst (λ x. Taken (mark_allocated pool l.ip) x.ip) v
            (mark_allocated-Taken pool l.ip range)
      | inr (_, old) ↦ mark_allocated-keeps pool l.ip l1.ip (c.lease_taken m1 l1 old)
    ];
    offer_taken = λ ip e h. mark_allocated-keeps pool l.ip ip (c.offer_taken ip e h);
    lease_allowed = λ m1 l1 h1. elim (insert-cases mac_discrete m l leases m1 l1 h1) [
      | inl (_, v) ↦ subst (λ x. contains x.ip excluded ≡ false) v allowed
      | inr (_, old) ↦ c.lease_allowed m1 l1 old
    ];
    offer_allowed = c.offer_allowed;
  }

  -- The exclusion of an address that nobody claims any more.
  pub exclude :
      (ip : ℕ)
      → Consistent leases offered pool excluded
      → ((m : Mac) (l : Lease) → get mac_discrete m leases ≡ some l → ip ≢ l.ip)
      → ((e : OfferEntry) → get dec_ip ip offered ≢ some e)
      → Consistent leases offered pool (add ip excluded)
  exclude ip c no_lease no_offer = record {
    leases_unique = c.leases_unique;
    offers_unique = c.offers_unique;
    one_holder = c.one_holder;
    offer_holder = c.offer_holder;
    lease_taken = c.lease_taken;
    offer_taken = c.offer_taken;
    lease_allowed = λ m l h. allowed_again l.ip (no_lease m l h) (c.lease_allowed m l h);
    offer_allowed = λ j e h.
        allowed_again j (λ p. no_offer e (subst (λ x. get dec_ip x offered ≡ some e) (sym p) h))
          (c.offer_allowed j e h);
  }
    where
      allowed_again :
          (j : ℕ) → ip ≢ j → contains j excluded ≡ false → contains j (add ip excluded) ≡ false
      allowed_again j ne old = ground (arith, contains-add j ip excluded)
