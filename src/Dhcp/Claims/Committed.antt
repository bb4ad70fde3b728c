-- ===== src/Dhcp/Claims/Committed.antt =====
-- The commit of a lease, RELEASE and DECLINE keep the claims consistent.
use Prim.Native.String.{String}
use mathlib.Core.Option
use nimbusdns.Common.{
  ℕ, ◌≡◌, refl, sym, ◌∙◌, ap, subst, ◌≢◌, inl, inr, Bool, true, false, not, ◌&&◌, Option, none,
  some, List, any, keep, ◌==◌, is_some, arith, Bool-cases, Option-cases, if◌then◌else◌,
}
use nimbusdns.Common.Map.{
  get, insert, remove, insert-cases, remove-ne, remove-Within, remove-Unique, keep-Unique, keep-get,
}
use nimbusdns.Common.Sets.{contains, add}
use nimbusdns.Dhcp.Pool.{IpPool, in_range, mark_allocated}
use nimbusdns.Dhcp.Pool as Pool
use nimbusdns.Dhcp.Pool.Scan.{Taken, mark_allocated-keeps, release-keeps}
use nimbusdns.Dhcp.Lease.{
  holds, conflicts, release_old, try_commit_lease, can_client_request, persist_lease,
  delete_persisted_lease, handle_decline,
}
use nimbusdns.Dhcp.Process.{owns, handle_release, finish_request}
use nimbusdns.Dhcp.Types.{
  Mac, mac_discrete, same_mac, Lease, OfferEntry, DhcpServer, dec_ip, Message,
}
use nimbusdns.Dhcp.Claims.{Leases, Offers, Consistent, IsConsistent, shrink, add_lease, exclude}
use nimbusdns.Dhcp.Claims.Requestable.{same_mac_refl, only_holder, only_offer, in_pool}

-- Nobody claims the address.
abbrev Unclaimed : Leases → Offers → ℕ → Type 0
Unclaimed leases offered a =
    ((m : Mac) (l : Lease) → get mac_discrete m leases ≡ some l → a ≢ l.ip)
    × ((e : OfferEntry) → get dec_ip a offered ≢ some e)

-- An address that nobody claims may go back to the pool.
release-Consistent :
    {leases : Leases} {offered : Offers} {pool : IpPool} {excluded : List ℕ} (a : ℕ)
    → Consistent leases offered pool excluded
    → Unclaimed leases offered a
    → Consistent leases offered (Pool.release pool a) excluded
release-Consistent {offered} {pool} a c free =
    shrink c c.leases_unique c.offers_unique (λ k v h. h) (λ k v h. h)
      (λ m l h. release-keeps pool a l.ip (free.0 m l h) (c.lease_taken m l h))
      (λ ip e h.
        release-keeps pool a ip
          (λ q. free.1 e (subst (λ x. get dec_ip x offered ≡ some e) (sym q) h))
          (c.offer_taken ip e h))

release_old-IsConsistent :
    (s : DhcpServer) (o : Option ℕ) (ip now : ℕ)
    → IsConsistent s
    → ((old : ℕ)
        → o ≡ some old
        → old ≢ ip
        → (m : Mac) (l : Lease) → get mac_discrete m s.leases ≡ some l
        → old ≢ l.ip)
    → IsConsistent (release_old s o ip now)
unfolding release_old
release_old-IsConsistent s none ip now c free = c
release_old-IsConsistent s (some old) ip now c free =
    elim (Bool-cases (
      not (old == ip)
      && not (any (holds old now) s.leases)
      && not (is_some (get dec_ip old s.offered))
      && not (contains old s.excluded))) [
        | inl t ↦
            rw t (release-Consistent old c (free old refl (ground arith), λ e h. ground arith))
        | inr f ↦ rw f c
      ]

module _ (s : DhcpServer) (c : IsConsistent s) (mac : Mac) (ip expires : ℕ)
    (hostname : Option String) (t1 t3 : ℕ) (allowed : can_client_request s mac ip t1 ≡ true) where
  committed : Lease
  committed = record {
    ip = ip;
    mac = mac;
    hostname = hostname;
    vendor = none;
    expires_at = expires;
  }

  with_commit : DhcpServer
  with_commit = record s {
    leases = insert mac_discrete mac committed s.leases;
    pool = mark_allocated s.pool ip;
  }

  with_lease : IsConsistent with_commit
  unfolding committed with_commit
  with_lease =
      let pool = in_pool s c mac ip t1 allowed in
      add_lease mac committed c (only_holder s c mac ip t1 allowed)
        (only_offer s c mac ip t1 allowed) pool.0.0 pool.1

  -- The address that the client gives up has no other holder.
  old_unheld :
      (old : ℕ)
      → Option.map (λ l. l.ip) (get mac_discrete mac s.leases) ≡ some old
      → old ≢ ip
      → (m : Mac) (l : Lease) → get mac_discrete m with_commit.leases ≡ some l
      → old ≢ l.ip
  unfolding committed with_commit
  old_unheld old o ne m l h q = elim (insert-cases mac_discrete mac committed s.leases m l h) [
    | inl (_, v) ↦ ne (q ∙ ap (λ x. x.ip) (sym v))
    | inr (other, had) ↦ elim (Option-cases (get mac_discrete mac s.leases)) [
      | inl e ↦ absurd (ground arith)
      | inr (l0, e) ↦ other (c.one_holder mac m l0 l e had (ground arith))
    ]
  ]

  pub try_commit_lease-IsConsistent : IsConsistent (try_commit_lease s mac ip expires hostname t3).0
  unfolding try_commit_lease committed with_commit
  try_commit_lease-IsConsistent = elim (Bool-cases (any (conflicts mac ip t3) s.leases)) [
    | inl t ↦ rw t c
    | inr f ↦ rw f (release_old-IsConsistent with_commit _ ip t3 with_lease old_unheld)
  ]

pub finish_request-IsConsistent :
    (msg : Message) (mac : Mac) (ip : ℕ) (hostname : Option String) (expires : ℕ)
    (r : DhcpServer × Bool)
    → IsConsistent r.0
    → IsConsistent (finish_request msg mac ip hostname expires r).0
unfolding finish_request persist_lease
finish_request-IsConsistent msg mac ip hostname expires (s, false) c = c
finish_request-IsConsistent msg mac ip hostname expires (s, true) c =
    shrink c c.leases_unique (remove-Unique dec_ip ip s.offered c.offers_unique) (λ k v h. h)
      (remove-Within dec_ip ip s.offered)
      (λ m l h. mark_allocated-keeps s.pool ip l.ip (c.lease_taken m l h))
      (λ j e h.
        mark_allocated-keeps s.pool ip j
          (c.offer_taken j e (remove-Within dec_ip ip s.offered j e h)))

module _ (s : DhcpServer) (c : IsConsistent s) (mac : Mac) where
  owns-lease :
      (ip : ℕ)
      → owns (get mac_discrete mac s.leases) ip ≡ true
      → (l : Lease) × (get mac_discrete mac s.leases ≡ some l) × (l.ip ≡ ip)
  unfolding owns
  owns-lease ip h = elim (Option-cases (get mac_discrete mac s.leases)) [
    | inl e ↦ absurd (ground arith)
    | inr (l, e) ↦ (l, e, ground arith)
  ]

  -- Without the client's lease and offers nobody claims its address.
  module _ (ip : ℕ) (l0 : Lease) (had : get mac_discrete mac s.leases ≡ some l0)
      (at : l0.ip ≡ ip) where
    other_lease :
        (m : Mac) (l : Lease)
        → get mac_discrete m (remove mac_discrete mac s.leases) ≡ some l
        → ip ≢ l.ip
    other_lease m l h q =
        let r = remove-ne mac_discrete mac s.leases m l h in
        r.0 (c.one_holder mac m l0 l had r.1 (at ∙ q))

    kept_offer :
        (j : ℕ) (e : OfferEntry)
        → get dec_ip j (keep (λ x. not (same_mac x.1.1 mac)) s.offered) ≡ some e
        → (get dec_ip j s.offered ≡ some e) × (ip ≢ j)
    kept_offer j e h =
        let r = keep-get dec_ip (λ x. not (same_mac x.1.1 mac)) s.offered j e c.offers_unique h in
        (
          r.0,
          λ q.
              let own : e.1 ≡ mac = c.offer_holder j e mac l0 r.0 had (at ∙ q) in
              let same : same_mac e.1 mac ≡ true =
                subst (λ x. same_mac x mac ≡ true) (sym own) (same_mac_refl mac) in
              absurd (ground (arith, r.1)),
        )

    released :
        Consistent
          (remove mac_discrete mac s.leases)
          (keep (λ x. not (same_mac x.1.1 mac)) s.offered)
          (if contains ip s.excluded then s.pool else Pool.release s.pool ip)
          s.excluded
    released =
        shrink c (remove-Unique mac_discrete mac s.leases c.leases_unique)
          (keep-Unique dec_ip _ s.offered c.offers_unique) (remove-Within mac_discrete mac s.leases)
          (λ j e h. (kept_offer j e h).0)
          (λ m l h.
            still l.ip (other_lease m l h)
              (c.lease_taken m l (remove-Within mac_discrete mac s.leases m l h)))
          (λ j e h. still j (kept_offer j e h).1 (c.offer_taken j e (kept_offer j e h).0))
      where
        still :
            (j : ℕ)
            → ip ≢ j
            → Taken s.pool j
            → Taken (if contains ip s.excluded then s.pool else Pool.release s.pool ip) j
        still j ne t = elim (Bool-cases (contains ip s.excluded)) [
          | inl e ↦ rw e t
          | inr e ↦ rw e (release-keeps s.pool ip j ne t)
        ]

  pub handle_release-IsConsistent : (msg : Message) → IsConsistent (handle_release s msg mac)
  unfolding handle_release delete_persisted_lease
  handle_release-IsConsistent msg =
      elim (Bool-cases (owns (get mac_discrete mac s.leases) msg.ciaddr && not (msg.ciaddr == 0))) [
        | inl t ↦
            let (l0, had, at) = owns-lease msg.ciaddr (ground arith) in
            rw t (released msg.ciaddr l0 had at)
        | inr f ↦ rw f c
      ]

  -- The address of a DECLINE loses its claims and is excluded.
  declined :
      (ip now : ℕ)
      → can_client_request s mac ip now ≡ true
      → Consistent
          (remove mac_discrete mac s.leases)
          (remove dec_ip ip s.offered)
          (mark_allocated s.pool ip)
          (add ip s.excluded)
  declined ip now allowed =
      exclude ip
        (shrink c (remove-Unique mac_discrete mac s.leases c.leases_unique)
          (remove-Unique dec_ip ip s.offered c.offers_unique)
          (remove-Within mac_discrete mac s.leases) (remove-Within dec_ip ip s.offered)
          (λ m l h.
            mark_allocated-keeps s.pool ip l.ip
              (c.lease_taken m l (remove-Within mac_discrete mac s.leases m l h)))
          (λ j e h.
            mark_allocated-keeps s.pool ip j
              (c.offer_taken j e (remove-Within dec_ip ip s.offered j e h))))
        (λ m l h q.
          let r = remove-ne mac_discrete mac s.leases m l h in
          r.0 (sym (only_holder s c mac ip now allowed m l r.1 (sym q))))
        (λ e h. (remove-ne dec_ip ip s.offered ip e h).0 refl)

  pub handle_decline-IsConsistent :
      (ip now now' : ℕ) → IsConsistent (handle_decline s mac ip now now')
  unfolding handle_decline
  handle_decline-IsConsistent ip now now' = elim (Bool-cases (can_client_request s mac ip now')) [
    | inl t ↦ rw t (declined ip now' t)
    | inr f ↦ rw f c
  ]
