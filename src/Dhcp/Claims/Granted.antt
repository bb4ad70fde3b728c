-- ===== src/Dhcp/Claims/Granted.antt =====
-- What an ACK stands for.
use Prim.Native.String.{String}
use mathlib.Core.Option.{none-ne-some, some-injective}
use nimbusdns.Common.{
  ℕ, ◌+◌, ◌≡◌, refl, sym, ◌∙◌, ap, subst, inl, inr, ◌⊎◌, Bool, true, false, not, ◌&&◌, ◌||◌, Option,
  none, some, any, ◌==◌, is_some, arith, Bool-cases,
}
use nimbusdns.Common.Map.{get, remove, get-insert_self}
use nimbusdns.Common.Sets.{contains}
use nimbusdns.Dhcp.Pool.{in_range, mark_allocated}
use nimbusdns.Dhcp.Lease.{
  conflicts, release_old, try_commit_lease, can_client_request, persist_lease,
}
use nimbusdns.Dhcp.Process.{
  or_else, hostname_of, finish_request, subnet_matches, request_address, handle_request,
}
use nimbusdns.Dhcp.Reply.{build_ack, build_nak, unspecified}
use nimbusdns.Dhcp.Types.{
  Mac, mac_discrete, Lease, DhcpServer, dec_ip, Message, ack, nak, Reply, Clock,
}
use nimbusdns.Dhcp.Claims.{IsConsistent}
use nimbusdns.Dhcp.Claims.Requestable.{HasLease, HasOffer, claim_of_request, in_pool}
use nimbusdns.Dhcp.Claims.Committed.{try_commit_lease-IsConsistent, finish_request-IsConsistent}

release_old-leases :
    (s : DhcpServer) (o : Option ℕ) (ip now : ℕ) → (release_old s o ip now).leases ≡ s.leases
unfolding release_old
release_old-leases s none ip now = refl
release_old-leases s (some old) ip now = ground arith

-- A commit that succeeds leaves the client with the lease.
pub try_commit_lease-leases :
    (s : DhcpServer) (mac : Mac) (ip expires : ℕ) (hostname : Option String) (now : ℕ)
    → (try_commit_lease s mac ip expires hostname now).1 ≡ true
    → get mac_discrete mac (try_commit_lease s mac ip expires hostname now).0.leases
      ≡ some
          (record { ip = ip; mac = mac; hostname = hostname; vendor = none; expires_at = expires })
unfolding try_commit_lease
try_commit_lease-leases s mac ip expires hostname now h =
    elim (Bool-cases (any (conflicts mac ip now) s.leases)) [
      | inl t ↦ absurd (ground arith)
      | inr f ↦ rw (f, release_old-leases) (get-insert_self mac_discrete mac _ s.leases)
    ]

-- An ACK to the client for an address: the client had it on lease or on offer, it lies in the pool
-- and is not excluded, and the client now holds it, and nobody else does, for the lease time.
pub record Granted (s s' : DhcpServer) (mac : Mac) (ip : ℕ) (clock : Clock) : Type 0 where
  pub before : HasLease s mac ip clock.t1 ⊎ HasOffer s mac ip clock.t1
  pub range : in_range s.pool ip ≡ true
  pub allowed : contains ip s.excluded ≡ false
  pub lease :
      (l : Lease) × (get mac_discrete mac s'.leases ≡ some l)
      × (l.ip ≡ ip)
      × (l.expires_at ≡ clock.t2 + s.config.lease_time)

module _ (s : DhcpServer) (c : IsConsistent s) (msg : Message) (mac : Mac) (clock : Clock) where
  -- What a result says if it is an ACK.
  abbrev pub Acks : DhcpServer × Option Reply → Type 0
  Acks r =
      (reply : Reply)
      → r.1 ≡ some reply
      → reply.opts.message_type ≡ some ack
      → Granted s r.0 mac reply.yiaddr clock

  silent-Acks : (s' : DhcpServer) → Acks (s', none)
  silent-Acks s' reply h k = absurd (none-ne-some reply h)

  nak-Acks : (s' s2 : DhcpServer) → Acks (s', some (build_nak msg s2))
  unfolding build_nak
  nak-Acks s' s2 reply h k =
      let e = some-injective (build_nak msg s2) reply h in
      absurd (nak_not_ack (ap (λ (x : Reply). x.opts.message_type) e ∙ k))
    where
      nak_not_ack : some nak ≡ some ack → ⊥
      nak_not_ack q = cc

  abbrev hostname : Option String
  hostname = or_else msg.opts.hostname (hostname_of (get mac_discrete mac s.leases))

  abbrev expires : ℕ
  expires = clock.t2 + s.config.lease_time

  module _ (ip : ℕ) where
    abbrev result : DhcpServer × Bool
    result = try_commit_lease s mac ip expires hostname clock.t3

  module _ (ip : ℕ) (allowed : can_client_request s mac ip clock.t1 ≡ true) where
    abbrev leased : Lease
    leased = record { ip = ip; mac = mac; hostname = hostname; vendor = none; expires_at = expires }

    granted :
        (s' : DhcpServer)
        → (result ip).1 ≡ true
        → s'.leases ≡ (result ip).0.leases
        → Granted s s' mac ip clock
    granted s' h same =
        let pool = in_pool s c mac ip clock.t1 allowed in
        record {
          before = claim_of_request s mac ip clock.t1 allowed;
          range = pool.0.0;
          allowed = pool.1;
          lease = (
            leased,
            rw same (try_commit_lease-leases s mac ip expires hostname clock.t3 h),
            refl,
            refl,
          );
        }

    ack-Acks :
        (s' s2 : DhcpServer) → Granted s s' mac ip clock → Acks (s', some (build_ack msg ip s2))
    unfolding build_ack
    ack-Acks s' s2 g reply h k =
        subst (λ (x : Reply). Granted s s' mac x.yiaddr clock)
          (some-injective (build_ack msg ip s2) reply h) g

    abbrev finished : DhcpServer
    finished =
        persist_lease
          (record (result ip).0 {
            pool = mark_allocated (result ip).0.pool ip;
            offered = remove dec_ip ip (result ip).0.offered;
          })
          mac ip hostname expires

    commit-Acks : Acks (finish_request msg mac ip hostname expires (result ip))
    unfolding finish_request persist_lease
    commit-Acks = elim (Bool-cases (result ip).1) [
      | inl t ↦
          let q : finish_request msg mac ip hostname expires (result ip)
              ≡ (finished, some (build_ack msg ip (result ip).0)) =
            rw (t, finish_request) refl in
          subst Acks (sym q) (ack-Acks finished (result ip).0 (granted finished t refl))
      | inr f ↦
          let q : finish_request msg mac ip hostname expires (result ip)
              ≡ ((result ip).0, some (build_nak msg (result ip).0)) =
            rw (f, finish_request) refl in
          subst Acks (sym q) (nak-Acks (result ip).0 (result ip).0)
    ]

  -- The tests of `handle_request` and `request_address`.
  abbrev misplaced : Bool
  misplaced =
      is_some msg.opts.server_identifier
      && (not (is_some msg.opts.requested_ip) || not (msg.ciaddr == unspecified))

  abbrev ambiguous : Bool
  ambiguous = not (msg.ciaddr == unspecified) && is_some msg.opts.requested_ip

  abbrev rebooting : ℕ → Bool
  rebooting ip =
      not (is_some msg.opts.server_identifier)
      && msg.ciaddr == unspecified
      && subnet_matches s ip
      && not (is_some (get mac_discrete mac s.leases))

  abbrev unowned : ℕ → Bool
  unowned ip = not (in_range s.pool ip) || not (can_client_request s mac ip clock.t1)

  owned : (ip : ℕ) → unowned ip ≡ false → can_client_request s mac ip clock.t1 ≡ true
  owned ip h = ground arith

  -- A REQUEST is ignored, refused, or granted by `finish_request` after the ownership check.
  module _ {ℓ} (P : DhcpServer × Option Reply → Type ℓ) (silent : P (s, none))
      (refused : P (s, some (build_nak msg s)))
      (checked : (ip : ℕ)
        → can_client_request s mac ip clock.t1 ≡ true
        → P (finish_request msg mac ip hostname expires (result ip))) where
    address_cases : (ip : ℕ) → P (request_address s msg mac ip clock)
    unfolding request_address
    address_cases ip = elim (Bool-cases (rebooting ip)) [
      | inl t ↦ rw t silent
      | inr f ↦ elim (Bool-cases (unowned ip)) [
        | inl t ↦ rw (f, t) refused
        | inr g ↦ rw (f, g) (checked ip (owned ip g))
      ]
    ]

    known_cases :
        (o : Option ℕ)
        → P (elim o [ none ↦ (s, none) | some ip ↦ request_address s msg mac ip clock ])
    known_cases none = silent
    known_cases (some ip) = address_cases ip

    pub request_cases : P (handle_request s msg mac clock)
    unfolding handle_request
    request_cases = elim (Bool-cases misplaced) [
      | inl t ↦ rw t silent
      | inr f ↦ elim (Bool-cases ambiguous) [
        | inl t ↦ rw (f, t) silent
        | inr g ↦ rw (f, g) (known_cases _)
      ]
    ]

  pub handle_request-IsConsistent : IsConsistent (handle_request s msg mac clock).0
  handle_request-IsConsistent =
      request_cases (λ r. IsConsistent r.0) c c
        (λ ip allowed.
          finish_request-IsConsistent msg mac ip hostname expires (result ip)
            (try_commit_lease-IsConsistent s c mac ip expires hostname clock.t1 clock.t3 allowed))

  pub handle_request-Acks : Acks (handle_request s msg mac clock)
  handle_request-Acks = request_cases Acks (silent-Acks s) (nak-Acks s s) commit-Acks
