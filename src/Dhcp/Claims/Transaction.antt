-- ===== src/Dhcp/Claims/Transaction.antt =====
-- A whole packet, from `reclaim_expired_locked` to the reply.
use mathlib.Core.Option.{none-ne-some, some-injective}
use nimbusdns.Common.{
  ℕ, ◌+◌, ◌≡◌, sym, ◌∙◌, subst, inl, inr, not, ◌||◌, Option, none, some, ◌==◌, Bool-cases,
  Option-cases,
}
use nimbusdns.Common.Iteration.{Iteration}
use nimbusdns.Common.Map.{get}
use nimbusdns.Dhcp.Process.{
  is_boot_request, decline_requested, dispatch, other_server, process_dhcp_message,
}
use nimbusdns.Dhcp.Reclaim.{reclaim_expired_locked}
use nimbusdns.Dhcp.Types.{
  Mac, mac_discrete, to_mac, Lease, OfferEntry, DhcpServer, dec_ip, Message, MessageType, ack,
  Reply, Clock,
}
use nimbusdns.Dhcp.Claims.{IsConsistent}
use nimbusdns.Dhcp.Claims.Reclaimed.{reclaim_expired_locked-IsConsistent}
use nimbusdns.Dhcp.Claims.Committed.{handle_release-IsConsistent, handle_decline-IsConsistent}
use nimbusdns.Dhcp.Claims.Granted.{Granted, handle_request-IsConsistent, handle_request-Acks}
use nimbusdns.Dhcp.Claims.Offered.{Reservable, handle_discover-IsConsistent, handle_discover-Offers}

module _ (walk : Iteration dec_ip OfferEntry) (s : DhcpServer) (msg : Message) (clock : Clock) where
  abbrev reclaimed : DhcpServer
  reclaimed = reclaim_expired_locked clock.t0 s

  abbrev processed : DhcpServer × Option Reply
  processed = process_dhcp_message walk s msg clock

  -- A packet is dropped, or dispatched on the state from which the expired claims are gone.
  module _ {ℓ} (P : DhcpServer × Option Reply → Type ℓ) (dropped : P (s, none))
      (dispatched : (mac : Mac) (kind : MessageType)
        → to_mac msg.chaddr ≡ some mac
        → msg.opts.message_type ≡ some kind
        → P (dispatch walk kind reclaimed msg mac clock)) where
    pub process_cases : P processed
    unfolding process_dhcp_message
    process_cases = elim (Bool-cases (not (is_boot_request msg.opcode) || not (msg.hlen == 6))) [
      | inl t ↦ rw t dropped
      | inr f ↦ elim (Option-cases (to_mac msg.chaddr)) [
        | inl m ↦ rw (f, m) dropped
        | inr (mac, m) ↦ elim (Option-cases msg.opts.message_type) [
          | inl k ↦ rw (f, m, k) dropped
          | inr (kind, k) ↦
              elim (Bool-cases (other_server msg.opts.server_identifier s.server_ip)) [
                | inl o ↦ rw (f, m, k, o) dropped
                | inr o ↦ rw (f, m, k, o) (dispatched mac kind m k)
              ]
        ]
      ]
    ]

  module _ (c : IsConsistent s) where
    reclaimed-IsConsistent : IsConsistent reclaimed
    reclaimed-IsConsistent = reclaim_expired_locked-IsConsistent clock.t0 s c

    dispatch-IsConsistent :
        (mac : Mac) (kind : MessageType)
        → IsConsistent (dispatch walk kind reclaimed msg mac clock).0
    unfolding dispatch decline_requested
    dispatch-IsConsistent mac MessageType.discover =
        handle_discover-IsConsistent walk reclaimed reclaimed-IsConsistent mac clock.t1 msg
    dispatch-IsConsistent mac MessageType.request =
        handle_request-IsConsistent reclaimed reclaimed-IsConsistent msg mac clock
    dispatch-IsConsistent mac MessageType.release =
        handle_release-IsConsistent reclaimed reclaimed-IsConsistent mac msg
    dispatch-IsConsistent mac MessageType.decline = decline msg.opts.requested_ip
      where
        decline : (o : Option ℕ) → IsConsistent (decline_requested reclaimed mac o clock)
        decline none = reclaimed-IsConsistent
        decline (some ip) =
            handle_decline-IsConsistent reclaimed reclaimed-IsConsistent mac ip clock.t1 clock.t2
    dispatch-IsConsistent mac MessageType.inform = elim (Bool-cases (msg.ciaddr == 0)) [
      | inl t ↦ rw t reclaimed-IsConsistent
      | inr f ↦ rw f reclaimed-IsConsistent
    ]
    dispatch-IsConsistent mac _ = reclaimed-IsConsistent

    -- Every packet keeps the claims consistent: no address is leased to two clients, none is offered
    -- to one client and leased to another, and every claimed address lies in the pool, is allocated
    -- and is not excluded. The clock may read anything.
    pub process_dhcp_message-IsConsistent : IsConsistent processed.0
    process_dhcp_message-IsConsistent =
        process_cases (λ r. IsConsistent r.0) c (λ mac kind m k. dispatch-IsConsistent mac kind)

    -- What a result says of the replies of a given kind to a client of a given kind of message.
    abbrev Replies {ℓ} : (Mac → DhcpServer → Reply → Type ℓ) → DhcpServer × Option Reply → Type ℓ
    Replies P r =
        (reply : Reply)
        → r.1 ≡ some reply
        → (mac : Mac) × (to_mac msg.chaddr ≡ some mac) × P mac r.0 reply

    processed-Replies {ℓ} :
        (P : Mac → DhcpServer → Reply → Type ℓ) (kind : MessageType)
        → msg.opts.message_type ≡ some kind
        → ((mac : Mac) (reply : Reply)
            → (dispatch walk kind reclaimed msg mac clock).1 ≡ some reply
            → P mac (dispatch walk kind reclaimed msg mac clock).0 reply)
        → Replies P processed
    processed-Replies P kind k f =
        process_cases (Replies P) (λ reply h. absurd (none-ne-some reply h))
          (λ mac kind' m k'.
            subst (λ x. Replies P (dispatch walk x reclaimed msg mac clock))
              (some-injective kind kind' (sym k ∙ k')) (λ reply h. (mac, m, f mac reply h)))

    -- An ACK to a REQUEST, on the state from which the expired claims are gone: the client had the
    -- address on lease or on offer, the address lies in the pool and is not excluded; the client now
    -- holds it for the lease time, and nobody else holds it.
    pub process_dhcp_message-acks :
        (reply : Reply)
        → processed.1 ≡ some reply
        → msg.opts.message_type ≡ some MessageType.request
        → reply.opts.message_type ≡ some ack
        → (mac : Mac) × (to_mac msg.chaddr ≡ some mac)
          × Granted reclaimed processed.0 mac reply.yiaddr clock
          × ((m : Mac) (l : Lease)
              → get mac_discrete m processed.0.leases ≡ some l
              → l.ip ≡ reply.yiaddr
              → m ≡ mac)
    unfolding dispatch
    process_dhcp_message-acks reply h k a =
        let (mac, m, g) =
          processed-Replies
            (λ mac s' r. r.opts.message_type ≡ some ack → Granted reclaimed s' mac r.yiaddr clock)
            MessageType.request k
            (λ mac r e. handle_request-Acks reclaimed reclaimed-IsConsistent msg mac clock r e)
            reply h in
        let granted = g a in
        let (l, held, at, _) = granted.lease in
        (
          mac,
          m,
          granted,
          λ m' l' h' q.
              process_dhcp_message-IsConsistent.one_holder m' mac l' l h' held (q ∙ sym at),
        )

    -- A reply to a DISCOVER offers an address of the pool that is allocated, not excluded and leased
    -- to nobody else, and reserves it for the client for thirty seconds.
    pub process_dhcp_message-offers :
        (reply : Reply)
        → processed.1 ≡ some reply
        → msg.opts.message_type ≡ some MessageType.discover
        → (mac : Mac) × (to_mac msg.chaddr ≡ some mac)
          × (get dec_ip reply.yiaddr processed.0.offered ≡ some (clock.t1 + 30, mac))
          × Reservable processed.0 mac reply.yiaddr
    unfolding dispatch
    process_dhcp_message-offers reply h k =
        let (mac, m, o) =
          processed-Replies
            (λ mac s' r.
              (get dec_ip r.yiaddr s'.offered ≡ some (clock.t1 + 30, mac))
              × Reservable s' mac r.yiaddr)
            MessageType.discover k
            (λ mac r e.
              handle_discover-Offers walk reclaimed reclaimed-IsConsistent mac clock.t1 msg r e)
            reply h in
        (mac, m, o.0, o.1)
