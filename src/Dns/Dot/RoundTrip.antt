-- ===== src/Dns/Dot/RoundTrip.antt =====
-- Who gets a response of an upstream over TLS in nimbus-core/src/dns/dot.rs.
use nimbusdns.Common.{
  ℕ, ◌+◌, ◌*◌, ◌/◌, ◌%◌, ◌^◌, ◌<◌, ◌≡◌, ◌≢◌, refl, ap, ◌∙◌, subst, Bool, false, Option, none, some,
  [], ◌∷◌, length, ℕ_discrete, ◌==◌, arith, if◌then◌else◌,
}
use nimbusdns.Common.Map.{get, remove, insert, get-insert, get-remove, get-insert_self}
use nimbusdns.Dns.Cache.{Bytes}
use nimbusdns.Dns.Dot.Delivery.{unique_conn_id-free, receive_found}
use nimbusdns.Dns.Dot.Identifiers.{unique_conn_id_found}
use nimbusdns.Dns.Dot.{
  Pending, PendingEntry, Connection, Sent, answered, unique_conn_id, with_id, register, send,
  receive, deliver, sweep_stale_pending,
}

-- The response has another identifier, or none.
abbrev pub NotFor : ℕ → Bytes → Type 0
NotFor id (a ∷ b ∷ rest) = (a * 256 + b) ≢ id
NotFor id _ = Unit

-- What may happen on a connection while a caller waits under an identifier: other queries are sent,
-- responses with other identifiers come in, the entries of callers that have gone away are swept, and
-- other connections move the counter, which they share.
pub data Waits (id caller : ℕ) : Connection → Connection → Type 0 where
  at_once : {c : Connection} → Waits id caller c c
  then_sent :
      {c d : Connection} (other : ℕ) (bytes : Bytes) (s : Sent)
      → Waits id caller c d
      → send (2 ^ 16) other bytes d ≡ some s
      → Waits id caller c s.connection
  then_received :
      {c d : Connection} (response : Bytes)
      → Waits id caller c d
      → NotFor id response
      → Waits id caller c (receive response d).0
  then_swept :
      {c d : Connection} (is_closed : ℕ → Bool)
      → Waits id caller c d
      → is_closed caller ≡ false
      → Waits id caller c (record d { pending = sweep_stale_pending is_closed d.pending })
  then_counted :
      {c d : Connection} (next : ℕ)
      → Waits id caller c d
      → next < 2 ^ 16
      → Waits id caller c (record d { counter = next })

-- The entry is there, and the counter fits 16 bits.
abbrev Holds : ℕ → PendingEntry → Connection → Type 0
Holds id e c = (get ℕ_discrete id c.pending ≡ some e) × (c.counter < 2 ^ 16)

register-Holds :
    (id other k : ℕ) (e : PendingEntry) (bytes : Bytes) (c : Connection) (o : Option (ℕ × ℕ))
    (s : Sent)
    → Holds id e c
    → unique_conn_id (2 ^ 16) c.pending c.counter ≡ o
    → register other bytes k c o ≡ some s
    → Holds id e s.connection
unfolding register
register-Holds id other k e bytes c none s h u r = cc
register-Holds id other k e bytes c (some (new, next)) s h u r =
    let free = unique_conn_id-free (2 ^ 16) c.counter new next c.pending h.1 u in
    let f : PendingEntry = record { reply_tx = other; original_dns_id = k } in
    let c1 : Connection = record { pending = insert ℕ_discrete new f c.pending; counter = next } in
    let sent : Sent = record { connection = c1; wire = some (with_id new bytes); reply = none } in
    let q : sent ≡ s = ground (arith, r) in
    subst (λ s. Holds id e s.connection) q
      (ground (arith, h.0, free.0, get-insert ℕ_discrete id new f c.pending), free.1.1)

-- A message that is too short for an identifier leaves the connection as it was.
same-Holds :
    (id : ℕ) (e : PendingEntry) (sent s : Sent)
    → Holds id e sent.connection
    → some sent ≡ some s
    → Holds id e s.connection
same-Holds id e sent s h r =
    let q : sent ≡ s = ground (arith, r) in subst (λ s. Holds id e s.connection) q h

send-Holds :
    (id other : ℕ) (e : PendingEntry) (bytes : Bytes) (c : Connection) (s : Sent)
    → Holds id e c
    → send (2 ^ 16) other bytes c ≡ some s
    → Holds id e s.connection
unfolding send
send-Holds id other e [] c s h r = same-Holds id e _ s h r
send-Holds id other e (a ∷ []) c s h r = same-Holds id e _ s h r
send-Holds id other e (a ∷ b ∷ rest) c s h r =
    register-Holds id other (a * 256 + b) e (a ∷ b ∷ rest) c _ s h refl r

deliver-Holds :
    (id other : ℕ) (e : PendingEntry) (response : Bytes) (c : Connection) (o : Option PendingEntry)
    → other ≢ id
    → Holds id e c
    → Holds id e (deliver response other c o).0
unfolding deliver
deliver-Holds id other e response c none n h = h
deliver-Holds id other e response c (some f) n h =
    (ground (arith, n, h.0, get-remove ℕ_discrete id other c.pending), h.1)

receive-Holds :
    (id : ℕ) (e : PendingEntry) (response : Bytes) (c : Connection)
    → NotFor id response
    → Holds id e c
    → Holds id e (receive response c).0
unfolding receive
receive-Holds id e [] c n h = h
receive-Holds id e (a ∷ []) c n h = h
receive-Holds id e (a ∷ b ∷ rest) c n h = deliver-Holds id (a * 256 + b) e (a ∷ b ∷ rest) c _ n h

get-sweep :
    (id : ℕ) (e : PendingEntry) (is_closed : ℕ → Bool) (pending : Pending)
    → is_closed e.reply_tx ≡ false
    → get ℕ_discrete id pending ≡ some e
    → get ℕ_discrete id (sweep_stale_pending is_closed pending) ≡ some e
unfolding sweep_stale_pending get
get-sweep id e is_closed [] n h = cc
get-sweep id e is_closed ((k, f) ∷ pending) n h =
    ground (arith, n, h, get-sweep id e is_closed pending n)

Waits-Holds :
    (id caller : ℕ) (e : PendingEntry) (c d : Connection)
    → e.reply_tx ≡ caller
    → Holds id e c
    → Waits id caller c d
    → Holds id e d
Waits-Holds id caller e c _ q h at_once = h
Waits-Holds id caller e c _ q h (then_sent {d = d} other bytes s w r) =
    send-Holds id other e bytes d s (Waits-Holds id caller e c d q h w) r
Waits-Holds id caller e c _ q h (then_received {d = d} response w n) =
    receive-Holds id e response d n (Waits-Holds id caller e c d q h w)
Waits-Holds id caller e c _ q h (then_swept {d = d} is_closed w n) =
    let r = Waits-Holds id caller e c d q h w in
    (get-sweep id e is_closed d.pending (ap is_closed q ∙ n) r.0, r.1)
Waits-Holds id caller e c _ q h (then_counted {d = d} next w l) =
    ((Waits-Holds id caller e c d q h w).0, l)

get-removed :
    (id k : ℕ) (pending : Pending)
    → get ℕ_discrete k (remove ℕ_discrete id pending)
      ≡ (if id == k then none else get ℕ_discrete k pending)
get-removed id k pending = ground (arith, get-remove ℕ_discrete k id pending)

-- A query that is sent while fewer than 65536 wait goes out with an identifier of 16 bits that no
-- waiting query has, in place of its own and before the rest of its bytes. Whatever happens on the
-- connection while it waits, a response with that identifier goes to its caller, with the identifier
-- of the query and the rest of the response; the query waits no more, and the others do as before.
pub receive-send :
    (caller a b : ℕ) (rest body : Bytes) (c : Connection) (later : ℕ → Connection → Connection)
    → ((id : ℕ) (c1 : Connection) → Waits id caller c1 (later id c1))
    → c.counter < 2 ^ 16
    → length c.pending < 2 ^ 16
    → a < 256
    → b < 256
    → (id : ℕ) × ((s : Sent) × ((send (2 ^ 16) caller (a ∷ b ∷ rest) c ≡ some s)
          × ((s.wire ≡ some (id / 256 ∷ id % 256 ∷ rest))
              × (((id < 2 ^ 16) × (get ℕ_discrete id c.pending ≡ none))
                  × (((receive (id / 256 ∷ id % 256 ∷ body) (later id s.connection)).1
                        ≡ some (answered caller (a ∷ b ∷ body)))
                      × ((k : ℕ)
                          → get ℕ_discrete k
                              (receive
                                (id / 256 ∷ id % 256 ∷ body)
                                (later id s.connection)).0.pending
                            ≡ (if id == k
                                then none
                                else get ℕ_discrete k (later id s.connection).pending)))))))
unfolding send register with_id
receive-send caller a b rest body c later during l h la lb =
    let (id, (next, (u, (free, small)))) = unique_conn_id_found c.counter c.pending l h in
    let entry : PendingEntry = record { reply_tx = caller; original_dns_id = a * 256 + b } in
    let c1 : Connection = record {
      pending = insert ℕ_discrete id entry c.pending;
      counter = next;
    } in
    let d = later id c1 in
    let fits = unique_conn_id-free (2 ^ 16) c.counter id next c.pending l u in
    let holds =
      Waits-Holds id caller entry c1 d refl
        (get-insert_self ℕ_discrete id entry c.pending, fits.1.1) (during id c1) in
    let r = receive_found id caller a b body d lb holds.0 in
    (
      id,
      (
        record { connection = c1; wire = some (with_id id (a ∷ b ∷ rest)); reply = none },
        (
          ap (register caller (a ∷ b ∷ rest) (a * 256 + b) c) u,
          (
            refl,
            (
              (small, free),
              (
                ap (λ x. x.1) r,
                λ k. ap (λ x. get ℕ_discrete k x.0.pending) r ∙ get-removed id k d.pending,
              ),
            ),
          ),
        ),
      ),
    )
