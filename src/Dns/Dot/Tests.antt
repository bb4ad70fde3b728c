-- ===== src/Dns/Dot/Tests.antt =====
-- A query over a connection on which one query waits.
use nimbusdns.Common.{
  ℕ, ◌/◌, ◌%◌, ◌^◌, ◌<◌, ◌==◌, if◌then◌else◌, ◌≡◌, refl, none, some, [], ◌∷◌, arith, ℕ_discrete,
}
use nimbusdns.Common.Map.{get}
use nimbusdns.Dns.Dot.{Pending, Connection, Sent, answered, unique_conn_id, send, receive}
use nimbusdns.Dns.Dot.RoundTrip.{Waits, at_once, then_received, then_counted, receive-send}
use nimbusdns.Dns.Dot.Identifiers.{unique_conn_id_found}

abbrev waiting : Pending
waiting = (5, record { reply_tx = 1; original_dns_id = 300 }) ∷ []

abbrev connection : Connection
connection = record { pending = waiting; counter = 5 }

-- 5 is taken, 6 is free.
next_free : unique_conn_id 3 waiting 5 ≡ some (6, 7)
unfolding unique_conn_id get ℕ_discrete
next_free = refl

-- While the caller waits, the upstream sends a response that is too short, and another connection takes
-- an identifier.
abbrev later : ℕ → Connection → Connection
later id c = record (receive [] c).0 { counter = 9 }

abbrev during : (id : ℕ) (c : Connection) → Waits id 2 c (later id c)
during id c = then_counted 9 (then_received [] at_once tt) (omega arith)

receive-send_example :
    (id : ℕ) × ((s : Sent) × ((send (2 ^ 16) 2 (1 ∷ 44 ∷ 9 ∷ []) connection ≡ some s)
        × ((s.wire ≡ some (id / 256 ∷ id % 256 ∷ 9 ∷ []))
            × (((id < 2 ^ 16) × (get ℕ_discrete id connection.pending ≡ none))
                × (((receive (id / 256 ∷ id % 256 ∷ 8 ∷ []) (later id s.connection)).1
                      ≡ some (answered 2 (1 ∷ 44 ∷ 8 ∷ [])))
                    × ((k : ℕ)
                        → get ℕ_discrete k
                            (receive
                              (id / 256 ∷ id % 256 ∷ 8 ∷ [])
                              (later id s.connection)).0.pending
                          ≡ (if id == k
                              then none
                              else get ℕ_discrete k (later id s.connection).pending)))))))
receive-send_example =
    receive-send 2 1 44 (9 ∷ []) (8 ∷ []) connection later during (omega arith) (omega arith)
      (omega arith) (omega arith)

unique_conn_id_found_example :
    (id : ℕ) × ((next : ℕ) × ((unique_conn_id (2 ^ 16) waiting 5 ≡ some (id, next))
        × ((get ℕ_discrete id waiting ≡ none) × (id < 2 ^ 16))))
unique_conn_id_found_example = unique_conn_id_found 5 waiting (omega arith) (omega arith)
