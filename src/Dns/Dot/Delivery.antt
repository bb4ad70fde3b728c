-- ===== src/Dns/Dot/Delivery.antt =====
-- A response to a query that waits goes to its caller: one step of the reader of
-- nimbus-core/src/dns/dot.rs.
use nimbusdns.Common.{
  ℕ, zero, suc, ◌+◌, ◌*◌, ◌/◌, ◌%◌, ◌^◌, ◌<◌, ◌≡◌, ap, ◌∙◌, subst, inl, inr, none, some, ◌∷◌,
  ℕ_discrete, ◌==◌, arith, Option-cases, if◌then◌else◌,
}
use nimbusdns.Common.Map.{get, remove}
use nimbusdns.Dns.Cache.{Bytes}
use nimbusdns.Dns.Dot.{Pending, Connection, answered, unique_conn_id, with_id, receive, deliver}

-- An identifier that is given is free, and fits 16 bits.
pub unique_conn_id-free :
    (fuel counter id next : ℕ) (pending : Pending)
    → counter < 2 ^ 16
    → unique_conn_id fuel pending counter ≡ some (id, next)
    → (get ℕ_discrete id pending ≡ none) × ((id < 2 ^ 16) × (next < 2 ^ 16))
unfolding unique_conn_id
unique_conn_id-free zero counter id next pending l h = cc
unique_conn_id-free (suc fuel) counter id next pending l h =
    elim (Option-cases (get ℕ_discrete counter pending)) [
      | inl n ↦
          let i : counter ≡ id = ground (arith, h, n) in
          let x : (counter + 1) % 2 ^ 16 ≡ next = ground (arith, h, n) in
          (
            subst (λ k. get ℕ_discrete k pending ≡ none) i n,
            (omega (arith, i, l), omega (arith, x)),
          )
      | inr s ↦
          unique_conn_id-free fuel ((counter + 1) % 2 ^ 16) id next pending (omega arith)
            (ground (arith, h, s.1))
    ]

-- The bytes of an identifier are read back.
id_bytes : (id : ℕ) → id / 256 * 256 + id % 256 ≡ id
id_bytes id = omega arith

-- The response with the identifier of the query: its bytes are those of the query's identifier.
restored :
    (conn_id a b : ℕ) (body : Bytes)
    → b < 256
    → (if (a * 256 + b) == conn_id
        then conn_id / 256 ∷ conn_id % 256 ∷ body
        else with_id (a * 256 + b) (conn_id / 256 ∷ conn_id % 256 ∷ body))
      ≡ a ∷ b ∷ body
unfolding with_id
restored conn_id a b body lb =
    let high : (a * 256 + b) / 256 ≡ a = omega (arith, lb) in
    let low : (a * 256 + b) % 256 ≡ b = omega (arith, lb) in ground (arith, high, low)

pub receive_found :
    (conn_id caller a b : ℕ) (body : Bytes) (c : Connection)
    → b < 256
    → get ℕ_discrete conn_id c.pending
      ≡ some record { reply_tx = caller; original_dns_id = a * 256 + b }
    → receive (conn_id / 256 ∷ conn_id % 256 ∷ body) c ≡ (
      record c { pending = remove ℕ_discrete conn_id c.pending },
      some (answered caller (a ∷ b ∷ body)),
    )
unfolding receive deliver with_id
receive_found conn_id caller a b body c lb e =
    let response = conn_id / 256 ∷ conn_id % 256 ∷ body in
    ap (λ k. deliver response k c (get ℕ_discrete k c.pending)) (id_bytes conn_id)
    ∙ ap (deliver response conn_id c) e
    ∙ ap
        (λ bytes. (
          record c { pending = remove ℕ_discrete conn_id c.pending },
          some (answered caller bytes),
        ))
        (restored conn_id a b body lb)
