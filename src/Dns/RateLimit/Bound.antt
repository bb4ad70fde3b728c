-- ===== src/Dns/RateLimit/Bound.antt =====
-- The bound on what a client is allowed within a second, over a run of queries of all clients.
use nimbusdns.Common.{
  ℕ, ◌+◌, ◌-◌, ◌^◌, ◌≤◌, ◌<◌, max, ◌≡◌, ◌⊎◌, refl, sym, subst, inl, inr, true, false, some, List,
  [], ◌∷◌, ltb, leb, ◌==◌, ℕ_discrete, if◌then◌else◌, arith, All, Option-cases,
}
use nimbusdns.Common.Map.{get, Unique, get-insert_self}
use nimbusdns.Dns.Cache.{second}
use nimbusdns.Dns.RateLimit.{
  RateDecision, allowed, limited_first, limited, RateLimiter, next_u32, window_of, count, check,
  cleanup,
}
use nimbusdns.Dns.RateLimit.Window.{
  tally, is_allowed, is_limited_first, cleanup-some, check-Unique, check-max, check_other,
  check_same,
}

-- The budgets of a window before a query of the client, from those after it.
budget :
    (n m a f : ℕ)
    → m + 2 < 2 ^ 32
    → a ≤ m - next_u32 n
    → f ≤ (if leb (next_u32 n) m then 1 else 0)
    → (d : RateDecision)
    → d ≡ (
        if ltb (next_u32 n) (next_u32 m)
        then allowed
        else if next_u32 n == next_u32 m
        then limited_first
        else limited)
    → ((if is_allowed d then a + 1 else a) ≤ m - n)
      × ((if is_limited_first d then f + 1 else f) ≤ (if leb n m then 1 else 0))
unfolding next_u32 is_allowed is_limited_first
budget n m a f lt ha hf allowed e = ground arith
budget n m a f lt ha hf limited_first e = ground arith
budget n m a f lt ha hf limited e = ground arith

within_window :
    (client start : ℕ) (queries : List (ℕ × ℕ)) (l : RateLimiter) (n : ℕ)
    → Unique ℕ_discrete l.clients
    → get ℕ_discrete client l.clients ≡ some (n, start)
    → All (λ q. q.1 - start ≤ second) queries
    → l.max_qps + 2 < 2 ^ 32
    → (tally is_allowed client queries l ≤ l.max_qps - n)
      × (tally is_limited_first client queries l ≤ (if leb n l.max_qps then 1 else 0))
unfolding tally is_allowed is_limited_first
within_window client start [] l n u h w m = (ground arith, ground arith)
within_window client start ((ip, now) ∷ queries) l n u h w m = elim (ℕ_discrete ip client) [
  | no ne ↦
      let next =
        within_window client start queries (check ip now l).0 n (check-Unique ip now l u)
          (check_other now l client n start u h w.0 ip ne) w.1
          (ground (arith, check-max ip now l)) in
      ground (arith, next, check-max ip now l)
  | yes e ↦
      let (g, d) = check_same now l client n start u h w.0 in
      let next =
        within_window client start queries (check client now l).0 (next_u32 n)
          (check-Unique client now l u) g w.1 (ground (arith, check-max client now l)) in
      let b =
        budget n l.max_qps (tally is_allowed client queries (check client now l).0)
          (tally is_limited_first client queries (check client now l).0) m
          (ground (arith, next.0, check-max client now l))
          (ground (arith, next.1, check-max client now l)) (check client now l).1 d in
      let same : (client == client) ≡ true = ground arith in
      subst
        (λ i.
          (tally is_allowed client ((i, now) ∷ queries) l ≤ l.max_qps - n)
          × (tally is_limited_first client ((i, now) ∷ queries) l
              ≤ (if leb n l.max_qps then 1 else 0)))
        (sym e) (rw same b)
]

-- The client has no window at that time, or one that has run out.
abbrev pub NoWindow : ℕ → ℕ → RateLimiter → Type 0
NoWindow client now l =
    (start n : ℕ) → get ℕ_discrete client l.clients ≡ some (n, start) → second < now - start

module _ (client now : ℕ) (l : RateLimiter) where
  first_query :
      Unique ℕ_discrete l.clients
      → NoWindow client now l
      → ((check client now l).1 ≡ allowed)
          × (get ℕ_discrete client (check client now l).0.clients ≡ some (1, now))
        ⊎ ((check client now l).1 ≡ (
            if ltb (next_u32 0) (next_u32 l.max_qps)
            then allowed
            else if next_u32 0 == next_u32 l.max_qps
            then limited_first
            else limited))
          × (get ℕ_discrete client (check client now l).0.clients ≡ some (next_u32 0, now))
  unfolding check window_of count
  first_query u nw = elim (Option-cases (get ℕ_discrete client (cleanup now l).clients)) [
    | inl q ↦
        let fresh : ltb second (now - now) ≡ false = ground arith in
        inr (
          rw (q, fresh)
            (refl, get-insert_self ℕ_discrete client (next_u32 0, now) (cleanup now l).clients))
    | inr ((n, start), q) ↦
        let old : ltb second (now - start) ≡ true =
          ground (arith, nw start n (cleanup-some now l client (n, start) u q)) in
        inl (rw (q, old) (refl, get-insert_self ℕ_discrete client (1, now) (cleanup now l).clients))
  ]

  -- Of the queries of a client from the start of a window to one second after it, interleaved with any
  -- queries of other clients, at most `max_qps` are allowed (one, if that is 0), and at most one is
  -- reported as the first that is limited.
  pub check_bound :
      (queries : List (ℕ × ℕ))
      → Unique ℕ_discrete l.clients
      → NoWindow client now l
      → All (λ q. q.1 - now ≤ second) queries
      → l.max_qps + 2 < 2 ^ 32
      → (tally is_allowed client ((client, now) ∷ queries) l ≤ max l.max_qps 1)
        × (tally is_limited_first client ((client, now) ∷ queries) l ≤ 1)
  unfolding tally is_allowed is_limited_first next_u32
  check_bound queries u nw w m =
      let same : (client == client) ≡ true = ground arith in
      elim (first_query u nw) [
        | inl (d, g) ↦
            let next =
              within_window client now queries (check client now l).0 1
                (check-Unique client now l u) g w (ground (arith, check-max client now l)) in
            rw (same, d) (ground (arith, next, check-max client now l))
        | inr (d, g) ↦
            let next =
              within_window client now queries (check client now l).0 (next_u32 0)
                (check-Unique client now l u) g w (ground (arith, check-max client now l)) in
            let b =
              budget 0 l.max_qps (tally is_allowed client queries (check client now l).0)
                (tally is_limited_first client queries (check client now l).0) m
                (ground (arith, next.0, check-max client now l))
                (ground (arith, next.1, check-max client now l)) (check client now l).1 d in
            rw same (ground (arith, b))
      ]
