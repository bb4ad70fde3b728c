-- ===== src/Dns/RateLimit/Window.antt =====
-- What a client is allowed within one window, whatever the other clients do.
use nimbusdns.Common.{
  ℕ, ◌+◌, ◌-◌, ◌*◌, ◌≤◌, ◌≡◌, ◌≢◌, refl, Bool, true, false, some, List, [], ◌∷◌, ltb, ◌==◌,
  ℕ_discrete, if◌then◌else◌, ◌&&◌, arith, Bool-cases, inl, inr,
}
use nimbusdns.Common.Map.{
  get, Unique, insert-Unique, keep-Unique, keep-Within, get-insert, get-keep, get-insert_self,
}
use nimbusdns.Dns.Cache.{second}
use nimbusdns.Dns.RateLimit.{
  RateDecision, allowed, limited_first, limited, RateLimiter, Window, next_u32, cleanup, window_of,
  count, check,
}

unfoldable pub is_allowed : RateDecision → Bool
is_allowed allowed = true
is_allowed _ = false

unfoldable pub is_limited_first : RateDecision → Bool
is_limited_first limited_first = true
is_limited_first _ = false

-- A run of queries, each with its client and its time, and the decisions on those of one client.
unfoldable pub run : List (ℕ × ℕ) → RateLimiter → RateLimiter
run [] l = l
run ((ip, now) ∷ queries) l = run queries (check ip now l).0

unfoldable pub tally : (RateDecision → Bool) → ℕ → List (ℕ × ℕ) → RateLimiter → ℕ
tally p client [] l = 0
tally p client ((ip, now) ∷ queries) l =
    let rest = tally p client queries (check ip now l).0 in
    if ip == client && p (check ip now l).1 then rest + 1 else rest

abbrev Clients : Type 0
Clients = List (ℕ × Window)

cleanup-Unique :
    (now : ℕ) (l : RateLimiter)
    → Unique ℕ_discrete l.clients
    → Unique ℕ_discrete (cleanup now l).clients
unfolding cleanup
cleanup-Unique now l u = elim (Bool-cases (ltb (60 * second) (now - l.last_cleanup))) [
  | inl t ↦ rw t (keep-Unique ℕ_discrete _ l.clients u)
  | inr f ↦ rw f u
]

-- Cleaning up keeps the windows that are open.
pub cleanup-get :
    (now : ℕ) (l : RateLimiter) (client n start : ℕ)
    → Unique ℕ_discrete l.clients
    → get ℕ_discrete client l.clients ≡ some (n, start)
    → now - start ≤ second
    → get ℕ_discrete client (cleanup now l).clients ≡ some (n, start)
unfolding cleanup
cleanup-get now l client n start u h le =
    elim (Bool-cases (ltb (60 * second) (now - l.last_cleanup))) [
      | inl t ↦ rw t (
          ground
            (arith, get-keep ℕ_discrete (λ e. ltb (now - e.1.1) (2 * second)) client l.clients u))
      | inr f ↦ rw f h
    ]

-- It makes no new ones.
pub cleanup-some :
    (now : ℕ) (l : RateLimiter) (client : ℕ) (w : Window)
    → Unique ℕ_discrete l.clients
    → get ℕ_discrete client (cleanup now l).clients ≡ some w
    → get ℕ_discrete client l.clients ≡ some w
unfolding cleanup
cleanup-some now l client w u h = elim (Bool-cases (ltb (60 * second) (now - l.last_cleanup))) [
  | inl t ↦
      keep-Within ℕ_discrete (λ e. ltb (now - e.1.1) (2 * second)) l.clients u client w
        (ground arith)
  | inr f ↦ ground arith
]

cleanup-max : (now : ℕ) (l : RateLimiter) → (cleanup now l).max_qps ≡ l.max_qps
unfolding cleanup
cleanup-max now l = ground arith

pub check-Unique :
    (ip now : ℕ) (l : RateLimiter)
    → Unique ℕ_discrete l.clients
    → Unique ℕ_discrete (check ip now l).0.clients
unfolding check
check-Unique ip now l u = insert-Unique ℕ_discrete ip _ _ (cleanup-Unique now l u)

pub check-max : (ip now : ℕ) (l : RateLimiter) → (check ip now l).0.max_qps ≡ l.max_qps
unfolding check
check-max ip now l = cleanup-max now l

module _ (now : ℕ) (l : RateLimiter) (client n start : ℕ) (u : Unique ℕ_discrete l.clients)
    (h : get ℕ_discrete client l.clients ≡ some (n, start)) (le : now - start ≤ second) where
  pub check_other :
      (ip : ℕ) → ip ≢ client → get ℕ_discrete client (check ip now l).0.clients ≡ some (n, start)
  unfolding check
  check_other ip ne = ground (
    arith,
    cleanup-get now l client n start u h le,
    get-insert ℕ_discrete client ip
        (count l.max_qps now (window_of (get ℕ_discrete ip (cleanup now l).clients) now)).0
        (cleanup now l).clients,
  )

  pub check_same :
      (get ℕ_discrete client (check client now l).0.clients ≡ some (next_u32 n, start))
      × ((check client now l).1 ≡ (
          if ltb (next_u32 n) (next_u32 l.max_qps)
          then allowed
          else if next_u32 n == next_u32 l.max_qps
          then limited_first
          else limited))
  unfolding check count window_of
  check_same =
      let still_open : ltb second (now - start) ≡ false = ground arith in
      rw (cleanup-get now l client n start u h le, still_open)
        (get-insert_self ℕ_discrete client (next_u32 n, start) (cleanup now l).clients, refl)
