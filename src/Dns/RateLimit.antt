-- ===== src/Dns/RateLimit.antt =====
-- `RateLimiter` of nimbus-core/src/dns/router.rs: the queries of each client per one-second window.
-- An address and an `Instant` are numbers.
pub mod Window
pub mod Bound
use nimbusdns.Common.{
  ℕ, ◌+◌, ◌-◌, ◌*◌, ◌^◌, min, Option, none, some, List, [], ◌∷◌, keep, ltb, ◌==◌, ℕ_discrete,
  if◌then◌else◌,
}
use nimbusdns.Common.Map.{get, insert}
use nimbusdns.Dns.Cache.{second}

pub data RateDecision : Type 0 where
  allowed limited_first limited : RateDecision

-- The queries of a client's window, and its start.
abbrev pub Window : Type 0
Window = ℕ × ℕ

pub record RateLimiter : Type 0 where
  pub max_qps : ℕ
  pub clients : List (ℕ × Window)
  pub last_cleanup : ℕ

unfoldable pub new : ℕ → ℕ → RateLimiter
new max_qps now = record { max_qps = max_qps; clients = []; last_cleanup = now }

-- `u32::saturating_add(1)`
unfoldable pub next_u32 : ℕ → ℕ
next_u32 n = min (n + 1) (2 ^ 32 - 1)

unfoldable pub cleanup : ℕ → RateLimiter → RateLimiter
cleanup now l =
    if ltb (60 * second) (now - l.last_cleanup)
    then record l {
      clients = keep (λ e. ltb (now - e.1.1) (2 * second)) l.clients;
      last_cleanup = now;
    }
    else l

-- `or_insert_with(|| (0, now))`
unfoldable pub window_of : Option Window → ℕ → Window
window_of none now = (0, now)
window_of (some w) now = w

unfoldable pub count : ℕ → ℕ → Window → Window × RateDecision
count max_qps now (n, start) = if ltb second (now - start) then ((1, now), allowed) else (
  (next_u32 n, start),
  if ltb (next_u32 n) (next_u32 max_qps)
      then allowed
      else if next_u32 n == next_u32 max_qps
      then limited_first
      else limited,
)

unfoldable pub check : ℕ → ℕ → RateLimiter → RateLimiter × RateDecision
check ip now l =
    let l1 = cleanup now l in
    let r = count l.max_qps now (window_of (get ℕ_discrete ip l1.clients) now) in
    (record l1 { clients = insert ℕ_discrete ip (r.0) l1.clients }, r.1)
