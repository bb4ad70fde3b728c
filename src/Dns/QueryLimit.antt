-- ===== src/Dns/QueryLimit.antt =====
-- `QueryLimiter` of nimbus-core/src/dns/listener.rs: the queries in flight, in all and per client. An
-- address is a number; the semaphore is the number of its free permits.
pub mod Permits
use nimbusdns.Common.{
  ℕ, ◌+◌, ◌-◌, max, Bool, true, false, Option, none, some, List, [], leb, ◌==◌, ltb, ℕ_discrete,
  if◌then◌else◌,
}
use nimbusdns.Common.Map.{get, insert, remove}

pub record QueryLimiter : Type 0 where
  pub sem : ℕ
  pub per_client : ℕ
  pub in_flight : List (ℕ × ℕ)

unfoldable pub new : ℕ → ℕ → QueryLimiter
new max_concurrent per_client = record {
  sem = max max_concurrent 1;
  per_client = max per_client 1;
  in_flight = [];
}

-- `or_insert(0)`
unfoldable pub or_zero : Option ℕ → ℕ
or_zero none = 0
or_zero (some n) = n

-- `remove_if_mut`: one query less, and no entry at 0.
unfoldable pub decrement : ℕ → Option ℕ → List (ℕ × ℕ) → List (ℕ × ℕ)
decrement ip none m = m
decrement ip (some n) m =
    if n - 1 == 0 then remove ℕ_discrete ip m else insert ℕ_discrete ip (n - 1) m

unfoldable pub give_back : ℕ → QueryLimiter → QueryLimiter
give_back ip l = record l { in_flight = decrement ip (get ℕ_discrete ip l.in_flight) l.in_flight }

-- The first half of `try_acquire`: the count of the client.
unfoldable pub reserve : ℕ → QueryLimiter → QueryLimiter × Bool
reserve ip l =
    let n = or_zero (get ℕ_discrete ip l.in_flight) in
    if leb l.per_client n
    then (record l { in_flight = insert ℕ_discrete ip n l.in_flight }, false)
    else (record l { in_flight = insert ℕ_discrete ip (n + 1) l.in_flight }, true)

-- The second half: a permit of the semaphore, or the count goes back.
unfoldable pub claim : ℕ → QueryLimiter → QueryLimiter × Bool
claim ip l = if ltb 0 l.sem then (record l { sem = l.sem - 1 }, true) else (give_back ip l, false)

unfoldable pub claim_after : ℕ → QueryLimiter × Bool → QueryLimiter × Bool
claim_after ip (l, true) = claim ip l
claim_after ip (l, false) = (l, false)

unfoldable pub try_acquire : ℕ → QueryLimiter → QueryLimiter × Bool
unfolding claim_after
try_acquire ip l = claim_after ip (reserve ip l)

-- `Drop for QueryPermit`; the permit of the semaphore goes back by itself.
unfoldable pub drop_permit : ℕ → QueryLimiter → QueryLimiter
drop_permit ip l = let l1 = give_back ip l in record l1 { sem = l1.sem + 1 }
