-- ===== src/Dns/Router/Tests.antt =====
-- One query through the router, and a limiter with its tasks.
use nimbusdns.Common.{◌≤◌, ◌≡◌, max, refl, true, false, Option, none, some, [], ◌∷◌, arith}
use nimbusdns.Common.Iteration.{Iteration, in_order}
use nimbusdns.Dns.Cache.{Bytes, CachedResponse, key_discrete, new}
use nimbusdns.Dns.RateLimit as RateLimit
use nimbusdns.Dns.QueryLimit.{reserve, or_zero}
use nimbusdns.Dns.QueryLimit as QueryLimit
use nimbusdns.Dns.QueryLimit.Permits.{
  World, Reachable, at_start, then_step, reserved, initial, Balanced, Reachable-Balanced,
}
use nimbusdns.Dns.Answers.{null, v4, Message, a, is_empty, cache_ttl_secs, error_msg, least_ttl}
use nimbusdns.Dns.Router.{Router, Settings, Times, route}
use nimbusdns.Dns.Router.Routing.{Ready, Answered, Reason, route-Answered}
use nimbusdns.Common.Map.{get}

abbrev name : Bytes
name = 97 ∷ 46 ∷ []

abbrev query : Message
query = record (error_msg 7 0 (record { name = name; query_type = 1 } ∷ [])) {
  recursion_desired = true;
}

abbrev answer : Message
answer = record query { answers = record { name = name; ttl = 60; rdata = a 0x01020304 } ∷ [] }

-- A codec that forgets all but the id, and an upstream that knows one answer.
abbrev to_vec : Message → Option Bytes
to_vec m = some (m.id ∷ [])

abbrev from_vec : Bytes → Option Message
from_vec bytes = none

abbrev forward : Message → Option Message
forward q = some answer

abbrev walk : Iteration key_discrete CachedResponse
walk = in_order key_discrete

abbrev router : Router
router = record { cache = new 2; rate_limiter = RateLimit.new 10 0; log = [] }

abbrev settings : Settings
settings = record { blocking_mode = null; blocking_ip = v4 0 }

abbrev times : Times
times = record { at_limit = 1; at_lookup = 2; at_answer = 3; spent_secs = 0; at_store = 4 }

router-Ready : Ready router.cache
unfolding new
router-Ready = (tt, omega arith)

route-Answered_example :
    Answered
      (λ s result.
        Reason to_vec from_vec
          (λ t. t)
          (λ t. false)
          forward
          walk
          settings
          query
          1
          times
          router
          s
          result
          query.queries)
      (route to_vec from_vec (λ t. t) (λ t. false) forward walk settings query 1 times router)
route-Answered_example =
    route-Answered to_vec from_vec (λ t. t) (λ t. false) forward walk settings query 1 times router
      router-Ready

in_time : 5 ≤ cache_ttl_secs answer
unfolding cache_ttl_secs error_msg is_empty least_ttl
in_time = omega arith

abbrev one_task : World
one_task = record (initial 4 2) { limiter = (reserve 9 (initial 4 2).limiter).0; pending = 9 ∷ [] }

task_reserves : (reserve 9 (initial 4 2).limiter).1 ≡ true
unfolding reserve or_zero QueryLimit.new get
task_reserves = refl

one_task_reached : Reachable (initial 4 2) one_task
one_task_reached = then_step at_start (reserved 9 (initial 4 2) task_reserves)

Reachable-Balanced_example : Balanced (max 4 1) (max 2 1) one_task
Reachable-Balanced_example = Reachable-Balanced 4 2 one_task one_task_reached
