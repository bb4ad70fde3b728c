-- ===== src/Dns/Router.antt =====
-- `QueryRouter` of nimbus-core/src/dns/router.rs: the answer to one query. The encoding of messages,
-- the upstreams and `str::to_lowercase` are arguments.
pub mod Routing
mod Tests
use mathlib.Core.Option
use nimbusdns.Common.{
  ℕ, ◌+◌, ◌-◌, ◌/◌, ◌%◌, ◌^◌, min, max, Bool, true, false, not, ◌&&◌, Option, none, some, List, [],
  ◌∷◌, map, keep, length, ltb, leb, ◌==◌, if◌then◌else◌,
}
use nimbusdns.Common.Iteration.{Iteration}
use nimbusdns.Dns.Cache.{
  Bytes, second, CachedResponse, CacheKey, key_discrete, DnsCache, get_response, insert_response,
}
use nimbusdns.Dns.RateLimit.{RateDecision, RateLimiter}
use nimbusdns.Dns.RateLimit as RateLimit
use nimbusdns.Dns.Answers.{
  BlockingMode, IpAddr, RData, Question, Record, Edns, Message, type_a, type_aaaa, no_error,
  form_err, serv_fail, nx_domain, refused_code, QueryResult, blocking_applies, is_soa, least_ttl,
  is_empty, cache_ttl_secs, age, decrement_ttls, add_edns0, error_msg, first_name, blocking_v4,
  blocking_v6, blocked_answers, blocked_parts, blocked_message, patch_id, null, ip, nxdomain,
  refused, nodata, disabled, v4, v6, a, aaaa, soa, other, response, server_failure,
}

-- What one query reads off the clock.
pub record Times : Type 0 where
  pub at_limit : ℕ
  pub at_lookup : ℕ
  pub at_answer : ℕ
  pub spent_secs : ℕ
  pub at_store : ℕ

-- `log` holds the statuses that `log_query` counts over time, the latest first; with the query log
-- switched on they go to the database too.
pub record Router : Type 0 where
  pub cache : DnsCache
  pub rate_limiter : RateLimiter
  pub log : List ℕ

pub record Settings : Type 0 where
  pub blocking_mode : BlockingMode
  pub blocking_ip : IpAddr

module _ (to_vec : Message → Option Bytes) (from_vec : Bytes → Option Message)
    (lower : Bytes → Bytes) (is_blocked : Bytes → Bool) (forward : Message → Option Message)
    (walk : Iteration key_discrete CachedResponse) where
  unfoldable pub encoded : Option Bytes → QueryResult → QueryResult
  encoded none failed = failed
  encoded (some bytes) failed = response bytes

  unfoldable pub make_error_response : Message → ℕ → QueryResult
  unfolding encoded
  make_error_response query code =
      encoded (to_vec (add_edns0 (error_msg query.id code query.queries))) server_failure

  unfoldable pub make_blocked_response : Message → BlockingMode → ℕ → IpAddr → QueryResult
  unfolding encoded
  make_blocked_response query mode qtype blocking_ip =
      encoded (to_vec (blocked_message query mode qtype blocking_ip))
        (make_error_response query serv_fail)

  unfoldable pub log_query : ℕ → Router → Router
  log_query status r = record r { log = status ∷ r.log }

  unfoldable pub reencode : ℕ → Bytes → Option Message → Bytes
  reencode elapsed bytes none = bytes
  reencode elapsed bytes (some m) = Option.get_or (to_vec (decrement_ttls elapsed m)) bytes

  unfoldable pub cached_answer : Message → CachedResponse → ℕ → Bytes
  unfolding reencode
  cached_answer query cached now =
      let bytes = patch_id query.id cached.bytes in
      let elapsed = (now - cached.cached_at) / second % 2 ^ 32 in
      if ltb 0 elapsed then reencode elapsed bytes (from_vec bytes) else bytes

  -- A response that is stored, if it has a time to live.
  unfoldable pub store_answer :
      CacheKey → Question → Times → Message → Bytes → Router → Option Router
  store_answer key q times m bytes r =
      let ttl = cache_ttl_secs m - times.spent_secs in
      if ltb 0 ttl
      then Option.map (λ (c : DnsCache). record r { cache = c })
          (insert_response walk (length (r.cache.entries) + 1) key
            (record {
              bytes = bytes;
              cached_at = times.at_store;
              original_ttl = ttl;
              ttl = ttl;
              qtype = q.query_type;
              qclass = 1;
              hits = 0;
            })
            times.at_store r.cache)
      else some r

  unfoldable pub finish_forward :
      CacheKey
      → Message
      → Question
      → Times
      → Router
      → Message
      → Option Bytes
      → Option (Router × QueryResult)
  finish_forward key query q times r m none =
      some (log_query 5 r, make_error_response query serv_fail)
  finish_forward key query q times r m (some bytes) =
      Option.map (λ (s : Router). (log_query 3 s, response bytes))
        (store_answer key q times m bytes r)

  unfoldable pub forwarded :
      CacheKey
      → Message
      → Question
      → Times
      → Router
      → Option Message
      → Option (Router × QueryResult)
  unfolding finish_forward
  forwarded key query q times r none = some (log_query 5 r, make_error_response query serv_fail)
  forwarded key query q times r (some answer) =
      let m : Message = record answer { recursion_available = true; authoritative = false } in
      finish_forward key query q times r m (to_vec m)

  unfoldable pub answer_from :
      CacheKey
      → Message
      → Question
      → Times
      → Router
      → DnsCache × Option CachedResponse
      → Option (Router × QueryResult)
  answer_from key query q times r (c, some cached) =
      some (
        log_query 2 (record r { cache = c }),
        response (cached_answer query cached times.at_answer),
      )
  answer_from key query q times r (c, none) =
      forwarded key query q times (record r { cache = c }) (forward query)

  unfoldable pub dnssec_ok : Option Edns → Bool
  dnssec_ok none = false
  dnssec_ok (some e) = e.dnssec_ok

  unfoldable pub cache_key : Message → Question → CacheKey
  cache_key query q = record {
    domain = lower q.name;
    qtype = q.query_type;
    qclass = 1;
    dnssec_ok = dnssec_ok query.edns;
    ecs_subnet = none;
  }

  unfoldable pub route_allowed :
      Settings → Message → Question → Times → Router → Option (Router × QueryResult)
  unfolding answer_from
  route_allowed settings query q times r =
      if blocking_applies settings.blocking_mode && is_blocked q.name
      then some (
        log_query 1 r,
        make_blocked_response query settings.blocking_mode q.query_type settings.blocking_ip,
      )
      else answer_from (cache_key query q) query q times r
          (get_response (cache_key query q) times.at_lookup r.cache)

  unfoldable pub limit :
      Settings → Message → Question → Times → Router → RateDecision → Option (Router × QueryResult)
  limit settings query q times r RateDecision.allowed = route_allowed settings query q times r
  limit settings query q times r RateDecision.limited_first =
      some (log_query 7 r, make_error_response query refused_code)
  limit settings query q times r RateDecision.limited =
      some (r, make_error_response query refused_code)

  unfoldable pub route_question :
      Settings → Message → Question → ℕ → Times → Router → Option (Router × QueryResult)
  unfolding limit
  route_question settings query q client times r =
      let c = RateLimit.check client times.at_limit r.rate_limiter in
      limit settings query q times (record r { rate_limiter = c.0 }) (c.1)

  unfoldable pub route : Settings → Message → ℕ → Times → Router → Option (Router × QueryResult)
  route settings query client times r = elim query.queries [
    | [] ↦ some (r, make_error_response query form_err)
    | q ∷ _ ↦ route_question settings query q client times r
  ]
