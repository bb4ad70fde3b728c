-- ===== src/Dns/Tests.antt =====
-- A cache of two entries and a limiter of two queries a second, at concrete inputs.
use nimbusdns.Common.{
  ℕ, ◌+◌, ◌%◌, ◌^◌, ◌≤◌, max, ◌≡◌, refl, false, none, some, List, [], ◌∷◌, if◌then◌else◌,
  ℕ_discrete, arith, arith,
}
use nimbusdns.Common.Iteration.{Iteration, in_order}
use nimbusdns.Common.Map.{get, Unique}
use nimbusdns.Dns.Cache.{
  CacheKey, CachedResponse, DnsCache, key_discrete, is_expired, second, insert_response,
  get_response, look_up, record_hit, same_name, trim_dots, remove_domain, new,
}
use nimbusdns.Dns.Cache.Insert.{Inserted, insert_response-ends, insert_response_diverges}
use nimbusdns.Dns.Cache.Lookup.{
  Hit, look_all, lookups_of, get_response-Hit, get_response-insert_response,
}
use nimbusdns.Dns.Cache.Domains.{remove_domain-get}
use nimbusdns.Dns.RateLimit.{RateLimiter}
use nimbusdns.Dns.RateLimit as RateLimit
use nimbusdns.Dns.RateLimit.Window.{tally, is_allowed, is_limited_first}
use nimbusdns.Dns.RateLimit.Bound.{check_bound}

abbrev walk : Iteration key_discrete CachedResponse
walk = in_order key_discrete

abbrev key : ℕ → CacheKey
key n = record { domain = n ∷ 46 ∷ []; qtype = 1; qclass = 1; dnssec_ok = false; ecs_subnet = none }

abbrev response : ℕ → CachedResponse
response at = record {
  bytes = 0 ∷ [];
  cached_at = at;
  original_ttl = 60;
  ttl = 60;
  qtype = 1;
  qclass = 1;
  hits = 0;
}

abbrev two : DnsCache
two = record {
  entries = (key 97, response 0) ∷ (key 98, response second) ∷ [];
  max_entries = 2;
  total_hits = 0;
  total_misses = 0;
}

two-Unique : Unique key_discrete two.entries
unfolding get key_discrete ℕ_discrete
two-Unique = (refl, (refl, tt))

insert_response-ends_example :
    (d : DnsCache) × (insert_response walk 3 (key 99) (response 5) 5 two ≡ some d)
    × Inserted (key 99) (response 5) 5 two d
insert_response-ends_example =
    insert_response-ends (key 99) (response 5) 5 two two-Unique walk 3 (omega arith) (omega arith)

insert_response_diverges_example : insert_response walk 1000 (key 99) (response 5) 5 (new 0) ≡ none
unfolding new
insert_response_diverges_example =
    insert_response_diverges (key 99) (response 5) 5 (new 0) tt walk 1000 refl

found : (get_response (key 97) 5 two).1 ≡ some (record_hit (response 0))
unfolding get_response look_up get is_expired key_discrete ℕ_discrete
found = refl

get_response-Hit_example :
    Hit (key 97) 5 two (get_response (key 97) 5 two).0 (record_hit (response 0))
    × ((get_response (key 97) 5 two).0.total_hits ≡ (0 + 1) % 2 ^ 64)
get_response-Hit_example = get_response-Hit (key 97) 5 two (record_hit (response 0)) found

abbrev late : ℕ
late = 61000000000

gone : (get_response (key 97) late two).1 ≡ none
unfolding get_response look_up get is_expired key_discrete ℕ_discrete
gone = refl

fresh : is_expired 10 (response 5) ≡ false
unfolding is_expired
fresh = refl

-- Between them, a lookup of the key and one of another key.
get_response-insert_response_example :
    (d : DnsCache) × (insert_response walk (2 + 1) (key 99) (response 5) 5 two ≡ some d)
    × ((get_response (key 99) 10 (look_all ((key 99, 10) ∷ (key 98, 10) ∷ []) d)).1
        ≡ some (record (response 5) {
          hits = (0 + lookups_of (key 99) ((key 99, 10) ∷ (key 98, 10) ∷ []) + 1) % 2 ^ 64;
        }))
get_response-insert_response_example =
    get_response-insert_response walk (key 99) (response 5) 5 10 ((key 99, 10) ∷ (key 98, 10) ∷ [])
      two two-Unique (omega arith) (fresh, (fresh, tt)) fresh

remove_domain-get_example :
    get key_discrete (key 97) (remove_domain walk (97 ∷ []) two).0.entries ≡ (
      if same_name (trim_dots (key 97).domain) (trim_dots (97 ∷ []))
      then none
      else get key_discrete (key 97) two.entries)
remove_domain-get_example = remove_domain-get walk (97 ∷ []) two (key 97)

abbrev queries : List (ℕ × ℕ)
queries = (7, 5) ∷ (8, 6) ∷ (7, 1000000000) ∷ []

check_bound_example :
    (tally is_allowed 7 ((7, 0) ∷ queries) (RateLimit.new 2 0) ≤ max 2 1)
    × (tally is_limited_first 7 ((7, 0) ∷ queries) (RateLimit.new 2 0) ≤ 1)
unfolding RateLimit.new get
check_bound_example =
    check_bound 7 0 (RateLimit.new 2 0) queries tt (λ start n h. cc)
      (omega arith, (omega arith, (omega arith, tt))) (omega arith)
