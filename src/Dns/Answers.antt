-- ===== src/Dns/Answers.antt =====
-- What nimbus-core/src/dns/router.rs makes of messages: the time for which a response is cached, the
-- ages of its records, and the answers for blocked names and for errors. `Message` is what the router
-- reads and writes of a message of hickory_proto.
pub mod Ttl
use mathlib.Core.Option
use nimbusdns.Common.{
  ℕ, ◌+◌, ◌-◌, ◌/◌, ◌%◌, ◌^◌, min, max, Bool, true, false, not, ◌&&◌, Option, none, some, List, [],
  ◌∷◌, map, keep, length, ltb, leb, ◌==◌, if◌then◌else◌,
}
use nimbusdns.Common.Iteration.{Iteration}
use nimbusdns.Dns.Cache.{
  Bytes, second, CachedResponse, CacheKey, key_discrete, DnsCache, get_response, insert_response,
}
use nimbusdns.Dns.RateLimit.{RateDecision, RateLimiter}
use nimbusdns.Dns.RateLimit as RateLimit

pub data BlockingMode : Type 0 where
  null ip nxdomain refused nodata disabled : BlockingMode

pub data IpAddr : Type 0 where
  v4 : ℕ → IpAddr
  v6 : List ℕ → IpAddr

pub data RData : Type 0 where
  a : ℕ → RData
  aaaa : List ℕ → RData
  soa : RData
  other : ℕ → Bytes → RData

pub record Question : Type 0 where
  pub name : Bytes
  pub query_type : ℕ

pub record Record : Type 0 where
  pub name : Bytes
  pub ttl : ℕ
  pub rdata : RData

pub record Edns : Type 0 where
  pub max_payload : ℕ
  pub dnssec_ok : Bool
  pub version : ℕ

pub record Message : Type 0 where
  pub id : ℕ
  pub response_code : ℕ
  pub recursion_desired : Bool
  pub recursion_available : Bool
  pub authoritative : Bool
  pub queries : List Question
  pub answers : List Record
  pub authorities : List Record
  pub additionals : List Record
  pub edns : Option Edns

abbrev pub type_a : ℕ
type_a = 1

abbrev pub type_aaaa : ℕ
type_aaaa = 28

abbrev pub no_error : ℕ
no_error = 0

abbrev pub form_err : ℕ
form_err = 1

abbrev pub serv_fail : ℕ
serv_fail = 2

abbrev pub nx_domain : ℕ
nx_domain = 3

abbrev pub refused_code : ℕ
refused_code = 5

pub data QueryResult : Type 0 where
  response : Bytes → QueryResult
  server_failure refused : QueryResult

unfoldable pub blocking_applies : BlockingMode → Bool
blocking_applies disabled = false
blocking_applies _ = true

unfoldable pub is_soa : Record → Bool
is_soa r = elim r.rdata [ soa ↦ true | _ ↦ false ]

-- `iter().map(|r| r.ttl).min().unwrap_or(0)`
unfoldable pub least_ttl : List Record → ℕ
least_ttl [] = 0
least_ttl (r ∷ []) = r.ttl
least_ttl (r ∷ s ∷ rs) = min r.ttl (least_ttl (s ∷ rs))

unfoldable pub is_empty : List Record → Bool
is_empty [] = true
is_empty _ = false

unfoldable pub cache_ttl_secs : Message → ℕ
cache_ttl_secs m =
    if m.response_code == serv_fail
    then 0
    else if not (is_empty m.answers)
    then least_ttl m.answers
    else least_ttl (keep is_soa m.authorities)

unfoldable pub age : ℕ → Record → Record
age elapsed r = record r { ttl = r.ttl - elapsed }

unfoldable pub decrement_ttls : ℕ → Message → Message
decrement_ttls elapsed m = record m {
  answers = map (age elapsed) m.answers;
  authorities = map (age elapsed) m.authorities;
  additionals = map (age elapsed) m.additionals;
}

unfoldable pub add_edns0 : Message → Message
add_edns0 m = record m {
  edns = some (record { max_payload = 4096; dnssec_ok = true; version = 0 });
}

-- `Message::error_msg` with the questions of the query.
unfoldable pub error_msg : ℕ → ℕ → List Question → Message
error_msg id code queries = record {
  id = id;
  response_code = code;
  recursion_desired = false;
  recursion_available = false;
  authoritative = false;
  queries = queries;
  answers = [];
  authorities = [];
  additionals = [];
  edns = none;
}

unfoldable pub first_name : List Question → Option Bytes
first_name [] = none
first_name (q ∷ qs) = some q.name

unfoldable pub blocking_v4 : IpAddr → ℕ
blocking_v4 (v4 address) = address
blocking_v4 (v6 address) = 0

unfoldable pub blocking_v6 : IpAddr → List ℕ
blocking_v6 (v4 address) = 0 ∷ 0 ∷ 0 ∷ 0 ∷ 0 ∷ 0 ∷ 0 ∷ 0 ∷ []
blocking_v6 (v6 address) = address

-- The answer for a blocked name, of two seconds.
unfoldable pub blocked_answers : ℕ → ℕ → List ℕ → Option Bytes → List Record
blocked_answers qtype address4 address6 none = []
blocked_answers qtype address4 address6 (some name) =
    if qtype == type_a
    then record { name = name; ttl = 2; rdata = a address4 } ∷ []
    else if qtype == type_aaaa
    then record { name = name; ttl = 2; rdata = aaaa address6 } ∷ []
    else []

-- The response code and the answers of each mode.
unfoldable pub blocked_parts : BlockingMode → ℕ → IpAddr → Option Bytes → ℕ × List Record
blocked_parts null qtype blocking_ip name =
    (no_error, blocked_answers qtype 0 (0 ∷ 0 ∷ 0 ∷ 0 ∷ 0 ∷ 0 ∷ 0 ∷ 0 ∷ []) name)
blocked_parts nxdomain qtype blocking_ip name = (nx_domain, [])
blocked_parts refused qtype blocking_ip name = (refused_code, [])
blocked_parts nodata qtype blocking_ip name = (no_error, [])
blocked_parts ip qtype blocking_ip name =
    (no_error, blocked_answers qtype (blocking_v4 blocking_ip) (blocking_v6 blocking_ip) name)
blocked_parts disabled qtype blocking_ip name = (no_error, [])

unfoldable pub blocked_message : Message → BlockingMode → ℕ → IpAddr → Message
unfolding blocked_parts
blocked_message query mode qtype blocking_ip =
    let parts = blocked_parts mode qtype blocking_ip (first_name query.queries) in
    add_edns0 (record (error_msg query.id (parts.0) query.queries) {
      recursion_desired = query.recursion_desired;
      recursion_available = true;
      answers = parts.1;
    })

-- The first two bytes of a response hold its id.
unfoldable pub patch_id : ℕ → Bytes → Bytes
patch_id id (x ∷ y ∷ bytes) = id / 256 % 256 ∷ id % 256 ∷ bytes
patch_id id bytes = bytes
