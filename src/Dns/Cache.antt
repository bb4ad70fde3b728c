-- ===== src/Dns/Cache.antt =====
-- `DnsCache` of nimbus-core/src/dns/cache.rs. An `Instant` is a number of nanoseconds; a `DashMap` is
-- an association list with a walk order of its own.
pub mod Room
pub mod Insert
pub mod Lookup
pub mod Domains
use mathlib.Core.List.{List-discrete}
use mathlib.Core.Option
use nimbusdns.Common.{
  ℕ, zero, suc, ◌+◌, ◌-◌, ◌*◌, ◌%◌, ◌^◌, Bool, not, Option, none, some, List, [], ◌∷◌, map, length,
  take, keep, ltb, leb, ◌==◌, test, ℕ_discrete, if◌then◌else◌,
}
use nimbusdns.Common.Iteration.{Iteration}
use nimbusdns.Common.Map.{get, remove, insert}

-- A byte string.
abbrev pub Bytes : Type 0
Bytes = List ℕ

pub record CachedResponse : Type 0 where
  pub bytes : Bytes
  pub cached_at : ℕ
  pub original_ttl : ℕ
  pub ttl : ℕ
  pub qtype : ℕ
  pub qclass : ℕ
  pub hits : ℕ

abbrev pub second : ℕ
second = 1000000000

-- `Instant::elapsed` saturates at 0.
unfoldable pub is_expired : ℕ → CachedResponse → Bool
is_expired now r = ltb (r.ttl * second) (now - r.cached_at)

unfoldable pub remaining_ttl : ℕ → CachedResponse → ℕ
remaining_ttl now r = r.ttl * second - (now - r.cached_at)

unfoldable pub record_hit : CachedResponse → CachedResponse
record_hit r = record r { hits = (r.hits + 1) % 2 ^ 64 }

pub record CacheKey : Type 0 where
  pub domain : Bytes
  pub qtype : ℕ
  pub qclass : ℕ
  pub dnssec_ok : Bool
  pub ecs_subnet : Option ℕ

unfoldable pub key_discrete : Discrete CacheKey
unfolding ℕ_discrete
key_discrete = hlevel ℕ_discrete

pub record DnsCache : Type 0 where
  pub entries : List (CacheKey × CachedResponse)
  pub max_entries : ℕ
  pub total_hits : ℕ
  pub total_misses : ℕ

unfoldable pub new : ℕ → DnsCache
new max_entries = record {
  entries = [];
  max_entries = max_entries;
  total_hits = 0;
  total_misses = 0;
}

unfoldable pub purge_expired : ℕ → DnsCache → DnsCache × ℕ
purge_expired now c =
    let left = keep (λ e. not (is_expired now e.1)) c.entries in
    (record c { entries = left }, length c.entries - length left)

-- The outcome of `entries.get(key)`.
unfoldable pub look_up :
    CacheKey → ℕ → DnsCache → Option CachedResponse → DnsCache × Option CachedResponse
look_up key now c none = (c, none)
look_up key now c (some entry) =
    if is_expired now entry
    then (
      record c {
        entries = remove key_discrete key c.entries;
        total_misses = (c.total_misses + 1) % 2 ^ 64;
      },
      none,
    )
    else (
      record c {
        entries = insert key_discrete key (record_hit entry) c.entries;
        total_hits = (c.total_hits + 1) % 2 ^ 64;
      },
      some (record_hit entry),
    )

unfoldable pub get_response : CacheKey → ℕ → DnsCache → DnsCache × Option CachedResponse
unfolding look_up
get_response key now c = look_up key now c (get key_discrete key c.entries)

-- `min_by_key`: the first of the entries with the least time.
unfoldable pub older : CacheKey × ℕ → Option (CacheKey × ℕ) → CacheKey × ℕ
older e none = e
older e (some f) = if leb e.1 f.1 then e else f

unfoldable pub oldest : List (CacheKey × ℕ) → Option (CacheKey × ℕ)
unfolding older
oldest [] = none
oldest (e ∷ es) = some (older e (oldest es))

unfoldable pub drop_candidate : DnsCache → Option (CacheKey × ℕ) → DnsCache
drop_candidate c none = c
drop_candidate c (some (k, t)) = record c { entries = remove key_discrete k c.entries }

-- The keys, with their times, of the first eight entries of a walk.
unfoldable pub candidates : List (CacheKey × CachedResponse) → List (CacheKey × ℕ)
candidates es = map (λ e. (e.0, e.1.cached_at)) (take 8 es)

-- What `insert` does before its loop, and after it.
unfoldable pub prepare : CacheKey → ℕ → DnsCache → DnsCache
prepare key now c =
    let c1 : DnsCache = record c { entries = remove key_discrete key c.entries } in
    if leb c1.max_entries (length c1.entries) then (purge_expired now c1).0 else c1

unfoldable pub store : CacheKey → CachedResponse → DnsCache → DnsCache
store key response c = record c { entries = insert key_discrete key response c.entries }

module _ (walk : Iteration key_discrete CachedResponse) where
  unfoldable pub evict_one : DnsCache → DnsCache
  unfolding drop_candidate
  evict_one c = drop_candidate c (oldest (candidates (walk.iter c.entries)))

  -- The loop `while self.entries.len() >= self.max_entries`, on fuel.
  unfoldable pub make_room : ℕ → DnsCache → Option DnsCache
  make_room zero c = none
  make_room (suc fuel) c =
      let rest = make_room fuel (evict_one c) in
      if leb c.max_entries (length c.entries) then rest else some c

  unfoldable pub insert_response : ℕ → CacheKey → CachedResponse → ℕ → DnsCache → Option DnsCache
  insert_response fuel key response now c =
      Option.map (store key response) (make_room fuel (prepare key now c))

-- A dot, and a name without the dots at its end (`trim_end_matches('.')`).
abbrev pub dot : ℕ
dot = 46

unfoldable pub cons_unless_dot : ℕ → Bytes → Bytes
cons_unless_dot ch [] = if ch == dot then [] else ch ∷ []
cons_unless_dot ch (d ∷ ds) = ch ∷ d ∷ ds

unfoldable pub trim_dots : Bytes → Bytes
unfolding cons_unless_dot
trim_dots [] = []
trim_dots (ch ∷ name) = cons_unless_dot ch (trim_dots name)

unfoldable pub same_name : Bytes → Bytes → Bool
unfolding ℕ_discrete
same_name a b = test (List-discrete ℕ_discrete a b)

unfoldable pub remove_keys :
    List CacheKey → List (CacheKey × CachedResponse) → List (CacheKey × CachedResponse)
remove_keys [] es = es
remove_keys (k ∷ ks) es = remove_keys ks (remove key_discrete k es)

unfoldable pub of_domain : Bytes → CacheKey × CachedResponse → Bool
of_domain domain e = same_name (trim_dots e.0.domain) (trim_dots domain)

module _ (walk : Iteration key_discrete CachedResponse) where
  unfoldable pub remove_domain : Bytes → DnsCache → DnsCache × ℕ
  remove_domain domain c =
      let keys = map (λ e. e.0) (keep (of_domain domain) (walk.iter c.entries)) in
      (record c { entries = remove_keys keys c.entries }, length keys)

unfoldable pub clear : DnsCache → DnsCache
clear c = record c { entries = [] }
