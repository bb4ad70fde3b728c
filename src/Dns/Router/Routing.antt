-- ===== src/Dns/Router/Routing.antt =====
-- A query is always answered, and the answer has its reason.
use nimbusdns.Common.{
  ℕ, ◌+◌, ◌<◌, ◌≡◌, ◌⊎◌, refl, ap, ◌∙◌, subst, inl, inr, Bool, true, false, Option, none, some,
  List, [], ◌∷◌, length, ltb, ◌-◌, ◌&&◌, arith, Bool-cases, Option-cases,
}
use nimbusdns.Common.Iteration.{Iteration}
use nimbusdns.Common.Map.{get, Unique, remove-Unique, insert-Unique}
use nimbusdns.Dns.Cache.{
  Bytes, CachedResponse, CacheKey, key_discrete, DnsCache, get_response, look_up, record_hit,
  is_expired,
}
use nimbusdns.Dns.Cache.Insert.{insert_response-ends}
use nimbusdns.Dns.RateLimit.{RateDecision, allowed, limited_first, limited}
use nimbusdns.Dns.RateLimit as RateLimit
use nimbusdns.Dns.Answers.{
  Message, Question, QueryResult, cache_ttl_secs, blocking_applies, form_err, serv_fail,
  refused_code,
}
use nimbusdns.Dns.Router.{
  Router, Settings, Times, route, route_question, limit, route_allowed, answer_from, forwarded,
  finish_forward, store_answer, log_query, cache_key, make_error_response, make_blocked_response,
  cached_answer,
}

-- The cache has room for an entry, and holds no key twice.
abbrev pub Ready : DnsCache → Type 0
Ready c = Unique key_discrete c.entries × (0 < c.max_entries)

-- What the rate limiter says of the query.
abbrev pub decision : ℕ → Times → Router → RateDecision
decision client times r = (RateLimit.check client times.at_limit r.rate_limiter).1

-- An outcome with a cache that is still ready, and with a reason.
pub record Answered (B : Router → QueryResult → Type 0) (o : Option (Router × QueryResult))
    : Type 0 where
  pub router : Router
  pub result : QueryResult
  pub answered : o ≡ some (router, result)
  pub ready : Ready router.cache
  pub because : B router result

-- What the cache holds under the key can be answered.
abbrev pub Live : CacheKey → ℕ → DnsCache → CachedResponse → Type 0
Live key now c e = (get key_discrete key c.entries ≡ some e) × (is_expired now e ≡ false)

module _ (to_vec : Message → Option Bytes) (from_vec : Bytes → Option Message)
    (lower : Bytes → Bytes) (is_blocked : Bytes → Bool) (forward : Message → Option Message)
    (walk : Iteration key_discrete CachedResponse) where
  -- The answer of the upstreams as it is passed on.
  abbrev pub passed_on : Message → Message
  passed_on m = record m { recursion_available = true; authoritative = false }

  -- Neither blocked nor in the cache.
  pub record Missed (settings : Settings) (q : Question) (key : CacheKey) (now : ℕ) (r : Router)
      : Type 0 where
    pub unblocked : (blocking_applies settings.blocking_mode && is_blocked q.name) ≡ false
    pub missed : (e : CachedResponse) → Live key now r.cache e → ⊥

  -- The message is what an upstream answered, as it is passed on, and the bytes are its encoding; it is
  -- in the cache afterwards, if it has time to live left.
  pub record Relayed (query : Message) (q : Question) (key : CacheKey) (times : Times)
      (bytes : Bytes) (s : Router) : Type 0 where
    pub answer : Message
    pub from_upstream : forward query ≡ some answer
    pub encoding : to_vec (passed_on answer) ≡ some bytes
    pub kept :
        ltb 0 (cache_ttl_secs (passed_on answer) - times.spent_secs) ≡ true
        → get key_discrete key s.cache.entries
          ≡ some record {
            bytes = bytes;
            cached_at = times.at_store;
            original_ttl = cache_ttl_secs (passed_on answer) - times.spent_secs;
            ttl = cache_ttl_secs (passed_on answer) - times.spent_secs;
            qtype = q.query_type;
            qclass = 1;
            hits = 0;
          }

  -- Why a query of the question `q` is answered as it is, with the router `r` before.
  pub data Because (settings : Settings) (query : Message) (q : Question) (times : Times)
      (r : Router) : Router → QueryResult → Type 0 where
    was_blocked :
        {s : Router}
        → blocking_applies settings.blocking_mode ≡ true
        → is_blocked q.name ≡ true
        → s.log ≡ 1 ∷ r.log
        → Because settings query q times r s (
            make_blocked_response to_vec from_vec lower is_blocked forward walk query
              settings.blocking_mode q.query_type settings.blocking_ip)
    was_cached :
        {s : Router} (e : CachedResponse)
        → (blocking_applies settings.blocking_mode && is_blocked q.name) ≡ false
        → Live
            (cache_key to_vec from_vec lower is_blocked forward walk query q)
            times.at_lookup
            r.cache
            e
        → s.log ≡ 2 ∷ r.log
        → Because settings query q times r s (
            QueryResult.response (
              cached_answer to_vec from_vec lower is_blocked forward walk query
                (record_hit e)
                times.at_answer))
    was_forwarded :
        {s : Router} (bytes : Bytes)
        → Missed settings q
            (cache_key to_vec from_vec lower is_blocked forward walk query q)
            times.at_lookup
            r
        → Relayed query q
            (cache_key to_vec from_vec lower is_blocked forward walk query q)
            times
            bytes
            s
        → s.log ≡ 3 ∷ r.log
        → Because settings query q times r s (QueryResult.response bytes)
    has_failed :
        {s : Router}
        → Missed settings q
            (cache_key to_vec from_vec lower is_blocked forward walk query q)
            times.at_lookup
            r
        → ((m : Message) → forward query ≡ some m → to_vec (passed_on m) ≡ none)
        → s.log ≡ 5 ∷ r.log
        → Because settings query q times r s
            (make_error_response to_vec from_vec lower is_blocked forward walk query serv_fail)

  -- The reason, with the rate limit before it.
  abbrev pub Reason :
      Settings → Message → ℕ → Times → Router → Router → QueryResult → List Question → Type 0
  Reason settings query client times r s result [] =
      (s ≡ r)
      × (result ≡ make_error_response to_vec from_vec lower is_blocked forward walk query form_err)
  Reason settings query client times r s result (q ∷ qs) =
      ((decision client times r ≡ allowed) × Because settings query q times r s result)
      ⊎ ((result
            ≡ make_error_response to_vec from_vec lower is_blocked forward walk query refused_code)
          × (((decision client times r ≡ limited_first) × (s.log ≡ 7 ∷ r.log))
              ⊎ ((decision client times r ≡ limited) × (s.log ≡ r.log))))

  store_answer-Ready :
      (key : CacheKey) (q : Question) (times : Times) (m : Message) (bytes : Bytes) (r : Router)
      → Ready r.cache
      → (s : Router) × (store_answer to_vec from_vec lower is_blocked forward walk key q times m
            bytes r
          ≡ some s)
        × Ready s.cache
        × (s.log ≡ r.log)
        × (ltb 0 (cache_ttl_secs m - times.spent_secs) ≡ true
            → get key_discrete key s.cache.entries
              ≡ some record {
                bytes = bytes;
                cached_at = times.at_store;
                original_ttl = cache_ttl_secs m - times.spent_secs;
                ttl = cache_ttl_secs m - times.spent_secs;
                qtype = q.query_type;
                qclass = 1;
                hits = 0;
              })
  unfolding store_answer
  store_answer-Ready key q times m bytes r h =
      elim (Bool-cases (ltb 0 (cache_ttl_secs m - times.spent_secs))) [
        | inr f ↦ (r, rw f refl, h, refl, λ t. absurd (ground (arith, t, f)))
        | inl t ↦
            let ttl = cache_ttl_secs m - times.spent_secs in
            let stored : CachedResponse = record {
              bytes = bytes;
              cached_at = times.at_store;
              original_ttl = ttl;
              ttl = ttl;
              qtype = q.query_type;
              qclass = 1;
              hits = 0;
            } in
            let (d, e, i) =
              insert_response-ends key stored times.at_store r.cache h.0 walk
                (length (r.cache.entries) + 1) h.1 (omega arith) in
            (
              record r { cache = d },
              rw (t, e) refl,
              (i.unique, ground (arith, h.1, i.same_max)),
              refl,
              λ _. i.stored,
            )
      ]

  module _ (settings : Settings) (query : Message) (q : Question) (times : Times) (r : Router) where
    finish-Answered :
        (r1 : Router) (m : Message)
        → Ready r1.cache
        → r1.log ≡ r.log
        → Missed settings q
            (cache_key to_vec from_vec lower is_blocked forward walk query q)
            times.at_lookup
            r
        → forward query ≡ some m
        → (o : Option Bytes) → to_vec (passed_on m) ≡ o
        → Answered (Because settings query q times r) (
            finish_forward to_vec from_vec lower is_blocked forward walk
              (cache_key to_vec from_vec lower is_blocked forward walk query q)
              query
              q
              times
              r1
              (passed_on m)
              o)
    unfolding finish_forward log_query
    finish-Answered r1 m h l miss f none t = record {
      router = _;
      result = _;
      answered = refl;
      ready = h;
      because =
          has_failed miss
            (λ n g.
              let e : m ≡ n = ground (arith, f, g) in subst (λ k. to_vec (passed_on k) ≡ none) e t)
            (ap (λ l. 5 ∷ l) l);
    }
    finish-Answered r1 m h l miss f (some bytes) t =
        let (s, e, ready, same, kept) =
          store_answer-Ready (cache_key to_vec from_vec lower is_blocked forward walk query q) q
            times (passed_on m) bytes r1 h in
        record {
          router = record s { log = 3 ∷ s.log };
          result = QueryResult.response bytes;
          answered = rw e refl;
          ready = ready;
          because =
              was_forwarded bytes miss
                (record { answer = m; from_upstream = f; encoding = t; kept = kept })
                (ap (λ l. 3 ∷ l) (same ∙ l));
        }

    forwarded-Answered :
        (r1 : Router)
        → Ready r1.cache
        → r1.log ≡ r.log
        → Missed settings q
            (cache_key to_vec from_vec lower is_blocked forward walk query q)
            times.at_lookup
            r
        → (o : Option Message) → forward query ≡ o
        → Answered (Because settings query q times r) (
            forwarded to_vec from_vec lower is_blocked forward walk
              (cache_key to_vec from_vec lower is_blocked forward walk query q)
              query
              q
              times
              r1
              o)
    unfolding forwarded log_query
    forwarded-Answered r1 h l miss none f = record {
      router = _;
      result = _;
      answered = refl;
      ready = h;
      because = has_failed miss (λ m g. absurd (ground (arith, f, g))) (ap (λ l. 5 ∷ l) l);
    }
    forwarded-Answered r1 h l miss (some answer) f =
        finish-Answered r1 answer h l miss f (to_vec (passed_on answer)) refl

    -- What a lookup gives: the live entry, or nothing where there is none.
    answers-Answered :
        Ready r.cache
        → (blocking_applies settings.blocking_mode && is_blocked q.name) ≡ false
        → Answered (Because settings query q times r) (
            answer_from to_vec from_vec lower is_blocked forward walk
              (cache_key to_vec from_vec lower is_blocked forward walk query q)
              query
              q
              times
              r
              (get_response
                (cache_key to_vec from_vec lower is_blocked forward walk query q)
                times.at_lookup
                r.cache))
    unfolding answer_from log_query get_response look_up
    answers-Answered h b =
        let key = cache_key to_vec from_vec lower is_blocked forward walk query q in
        elim (Option-cases (get key_discrete key r.cache.entries)) [
          | inl n ↦ rw n (
              forwarded-Answered _ h refl
                (record { unblocked = b; missed = λ e v. ground (arith, n, v.0) }) (forward query)
                refl)
          | inr (e, g) ↦ elim (Bool-cases (is_expired times.at_lookup e)) [
            | inl t ↦
                rw (g, t)
                  (forwarded-Answered _ (remove-Unique key_discrete key r.cache.entries h.0, h.1)
                    refl
                    (record {
                      unblocked = b;
                      missed = λ d v.
                          let x : e ≡ d = ground (arith, g, v.0) in
                          ground (arith, v.1, subst (λ k. is_expired times.at_lookup k ≡ true) x t);
                    })
                    (forward query) refl)
            | inr f ↦
                rw (g, f)
                  (record {
                    router = _;
                    result = _;
                    answered = refl;
                    ready =
                        (insert-Unique key_discrete key (record_hit e) r.cache.entries h.0, h.1);
                    because = was_cached e b (g, f) refl;
                  })
          ]
        ]

    route_allowed-Answered :
        Ready r.cache
        → Answered
            (Because settings query q times r)
            (route_allowed to_vec from_vec lower is_blocked forward walk settings query q times r)
    unfolding route_allowed log_query
    route_allowed-Answered h =
        elim (Bool-cases (blocking_applies settings.blocking_mode && is_blocked q.name)) [
          | inl t ↦ rw t (record {
            router = _;
            result = _;
            answered = refl;
            ready = h;
            because = was_blocked (ground (arith, t)) (ground (arith, t)) refl;
          })
          | inr f ↦ rw f (answers-Answered h f)
        ]

  -- The router after its rate limiter has seen the query.
  abbrev seen : ℕ → Times → Router → Router
  seen client times r = record r {
    rate_limiter = (RateLimit.check client times.at_limit r.rate_limiter).0;
  }

  -- The rate limiter has no part in what follows.
  seen-Because :
      (settings : Settings) (query : Message) (q : Question) (client : ℕ) (times : Times)
      (r s : Router) (result : QueryResult)
      → Because settings query q times (seen client times r) s result
      → Because settings query q times r s result
  seen-Because settings query q client times r s _ (was_blocked a b l) = was_blocked a b l
  seen-Because settings query q client times r s _ (was_cached e b h l) = was_cached e b h l
  seen-Because settings query q client times r s _ (was_forwarded bytes m k l) =
      was_forwarded bytes (record { unblocked = m.unblocked; missed = m.missed }) k l
  seen-Because settings query q client times r s _ (has_failed m f l) =
      has_failed (record { unblocked = m.unblocked; missed = m.missed }) f l

  limit-Answered :
      (settings : Settings) (query : Message) (client : ℕ) (times : Times) (r : Router)
      (q : Question) (qs : List Question)
      → Ready r.cache
      → (d : RateDecision) → decision client times r ≡ d
      → Answered
          (λ s result. Reason settings query client times r s result (q ∷ qs))
          (limit to_vec from_vec lower is_blocked forward walk settings query q times
            (seen client times r)
            d)
  unfolding limit log_query
  limit-Answered settings query client times r q qs h allowed e =
      let a = route_allowed-Answered settings query q times (seen client times r) h in
      record {
        router = a.router;
        result = a.result;
        answered = a.answered;
        ready = a.ready;
        because = inl (e, seen-Because settings query q client times r a.router a.result a.because);
      }
  limit-Answered settings query client times r q qs h limited_first e = record {
    router = _;
    result = _;
    answered = refl;
    ready = h;
    because = inr (refl, inl (e, refl));
  }
  limit-Answered settings query client times r q qs h limited e = record {
    router = _;
    result = _;
    answered = refl;
    ready = h;
    because = inr (refl, inr (e, refl));
  }

  -- If the cache has room for an entry and holds no key twice, every query gets an answer, the cache
  -- stays so, and the answer has its reason. A query without a question is a format error. One that the
  -- rate limiter refuses is refused, and logged if it is the first of its window. Else a name that is
  -- blocked, where blocking applies, gets the answer of the blocking mode; one that is not is answered
  -- from the live entry of the cache; where there is none, with what the upstreams answered, which is in
  -- the cache afterwards if it has time to live left; and with a server failure only if no upstream
  -- answered or the answer has no encoding. Each of these is logged with its own status.
  pub route-Answered :
      (settings : Settings) (query : Message) (client : ℕ) (times : Times) (r : Router)
      → Ready r.cache
      → Answered
          (λ s result. Reason settings query client times r s result query.queries)
          (route to_vec from_vec lower is_blocked forward walk settings query client times r)
  unfolding route route_question
  route-Answered settings query client times r h = by_questions query.queries
    where
      by_questions :
          (qs : List Question)
          → Answered
              (λ s result. Reason settings query client times r s result qs)
              (elim qs [
                | [] ↦ some (
                  r,
                  make_error_response to_vec from_vec lower is_blocked forward walk query form_err,
                )
                | q ∷ _ ↦
                    route_question to_vec from_vec lower is_blocked forward walk settings query q
                      client times r
              ])
      by_questions [] = record {
        router = r;
        result = _;
        answered = refl;
        ready = h;
        because = (refl, refl);
      }
      by_questions (q ∷ qs) = limit-Answered settings query client times r q qs h _ refl
