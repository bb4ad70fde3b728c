-- ===== src/Dns/Cache/Lookup.antt =====
-- `DnsCache::get` of nimbus-core/src/dns/cache.rs: what it answers, and what it leaves.
use nimbusdns.Common.{
  ℕ, ◌<◌, ◌≡◌, ◌≢◌, ◌⊎◌, ◌+◌, ◌%◌, ◌^◌, refl, sym, subst, ◌∙◌, ap, inl, inr, true, false, none,
  some, List, [], ◌∷◌, All, ite, length, arith, Bool-cases, Option-cases,
}
use nimbusdns.Common.Iteration.{Iteration}
use nimbusdns.Common.Map.{get, Unique, get-insert, get-remove, get-insert_self}
use nimbusdns.Dns.Cache.{
  CacheKey, CachedResponse, DnsCache, key_discrete, is_expired, insert_response, get_response,
  look_up, record_hit,
}
use nimbusdns.Dns.Cache.Insert.{insert_response-ends}

-- A hit: the entry is in the cache and has not expired, the answer is the entry with one hit more,
-- which is stored.
abbrev pub Hit : CacheKey → ℕ → DnsCache → DnsCache → CachedResponse → Type 0
Hit key now c d r =
    (e : CachedResponse) × (get key_discrete key c.entries ≡ some e)
    × (is_expired now e ≡ false)
    × (r ≡ record_hit e)
    × (get key_discrete key d.entries ≡ some r)

module _ (key : CacheKey) (now : ℕ) (c : DnsCache) where
  -- A lookup answers with an entry that has not expired, counting the hit in it and in the total.
  pub get_response-Hit :
      (r : CachedResponse)
      → (get_response key now c).1 ≡ some r
      → Hit key now c (get_response key now c).0 r
        × ((get_response key now c).0.total_hits ≡ (c.total_hits + 1) % 2 ^ 64)
  unfolding get_response look_up
  get_response-Hit r h = elim (Option-cases (get key_discrete key c.entries)) [
    | inl n ↦ absurd (ground arith)
    | inr (e, q) ↦ elim (Bool-cases (is_expired now e)) [
      | inl t ↦ absurd (ground arith)
      | inr f ↦
          let same : r ≡ record_hit e = ground arith in
          rw (q, f)
            (
              (
                e,
                refl,
                f,
                same,
                get-insert_self key_discrete key (record_hit e) c.entries ∙ ap some (sym same),
              ),
              refl,
            )
    ]
  ]

  -- A lookup without an answer leaves no entry of the key; it counts a miss only for an entry that
  -- had expired.
  pub get_response_miss :
      (get_response key now c).1 ≡ none
      → (get key_discrete key (get_response key now c).0.entries ≡ none)
        × ((get key_discrete key c.entries ≡ none) × ((get_response key now c).0 ≡ c)
            ⊎ (e : CachedResponse) × (get key_discrete key c.entries ≡ some e)
              × (is_expired now e ≡ true)
              × ((get_response key now c).0.total_misses ≡ (c.total_misses + 1) % 2 ^ 64))
  unfolding get_response look_up
  get_response_miss h = elim (Option-cases (get key_discrete key c.entries)) [
    | inl n ↦ rw n (n, inl (refl, refl))
    | inr (e, q) ↦ elim (Bool-cases (is_expired now e)) [
      | inl t ↦
          rw (q, t)
            (ground (arith, get-remove key_discrete key key c.entries), inr (e, refl, t, refl))
      | inr f ↦ absurd (ground arith)
    ]
  ]

  -- A lookup changes no entry of another key.
  pub get_response_others :
      (k : CacheKey)
      → key ≢ k
      → get key_discrete k (get_response key now c).0.entries ≡ get key_discrete k c.entries
  unfolding get_response look_up
  get_response_others k ne = elim (Option-cases (get key_discrete key c.entries)) [
    | inl n ↦ rw n refl
    | inr (e, q) ↦ elim (Bool-cases (is_expired now e)) [
      | inl t ↦ rw (q, t) (ground (arith, get-remove key_discrete k key c.entries))
      | inr f ↦ rw (q, f) (ground (arith, get-insert key_discrete k key (record_hit e) c.entries))
    ]
  ]

-- The cache after lookups of keys at times.
abbrev pub look_all : List (CacheKey × ℕ) → DnsCache → DnsCache
look_all [] c = c
look_all (l ∷ ls) c = look_all ls (get_response l.0 l.1 c).0

-- How many of the lookups are of the key.
abbrev pub lookups_of : CacheKey → List (CacheKey × ℕ) → ℕ
lookups_of key [] = 0
lookups_of key (l ∷ ls) = ite (key_discrete l.0 key) 1 0 + lookups_of key ls

-- The response is stored, with so many hits more.
abbrev Stored : CacheKey → CachedResponse → ℕ → DnsCache → Type 0
Stored key response n c =
    (h : ℕ) × ((get key_discrete key c.entries ≡ some (record response { hits = h }))
      × (h % 2 ^ 64 ≡ (response.hits + n) % 2 ^ 64))

-- One lookup of the key before it expires.
hit_once :
    (key : CacheKey) (now h : ℕ) (response : CachedResponse) (c : DnsCache)
    → get key_discrete key c.entries ≡ some (record response { hits = h })
    → is_expired now response ≡ false
    → ((get_response key now c).1 ≡ some (record response { hits = (h + 1) % 2 ^ 64 }))
      × (get key_discrete key (get_response key now c).0.entries
          ≡ some (record response { hits = (h + 1) % 2 ^ 64 }))
unfolding get_response look_up is_expired record_hit
hit_once key now h response c e f =
    rw (e, f)
      (
        refl,
        get-insert_self key_discrete key (record response { hits = (h + 1) % 2 ^ 64 }) c.entries,
      )

step-Stored :
    (key k : CacheKey) (now n : ℕ) (response : CachedResponse) (c : DnsCache)
    → Stored key response n c
    → is_expired now response ≡ false
    → Stored key response (n + ite (key_discrete k key) 1 0) (get_response k now c).0
step-Stored key k now n response c (h, (e, m)) f = elim (key_discrete k key) [
  | yes p ↦
      let one : ite {C = ℕ} (key_discrete k key) 1 0 ≡ 1 = ground (arith, p) in
      (
        (h + 1) % 2 ^ 64,
        (
          subst
              (λ j.
                get key_discrete key (get_response j now c).0.entries
                ≡ some (record response { hits = (h + 1) % 2 ^ 64 }))
              (sym p) (hit_once key now h response c e f).1,
          omega (arith, m, one),
        ),
      )
  | no q ↦
      let none_more : ite {C = ℕ} (key_discrete k key) 1 0 ≡ 0 = ground (arith, q) in
      (h, (get_response_others k now c key q ∙ e, omega (arith, m, none_more)))
]

look_all-Stored :
    (key : CacheKey) (response : CachedResponse) (ls : List (CacheKey × ℕ)) (n : ℕ) (c : DnsCache)
    → Stored key response n c
    → All (λ l. is_expired l.1 response ≡ false) ls
    → Stored key response (n + lookups_of key ls) (look_all ls c)
look_all-Stored key response [] n c s a = subst (λ m. Stored key response m c) (omega arith) s
look_all-Stored key response (l ∷ ls) n c s a =
    let one = step-Stored key l.0 l.1 n response c s a.0 in
    let more = look_all-Stored key response ls _ (get_response l.0 l.1 c).0 one a.1 in
    subst (λ m. Stored key response m (look_all ls (get_response l.0 l.1 c).0)) (omega arith) more

-- A response that is inserted into a cache that may hold at least one entry is found by a lookup that
-- comes before it expires, after any lookups of any keys that do so too, with no insertion or removal
-- between: it is as it was inserted, and its hits count this lookup and those of its key before.
pub get_response-insert_response :
    (walk : Iteration key_discrete CachedResponse) (key : CacheKey) (response : CachedResponse)
    (now later : ℕ) (ls : List (CacheKey × ℕ)) (c : DnsCache)
    → Unique key_discrete c.entries
    → 0 < c.max_entries
    → All (λ l. is_expired l.1 response ≡ false) ls
    → is_expired later response ≡ false
    → (d : DnsCache) × (insert_response walk (length c.entries + 1) key response now c ≡ some d)
      × ((get_response key later (look_all ls d)).1
          ≡ some (record response { hits = (response.hits + lookups_of key ls + 1) % 2 ^ 64 }))
get_response-insert_response walk key response now later ls c u pos before live =
    let (d, e, i) =
      insert_response-ends key response now c u walk (length c.entries + 1) pos (omega arith) in
    let (h, (found, m)) =
      look_all-Stored key response ls 0 d (response.hits, (i.stored, omega arith)) before in
    let same : (h + 1) % 2 ^ 64 ≡ (response.hits + lookups_of key ls + 1) % 2 ^ 64 =
      omega (arith, m) in
    (
      d,
      e,
      (hit_once key later h response (look_all ls d) found live).0
          ∙ ap (λ k. some (record response { hits = k })) same,
    )
