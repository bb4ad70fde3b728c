-- ===== src/Dns/Cache/Insert.antt =====
-- `DnsCache::insert`: it ends with the entry stored, within the bound, and drops as little as it may.
use nimbusdns.Common.{
  ℕ, ◌≤◌, ◌<◌, ◌≡◌, ◌≢◌, refl, sym, ◌∙◌, subst, inl, inr, false, not, none, some, length,
  length-keep-le, keep, leb, arith, Bool-cases,
}
use nimbusdns.Common.Iteration.{Iteration}
use nimbusdns.Common.Map.{
  get, remove, insert, Unique, Within, remove-Unique, remove-Within, keep-Unique, keep-Within,
  get-keep, length-remove-le, get-insert, get-remove, get-insert_self, insert-Unique, insert-cases,
}
use nimbusdns.Dns.Cache.{
  CacheKey, CachedResponse, DnsCache, key_discrete, is_expired, purge_expired, insert_response,
  prepare, store,
}
use nimbusdns.Dns.Cache.Room.{Entries, Room, make_room-ends, make_room-stuck}

-- The entries of another key that have not expired: what an insertion should keep.
abbrev pub live_others : CacheKey → ℕ → DnsCache → Entries
live_others key now c = keep (λ e. not (is_expired now e.1)) (remove key_discrete key c.entries)

pub record Inserted (key : CacheKey) (response : CachedResponse) (now : ℕ) (c d : DnsCache)
    : Type 0 where
  pub bounded : length d.entries ≤ c.max_entries
  pub same_max : d.max_entries ≡ c.max_entries
  pub unique : Unique key_discrete d.entries
  pub stored : get key_discrete key d.entries ≡ some response
  pub others :
      (k : CacheKey) (v : CachedResponse)
      → key ≢ k
      → get key_discrete k d.entries ≡ some v
      → get key_discrete k c.entries ≡ some v
  -- Nothing live is lost when the live entries of the other keys leave room for one more.
  pub keeps_live :
      length (live_others key now c) < c.max_entries
      → (k : CacheKey) (v : CachedResponse) → key ≢ k
      → get key_discrete k c.entries ≡ some v
      → is_expired now v ≡ false
      → get key_discrete k d.entries ≡ some v

module _ (key : CacheKey) (response : CachedResponse) (now : ℕ) (c : DnsCache)
    (u : Unique key_discrete c.entries) where
  removed : Unique key_discrete (remove key_discrete key c.entries)
  removed = remove-Unique key_discrete key c.entries u

  prepared-Unique : Unique key_discrete (prepare key now c).entries
  unfolding prepare purge_expired
  prepared-Unique =
      elim (Bool-cases (leb c.max_entries (length (remove key_discrete key c.entries)))) [
        | inl t ↦ rw t (keep-Unique key_discrete _ _ removed)
        | inr f ↦ rw f removed
      ]

  prepared-Within :
      Within key_discrete (prepare key now c).entries (remove key_discrete key c.entries)
  unfolding prepare purge_expired
  prepared-Within =
      elim (Bool-cases (leb c.max_entries (length (remove key_discrete key c.entries)))) [
        | inl t ↦ rw t (keep-Within key_discrete _ _ removed)
        | inr f ↦ rw f (λ k v h. h)
      ]

  prepared_max : (prepare key now c).max_entries ≡ c.max_entries
  unfolding prepare purge_expired
  prepared_max = ground arith

  prepared_length : length (prepare key now c).entries ≤ length c.entries
  unfolding prepare purge_expired
  prepared_length = ground (
    arith,
    length-remove-le key_discrete key c.entries,
    length-keep-le (λ e. not (is_expired now e.1)) (remove key_discrete key c.entries),
  )

  prepared_live :
      (k : CacheKey) (v : CachedResponse)
      → key ≢ k
      → get key_discrete k c.entries ≡ some v
      → is_expired now v ≡ false
      → get key_discrete k (prepare key now c).entries ≡ some v
  unfolding prepare purge_expired
  prepared_live k v ne h live = ground (
    arith,
    get-remove key_discrete k key c.entries,
    get-keep key_discrete (λ e. not (is_expired now e.1)) k (remove key_discrete key c.entries)
        removed,
  )

  prepared_below :
      length (live_others key now c) < c.max_entries
      → length (prepare key now c).entries < c.max_entries
  unfolding prepare purge_expired
  prepared_below lt = ground arith

  stored_in :
      (d : DnsCache)
      → Room (prepare key now c) d
      → Inserted key response now c (store key response d)
  unfolding store insert
  stored_in d r = record {
    bounded = ground (arith, r.below, prepared_max, length-remove-le key_discrete key d.entries);
    same_max = r.same_max ∙ prepared_max;
    unique = insert-Unique key_discrete key response d.entries r.unique;
    stored = get-insert_self key_discrete key response d.entries;
    others = λ k v ne h. elim (insert-cases key_discrete key response d.entries k v h) [
      | inl (p, _) ↦ absurd (ne p)
      | inr (_, old) ↦
          remove-Within key_discrete key c.entries k v (prepared-Within k v (r.within k v old))
    ];
    keeps_live = λ lt k v ne h live.
        let same = r.untouched (
          subst (λ n. length (prepare key now c).entries < n) (sym prepared_max)
            (prepared_below lt)) in
        let kept =
          subst (λ m. get key_discrete k m ≡ some v) (sym same) (prepared_live k v ne h live) in
        ground (arith, get-insert key_discrete k key response d.entries, kept);
  }

  module _ (walk : Iteration key_discrete CachedResponse) where
    -- With room for at least one entry the insertion ends, with more fuel than there are entries.
    -- Then the response is stored, the bound is kept, every other entry was there before, and no live
    -- entry is lost while the live entries leave room.
    pub insert_response-ends :
        (fuel : ℕ)
        → 0 < c.max_entries
        → length c.entries < fuel
        → (d : DnsCache) × (insert_response walk fuel key response now c ≡ some d)
          × Inserted key response now c d
    unfolding insert_response
    insert_response-ends fuel pos lt =
        let (d, e, r) =
          make_room-ends walk fuel (prepare key now c) prepared-Unique
            (ground (arith, prepared_max)) (ground (arith, prepared_length)) in
        (store key response d, rw e refl, stored_in d r)

    -- With a bound of 0 the insertion does not end, whatever the fuel.
    pub insert_response_diverges :
        (fuel : ℕ) → c.max_entries ≡ 0 → insert_response walk fuel key response now c ≡ none
    unfolding insert_response
    insert_response_diverges fuel z =
        let stuck =
          make_room-stuck walk fuel (prepare key now c) prepared-Unique (prepared_max ∙ z) in
        rw stuck refl
