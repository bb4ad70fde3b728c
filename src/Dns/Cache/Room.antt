-- ===== src/Dns/Cache/Room.antt =====
-- The room that an insertion makes: the loop of evictions ends, within the number of entries.
use nimbusdns.Common.{
  ℕ, zero, suc, ◌≤◌, ◌<◌, ◌≡◌, ◌≢◌, refl, sym, ◌∙◌, subst, inl, inr, none, some, List, [], ◌∷◌, map,
  length, take, leb, arith, All, All-take, All-imp, Bool-cases, Option-cases,
}
use native.Mathlib.Nat.{le_trans}
use nimbusdns.Common.Iteration.{Iteration}
use nimbusdns.Common.Map.{get, Unique, Within, remove-Unique, remove-Within, length-remove-lt}
use nimbusdns.Dns.Cache.{
  CacheKey, CachedResponse, DnsCache, key_discrete, older, oldest, candidates, drop_candidate,
  evict_one, make_room,
}

abbrev pub Entries : Type 0
Entries = List (CacheKey × CachedResponse)

-- The oldest candidate is one of them.
oldest_one :
    (P : CacheKey → Type 0) (es : List (CacheKey × ℕ))
    → All (λ e. P e.0) es
    → (k : CacheKey) (t : ℕ) → oldest es ≡ some (k, t)
    → P k
unfolding oldest older
oldest_one P [] h k t e = cc
oldest_one P (x ∷ es) h k t e = elim (Option-cases (oldest es)) [
  | inl n ↦ let q : x.0 ≡ k = ground arith in subst P q h.0
  | inr (f, s) ↦ elim (Bool-cases (leb x.1 f.1)) [
    | inl b ↦ let q : x.0 ≡ k = ground arith in subst P q h.0
    | inr b ↦ let q : oldest es ≡ some (k, t) = ground arith in oldest_one P es h.1 k t q
  ]
]

-- It has the least time.
oldest_least :
    (es : List (CacheKey × ℕ)) (k : CacheKey) (t : ℕ)
    → oldest es ≡ some (k, t)
    → All (λ e. t ≤ e.1) es
unfolding oldest older
oldest_least [] k t e = tt
oldest_least (x ∷ []) k t e = (ground arith, tt)
oldest_least (x ∷ y ∷ es) k t e =
    let f = older y (oldest es) in
    let le : (t ≤ x.1) × (t ≤ f.1) = ground arith in
    (le.0, All-imp _ (λ e' h. le_trans le.1 h) (y ∷ es) (oldest_least (y ∷ es) f.0 f.1 refl))

All-map {ℓ κ} :
    {A B : Type ℓ} (P : B → Type κ) (f : A → B) (xs : List A)
    → All (λ x. P (f x)) xs
    → All P (map f xs)
All-map P f [] h = tt
All-map P f (x ∷ xs) h = (h.0, All-map P f xs h.1)

oldest_some : (m : Entries) → 0 < length m → oldest (candidates m) ≢ none
unfolding oldest candidates
oldest_some [] lt n = omega arith
oldest_some (e ∷ es) lt n = cc

-- What the loop makes of a cache.
pub record Room (c d : DnsCache) : Type 0 where
  pub below : length d.entries < c.max_entries
  pub same_max : d.max_entries ≡ c.max_entries
  pub unique : Unique key_discrete d.entries
  pub within : Within key_discrete d.entries c.entries
  pub untouched : length c.entries < c.max_entries → d.entries ≡ c.entries

module _ (walk : Iteration key_discrete CachedResponse) where
  pub evict_one-keeps :
      (c : DnsCache)
      → Unique key_discrete c.entries
      → Unique key_discrete (evict_one walk c).entries
        × Within key_discrete (evict_one walk c).entries c.entries
        × ((evict_one walk c).max_entries ≡ c.max_entries)
  unfolding evict_one drop_candidate
  evict_one-keeps c u = elim (Option-cases (oldest (candidates (walk.iter c.entries)))) [
    | inl n ↦ rw n (u, λ k v h. h, refl)
    | inr (e, s) ↦
        rw s (
          remove-Unique key_discrete e.0 c.entries u,
          remove-Within key_discrete e.0 c.entries,
          refl,
        )
  ]

  -- What an eviction drops is an entry of the map.
  evicted :
      (m : Entries) (k : CacheKey) (t : ℕ)
      → Unique key_discrete m
      → oldest (candidates (walk.iter m)) ≡ some (k, t)
      → (v : CachedResponse) × (get key_discrete k m ≡ some v)
  unfolding candidates
  evicted m k t u e =
      oldest_one (λ k. (v : CachedResponse) × (get key_discrete k m ≡ some v)) _
        (All-map _ _ (take 8 (walk.iter m)) (
          All-take _ 8 (walk.iter m) (All-imp _ (λ e h. (e.1, h)) (walk.iter m) (walk.visits m u))))
        k t e

  some_candidate : (m : Entries) → 0 < length m → oldest (candidates (walk.iter m)) ≢ none
  some_candidate m lt n =
      oldest_some (walk.iter m) (subst (λ n. 0 < n) (sym (walk.length-iter m)) lt) n

  pub evict_one-shrinks :
      (c : DnsCache)
      → Unique key_discrete c.entries
      → 0 < length c.entries
      → length (evict_one walk c).entries < length c.entries
  unfolding evict_one drop_candidate
  evict_one-shrinks c u lt = elim (Option-cases (oldest (candidates (walk.iter c.entries)))) [
    | inl n ↦ absurd (some_candidate c.entries lt n)
    | inr ((k, t), s) ↦
        rw s (let (v, h) = evicted c.entries k t u s in length-remove-lt key_discrete k c.entries h)
  ]

  pub make_room-ends :
      (fuel : ℕ) (c : DnsCache)
      → Unique key_discrete c.entries
      → 0 < c.max_entries
      → length c.entries < fuel
      → (d : DnsCache) × (make_room walk fuel c ≡ some d) × Room c d
  unfolding make_room
  make_room-ends zero c u pos lt = absurd (omega arith)
  make_room-ends (suc fuel) c u pos lt = elim (Bool-cases (leb c.max_entries (length c.entries))) [
    | inr f ↦ (
      c,
      rw f refl,
      record {
        below = ground arith;
        same_max = refl;
        unique = u;
        within = λ k v h. h;
        untouched = λ _. refl;
      },
    )
    | inl t ↦
        let (u', w, q) = evict_one-keeps c u in
        let shrunk = evict_one-shrinks c u (ground arith) in
        let (d, e, r) = make_room-ends fuel (evict_one walk c) u' (ground arith) (ground arith) in
        (
          d,
          rw t e,
          record {
            below = ground (arith, r.below);
            same_max = r.same_max ∙ q;
            unique = r.unique;
            within = λ k v h. w k v (r.within k v h);
            untouched = λ h. absurd (ground arith);
          },
        )
  ]

  -- The loop does not end when the cache may hold nothing.
  pub make_room-stuck :
      (fuel : ℕ) (c : DnsCache)
      → Unique key_discrete c.entries
      → c.max_entries ≡ 0
      → make_room walk fuel c ≡ none
  unfolding make_room
  make_room-stuck zero c u z = refl
  make_room-stuck (suc fuel) c u z =
      let (u', w, q) = evict_one-keeps c u in
      ground (arith, make_room-stuck fuel (evict_one walk c) u')
