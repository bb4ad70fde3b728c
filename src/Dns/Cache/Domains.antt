-- ===== src/Dns/Cache/Domains.antt =====
-- `DnsCache::remove_domain`: the entries of a domain, up to the dots at the end of its name.
use mathlib.Core.Bool.{true≢false}
use nimbusdns.Common.{
  ◌≡◌, ◌≢◌, sym, ◌∙◌, subst, refl, if◌then◌else◌, inl, inr, Bool, true, false, none, some, List, [],
  ◌∷◌, map, keep, All, arith, Bool-cases, Option-cases,
}
use nimbusdns.Common.Iteration.{Iteration}
use nimbusdns.Common.Map.{get, remove, get-remove, remove-ne}
use nimbusdns.Dns.Cache.{
  Bytes, same_name, trim_dots, CacheKey, CachedResponse, DnsCache, key_discrete, of_domain,
  remove_keys, remove_domain,
}
use nimbusdns.Dns.Cache.Room.{Entries}

remove_keys-others :
    (ks : List CacheKey) (k : CacheKey) (es : Entries)
    → All (λ j. j ≢ k) ks
    → get key_discrete k (remove_keys ks es) ≡ get key_discrete k es
unfolding remove_keys
remove_keys-others [] k es h = refl
remove_keys-others (j ∷ ks) k es h =
    remove_keys-others ks k (remove key_discrete j es) h.1
    ∙ ground (arith, h.0, get-remove key_discrete k j es)

remove_keys-some :
    (ks : List CacheKey) (k : CacheKey) (es : Entries) (v : CachedResponse)
    → get key_discrete k (remove_keys ks es) ≡ some v
    → All (λ j. j ≢ k) ks × (get key_discrete k es ≡ some v)
unfolding remove_keys
remove_keys-some [] k es v h = (tt, h)
remove_keys-some (j ∷ ks) k es v h =
    let (a, q) = remove_keys-some ks k (remove key_discrete j es) v h in
    let (ne, q') = remove-ne key_discrete j es k v q in ((ne, a), q')

module _ (p : CacheKey × CachedResponse → Bool) (k : CacheKey) where
  -- A key whose entries all pass is among the keys that were kept, if it is among the keys.
  absent :
      ((v : CachedResponse) → p (k, v) ≡ true)
      → (es : Entries) → All (λ j. j ≢ k) (map (λ e. e.0) (keep p es))
      → All (λ e. e.0 ≢ k) es
  absent t [] h = tt
  absent t ((j, v) ∷ es) h = elim (Bool-cases (p (j, v))) [
    | inl b ↦
        let rest =
          subst
            (λ b. All (λ j. j ≢ k) (map (λ e. e.0) (if b then (j, v) ∷ keep p es else keep p es))) b
            h in
        (rest.0, absent t es rest.1)
    | inr b ↦
        let rest =
          subst
            (λ b. All (λ j. j ≢ k) (map (λ e. e.0) (if b then (j, v) ∷ keep p es else keep p es))) b
            h in
        (λ q. true≢false (sym (subst (λ j. p (j, v) ≡ true) (sym q) (t v)) ∙ b), absent t es rest)
  ]

  passed :
      ((v : CachedResponse) → p (k, v) ≡ false)
      → (es : Entries) → All (λ j. j ≢ k) (map (λ e. e.0) (keep p es))
  passed f [] = tt
  passed f ((j, v) ∷ es) = elim (Bool-cases (p (j, v))) [
    | inl b ↦
        rw b ((λ q. true≢false (sym b ∙ subst (λ j. p (j, v) ≡ false) (sym q) (f v))), passed f es)
    | inr b ↦ rw b (passed f es)
  ]

-- After the removal of a domain no entry has its name, with or without dots at the end, and the other
-- entries are as they were.
pub remove_domain-get :
    (walk : Iteration key_discrete CachedResponse) (domain : Bytes) (c : DnsCache) (k : CacheKey)
    → get key_discrete k (remove_domain walk domain c).0.entries ≡ (
        if same_name (trim_dots k.domain) (trim_dots domain)
        then none
        else get key_discrete k c.entries)
unfolding remove_domain of_domain
remove_domain-get walk domain c k =
    elim (Bool-cases (same_name (trim_dots k.domain) (trim_dots domain))) [
      | inl t ↦ elim (Option-cases (get key_discrete k (remove_domain walk domain c).0.entries)) [
        | inl n ↦ rw t n
        | inr (v, s) ↦
            let (a, q) = remove_keys-some _ k c.entries v s in
            absurd (
              ground
                (arith, q, walk.covers c.entries k (absent _ k (λ _. t) (walk.iter c.entries) a)))
      ]
      | inr f ↦ rw f (remove_keys-others _ k c.entries (passed _ k (λ _. f) (walk.iter c.entries)))
    ]
