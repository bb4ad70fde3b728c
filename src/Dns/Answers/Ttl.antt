-- ===== src/Dns/Answers/Ttl.antt =====
-- The time for which a response is cached, and the ages of its records.
use nimbusdns.Common.{
  ℕ, ◌+◌, ◌≤◌, ◌≡◌, true, inl, inr, List, [], ◌∷◌, keep, ◌==◌, arith, All, All-imp, Bool-cases,
  subst,
}
use nimbusdns.Dns.Answers.{
  Record, Message, is_soa, is_empty, least_ttl, cache_ttl_secs, age, serv_fail,
}

least_ttl-le : (rs : List Record) → All (λ r. least_ttl rs ≤ r.ttl) rs
unfolding least_ttl
least_ttl-le [] = tt
least_ttl-le (r ∷ []) = (omega arith, tt)
least_ttl-le (r ∷ s ∷ rs) =
    (omega arith, All-imp _ (λ x h. omega arith) (s ∷ rs) (least_ttl-le (s ∷ rs)))

aged_enough :
    (elapsed : ℕ) (rs : List Record)
    → elapsed ≤ least_ttl rs
    → All (λ r. (age elapsed r).ttl + elapsed ≡ r.ttl) rs
unfolding age
aged_enough elapsed rs le = All-imp _ (λ r h. omega arith) rs (least_ttl-le rs)

none_elapsed : (rs : List Record) → All (λ r. (age 0 r).ttl + 0 ≡ r.ttl) rs
unfolding age
none_elapsed [] = tt
none_elapsed (r ∷ rs) = (omega arith, none_elapsed rs)

no_answers :
    (elapsed : ℕ) (rs : List Record)
    → is_empty rs ≡ true
    → All (λ r. (age elapsed r).ttl + elapsed ≡ r.ttl) rs
unfolding is_empty
no_answers elapsed [] h = tt
no_answers elapsed (r ∷ rs) h = cc

-- While a response is cached, each of its answers has aged by just the time that has passed, and so
-- have the SOA records of a response without answers: no time to live runs out before the entry does.
pub cache_ttl_secs-age :
    (elapsed : ℕ) (m : Message)
    → elapsed ≤ cache_ttl_secs m
    → All (λ r. (age elapsed r).ttl + elapsed ≡ r.ttl) m.answers
      × (is_empty m.answers ≡ true
          → All (λ r. (age elapsed r).ttl + elapsed ≡ r.ttl) (keep is_soa m.authorities))
unfolding cache_ttl_secs
cache_ttl_secs-age elapsed m le = elim (Bool-cases (m.response_code == serv_fail)) [
  | inl t ↦
      let zero : 0 ≡ elapsed = ground arith in
      subst
        (λ e.
          All (λ r. (age e r).ttl + e ≡ r.ttl) m.answers
          × (is_empty m.answers ≡ true
              → All (λ r. (age e r).ttl + e ≡ r.ttl) (keep is_soa m.authorities)))
        zero (none_elapsed m.answers, λ _. none_elapsed (keep is_soa m.authorities))
  | inr f ↦ elim (Bool-cases (is_empty m.answers)) [
    | inl e ↦ (
      no_answers elapsed m.answers e,
      λ _. aged_enough elapsed (keep is_soa m.authorities) (ground arith),
    )
    | inr e ↦ (aged_enough elapsed m.answers (ground arith), λ h. absurd (ground arith))
  ]
]
