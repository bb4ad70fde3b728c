-- ===== src/Dns/Dot/Identifiers.antt =====
-- The loop of `unique_conn_id` in nimbus-core/src/dns/dot.rs ends while an identifier is free.
use nimbusdns.Common.{
  ℕ, zero, suc, ◌+◌, ◌%◌, ◌^◌, ◌<◌, ◌≤◌, ◌≡◌, ◌≢◌, sym, ap, subst, inl, inr, true, none, some,
  is_some, length, ℕ_discrete, arith, Option-cases,
}
use nimbusdns.Common.Map.{get, remove, get-remove, length-remove-lt}
use nimbusdns.Dns.Dot.Delivery.{unique_conn_id-free}
use nimbusdns.Dns.Dot.{Pending, unique_conn_id}

-- The identifiers from `counter` on, with wrap-around, are all taken.
abbrev Taken : ℕ → ℕ → Pending → Type 0
Taken n counter m = (i : ℕ) → i < n → is_some (get ℕ_discrete ((counter + i) % 2 ^ 16) m) ≡ true

Taken-shift :
    (n counter : ℕ) (m : Pending)
    → counter < 2 ^ 16
    → is_some (get ℕ_discrete counter m) ≡ true
    → Taken n ((counter + 1) % 2 ^ 16) m
    → Taken (suc n) counter m
Taken-shift n counter m l h t zero k =
    let e : (counter + 0) % 2 ^ 16 ≡ counter = omega (arith, l) in
    subst (λ x. is_some (get ℕ_discrete x m) ≡ true) (sym e) h
Taken-shift n counter m l h t (suc i) k =
    let e : ((counter + 1) % 2 ^ 16 + i) % 2 ^ 16 ≡ (counter + suc i) % 2 ^ 16 = omega arith in
    subst (λ x. is_some (get ℕ_discrete x m) ≡ true) e (t i (omega (arith, k)))

none_free :
    (fuel counter : ℕ) (m : Pending)
    → counter < 2 ^ 16
    → unique_conn_id fuel m counter ≡ none
    → Taken fuel counter m
unfolding unique_conn_id
none_free zero counter m l h = λ i k. absurd (omega (arith, k))
none_free (suc fuel) counter m l h = elim (Option-cases (get ℕ_discrete counter m)) [
  | inl n ↦ absurd (ground (arith, h, n))
  | inr s ↦
      Taken-shift fuel counter m l (ap is_some s.1)
        (none_free fuel ((counter + 1) % 2 ^ 16) m (omega arith) (ground (arith, h, s.1)))
]

still_taken :
    (k j : ℕ) (m : Pending)
    → k ≢ j
    → is_some (get ℕ_discrete j m) ≡ true
    → is_some (get ℕ_discrete j (remove ℕ_discrete k m)) ≡ true
still_taken k j m n h = ground (arith, n, h, get-remove ℕ_discrete j k m)

Taken-length : (n counter : ℕ) (m : Pending) → n ≤ 2 ^ 16 → Taken n counter m → n ≤ length m
Taken-length zero counter m l t = omega arith
Taken-length (suc n) counter m l t =
    let key = (counter + n) % 2 ^ 16 in
    let m1 = remove ℕ_discrete key m in
    let rest = Taken-length n counter m1 (omega (arith, l)) (λ i k.
      still_taken key ((counter + i) % 2 ^ 16) m (λ e. omega (arith, e, k, l))
        (t i (omega (arith, k)))) in
    elim (Option-cases (get ℕ_discrete key m)) [
      | inl e ↦ absurd (ground (arith, e, t n (omega arith)))
      | inr s ↦ omega (arith, rest, length-remove-lt ℕ_discrete key m s.1)
    ]

-- With fewer than 65536 queries waiting, the loop ends in 65536 rounds, with an identifier of 16 bits
-- that no waiting query has.
pub unique_conn_id_found :
    (counter : ℕ) (m : Pending)
    → counter < 2 ^ 16
    → length m < 2 ^ 16
    → (id : ℕ) × ((next : ℕ) × ((unique_conn_id (2 ^ 16) m counter ≡ some (id, next))
          × ((get ℕ_discrete id m ≡ none) × (id < 2 ^ 16))))
unique_conn_id_found counter m l h = elim (Option-cases (unique_conn_id (2 ^ 16) m counter)) [
  | inl e ↦
      let t = Taken-length (2 ^ 16) counter m (omega arith) (none_free (2 ^ 16) counter m l e) in
      absurd (omega (arith, t, h))
  | inr s ↦
      let f = unique_conn_id-free (2 ^ 16) counter s.0.0 s.0.1 m l s.1 in
      (s.0.0, (s.0.1, (s.1, (f.0, f.1.0))))
]
