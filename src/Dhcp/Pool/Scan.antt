-- ===== src/Dhcp/Pool/Scan.antt =====
-- What `next_available` finds, and how marks and releases change the set of allocated addresses.
use nimbusdns.Common.{
  ℕ, zero, suc, ◌+◌, ◌-◌, ◌≤◌, ◌<◌, ◌≡◌, Bool, true, false, not, ◌&&◌, none, some, List, arith,
  Option-cases, inl, inr, ◌≢◌,
}
use nimbusdns.Common.Sets.{contains, add, contains-add, contains-discard}
use nimbusdns.Dhcp.Pool.{IpPool, in_range, scan, next_available, mark_allocated, release}

-- Neither allocated nor excluded.
abbrev pub is_free : List ℕ → List ℕ → ℕ → Bool
is_free allocated declined ip = not (contains ip allocated) && not (contains ip declined)

abbrev pub Taken : IpPool → ℕ → Type 0
Taken p ip = (in_range p ip ≡ true) × (contains ip p.allocated ≡ true)

module _ (allocated declined : List ℕ) where
  scan-some :
      (n ip k : ℕ)
      → scan n ip allocated declined ≡ some k
      → (ip ≤ k) × (k < ip + n) × (is_free allocated declined k ≡ true)
  unfolding scan
  scan-some zero ip k h = cc
  scan-some (suc n) ip k h = ground (arith, scan-some n (ip + 1) k)

  scan_least :
      (n ip k j : ℕ)
      → scan n ip allocated declined ≡ some k
      → ip ≤ j
      → j < k
      → is_free allocated declined j ≡ false
  unfolding scan
  scan_least zero ip k j h le lt = cc
  scan_least (suc n) ip k j h le lt = ground (arith, scan_least n (ip + 1) k j)

  scan-none :
      (n ip j : ℕ)
      → scan n ip allocated declined ≡ none
      → ip ≤ j
      → j < ip + n
      → is_free allocated declined j ≡ false
  unfolding scan
  scan-none zero ip j h le lt = absurd (omega arith)
  scan-none (suc n) ip j h le lt = ground (arith, scan-none n (ip + 1) j)

-- The address that `next_available` gives out lies in the pool, was neither allocated nor excluded,
-- and is the first such; it is the only one that becomes allocated.
pub next_available-some :
    (p : IpPool) (declined : List ℕ) (ip : ℕ)
    → (next_available p declined).0 ≡ some ip
    → (in_range p ip ≡ true)
      × (is_free p.allocated declined ip ≡ true)
      × ((j : ℕ) → p.start ≤ j → j < ip → is_free p.allocated declined j ≡ false)
      × ((next_available p declined).1 ≡ record p { allocated = add ip p.allocated })
unfolding next_available in_range
next_available-some p declined ip h =
    elim (Option-cases (scan (p.end + 1 - p.start) p.start p.allocated declined)) [
      | inl e ↦ absurd (ground arith)
      | inr (k, e) ↦
          let same : k ≡ ip = ground arith in
          let bounds = scan-some p.allocated declined (p.end + 1 - p.start) p.start k e in
          (
            ground arith,
            ground arith,
            λ j le lt.
                scan_least p.allocated declined (p.end + 1 - p.start) p.start k j e le
                  (omega arith),
            ground arith,
          )
    ]

-- It gives out none only when every address of the pool is allocated or excluded, and then changes
-- nothing.
pub next_available-none :
    (p : IpPool) (declined : List ℕ)
    → (next_available p declined).0 ≡ none
    → ((j : ℕ) → in_range p j ≡ true → is_free p.allocated declined j ≡ false)
      × ((next_available p declined).1 ≡ p)
unfolding next_available in_range
next_available-none p declined h =
    elim (Option-cases (scan (p.end + 1 - p.start) p.start p.allocated declined)) [
      | inl e ↦ (
        λ j r.
            scan-none p.allocated declined (p.end + 1 - p.start) p.start j e (ground arith)
              (ground arith),
        ground arith,
      )
      | inr (k, e) ↦ absurd (ground arith)
    ]

pub mark_allocated-Taken :
    (p : IpPool) (ip : ℕ) → in_range p ip ≡ true → Taken (mark_allocated p ip) ip
unfolding mark_allocated in_range
mark_allocated-Taken p ip h = ground (arith, contains-add ip ip p.allocated)

pub mark_allocated-keeps : (p : IpPool) (ip j : ℕ) → Taken p j → Taken (mark_allocated p ip) j
unfolding mark_allocated in_range
mark_allocated-keeps p ip j h = ground (arith, contains-add j ip p.allocated)

pub next_available-keeps :
    (p : IpPool) (declined : List ℕ) (j : ℕ) → Taken p j → Taken (next_available p declined).1 j
unfolding next_available in_range
next_available-keeps p declined j h =
    elim (Option-cases (scan (p.end + 1 - p.start) p.start p.allocated declined)) [
      | inl e ↦ ground arith
      | inr (k, e) ↦ ground (arith, contains-add j k p.allocated)
    ]

pub release-keeps : (p : IpPool) (ip j : ℕ) → ip ≢ j → Taken p j → Taken (release p ip) j
unfolding release in_range
release-keeps p ip j ne h = ground (arith, contains-discard j ip p.allocated)
