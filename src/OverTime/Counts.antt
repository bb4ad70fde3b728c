-- ===== src/OverTime/Counts.antt =====
-- The counts of a slot, as numbers of queries.
use nimbusdns.Common.{
  ℕ, ◌+◌, ◌*◌, ◌/◌, ◌%◌, ◌^◌, ◌<◌, ◌≡◌, refl, sym, ◌∙◌, subst, inl, inr, Bool, true, false, ◌&&◌,
  List, [], ◌∷◌, ◌==◌, length, arith, Bool-cases, if◌then◌else◌,
}
use nimbusdns.OverTime.{
  QueryStatus, unknown, blocked, cached, forwarded, nxdomain, servfail, retried, rate_limited,
  TimeSlot, empty_slot, OverTime, slot_at, bump, count_status, fresh_slot, count_slot,
}
use nimbusdns.OverTime.Slots.{Query, record_all, counted, Near, record_all-counted}

-- The queries of slot `n` with a status that passes.
unfoldable pub tally : ℕ → (QueryStatus → Bool) → List Query → ℕ
tally n p [] = 0
tally n p (q ∷ queries) =
    let rest = tally n p queries in if q.at / 600 == n && p q.status then rest + 1 else rest

unfoldable pub any_status : QueryStatus → Bool
any_status s = true

unfoldable pub is_blocked : QueryStatus → Bool
is_blocked blocked = true
is_blocked _ = false

unfoldable pub is_cached : QueryStatus → Bool
is_cached cached = true
is_cached _ = false

unfoldable pub is_forwarded : QueryStatus → Bool
is_forwarded forwarded = true
is_forwarded _ = false

-- The slot `s` counts the queries of slot `n` on top of the slot `from`.
pub record Counts (n : ℕ) (queries : List Query) (from s : TimeSlot) : Type 0 where
  pub timestamp : s.timestamp ≡ n * 600
  pub total : s.total ≡ (from.total + tally n any_status queries) % 2 ^ 64
  pub blocked : s.blocked ≡ (from.blocked + tally n is_blocked queries) % 2 ^ 64
  pub cached : s.cached ≡ (from.cached + tally n is_cached queries) % 2 ^ 64
  pub forwarded : s.forwarded ≡ (from.forwarded + tally n is_forwarded queries) % 2 ^ 64

-- The counters of a slot have 64 bits.
abbrev pub Bounded : TimeSlot → Type 0
Bounded s = (s.total < 2 ^ 64) × (s.blocked < 2 ^ 64) × (s.cached < 2 ^ 64) × (s.forwarded < 2 ^ 64)

bump_lt : (n : ℕ) → bump n < 2 ^ 64
unfolding bump
bump_lt n = omega arith

bump_eq : (n : ℕ) → bump n ≡ (n + 1) % 2 ^ 64
unfolding bump
bump_eq n = refl

abbrev bit : Bool → ℕ
bit b = if b then 1 else 0

record CountedOne (status : QueryStatus) (from s : TimeSlot) : Type 0 where
  timestamp : s.timestamp ≡ from.timestamp
  total : s.total ≡ (from.total + 1) % 2 ^ 64
  blocked : s.blocked ≡ (from.blocked + bit (is_blocked status)) % 2 ^ 64
  cached : s.cached ≡ (from.cached + bit (is_cached status)) % 2 ^ 64
  forwarded : s.forwarded ≡ (from.forwarded + bit (is_forwarded status)) % 2 ^ 64

blocked-count_status :
    (status : QueryStatus) (s : TimeSlot)
    → Bounded s
    → (count_status status s).blocked ≡ (s.blocked + bit (is_blocked status)) % 2 ^ 64
unfolding count_status bump is_blocked
blocked-count_status unknown s b = ground arith
blocked-count_status blocked s b = ground arith
blocked-count_status cached s b = ground arith
blocked-count_status forwarded s b = ground arith
blocked-count_status nxdomain s b = ground arith
blocked-count_status servfail s b = ground arith
blocked-count_status retried s b = ground arith
blocked-count_status rate_limited s b = ground arith

cached-count_status :
    (status : QueryStatus) (s : TimeSlot)
    → Bounded s
    → (count_status status s).cached ≡ (s.cached + bit (is_cached status)) % 2 ^ 64
unfolding count_status bump is_cached
cached-count_status unknown s b = ground arith
cached-count_status blocked s b = ground arith
cached-count_status cached s b = ground arith
cached-count_status forwarded s b = ground arith
cached-count_status nxdomain s b = ground arith
cached-count_status servfail s b = ground arith
cached-count_status retried s b = ground arith
cached-count_status rate_limited s b = ground arith

forwarded-count_status :
    (status : QueryStatus) (s : TimeSlot)
    → Bounded s
    → (count_status status s).forwarded ≡ (s.forwarded + bit (is_forwarded status)) % 2 ^ 64
unfolding count_status bump is_forwarded
forwarded-count_status unknown s b = ground arith
forwarded-count_status blocked s b = ground arith
forwarded-count_status cached s b = ground arith
forwarded-count_status forwarded s b = ground arith
forwarded-count_status nxdomain s b = ground arith
forwarded-count_status servfail s b = ground arith
forwarded-count_status retried s b = ground arith
forwarded-count_status rate_limited s b = ground arith

timestamp-count_status :
    (status : QueryStatus) (s : TimeSlot) → (count_status status s).timestamp ≡ s.timestamp
unfolding count_status
timestamp-count_status unknown s = refl
timestamp-count_status blocked s = refl
timestamp-count_status cached s = refl
timestamp-count_status forwarded s = refl
timestamp-count_status nxdomain s = refl
timestamp-count_status servfail s = refl
timestamp-count_status retried s = refl
timestamp-count_status rate_limited s = refl

total-count_status : (status : QueryStatus) (s : TimeSlot) → (count_status status s).total ≡ s.total
unfolding count_status
total-count_status unknown s = refl
total-count_status blocked s = refl
total-count_status cached s = refl
total-count_status forwarded s = refl
total-count_status nxdomain s = refl
total-count_status servfail s = refl
total-count_status retried s = refl
total-count_status rate_limited s = refl

fresh_slot_same : (n : ℕ) (s : TimeSlot) → s.timestamp ≡ n → fresh_slot n s ≡ s
unfolding fresh_slot
fresh_slot_same n s t = let same : (s.timestamp == n) ≡ true = ground arith in rw same refl

one :
    (n : ℕ) (status : QueryStatus) (s : TimeSlot)
    → s.timestamp ≡ n
    → Bounded s
    → CountedOne status s (count_slot n status s)
unfolding count_slot
one n status s t b =
    let s1 : TimeSlot = record s { total = bump s.total } in
    let b1 : Bounded s1 = (bump_lt s.total, b.1, b.2, b.3) in
    rw (fresh_slot_same n s t) (record {
      timestamp = timestamp-count_status status s1;
      total = total-count_status status s1 ∙ bump_eq s.total;
      blocked = blocked-count_status status s1 b1;
      cached = cached-count_status status s1 b1;
      forwarded = forwarded-count_status status s1 b1;
    })

rest_lt : (d a : ℕ) → d ≡ a % 2 ^ 64 → d < 2 ^ 64
rest_lt d a h = omega arith

add_later : (a b c d : ℕ) → d ≡ (a + b) % 2 ^ 64 → (d + c) % 2 ^ 64 ≡ (a + (c + b)) % 2 ^ 64
add_later a b c d e = omega arith

tally-bit :
    (n : ℕ) (p : QueryStatus → Bool) (q : Query) (queries : List Query)
    → (q.at / 600 == n) ≡ true
    → tally n p (q ∷ queries) ≡ tally n p queries + bit (p q.status)
unfolding tally
tally-bit n p q queries e = ground arith

tally_skip :
    (n : ℕ) (p : QueryStatus → Bool) (q : Query) (queries : List Query)
    → (q.at / 600 == n) ≡ false
    → tally n p (q ∷ queries) ≡ tally n p queries
unfolding tally
tally_skip n p q queries e = ground arith

none_counted : (n : ℕ) (s : TimeSlot) → s.timestamp ≡ n * 600 → Bounded s → Counts n [] s s
unfolding tally
none_counted n s t b = record {
  timestamp = t;
  total = ground arith;
  blocked = ground arith;
  cached = ground arith;
  forwarded = ground arith;
}

counted-Counts :
    (n : ℕ) (queries : List Query) (s : TimeSlot)
    → s.timestamp ≡ n * 600
    → Bounded s
    → Counts n queries s (counted n queries s)
unfolding counted any_status
counted-Counts n [] s t b = none_counted n s t b
counted-Counts n (q ∷ queries) s t b = elim (Bool-cases (q.at / 600 == n)) [
  | inl e ↦
      let s1 = count_slot (n * 600) q.status s in
      let o = one (n * 600) q.status s t b in
      let b1 : Bounded s1 = (
        rest_lt s1.total _ o.total,
        rest_lt s1.blocked _ o.blocked,
        rest_lt s1.cached _ o.cached,
        rest_lt s1.forwarded _ o.forwarded,
      ) in
      let c = counted-Counts n queries s1 (o.timestamp ∙ t) b1 in
      rw e (record {
        timestamp = c.timestamp;
        total = c.total ∙ later any_status s.total s1.total q e o.total;
        blocked = c.blocked ∙ later is_blocked s.blocked s1.blocked q e o.blocked;
        cached = c.cached ∙ later is_cached s.cached s1.cached q e o.cached;
        forwarded = c.forwarded ∙ later is_forwarded s.forwarded s1.forwarded q e o.forwarded;
      })
  | inr e ↦
      let c = counted-Counts n queries s t b in
      rw e (record {
        timestamp = c.timestamp;
        total = rw (tally_skip n any_status q queries e) c.total;
        blocked = rw (tally_skip n is_blocked q queries e) c.blocked;
        cached = rw (tally_skip n is_cached q queries e) c.cached;
        forwarded = rw (tally_skip n is_forwarded q queries e) c.forwarded;
      })
]
  where
    later :
        (p : QueryStatus → Bool) (a d : ℕ) (q : Query)
        → (q.at / 600 == n) ≡ true
        → d ≡ (a + bit (p q.status)) % 2 ^ 64
        → (d + tally n p queries) % 2 ^ 64 ≡ (a + tally n p (q ∷ queries)) % 2 ^ 64
    later p a d q e h =
        rw (tally-bit n p q queries e) (add_later a (bit (p q.status)) (tally n p queries) d h)

fresh_slot-fresh_slot : (t : ℕ) (s : TimeSlot) → fresh_slot t (fresh_slot t s) ≡ fresh_slot t s
unfolding fresh_slot empty_slot
fresh_slot-fresh_slot t s = ground arith

fresh_slot-timestamp : (t : ℕ) (s : TimeSlot) → (fresh_slot t s).timestamp ≡ t
unfolding fresh_slot empty_slot
fresh_slot-timestamp t s = ground arith

fresh_slot-Bounded : (t : ℕ) (s : TimeSlot) → Bounded s → Bounded (fresh_slot t s)
unfolding fresh_slot empty_slot
fresh_slot-Bounded t s b = ground arith

-- The first query of the slot starts it.
counted-fresh_slot :
    (n : ℕ) (queries : List Query) (s : TimeSlot)
    → 0 < tally n any_status queries
    → counted n queries s ≡ counted n queries (fresh_slot (n * 600) s)
unfolding counted tally any_status count_slot
counted-fresh_slot n [] s h = absurd (omega arith)
counted-fresh_slot n (q ∷ queries) s h = elim (Bool-cases (q.at / 600 == n)) [
  | inl e ↦ rw (e, fresh_slot-fresh_slot (n * 600) s) refl
  | inr e ↦ rw e (counted-fresh_slot n queries s (ground arith))
]

-- After any run of queries that all lie less than a day from slot `n`, with at least one in it, the
-- ring's entry for that slot counts the queries of the slot, in total and by status, modulo 2^64, on
-- top of what it held before if that was of the same slot, and from 0 otherwise.
pub record_all-slot_at :
    (n : ℕ) (queries : List Query) (o : OverTime)
    → length o.slots ≡ 144
    → Bounded (slot_at (n % 144) o.slots)
    → Near n queries
    → 0 < tally n any_status queries
    → Counts n queries
        (fresh_slot (n * 600) (slot_at (n % 144) o.slots))
        (slot_at (n % 144) (record_all queries o).slots)
record_all-slot_at n queries o len b near pos =
    let s = slot_at (n % 144) o.slots in
    let f = fresh_slot (n * 600) s in
    subst (Counts n queries f)
      (sym (record_all-counted n queries o len near ∙ counted-fresh_slot n queries s pos))
      (counted-Counts n queries f (fresh_slot-timestamp (n * 600) s)
        (fresh_slot-Bounded (n * 600) s b))
