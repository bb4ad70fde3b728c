-- ===== src/OverTime/Slots.antt =====
-- What a slot of the ring counts after a run of queries.
use nimbusdns.Common.{
  ℕ, zero, suc, ◌+◌, ◌*◌, ◌/◌, ◌%◌, ◌<◌, ◌≡◌, ◌≢◌, refl, ◌∙◌, ap, true, false, Option, none, some,
  List, [], ◌∷◌, ◌==◌, ℕ_discrete, length, arith, All, if◌then◌else◌,
}
use nimbusdns.Blocking.Wildcard.{Text}
use nimbusdns.OverTime.{
  QueryStatus, unknown, blocked, cached, forwarded, nxdomain, servfail, retried, rate_limited,
  TimeSlot, OverTime, slot_index, slot_timestamp, slot_at, update_slot, bump, count_slot,
  count_query, record_client, record_slots, record_query,
}

slot_at-update_slot :
    (i : ℕ) (f : TimeSlot → TimeSlot) (slots : List TimeSlot)
    → i < length slots
    → slot_at i (update_slot i f slots) ≡ f (slot_at i slots)
unfolding slot_at update_slot
slot_at-update_slot i f [] h = absurd (omega arith)
slot_at-update_slot zero f (s ∷ slots) h = refl
slot_at-update_slot (suc i) f (s ∷ slots) h = slot_at-update_slot i f slots (omega arith)

slot_at-update_other :
    (i j : ℕ) (f : TimeSlot → TimeSlot) (slots : List TimeSlot)
    → i ≢ j
    → slot_at j (update_slot i f slots) ≡ slot_at j slots
unfolding slot_at update_slot
slot_at-update_other i j f [] h = refl
slot_at-update_other zero zero f (s ∷ slots) h = absurd (h refl)
slot_at-update_other zero (suc j) f (s ∷ slots) h = refl
slot_at-update_other (suc i) zero f (s ∷ slots) h = refl
slot_at-update_other (suc i) (suc j) f (s ∷ slots) h =
    slot_at-update_other i j f slots (λ e. h (ap suc e))

pub length-update_slot :
    (i : ℕ) (f : TimeSlot → TimeSlot) (slots : List TimeSlot)
    → length (update_slot i f slots) ≡ length slots
unfolding update_slot
length-update_slot i f [] = refl
length-update_slot zero f (s ∷ slots) = refl
length-update_slot (suc i) f (s ∷ slots) = ap suc (length-update_slot i f slots)

pub record Query : Type 0 where
  pub at : ℕ
  pub client : Option Text
  pub status : QueryStatus

unfoldable pub record_all : List Query → OverTime → OverTime
record_all [] o = o
record_all (q ∷ queries) o = record_all queries (record_query q.at q.client q.status o)

count_query-slots : (status : QueryStatus) (o : OverTime) → (count_query status o).slots ≡ o.slots
unfolding count_query
count_query-slots unknown o = refl
count_query-slots blocked o = refl
count_query-slots cached o = refl
count_query-slots forwarded o = refl
count_query-slots nxdomain o = refl
count_query-slots servfail o = refl
count_query-slots retried o = refl
count_query-slots rate_limited o = refl

record_query-slots :
    (t : ℕ) (client : Option Text) (status : QueryStatus) (o : OverTime)
    → (record_query t client status o).slots
      ≡ update_slot (slot_index t) (count_slot (slot_timestamp t) status) o.slots
unfolding record_query record_client record_slots
record_query-slots t none status o =
    rw (count_query-slots status (record o { total_queries = bump o.total_queries })) refl
record_query-slots t (some c) status o =
    rw (count_query-slots status (record o { total_queries = bump o.total_queries })) refl

-- The slot of number `n` after the queries of that slot, from what it held before.
unfoldable pub counted : ℕ → List Query → TimeSlot → TimeSlot
counted n [] slot = slot
counted n (q ∷ queries) slot =
    counted n queries (if q.at / 600 == n then count_slot (n * 600) q.status slot else slot)

-- Queries whose slots lie less than a day from slot `n`.
abbrev pub Near : ℕ → List Query → Type 0
Near n = All (λ q. (q.at / 600 < n + 144) × (n < q.at / 600 + 144))

record_query-slot_at :
    (n : ℕ) (q : Query) (o : OverTime)
    → length o.slots ≡ 144
    → q.at / 600 < n + 144
    → n < q.at / 600 + 144
    → slot_at (n % 144) (record_query q.at q.client q.status o).slots ≡ (
        if q.at / 600 == n
        then count_slot (n * 600) q.status (slot_at (n % 144) o.slots)
        else slot_at (n % 144) o.slots)
unfolding slot_index slot_timestamp
record_query-slot_at n q o len lt gt = elim (ℕ_discrete (q.at / 600) n) [
  | yes e ↦
      let same : (q.at / 600 == n) ≡ true = ground arith in
      rw (record_query-slots q.at q.client q.status o, same, e)
        (slot_at-update_slot (n % 144) (count_slot (n * 600) q.status) o.slots (ground arith))
  | no ne ↦
      let other : (q.at / 600 == n) ≡ false = ground arith in
      rw (record_query-slots q.at q.client q.status o, other)
        (slot_at-update_other (q.at / 600 % 144) (n % 144) _ o.slots (ground arith))
]

pub record_all-counted :
    (n : ℕ) (queries : List Query) (o : OverTime)
    → length o.slots ≡ 144
    → Near n queries
    → slot_at (n % 144) (record_all queries o).slots ≡ counted n queries (slot_at (n % 144) o.slots)
unfolding record_all counted
record_all-counted n [] o len h = refl
record_all-counted n (q ∷ queries) o len h =
    record_all-counted n queries (record_query q.at q.client q.status o)
      (ap length (record_query-slots q.at q.client q.status o)
        ∙ length-update_slot _ _ o.slots
        ∙ len)
      h.1
    ∙ ap (counted n queries) (record_query-slot_at n q o len h.0.0 h.0.1)
