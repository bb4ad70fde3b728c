-- ===== src/OverTime/Tests.antt =====
-- Queries in the first slots of the ring.
use nimbusdns.Common.{◌*◌, ◌%◌, ◌<◌, ◌≡◌, refl, none, List, [], ◌∷◌, length, arith}
use nimbusdns.OverTime.{new, empty_slots, empty_slot, blocked, cached, slot_at, fresh_slot}
use nimbusdns.OverTime.Slots.{Query, record_all}
use nimbusdns.OverTime.Counts.{tally, any_status, Counts, Bounded, record_all-slot_at}

abbrev queries : List Query
queries =
    record { at = 1200; client = none; status = blocked }
    ∷ record { at = 1900; client = none; status = cached }
    ∷ []

new-Bounded : Bounded (slot_at 2 new.slots)
unfolding new empty_slots empty_slot slot_at
new-Bounded = (omega arith, omega arith, omega arith, omega arith)

new_length : length new.slots ≡ 144
unfolding new empty_slots
new_length = refl

one_query : 0 < tally 2 any_status queries
unfolding tally any_status
one_query = omega arith

record_all-slot_at_example :
    Counts 2 queries
      (fresh_slot (2 * 600) (slot_at (2 % 144) new.slots))
      (slot_at (2 % 144) (record_all queries new).slots)
record_all-slot_at_example =
    record_all-slot_at 2 queries new new_length new-Bounded
      ((omega arith, omega arith), ((omega arith, omega arith), tt)) one_query
