-- ===== src/OverTime.antt =====
-- `OverTime` of nimbus-core/src/over_time/mod.rs: counts of queries in a ring of 144 slots of ten
-- minutes. A timestamp is a number of seconds, a client the list of its characters.
pub mod Slots
pub mod Counts
pub mod History
mod Tests
use nimbusdns.Common.{
  ℕ, zero, suc, ◌+◌, ◌-◌, ◌*◌, ◌/◌, ◌%◌, ◌^◌, Bool, not, ◌&&◌, Option, none, some, List, [], ◌∷◌,
  map, keep, ltb, leb, ◌==◌, if◌then◌else◌,
}
use nimbusdns.Common.Map.{get, insert}
use nimbusdns.Blocking.Wildcard.{Text, text_discrete}

abbrev pub history_slots : ℕ
history_slots = 144

abbrev pub slot_interval : ℕ
slot_interval = 600

pub data QueryStatus : Type 0 where
  unknown blocked cached forwarded nxdomain servfail retried rate_limited : QueryStatus

unfoldable pub from_i32 : ℕ → QueryStatus
from_i32 n =
    if n == 1
    then blocked
    else if n == 2
    then cached
    else if n == 3
    then forwarded
    else if n == 4
    then nxdomain
    else if n == 5
    then servfail
    else if n == 6
    then retried
    else if n == 7
    then rate_limited
    else unknown

pub record TimeSlot : Type 0 where
  pub timestamp : ℕ
  pub total : ℕ
  pub blocked : ℕ
  pub cached : ℕ
  pub forwarded : ℕ

unfoldable pub empty_slot : ℕ → TimeSlot
empty_slot t = record { timestamp = t; total = 0; blocked = 0; cached = 0; forwarded = 0 }

pub record ClientHistory : Type 0 where
  pub slots : List TimeSlot
  pub last_slot_idx : ℕ
  pub last_active : ℕ

pub record OverTime : Type 0 where
  pub slots : List TimeSlot
  pub last_slot_idx : ℕ
  pub client_histories : List (Text × ClientHistory)
  pub total_queries : ℕ
  pub blocked_queries : ℕ
  pub cached_queries : ℕ
  pub forwarded_queries : ℕ

unfoldable pub empty_slots : ℕ → List TimeSlot
empty_slots zero = []
empty_slots (suc n) = empty_slot 0 ∷ empty_slots n

unfoldable pub new : OverTime
new = record {
  slots = empty_slots history_slots;
  last_slot_idx = 0;
  client_histories = [];
  total_queries = 0;
  blocked_queries = 0;
  cached_queries = 0;
  forwarded_queries = 0;
}

unfoldable pub slot_index : ℕ → ℕ
slot_index timestamp = timestamp / slot_interval % history_slots

unfoldable pub slot_timestamp : ℕ → ℕ
slot_timestamp timestamp = timestamp / slot_interval * slot_interval

-- Reading and writing `slots[idx]`.
unfoldable pub slot_at : ℕ → List TimeSlot → TimeSlot
slot_at i [] = empty_slot 0
slot_at zero (slot ∷ slots) = slot
slot_at (suc i) (slot ∷ slots) = slot_at i slots

unfoldable pub update_slot : ℕ → (TimeSlot → TimeSlot) → List TimeSlot → List TimeSlot
update_slot i f [] = []
update_slot zero f (slot ∷ slots) = f slot ∷ slots
update_slot (suc i) f (slot ∷ slots) = slot ∷ update_slot i f slots

-- Counters have 64 bits.
unfoldable pub bump : ℕ → ℕ
bump n = (n + 1) % 2 ^ 64

unfoldable pub count_status : QueryStatus → TimeSlot → TimeSlot
count_status blocked slot = record slot { blocked = bump slot.blocked }
count_status cached slot = record slot { cached = bump slot.cached }
count_status forwarded slot = record slot { forwarded = bump slot.forwarded }
count_status _ slot = slot

-- A slot of another time starts again.
unfoldable pub fresh_slot : ℕ → TimeSlot → TimeSlot
fresh_slot slot_ts slot = if not (slot.timestamp == slot_ts) then empty_slot slot_ts else slot

unfoldable pub count_slot : ℕ → QueryStatus → TimeSlot → TimeSlot
count_slot slot_ts status slot =
    let s = fresh_slot slot_ts slot in count_status status (record s { total = bump s.total })

unfoldable pub count_query : QueryStatus → OverTime → OverTime
count_query blocked o = record o { blocked_queries = bump o.blocked_queries }
count_query cached o = record o { cached_queries = bump o.cached_queries }
count_query forwarded o = record o { forwarded_queries = bump o.forwarded_queries }
count_query _ o = o

-- `or_insert_with(…)`
unfoldable pub history_of : Option ClientHistory → ℕ → ClientHistory
history_of none timestamp = record {
  slots = empty_slots history_slots;
  last_slot_idx = 0;
  last_active = timestamp;
}
history_of (some h) timestamp = h

unfoldable pub record_client : ℕ → Option Text → QueryStatus → OverTime → OverTime
record_client timestamp none status o = o
record_client timestamp (some client) status o =
    let h = history_of (get text_discrete client o.client_histories) timestamp in
    record o {
      client_histories =
          insert text_discrete client
            (record {
              slots =
                  update_slot (slot_index timestamp) (count_slot (slot_timestamp timestamp) status)
                    h.slots;
              last_slot_idx = slot_index timestamp;
              last_active = timestamp;
            })
            o.client_histories;
    }

unfoldable pub record_slots : ℕ → QueryStatus → OverTime → OverTime
record_slots timestamp status o = record o {
  slots = update_slot (slot_index timestamp) (count_slot (slot_timestamp timestamp) status) o.slots;
  last_slot_idx = slot_index timestamp;
}

unfoldable pub record_query : ℕ → Option Text → QueryStatus → OverTime → OverTime
record_query timestamp client status o = record_client timestamp client status (
    record_slots timestamp status
      (count_query status (record o { total_queries = bump o.total_queries })))

-- `sort_by_key(|a| a.timestamp)`, which is stable.
unfoldable pub insert_sorted : TimeSlot → List TimeSlot → List TimeSlot
insert_sorted slot [] = slot ∷ []
insert_sorted slot (s ∷ slots) =
    let rest = insert_sorted slot slots in
    if leb slot.timestamp s.timestamp then slot ∷ s ∷ slots else s ∷ rest

unfoldable pub sort_slots : List TimeSlot → List TimeSlot
sort_slots [] = []
sort_slots (slot ∷ slots) = insert_sorted slot (sort_slots slots)

-- The slots at `current + 144 - i` for `i` up to 144, with `n` of them left.
unfoldable pub walk_back : ℕ → ℕ → ℕ → List TimeSlot → List TimeSlot
walk_back zero i current slots = []
walk_back (suc n) i current slots =
    slot_at ((current + history_slots - i) % history_slots) slots
    ∷ walk_back n (i + 1) current slots

unfoldable pub recent : ℕ → TimeSlot → Bool
recent now slot = ltb 0 slot.timestamp && leb (slot_timestamp now - slot.timestamp) (24 * 3600)

unfoldable pub recent_slots : ℕ → List TimeSlot → List TimeSlot
recent_slots now slots =
    sort_slots (keep (recent now) (walk_back history_slots 0 (slot_index now) slots))

unfoldable pub get_history : ℕ → OverTime → List TimeSlot
get_history now o = recent_slots now o.slots

unfoldable pub client_slots : Option ClientHistory → ℕ → List TimeSlot
client_slots none now = []
client_slots (some h) now = recent_slots now h.slots

unfoldable pub get_client_history : ℕ → Text → OverTime → List TimeSlot
get_client_history now client o = client_slots (get text_discrete client o.client_histories) now

unfoldable pub cleanup_stale_clients : ℕ → OverTime → OverTime
cleanup_stale_clients now o = record o {
  client_histories = keep (λ e. ltb (now - 86400) e.1.last_active) o.client_histories;
}

unfoldable pub clear : OverTime → OverTime
clear o = record {
  slots = map (λ _. empty_slot 0) o.slots;
  last_slot_idx = 0;
  client_histories = [];
  total_queries = 0;
  blocked_queries = 0;
  cached_queries = 0;
  forwarded_queries = 0;
}
