-- ===== src/Queries/Writer.antt =====
-- The background writer of nimbus-core/src/database/writer.rs: the queue of the channel, the batch, the
-- writes that run on the blocking pool, and the database. An event is one arm of the loop, a call of
-- `store`, or the end of a write, which fails or not as SQLite answers.
pub mod Conservation
mod Tests
use nimbusdns.Common.{
  ℕ, zero, suc, Bool, true, false, Option, none, some, List, [], ◌∷◌, ◌++◌, length, leb, ltb,
  if◌then◌else◌,
}
use nimbusdns.Queries.{QueryDb, StoredQuery, store_query_batch}

abbrev pub batch_size : ℕ
batch_size = 100

abbrev pub channel_bound : ℕ
channel_bound = 4096

-- `lost` holds what is in no table and will not be: failed writes, and what the queue held when the
-- task ended; `accepted` what the calls of `store` that returned Ok were given. Both are only observed.
pub record Writer : Type 0 where
  pub queue : List StoredQuery
  pub batch : List StoredQuery
  pub writes : List (List StoredQuery)
  pub db : QueryDb
  pub running : Bool
  pub accepted : List StoredQuery
  pub lost : List StoredQuery

unfoldable pub start : QueryDb → Writer
start db = record {
  queue = [];
  batch = [];
  writes = [];
  db = db;
  running = true;
  accepted = [];
  lost = [];
}

-- `try_send`: an error if the queue is full or the task has ended.
unfoldable pub store : StoredQuery → Writer → Writer × Bool
store q w =
    if w.running
    then if ltb (length w.queue) channel_bound
      then (record w { queue = w.queue ++ q ∷ []; accepted = w.accepted ++ q ∷ [] }, true)
      else (w, false)
    else (w, false)

-- The batch that is flushed is the first argument.
unfoldable pub flush_of : List StoredQuery → Writer → Writer
flush_of [] w = w
flush_of (q ∷ qs) w = record w { writes = w.writes ++ (q ∷ qs) ∷ []; batch = [] }

unfoldable pub flush_batch : Writer → Writer
unfolding flush_of
flush_batch w = flush_of w.batch w

-- The answer of `store_query_batch`, which writes all of the batch or nothing.
unfoldable pub write : List StoredQuery → Bool → Writer → Writer
write qs true w = record w { db = store_query_batch qs w.db }
write qs false w = record w { lost = w.lost ++ qs }

unfoldable pub sync_of : List StoredQuery → Bool → Writer → Writer
unfolding write
sync_of [] ok w = w
sync_of (q ∷ qs) ok w = write (q ∷ qs) ok (record w { batch = [] })

unfoldable pub flush_batch_sync : Bool → Writer → Writer
unfolding sync_of
flush_batch_sync ok w = sync_of w.batch ok w

-- A query is pushed to the batch, which is flushed when it is full.
unfoldable pub push : StoredQuery → Writer → Writer
unfolding flush_batch
push q w =
    let w1 : Writer = record w { batch = w.batch ++ q ∷ [] } in
    if leb batch_size (length w1.batch) then flush_batch w1 else w1

unfoldable pub receive : List StoredQuery → Writer → Writer
unfolding push
receive [] w = w
receive (q ∷ qs) w = push q (record w { queue = qs })

-- The task ends: the receiver is dropped, with what its queue holds.
unfoldable pub stop : Writer → Writer
stop w = record w { running = false; queue = []; lost = w.lost ++ w.queue }

unfoldable pub take_out :
    ℕ → List (List StoredQuery) → Option (List StoredQuery × List (List StoredQuery))
take_out n [] = none
take_out zero (b ∷ bs) = some (b, bs)
take_out (suc n) (b ∷ bs) = elim (take_out n bs) [ none ↦ none | some p ↦ some (p.0, b ∷ p.1) ]

unfoldable pub finish : Bool → Option (List StoredQuery × List (List StoredQuery)) → Writer → Writer
unfolding write
finish ok none w = w
finish ok (some p) w = write p.0 ok (record w { writes = p.1 })

-- The task ends by the shutdown signal, or when the channel is closed and its queue is empty.
pub data Event : Type 0 where
  stored : StoredQuery → Event
  received ticked : Event
  finished : ℕ → Bool → Event
  shut_down : Bool → Event

unfoldable pub step : Event → Writer → Writer
unfolding store receive flush_batch finish take_out flush_batch_sync stop
step (stored q) w = (store q w).0
step received w = if w.running then receive w.queue w else w
step ticked w = if w.running then flush_batch w else w
step (finished n ok) w = finish ok (take_out n w.writes) w
step (shut_down ok) w = if w.running then stop (flush_batch_sync ok w) else w

unfoldable pub run : List Event → Writer → Writer
unfolding step
run [] w = w
run (e ∷ es) w = run es (step e w)
