-- ===== src/Queries/Writer/Conservation.antt =====
-- Every query that `DbWriter::store` of nimbus-core/src/database/writer.rs accepts is in one place.
use nimbusdns.Common.{
  ℕ, zero, suc, ◌+◌, ◌≤◌, ◌≡◌, refl, Bool, true, false, some, List, [], ◌∷◌, ◌++◌, length,
  length-append, All, All-append, leb, ltb, arith, ap, sym, subst, if_elim, if◌then◌else◌, inl, inr,
  Option-cases,
}
use nimbusdns.Queries.Select.{Row}
use nimbusdns.Queries.{QueryDb, StoredQuery, store_query, store_query_batch}
use nimbusdns.Queries.Writer.{
  Writer, Event, stored, received, ticked, finished, shut_down, start, store, flush_of, sync_of,
  flush_batch, write, flush_batch_sync, push, receive, stop, take_out, finish, step, run,
  batch_size, channel_bound,
}

-- How many of the queries have a property.
abbrev pub tally : (StoredQuery → Bool) → List StoredQuery → ℕ
tally p [] = 0
tally p (q ∷ qs) = (if p q then 1 else 0) + tally p qs

abbrev pub tally_rows : (StoredQuery → Bool) → List Row → ℕ
tally_rows p [] = 0
tally_rows p (r ∷ rows) = (if p r.1 then 1 else 0) + tally_rows p rows

abbrev pub tally_writes : (StoredQuery → Bool) → List (List StoredQuery) → ℕ
tally_writes p [] = 0
tally_writes p (b ∷ bs) = tally p b + tally_writes p bs

-- `base` is the rows at the start, `most` bounds the batch. The balance holds of any property of a
-- query, hence of each query on its own.
pub record IsConserved (most : ℕ) (base : List Row) (w : Writer) : Type 0 where
  pub balance :
      (p : StoredQuery → Bool)
      → tally p w.accepted + tally_rows p base
        ≡ tally p w.queue
          + tally p w.batch
          + tally_writes p w.writes
          + tally_rows p w.db.queries
          + tally p w.lost
  pub queue : length w.queue ≤ channel_bound
  pub batch : length w.batch ≤ most
  pub writes : All (λ b. length b ≤ batch_size) w.writes
  pub ended : w.running ≡ false → (w.queue ≡ []) × (w.batch ≡ [])

tally-append :
    (p : StoredQuery → Bool) (qs rs : List StoredQuery)
    → tally p (qs ++ rs) ≡ tally p qs + tally p rs
tally-append p [] rs = omega arith
tally-append p (q ∷ qs) rs = omega (arith, tally-append p qs rs)

tally_rows-append :
    (p : StoredQuery → Bool) (qs rs : List Row)
    → tally_rows p (qs ++ rs) ≡ tally_rows p qs + tally_rows p rs
tally_rows-append p [] rs = omega arith
tally_rows-append p (q ∷ qs) rs = omega (arith, tally_rows-append p qs rs)

tally_writes-append :
    (p : StoredQuery → Bool) (bs cs : List (List StoredQuery))
    → tally_writes p (bs ++ cs) ≡ tally_writes p bs + tally_writes p cs
tally_writes-append p [] cs = omega arith
tally_writes-append p (b ∷ bs) cs = omega (arith, tally_writes-append p bs cs)

tally-store_query_batch :
    (p : StoredQuery → Bool) (qs : List StoredQuery) (db : QueryDb)
    → tally_rows p (store_query_batch qs db).queries ≡ tally p qs + tally_rows p db.queries
unfolding store_query_batch store_query
tally-store_query_batch p [] db = omega arith
tally-store_query_batch p (q ∷ qs) db = omega (
  arith,
  tally-store_query_batch p qs (store_query q db).0,
  tally_rows-append p db.queries ((suc db.last_query, q) ∷ []),
)

-- The batch that is taken out and the others are what was there.
abbrev IsTaken : List (List StoredQuery) → List StoredQuery × List (List StoredQuery) → Type 0
IsTaken bs p = (f : StoredQuery → Bool) → tally_writes f bs ≡ tally f p.0 + tally_writes f p.1

take_out-IsTaken :
    (n : ℕ) (bs : List (List StoredQuery)) (p : List StoredQuery × List (List StoredQuery))
    → take_out n bs ≡ some p
    → All (λ b. length b ≤ batch_size) bs
    → IsTaken bs p × All (λ b. length b ≤ batch_size) p.1
unfolding take_out
take_out-IsTaken n [] p h a = cc
take_out-IsTaken zero (b ∷ bs) p h a =
    let e : (b, bs) ≡ p = ground (arith, h) in
    subst (λ p. IsTaken (b ∷ bs) p × All (λ b. length b ≤ batch_size) p.1) e ((λ f. refl), a.1)
take_out-IsTaken (suc n) (b ∷ bs) p h a = elim (Option-cases (take_out n bs)) [
  | inl e ↦ ground (arith, h, e)
  | inr q ↦
      let r = take_out-IsTaken n bs q.0 q.1 a.1 in
      let e : (q.0.0, b ∷ q.0.1) ≡ p = ground (arith, h, q.1) in
      subst (λ p. IsTaken (b ∷ bs) p × All (λ b. length b ≤ batch_size) p.1) e
        ((λ f. omega (arith, r.0 f)), (a.0, r.1))
]

flush_of-IsConserved :
    (base : List Row) (b : List StoredQuery) (w : Writer)
    → w.batch ≡ b
    → IsConserved batch_size base w
    → IsConserved 99 base (flush_of b w)
unfolding flush_of
flush_of-IsConserved base [] w e c = record {
  balance = c.balance;
  queue = c.queue;
  batch = subst (λ b. length b ≤ 99) (sym e) (omega arith);
  writes = c.writes;
  ended = c.ended;
}
flush_of-IsConserved base (q ∷ qs) w e c =
    let size : length w.batch ≡ length (q ∷ qs) = ap length e in
    record {
      balance = λ p.
          omega
            (arith, c.balance p, ap (tally p) e, tally_writes-append p w.writes ((q ∷ qs) ∷ []));
      queue = c.queue;
      batch = omega arith;
      writes = All-append _ w.writes _ c.writes (omega (arith, c.batch, size), tt);
      ended = λ f. ((c.ended f).0, refl);
    }

-- A batch that is not full is one that may be.
not_full : (base : List Row) (w : Writer) → IsConserved 99 base w → IsConserved batch_size base w
not_full base w c = record {
  balance = c.balance;
  queue = c.queue;
  batch = omega (arith, c.batch);
  writes = c.writes;
  ended = c.ended;
}

flush_batch-IsConserved :
    (base : List Row) (w : Writer) → IsConserved 99 base w → IsConserved 99 base (flush_batch w)
unfolding flush_batch
flush_batch-IsConserved base w c = flush_of-IsConserved base w.batch w refl (not_full base w c)

store-IsConserved :
    (base : List Row) (q : StoredQuery) (w : Writer)
    → IsConserved 99 base w
    → IsConserved 99 base (store q w).0
unfolding store
store-IsConserved base q w c =
    if_elim {A = Writer × Bool} (λ r. IsConserved 99 base r.0) w.running
      (λ t.
        if_elim {A = Writer × Bool} (λ r. IsConserved 99 base r.0)
          (ltb (length w.queue) channel_bound)
          (λ l. record {
            balance = λ p. omega (
              arith,
              c.balance p,
              tally-append p w.queue (q ∷ []),
              tally-append p w.accepted (q ∷ []),
            );
            queue = ground (arith, l, length-append w.queue (q ∷ []));
            batch = c.batch;
            writes = c.writes;
            ended = λ f. cc;
          })
          (λ g. c))
      (λ f. c)

write-IsConserved :
    (base : List Row) (ok : Bool) (p : List StoredQuery × List (List StoredQuery)) (w : Writer)
    → IsTaken w.writes p × All (λ b. length b ≤ batch_size) p.1
    → IsConserved 99 base w
    → IsConserved 99 base (write p.0 ok (record w { writes = p.1 }))
unfolding write
write-IsConserved base true p w h c = record {
  balance = λ f. omega (arith, c.balance f, h.0 f, tally-store_query_batch f p.0 w.db);
  queue = c.queue;
  batch = c.batch;
  writes = h.1;
  ended = c.ended;
}
write-IsConserved base false p w h c = record {
  balance = λ f. omega (arith, c.balance f, h.0 f, tally-append f w.lost p.0);
  queue = c.queue;
  batch = c.batch;
  writes = h.1;
  ended = c.ended;
}

finish-IsConserved :
    (base : List Row) (n : ℕ) (ok : Bool) (w : Writer)
    → IsConserved 99 base w
    → IsConserved 99 base (finish ok (take_out n w.writes) w)
unfolding finish
finish-IsConserved base n ok w c = elim (Option-cases (take_out n w.writes)) [
  | inl e ↦ rw e c
  | inr p ↦
      rw p.1 (write-IsConserved base ok p.0 w (take_out-IsTaken n w.writes p.0 p.1 c.writes) c)
]

push-IsConserved :
    (base : List Row) (q : StoredQuery) (qs : List StoredQuery) (w : Writer)
    → w.queue ≡ q ∷ qs
    → w.running ≡ true
    → IsConserved 99 base w
    → IsConserved 99 base (push q (record w { queue = qs }))
unfolding push flush_batch
push-IsConserved base q qs w e t c =
    let size : length w.queue ≡ length (q ∷ qs) = ap length e in
    let w1 : Writer = record w { queue = qs; batch = w.batch ++ q ∷ [] } in
    let c1 : IsConserved batch_size base w1 = record {
      balance = λ p. omega (arith, c.balance p, ap (tally p) e, tally-append p w.batch (q ∷ []));
      queue = omega (arith, c.queue, size);
      batch = omega (arith, c.batch, length-append w.batch (q ∷ []));
      writes = c.writes;
      ended = λ f. cc;
    } in
    if_elim (IsConserved 99 base) (leb batch_size (length w1.batch))
      (λ l. flush_of-IsConserved base w1.batch w1 refl c1)
      (λ g. record {
        balance = c1.balance;
        queue = c1.queue;
        batch = ground (arith, g);
        writes = c1.writes;
        ended = c1.ended;
      })

receive-IsConserved :
    (base : List Row) (qs : List StoredQuery) (w : Writer)
    → w.queue ≡ qs
    → w.running ≡ true
    → IsConserved 99 base w
    → IsConserved 99 base (receive qs w)
unfolding receive
receive-IsConserved base [] w e t c = c
receive-IsConserved base (q ∷ qs) w e t c = push-IsConserved base q qs w e t c

sync_of-IsConserved :
    (base : List Row) (b : List StoredQuery) (ok : Bool) (w : Writer)
    → w.batch ≡ b
    → IsConserved 99 base w
    → IsConserved 99 base (stop (sync_of b ok w))
unfolding sync_of write stop
sync_of-IsConserved base [] ok w e c = record {
  balance = λ p. omega (arith, c.balance p, tally-append p w.lost w.queue);
  queue = omega arith;
  batch = c.batch;
  writes = c.writes;
  ended = λ f. (refl, e);
}
sync_of-IsConserved base (q ∷ qs) true w e c =
    let size : length w.batch ≡ length (q ∷ qs) = ap length e in
    record {
      balance = λ p. omega (
        arith,
        c.balance p,
        ap (tally p) e,
        tally-store_query_batch p (q ∷ qs) w.db,
        tally-append p w.lost w.queue,
      );
      queue = omega arith;
      batch = omega arith;
      writes = c.writes;
      ended = λ f. (refl, refl);
    }
sync_of-IsConserved base (q ∷ qs) false w e c =
    let size : length w.batch ≡ length (q ∷ qs) = ap length e in
    record {
      balance = λ p. omega (
        arith,
        c.balance p,
        ap (tally p) e,
        tally-append p (w.lost ++ q ∷ qs) w.queue,
        tally-append p w.lost (q ∷ qs),
      );
      queue = omega arith;
      batch = omega arith;
      writes = c.writes;
      ended = λ f. (refl, refl);
    }

step-IsConserved :
    (base : List Row) (e : Event) (w : Writer)
    → IsConserved 99 base w
    → IsConserved 99 base (step e w)
unfolding step flush_batch_sync
step-IsConserved base (stored q) w c = store-IsConserved base q w c
step-IsConserved base received w c =
    if_elim (IsConserved 99 base) w.running (λ t. receive-IsConserved base w.queue w refl t c)
      (λ f. c)
step-IsConserved base ticked w c =
    if_elim (IsConserved 99 base) w.running (λ t. flush_batch-IsConserved base w c) (λ f. c)
step-IsConserved base (finished n ok) w c = finish-IsConserved base n ok w c
step-IsConserved base (shut_down ok) w c =
    if_elim (IsConserved 99 base) w.running (λ t. sync_of-IsConserved base w.batch ok w refl c)
      (λ f. c)

run-from :
    (base : List Row) (es : List Event) (w : Writer)
    → IsConserved 99 base w
    → IsConserved 99 base (run es w)
unfolding run
run-from base [] w c = c
run-from base (e ∷ es) w c = run-from base es (step e w) (step-IsConserved base e w c)

-- After any events since the start, the queries that were accepted and the rows of the table at the
-- start are, each as often as then and unchanged, those in the queue, the batch, the writes that run
-- and the table, and those that were lost; the queue holds at most 4096, the batch at most 99, a write
-- at most 100; and a task that has ended has none in its queue and its batch.
pub run-IsConserved :
    (es : List Event) (db : QueryDb) → IsConserved 99 db.queries (run es (start db))
unfolding start
run-IsConserved es db = run-from db.queries es (start db) (record {
  balance = λ p. omega arith;
  queue = omega arith;
  batch = omega arith;
  writes = tt;
  ended = λ f. cc;
})
