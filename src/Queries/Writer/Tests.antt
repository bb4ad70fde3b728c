-- ===== src/Queries/Writer/Tests.antt =====
-- A run of the writer: two queries, a tick, a write, a shutdown.
use nimbusdns.Common.{◌≡◌, refl, true, none, List, [], ◌∷◌, length}
use nimbusdns.Common.Text.{codes}
use nimbusdns.Queries.{StoredQuery, empty_tables, cached, store_query_batch}
use nimbusdns.Queries.Writer.{Event, stored, received, ticked, finished, shut_down, start, run}
use nimbusdns.Queries.Writer.Conservation.{IsConserved, run-IsConserved}

abbrev query : StoredQuery
query = record {
  timestamp = 5;
  domain = codes "a.com";
  client = none;
  forward = none;
  query_type = 1;
  status = cached;
  reply_time = none;
  reply_type = 0;
  flags = 0;
  interface = none;
  elapsed_ms = none;
  adlist_id = none;
  cache_id = none;
  regex_id = none;
  upstream_id = none;
}

abbrev events : List Event
events = stored query ∷ received ∷ ticked ∷ finished 0 true ∷ stored query ∷ shut_down true ∷ []

-- The first query is written, and the second, which was still in the queue, is lost.
one_written : length (run events (start empty_tables)).db.queries ≡ 1
unfolding run store_query_batch start empty_tables
one_written = refl

one_lost : (run events (start empty_tables)).lost ≡ query ∷ []
unfolding run store_query_batch start empty_tables
one_lost = refl

run-IsConserved_example : IsConserved 99 empty_tables.queries (run events (start empty_tables))
run-IsConserved_example = run-IsConserved events empty_tables
