-- ===== src/Queries/Tests.antt =====
-- The query database and its writer at concrete rows.
use nimbusdns.Common.{ℕ, ◌-◌, ◌≡◌, refl, none, [], ◌∷◌, length, keep, leb}
use nimbusdns.Common.Text.{codes}
use nimbusdns.Queries.{
  QueryDb, QueryStatus, StoredQuery, blocked, forwarded, empty_tables, store_query_batch,
}
use nimbusdns.Queries.History.{IsHistory, get_query_history, get_query_history-IsHistory}

abbrev query : ℕ → QueryStatus → StoredQuery
query timestamp status = record {
  timestamp = timestamp;
  domain = codes "a.com";
  client = none;
  forward = none;
  query_type = 1;
  status = status;
  reply_time = none;
  reply_type = 0;
  flags = 0;
  interface = none;
  elapsed_ms = none;
  adlist_id = none;
  cache_id = none;
  regex_id = none;
  upstream_id = none;
}

abbrev tables : QueryDb
tables =
    store_query_batch (query 700 blocked ∷ query 1300 forwarded ∷ query 650 blocked ∷ [])
      empty_tables

two_slots : length (get_query_history 2000 tables) ≡ 2
unfolding get_query_history store_query_batch empty_tables
two_slots = refl

-- The three rows are of the last day.
get_query_history-IsHistory_example :
    IsHistory
      (keep (λ r. leb (2000 - 86400) r.1.timestamp) tables.queries)
      (get_query_history 2000 tables)
get_query_history-IsHistory_example = get_query_history-IsHistory 2000 tables
