-- ===== src/Queries/Select.antt =====
-- The SELECT statements of nimbus-core/src/database/queries.rs. LIKE of SQLite is an argument. Rows that
-- ORDER BY leaves open come in the order of the table; a LIMIT or OFFSET is at least 0.
use nimbusdns.Common.{
  ℕ, zero, suc, ◌+◌, ◌-◌, Bool, true, false, ◌&&◌, Option, none, some, List, [], ◌∷◌, ◌++◌, map,
  keep, length, take, leb, ◌==◌, if◌then◌else◌,
}
use nimbusdns.Common.Text.{Text, same, codes}
use nimbusdns.Queries.{QueryDb, StoredQuery, as_i32}

pub record CountedItem : Type 0 where
  pub name : Text
  pub count : ℕ

pub record QueryTypeCount : Type 0 where
  pub query_type : ℕ
  pub count : ℕ

pub record BlockedQuery : Type 0 where
  pub timestamp : ℕ
  pub domain : Text
  pub client : Option Text
  pub forward : Option Text
  pub query_type : ℕ

pub record QueryStats : Type 0 where
  pub total : ℕ
  pub blocked : ℕ
  pub cached : ℕ
  pub forwarded : ℕ

pub record QueryFilter : Type 0 where
  pub domain : Option Text
  pub client : Option Text
  pub status : Option ℕ
  pub from : Option ℕ
  pub until : Option ℕ
  pub limit : ℕ
  pub offset : ℕ

pub record QueryLogEntry : Type 0 where
  pub id : ℕ
  pub timestamp : ℕ
  pub domain : Text
  pub client : Option Text
  pub forward : Option Text
  pub query_type : ℕ
  pub status : ℕ
  pub reply_time : Option ℕ
  pub elapsed_ms : Option ℕ

-- A row of the table.
abbrev pub Row : Type 0
Row = ℕ × StoredQuery

unfoldable pub has_status : ℕ → Row → Bool
has_status status r = as_i32 r.1.status == status

unfoldable pub count_if : {A : Type 0} → (A → Bool) → List A → ℕ
count_if p rows = length (keep p rows)

unfoldable pub get_stats : QueryDb → QueryStats
unfolding has_status count_if
get_stats db = record {
  total = length db.queries;
  blocked = count_if (has_status 1) db.queries;
  cached = count_if (has_status 2) db.queries;
  forwarded = count_if (has_status 3) db.queries;
}

-- The argument is the midnight (UTC) before now.
unfoldable pub todays_queries : ℕ → QueryDb → ℕ
unfolding count_if
todays_queries start_of_day db = count_if (λ r. leb start_of_day r.1.timestamp) db.queries

-- ORDER BY a number, DESC.
module _ {A : Type 0} (key : A → ℕ) where
  unfoldable pub insert_desc : A → List A → List A
  insert_desc r [] = r ∷ []
  insert_desc r (q ∷ rows) =
      let rest = insert_desc r rows in if leb (key q) (key r) then r ∷ q ∷ rows else q ∷ rest

  unfoldable pub order_desc : List A → List A
  unfolding insert_desc
  order_desc [] = []
  order_desc (r ∷ rows) = insert_desc r (order_desc rows)

-- GROUP BY a text, with COUNT(*).
unfoldable pub add_item : Text → List CountedItem → List CountedItem
unfolding same
add_item name [] = record { name = name; count = 1 } ∷ []
add_item name (i ∷ items) =
    let rest = add_item name items in
    if same name i.name then record i { count = i.count + 1 } ∷ items else i ∷ rest

unfoldable pub count_items : List Text → List CountedItem
unfolding add_item
count_items [] = []
count_items (name ∷ names) = add_item name (count_items names)

unfoldable pub add_type : ℕ → List QueryTypeCount → List QueryTypeCount
add_type t [] = record { query_type = t; count = 1 } ∷ []
add_type t (i ∷ items) =
    let rest = add_type t items in
    if t == i.query_type then record i { count = i.count + 1 } ∷ items else i ∷ rest

unfoldable pub count_types : List ℕ → List QueryTypeCount
unfolding add_type
count_types [] = []
count_types (t ∷ ts) = add_type t (count_types ts)

-- The texts that are neither NULL nor empty.
unfoldable pub present : List (Option Text) → List Text
present [] = []
present (none ∷ ts) = present ts
present (some [] ∷ ts) = present ts
present (some (ch ∷ t) ∷ ts) = (ch ∷ t) ∷ present ts

unfoldable pub since : ℕ → List Row → List Row
since cutoff rows = keep (λ r. leb cutoff r.1.timestamp) rows

unfoldable pub top : ℕ → List (Option Text) → List CountedItem
unfolding count_items present order_desc
top limit ts = take limit (order_desc (λ i. i.count) (count_items (present ts)))

unfoldable pub get_top_domains : ℕ → ℕ → QueryDb → List CountedItem
unfolding top since
get_top_domains now limit db =
    top limit (map (λ r. some r.1.domain) (since (now - 86400) db.queries))

unfoldable pub get_top_clients : ℕ → ℕ → QueryDb → List CountedItem
unfolding top since
get_top_clients now limit db = top limit (map (λ r. r.1.client) (since (now - 86400) db.queries))

unfoldable pub get_top_upstreams : ℕ → ℕ → QueryDb → List CountedItem
unfolding top since
get_top_upstreams now limit db = top limit (map (λ r. r.1.forward) (since (now - 86400) db.queries))

unfoldable pub get_query_type_distribution : QueryDb → List QueryTypeCount
unfolding count_types order_desc
get_query_type_distribution db =
    order_desc (λ i. i.count) (count_types (map (λ r. r.1.query_type) db.queries))

unfoldable pub blocked_query : Row → BlockedQuery
blocked_query r = record {
  timestamp = r.1.timestamp;
  domain = r.1.domain;
  client = r.1.client;
  forward = r.1.forward;
  query_type = r.1.query_type;
}

unfoldable pub get_recent_blocked : ℕ → QueryDb → List BlockedQuery
unfolding order_desc has_status blocked_query
get_recent_blocked limit db =
    map blocked_query
      (take limit (order_desc (λ r. r.1.timestamp) (keep (has_status 1) db.queries)))

unfoldable pub log_entry : Row → QueryLogEntry
log_entry r = record {
  id = r.0;
  timestamp = r.1.timestamp;
  domain = r.1.domain;
  client = r.1.client;
  forward = r.1.forward;
  query_type = r.1.query_type;
  status = as_i32 r.1.status;
  reply_time = r.1.reply_time;
  elapsed_ms = r.1.elapsed_ms;
}

-- A condition that is not given holds.
unfoldable pub when_given : {A : Type 0} → (A → Bool) → Option A → Bool
when_given p none = true
when_given p (some a) = p a

unfoldable pub drop_rows : ℕ → List Row → List Row
drop_rows zero rows = rows
drop_rows (suc n) [] = []
drop_rows (suc n) (r ∷ rows) = drop_rows n rows

module _ (like : Text → Text → Bool) where
  unfoldable pub client_like : Text → Option Text → Bool
  client_like pattern none = false
  client_like pattern (some c) = like pattern c

  unfoldable pub passes : QueryFilter → Row → Bool
  unfolding when_given client_like has_status
  passes f r =
      when_given (λ d. like (codes "%" ++ d ++ codes "%") r.1.domain) f.domain
      && when_given (λ c. client_like (codes "%" ++ c ++ codes "%") r.1.client) f.client
      && when_given (λ s. has_status s r) f.status
      && when_given (λ t. leb t r.1.timestamp) f.from
      && when_given (λ t. leb r.1.timestamp t) f.until

  -- The page, and the number of rows that pass.
  unfoldable pub get_queries : QueryFilter → QueryDb → List QueryLogEntry × ℕ
  unfolding passes order_desc count_if log_entry drop_rows
  get_queries f db = (
    map log_entry (
        take f.limit
          (drop_rows f.offset (order_desc (λ r. r.1.timestamp) (keep (passes f) db.queries)))),
    count_if (passes f) db.queries,
  )
