-- ===== src/Queries.antt =====
-- The query database of nimbus-core/src/database/queries.rs: its tables and the statements that change
-- them. A table is the list of its rows, the oldest first; a time is a number of seconds since
-- the epoch, and a number of the code is taken to be at least 0. `now` is an argument.
pub mod Select
pub mod History
pub mod Retention
pub mod Writer
mod Tests
use nimbusdns.Common.{
  ℕ, suc, ◌+◌, ◌-◌, Bool, true, false, not, ◌&&◌, Option, none, some, List, [], ◌∷◌, ◌++◌, map, any,
  keep, find, length, ltb, ◌==◌, if◌then◌else◌,
}
use nimbusdns.Common.Text.{Text, same}

pub data QueryStatus : Type 0 where
  unknown blocked cached forwarded nxdomain servfail retried rate_limited : QueryStatus

-- `status as i32`
unfoldable pub as_i32 : QueryStatus → ℕ
as_i32 unknown = 0
as_i32 blocked = 1
as_i32 cached = 2
as_i32 forwarded = 3
as_i32 nxdomain = 4
as_i32 servfail = 5
as_i32 retried = 6
as_i32 rate_limited = 7

unfoldable pub from_i32 : ℕ → QueryStatus
from_i32 n =
    if n == 1
    then blocked
    else if n == 2
    then cached
    else if n == 3
    then forwarded
    else if n == 4
    then nxdomain
    else if n == 5
    then servfail
    else if n == 6
    then retried
    else if n == 7
    then rate_limited
    else unknown

pub record StoredQuery : Type 0 where
  pub timestamp : ℕ
  pub domain : Text
  pub client : Option Text
  pub forward : Option Text
  pub query_type : ℕ
  pub status : QueryStatus
  pub reply_time : Option ℕ
  pub reply_type : ℕ
  pub flags : ℕ
  pub interface : Option Text
  pub elapsed_ms : Option ℕ
  pub adlist_id : Option ℕ
  pub cache_id : Option ℕ
  pub regex_id : Option ℕ
  pub upstream_id : Option ℕ

pub record Session : Type 0 where
  pub sid : Text
  pub created_at : ℕ
  pub expires_at : ℕ
  pub last_used_at : Option ℕ
  pub client_ip : Option Text
  pub user_agent : Option Text

pub record LeaseRow : Type 0 where
  pub mac : Text
  pub ip : ℕ
  pub hostname : Text
  pub expires_at : ℕ

-- A row of `queries` is its number and what was stored.
pub record QueryDb : Type 0 where
  pub queries : List (ℕ × StoredQuery)
  pub last_query : ℕ
  pub sessions : List Session
  pub dhcp_leases : List LeaseRow

unfoldable pub empty_tables : QueryDb
empty_tables = record { queries = []; last_query = 0; sessions = []; dhcp_leases = [] }

unfoldable pub store_query : StoredQuery → QueryDb → QueryDb × ℕ
store_query q db =
    let id = suc db.last_query in
    (record db { queries = db.queries ++ (id, q) ∷ []; last_query = id }, id)

-- One transaction.
unfoldable pub store_query_batch : List StoredQuery → QueryDb → QueryDb
unfolding store_query
store_query_batch [] db = db
store_query_batch (q ∷ qs) db = store_query_batch qs (store_query q db).0

unfoldable pub delete_old_queries : ℕ → ℕ → QueryDb → QueryDb × ℕ
delete_old_queries now max_age_secs db =
    let cutoff = now - max_age_secs in
    (
      record db { queries = keep (λ r. not (ltb r.1.timestamp cutoff)) db.queries },
      length (keep (λ r. ltb r.1.timestamp cutoff) db.queries),
    )

-- The sessions; `sid` is the primary key.
unfoldable pub create_session : Text → ℕ → Option Text → Option Text → ℕ → QueryDb → QueryDb × Bool
unfolding same
create_session sid expires_at client_ip user_agent now db =
    if any (λ s. same sid s.sid) db.sessions then (db, false) else (
      record db {
        sessions =
            db.sessions
            ++ record {
              sid = sid;
              created_at = now;
              expires_at = expires_at;
              last_used_at = some now;
              client_ip = client_ip;
              user_agent = user_agent;
            }
              ∷ [];
      },
      true,
    )

unfoldable pub get_session : Text → QueryDb → Option Session
unfolding same
get_session sid db = find (λ s. same sid s.sid) db.sessions

unfoldable pub delete_session : Text → QueryDb → QueryDb
unfolding same
delete_session sid db = record db { sessions = keep (λ s. not (same sid s.sid)) db.sessions }

unfoldable pub touch_session : Text → ℕ → QueryDb → QueryDb
unfolding same
touch_session sid now db = record db {
  sessions =
      map (λ s. if same sid s.sid then record s { last_used_at = some now } else s) db.sessions;
}

unfoldable pub cleanup_expired_sessions : ℕ → QueryDb → QueryDb × ℕ
cleanup_expired_sessions now db = (
  record db { sessions = keep (λ s. not (ltb s.expires_at now)) db.sessions },
  length (keep (λ s. ltb s.expires_at now) db.sessions),
)

unfoldable pub refresh_session : Text → ℕ → ℕ → QueryDb → QueryDb
unfolding same
refresh_session sid expires_at now db = record db {
  sessions =
      map
        (λ s.
          if same sid s.sid
          then record s { expires_at = expires_at; last_used_at = some now }
          else s)
        db.sessions;
}

-- The leases; `mac` is the primary key, and INSERT OR REPLACE deletes the row it replaces.
unfoldable pub delete_dhcp_lease : Text → QueryDb → QueryDb
unfolding same
delete_dhcp_lease mac db = record db {
  dhcp_leases = keep (λ r. not (same mac r.mac)) db.dhcp_leases;
}

unfoldable pub persist_dhcp_lease : Text → ℕ → Text → ℕ → QueryDb → QueryDb
unfolding delete_dhcp_lease
persist_dhcp_lease mac ip hostname expires_at db =
    let db1 = delete_dhcp_lease mac db in
    record db1 {
      dhcp_leases =
          db1.dhcp_leases
          ++ record { mac = mac; ip = ip; hostname = hostname; expires_at = expires_at } ∷ [];
    }

unfoldable pub load_dhcp_leases : QueryDb → List LeaseRow
load_dhcp_leases db = db.dhcp_leases
