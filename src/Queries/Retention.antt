-- ===== src/Queries/Retention.antt =====
-- What `delete_old_queries` and the statistics of
-- nimbus-core/src/database/queries.rs say of the rows.
use nimbusdns.Common.{
  ℕ, ◌+◌, ◌-◌, ◌≤◌, ◌≡◌, refl, Bool, not, List, [], ◌∷◌, keep, length, All, ltb, arith, inl, inr,
  Bool-cases,
}
use nimbusdns.Queries.{
  QueryDb, delete_old_queries, as_i32, from_i32, QueryStatus, unknown, blocked, cached, forwarded,
  nxdomain, servfail, retried, rate_limited,
}
use nimbusdns.Queries.Select.{Row, has_status, count_if, get_stats}

split_length :
    (p : Row → Bool) (rows : List Row)
    → length (keep (λ r. not (p r)) rows) + length (keep p rows) ≡ length rows
split_length p [] = omega arith
split_length p (r ∷ rows) = ground (arith, split_length p rows)

kept_recent :
    (t : ℕ) (rows : List Row)
    → All (λ r. t ≤ r.1.timestamp) (keep (λ r. not (ltb r.1.timestamp t)) rows)
kept_recent t [] = tt
kept_recent t (r ∷ rows) = elim (Bool-cases (ltb r.1.timestamp t)) [
  | inl b ↦ rw b (kept_recent t rows)
  | inr b ↦ rw b (ground (arith, b), kept_recent t rows)
]

-- Of the rows, those that `delete_old_queries` leaves are no older than the age that is given, and
-- with the number that it returns they make up the number of rows before.
pub delete_old_queries_recent :
    (now max_age : ℕ) (db : QueryDb)
    → All (λ r. now - max_age ≤ r.1.timestamp) (delete_old_queries now max_age db).0.queries
      × (length (delete_old_queries now max_age db).0.queries
            + (delete_old_queries now max_age db).1
          ≡ length db.queries)
unfolding delete_old_queries
delete_old_queries_recent now max_age db = (
  kept_recent (now - max_age) db.queries,
  split_length (λ r. ltb r.1.timestamp (now - max_age)) db.queries,
)

-- The rows of a statistic are among all, each in one class at most.
stats_rows :
    (rows : List Row)
    → count_if (has_status 1) rows + count_if (has_status 2) rows + count_if (has_status 3) rows
      ≤ length rows
unfolding count_if has_status
stats_rows [] = omega arith
stats_rows (r ∷ rows) = ground (arith, stats_rows rows)

pub get_stats-le :
    (db : QueryDb)
    → (get_stats db).blocked + (get_stats db).cached + (get_stats db).forwarded
      ≤ (get_stats db).total
unfolding get_stats
get_stats-le db = stats_rows db.queries

-- A status is read back from its number.
pub from_i32-as_i32 : (s : QueryStatus) → from_i32 (as_i32 s) ≡ s
unfolding from_i32 as_i32
from_i32-as_i32 unknown = refl
from_i32-as_i32 blocked = refl
from_i32-as_i32 cached = refl
from_i32-as_i32 forwarded = refl
from_i32-as_i32 nxdomain = refl
from_i32-as_i32 servfail = refl
from_i32-as_i32 retried = refl
from_i32-as_i32 rate_limited = refl
