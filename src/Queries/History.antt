-- ===== src/Queries/History.antt =====
-- `get_query_history` of nimbus-core/src/database/queries.rs: GROUP BY and ORDER BY the start of ten minutes.
use nimbusdns.Common.{
  ℕ, ◌+◌, ◌-◌, ◌*◌, ◌/◌, ◌<◌, ◌≡◌, refl, List, [], ◌∷◌, All, keep, length, ltb, leb, Bool, ◌&&◌,
  ◌%◌, ◌==◌, arith, if◌then◌else◌, inl, inr, Bool-cases,
}
use nimbusdns.Queries.{QueryDb}
use nimbusdns.Queries.Select.{Row, has_status, since, count_if}

pub record HistorySlot : Type 0 where
  pub timestamp : ℕ
  pub total : ℕ
  pub blocked : ℕ
  pub cached : ℕ
  pub forwarded : ℕ

-- `CASE WHEN dbl_status = s THEN 1 ELSE 0 END`
unfoldable pub case_status : ℕ → Row → ℕ
unfolding has_status
case_status s r = if has_status s r then 1 else 0

unfoldable pub slot_of : Row → ℕ
slot_of r = (r.1.timestamp / 600) * 600

unfoldable pub new_slot : Row → HistorySlot
unfolding slot_of case_status
new_slot r = record {
  timestamp = slot_of r;
  total = 1;
  blocked = case_status 1 r;
  cached = case_status 2 r;
  forwarded = case_status 3 r;
}

unfoldable pub count_in : Row → HistorySlot → HistorySlot
unfolding case_status
count_in r s = record s {
  total = s.total + 1;
  blocked = s.blocked + case_status 1 r;
  cached = s.cached + case_status 2 r;
  forwarded = s.forwarded + case_status 3 r;
}

unfoldable pub add_row : Row → List HistorySlot → List HistorySlot
unfolding new_slot count_in slot_of
add_row r [] = new_slot r ∷ []
add_row r (s ∷ slots) =
    let rest = add_row r slots in
    if slot_of r == s.timestamp
    then count_in r s ∷ slots
    else if ltb (slot_of r) s.timestamp
    then new_slot r ∷ s ∷ slots
    else s ∷ rest

unfoldable pub group_rows : List Row → List HistorySlot
unfolding add_row
group_rows [] = []
group_rows (r ∷ rows) = add_row r (group_rows rows)

unfoldable pub get_query_history : ℕ → QueryDb → List HistorySlot
unfolding group_rows since
get_query_history now db = group_rows (since (now - 86400) db.queries)

abbrev pub sum : (HistorySlot → ℕ) → List HistorySlot → ℕ
sum f [] = 0
sum f (s ∷ slots) = f s + sum f slots

-- The slots are in order, and no two start at the same time.
abbrev pub Ascending : List HistorySlot → Type 0
Ascending [] = Unit
Ascending (s ∷ slots) = All (λ q. s.timestamp < q.timestamp) slots × Ascending slots

sum-add_row_total :
    (r : Row) (slots : List HistorySlot)
    → sum (λ s. s.total) (add_row r slots) ≡ sum (λ s. s.total) slots + 1
unfolding add_row new_slot count_in
sum-add_row_total r [] = ground arith
sum-add_row_total r (s ∷ slots) = ground (arith, sum-add_row_total r slots)

totals : (rows : List Row) → sum (λ s. s.total) (group_rows rows) ≡ length rows
unfolding group_rows
totals [] = refl
totals (r ∷ rows) = ground (arith, sum-add_row_total r (group_rows rows), totals rows)

-- A row of the ten minutes from `t` on.
abbrev pub is_in : ℕ → Row → Bool
is_in t r = leb t r.1.timestamp && ltb r.1.timestamp (t + 600)

-- What the slots that start at `t` count.
abbrev pub at : (HistorySlot → ℕ) → ℕ → List HistorySlot → ℕ
at f t [] = 0
at f t (s ∷ slots) = (if s.timestamp == t then f s else 0) + at f t slots

-- A counter that adds up `g` of the rows of its slot.
module _ (f : HistorySlot → ℕ) (g : Row → ℕ) (first : (r : Row) → f (new_slot r) ≡ g r)
    (next : (r : Row) (s : HistorySlot) → f (count_in r s) ≡ f s + g r) where
  at-add_row :
      (t : ℕ) (r : Row) (slots : List HistorySlot)
      → at f t (add_row r slots) ≡ (if slot_of r == t then g r else 0) + at f t slots
  unfolding add_row new_slot count_in
  at-add_row t r [] = ground (arith, first r)
  at-add_row t r (s ∷ slots) = ground (arith, first r, next r s, at-add_row t r slots)

below :
    (t : ℕ) (r : Row) (slots : List HistorySlot)
    → t < slot_of r
    → All (λ q. t < q.timestamp) slots
    → All (λ q. t < q.timestamp) (add_row r slots)
unfolding add_row new_slot count_in
below t r [] h k = (h, tt)
below t r (s ∷ slots) h k = elim (Bool-cases (slot_of r == s.timestamp)) [
  | inl e ↦ rw e k
  | inr n ↦ elim (Bool-cases (ltb (slot_of r) s.timestamp)) [
    | inl l ↦ rw (n, l) (h, k)
    | inr g ↦ rw (n, g) (k.0, below t r slots h k.1)
  ]
]

All-lt :
    (t u : ℕ) (slots : List HistorySlot)
    → t < u
    → All (λ q. u < q.timestamp) slots
    → All (λ q. t < q.timestamp) slots
All-lt t u [] h k = tt
All-lt t u (s ∷ slots) h k = (omega (arith, h, k.0), All-lt t u slots h k.1)

add_row-Ascending :
    (r : Row) (slots : List HistorySlot) → Ascending slots → Ascending (add_row r slots)
unfolding add_row new_slot count_in
add_row-Ascending r [] a = (tt, tt)
add_row-Ascending r (s ∷ slots) a = elim (Bool-cases (slot_of r == s.timestamp)) [
  | inl e ↦ rw e a
  | inr n ↦ elim (Bool-cases (ltb (slot_of r) s.timestamp)) [
    | inl l ↦
        let h : slot_of r < s.timestamp = ground (arith, l) in
        rw (n, l) ((h, All-lt (slot_of r) s.timestamp slots h a.0), a)
    | inr g ↦
        rw (n, g)
          (below s.timestamp r slots (ground (arith, n, g)) a.0, add_row-Ascending r slots a.1)
  ]
]

group_rows-Ascending : (rows : List Row) → Ascending (group_rows rows)
unfolding group_rows
group_rows-Ascending [] = tt
group_rows-Ascending (r ∷ rows) = add_row-Ascending r (group_rows rows) (group_rows-Ascending rows)

-- The slot of a row is the ten minutes that it falls into.
slot-is_in : (k : ℕ) (r : Row) → (slot_of r == (k * 600)) ≡ is_in (k * 600) r
unfolding slot_of
slot-is_in k r = ground arith

-- A slot starts at full ten minutes, and has a row.
abbrev pub IsSlot : HistorySlot → Type 0
IsSlot s = (s.timestamp % 600 ≡ 0) × (0 < s.total)

add_row-IsSlot :
    (r : Row) (slots : List HistorySlot) → All IsSlot slots → All IsSlot (add_row r slots)
unfolding add_row new_slot count_in slot_of
add_row-IsSlot r [] h = ((omega arith, omega arith), tt)
add_row-IsSlot r (s ∷ slots) h = elim (Bool-cases (slot_of r == s.timestamp)) [
  | inl e ↦ rw e ((h.0.0, omega arith), h.1)
  | inr n ↦ elim (Bool-cases (ltb (slot_of r) s.timestamp)) [
    | inl l ↦ rw (n, l) ((omega arith, omega arith), h)
    | inr g ↦ rw (n, g) (h.0, add_row-IsSlot r slots h.1)
  ]
]

group_rows-IsSlot : (rows : List Row) → All IsSlot (group_rows rows)
unfolding group_rows
group_rows-IsSlot [] = tt
group_rows-IsSlot (r ∷ rows) = add_row-IsSlot r (group_rows rows) (group_rows-IsSlot rows)

at-total :
    (k : ℕ) (rows : List Row)
    → at (λ s. s.total) (k * 600) (group_rows rows) ≡ count_if (is_in (k * 600)) rows
unfolding group_rows count_if new_slot count_in
at-total k [] = refl
at-total k (r ∷ rows) = ground (
  arith,
  at-add_row (λ s. s.total) (λ r. 1) (λ r. refl) (λ r s. refl) (k * 600) r (group_rows rows),
  slot-is_in k r,
  at-total k rows,
)

-- A counter of the rows with one status.
module _ (f : HistorySlot → ℕ) (status : ℕ)
    (first : (r : Row) → f (new_slot r) ≡ case_status status r)
    (next : (r : Row) (s : HistorySlot) → f (count_in r s) ≡ f s + case_status status r) where
  at-status :
      (k : ℕ) (rows : List Row)
      → at f (k * 600) (group_rows rows)
        ≡ count_if (λ r. is_in (k * 600) r && has_status status r) rows
  unfolding group_rows count_if case_status
  at-status k [] = refl
  at-status k (r ∷ rows) = ground (
    arith,
    at-add_row f (case_status status) first next (k * 600) r (group_rows rows),
    slot-is_in k r,
    at-status k rows,
  )

-- The slots `h` are the history of the rows: for each ten minutes, the counters of the slot that starts
-- there, or 0 if there is none, are the numbers of rows in them, with status 1, 2 and 3.
pub record IsHistory (rows : List Row) (h : List HistorySlot) : Type 0 where
  pub ascending : Ascending h
  pub slots : All IsSlot h
  pub total : (k : ℕ) → at (λ s. s.total) (k * 600) h ≡ count_if (is_in (k * 600)) rows
  pub blocked :
      (k : ℕ)
      → at (λ s. s.blocked) (k * 600) h ≡ count_if (λ r. is_in (k * 600) r && has_status 1 r) rows
  pub cached :
      (k : ℕ)
      → at (λ s. s.cached) (k * 600) h ≡ count_if (λ r. is_in (k * 600) r && has_status 2 r) rows
  pub forwarded :
      (k : ℕ)
      → at (λ s. s.forwarded) (k * 600) h ≡ count_if (λ r. is_in (k * 600) r && has_status 3 r) rows
  pub all_counted : sum (λ s. s.total) h ≡ length rows

-- The slots of the history ascend, each starts at full ten minutes and is not empty, and its counters
-- are the numbers of rows of the last day with a time in its ten minutes: all of them, and those that
-- were blocked, cached and forwarded. Ten minutes without a slot have no such row.
pub get_query_history-IsHistory :
    (now : ℕ) (db : QueryDb)
    → IsHistory (keep (λ r. leb (now - 86400) r.1.timestamp) db.queries) (get_query_history now db)
unfolding get_query_history since new_slot count_in
get_query_history-IsHistory now db =
    let rows = keep (λ r. leb (now - 86400) r.1.timestamp) db.queries in
    record {
      ascending = group_rows-Ascending rows;
      slots = group_rows-IsSlot rows;
      total = λ k. at-total k rows;
      blocked = λ k. at-status (λ s. s.blocked) 1 (λ r. refl) (λ r s. refl) k rows;
      cached = λ k. at-status (λ s. s.cached) 2 (λ r. refl) (λ r s. refl) k rows;
      forwarded = λ k. at-status (λ s. s.forwarded) 3 (λ r. refl) (λ r s. refl) k rows;
      all_counted = totals rows;
    }
