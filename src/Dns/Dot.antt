-- ===== src/Dns/Dot.antt =====
-- The connection of nimbus-core/src/dns/dot.rs to one upstream over TLS: the queries that wait for an
-- answer, under identifiers of the connection. A caller is a number; whether it has gone away is an
-- argument of the sweep.
pub mod Delivery
mod Tests
pub mod Identifiers
pub mod RoundTrip
use nimbusdns.Common.{
  ℕ, zero, suc, ◌+◌, ◌*◌, ◌/◌, ◌%◌, ◌^◌, Bool, true, false, not, Option, none, some, is_some, List,
  [], ◌∷◌, map, keep, length, leb, ltb, ◌==◌, ◌||◌, ℕ_discrete, if◌then◌else◌,
}
use nimbusdns.Common.Map.{get, remove, insert}
use nimbusdns.Dns.Cache.{Bytes}

pub record PendingEntry : Type 0 where
  pub reply_tx : ℕ
  pub original_dns_id : ℕ

abbrev pub Pending : Type 0
Pending = List (ℕ × PendingEntry)

-- The loop of `unique_conn_id` on fuel, and `fetch_add` of an `AtomicU16`.
unfoldable pub unique_conn_id : ℕ → Pending → ℕ → Option (ℕ × ℕ)
unique_conn_id zero pending counter = none
unique_conn_id (suc fuel) pending counter =
    let next = (counter + 1) % 2 ^ 16 in
    let rest = unique_conn_id fuel pending next in
    if is_some (get ℕ_discrete counter pending) then rest else some (counter, next)

-- What a caller is told: its response, or that the connection is closed.
pub data Reply : Type 0 where
  answered : ℕ → Bytes → Reply
  connection_closed : ℕ → Reply

pub record Connection : Type 0 where
  pub pending : Pending
  pub counter : ℕ

-- The identifier of a message is its first two bytes.
unfoldable pub with_id : ℕ → Bytes → Bytes
with_id id (a ∷ b ∷ rest) = id / 256 ∷ id % 256 ∷ rest
with_id id bytes = bytes

-- A message that the writer takes from the channel, after its two bytes of length: what goes out,
-- or the reply to a message that has no identifier.
pub record Sent : Type 0 where
  pub connection : Connection
  pub wire : Option Bytes
  pub reply : Option Reply

unfoldable pub register : ℕ → Bytes → ℕ → Connection → Option (ℕ × ℕ) → Option Sent
unfolding with_id
register caller bytes id c none = none
register caller bytes id c (some (conn_id, next)) = some record {
  connection = record {
    pending =
        insert ℕ_discrete conn_id (record { reply_tx = caller; original_dns_id = id }) c.pending;
    counter = next;
  };
  wire = some (with_id conn_id bytes);
  reply = none;
}

unfoldable pub send : ℕ → ℕ → Bytes → Connection → Option Sent
unfolding register unique_conn_id
send fuel caller (a ∷ b ∷ rest) c =
    register caller (a ∷ b ∷ rest) (a * 256 + b) c (unique_conn_id fuel c.pending c.counter)
send fuel caller _ c =
    some record { connection = c; wire = none; reply = some (connection_closed caller) }

-- A write that failed: its entry is removed, and its caller told.
unfoldable pub write_failed : ℕ → Connection → Connection × Option Reply
write_failed conn_id c = elim (get ℕ_discrete conn_id c.pending) [
  | none ↦ (c, none)
  | some entry ↦ (
    record c { pending = remove ℕ_discrete conn_id c.pending },
    some (connection_closed entry.reply_tx),
  )
]

unfoldable pub deliver : Bytes → ℕ → Connection → Option PendingEntry → Connection × Option Reply
unfolding with_id
deliver response resp_id c none = (c, none)
deliver response resp_id c (some entry) = (
  record c { pending = remove ℕ_discrete resp_id c.pending },
  some (
      answered entry.reply_tx (
        if entry.original_dns_id == resp_id
        then response
        else with_id entry.original_dns_id response)),
)

-- The reader's step on one response.
unfoldable pub receive : Bytes → Connection → Connection × Option Reply
unfolding deliver
receive (a ∷ b ∷ rest) c =
    deliver (a ∷ b ∷ rest) (a * 256 + b) c (get ℕ_discrete (a * 256 + b) c.pending)
receive _ c = (c, none)

unfoldable pub sweep_stale_pending : (ℕ → Bool) → Pending → Pending
sweep_stale_pending is_closed pending = keep (λ e. not (is_closed e.1.reply_tx)) pending

-- Every waiting caller is told that the connection is closed.
unfoldable pub drain : Connection → Connection × List Reply
drain c = (record c { pending = [] }, map (λ e. connection_closed e.1.reply_tx) c.pending)

-- The length of a response over TLS, and over TCP in the listener.
unfoldable pub valid_length : ℕ → Bool
valid_length n = not ((n == 0) || ltb 4096 n)
