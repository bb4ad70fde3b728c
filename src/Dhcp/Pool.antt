-- ===== src/Dhcp/Pool.antt =====
-- `IpPool` of nimbus-core/src/dhcp/mod.rs. An `Ipv4Addr` is its `u32`, a number.
pub mod Scan
use nimbusdns.Common.{
  ℕ, zero, suc, ◌+◌, ◌-◌, Bool, not, ◌&&◌, Option, none, some, List, [], leb, if◌then◌else◌,
}
use nimbusdns.Common.Sets.{contains, add, discard}

pub record IpPool : Type 0 where
  pub start : ℕ
  pub end : ℕ
  pub allocated : List ℕ

unfoldable pub new : ℕ → ℕ → IpPool
new start end = record { start = start; end = end; allocated = [] }

unfoldable pub in_range : IpPool → ℕ → Bool
in_range p ip = leb p.start ip && leb ip p.end

-- The loop over `start..=end` with `n` addresses left.
unfoldable pub scan : ℕ → ℕ → List ℕ → List ℕ → Option ℕ
scan zero ip allocated declined = none
scan (suc n) ip allocated declined =
    let rest = scan n (ip + 1) allocated declined in
    if not (contains ip allocated) && not (contains ip declined) then some ip else rest

unfoldable pub take_address : IpPool → Option ℕ → Option ℕ × IpPool
take_address p none = (none, p)
take_address p (some ip) = (some ip, record p { allocated = add ip p.allocated })

unfoldable pub next_available : IpPool → List ℕ → Option ℕ × IpPool
unfolding take_address
next_available p declined = take_address p (scan (p.end + 1 - p.start) p.start p.allocated declined)

unfoldable pub mark_allocated : IpPool → ℕ → IpPool
mark_allocated p ip =
    if leb p.start ip && leb ip p.end then record p { allocated = add ip p.allocated } else p

unfoldable pub release : IpPool → ℕ → IpPool
release p ip = record p { allocated = discard ip p.allocated }
