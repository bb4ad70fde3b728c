-- ===== src/Config/Upstreams.antt =====
-- The parsing helpers of nimbus-core/src/config/mod.rs. The parsers of addresses and
-- `str::to_uppercase`, which are the standard library's, are a record that the functions take.
use nimbusdns.Common.{
  ℕ, ◌^◌, Bool, true, false, Option, none, some, List, [], ◌∷◌, ◌++◌, if◌then◌else◌,
}
use nimbusdns.Common.Text.{
  Text, codes, one_of, split_on, strip_prefix, trim, to_ascii_lowercase, parse_unsigned,
}
use nimbusdns.Config.{
  validation, Result, ok, err, ◌>>=◌, IpAddr, SocketAddr, DnsUpstream, BlockingMode,
}
use Prim.Native.String.{String}

pub record Parsers : Type 0 where
  pub ip_addr : Text → Option IpAddr
  pub ipv4_addr : Text → Option ℕ
  pub socket_addr : Text → Option SocketAddr
  pub to_uppercase : Text → Text

-- `map_err` with a message that ends in the value.
unfoldable pub or_invalid {ℓ} : {A : Type ℓ} → String → Text → Option A → Result A
or_invalid message value none = err (validation (codes message ++ value))
or_invalid message value (some a) = ok a

-- `parts[0]`, which `split` always gives; `parts.get(1)`; `parts.get(2)`.
unfoldable pub first_part : List Text → Text
first_part [] = []
first_part (a ∷ parts) = a

unfoldable pub second_part : List Text → Option Text
second_part (a ∷ b ∷ parts) = some b
second_part _ = none

unfoldable pub third_part : List Text → Option Text
third_part (a ∷ b ∷ c ∷ parts) = some c
third_part _ = none

unfoldable pub or_default {ℓ} : {A : Type ℓ} → A → Option A → A
or_default d none = d
or_default d (some a) = a

-- `parts.get(1).and_then(|p| p.parse().ok()).unwrap_or(port)`
unfoldable pub port_or : ℕ → Option Text → ℕ
unfolding parse_unsigned or_default
port_or port none = port
port_or port (some p) = or_default port (parse_unsigned (2 ^ 16) p)

unfoldable pub is_empty : Text → Bool
is_empty [] = true
is_empty (ch ∷ t) = false

unfoldable pub at_least_one : List DnsUpstream → Result (List DnsUpstream)
at_least_one [] = err (validation (codes "No valid upstreams found in environment variable"))
at_least_one (u ∷ us) = ok (u ∷ us)

unfoldable pub parse_bool_env : Text → Result Bool
unfolding to_ascii_lowercase one_of
parse_bool_env value =
    let v = to_ascii_lowercase value in
    if one_of ("true" ∷ "1" ∷ "yes" ∷ "on" ∷ []) v
    then ok true
    else if one_of ("false" ∷ "0" ∷ "no" ∷ "off" ∷ []) v
    then ok false
    else err (validation (codes "Invalid boolean value: " ++ value))

module _ (std : Parsers) where
  unfoldable pub parse_tls : List Text → Result DnsUpstream
  unfolding or_invalid first_part second_part third_part or_default port_or
  parse_tls parts =
      or_invalid "Invalid IP in upstream: " (first_part parts) (std.ip_addr (first_part parts))
      >>= λ address. ok (
          DnsUpstream.tls address (port_or 853 (second_part parts))
            (or_default (first_part parts) (third_part parts)))

  unfoldable pub parse_plain : List Text → Result DnsUpstream
  unfolding or_invalid first_part second_part port_or
  parse_plain parts =
      or_invalid "Invalid IP in upstream: " (first_part parts) (std.ip_addr (first_part parts))
      >>= λ address. ok (DnsUpstream.plain address (port_or 53 (second_part parts)))

  -- The outcome of `strip_prefix("tls://")`.
  unfoldable pub parse_part : Text → Option Text → Result DnsUpstream
  unfolding split_on
  parse_part part (some tls_part) = parse_tls (split_on 35 tls_part)
  parse_part part none = parse_plain (split_on 35 part)

  -- The loop over the parts between semicolons, after they are trimmed.
  unfoldable pub parse_parts : List Text → Result (List DnsUpstream)
  unfolding is_empty parse_part strip_prefix
  parse_parts [] = ok []
  parse_parts (part ∷ parts) =
      let rest = parse_parts parts in
      if is_empty part
      then rest
      else parse_part part (strip_prefix (codes "tls://") part) >>= λ u. rest >>= λ us. ok (u ∷ us)

  unfoldable pub parse_upstreams : Text → Result (List DnsUpstream)
  unfolding parse_parts at_least_one split_on trim
  parse_upstreams input =
      parse_parts (mathlib.Core.List.map trim (split_on 59 input)) >>= at_least_one

  unfoldable pub parse_blocking_mode : Text → Result BlockingMode
  unfolding one_of
  parse_blocking_mode s =
      let v = std.to_uppercase s in
      if one_of ("NULL" ∷ []) v
      then ok BlockingMode.null
      else if one_of ("NXDOMAIN" ∷ []) v
      then ok BlockingMode.nxdomain
      else if one_of ("IP" ∷ []) v
      then ok BlockingMode.ip
      else if one_of ("REFUSED" ∷ []) v
      then ok BlockingMode.refused
      else if one_of ("NODATA" ∷ []) v
      then ok BlockingMode.nodata
      else if one_of ("DISABLED" ∷ []) v
      then ok BlockingMode.disabled
      else err (
          validation (
            codes "Unknown blocking mode: "
            ++ s
            ++ codes ". Valid: NULL, NXDOMAIN, IP, REFUSED, NODATA, DISABLED"))
