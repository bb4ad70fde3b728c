-- ===== src/Config/Ports.antt =====
-- `WebPort` and the ports of `WebServerConfig` of nimbus-core/src/config/mod.rs.
use mathlib.Core.Option
use nimbusdns.Common.{
  ℕ, ◌^◌, Bool, true, false, not, Option, none, some, List, [], ◌∷◌, find, if◌then◌else◌,
}
use nimbusdns.Common.Text.{Text, codes, trim, strip_suffix, parse_unsigned, one_of}
use nimbusdns.Config.{WebServerConfig, SocketAddr, v4}

pub data WebPort : Type 0 where
  http https : ℕ → WebPort

-- The outcome of `strip_suffix('o')`.
unfoldable pub parse_plain : Text → Option Text → Option WebPort
unfolding parse_unsigned
parse_plain s (some port_str) = Option.map WebPort.http (parse_unsigned (2 ^ 16) port_str)
parse_plain s none = Option.map WebPort.http (parse_unsigned (2 ^ 16) s)

-- The outcome of `strip_suffix("os")`.
unfoldable pub parse_trimmed : Text → Option Text → Option WebPort
unfolding parse_plain
parse_trimmed [] tls = none
parse_trimmed (ch ∷ s) (some port_str) = Option.map WebPort.https (parse_unsigned (2 ^ 16) port_str)
parse_trimmed (ch ∷ s) none = parse_plain (ch ∷ s) (strip_suffix (codes "o") (ch ∷ s))

unfoldable pub parse_port : Text → Option WebPort
unfolding trim strip_suffix parse_trimmed
parse_port s = parse_trimmed (trim s) (strip_suffix (codes "os") (trim s))

unfoldable pub port_number : WebPort → ℕ
port_number (http p) = p
port_number (https p) = p

unfoldable pub is_tls : WebPort → Bool
is_tls (http p) = false
is_tls (https p) = true

unfoldable pub cons_some : Option WebPort → List WebPort → List WebPort
cons_some none ports = ports
cons_some (some p) ports = p ∷ ports

unfoldable pub parse_ports : List Text → List WebPort
unfolding cons_some
parse_ports [] = []
parse_ports (s ∷ ss) = cons_some (parse_port s) (parse_ports ss)

unfoldable pub parsed_ports : WebServerConfig → List WebPort
unfolding parse_ports
parsed_ports w = parse_ports w.ports

unfoldable pub port_or_8080 : Option WebPort → ℕ
unfolding port_number
port_or_8080 none = 8080
port_or_8080 (some p) = port_number p

unfoldable pub http_port : WebServerConfig → ℕ
unfolding parsed_ports port_or_8080 is_tls
http_port w = port_or_8080 (find (λ p. not (is_tls p)) (parsed_ports w))

unfoldable pub bind_addr : Text → WebServerConfig → SocketAddr
unfolding one_of
bind_addr iface w = record {
  ip = v4 0;
  port = if one_of ("api" ∷ "http" ∷ []) iface then http_port w else http_port w;
}
