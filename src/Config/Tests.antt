-- ===== src/Config/Tests.antt =====
-- Configurations, ports and upstreams at concrete inputs.
use nimbusdns.Common.{
  ℕ, ◌+◌, ◌*◌, ◌/◌, ◌%◌, ◌^◌, ◌≡◌, ◌↔◌, refl, false, Option, none, some, List, [], ◌∷◌, ◌++◌, arith,
  if◌then◌else◌,
}
use nimbusdns.Common.Text.{
  Text, codes, same, split_on, to_digits, is_whitespace, is_digit, parse_unsigned,
}
use nimbusdns.Config.{ok, map_ok, IpAddr, v4, v6, DnsUpstream, plain, tls}
use nimbusdns.Config.Defaults.{Host, default_config, default_webserver}
use nimbusdns.Config.Ports.{WebPort, parse_port, port_number, http_port}
use nimbusdns.Config.RoundTrip.{print_port, parse_port-print_port}
use nimbusdns.Config.RoundTrip.Printed.{print_upstreams, parse_upstreams-print}
use nimbusdns.Config.Upstreams.{Parsers, parse_upstreams}
use nimbusdns.Config.Env.{validate, set_dns, set_from_env}
use nimbusdns.Config.Validity.{IsValid, validate_iff}

default_http_port : http_port default_webserver ≡ 80
unfolding http_port default_webserver parse_port
default_http_port = refl

plus_sign : parse_port (codes " +80o ") ≡ some (WebPort.http 80)
unfolding parse_port
plus_sign = refl

too_large : parse_port (codes "65536") ≡ none
unfolding parse_port
too_large = refl

parse_port-print_port_example :
    parse_port (codes " " ++ (print_port (WebPort.https 443) ++ codes "  "))
    ≡ some (WebPort.https 443)
unfolding is_whitespace port_number
parse_port-print_port_example =
    parse_port-print_port (WebPort.https 443) (codes " ") (codes "  ") (omega arith) (refl, tt)
      (refl, (refl, tt))

-- A number below 256, without a sign or a zero before it.
abbrev octet : Text → Option ℕ
octet t = elim (parse_unsigned 256 t) [
  | none ↦ none
  | some v ↦ if same (to_digits 3 v) t then some v else none
]

abbrev quad : List Text → Option IpAddr
quad (a ∷ b ∷ c ∷ d ∷ []) = elim (octet a) [
  | none ↦ none
  | some w ↦ elim (octet b) [
    | none ↦ none
    | some x ↦ elim (octet c) [
      | none ↦ none
      | some y ↦ elim (octet d) [
        | none ↦ none
        | some z ↦ some (v4 (((w * 256 + x) * 256 + y) * 256 + z))
      ]
    ]
  ]
]
quad _ = none

-- IPv4 addresses as four numbers, and the loopback address of IPv6.
abbrev ip_addr : Text → Option IpAddr
ip_addr t = if same t (codes "::1") then some (v6 1) else quad (split_on 46 t)

abbrev show : IpAddr → Text
show (v4 n) =
    to_digits 3 (n / 2 ^ 24 % 256)
    ++ 46
      ∷ (to_digits 3 (n / 2 ^ 16 % 256)
          ++ 46 ∷ (to_digits 3 (n / 2 ^ 8 % 256) ++ 46 ∷ to_digits 3 (n % 256)))
show (v6 n) = codes "::1"

abbrev std : Parsers
std = record {
  ip_addr = ip_addr;
  ipv4_addr = λ t. none;
  socket_addr = λ t. none;
  to_uppercase = λ t. t;
}

-- 8.8.8.8
abbrev google : ℕ
google = 134744072

google_written : show (v4 google) ≡ codes "8.8.8.8"
unfolding to_digits
google_written = refl

google_read : ip_addr (show (v4 google)) ≡ some (v4 google)
unfolding to_digits parse_unsigned split_on same
google_read = refl

loopback_read : ip_addr (show (v6 1)) ≡ some (v6 1)
unfolding to_digits parse_unsigned split_on same
loopback_read = refl

abbrev upstreams : List DnsUpstream
upstreams = tls (v4 google) 853 (codes "dns.google") ∷ plain (v6 1) 53 ∷ []

parse_upstreams-print_example :
    parse_upstreams std (print_upstreams std show upstreams) ≡ ok upstreams
unfolding is_whitespace is_digit to_digits
parse_upstreams-print_example =
    parse_upstreams-print std show upstreams (λ e. cc)
      (
        (
          ((refl, (refl, (refl, (refl, (refl, (refl, (refl, tt))))))), google_read),
          (
            omega arith,
            (refl, (refl, (refl, (refl, (refl, (refl, (refl, (refl, (refl, (refl, tt)))))))))),
          ),
        ),
        ((((refl, (refl, (refl, tt))), loopback_read), omega arith), tt),
      )

-- No variable has a value, and no directory exists.
abbrev host : Host
host = record { var = λ name. none; parent_exists = λ path. false; temp_file = λ name. name }

validate_iff_example : (validate (default_config host) ≡ ok tt) ↔ IsValid (default_config host)
validate_iff_example = validate_iff (default_config host)

-- The port variable also sets the port of the bind address.
port_variable :
    map_ok
      (λ c. c.dns.bind.port)
      (set_from_env std (codes "dns_port") (codes "5353") (default_config host))
    ≡ ok 5353
unfolding set_from_env set_dns parse_unsigned
port_variable = refl
