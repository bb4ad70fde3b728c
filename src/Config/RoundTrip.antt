-- ===== src/Config/RoundTrip.antt =====
-- The printed form of a port, as the documentation of nimbus-core/src/config/mod.rs gives it.
pub mod Printed
use mathlib.Core.List.{reverse}
use mathlib.Core.Option
use nimbusdns.Common.{
  ℕ, ◌^◌, ◌<◌, ◌≡◌, refl, ◌∙◌, ap, Bool, true, false, Option, none, some, List, [], ◌∷◌, ◌++◌, map,
  All, All-append, All-imp, ◌≢◌, arith, ◌==◌,
}
use nimbusdns.Common.Text.{
  Text, codes, trim, trim_start, strip_suffix, strip_prefix, split_on, cons_head, is_whitespace,
  is_digit, to_digits, parse_unsigned,
}
use nimbusdns.Common.Text.Affixes.{
  NoBlank, IsBlank, trim_blanks, strip_suffix_append, strip_suffix-none, append_nonempty,
  split_on_append, split_on_none,
}
use nimbusdns.Common.Text.Numerals.{parse_unsigned-to_digits, to_digits-digits}
use nimbusdns.Config.Ports.{
  WebPort, http, https, parse_port, parse_trimmed, parse_plain, port_number,
}

abbrev pub print_port : WebPort → Text
print_port (http p) = to_digits 5 p ++ codes "o"
print_port (https p) = to_digits 5 p ++ codes "os"

abbrev pub IsPort : WebPort → Type 0
IsPort p = port_number p < 2 ^ 16

digits-NoBlank : (n v : ℕ) → NoBlank (to_digits n v)
unfolding is_digit is_whitespace
digits-NoBlank n v = All-imp _ (λ ch h. ground (arith, h)) (to_digits n v) (to_digits-digits n v)

print_port-NoBlank : (p : WebPort) → NoBlank (print_port p)
unfolding is_whitespace
print_port-NoBlank (http p) = All-append _ (to_digits 5 p) _ (digits-NoBlank 5 p) (refl, tt)
print_port-NoBlank (https p) =
    All-append _ (to_digits 5 p) _ (digits-NoBlank 5 p) (refl, (refl, tt))

print_port_nonempty : (p : WebPort) → print_port p ≢ []
print_port_nonempty (http p) = append_nonempty (to_digits 5 p) _ _
print_port_nonempty (https p) = append_nonempty (to_digits 5 p) _ _

parse_trimmed_tls :
    (s t : Text) → s ≢ [] → parse_trimmed s (some t) ≡ Option.map https (parse_unsigned (2 ^ 16) t)
unfolding parse_trimmed
parse_trimmed_tls [] t n = absurd (n refl)
parse_trimmed_tls (ch ∷ s) t n = refl

parse_trimmed_plain :
    (s : Text) → s ≢ [] → parse_trimmed s none ≡ parse_plain s (strip_suffix (codes "o") s)
unfolding parse_trimmed
parse_trimmed_plain [] n = absurd (n refl)
parse_trimmed_plain (ch ∷ s) n = refl

parse_plain_number :
    (s t : Text) (p : ℕ)
    → parse_unsigned (2 ^ 16) t ≡ some p
    → parse_plain s (some t) ≡ some (http p)
unfolding parse_plain
parse_plain_number s t p h = ap (Option.map http) h

parse_trimmed-print_port :
    (p : WebPort)
    → IsPort p
    → parse_trimmed (print_port p) (strip_suffix (codes "os") (print_port p)) ≡ some p
unfolding port_number strip_prefix
parse_trimmed-print_port (https p) h =
    ap (parse_trimmed (print_port (https p))) (strip_suffix_append (codes "os") (to_digits 5 p))
    ∙ parse_trimmed_tls (print_port (https p)) _ (print_port_nonempty (https p))
    ∙ ap (Option.map https) (parse_unsigned-to_digits (2 ^ 16) 4 p h (omega (arith, h)))
parse_trimmed-print_port (http p) h =
    ap (parse_trimmed (print_port (http p)))
      (strip_suffix-none (codes "os") (codes "o") (to_digits 5 p) (λ r. refl))
    ∙ parse_trimmed_plain (print_port (http p)) (print_port_nonempty (http p))
    ∙ ap (parse_plain (print_port (http p))) (strip_suffix_append (codes "o") (to_digits 5 p))
    ∙ parse_plain_number (print_port (http p)) (to_digits 5 p) p
        (parse_unsigned-to_digits (2 ^ 16) 4 p h (omega (arith, h)))

-- The text of a port, with blanks around it, parses to that port.
pub parse_port-print_port :
    (p : WebPort) (a b : Text)
    → IsPort p
    → IsBlank a
    → IsBlank b
    → parse_port (a ++ (print_port p ++ b)) ≡ some p
unfolding parse_port
parse_port-print_port p a b h ha hb =
    let t = trim_blanks a (print_port p) b ha hb (print_port_nonempty p) (print_port-NoBlank p) in
    ap (λ s. parse_trimmed s (strip_suffix (codes "os") s)) t ∙ parse_trimmed-print_port p h
