-- ===== src/Config/RoundTrip/Printed.antt =====
-- The printed form of a list of upstreams, as the documentation of `parse_upstreams` in
-- nimbus-core/src/config/mod.rs gives it: `tls://8.8.8.8#853#dns.google`, `8.8.8.8#53`.
use nimbusdns.Common.{
  ℕ, ◌^◌, ◌<◌, ◌≡◌, ◌≢◌, refl, ◌∙◌, ap, Bool, true, false, not, ◌&&◌, ◌||◌, none, some, List, [],
  ◌∷◌, ◌++◌, map, All, All-append, All-imp, arith, leb, ◌==◌,
}
use nimbusdns.Common.Text.{
  Text, codes, trim, strip_prefix, split_on, is_whitespace, is_digit, to_digits,
}
use nimbusdns.Common.Text.Affixes.{
  NoBlank, trim_id, strip_prefix_append, append_nonempty, split_on_append, split_on_none,
}
use nimbusdns.Common.Text.Numerals.{parse_unsigned-to_digits, to_digits-digits}
use nimbusdns.Config.{ok, IpAddr, DnsUpstream, plain, tls}
use nimbusdns.Config.Upstreams.{
  Parsers, parse_upstreams, parse_parts, parse_part, parse_tls, parse_plain, port_or, or_default,
  is_empty, or_invalid, first_part, second_part, third_part, at_least_one,
}

-- Neither `#` nor `;` nor blank.
abbrev pub is_clean : ℕ → Bool
is_clean ch = not (ch == 35) && not (ch == 59) && not (is_whitespace ch)

abbrev pub IsClean : Text → Type 0
IsClean t = All (λ ch. is_clean ch ≡ true) t

-- A hexadecimal digit, a dot or a colon.
abbrev pub is_ip_char : ℕ → Bool
is_ip_char ch = is_digit ch || (leb 97 ch && leb ch 102) || (ch == 46) || (ch == 58)

digits-IsClean : (n v : ℕ) → IsClean (to_digits n v)
unfolding is_digit is_whitespace
digits-IsClean n v = All-imp _ (λ ch h. ground (arith, h)) (to_digits n v) (to_digits-digits n v)

IsClean-NoHash : (t : Text) → IsClean t → All (λ ch. (ch == 35) ≡ false) t
IsClean-NoHash t h = All-imp _ (λ ch h. ground (arith, h)) t h

-- Neither `;` nor blank.
abbrev is_part : ℕ → Bool
is_part ch = not (ch == 59) && not (is_whitespace ch)

abbrev IsPart : Text → Type 0
IsPart t = All (λ ch. is_part ch ≡ true) t

IsClean-IsPart : (t : Text) → IsClean t → IsPart t
IsClean-IsPart t h = All-imp _ (λ ch h. ground (arith, h)) t h

IsPart-NoBlank : (t : Text) → IsPart t → NoBlank t
IsPart-NoBlank t h = All-imp _ (λ ch h. ground (arith, h)) t h

IsPart-NoSemicolon : (t : Text) → IsPart t → All (λ ch. (ch == 59) ≡ false) t
IsPart-NoSemicolon t h = All-imp _ (λ ch h. ground (arith, h)) t h

abbrev pub print_port : ℕ → Text
print_port p = to_digits 5 p

port_or-print_port : (d p : ℕ) → p < 2 ^ 16 → port_or d (some (print_port p)) ≡ p
unfolding port_or or_default
port_or-print_port d p h =
    ap (or_default d) (parse_unsigned-to_digits (2 ^ 16) 4 p h (omega (arith, h)))

-- `show` is how addresses are written.
module _ (std : Parsers) (show : IpAddr → Text) where
  -- The address is written in the characters of addresses, and read back.
  abbrev pub IsWritten : IpAddr → Type 0
  IsWritten a = All (λ ch. is_ip_char ch ≡ true) (show a) × (std.ip_addr (show a) ≡ some a)

  abbrev pub print_upstream : DnsUpstream → Text
  print_upstream (plain a p) = show a ++ 35 ∷ print_port p
  print_upstream (tls a p h) = codes "tls://" ++ (show a ++ 35 ∷ (print_port p ++ 35 ∷ h))

  abbrev pub print_upstreams : List DnsUpstream → Text
  print_upstreams [] = []
  print_upstreams (u ∷ []) = print_upstream u
  print_upstreams (u ∷ next ∷ us) = print_upstream u ++ 59 ∷ print_upstreams (next ∷ us)

  -- The address is read back from what is written, the port fits 16 bits, and the host name has no
  -- separator and no blank.
  abbrev pub IsPrintable : DnsUpstream → Type 0
  IsPrintable (plain a p) = IsWritten a × (p < 2 ^ 16)
  IsPrintable (tls a p h) = IsWritten a × ((p < 2 ^ 16) × IsClean h)

  show-IsClean : (a : IpAddr) → IsWritten a → IsClean (show a)
  unfolding is_digit is_whitespace
  show-IsClean a w = All-imp _ (λ ch h. ground (arith, h)) (show a) w.0

  parse_plain-print :
      (a : IpAddr) (p : ℕ)
      → IsWritten a
      → p < 2 ^ 16
      → parse_plain std (split_on 35 (print_upstream (plain a p))) ≡ ok (plain a p)
  unfolding parse_plain or_invalid first_part second_part
  parse_plain-print a p w h =
      ap (parse_plain std) (
        split_on_append 35 (show a) (print_port p) (IsClean-NoHash _ (show-IsClean a w))
        ∙ ap (λ x. show a ∷ x)
            (split_on_none 35 (print_port p) (IsClean-NoHash _ (digits-IsClean 5 p))))
      ∙ rw (w.1, port_or-print_port 53 p h) refl

  parse_tls-print :
      (a : IpAddr) (p : ℕ) (host : Text)
      → IsWritten a
      → p < 2 ^ 16
      → IsClean host
      → parse_tls std (split_on 35 (show a ++ 35 ∷ (print_port p ++ 35 ∷ host))) ≡ ok (tls a p host)
  unfolding parse_tls or_invalid first_part second_part third_part or_default
  parse_tls-print a p host w h c =
      ap (parse_tls std) (
        split_on_append 35 (show a) _ (IsClean-NoHash _ (show-IsClean a w))
        ∙ ap (λ x. show a ∷ x)
            (split_on_append 35 (print_port p) host (IsClean-NoHash _ (digits-IsClean 5 p))
              ∙ ap (λ x. print_port p ∷ x) (split_on_none 35 host (IsClean-NoHash _ c))))
      ∙ rw (w.1, port_or-print_port 853 p h) refl

  no_tls_prefix :
      (t u : Text)
      → All (λ ch. is_ip_char ch ≡ true) t
      → strip_prefix (codes "tls://") (t ++ 35 ∷ u) ≡ none
  unfolding strip_prefix is_digit
  no_tls_prefix [] u h = refl
  no_tls_prefix (ch ∷ t) u h = ground (arith, h.0)

  parse_part-print :
      (u : DnsUpstream)
      → IsPrintable u
      → parse_part std (print_upstream u) (strip_prefix (codes "tls://") (print_upstream u)) ≡ ok u
  unfolding parse_part
  parse_part-print (plain a p) h =
      rw (no_tls_prefix (show a) (print_port p) h.0.0) (parse_plain-print a p h.0 h.1)
  parse_part-print (tls a p host) h =
      rw (strip_prefix_append (codes "tls://") (show a ++ 35 ∷ (print_port p ++ 35 ∷ host)))
        (parse_tls-print a p host h.0 h.1.0 h.1.1)

  print_upstream-IsPart : (u : DnsUpstream) → IsPrintable u → IsPart (print_upstream u)
  unfolding is_whitespace
  print_upstream-IsPart (plain a p) h =
      All-append _ (show a) _ (IsClean-IsPart _ (show-IsClean a h.0))
        (refl, IsClean-IsPart _ (digits-IsClean 5 p))
  print_upstream-IsPart (tls a p host) h =
      All-append _ (codes "tls://") _ (refl, (refl, (refl, (refl, (refl, (refl, tt))))))
        (All-append _ (show a) _ (IsClean-IsPart _ (show-IsClean a h.0)) (
          refl,
          All-append _ (print_port p) _ (IsClean-IsPart _ (digits-IsClean 5 p))
              (refl, IsClean-IsPart _ h.1.1),
        ))

  print_upstream_nonempty : (u : DnsUpstream) → print_upstream u ≢ []
  print_upstream_nonempty (plain a p) e = append_nonempty (show a) _ _ e
  print_upstream_nonempty (tls a p host) e = cc

  parse_parts_none : parse_parts std [] ≡ ok []
  unfolding parse_parts
  parse_parts_none = refl

  at_least_one_cons : (us : List DnsUpstream) → us ≢ [] → at_least_one us ≡ ok us
  unfolding at_least_one
  at_least_one_cons us n = ground (arith, n)

  parse_parts-cons :
      (u : DnsUpstream) (us : List DnsUpstream) (parts : List Text)
      → IsPrintable u
      → parse_parts std parts ≡ ok us
      → parse_parts std (print_upstream u ∷ parts) ≡ ok (u ∷ us)
  unfolding parse_parts is_empty
  parse_parts-cons u us parts h k =
      let nonempty : is_empty (print_upstream u) ≡ false =
        ground (arith, print_upstream_nonempty u) in
      rw (nonempty, parse_part-print u h, k) refl

  trim-print : (u : DnsUpstream) → IsPrintable u → trim (print_upstream u) ≡ print_upstream u
  trim-print u h = trim_id (print_upstream u) (IsPart-NoBlank _ (print_upstream-IsPart u h))

  parse_parts-print :
      (us : List DnsUpstream)
      → us ≢ []
      → All IsPrintable us
      → parse_parts std (map trim (split_on 59 (print_upstreams us))) ≡ ok us
  parse_parts-print [] n h = absurd (n refl)
  parse_parts-print (u ∷ []) n h =
      ap (λ x. parse_parts std (map trim x))
        (split_on_none 59 (print_upstream u) (IsPart-NoSemicolon _ (print_upstream-IsPart u h.0)))
      ∙ ap (λ x. parse_parts std (x ∷ [])) (trim-print u h.0)
      ∙ parse_parts-cons u [] [] h.0 parse_parts_none
  parse_parts-print (u ∷ next ∷ us) n h =
      let rest = parse_parts-print (next ∷ us) (λ e. cc) h.1 in
      ap (λ x. parse_parts std (map trim x))
        (split_on_append 59 (print_upstream u) _
          (IsPart-NoSemicolon _ (print_upstream-IsPart u h.0)))
      ∙ ap (λ x. parse_parts std (x ∷ map trim (split_on 59 (print_upstreams (next ∷ us)))))
          (trim-print u h.0)
      ∙ parse_parts-cons u (next ∷ us) _ h.0 rest

  -- A list of upstreams that is not empty, whose addresses are each read back from how they are written,
  -- in hexadecimal digits, dots and colons, whose ports fit 16 bits and whose host names have no
  -- `#`, `;` or blank, is read back from its printed form.
  pub parse_upstreams-print :
      (us : List DnsUpstream)
      → us ≢ []
      → All IsPrintable us
      → parse_upstreams std (print_upstreams us) ≡ ok us
  unfolding parse_upstreams
  parse_upstreams-print us n h = rw (parse_parts-print us n h) (at_least_one_cons us n)
