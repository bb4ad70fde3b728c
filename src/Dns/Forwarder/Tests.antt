-- ===== src/Dns/Forwarder/Tests.antt =====
-- A query that an upstream answers.
use nimbusdns.Common.{◌≡◌, refl, true, false, none, some, [], ◌∷◌}
use nimbusdns.Config.{DnsUpstream, plain, v4}
use nimbusdns.Dns.Answers.{Message}
use nimbusdns.Dns.Forwarder.{DnsCrate, ok, datagram, broken, timeout, forward, exchange}
use nimbusdns.Dns.Forwarder.Matching.{SameQuestion, forward_matches}

abbrev message : Message
message = record {
  id = 7;
  response_code = 0;
  recursion_desired = true;
  recursion_available = true;
  authoritative = false;
  queries = record { name = 97 ∷ []; query_type = 1 } ∷ [];
  answers = [];
  authorities = [];
  additionals = [];
  edns = none;
}

-- All bytes are those of the message, and a name equals every name.
abbrev crate : DnsCrate
crate = record {
  from_vec = λ bytes. some message;
  to_vec = λ m. some [];
  has_tc = λ m. false;
  name_eq = λ a b. true;
  query_class = λ q. 1;
}

abbrev upstream : DnsUpstream
upstream = plain (v4 1) 53

answers : forward crate message upstream (datagram (1 ∷ [])) (broken timeout) ≡ ok message
unfolding forward
answers = refl

forward_matches_example :
    (7 ≡ message.id)
    × (SameQuestion crate message.queries message.queries
        × (exchange crate upstream (datagram (1 ∷ [])) (broken timeout) ≡ ok message))
forward_matches_example =
    forward_matches crate message upstream (datagram (1 ∷ [])) (broken timeout) message answers
