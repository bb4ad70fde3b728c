-- ===== src/Dns/Forwarder.antt =====
-- `DnsForwarder` and `SocketPool` of nimbus-core/src/dns/forwarder.rs. What the network does is an
-- argument: the outcome of the exchange over UDP, and of the one over TCP or TLS.
pub mod Matching
mod Tests
use nimbusdns.Common.{
  ℕ, suc, Bool, true, false, not, ◌&&◌, Option, none, some, List, [], ◌∷◌, ◌++◌, ◌==◌,
  if◌then◌else◌,
}
use nimbusdns.Dns.Answers.{Message, Question}
use nimbusdns.Dns.Cache.{Bytes}
use nimbusdns.Config.{DnsUpstream, plain, tls}

pub data ForwardError : Type 0 where
  encode decode io timeout dot not_initialized response_mismatch : ForwardError

pub data Forwarded : Type 0 where
  ok : Message → Forwarded
  err : ForwardError → Forwarded

-- The idle sockets, the first to be handed out first; a socket is a number, and `bound` counts them.
pub record SocketPool : Type 0 where
  pub idle : List ℕ
  pub bound : ℕ

unfoldable pub acquire : SocketPool → SocketPool × ℕ
acquire p = elim p.idle [
  | [] ↦ (record p { bound = suc p.bound }, p.bound)
  | sock ∷ rest ↦ (record p { idle = rest }, sock)
]

unfoldable pub release : ℕ → SocketPool → SocketPool
release sock p = record p { idle = p.idle ++ sock ∷ [] }

-- The comparison of names and the class of a question are the DNS crate's.
pub record DnsCrate : Type 0 where
  pub from_vec : Bytes → Option Message
  pub to_vec : Message → Option Bytes
  pub has_tc : Message → Bool
  pub name_eq : Bytes → Bytes → Bool
  pub query_class : Question → ℕ

-- An exchange over UDP: the datagram, an error, or no answer in time.
pub data UdpOutcome : Type 0 where
  datagram : Bytes → UdpOutcome
  failed timed_out : UdpOutcome

-- An exchange over TCP or TLS, before its bytes are decoded.
pub data StreamOutcome : Type 0 where
  payload : Bytes → StreamOutcome
  broken : ForwardError → StreamOutcome

module _ (dns : DnsCrate) where
  unfoldable pub same_question : Question → Question → Bool
  same_question q r =
      dns.name_eq q.name r.name
      && (q.query_type == r.query_type)
      && (dns.query_class q == dns.query_class r)

  -- `ok_or` at the first questions.
  unfoldable pub check_questions : List Question → List Question → Option ForwardError
  unfolding same_question
  check_questions [] rs = some response_mismatch
  check_questions (q ∷ qs) [] = some response_mismatch
  check_questions (q ∷ qs) (r ∷ rs) = if same_question q r then none else some response_mismatch

  unfoldable pub validate_response_question : Message → Message → Option ForwardError
  unfolding check_questions
  validate_response_question query response =
      if query.id == response.id
      then check_questions query.queries response.queries
      else some response_mismatch

  unfoldable pub decoded : Option Message → Forwarded
  decoded none = err decode
  decoded (some m) = ok m

  unfoldable pub forward_tcp : StreamOutcome → Forwarded
  unfolding decoded
  forward_tcp (payload bytes) = decoded (dns.from_vec bytes)
  forward_tcp (broken e) = err e

  unfoldable pub or_tcp : StreamOutcome → Option Message → Forwarded
  unfolding forward_tcp
  or_tcp tcp none = forward_tcp tcp
  or_tcp tcp (some m) = if dns.has_tc m then forward_tcp tcp else ok m

  unfoldable pub forward_plain : UdpOutcome → StreamOutcome → Forwarded
  unfolding or_tcp
  forward_plain (datagram bytes) tcp = or_tcp tcp (dns.from_vec bytes)
  forward_plain failed tcp = forward_tcp tcp
  forward_plain timed_out tcp = forward_tcp tcp

  unfoldable pub forward_tls : StreamOutcome → Forwarded
  unfolding forward_tcp
  forward_tls stream = forward_tcp stream

  unfoldable pub validated : Message → Forwarded → Forwarded
  unfolding validate_response_question
  validated query (err e) = err e
  validated query (ok response) = elim (validate_response_question query response) [
    | none ↦ ok response
    | some e ↦ err e
  ]

  unfoldable pub exchange : DnsUpstream → UdpOutcome → StreamOutcome → Forwarded
  unfolding forward_plain forward_tls
  exchange (plain address port) udp stream = forward_plain udp stream
  exchange (tls address port hostname) udp stream = forward_tls stream

  unfoldable pub forward : Message → DnsUpstream → UdpOutcome → StreamOutcome → Forwarded
  unfolding exchange validated
  forward query upstream udp stream = elim (dns.to_vec query) [
    | none ↦ err encode
    | some bytes ↦ validated query (exchange upstream udp stream)
  ]
