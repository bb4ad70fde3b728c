-- ===== src/Dns/Forwarder/Matching.antt =====
-- What `DnsForwarder::forward` of nimbus-core/src/dns/forwarder.rs lets through.
use nimbusdns.Common.{◌≡◌, ap, ◌∙◌, sym, inl, inr, true, none, List, [], ◌∷◌, arith, Option-cases}
use nimbusdns.Dns.Answers.{Message, Question}
use nimbusdns.Config.{DnsUpstream}
use nimbusdns.Dns.Forwarder.{
  DnsCrate, Forwarded, ok, err, UdpOutcome, StreamOutcome, forward, validated, exchange,
  validate_response_question, check_questions, same_question,
}

module _ (dns : DnsCrate) where
  -- The first questions are there, and have the same name, type and class.
  abbrev pub SameQuestion : List Question → List Question → Type 0
  SameQuestion (q ∷ qs) (r ∷ rs) =
      (dns.name_eq q.name r.name ≡ true)
      × ((q.query_type ≡ r.query_type) × (dns.query_class q ≡ dns.query_class r))
  SameQuestion _ _ = ⊥

  check_questions-SameQuestion :
      (qs rs : List Question) → check_questions dns qs rs ≡ none → SameQuestion qs rs
  unfolding check_questions same_question
  check_questions-SameQuestion [] rs h = cc
  check_questions-SameQuestion (q ∷ qs) [] h = cc
  check_questions-SameQuestion (q ∷ qs) (r ∷ rs) h = ground (arith, h)

  question_matches :
      (query r : Message)
      → validate_response_question dns query r ≡ none
      → (query.id ≡ r.id) × SameQuestion query.queries r.queries
  unfolding validate_response_question
  question_matches query r h =
      (ground (arith, h), check_questions-SameQuestion query.queries r.queries (ground (arith, h)))

  validated_matches :
      (query : Message) (f : Forwarded) (r : Message)
      → validated dns query f ≡ ok r
      → (f ≡ ok r) × (validate_response_question dns query r ≡ none)
  unfolding validated
  validated_matches query (err e) r h = cc
  validated_matches query (ok m) r h =
      elim (Option-cases (validate_response_question dns query m)) [
        | inl n ↦
            let e : m ≡ r = ground (arith, h, n) in
            (ap ok e, ap (validate_response_question dns query) (sym e) ∙ n)
        | inr s ↦ absurd (ground (arith, h, s.1))
      ]

  -- A response that `forward` returns has the identifier of the query and its first question, and it
  -- is what the exchange with the upstream gave.
  pub forward_matches :
      (query : Message) (upstream : DnsUpstream) (udp : UdpOutcome) (stream : StreamOutcome)
      (r : Message)
      → forward dns query upstream udp stream ≡ ok r
      → (query.id ≡ r.id)
        × (SameQuestion query.queries r.queries × (exchange dns upstream udp stream ≡ ok r))
  unfolding forward
  forward_matches query upstream udp stream r h = elim (Option-cases (dns.to_vec query)) [
    | inl n ↦ absurd (ground (arith, h, n))
    | inr b ↦
        let v =
          validated_matches query (exchange dns upstream udp stream) r (ground (arith, h, b.1)) in
        let q = question_matches query r v.1 in (q.0, (q.1, v.0))
  ]
