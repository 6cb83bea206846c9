-- ===== src/Server/Serve/Listed.antt =====
-- The reply to a question for the services of a name, against the registered services.
use skydns.Shared.{
  ℕ, ℤ, true, false, ◌<◌, Text, List, [], ◌∷◌, Option, none, some, map, length, In, In-append_left,
  ◌≡◌, refl, ◌∙◌, ap, text_eq, Bool-cases, inl, inr,
}
use skydns.Msg.{Service, remaining_ttl}
use skydns.Registry.Tree.{Error}
use skydns.Registry.{path_of}
use skydns.Registry.Query.Enumerate.{matches}
use skydns.Registry.Consistency.{IsConsistent}
use skydns.Registry.View.{view}
use skydns.Server.{DnsKey, Server}
use skydns.Server.Dns.{
  Ip, Rr, Qtype, type_a, type_aaaa, type_srv, type_any, type_soa, type_dnskey, other_type, Question,
  get_srv_records, share,
}
use skydns.Server.Dns.Discovery.{srv_record, get_srv_records-Discovered}
use skydns.Server.Dns.Existence.{Reads}
use skydns.Server.Serve.{
  success, Message, new_reply, asks_address, asks_service, of_domain, domain_answer, with_services,
  after_services, local_reply,
}
use skydns.Server.Serve.Replies.{answer-or_nodata, or_nodata-rcode, with_services-rcode}
use skydns.Server.Serve.Names.{key_of, pattern_for, get_srv_records-Fails}

In-map : {A B : Type 0} (f : A → B) (l : List A) (a : A) → In a l → In (f a) (map f l)
In-map f [] a i = absurd i
In-map f (x ∷ l) a (inl same) = inl (ap f same)
In-map f (x ∷ l) a (inr i) = inr (In-map f l a i)

not_address : (t : Qtype) → asks_service t ≡ true → asks_address t ≡ false
not_address type_a e = cc
not_address type_aaaa e = cc
not_address type_srv e = refl
not_address type_any e = refl
not_address type_soa e = cc
not_address type_dnskey e = cc
not_address other_type e = cc

module _ (fqdn : Text → Text) (now : ℕ) where
  not_of_domain :
      (s : Server) (t : Qtype) (key : Option DnsKey)
      → asks_service t ≡ true
      → of_domain fqdn now s t key ≡ none
  not_of_domain s type_a key e = refl
  not_of_domain s type_aaaa key e = refl
  not_of_domain s type_srv key e = refl
  not_of_domain s type_any key e = refl
  not_of_domain s type_soa key e = cc
  not_of_domain s type_dnskey key e = cc
  not_of_domain s other_type key e = refl

  apart_from_domain :
      (s : Server) (q : Question) → asks_service q.qtype ≡ true → domain_answer fqdn now s q ≡ none
  apart_from_domain s q service = elim (Bool-cases (text_eq q.name (fqdn s.domain))) [
    | inl own ↦ rw own (not_of_domain s q.qtype s.dns_key service)
    | inr other ↦ rw other refl
  ]

module _ (parse_ip : Text → Ip) (split_domain_name : Text → List Text) (seconds : ℤ → ℕ) (now : ℕ)
    (s : Server) (q : Question) (consistent : IsConsistent s.registry)
    (six : length (pattern_for split_domain_name s q) ≡ 6)
    (reads : Reads split_domain_name (key_of s q)) (service : asks_service q.qtype ≡ true) where
  no_error :
      (t : Service)
      → view s.registry t.uuid ≡ some t
      → matches (pattern_for split_domain_name s q) (path_of t) ≡ true
      → (get_srv_records parse_ip split_domain_name seconds now s q).0.1 ≡ none
  no_error t held matched =
      elim (get_srv_records-Fails parse_ip split_domain_name seconds now s q consistent six reads) [
        | inl (ok, exists) ↦ ok
        | inr (e, unknown) ↦ absurd (unknown t.uuid t held matched)
      ]

  discovered :
      (t : Service)
      → view s.registry t.uuid ≡ some t
      → matches (pattern_for split_domain_name s q) (path_of t) ≡ true
      → 1 < remaining_ttl seconds now t
      → (weight : ℕ) × In
          (srv_record parse_ip q s.domain 10 weight
            (record t { ttl = remaining_ttl seconds now t }))
          (get_srv_records parse_ip split_domain_name seconds now s q).0.0.0
  discovered t held matched alive =
      elim (get_srv_records-Discovered parse_ip q split_domain_name seconds now s consistent six) [
        | inl (no_records, e, unknown) ↦ absurd (unknown t.uuid t held matched)
        | inr (services, more, result, lists, records, others) ↦
            let weight = share (length services) in
            let answer = record t { ttl = remaining_ttl seconds now t } in
            let listed = (lists answer).1 (record {
              service = t;
              registered = held;
              matched = matched;
              refreshed = refl;
              alive = alive;
            }) in
            let record_of = srv_record parse_ip q s.domain 10 weight in
            (
              weight,
              rw records (
                  In-append_left (record_of answer) (map record_of services) more
                    (In-map record_of services answer listed)),
            )
      ]

  module _ (fqdn : Text → Text) (split_host_port : Text → Option Text) (id : ℕ → ℕ)
      (qname : Text) where
    -- A reply that is a success and has the record in its answer.
    abbrev pub Lists : Rr → Option (Message × Server) → Type 0
    Lists rr o =
        (m : Message) × (t : Server) × (o ≡ some (m, t)) × (m.rcode ≡ success) × In rr m.answer

    after_services-Lists :
        (x : ((List Rr × List Rr) × Option Error) × Server) (rr : Rr)
        → x.0.1 ≡ none
        → In rr x.0.0.0
        → Lists rr (after_services fqdn now q (new_reply qname) x)
    after_services-Lists (((records, extra), none), t) rr e i = (
      _,
      _,
      refl,
      or_nodata-rcode fqdn now t (with_services fqdn now q (new_reply qname) records extra)
          ∙ with_services-rcode fqdn now q (new_reply qname) records extra,
      rw (answer-or_nodata fqdn now t (with_services fqdn now q (new_reply qname) records extra))
          (rw service i),
    )
    after_services-Lists (((records, extra), some d), t) rr e i = cc

    -- A registered service that matches is answered if its remaining TTL is above 1.
    pub local_reply-Lists :
        (t : Service)
        → view s.registry t.uuid ≡ some t
        → matches (pattern_for split_domain_name s q) (path_of t) ≡ true
        → 1 < remaining_ttl seconds now t
        → (weight : ℕ) × Lists
            (srv_record parse_ip q s.domain 10 weight
              (record t { ttl = remaining_ttl seconds now t }))
            (local_reply fqdn now parse_ip split_host_port split_domain_name seconds id s qname q)
    unfolding local_reply
    local_reply-Lists t held matched alive =
        let x = get_srv_records parse_ip split_domain_name seconds now s q in
        let (weight, listed) = discovered t held matched alive in
        (
          weight,
          rw (local_reply, apart_from_domain fqdn now s q service, not_address q.qtype service)
              (after_services-Lists x _ (no_error t held matched) listed),
        )
