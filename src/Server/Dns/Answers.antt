-- ===== src/Server/Dns/Answers.antt =====
-- The types of the address records.
use skydns.Shared.{
  ℕ, ◌-◌, ℤ, ◌++◌, Text, txt, dot, text_eq, ltb, ◌||◌, List, [], ◌∷◌, Option, none, some, length,
  take, trim_suffix, All, ◌≡◌, refl, Bool-cases, inl, inr,
}
use skydns.Msg.{Service}
use skydns.Registry.Tree.{Error, exists, not_exists, Result, ok, err}
use skydns.Registry.{Registry, get, get_uuid}
use skydns.Server.{Server, leader, members, with_registry}
use skydns.Server.Dns.{
  Ip, not_ip, v4, v6, Rr, a, aaaa, srv, Qtype, type_a, type_aaaa, type_srv, type_any, type_soa,
  type_dnskey, other_type, Question, LookupError,
}
use skydns.Server.Dns.Addresses.{
  member_record, address_record, after_host, member_records, service_records, by_uuid,
  by_uuid_after_none, found_services, get_a_records,
}

-- A record of the name and of the type that the question asks for.
abbrev pub Answers : Question → Rr → Type 0
Answers q (a name ttl ip) = (name ≡ q.name) × (q.qtype ≡ type_a)
Answers q (aaaa name ttl ip) = (name ≡ q.name) × (q.qtype ≡ type_aaaa)
Answers q (srv name ttl priority weight port target) = ⊥
Answers q _ = ⊥

All-append :
    (q : Question) (l m : List Rr)
    → All (Answers q) l
    → All (Answers q) m
    → All (Answers q) (l ++ m)
All-append q [] m p r = r
All-append q (x ∷ l) m (h, p) r = (h, All-append q l m p r)

module _ (q : Question) where
  member_record-Answers :
      (t : Qtype) → q.qtype ≡ t → (ip : Ip) → All (Answers q) (member_record q t ip)
  member_record-Answers type_a e ip = ((refl, e), tt)
  member_record-Answers type_aaaa e ip = tt
  member_record-Answers type_srv e ip = tt
  member_record-Answers type_any e ip = tt
  member_record-Answers type_soa e ip = tt
  member_record-Answers type_dnskey e ip = tt
  member_record-Answers other_type e ip = tt

  address_record-Answers :
      (t : Qtype) → q.qtype ≡ t → (ttl : ℕ) (ip : Ip) → All (Answers q) (address_record q t ttl ip)
  address_record-Answers type_a e ttl (v4 ip) = ((refl, e), tt)
  address_record-Answers type_a e ttl (v6 ip) = tt
  address_record-Answers type_a e ttl not_ip = tt
  address_record-Answers type_aaaa e ttl (v6 ip) = ((refl, e), tt)
  address_record-Answers type_aaaa e ttl (v4 ip) = tt
  address_record-Answers type_aaaa e ttl not_ip = tt
  address_record-Answers type_srv e ttl ip = tt
  address_record-Answers type_any e ttl ip = tt
  address_record-Answers type_soa e ttl ip = tt
  address_record-Answers type_dnskey e ttl ip = tt
  address_record-Answers other_type e ttl ip = tt

  module _ (parse_ip : Text → Ip) (split_host_port : Text → Option Text) where
    after_host-Answers :
        (o : Option Text) (rest : List Rr × Option LookupError)
        → All (Answers q) rest.0
        → All (Answers q) (after_host parse_ip split_host_port q o rest).0
    after_host-Answers none rest p = tt
    after_host-Answers (some h) (l, e) p =
        All-append q (member_record q q.qtype (parse_ip h)) l
          (member_record-Answers q.qtype refl (parse_ip h)) p

    member_records-Answers :
        (ms : List Text) (rest : List Rr × Option LookupError)
        → All (Answers q) rest.0
        → All (Answers q) (member_records parse_ip split_host_port q ms rest).0
    member_records-Answers [] rest p = p
    member_records-Answers (m ∷ ms) rest p =
        after_host-Answers (split_host_port m) (member_records parse_ip split_host_port q ms rest)
          (member_records-Answers ms rest p)

    service_records-Answers :
        (l : List Service) → All (Answers q) (service_records parse_ip split_host_port q l)
    service_records-Answers [] = tt
    service_records-Answers (serv ∷ l) =
        All-append q (address_record q q.qtype serv.ttl (parse_ip serv.host))
          (service_records parse_ip split_host_port q l)
          (address_record-Answers q.qtype refl serv.ttl (parse_ip serv.host))
          (service_records-Answers l)

    by_uuid-Answers :
        (s : Server) (e : Error) (o : Result Service × Registry)
        → All (Answers q) (by_uuid parse_ip split_host_port q s e o).0.0
    by_uuid-Answers s e (ok serv, r) = service_records-Answers (serv ∷ [])
    by_uuid-Answers s e (err exists, r) = tt
    by_uuid-Answers s e (err not_exists, r) = tt
    by_uuid-Answers s e (err Error.panic, r) = tt

    by_uuid_after_none-Answers :
        (s : Server) (o : Result Service × Registry)
        → All (Answers q) (by_uuid_after_none parse_ip split_host_port q s o).0.0
    by_uuid_after_none-Answers s (ok serv, r) = service_records-Answers (serv ∷ [])
    by_uuid_after_none-Answers s (err exists, r) = tt
    by_uuid_after_none-Answers s (err not_exists, r) = tt
    by_uuid_after_none-Answers s (err Error.panic, r) = tt

    module _ (split_domain_name : Text → List Text) (seconds : ℤ → ℕ) (now : ℕ) where
      found_services-Answers :
          (s : Server) (key : Text) (o : Result (List Service))
          → All
              (Answers q)
              (found_services parse_ip split_host_port split_domain_name seconds now q s key o).0.0
      found_services-Answers s key (ok (serv ∷ l)) = service_records-Answers (serv ∷ l)
      found_services-Answers s key (ok []) = elim (Bool-cases (ltb 1 (length key))) [
        | inl long ↦ rw long (
            by_uuid_after_none-Answers s
              (get_uuid seconds now s.registry (take (length key - 1) key)))
        | inr short ↦ rw short tt
      ]
      found_services-Answers s key (err Error.panic) = tt
      found_services-Answers s key (err exists) = elim (Bool-cases (ltb 1 (length key))) [
        | inl long ↦
            rw long (
              by_uuid-Answers s exists
                (get_uuid seconds now s.registry (take (length key - 1) key)))
        | inr short ↦ rw short tt
      ]
      found_services-Answers s key (err not_exists) = elim (Bool-cases (ltb 1 (length key))) [
        | inl long ↦ rw long (
            by_uuid-Answers s not_exists
              (get_uuid seconds now s.registry (take (length key - 1) key)))
        | inr short ↦ rw short tt
      ]

      -- Every record of `getARecords`, be it of the members, of the leader or of services, has the
      -- name that was asked for and the type that was asked for: A for a question of type A, AAAA
      -- for one of type AAAA, and no record for any other.
      pub get_a_records-Answers :
          (s : Server)
          → All
              (Answers q)
              (get_a_records parse_ip split_host_port split_domain_name seconds now s q).0.0
      unfolding get_a_records
      get_a_records-Answers s =
          let name = trim_suffix q.name (dot ∷ []) in
          let of_leader = member_records parse_ip split_host_port q (leader s ∷ []) ([], none) in
          let of_leader-Answers = member_records-Answers (leader s ∷ []) ([], none) tt in
          elim (Bool-cases (text_eq name s.domain)) [
            | inl apex ↦ rw apex (member_records-Answers (members s) of_leader of_leader-Answers)
            | inr other ↦
                elim (Bool-cases (
                  text_eq name (txt "leader." ++ s.domain)
                  || text_eq name (txt "master." ++ s.domain))) [
                    | inl leading ↦ rw (other, leading) of_leader-Answers
                    | inr service ↦
                        let key = trim_suffix q.name (s.domain ++ dot ∷ []) in
                        let (result, r) = get seconds now split_domain_name s.registry key in
                        rw (other, service) (found_services-Answers (with_registry s r) key result)
                  ]
          ]
