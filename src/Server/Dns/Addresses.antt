-- ===== src/Server/Dns/Addresses.antt =====
-- server/server.go: the address records of a name, of the server's own names or of services, and the
-- SOA record. `fqdn` is `dns.Fqdn`; the other parameters are those of Dns.antt.
use skydns.Shared.{
  ℕ, ◌-◌, ◌*◌, ◌/◌, ◌%◌, ◌^◌, ℤ, ◌++◌, Text, txt, dot, text_eq, ltb, ◌||◌, List, [], ◌∷◌, Option,
  none, some, length, take, if◌then◌else◌, trim_suffix,
}
use skydns.Msg.{Service, second}
use skydns.Registry.Tree.{Error, Result, ok, err}
use skydns.Registry.{Registry, get, get_uuid}
use skydns.Server.{Server, leader, members, with_registry}
use skydns.Server.Dns.{
  Ip, v4, v6, Rr, a, aaaa, soa, Qtype, type_a, type_aaaa, Question, LookupError, bad_address,
  unknown, panicked,
}

abbrev pub Answer : Type 0
Answer = (List Rr × Option LookupError) × Server

-- A member's address, for a question of type A alone.
abbrev pub member_record : Question → Qtype → Ip → List Rr
member_record q type_a ip = a q.name 15 ip ∷ []
member_record q type_aaaa ip = []
member_record q _ ip = []

-- The address of a service, for a question of its type alone.
abbrev pub address_record : Question → Qtype → ℕ → Ip → List Rr
address_record q type_a ttl (v4 ip) = a q.name ttl (v4 ip) ∷ []
address_record q type_aaaa ttl (v6 ip) = aaaa q.name ttl (v6 ip) ∷ []
address_record q _ ttl _ = []

module _ (parse_ip : Text → Ip) (split_host_port : Text → Option Text) where
  abbrev pub members_end : List Rr → List Rr × Option LookupError → List Rr × Option LookupError
  members_end found (more, e) = (found ++ more, e)

  -- The host of an address, or the return with an error.
  abbrev pub after_host :
      Question → Option Text → List Rr × Option LookupError → List Rr × Option LookupError
  after_host q none rest = ([], some bad_address)
  after_host q (some h) rest = members_end (member_record q q.qtype (parse_ip h)) rest

  -- The loop over the members, and what comes after it.
  abbrev pub member_records :
      Question → List Text → List Rr × Option LookupError → List Rr × Option LookupError
  member_records q [] rest = rest
  member_records q (m ∷ ms) rest = after_host q (split_host_port m) (member_records q ms rest)

  -- The loop over the services.
  abbrev pub service_records : Question → List Service → List Rr
  service_records q [] = []
  service_records q (serv ∷ services) =
      address_record q q.qtype serv.ttl (parse_ip serv.host) ++ service_records q services

  abbrev pub by_uuid : Question → Server → Error → Result Service × Registry → Answer
  by_uuid q s e (ok serv, r) = ((service_records q (serv ∷ []), none), with_registry s r)
  by_uuid q s e (err Error.panic, r) = (([], some panicked), with_registry s r)
  by_uuid q s e (err _, r) = (([], some (unknown e)), with_registry s r)

  -- The same where the search for the name found an empty list, without an error.
  abbrev pub by_uuid_after_none : Question → Server → Result Service × Registry → Answer
  by_uuid_after_none q s (ok serv, r) = ((service_records q (serv ∷ []), none), with_registry s r)
  by_uuid_after_none q s (err Error.panic, r) = (([], some panicked), with_registry s r)
  by_uuid_after_none q s (err _, r) = (([], none), with_registry s r)

  module _ (split_domain_name : Text → List Text) (seconds : ℤ → ℕ) (now : ℕ) where
    -- No service under the name: the name without its dot may be a UUID.
    abbrev pub found_services : Question → Server → Text → Result (List Service) → Answer
    found_services q s key (ok (serv ∷ services)) = ((service_records q (serv ∷ services), none), s)
    found_services q s key (ok []) =
        let lookup = get_uuid seconds now s.registry (take (length key - 1) key) in
        if ltb 1 (length key) then by_uuid_after_none q s lookup else (([], none), s)
    found_services q s key (err Error.panic) = (([], some panicked), s)
    found_services q s key (err e) =
        let lookup = get_uuid seconds now s.registry (take (length key - 1) key) in
        if ltb 1 (length key) then by_uuid q s e lookup else (([], some (unknown e)), s)

    abbrev pub service_answer : Question → Server → Answer
    service_answer q s =
        let key = trim_suffix q.name (s.domain ++ dot ∷ []) in
        let (result, r) = get seconds now split_domain_name s.registry key in
        found_services q (with_registry s r) key result

    -- `s.getARecords(q)`
    unfoldable pub get_a_records : Server → Question → Answer
    get_a_records s q =
        let name = trim_suffix q.name (dot ∷ []) in
        let of_leader = member_records q (leader s ∷ []) ([], none) in
        if text_eq name s.domain
        then (member_records q (members s) of_leader, s)
        else if text_eq name (txt "leader." ++ s.domain) || text_eq name (txt "master." ++ s.domain)
        then (of_leader, s)
        else service_answer q s

-- Seconds from the zero Time to the epoch of Unix time.
abbrev pub unix_epoch : ℕ
unix_epoch = 62_135_596_800

-- `s.createSOA()`: the serial is the Unix time of the hour.
unfoldable pub create_soa : (Text → Text) → ℕ → Server → List Rr
create_soa fqdn now s =
    let dom = fqdn s.domain in
    let hour = now / (3600 * second) in
    soa dom (txt "master." ++ dom) (txt "hostmaster." ++ dom) ((hour * 3600 - unix_epoch) % 2 ^ 32)
    ∷ []
