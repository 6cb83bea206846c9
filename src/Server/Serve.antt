-- ===== src/Server/Serve.antt =====
-- server/server.go: `ServeDNS`, the handler of DNS requests, up to the deferred signing. The
-- parameters are those of Dns.antt and Dns/Addresses.antt; `id k` is the k-th call of `dns.Id`.
pub mod Replies
pub mod Names
pub mod Listed
mod Tests
use skydns.Shared.{
  ℕ, ℤ, ◌++◌, Text, text_eq, Bool, true, false, ◌&&◌, ◌||◌, not, List, [], ◌∷◌, Option, none, some,
  if◌then◌else◌, to_lower, has_suffix,
}
use skydns.Registry.Tree.{Error}
use skydns.Server.{DnsKey, Server}
use skydns.Server.Dns.{
  Ip, Rr, dnskey, Qtype, type_a, type_aaaa, type_srv, type_any, type_soa, type_dnskey, other_type,
  Question, LookupError, panicked, get_srv_records,
}
use skydns.Server.Dns.Addresses.{get_a_records, create_soa}
use skydns.Server.RoundRobin.{shuffle}
use skydns.Server.Forward.{Reply, serve_dns_forward}

-- `dns.RcodeSuccess` and `dns.RcodeNameError`
pub data Rcode : Type 0 where
  success name_error : Rcode

-- What the handler sets of a `dns.Msg`. `qname` is the name of the question as it was asked.
pub record Message : Type 0 where
  pub qname : Text
  pub rcode : Rcode
  pub authoritative : Bool
  pub recursion_available : Bool
  pub answer : List Rr
  pub ns : List Rr
  pub extra : List Rr
  pub truncated : Bool

abbrev pub new_reply : Text → Message
new_reply qname = record {
  qname = qname;
  rcode = success;
  authoritative = true;
  recursion_available = true;
  answer = [];
  ns = [];
  extra = [];
  truncated = false;
}

abbrev pub is_empty {ℓ} : {A : Type ℓ} → List A → Bool
is_empty [] = true
is_empty (x ∷ l) = false

abbrev pub asks_address : Qtype → Bool
asks_address type_a = true
asks_address type_aaaa = true
asks_address _ = false

abbrev pub asks_service : Qtype → Bool
asks_service type_any = true
asks_service type_srv = true
asks_service _ = false

-- What is written back: a reply of the server's own, or what forwarding gives.
pub data Served {ℓ} (M : Type ℓ) : Type ℓ where
  written : Option (Message × Server) → Served M
  forwarded : Option (Reply M) → Served M

module _ (fqdn : Text → Text) (now : ℕ) where
  -- The `switch` on the type, for the domain itself.
  abbrev pub of_domain : Server → Qtype → Option DnsKey → Option (List Rr)
  of_domain s type_dnskey (some k) = some (dnskey k ∷ [])
  of_domain s type_soa key = some (create_soa fqdn now s)
  of_domain s _ _ = none

  abbrev pub domain_answer : Server → Question → Option (List Rr)
  domain_answer s q = if text_eq q.name (fqdn s.domain) then of_domain s q.qtype s.dns_key else none

  abbrev pub nxdomain : Server → Message → Message
  nxdomain s m = record m { rcode = name_error; ns = create_soa fqdn now s }

  -- A reply with no answer carries the SOA record.
  abbrev pub or_nodata : Server → Message → Message
  or_nodata s m = if is_empty m.answer then record m { ns = create_soa fqdn now s } else m

  abbrev pub with_services : Question → Message → List Rr → List Rr → Message
  with_services q m records extra =
      if asks_service q.qtype
      then record m { answer = m.answer ++ records; extra = m.extra ++ extra }
      else m

  -- From the call of `getSRVRecords` on; `none` is a panic of it.
  abbrev pub after_services :
      Question → Message → ((List Rr × List Rr) × Option Error) × Server → Option (Message × Server)
  after_services q m (((records, extra), none), s) =
      some (or_nodata s (with_services q m records extra), s)
  after_services q m (((records, extra), some Error.panic), s) = none
  after_services q m (((records, extra), some e), s) =
      some (
        if is_empty m.answer then nxdomain s m else or_nodata s (with_services q m records extra),
        s,
      )

  module _ (parse_ip : Text → Ip) (split_host_port : Text → Option Text)
      (split_domain_name : Text → List Text) (seconds : ℤ → ℕ) (id : ℕ → ℕ) where
    abbrev pub service_reply : Question → Message → Server → Option (Message × Server)
    service_reply q m s =
        after_services q m (get_srv_records parse_ip split_domain_name seconds now s q)

    abbrev pub rotated : Server → List Rr → Option (List Rr)
    rotated s records = if s.round_robin then shuffle id records else some records

    abbrev pub with_addresses :
        Question → Message → Option (List Rr) → Server → Option (Message × Server)
    with_addresses q m none s = none
    with_addresses q m (some records) s =
        service_reply q (record m { answer = m.answer ++ records }) s

    -- From the call of `getARecords` on.
    abbrev pub after_addresses :
        Question → Message → (List Rr × Option LookupError) × Server → Option (Message × Server)
    after_addresses q m ((records, some panicked), s) = none
    after_addresses q m ((records, some e), s) = some (nxdomain s m, s)
    after_addresses q m ((records, none), s) = with_addresses q m (rotated s records) s

    abbrev pub unless_domain :
        Option (List Rr) → Question → Message → Server → Option (Message × Server)
    unless_domain (some answer) q m s = some (record m { answer = answer }, s)
    unless_domain none q m s =
        if asks_address q.qtype
        then after_addresses q m
            (get_a_records parse_ip split_host_port split_domain_name seconds now s q)
        else service_reply q m s

    -- The reply to a question of the server's own domain, before it is denied and signed; `none` is a
    -- panic. `q` has its name in lower case, `qname` is the name as asked.
    unfoldable pub local_reply : Server → Text → Question → Option (Message × Server)
    local_reply s qname q = unless_domain (domain_answer s q) q (new_reply qname) s

    -- `s.ServeDNS(w, req)` without DNSSEC.
    unfoldable pub serve_dns {ℓ} :
        {M : Type ℓ} → (ℕ → Text → Option M) → ℕ → Server → Question → Served M
    unfolding local_reply
    serve_dns exchange req_id s asked =
        let q = record asked { name = to_lower asked.name } in
        if not (has_suffix q.name (fqdn s.domain))
        then Served.forwarded (serve_dns_forward exchange s.nameservers req_id)
        else Served.written (local_reply s asked.name q)
