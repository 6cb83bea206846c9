-- ===== src/Server/Dns.antt =====
-- server/server.go: the records of a DNS answer. `parse_ip` is `net.ParseIP` with the calls of `To4`
-- and `To16` on its result, `split_domain_name` is `dns.SplitDomainName`, and `split_host_port` is
-- the host of `net.SplitHostPort`, `none` for an error; the other parameters are those of the
-- registry.
pub mod Addresses
pub mod Weights
pub mod Discovery
pub mod Existence
pub mod Panics
pub mod Answers
use skydns.Shared.{
  ℕ, zero, suc, ◌+◌, ◌-◌, ◌/◌, ◌<◌, ◌%◌, ◌^◌, ℤ, ◌++◌, Text, txt, dot, text_eq, nat_eq, ltb, leb,
  Bool, true, false, not, ◌&&◌, ◌||◌, List, [], ◌∷◌, map, Option, none, some, length, get_elem?,
  set, take, if◌then◌else◌, to_lower, join, trim_suffix,
}
use skydns.Msg.{Service}
use skydns.Registry.Tree.{Error, Result, ok, err}
use skydns.Registry.{Registry, get, get_uuid}
use skydns.Registry.Query.{star}
use skydns.Server.{DnsKey, Server, leader, members, with_registry}

-- An address that a host's name may be.
pub data Ip : Type 0 where
  not_ip : Ip
  v4 v6 : List ℕ → Ip

-- A signature, with what `newRRSIG` sets and what the library's `Sign` adds: the owner, the type that
-- is covered, and the signature.
pub record Rrsig : Type 0 where
  pub owner : Text
  pub ttl : ℕ
  pub covered : ℕ
  pub algorithm : ℕ
  pub orig_ttl : ℕ
  pub key_tag : ℕ
  pub inception : ℕ
  pub expiration : ℕ
  pub signer_name : Text
  pub signature : Text

pub data Rr : Type 0 where
  a aaaa : Text → ℕ → Ip → Rr
  srv : Text → ℕ → ℕ → ℕ → ℕ → Text → Rr
  soa : Text → Text → Text → ℕ → Rr
  dnskey : DnsKey → Rr
  nsec : Text → Text → List ℕ → Rr
  rrsig : Rrsig → Rr
  opt : ℕ → Rr

-- The types of a question that the program tells apart.
pub data Qtype : Type 0 where
  type_a type_aaaa type_srv type_any type_soa type_dnskey other_type : Qtype

pub record Question : Type 0 where
  pub name : Text
  pub qtype : Qtype

-- Why records could not be found; `panicked` is a run-time panic of the registry.
pub data LookupError : Type 0 where
  bad_address : LookupError
  unknown : Error → LookupError
  panicked : LookupError

-- The name that stands for a service whose host is an address.
abbrev pub glue_name : Server → Service → Text
glue_name s serv = serv.uuid ++ dot ∷ (s.domain ++ dot ∷ [])

-- `uint16(math.Floor(float64(100 / n)))`
abbrev pub share : ℕ → ℕ
share n = 100 / n % 2 ^ 16

module _ (parse_ip : Text → Ip) where
  -- The answer and the additional record for a service.
  abbrev pub srv_of : Server → Question → ℕ → ℕ → Service → Ip → Rr × List Rr
  srv_of s q priority weight serv not_ip =
      (srv q.name serv.ttl priority weight serv.port (serv.host ++ dot ∷ []), [])
  srv_of s q priority weight serv (v4 ip) = (
    srv q.name serv.ttl priority weight serv.port (glue_name s serv),
    a (glue_name s serv) serv.ttl (v4 ip) ∷ [],
  )
  srv_of s q priority weight serv (v6 ip) = (
    srv q.name serv.ttl priority weight serv.port (glue_name s serv),
    aaaa (glue_name s serv) serv.ttl (v6 ip) ∷ [],
  )

  -- The loop over the services of the name.
  abbrev pub srv_each : Server → Question → ℕ → ℕ → List Service → List Rr × List Rr
  srv_each s q priority weight [] = ([], [])
  srv_each s q priority weight (serv ∷ services) =
      let (answer, extra) = srv_of s q priority weight serv (parse_ip serv.host) in
      let (records, extras) = srv_each s q priority weight services in
      (answer ∷ records, extra ++ extras)

  -- A service of the loop over all regions that is not skipped.
  abbrev pub elsewhere : Text → List Service → List Service
  elsewhere region [] = []
  elsewhere region (serv ∷ services) =
      let rest = elsewhere region services in
      if text_eq (to_lower serv.region) region then rest else serv ∷ rest

  abbrev pub Records : Type 0
  Records = List Rr × List Rr

  abbrev pub both : Records → Records → Records
  both (records, extra) (more, extras) = (records ++ more, extra ++ extras)

  -- The services of the name in other regions, of priority 20.
  abbrev pub added_elsewhere :
      Server
      → Question
      → List Service
      → Text
      → Records
      → Result (List Service)
      → Records × Option Error
  added_elsewhere s q services region found (err e) = (found, some e)
  added_elsewhere s q services region found (ok more) =
      if leb (length more) (length services) then (found, none) else (
        both found
            (srv_each s q 20 (share (length more - length services)) (elsewhere region more)),
        none,
      )

  -- The label of the region among those of a name, and the labels with a star in its place.
  abbrev pub starred : List Text → ℕ → Option Text → Option (Text × List Text)
  starred labels pos none = none
  starred labels pos (some region) =
      if text_eq region star then none else some (region, set labels pos star)

  abbrev pub region_of : List Text → Option (Text × List Text)
  region_of labels =
      if leb 4 (length labels)
      then starred labels (length labels - 4) (get_elem? labels (length labels - 4))
      else none

  module _ (split_domain_name : Text → List Text) (seconds : ℤ → ℕ) (now : ℕ) where
    abbrev pub other_regions :
        Server
        → Question
        → List Service
        → Records
        → Option (Text × List Text)
        → (Records × Option Error) × Server
    other_regions s q services found none = ((found, none), s)
    other_regions s q services found (some (region, labels)) =
        let (result, r) = get seconds now split_domain_name s.registry (join labels) in
        (added_elsewhere s q services region found result, with_registry s r)

    abbrev pub with_services :
        Server → Question → Text → Result (List Service) → (Records × Option Error) × Server
    with_services s q key (err e) = ((([], []), some e), s)
    with_services s q key (ok services) =
        other_regions s q services (srv_each s q 10 (share (length services)) services)
          (region_of (split_domain_name key))

    -- `s.getSRVRecords(q)`
    unfoldable pub get_srv_records : Server → Question → (Records × Option Error) × Server
    get_srv_records s q =
        let key = trim_suffix q.name (s.domain ++ dot ∷ []) in
        let (result, r) = get seconds now split_domain_name s.registry key in
        with_services (with_registry s r) q key result
