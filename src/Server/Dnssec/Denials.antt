-- ===== src/Server/Dnssec/Denials.antt =====
-- server/dnssec.go: the NSEC records that deny a name or a type, `newNSEC` and `nsec`.
-- `split_domain_name` is `dns.SplitDomainName`, and `split_offsets` is `dns.Split`, of the library.
pub mod Ranges
use skydns.Shared.{
  ℕ, ◌-◌, ◌++◌, Text, txt, dot, text_eq, ltb, leb, nat_eq, Bool, true, false, ◌&&◌, List, [], ◌∷◌,
  Option, none, some, length, take, drop, if◌then◌else◌, join,
}
use skydns.Registry.{get_nsec}
use skydns.Server.{Server}
use skydns.Server.Dns.{Rr, soa, nsec}
use skydns.Server.Serve.{Rcode, success, name_error, Message}

-- The bit maps of the domain itself and of a name.
abbrev pub domain_types : List ℕ
domain_types = 1 ∷ 6 ∷ 2 ∷ 28 ∷ 46 ∷ 47 ∷ 48 ∷ []

abbrev pub name_types : List ℕ
name_types = 1 ∷ 28 ∷ 33 ∷ 46 ∷ 47 ∷ []

-- An NSEC record; its own name and the next one are kept apart for `nsec` to compare.
abbrev pub Denial : Type 0
Denial = Text × Text × List ℕ

abbrev pub denial_of : Server → Option (Text × Text) → Option Denial
denial_of s none = none
denial_of s (some (prev, next)) = some (
  prev ++ (s.domain ++ dot ∷ []),
  next ++ (s.domain ++ dot ∷ []),
  if text_eq prev [] then domain_types else name_types,
)

abbrev pub record_of : Denial → Rr
record_of (name, next, types) = nsec name next types

abbrev pub same_range : Denial → Denial → Bool
same_range (name, next, types) (name', next', types') = text_eq name name' && text_eq next next'

module _ (split_domain_name : Text → List Text) where
  -- The labels before those of the domain, at most four.
  abbrev pub denied_key : Server → List Text → Text
  denied_key s qlabels =
      let ls = length qlabels - s.domain_labels in
      let ls4 = ls - 4 in join (take (ls - ls4) (drop ls4 qlabels))

  -- `s.newNSEC(qname)`; `none` is a slice or an index out of range.
  unfoldable pub new_nsec : Server → Text → Option Denial
  new_nsec s qname =
      let qlabels = split_domain_name qname in
      if ltb (length qlabels) s.domain_labels
      then none
      else denial_of s (get_nsec s.registry (denied_key s qlabels))

  abbrev pub with_denial : Message → Option Denial → Option Message
  with_denial m none = none
  with_denial m (some d) = some (record m { ns = m.ns ++ record_of d ∷ [] })

  abbrev pub with_second : Message → Denial → Option Denial → Option Message
  with_second m d none = none
  with_second m d (some e) = some (record m {
    ns =
        if same_range d e then m.ns ++ record_of d ∷ [] else m.ns ++ record_of d ∷ record_of e ∷ [];
  })

  abbrev pub wildcard_denial : Server → Text → List ℕ → Option Denial
  wildcard_denial s qname [] = none
  wildcard_denial s qname (i ∷ idx) = new_nsec s (txt "*." ++ drop i qname)

  abbrev pub with_both : Message → Option Denial → Option Denial → Option Message
  with_both m none second = none
  with_both m (some d) second = with_second m d second

  abbrev pub is_soa : List Rr → Bool
  is_soa (soa name ns mbox serial ∷ []) = true
  is_soa _ = false

  abbrev pub deny : Server → Message → Option Denial → Option Denial → Rcode → Option Message
  deny s m first second name_error = with_both m first second
  deny s m first second success = if is_soa m.ns then with_denial m first else some m

  module _ (split_offsets : Text → List ℕ) where
    -- `s.nsec(m)`
    unfoldable pub add_denials : Server → Message → Option Message
    add_denials s m =
        deny s m (new_nsec s m.qname) (wildcard_denial s m.qname (split_offsets m.qname)) m.rcode
