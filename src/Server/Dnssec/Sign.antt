-- ===== src/Server/Dnssec/Sign.antt =====
-- server/dnssec.go: the signing of a reply. Of the library: `sign_with` is `sig1.Sign`, `none` for an
-- error; `valid` is `ValidityPeriod` at an instant; `message_length` is `m.Len()`; `empty_hash` is the
-- SHA-1 of nothing. `flight` is what `inflight.Do` returns for a key and the result of its function.
pub mod Covered
pub mod Complete
pub mod Served
use skydns.Shared.{
  ℕ, ◌+◌, ◌-◌, ◌*◌, ◌/◌, ◌%◌, ◌^◌, ◌++◌, Text, txt, ltb, leb, nat_eq, Bool, true, false, ◌||◌, List,
  [], ◌∷◌, Option, none, some, if◌then◌else◌, length,
}
use skydns.Msg.{second}
use skydns.Server.{DnsKey, Server}
use skydns.Server.Dns.{Ip, not_ip, v4, v6, Rr, a, aaaa, srv, soa, dnskey, nsec, rrsig, opt, Rrsig}
use skydns.Server.Dns.Addresses.{unix_epoch}
use skydns.Server.Serve.{Message}
use skydns.Server.Dnssec.{Rrset, rr_sets, cache_insert, cache_remove, cache_search}

-- `origTTL`
abbrev pub origin_ttl : ℕ
origin_ttl = 60

-- `packUint16(i)` and `packUint32(i)`
abbrev pub pack_uint16 : ℕ → Text
pack_uint16 i = (i / 2 ^ 8 % 2 ^ 8) ∷ (i % 2 ^ 8) ∷ []

abbrev pub pack_uint32 : ℕ → Text
pack_uint32 i = (i / 2 ^ 24 % 2 ^ 8) ∷ (i / 2 ^ 16 % 2 ^ 8) ∷ (i / 2 ^ 8 % 2 ^ 8) ∷ (i % 2 ^ 8) ∷ []

-- The numbers of the types.
abbrev pub header : Rr → Rrset
header (a name ttl ip) = record { qname = name; qtype = 1 }
header (aaaa name ttl ip) = record { qname = name; qtype = 28 }
header (srv name ttl priority weight port target) = record { qname = name; qtype = 33 }
header (soa name ns mbox serial) = record { qname = name; qtype = 6 }
header (dnskey k) = record { qname = k.owner; qtype = 48 }
header (nsec name next types) = record { qname = name; qtype = 47 }
header (rrsig sig) = record { qname = sig.owner; qtype = 46 }
header (opt size) = record { qname = txt "."; qtype = 41 }

abbrev pub ip_bytes : Ip → Text
ip_bytes not_ip = []
ip_bytes (v4 ip) = ip
ip_bytes (v6 ip) = ip

-- What of a record's data goes into the key.
abbrev pub key_data : Rr → Text
key_data (a name ttl ip) = ip_bytes ip
key_data (aaaa name ttl ip) = ip_bytes ip
key_data (srv name ttl priority weight port target) =
    pack_uint16 priority ++ (pack_uint16 weight ++ (pack_uint16 weight ++ target))
key_data (soa name ns mbox serial) = pack_uint32 serial
key_data (nsec name next types) = next
key_data _ = []

abbrev pub all_data : List Rr → Text
all_data [] = []
all_data (r ∷ rrs) = key_data r ++ all_data rrs

-- `c.key(rrs)`, of a set that is not empty: `h.Sum(i)` appends a hash, of nothing, to the bytes.
unfoldable pub cache_key : Text → Rr → List Rr → Text
cache_key empty_hash r rrs =
    (header r).qname ++ (pack_uint16 (header r).qtype ++ (all_data (r ∷ rrs) ++ empty_hash))

-- `s.newRRSIG(incep, expir)`; the library's `Sign` sets the rest.
abbrev pub new_rrsig : DnsKey → ℕ → ℕ → ℕ → Rrsig
new_rrsig k key_tag incep expir = record {
  owner = [];
  ttl = origin_ttl;
  covered = 0;
  orig_ttl = origin_ttl;
  algorithm = k.algorithm;
  key_tag = key_tag;
  inception = incep;
  expiration = expir;
  signer_name = k.owner;
  signature = [];
}

-- An instant as a uint32 of Unix seconds.
abbrev pub unix : ℕ → ℕ
unix now = (now / second - unix_epoch) % 2 ^ 32

abbrev pub hour : ℕ
hour = 3600 * second

abbrev pub Cache : Type 0
Cache = List (Text × Rrsig)

abbrev pub is_rrsig : Rr → Bool
is_rrsig r = nat_eq (header r).qtype 46

module _ (empty_hash : Text) (sign_with : Rrsig → List Rr → Option Rrsig) (valid : Rrsig → ℕ → Bool)
    (flight : Text → Option Rrsig → Option Rrsig × Bool) where
  abbrev pub new_signature : DnsKey → ℕ → ℕ → List Rr → Option Rrsig
  new_signature k key_tag now rrs =
      sign_with (new_rrsig k key_tag (unix (now - 2 * hour)) (unix (now + 7 * 24 * hour))) rrs

  abbrev pub remembered : Option Rrsig × Bool → Text → Cache → List Rrsig × Cache
  remembered (none, shared) key cache = ([], cache)
  remembered (some sig, shared) key cache =
      (sig ∷ [], if shared then cache else cache_insert cache key sig)

  -- After the search of the cache.
  abbrev pub sign_unless :
      Option Rrsig → DnsKey → ℕ → ℕ → List Rr → Text → Cache → List Rrsig × Cache
  sign_unless none k key_tag now rrs key cache =
      remembered (flight key (new_signature k key_tag now rrs)) key cache
  sign_unless (some sig) k key_tag now rrs key cache =
      if valid sig (now - 24 * hour)
      then (sig ∷ [], cache)
      else remembered (flight key (new_signature k key_tag now rrs)) key (cache_remove cache key)

  -- The body of the loop: no signature for signatures.
  unfoldable pub sign_set : DnsKey → ℕ → ℕ → List Rr → Cache → List Rrsig × Cache
  unfolding cache_key
  sign_set k key_tag now [] cache = ([], cache)
  sign_set k key_tag now (r ∷ rrs) cache =
      let key = cache_key empty_hash r rrs in
      if is_rrsig r
      then ([], cache)
      else sign_unless (cache_search cache key) k key_tag now (r ∷ rrs) key cache

  -- The loop over the sets.
  unfoldable pub sign_sets : DnsKey → ℕ → ℕ → List (Rrset × List Rr) → Cache → List Rrsig × Cache
  unfolding sign_set
  sign_sets k key_tag now [] cache = ([], cache)
  sign_sets k key_tag now ((key, rrs) ∷ sets) cache =
      let (sigs, cache') = sign_set k key_tag now rrs cache in
      let (more, last) = sign_sets k key_tag now sets cache' in (sigs ++ more, last)

  abbrev pub records_of : List Rrsig → List Rr
  records_of [] = []
  records_of (sig ∷ sigs) = rrsig sig ∷ records_of sigs

  module _ (message_length : Message → ℕ) where
    abbrev pub truncated_to : ℕ → Message → Message
    truncated_to bufsize m =
        if leb 512 bufsize || leb bufsize 4096
        then record m { truncated = ltb bufsize (message_length m) }
        else m

    -- `s.sign(m, bufsize)`, with the server's key.
    unfoldable pub sign : DnsKey → ℕ → ℕ → ℕ → Message → Cache → Message × Cache
    unfolding sign_sets
    sign k key_tag now bufsize m cache =
        let (answers, cache1) = sign_sets k key_tag now (rr_sets header m.answer) cache in
        let (denials, cache2) = sign_sets k key_tag now (rr_sets header m.ns) cache1 in
        let m1 = record m {
          answer = m.answer ++ records_of answers;
          ns = m.ns ++ records_of denials;
        } in
        let m2 = truncated_to bufsize m1 in
        (record m2 { extra = m2.extra ++ opt 4096 ∷ [] }, cache2)
