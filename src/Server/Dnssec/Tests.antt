-- ===== src/Server/Dnssec/Tests.antt =====
-- Denials and signatures at concrete inputs, and the theorems applied to them.
use skydns.Shared.{
  ℕ, pos, Text, txt, Bool, true, false, List, [], ◌∷◌, In, Option, none, some, ◌≡◌, ◌≢◌, ◌*◌, join,
  refl, inl, arith,
}
use skydns.Shared.GoMap
use skydns.Msg.{second}
use skydns.Registry.Nsec.{DenialReference}
use skydns.Registry.Nsec.Position.{Sorted}
use skydns.Server.{Server, DnsKey}
use skydns.Server.Fixture.{server}
use skydns.Server.Dns.{Rr, a, v4, Rrsig}
use skydns.Server.Serve.{Message, new_reply, name_error}
use skydns.Server.Dnssec.{Rrset, cache_search}
use skydns.Server.Dnssec.Denials.{new_nsec, add_denials, name_types}
use skydns.Server.Dnssec.Denials.Ranges.{new_nsec_gap, add_denials_panics}
use skydns.Server.Dnssec.Sign.{sign_sets}
use skydns.Server.Dnssec.Sign.Covered.{Covers, IsSound, sign_sets-Covers}

abbrev entry : Text → DenialReference
entry name = record { name = name; reference = pos 1 }

abbrev east : DenialReference
east = entry (txt "east")

abbrev west : DenialReference
west = entry (txt "west")

abbrev zone : List DenialReference
zone = east ∷ west ∷ []

zone-Sorted : Sorted zone
zone-Sorted = ((refl, tt), (tt, tt))

abbrev denying : Server
denying = record server { registry = record server.registry { nsec = zone } }

abbrev names : Text → List Text
names qname = qname ∷ txt "skydns" ∷ txt "local" ∷ []

new_nsec_gap_example :
    new_nsec names denying (txt "north")
    ≡ some (txt "east.skydns.local.", txt "west.skydns.local.", name_types)
unfolding join
new_nsec_gap_example =
    new_nsec_gap names denying (txt "north") (omega arith) (east ∷ []) [] west refl zone-Sorted
      (refl, tt) refl

abbrev denied : Message
denied = record (new_reply (txt "zulu")) { rcode = name_error }

add_denials_panics_example : add_denials names (λ t. 0 ∷ []) denying denied ≡ none
unfolding join
add_denials_panics_example =
    add_denials_panics names denying (txt "zulu") (omega arith) east (west ∷ []) refl zone-Sorted
      (refl, (refl, tt)) (λ t. 0 ∷ []) denied refl refl

abbrev sign_with : Rrsig → List Rr → Option Rrsig
sign_with template rrs = some (record template { signature = txt "made" })

abbrev flight : Text → Option Rrsig → Option Rrsig × Bool
flight key o = (o, false)

abbrev valid : Rrsig → ℕ → Bool
valid sig t = true

abbrev key : DnsKey
key = record { owner = txt "skydns.local."; algorithm = 5; ttl = 60; key = txt "AwEAAa" }

abbrev sets : List (Rrset × List Rr)
sets =
    (
      record { qname = txt "a.skydns.local."; qtype = 1 },
      a (txt "a.skydns.local.") 4 (v4 (10 ∷ [])) ∷ [],
    )
    ∷ []

none-some {ℓ} : {A : Type ℓ} {x : A} → none ≢ some x
none-some e = cc

empty-IsSound : IsSound (txt "sha1") sign_with valid flight []
unfolding cache_search GoMap.lookup
empty-IsSound k sig e = absurd (none-some e)

sign_sets-Covers_example :
    ((sig : Rrsig)
      → In sig (sign_sets (txt "sha1") sign_with valid flight key 12051 (6 * second) sets []).0
      → Covers
          (txt "sha1")
          sign_with
          valid
          flight
          (λ k o sig e. inl e)
          key
          12051
          (6 * second)
          sets
          sig)
    × IsSound
        (txt "sha1")
        sign_with
        valid
        flight
        (sign_sets (txt "sha1") sign_with valid flight key 12051 (6 * second) sets []).1
sign_sets-Covers_example =
    sign_sets-Covers (txt "sha1") sign_with valid flight (λ k o sig e. inl e) key 12051 (6 * second)
      sets [] empty-IsSound
