-- ===== src/Server/Tests.antt =====
-- DNS answers, forwarding and record sets at concrete inputs, and the theorems applied to them.
use skydns.Shared.{
  Option, ◌≤◌, All, ℕ, Text, txt, text_eq, List, [], ◌∷◌, none, some, if◌then◌else◌,
  text_Comparable, ◌≡◌, arith,
}
use skydns.Shared.GoMap
use skydns.Msg.{second}
use skydns.Server.Forward.{serve_dns_forward}
use skydns.Server.Forward.Tries.{reply_of, first_answer, serve_dns_forward_lem}
use skydns.Server.Dns.{Ip, not_ip, v4, Question, type_a, get_srv_records}
use skydns.Server.Dns.Weights.{total_weight, weight-get_srv_records}
use skydns.Server.Dns.Addresses.{get_a_records}
use skydns.Server.Dns.Answers.{Answers, get_a_records-Answers}
use skydns.Server.Dnssec.{Rrset, rrset_Comparable, rr_sets}
use skydns.Server.Dnssec.Sets.{lookup-rr_sets}
use skydns.Server.Fixture.{seconds, labels, server}

abbrev resolvers : List Text
resolvers = txt "8.8.8.8:53" ∷ txt "8.8.4.4:53" ∷ []

-- Only the second nameserver is up.
abbrev exchange : ℕ → Text → Option Text
exchange try server = if text_eq server (txt "8.8.4.4:53") then some (txt "answer") else none

serve_dns_forward_lem_example :
    serve_dns_forward exchange resolvers 4
    ≡ some (reply_of exchange resolvers 4 (first_answer exchange resolvers 4 3 0))
serve_dns_forward_lem_example = serve_dns_forward_lem exchange resolvers 4 (omega arith)

-- A parser that knows one address, and names without ports.
abbrev parse_ip : Text → Ip
parse_ip h = if text_eq h (txt "10.0.0.1") then v4 (10 ∷ 0 ∷ 0 ∷ 1 ∷ []) else not_ip

abbrev host_of : Text → Option Text
host_of address = some (txt "10.0.0.1")

abbrev question : Question
question = record { name = txt "testservice.production.skydns.local."; qtype = type_a }

weight-get_srv_records_example :
    total_weight 10 (get_srv_records parse_ip labels seconds second server question).0.0.0 ≤ 100
weight-get_srv_records_example =
    weight-get_srv_records parse_ip labels seconds second question server

get_a_records-Answers_example :
    All
      (Answers question)
      (get_a_records parse_ip host_of labels seconds second server question).0.0
get_a_records-Answers_example =
    get_a_records-Answers question parse_ip host_of labels seconds second server

-- Records that are their name and type, and their data.
abbrev data_of : Text → ℕ → Text → Rrset × Text
data_of qname qtype data_text = (record { qname = qname; qtype = qtype }, data_text)

abbrev answer : List (Rrset × Text)
answer =
    data_of (txt "a.") 1 (txt "x")
    ∷ data_of (txt "b.") 1 (txt "y")
    ∷ data_of (txt "a.") 1 (txt "z")
    ∷ []

lookup-rr_sets_example :
    GoMap.lookup (rr_sets (λ r. r.0) answer) (record { qname = txt "a."; qtype = 1 })
    ≡ some (data_of (txt "a.") 1 (txt "x") ∷ data_of (txt "a.") 1 (txt "z") ∷ [])
lookup-rr_sets_example = lookup-rr_sets (λ r. r.0) answer (record { qname = txt "a."; qtype = 1 })

abbrev signatures : List (Text × Text)
signatures = (txt "k", txt "old") ∷ []
