-- ===== src/Server/Serve/Tests.antt =====
-- Replies to questions at concrete inputs, and the theorems applied to them.
use skydns.Shared.{
  ◌≡◌, ℕ, true, Text, length, trim_suffix, to_lower, split, join, txt, List, [], ◌∷◌, Option, some,
  text_eq, if◌then◌else◌, refl,
}
use skydns.Msg.{second}
use skydns.Registry.{pattern_of}
use skydns.Server.{Server}
use skydns.Server.Fixture.{seconds, labels, split_name, one-IsConsistent, server}
use skydns.Server.Dns.{Ip, not_ip, v4, Question, type_a, type_srv}
use skydns.Server.RoundRobin.{shuffle}
use skydns.Server.RoundRobin.Shuffle.{IsShuffled, shuffle-IsShuffled}
use skydns.Server.Dns.{get_srv_records}
use skydns.Server.Dns.Discovery.{Discovered, get_srv_records-Discovered}
use skydns.Server.Dns.Existence.{Reads}
use skydns.Server.Serve.Names.{key_of, pattern_for, Denied, local_reply-Denied}
use skydns.Server.Serve.{Message, local_reply}
use skydns.Server.Serve.Replies.{IsServed, local_reply-IsServed}

-- The calls of `dns.Id`.
abbrev ids : ℕ → ℕ
ids k = k

abbrev numbers : List ℕ
numbers = 1 ∷ 2 ∷ 3 ∷ []

shuffle-IsShuffled_example : IsShuffled numbers (shuffle ids numbers)
shuffle-IsShuffled_example = shuffle-IsShuffled ids numbers

abbrev rotating : Server
rotating = record server { round_robin = true }

abbrev rooted : Text → Text
rooted domain = txt "skydns.local."

abbrev parse_ip : Text → Ip
parse_ip h = if text_eq h (txt "10.0.0.1") then v4 (10 ∷ 0 ∷ 0 ∷ 1 ∷ []) else not_ip

abbrev host_of : Text → Option Text
host_of address = some (txt "10.0.0.1")

abbrev asked : Question
asked = record { name = txt "leader.skydns.local."; qtype = type_a }

local_reply-IsServed_example : IsServed rooted second asked (
    local_reply rooted second parse_ip host_of labels seconds ids rotating
      (txt "Leader.skydns.local.")
      asked)
local_reply-IsServed_example =
    local_reply-IsServed rooted second parse_ip host_of labels seconds ids rotating
      (txt "Leader.skydns.local.") asked one-IsConsistent refl

abbrev service_name : Question
service_name = record {
  name = txt "test.1-0-0.testservice.production.skydns.local.";
  qtype = type_srv;
}

service_pattern : length (pattern_for split_name server service_name) ≡ 6
unfolding pattern_of trim_suffix to_lower split
service_pattern = refl

service_reads : Reads split_name (key_of server service_name)
unfolding to_lower trim_suffix split join
service_reads = (refl, refl)

get_srv_records-Discovered_example :
    Discovered parse_ip service_name split_name seconds second server.registry
      (key_of server service_name)
      (txt "skydns.local")
      (get_srv_records parse_ip split_name seconds second server service_name).0
get_srv_records-Discovered_example =
    get_srv_records-Discovered parse_ip service_name split_name seconds second server
      one-IsConsistent service_pattern

local_reply-Denied_example :
    (m : Message) × (t : Server) × (local_reply rooted second parse_ip host_of split_name seconds
        ids server
        (txt "x")
        service_name
      ≡ some (m, t))
    × Denied split_name server service_name m
local_reply-Denied_example =
    local_reply-Denied parse_ip split_name seconds second server service_name one-IsConsistent
      service_pattern service_reads rooted host_of ids (txt "x") refl refl
