-- ===== src/Client/Fixture.antt =====
-- A cluster with a leader and a follower, and clients of it, for the tests.
use skydns.Shared.{
  nat_eq, false, ◌*◌, Text, txt, text_eq, List, [], ◌∷◌, Option, none, some, if◌then◌else◌, length,
  take, drop, text_Comparable, ◌≡◌, ◌≢◌, refl, arith,
}
use skydns.Shared.GoMap
use skydns.Msg.{Service, second}
use skydns.Registry.{new, path_of}
use skydns.Registry.Key.{length-path_of}
use skydns.Server.{Server, not_leader}
use skydns.Server.Http.Replies.{Handler, Decoded, untouched, decoded, malformed}
use skydns.Server.Http.Laws.{requested}
use skydns.Client.{Client}
use skydns.Client.Cluster.{World}
use skydns.Client.Cluster.Routed.{Outside, Leads}
use skydns.Server.Fixture.{web, seconds, split_name, on_leader, server}

-- A text up to its first slash, and from it on.
abbrev pub before_slash : Text → Text
before_slash [] = []
before_slash (x ∷ l) = if nat_eq x 47 then [] else x ∷ before_slash l

abbrev pub from_slash : Text → Text
from_slash [] = []
from_slash (x ∷ l) = if nat_eq x 47 then x ∷ l else from_slash l

abbrev pub split_url : Text → Option (Text × Text)
split_url url =
    if text_eq (take 7 url) (txt "http://")
    then some (before_slash (drop 7 url), from_slash (drop 7 url))
    else none

abbrev pub parse_uri : Text → Decoded (Text × Text)
parse_uri url =
    if text_eq (take 7 url) (txt "http://")
    then decoded (txt "http", before_slash (drop 7 url))
    else malformed (txt "no scheme")

abbrev pub matches : Text → Text → Option (List (Text × Text))
matches pattern path =
    if text_eq pattern (txt "/skydns/services/{uuid}")
    then if text_eq (take 17 path) (txt "/skydns/services/")
      then some ((txt "uuid", drop 17 path) ∷ [])
      else none
    else if text_eq pattern path
    then some []
    else none

-- A handler of the raft library.
abbrev pub raft_handlers : List (Text × Handler)
raft_handlers = (txt "/raft/vote", λ s req. (untouched, s)) ∷ []

abbrev pub leader_server : Server
leader_server = record server { registry = new }

abbrev pub follower : Server
follower = record server {
  raft = record on_leader { leading = false; do_command = λ c r. (some not_leader, r) };
}

abbrev pub cluster : World
cluster = (txt "first:8080", leader_server) ∷ (txt "other:8080", follower) ∷ []

abbrev pub left : Service
left = record web { uuid = txt "321"; ttl = 2; expires = 5 * second }

abbrev pub outside : Outside
outside = record {
  encode_text = λ v. txt "{}";
  encode_list = λ l. txt "[]";
  encode_counts = λ m. txt "{}";
  matches = matches;
  decode = λ t. decoded web;
  decode_callback = λ t. malformed (txt "EOF");
  join = λ s req. (untouched, s);
  installed = raft_handlers;
  seconds = seconds;
  split_domain_name = split_name;
  split_url = split_url;
  request_error = λ method url. none;
  parse_uri = parse_uri;
  decode_pointer = λ t. decoded (some left);
}

abbrev pub client : Client
client = record {
  base = txt "http://first:8080";
  secret = txt "secret";
  basedns = txt "first:53";
  domain = txt "skydns.local.";
}

abbrev pub elsewhere : Client
elsewhere = record client { base = txt "http://other:8080" }

abbrev pub stranger : Client
stranger = record client { secret = txt "guess" }

pub client-Leads : Leads outside cluster client (txt "321") (txt "first:8080") leader_server
unfolding GoMap.lookup
client-Leads = (txt "/skydns/services/321", refl, refl, refl, λ method. refl)

pub stranger-Leads : Leads outside cluster stranger (txt "321") (txt "first:8080") leader_server
unfolding GoMap.lookup
stranger-Leads = (txt "/skydns/services/321", refl, refl, refl, λ method. refl)

pub host_given : web.host ≢ []
host_given e = cc

pub web_path : length (path_of (requested second (txt "321") web)) ≡ 6
web_path = length-path_of (requested second (txt "321") web) (omega arith)

-- A follower whose raft library knows no leader.
abbrev pub lonely : Server
lonely = record follower {
  raft = record on_leader {
    leader = [];
    name = txt "other:8080";
    leading = false;
    do_command = λ c r. (some not_leader, r);
  };
}

abbrev pub headless : World
headless = (txt "other:8080", lonely) ∷ []
