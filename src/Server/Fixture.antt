-- ===== src/Server/Fixture.antt =====
-- A server with one service, for the tests.
use skydns.Shared.{
  ℕ, ◌+◌, ◌-◌, ◌/◌, ◌%◌, ◌^◌, ℤ, pos, negsuc, Text, txt, true, false, none, List, [], ◌∷◌,
  text_Comparable, arith, split, trim_suffix, dot,
}
use skydns.Msg.{Service, zero_service, second}
use skydns.Registry.{Registry, new, add}
use skydns.Registry.Key.{length-path_of}
use skydns.Registry.Consistency.{IsConsistent}
use skydns.Registry.Consistency.Add.{add-IsConsistent}
use skydns.Registry.Reach.{new-IsConsistent}
use skydns.Server.Commands.{apply}
use skydns.Server.{error_of, Raft, Server}
use skydns.Server.Dnssec.{rrset_Comparable}

abbrev pub web : Service
web = record zero_service {
  uuid = txt "123";
  name = txt "TestService";
  version = txt "1.0.0";
  region = txt "Test";
  host = txt "localhost";
  environment = txt "Production";
  port = 9000;
  ttl = 4;
  expires = 5_000_000_000;
}

abbrev pub seconds : ℤ → ℕ
seconds (pos n) = n / second
seconds (negsuc n) = (2 ^ 32 - (n + 1) / second) % 2 ^ 32

abbrev pub labels : Text → List Text
labels [] = []
labels (c ∷ s) = split (c ∷ s)

-- `dns.SplitDomainName`: the dot at the end is dropped.
abbrev pub split_name : Text → List Text
split_name name = labels (trim_suffix name (dot ∷ []))

abbrev pub one : Registry
one = (add new web).1

pub one-IsConsistent : IsConsistent one
one-IsConsistent =
    add-IsConsistent new web (new-IsConsistent seconds labels) (length-path_of web (omega arith))

abbrev pub on_leader : Raft
on_leader = record {
  leader = txt "first:8080";
  name = txt "first:8080";
  leading = true;
  peers = [];
  do_command = λ c r. (error_of (apply c r).0, (apply c r).1);
}

abbrev pub server : Server
server = record {
  nameservers = [];
  domain = txt "skydns.local";
  registry = one;
  raft = on_leader;
  secret = txt "secret";
  domain_labels = 2;
  dns_key = none;
  key_tag = 0;
  round_robin = false;
}
