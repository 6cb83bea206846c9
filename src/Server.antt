-- ===== src/Server.antt =====
-- server/server.go: the server's state, and the tick of the leader that removes what has expired.
pub mod Commands
pub mod Fixture
mod Tests
pub mod Tick
pub mod Http
pub mod Callbacks
pub mod External
pub mod Forward
pub mod Dns
pub mod Dnssec
pub mod RoundRobin
pub mod Serve
pub mod SingleFlight
pub mod Start
pub mod Routes
use skydns.Shared.{
  ℕ, Text, txt, text_eq, Bool, List, [], ◌∷◌, map, Option, none, some, if◌then◌else◌, trim_prefix,
  ◌≡◌,
}
use skydns.Registry.Tree.{Error, Result, ok, err}
use skydns.Registry.{Registry, get_expired}
use skydns.Server.Commands.{Command, new_remove_service_command, apply}

-- What `raftServer.Do` returns as an error: that of the command, or one of its own. A panic of the
-- command, which stops the program, is passed on as its error.
pub data DoError : Type 0 where
  refused : Error → DoError
  not_leader : DoError
  failed : Text → DoError

-- `raft.Server`, a library: what the program asks of it. `do` proposes a command, and is given the
-- registry of this server, which the cluster's commands change.
pub record Raft : Type 0 where
  pub leader : Text
  pub name : Text
  pub leading : Bool
  pub peers : List Text
  pub do_command : Command → Registry → Option DoError × Registry

abbrev pub error_of : Result (Unit {0}) → Option DoError
error_of (ok u) = none
error_of (err e) = some (refused e)

-- On a leader that reaches a majority, `Do` commits the command and applies it.
abbrev pub IsLeading : Raft → Type 0
IsLeading raft =
    (c : Command) (r : Registry) → raft.do_command c r ≡ (error_of (apply c r).0, (apply c r).1)

-- On a follower it refuses.
abbrev pub IsFollowing : Raft → Type 0
IsFollowing raft = (c : Command) (r : Registry) → raft.do_command c r ≡ (some not_leader, r)

-- A DNSKEY record of the library: its owner, its algorithm, its TTL, and the rest of its data.
pub record DnsKey : Type 0 where
  pub owner : Text
  pub algorithm : ℕ
  pub ttl : ℕ
  pub key : Text

pub record Server : Type 0 where
  pub nameservers : List Text
  pub domain : Text
  pub registry : Registry
  pub raft : Raft
  pub secret : Text
  pub domain_labels : ℕ
  pub dns_key : Option DnsKey
  pub key_tag : ℕ
  pub round_robin : Bool

abbrev pub with_registry : Server → Registry → Server
with_registry s r = record s { registry = r }

-- `s.Leader()`: of a single node, its own name.
abbrev pub leader : Server → Text
leader s = if text_eq s.raft.leader [] then s.raft.name else s.raft.leader

-- `s.IsLeader()`
abbrev pub is_leader : Server → Bool
is_leader s = s.raft.leading

-- `s.Members()`
abbrev pub members : Server → List Text
members s = map (λ p. trim_prefix p (txt "http://")) s.raft.peers

-- The loop over the expired UUIDs; an error of `Do` is dropped.
unfoldable pub remove_each : List Text → Server → Server
remove_each [] s = s
remove_each (uuid ∷ expired) s =
    remove_each expired
      (with_registry s (s.raft.do_command (new_remove_service_command uuid) s.registry).1)

-- One tick of `s.run()`.
unfoldable pub tick : ℕ → Server → Server
tick now s = if is_leader s then remove_each (get_expired now s.registry) s else s
