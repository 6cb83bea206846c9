-- ===== src/Lib.antt =====
-- SkyDNS: a registry of services that is replicated by Raft, fed by an HTTP API and read through DNS.
--
-- The parts and the files that model them (paths are from the repository's root):
--
-- * msg/service.go is Msg: the records `Service` and `Callback`, and the remaining time to live.
--   A time is a number of nanoseconds since the zero Time; `time.Now` is an argument `now`. The
--   conversion of a float of seconds to a uint32 is a parameter `seconds`, since Go leaves the
--   conversion of a negative one to the implementation. Where a theorem speaks of seconds, and not of
--   `RemainingTTL`, it assumes of the conversion what Msg/Ttl says: below 2^22 seconds, where a float64
--   tells nanoseconds apart, it gives the whole seconds (`ExactSeconds`), and on amd64 a negative one
--   wraps round (`WrapsNegative`).
-- * registry/registry.go is Registry. Registry/Tree is the tree of nodes (`node.add`, `node.remove`,
--   `node.size`), Registry/Query is `node.get`, Registry/Nsec is the sorted list of names for denials
--   of existence with `sort.Search` and the copies written out, and Registry is `DefaultRegistry`
--   with its methods. Each method holds the mutex for its whole run, so it is a function from the
--   state to its result and the next state. A node is shared by the tree and the map from UUIDs: its
--   `value` lies in a cell, at an address that both hold. A run-time panic is an error of its own.
-- * server/command.go is Server/Commands: the commands that the cluster agrees on, and their effect.
-- * server/server.go is Server (the state, the leader, the tick that removes what has expired),
--   Server/Http (the handlers of the API for services, and their authorization), Server/Routes (the
--   routes of `NewServer`, and those that `Start` has the raft library install through `HandleFunc`),
--   Server/Start (`NewServer`, `Join` and `joinHandler`), Server/Serve
--   (`ServeDNS`), Server/RoundRobin (its shuffle of the records), Server/Forward (`ServeDNSForward`)
--   and Server/Dns (`getSRVRecords`, `getARecords`, `createSOA`).
-- * server/dnssec.go is Server/Dnssec (`rrSets` and the signature cache), Server/Dnssec/Denials
--   (`newNSEC` and `nsec`), Server/Dnssec/Sign (`sign`, `newRRSIG` and the cache key; its child
--   Served is `SetKeys` and the deferred end of `ServeDNS`) and Server/SingleFlight (`single.Do`, as a
--   step relation on threads, where each section under the mutex is one step).
-- * client/client.go is Client: the requests, the errors that the statuses are mapped to, and the
--   redirects. Client/Cluster puts the client and the servers together: a map from hosts to servers
--   answers the client's requests through the routes.
-- * server/callback.go is Server/Callbacks, and server/externalapi.go is Server/External.
--
-- The handlers and the tick propose commands to Raft, a library: `do_command` of the record `Raft`
-- is a parameter, and a theorem says which documented behaviour it assumes, that of a leader
-- (`IsLeading`: the command is committed and applied) or that of a follower (`IsFollowing`: it is
-- refused). JSON decoding, the DNS library and package net are parameters too.
--
-- Registry/Consistency is the invariant of the registry, Registry/Reach its reachable states,
-- Registry/View the abstract map from UUIDs to services that the methods refine, and
-- Registry/Lookup what `Get` promises. Server/Dns/Discovery and Server/Serve/Names say the same of
-- the DNS answers, Server/Http/Lifetimes of a GET as time passes, and Client/Cluster/Discovers leads
-- from a client's request to a DNS answer. Registry/Panics and Server/Dns/Panics show where no panic
-- occurs. The reply of Server/Serve is that before the deferred denial and signing, which are in
-- Server/Dnssec.
--
-- Bounds: a TTL and a port are natural numbers; the uint32 and uint16 conversions that can wrap are
-- written out. Counts of nodes and references are signed integers. Three loops are on fuel: that of
-- `ServeDNSForward`, whose fuel is one more than the number of nameservers; that of the round robin,
-- whose fuel is one more than four times the number of records, since no round can ask for more; and
-- `Add` of the client, which follows redirects without a bound: each uses one unit, and the theorems
-- hold of any fuel that suffices for the redirects at hand, or say that none does. An address with no cell and an index out
-- of range are results of their own (`panic`, `none`, `panicked`).
--
-- Not modelled: the start of the server and its listeners, which are files, sockets, timers and calls
-- of the raft library; the reading of key files; the request of a callback; the command lines, the
-- statistics and the log. The records of the DNS library have the fields that the program sets or
-- compares.
pub mod Shared
pub mod Msg
pub mod Registry
pub mod Server
pub mod Client
