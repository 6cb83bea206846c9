-- ===== src/Server/Http/Tests.antt =====
-- The HTTP handlers and the tick on a server with one service, and the theorems applied to it.
use skydns.Shared.{
  ℕ, ◌^◌, ◌<◌, ap, sym, ◌∙◌, ◌+◌, ◌*◌, Text, txt, text_eq, false, List, [], ◌∷◌, none, some,
  if◌then◌else◌, length, text_Comparable, ◌≡◌, ◌≢◌, ◌⊎◌, refl, arith,
}
use skydns.Shared.GoMap
use skydns.Msg.{Service, Callback, second}
use skydns.Registry.{path_of}
use skydns.Registry
use skydns.Registry.Tree
use skydns.Registry.Tree.{exists, not_exists}
use skydns.Registry.Tree.Find.{find}
use skydns.Registry.Key.{length-path_of}
use skydns.Registry.Consistency.{IsConsistent}
use skydns.Registry.View.{view}
use skydns.Registry.Expiry.{unexpired, member}
use skydns.Server.{not_leader, Raft, Server, tick}
use skydns.Server.Callbacks.{add_to_each}
use skydns.Server.Callbacks.Laws.{called_back, unregistered, uuids, add_to_each_lem}
use skydns.Server.Dnssec.{rrset_Comparable}
use skydns.Server.External.{count_by}
use skydns.Server.External.Counts.{raised, lookup-count_by}
use skydns.Server.Tick.{tick-unexpired}
use skydns.Server.Http.Replies.{
  Request, http_error, wrote_header, status, Decoded, decoded, malformed, message,
}
use skydns.Server.Http.{
  add_service_handler, update_service_handler, remove_service_handler, get_service_handler,
  auth_http_wrapper,
}
use skydns.Server.Http.Laws.{
  IsAuthorized, requested, auth_http_wrapper_lem, remove_service_handler_lem,
  update_service_handler_lem, add_service_handler_lem, add_service_handler_checks,
}
use skydns.Server.Http.Lifetimes.{IsTimely, get_service_handler_time}
use skydns.Server.Fixture.{web, seconds, one, one-IsConsistent, on_leader, server}

abbrev on_follower : Raft
on_follower = record on_leader { leading = false; do_command = λ c r. (some not_leader, r) }

abbrev follower : Server
follower = record server { raft = on_follower }

abbrev request : Text → Request
request uuid = record {
  vars = (txt "uuid", uuid) ∷ [];
  path = txt "/skydns/services/";
  header = λ k. txt "guess";
  query = λ k. [];
  body = txt "{}";
}

abbrev decode : Text → Decoded Service
decode [] = malformed (txt "EOF")
decode (c ∷ s) = decoded (record web { version = txt "2.0.0"; ttl = 30 })

abbrev posted : Service
posted = record web { version = txt "2.0.0"; ttl = 30 }

posted_path : length (path_of (requested second (txt "321") posted)) ≡ 6
posted_path = length-path_of (requested second (txt "321") posted) (omega arith)

host_given : posted.host ≢ []
host_given e = cc

some_same : {t u : Service} → some t ≡ some u → t ≡ u
some_same e = cc

held : view one (txt "123") ≡ some web
unfolding view GoMap.lookup Registry.add Registry.new Tree.add path_of GoMap.insert
held = refl

in_time :
    (t : Service)
    → view one (txt "123") ≡ some t
    → (t.expires < 8 * second + 2 ^ 22 * second) × (8 * second < t.expires + 2 ^ 22 * second)
in_time t known =
    let expires : 5_000_000_000 ≡ t.expires = ap (λ x. x.expires) (some_same (sym held ∙ known)) in
    (omega arith, omega arith)

auth_http_wrapper_lem_example :
    (IsAuthorized server (request (txt "123"))
      × (auth_http_wrapper remove_service_handler server (request (txt "123"))
          ≡ remove_service_handler server (request (txt "123"))))
    ⊎ ((server.secret ≢ [])
        × (txt "guess" ≢ server.secret)
        × (auth_http_wrapper remove_service_handler server (request (txt "123"))
            ≡ (http_error (txt "Unauthorized") 401, server)))
auth_http_wrapper_lem_example =
    auth_http_wrapper_lem remove_service_handler server (request (txt "123"))

remove_service_handler_lem_example :
    ((view one (txt "123") ≢ none)
      × (status (remove_service_handler server (request (txt "123"))).0 ≡ some 200)
      × ((u : Text)
          → view (remove_service_handler server (request (txt "123"))).1.registry u
            ≡ (if text_eq (txt "123") u then none else view one u)))
    ⊎ ((view one (txt "123") ≡ none)
        × (remove_service_handler server (request (txt "123"))
            ≡ (http_error (message not_exists) 404, server)))
remove_service_handler_lem_example =
    remove_service_handler_lem server (λ c r. refl) one-IsConsistent (request (txt "123"))
      (txt "123") (unfold GoMap.lookup in refl)

update_service_handler_lem_example :
    ((t : Service) × (view one (txt "123") ≡ some t)
      × (status (update_service_handler decode second server (request (txt "123"))).0 ≡ some 200)
      × ((u : Text)
          → view (update_service_handler decode second server (request (txt "123"))).1.registry u
            ≡ (if text_eq (txt "123") u
                then some (record t { ttl = 30; expires = 31 * second })
                else view one u)))
    ⊎ ((view one (txt "123") ≡ none)
        × (update_service_handler decode second server (request (txt "123"))
            ≡ (http_error (message not_exists) 404, server)))
update_service_handler_lem_example =
    update_service_handler_lem server (λ c r. refl) one-IsConsistent (request (txt "123"))
      (txt "123") (unfold GoMap.lookup in refl) decode second posted refl

add_service_handler_lem_example :
    ((view one (txt "321") ≡ none)
      × (find (path_of (requested second (txt "321") posted)) one.tree ≡ none)
      × ((add_service_handler decode second server (request (txt "321"))).0 ≡ wrote_header 201)
      × ((u : Text)
          → view (add_service_handler decode second server (request (txt "321"))).1.registry u ≡ (
              if text_eq (txt "321") u
              then some (requested second (txt "321") posted)
              else view one u)))
    ⊎ (((view one (txt "321") ≢ none)
          ⊎ (find (path_of (requested second (txt "321") posted)) one.tree ≢ none))
        × (add_service_handler decode second server (request (txt "321"))
            ≡ (http_error (message exists) 409, server)))
add_service_handler_lem_example =
    add_service_handler_lem server (λ c r. refl) one-IsConsistent (request (txt "321")) (txt "321")
      (unfold GoMap.lookup in refl) decode second posted refl host_given (omega arith) posted_path

get_service_handler_time_example :
    ((t : Service) × (view one (txt "123") ≡ some t)
      × IsTimely
          (8 * second)
          t
          (get_service_handler seconds (8 * second) follower (request (txt "123"))).0)
    ⊎ ((view one (txt "123") ≡ none)
        × (get_service_handler seconds (8 * second) follower (request (txt "123"))
            ≡ (http_error (message not_exists) 404, follower)))
get_service_handler_time_example =
    get_service_handler_time follower one-IsConsistent (request (txt "123")) (txt "123")
      (unfold GoMap.lookup in refl) seconds (8 * second) (λ n h. refl) (λ n h. refl) in_time

add_service_handler_checks_example :
    ((code : ℕ) × (m : Text) × ((code ≡ 400) ⊎ (code ≡ 500))
      × (add_service_handler decode second server (record (request []) { body = [] })
          ≡ (http_error m code, server)))
    ⊎ ((uuid : Text) × (serv : Service) × (GoMap.lookup (request []).vars (txt "uuid") ≡ some uuid)
        × (decode [] ≡ decoded serv)
        × (serv.host ≢ [])
        × (serv.port ≢ 0))
add_service_handler_checks_example =
    add_service_handler_checks decode second server (record (request []) { body = [] })

tick-unexpired_example :
    IsConsistent (tick (6 * second) server).registry
    × ((u : Text)
        → view (tick (6 * second) server).registry u ≡ unexpired (6 * second) (view one u))
tick-unexpired_example = tick-unexpired (6 * second) server (λ c r. refl) refl one-IsConsistent

lookup-count_by_example :
    GoMap.lookup (count_by (λ s. s.region) (web ∷ posted ∷ []) ((txt "Prod", 1) ∷ [])) (txt "Test")
    ≡ raised (GoMap.lookup ((txt "Prod", 1) ∷ []) (txt "Test")) 2
lookup-count_by_example =
    lookup-count_by (λ s. s.region) (web ∷ posted ∷ []) ((txt "Prod", 1) ∷ []) (txt "Test")

abbrev caller : Callback
caller = record {
  uuid = txt "9";
  name = [];
  version = [];
  environment = [];
  region = [];
  host = [];
  reply = txt "web2.example.nl";
  port = 5441;
}

abbrev both : List Service
both = web ∷ record web { uuid = txt "321" } ∷ []

add_to_each_lem_example :
    ((add_to_each caller (request (txt "9")) both 0 server).0 ≡ (none, 0 + unregistered one both))
    × IsConsistent (add_to_each caller (request (txt "9")) both 0 server).1.registry
    × ((u : Text)
        → view (add_to_each caller (request (txt "9")) both 0 server).1.registry u
          ≡ (if member (uuids both) u then called_back caller (view one u) else view one u))
add_to_each_lem_example =
    add_to_each_lem caller (request (txt "9")) both 0 server (λ c r. refl) one-IsConsistent
