-- ===== src/Client/Tests.antt =====
-- The theorems on clients and servers, applied to a cluster.
use skydns.Shared.{
  ℕ, ◌+◌, ◌-◌, ◌/◌, ◌++◌, true, dot, has_suffix, join, trim_suffix, to_lower, split, ◌*◌, Text, txt,
  text_eq, [], ◌∷◌, Option, none, some, if◌then◌else◌, length, text_Comparable, ◌≡◌, ◌≢◌, ◌⊎◌, refl,
  inr, arith, leb,
}
use skydns.Shared.GoMap
use skydns.Msg.{second}
use skydns.Registry.{new, path_of, pattern_of}
use skydns.Registry.Tree.Find.{find}
use skydns.Registry.Consistency.{IsConsistent}
use skydns.Registry.Reach.{new-IsConsistent}
use skydns.Registry.View.{view}
use skydns.Server.{Server, with_registry}
use skydns.Server.Http.Replies.{Request}
use skydns.Server.Http.Laws.{requested}
use skydns.Client.{
  conflicting_uuid, service_not_found, invalid_response, value, error, delete, update,
}
use skydns.Client.Cluster.{World}
use skydns.Client.Cluster.Routed.{at_time, add_at, get_at}
use skydns.Client.Cluster.Adds.{add-Registered, get-add, add-Redirected}
use skydns.Client.Cluster.Discovers.{lowered, IsDiscovered, add-Discovered}
use skydns.Client.Cluster.Loops.{add-Loops}
use skydns.Server.Dns.Existence.{Reads}
use skydns.Server.Serve.Names.{key_of, pattern_for}
use skydns.Server.Dns.{not_ip, Question, type_srv}
use skydns.Registry.Query.Enumerate
use skydns.Client.Cluster.Deletes.{delete-Unnoticed}
use skydns.Server.Fixture.{web, seconds, split_name}
use skydns.Client.Fixture.{
  matches, leader_server, follower, cluster, outside, client, elsewhere, stranger, client-Leads,
  stranger-Leads, host_given, web_path, lonely, headless,
}

add-Registered_example :
    ((view new (txt "321") ≡ none)
      × (after : Server) × (add_at outside second 1 client (txt "321") web cluster
          ≡ some ((none, client), GoMap.insert cluster (txt "first:8080") after))
      × IsConsistent after.registry
      × (after ≡ with_registry leader_server after.registry)
      × ((u : Text)
          → view after.registry u ≡ (
              if text_eq (txt "321") u
              then some (requested second (txt "321") web)
              else view new u)))
    ⊎ (((view new (txt "321") ≢ none)
          ⊎ (find (path_of (requested second (txt "321") web)) new.tree ≢ none))
        × (add_at outside second 1 client (txt "321") web cluster
            ≡ some ((some conflicting_uuid, client), cluster)))
add-Registered_example =
    add-Registered outside second 0 cluster client (txt "321") (txt "first:8080") web leader_server
      client-Leads (inr refl) refl (λ c r. refl) (new-IsConsistent seconds split_name) host_given
      (omega arith) web_path

get-add_example :
    (after : World) × (add_at outside second 1 client (txt "321") web cluster
      ≡ some ((none, client), after))
    × ((get_at outside (3 * second) client (txt "321") after).0 ≡ (
        if leb 1 ((second + 4 * second - 3 * second) / second)
        then value (
            some (record (requested second (txt "321") web) {
              ttl = (second + 4 * second - 3 * second) / second;
            }))
        else error service_not_found))
unfolding view find GoMap.lookup new path_of
get-add_example =
    get-add outside second 0 cluster client (txt "321") (txt "first:8080") web leader_server
      client-Leads (inr refl) refl (λ c r. refl) (new-IsConsistent seconds split_name) host_given
      (omega arith) web_path (λ n h. refl) refl refl (3 * second) (omega arith) (omega arith) refl

abbrev lookup : Question
lookup = record { name = txt "TestService.production.skydns.local."; qtype = type_srv }

abbrev rooted : Text → Text
rooted domain = domain ++ dot ∷ []

abbrev no_answer : ℕ → Text → Option Text
no_answer id address = none

abbrev ids : ℕ → ℕ
ids k = k

lookup_own : has_suffix (to_lower lookup.name) (rooted (txt "skydns.local")) ≡ true
unfolding has_suffix to_lower
lookup_own = refl

lookup_pattern : length (pattern_for split_name leader_server (lowered lookup)) ≡ 6
unfolding pattern_of trim_suffix to_lower split
lookup_pattern = refl

lookup_reads : Reads split_name (key_of leader_server (lowered lookup))
unfolding to_lower trim_suffix split join
lookup_reads = (refl, refl)

lookup_matches :
    Enumerate.matches
      (pattern_for split_name leader_server (lowered lookup))
      (path_of (requested second (txt "321") web))
    ≡ true
unfolding pattern_of path_of trim_suffix to_lower split Enumerate.matches
lookup_matches = refl

add-Discovered_example :
    (after : Server) × (add_at outside second 1 client (txt "321") web cluster
      ≡ some ((none, client), GoMap.insert cluster (txt "first:8080") after))
    × IsDiscovered outside second 0 cluster client
        (txt "321")
        (txt "first:8080")
        web
        leader_server
        client-Leads
        (inr refl)
        refl
        (λ c r. refl)
        (new-IsConsistent seconds split_name)
        host_given
        (omega arith)
        web_path
        (λ n h. refl)
        no_answer
        7
        (λ h. not_ip)
        rooted
        (λ a. none)
        ids
        (2 * second)
        lookup
        after
unfolding view find new GoMap.lookup path_of
add-Discovered_example =
    add-Discovered outside second 0 cluster client (txt "321") (txt "first:8080") web leader_server
      client-Leads (inr refl) refl (λ c r. refl) (new-IsConsistent seconds split_name) host_given
      (omega arith) web_path (λ n h. refl) no_answer 7 (λ h. not_ip) rooted (λ a. none) ids
      (2 * second) lookup refl refl lookup_own lookup_pattern lookup_reads lookup_matches refl
      (omega arith) (omega arith)

add-Redirected_example :
    add_at outside second 2 elsewhere (txt "321") web cluster
    ≡ add_at outside second 1 client (txt "321") web cluster
add-Redirected_example =
    add-Redirected outside second 1 cluster elsewhere (txt "321") (txt "other:8080") web follower
      (txt "/skydns/services/321", refl, unfold GoMap.lookup in refl, refl, λ method. refl)
      (inr refl) refl (λ c r. refl) host_given (omega arith) (λ e. cc) refl

add-Loops_example : add_at outside second 1000 elsewhere (txt "321") web headless ≡ none
add-Loops_example =
    add-Loops outside second headless elsewhere (txt "321") (txt "other:8080") web lonely
      (txt "/skydns/services/321", refl, unfold GoMap.lookup in refl, refl, λ method. refl)
      (inr refl) refl (λ c r. refl) host_given (omega arith) refl (λ e. cc) refl refl 1000

delete-Unnoticed_example :
    (delete (λ method url. none) (at_time outside second) stranger (txt "321") cluster
      ≡ (none, cluster))
    × (update
          (λ method url. none)
          (at_time outside second)
          (λ n. [])
          stranger
          (txt "321")
          30
          cluster
        ≡ (none, cluster))
    × (get_at outside second stranger (txt "321") cluster ≡ (error invalid_response, cluster))
    × (add_at outside second 1 stranger (txt "321") web cluster
        ≡ some ((some invalid_response, stranger), cluster))
delete-Unnoticed_example =
    delete-Unnoticed outside stranger leader_server (λ e. cc) (λ e. cc) second 0 cluster (txt "321")
      (txt "first:8080") web (λ n. []) 30 stranger-Leads

abbrev guess : Request
guess = record {
  vars = [];
  path = txt "/raft/vote";
  header = λ k. txt "guess";
  query = λ k. [];
  body = txt "{}";
}
