-- ===== src/Registry/Tests.antt =====
-- The registry at concrete inputs, and the theorems applied to them.
use skydns.Shared.{
  ℕ, ◌+◌, ◌-◌, ◌/◌, ◌%◌, ◌^◌, ℤ, pos, negsuc, Text, txt, List, [], ◌∷◌, ◌++◌, none, some, length,
  text_eq, text_Comparable, split, to_lower, trim_suffix, if◌then◌else◌, ◌≡◌, ◌≢◌, ◌⊎◌, refl, arith,
  map, reverse,
}
use skydns.Shared.GoMap
use skydns.Msg.{Service, Callback, zero_service, second, remaining_ttl}
use skydns.Msg
use skydns.Registry.Tree.{Node, Cells, Result, ok, err, exists, not_exists}
use skydns.Registry.Tree
use skydns.Registry.Nsec.{DenialReference, add_nsec, remove_nsec, dotted}
use skydns.Registry.Nsec
use skydns.Registry.Query
use skydns.Registry.{
  Registry, new, get_registry_key, path_of, pattern_of, add, remove_uuid, remove_service,
  update_ttl, add_callback, get_uuid, get, get_expired, len, callbacks,
}
use skydns.Registry.Key.{length-path_of}
use skydns.Registry.Lookup.{Answer, get-Answer}
use skydns.Registry.Tree.Find.{find}
use skydns.Registry.View.{view, add-view, remove_uuid-view, update_ttl-view}
use skydns.Registry.Consistency.{IsConsistent}
use skydns.Registry.Reach.{Reach, start, next, adds, Reach-IsConsistent}

abbrev web : Service
web = record zero_service {
  uuid = txt "123";
  name = txt "TestService";
  version = txt "1.0.0";
  region = txt "Test";
  host = txt "localhost";
  environment = txt "Production";
  port = 9000;
  ttl = 4;
  expires = 5_000_000_000;
}

abbrev second_web : Service
second_web = record web { uuid = txt "321"; version = txt "1.0.1"; port = 9001 }

registry : Unit {0}
unfolding path_of pattern_of add remove_uuid remove_service update_ttl add_callback get_uuid get
    get_expired len new Tree.add Tree.remove Query.get Nsec.add_nsec Nsec.remove_nsec
    Msg.remaining_ttl Msg.update_ttl GoMap.insert GoMap.lookup GoMap.delete to_lower split
    trim_suffix
registry = tt

-- `uint32(d.Seconds())` on amd64, and `dns.SplitDomainName` of a name with no escapes.
abbrev seconds : ℤ → ℕ
seconds (pos n) = n / second
seconds (negsuc n) = (2 ^ 32 - (n + 1) / second) % 2 ^ 32

abbrev labels : Text → List Text
labels [] = []
labels (c ∷ s) = split (c ∷ s)

web_key : get_registry_key web ≡ txt "123.localhost.test.1-0-0.testservice.production"
unfolding get_registry_key
web_key = refl

abbrev two : Registry
two = (add (add new web).1 second_web).1

two-len : len two ≡ pos 2
unfolding registry
two-len = refl

abbrev names : Result (List Service) → List Text
names (ok l) = map (λ s. s.uuid) l
names (err e) = []

implicit_wildcards :
    names (get seconds 0 labels two (txt "testservice.production.")).0 ≡ txt "123" ∷ txt "321" ∷ []
unfolding registry
implicit_wildcards = refl

any_case :
    names (get seconds 0 labels two (txt "123.localhost.Test.1-0-0.TestService.production")).0
    ≡ txt "123" ∷ []
unfolding registry
any_case = refl

web_path : length (path_of web) ≡ 6
web_path = length-path_of web (omega arith)

second_path : length (path_of second_web) ≡ 6
second_path = length-path_of second_web (omega arith)

two_reached : Reach seconds labels two
two_reached = next (next start (adds web web_path)) (adds second_web second_path)

two-IsConsistent : IsConsistent two
two-IsConsistent = Reach-IsConsistent seconds labels two_reached

Reach-IsConsistent_example : IsConsistent two
Reach-IsConsistent_example = Reach-IsConsistent seconds labels two_reached

abbrev asked : Text
asked = txt "testservice.production."

asked_pattern : length (reverse (pattern_of labels asked)) ≡ 6
unfolding registry
asked_pattern = refl

get-Answer_example :
    Answer seconds 0 two (reverse (pattern_of labels asked)) (get seconds 0 labels two asked).0
get-Answer_example = get-Answer seconds 0 two two-IsConsistent labels asked asked_pattern

add-view_example :
    ((view two web.uuid ≡ none)
      × (find (path_of web) two.tree ≡ none)
      × ((add two web).0 ≡ ok tt)
      × ((u : Text)
          → view (add two web).1 u ≡ (if text_eq web.uuid u then some web else view two u)))
    ⊎ (((view two web.uuid ≢ none) ⊎ (find (path_of web) two.tree ≢ none))
        × (add two web ≡ (err exists, two)))
add-view_example = add-view two two-IsConsistent web web_path

remove_uuid-view_example :
    ((s : Service) × (view two web.uuid ≡ some s)
      × ((remove_uuid two web.uuid).0 ≡ ok tt)
      × ((u : Text)
          → view (remove_uuid two web.uuid).1 u ≡ (if text_eq web.uuid u then none else view two u))
      × ((remove_uuid two web.uuid).1.calls
          ≡ two.calls ++ map (λ k. (k.1, s)) (callbacks s.callback)))
    ⊎ ((view two web.uuid ≡ none) × (remove_uuid two web.uuid ≡ (err not_exists, two)))
remove_uuid-view_example = remove_uuid-view two two-IsConsistent web.uuid

update_ttl-view_example :
    ((s : Service) × (view two web.uuid ≡ some s)
      × ((update_ttl two web.uuid 9 7).0 ≡ ok tt)
      × ((u : Text)
          → view (update_ttl two web.uuid 9 7).1 u ≡ (
              if text_eq web.uuid u then some (record s { ttl = 9; expires = 7 }) else view two u)))
    ⊎ ((view two web.uuid ≡ none) × (update_ttl two web.uuid 9 7 ≡ (err not_exists, two)))
update_ttl-view_example = update_ttl-view two two-IsConsistent web.uuid 9 7

abbrev caller : Callback
caller = record {
  uuid = txt "9";
  name = [];
  version = [];
  environment = [];
  region = [];
  host = [];
  reply = txt "web2.example.nl";
  port = 5441;
}
