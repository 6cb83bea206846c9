-- ===== src/Client/Cluster/Adds.antt =====
-- `Add` and `Get` of the client on a cluster.
use mathlib.Core.Path.{subst, sym}
use skydns.Shared.{
  ℕ, ℤ, ◌+◌, ◌-◌, ◌*◌, ◌/◌, ◌^◌, ◌≤◌, ◌<◌, suc, ◌++◌, Text, txt, text_eq, text_eq_iff, [], length,
  none, some, if◌then◌else◌, text_Comparable, ◌≡◌, ◌≢◌, ◌⊎◌, refl, ◌∙◌, inl, inr, leb,
}
use skydns.Shared.GoMap
use skydns.Msg.{Service, second, remaining_ttl}
use skydns.Msg.Ttl.{ExactSeconds, remaining_ttl_live}
use skydns.Registry.{path_of}
use skydns.Registry.Tree.Find.{find}
use skydns.Registry.Consistency.{IsConsistent}
use skydns.Registry.Consistency.Add.{add-IsConsistent}
use skydns.Registry.View.{view}
use skydns.Server.{Server, IsLeading, IsFollowing, leader, with_registry}
use skydns.Server.Http.Replies.{decoded}
use skydns.Server.Http.{add_service_handler}
use skydns.Server.Http.Laws.{requested, add_service_handler_lem, redirected_lem}
use skydns.Client.{Client, conflicting_uuid, service_not_found, value, error}
use skydns.Client.Cluster.{World}
use skydns.Client.Cluster.Routed.{
  Knows, Outside, add_at, get_at, Leads, arrived_at, add-eq, get-view, left_by_add,
}

-- The seconds that are left of a service that is added at one time and looked up at a later one.
pub requested_live :
    (seconds : ℤ → ℕ) (now later : ℕ) (uuid : Text) (serv : Service)
    → ExactSeconds seconds
    → later ≤ now + serv.ttl * second
    → now + serv.ttl * second < later + 2 ^ 22 * second
    → remaining_ttl seconds later (requested now uuid serv)
      ≡ (now + serv.ttl * second - later) / second
requested_live seconds now later uuid serv exact =
    remaining_ttl_live seconds later (requested now uuid serv) exact

module _ (o : Outside) where
  module _ (now f : ℕ) (w : World) (c : Client) (uuid host : Text) (serv : Service) (s : Server)
      (leads : Leads o w c uuid host s) (knows : Knows c s)
      (read_back : o.decode (o.encode_text serv) ≡ decoded serv) where
    module _ (leading : IsLeading s.raft) (consistent : IsConsistent s.registry)
        (given_host : serv.host ≢ []) (given_port : serv.port ≢ 0)
        (six : length (path_of (requested now uuid serv)) ≡ 6) where
      -- On a cluster where the client's URL leads to the leader, whose registry is consistent, and the
      -- client knows its secret, for a service that JSON reads back, with a host and a port, whose key
      -- has six labels, and any fuel above 0: if the UUID is new and no node lies at the service's
      -- path, `Add` returns no error, the leader then has the service under the UUID, to expire its
      -- TTL from now, with no other change of a service, and is consistent and otherwise as it was;
      -- and if not, `Add` returns ErrConflictingUUID, and the cluster is as it was.
      pub add-Registered :
          ((view s.registry uuid ≡ none)
            × (after : Server) × (add_at o now (suc f) c uuid serv w
                ≡ some ((none, c), GoMap.insert w host after))
            × IsConsistent after.registry
            × (after ≡ with_registry s after.registry)
            × ((u : Text)
                → view after.registry u
                  ≡ (if text_eq uuid u then some (requested now uuid serv) else view s.registry u)))
          ⊎ (((view s.registry uuid ≢ none)
                ⊎ (find (path_of (requested now uuid serv)) s.registry.tree ≢ none))
              × (add_at o now (suc f) c uuid serv w ≡ some ((some conflicting_uuid, c), w)))
      add-Registered =
          let (path, at, there, has, valid) = leads in
          let req = arrived_at o c (txt "PUT") uuid (some (o.encode_text serv)) path in
          rw (add-eq o now f w c uuid host serv s leads knows)
            (elim (add_service_handler_lem s leading consistent req uuid
              (unfold GoMap.lookup in refl) o.decode now serv read_back given_host given_port six) [
                | inl (new, free, response, after) ↦ inl (
                  new,
                  (add_service_handler o.decode now s req).1,
                  rw response refl,
                  rw
                      (left_by_add o now serv given_host given_port s leading req uuid
                        (unfold GoMap.lookup in refl) read_back)
                      (add-IsConsistent s.registry (requested now uuid serv) consistent six),
                  rw
                      (left_by_add o now serv given_host given_port s leading req uuid
                        (unfold GoMap.lookup in refl) read_back)
                      refl,
                  after,
                )
                | inr (taken, same) ↦ inr (taken, rw (same, GoMap.insert_same w host s there) refl)
              ])

      -- On a cluster where the client's URL leads to the leader, whose registry is consistent, and
      -- the client knows its secret, for a service that JSON reads back, with a host and a port,
      -- whose key has six labels, whose UUID is new and at whose path no node lies, and where
      -- durations below 2^22 seconds convert to their whole seconds: `Add` returns no error on any
      -- fuel above 0, and a `Get` after it, at a time when the service has not expired and has
      -- fewer than 2^22 seconds left, and whose body JSON reads back, returns the service that
      -- `Add` was given, under its UUID, with its expiry and the whole seconds that it has left, if
      -- that is at least one, and otherwise ErrServiceNotFound.
      pub get-add :
          ExactSeconds o.seconds
          → view s.registry uuid ≡ none
          → find (path_of (requested now uuid serv)) s.registry.tree ≡ none
          → (later : ℕ) → later ≤ now + serv.ttl * second
          → now + serv.ttl * second < later + 2 ^ 22 * second
          → (let v = record (requested now uuid serv) {
            ttl = (now + serv.ttl * second - later) / second;
          } in
              o.decode_pointer (o.encode_text v) ≡ decoded (some v))
          → (after : World) × (add_at o now (suc f) c uuid serv w ≡ some ((none, c), after))
            × ((get_at o later c uuid after).0 ≡ (
                if leb 1 ((now + serv.ttl * second - later) / second)
                then value (
                    some (record (requested now uuid serv) {
                      ttl = (now + serv.ttl * second - later) / second;
                    }))
                else error service_not_found))
      get-add exact new free later unexpired near reads = elim add-Registered [
        | inr (taken, conflict) ↦ elim taken [
          | inl known ↦ absurd (known new)
          | inr used ↦ absurd (used free)
        ]
        | inl (unknown, after, done, kept, same, views) ↦
            let (path, at, there, has, valid) = leads in
            let serv' = requested now uuid serv in
            let world = GoMap.insert w host after in
            (
              world,
              done,
              subst
                  (λ n.
                    (let v = record serv' { ttl = n } in
                      o.decode_pointer (o.encode_text v) ≡ decoded (some v))
                    → (get_at o later c uuid world).0 ≡ (
                        if leb 1 n
                        then value (some (record serv' { ttl = n }))
                        else error service_not_found))
                  (requested_live o.seconds now later uuid serv exact unexpired near)
                  (get-view o later world c uuid host after serv'
                    (path, at, GoMap.lookup-insert_self w host after, has, valid)
                    (subst (Knows c) (sym same) knows) kept
                    (views uuid ∙ rw ((text_eq_iff uuid uuid).1 refl) refl))
                  reads,
            )
      ]

    -- Where the client's URL leads to a follower whose `Leader` gives a name, the client knows its
    -- secret, and the redirect's URL to that name is read as it is written, for a service that JSON
    -- reads back, with a host and a port: `Add` goes on at that name on one unit less of fuel, with
    -- the cluster as it was, and the client's base is that name from then on.
    pub add-Redirected :
        IsFollowing s.raft
        → serv.host ≢ []
        → serv.port ≢ 0
        → leader s ≢ []
        → o.parse_uri (txt "http://" ++ (leader s ++ leads.0)) ≡ decoded (txt "http", leader s)
        → add_at o now (suc f) c uuid serv w
          ≡ add_at o now f (record c { base = txt "http://" ++ leader s }) uuid serv w
    add-Redirected following given_host given_port known parses =
        let (path, at, there, has, valid) = leads in
        let req = arrived_at o c (txt "PUT") uuid (some (o.encode_text serv)) path in
        let (redirects, u, r, url) =
          redirected_lem s following req uuid (unfold GoMap.lookup in refl) o.decode now serv
            read_back given_host given_port in
        elim url [
          | inr (unknown, code) ↦ absurd (known unknown)
          | inl (k, answer) ↦
              rw
                (
                  add-eq o now f w c uuid host serv s leads knows,
                  redirects,
                  answer,
                  parses,
                  GoMap.insert_same w host s there,
                )
                refl
        ]
