-- ===== src/Client/Cluster/Routed.antt =====
-- Requests of the client on a cluster, up to the handler that they are given to.
use mathlib.Core.Path.{subst}
use skydns.Shared.{
  ℕ, suc, ℤ, Text, txt, text_eq, nat_eq, text_eq_iff, nat_eq_iff, false, List, [], ◌∷◌, Option,
  none, some, if◌then◌else◌, text_Comparable, ◌≡◌, ◌≢◌, ◌⊎◌, refl, sym, ◌∙◌, inl, inr, arith,
  Bool-cases, leb,
}
use skydns.Shared.GoMap
use skydns.Msg.{Service, Callback, remaining_ttl}
use skydns.Registry.{path_of}
use skydns.Registry
use skydns.Registry.Tree.{not_exists}
use skydns.Registry.Consistency.{IsConsistent}
use skydns.Registry.View.{view}
use skydns.Server.{Server, IsLeading, with_registry}
use skydns.Server.Commands.{Command}
use skydns.Server.Http.Replies.{
  Request, http_error, wrote_service, message, Decoded, decoded, Handler,
}
use skydns.Server.Http.{add_service_handler, get_service_handler, auth_http_wrapper}
use skydns.Server.Http.Laws.{
  IsAuthorized, requested, auth_http_wrapper_lem, get_service_handler_lem,
}
use skydns.Server.Routes.{Route, running_routes, serve_http, find_route}
use skydns.Client.{
  handled, added, Sent, Client, ClientRequest, ClientError, service_not_found, Returned, value,
  error, join_url, add, get,
}
use skydns.Client.Cluster.{World, served, cluster_do, arrived}

-- The client has the secret of the server, if the server has one.
abbrev pub Knows : Client → Server → Type 0
Knows c s = (s.secret ≡ []) ⊎ (c.secret ≡ s.secret)

pub authorized_runs :
    (handler : Handler) (s : Server) (req : Request)
    → IsAuthorized s req
    → auth_http_wrapper handler s req ≡ handler s req
authorized_runs handler s req given = elim (auth_http_wrapper_lem handler s req) [
  | inl (given, same) ↦ same
  | inr (closed, other, refused) ↦ elim given [
    | inl public ↦ absurd (closed public)
    | inr known ↦ absurd (other known)
  ]
]

some-none : {t : Service} → some t ≢ none
some-none e = cc

some_same : {t u : Service} → some t ≡ some u → t ≡ u
some_same e = cc

-- What the libraries do: the JSON of the server and of the client, the routes' parameters, and URLs.
pub record Outside : Type 0 where
  pub encode_text : Service → Text
  pub encode_list : List Service → Text
  pub encode_counts : List (Text × ℕ) → Text
  pub matches : Text → Text → Option (List (Text × Text))
  pub decode : Text → Decoded Service
  pub decode_callback : Text → Decoded Callback
  pub join : Handler
  pub installed : List (Text × Handler)
  pub seconds : ℤ → ℕ
  pub split_domain_name : Text → List Text
  pub split_url : Text → Option (Text × Text)
  pub request_error : Text → Text → Option Text
  pub parse_uri : Text → Decoded (Text × Text)
  pub decode_pointer : Text → Decoded (Option Service)

module _ (o : Outside) where
  -- The cluster when the clocks read `now`.
  abbrev pub at_time : ℕ → World → ClientRequest → Sent × World
  at_time now =
      cluster_do o.encode_text o.encode_list o.encode_counts o.matches
        (running_routes o.decode o.decode_callback o.join o.seconds o.split_domain_name now
          o.installed)
        o.split_url

  abbrev pub add_at :
      ℕ → ℕ → Client → Text → Service → World → Option ((Option ClientError × Client) × World)
  add_at now = add o.request_error (at_time now) (λ s. decoded (o.encode_text s)) o.parse_uri

  abbrev pub get_at : ℕ → Client → Text → World → Returned (Option Service) × World
  get_at now = get o.request_error (at_time now) o.decode_pointer

  -- A URL of a service leads to a server, whose router finds the UUID in its path; and the library
  -- makes the request.
  abbrev pub Leads : World → Client → Text → Text → Server → Type 0
  Leads w c uuid host s =
      (path : Text) × (o.split_url (join_url c uuid) ≡ some (host, path))
      × (GoMap.lookup w host ≡ some s)
      × (o.matches (txt "/skydns/services/{uuid}") path ≡ some ((txt "uuid", uuid) ∷ []))
      × ((method : Text) → o.request_error method (join_url c uuid) ≡ none)

  abbrev pub services_routes : ℕ → List Route
  services_routes now =
      running_routes o.decode o.decode_callback o.join o.seconds o.split_domain_name now o.installed

  -- The request as the handler of a route for services sees it.
  abbrev pub arrived_at : Client → Text → Text → Option Text → Text → Request
  arrived_at c method uuid body path =
      record (arrived
        (record {
          method = method;
          url = join_url c uuid;
          body = body;
          authorization = if text_eq c.secret [] then none else some c.secret;
        })
        path) { vars = (txt "uuid", uuid) ∷ [] }

  pub authorized :
      (c : Client) (s : Server) (method uuid : Text) (body : Option Text) (path : Text)
      → Knows c s
      → IsAuthorized s (arrived_at c method uuid body path)
  authorized c s method uuid body path (inl public) = inl public
  authorized c s method uuid body path (inr same) = elim (Bool-cases (text_eq c.secret [])) [
    | inl none_set ↦ inl (sym same ∙ (text_eq_iff c.secret []).0 none_set)
    | inr set ↦ inr (rw set same)
  ]

  pub routed_put :
      (now : ℕ) (s : Server) (c : Client) (uuid : Text) (body : Option Text) (path : Text)
      → o.matches (txt "/skydns/services/{uuid}") path ≡ some ((txt "uuid", uuid) ∷ [])
      → Knows c s
      → serve_http o.matches
          (services_routes now)
          (txt "PUT")
          s
          (record (arrived_at c (txt "PUT") uuid body path) { vars = [] })
        ≡ add_service_handler o.decode now s (arrived_at c (txt "PUT") uuid body path)
  unfolding find_route
  routed_put now s c uuid body path has knows = rw has (
      authorized_runs (add_service_handler o.decode now) s (arrived_at c (txt "PUT") uuid body path)
        (authorized c s (txt "PUT") uuid body path knows))

  pub routed_get :
      (now : ℕ) (s : Server) (c : Client) (uuid : Text) (body : Option Text) (path : Text)
      → o.matches (txt "/skydns/services/{uuid}") path ≡ some ((txt "uuid", uuid) ∷ [])
      → Knows c s
      → serve_http o.matches
          (services_routes now)
          (txt "GET")
          s
          (record (arrived_at c (txt "GET") uuid body path) { vars = [] })
        ≡ get_service_handler o.seconds now s (arrived_at c (txt "GET") uuid body path)
  unfolding find_route
  routed_get now s c uuid body path has knows = rw has (
      authorized_runs (get_service_handler o.seconds now) s
        (arrived_at c (txt "GET") uuid body path) (authorized c s (txt "GET") uuid body path knows))

  -- What `Add` makes of the answer of the server that the URL leads to.
  pub add-eq :
      (now f : ℕ) (w : World) (c : Client) (uuid host : Text) (serv : Service) (s : Server)
      (leads : Leads w c uuid host s)
      → Knows c s
      → add_at now (suc f) c uuid serv w
        ≡ handled o.request_error
            (at_time now)
            (λ e after. some ((some e, c), after))
            (added o.request_error
              (at_time now)
              (λ v. decoded (o.encode_text v))
              o.parse_uri
              (λ moved after. add_at now f moved uuid serv after)
              c)
            (served o.encode_text o.encode_list o.encode_counts o.matches
              (services_routes now)
              w
              host
              (add_service_handler o.decode now s
                (arrived_at c (txt "PUT") uuid (some (o.encode_text serv)) leads.0)))
  unfolding add
  add-eq now f w c uuid host serv s (path, leads, there, has, valid) knows =
      rw
        (
          valid (txt "PUT"),
          leads,
          there,
          routed_put now s c uuid (some (o.encode_text serv)) path has knows,
        )
        refl

  -- `Get` of a registered service.
  pub get-view :
      (later : ℕ) (w : World) (c : Client) (uuid host : Text) (s : Server) (t : Service)
      → Leads w c uuid host s
      → Knows c s
      → IsConsistent s.registry
      → view s.registry uuid ≡ some t
      → (let v = record t { ttl = remaining_ttl o.seconds later t } in
          o.decode_pointer (o.encode_text v) ≡ decoded (some v))
      → (get_at later c uuid w).0 ≡ (
          if leb 1 (remaining_ttl o.seconds later t)
          then value (some (record t { ttl = remaining_ttl o.seconds later t }))
          else error service_not_found)
  get-view later w c uuid host s t (path, leads, there, has, valid) knows consistent known reads =
      let req = arrived_at c (txt "GET") uuid none path in
      let left = remaining_ttl o.seconds later t in
      rw (valid (txt "GET"), leads, there, routed_get later s c uuid none path has knows)
        (elim (get_service_handler_lem s consistent req uuid (unfold GoMap.lookup in refl) o.seconds
          later) [
            | inr (unknown, same) ↦ absurd (some-none (sym known ∙ unknown))
            | inl (u, held, response) ↦
                let same : u ≡ t = some_same (sym held ∙ known) in
                let result =
                  subst
                    (λ v. (get_service_handler o.seconds later s req).0 ≡ (
                      if leb 1 (remaining_ttl o.seconds later v)
                      then wrote_service (record v { ttl = remaining_ttl o.seconds later v })
                      else http_error (message not_exists) 404))
                    same response in
                rw result (elim (Bool-cases (leb 1 left)) [
                  | inl alive ↦ rw (alive, reads) refl
                  | inr gone ↦ rw gone refl
                ])
          ])

  pub left_by_add :
      (now : ℕ) (serv : Service)
      → serv.host ≢ []
      → serv.port ≢ 0
      → (s : Server) → IsLeading s.raft
      → (req : Request) (uuid : Text) → GoMap.lookup req.vars (txt "uuid") ≡ some uuid
      → o.decode req.body ≡ decoded serv
      → (add_service_handler o.decode now s req).1
        ≡ with_registry s (Registry.add s.registry (requested now uuid serv)).1
  unfolding add_service_handler
  left_by_add now serv host port s leading req uuid routed body =
      let host_given : text_eq serv.host [] ≡ false = ground (arith, text_eq_iff serv.host []) in
      let port_given : nat_eq serv.port 0 ≡ false = ground (arith, nat_eq_iff serv.port 0) in
      rw
        (
          routed,
          body,
          host_given,
          port_given,
          leading (Command.add_service (requested now uuid serv)) s.registry,
        )
        refl
