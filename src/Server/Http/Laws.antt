-- ===== src/Server/Http/Laws.antt =====
-- The HTTP handlers against the services that the registry holds, from the request to the response.
use skydns.Shared.{
  ℕ, ℤ, Text, txt, text_eq, text_eq_iff, nat_eq, nat_eq_iff, false, ◌||◌, [], none, some, length,
  if◌then◌else◌, text_Comparable, ◌≡◌, ◌≢◌, ◌⊎◌, refl, arith, Bool-cases, Option-cases, inl, inr,
  leb, ◌++◌,
}
use skydns.Shared.GoMap
use skydns.Msg.{Service, remaining_ttl}
use skydns.Registry.Tree.{exists, not_exists}
use skydns.Registry.Tree.Find.{find}
use skydns.Registry.{path_of}
use skydns.Registry.Consistency.{IsConsistent}
use skydns.Registry.View.{view, add-view, remove_uuid-view, update_ttl-view, get_uuid-view}
use skydns.Server.Commands.{Command, get_expiration_time}
use skydns.Server.{IsLeading, IsFollowing, Server, leader}
use skydns.Server.Http.Replies.{
  Request, http_error, redirected, wrote_header, wrote_service, status, Handler, Decoded, decoded,
  malformed, message, redirect_to_leader,
}
use skydns.Server.Http.{
  add_service_handler, update_service_handler, remove_service_handler, get_service_handler,
  auth_http_wrapper,
}

-- A request is given the secret of the server, if the server has one.
abbrev pub IsAuthorized : Server → Request → Type 0
IsAuthorized s req = (s.secret ≡ []) ⊎ (req.header (txt "Authorization") ≡ s.secret)

-- A wrapped handler runs exactly for the requests that are authorized; any other is answered with
-- 401, and the server is as it was.
pub auth_http_wrapper_lem :
    (handler : Handler) (s : Server) (req : Request)
    → (IsAuthorized s req × (auth_http_wrapper handler s req ≡ handler s req))
      ⊎ ((s.secret ≢ [])
          × (req.header (txt "Authorization") ≢ s.secret)
          × (auth_http_wrapper handler s req ≡ (http_error (txt "Unauthorized") 401, s)))
auth_http_wrapper_lem handler s req = elim (Bool-cases (text_eq s.secret [])) [
  | inl public ↦ inl (inl ((text_eq_iff s.secret []).0 public), rw public refl)
  | inr closed ↦ elim (Bool-cases (text_eq (req.header (txt "Authorization")) s.secret)) [
    | inl same ↦ inl (
      inr ((text_eq_iff (req.header (txt "Authorization")) s.secret).0 same),
      rw (closed, same) refl,
    )
    | inr other ↦ inr (
      λ e. cc ((text_eq_iff s.secret []).1 e),
      λ e. cc ((text_eq_iff (req.header (txt "Authorization")) s.secret).1 e),
      rw (closed, other) refl,
    )
  ]
]

-- The service that a request adds: with the UUID of the route, and the expiry that its TTL gives.
abbrev pub requested : ℕ → Text → Service → Service
requested now uuid serv = record serv { uuid = uuid; expires = get_expiration_time now serv.ttl }

module _ (s : Server) (leading : IsLeading s.raft) (c : IsConsistent s.registry) (req : Request)
    (uuid : Text) (routed : GoMap.lookup req.vars (txt "uuid") ≡ some uuid) where
  -- On a leader whose registry is consistent, for a route with a UUID: a DELETE of a registered
  -- service answers 200 and takes that service away and no other; any other UUID is answered with
  -- 404, and the server is as it was.
  pub remove_service_handler_lem :
      ((view s.registry uuid ≢ none)
        × (status (remove_service_handler s req).0 ≡ some 200)
        × ((u : Text)
            → view (remove_service_handler s req).1.registry u
              ≡ (if text_eq uuid u then none else view s.registry u)))
      ⊎ ((view s.registry uuid ≡ none)
          × (remove_service_handler s req ≡ (http_error (message not_exists) 404, s)))
  unfolding remove_service_handler
  remove_service_handler_lem =
      rw (routed, leading (Command.remove_service uuid) s.registry)
        (elim (remove_uuid-view s.registry c uuid) [
          | inl (t, known, done, after, called) ↦ inl (λ e. cc, rw done refl, after)
          | inr (unknown, same) ↦ inr (unknown, rw same refl)
        ])

  -- On a leader whose registry is consistent, for a route with a UUID and a body that decodes: an
  -- update of a registered service answers 200, and writes the TTL of the body and the expiry that
  -- it gives from now to that service alone; any other UUID is answered with 404, and the server is
  -- as it was.
  pub update_service_handler_lem :
      (decode : Text → Decoded Service) (now : ℕ) (serv : Service)
      → decode req.body ≡ decoded serv
      → ((t : Service) × (view s.registry uuid ≡ some t)
          × (status (update_service_handler decode now s req).0 ≡ some 200)
          × ((u : Text)
              → view (update_service_handler decode now s req).1.registry u ≡ (
                  if text_eq uuid u
                  then some
                      (record t { ttl = serv.ttl; expires = get_expiration_time now serv.ttl })
                  else view s.registry u)))
        ⊎ ((view s.registry uuid ≡ none)
            × (update_service_handler decode now s req ≡ (http_error (message not_exists) 404, s)))
  unfolding update_service_handler
  update_service_handler_lem decode now serv body =
      let expires = get_expiration_time now serv.ttl in
      rw (routed, body, leading (Command.update_ttl uuid serv.ttl expires) s.registry)
        (elim (update_ttl-view s.registry c uuid serv.ttl expires) [
          | inl (t, known, done, after) ↦ inl (t, known, rw done refl, after)
          | inr (unknown, same) ↦ inr (unknown, rw same refl)
        ])

  -- On a leader whose registry is consistent, for a route with a UUID and a body that decodes to a
  -- service with a host and a port, whose key has six labels: the request answers 201 exactly when
  -- the UUID is new and no node lies at the service's path, and then adds the service under the UUID
  -- of the route, to expire its TTL from now, and changes no other; otherwise it answers 409, and
  -- the server is as it was.
  pub add_service_handler_lem :
      (decode : Text → Decoded Service) (now : ℕ) (serv : Service)
      → decode req.body ≡ decoded serv
      → serv.host ≢ []
      → serv.port ≢ 0
      → length (path_of (requested now uuid serv)) ≡ 6
      → ((view s.registry uuid ≡ none)
          × (find (path_of (requested now uuid serv)) s.registry.tree ≡ none)
          × ((add_service_handler decode now s req).0 ≡ wrote_header 201)
          × ((u : Text)
              → view (add_service_handler decode now s req).1.registry u
                ≡ (if text_eq uuid u then some (requested now uuid serv) else view s.registry u)))
        ⊎ (((view s.registry uuid ≢ none)
              ⊎ (find (path_of (requested now uuid serv)) s.registry.tree ≢ none))
            × (add_service_handler decode now s req ≡ (http_error (message exists) 409, s)))
  unfolding add_service_handler
  add_service_handler_lem decode now serv body host port six =
      let host_given : text_eq serv.host [] ≡ false = ground (arith, text_eq_iff serv.host []) in
      let port_given : nat_eq serv.port 0 ≡ false = ground (arith, nat_eq_iff serv.port 0) in
      rw
        (
          routed,
          body,
          host_given,
          port_given,
          leading (Command.add_service (requested now uuid serv)) s.registry,
        )
        (elim (add-view s.registry c (requested now uuid serv) six) [
          | inl (new, free, done, after) ↦ inl (new, free, rw done refl, after)
          | inr (taken, same) ↦ inr (taken, rw same refl)
        ])

-- For a route with a UUID, a GET on a server whose registry is consistent, be it the leader or
-- not, answers with the service and its `RemainingTTL`, if the UUID is registered and that is at
-- least 1, and otherwise with 404.
pub get_service_handler_lem :
    (s : Server)
    → IsConsistent s.registry
    → (req : Request) (uuid : Text) → GoMap.lookup req.vars (txt "uuid") ≡ some uuid
    → (seconds : ℤ → ℕ) (now : ℕ)
    → ((t : Service) × (view s.registry uuid ≡ some t)
        × ((get_service_handler seconds now s req).0 ≡ (
            if leb 1 (remaining_ttl seconds now t)
            then wrote_service (record t { ttl = remaining_ttl seconds now t })
            else http_error (message not_exists) 404)))
      ⊎ ((view s.registry uuid ≡ none)
          × (get_service_handler seconds now s req ≡ (http_error (message not_exists) 404, s)))
unfolding get_service_handler
get_service_handler_lem s c req uuid routed seconds now =
    rw routed (elim (get_uuid-view s.registry c seconds now uuid) [
      | inl (t, known, result, after) ↦ inl (
        t,
        known,
        rw result (elim (Bool-cases (leb 1 (remaining_ttl seconds now t))) [
          | inl alive ↦ rw alive refl
          | inr gone ↦ rw gone refl
        ]),
      )
      | inr (unknown, same) ↦ inr (unknown, rw same refl)
    ])

-- On a follower the requests that change a service are answered with a redirect to what `Leader`
-- returns, which is the server's own name where the raft library knows no leader, or with 500 where
-- that is empty, and the server is as it was, for a route with a UUID and a body that decodes to a
-- service with a host and a port.
pub redirected_lem :
    (s : Server)
    → IsFollowing s.raft
    → (req : Request) (uuid : Text) → GoMap.lookup req.vars (txt "uuid") ≡ some uuid
    → (decode : Text → Decoded Service) (now : ℕ) (serv : Service) → decode req.body ≡ decoded serv
    → serv.host ≢ []
    → serv.port ≢ 0
    → (add_service_handler decode now s req ≡ (redirect_to_leader s req, s))
      × (update_service_handler decode now s req ≡ (redirect_to_leader s req, s))
      × (remove_service_handler s req ≡ (redirect_to_leader s req, s))
      × (((leader s ≢ [])
            × (redirect_to_leader s req ≡ redirected (txt "http://" ++ (leader s ++ req.path)) 301))
          ⊎ ((leader s ≡ []) × (status (redirect_to_leader s req) ≡ some 500)))
unfolding add_service_handler update_service_handler remove_service_handler
redirected_lem s following req uuid routed decode now serv body host port =
    let host_given : text_eq serv.host [] ≡ false = ground (arith, text_eq_iff serv.host []) in
    let port_given : nat_eq serv.port 0 ≡ false = ground (arith, nat_eq_iff serv.port 0) in
    (
      rw (routed, body, host_given, port_given, following) refl,
      rw (routed, body, following) refl,
      rw (routed, following) refl,
      elim (Bool-cases (text_eq (leader s) [])) [
        | inl e ↦ inr ((text_eq_iff (leader s) []).0 e, rw e refl)
        | inr e ↦ inl (λ h. cc ((text_eq_iff (leader s) []).1 h), rw e refl)
      ],
    )

-- A request that adds a service is answered with 400 or 500, and the server is as it was, unless its
-- route has a UUID and its body decodes to a service with a host and a port.
pub add_service_handler_checks :
    (decode : Text → Decoded Service) (now : ℕ) (s : Server) (req : Request)
    → ((code : ℕ) × (m : Text) × ((code ≡ 400) ⊎ (code ≡ 500))
        × (add_service_handler decode now s req ≡ (http_error m code, s)))
      ⊎ ((uuid : Text) × (serv : Service) × (GoMap.lookup req.vars (txt "uuid") ≡ some uuid)
          × (decode req.body ≡ decoded serv)
          × (serv.host ≢ [])
          × (serv.port ≢ 0))
unfolding add_service_handler
add_service_handler_checks decode now s req =
    elim (Option-cases (GoMap.lookup req.vars (txt "uuid"))) [
      | inl unrouted ↦ inl (400, txt "UUID required", inl refl, rw unrouted refl)
      | inr (uuid, routed) ↦ checks (decode req.body) refl uuid routed
    ]
  where
    checks :
        (d : Decoded Service)
        → decode req.body ≡ d
        → (uuid : Text) → GoMap.lookup req.vars (txt "uuid") ≡ some uuid
        → ((code : ℕ) × (m : Text) × ((code ≡ 400) ⊎ (code ≡ 500))
            × (add_service_handler decode now s req ≡ (http_error m code, s)))
          ⊎ ((uuid : Text) × (serv : Service) × (GoMap.lookup req.vars (txt "uuid") ≡ some uuid)
              × (decode req.body ≡ decoded serv)
              × (serv.host ≢ [])
              × (serv.port ≢ 0))
    checks (malformed m) body uuid routed = inl (500, m, inr refl, rw (routed, body) refl)
    checks (decoded serv) body uuid routed =
        elim (Bool-cases (text_eq serv.host [] || nat_eq serv.port 0)) [
          | inl missing ↦
              inl (400, txt "Host and Port required", inl refl, rw (routed, body, missing) refl)
          | inr given ↦ inr (
            uuid,
            serv,
            routed,
            body,
            λ e. ground (arith, text_eq_iff serv.host []),
            λ e. ground (arith, nat_eq_iff serv.port 0),
          )
        ]
