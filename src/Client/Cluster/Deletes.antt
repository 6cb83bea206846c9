-- ===== src/Client/Cluster/Deletes.antt =====
-- What a client without the server's secret is told.
use skydns.Shared.{
  ℕ, suc, Text, txt, text_eq, [], ◌∷◌, Option, none, some, text_Comparable, ◌≡◌, ◌≢◌, refl, sym,
  ◌++◌, ◌∙◌, Bool-cases, inl, inr,
}
use skydns.Shared.GoMap
use skydns.Msg.{Service}
use skydns.Server.{Server}
use skydns.Server.Http.Replies.{http_error}
use skydns.Server.Http.{
  add_service_handler, update_service_handler, remove_service_handler, get_service_handler,
}
use skydns.Server.Routes.{serve_http, find_route}
use skydns.Server.Routes.Secured.{auth_http_wrapper-IsWrapped}
use skydns.Client.{Client, invalid_response, error, add, delete, update}
use skydns.Client.Cluster.{World}
use skydns.Client.Cluster.Routed.{
  Outside, at_time, add_at, get_at, Leads, services_routes, arrived_at,
}

module _ (o : Outside) (c : Client) (s : Server) (closed : s.secret ≢ [])
    (other : c.secret ≢ s.secret) where
  unknown :
      (method uuid : Text) (body : Option Text) (path : Text)
      → (arrived_at o c method uuid body path).header (txt "Authorization") ≢ s.secret
  unknown method uuid body path same = elim (Bool-cases (text_eq c.secret [])) [
    | inl none_set ↦
        let none_given : (arrived_at o c method uuid body path).header (txt "Authorization") ≡ [] =
          rw none_set refl in
        closed (sym same ∙ none_given)
    | inr set ↦
        let given : (arrived_at o c method uuid body path).header (txt "Authorization") ≡ c.secret =
          rw set refl in
        other (sym given ∙ same)
  ]

  abbrev IsService : Text → Text → Type 0
  IsService uuid path =
      o.matches (txt "/skydns/services/{uuid}") path ≡ some ((txt "uuid", uuid) ∷ [])

  abbrev Refused : ℕ → Text → Text → Option Text → Text → Type 0
  Refused now method uuid body path =
      serve_http o.matches (services_routes o now) method s
        (record (arrived_at o c method uuid body path) { vars = [] })
      ≡ (http_error (txt "Unauthorized") 401, s)

  refused :
      (now : ℕ) (uuid : Text) (body : Option Text) (path : Text)
      → IsService uuid path
      → Refused now (txt "PUT") uuid body path
        × Refused now (txt "GET") uuid body path
        × Refused now (txt "DELETE") uuid body path
        × Refused now (txt "PATCH") uuid body path
  unfolding find_route
  refused now uuid body path has = (
    rw has (
        auth_http_wrapper-IsWrapped (add_service_handler o.decode now) s
          (arrived_at o c (txt "PUT") uuid body path) closed (unknown (txt "PUT") uuid body path)),
    rw has (
        auth_http_wrapper-IsWrapped (get_service_handler o.seconds now) s
          (arrived_at o c (txt "GET") uuid body path) closed (unknown (txt "GET") uuid body path)),
    rw has (
        auth_http_wrapper-IsWrapped remove_service_handler s
          (arrived_at o c (txt "DELETE") uuid body path) closed
          (unknown (txt "DELETE") uuid body path)),
    rw has (
        auth_http_wrapper-IsWrapped (update_service_handler o.decode now) s
          (arrived_at o c (txt "PATCH") uuid body path) closed
          (unknown (txt "PATCH") uuid body path)),
  )

  -- A client without the secret of a server that has one changes nothing there: `Add` and `Get`
  -- return ErrInvalidResponse, but `Delete` and `Update` return no error, for any fuel above 0.
  pub delete-Unnoticed :
      (now f : ℕ) (w : World) (uuid host : Text) (serv : Service) (format : ℕ → Text) (ttl : ℕ)
      → Leads o w c uuid host s
      → (delete o.request_error (at_time o now) c uuid w ≡ (none, w))
        × (update o.request_error (at_time o now) format c uuid ttl w ≡ (none, w))
        × (get_at o now c uuid w ≡ (error invalid_response, w))
        × (add_at o now (suc f) c uuid serv w ≡ some ((some invalid_response, c), w))
  unfolding add
  delete-Unnoticed now f w uuid host serv format ttl (path, leads, there, has, valid) =
      let put = (refused now uuid (some (o.encode_text serv)) path has).0 in
      (
        rw
            (
              valid (txt "DELETE"),
              leads,
              there,
              (refused now uuid none path has).2,
              GoMap.insert_same w host s there,
            )
            refl,
        rw
            (
              valid (txt "PATCH"),
              leads,
              there,
              (refused now uuid (some (txt "{\"TTL\":" ++ (format ttl ++ txt "}"))) path has).3,
              GoMap.insert_same w host s there,
            )
            refl,
        rw
            (
              valid (txt "GET"),
              leads,
              there,
              (refused now uuid none path has).1,
              GoMap.insert_same w host s there,
            )
            refl,
        rw (valid (txt "PUT"), leads, there, put, GoMap.insert_same w host s there) refl,
      )
