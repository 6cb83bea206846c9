-- ===== src/Server/Routes.antt =====
-- server/server.go: the routes of the HTTP API, those of `NewServer` and those that `Start` has the
-- transporter of the raft library install on the same router through `HandleFunc`. The router is a
-- library: it gives a request to the first route whose pattern and method the request has, and
-- `matches pattern path` is the variables of the path if it has the pattern.
pub mod Secured
use skydns.Shared.{
  ℕ, ℤ, Text, txt, text_eq, Bool, true, map, ◌++◌, List, [], ◌∷◌, Option, none, some, if◌then◌else◌,
}
use skydns.Msg.{Service, Callback}
use skydns.Server.{Server}
use skydns.Server.Http.Replies.{Request, Response, http_error, Decoded, Handler}
use skydns.Server.Http.{
  auth_http_wrapper, add_service_handler, get_service_handler, remove_service_handler,
  update_service_handler,
}
use skydns.Server.Callbacks.{add_callback_handler}
use skydns.Server.External.{get_services_handler, get_regions_handler, get_environments_handler}

pub record Route : Type 0 where
  pub pattern : Text
  pub method : Option Text
  pub handler : Handler

abbrev pub route : Text → Text → Handler → Route
route pattern method handler = record { pattern = pattern; method = some method; handler = handler }

-- `s.HandleFunc(pattern, handler)`: a route for any method, with no wrapper.
abbrev pub handle_func : Text × Handler → Route
handle_func (pattern, handler) = record { pattern = pattern; method = none; handler = handler }

module _ (decode : Text → Decoded Service) (decode_callback : Text → Decoded Callback)
    (join_handler : Handler) (seconds : ℤ → ℕ) (split_domain_name : Text → List Text)
    (now : ℕ) where
  -- The routes, in the order in which they are added.
  abbrev pub routes : List Route
  routes =
      route (txt "/skydns/services/{uuid}") (txt "PUT")
        (auth_http_wrapper (add_service_handler decode now))
      ∷ route (txt "/skydns/services/{uuid}") (txt "GET")
          (auth_http_wrapper (get_service_handler seconds now))
      ∷ route (txt "/skydns/services/{uuid}") (txt "DELETE")
          (auth_http_wrapper remove_service_handler)
      ∷ route (txt "/skydns/services/{uuid}") (txt "PATCH")
          (auth_http_wrapper (update_service_handler decode now))
      ∷ route (txt "/skydns/callbacks/{uuid}") (txt "PUT")
          (auth_http_wrapper (add_callback_handler decode_callback seconds now split_domain_name))
      ∷ route (txt "/skydns/services/") (txt "GET")
          (auth_http_wrapper (get_services_handler seconds now split_domain_name))
      ∷ route (txt "/skydns/regions/") (txt "GET")
          (auth_http_wrapper (get_regions_handler seconds now split_domain_name))
      ∷ route (txt "/skydns/environments/") (txt "GET")
          (auth_http_wrapper (get_environments_handler seconds now split_domain_name))
      ∷ route (txt "/raft/join") (txt "POST") join_handler
      ∷ []

  -- The routes of a server that `Start` has started: `installed` is what `transporter.Install` adds.
  abbrev pub running_routes : List (Text × Handler) → List Route
  running_routes installed = routes ++ map handle_func installed

-- Whether a route is for a method.
abbrev pub accepts : Option Text → Text → Bool
accepts none method = true
accepts (some m) method = text_eq m method

abbrev pub taken :
    Option (List (Text × Text))
    → Route
    → Text
    → Option (Handler × List (Text × Text))
    → Option (Handler × List (Text × Text))
taken none r method next = next
taken (some vars) r method next = if accepts r.method method then some (r.handler, vars) else next

abbrev pub handled : Option (Handler × List (Text × Text)) → Server → Request → Response × Server
handled none s req = (http_error (txt "404 page not found") 404, s)
handled (some (handler, vars)) s req = handler s (record req { vars = vars })

module _ (matches : Text → Text → Option (List (Text × Text))) where
  unfoldable pub find_route : List Route → Text → Text → Option (Handler × List (Text × Text))
  find_route [] method path = none
  find_route (r ∷ rs) method path =
      taken (matches r.pattern path) r method (find_route rs method path)

  abbrev pub serve_http : List Route → Text → Server → Request → Response × Server
  serve_http rs method s req = handled (find_route rs method req.path) s req
