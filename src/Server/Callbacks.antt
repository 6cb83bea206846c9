-- ===== src/Server/Callbacks.antt =====
-- server/callback.go: the HTTP handler that adds a callback to the services of a name.
-- `decode` is `json.NewDecoder(req.Body).Decode`; the other parameters are those of the registry.
pub mod Laws
use skydns.Shared.{
  ℕ, zero, suc, ℤ, ◌++◌, Text, txt, dot, Bool, List, [], ◌∷◌, Option, none, some, if◌then◌else◌,
  nat_eq, length, text_Comparable, to_lower, hyphenate,
}
use skydns.Shared.GoMap
use skydns.Msg.{Service, Callback}
use skydns.Registry.Tree.{Error, exists, not_exists, Result, ok, err}
use skydns.Registry.{Registry, get}
use skydns.Server.Commands.{Command, new_add_callback_command}
use skydns.Server.{DoError, refused, not_leader, failed, Server, with_registry}
use skydns.Server.Http.Replies.{
  Request, Response, http_error, wrote_header, aborted, Decoded, decoded, malformed, Handler,
  message, with_uuid, redirect_to_leader,
}

-- The key under which the callback's services are looked up.
abbrev pub callback_key : Callback → Text
callback_key cb =
    to_lower (cb.region ++ dot ∷ (hyphenate cb.version ++ dot ∷ (cb.name ++ dot ∷ cb.environment)))

-- What is kept of a callback.
abbrev pub reset : Callback → Callback
reset cb = record cb { name = []; version = []; environment = []; region = []; host = [] }

-- The loop ends with a response, or with the number of services that are gone.
abbrev pub Loop : Type 0
Loop = (Option Response × ℕ) × Server

abbrev pub after_do : Option DoError → Server → Request → ℕ → (ℕ → Loop) → Loop
after_do none s req missing continue = continue missing
after_do (some (refused not_exists)) s req missing continue = continue (suc missing)
after_do (some not_leader) s req missing continue = ((some (redirect_to_leader s req), missing), s)
after_do (some (refused e)) s req missing continue =
    ((some (http_error (message e) 500), missing), s)
after_do (some (failed m)) s req missing continue = ((some (http_error m 500), missing), s)

-- The loop over the services.
unfoldable pub add_to_each : Callback → Request → List Service → ℕ → Server → Loop
add_to_each cb req [] missing s = ((none, missing), s)
add_to_each cb req (serv ∷ services) missing s =
    let (e, r) = s.raft.do_command (new_add_callback_command serv cb) s.registry in
    after_do e (with_registry s r) req missing
      (λ n. add_to_each cb req services n (with_registry s r))

abbrev pub concluded : List Service → Loop → Response × Server
concluded services ((some response, missing), s) = (response, s)
concluded services ((none, missing), s) = (
  if nat_eq missing (length services)
      then http_error (message not_exists) 404
      else wrote_header 201,
  s,
)

-- For an empty list without an error, `err.Error()` is a call on nil.
abbrev pub with_services : Result (List Service) → Callback → Request → Server → Response × Server
with_services (err e) cb req s = (http_error (message e) 404, s)
with_services (ok []) cb req s = (aborted, s)
with_services (ok (serv ∷ services)) cb req s =
    concluded (serv ∷ services) (add_to_each (reset cb) req (serv ∷ services) 0 s)

module _ (decode : Text → Decoded Callback) (seconds : ℤ → ℕ) (now : ℕ)
    (split_domain_name : Text → List Text) where
  abbrev pub callback_decoded : Server → Request → Text → Decoded Callback → Response × Server
  callback_decoded s req uuid (malformed m) = (http_error m 500, s)
  callback_decoded s req uuid (decoded cb) =
      let (result, r) = get seconds now split_domain_name s.registry (callback_key cb) in
      with_services result (record cb { uuid = uuid }) req (with_registry s r)

  -- `s.addCallbackHTTPHandler`
  unfoldable pub add_callback_handler : Handler
  unfolding add_to_each
  add_callback_handler s req =
      with_uuid (GoMap.lookup req.vars (txt "uuid")) s
        (λ uuid. callback_decoded s req uuid (decode req.body))
