-- ===== src/Server/Http.antt =====
-- server/server.go: the handlers of the HTTP API for services, and their authorization. A handler
-- is a function from the server and the request to the response and the next server.
-- `decode` is `json.NewDecoder(req.Body).Decode`, of the library; `now` is what `time.Now` reads.
pub mod Replies
pub mod Laws
pub mod Lifetimes
mod Tests
use skydns.Shared.{
  ℕ, ℤ, ◌++◌, Text, txt, text_eq, nat_eq, Bool, false, true, ◌&&◌, ◌||◌, not, List, [], Option,
  none, some, if◌then◌else◌, text_Comparable,
}
use skydns.Shared.GoMap
use skydns.Msg.{Service}
use skydns.Registry.Tree.{Error, exists, not_exists, Result, ok, err}
use skydns.Registry.{Registry, get_uuid}
use skydns.Server.Commands.{
  Command, new_add_service_command, new_update_ttl_command, new_remove_service_command,
}
use skydns.Server.{DoError, Server, with_registry}
use skydns.Server.Http.Replies.{
  Request, Response, http_error, wrote_header, wrote_service, Decoded, decoded, malformed, Handler,
  with_uuid, reported, replied,
}

-- `s.authenticate(secret)`: none, or an error.
abbrev pub authenticate : Server → Text → Option Text
authenticate s secret =
    if not (text_eq s.secret []) && not (text_eq secret s.secret)
    then some (txt "Unauthorized")
    else none

abbrev pub unauthorized : Option Text → Server → Response × Server → Response × Server
unauthorized (some m) s handled = (http_error m 401, s)
unauthorized none s handled = handled

-- `s.authHTTPWrapper(handler)`
abbrev pub auth_http_wrapper : Handler → Handler
auth_http_wrapper handler s req =
    if not (text_eq s.secret [])
    then unauthorized (authenticate s (req.header (txt "Authorization"))) s (handler s req)
    else handler s req

-- A command is proposed; its error is answered, and otherwise `done`.
abbrev pub proposed : Server → Command → (DoError → Response) → Response → Response × Server
proposed s c on_error done =
    let (e, r) = s.raft.do_command c s.registry in (replied e on_error done, with_registry s r)

module _ (decode : Text → Decoded Service) (now : ℕ) where
  -- The service that a request to add one is for.
  abbrev pub added_service : Text → Service → Service
  added_service uuid serv = record serv { uuid = uuid }

  abbrev pub add_decoded : Server → Request → Text → Decoded Service → Response × Server
  add_decoded s req uuid (malformed m) = (http_error m 500, s)
  add_decoded s req uuid (decoded serv) =
      if text_eq serv.host [] || nat_eq serv.port 0
      then (http_error (txt "Host and Port required") 400, s)
      else proposed s (new_add_service_command now (added_service uuid serv))
          (reported s req exists 409) (wrote_header 201)

  -- `s.addServiceHTTPHandler`
  unfoldable pub add_service_handler : Handler
  add_service_handler s req =
      with_uuid (GoMap.lookup req.vars (txt "uuid")) s
        (λ uuid. add_decoded s req uuid (decode req.body))

  abbrev pub update_decoded : Server → Request → Text → Decoded Service → Response × Server
  update_decoded s req uuid (malformed m) = (http_error m 500, s)
  update_decoded s req uuid (decoded serv) =
      proposed s (new_update_ttl_command now uuid serv.ttl) (reported s req not_exists 404)
        Response.untouched

  -- `s.updateServiceHTTPHandler`
  unfoldable pub update_service_handler : Handler
  update_service_handler s req =
      with_uuid (GoMap.lookup req.vars (txt "uuid")) s
        (λ uuid. update_decoded s req uuid (decode req.body))

-- `s.removeServiceHTTPHandler`
unfoldable pub remove_service_handler : Handler
remove_service_handler s req = with_uuid (GoMap.lookup req.vars (txt "uuid")) s (λ uuid.
    proposed s (new_remove_service_command uuid) (reported s req not_exists 404) Response.untouched)

abbrev pub got : Result Service → Response
got (ok serv) = wrote_service serv
got (err not_exists) = http_error (Replies.message not_exists) 404
got (err exists) = http_error (Replies.message exists) 500
got (err Error.panic) = Response.aborted

-- `s.getServiceHTTPHandler`; the registry converts durations by `seconds`.
unfoldable pub get_service_handler : (ℤ → ℕ) → ℕ → Handler
get_service_handler seconds now s req = with_uuid (GoMap.lookup req.vars (txt "uuid")) s (λ uuid.
    let (result, r) = get_uuid seconds now s.registry uuid in (got result, with_registry s r))
