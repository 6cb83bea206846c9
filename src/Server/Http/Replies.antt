-- ===== src/Server/Http/Replies.antt =====
-- Requests and responses of the HTTP API, and what the handlers of server/server.go share: the
-- check for a UUID, the answer to an error, and the redirect to the leader.
use skydns.Shared.{
  ℕ, ◌++◌, Text, txt, text_eq, Bool, false, true, List, Option, none, some, if◌then◌else◌, not, [],
}
use skydns.Msg.{Service}
use skydns.Registry.Tree.{Error, exists, not_exists, panic}
use skydns.Server.{DoError, refused, not_leader, failed, Server, leader}

-- `vars` is `mux.Vars(req)`, `header` is `req.Header.Get`, and `query` is `req.URL.Query().Get`.
pub record Request : Type 0 where
  pub vars : List (Text × Text)
  pub path : Text
  pub header : Text → Text
  pub query : Text → Text
  pub body : Text

-- `untouched` is a handler that writes nothing, which net/http makes a 200; `aborted` is one that
-- panics, whose connection net/http closes.
pub data Response : Type 0 where
  http_error : Text → ℕ → Response
  redirected : Text → ℕ → Response
  wrote_header : ℕ → Response
  wrote_text : Text → Response
  wrote_service : Service → Response
  wrote_services : List Service → Response
  wrote_counts : List (Text × ℕ) → Response
  untouched aborted : Response

-- The status code on the wire.
abbrev pub status : Response → Option ℕ
status (http_error m code) = some code
status (redirected url code) = some code
status (wrote_header code) = some code
status (wrote_text t) = some 200
status (wrote_service s) = some 200
status (wrote_services l) = some 200
status (wrote_counts l) = some 200
status untouched = some 200
status aborted = none

abbrev pub Handler : Type 0
Handler = Server → Request → Response × Server

-- What a decoder of the library makes of a body.
pub data Decoded {ℓ} (A : Type ℓ) : Type ℓ where
  decoded : A → Decoded A
  malformed : Text → Decoded A

-- `err.Error()`
abbrev pub message : Error → Text
message exists = txt "Service already exists in registry"
message not_exists = txt "Service does not exist in registry"
message panic = []

abbrev pub same_error : Error → Error → Bool
same_error exists exists = true
same_error not_exists not_exists = true
same_error _ _ = false

-- `s.redirectToLeader(w, req)`
abbrev pub redirect_to_leader : Server → Request → Response
redirect_to_leader s req =
    if not (text_eq (leader s) [])
    then redirected (txt "http://" ++ (leader s ++ req.path)) 301
    else http_error (txt "Leader unknown") 500

-- The `switch` on the error of `Do`: the error that the handler expects has a code of its own.
abbrev pub reported : Server → Request → Error → ℕ → DoError → Response
reported s req known code (refused e) =
    if same_error e known then http_error (message e) code else http_error (message e) 500
reported s req known code not_leader = redirect_to_leader s req
reported s req known code (failed m) = http_error m 500

abbrev pub replied : Option DoError → (DoError → Response) → Response → Response
replied none on_error done = done
replied (some e) on_error done = on_error e

-- The UUID among the variables of the route.
abbrev pub with_uuid : Option Text → Server → (Text → Response × Server) → Response × Server
with_uuid none s handle = (http_error (txt "UUID required") 400, s)
with_uuid (some uuid) s handle = handle uuid
