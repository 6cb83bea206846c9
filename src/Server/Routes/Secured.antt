-- ===== src/Server/Routes/Secured.antt =====
-- Which routes a request without the secret can use.
use skydns.Shared.{In, Text, txt, List, [], Option, some, ◌≡◌, ◌≢◌, ◌⊎◌, inl, inr}
use skydns.Server.{Server}
use skydns.Server.Http.Replies.{Request, Response, http_error, Handler}
use skydns.Server.Http.{auth_http_wrapper}
use skydns.Server.Http.Laws.{auth_http_wrapper_lem}
use skydns.Server.Routes.{Route, handle_func}

-- A handler that answers 401 to a request that is not authorized, and does nothing else.
abbrev pub IsWrapped : Handler → Type 0
IsWrapped handler =
    (s : Server) (req : Request)
    → s.secret ≢ []
    → req.header (txt "Authorization") ≢ s.secret
    → handler s req ≡ (http_error (txt "Unauthorized") 401, s)

pub auth_http_wrapper-IsWrapped : (handler : Handler) → IsWrapped (auth_http_wrapper handler)
auth_http_wrapper-IsWrapped handler s req closed other =
    elim (auth_http_wrapper_lem handler s req) [
      | inl (inl public, same) ↦ absurd (closed public)
      | inl (inr given, same) ↦ absurd (other given)
      | inr (c, o, refused) ↦ refused
    ]

module _ (join : Handler) (installed : List (Text × Handler))
    (matches : Text → Text → Option (List (Text × Text))) (method : Text) (s : Server)
    (req : Request) where
  abbrev IsSecured : Route → Type 0
  IsSecured r =
      IsWrapped r.handler
      ⊎ ((r.pattern ≡ txt "/raft/join") × (r.method ≡ some (txt "POST")) × (r.handler ≡ join))
      ⊎ ((x : Text × Handler) × In x installed × (r ≡ handle_func x))

  -- What a request without the secret may come to.
  abbrev pub IsKept : Response × Server → Type 0
  IsKept answer =
      (answer ≡ (http_error (txt "404 page not found") 404, s))
      ⊎ (answer ≡ (http_error (txt "Unauthorized") 401, s))
      ⊎ ((method ≡ txt "POST")
          × (vars : List (Text × Text)) × (matches (txt "/raft/join") req.path ≡ some vars)
          × (answer ≡ join s (record req { vars = vars })))
      ⊎ ((x : Text × Handler) × In x installed
          × (vars : List (Text × Text)) × (matches x.0 req.path ≡ some vars)
          × (answer ≡ x.1 s (record req { vars = vars })))
