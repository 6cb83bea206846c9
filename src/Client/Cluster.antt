-- ===== src/Client/Cluster.antt =====
-- The client of client/client.go against the servers of server/server.go: what is outside of the
-- client is a map from hosts to servers, and a request is handled by the server of the URL's host.
-- `split_url` gives the host and the path of a URL, and the other parameters are those of the routes;
-- the encoders are the library's JSON.
pub mod Routed
pub mod Adds
pub mod Loops
pub mod Deletes
pub mod Discovers
use skydns.Shared.{
  ℕ, ℤ, Text, txt, text_eq, List, [], ◌∷◌, Option, none, some, if◌then◌else◌, text_Comparable,
}
use skydns.Shared.GoMap
use skydns.Msg.{Service, Callback}
use skydns.Server.{Server}
use skydns.Server.Http.Replies.{
  Request, Response, http_error, redirected, wrote_header, wrote_text, wrote_service,
  wrote_services, wrote_counts, untouched, aborted, Decoded, Handler,
}
use skydns.Server.Routes.{Route, routes, serve_http}
use skydns.Client.{ClientRequest, Reply, Sent, no_answer, answered}

abbrev pub World : Type 0
World = List (Text × Server)

abbrev reply : ℕ → Text → Text → Sent
reply code location body =
    answered (record { status_code = code; location = location; body = body })

-- The header of a request: `Authorization` at most.
abbrev pub header_of : Option Text → Text → Text
header_of none k = []
header_of (some secret) k = if text_eq k (txt "Authorization") then secret else []

abbrev pub body_of : Option Text → Text
body_of none = []
body_of (some body) = body

abbrev pub arrived : ClientRequest → Text → Request
arrived r path = record {
  vars = [];
  path = path;
  header = header_of r.authorization;
  query = λ k. [];
  body = body_of r.body;
}

module _ (encode : Service → Text) (encode_list : List Service → Text)
    (encode_counts : List (Text × ℕ) → Text) where
  -- What net/http sends of a handler's response.
  abbrev pub wire : Response → Sent
  wire (http_error m code) = reply code [] m
  wire (redirected url code) = reply code url []
  wire (wrote_header code) = reply code [] []
  wire (wrote_text t) = reply 200 [] t
  wire (wrote_service s) = reply 200 [] (encode s)
  wire (wrote_services l) = reply 200 [] (encode_list l)
  wire (wrote_counts m) = reply 200 [] (encode_counts m)
  wire untouched = reply 200 [] []
  wire aborted = no_answer (txt "EOF")

  module _ (matches : Text → Text → Option (List (Text × Text))) (rs : List Route) where
    abbrev pub served : World → Text → Response × Server → Sent × World
    served w host (response, s) = (wire response, GoMap.insert w host s)

    abbrev pub served_by : World → ClientRequest → Text → Text → Option Server → Sent × World
    served_by w r host path none = (no_answer (txt "no such host"), w)
    served_by w r host path (some s) =
        served w host (serve_http matches rs r.method s (arrived r path))

    abbrev pub served_at : World → ClientRequest → Option (Text × Text) → Sent × World
    served_at w r none = (no_answer (txt "malformed URL"), w)
    served_at w r (some (host, path)) = served_by w r host path (GoMap.lookup w host)

    abbrev pub cluster_do : (Text → Option (Text × Text)) → World → ClientRequest → Sent × World
    cluster_do split_url w r = served_at w r (split_url r.url)
