-- ===== src/Server/Start.antt =====
-- server/server.go: a new server, and how a node joins a cluster, on both sides: `Join` on the new
-- node, and the handler on a node of the cluster.
-- `fqdn`, `count_label` and `trim_space` are those of the libraries. `post` is `http.Post` with a JSON
-- body: it is given the state of the network and what is unread of the buffer, and leaves both.
use skydns.Shared.{
  ℕ, ◌++◌, Text, txt, Bool, List, [], ◌∷◌, Option, none, some, if◌then◌else◌, to_lower,
}
use skydns.Registry.{new}
use skydns.Server.{DoError, refused, not_leader, failed, Raft, Server}
use skydns.Server.Http.Replies.{
  Request, Response, http_error, untouched, Decoded, decoded, malformed, Handler, message,
  redirect_to_leader, replied,
}

-- `NewServer`: `none` is `log.Fatal`, where the data directory is missing. `raft` is the server that
-- `Start` makes later.
abbrev pub new_server :
    (Text → Text) → (Text → ℕ) → Bool → Raft → List Text → Text → Text → Bool → Option Server
new_server fqdn count_label missing raft nameservers domain secret roundrobin =
    if missing
    then none
    else some (record {
      nameservers = nameservers;
      domain = to_lower domain;
      registry = new;
      raft = raft;
      secret = secret;
      domain_labels = count_label (fqdn domain);
      dns_key = none;
      key_tag = 0;
      round_robin = roundrobin;
    })

-- What comes of a POST: a `*url.Error`, another error, or a response, whatever its status.
pub data Posted : Type 0 where
  network_error : Posted
  other_error : Text → Posted
  answered : Posted

module _ {ℓ} {W : Type ℓ} (trim_space : Text → Text)
    (post : W → Text → Text → (Posted × Text) × W) where
  abbrev pub join_url : Text → Text
  join_url m = txt "http://" ++ (trim_space m ++ txt "/raft/join")

  abbrev pub joined_or : Posted → Option Text × W → W → Option Text × W
  joined_or network_error next w = next
  joined_or (other_error e) next w = (some e, w)
  joined_or answered next w = (none, w)

  -- `s.Join(members)`: the error, and the network after it. `b` is the unread part of the buffer.
  unfoldable pub join : List Text → Text → W → Option Text × W
  join [] b w = (some (txt "Could not connect to any cluster members"), w)
  join (m ∷ members) b w =
      let ((posted, rest), after) = post w (join_url m) b in
      let next = join members rest after in joined_or posted next after

-- `decode` is `json.NewDecoder(req.Body).Decode` of the library's join command, and `do_join` is
-- `raftServer.Do` of one.
module _ {κ} {JoinCommand : Type κ} (decode : Text → Decoded JoinCommand)
    (do_join : JoinCommand → Server → Option DoError × Server) where
  abbrev pub join_error : Server → Request → DoError → Response
  join_error s req not_leader = redirect_to_leader s req
  join_error s req (refused e) = http_error (message e) 500
  join_error s req (failed m) = http_error m 500

  abbrev pub join_decoded : Server → Request → Decoded JoinCommand → Response × Server
  join_decoded s req (malformed m) = (http_error m 500, s)
  join_decoded s req (decoded command) =
      let (e, after) = do_join command s in (replied e (join_error after req) untouched, after)

  -- `s.joinHandler`
  abbrev pub join_handler : Handler
  join_handler s req = join_decoded s req (decode req.body)
