-- ===== src/Client/Cluster/Loops.antt =====
-- `Add` of the client at a follower whose raft library knows no leader.
use skydns.Shared.{ℕ, zero, suc, ◌++◌, Text, txt, [], none, ◌≡◌, ◌≢◌, refl, sym, ap, ◌∙◌}
use skydns.Msg.{Service}
use skydns.Server.{Server, IsFollowing, leader}
use skydns.Server.Http.Replies.{decoded}
use skydns.Client.{Client, add}
use skydns.Client.Cluster.{World}
use skydns.Client.Cluster.Routed.{Knows, Outside, add_at, Leads}
use skydns.Client.Cluster.Adds.{add-Redirected}

module _ (o : Outside) (now : ℕ) (w : World) (c : Client) (uuid host : Text) (serv : Service)
    (s : Server) (leads : Leads o w c uuid host s) (knows : Knows c s)
    (read_back : o.decode (o.encode_text serv) ≡ decoded serv) (following : IsFollowing s.raft)
    (given_host : serv.host ≢ []) (given_port : serv.port ≢ 0) (no_leader : s.raft.leader ≡ [])
    (named : s.raft.name ≢ []) (own : c.base ≡ txt "http://" ++ s.raft.name)
    (parses : o.parse_uri (txt "http://" ++ (s.raft.name ++ leads.0))
      ≡ decoded (txt "http", s.raft.name)) where
  own_leader : leader s ≡ s.raft.name
  own_leader = rw no_leader refl

  -- Where the client's URL, under the server's own name, which is not empty, leads to a follower
  -- whose raft library knows no leader, the client knows its secret, and the redirect's URL is read
  -- as it is written, for a service that JSON reads back, with a host and a port: the server
  -- redirects `Add` to itself, and `Add` does not return on any fuel, so after no number of
  -- redirects, while the cluster is like that.
  pub add-Loops : (f : ℕ) → add_at o now f c uuid serv w ≡ none
  unfolding add
  add-Loops zero = refl
  add-Loops (suc f) =
      add-Redirected o now f w c uuid host serv s leads knows read_back following given_host
        given_port (λ e. named (sym own_leader ∙ e)) (rw own_leader parses)
      ∙ ap (λ b. add_at o now f (record c { base = b }) uuid serv w)
          (ap (λ l. txt "http://" ++ l) own_leader ∙ sym own)
      ∙ add-Loops f
