-- ===== src/Client/Cluster/Discovers.antt =====
-- From `Add` of the client to the answer of the leader's DNS handler.
use mathlib.Core.Path.{subst}
use skydns.Shared.{
  ℕ, suc, true, ◌+◌, ◌-◌, ◌*◌, ◌/◌, ◌^◌, ◌≤◌, ◌<◌, Text, text_eq_iff, [], none, some, Option,
  length, In, text_Comparable, to_lower, has_suffix, ◌≡◌, ◌≢◌, refl, sym, ◌∙◌, arith, inl, inr,
}
use skydns.Shared.GoMap
use skydns.Msg.{Service, second, remaining_ttl}
use skydns.Msg.Ttl.{ExactSeconds}
use skydns.Registry.{path_of}
use skydns.Registry.Tree.Find.{find}
use skydns.Registry.Query.Enumerate.{matches}
use skydns.Registry.Consistency.{IsConsistent}
use skydns.Registry.View.{view}
use skydns.Server.{Server, IsLeading, with_registry}
use skydns.Server.Http.Replies.{decoded}
use skydns.Server.Http.Laws.{requested}
use skydns.Server.Dns.{Ip, Question}
use skydns.Server.Dns.Discovery.{srv_record}
use skydns.Server.Dns.Existence.{Reads}
use skydns.Server.Serve.{Message, success, asks_service, written, serve_dns}
use skydns.Server.Serve.Names.{key_of, pattern_for}
use skydns.Server.Serve.Listed.{local_reply-Lists}
use skydns.Client.{Client}
use skydns.Client.Cluster.{World}
use skydns.Client.Cluster.Routed.{Outside, Knows, Leads, add_at}
use skydns.Client.Cluster.Adds.{requested_live, add-Registered}

-- The question in lower case, as the handler looks it up.
abbrev pub lowered : Question → Question
lowered q = record q { name = to_lower q.name }

module _ (o : Outside) (now f : ℕ) (w : World) (c : Client) (uuid host : Text) (serv : Service)
    (s : Server) (leads : Leads o w c uuid host s) (knows : Knows c s)
    (read_back : o.decode (o.encode_text serv) ≡ decoded serv) (leading : IsLeading s.raft)
    (consistent : IsConsistent s.registry) (given_host : serv.host ≢ [])
    (given_port : serv.port ≢ 0) (six : length (path_of (requested now uuid serv)) ≡ 6)
    (exact : ExactSeconds o.seconds) {M : Type 0} (exchange : ℕ → Text → Option M) (req_id : ℕ)
    (parse_ip : Text → Ip) (fqdn : Text → Text) (split_host_port : Text → Option Text) (id : ℕ → ℕ)
    (later : ℕ) (asked : Question) where
  -- The handler writes a success with an SRV record for the service.
  abbrev pub IsDiscovered : Server → Type 0
  IsDiscovered after =
      (m : Message) × (t : Server) × (serve_dns fqdn later parse_ip split_host_port
          o.split_domain_name o.seconds id exchange req_id after asked
        ≡ written (some (m, t)))
      × (m.rcode ≡ success)
      × (weight : ℕ) × In
          (srv_record parse_ip (lowered asked) s.domain 10 weight
            (record (requested now uuid serv) { ttl = (now + serv.ttl * second - later) / second }))
          m.answer

  holds-IsDiscovered :
      has_suffix (to_lower asked.name) (fqdn s.domain) ≡ true
      → length (pattern_for o.split_domain_name s (lowered asked)) ≡ 6
      → Reads o.split_domain_name (key_of s (lowered asked))
      → matches
          (pattern_for o.split_domain_name s (lowered asked))
          (path_of (requested now uuid serv))
        ≡ true
      → asks_service asked.qtype ≡ true
      → later + 2 * second ≤ now + serv.ttl * second
      → now + serv.ttl * second < later + 2 ^ 22 * second
      → (after : Server) → IsConsistent after.registry
      → view after.registry uuid ≡ some (requested now uuid serv)
      → IsDiscovered (with_registry s after.registry)
  unfolding serve_dns
  holds-IsDiscovered own six_labels reads matched service two_left near after kept held =
      let left = requested_live o.seconds now later uuid serv exact (omega arith) near in
      let alive : 1 < remaining_ttl o.seconds later (requested now uuid serv) =
        rw left (ground arith) in
      let (weight, (m, t, reply, ok, listed)) =
        local_reply-Lists parse_ip o.split_domain_name o.seconds later
          (with_registry s after.registry) (lowered asked) kept six_labels reads service fqdn
          split_host_port id asked.name (requested now uuid serv) held matched alive in
      (
        m,
        t,
        rw (own, reply) refl,
        ok,
        weight,
        subst
            (λ n.
              In
                (srv_record parse_ip (lowered asked) s.domain 10 weight
                  (record (requested now uuid serv) { ttl = n }))
                m.answer)
            left listed,
      )

  -- On a cluster where the client's URL leads to the leader, whose registry is consistent, and the
  -- client knows its secret, for a service that JSON reads back, with a host and a port, whose key has
  -- six labels, whose UUID is new and at whose path no node lies: `Add` returns no error, and then,
  -- where durations below 2^22 seconds convert to their whole seconds, as long as at least two
  -- seconds of the service's TTL are left, and fewer than 2^22, the leader answers a question of type
  -- SRV or ANY for any name of its domain that matches the service, with a pattern of six labels and
  -- read by the library as its labels, with a success, before it is signed, whose answer has an SRV
  -- record of the service's port and target, of priority 10, with the whole seconds that are left.
  pub add-Discovered :
      view s.registry uuid ≡ none
      → find (path_of (requested now uuid serv)) s.registry.tree ≡ none
      → has_suffix (to_lower asked.name) (fqdn s.domain) ≡ true
      → length (pattern_for o.split_domain_name s (lowered asked)) ≡ 6
      → Reads o.split_domain_name (key_of s (lowered asked))
      → matches
          (pattern_for o.split_domain_name s (lowered asked))
          (path_of (requested now uuid serv))
        ≡ true
      → asks_service asked.qtype ≡ true
      → later + 2 * second ≤ now + serv.ttl * second
      → now + serv.ttl * second < later + 2 ^ 22 * second
      → (after : Server) × (add_at o now (suc f) c uuid serv w
          ≡ some ((none, c), GoMap.insert w host after))
        × IsDiscovered after
  add-Discovered new free own six_labels reads matched service two_left near =
      elim (add-Registered o now f w c uuid host serv s leads knows read_back leading consistent
        given_host given_port six) [
          | inr (taken, conflict) ↦ elim taken [
            | inl known ↦ absurd (known new)
            | inr used ↦ absurd (used free)
          ]
          | inl (unknown, after, done, kept, same, views) ↦
              let held : view after.registry uuid ≡ some (requested now uuid serv) =
                views uuid ∙ rw ((text_eq_iff uuid uuid).1 refl) refl in
              (
                after,
                done,
                subst IsDiscovered (sym same) (
                    holds-IsDiscovered own six_labels reads matched service two_left near after kept
                      held),
              )
        ]
