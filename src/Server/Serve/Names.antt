-- ===== src/Server/Serve/Names.antt =====
-- Which names the server denies.
use skydns.Shared.{
  ℕ, ℤ, true, false, ◌++◌, Text, dot, leb, List, [], ◌∷◌, Option, none, some, reverse, length,
  trim_suffix, ◌≡◌, ◌≢◌, ◌⊎◌, refl, sym, ◌∙◌, Bool-cases, inl, inr,
}
use skydns.Msg.{Service}
use skydns.Registry.Tree.{Error, Result, ok, not_exists}
use skydns.Registry.{path_of, pattern_of, get}
use skydns.Registry.Query.Enumerate.{matches}
use skydns.Registry.Consistency.{IsConsistent}
use skydns.Registry.View.{view}
use skydns.Registry.Lookup.{Answer, missing, found, get-Answer}
use skydns.Server.{Server, with_registry}
use skydns.Server.Dns.{
  Ip, Rr, Question, region_of, added_elsewhere, other_regions, with_services, get_srv_records,
  Records,
}
use skydns.Server.Dns.Existence.{region_of-cases, Reads, get_again}
use skydns.Server.Serve.{
  Rcode, success, name_error, Message, new_reply, is_empty, asks_address, asks_service,
  domain_answer, or_nodata, after_services, local_reply,
}
use skydns.Server.Serve.Replies.{or_nodata-rcode, with_services-rcode}
use skydns.Server.Serve

-- The key of a question, and its pattern.
abbrev pub key_of : Server → Question → Text
key_of s q = trim_suffix q.name (s.domain ++ dot ∷ [])

abbrev pub pattern_for : (Text → List Text) → Server → Question → List Text
pattern_for split_domain_name s q = reverse (pattern_of split_domain_name (key_of s q))

-- A registered service that the question's pattern matches.
abbrev pub Exists : (Text → List Text) → Server → Question → Type 0
Exists split_domain_name s q =
    (u : Text) × (t : Service) × (view s.registry u ≡ some t)
    × (matches (pattern_for split_domain_name s q) (path_of t) ≡ true)

abbrev pub Unknown : (Text → List Text) → Server → Question → Type 0
Unknown split_domain_name s q =
    (u : Text) (t : Service)
    → view s.registry u ≡ some t
    → matches (pattern_for split_domain_name s q) (path_of t) ≢ true

-- A reply that is a success for a name that exists, and NXDOMAIN for any other.
abbrev pub Denied : (Text → List Text) → Server → Question → Message → Type 0
Denied split_domain_name s q m =
    ((m.rcode ≡ success) × Exists split_domain_name s q)
    ⊎ ((m.rcode ≡ name_error) × (m.answer ≡ []) × Unknown split_domain_name s q)

none-some {ℓ} : {A : Type ℓ} {x : A} → none ≢ some x
none-some e = cc

module _ (parse_ip : Text → Ip) (split_domain_name : Text → List Text) (seconds : ℤ → ℕ) (now : ℕ)
    (s : Server) (q : Question) (consistent : IsConsistent s.registry)
    (six : length (pattern_for split_domain_name s q) ≡ 6)
    (reads : Reads split_domain_name (key_of s q)) where
  abbrev pub Fails : Option Error → Type 0
  Fails e =
      ((e ≡ none) × Exists split_domain_name s q)
      ⊎ ((e ≡ some not_exists) × Unknown split_domain_name s q)

  added-none :
      (services : List Service) (region : Text) (kept : Records parse_ip) (more : List Service)
      (s' : Server)
      → (added_elsewhere parse_ip s' q services region kept (ok more)).1 ≡ none
  added-none services region kept more s' =
      elim (Bool-cases (leb (length more) (length services))) [
        | inl e ↦ rw e refl
        | inr e ↦ rw e refl
      ]

  others-none :
      (services : List Service) (kept : Records parse_ip)
      → (get seconds now split_domain_name s.registry (key_of s q)).0 ≡ ok services
      → (other_regions parse_ip split_domain_name seconds now
          (with_registry s (get seconds now split_domain_name s.registry (key_of s q)).1)
          q
          services
          kept
          (region_of parse_ip (split_domain_name (key_of s q)))).0.1
        ≡ none
  others-none services kept e = elim (region_of-cases parse_ip (split_domain_name (key_of s q))) [
    | inl unread ↦ rw unread refl
    | inr (region, starred, four) ↦
        let (more, again) =
          get_again split_domain_name seconds now s.registry consistent (key_of s q) six reads four
            services e in
        rw (starred, again)
          (added-none services region kept more
            (with_registry s (get seconds now split_domain_name s.registry (key_of s q)).1))
  ]

  fails :
      (o : Result (List Service))
      → (get seconds now split_domain_name s.registry (key_of s q)).0 ≡ o
      → Answer seconds now s.registry (pattern_for split_domain_name s q) o
      → Fails
          (with_services parse_ip split_domain_name seconds now
            (with_registry s (get seconds now split_domain_name s.registry (key_of s q)).1)
            q
            (key_of s q)
            o).0.1
  fails _ e (missing none_matches) = inr (refl, none_matches)
  fails _ e (found services u t known matched lists) =
      inl (others-none services _ e, (u, t, known, matched))

  pub get_srv_records-Fails : Fails (get_srv_records parse_ip split_domain_name seconds now s q).0.1
  unfolding get_srv_records
  get_srv_records-Fails =
      fails (get seconds now split_domain_name s.registry (key_of s q)).0 refl
        (get-Answer seconds now s.registry consistent split_domain_name (key_of s q) six)

  module _ (fqdn : Text → Text) (split_host_port : Text → Option Text) (id : ℕ → ℕ)
      (qname : Text) where
    after_services-Denied :
        (x : ((List Rr × List Rr) × Option Error) × Server)
        → Fails x.0.1
        → (m : Message) × (t : Server) × (after_services fqdn now q (new_reply qname) x
            ≡ some (m, t))
          × Denied split_domain_name s q m
    after_services-Denied (((records, extra), none), t) (inl (e, exists)) = (
      _,
      _,
      refl,
      inl (
        or_nodata-rcode fqdn now t (Serve.with_services fqdn now q (new_reply qname) records extra)
            ∙ with_services-rcode fqdn now q (new_reply qname) records extra,
        exists,
      ),
    )
    after_services-Denied (((records, extra), none), t) (inr (e, unknown)) = absurd (none-some e)
    after_services-Denied (((records, extra), some d), t) (inl (e, exists)) =
        absurd (none-some (sym e))
    after_services-Denied (((records, extra), some not_exists), t) (inr (e, unknown)) =
        (_, _, refl, inr (refl, refl, unknown))
    after_services-Denied (((records, extra), some Error.exists), t) (inr (e, unknown)) = cc
    after_services-Denied (((records, extra), some Error.panic), t) (inr (e, unknown)) = cc

    -- On a server whose registry is consistent, a question that is not for addresses and not for the
    -- domain itself, with a key that makes a pattern of six labels and that the library reads as its
    -- labels: the reply is NXDOMAIN, with no answer, exactly if no registered service matches, and is
    -- otherwise a success.
    pub local_reply-Denied :
        domain_answer fqdn now s q ≡ none
        → asks_address q.qtype ≡ false
        → (m : Message) × (t : Server) × (local_reply fqdn now parse_ip split_host_port
              split_domain_name seconds id s qname q
            ≡ some (m, t))
          × Denied split_domain_name s q m
    unfolding local_reply
    local_reply-Denied apart other =
        rw (local_reply, apart, other)
          (after_services-Denied (get_srv_records parse_ip split_domain_name seconds now s q)
            get_srv_records-Fails)
