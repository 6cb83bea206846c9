-- ===== src/Server/Dns/Discovery.antt =====
-- The SRV records against the services that the registry holds.
use skydns.Shared.{
  ℕ, ℤ, map, All, append-nil, true, ◌++◌, Text, dot, leb, List, [], ◌∷◌, Option, none, some,
  reverse, length, In, trim_suffix, join, ◌-◌, ◌≡◌, ◌≢◌, ◌↔◌, ◌⊎◌, refl, ap, sym, ◌∙◌, Bool-cases,
  inl, inr,
}
use skydns.Msg.{Service}
use skydns.Registry.Tree.{Error, Result, ok, err, not_exists}
use skydns.Registry.{Registry, path_of, pattern_of, get}
use skydns.Registry.Query.Enumerate.{matches}
use skydns.Registry.Consistency.{IsConsistent}
use skydns.Registry.View.{view}
use skydns.Registry.Lookup.{IsAnswer, Answer, missing, found, get-Answer}
use skydns.Server.{Server, with_registry}
use skydns.Server.Dns.{
  Ip, not_ip, v4, v6, Rr, srv, Question, share, srv_of, srv_each, added_elsewhere, other_regions,
  with_services, get_srv_records, Records, elsewhere, region_of,
}

abbrev pub priority_of : Rr → ℕ
priority_of (srv name ttl priority weight port target) = priority
priority_of _ = 0

-- The name that a service is reached by: its host, or for an address a name of its own.
abbrev pub target : Text → Service → Ip → Text
target domain t not_ip = t.host ++ dot ∷ []
target domain t (v4 ip) = t.uuid ++ dot ∷ (domain ++ dot ∷ [])
target domain t (v6 ip) = t.uuid ++ dot ∷ (domain ++ dot ∷ [])

module _ (parse_ip : Text → Ip) (q : Question) where
  abbrev pub srv_record : Text → ℕ → ℕ → Service → Rr
  srv_record domain priority weight t =
      srv q.name t.ttl priority weight t.port (target domain t (parse_ip t.host))

  srv_of-srv_record :
      (s : Server) (priority weight : ℕ) (t : Service) (ip : Ip)
      → (srv_of parse_ip s q priority weight t ip).0
        ≡ srv q.name t.ttl priority weight t.port (target s.domain t ip)
  srv_of-srv_record s priority weight t not_ip = refl
  srv_of-srv_record s priority weight t (v4 ip) = refl
  srv_of-srv_record s priority weight t (v6 ip) = refl

  srv_each-eq-map :
      (s : Server) (priority weight : ℕ) (l : List Service)
      → (srv_each parse_ip s q priority weight l).0 ≡ map (srv_record s.domain priority weight) l
  srv_each-eq-map s priority weight [] = refl
  srv_each-eq-map s priority weight (u ∷ l) =
      rw
        (
          srv_of-srv_record s priority weight u (parse_ip u.host),
          srv_each-eq-map s priority weight l,
        )
        refl

  priority_of-map :
      (domain : Text) (weight : ℕ) (l : List Service)
      → All (λ rr. priority_of rr ≡ 20) (map (srv_record domain 20 weight) l)
  priority_of-map domain weight [] = tt
  priority_of-map domain weight (u ∷ l) = (refl, priority_of-map domain weight l)

  -- Records that are kept, and behind them others of priority 20.
  abbrev Extends : List Rr → List Rr → Type 0
  Extends l m = (more : List Rr) × (m ≡ l ++ more) × All (λ rr. priority_of rr ≡ 20) more

  Extends-refl : (l : List Rr) → Extends l l
  Extends-refl l = ([], sym (append-nil l), tt)

  added_elsewhere-Extends :
      (s : Server) (services : List Service) (region : Text) (kept : Records parse_ip)
      (o : Result (List Service))
      → Extends kept.0 (added_elsewhere parse_ip s q services region kept o).0.0
  added_elsewhere-Extends s services region kept (err e) = Extends-refl kept.0
  added_elsewhere-Extends s services region kept (ok more) =
      let weight = share (length more - length services) in
      let others = elsewhere parse_ip region more in
      elim (Bool-cases (leb (length more) (length services))) [
        | inl none_more ↦ rw none_more (Extends-refl kept.0)
        | inr some_more ↦ rw some_more (
          map (srv_record s.domain 20 weight) others,
          ap (λ l. kept.0 ++ l) (srv_each-eq-map s 20 weight others),
          priority_of-map s.domain weight others,
        )
      ]

  module _ (split_domain_name : Text → List Text) (seconds : ℤ → ℕ) (now : ℕ) where
    other_regions-Extends :
        (s : Server) (services : List Service) (kept : Records parse_ip)
        (o : Option (Text × List Text))
        → Extends kept.0
            (other_regions parse_ip split_domain_name seconds now s q services kept o).0.0.0
    other_regions-Extends s services kept none = Extends-refl kept.0
    other_regions-Extends s services kept (some (region, labels)) =
        added_elsewhere-Extends s services region kept
          (get seconds now split_domain_name s.registry (join labels)).0

    -- What `getSRVRecords` answers of a registry, a key and its pattern.
    abbrev pub Discovered : Registry → Text → Text → Records parse_ip × Option Error → Type 0
    Discovered r key domain answered =
        let pattern = reverse (pattern_of split_domain_name key) in
        ((answered.0 ≡ ([], []))
          × (answered.1 ≡ some not_exists)
          × ((u : Text) (t : Service) → view r u ≡ some t → matches pattern (path_of t) ≢ true))
        ⊎ ((services : List Service) × (more : List Rr) × ((get seconds now split_domain_name r
                key).0
              ≡ ok services)
            × ((t : Service) → In t services ↔ IsAnswer seconds now r pattern t)
            × (answered.0.0 ≡ map (srv_record domain 10 (share (length services))) services ++ more)
            × All (λ rr. priority_of rr ≡ 20) more)

    with_services-Discovered :
        (r : Registry) (s : Server) (key : Text) (o : Result (List Service))
        → (get seconds now split_domain_name r key).0 ≡ o
        → Answer seconds now r (reverse (pattern_of split_domain_name key)) o
        → Discovered r key s.domain
            (with_services parse_ip split_domain_name seconds now s q key o).0
    with_services-Discovered r s key _ result (missing none_matches) =
        inl (refl, refl, none_matches)
    with_services-Discovered r s key _ result (found services u t known matched lists) =
        let weight = share (length services) in
        let (more, extends, others) =
          other_regions-Extends s services (srv_each parse_ip s q 10 weight services)
            (region_of parse_ip (split_domain_name key)) in
        inr (
          services,
          more,
          result,
          lists,
          extends ∙ ap (λ l. l ++ more) (srv_each-eq-map s 10 weight services),
          others,
        )

    -- On a server whose registry is consistent, for a name whose key makes a pattern of six labels:
    -- if no registered service matches, `getSRVRecords` returns no record and the error of the
    -- registry. Otherwise `Get` lists, for the key, the registered services that match and whose
    -- `RemainingTTL` is above 1, each with that as its TTL, and the records are first one for each of
    -- these, in their order, of priority 10 and of the weight 100 divided by their number, rounded down, with the
    -- service's TTL, port and target, and then others of priority 20.
    pub get_srv_records-Discovered :
        (s : Server)
        → IsConsistent s.registry
        → length
            (reverse (pattern_of split_domain_name (trim_suffix q.name (s.domain ++ dot ∷ []))))
          ≡ 6
        → Discovered s.registry
            (trim_suffix q.name (s.domain ++ dot ∷ []))
            s.domain
            (get_srv_records parse_ip split_domain_name seconds now s q).0
    unfolding get_srv_records
    get_srv_records-Discovered s consistent six =
        let key = trim_suffix q.name (s.domain ++ dot ∷ []) in
        let (result, r) = get seconds now split_domain_name s.registry key in
        with_services-Discovered s.registry (with_registry s r) key result refl
          (get-Answer seconds now s.registry consistent split_domain_name key six)
