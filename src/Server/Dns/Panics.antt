-- ===== src/Server/Dns/Panics.antt =====
-- server/server.go: the lookups of `getSRVRecords` and `getARecords` do not panic.
use skydns.Shared.{
  ℕ, ℤ, if◌then◌else◌, ◌++◌, Text, txt, text_eq, dot, ltb, leb, ◌||◌, List, [], ◌∷◌, Option, none,
  some, join, take, length, ◌-◌, trim_suffix, ◌≢◌, refl, Bool-cases, inl, inr,
}
use skydns.Msg.{Service}
use skydns.Registry.Tree.{Error, Result, ok, err, not_exists, panic}
use skydns.Registry.{Registry, get, get_uuid}
use skydns.Registry.Consistency.{IsConsistent}
use skydns.Registry.Consistency.Updates.{get-IsConsistent}
use skydns.Registry.Panics.{get-panic, get_uuid-panic}
use skydns.Server.{Server, leader, members, with_registry}
use skydns.Server.Dns.{
  Ip, Rr, Question, region_of, added_elsewhere, other_regions, with_services, get_srv_records,
  Records, LookupError, bad_address, unknown, panicked,
}
use skydns.Server.Dns.Addresses.{
  after_host, member_records, by_uuid, by_uuid_after_none, found_services, service_answer,
  get_a_records,
}

none-panic : none ≢ some Error.panic
none-panic e = cc

none-panicked : none ≢ some panicked
none-panicked e = cc

bad_address-panicked : some bad_address ≢ some panicked
bad_address-panicked e = cc

unknown-panicked : (e : Error) → some (unknown e) ≢ some panicked
unknown-panicked e h = cc

module _ (parse_ip : Text → Ip) (split_domain_name : Text → List Text) (seconds : ℤ → ℕ) (now : ℕ)
    (q : Question) where
  added_elsewhere-panic :
      (s : Server) (services : List Service) (region : Text) (kept : Records parse_ip)
      (o : Result (List Service))
      → o ≢ err panic
      → (added_elsewhere parse_ip s q services region kept o).1 ≢ some Error.panic
  added_elsewhere-panic s services region kept (err e) calm = λ h. calm (cc h)
  added_elsewhere-panic s services region kept (ok more) calm =
      elim (Bool-cases (leb (length more) (length services))) [
        | inl e ↦ rw e none-panic
        | inr e ↦ rw e none-panic
      ]

  other_regions-panic :
      (s : Server) (services : List Service) (kept : Records parse_ip)
      (o : Option (Text × List Text))
      → (other_regions parse_ip split_domain_name seconds now s q services kept o).0.1
        ≢ some Error.panic
  other_regions-panic s services kept none = none-panic
  other_regions-panic s services kept (some (region, labels)) =
      added_elsewhere-panic s services region kept
        (get seconds now split_domain_name s.registry (join labels)).0
        (get-panic seconds now split_domain_name s.registry (join labels))

  with_services-panic :
      (s : Server) (key : Text) (o : Result (List Service))
      → o ≢ err panic
      → (with_services parse_ip split_domain_name seconds now s q key o).0.1 ≢ some Error.panic
  with_services-panic s key (err e) calm = λ h. calm (cc h)
  with_services-panic s key (ok services) calm =
      other_regions-panic s services _ (region_of parse_ip (split_domain_name key))

  -- `getSRVRecords` does not panic.
  pub get_srv_records-panic :
      (s : Server)
      → (get_srv_records parse_ip split_domain_name seconds now s q).0.1 ≢ some Error.panic
  unfolding get_srv_records
  get_srv_records-panic s =
      let key = trim_suffix q.name (s.domain ++ dot ∷ []) in
      with_services-panic _ key (get seconds now split_domain_name s.registry key).0
        (get-panic seconds now split_domain_name s.registry key)

  module _ (split_host_port : Text → Option Text) where
    after_host-panicked :
        (h : Option Text) (rest : List Rr × Option LookupError)
        → rest.1 ≢ some panicked
        → (after_host parse_ip split_host_port q h rest).1 ≢ some panicked
    after_host-panicked none rest calm = bad_address-panicked
    after_host-panicked (some h) rest calm = calm

    member_records-panicked :
        (ms : List Text) (rest : List Rr × Option LookupError)
        → rest.1 ≢ some panicked
        → (member_records parse_ip split_host_port q ms rest).1 ≢ some panicked
    member_records-panicked [] rest calm = calm
    member_records-panicked (m ∷ ms) rest calm =
        after_host-panicked (split_host_port m) _ (member_records-panicked ms rest calm)

    by_uuid-panicked :
        (s : Server) (e : Error) (o : Result Service × Registry)
        → o.0 ≢ err panic
        → (by_uuid parse_ip split_host_port q s e o).0.1 ≢ some panicked
    by_uuid-panicked s e (ok t, r) calm = none-panicked
    by_uuid-panicked s e (err Error.panic, r) calm = absurd (calm refl)
    by_uuid-panicked s e (err not_exists, r) calm = unknown-panicked e
    by_uuid-panicked s e (err Error.exists, r) calm = unknown-panicked e

    by_uuid_after_none-panicked :
        (s : Server) (o : Result Service × Registry)
        → o.0 ≢ err panic
        → (by_uuid_after_none parse_ip split_host_port q s o).0.1 ≢ some panicked
    by_uuid_after_none-panicked s (ok t, r) calm = none-panicked
    by_uuid_after_none-panicked s (err Error.panic, r) calm = absurd (calm refl)
    by_uuid_after_none-panicked s (err not_exists, r) calm = none-panicked
    by_uuid_after_none-panicked s (err Error.exists, r) calm = none-panicked

    module _ (s : Server) (consistent : IsConsistent s.registry) (key : Text) where
      lookup_calm : (get_uuid seconds now s.registry (take (length key - 1) key)).0 ≢ err panic
      lookup_calm = get_uuid-panic seconds now s.registry consistent (take (length key - 1) key)

      failed_calm :
          (e : Error)
          → (let lookup = get_uuid seconds now s.registry (take (length key - 1) key) in
              if ltb 1 (length key)
              then by_uuid parse_ip split_host_port q s e lookup
              else (([], some (unknown e)), s)).0.1
            ≢ some panicked
      failed_calm e = elim (Bool-cases (ltb 1 (length key))) [
        | inl long ↦ rw long (by_uuid-panicked s e _ lookup_calm)
        | inr short ↦ rw short (unknown-panicked e)
      ]

      found_services-panicked :
          (o : Result (List Service))
          → o ≢ err panic
          → (found_services parse_ip split_host_port split_domain_name seconds now q s key o).0.1
            ≢ some panicked
      found_services-panicked (ok (t ∷ l)) calm = none-panicked
      found_services-panicked (ok []) calm = elim (Bool-cases (ltb 1 (length key))) [
        | inl long ↦ rw long (by_uuid_after_none-panicked s _ lookup_calm)
        | inr short ↦ rw short none-panicked
      ]
      found_services-panicked (err Error.panic) calm = absurd (calm refl)
      found_services-panicked (err not_exists) calm = failed_calm not_exists
      found_services-panicked (err Error.exists) calm = failed_calm Error.exists

    module _ (s : Server) (consistent : IsConsistent s.registry) where
      service_answer-panicked :
          (service_answer parse_ip split_host_port split_domain_name seconds now q s).0.1
          ≢ some panicked
      service_answer-panicked =
          let key = trim_suffix q.name (s.domain ++ dot ∷ []) in
          let (result, r) = get seconds now split_domain_name s.registry key in
          found_services-panicked (with_registry s r)
            (get-IsConsistent s.registry consistent seconds now split_domain_name key) key result
            (get-panic seconds now split_domain_name s.registry key)

      of_leader-panicked :
          (member_records parse_ip split_host_port q (leader s ∷ []) ([], none)).1 ≢ some panicked
      of_leader-panicked = member_records-panicked (leader s ∷ []) ([], none) none-panicked

      -- `getARecords` does not panic on a server whose registry is consistent.
      pub get_a_records-panicked :
          (get_a_records parse_ip split_host_port split_domain_name seconds now s q).0.1
          ≢ some panicked
      unfolding get_a_records
      get_a_records-panicked =
          let name = trim_suffix q.name (dot ∷ []) in
          elim (Bool-cases (text_eq name s.domain)) [
            | inl own ↦
                rw (get_a_records, own) (member_records-panicked (members s) _ of_leader-panicked)
            | inr other ↦
                elim (Bool-cases (
                  text_eq name (txt "leader." ++ s.domain)
                  || text_eq name (txt "master." ++ s.domain))) [
                    | inl leads ↦ rw (get_a_records, other, leads) of_leader-panicked
                    | inr serves ↦ rw (get_a_records, other, serves) service_answer-panicked
                  ]
          ]
