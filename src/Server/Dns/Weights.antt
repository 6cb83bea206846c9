-- ===== src/Server/Dns/Weights.antt =====
-- The weights of the SRV records.
use native.Mathlib.Nat
use skydns.Shared.{
  ℕ, suc, ◌+◌, ◌-◌, ◌*◌, ◌/◌, ◌^◌, ◌≤◌, Text, dot, nat_eq, leb, List, [], ◌∷◌, ◌++◌, Option, none,
  some, length, if◌then◌else◌, ℤ, join, trim_suffix, ◌≡◌, refl, ◌∙◌, arith, Bool-cases, inl, inr,
}
use skydns.Msg.{Service}
use skydns.Registry.Tree.{Result, ok, err}
use skydns.Registry.{get}
use skydns.Server.{Server, with_registry}
use skydns.Server.Dns.{
  Ip, not_ip, v4, v6, Rr, a, aaaa, srv, soa, Question, share, srv_of, srv_each, both,
  added_elsewhere, other_regions, with_services, get_srv_records, Records, elsewhere,
}
use skydns.Server.Dns

-- The weight of a record of the priority.
abbrev pub weight_of : ℕ → Rr → ℕ
weight_of p (a name ttl ip) = 0
weight_of p (aaaa name ttl ip) = 0
weight_of p (srv name ttl priority weight port target) = if nat_eq priority p then weight else 0
weight_of p _ = 0

abbrev pub total_weight : ℕ → List Rr → ℕ
total_weight p [] = 0
total_weight p (rr ∷ l) = weight_of p rr + total_weight p l

total_weight-append :
    (p : ℕ) (l m : List Rr) → total_weight p (l ++ m) ≡ total_weight p l + total_weight p m
total_weight-append p [] m = omega arith
total_weight-append p (rr ∷ l) m = ground (arith, total_weight-append p l m)

module _ (parse_ip : Text → Ip) (s : Server) (q : Question) where
  weight-srv_of :
      (p priority weight : ℕ) (serv : Service) (ip : Ip)
      → weight_of p (srv_of parse_ip s q priority weight serv ip).0
        ≡ (if nat_eq priority p then weight else 0)
  weight-srv_of p priority weight serv not_ip = refl
  weight-srv_of p priority weight serv (v4 ip) = refl
  weight-srv_of p priority weight serv (v6 ip) = refl

  weight-srv_each :
      (p priority weight : ℕ) (l : List Service)
      → total_weight p (srv_each parse_ip s q priority weight l).0
        ≡ (if nat_eq priority p then length l * weight else 0)
  weight-srv_each p priority weight [] = elim (Bool-cases (nat_eq priority p)) [
    | inl e ↦ rw e (omega arith)
    | inr e ↦ rw e refl
  ]
  weight-srv_each p priority weight (serv ∷ l) =
      weight_step p priority weight (parse_ip serv.host) (weight-srv_each p priority weight l)
    where
      weight_step :
          (p priority weight : ℕ) (ip : Ip)
          → total_weight p (srv_each parse_ip s q priority weight l).0
            ≡ (if nat_eq priority p then length l * weight else 0)
          → weight_of p (srv_of parse_ip s q priority weight serv ip).0
              + total_weight p (srv_each parse_ip s q priority weight l).0
            ≡ (if nat_eq priority p then suc (length l) * weight else 0)
      weight_step p priority weight ip below =
          rw (weight-srv_of p priority weight serv ip, below)
            (elim (Bool-cases (nat_eq priority p)) [
              | inl e ↦ rw (e, Nat.suc-mul (length l) weight) (omega arith)
              | inr e ↦ rw e (omega arith)
            ])

  share_le : (n : ℕ) → n * share n ≤ 100
  share_le n =
      Nat.le_trans (Nat.mul-le-mul_left n (Nat.mod-le (100 / n) (2 ^ 16))) (Nat.mul-div-le 100 n)

  first_le :
      (l : List Service) → total_weight 10 (srv_each parse_ip s q 10 (share (length l)) l).0 ≤ 100
  first_le l = rw (weight-srv_each 10 10 (share (length l)) l) (share_le (length l))

  weight-both :
      (p : ℕ) (found more : Records parse_ip)
      → total_weight p (both parse_ip found more).0 ≡ total_weight p found.0 + total_weight p more.0
  weight-both p (records, extra) (more, extras) = total_weight-append p records more

  weight-added_elsewhere :
      (services : List Service) (region : Text) (found : Records parse_ip)
      (o : Result (List Service))
      → total_weight 10 (added_elsewhere parse_ip s q services region found o).0.0
        ≡ total_weight 10 found.0
  weight-added_elsewhere services region found (err e) = refl
  weight-added_elsewhere services region found (ok more) =
      elim (Bool-cases (leb (length more) (length services))) [
        | inl e ↦ rw e refl
        | inr e ↦
            let weight = share (length more - length services) in
            rw e (
              weight-both 10 found
                (srv_each parse_ip s q 20 weight (elsewhere parse_ip region more))
              ∙ rw (weight-srv_each 10 20 weight (elsewhere parse_ip region more)) (omega arith))
      ]

module _ (parse_ip : Text → Ip) (split_domain_name : Text → List Text) (seconds : ℤ → ℕ) (now : ℕ)
    (q : Question) where
  weight-other_regions :
      (s : Server) (services : List Service) (found : Records parse_ip)
      (o : Option (Text × List Text))
      → total_weight 10
          (other_regions parse_ip split_domain_name seconds now s q services found o).0.0.0
        ≡ total_weight 10 found.0
  weight-other_regions s services found none = refl
  weight-other_regions s services found (some (region, labels)) =
      weight-added_elsewhere parse_ip s q services region found
        (get seconds now split_domain_name s.registry (join labels)).0

  weight-with_services :
      (s : Server) (key : Text) (o : Result (List Service))
      → total_weight 10 (with_services parse_ip split_domain_name seconds now s q key o).0.0.0 ≤ 100
  weight-with_services s key (err e) = omega arith
  weight-with_services s key (ok services) =
      rw
        (weight-other_regions s services
          (srv_each parse_ip s q 10 (share (length services)) services)
          (Dns.region_of parse_ip (split_domain_name key)))
        (first_le parse_ip s q services)

  -- The SRV records of the highest priority, those of the name that was asked for, share a weight of
  -- at most 100, whether other regions are added or not.
  pub weight-get_srv_records :
      (s : Server)
      → total_weight 10 (get_srv_records parse_ip split_domain_name seconds now s q).0.0.0 ≤ 100
  unfolding get_srv_records
  weight-get_srv_records s =
      let key = trim_suffix q.name (s.domain ++ dot ∷ []) in
      let (result, r) = get seconds now split_domain_name s.registry key in
      weight-with_services (with_registry s r) key result
