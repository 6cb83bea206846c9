-- ===== src/Server/Serve/Replies.antt =====
-- The three kinds of reply that the server gives of its own, and what stands in them.
use mathlib.Core.List.{Permᴰ}
use mathlib.Core.List.Permᴰ
use mathlib.Core.Path.{subst}
use skydns.Shared.{
  ℕ, ℤ, ◌++◌, Text, Bool, true, false, List, [], ◌∷◌, Option, none, some, if◌then◌else◌, All, ◌≡◌,
  ◌≢◌, ◌⊎◌, refl, sym, Bool-cases, inl, inr,
}
use skydns.Registry.Tree.{Error, not_exists}
use skydns.Registry.Consistency.{IsConsistent}
use skydns.Server.Dns.Panics.{get_srv_records-panic, get_a_records-panicked}
use skydns.Server.{Server}
use skydns.Server.Dns.{
  Ip, Rr, Qtype, type_a, type_aaaa, type_srv, type_any, type_soa, type_dnskey, other_type, Question,
  LookupError, bad_address, unknown, panicked, get_srv_records,
}
use skydns.Server.Dns.Addresses.{get_a_records, create_soa}
use skydns.Server.Dns.Answers.{Answers, get_a_records-Answers}
use skydns.Server.RoundRobin.{shuffle}
use skydns.Server.RoundRobin.Shuffle.{IsShuffled, shuffle-IsShuffled}
use skydns.Server.Serve.{
  success, name_error, Message, new_reply, is_empty, asks_address, asks_service, domain_answer,
  or_nodata, nxdomain, with_services, after_services, service_reply, rotated, with_addresses,
  after_addresses, unless_domain, local_reply,
}

All-Permᴰ {ℓ κ} : {A : Type ℓ} (P : A → Type κ) {l m : List A} → Permᴰ l m → All P m → All P l
All-Permᴰ P Permᴰ.nil h = tt
All-Permᴰ P (Permᴰ.cons e p) (h, r) = (subst P (sym e) h, All-Permᴰ P p r)
All-Permᴰ P (Permᴰ.swap e f) (h, (k, r)) = (subst P (sym e) k, (subst P (sym f) h, r))
All-Permᴰ P (Permᴰ.trans p q) h = All-Permᴰ P p (All-Permᴰ P q h)

asks_service-eq-false : (t : Qtype) → asks_address t ≡ true → asks_service t ≡ false
asks_service-eq-false type_a e = refl
asks_service-eq-false type_aaaa e = refl
asks_service-eq-false type_srv e = cc
asks_service-eq-false type_any e = cc
asks_service-eq-false type_soa e = cc
asks_service-eq-false type_dnskey e = cc
asks_service-eq-false other_type e = cc

is_empty-true {ℓ} : {A : Type ℓ} (l : List A) → is_empty l ≡ true → l ≡ []
is_empty-true [] e = refl
is_empty-true (x ∷ l) e = cc

is_empty-false {ℓ} : {A : Type ℓ} (l : List A) → is_empty l ≡ false → l ≢ []
is_empty-false [] e h = cc
is_empty-false (x ∷ l) e h = cc

module _ (fqdn : Text → Text) (now : ℕ) where
  -- A reply that denies the name, one that denies the type, and one with an answer.
  abbrev pub IsReply : Message → Server → Type 0
  IsReply m s =
      ((m.rcode ≡ name_error) × (m.answer ≡ []) × (m.ns ≡ create_soa fqdn now s))
      ⊎ ((m.rcode ≡ success) × (m.answer ≡ []) × (m.ns ≡ create_soa fqdn now s))
      ⊎ ((m.rcode ≡ success) × (m.answer ≢ []) × (m.ns ≡ []))

  -- A question for addresses is answered with addresses of its name and its type alone.
  abbrev pub IsFitting : Question → Message → Type 0
  IsFitting q m = asks_address q.qtype ≡ true → All (Answers q) m.answer

  or_nodata-IsReply :
      (s : Server) (m : Message)
      → m.rcode ≡ success
      → m.ns ≡ []
      → IsReply (or_nodata fqdn now s m) s
  or_nodata-IsReply s m ok empty = elim (Bool-cases (is_empty m.answer)) [
    | inl e ↦ rw e (inr (inl (ok, is_empty-true m.answer e, refl)))
    | inr e ↦ rw e (inr (inr (ok, is_empty-false m.answer e, empty)))
  ]

  pub answer-or_nodata : (s : Server) (m : Message) → (or_nodata fqdn now s m).answer ≡ m.answer
  answer-or_nodata s m = elim (Bool-cases (is_empty m.answer)) [
    | inl e ↦ rw e refl
    | inr e ↦ rw e refl
  ]

  pub or_nodata-rcode : (s : Server) (m : Message) → (or_nodata fqdn now s m).rcode ≡ m.rcode
  or_nodata-rcode s m = elim (Bool-cases (is_empty m.answer)) [
    | inl e ↦ rw e refl
    | inr e ↦ rw e refl
  ]

  pub with_services-rcode :
      (q : Question) (m : Message) (records extra : List Rr)
      → (with_services fqdn now q m records extra).rcode ≡ m.rcode
  with_services-rcode q m records extra = elim (Bool-cases (asks_service q.qtype)) [
    | inl e ↦ rw e refl
    | inr e ↦ rw e refl
  ]

  with_services-IsReply :
      (q : Question) (s : Server) (m : Message) (records extra : List Rr)
      → m.rcode ≡ success
      → m.ns ≡ []
      → IsFitting q m
      → IsReply (or_nodata fqdn now s (with_services fqdn now q m records extra)) s
        × IsFitting q (or_nodata fqdn now s (with_services fqdn now q m records extra))
  with_services-IsReply q s m records extra ok empty fits =
      elim (Bool-cases (asks_service q.qtype)) [
        | inl service ↦ rw service (
          or_nodata-IsReply s (record m { answer = m.answer ++ records; extra = m.extra ++ extra })
              ok empty,
          λ address. absurd (cc (asks_service-eq-false q.qtype address)),
        )
        | inr other ↦
            rw other
              (or_nodata-IsReply s m ok empty, λ address. rw (answer-or_nodata s m) (fits address))
      ]

  unless_empty-IsReply :
      (q : Question) (m : Message) (s : Server) (records extra : List Rr)
      → m.rcode ≡ success
      → m.ns ≡ []
      → IsFitting q m
      → let m' =
          if is_empty m.answer
          then nxdomain fqdn now s m
          else or_nodata fqdn now s (with_services fqdn now q m records extra) in
        IsReply m' s × IsFitting q m'
  unless_empty-IsReply q m s records extra ok empty fits = elim (Bool-cases (is_empty m.answer)) [
    | inl e ↦ rw e (inl (refl, is_empty-true m.answer e, refl), fits)
    | inr e ↦ rw e (with_services-IsReply q s m records extra ok empty fits)
  ]

  -- What the reply to a question is.
  abbrev pub IsServed : Question → Option (Message × Server) → Type 0
  IsServed q o = (m : Message) × (s : Server) × (o ≡ some (m, s)) × IsReply m s × IsFitting q m

  after_services-IsServed :
      (q : Question) (m : Message) (o : ((List Rr × List Rr) × Option Error) × Server)
      → m.rcode ≡ success
      → m.ns ≡ []
      → IsFitting q m
      → o.0.1 ≢ some Error.panic
      → IsServed q (after_services fqdn now q m o)
  after_services-IsServed q m (((records, extra), none), s) ok empty fits calm =
      let (reply, fitting) = with_services-IsReply q s m records extra ok empty fits in
      (_, _, refl, reply, fitting)
  after_services-IsServed q m (((records, extra), some Error.panic), s) ok empty fits calm =
      absurd (calm refl)
  after_services-IsServed q m (((records, extra), some not_exists), s) ok empty fits calm =
      let (reply, fitting) = unless_empty-IsReply q m s records extra ok empty fits in
      (_, _, refl, reply, fitting)
  after_services-IsServed q m (((records, extra), some Error.exists), s) ok empty fits calm =
      let (reply, fitting) = unless_empty-IsReply q m s records extra ok empty fits in
      (_, _, refl, reply, fitting)

  module _ (parse_ip : Text → Ip) (split_host_port : Text → Option Text)
      (split_domain_name : Text → List Text) (seconds : ℤ → ℕ) (id : ℕ → ℕ) where
    service_reply-IsServed :
        (q : Question) (m : Message) (s : Server)
        → m.rcode ≡ success
        → m.ns ≡ []
        → IsFitting q m
        → IsServed q
            (service_reply fqdn now parse_ip split_host_port split_domain_name seconds id q m s)
    service_reply-IsServed q m s ok empty fits =
        after_services-IsServed q m (get_srv_records parse_ip split_domain_name seconds now s q) ok
          empty fits (get_srv_records-panic parse_ip split_domain_name seconds now q s)

    if_IsShuffled :
        (b : Bool) (records : List Rr)
        → IsShuffled records (if b then shuffle id records else some records)
    if_IsShuffled true records = shuffle-IsShuffled id records
    if_IsShuffled false records = (records, refl, Permᴰ.refl records)

    with_addresses-IsServed :
        (q : Question) (qname : Text) (s : Server) (records : List Rr) (o : Option (List Rr))
        → IsShuffled records o
        → All (Answers q) records
        → IsServed q (
            with_addresses fqdn now parse_ip split_host_port split_domain_name seconds id q
              (new_reply qname)
              o
              s)
    with_addresses-IsServed q qname s records none (l, e, p) fits = cc
    with_addresses-IsServed q qname s records (some l') (l, e, p) fits =
        let same : l' ≡ l = cc in
        service_reply-IsServed q (record (new_reply qname) { answer = l' }) s refl refl
          (λ address. rw same (All-Permᴰ (Answers q) p fits))

    after_addresses-IsServed :
        (q : Question) (qname : Text) (o : (List Rr × Option LookupError) × Server)
        → All (Answers q) o.0.0
        → o.0.1 ≢ some panicked
        → IsServed q (
            after_addresses fqdn now parse_ip split_host_port split_domain_name seconds id q
              (new_reply qname)
              o)
    after_addresses-IsServed q qname ((records, some panicked), s) fits calm = absurd (calm refl)
    after_addresses-IsServed q qname ((records, some bad_address), s) fits calm =
        (_, _, refl, inl (refl, refl, refl), λ address. tt)
    after_addresses-IsServed q qname ((records, some (unknown e)), s) fits calm =
        (_, _, refl, inl (refl, refl, refl), λ address. tt)
    after_addresses-IsServed q qname ((records, none), s) fits calm =
        with_addresses-IsServed q qname s records
          (rotated fqdn now parse_ip split_host_port split_domain_name seconds id s records)
          (if_IsShuffled s.round_robin records) fits

    unless_domain-IsServed :
        (q : Question) (qname : Text) (s : Server)
        → IsConsistent s.registry
        → IsServed q (
            unless_domain fqdn now parse_ip split_host_port split_domain_name seconds id none q
              (new_reply qname)
              s)
    unless_domain-IsServed q qname s consistent = by_type (asks_address q.qtype) refl
      where
        by_type :
            (b : Bool)
            → asks_address q.qtype ≡ b
            → IsServed q (
                if b
                then after_addresses fqdn now parse_ip split_host_port split_domain_name seconds id
                    q
                    (new_reply qname)
                    (get_a_records parse_ip split_host_port split_domain_name seconds now s q)
                else service_reply fqdn now parse_ip split_host_port split_domain_name seconds id q
                    (new_reply qname)
                    s)
        by_type true e =
            after_addresses-IsServed q qname
              (get_a_records parse_ip split_host_port split_domain_name seconds now s q)
              (get_a_records-Answers q parse_ip split_host_port split_domain_name seconds now s)
              (get_a_records-panicked parse_ip split_domain_name seconds now q split_host_port s
                consistent)
        by_type false e = service_reply-IsServed q (new_reply qname) s refl refl (λ address. cc)

    -- On a server whose registry is consistent, the handler makes of a question of the server's own
    -- domain, but for its SOA record and its key, one of three replies, before the deferred denial and
    -- signing, and does not panic up to there: the name is denied, or the type is, both with no answer
    -- and with the SOA record as the authority, or there is an answer and no authority. A question for
    -- addresses is answered with addresses of its name and its type alone.
    pub local_reply-IsServed :
        (s : Server) (qname : Text) (q : Question)
        → IsConsistent s.registry
        → domain_answer fqdn now s q ≡ none
        → IsServed q
            (local_reply fqdn now parse_ip split_host_port split_domain_name seconds id s qname q)
    unfolding local_reply
    local_reply-IsServed s qname q consistent e =
        rw (local_reply, e) (unless_domain-IsServed q qname s consistent)
