-- ===== src/Server/Dnssec/Sign/Complete.antt =====
-- How many signatures a reply gets.
use skydns.Shared.{
  ℕ, suc, ◌-◌, ◌*◌, Text, text_Comparable, Bool, List, [], ◌∷◌, Option, none, some, if◌then◌else◌,
  length, length-append, ◌≡◌, ◌≢◌, refl, sym, ◌∙◌, arith, Bool-cases, inl, inr,
}
use skydns.Server.{DnsKey}
use skydns.Server.Dns.{Rr, Rrsig}
use skydns.Server.Dnssec.{Rrset, cache_search, cache_remove}
use skydns.Server.Dnssec.Sign.{
  Cache, cache_key, is_rrsig, hour, new_signature, remembered, sign_unless, sign_set, sign_sets,
}

module _ (empty_hash : Text) (sign_with : Rrsig → List Rr → Option Rrsig) (valid : Rrsig → ℕ → Bool)
    (flight : Text → Option Rrsig → Option Rrsig × Bool) where
  -- The sets that are to be signed.
  abbrev pub to_sign : List (Rrset × List Rr) → ℕ
  to_sign [] = 0
  to_sign ((name, []) ∷ sets) = to_sign sets
  to_sign ((name, r ∷ rrs) ∷ sets) =
      let rest = to_sign sets in if is_rrsig r then rest else suc rest

  module _ (alone : (key : Text) (o : Option Rrsig) → (flight key o).0 ≡ o)
      (signs : (template : Rrsig) (rrs : List Rr) → sign_with template rrs ≢ none) (k : DnsKey)
      (key_tag now : ℕ) where
    length-remembered :
        (p : Option Rrsig × Bool) (key : Text) (cache : Cache)
        → p.0 ≢ none
        → length (remembered empty_hash sign_with valid flight p key cache).0 ≡ 1
    length-remembered (none, shared) key cache h = absurd (h refl)
    length-remembered (some sig, shared) key cache h = refl

    flight_signs :
        (key : Text) (rrs : List Rr)
        → (flight key (new_signature empty_hash sign_with valid flight k key_tag now rrs)).0 ≢ none
    flight_signs key rrs e =
        signs _ rrs
          (sym (alone key (new_signature empty_hash sign_with valid flight k key_tag now rrs)) ∙ e)

    length-sign_unless :
        (o : Option Rrsig) (rrs : List Rr) (key : Text) (cache : Cache)
        → length (sign_unless empty_hash sign_with valid flight o k key_tag now rrs key cache).0 ≡ 1
    length-sign_unless none rrs key cache = length-remembered _ key cache (flight_signs key rrs)
    length-sign_unless (some sig) rrs key cache = elim (Bool-cases (valid sig (now - 24 * hour))) [
      | inl fresh ↦ rw fresh refl
      | inr stale ↦
          rw stale (length-remembered _ key (cache_remove cache key) (flight_signs key rrs))
    ]

    -- While signing does not fail and no other call interferes, each set that is not one of
    -- signatures gets a signature, be it from the cache or a new one.
    pub length-sign_sets :
        (sets : List (Rrset × List Rr)) (cache : Cache)
        → length (sign_sets empty_hash sign_with valid flight k key_tag now sets cache).0
          ≡ to_sign sets
    unfolding sign_sets sign_set
    length-sign_sets [] cache = refl
    length-sign_sets ((name, []) ∷ sets) cache = length-sign_sets sets cache
    length-sign_sets ((name, r ∷ rrs) ∷ sets) cache = elim (Bool-cases (is_rrsig r)) [
      | inl signature ↦ rw (sign_sets, sign_set, signature) (length-sign_sets sets cache)
      | inr other ↦
          let key = cache_key empty_hash r rrs in
          let (sigs, next) =
            sign_unless empty_hash sign_with valid flight (cache_search cache key) k key_tag now
              (r ∷ rrs) key cache in
          rw (sign_sets, sign_set, other)
            (length-append sigs
                (sign_sets empty_hash sign_with valid flight k key_tag now sets next).0
              ∙ omega (
                arith,
                length-sign_unless (cache_search cache key) (r ∷ rrs) key cache,
                length-sign_sets sets next,
              ))
    ]
