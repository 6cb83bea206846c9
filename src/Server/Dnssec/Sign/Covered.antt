-- ===== src/Server/Dnssec/Sign/Covered.antt =====
-- What the signatures of a reply are signatures of.
use mathlib.Core.Path.{subst}
use skydns.Shared.{
  ℕ, ◌-◌, ◌*◌, Text, text_eq, text_eq_iff, text_Comparable, Bool, true, false, List, [], ◌∷◌,
  Option, none, some, if◌then◌else◌, In, In-append, ◌≡◌, ◌⊎◌, refl, ap, sym, ◌∙◌, Bool-cases,
  Option-cases, inl, inr,
}
use skydns.Shared.GoMap
use skydns.Server.{DnsKey}
use skydns.Server.Dns.{Rr, srv, Rrsig}
use skydns.Server.Dnssec.{Rrset, cache_search, cache_insert, cache_remove}
use skydns.Server.Dnssec.Sets.{cache_search_lem}
use skydns.Server.Dnssec.Sign.{
  Cache, cache_key, is_rrsig, hour, new_signature, remembered, sign_unless, sign_set, sign_sets,
}

-- The key leaves the port of an SRV record out: sets that differ in ports alone share a signature.
pub cache_key_port :
    (empty_hash name target : Text) (ttl priority weight port port' : ℕ) (rrs : List Rr)
    → cache_key empty_hash (srv name ttl priority weight port target) rrs
      ≡ cache_key empty_hash (srv name ttl priority weight port' target) rrs
unfolding cache_key
cache_key_port empty_hash name target ttl priority weight port port' rrs = refl

cache_search-cache_remove :
    (m : Cache) (k j : Text)
    → cache_search (cache_remove m k) j ≡ (if text_eq k j then none else cache_search m j)
unfolding cache_search cache_remove
cache_search-cache_remove m k j = GoMap.lookup-delete m k j

module _ (empty_hash : Text) (sign_with : Rrsig → List Rr → Option Rrsig) (valid : Rrsig → ℕ → Bool)
    (flight : Text → Option Rrsig → Option Rrsig × Bool) where
  -- A signature that the library made of records with the key.
  pub record IsMade (key : Text) (sig : Rrsig) : Type 0 where
    pub template : Rrsig
    pub first : Rr
    pub others : List Rr
    pub keyed : cache_key empty_hash first others ≡ key
    pub signed : sign_with template (first ∷ others) ≡ some sig

  -- Every signature in the cache was made of records with its key.
  abbrev pub IsSound : Cache → Type 0
  IsSound cache = (key : Text) (sig : Rrsig) → cache_search cache key ≡ some sig → IsMade key sig

  -- `inflight.Do` returns what its function gives, or what another call for the same key gave.
  abbrev pub IsHonest : Type 0
  IsHonest =
      (key : Text) (o : Option Rrsig) (sig : Rrsig)
      → (flight key o).0 ≡ some sig
      → (o ≡ some sig) ⊎ IsMade key sig

  IsMade-same :
      (key : Text) (sig sig' : Rrsig) → IsMade key sig → some sig ≡ some sig' → IsMade key sig'
  IsMade-same key sig sig' made e = let same : sig ≡ sig' = cc in subst (IsMade key) same made

  insert-IsSound :
      (cache : Cache) (key : Text) (sig : Rrsig)
      → IsSound cache
      → IsMade key sig
      → IsSound (cache_insert cache key sig)
  insert-IsSound cache key sig sound made j found e =
      let after = cache_search_lem cache key j sig in
      elim (Bool-cases (text_eq key j)) [
        | inr other ↦ sound j found (sym (rw other at after.0) ∙ e)
        | inl same ↦
            subst (λ i. IsMade i found) ((text_eq_iff key j).0 same)
              (elim (Option-cases (cache_search cache key)) [
                | inl new ↦ IsMade-same key sig found made (sym (rw (same, new) at after.0) ∙ e)
                | inr (old, hit) ↦
                    IsMade-same key old found (sound key old hit)
                      (sym (rw (same, hit) at after.0) ∙ e)
              ])
      ]

  remove-IsSound : (cache : Cache) (key : Text) → IsSound cache → IsSound (cache_remove cache key)
  remove-IsSound cache key sound j found e = elim (Bool-cases (text_eq key j)) [
    | inr other ↦ sound j found (sym (rw other at (cache_search-cache_remove cache key j)) ∙ e)
    | inl same ↦ absurd (cc (rw same at (cache_search-cache_remove cache key j)))
  ]

  module _ (honest : IsHonest) (k : DnsKey) (key_tag now : ℕ) where
    -- What a loop returns: signatures of sets, and a sound cache.
    abbrev pub IsSigned : Text → List Rrsig × Cache → Type 0
    IsSigned key (sigs, cache) = ((sig : Rrsig) → In sig sigs → IsMade key sig) × IsSound cache

    remembered-IsSigned :
        (o : Option Rrsig × Bool) (key : Text) (cache : Cache)
        → IsSound cache
        → ((sig : Rrsig) → o.0 ≡ some sig → IsMade key sig)
        → IsSigned key (remembered empty_hash sign_with valid flight o key cache)
    remembered-IsSigned (none, shared) key cache sound made = (λ sig i. absurd i, sound)
    remembered-IsSigned (some sig, shared) key cache sound made = (
      λ sig' i. elim i [ inl e ↦ made sig' (ap some e) | inr none_left ↦ absurd none_left ],
      kept shared,
    )
      where
        kept : (b : Bool) → IsSound (if b then cache else cache_insert cache key sig)
        kept true = sound
        kept false = insert-IsSound cache key sig sound (made sig refl)

    signed-IsMade :
        (r : Rr) (rrs : List Rr) (sig : Rrsig)
        → (flight
            (cache_key empty_hash r rrs)
            (new_signature empty_hash sign_with valid flight k key_tag now (r ∷ rrs))).0
          ≡ some sig
        → IsMade (cache_key empty_hash r rrs) sig
    signed-IsMade r rrs sig e =
        elim (honest (cache_key empty_hash r rrs)
          (new_signature empty_hash sign_with valid flight k key_tag now (r ∷ rrs)) sig e) [
            | inr made ↦ made
            | inl signed ↦ record {
              template = _;
              first = r;
              others = rrs;
              keyed = refl;
              signed = signed;
            }
          ]

    sign_unless-IsSigned :
        (o : Option Rrsig) (r : Rr) (rrs : List Rr) (cache : Cache)
        → let key = cache_key empty_hash r rrs in
          cache_search cache key ≡ o
          → IsSound cache
          → IsSigned key
              (sign_unless empty_hash sign_with valid flight o k key_tag now (r ∷ rrs) key cache)
    sign_unless-IsSigned none r rrs cache e sound =
        remembered-IsSigned _ (cache_key empty_hash r rrs) cache sound (signed-IsMade r rrs)
    sign_unless-IsSigned (some sig) r rrs cache e sound =
        elim (Bool-cases (valid sig (now - 24 * hour))) [
          | inl fresh ↦ rw fresh (
            λ sig' i. elim i [
              | inl same ↦ sound (cache_key empty_hash r rrs) sig' (e ∙ ap some same)
              | inr none_left ↦ absurd none_left
            ],
            sound,
          )
          | inr stale ↦
              let key = cache_key empty_hash r rrs in
              rw stale (
                remembered-IsSigned _ key (cache_remove cache key) (remove-IsSound cache key sound)
                  (signed-IsMade r rrs))
        ]

    -- A signature that was made of records with the key of one of the sets.
    pub record Covers (sets : List (Rrset × List Rr)) (sig : Rrsig) : Type 0 where
      pub name : Rrset
      pub first : Rr
      pub others : List Rr
      pub listed : In (name, first ∷ others) sets
      pub made : IsMade (cache_key empty_hash first others) sig

    Covers-later :
        (s : Rrset × List Rr) (sets : List (Rrset × List Rr)) (sig : Rrsig)
        → Covers sets sig
        → Covers (s ∷ sets) sig
    Covers-later s sets sig c = record {
      name = c.name;
      first = c.first;
      others = c.others;
      listed = inr c.listed;
      made = c.made;
    }

    sign_set-IsSound :
        (rrs : List Rr) (cache : Cache)
        → IsSound cache
        → IsSound (sign_set empty_hash sign_with valid flight k key_tag now rrs cache).1
    unfolding sign_set
    sign_set-IsSound [] cache sound = sound
    sign_set-IsSound (r ∷ rrs) cache sound = elim (Bool-cases (is_rrsig r)) [
      | inl signature ↦ rw (sign_set, signature) sound
      | inr other ↦
          let key = cache_key empty_hash r rrs in
          rw (sign_set, other)
            (sign_unless-IsSigned (cache_search cache key) r rrs cache refl sound).1
    ]

    sign_set-Covers :
        (name : Rrset) (rrs : List Rr) (sets : List (Rrset × List Rr)) (cache : Cache) (sig : Rrsig)
        → IsSound cache
        → In sig (sign_set empty_hash sign_with valid flight k key_tag now rrs cache).0
        → Covers ((name, rrs) ∷ sets) sig
    unfolding sign_set
    sign_set-Covers name [] sets cache sig sound i = absurd i
    sign_set-Covers name (r ∷ rrs) sets cache sig sound i = elim (Bool-cases (is_rrsig r)) [
      | inl signature ↦ absurd (rw (sign_set, signature) at i)
      | inr other ↦
          let key = cache_key empty_hash r rrs in
          record {
            name = name;
            first = r;
            others = rrs;
            listed = inl refl;
            made =
                (sign_unless-IsSigned (cache_search cache key) r rrs cache refl sound).0 sig
                  (rw (sign_set, other) at i);
          }
    ]

    -- While `inflight.Do` gives every caller what was made for its key: of a cache that holds under
    -- each key only signatures made of records with that key, every signature of the reply was made
    -- of records with the key of one of its sets, and the cache is left as sound as it was.
    pub sign_sets-Covers :
        (sets : List (Rrset × List Rr)) (cache : Cache)
        → IsSound cache
        → let (sigs, after) =
            sign_sets empty_hash sign_with valid flight k key_tag now sets cache in
          ((sig : Rrsig) → In sig sigs → Covers sets sig) × IsSound after
    unfolding sign_sets
    sign_sets-Covers [] cache sound = (λ sig i. absurd i, sound)
    sign_sets-Covers ((name, rrs) ∷ sets) cache sound =
        let (sigs, next) = sign_set empty_hash sign_with valid flight k key_tag now rrs cache in
        let (more, last) = sign_sets empty_hash sign_with valid flight k key_tag now sets next in
        let (covered, kept) = sign_sets-Covers sets next (sign_set-IsSound rrs cache sound) in
        (
          λ sig i. elim (In-append sig sigs more i) [
            | inl here ↦ sign_set-Covers name rrs sets cache sig sound here
            | inr later ↦ Covers-later (name, rrs) sets sig (covered sig later)
          ],
          kept,
        )
