-- ===== src/Server/Dnssec/Sets.antt =====
-- The sets of records and the signature cache, against what is read back from them.
use skydns.Shared.{
  Text, text_eq, text_eq_iff, text_Comparable, List, [], ◌∷◌, ◌++◌, append-nil, append_assoc,
  Option, none, some, if◌then◌else◌, ◌==◌, ◌≡◌, refl, ap, sym, ◌∙◌, Bool-cases, Option-cases, inl,
  inr,
}
use skydns.Shared.GoMap
use skydns.Server.Dnssec.{
  Rrset, rrset_eq, rrset_eq_iff, rrset_Comparable, with_record, add_records, rr_sets, cache_insert,
  cache_remove, cache_search,
}

module _ {ℓ} {R : Type ℓ} (header : R → Rrset) where
  -- The records of one name and type, in their order.
  abbrev pub of_set : Rrset → List R → List R
  of_set k [] = []
  of_set k (r ∷ rrs) = let rest = of_set k rrs in if header r == k then r ∷ rest else rest

  -- A set that may be missing, with more records at its end.
  abbrev pub extended : Option (List R) → List R → Option (List R)
  extended none [] = none
  extended none (r ∷ rrs) = some (r ∷ rrs)
  extended (some s) rrs = some (s ++ rrs)

  extended-nil : (o : Option (List R)) → o ≡ extended o []
  extended-nil none = refl
  extended-nil (some s) = ap some (sym (append-nil s))

  extended-cons :
      (o : Option (List R)) (r : R) (rrs : List R)
      → extended (extended o (r ∷ [])) rrs ≡ extended o (r ∷ rrs)
  extended-cons none r rrs = refl
  extended-cons (some s) r rrs = ap some (append_assoc s (r ∷ []) rrs)

  lookup-with_record :
      (m : List (Rrset × List R)) (r : R) (k : Rrset)
      → GoMap.lookup (with_record header m r (GoMap.lookup m (header r))) k ≡ (
          if header r == k then extended (GoMap.lookup m (header r)) (r ∷ []) else GoMap.lookup m k)
  lookup-with_record m r k = elim (Option-cases (GoMap.lookup m (header r))) [
    | inl new ↦ rw new (GoMap.lookup-insert m (header r) k (r ∷ []))
    | inr (s, old) ↦ rw old (GoMap.lookup-insert m (header r) k (s ++ r ∷ []))
  ]

  lookup-add_records :
      (m : List (Rrset × List R)) (rrs : List R) (k : Rrset)
      → GoMap.lookup (add_records header m rrs) k ≡ extended (GoMap.lookup m k) (of_set k rrs)
  unfolding add_records
  lookup-add_records m [] k = extended-nil (GoMap.lookup m k)
  lookup-add_records m (r ∷ rrs) k =
      lookup-add_records (with_record header m r (GoMap.lookup m (header r))) rrs k
      ∙ rw (lookup-with_record m r k) (elim (Bool-cases (rrset_eq (header r) k)) [
        | inl same ↦
            rw (same, (rrset_eq_iff (header r) k).0 same)
              (extended-cons (GoMap.lookup m k) r (of_set k rrs))
        | inr other ↦ rw other refl
      ])

  -- The set of a name and a type holds the records of that name and type, in their order, and
  -- there is none where there are no such records.
  pub lookup-rr_sets :
      (rrs : List R) (k : Rrset)
      → GoMap.lookup (rr_sets header rrs) k ≡ extended none (of_set k rrs)
  unfolding rr_sets
  lookup-rr_sets rrs k = lookup-add_records [] rrs k ∙ unfold GoMap.lookup in refl

abbrev pub first_of {ℓ} : {S : Type ℓ} → Option S → S → Option S
first_of (some s) sig = some s
first_of none sig = some sig

-- The cache keeps the first signature that is inserted under a key, and gives back no other; an
-- insertion under one key leaves every other key as it was, and so does a removal, after which the
-- key has no signature.
pub cache_search_lem {ℓ} :
    {S : Type ℓ} (m : List (Text × S)) (k j : Text) (sig : S)
    → (cache_search (cache_insert m k sig) j
        ≡ (if text_eq k j then first_of (cache_search m k) sig else cache_search m j))
      × (cache_search (cache_remove m k) j ≡ (if text_eq k j then none else cache_search m j))
unfolding cache_search cache_insert cache_remove
cache_search_lem m k j sig = (
  elim (Option-cases (GoMap.lookup m k)) [
    | inl new ↦ rw new (GoMap.lookup-insert m k j sig)
    | inr (s, old) ↦ elim (Bool-cases (text_eq k j)) [
      | inl same ↦ rw (old, same, ← (text_eq_iff k j).0 same, old) refl
      | inr other ↦ rw (old, other) refl
    ]
  ],
  GoMap.lookup-delete m k j,
)
