-- ===== src/Server/Dnssec.antt =====
-- server/dnssec.go: the sets of records that are signed together, and the cache of signatures.
-- `R` is a record of the DNS library, `header` its name and type, and `S` a signature.
pub mod Sets
mod Tests
pub mod Denials
pub mod Sign
use skydns.Shared.{
  ℕ, Text, text_eq, text_eq_iff, nat_eq, nat_eq_iff, Bool, true, false, ◌&&◌, List, [], ◌∷◌, ◌++◌,
  Option, none, some, ◌≡◌, ◌↔◌, refl, ap, ◌∙◌, arith, Comparable, text_Comparable, Bool-cases, inl,
  inr,
}
use skydns.Shared.GoMap

-- The key of a set: the name and the type of its records.
pub record Rrset : Type 0 where
  pub qname : Text
  pub qtype : ℕ

abbrev pub rrset_eq : Rrset → Rrset → Bool
rrset_eq j k = text_eq j.qname k.qname && nat_eq j.qtype k.qtype

and-true : (a b : Bool) → (a && b) ≡ true → (a ≡ true) × (b ≡ true)
and-true true b e = (refl, e)
and-true false b e = cc

abbrev rrset : Text → ℕ → Rrset
rrset qname qtype = record { qname = qname; qtype = qtype }

pub rrset_eq_iff : (j k : Rrset) → (rrset_eq j k ≡ true) ↔ (j ≡ k)
rrset_eq_iff j k = (
  λ e.
      let (names, types) = and-true (text_eq j.qname k.qname) (nat_eq j.qtype k.qtype) e in
      ap (λ n. rrset n j.qtype) ((text_eq_iff j.qname k.qname).0 names)
      ∙ ap (rrset k.qname) ((nat_eq_iff j.qtype k.qtype).0 types),
  λ e. rw (e, (text_eq_iff k.qname k.qname).1 refl, (nat_eq_iff k.qtype k.qtype).1 refl) refl,
)

instance abbrev pub rrset_Comparable : Comparable Rrset
rrset_Comparable = record { same = rrset_eq; same_iff = rrset_eq_iff }

module _ {ℓ} {R : Type ℓ} (header : R → Rrset) where
  abbrev pub with_record : List (Rrset × List R) → R → Option (List R) → List (Rrset × List R)
  with_record m r (some s) = GoMap.insert m (header r) (s ++ r ∷ [])
  with_record m r none = GoMap.insert m (header r) (r ∷ [])

  -- The loop over the records.
  unfoldable pub add_records : List (Rrset × List R) → List R → List (Rrset × List R)
  add_records m [] = m
  add_records m (r ∷ rrs) = add_records (with_record m r (GoMap.lookup m (header r))) rrs

  -- `rrSets(rrs)`; an empty map and nil have the same entries.
  unfoldable pub rr_sets : List R → List (Rrset × List R)
  rr_sets rrs = add_records [] rrs

module _ {ℓ} {S : Type ℓ} where
  abbrev pub insert_new : Option S → List (Text × S) → Text → S → List (Text × S)
  insert_new (some _) m k sig = m
  insert_new none m k sig = GoMap.insert m k sig

  -- `c.insert(s, r)`, which keeps what is there.
  unfoldable pub cache_insert : List (Text × S) → Text → S → List (Text × S)
  cache_insert m k sig = insert_new (GoMap.lookup m k) m k sig

  -- `c.remove(s)`
  unfoldable pub cache_remove : List (Text × S) → Text → List (Text × S)
  cache_remove m k = GoMap.delete m k

  -- `c.search(s)`; the copy is the signature itself.
  unfoldable pub cache_search : List (Text × S) → Text → Option S
  cache_search m k = GoMap.lookup m k
