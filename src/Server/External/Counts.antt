-- ===== src/Server/External/Counts.antt =====
-- The counts by region and by environment.
use skydns.Shared.{
  ℕ, zero, suc, ◌+◌, Text, text_Comparable, text_eq, text_eq_iff, List, [], ◌∷◌, Option, none, some,
  if◌then◌else◌, ◌≡◌, refl, ap, ◌∙◌, arith, Bool-cases, Option-cases, inl, inr,
}
use skydns.Shared.GoMap
use skydns.Msg.{Service}
use skydns.Server.External.{counted_once, count_by}

-- How many of the services have the value in their field.
abbrev pub occurrences : (Service → Text) → Text → List Service → ℕ
occurrences field k [] = 0
occurrences field k (s ∷ l) =
    let rest = occurrences field k l in if text_eq (field s) k then suc rest else rest

-- A count that may be missing, raised by a number.
abbrev pub raised : Option ℕ → ℕ → Option ℕ
raised none zero = none
raised none (suc n) = some (suc n)
raised (some c) n = some (c + n)

lookup-counted_once :
    (m : List (Text × ℕ)) (j k : Text)
    → GoMap.lookup (counted_once m j (GoMap.lookup m j)) k
      ≡ (if text_eq j k then raised (GoMap.lookup m j) 1 else GoMap.lookup m k)
lookup-counted_once m j k = elim (Option-cases (GoMap.lookup m j)) [
  | inl new ↦ rw new (GoMap.lookup-insert m j k 1)
  | inr (c, old) ↦ rw old (GoMap.lookup-insert m j k (c + 1))
]

raised-suc : (o : Option ℕ) (n : ℕ) → raised (raised o 1) n ≡ raised o (suc n)
raised-suc none zero = refl
raised-suc none (suc n) = ap some (omega arith)
raised-suc (some c) n = ap some (omega arith)

raised-zero : (o : Option ℕ) → o ≡ raised o 0
raised-zero none = refl
raised-zero (some c) = ap some (omega arith)

-- The loop over the services raises the count of each value by the number of services that have it
-- in their field; a value that no service has, and that had no count, has none after it.
pub lookup-count_by :
    (field : Service → Text) (l : List Service) (m : List (Text × ℕ)) (k : Text)
    → GoMap.lookup (count_by field l m) k ≡ raised (GoMap.lookup m k) (occurrences field k l)
unfolding count_by
lookup-count_by field [] m k = raised-zero (GoMap.lookup m k)
lookup-count_by field (s ∷ l) m k =
    lookup-count_by field l (counted_once m (field s) (GoMap.lookup m (field s))) k
    ∙ rw (lookup-counted_once m (field s) k) (elim (Bool-cases (text_eq (field s) k)) [
      | inl same ↦
          rw (same, (text_eq_iff (field s) k).0 same)
            (raised-suc (GoMap.lookup m k) (occurrences field k l))
      | inr other ↦ rw other refl
    ])
