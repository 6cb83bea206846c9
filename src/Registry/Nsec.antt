-- ===== src/Registry/Nsec.antt =====
-- The sorted list of names of registry/registry.go from which denials of existence are made, with
-- the number of services that hold each name.
pub mod Position
pub mod Counts
pub mod References
pub mod Gaps
mod Tests
use skydns.Shared.{
  ℕ, zero, suc, ◌+◌, ◌-◌, ℤ, pos, incr, decr, is_zero, Text, dot, Bool, false, true, ltb, nat_eq,
  text_eq, text_le, List, [], ◌∷◌, ◌++◌, Option, none, some, length, get_elem?, set, if◌then◌else◌,
  sort_search, insert_at, delete_at,
}

pub record DenialReference : Type 0 where
  pub name : Text
  pub reference : ℤ

abbrev pub blank : DenialReference
blank = record { name = []; reference = pos 0 }

-- `r.nsec[i].name >= key`; `sort.Search` asks in range only.
abbrev pub name_from : Text → Option DenialReference → Bool
name_from key none = false
name_from key (some d) = text_le key d.name

abbrev pub from : List DenialReference → Text → ℕ → Bool
from nsec key i = name_from key (get_elem? nsec i)

unfoldable pub position : List DenialReference → Text → ℕ
unfolding sort_search
position nsec key = sort_search (length nsec) (from nsec key)

-- `i < len(r.nsec) && r.nsec[i].name == key`
abbrev pub hit : Option DenialReference → Text → Option DenialReference
hit none key = none
hit (some d) key = if text_eq d.name key then some d else none

abbrev add_at : Option DenialReference → ℕ → List DenialReference → Text → List DenialReference
add_at (some d) i nsec key = set nsec i (record d { reference = incr d.reference })
add_at none i nsec key = insert_at i blank (record { name = key; reference = pos 1 }) nsec

-- `r.addNSEC(key)`
unfoldable pub add_nsec : List DenialReference → Text → List DenialReference
unfolding position
add_nsec nsec key = let i = position nsec key in add_at (hit (get_elem? nsec i) key) i nsec key

abbrev remove_at : Option DenialReference → ℕ → List DenialReference → List DenialReference
remove_at none i nsec = nsec
remove_at (some d) i nsec =
    let d' = record d { reference = decr d.reference } in
    let less = set nsec i d' in if is_zero d'.reference then delete_at i blank less else less

-- `r.removeNSEC(key)`
unfoldable pub remove_nsec : List DenialReference → Text → List DenialReference
unfolding position
remove_nsec nsec key = let i = position nsec key in remove_at (hit (get_elem? nsec i) key) i nsec

abbrev pub dotted : Text → Text
dotted s = s ++ dot ∷ []

-- An index past the end is a panic, `none`.
abbrev between : Option DenialReference → Option DenialReference → Option (Text × Text)
between (some p) (some d) = some (dotted p.name, dotted d.name)
between _ _ = none

abbrev exact : DenialReference → Option DenialReference → Text × Text
exact d none = (dotted d.name, [])
exact d (some next) = (d.name, dotted next.name)

abbrev before_first : Option DenialReference → Option (Text × Text)
before_first (some d) = some ([], dotted d.name)
before_first none = none

abbrev names_at : Option DenialReference → ℕ → List DenialReference → Option (Text × Text)
names_at (some d) i nsec = some (exact d (get_elem? nsec (suc i)))
names_at none zero nsec = before_first (get_elem? nsec 0)
names_at none (suc i) nsec = between (get_elem? nsec i) (get_elem? nsec (suc i))

-- `r.GetNSEC(key)`
unfoldable pub get_nsec : List DenialReference → Text → Option (Text × Text)
unfolding position
get_nsec [] key = some ([], [])
get_nsec (d ∷ l) key =
    let nsec = d ∷ l in let i = position nsec key in names_at (hit (get_elem? nsec i) key) i nsec
