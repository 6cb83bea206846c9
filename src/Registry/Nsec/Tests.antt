-- ===== src/Registry/Nsec/Tests.antt =====
-- The list of names at concrete inputs, and the theorems applied to them.
use skydns.Shared.{ℕ, pos, Text, txt, List, [], ◌∷◌, some, ◌≡◌, refl}
use skydns.Registry.Nsec.{DenialReference, add_nsec, remove_nsec, get_nsec}
use skydns.Registry.Nsec.Position.{Sorted}
use skydns.Registry.Nsec.Counts.{
  increment, decrement, add_nsec-eq-increment, remove_nsec-eq-decrement,
}
use skydns.Registry.Nsec.References.{InOrder, remove_nsec-add_nsec}
use skydns.Registry.Nsec.Gaps.{get_nsec_exact}

abbrev entry : Text → ℕ → DenialReference
entry name n = record { name = name; reference = pos n }

abbrev east : DenialReference
east = entry (txt "east") 2

abbrev west : DenialReference
west = entry (txt "west") 1

abbrev zone : List DenialReference
zone = east ∷ west ∷ []

zone-Sorted : Sorted zone
zone-Sorted = ((refl, tt), (tt, tt))

zone-InOrder : InOrder zone
zone-InOrder = (zone-Sorted, (tt, (tt, tt)))

add_nsec-eq-increment_example : add_nsec zone (txt "north") ≡ increment zone (txt "north")
add_nsec-eq-increment_example = add_nsec-eq-increment zone (txt "north") zone-Sorted

remove_nsec-eq-decrement_example : remove_nsec zone (txt "west") ≡ decrement zone (txt "west")
remove_nsec-eq-decrement_example = remove_nsec-eq-decrement zone (txt "west") zone-Sorted

remove_nsec-add_nsec_example : remove_nsec (add_nsec zone (txt "north")) (txt "north") ≡ zone
remove_nsec-add_nsec_example = remove_nsec-add_nsec zone (txt "north") zone-InOrder

get_nsec_exact_example : get_nsec zone (txt "east") ≡ some (txt "east", txt "west.")
get_nsec_exact_example = get_nsec_exact [] [] east west zone-Sorted tt
