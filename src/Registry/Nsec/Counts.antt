-- ===== src/Registry/Nsec/Counts.antt =====
-- `addNSEC` and `removeNSEC` against a plain recursion, and how they change the counts.
use skydns.Shared.{
  ℤ, pos, incr, decr, is_zero, Text, text_eq, text_le, List, [], ◌∷◌, ◌++◌, length, get_elem?, set,
  if◌then◌else◌, All, insert_at_lem, delete_at_lem, ◌≡◌, refl, ap, sym, ◌∙◌, Bool-cases, inl, inr,
}
use skydns.Registry.Nsec.{DenialReference, hit, add_at, remove_at, add_nsec, remove_nsec, blank}
use skydns.Registry.Nsec.Position.{Before, Sorted, Fits, position_of_Fits, Split-at}

abbrev pub entry : Text → DenialReference
entry key = record { name = key; reference = pos 1 }

abbrev pub counted : DenialReference → (ℤ → ℤ) → DenialReference
counted d f = record d { reference = f d.reference }

-- The name is counted once more, in its place.
unfoldable pub increment : List DenialReference → Text → List DenialReference
increment [] key = entry key ∷ []
increment (d ∷ l) key =
    let rest = increment l key in
    if text_le key d.name
    then (if text_eq d.name key then counted d incr ∷ l else entry key ∷ d ∷ l)
    else d ∷ rest

-- The name is counted once less, and goes when nothing holds it.
unfoldable pub decrement : List DenialReference → Text → List DenialReference
decrement [] key = []
decrement (d ∷ l) key =
    let rest = decrement l key in
    if text_le key d.name
    then (if text_eq d.name key
        then (if is_zero (decr d.reference) then l else counted d decr ∷ l)
        else d ∷ l)
    else d ∷ rest

get_elem?-append : (b a : List DenialReference) → get_elem? (b ++ a) (length b) ≡ get_elem? a 0
get_elem?-append [] a = refl
get_elem?-append (d ∷ b) a = get_elem?-append b a

set-append :
    (b a : List DenialReference) (d e : DenialReference)
    → set (b ++ d ∷ a) (length b) e ≡ b ++ e ∷ a
set-append [] a d e = refl
set-append (c ∷ b) a d e = ap (◌∷◌ c) (set-append b a d e)

add_at_lem :
    (b a : List DenialReference) (key : Text)
    → Fits key b a
    → add_at (hit (get_elem? a 0) key) (length b) (b ++ a) key ≡ b ++ increment a key
unfolding increment
add_at_lem b [] key fits = insert_at_lem b [] blank (entry key)
add_at_lem b (d ∷ a) key fits = elim (Bool-cases (text_eq d.name key)) [
  | inl same ↦ rw (same, fits.1.0) (set-append b a d (counted d incr))
  | inr other ↦ rw (other, fits.1.0) (insert_at_lem b (d ∷ a) blank (entry key))
]

remove_at_lem :
    (b a : List DenialReference) (key : Text)
    → Fits key b a
    → remove_at (hit (get_elem? a 0) key) (length b) (b ++ a) ≡ b ++ decrement a key
unfolding decrement
remove_at_lem b [] key fits = refl
remove_at_lem b (d ∷ a) key fits = elim (Bool-cases (text_eq d.name key)) [
  | inr other ↦ rw (other, fits.1.0)
  | inl same ↦ elim (Bool-cases (is_zero (decr d.reference))) [
    | inl last ↦
        rw (same, fits.1.0, last, set-append b a d (counted d decr))
          (delete_at_lem b a (counted d decr) blank)
    | inr more ↦ rw (same, fits.1.0, more) (set-append b a d (counted d decr))
  ]
]

increment-append :
    (b a : List DenialReference) (key : Text)
    → All (λ d. Before d.name key) b
    → increment (b ++ a) key ≡ b ++ increment a key
unfolding increment
increment-append [] a key lo = refl
increment-append (d ∷ b) a key (h, lo) = rw h (ap (◌∷◌ d) (increment-append b a key lo))

decrement-append :
    (b a : List DenialReference) (key : Text)
    → All (λ d. Before d.name key) b
    → decrement (b ++ a) key ≡ b ++ decrement a key
unfolding decrement
decrement-append [] a key lo = refl
decrement-append (d ∷ b) a key (h, lo) = rw h (ap (◌∷◌ d) (decrement-append b a key lo))

-- On a sorted list the binary search, `append` and `copy` of `addNSEC` do what the recursion
-- `increment` along the list does: count the name once more, or insert it in order with count 1.
pub add_nsec-eq-increment :
    (l : List DenialReference) (key : Text) → Sorted l → add_nsec l key ≡ increment l key
unfolding add_nsec
add_nsec-eq-increment l key s =
    let t = Split-at key l s in
    rw t.whole (
      rw
        (
          position_of_Fits t.before t.after key (rw t.whole at s) t.fits,
          get_elem?-append t.before t.after,
        )
        (add_at_lem t.before t.after key t.fits
          ∙ sym (increment-append t.before t.after key t.fits.0)))

-- On a sorted list the binary search and `copy` of `removeNSEC` do what the recursion `decrement`
-- along the list does: count the name once less, and take it out when nothing is left.
pub remove_nsec-eq-decrement :
    (l : List DenialReference) (key : Text) → Sorted l → remove_nsec l key ≡ decrement l key
unfolding remove_nsec
remove_nsec-eq-decrement l key s =
    let t = Split-at key l s in
    rw t.whole (
      rw
        (
          position_of_Fits t.before t.after key (rw t.whole at s) t.fits,
          get_elem?-append t.before t.after,
        )
        (remove_at_lem t.before t.after key t.fits
          ∙ sym (decrement-append t.before t.after key t.fits.0)))
