-- ===== src/Registry/Nsec/References.antt =====
-- The list of names as a multiset: what `addNSEC` and `removeNSEC` do to each name's count.
use skydns.Shared.{
  zero, suc, ◌-◌, ℤ, pos, negsuc, incr, decr, decr-incr, is_zero, Text, false, true, text_eq,
  text_eq_iff, text_le, text_le_refl, text_le_antisym, List, [], ◌∷◌, if◌then◌else◌, All, ◌≡◌, refl,
  ap, ◌∙◌, arith, Bool-cases, inl, inr,
}
use skydns.Registry.Nsec.{DenialReference, add_nsec, remove_nsec}
use skydns.Registry.Nsec.Position.{Before, Before-trans, Sorted}
use skydns.Registry.Nsec.Counts.{
  increment, decrement, add_nsec-eq-increment, remove_nsec-eq-decrement,
}

-- How many services hold a name: 0 if it does not stand in the list.
unfoldable pub references : List DenialReference → Text → ℤ
references [] key = pos 0
references (d ∷ l) key = if text_eq d.name key then d.reference else references l key

abbrev Positive : ℤ → Type 0
Positive (pos zero) = ⊥
Positive (pos (suc n)) = Unit
Positive (negsuc n) = ⊥

-- A zone in order: sorted by name, each name once, held by at least one service.
abbrev pub InOrder : List DenialReference → Type 0
InOrder l = Sorted l × All (λ d. Positive d.reference) l

-- One less, but not below 0.
abbrev pub less : ℤ → ℤ
less (pos n) = pos (n - 1)
less (negsuc n) = negsuc n

Before-irrefl : (a : Text) → Before a a → ⊥
Before-irrefl a h = cc (text_le_refl a)

-- A name before a sorted list does not stand in it.
absent :
    (l : List DenialReference) (key : Text)
    → All (λ e. Before key e.name) l
    → references l key ≡ pos 0
unfolding references
absent [] key all = refl
absent (d ∷ l) key (h, all) = elim (Bool-cases (text_eq d.name key)) [
  | inr other ↦ rw other (absent l key all)
  | inl same ↦ absurd (Before-irrefl key (rw ((text_eq_iff d.name key).0 same) at h))
]

Before-of_le : (key a : Text) → text_le key a ≡ true → text_eq a key ≡ false → Before key a
Before-of_le key a le ne = elim (Bool-cases (text_le a key)) [
  | inr e ↦ e
  | inl e ↦ absurd (cc ((text_eq_iff a key).1 (text_le_antisym a key e le)))
]

Before-All :
    (key a : Text) (l : List DenialReference)
    → Before key a
    → All (λ e. Before a e.name) l
    → All (λ e. Before key e.name) l
Before-All key a [] h all = tt
Before-All key a (d ∷ l) h (b, all) = (Before-trans key a d.name h b, Before-All key a l h all)

increment_above :
    (a key : Text) (l : List DenialReference)
    → Before a key
    → All (λ e. Before a e.name) l
    → All (λ e. Before a e.name) (increment l key)
unfolding increment
increment_above a key [] h all = (h, tt)
increment_above a key (d ∷ l) h (b, all) = ground (arith, increment_above a key l h all)

decrement_above :
    (a key : Text) (l : List DenialReference)
    → All (λ e. Before a e.name) l
    → All (λ e. Before a e.name) (decrement l key)
unfolding decrement
decrement_above a key [] all = tt
decrement_above a key (d ∷ l) (b, all) = ground (arith, decrement_above a key l all)

increment-Sorted : (l : List DenialReference) (key : Text) → Sorted l → Sorted (increment l key)
unfolding increment
increment-Sorted [] key s = (tt, tt)
increment-Sorted (d ∷ l) key (above, s) = elim (Bool-cases (text_le key d.name)) [
  | inr later ↦ rw later (increment_above d.name key l later above, increment-Sorted l key s)
  | inl here ↦ elim (Bool-cases (text_eq d.name key)) [
    | inl same ↦ rw (here, same) (above, s)
    | inr other ↦
        let b = Before-of_le key d.name here other in
        rw (here, other) ((b, Before-All key d.name l b above), (above, s))
  ]
]

decrement-Sorted : (l : List DenialReference) (key : Text) → Sorted l → Sorted (decrement l key)
unfolding decrement
decrement-Sorted [] key s = tt
decrement-Sorted (d ∷ l) key (above, s) =
    ground (arith, decrement_above d.name key l above, decrement-Sorted l key s)

Positive-incr : (x : ℤ) → Positive x → Positive (incr x)
Positive-incr (pos n) p = tt
Positive-incr (negsuc n) p = absurd p

Positive-decr : (x : ℤ) → Positive x → is_zero (decr x) ≡ false → Positive (decr x)
Positive-decr (pos zero) p e = absurd p
Positive-decr (pos (suc zero)) p e = cc
Positive-decr (pos (suc (suc n))) p e = tt
Positive-decr (negsuc n) p e = absurd p

less-decr : (x : ℤ) → Positive x → less x ≡ decr x
less-decr (pos zero) p = absurd p
less-decr (pos (suc n)) p = ap pos (omega arith)
less-decr (negsuc n) p = absurd p

zero_of_is_zero : (x : ℤ) → is_zero x ≡ true → x ≡ pos 0
zero_of_is_zero (pos zero) e = refl
zero_of_is_zero (pos (suc n)) e = cc
zero_of_is_zero (negsuc n) e = cc

increment-Positive :
    (l : List DenialReference) (key : Text)
    → All (λ d. Positive d.reference) l
    → All (λ d. Positive d.reference) (increment l key)
unfolding increment
increment-Positive [] key p = (tt, tt)
increment-Positive (d ∷ l) key (p, ps) = elim (Bool-cases (text_le key d.name)) [
  | inr later ↦ rw later (p, increment-Positive l key ps)
  | inl here ↦ elim (Bool-cases (text_eq d.name key)) [
    | inl same ↦ rw (here, same) (Positive-incr d.reference p, ps)
    | inr other ↦ rw (here, other) (tt, (p, ps))
  ]
]

decrement-Positive :
    (l : List DenialReference) (key : Text)
    → All (λ d. Positive d.reference) l
    → All (λ d. Positive d.reference) (decrement l key)
unfolding decrement
decrement-Positive [] key p = tt
decrement-Positive (d ∷ l) key (p, ps) = elim (Bool-cases (text_le key d.name)) [
  | inr later ↦ rw later (p, decrement-Positive l key ps)
  | inl here ↦ elim (Bool-cases (text_eq d.name key)) [
    | inr other ↦ rw (here, other) (p, ps)
    | inl same ↦ elim (Bool-cases (is_zero (decr d.reference))) [
      | inl last ↦ rw (here, same, last) ps
      | inr more ↦ rw (here, same, more) (Positive-decr d.reference p more, ps)
    ]
  ]
]

references-increment :
    (l : List DenialReference) (key j : Text)
    → Sorted l
    → references (increment l key) j
      ≡ (if text_eq key j then incr (references l j) else references l j)
unfolding references increment
references-increment [] key j s = ground arith
references-increment (d ∷ l) key j (above, s) = elim (Bool-cases (text_le key d.name)) [
  | inr later ↦ ground (
    arith,
    references-increment l key j s,
    text_eq_iff key j,
    text_eq_iff d.name j,
    text_le_refl key,
  )
  | inl here ↦ elim (Bool-cases (text_eq d.name key)) [
    | inl same ↦ ground (arith, text_eq_iff key j, text_eq_iff d.name j, text_eq_iff d.name key)
    | inr other ↦
        let none_below =
          absent l key (Before-All key d.name l (Before-of_le key d.name here other) above) in
        ground (arith, none_below, text_eq_iff key j, text_eq_iff d.name j, text_eq_iff d.name key)
  ]
]

references-decrement :
    (l : List DenialReference) (key j : Text)
    → InOrder l
    → references (decrement l key) j
      ≡ (if text_eq key j then less (references l j) else references l j)
unfolding references decrement
references-decrement [] key j o = ground arith
references-decrement (d ∷ l) key j ((above, s), (p, ps)) = elim (Bool-cases (text_le key d.name)) [
  | inr later ↦ ground (
    arith,
    references-decrement l key j (s, ps),
    text_eq_iff key j,
    text_eq_iff d.name j,
    text_le_refl key,
  )
  | inl here ↦ elim (Bool-cases (text_eq d.name key)) [
    | inl same ↦
        let gone = absent l d.name above in
        ground (
          arith,
          gone,
          less-decr d.reference p,
          zero_of_is_zero (decr d.reference),
          text_eq_iff key j,
          text_eq_iff d.name j,
          text_eq_iff d.name key,
        )
    | inr other ↦
        let none_below =
          absent l key (Before-All key d.name l (Before-of_le key d.name here other) above) in
        ground (arith, none_below, text_eq_iff key j, text_eq_iff d.name j, text_eq_iff d.name key)
  ]
]

kept : (x : ℤ) → Positive x → is_zero x ≡ false
kept (pos zero) h = absurd h
kept (pos (suc n)) h = refl
kept (negsuc n) h = absurd h

decrement-increment :
    (l : List DenialReference) (key : Text)
    → All (λ d. Positive d.reference) l
    → decrement (increment l key) key ≡ l
unfolding decrement increment
decrement-increment [] key p = rw (text_le_refl key, (text_eq_iff key key).1 refl)
decrement-increment (d ∷ l) key (p, ps) = elim (Bool-cases (text_le key d.name)) [
  | inr later ↦ rw (later, later) (ap (◌∷◌ d) (decrement-increment l key ps))
  | inl here ↦ elim (Bool-cases (text_eq d.name key)) [
    | inl same ↦ ground (arith, kept d.reference p, decr-incr d.reference)
    | inr other ↦ ground (arith, text_le_refl key, text_eq_iff key key)
  ]
]

-- `addNSEC` keeps the zone in order, and counts its name once more and no other.
pub add_nsec_lem :
    (l : List DenialReference) (key : Text)
    → InOrder l
    → InOrder (add_nsec l key)
      × ((j : Text)
          → references (add_nsec l key) j
            ≡ (if text_eq key j then incr (references l j) else references l j))
add_nsec_lem l key (s, p) =
    rw (add_nsec-eq-increment l key s)
      ((increment-Sorted l key s, increment-Positive l key p), λ j. references-increment l key j s)

-- `removeNSEC` keeps the zone in order, and counts its name once less, if it stands there, and no
-- other.
pub remove_nsec_lem :
    (l : List DenialReference) (key : Text)
    → InOrder l
    → InOrder (remove_nsec l key)
      × ((j : Text)
          → references (remove_nsec l key) j
            ≡ (if text_eq key j then less (references l j) else references l j))
remove_nsec_lem l key (s, p) = rw (remove_nsec-eq-decrement l key s) (
  (decrement-Sorted l key s, decrement-Positive l key p),
  λ j. references-decrement l key j (s, p),
)

-- In a zone in order, removing a name that was just added gives the zone back.
pub remove_nsec-add_nsec :
    (l : List DenialReference) (key : Text) → InOrder l → remove_nsec (add_nsec l key) key ≡ l
remove_nsec-add_nsec l key (s, p) = rw (add_nsec-eq-increment l key s) (
    remove_nsec-eq-decrement (increment l key) key (increment-Sorted l key s)
    ∙ decrement-increment l key p)
