-- ===== src/Registry/Nsec/Position.antt =====
-- Where the binary search ends in a sorted list of names.
use skydns.Shared.{
  ℕ, zero, suc, ◌≤◌, ◌<◌, Text, false, true, text_le, text_le_trans, text_le_total, List, [], ◌∷◌,
  ◌++◌, length, All, IsLeast, IsLeast-unique, sort_search, sort_search-IsLeast, ◌≡◌, refl, ap,
  arith, Bool-cases, inl, inr,
}
use skydns.Registry.Nsec.{DenialReference, from, position}

-- `a` stands strictly before `b`.
abbrev pub Before : Text → Text → Type 0
Before a b = text_le b a ≡ false

pub Before-trans : (a b c : Text) → Before a b → Before b c → Before a c
Before-trans a b c h k = elim (Bool-cases (text_le c a)) [
  | inr e ↦ e
  | inl e ↦ absurd (cc (text_le_trans c a b e (text_le_total b a h)))
]

abbrev pub Sorted : List DenialReference → Type 0
Sorted [] = Unit
Sorted (d ∷ l) = All (λ e. Before d.name e.name) l × Sorted l

-- A key whose place is between the two parts of a list.
abbrev pub Fits : Text → List DenialReference → List DenialReference → Type 0
Fits key before after =
    All (λ d. Before d.name key) before × All (λ d. text_le key d.name ≡ true) after

from_mono :
    (nsec : List DenialReference) (key : Text)
    → Sorted nsec
    → (x y : ℕ) → x ≤ y
    → y < length nsec
    → from nsec key x ≡ true
    → from nsec key y ≡ true
from_mono [] key s x y le lt h = absurd (omega arith)
from_mono (d ∷ l) key s zero zero le lt h = h
from_mono (d ∷ l) key s zero (suc y) le lt h = above l y (omega arith) s.0
  where
    above :
        (m : List DenialReference) (i : ℕ)
        → i < length m
        → All (λ e. Before d.name e.name) m
        → from m key i ≡ true
    above [] i b all = absurd (omega arith)
    above (e ∷ m) zero b all = text_le_trans key d.name e.name h (text_le_total e.name d.name all.0)
    above (e ∷ m) (suc i) b all = above m i (omega arith) all.1
from_mono (d ∷ l) key s (suc x) zero le lt h = absurd (omega arith)
from_mono (d ∷ l) key s (suc x) (suc y) le lt h =
    from_mono l key s.1 x y (omega arith) (omega arith) h

Fits-IsLeast :
    (before after : List DenialReference) (key : Text)
    → Fits key before after
    → IsLeast (length (before ++ after)) (from (before ++ after) key) (length before)
Fits-IsLeast before after key (lo, hi) = record {
  within = within before;
  below = λ x h. below before x h lo;
  above = λ x h k. above before x h k;
}
  where
    within : (b : List DenialReference) → length b ≤ length (b ++ after)
    within [] = omega arith
    within (d ∷ b) = omega (arith, within b)

    below :
        (b : List DenialReference) (x : ℕ)
        → x < length b
        → All (λ d. Before d.name key) b
        → from (b ++ after) key x ≡ false
    below [] x h all = absurd (omega arith)
    below (d ∷ b) zero h all = all.0
    below (d ∷ b) (suc x) h all = below b x (omega arith) all.1

    tops :
        (m : List DenialReference) (x : ℕ)
        → x < length m
        → All (λ d. text_le key d.name ≡ true) m
        → from m key x ≡ true
    tops [] x h all = absurd (omega arith)
    tops (d ∷ m) zero h all = all.0
    tops (d ∷ m) (suc x) h all = tops m x (omega arith) all.1

    above :
        (b : List DenialReference) (x : ℕ)
        → length b ≤ x
        → x < length (b ++ after)
        → from (b ++ after) key x ≡ true
    above [] x h k = tops after x k hi
    above (d ∷ b) zero h k = absurd (omega arith)
    above (d ∷ b) (suc x) h k = above b x (omega arith) (omega arith)

-- In a sorted list the search ends at the place that the key fits.
pub position_of_Fits :
    (before after : List DenialReference) (key : Text)
    → Sorted (before ++ after)
    → Fits key before after
    → position (before ++ after) key ≡ length before
unfolding position
position_of_Fits before after key s fits =
    let l = before ++ after in
    IsLeast-unique (length l) (from l key) (sort_search (length l) (from l key)) (length before)
      (sort_search-IsLeast (length l) (from l key) (from_mono l key s))
      (Fits-IsLeast before after key fits)

-- Every key fits somewhere in a sorted list.
pub record Split (key : Text) (l : List DenialReference) : Type 0 where
  pub before : List DenialReference
  pub after : List DenialReference
  pub whole : l ≡ before ++ after
  pub fits : Fits key before after

above-All :
    (key : Text) (d : DenialReference) (l : List DenialReference)
    → text_le key d.name ≡ true
    → All (λ e. Before d.name e.name) l
    → All (λ e. text_le key e.name ≡ true) l
above-All key d [] h all = tt
above-All key d (e ∷ l) h (b, all) =
    (text_le_trans key d.name e.name h (text_le_total e.name d.name b), above-All key d l h all)

pub Split-at : (key : Text) (l : List DenialReference) → Sorted l → Split key l
Split-at key [] s = record { before = []; after = []; whole = refl; fits = (tt, tt) }
Split-at key (d ∷ l) s = elim (Bool-cases (text_le key d.name)) [
  | inl here ↦ record {
    before = [];
    after = d ∷ l;
    whole = refl;
    fits = (tt, (here, above-All key d l here s.0));
  }
  | inr later ↦
      let t = Split-at key l s.1 in
      record {
        before = d ∷ t.before;
        after = t.after;
        whole = ap (◌∷◌ d) t.whole;
        fits = ((later, t.fits.0), t.fits.1);
      }
]
