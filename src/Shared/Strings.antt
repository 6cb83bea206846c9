-- ===== src/Shared/Strings.antt =====
-- What the program uses of package `strings`, beside `ToLower`: `Split`, `Join`, `Replace`,
-- `HasSuffix`, `TrimSuffix`, `TrimPrefix`.
use Prim.Native.Nat.{ℕ, zero, suc, ◌-◌}
use mathlib.Core.Path.{◌≡◌, refl, ap}
use mathlib.Core.Logic.{◌≢◌, inl, inr}
use mathlib.Core.Bool.{Bool, true, ◌&&◌}
use mathlib.Core.Option.{Option, none, some}
use mathlib.Core.List.{List, [], ◌∷◌, ◌++◌, map}
use native.Mathlib.Omega.{arith}
use skydns.Shared.Tests.{leb, nat_eq, if◌then◌else◌, Bool-cases}
use skydns.Shared.Lists.{length, All, length-append}
use skydns.Shared.Bytes.{Text, text_eq, text_eq_iff, lower, to_lower}

abbrev pub dot : ℕ
dot = b'.'

abbrev cons_head : ℕ → List Text → List Text
cons_head c [] = (c ∷ []) ∷ []
cons_head c (p ∷ ps) = (c ∷ p) ∷ ps

-- `strings.Split(s, ".")`: never empty.
unfoldable pub split : Text → List Text
split [] = [] ∷ []
split (c ∷ s) = if nat_eq c dot then [] ∷ split s else cons_head c (split s)

-- `strings.Join(parts, ".")`
unfoldable pub join : List Text → Text
join [] = []
join (p ∷ []) = p
join (p ∷ q ∷ ps) = p ++ dot ∷ join (q ∷ ps)

-- `strings.Replace(s, ".", "-", -1)`
unfoldable pub hyphenate : Text → Text
hyphenate = map (λ c. if nat_eq c dot then b'-' else c)

module _ {ℓ} {A : Type ℓ} where
  abbrev pub take : ℕ → List A → List A
  take zero xs = []
  take (suc n) [] = []
  take (suc n) (x ∷ xs) = x ∷ take n xs

  abbrev pub drop : ℕ → List A → List A
  drop zero xs = xs
  drop (suc n) [] = []
  drop (suc n) (x ∷ xs) = drop n xs

-- `strings.HasSuffix(s, t)`
unfoldable pub has_suffix : Text → Text → Bool
has_suffix s t = leb (length t) (length s) && text_eq (drop (length s - length t) s) t

-- `strings.TrimSuffix(s, t)`
unfoldable pub trim_suffix : Text → Text → Text
unfolding has_suffix
trim_suffix s t = if has_suffix s t then take (length s - length t) s else s

-- A text with no dot in it: a label.
abbrev pub IsLabel : Text → Type 0
IsLabel = All (λ c. c ≢ dot)

pub split-ne-nil : (s : Text) → split s ≢ []
unfolding split
split-ne-nil [] = cc
split-ne-nil (c ∷ s) = elim (Bool-cases (nat_eq c dot)) [
  | inl d ↦ rw d (λ h. cc)
  | inr d ↦ rw d (cons_head-ne-nil (split s))
]
  where
    cons_head-ne-nil : (ps : List Text) → cons_head c ps ≢ []
    cons_head-ne-nil [] h = cc
    cons_head-ne-nil (p ∷ ps) h = cc

split_label : (p : Text) → IsLabel p → split p ≡ p ∷ []
unfolding split
split_label [] h = refl
split_label (c ∷ p) h = ground (arith, split_label p)

split-append : (p s : Text) → IsLabel p → split (p ++ dot ∷ s) ≡ p ∷ split s
unfolding split
split-append [] s h = refl
split-append (c ∷ p) s h = ground (arith, split-append p s)

-- Splitting what was joined gives the labels back.
pub split-join : (p : Text) (ps : List Text) → All IsLabel (p ∷ ps) → split (join (p ∷ ps)) ≡ p ∷ ps
unfolding join
split-join p [] h = split_label p h.0
split-join p (q ∷ ps) h = rw (split-append p _ h.0) (ap (◌∷◌ p) (split-join q ps h.1))

pub hyphenate-IsLabel : (s : Text) → IsLabel (hyphenate s)
unfolding hyphenate
hyphenate-IsLabel [] = tt
hyphenate-IsLabel (c ∷ s) = (ground arith, hyphenate-IsLabel s)

lower-ne-dot : (c : ℕ) → c ≢ dot → lower c ≢ dot
lower-ne-dot c h = ground arith

pub to_lower-IsLabel : (s : Text) → IsLabel s → IsLabel (to_lower s)
unfolding to_lower
to_lower-IsLabel [] h = tt
to_lower-IsLabel (c ∷ s) (p, h) = (lower-ne-dot c p, to_lower-IsLabel s h)

pub drop-append {ℓ} : {A : Type ℓ} (xs ys : List A) → drop (length xs) (xs ++ ys) ≡ ys
drop-append [] ys = refl
drop-append (x ∷ xs) ys = drop-append xs ys

pub take-append {ℓ} : {A : Type ℓ} (xs ys : List A) → take (length xs) (xs ++ ys) ≡ xs
take-append [] ys = refl
take-append (x ∷ xs) ys = ap (◌∷◌ x) (take-append xs ys)

length-append-sub : (s t : Text) → length (s ++ t) - length t ≡ length s
length-append-sub s t = omega (arith, length-append s t)

pub has_suffix-append : (s t : Text) → has_suffix (s ++ t) t ≡ true
unfolding has_suffix
has_suffix-append s t =
    rw (length-append-sub s t, drop-append s t, (text_eq_iff t t).1 refl)
      (ground (arith, length-append s t))

pub trim_suffix-append : (s t : Text) → trim_suffix (s ++ t) t ≡ s
unfolding trim_suffix
trim_suffix-append s t = rw has_suffix-append (rw (length-append-sub s t) (take-append s t))

-- `strings.TrimPrefix(s, prefix)`
abbrev pub after_prefix : Text → Text → Option Text
after_prefix s [] = some s
after_prefix [] (d ∷ prefix) = none
after_prefix (c ∷ s) (d ∷ prefix) = if nat_eq c d then after_prefix s prefix else none

abbrev pub trim_prefix : Text → Text → Text
trim_prefix s prefix = elim (after_prefix s prefix) [ none ↦ s | some rest ↦ rest ]
