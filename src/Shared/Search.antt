-- ===== src/Shared/Search.antt =====
-- `sort.Search` and the slice operations `append` and `copy`, on lists.
use Prim.Native.Nat.{ℕ, zero, suc, ◌+◌, ◌-◌, ◌/◌, ◌≤◌, ◌<◌}
use mathlib.Core.Path.{◌≡◌, refl, ap}
use mathlib.Core.Logic.{◌⊎◌, inl, inr}
use mathlib.Core.Bool.{Bool, true, false}
use mathlib.Core.List.{List, [], ◌∷◌, ◌++◌}
use native.Mathlib.Omega.{arith}
use skydns.Shared.Tests.{ltb, Bool-cases, if◌then◌else◌}
use skydns.Shared.Lists.{length, set, length-append}
use skydns.Shared.Strings.{take, drop, take-append}

-- The loop of `sort.Search` between `i` and `j`; each round halves the range, so a fuel of its
-- length is enough.
search : ℕ → (ℕ → Bool) → ℕ → ℕ → ℕ
search zero f i j = i
search (suc fuel) f i j =
    let h = (i + j) / 2 in
    let left = search fuel f i h in
    let right = search fuel f (h + 1) j in if ltb i j then (if f h then left else right) else i

-- `sort.Search(n, f)`
unfoldable pub sort_search : ℕ → (ℕ → Bool) → ℕ
unfolding search
sort_search n f = search n f 0 n

-- Below `n` the test is false up to `r` and true from there on.
pub record IsLeast (n : ℕ) (f : ℕ → Bool) (r : ℕ) : Type 0 where
  pub within : r ≤ n
  pub below : (x : ℕ) → x < r → f x ≡ false
  pub above : (x : ℕ) → r ≤ x → x < n → f x ≡ true

module _ (n : ℕ) (f : ℕ → Bool) (mono : (x y : ℕ) → x ≤ y → y < n → f x ≡ true → f y ≡ true) where
  mono_false : (x y : ℕ) → x ≤ y → y < n → f y ≡ false → f x ≡ false
  mono_false x y le lt e = elim (Bool-cases (f x)) [
    | inr no_x ↦ no_x
    | inl t ↦ absurd (cc (mono x y le lt t))
  ]

  search-IsLeast :
      (fuel i j : ℕ)
      → j - i ≤ fuel
      → i ≤ j
      → j ≤ n
      → ((x : ℕ) → x < i → f x ≡ false)
      → ((x : ℕ) → j ≤ x → x < n → f x ≡ true)
      → IsLeast n f (search fuel f i j)
  unfolding search
  search-IsLeast zero i j fits le top lo hi = record {
    within = omega arith;
    below = lo;
    above = λ x h k. hi x (omega arith) k;
  }
  search-IsLeast (suc fuel) i j fits le top lo hi = elim (Bool-cases (ltb i j)) [
    | inr done ↦
        rw done
          (record { within = omega arith; below = lo; above = λ x h k. hi x (ground arith) k })
    | inl more ↦ elim (Bool-cases (f ((i + j) / 2))) [
      | inr low ↦
          rw (more, low)
            (search-IsLeast fuel ((i + j) / 2 + 1) j (ground arith) (ground arith) top
              (λ x h. mono_false x ((i + j) / 2) (omega arith) (ground arith) low) hi)
      | inl high ↦
          rw (more, high)
            (search-IsLeast fuel i ((i + j) / 2) (ground arith) (ground arith) (ground arith) lo
              (λ x h k. mono ((i + j) / 2) x h k high))
    ]
  ]

  -- The binary search finds the least index at which a monotone test holds, or `n`.
  pub sort_search-IsLeast : IsLeast n f (sort_search n f)
  unfolding sort_search
  sort_search-IsLeast =
      search-IsLeast n 0 n (omega arith) (omega arith) (omega arith) (λ x h. absurd (omega arith))
        (λ x h k. absurd (omega arith))

-- There is one such index.
pub IsLeast-unique : (n : ℕ) (f : ℕ → Bool) (r s : ℕ) → IsLeast n f r → IsLeast n f s → r ≡ s
IsLeast-unique n f r s a b = elim (order_cases r s) [
  | inl e ↦ e
  | inr (inl lt) ↦ absurd (cc (a.above r (omega arith) (omega (arith, b.within)), b.below r lt))
  | inr (inr lt) ↦ absurd (cc (b.above s (omega arith) (omega (arith, a.within)), a.below s lt))
]
  where
    order_cases : (x y : ℕ) → (x ≡ y) ⊎ ((x < y) ⊎ (y < x))
    order_cases x y = omega arith

module _ {ℓ} {A : Type ℓ} where
  -- `copy(xs[i:], ys)`
  unfoldable pub copy : List A → ℕ → List A → List A
  copy [] i ys = []
  copy (x ∷ xs) (suc i) ys = x ∷ copy xs i ys
  copy (x ∷ xs) zero [] = x ∷ xs
  copy (x ∷ xs) zero (y ∷ ys) = y ∷ copy xs zero ys

  -- A shift up by one makes room at index `i`.
  copy_shift :
      (x : A) (xs : List A) (z : A) → copy (xs ++ z ∷ []) zero (x ∷ (xs ++ z ∷ [])) ≡ x ∷ xs
  unfolding copy
  copy_shift x [] z = refl
  copy_shift x (y ∷ xs) z = ap (◌∷◌ x) (copy_shift y xs z)

  shift_up :
      (before after : List A) (z v : A)
      → set
          (copy
            ((before ++ after) ++ z ∷ [])
            (suc (length before))
            (drop (length before) ((before ++ after) ++ z ∷ [])))
          (length before)
          v
        ≡ before ++ v ∷ after
  unfolding copy
  shift_up [] [] z v = refl
  shift_up [] (a ∷ after) z v = ap (◌∷◌ v) (copy_shift a after z)
  shift_up (b ∷ before) after z v = ap (◌∷◌ b) (shift_up before after z v)

  drop_past :
      (before after : List A) (d : A) → drop (suc (length before)) (before ++ d ∷ after) ≡ after
  drop_past [] after d = refl
  drop_past (b ∷ before) after d = drop_past before after d

  -- A shift down by one leaves some last element.
  shift_down :
      (before after : List A) (d : A)
      → (y : A) × (copy (before ++ d ∷ after) (length before) after ≡ (before ++ after) ++ y ∷ [])
  unfolding copy
  shift_down [] [] d = (d, refl)
  shift_down [] (a ∷ after) d = let (y, e) = shift_down [] after a in (y, ap (◌∷◌ a) e)
  shift_down (b ∷ before) after d = let (y, e) = shift_down before after d in (y, ap (◌∷◌ b) e)

  -- `xs = append(xs, z)`, `copy(xs[i+1:], xs[i:])`, `xs[i] = v`
  unfoldable pub insert_at : ℕ → A → A → List A → List A
  unfolding copy
  insert_at i z v l = let xs = l ++ z ∷ [] in set (copy xs (suc i) (drop i xs)) i v

  -- `copy(xs[i:], xs[i+1:])`, `xs[len(xs)-1] = z`, `xs = xs[:len(xs)-1]`
  unfoldable pub delete_at : ℕ → A → List A → List A
  unfolding copy
  delete_at i z l =
      let xs = copy l i (drop (suc i) l) in
      let ys = set xs (length xs - 1) z in take (length ys - 1) ys

  pub insert_at_lem :
      (before after : List A) (z v : A)
      → insert_at (length before) z v (before ++ after) ≡ before ++ v ∷ after
  unfolding insert_at
  insert_at_lem before after z v = shift_up before after z v

  last_set : (l : List A) (y z : A) → set (l ++ y ∷ []) (length (l ++ y ∷ []) - 1) z ≡ l ++ z ∷ []
  last_set [] y z = refl
  last_set (x ∷ l) y z = rw (len_lem) (ap (◌∷◌ x) (rw (len_sub) at (last_set l y z)))
    where
      len_lem : length (x ∷ (l ++ y ∷ [])) - 1 ≡ suc (length l)
      len_lem = omega (arith, length-append l (y ∷ []))

      len_sub : length (l ++ y ∷ []) - 1 ≡ length l
      len_sub = omega (arith, length-append l (y ∷ []))

  take_last : (l : List A) (z : A) → take (length (l ++ z ∷ []) - 1) (l ++ z ∷ []) ≡ l
  take_last l z = rw len_sub (take-append l (z ∷ []))
    where
      len_sub : length (l ++ z ∷ []) - 1 ≡ length l
      len_sub = omega (arith, length-append l (z ∷ []))

  pub delete_at_lem :
      (before after : List A) (d z : A)
      → delete_at (length before) z (before ++ d ∷ after) ≡ before ++ after
  unfolding delete_at
  delete_at_lem before after d z =
      let (y, e) = shift_down before after d in
      rw (drop_past before after d, e, last_set (before ++ after) y z)
        (take_last (before ++ after) z)
