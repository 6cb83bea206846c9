-- ===== src/Server/RoundRobin/Shuffle.antt =====
-- The round robin ends, and loses and adds no record.
use mathlib.Core.List.{Permᴰ}
use mathlib.Core.List.Permᴰ
use native.Mathlib.Nat
use skydns.Shared.{
  ℕ, zero, suc, ◌+◌, ◌*◌, ◌%◌, ◌^◌, ◌<◌, ◌≤◌, ltb, ltb→lt, nat_eq, nat_eq_iff, List, [], ◌∷◌,
  Option, some, length, get_elem?, set, length-set, ◌≡◌, refl, ap, ◌∙◌, arith, Bool-cases, inl, inr,
}
use skydns.Server.RoundRobin.{swap, other_place, rounds, swap_each, shuffle_by, shuffle}

get_elem?-lt {ℓ} :
    {A : Type ℓ} (l : List A) (i : ℕ) → i < length l → (x : A) × (get_elem? l i ≡ some x)
get_elem?-lt [] i h = absurd (omega arith)
get_elem?-lt (x ∷ l) zero h = (x, refl)
get_elem?-lt (x ∷ l) (suc i) h = get_elem?-lt l i (omega arith)

set_same {ℓ} :
    {A : Type ℓ} (l : List A) (i : ℕ) (x : A) → get_elem? l i ≡ some x → set (set l i x) i x ≡ l
set_same [] i x e = refl
set_same (y ∷ l) zero x e = cc
set_same (y ∷ l) (suc i) x e = ap (◌∷◌ y) (set_same l i x e)

rounds_le : (id : ℕ → ℕ) (l k : ℕ) → rounds id l k ≤ l * 4
rounds_le id l k =
    Nat.le_trans (Nat.mod-le (l * (id k % 4 + 1)) (2 ^ 16)) (Nat.mul-le-mul_left l (omega arith))

other_place_lt : (l q p : ℕ) → 0 < l → p < l → other_place l q p < l
other_place_lt l q p some_l h = elim (Bool-cases (nat_eq q p)) [
  | inl same ↦ rw same (Nat.mod-lt (p + 1) some_l)
  | inr other ↦ rw other h
]

module _ {ℓ} {A : Type ℓ} where
  -- The head of a list changes places with an element of the tail.
  Perm-head :
      (x y : A) (l : List A) (j : ℕ) → get_elem? l j ≡ some y → Permᴰ (y ∷ set l j x) (x ∷ l)
  Perm-head x y [] j e = cc
  Perm-head x y (z ∷ l) zero e = let same : z ≡ y = cc in rw same (Permᴰ.swap refl refl)
  Perm-head x y (z ∷ l) (suc j) e =
      Permᴰ.trans (Permᴰ.swap refl refl)
        (Permᴰ.trans (Permᴰ.cons refl (Perm-head x y l j e)) (Permᴰ.swap refl refl))

  Perm-swap :
      (l : List A) (q p : ℕ) (x y : A)
      → get_elem? l q ≡ some x
      → get_elem? l p ≡ some y
      → Permᴰ (set (set l q y) p x) l
  Perm-swap [] q p x y e h = cc
  Perm-swap (z ∷ l) zero zero x y e h = let same : z ≡ x = cc in rw same (Permᴰ.refl (x ∷ l))
  Perm-swap (z ∷ l) zero (suc p) x y e h = let same : z ≡ x = cc in rw same (Perm-head x y l p h)
  Perm-swap (z ∷ l) (suc q) zero x y e h = let same : z ≡ y = cc in rw same (Perm-head y x l q e)
  Perm-swap (z ∷ l) (suc q) (suc p) x y e h = Permᴰ.cons refl (Perm-swap l q p x y e h)

  -- A result that is some permutation of the records.
  abbrev pub IsShuffled : List A → Option (List A) → Type ℓ
  IsShuffled records o = (l : List A) × (o ≡ some l) × Permᴰ l records

  swap-IsShuffled :
      (records : List A) (q p : ℕ)
      → q < length records
      → p < length records
      → (l : List A) × (swap records q p ≡ some l) × Permᴰ l records × (length l ≡ length records)
  swap-IsShuffled records q p h k =
      let (x, at) = get_elem?-lt records q h in
      let (y, to) = get_elem?-lt records p k in
      (
        set (set records q y) p x,
        rw (at, to) refl,
        Perm-swap records q p x y at to,
        length-set (set records q y) p x ∙ length-set records q y,
      )

  -- With fuel for 4l rounds the loop ends.
  swap_each-IsShuffled :
      (id : ℕ → ℕ) (fuel l j k : ℕ) (records : List A)
      → l ≤ length records
      → j ≤ l * 4
      → l * 4 < j + fuel
      → IsShuffled records (swap_each id fuel l j k records)
  unfolding swap_each
  swap_each-IsShuffled id zero l j k records fits started enough = absurd (omega arith)
  swap_each-IsShuffled id (suc fuel) l j k records fits started enough =
      elim (Bool-cases (ltb j (rounds id l k))) [
        | inr done ↦ rw done (records, refl, Permᴰ.refl records)
        | inl more ↦
            let bound = rounds_le id l k in
            let small = ltb→lt j (rounds id l k) more in
            let some_l : 0 < l = omega arith in
            let q = id (k + 1) % l in
            let p = other_place l q (id (k + 2) % l) in
            let q_lt = Nat.mod-lt (id (k + 1)) some_l in
            let p_lt =
              other_place_lt l q (id (k + 2) % l) some_l (Nat.mod-lt (id (k + 2)) some_l) in
            let (next, at, same, long) = swap-IsShuffled records q p (omega arith) (omega arith) in
            let (last, is, rest) =
              swap_each-IsShuffled id fuel l (suc j) (k + 3) next (omega arith) (omega arith)
                (omega arith) in
            rw (more, at) (last, is, Permᴰ.trans rest same)
      ]

  shuffle_by-IsShuffled :
      (id : ℕ → ℕ) (l : ℕ) (records : List A)
      → l ≤ length records
      → IsShuffled records (shuffle_by id l records)
  shuffle_by-IsShuffled id l records fits = elim (Bool-cases (nat_eq l 1)) [
    | inl single ↦ rw single (records, refl, Permᴰ.refl records)
    | inr several ↦ elim (Bool-cases (nat_eq l 2)) [
      | inr more ↦
          rw (several, more)
            (swap_each-IsShuffled id (4 * l + 1) l 0 0 records fits (omega arith) (omega arith))
      | inl pair ↦ elim (Bool-cases (nat_eq (id 0 % 2) 0)) [
        | inr odd ↦ rw (several, pair, odd) (records, refl, Permᴰ.refl records)
        | inl even ↦
            let two = (nat_eq_iff l 2).0 pair in
            let (next, at, same, long) = swap-IsShuffled records 0 1 (omega arith) (omega arith) in
            rw (several, pair, even, at) (next, refl, same)
      ]
    ]
  ]

  -- However the random numbers fall, the round robin ends, reads no record out of range, and gives a
  -- permutation of the records.
  pub shuffle-IsShuffled : (id : ℕ → ℕ) (records : List A) → IsShuffled records (shuffle id records)
  unfolding shuffle
  shuffle-IsShuffled id records =
      shuffle_by-IsShuffled id (length records % 2 ^ 16) records
        (Nat.mod-le (length records) (2 ^ 16))
