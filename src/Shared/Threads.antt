-- ===== src/Shared/Threads.antt =====
-- Threads by number: what each one is at, a write at one number, and a sum over the first `n`.
use Prim.Native.Nat.{ℕ, zero, suc, ◌+◌, ◌≤◌, ◌<◌}
use mathlib.Core.Path.{◌≡◌, refl, subst}
use mathlib.Core.Logic.{inl, inr}
use mathlib.Core.Bool.{false}
use native.Mathlib.Omega.{arith}
use skydns.Shared.Tests.{nat_eq, nat_eq_iff, if◌then◌else◌, Bool-cases}

module _ {ℓ} {A : Type ℓ} where
  abbrev pub update : (ℕ → A) → ℕ → A → ℕ → A
  update f i a j = if nat_eq i j then a else f j

  pub update_self : (f : ℕ → A) (i : ℕ) (a : A) → update f i a i ≡ a
  update_self f i a = rw ((nat_eq_iff i i).1 refl) refl

  pub update_ne : (f : ℕ → A) (i j : ℕ) (a : A) → nat_eq i j ≡ false → update f i a j ≡ f j
  update_ne f i j a h = rw h refl

  module _ (w : A → ℕ) where
    abbrev pub sum_below : ℕ → (ℕ → A) → ℕ
    sum_below zero f = 0
    sum_below (suc n) f = sum_below n f + w (f n)

    sum_below-above :
        (n i : ℕ) (f : ℕ → A) (a : A) → n ≤ i → sum_below n (update f i a) ≡ sum_below n f
    sum_below-above zero i f a h = refl
    sum_below-above (suc n) i f a h =
        let apart : nat_eq i n ≡ false = ground arith in
        rw (apart, sum_below-above n i f a (omega arith)) refl

    pub sum_below-lower :
        (n i : ℕ) (f : ℕ → A) (a : A)
        → i < n
        → w a < w (f i)
        → sum_below n (update f i a) < sum_below n f
    sum_below-lower zero i f a h lower = absurd (omega arith)
    sum_below-lower (suc n) i f a h lower = elim (Bool-cases (nat_eq i n)) [
      | inr apart ↦
          let below : i < n = ground (arith, nat_eq_iff i n) in
          let less = sum_below-lower n i f a below lower in rw apart (omega arith)
      | inl same ↦
          let is = (nat_eq_iff i n).0 same in
          let rest = sum_below-above n i f a (omega arith) in
          let less : w a < w (f n) = rw (← is) lower in rw (same, rest) (omega arith)
    ]

-- What holds at each number, and is kept at the number that is written, holds after the write.
pub update-keeps {ℓ κ} :
    {A : Type ℓ} (P : ℕ → A → Type κ) (f : ℕ → A) (i : ℕ) (a : A)
    → (P i (f i) → P i a)
    → (j : ℕ) → P j (f j)
    → P j (update f i a j)
update-keeps P f i a keep j h = elim (Bool-cases (nat_eq i j)) [
  | inl same ↦ rw same (subst (λ k. P k (f k) → P k a) ((nat_eq_iff i j).0 same) keep h)
  | inr apart ↦ rw apart h
]
