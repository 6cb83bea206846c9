-- ===== src/Registry/Tree/Shape/Shrink.antt =====
-- `remove` keeps the shape, takes one service away, and leaves the other paths as they are.
use skydns.Shared.{
  ℕ, zero, suc, ◌<◌, ℤ, pos, decr, is_zero, Text, List, ◌∷◌, none, some, length, text_Comparable,
  ◌≡◌, ◌≢◌, ◌⊎◌, refl, ap, sym, ◌∙◌, arith, inl, inr, true, false, if◌then◌else◌,
}
use skydns.Shared.GoMap
use skydns.Registry.Tree.{Node, leaves, size, with_leaves, remove, shrunk, Result, ok, err}
use skydns.Registry.Tree.Find.{find}
use skydns.Registry.Tree.Shape.{
  count, Inhabited, Balanced, count-with_leaves, count-eq-sum_by, with_leaves-Balanced,
}

abbrev pub Shrunk : ℕ → Node → Node → Type 0
Shrunk d n n' = Balanced d n' × (suc (count d n') ≡ count d n)

decr_pos : (x : ℤ) (a b : ℕ) → x ≡ pos a → suc b ≡ a → decr x ≡ pos b
decr_pos x a b e f = ap decr (e ∙ ap pos (sym f))

module _ (d : ℕ) (n c : Node) (k : Text) (b : Balanced (suc d) n)
    (old : GoMap.lookup (leaves n) k ≡ some c) where
  -- A child with one service goes.
  pub delete-Shrunk :
      count d c ≡ 1 → Shrunk (suc d) n (with_leaves n (GoMap.delete (leaves n) k) (decr (size n)))
  delete-Shrunk one =
      let ls = GoMap.delete (leaves n) k in
      let less = GoMap.sum_by-delete (count d) (leaves n) k c b.0 old in
      let fewer : suc (GoMap.sum_by (count d) ls) ≡ count (suc d) n =
        omega (arith, count-eq-sum_by d n) in
      (
        with_leaves-Balanced d n ls (decr (size n)) (GoMap.delete-Distinct (leaves n) k b.0)
            (decr_pos (size n) (count (suc d) n) (GoMap.sum_by (count d) ls) b.1 fewer)
            (GoMap.All-delete (Inhabited (Balanced d) d) (leaves n) k b.2),
        ap suc (count-with_leaves d n ls (decr (size n))) ∙ fewer,
      )

  -- A child with more services has one less.
  pub replace-Shrunk :
      (c' : Node)
      → Balanced d c'
      → 0 < count d c'
      → suc (count d c') ≡ count d c
      → Shrunk (suc d) n (with_leaves n (GoMap.insert (leaves n) k c') (decr (size n)))
  replace-Shrunk c' balanced some_left less =
      let ls = GoMap.insert (leaves n) k c' in
      let sums = GoMap.sum_by-insert_old (count d) (leaves n) k c c' old in
      let fewer : suc (GoMap.sum_by (count d) ls) ≡ count (suc d) n =
        omega (arith, count-eq-sum_by d n) in
      (
        with_leaves-Balanced d n ls (decr (size n)) (GoMap.insert-Distinct (leaves n) k c' b.0)
            (decr_pos (size n) (count (suc d) n) (GoMap.sum_by (count d) ls) b.1 fewer)
            (GoMap.All-insert (Inhabited (Balanced d) d) (leaves n) k c' b.2 (balanced, some_left)),
        ap suc (count-with_leaves d n ls (decr (size n))) ∙ fewer,
      )

pub shrunk-ok :
    (n : Node) (k : Text) (x : Result (Unit {0}) × Node)
    → x.0 ≡ ok tt
    → shrunk n k x ≡ (
      ok tt,
      with_leaves n
          (if is_zero (size x.1) then GoMap.delete (leaves n) k else GoMap.insert (leaves n) k x.1)
          (decr (size n)),
    )
shrunk-ok n k (ok u, c) e = ground (arith, GoMap.delete-insert (leaves n) k c)
shrunk-ok n k (err q, c) e = cc

is_zero_pos : (m : ℕ) → 0 < m → is_zero (pos m) ≡ false
is_zero_pos zero h = absurd (omega arith)
is_zero_pos (suc m) h = refl

-- Whether the child is left empty.
pub left_cases :
    (d : ℕ) (c' : Node)
    → Balanced (suc d) c'
    → ((is_zero (size c') ≡ true) × (count (suc d) c' ≡ 0))
      ⊎ ((is_zero (size c') ≡ false) × (0 < count (suc d) c'))
left_cases d c' b = elim (zero_cases (count (suc d) c')) [
  | inl e ↦ inl (ap is_zero (b.1 ∙ ap pos e), e)
  | inr h ↦ inr (ap is_zero b.1 ∙ is_zero_pos (count (suc d) c') h, h)
]
  where
    zero_cases : (m : ℕ) → (m ≡ 0) ⊎ (0 < m)
    zero_cases zero = inl refl
    zero_cases (suc m) = inr (omega arith)

-- `remove` succeeds on a stored path.
pub record IsRemoved (p : List Text) (n : Node) : Type 0 where
  pub result : (remove p n).0 ≡ ok tt
  pub shape : Shrunk (length p) n (remove p n).1
  pub gone : find p (remove p n).1 ≡ none
  pub others :
      (j : Text) (q : List Text)
      → length p ≡ suc (length q)
      → p ≢ j ∷ q
      → find (j ∷ q) (remove p n).1 ≡ find (j ∷ q) n
